-- ===== src/Art/Stacks/First.antt =====
-- insert of src/lib/art/art.c where the root is NULL: the first leaf.
use callstack_count.Prelude.{
  ℕ, suc, ◌+◌, ◌<◌, ◌≡◌, ◌≢◌, refl, sym, ap, ◌∙◌, inl, inr, ◌⊎◌, true, false, none, some, [], ◌∷◌,
  ◌++◌, length, length-append, get_elem?, get_elem?-append_left, get_elem?-append_last,
  get_elem?-bound, arith, ◌==◌, Bool-cases,
}
use callstack_count.Art.{Node, leaf, inner_4, memcmp_zero, update, alloc_node}
use callstack_count.Art.Insert.{ArtState, at_root}
use callstack_count.Art.Insert.Search.{search}
use callstack_count.Art.Stacks.{Reach, top, IsLevelled, stream_of, found_count, count_of}
use callstack_count.Art.Stacks.Paths.{Reach-moved, rootless}
use callstack_count.Art.Stacks.Matching.{memcmp_zero_equal}
use callstack_count.Art.Stacks.Keeping.{Inserted, counted_again, grown_to}
use callstack_count.Art.Stacks.Extend.{leaf_of}

module _ (n : ℕ) (lev : ℕ → ℕ) (st : ArtState) (v : IsLevelled n lev st) (f : ℕ → ℕ)
    (empty : st.root ≡ none) where
  abbrev new : ℕ
  new = length st.heap

  abbrev first : ArtState
  first = record { heap = st.heap ++ leaf_of f n ∷ []; root = some new }

  abbrev lev' : ℕ → ℕ
  lev' = update lev new 0

  no_leaf : (p : ℕ) (m : Node ℕ) → get_elem? st.heap p ≡ some m → m.flags ≢ leaf
  no_leaf p m h k = let (l, r) = v.leaves p m h k in rootless empty r

  after_node :
      (x : ℕ) (a : Node ℕ)
      → get_elem? first.heap x ≡ some a
      → ((x ≡ new) × (a ≡ leaf_of f n)) ⊎ (get_elem? st.heap x ≡ some a)
  after_node x a h = elim (Bool-cases (new == x)) [
    | inl at ↦
        let nx : new ≡ x = ground (arith, at) in
        let both : some (leaf_of f n) ≡ some a =
          sym (get_elem?-append_last st.heap (leaf_of f n)) ∙ ap (get_elem? first.heap) nx ∙ h in
        inl (sym nx, cc)
    | inr other ↦
        let bound = get_elem?-bound first.heap x a h in
        let low : x < new =
          ground (arith, bound, other, length-append st.heap (leaf_of f n ∷ [])) in
        inr (sym (get_elem?-append_left st.heap (leaf_of f n) x low) ∙ h)
  ]

  inner_back :
      (x : ℕ) (a : Node ℕ)
      → get_elem? first.heap x ≡ some a
      → a.flags ≡ inner_4
      → (get_elem? st.heap x ≡ some a) × (lev' x ≡ lev x)
  unfolding alloc_node
  inner_back x a h k = elim (after_node x a h) [
    | inl (at, e) ↦
        let kinds : leaf ≡ inner_4 = sym (ap (λ (z : Node ℕ). z.flags) e) ∙ k in absurd (cc)
    | inr h' ↦
        let low = get_elem?-bound st.heap x a h' in
        let other : (new == x) ≡ false = ground (arith, low) in (h', rw other refl)
  ]

  path_new : Reach first f at_root new 0
  path_new = top refl refl

  at_new : lev' new ≡ 0
  at_new = let at : (new == new) ≡ true = ground arith in rw at refl

  size_after : length first.heap ≡ new + 1
  size_after = length-append st.heap (leaf_of f n ∷ [])

  first-IsLevelled : IsLevelled n lev' first
  unfolding alloc_node
  first-IsLevelled = record {
    kinds = λ x a h. elim (after_node x a h) [
      | inl (at, e) ↦ inl (ap (λ (z : Node ℕ). z.flags) e)
      | inr h' ↦ v.kinds x a h'
    ];
    sizes = λ x a h k. elim (after_node x a h) [
      | inl (at, e) ↦ ap (λ (z : Node ℕ). z.key_len) e
      | inr h' ↦ v.sizes x a h' k
    ];
    leaves = λ x a h k. elim (after_node x a h) [
      | inl (at, e) ↦ (
        _,
        Reach-moved (sym (ap (λ (z : Node ℕ). z.key) e)) (sym at) (sym (ap lev' at ∙ at_new))
            path_new,
      )
      | inr h' ↦ absurd (no_leaf x a h' k)
    ];
    fits = λ x a h k. let (h', same) = inner_back x a h k in omega (arith, v.fits x a h' k, same);
    used = λ x a i h k lt. v.used x a i (inner_back x a h k).0 k lt;
    levels = λ x a i q h k c.
        let (h', same) = inner_back x a h k in
        let (low, deep) = v.levels x a i q h' k c in
        let other : (new == q) ≡ false = ground (arith, low) in
        (
          omega (arith, low, size_after),
          rw other (deep ∙ ap (λ z. z + a.prefix_len + 1) (sym same)),
        );
    own = λ x y a b i j q h k c h' k' c'.
        v.own x y a b i j q (inner_back x a h k).0 k c (inner_back y b h' k').0 k' c';
    roots =
        λ q e. let at : new ≡ q = cc in (omega (arith, at, size_after), sym (ap lev' at) ∙ at_new);
  }

  pub count_of-rootless : (t : ℕ → ℕ) → count_of n t st ≡ none
  unfolding count_of found_count search
  count_of-rootless t =
      let next : n + 1 ≡ suc n = omega arith in
      ap (λ z. found_count st (search (n + 1) z (stream_of t n 0) 0 st)) empty ∙ rw next refl

  pub first-Inserted : Inserted n f st first
  unfolding alloc_node
  first-Inserted = record {
    tree = (lev', first-IsLevelled);
    mine = (
      new,
      record {
        link = at_root;
        depth = 0;
        path = path_new;
        node = leaf_of f n;
        here = get_elem?-append_last st.heap (leaf_of f n);
        kind = refl;
        size = refl;
        key = λ j h. refl;
        counted = sym (ap counted_again (count_of-rootless f));
      },
    );
    others = λ t q c differ o. absurd (rootless empty o.path);
    back = λ t q c differ o. elim (after_node q o.node o.here) [
      | inl (at, e) ↦
          let all : memcmp_zero t f n ≡ true =
            memcmp_zero_equal t f n (λ j h. sym (o.key j h) ∙ ap (λ (z : Node ℕ). z.key j) e) in
          absurd (let clash : true ≡ false = sym all ∙ differ in cc)
      | inr h ↦ absurd (no_leaf q o.node h o.kind)
    ];
    grown = λ b one narrow q a h k.
        omega (
          arith,
          narrow q a (inner_back q a h k).0 k,
          ap (λ z. grown_to z b) (count_of-rootless f),
        );
    keys = λ q a h k. elim (after_node q a h) [
      | inl (at, e) ↦ inl (ap (λ (z : Node ℕ). z.key) e)
      | inr h' ↦ absurd (no_leaf q a h' k)
    ];
  }
