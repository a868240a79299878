-- ===== src/Art/Stacks/Hit.antt =====
-- do_leaf of src/lib/art/art.c at the leaf of the stack itself: only the count changes.
use callstack_count.Prelude.{
  ℕ, ◌+◌, ◌%◌, ◌^◌, ◌<◌, ◌≡◌, refl, sym, ap, ◌∙◌, inl, inr, true, false, some, get_elem?, set,
  get_elem?-set, length-set, get_elem?-bound, arith, ◌==◌, Bool-cases, if◌then◌else◌,
}
use callstack_count.Art.{Node, leaf, inner_4, memcmp_zero}
use callstack_count.Art.Insert.{ArtState}
use callstack_count.Art.Stacks.{Holds, IsLevelled, count_of}
use callstack_count.Art.Stacks.Paths.{same_node}
use callstack_count.Art.Stacks.Searching.{count_of-Holds}
use callstack_count.Art.Stacks.Matching.{memcmp_zero_equal}
use callstack_count.Art.Stacks.Keeping.{
  KeepsAll, Keeps-self, Reach-Keeps, Inserted, counted_again, grown_to,
}

-- The leaf `p` with another count.
module _ (n : ℕ) (lev : ℕ → ℕ) (st : ArtState) (v : IsLevelled n lev st) (p c : ℕ) (m : Node ℕ)
    (here : get_elem? st.heap p ≡ some m) (lf : m.flags ≡ leaf) where
  abbrev counted_at : ArtState
  counted_at = record { heap = set st.heap p (record m { count = c }); root = st.root }

  get_counted :
      (x : ℕ)
      → get_elem? counted_at.heap x
        ≡ (if p == x then some (record m { count = c }) else get_elem? st.heap x)
  get_counted x =
      get_elem?-set st.heap p x (record m { count = c }) (get_elem?-bound st.heap p m here)

  -- A node of the one heap is a node of the other, up to its count.
  after_node :
      (x : ℕ) (a : Node ℕ)
      → get_elem? counted_at.heap x ≡ some a
      → (b : Node ℕ) × (get_elem? st.heap x ≡ some b) × (a ≡ record b { count = a.count })
  after_node x a h = elim (Bool-cases (p == x)) [
    | inl same ↦
        let at : p ≡ x = ground (arith, same) in
        let both : some (record m { count = c }) ≡ some a =
          sym (get_counted x ∙ rw same refl) ∙ h in
        let e : record m { count = c } ≡ a = cc in
        (
          m,
          ap (get_elem? st.heap) (sym at) ∙ here,
          sym e ∙ ap (λ (z : Node ℕ). record m { count = z.count }) e,
        )
    | inr other ↦ (a, sym (get_counted x ∙ rw other refl) ∙ h, refl)
  ]

  inner_apart :
      (x : ℕ) (b : Node ℕ) → get_elem? st.heap x ≡ some b → b.flags ≡ inner_4 → (p == x) ≡ false
  inner_apart x b h k = elim (Bool-cases (p == x)) [
    | inr other ↦ other
    | inl same ↦
        let e = same_node st p x m b (ground (arith, same)) here h in
        let kinds : leaf ≡ inner_4 = sym lf ∙ ap (λ (z : Node ℕ). z.flags) e ∙ k in absurd (cc)
  ]

  keeps_forth : KeepsAll st counted_at
  keeps_forth x b h k = (b, get_counted x ∙ rw (inner_apart x b h k) h, Keeps-self b k)

  inner_back :
      (x : ℕ) (a : Node ℕ)
      → get_elem? counted_at.heap x ≡ some a
      → a.flags ≡ inner_4
      → get_elem? st.heap x ≡ some a
  inner_back x a h k =
      let (b, h', e) = after_node x a h in
      let inner : b.flags ≡ inner_4 = sym (ap (λ (z : Node ℕ). z.flags) e) ∙ k in
      let same = get_counted x ∙ rw (inner_apart x b h' inner) refl in sym same ∙ h

  counted-IsLevelled : IsLevelled n lev counted_at
  counted-IsLevelled = record {
    kinds = λ x a h.
        let (b, h', e) = after_node x a h in
        let flags = ap (λ (z : Node ℕ). z.flags) e in
        elim (v.kinds x b h') [ inl k ↦ inl (flags ∙ k) | inr k ↦ inr (flags ∙ k) ];
    sizes = λ x a h k.
        let (b, h', e) = after_node x a h in
        ap (λ (z : Node ℕ). z.key_len) e
        ∙ v.sizes x b h' (sym (ap (λ (z : Node ℕ). z.flags) e) ∙ k);
    leaves = λ x a h k.
        let (b, h', e) = after_node x a h in
        let (l, r) = v.leaves x b h' (sym (ap (λ (z : Node ℕ). z.flags) e) ∙ k) in
        let key : a.key ≡ b.key = ap (λ (z : Node ℕ). z.key) e in
        (l, rw key (Reach-Keeps st counted_at keeps_forth b.key refl r));
    fits = λ x a h k. v.fits x a (inner_back x a h k) k;
    used = λ x a i h k. v.used x a i (inner_back x a h k) k;
    levels = λ x a i q h k e.
        let (lo, l) = v.levels x a i q (inner_back x a h k) k e in
        (omega (arith, lo, length-set st.heap p (record m { count = c })), l);
    own = λ x y a b i j q h k e h' k' e'.
        v.own x y a b i j q (inner_back x a h k) k e (inner_back y b h' k') k' e';
    roots = λ r e.
        let (lo, z) = v.roots r e in
        (omega (arith, lo, length-set st.heap p (record m { count = c })), z);
  }

  keeps_back : KeepsAll counted_at st
  keeps_back x a h k = (a, inner_back x a h k, Keeps-self a k)

  -- Every other stack is where it was.
  other_forth :
      (t : ℕ → ℕ) (q k : ℕ) → (p == q) ≡ false → Holds n st t q k → Holds n counted_at t q k
  other_forth t q k other h = record {
    link = h.link;
    depth = h.depth;
    path = Reach-Keeps st counted_at keeps_forth t refl h.path;
    node = h.node;
    here = get_counted q ∙ rw other h.here;
    kind = h.kind;
    size = h.size;
    key = h.key;
    counted = h.counted;
  }

  other_back :
      (t : ℕ → ℕ) (q k : ℕ) → (p == q) ≡ false → Holds n counted_at t q k → Holds n st t q k
  other_back t q k other h = record {
    link = h.link;
    depth = h.depth;
    path = Reach-Keeps counted_at st keeps_back t refl h.path;
    node = h.node;
    here = sym (get_counted q ∙ rw other refl) ∙ h.here;
    kind = h.kind;
    size = h.size;
    key = h.key;
    counted = h.counted;
  }

  -- The leaf of one stack is not where another is held.
  apart_of :
      (t f : ℕ → ℕ) (q : ℕ) (b : Node ℕ)
      → ((j : ℕ) → j < n → m.key j ≡ f j)
      → memcmp_zero t f n ≡ false
      → ((j : ℕ) → j < n → b.key j ≡ t j)
      → get_elem? st.heap q ≡ some b
      → (p == q) ≡ false
  apart_of t f q b mine differ key h = elim (Bool-cases (p == q)) [
    | inr other ↦ other
    | inl same ↦
        let e : m ≡ b = same_node st p q m b (ground (arith, same)) here h in
        let all : memcmp_zero t f n ≡ true =
          memcmp_zero_equal t f n
            (λ j l. sym (key j l) ∙ sym (ap (λ (z : Node ℕ). z.key j) e) ∙ mine j l) in
        absurd (let clash : true ≡ false = sym all ∙ differ in cc)
  ]

-- Where a stack is held, counting it once more is its insertion.
pub hit-Inserted :
    (n : ℕ) (lev : ℕ → ℕ) (st : ArtState) (f : ℕ → ℕ) (p c : ℕ) (h : Holds n st f p c)
    → IsLevelled n lev st
    → n < 2 ^ 32
    → Inserted n f st (record {
      heap = set st.heap p (record h.node { count = (c + 1) % 2 ^ 64 });
      root = st.root;
    })
hit-Inserted n lev st f p c h v small =
    let k = (c + 1) % 2 ^ 64 in
    let again : counted_again (count_of n f st) ≡ k =
      ap counted_again (count_of-Holds n lev st f p c v small h) in
    let here : (p == p) ≡ true = ground arith in
    record {
      tree = (lev, counted-IsLevelled n lev st v p k h.node h.here h.kind);
      mine = (
        p,
        record {
          link = h.link;
          depth = h.depth;
          path = Reach-Keeps st _ (keeps_forth n lev st v p k h.node h.here h.kind) f refl h.path;
          node = record h.node { count = k };
          here = get_counted n lev st v p k h.node h.here h.kind p ∙ rw here refl;
          kind = h.kind;
          size = h.size;
          key = h.key;
          counted = sym again;
        },
      );
      others = λ t q k' differ o. (
        q,
        other_forth n lev st v p k h.node h.here h.kind t q k'
            (apart_of n lev st v p k h.node h.here h.kind t f q o.node h.key differ o.key o.here) o,
      );
      grown = λ b one narrow q a there kind.
          let below =
            narrow q a (inner_back n lev st v p k h.node h.here h.kind q a there kind) kind in
          omega (arith, below, ap (λ z. grown_to z b) (count_of-Holds n lev st f p c v small h));
      keys = λ q a there kind.
          let (b, h', e) = after_node n lev st v p k h.node h.here h.kind q a there in
          inr (q, b, h', sym (ap (λ (z : Node ℕ). z.flags) e) ∙ kind, ap (λ (z : Node ℕ). z.key) e);
      back = λ t q k' differ o.
          let (b, there, e) = after_node n lev st v p k h.node h.here h.kind q o.node o.here in
          let key : (j : ℕ) → j < n → b.key j ≡ t j =
            λ j l. sym (ap (λ (z : Node ℕ). z.key j) e) ∙ o.key j l in
          (
            q,
            other_back n lev st v p k h.node h.here h.kind t q k'
                (apart_of n lev st v p k h.node h.here h.kind t f q b h.key differ key there) o,
          );
    }
