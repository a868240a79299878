-- ===== src/Art/Stacks/Extend.antt =====
-- The branch of insert in src/lib/art/art.c that adds a leaf to an inner node.
pub mod Levelled
use mathlib.Core.Path.{subst}
use callstack_count.Prelude.{
  ℕ, ◌+◌, ◌<◌, ◌≡◌, refl, sym, ap, ◌∙◌, inl, inr, ◌⊎◌, true, false, none, some, [], ◌∷◌, ◌++◌,
  length, get_elem?, set, get_elem?-set, length-set, length-append, get_elem?-bound,
  get_elem?-append_left, get_elem?-append_last, arith, ◌==◌, Bool-cases, if◌then◌else◌,
}
use callstack_count.Art.{Node, leaf, inner_4, find_key, memcmp_zero, alloc_node, update}
use callstack_count.Art.Children.{find_key-update, find_key-hit}
use callstack_count.Art.Insert.{ArtState, Link, at_slot}
use callstack_count.Art.Stacks.{Reach, step, IsLevelled, count_of}
use callstack_count.Art.Stacks.Paths.{same_node, Reach-moved, Reach-ext, Reach-lev}
use callstack_count.Art.Stacks.Matching.{memcmp_zero_equal}
use callstack_count.Art.Stacks.Keeping.{
  Keeps, KeepsAll, Keeps-self, Reach-Keeps, Inserted, counted_again, grown_to,
}

-- The leaf of a stack.
abbrev pub leaf_of : (ℕ → ℕ) → ℕ → Node ℕ
leaf_of f n = record (alloc_node leaf) { key_len = n; key = f }

abbrev pub with_child : Node ℕ → ℕ → ℕ → Node ℕ
with_child m k q = record m {
  key = update m.key m.key_len k;
  arr = update m.arr m.key_len (some q);
  key_len = m.key_len + 1;
}

module _ (n : ℕ) (lev : ℕ → ℕ) (st : ArtState) (v : IsLevelled n lev st) (f : ℕ → ℕ) (l : Link)
    (p d : ℕ) (m : Node ℕ) (r : Reach st f l p d) (here : get_elem? st.heap p ≡ some m)
    (inner : m.flags ≡ inner_4) (same : (j : ℕ) → j < m.prefix_len → m.prefix j ≡ f (d + j))
    (fresh : find_key m.key (f (d + m.prefix_len)) 0 m.key_len ≡ none) where
  abbrev pub added : Node ℕ
  added = with_child m (f (d + m.prefix_len)) (length st.heap)

  abbrev pub extended : ArtState
  extended = record { heap = set (st.heap ++ leaf_of f n ∷ []) p added; root = st.root }

  abbrev pub lev' : ℕ → ℕ
  lev' = update lev (length st.heap) (d + m.prefix_len + 1)

  p_bound : p < length st.heap
  p_bound = get_elem?-bound st.heap p m here

  pub size_after : length extended.heap ≡ length st.heap + 1
  size_after =
      length-set (st.heap ++ leaf_of f n ∷ []) p added ∙ length-append st.heap (leaf_of f n ∷ [])

  get_extended :
      (x : ℕ)
      → get_elem? extended.heap x
        ≡ (if p == x then some added else get_elem? (st.heap ++ leaf_of f n ∷ []) x)
  get_extended x =
      get_elem?-set (st.heap ++ leaf_of f n ∷ []) p x added
        (omega (arith, p_bound, length-append st.heap (leaf_of f n ∷ [])))

  pub get_old :
      (x : ℕ) (b : Node ℕ)
      → (p == x) ≡ false
      → get_elem? st.heap x ≡ some b
      → get_elem? extended.heap x ≡ some b
  get_old x b other h =
      get_extended x
      ∙ rw other (get_elem?-append_left st.heap (leaf_of f n) x (get_elem?-bound st.heap x b h) ∙ h)

  pub get_leaf : get_elem? extended.heap (length st.heap) ≡ some (leaf_of f n)
  get_leaf =
      let other : (p == length st.heap) ≡ false = ground (arith, p_bound) in
      get_extended (length st.heap) ∙ rw other (get_elem?-append_last st.heap (leaf_of f n))

  get_added : get_elem? extended.heap p ≡ some added
  get_added = let at : (p == p) ≡ true = ground arith in get_extended p ∙ rw at refl

  -- A node afterwards is the new leaf, the extended node, or as it was.
  pub after_node :
      (x : ℕ) (a : Node ℕ)
      → get_elem? extended.heap x ≡ some a
      → ((x ≡ length st.heap) × (a ≡ leaf_of f n))
        ⊎ (((x ≡ p) × (a ≡ added)) ⊎ ((x < length st.heap) × (get_elem? st.heap x ≡ some a)))
  after_node x a h = elim (Bool-cases (p == x)) [
    | inl at ↦
        let both : some added ≡ some a = sym (get_extended x ∙ rw at refl) ∙ h in
        inr (inl (ground (arith, at), cc))
    | inr other ↦
        let h' : get_elem? (st.heap ++ leaf_of f n ∷ []) x ≡ some a =
          sym (get_extended x ∙ rw other refl) ∙ h in
        elim (Bool-cases (length st.heap == x)) [
          | inl new ↦
              let at : length st.heap ≡ x = ground (arith, new) in
              let both : some (leaf_of f n) ≡ some a =
                sym (get_elem?-append_last st.heap (leaf_of f n))
                ∙ ap (get_elem? (st.heap ++ leaf_of f n ∷ [])) at
                ∙ h' in
              inl (sym at, cc)
          | inr old ↦
              let bound = get_elem?-bound (st.heap ++ leaf_of f n ∷ []) x a h' in
              let below : x < length st.heap =
                ground (arith, bound, old, length-append st.heap (leaf_of f n ∷ [])) in
              inr (inr (below, sym (get_elem?-append_left st.heap (leaf_of f n) x below) ∙ h'))
        ]
  ]

  Keeps-added : Keeps m added
  Keeps-added = record {
    kind = inner;
    long = refl;
    bytes = λ j. refl;
    slots = λ k i q h a.
        let e =
          find_key-update m.key (f (d + m.prefix_len)) k 0 m.key_len m.key_len (omega arith) in
        let low = (find_key-hit m.key k 0 m.key_len i h).2 in
        let apart : (m.key_len == i) ≡ false = ground (arith, low) in (e ∙ rw h refl, rw apart a);
  }

  keeps_forth : KeepsAll st extended
  keeps_forth x b h k = elim (Bool-cases (p == x)) [
    | inl at ↦
        let px : p ≡ x = ground (arith, at) in
        let e : m ≡ b = same_node st p x m b px here h in
        (
          added,
          sym (ap (get_elem? extended.heap) px) ∙ get_added,
          subst (λ z. Keeps z added) e Keeps-added,
        )
    | inr other ↦ (b, get_old x b other h, Keeps-self b k)
  ]

  pub leaf_apart :
      (x : ℕ) (b : Node ℕ) → get_elem? st.heap x ≡ some b → b.flags ≡ leaf → (p == x) ≡ false
  leaf_apart x b h k = elim (Bool-cases (p == x)) [
    | inr other ↦ other
    | inl at ↦
        let e = same_node st p x m b (ground (arith, at)) here h in
        let kinds : leaf ≡ inner_4 = sym k ∙ sym (ap (λ (z : Node ℕ). z.flags) e) ∙ inner in
        absurd (cc)
  ]

  pub lev_old : (x : ℕ) → x < length st.heap → lev' x ≡ lev x
  lev_old x h = let other : (length st.heap == x) ≡ false = ground (arith, h) in rw other refl

  pub lev_new : lev' (length st.heap) ≡ d + m.prefix_len + 1
  lev_new = let at : (length st.heap == length st.heap) ≡ true = ground arith in rw at refl

  -- An inner node afterwards has the level and the prefix of one before, and its arcs but the new one.
  pub inner_after :
      (x : ℕ) (a : Node ℕ)
      → get_elem? extended.heap x ≡ some a
      → a.flags ≡ inner_4
      → (b : Node ℕ) × (get_elem? st.heap x ≡ some b)
        × (b.flags ≡ inner_4)
        × (a.prefix_len ≡ b.prefix_len)
        × ((i q : ℕ)
            → a.arr i ≡ some q
            → ((q ≡ length st.heap) × (x ≡ p) × (i ≡ m.key_len)) ⊎ (b.arr i ≡ some q))
        × ((i : ℕ) → i < a.key_len → (i < b.key_len) ⊎ (a.arr i ≡ some (length st.heap)))
        × ((i q : ℕ) → i < b.key_len → b.arr i ≡ some q → a.arr i ≡ some q)
  unfolding alloc_node
  inner_after x a h k = elim (after_node x a h) [
    | inl (at, e) ↦
        let kinds : leaf ≡ inner_4 = sym (ap (λ (z : Node ℕ). z.flags) e) ∙ k in absurd (cc)
    | inr (inr (low, h')) ↦ (a, h', k, refl, λ i q c. inr c, λ i c. inl c, λ i q lt c. c)
    | inr (inl (at, e)) ↦
        let arr : a.arr ≡ added.arr = ap (λ (z : Node ℕ). z.arr) e in
        (
          m,
          ap (get_elem? st.heap) at ∙ here,
          inner,
          ap (λ (z : Node ℕ). z.prefix_len) e,
          λ i q c. elim (Bool-cases (m.key_len == i)) [
            | inl new ↦
                let both : some (length st.heap) ≡ some q =
                  sym (ap (λ g. g i) arr ∙ rw new refl) ∙ c in
                inl (cc, at, ground (arith, new))
            | inr old ↦ inr (sym (ap (λ g. g i) arr ∙ rw old refl) ∙ c)
          ],
          λ i c. elim (Bool-cases (m.key_len == i)) [
            | inl new ↦ inr (ap (λ g. g i) arr ∙ rw new refl)
            | inr old ↦ inl (ground (arith, old, c, ap (λ (z : Node ℕ). z.key_len) e))
          ],
          λ i q lt c.
              let old : (m.key_len == i) ≡ false = ground (arith, lt) in
              ap (λ g. g i) arr ∙ rw old c,
        )
  ]

  pub path_forth : (t : ℕ → ℕ) {k : Link} {x e : ℕ} → Reach st t k x e → Reach extended t k x e
  path_forth t s = Reach-Keeps st extended keeps_forth t refl s

  pub path_new : Reach extended f (at_slot p m.key_len) (length st.heap) (d + m.prefix_len + 1)
  path_new =
      let hit : (f (d + m.prefix_len) == f (d + m.prefix_len)) ≡ true = ground arith in
      let last : (m.key_len == m.key_len) ≡ true = ground arith in
      step (path_forth f r) (record {
        node = added;
        here = get_added;
        inner = inner;
        same = same;
        slot =
            find_key-update m.key (f (d + m.prefix_len)) (f (d + m.prefix_len)) 0 m.key_len
              m.key_len (omega arith)
            ∙ rw (fresh, hit) refl;
        child = rw last refl;
        deeper = refl;
      })
