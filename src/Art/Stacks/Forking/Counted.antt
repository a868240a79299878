-- ===== src/Art/Stacks/Forking/Counted.antt =====
-- The tree of src/lib/art/art.c after a new inner node stands above another: what it counts.
use callstack_count.Prelude.{
  ℕ, ◌+◌, ◌<◌, ◌≡◌, refl, sym, ap, ◌∙◌, inl, inr, ◌⊎◌, true, false, none, some, length, get_elem?,
  arith, ◌==◌, Bool-cases,
}
use callstack_count.Art.{Node, leaf, inner_4, alloc_node, memcmp_zero}
use callstack_count.Art.Insert.{ArtState, Link}
use callstack_count.Art.Stacks.{Reach, IsLevelled, count_of}
use callstack_count.Art.Stacks.Paths.{same_node, Reach-ext, rootless}
use callstack_count.Art.Stacks.Matching.{memcmp_zero_equal}
use callstack_count.Art.Stacks.Keeping.{Inserted, counted_again, grown_to}
use callstack_count.Art.Stacks.Extend.{leaf_of}
use callstack_count.Art.Stacks.Forking.{Forked}
use callstack_count.Art.Stacks.Forking.Arcs.{lev', after_node}
use callstack_count.Art.Stacks.Forking.Levelled.{forked-IsLevelled}
use callstack_count.Art.Stacks.Forking.Walk.{path_new}

module _ (n : ℕ) (lev : ℕ → ℕ) (st : ArtState) (v : IsLevelled n lev st) (f : ℕ → ℕ) (l : Link)
    (p d : ℕ) (r : Reach st f l p d) (st' : ArtState) (w : Forked n f st l p d st') where
  -- A leaf of the first tree is one of the second, up to its slots.
  leaf_forth :
      (q : ℕ) (b : Node ℕ)
      → get_elem? st.heap q ≡ some b
      → b.flags ≡ leaf
      → (a : Node ℕ) × (get_elem? st'.heap q ≡ some a)
        × (a.flags ≡ leaf)
        × (a.key_len ≡ b.key_len)
        × (a.key ≡ b.key)
        × (a.count ≡ b.count)
  leaf_forth q b h k = elim (Bool-cases (p == q)) [
    | inr other ↦ (_, w.get_other q b other h, k, refl, refl, refl)
    | inl at ↦
        let pq : p ≡ q = ground (arith, at) in
        let e = same_node st p q w.old b pq w.here h in
        (
          w.low,
          sym (ap (get_elem? st'.heap) pq) ∙ w.get_low,
          w.low_flags ∙ ap (λ (z : Node ℕ). z.flags) e ∙ k,
          w.low_key_len ∙ ap (λ (z : Node ℕ). z.key_len) e,
          w.low_key ∙ ap (λ (z : Node ℕ). z.key) e,
          w.low_count ∙ ap (λ (z : Node ℕ). z.count) e,
        )
  ]

  -- A leaf of the second tree is the new one, or was there.
  leaf_back :
      (q : ℕ) (a : Node ℕ)
      → get_elem? st'.heap q ≡ some a
      → a.flags ≡ leaf
      → (a.key ≡ f)
        ⊎ ((b : Node ℕ) × (get_elem? st.heap q ≡ some b)
            × (b.flags ≡ leaf)
            × (a.key_len ≡ b.key_len)
            × (a.key ≡ b.key)
            × (a.count ≡ b.count))
  leaf_back q a h k = elim (after_node n lev st v f l p d r st' w q a h) [
    | inl (at, e) ↦
        absurd
          (let kinds : leaf ≡ inner_4 = sym k ∙ ap (λ (z : Node ℕ). z.flags) e ∙ w.fork_inner in cc)
    | inr (inl (at, e)) ↦ inl (ap (λ (z : Node ℕ). z.key) e)
    | inr (inr (inl (at, e))) ↦ inr (
      w.old,
      ap (get_elem? st.heap) at ∙ w.here,
      sym (ap (λ (z : Node ℕ). z.flags) e ∙ w.low_flags) ∙ k,
      ap (λ (z : Node ℕ). z.key_len) e ∙ w.low_key_len,
      ap (λ (z : Node ℕ). z.key) e ∙ w.low_key,
      ap (λ (z : Node ℕ). z.count) e ∙ w.low_count,
    )
    | inr (inr (inr (b, hb, other, e))) ↦ inr (
      b,
      hb,
      sym (ap (λ (z : Node ℕ). z.flags) e) ∙ k,
      ap (λ (z : Node ℕ). z.key_len) e,
      ap (λ (z : Node ℕ). z.key) e,
      ap (λ (z : Node ℕ). z.count) e,
    )
  ]

  -- A new node above another, with a leaf for a stack that has none, is the stack's insertion.
  pub forked-Inserted : count_of n f st ≡ none → Inserted n f st st'
  unfolding alloc_node
  forked-Inserted absent =
      let level = lev' n lev st v f l p d r st' w in
      let v' = forked-IsLevelled n lev st v f l p d r st' w in
      record {
        tree = (level, v');
        mine =
            let (k, s) = path_new n lev st v f l p d r st' w in
            (
              length st.heap + 1,
              record {
                link = k;
                depth = d + w.m + 1;
                path = s;
                node = leaf_of f n;
                here = w.get_leaf;
                kind = refl;
                size = refl;
                key = λ j h. refl;
                counted = sym (ap counted_again absent);
              },
            );
        others = λ t q c differ o.
            let (a, h, k, len, key, count) = leaf_forth q o.node o.here o.kind in
            let (link, s) = v'.leaves q a h k in
            let same = λ (j : ℕ). λ (lt : j < n). ap (λ g. g j) key ∙ o.key j lt in
            (
              q,
              record {
                link = link;
                depth = level q;
                path = Reach-ext n level st' v' same s;
                node = a;
                here = h;
                kind = k;
                size = len ∙ o.size;
                key = same;
                counted = count ∙ o.counted;
              },
            );
        grown = λ b one narrow q a h k. elim (after_node n lev st v f l p d r st' w q a h) [
          | inl (at, e) ↦ elim one [
            | inl empty ↦ absurd (rootless empty r)
            | inr some_child ↦ omega (
              arith,
              ap (λ (z : Node ℕ). z.key_len) e,
              w.fork_two,
              some_child,
              ap (λ z. grown_to z b) absent,
            )
          ]
          | inr (inl (at, e)) ↦
              absurd (let kinds : leaf ≡ inner_4 = sym (ap (λ (z : Node ℕ). z.flags) e) ∙ k in cc)
          | inr (inr (inl (at, e))) ↦
              let flags : w.old.flags ≡ inner_4 =
                sym (ap (λ (z : Node ℕ). z.flags) e ∙ w.low_flags) ∙ k in
              omega (
                arith,
                ap (λ (z : Node ℕ). z.key_len) e,
                w.low_key_len,
                narrow p w.old w.here flags,
                ap (λ z. grown_to z b) absent,
              )
          | inr (inr (inr (x, hx, other, e))) ↦
              let flags : x.flags ≡ inner_4 = sym (ap (λ (z : Node ℕ). z.flags) e) ∙ k in
              omega (
                arith,
                ap (λ (z : Node ℕ). z.key_len) e,
                narrow q x hx flags,
                ap (λ z. grown_to z b) absent,
              )
        ];
        keys = λ q a h k. elim (leaf_back q a h k) [
          | inl e ↦ inl e
          | inr (b, h', k', _, key, _) ↦ inr (q, b, h', k', key)
        ];
        back = λ t q c differ o. (
          q,
          elim (leaf_back q o.node o.here o.kind) [
            | inl mine ↦
                let all : memcmp_zero t f n ≡ true =
                  memcmp_zero_equal t f n (λ j h. sym (o.key j h) ∙ ap (λ g. g j) mine) in
                absurd (let clash : true ≡ false = sym all ∙ differ in cc)
            | inr (b, h, k, len, key, count) ↦
                let (link, s) = v.leaves q b h k in
                let same = λ (j : ℕ). λ (lt : j < n). sym (ap (λ g. g j) key) ∙ o.key j lt in
                record {
                  link = link;
                  depth = lev q;
                  path = Reach-ext n lev st v same s;
                  node = b;
                  here = h;
                  kind = k;
                  size = sym len ∙ o.size;
                  key = same;
                  counted = sym count ∙ o.counted;
                }
          ],
        );
      }
