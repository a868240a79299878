-- ===== src/Art/Stacks/Forking/Arcs.antt =====
-- The tree of src/lib/art/art.c after a new inner node stands above another: the levels and the arcs.
use callstack_count.Prelude.{
  ℕ, ◌+◌, ◌<◌, ◌≡◌, ◌≢◌, refl, sym, ap, ◌∙◌, inl, inr, ◌⊎◌, true, false, some, length, get_elem?,
  get_elem?-some, get_elem?-bound, arith, ◌==◌, Bool-cases, if◌then◌else◌,
}
use callstack_count.Art.{Node, leaf, inner_4, update, alloc_node}
use callstack_count.Art.Insert.{ArtState, Link, at_root, at_local, at_slot}
use callstack_count.Art.Stacks.{Reach, IsLevelled}
use callstack_count.Art.Stacks.Paths.{same_node, Reach-lev, Reach-bound, root_alone}
use callstack_count.Art.Stacks.Extend.{leaf_of}
use callstack_count.Art.Stacks.Forking.{
  relinked, relinked_root, Forked, InnerAbove, IsLink, Reach-IsLink, arc_case, arc_back,
}
use callstack_count.Art.Stacks.Forking.Walk.{level_apart}

module _ (n : ℕ) (lev : ℕ → ℕ) (st : ArtState) (v : IsLevelled n lev st) (f : ℕ → ℕ) (l : Link)
    (p d : ℕ) (r : Reach st f l p d) (st' : ArtState) (w : Forked n f st l p d st') where
  abbrev pub new : ℕ
  new = length st.heap

  abbrev pub lev' : ℕ → ℕ
  lev' = update (update (update lev p (d + w.m + 1)) (new + 1) (d + w.m + 1)) new d

  pub p_bound : p < new
  p_bound = Reach-bound n lev st v r

  pub depth : lev p ≡ d
  depth = sym (Reach-lev n lev st v r)

  pub lev_new : lev' new ≡ d
  lev_new = let at : (new == new) ≡ true = ground arith in rw at refl

  pub lev_leaf : lev' (new + 1) ≡ d + w.m + 1
  lev_leaf =
      let at : (new + 1 == new + 1) ≡ true = ground arith in
      let other : (new == new + 1) ≡ false = ground arith in rw (other, at) refl

  pub lev_low : lev' p ≡ d + w.m + 1
  lev_low =
      let at : (p == p) ≡ true = ground arith in
      let one : (new == p) ≡ false = ground (arith, p_bound) in
      let two : (new + 1 == p) ≡ false = ground (arith, p_bound) in rw (one, two, at) refl

  pub lev_other : (x : ℕ) → x < new → (p == x) ≡ false → lev' x ≡ lev x
  lev_other x h other =
      let one : (new == x) ≡ false = ground (arith, h) in
      let two : (new + 1 == x) ≡ false = ground (arith, h) in rw (one, two, other) refl

  root_other : (q : ℕ) → st.root ≡ some q → st.root ≢ some p → (q < length st'.heap) × (lev' q ≡ 0)
  root_other q e away =
      let (low, z) = v.roots q e in
      let other : (p == q) ≡ false = elim (Bool-cases (p == q)) [
        | inr no_match ↦ no_match
        | inl at ↦ absurd (away (e ∙ ap some (sym (ground (arith, at)))))
      ] in
      (omega (arith, low, w.size_after), lev_other q low other ∙ z)

  -- A node afterwards is the new inner node, the new leaf, the node below, or one that was there,
  -- relinked.
  pub after_node :
      (x : ℕ) (a : Node ℕ)
      → get_elem? st'.heap x ≡ some a
      → ((x ≡ new) × (a ≡ w.fork))
        ⊎ (((x ≡ new + 1) × (a ≡ leaf_of f n))
            ⊎ (((x ≡ p) × (a ≡ w.low))
                ⊎ ((b : Node ℕ) × (get_elem? st.heap x ≡ some b)
                    × ((p == x) ≡ false)
                    × (a ≡ record b { arr = relinked l new x b.arr }))))
  after_node x a h = elim (Bool-cases (new == x)) [
    | inl at ↦
        let nx : new ≡ x = ground (arith, at) in
        inl (sym nx, same_node st' x new a w.fork (sym nx) h w.get_fork)
    | inr one ↦ elim (Bool-cases (new + 1 == x)) [
      | inl at ↦
          let nx : new + 1 ≡ x = ground (arith, at) in
          inr (inl (sym nx, same_node st' x (new + 1) a (leaf_of f n) (sym nx) h w.get_leaf))
      | inr two ↦ elim (Bool-cases (p == x)) [
        | inl at ↦
            let px : p ≡ x = ground (arith, at) in
            inr (inr (inl (sym px, same_node st' x p a w.low (sym px) h w.get_low)))
        | inr three ↦
            let bound = get_elem?-bound st'.heap x a h in
            let low : x < new = ground (arith, bound, w.size_after, one, two) in
            let (b, hb) = get_elem?-some st.heap x low in
            inr (inr (inr (b, hb, three, same_node st' x x a _ refl h (w.get_other x b three hb))))
      ]
    ]
  ]

  -- Where a slot points afterwards.
  pub data Points (x i q : ℕ) (a : Node ℕ) : Type 0 where
    fork_low : x ≡ new → i ≡ w.i_old → q ≡ p → a.prefix_len ≡ w.m → Points x i q a
    fork_leaf : x ≡ new → i ≡ w.i_new → q ≡ new + 1 → a.prefix_len ≡ w.m → Points x i q a
    kept :
        (b : Node ℕ) (q' : ℕ)
        → get_elem? st.heap x ≡ some b
        → b.flags ≡ inner_4
        → b.arr i ≡ some q'
        → q ≡ (if p == q' then new else q')
        → lev' x + a.prefix_len ≡ lev x + b.prefix_len
        → Points x i q a

  pub low_bounds :
      InnerAbove f d w.m w.b w.old w.low → lev' p + w.low.prefix_len ≡ lev p + w.old.prefix_len
  low_bounds u = omega (arith, lev_low, depth, u.shorter)

  pub low_inner : (a : Node ℕ) → a ≡ w.low → a.flags ≡ inner_4 → InnerAbove f d w.m w.b w.old w.low
  low_inner a e k = elim w.above [
    | inr u ↦ u
    | inl u ↦
        let kinds : leaf ≡ inner_4 =
          sym u.kind ∙ sym w.low_flags ∙ sym (ap (λ (z : Node ℕ). z.flags) e) ∙ k in
        absurd (cc)
  ]

  pub points :
      (x i q : ℕ) (a : Node ℕ)
      → get_elem? st'.heap x ≡ some a
      → a.flags ≡ inner_4
      → a.arr i ≡ some q
      → Points x i q a
  unfolding alloc_node
  points x i q a h k c = elim (after_node x a h) [
    | inl (at, e) ↦
        let len : a.prefix_len ≡ w.m = ap (λ (z : Node ℕ). z.prefix_len) e ∙ w.fork_len in
        elim (w.fork_slots i q (sym (ap (λ (z : Node ℕ). z.arr i) e) ∙ c)) [
          | inl (slot, to) ↦ fork_low at slot to len
          | inr (slot, to) ↦ fork_leaf at slot to len
        ]
    | inr (inl (at, e)) ↦
        absurd (let kinds : leaf ≡ inner_4 = sym (ap (λ (z : Node ℕ). z.flags) e) ∙ k in cc)
    | inr (inr (inl (at, e))) ↦
        let u = low_inner a e k in
        let arr : w.old.arr i ≡ some q =
          sym (ap (λ (z : Node ℕ). z.arr i) e ∙ ap (λ g. g i) w.low_arr) ∙ c in
        let below = (v.levels p w.old i q w.here u.kind arr).1 in
        let apart = level_apart lev p q (omega (arith, below)) in
        kept w.old q (ap (get_elem? st.heap) at ∙ w.here) u.kind arr (sym (rw apart refl))
          (omega (arith, low_bounds u, ap lev' at, ap lev at, ap (λ (z : Node ℕ). z.prefix_len) e))
    | inr (inr (inr (b, hb, other, e))) ↦
        let inner : b.flags ≡ inner_4 = sym (ap (λ (z : Node ℕ). z.flags) e) ∙ k in
        let c' : relinked l new x b.arr i ≡ some q = sym (ap (λ (z : Node ℕ). z.arr i) e) ∙ c in
        let (q', old) = arc_back n lev st v p l new x i q b (Reach-IsLink r) hb c' in
        let to = arc_case n lev st v p l new x i q' b (Reach-IsLink r) hb inner old in
        let both : some q ≡ some (if p == q' then new else q') = sym c' ∙ to in
        let low = get_elem?-bound st.heap x b hb in
        kept b q' hb inner old (cc)
          (omega (arith, lev_other x low other, ap (λ (z : Node ℕ). z.prefix_len) e))
  ]

  pub Points-levels :
      (x i q : ℕ) (a : Node ℕ)
      → Points x i q a
      → (q < length st'.heap) × (lev' q ≡ lev' x + a.prefix_len + 1)
  Points-levels x i q a (fork_low at slot to len) = (
    omega (arith, p_bound, to, w.size_after),
    omega (arith, ap lev' to, lev_low, ap lev' at, lev_new, len),
  )
  Points-levels x i q a (fork_leaf at slot to len) = (
    omega (arith, to, w.size_after),
    omega (arith, ap lev' to, lev_leaf, ap lev' at, lev_new, len),
  )
  Points-levels x i q a (kept b q' h k c to len) =
      let (low, deep) = v.levels x b i q' h k c in
      elim (Bool-cases (p == q')) [
        | inl at ↦
            let qn : q ≡ new = to ∙ rw at refl in
            let pq : p ≡ q' = ground (arith, at) in
            (
              omega (arith, qn, w.size_after),
              omega (arith, ap lev' qn, lev_new, depth, ap lev pq, deep, len),
            )
        | inr other ↦
            let qq : q ≡ q' = to ∙ rw other refl in
            (
              omega (arith, qq, low, w.size_after),
              omega (arith, ap lev' qq, lev_other q' low other, deep, len),
            )
      ]

  pub Points-own :
      {x y i j q q2 : ℕ} {a a' : Node ℕ}
      → q ≡ q2
      → Points x i q a
      → Points y j q2 a'
      → (x ≡ y) × (i ≡ j)
  Points-own same (fork_low a b c _) (fork_low a' b' c' _) = (a ∙ sym a', b ∙ sym b')
  Points-own same (fork_leaf a b c _) (fork_leaf a' b' c' _) = (a ∙ sym a', b ∙ sym b')
  Points-own same (fork_low a b c _) (fork_leaf a' b' c' _) =
      absurd (omega (arith, p_bound, same, c, c'))
  Points-own same (fork_leaf a b c _) (fork_low a' b' c' _) =
      absurd (omega (arith, p_bound, same, c, c'))
  Points-own {y} {j} same (fork_low a b c _) (kept m' q' h k e to _) =
      let low = (v.levels y m' j q' h k e).0 in absurd (ground (arith, p_bound, same, c, to, low))
  Points-own {y} {j} same (fork_leaf a b c _) (kept m' q' h k e to _) =
      let low = (v.levels y m' j q' h k e).0 in absurd (ground (arith, same, c, to, low))
  Points-own {x} {i} same (kept m' q' h k e to _) (fork_low a b c _) =
      let low = (v.levels x m' i q' h k e).0 in absurd (ground (arith, p_bound, same, c, to, low))
  Points-own {x} {i} same (kept m' q' h k e to _) (fork_leaf a b c _) =
      let low = (v.levels x m' i q' h k e).0 in absurd (ground (arith, same, c, to, low))
  Points-own {x} {y} {i} {j} same (kept m1 q1 h1 k1 e1 to1 _) (kept m2 q2 h2 k2 e2 to2 _) =
      let low1 = (v.levels x m1 i q1 h1 k1 e1).0 in
      let low2 = (v.levels y m2 j q2 h2 k2 e2).0 in
      let both : q1 ≡ q2 = ground (arith, same, to1, to2, low1, low2) in
      v.own x y m1 m2 i j q1 h1 k1 e1 h2 k2 (e2 ∙ ap some (sym both))

  root_levels_from :
      (k : Link) (q : ℕ)
      → IsLink st k p
      → relinked_root k new st.root ≡ some q
      → (q < length st'.heap) × (lev' q ≡ 0)
  root_levels_from at_root q k e =
      let both : some new ≡ some q = e in
      let at : new ≡ q = cc in
      (omega (arith, at, w.size_after), omega (arith, ap lev' at, lev_new, depth, (v.roots p k).1))
  root_levels_from at_local q k e = absurd k
  root_levels_from (at_slot y i) q (a, h, inner, c) e =
      root_other q e (λ top. root_alone n lev st v p y i a top h inner c)

  pub root_levels : (q : ℕ) → st'.root ≡ some q → (q < length st'.heap) × (lev' q ≡ 0)
  root_levels q e = root_levels_from l q (Reach-IsLink r) (sym w.root_after ∙ e)
