-- ===== src/Art/Stacks/Forking/Walk.antt =====
-- The paths of the tree of src/lib/art/art.c after a new inner node stands above another.
use mathlib.Core.Path.{subst}
use callstack_count.Prelude.{
  ℕ, ◌+◌, ◌<◌, ◌≡◌, refl, sym, ap, ◌∙◌, inl, inr, true, false, some, length, get_elem?, arith, ◌==◌,
  Bool-cases, if◌then◌else◌,
}
use callstack_count.Art.{Node, leaf, inner_4, find_key}
use callstack_count.Art.Insert.{ArtState, Link, at_root}
use callstack_count.Art.Stacks.{Arc, Reach, top, step, IsLevelled}
use callstack_count.Art.Stacks.Paths.{same_node, Reach-moved, Reach-lev}
use callstack_count.Art.Stacks.Forking.{
  relinked, Forked, LeafAbove, InnerAbove, Reach-IsLink, root_case, arc_case,
}

pub level_apart : (lev : ℕ → ℕ) (p q : ℕ) → lev p < lev q → (p == q) ≡ false
level_apart lev p q h = elim (Bool-cases (p == q)) [
  | inr other ↦ other
  | inl at ↦ let same : p ≡ q = ground (arith, at) in absurd (omega (arith, h, ap lev same))
]

module _ (n : ℕ) (lev : ℕ → ℕ) (st : ArtState) (v : IsLevelled n lev st) (f : ℕ → ℕ) (l : Link)
    (p d : ℕ) (r : Reach st f l p d) (st' : ArtState) (w : Forked n f st l p d st') where
  -- Through the new node, the stacks of the node below it lead there.
  fork_old-Arc :
      (t : ℕ → ℕ) (e : ℕ)
      → ((j : ℕ) → j < w.m → f (d + j) ≡ t (e + j))
      → w.b ≡ t (e + w.m)
      → Arc st' t (length st.heap) e w.i_old p (e + w.m + 1)
  fork_old-Arc t e same byte =
      let len : e + w.m ≡ e + w.fork.prefix_len = ap (λ z. e + z) (sym w.fork_len) in
      record {
        node = w.fork;
        here = w.get_fork;
        inner = w.fork_inner;
        same = λ j h.
            let low : j < w.m = omega (arith, h, w.fork_len) in w.fork_bytes j low ∙ same j low;
        slot =
            ap (λ z. find_key w.fork.key z 0 w.fork.key_len) (sym (byte ∙ ap t len)) ∙ w.fork_old.0;
        child = w.fork_old.1;
        deeper = omega (arith, len);
      }

  -- Below the new node the arcs are those of the node that it stands above.
  low-Arc :
      (t : ℕ → ℕ) (e i q e' : ℕ)
      → Arc st t p e i q e'
      → InnerAbove f d w.m w.b w.old w.low
      → ((j : ℕ) → j < w.m → f (d + j) ≡ t (e + j))
        × (w.b ≡ t (e + w.m))
        × Arc st' t p (e + w.m + 1) i q e'
  low-Arc t e i q e' a u =
      let same : a.node ≡ w.old = same_node st p p a.node w.old refl a.here w.here in
      let len : a.node.prefix_len ≡ w.old.prefix_len = ap (λ (z : Node ℕ). z.prefix_len) same in
      let pre = λ (j : ℕ). λ (h : j < w.old.prefix_len).
        sym (ap (λ (z : Node ℕ). z.prefix j) same) ∙ a.same j (omega (arith, h, len)) in
      let end : e + w.m + 1 + w.low.prefix_len ≡ e + a.node.prefix_len =
        omega (arith, u.shorter, len) in
      let key : a.node.key ≡ w.low.key = ap (λ (z : Node ℕ). z.key) same ∙ sym w.low_key in
      let key_len : a.node.key_len ≡ w.low.key_len =
        ap (λ (z : Node ℕ). z.key_len) same ∙ sym w.low_key_len in
      (
        λ j h. sym (u.bytes j h) ∙ pre j (omega (arith, h, u.shorter)),
        sym u.differs ∙ pre w.m (omega (arith, u.shorter)),
        record {
          node = w.low;
          here = w.get_low;
          inner = w.low_flags ∙ u.kind;
          same = λ j h.
              let off : e + (w.m + 1 + j) ≡ e + w.m + 1 + j = omega arith in
              u.rest j h ∙ pre (w.m + 1 + j) (omega (arith, h, u.shorter)) ∙ ap t off;
          slot =
              ap (λ z. find_key w.low.key (t z) 0 w.low.key_len) end
              ∙ ap (λ g. find_key g (t (e + a.node.prefix_len)) 0 w.low.key_len) (sym key)
              ∙ ap (λ z. find_key a.node.key (t (e + a.node.prefix_len)) 0 z) (sym key_len)
              ∙ a.slot;
          child = ap (λ g. g i) (w.low_arr ∙ sym (ap (λ (z : Node ℕ). z.arr) same)) ∙ a.child;
          deeper = omega (arith, end, a.deeper);
        },
      )

  inner_above :
      (a : Node ℕ)
      → get_elem? st.heap p ≡ some a
      → a.flags ≡ inner_4
      → InnerAbove f d w.m w.b w.old w.low
  inner_above a h k = elim w.above [
    | inr u ↦ u
    | inl u ↦
        let e = same_node st p p a w.old refl h w.here in
        let kinds : leaf ≡ inner_4 = sym u.kind ∙ sym (ap (λ (z : Node ℕ). z.flags) e) ∙ k in
        absurd (cc)
  ]

  -- The arc from another node leads where it did, or to the new node.
  other-Arc :
      (t : ℕ → ℕ) (x e i q e' : ℕ)
      → (p == x) ≡ false
      → Arc st t x e i q e'
      → Arc st' t x e i (if p == q then length st.heap else q) e'
  other-Arc t x e i q e' other a = record {
    node = record a.node { arr = relinked l (length st.heap) x a.node.arr };
    here = w.get_other x a.node other a.here;
    inner = a.inner;
    same = a.same;
    slot = a.slot;
    child =
        arc_case n lev st v p l (length st.heap) x i q a.node (Reach-IsLink r) a.here a.inner
          a.child;
    deeper = a.deeper;
  }

  abbrev moved : ℕ → ℕ
  moved x = if p == x then length st.heap else x

  -- A path leads where it did, or to the new node in place of `p`.
  pub path_forth :
      (t : ℕ → ℕ) {k : Link} {x e : ℕ} → Reach st t k x e → (k' : Link) × Reach st' t k' (moved x) e
  path_forth t (top {p = x} at z) = (
    at_root,
    top (w.root_after ∙ root_case n lev st v p l (length st.heap) x (Reach-IsLink r) at) z,
  )
  path_forth t (step {p = x} {d = e} {i} {q} {e = e'} s a) =
      let (k, s') = path_forth t s in
      elim (Bool-cases (p == x)) [
        | inr other ↦
            let s2 : Reach st' t k x e = Reach-moved refl (rw other refl) refl s' in
            (_, step s2 (other-Arc t x e i q e' other a))
        | inl at ↦
            let px : p ≡ x = ground (arith, at) in
            let s2 : Reach st' t k (length st.heap) e = Reach-moved refl (rw at refl) refl s' in
            let a2 : Arc st t p e i q e' = subst (λ z. Arc st t z e i q e') (sym px) a in
            let (same, byte, a3) = low-Arc t e i q e' a2 (inner_above a2.node a2.here a2.inner) in
            let below = (v.levels p a2.node i q a2.here a2.inner a2.child).1 in
            let apart : (p == q) ≡ false = level_apart lev p q (omega (arith, below)) in
            (
              _,
              Reach-moved refl (sym (rw apart refl)) refl
                  (step (step s2 (fork_old-Arc t e same byte)) a3),
            )
      ]

  path_fork : (k : Link) × Reach st' f k (length st.heap) d
  path_fork =
      let (k, s) = path_forth f r in
      let at : (p == p) ≡ true = ground arith in (k, Reach-moved refl (rw at refl) refl s)

  -- The path of the stack to its new leaf.
  pub path_new : (k : Link) × Reach st' f k (length st.heap + 1) (d + w.m + 1)
  path_new =
      let (k, s) = path_fork in
      let len : d + w.m ≡ d + w.fork.prefix_len = ap (λ z. d + z) (sym w.fork_len) in
      (
        _,
        step s (record {
          node = w.fork;
          here = w.get_fork;
          inner = w.fork_inner;
          same = λ j h. w.fork_bytes j (omega (arith, h, w.fork_len));
          slot = ap (λ z. find_key w.fork.key (f z) 0 w.fork.key_len) (sym len) ∙ w.fork_new.0;
          child = w.fork_new.1;
          deeper = omega (arith, len);
        }),
      )

  -- The path of the leaf that the new node stands above.
  pub path_low :
      LeafAbove f d w.m w.b w.old w.low → (k : Link) × Reach st' w.old.key k p (d + w.m + 1)
  path_low u =
      let (k, s) = v.leaves p w.old w.here u.kind in
      let (k', s') = path_forth w.old.key s in
      let at : (p == p) ≡ true = ground arith in
      let deep : lev p ≡ d = sym (Reach-lev n lev st v r) in
      (
        _,
        step (Reach-moved refl (rw at refl) deep s')
            (fork_old-Arc w.old.key d (λ j h. sym (u.bytes j h)) (sym u.differs)),
      )
