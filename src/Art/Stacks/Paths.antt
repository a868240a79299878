-- ===== src/Art/Stacks/Paths.antt =====
-- The paths from the root of the tree of src/lib/art/art.c.
use mathlib.Core.Path.{subst}
use callstack_count.Prelude.{
  ℕ, ◌+◌, ◌≤◌, ◌<◌, ◌≡◌, ◌≢◌, refl, sym, ap, ◌∙◌, inl, inr, none, some, length, get_elem?, arith,
  Bool-cases, ltb, ◌-◌,
}
use callstack_count.Art.{Node, inner_4, find_key}
use callstack_count.Art.Children.{find_key-hit}
use callstack_count.Art.Insert.{ArtState, Link, at_slot}
use callstack_count.Art.Stacks.{Arc, Reach, top, step, IsLevelled}

-- Two nodes that are read at one place are the same.
pub same_node :
    (st : ArtState) (p p' : ℕ) (m m' : Node ℕ)
    → p ≡ p'
    → get_elem? st.heap p ≡ some m
    → get_elem? st.heap p' ≡ some m'
    → m ≡ m'
same_node st p p' m m' e h h' =
    let both : some m ≡ some m' = sym h ∙ ap (get_elem? st.heap) e ∙ h' in cc

pub Reach-moved :
    {st : ArtState} {t u : ℕ → ℕ} {l : Link} {x y d e : ℕ}
    → t ≡ u
    → x ≡ y
    → d ≡ e
    → Reach st t l x d
    → Reach st u l y e
Reach-moved {st} {t} {u} {l} {x} {y} {d} {e} tu xy de r =
    subst (λ z. Reach st z l y e) tu
      (subst (λ z. Reach st t l z e) xy (subst (λ z. Reach st t l x z) de r))

-- Without a root no path leads anywhere.
pub rootless :
    {st : ArtState} {t : ℕ → ℕ} {l : Link} {p d : ℕ} → st.root ≡ none → Reach st t l p d → ⊥
rootless e (top h z) = cc
rootless e (step r a) = rootless e r

-- Two arcs through one slot at one depth have the same bytes.
Arc-agree :
    (st : ArtState) (t u : ℕ → ℕ) (p p' d d' i i' q q' e e' : ℕ)
    → p ≡ p'
    → d ≡ d'
    → i ≡ i'
    → Arc st t p d i q e
    → Arc st u p' d' i' q' e'
    → (j : ℕ) → d ≤ j
    → j < e
    → t j ≡ u j
Arc-agree st t u p p' d d' i i' q q' e e' ep ed ei a b j lo hi =
    let m : a.node ≡ b.node = same_node st p p' a.node b.node ep a.here b.here in
    let len : a.node.prefix_len ≡ b.node.prefix_len = ap (λ (z : Node ℕ). z.prefix_len) m in
    elim (Bool-cases (ltb j (d + a.node.prefix_len))) [
      | inl low ↦
          let off : d + (j - d) ≡ j = omega (arith, lo) in
          let off' : d' + (j - d) ≡ j = omega (arith, lo, ed) in
          let h : j - d < a.node.prefix_len = ground (arith, low, lo) in
          let one : a.node.prefix (j - d) ≡ t j = a.same (j - d) h ∙ ap t off in
          let two : b.node.prefix (j - d) ≡ u j =
            b.same (j - d) (omega (arith, h, len)) ∙ ap u off' in
          sym one ∙ ap (λ (z : Node ℕ). z.prefix (j - d)) m ∙ two
      | inr high ↦
          let last : d + a.node.prefix_len ≡ j = ground (arith, high, hi, a.deeper) in
          let last' : d' + b.node.prefix_len ≡ j = omega (arith, last, len, ed) in
          let one = (find_key-hit a.node.key _ 0 a.node.key_len i a.slot).0 in
          let two = (find_key-hit b.node.key _ 0 b.node.key_len i' b.slot).0 in
          let keys : a.node.key i ≡ b.node.key i' =
            ap (λ (z : Node ℕ). z.key i) m ∙ ap b.node.key ei in
          sym (ap t last) ∙ sym one ∙ keys ∙ two ∙ ap u last'
    ]

module _ (n : ℕ) (lev : ℕ → ℕ) (st : ArtState) (v : IsLevelled n lev st) where
  pub Reach-lev : {t : ℕ → ℕ} {l : Link} {p d : ℕ} → Reach st t l p d → d ≡ lev p
  Reach-lev (top e z) = omega (arith, z, (v.roots _ e).1)
  Reach-lev (step {p} {d} {i} {q} r a) =
      omega (arith, Reach-lev r, a.deeper, (v.levels p a.node i q a.here a.inner a.child).1)

  pub Reach-bound : {t : ℕ → ℕ} {l : Link} {p d : ℕ} → Reach st t l p d → p < length st.heap
  Reach-bound (top e z) = (v.roots _ e).0
  Reach-bound (step {p} {d} {i} {q} r a) = (v.levels p a.node i q a.here a.inner a.child).0

  -- Nothing points to the root.
  pub root_alone :
      (r p i : ℕ) (m : Node ℕ)
      → st.root ≡ some r
      → get_elem? st.heap p ≡ some m
      → m.flags ≡ inner_4
      → m.arr i ≢ some r
  root_alone r p i m e h k c = omega (arith, (v.roots r e).1, (v.levels p m i r h k c).1)

  -- Two paths to one node go through one link, and their bytes are the same.
  pub Reach-agree :
      (t u : ℕ → ℕ) {l l' : Link} {p p' d d' : ℕ}
      → p ≡ p'
      → Reach st t l p d
      → Reach st u l' p' d'
      → (l ≡ l') × ((j : ℕ) → j < d → t j ≡ u j)
  Reach-agree t u same (top e z) (top e' z') = (refl, λ j h. absurd (omega (arith, h, z)))
  Reach-agree t u same (top {p} e z) (step {p = y} {i} r a) =
      absurd (root_alone p y i a.node e a.here a.inner (a.child ∙ ap some (sym same)))
  Reach-agree t u same (step {p = y} {i} r a) (top {p} e z) =
      absurd (root_alone p y i a.node e a.here a.inner (a.child ∙ ap some same))
  Reach-agree t u same (step {p} {d} {i} {q} {e} r a)
        (step {p = p'} {d = d'} {i = i'} {q = q'} {e = e'} r' a') =
      let (at, slot) =
        v.own p p' a.node a'.node i i' q a.here a.inner a.child a'.here a'.inner
          (a'.child ∙ ap some (sym same)) in
      let (links, before) = Reach-agree t u at r r' in
      let depth : d ≡ d' = Reach-lev r ∙ ap lev at ∙ sym (Reach-lev r') in
      (
        ap (λ z. at_slot z i) at ∙ ap (at_slot p') slot,
        λ j h. elim (Bool-cases (ltb j d)) [
          | inl low ↦ before j (ground (arith, low))
          | inr high ↦
              Arc-agree st t u p p' d d' i i' q q' e e' at depth slot a a' j (ground (arith, high))
                h
        ],
      )

  -- No path is longer than the stacks.
  pub Reach-le : {t : ℕ → ℕ} {l : Link} {p d : ℕ} → Reach st t l p d → d ≤ n
  Reach-le (top e z) = omega (arith, z)
  Reach-le (step {p} {d} r a) = omega (arith, Reach-lev r, a.deeper, v.fits p a.node a.here a.inner)

  -- A path reads no byte behind the stack's.
  pub Reach-ext :
      {t u : ℕ → ℕ} {l : Link} {p d : ℕ}
      → ((j : ℕ) → j < n → t j ≡ u j)
      → Reach st t l p d
      → Reach st u l p d
  Reach-ext same (top e z) = top e z
  Reach-ext {t} {u} same (step {p} {d} r a) =
      let fits = v.fits p a.node a.here a.inner in
      let lvl = Reach-lev r in
      let last = same (d + a.node.prefix_len) (omega (arith, fits, lvl)) in
      step (Reach-ext same r) (record {
        node = a.node;
        here = a.here;
        inner = a.inner;
        same = λ j h. a.same j h ∙ same (d + j) (omega (arith, h, fits, lvl));
        slot = ap (λ z. find_key a.node.key z 0 a.node.key_len) (sym last) ∙ a.slot;
        child = a.child;
        deeper = a.deeper;
      })
