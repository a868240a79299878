-- ===== src/Art/Stacks/Forking.antt =====
-- Where insert of src/lib/art/art.c puts a new inner node above a node: above a leaf in do_leaf, above
-- an inner node whose prefix differs in split_prefix. What both have in common, and the links after it.
pub mod Walk
pub mod Arcs
pub mod Levelled
pub mod Counted
pub mod Linking
pub mod Splitting
pub mod Meeting
use mathlib.Core.Path.{subst}
use callstack_count.Prelude.{
  ℕ, suc, ◌+◌, ◌%◌, ◌^◌, ◌≤◌, ◌<◌, ◌≡◌, ◌≢◌, refl, sym, ap, ◌∙◌, inl, inr, ◌⊎◌, true, false, Option,
  none, some, length, get_elem?, get_elem?-bound, arith, ◌==◌, Bool-cases, if◌then◌else◌,
}
use callstack_count.Art.{Node, leaf, inner_4, find_key, update}
use callstack_count.Art.Insert.{ArtState, Link, at_root, at_local, at_slot}
use callstack_count.Art.Stacks.{Arc, Reach, top, step, IsLevelled}
use callstack_count.Art.Stacks.Paths.{same_node, Reach-moved, Reach-lev, root_alone}
use callstack_count.Art.Stacks.Extend.{leaf_of}

-- The slots of the node `x` after a link is set to `new`.
abbrev pub relinked : Link → ℕ → ℕ → (ℕ → Option ℕ) → ℕ → Option ℕ
relinked at_root new x arr = arr
relinked at_local new x arr = arr
relinked (at_slot q i) new x arr = if q == x then update arr i (some new) else arr

abbrev pub relinked_root : Link → ℕ → Option ℕ → Option ℕ
relinked_root at_root new r = some new
relinked_root at_local new r = r
relinked_root (at_slot q i) new r = r

-- The bytes of a leaf, and those of an inner node's prefix, up to the one where `f` differs.
pub record LeafAbove (f : ℕ → ℕ) (d m b : ℕ) (old low : Node ℕ) : Type 0 where
  pub kind : old.flags ≡ leaf
  pub bytes : (j : ℕ) → j < m → old.key (d + j) ≡ f (d + j)
  pub differs : old.key (d + m) ≡ b

pub record InnerAbove (f : ℕ → ℕ) (d m b : ℕ) (old low : Node ℕ) : Type 0 where
  pub kind : old.flags ≡ inner_4
  pub bytes : (j : ℕ) → j < m → old.prefix j ≡ f (d + j)
  pub differs : old.prefix m ≡ b
  pub shorter : old.prefix_len ≡ m + 1 + low.prefix_len
  pub rest : (j : ℕ) → j < low.prefix_len → low.prefix j ≡ old.prefix (m + 1 + j)

-- A new node `fork` stands above the node at `p`, which is now `low`, and above a leaf for `f`.
pub record Forked (n : ℕ) (f : ℕ → ℕ) (st : ArtState) (l : Link) (p d : ℕ) (st' : ArtState)
    : Type 0 where
  pub old : Node ℕ
  pub low : Node ℕ
  pub fork : Node ℕ
  pub m : ℕ
  pub b : ℕ
  pub i_old : ℕ
  pub i_new : ℕ
  pub here : get_elem? st.heap p ≡ some old
  pub fits : d + m < n
  pub low_flags : low.flags ≡ old.flags
  pub low_key_len : low.key_len ≡ old.key_len
  pub low_key : low.key ≡ old.key
  pub low_arr : low.arr ≡ old.arr
  pub low_count : low.count ≡ old.count
  pub above : LeafAbove f d m b old low ⊎ InnerAbove f d m b old low
  pub fork_inner : fork.flags ≡ inner_4
  pub fork_two : fork.key_len ≡ 2
  pub fork_len : fork.prefix_len ≡ m
  pub fork_bytes : (j : ℕ) → j < m → fork.prefix j ≡ f (d + j)
  pub fork_old : (find_key fork.key b 0 fork.key_len ≡ some i_old) × (fork.arr i_old ≡ some p)
  pub fork_new :
      (find_key fork.key (f (d + m)) 0 fork.key_len ≡ some i_new)
      × (fork.arr i_new ≡ some (length st.heap + 1))
  pub fork_used : (i : ℕ) → i < fork.key_len → (i ≡ i_old) ⊎ (i ≡ i_new)
  pub fork_slots :
      (i q : ℕ)
      → fork.arr i ≡ some q
      → ((i ≡ i_old) × (q ≡ p)) ⊎ ((i ≡ i_new) × (q ≡ length st.heap + 1))
  pub size_after : length st'.heap ≡ length st.heap + 2
  pub get_fork : get_elem? st'.heap (length st.heap) ≡ some fork
  pub get_leaf : get_elem? st'.heap (length st.heap + 1) ≡ some (leaf_of f n)
  pub get_low : get_elem? st'.heap p ≡ some low
  pub get_other :
      (x : ℕ) (a : Node ℕ)
      → (p == x) ≡ false
      → get_elem? st.heap x ≡ some a
      → get_elem? st'.heap x ≡ some (record a { arr = relinked l (length st.heap) x a.arr })
  pub root_after : st'.root ≡ relinked_root l (length st.heap) st.root

-- What a link that leads to `p` is.
abbrev pub IsLink : ArtState → Link → ℕ → Type 0
IsLink st at_root p = st.root ≡ some p
IsLink st at_local p = ⊥
IsLink st (at_slot q i) p =
    (a : Node ℕ) × (get_elem? st.heap q ≡ some a) × (a.flags ≡ inner_4) × (a.arr i ≡ some p)

pub Reach-IsLink :
    {st : ArtState} {t : ℕ → ℕ} {l : Link} {p d : ℕ} → Reach st t l p d → IsLink st l p
Reach-IsLink (top e z) = e
Reach-IsLink (step r a) = (a.node, a.here, a.inner, a.child)

module _ (n : ℕ) (lev : ℕ → ℕ) (st : ArtState) (v : IsLevelled n lev st) (p : ℕ) where
  -- Where the root and the slots point after the link to `p` is set to `new`.
  pub root_case :
      (l : Link) (new r : ℕ)
      → IsLink st l p
      → st.root ≡ some r
      → relinked_root l new st.root ≡ some (if p == r then new else r)
  root_case at_root new r k e =
      let both : some p ≡ some r = sym k ∙ e in
      let same : p ≡ r = cc in let at : (p == r) ≡ true = ground (arith, same) in rw at refl
  root_case at_local new r k e = absurd k
  root_case (at_slot q i) new r (a, h, kind, c) e = elim (Bool-cases (p == r)) [
    | inl at ↦ absurd (root_alone n lev st v r q i a e h kind (c ∙ ap some (ground (arith, at))))
    | inr other ↦ rw other e
  ]

  pub arc_case :
      (l : Link) (new x i q : ℕ) (a : Node ℕ)
      → IsLink st l p
      → get_elem? st.heap x ≡ some a
      → a.flags ≡ inner_4
      → a.arr i ≡ some q
      → relinked l new x a.arr i ≡ some (if p == q then new else q)
  arc_case at_root new x i q a k h inner c = elim (Bool-cases (p == q)) [
    | inl at ↦
        absurd (root_alone n lev st v p x i a k h inner (c ∙ ap some (sym (ground (arith, at)))))
    | inr other ↦ rw other c
  ]
  arc_case at_local new x i q a k h inner c = absurd k
  arc_case (at_slot y j) new x i q a (b, hb, kb, cb) h inner c = elim (Bool-cases (p == q)) [
    | inl at ↦
        let (xy, ij) = v.own x y a b i j q h inner c hb kb (cb ∙ ap some (ground (arith, at))) in
        let here : (y == x) ≡ true = ground (arith, xy) in
        let slot : (j == i) ≡ true = ground (arith, ij) in rw (at, here, slot) refl
    | inr other ↦ elim (Bool-cases (y == x)) [
      | inr away ↦ rw (other, away) c
      | inl here ↦ elim (Bool-cases (j == i)) [
        | inr apart ↦ rw (other, here, apart) c
        | inl slot ↦
            let e = same_node st y x b a (ground (arith, here)) hb h in
            let both : some p ≡ some q =
              sym cb ∙ ap (λ (z : Node ℕ). z.arr j) e ∙ ap a.arr (ground (arith, slot)) ∙ c in
            absurd (let pq : p ≡ q = cc in ground (arith, other, pq))
      ]
    ]
  ]

  -- A slot that points somewhere afterwards did so before.
  pub arc_back :
      (l : Link) (new x i q : ℕ) (a : Node ℕ)
      → IsLink st l p
      → get_elem? st.heap x ≡ some a
      → relinked l new x a.arr i ≡ some q
      → (q' : ℕ) × (a.arr i ≡ some q')
  arc_back at_root new x i q a k h c = (q, c)
  arc_back at_local new x i q a k h c = (q, c)
  arc_back (at_slot y j) new x i q a (b, hb, kb, cb) h c = elim (Bool-cases (y == x)) [
    | inr away ↦ (q, rw away at c)
    | inl here ↦ elim (Bool-cases (j == i)) [
      | inr apart ↦ (q, rw (here, apart) at c)
      | inl slot ↦
          let e = same_node st y x b a (ground (arith, here)) hb h in
          (p, ap a.arr (sym (ground (arith, slot))) ∙ sym (ap (λ (z : Node ℕ). z.arr j) e) ∙ cb)
    ]
  ]
