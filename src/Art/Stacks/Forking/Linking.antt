-- ===== src/Art/Stacks/Forking/Linking.antt =====
-- `replace` of src/lib/art/art.c, the last step of do_leaf and split_prefix: the link to the node
-- leads to the new inner node above it.
use mathlib.Core.Path.{subst}
use callstack_count.Prelude.{
  ℕ, ◌+◌, ◌≤◌, ◌<◌, ◌≡◌, refl, sym, ap, ◌∙◌, inl, inr, Option, some, [], ◌∷◌, ◌++◌, length,
  get_elem?, set, get_elem?-set, length-set, length-append, get_elem?-append_left,
  get_elem?-append_last, set-append_left, set-append_last, get_elem?-some, get_elem?-bound, arith,
  ◌==◌, Bool-cases, ok,
}
use callstack_count.Art.{Node, inner_4, update}
use callstack_count.Art.Insert.{
  ArtState, Link, at_root, at_local, at_slot, load_node, store_node, replace,
}
use callstack_count.Art.Stacks.{Reach, IsLevelled}
use callstack_count.Art.Stacks.Paths.{same_node, Reach-bound}
use callstack_count.Art.Stacks.Extend.{leaf_of}
use callstack_count.Art.Stacks.Forking.{relinked, relinked_root, Forked, IsLink, Reach-IsLink}

-- The state of a heap with two more nodes.
abbrev pub pushed : ArtState → Node ℕ → Node ℕ → ArtState
pushed st x y = record { heap = (st.heap ++ x ∷ []) ++ y ∷ []; root = st.root }

module _ (st : ArtState) (x y : Node ℕ) where
  size_one : length (st.heap ++ x ∷ []) ≡ length st.heap + 1
  size_one = length-append st.heap (x ∷ [])

  pub size_pushed : length (pushed st x y).heap ≡ length st.heap + 2
  size_pushed = omega (arith, length-append (st.heap ++ x ∷ []) (y ∷ []), size_one)

  pub get_first : get_elem? (pushed st x y).heap (length st.heap) ≡ some x
  get_first =
      get_elem?-append_left (st.heap ++ x ∷ []) y (length st.heap) (omega (arith, size_one))
      ∙ get_elem?-append_last st.heap x

  pub get_second : get_elem? (pushed st x y).heap (length st.heap + 1) ≡ some y
  get_second =
      ap (get_elem? (pushed st x y).heap) (sym size_one)
      ∙ get_elem?-append_last (st.heap ++ x ∷ []) y

  pub get_below :
      (i : ℕ) → i < length st.heap → get_elem? (pushed st x y).heap i ≡ get_elem? st.heap i
  get_below i h =
      get_elem?-append_left (st.heap ++ x ∷ []) y i (omega (arith, size_one, h))
      ∙ get_elem?-append_left st.heap x i h

  pub load-pushed : load_node (length st.heap) (pushed st x y) ≡ ok x
  unfolding load_node
  load-pushed = rw (load_node, get_first) refl

  pub store-pushed : (z : Node ℕ) → store_node (length st.heap) z (pushed st x y) ≡ pushed st z y
  unfolding store_node
  store-pushed z =
      ap (λ h. record { heap = h; root = st.root })
        (set-append_left (st.heap ++ x ∷ []) (y ∷ []) (length st.heap) z (omega (arith, size_one))
          ∙ ap (λ h. h ++ y ∷ []) (set-append_last st.heap x z))

-- What replace does to a heap.
replace_lem :
    (l : Link) (new : ℕ) (st : ArtState)
    → ((q i : ℕ) → l ≡ at_slot q i → (a : Node ℕ) × (get_elem? st.heap q ≡ some a))
    → (st' : ArtState) × (replace l new st ≡ ok st')
      × (st'.root ≡ relinked_root l new st.root)
      × (length st'.heap ≡ length st.heap)
      × ((x : ℕ) (a : Node ℕ)
          → get_elem? st.heap x ≡ some a
          → get_elem? st'.heap x ≡ some (record a { arr = relinked l new x a.arr }))
unfolding replace load_node store_node
replace_lem at_root new st h = (_, refl, refl, refl, λ x a e. e)
replace_lem at_local new st h = (_, refl, refl, refl, λ x a e. e)
replace_lem (at_slot q i) new st h =
    let (b, hb) = h q i refl in
    let b' : Node ℕ = record b { arr = update b.arr i (some new) } in
    (
      record { heap = set st.heap q b'; root = st.root },
      rw (replace, load_node, hb) refl,
      refl,
      length-set st.heap q b',
      λ x a e.
          let get = get_elem?-set st.heap q x b' (get_elem?-bound st.heap q b hb) in
          elim (Bool-cases (q == x)) [
            | inr away ↦ get ∙ rw away e
            | inl here ↦
                let same = same_node st q x b a (ground (arith, here)) hb e in
                get
                ∙ rw here
                    (ap (λ (z : Node ℕ). some (record z { arr = update z.arr i (some new) })) same)
          ],
    )

module _ (n : ℕ) (lev : ℕ → ℕ) (st : ArtState) (v : IsLevelled n lev st) (f : ℕ → ℕ) (p d : ℕ) where
  -- The link is in none of the new nodes, nor in the one that it leads to.
  relinked_away :
      (l : Link) (new x : ℕ) (arr : ℕ → Option ℕ)
      → IsLink st l p
      → (x < length st.heap → lev p ≤ lev x)
      → relinked l new x arr ≡ arr
  relinked_away at_root new x arr k h = refl
  relinked_away at_local new x arr k h = refl
  relinked_away (at_slot q i) new x arr (a, e, inner, c) h = elim (Bool-cases (q == x)) [
    | inr away ↦ rw away refl
    | inl here ↦
        let qx : q ≡ x = ground (arith, here) in
        let low = get_elem?-bound st.heap q a e in
        let deep = (v.levels q a i p e inner c).1 in
        absurd (omega (arith, h (omega (arith, low, qx)), deep, ap lev qx))
  ]

  kept_node :
      (l : Link) (new x : ℕ) (a : Node ℕ) (st' : ArtState)
      → IsLink st l p
      → (x < length st.heap → lev p ≤ lev x)
      → get_elem? st'.heap x ≡ some (record a { arr = relinked l new x a.arr })
      → get_elem? st'.heap x ≡ some a
  kept_node l new x a st' k h e =
      e ∙ ap (λ g. some (record a { arr = g })) (relinked_away l new x a.arr k h)

  link_at :
      (q i : ℕ)
      → IsLink st (at_slot q i) p
      → (a : Node ℕ) × (get_elem? st.heap q ≡ some a) × (a.flags ≡ inner_4) × (a.arr i ≡ some p)
  link_at q i k = k

  -- Setting the link after the rest is done.
  pub Forked-replace :
      (l : Link) (st2 : ArtState)
      → Reach st f l p d
      → Forked n f st at_local p d st2
      → (st' : ArtState) × (replace l (length st.heap) st2 ≡ ok st') × Forked n f st l p d st'
  Forked-replace l st2 r w =
      let k = Reach-IsLink r in
      let low = Reach-bound n lev st v r in
      let new = length st.heap in
      let (st', e, root, size, get) = replace_lem l new st2 (λ q i at.
        let (a, h, _, _) = link_at q i (subst (λ z. IsLink st z p) at k) in
        let held : q < length st2.heap =
          omega (arith, get_elem?-bound st.heap q a h, w.size_after) in
        get_elem?-some st2.heap q held) in
      (
        st',
        e,
        record {
          old = w.old;
          low = w.low;
          fork = w.fork;
          m = w.m;
          b = w.b;
          i_old = w.i_old;
          i_new = w.i_new;
          here = w.here;
          fits = w.fits;
          low_flags = w.low_flags;
          low_key_len = w.low_key_len;
          low_key = w.low_key;
          low_arr = w.low_arr;
          low_count = w.low_count;
          above = w.above;
          fork_inner = w.fork_inner;
          fork_two = w.fork_two;
          fork_len = w.fork_len;
          fork_bytes = w.fork_bytes;
          fork_old = w.fork_old;
          fork_new = w.fork_new;
          fork_used = w.fork_used;
          fork_slots = w.fork_slots;
          size_after = size ∙ w.size_after;
          get_fork =
              kept_node l new new w.fork st' k (λ h. absurd (omega (arith, h)))
                (get new w.fork w.get_fork);
          get_leaf =
              kept_node l new (new + 1) (leaf_of f n) st' k (λ h. absurd (omega (arith, h)))
                (get (new + 1) (leaf_of f n) w.get_leaf);
          get_low = kept_node l new p w.low st' k (λ h. omega arith) (get p w.low w.get_low);
          get_other = λ x a other h. get x a (w.get_other x a other h);
          root_after = root ∙ ap (relinked_root l new) w.root_after;
        },
      )
