-- ===== src/Art/Stacks/MainLoop.antt =====
-- The main loop of src/main.c with the backend src/lib/art/ops.c: what the tree of an id counts.
use callstack_count.Prelude.{
  ℕ, zero, suc, ◌*◌, ◌≤◌, ◌≡◌, refl, sym, ap, ◌∙◌, inl, inr, true, Option, none, some, List, [],
  ◌∷◌, arith, ◌==◌, Option-cases, Run, ok, ◌>>=◌,
}
use callstack_count.RbTree.{RbLibrary, Tree}
use callstack_count.RbTree
use callstack_count.Program.{Record, CallstackEntry, TreeEntry, Program, start, main_loop}
use callstack_count.Program.Dispatch.{entry_of}
use callstack_count.Program.Trees.{tree_of, update, start-IsProgram}
use callstack_count.Program.Refine.{view, spec_process, spec_all, spec_loop, main_loop-Refines}
use callstack_count.Art.{Node}
use callstack_count.Art.Insert.{ArtState}
use callstack_count.Art.Insert.Counts.{new_tree}
use callstack_count.Art.Backend.{stack_byte, art_tree_insert, art_tree_new, art_ops}
use callstack_count.Art.Stacks.Counting.{tally}
use callstack_count.Art.Stacks.Few.{kinds, grown_to-le, HasFew, new_tree-HasFew}
use callstack_count.Art.Stacks.Entries.{IsStack, stack_count, art_tree_insert-HasFew}

-- The stacks of the records, the last one first, before those that were there.
abbrev pub stacks_after : List Record → List (ℕ → ℕ) → List (ℕ → ℕ)
stacks_after [] fs = fs
stacks_after (r ∷ rs) fs = stacks_after rs (stack_byte r.stack ∷ fs)

abbrev pub after_rounds : ℕ → List Record → List (ℕ → ℕ) → List (ℕ → ℕ)
after_rounds zero rs fs = fs
after_rounds (suc rounds) rs fs = after_rounds rounds rs (stacks_after rs fs)

-- Records of one id, with stacks of `k` entries.
abbrev pub AreOf : ℕ → ℕ → List Record → Type 0
AreOf id k [] = Unit
AreOf id k (r ∷ rs) = (r.id ≡ id) × IsStack k r.stack × AreOf id k rs

stacks_after-kinds :
    (n : ℕ) (rs : List Record) (fs : List (ℕ → ℕ)) → kinds n fs ≤ kinds n (stacks_after rs fs)
stacks_after-kinds n [] fs = omega arith
stacks_after-kinds n (r ∷ rs) fs =
    let f = stack_byte r.stack in
    omega (arith, stacks_after-kinds n rs (f ∷ fs), grown_to-le (tally n f fs) (kinds n fs))

after_rounds-kinds :
    (n rounds : ℕ) (rs : List Record) (fs : List (ℕ → ℕ))
    → kinds n fs ≤ kinds n (after_rounds rounds rs fs)
after_rounds-kinds n zero rs fs = omega arith
after_rounds-kinds n (suc rounds) rs fs =
    omega (arith, stacks_after-kinds n rs fs, after_rounds-kinds n rounds rs (stacks_after rs fs))

-- The root of the tree of an id; no tree is yet an empty one.
abbrev pub root_of : Option (Option ℕ) → Option ℕ
root_of none = none
root_of (some r) = r

-- The tree of an id.
abbrev pub art_tree : Program (List (Node ℕ)) (Option ℕ) → ℕ → ArtState
art_tree m id = record { heap = m.shared; root = root_of (tree_of m id) }

-- What the map from ids to trees and their heap have, for an id.
abbrev IsAt : ℕ → ArtState → (ℕ → Option (Option ℕ)) × List (Node ℕ) → Type 0
IsAt id st a = (a.1 ≡ st.heap) × (root_of (a.0 id) ≡ st.root)

module _ (lib : RbLibrary {T = Tree TreeEntry} callstack_count.RbTree.inorder) (id k : ℕ)
    (small : k ≤ 8) where
  abbrev bytes : ℕ
  bytes = 16 * k

  process-HasFew :
      (r : Record) (fs : List (ℕ → ℕ)) (st : ArtState) (a : (ℕ → Option (Option ℕ)) × List (Node ℕ))
      → r.id ≡ id
      → IsStack k r.stack
      → kinds bytes (stack_byte r.stack ∷ fs) ≤ 4
      → HasFew bytes fs st
      → IsAt id st a
      → (st' : ArtState) × (a' : (ℕ → Option (Option ℕ)) × List (Node ℕ)) × (spec_process lib
            art_ops r a
          ≡ ok a')
        × HasFew bytes (stack_byte r.stack ∷ fs) st'
        × IsAt id st' a'
  unfolding spec_process art_tree_new
  process-HasFew r fs st a same v few w (heap, root) =
      let (st', so, w') = art_tree_insert-HasFew k small r.stack fs st v few w in
      let at : (r.id == id) ≡ true = ground (arith, same) in
      let found : root_of (a.0 r.id) ≡ st.root = ap (λ z. root_of (a.0 z)) same ∙ root in
      let ran : art_tree_insert (root_of (a.0 r.id)) r.stack a.1 ≡ ok (st'.root, st'.heap) =
        rw (found, heap) so in
      (
        st',
        (update a.0 r.id st'.root, st'.heap),
        elim (Option-cases (a.0 r.id)) [
          | inl absent ↦ rw (absent, ◌>>=◌, rw absent at ran) refl
          | inr (x, there) ↦ rw (there, ◌>>=◌, rw there at ran) refl
        ],
        w',
        (refl, rw at refl),
      )

  all-HasFew :
      (rs : List Record) (fs : List (ℕ → ℕ)) (st : ArtState)
      (a : (ℕ → Option (Option ℕ)) × List (Node ℕ))
      → AreOf id k rs
      → kinds bytes (stacks_after rs fs) ≤ 4
      → HasFew bytes fs st
      → IsAt id st a
      → (st' : ArtState) × (a' : (ℕ → Option (Option ℕ)) × List (Node ℕ)) × (spec_all lib art_ops rs
            a
          ≡ ok a')
        × HasFew bytes (stacks_after rs fs) st'
        × IsAt id st' a'
  unfolding spec_all
  all-HasFew [] fs st a v few w at = (st, a, refl, w, at)
  all-HasFew (r ∷ rs) fs st a v few w at =
      let f = stack_byte r.stack in
      let fewer = stacks_after-kinds bytes rs (f ∷ fs) in
      let (st1, a1, so, w1, at1) =
        process-HasFew r fs st a v.0 v.1 (omega (arith, few, fewer)) w at in
      let (st2, a2, so2, w2, at2) = all-HasFew rs (f ∷ fs) st1 a1 v.2 few w1 at1 in
      (st2, a2, rw (so, ◌>>=◌) so2, w2, at2)

  loop-HasFew :
      (rounds : ℕ) (rs : List Record) (fs : List (ℕ → ℕ)) (st : ArtState)
      (a : (ℕ → Option (Option ℕ)) × List (Node ℕ))
      → AreOf id k rs
      → kinds bytes (after_rounds rounds rs fs) ≤ 4
      → HasFew bytes fs st
      → IsAt id st a
      → (st' : ArtState) × (a' : (ℕ → Option (Option ℕ)) × List (Node ℕ)) × (spec_loop lib art_ops
            rounds rs a
          ≡ ok a')
        × HasFew bytes (after_rounds rounds rs fs) st'
        × IsAt id st' a'
  unfolding spec_loop
  loop-HasFew zero rs fs st a v few w at = (st, a, refl, w, at)
  loop-HasFew (suc rounds) rs fs st a v few w at =
      let fewer = after_rounds-kinds bytes rounds rs (stacks_after rs fs) in
      let (st1, a1, so, w1, at1) = all-HasFew rs fs st a v (omega (arith, few, fewer)) w at in
      let (st2, a2, so2, w2, at2) =
        loop-HasFew rounds rs (stacks_after rs fs) st1 a1 v few w1 at1 in
      (st2, a2, rw (so, ◌>>=◌) so2, w2, at2)

  -- The main loop with this backend from the start, over records of one id with stacks of `k` entries
  -- of 64-bit words, at most 8, all with an ip and followed by zeros, of which at most four are
  -- different, ends without a fault after any number of rounds; then each stack of `k` entries has in
  -- the tree of the id as its count how often it was inserted after its first time, modulo 2^64, and
  -- none if it was not inserted.
  pub main_loop-tally :
      (rounds : ℕ) (rs : List Record)
      → AreOf id k rs
      → kinds bytes (after_rounds rounds rs []) ≤ 4
      → (m : Program (List (Node ℕ)) (Option ℕ)) × (main_loop lib art_ops rounds rs
            (start lib art_ops [])
          ≡ ok m)
        × ((s : List CallstackEntry)
            → IsStack k s
            → stack_count k s (art_tree m id)
              ≡ tally bytes (stack_byte s) (after_rounds rounds rs []))
  unfolding view start tree_of entry_of
  main_loop-tally rounds rs v few =
      let m0 = start lib art_ops [] in
      let empty = new_tree-HasFew bytes (omega (arith, small)) in
      let (st, a, so, w, (heap, root)) =
        loop-HasFew rounds rs [] new_tree (tree_of m0, []) v few empty (refl, refl) in
      elim (main_loop-Refines lib art_ops rounds rs m0 (start-IsProgram lib art_ops [])) [
        | inr (x, ran, fails) ↦ absurd (let bad = sym so ∙ fails in cc)
        | inl (m, ran, same, _) ↦
            let both : ◌≡◌ {A = Run ((ℕ → Option (Option ℕ)) × List (Node ℕ))} (ok a)
                (ok (view lib art_ops m)) =
              sym so ∙ same in
            let ends : a ≡ (tree_of m, m.shared) = cc in
            let tree : st ≡ art_tree m id = λ i. record {
              heap = (sym heap ∙ ap (λ z. z.1) ends) i;
              root = (sym root ∙ ap (λ z. root_of (z.0 id)) ends) i;
            } in
            (m, ran, λ s u. ap (λ z. stack_count k s z) (sym tree) ∙ w.tallies.2 (stack_byte s))
      ]
