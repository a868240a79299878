-- ===== src/Art/Main.antt =====
-- src/main.c with the backend src/lib/art/ops.c, on a single record.
use callstack_count.Prelude.{
  ℕ, zero, suc, ◌+◌, ◌%◌, ◌^◌, ◌<◌, ◌≡◌, refl, sym, ◌∙◌, inl, inr, true, Option, none, some, List,
  [], ◌∷◌, arith, ◌==◌, Run, ok, ◌>>=◌,
}
use callstack_count.RbTree.{RbLibrary, Tree}
use callstack_count.RbTree
use callstack_count.Program.{Record, CallstackEntry, TreeEntry, Program, start, main_loop}
use callstack_count.Program.Dispatch.{entry_of}
use callstack_count.Program.Trees.{tree_of, update, start-IsProgram}
use callstack_count.Program.Refine.{view, spec_process, spec_all, spec_loop, main_loop-Refines}
use callstack_count.Art.{Node, Stream, make_leaf, alloc_node}
use callstack_count.Art.Insert.{push_node, insert}
use callstack_count.Art.Insert.Counts.{leaf_tree, new_tree, insert_again}
use callstack_count.Art.Backend.{stream_of, art_tree_insert, art_tree_new, art_ops}

-- The heap of a tree that is a single leaf.
abbrev pub leaf_heap : Stream → ℕ → List (Node ℕ)
leaf_heap s c = (leaf_tree s c).heap

insert_first : (s : Stream) → insert s new_tree ≡ ok (some (leaf_tree s 0))
unfolding insert push_node make_leaf alloc_node
insert_first s = refl

art_first :
    (stack : List CallstackEntry) (s : Stream)
    → stream_of stack ≡ some s
    → art_tree_insert none stack [] ≡ ok (some 0, leaf_heap s 0)
unfolding art_tree_insert
art_first stack s e = rw (art_tree_insert, e, insert_first s)

art_again :
    (stack : List CallstackEntry) (s : Stream) (c : ℕ)
    → stream_of stack ≡ some s
    → art_tree_insert (some 0) stack (leaf_heap s c) ≡ ok (some 0, leaf_heap s ((c + 1) % 2 ^ 64))
unfolding art_tree_insert
art_again stack s c e = rw (art_tree_insert, e, insert_again s c)

module _ (lib : RbLibrary {T = Tree TreeEntry} callstack_count.RbTree.inorder) (r : Record)
    (s : Stream) where
  abbrev HasRoot : (ℕ → Option (Option ℕ)) → Type 0
  HasRoot f = ◌≡◌ {A = Option (Option ℕ)} (f r.id) (some (some 0))

  update_same : (f : ℕ → Option (Option ℕ)) → HasRoot (update f r.id (some 0))
  update_same f = let same : (r.id == r.id) ≡ true = ground arith in rw same refl

  process_again :
      (f : ℕ → Option (Option ℕ)) (c : ℕ)
      → stream_of r.stack ≡ some s
      → HasRoot f
      → spec_process lib art_ops r (f, leaf_heap s c)
        ≡ ok (update f r.id (some 0), leaf_heap s ((c + 1) % 2 ^ 64))
  unfolding spec_process
  process_again f c e h = rw (h, ◌>>=◌, art_again r.stack s c e)

  loop_again :
      (n : ℕ) (f : ℕ → Option (Option ℕ)) (c : ℕ)
      → stream_of r.stack ≡ some s
      → HasRoot f
      → c < 2 ^ 64
      → (f' : ℕ → Option (Option ℕ)) × (spec_loop lib art_ops n (r ∷ []) (f, leaf_heap s c)
          ≡ ok (f', leaf_heap s ((c + n) % 2 ^ 64)))
        × HasRoot f'
  unfolding spec_loop spec_all
  loop_again zero f c e h small =
      let same : (c + 0) % 2 ^ 64 ≡ c = omega (arith, small) in (f, rw same refl, h)
  loop_again (suc n) f c e h small =
      let (f', run, h') =
        loop_again n (update f r.id (some 0)) ((c + 1) % 2 ^ 64) e (update_same f) (omega arith) in
      let sum : ((c + 1) % 2 ^ 64 + n) % 2 ^ 64 ≡ (c + suc n) % 2 ^ 64 = omega arith in
      (f', rw (process_again f c e h, ◌>>=◌, ← sum) run, h')

  -- The main loop with this backend over a single record whose stack has an end, n + 1 rounds from
  -- the start, ends without a fault; the tree of the record's id is then a single leaf with the bytes
  -- of the stack, whose count is n.
  main_loop-leaf :
      (n : ℕ)
      → stream_of r.stack ≡ some s
      → (m : Program (List (Node ℕ)) (Option ℕ)) × (main_loop lib art_ops
            (suc n)
            (r ∷ [])
            (start lib art_ops [])
          ≡ ok m)
        × (m.shared ≡ leaf_heap s (n % 2 ^ 64))
        × HasRoot (tree_of m)
  unfolding view start spec_loop spec_all spec_process tree_of entry_of art_tree_new
  main_loop-leaf n e =
      let m0 = start lib art_ops [] in
      let f1 = update (tree_of m0) r.id (some 0) in
      let first : spec_process lib art_ops r (tree_of m0, []) ≡ ok (f1, leaf_heap s 0) =
        rw (art_first r.stack s e) refl in
      let (f, run, h) = loop_again n f1 0 e (update_same (tree_of m0)) (omega arith) in
      let total : 0 + n ≡ n = omega arith in
      let whole : spec_loop lib art_ops (suc n) (r ∷ []) (tree_of m0, [])
          ≡ ok (f, leaf_heap s (n % 2 ^ 64)) =
        rw (first, ◌>>=◌) (rw total at run) in
      elim (main_loop-Refines lib art_ops (suc n) (r ∷ []) m0 (start-IsProgram lib art_ops [])) [
        | inr (x, ran, fails) ↦ absurd (let bad = sym whole ∙ fails in cc)
        | inl (m, ran, same, v) ↦
            let both : ◌≡◌ {A = Run ((ℕ → Option (Option ℕ)) × List (Node ℕ))}
                (ok (f, leaf_heap s (n % 2 ^ 64))) (ok (view lib art_ops m)) =
              sym whole ∙ same in
            let trees : f ≡ tree_of m = cc in
            let heap : leaf_heap s (n % 2 ^ 64) ≡ m.shared = cc in
            (m, ran, sym heap, rw (← trees) h)
      ]
