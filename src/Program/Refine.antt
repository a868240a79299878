-- ===== src/Program/Refine.antt =====
-- main's records against a plain map from ids to trees: main.c keeps one tree per id.
use mathlib.Core.Path.{fun_ext}
use callstack_count.Prelude.{
  ℕ, zero, suc, ◌+◌, ◌%◌, ◌^◌, ◌≡◌, refl, sym, ap, ◌∙◌, ◌⊎◌, inl, inr, Option, none, some, List, [],
  ◌∷◌, set, Run, Fault, ok, fault, ◌>>=◌, Run-cases,
}
use callstack_count.RbTree.{RbLibrary, Tree, inorder}
use callstack_count.Program.{
  Record, CallstackOps, TreeEntry, Program, process, process_all, main_loop,
}
use callstack_count.Program.Trees.{
  IsProgram, tree_of, update, get_tree-Gets, tree_of-set, set-IsProgram,
}

module _ {G T : Type 0} (lib : RbLibrary {T = Tree TreeEntry} inorder)
    (ops : CallstackOps G T) where
  -- What a record does to the map from ids to trees.
  unfoldable pub spec_process : Record → (ℕ → Option T) × G → Run ((ℕ → Option T) × G)
  spec_process r a = (elim (a.0 r.id) [ none ↦ ops.new a.1 | some t ↦ ok (t, a.1) ]) >>= λ p.
      ops.insert p.0 r.stack p.1 >>= λ q. ok (update a.0 r.id q.0, q.1)

  unfoldable pub view : Program G T → (ℕ → Option T) × G
  view m = (tree_of m, m.shared)

  -- The program and its specification fail alike, or end in the same map and the same shared state.
  abbrev pub Refines : Run (Program G T) → Run ((ℕ → Option T) × G) → Type 0
  Refines c a =
      ((m : Program G T) × (c ≡ ok m) × (a ≡ ok (view m)) × IsProgram m)
      ⊎ ((x : Fault) × (c ≡ fault x) × (a ≡ fault x))

  -- A record changes the map from ids to trees as its specification says.
  pub process-Refines :
      (r : Record) (m : Program G T)
      → IsProgram m
      → Refines (process lib ops r m) (spec_process r (view m))
  unfolding process spec_process view
  process-Refines r m v = elim (get_tree-Gets lib ops r.id m v) [
    | inr (x, e, absent, n) ↦ inr (x, rw (e, ◌>>=◌), rw (absent, n, ◌>>=◌))
    | inl (p, m1, t, e, g) ↦ elim (Run-cases (ops.insert t r.stack m1.shared)) [
      | inr (x, f) ↦ inr (x, rw (e, ◌>>=◌, g.tree, f, ◌>>=◌), rw (g.found, ◌>>=◌, f))
      | inl (q, f) ↦ inl (
        record m1 {
          allocated = set m1.allocated p q.0;
          shared = q.1;
          num_records = (m1.num_records + 1) % 2 ^ 64;
        },
        rw (e, ◌>>=◌, g.tree, f, ◌>>=◌),
        rw (g.found, ◌>>=◌, f)
            (ap (λ h. ok (h, q.1))
              (fun_ext λ j. sym (
                tree_of-set lib ops m1 r.id p ((m1.num_records + 1) % 2 ^ 64) q.0 q.1 j g.valid
                  g.entry
                ∙ g.others j q.0))),
        set-IsProgram lib ops m1 p _ q.0 q.1 g.valid,
      )
    ]
  ]

  -- The same records, on the map.
  unfoldable pub spec_all : List Record → (ℕ → Option T) × G → Run ((ℕ → Option T) × G)
  spec_all [] a = ok a
  spec_all (r ∷ rs) a = spec_process r a >>= spec_all rs

  unfoldable pub spec_loop : ℕ → List Record → (ℕ → Option T) × G → Run ((ℕ → Option T) × G)
  spec_loop zero records a = ok a
  spec_loop (suc rounds) records a = spec_all records a >>= spec_loop rounds records

  process_all-Refines :
      (rs : List Record) (m : Program G T)
      → IsProgram m
      → Refines (process_all lib ops rs m) (spec_all rs (view m))
  unfolding process_all spec_all
  process_all-Refines [] m v = inl (m, refl, refl, v)
  process_all-Refines (r ∷ rs) m v = elim (process-Refines r m v) [
    | inr (x, e, f) ↦ inr (x, rw (e, ◌>>=◌), rw (f, ◌>>=◌))
    | inl (m1, e, f, v1) ↦ rw (e, f, ◌>>=◌) (process_all-Refines rs m1 v1)
  ]

  -- From a program whose entries are ordered by id and refer each to a tree of its own, the main
  -- loop ends like its specification on a plain map from ids to trees: in the same fault, or in the
  -- same map and shared state, with such entries again.
  pub main_loop-Refines :
      (rounds : ℕ) (rs : List Record) (m : Program G T)
      → IsProgram m
      → Refines (main_loop lib ops rounds rs m) (spec_loop rounds rs (view m))
  unfolding main_loop spec_loop
  main_loop-Refines zero rs m v = inl (m, refl, refl, v)
  main_loop-Refines (suc rounds) rs m v = elim (process_all-Refines rs m v) [
    | inr (x, e, f) ↦ inr (x, rw (e, ◌>>=◌), rw (f, ◌>>=◌))
    | inl (m1, e, f, v1) ↦ rw (e, f, ◌>>=◌) (main_loop-Refines rounds rs m1 v1)
  ]
