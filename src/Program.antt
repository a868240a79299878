-- ===== src/Program.antt =====
-- src/main.c over a backend: the records are dispatched by id to trees that the program keeps in a
-- red-black tree. A `struct callstack_tree *` is an index into the trees that were allocated, so
-- inserting through one reference changes the tree that get_tree finds again.
pub mod Maps
pub mod Dispatch
pub mod Trees
pub mod Options
pub mod Refine
use Prim.Native.Nat.{compare}
use callstack_count.Prelude.{
  ℕ, zero, suc, ◌+◌, ◌*◌, ◌%◌, ◌^◌, Bool, Option, none, some, List, [], ◌∷◌, ◌++◌, length,
  get_elem?, set, Run, ok, fault, dead_pointer, ◌>>=◌,
}
use callstack_count.RbTree.{RbLibrary, Tree, inorder, RootCached, rb_root_cached}
use callstack_count.RbTree.Search.{Search, hit, miss, rb_search, rb_insert_cached}

-- src/include/callstack.h
pub record CallstackEntry : Type 0 where
  pub ip : ℕ
  pub map_id : ℕ

-- src/include/data/data.h; the stack has MAX_STACK_ENTRIES entries.
pub record Record : Type 0 where
  pub id : ℕ
  pub stack : List CallstackEntry

-- `struct callstack_ops`: what a backend offers. `G` is the state that its trees share, such as
-- caches and counters, and `T` one tree.
pub record CallstackOps (G T : Type 0) : Type 0 where
  pub new : G → Run (T × G)
  pub insert : T → List CallstackEntry → G → Run (T × G)

-- `struct tree`
pub record TreeEntry : Type 0 where
  pub id : ℕ
  pub cs_tree : ℕ

pub record Program (G T : Type 0) : Type 0 where
  pub trees : RootCached TreeEntry
  pub allocated : List T
  pub shared : G
  pub num_records : ℕ

module _ {G T : Type 0} (lib : RbLibrary {T = Tree TreeEntry} inorder)
    (ops : CallstackOps G T) where
  -- init_caches
  unfoldable pub start : G → Program G T
  start g = record { trees = rb_root_cached; allocated = []; shared = g; num_records = 0 }

  unfoldable pub found_tree : Search TreeEntry → ℕ → Program G T → Run (ℕ × Program G T)
  found_tree (hit entry) id m = ok (entry.cs_tree, m)
  found_tree (miss path leftmost) id m = ops.new m.shared >>= λ p.
      let cursor : TreeEntry = record { id = id; cs_tree = length m.allocated } in
      ok (
        length m.allocated,
        record m {
          trees = rb_insert_cached lib path leftmost cursor m.trees;
          allocated = m.allocated ++ p.0 ∷ [];
          shared = p.1;
        },
      )

  -- get_tree: smaller ids stand to the right.
  unfoldable pub get_tree : ℕ → Program G T → Run (ℕ × Program G T)
  unfolding found_tree
  get_tree id m = found_tree (rb_search (λ e. compare (TreeEntry.id e) id) m.trees.rb_root) id m

  -- tree->insert(tree, r->stack)
  unfoldable pub insert_at : ℕ → List CallstackEntry → Program G T → Run (Program G T)
  insert_at tree stack m = elim (get_elem? m.allocated tree) [
    | none ↦ fault dead_pointer
    | some t ↦ ops.insert t stack m.shared >>= λ p.
        ok (record m { allocated = set m.allocated tree p.0; shared = p.1 })
  ]

  -- One round of the inner loop of main.
  unfoldable pub process : Record → Program G T → Run (Program G T)
  unfolding insert_at
  process r m = get_tree r.id m >>= λ p. insert_at p.0 r.stack p.1 >>= λ m'.
      ok (record m' { num_records = (m'.num_records + 1) % 2 ^ 64 })

  unfoldable pub process_all : List Record → Program G T → Run (Program G T)
  process_all [] m = ok m
  process_all (r ∷ rs) m = process r m >>= process_all rs

  -- The main loop goes through the records `rounds` times (20 in main).
  unfoldable pub main_loop : ℕ → List Record → Program G T → Run (Program G T)
  main_loop zero records m = ok m
  main_loop (suc rounds) records m = process_all records m >>= main_loop rounds records

  -- The walk with rb_first and rb_next counts the trees.
  unfoldable pub num_trees : Program G T → ℕ
  num_trees m = length (inorder m.trees.rb_root) % 2 ^ 64
