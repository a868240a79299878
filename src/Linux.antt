-- ===== src/Linux.antt =====
-- The perf backend, src/lib/linux/callstack.c: a stack becomes a chain in the cursor of the thread,
-- and the chain is added to the radix tree of the callstack_tree.
pub mod Counts
pub mod Main
pub mod Order
pub mod Bounds
use callstack_count.Prelude.{
  ℕ, zero, suc, Bool, true, false, none, List, [], ◌∷◌, ◌==◌, if◌then◌else◌, Run, ok, ◌>>=◌,
}
use callstack_count.RbTree.{RbLibrary, Tree}
use callstack_count.RbTree
use callstack_count.Callchain.{MapSymbol, function}
use callstack_count.Callchain.Cursor.{
  Cursor, new_cursor, callchain_cursor_append, callchain_cursor_reset,
}
use callstack_count.Callchain.Tree.{inorder, CallchainRoot, callchain_init}
use callstack_count.Callchain.Append.{Reader, callchain_append}
use callstack_count.Program.{CallstackEntry, CallstackOps}
use callstack_count.Program.Maps.{MapTree, Maps, no_maps, get_map}

-- What the trees of this backend share: the globals of get_map, the cursor of the thread, and
-- `__max_depth`.
pub record LinuxShared : Type 0 where
  pub maps : Maps
  pub reader : Reader

abbrev pub linux_start : LinuxShared
linux_start = record { maps = no_maps; reader = record { cursor = new_cursor; deepest = 0 } }

abbrev pub max_stack_entries : ℕ
max_stack_entries = 256

-- The map_symbol that get_map has made for a map.
abbrev pub map_symbol : ℕ → MapSymbol
map_symbol map = record { maps = 0; map_ptr = map; sym = none }

module _ (maps_lib : RbLibrary {T = Tree MapTree} callstack_count.RbTree.inorder)
    (lib : RbLibrary inorder) where
  -- The loop of `insert`; the fuel is the number of entries that the array has left. What the
  -- list does not hold is zero.
  unfoldable pub build_cursor : ℕ → List CallstackEntry → Maps → Cursor → Maps × Cursor
  build_cursor zero stack m c = (m, c)
  build_cursor (suc left) [] m c = (m, c)
  build_cursor (suc left) (entry ∷ stack) m c =
      let (ms, m') = get_map maps_lib entry.map_id m in
      let c' = callchain_cursor_append c entry.ip (map_symbol ms) false none 0 0 0 none in
      let rest = build_cursor left stack m' c' in if entry.ip == 0 then (m, c) else rest

  unfoldable pub append_cursor : CallchainRoot → LinuxShared → Run (CallchainRoot × LinuxShared)
  append_cursor tree g =
      if g.reader.cursor.nr == 0
      then ok (tree, g)
      else callchain_append lib function 0 tree g.reader >>= λ p.
          ok (p.1, record g { reader = p.2 })

  -- insert. The result of callchain_append is not looked at.
  unfoldable pub insert :
      CallchainRoot → List CallstackEntry → LinuxShared → Run (CallchainRoot × LinuxShared)
  unfolding append_cursor
  insert tree stack g =
      let (m, c) =
        build_cursor max_stack_entries stack g.maps (callchain_cursor_reset g.reader.cursor) in
      append_cursor tree (record { maps = m; reader = record g.reader { cursor = c } })

  -- linux_tree_new
  unfoldable pub linux_tree_new : LinuxShared → Run (CallchainRoot × LinuxShared)
  linux_tree_new g = ok (callchain_init, g)

  abbrev pub linux_ops : CallstackOps LinuxShared CallchainRoot
  linux_ops = record { new = linux_tree_new; insert = insert }
