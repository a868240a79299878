-- ===== src/Callchain/Merge.antt =====
-- Merging call chains: merge_chain_branch and callchain_merge of src/lib/linux/callchain.c. The nodes
-- of `src` are freed on the way, and are not part of the result.
pub mod Writing
pub mod Steps
pub mod Counts
use callstack_count.Prelude.{
  ℕ, ◌+◌, ◌-◌, ◌%◌, ◌^◌, Bool, true, false, none, List, [], ◌∷◌, ◌==◌, ltb, if◌then◌else◌, Run, ok,
  ◌>>=◌,
}
use callstack_count.RbTree.{RbLibrary}
use callstack_count.Callchain.{CallchainList, ChainKey, MapSymbol}
use callstack_count.Callchain.Cursor.{Cursor, callchain_cursor_append, callchain_cursor_commit}
use callstack_count.Callchain.Tree.{
  NodeInfo, CallchainNode, callchain_node, Children, nil, rb, inorder, CallchainRoot, val_of,
  info_of, children_of,
}
use callstack_count.Callchain.Append.{Reader, ChildrenDone, append_chain_children}

-- The map_symbol that the loop over the entries makes: without the symbol.
abbrev pub bare_symbol : CallchainList → MapSymbol
bare_symbol v = record { maps = v.ms.maps; map_ptr = v.ms.map_ptr; sym = none }

-- The entries of a node, appended to the cursor.
unfoldable pub append_entries : List CallchainList → Cursor → Cursor
append_entries [] c = c
append_entries (v ∷ vs) c =
    append_entries vs (callchain_cursor_append c v.ip (bare_symbol v) false none 0 0 0 v.srcline)

-- A u64 stored in an int and converted back.
unfoldable pub through_int : ℕ → ℕ
through_int n = if ltb (n % 2 ^ 32) (2 ^ 31) then n % 2 ^ 32 else (n % 2 ^ 32) + (2 ^ 64 - 2 ^ 32)

-- cursor->nr = old_pos; cursor->last = old_last
unfoldable pub restore : Cursor → Cursor → Cursor
unfolding through_int
restore old c = record c { nr = through_int old.nr; last = old.last }

-- What runs unless an error came before.
unfoldable pub unless_failed : ChildrenDone → (ChildrenDone → Run ChildrenDone) → Run ChildrenDone
unless_failed d next = if d.success then next d else ok d

module _ (lib : RbLibrary inorder) (key : ChainKey) where
  -- Where the node has hits, its chain is appended with them.
  unfoldable pub append_hits : ℕ → ChildrenDone → Run ChildrenDone
  append_hits hit d =
      if hit == 0
      then ok d
      else append_chain_children lib key hit d.info d.children
          (record d.reader { cursor = callchain_cursor_commit d.reader.cursor })

  -- merge_chain_branch. The second argument is `dst` with the cursor before the call; where appending
  -- fails, the cursor is not put back.
  unfoldable mutual
    pub merge_chain_branch : CallchainNode → ChildrenDone → Run ChildrenDone
    merge_chain_branch (callchain_node val info kids) d =
        let c = append_entries val d.reader.cursor in
        append_hits info.hit (record d { reader = record d.reader { cursor = c } }) >>= λ d1.
        unless_failed d1 (λ d2. merge_children kids d2 >>= λ d3. ok (record d3 {
          reader = record d3.reader { cursor = restore d.reader.cursor d3.reader.cursor };
        }))

    -- The loop over the children; it ends at an error.
    pub merge_children : Children → ChildrenDone → Run ChildrenDone
    merge_children nil d = ok d
    merge_children (rb c l n r) d = merge_children l d >>= λ d1.
        unless_failed d1
          (λ d2. merge_chain_branch n d2 >>= λ d3. unless_failed d3 (merge_children r))

  -- callchain_merge, and whether it returned 0.
  unfoldable pub callchain_merge :
      Reader → CallchainRoot → CallchainRoot → Run (Bool × CallchainRoot × Reader)
  unfolding merge_chain_branch
  callchain_merge s dst src =
      merge_chain_branch src.node (record {
        success = true;
        info = info_of dst.node;
        children = children_of dst.node;
        reader = s;
      })
      >>= λ d. ok (
        d.success,
        record dst { node = callchain_node (val_of dst.node) d.info d.children },
        d.reader,
      )
