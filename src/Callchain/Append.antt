-- ===== src/Callchain/Append.antt =====
-- Adding a chain to the radix tree: create_child, fill_node, add_child, split_add_child,
-- append_chain_children, append_chain and callchain_append of src/lib/linux/callchain.c.
-- Allocation succeeds, so the ENOMEM paths are left out. A read through NULL is a fault.
pub mod Values
pub mod Split
pub mod Ending
pub mod Finish
pub mod Growth
pub mod Root
pub mod Reading
pub mod Holding
pub mod Repeat
use callstack_count.Prelude.{
  ℕ, zero, suc, ◌+◌, ◌-◌, ◌%◌, ◌^◌, Bool, true, false, not, ◌&&◌, none, some, List, [], ◌∷◌, ◌++◌,
  ◌==◌, ltb, if◌then◌else◌, length, Run, ok, fault, dead_pointer, ◌>>=◌,
}
use callstack_count.RbTree.{Color, Side, left, right, RbLibrary}
use callstack_count.Callchain.{CallchainList, CursorNode, ChainKey, add_u64, add_u32}
use callstack_count.Callchain.Cursor.{
  Cursor, callchain_cursor_commit, callchain_cursor_current, callchain_cursor_advance,
}
use callstack_count.Callchain.Match.{
  MatchResult, match_error, match_eq, match_lt, match_gt, match_chain,
}
use callstack_count.Callchain.Tree.{
  NodeInfo, new_info, CallchainNode, callchain_node, Children, nil, rb, inorder, rb_link_node,
  callchain_cumul_hits, callchain_cumul_counts, val_of, info_of, children_of, CallchainRoot,
}

-- What the walk changes besides the tree: the cursor, and the global `__max_depth`.
pub record Reader : Type 0 where
  pub cursor : Cursor
  pub deepest : ℕ

-- The branch counters of the entry: a frame with `branch_from` is the target of a branch.
unfoldable pub new_entry : CursorNode → CallchainList
new_entry n =
    let target = n.branch && not (n.branch_from == 0) in
    let source = n.branch && n.branch_from == 0 in
    record {
      ip = n.ip;
      ms = n.ms;
      srcline = n.srcline;
      branch_count = if n.branch then 1 else 0;
      from_count = 0;
      cycles_count = if source then n.branch_flags.cycles else 0;
      iter_count = if source then n.nr_loop_iter else 0;
      iter_cycles = if source then n.iter_cycles else 0;
      brtype_stat = if target then some true else none;
      predicted_count = if target && n.branch_flags.predicted then 1 else 0;
      abort_count = if target && n.branch_flags.abort then 1 else 0;
    }

-- The loop of fill_node; the fuel is the number of frames left.
unfoldable pub fill_values : ℕ → Cursor → List CallchainList × Cursor
fill_values zero c = ([], c)
fill_values (suc fuel) c = elim (callchain_cursor_current c) [
  | none ↦ ([], c)
  | some n ↦
      let (rest, c') = fill_values fuel (callchain_cursor_advance c) in (new_entry n ∷ rest, c')
]

-- add_child with fill_node: a node that holds the rest of the chain, counted once.
unfoldable pub add_child : ℕ → Cursor → CallchainNode × Cursor
unfolding fill_values
add_child period c =
    let (values, c') = fill_values (c.nr - c.pos) c in
    (
      callchain_node values
          (record new_info { val_nr = (c.nr + 2 ^ 64 - c.pos) % 2 ^ 32; count = 1; hit = period })
          nil,
      c',
    )

-- What the loop of append_chain over `val` leaves: the entries that matched, those behind them, the
-- last comparison, and the cursor.
pub record Matched : Type 0 where
  pub before : List CallchainList
  pub behind : List CallchainList
  pub cmp : MatchResult
  pub cursor : Cursor

-- `cmp` is what the comparison before gave.
unfoldable pub match_values : ChainKey → MatchResult → List CallchainList → Cursor → Matched
match_values key cmp [] c = record { before = []; behind = []; cmp = cmp; cursor = c }
match_values key cmp (v ∷ vs) c = elim (callchain_cursor_current c) [
  | none ↦ record { before = []; behind = v ∷ vs; cmp = cmp; cursor = c }
  | some node ↦
      let (match, v') = match_chain key node v in
      let rest = match_values key match vs (callchain_cursor_advance c) in
      elim match [
        | match_eq ↦ record rest { before = v' ∷ rest.before }
        | other ↦ record { before = []; behind = v' ∷ vs; cmp = other; cursor = c }
      ]
]

pub record Append : Type 0 where
  pub result : MatchResult
  pub node : CallchainNode
  pub reader : Reader

-- The loop of append_chain_children: it ends at a child that took the chain, in an error, or at an
-- empty link. The depth counts the steps down.
pub data Walk : Type 0 where
  found : Children → ℕ → Reader → Walk
  failed : Children → Reader → Walk
  missing : Children → List Side → Reader → Walk

unfoldable pub left_of : Color → CallchainNode → Children → Walk → Walk
left_of c n r (found l d s) = found (rb c l n r) (d + 1) s
left_of c n r (failed l s) = failed (rb c l n r) s
left_of c n r (missing l path s) = missing (rb c l n r) (left ∷ path) s

unfoldable pub right_of : Color → Children → CallchainNode → Walk → Walk
right_of c l n (found r d s) = found (rb c l n r) (d + 1) s
right_of c l n (failed r s) = failed (rb c l n r) s
right_of c l n (missing r path s) = missing (rb c l n r) (right ∷ path) s

-- A node with its children after append_chain_children, and whether that returned 0.
pub record ChildrenDone : Type 0 where
  pub success : Bool
  pub info : NodeInfo
  pub children : Children
  pub reader : Reader

-- The node that keeps what is behind the split, with the hits, counts and children of the old.
unfoldable pub split_child : List CallchainList → ℕ → NodeInfo → Children → CallchainNode
split_child behind idx_local info kids =
    callchain_node behind (record info { val_nr = (info.val_nr + 2 ^ 64 - idx_local) % 2 ^ 32 })
      kids

unfoldable pub split_info : NodeInfo → ℕ → NodeInfo
split_info info idx_local = record info {
  children_hit = callchain_cumul_hits info;
  children_count = callchain_cumul_counts info;
  val_nr = idx_local % 2 ^ 32;
}

-- The side on which the second child is linked, by its first frame against the first child.
unfoldable pub side_of : MatchResult → Side
side_of match_lt = left
side_of _ = right

module _ (lib : RbLibrary inorder) (key : ChainKey) (period : ℕ) where
  -- inc_children_hit
  unfoldable pub inc_children_hit : NodeInfo → Children → ℕ → Reader → ChildrenDone
  inc_children_hit info t depth s = record {
    success = true;
    info = record info {
      children_hit = add_u64 info.children_hit period;
      children_count = add_u32 info.children_count 1;
    };
    children = t;
    reader = record s { deepest = if ltb s.deepest depth then depth else s.deepest };
  }

  -- What append_chain_children does after its loop.
  unfoldable pub end_children : NodeInfo → Walk → ChildrenDone
  unfolding inc_children_hit
  end_children info (found t depth s) = inc_children_hit info t depth s
  end_children info (failed t s) = record { success = false; info = info; children = t; reader = s }
  end_children info (missing t path s) =
      let (new, c') = add_child period s.cursor in
      inc_children_hit info (lib.rb_insert_color path (rb_link_node path new t)) (length path)
        (record s { cursor = c' })

  -- create_child with inherit_children: the new node is the only child.
  unfoldable pub only_child : CallchainNode → Children
  only_child new = lib.rb_insert_color [] (rb_link_node [] new nil)

  -- The first entry of the first child, after it is compared with the frame behind the split.
  unfoldable pub compared : CursorNode → CallchainNode → Run (MatchResult × CallchainNode)
  compared node (callchain_node [] info kids) = fault dead_pointer
  compared node (callchain_node (v ∷ vs) info kids) =
      let (match, v') = match_chain key node v in ok (match, callchain_node (v' ∷ vs) info kids)

  -- The second child is linked below the root, which is the first child.
  unfoldable pub second_child : CursorNode → CallchainNode → Children → Run Children
  unfolding compared side_of
  second_child node new nil = fault dead_pointer
  second_child node new (rb c l first r) = compared node first >>= λ p.
      let path = side_of p.0 ∷ [] in
      ok (lib.rb_insert_color path (rb_link_node path new (rb c l p.1 r)))

  -- split_add_child. The two lists are what stays in the parent and what moves to the new child.
  unfoldable pub split_add_child :
      List CallchainList
      → List CallchainList
      → NodeInfo
      → Children
      → Cursor
      → ℕ
      → ℕ
      → Run (CallchainNode × Cursor)
  split_add_child before [] info kids c idx_parents idx_local = fault dead_pointer
  split_add_child before (v ∷ vs) info kids c idx_parents idx_local =
      let child = only_child (split_child (v ∷ vs) idx_local info kids) in
      let parent = split_info info idx_local in
      if ltb ((idx_parents + idx_local) % 2 ^ 32) c.nr
      then (elim (callchain_cursor_current c) [
        | none ↦ fault dead_pointer
        | some node ↦
            let (new, c') = add_child period c in
            second_child node new child >>= λ t. ok (
              callchain_node before
                  (record parent {
                    hit = 0;
                    children_hit = add_u64 parent.children_hit period;
                    count = 0;
                    children_count = add_u32 parent.children_count 1;
                  })
                  t,
              c',
            )
      ])
      else ok (callchain_node before (record parent { hit = period; count = 1 }) child, c)

  -- append_chain behind its loop; `deeper` is append_chain_children on the children.
  unfoldable pub finish : NodeInfo → Children → Reader → Matched → Run ChildrenDone → Run Append
  finish info kids s m deeper =
      let s' = record s { cursor = m.cursor } in
      let matches = (m.cursor.pos + 2 ^ 64 - s.cursor.pos) % 2 ^ 64 in
      elim m.before [
        | [] ↦ ok (record { result = m.cmp; node = callchain_node m.behind info kids; reader = s' })
        | v ∷ vs ↦
            if ltb matches info.val_nr
            then split_add_child (v ∷ vs) m.behind info kids m.cursor s.cursor.pos matches >>= (λ p.
              ok (record { result = match_eq; node = p.0; reader = record s { cursor = p.1 } }))
            else (if matches == info.val_nr && m.cursor.pos == m.cursor.nr
                then ok (record {
                  result = match_eq;
                  node =
                      callchain_node ((v ∷ vs) ++ m.behind)
                        (record info {
                          hit = add_u64 info.hit period;
                          count = add_u32 info.count 1;
                        })
                        kids;
                  reader = s';
                })
                else deeper >>= λ d. ok (record {
                  result = if d.success then match_eq else match_error;
                  node = callchain_node ((v ∷ vs) ++ m.behind) d.info d.children;
                  reader = d.reader;
                }))
      ]

  -- append_chain_children around its loop.
  unfoldable pub from_current : NodeInfo → Children → Reader → Run Walk → Run ChildrenDone
  from_current info kids s walk = elim (callchain_cursor_current s.cursor) [
    | none ↦ ok (record { success = false; info = info; children = kids; reader = s })
    | some node ↦ walk >>= λ w. ok (end_children info w)
  ]

  unfoldable mutual
    pub append_chain : CallchainNode → Reader → Run Append
    append_chain (callchain_node val info kids) s =
        let m = match_values key match_error val s.cursor in
        let deeper = append_children kids (record s { cursor = m.cursor }) in
        finish info kids s m (from_current info kids (record s { cursor = m.cursor }) deeper)

    pub append_children : Children → Reader → Run Walk
    append_children nil s = ok (missing nil [] s)
    append_children (rb c l n r) s = append_chain n s >>= λ a. elim a.result [
      | match_eq ↦ ok (found (rb c l a.node r) 0 a.reader)
      | match_error ↦ ok (failed (rb c l a.node r) a.reader)
      | match_lt ↦ append_children l a.reader >>= λ w. ok (left_of c a.node r w)
      | match_gt ↦ append_children r a.reader >>= λ w. ok (right_of c l a.node w)
    ]

  unfoldable pub append_chain_children : NodeInfo → Children → Reader → Run ChildrenDone
  unfolding from_current append_children
  append_chain_children info kids s = from_current info kids s (append_children kids s)

  -- callchain_append at a cursor that is there: the root, the reader and whether it returned 0.
  unfoldable pub callchain_append : CallchainRoot → Reader → Run (Bool × CallchainRoot × Reader)
  unfolding append_chain_children
  callchain_append root s =
      if s.cursor.nr == 0
      then ok (true, root, s)
      else append_chain_children (info_of root.node) (children_of root.node)
          (record s { cursor = callchain_cursor_commit s.cursor })
        >>= λ d.
            let node = callchain_node (val_of root.node) d.info d.children in
            let deep = if ltb root.max_depth s.cursor.nr then s.cursor.nr else root.max_depth in
            ok (
              d.success,
              record { max_depth = if d.success then deep else root.max_depth; node = node },
              d.reader,
            )
