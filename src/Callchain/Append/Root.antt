-- ===== src/Callchain/Append/Root.antt =====
-- callchain_append at the root: the tree is a counter of chains.
use callstack_count.Prelude.{
  ℕ, ◌+◌, ◌^◌, ◌<◌, ◌≡◌, refl, sym, ap, ◌∙◌, true, false, List, [], ◌∷◌, arith, ◌==◌, ltb,
  if◌then◌else◌, length, ok, ◌>>=◌,
}
use callstack_count.RbTree.{RbLibrary}
use callstack_count.Callchain.{CursorNode, ChainKey}
use callstack_count.Callchain.Cursor.{
  Cursor, callchain_cursor_commit, IsWritten, IsReading-commit, frames, pending, pending-commit,
  current-cons, length-frames,
}
use callstack_count.Callchain.Tree.{
  callchain_node, inorder, Children, NodeInfo, CallchainRoot, children_of, val_of, info_of,
  callchain_init,
}
use callstack_count.Callchain.Weight.{
  Key, occurs, weight, weight_children, total_children, AreFormed, IsFormed,
}
use callstack_count.Callchain.Append.Split.{ChildrenGrow}
use callstack_count.Callchain.Append.{
  Reader, ChildrenDone, append_chain_children, callchain_append, end_children,
}
use callstack_count.Callchain.Append.Values.{ArePlain, frame_keys}
use callstack_count.Callchain.Append.Ending.{end_children-Grows, from_current-some}
use callstack_count.Callchain.Append.Growth.{append_children-Walks}

-- How often the chain was appended.
unfoldable pub chain_count : CallchainRoot → List Key → ℕ
chain_count root q = weight_children (children_of root.node) q

-- How many chains were appended.
unfoldable pub chain_total : CallchainRoot → ℕ
chain_total root = total_children (children_of root.node)

-- What callchain_init sets up and callchain_append keeps.
pub record IsRoot (root : CallchainRoot) : Type 0 where
  pub bare : val_of root.node ≡ []
  pub formed : AreFormed (children_of root.node)

pub callchain_init-IsRoot : IsRoot callchain_init
unfolding callchain_init IsFormed
callchain_init-IsRoot = record { bare = refl; formed = tt }

pub chain_count-callchain_init : (q : List Key) → chain_count callchain_init q ≡ 0
unfolding chain_count callchain_init weight
chain_count-callchain_init q = refl

pub chain_total-callchain_init : chain_total callchain_init ≡ 0
unfolding chain_total callchain_init total_children
chain_total-callchain_init = refl

-- Appending returns 0, keeps the tree formed, and adds one to the count of this chain only.
pub record Appended (root root' : CallchainRoot) (p : List CursorNode) : Type 0 where
  pub is_root : IsRoot root'
  pub counts : (q : List Key) → chain_count root' q ≡ chain_count root q + occurs (frame_keys p) q
  pub totals : chain_total root' ≡ chain_total root + 1
  pub depth : root'.max_depth ≡ (if ltb root.max_depth (length p) then length p else root.max_depth)

nr_commit : (c : Cursor) → c.nr < 2 ^ 32 → (callchain_cursor_commit c).nr < 2 ^ 32
unfolding callchain_cursor_commit
nr_commit c h = h

module _ (lib : RbLibrary inorder) (key : ChainKey) (period : ℕ) where
  -- append_chain_children of the whole chain of a cursor.
  pub append_chain_children-ChildrenGrow :
      (info : NodeInfo) (kids : Children) (s : Reader) (x : CursorNode) (p : List CursorNode)
      → AreFormed kids
      → IsWritten s.cursor
      → frames s.cursor ≡ x ∷ p
      → ArePlain key (x ∷ p)
      → s.cursor.nr < 2 ^ 32
      → total_children kids + 1 < 2 ^ 32
      → (d : ChildrenDone) × (append_chain_children lib key period info kids
            (record s { cursor = callchain_cursor_commit s.cursor })
          ≡ ok d)
        × (d.success ≡ true)
        × ChildrenGrow kids d.children (frame_keys (x ∷ p))
  unfolding append_chain_children
  append_chain_children-ChildrenGrow info kids s x p formed iw e plain small room =
      let c = callchain_cursor_commit s.cursor in
      let s1 : Reader = record s { cursor = c } in
      let r = IsReading-commit s.cursor iw in
      let e1 : pending c ≡ x ∷ p = pending-commit s.cursor ∙ e in
      let (shown, rest, r') = current-cons c x p r e1 in
      let (w, run, ws) =
        append_children-Walks lib key period kids s1 x p formed r e1 plain
          (nr_commit s.cursor small) room in
      let (done, g, same_count, same_nr) =
        end_children-Grows lib key period info kids s1 x p w r e1 (nr_commit s.cursor small) formed
          ws in
      (
        end_children lib key period info w,
        from_current-some lib key period info kids s1 _ shown run,
        done,
        g,
      )

  -- At a cursor that was written with a non-empty chain of frames without symbols, not compared by
  -- source line, and as long as lengths and the number of chains stay below 2 ^ 32, callchain_append
  -- returns 0 without a fault and leaves a formed tree that counts that chain once more and every other
  -- chain as before, with max_depth raised to the chain's length.
  pub callchain_append-Appended :
      (root : CallchainRoot) (s : Reader) (x : CursorNode) (p : List CursorNode)
      → IsRoot root
      → IsWritten s.cursor
      → frames s.cursor ≡ x ∷ p
      → ArePlain key (x ∷ p)
      → s.cursor.nr < 2 ^ 32
      → chain_total root + 1 < 2 ^ 32
      → (root' : CallchainRoot) × (s' : Reader) × (callchain_append lib key period root s
          ≡ ok (true, root', s'))
        × Appended root root' (x ∷ p)
  unfolding callchain_append chain_count chain_total
  callchain_append-Appended root s x p ir iw e plain small room =
      let len : length (x ∷ p) ≡ s.cursor.nr = ap length (sym e) ∙ length-frames s.cursor iw in
      let more : (s.cursor.nr == 0) ≡ false = ground arith in
      let (d, run, done, g) =
        append_chain_children-ChildrenGrow (info_of root.node) (children_of root.node) s x p
          ir.formed iw e plain small room in
      (
        record {
          max_depth = if ltb root.max_depth s.cursor.nr then s.cursor.nr else root.max_depth;
          node = callchain_node (val_of root.node) d.info d.children;
        },
        d.reader,
        rw (more, run, ◌>>=◌, done),
        record {
          is_root = record { bare = ir.bare; formed = g.formed };
          counts = g.weighs;
          totals = g.totals;
          depth = rw len refl;
        },
      )
