-- ===== src/Callchain/Merge/Counts.antt =====
-- What callchain_merge of src/lib/linux/callchain.c does to the counts of the destination.
use callstack_count.Prelude.{
  ◌+◌, ◌<◌, ◌^◌, ◌≡◌, ◌≢◌, refl, ap, ◌∙◌, ◌⊎◌, inl, inr, true, List, [], ◌++◌, arith, length,
  length-append, length-map, ok, ◌>>=◌,
}
use callstack_count.RbTree.{RbLibrary}
use callstack_count.Callchain.{ChainKey, source_line}
use callstack_count.Callchain.Tree.{
  CallchainNode, callchain_node, Children, nil, rb, inorder, CallchainRoot, val_of, info_of,
  children_of,
}
use callstack_count.Callchain.Match.{entry_key}
use callstack_count.Callchain.Weight.{Key, strip, at_end}
use callstack_count.Callchain.Append.{Reader, ChildrenDone}
use callstack_count.Callchain.Append.Values.{entry_keys}
use callstack_count.Callchain.Append.Holding.{Holds}
use callstack_count.Callchain.Append.Root.{chain_count, chain_total, IsRoot}
use callstack_count.Callchain.Merge.Writing.{append_entries-Holds}
use callstack_count.Callchain.Merge.{
  append_entries, restore, append_hits, merge_chain_branch, merge_children, callchain_merge,
}
use callstack_count.Callchain.Merge.Steps.{
  marked, chains_with_hits, chains_in_children, nodes_with_hits, hits_in_children, IsWithin,
  AreWithin, restored, below_zero, Merges, IsReady, Merges-then, append_hits-Merges, Merged-up,
}

module _ (lib : RbLibrary inorder) (key : ChainKey) where
  mutual
    unfolding merge_chain_branch chains_with_hits nodes_with_hits IsWithin

    merge_chain_branch-Merges :
        (n : CallchainNode) (d : ChildrenDone) (keys : List Key)
        → key ≢ source_line
        → IsReady lib key d keys (nodes_with_hits n)
        → IsWithin (length keys) n
        → ((info_of n).hit ≡ 0) ⊎ (0 < length keys + length (val_of n))
        → Merges lib key d
            (merge_chain_branch lib key n d)
            keys
            (nodes_with_hits n)
            (chains_with_hits n)
    merge_chain_branch-Merges (callchain_node val info kids) d keys plain ready within long =
        let c = append_entries val d.reader.cursor in
        let d0 : ChildrenDone = record d { reader = record d.reader { cursor = c } } in
        let held = append_entries-Holds key val d.reader.cursor keys plain ready.holds in
        let len : length (keys ++ entry_keys val) ≡ length keys + length val =
          length-append keys (entry_keys val)
          ∙ ap (λ k. length keys + k) (length-map val entry_key) in
        let (d2, run, m) =
          Merges-then lib key d0 (append_hits lib key info.hit d0) (merge_children lib key kids)
            (keys ++ entry_keys val) (marked info) (hits_in_children kids)
            (λ rest. at_end rest (marked info)) (chains_in_children kids) ready.room
            (append_hits-Merges lib key info d0 (keys ++ entry_keys val)
              (record {
                success = ready.success;
                formed = ready.formed;
                holds = held;
                room = omega (arith, ready.room);
              })
              (rw (← len) at long) (omega (arith, len, within.0)))
            (λ d1 r.
              merge_children-Merges kids d1 (keys ++ entry_keys val) plain r
                (rw (← len) at within.1)) in
        (
          record d2 {
            reader = record d2.reader { cursor = restore d.reader.cursor d2.reader.cursor };
          },
          restored d.reader.cursor (append_hits lib key info.hit d0) (merge_children lib key kids)
              d2 run m.success,
          Merged-up lib key d d0 d2 keys val _ _ refl ready.holds (omega (arith, within.0)) m,
        )

    merge_children-Merges :
        (t : Children) (d : ChildrenDone) (keys : List Key)
        → key ≢ source_line
        → IsReady lib key d keys (hits_in_children t)
        → AreWithin (length keys) t
        → Merges lib key d
            (merge_children lib key t d)
            keys
            (hits_in_children t)
            (chains_in_children t)
    merge_children-Merges nil d keys plain ready within = (
      d,
      refl,
      record {
        success = ready.success;
        formed = ready.formed;
        weighs = λ q. rw below_zero (omega arith);
        totals = omega arith;
        holds = ready.holds;
      },
    )
    merge_children-Merges (rb c l n r) d keys plain ready within =
        Merges-then lib key d (merge_children lib key l d) _ keys (hits_in_children l) _ _ _
          ready.room
          (merge_children-Merges l d keys plain
            (record {
              success = ready.success;
              formed = ready.formed;
              holds = ready.holds;
              room = omega (arith, ready.room);
            })
            within.0)
          (λ d1 r1.
            Merges-then lib key d1 (merge_chain_branch lib key n d1) (merge_children lib key r) keys
              (nodes_with_hits n) (hits_in_children r) (chains_with_hits n) (chains_in_children r)
              r1.room
              (merge_chain_branch-Merges n d1 keys plain
                (record {
                  success = r1.success;
                  formed = r1.formed;
                  holds = r1.holds;
                  room = omega (arith, r1.room);
                })
                within.1.0 (inr (omega (arith, within.1.1))))
              (λ d2 r2. merge_children-Merges r d2 keys plain r2 within.2))

  -- callchain_merge with an empty cursor, by another key than the source line, into a formed tree: it
  -- returns 0 and keeps the tree formed. Each node of `src` with hits adds one to the count of the
  -- chain that it spells, whatever its own count is; max_depth stays. `src` has a root without entries
  -- and hits, no chain of 2 ^ 31 frames or more, and the counts of both together are below 2 ^ 32.
  pub callchain_merge-counts :
      (s : Reader) (dst src : CallchainRoot)
      → key ≢ source_line
      → Holds key s.cursor []
      → IsRoot dst
      → (info_of src.node).hit ≡ 0
      → IsWithin 0 src.node
      → chain_total dst + nodes_with_hits src.node < 2 ^ 32
      → (dst' : CallchainRoot) × (s' : Reader) × (callchain_merge lib key s dst src
          ≡ ok (true, dst', s'))
        × IsRoot dst'
        × ((q : List Key) → chain_count dst' q ≡ chain_count dst q + chains_with_hits src.node q)
        × (chain_total dst' ≡ chain_total dst + nodes_with_hits src.node)
        × (dst'.max_depth ≡ dst.max_depth)
  unfolding callchain_merge chain_count chain_total strip
  callchain_merge-counts s dst src plain empty root no_hits within room =
      let d : ChildrenDone = record {
        success = true;
        info = info_of dst.node;
        children = children_of dst.node;
        reader = s;
      } in
      let (d', run, m) =
        merge_chain_branch-Merges src.node d [] plain
          (record { success = refl; formed = root.formed; holds = empty; room = room }) within
          (inl no_hits) in
      (
        record dst { node = callchain_node (val_of dst.node) d'.info d'.children },
        d'.reader,
        rw (run, ◌>>=◌, m.success) refl,
        record { bare = root.bare; formed = m.formed },
        m.weighs,
        m.totals,
        refl,
      )
