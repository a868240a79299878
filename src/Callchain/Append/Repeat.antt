-- ===== src/Callchain/Append/Repeat.antt =====
-- Calling callchain_append of src/lib/linux/callchain.c again on the same cursor.
use callstack_count.Prelude.{
  ℕ, zero, suc, ◌+◌, ◌*◌, ◌^◌, ◌<◌, ◌≡◌, refl, sym, ◌∙◌, inl, inr, Bool, List, ◌∷◌, arith, ◌==◌,
  Bool-cases, Run, ok, ◌>>=◌,
}
use callstack_count.RbTree.{RbLibrary}
use callstack_count.Callchain.{CursorNode, ChainKey}
use callstack_count.Callchain.Cursor.{Cursor, callchain_cursor_commit, IsWritten, frames}
use callstack_count.Callchain.Tree.{inorder, CallchainRoot, info_of, children_of}
use callstack_count.Callchain.Weight.{Key, occurs}
use callstack_count.Callchain.Append.{Reader, ChildrenDone, append_chain_children, callchain_append}
use callstack_count.Callchain.Append.Values.{ArePlain, frame_keys}
use callstack_count.Callchain.Append.Reading.{
  IsSameChain, IsSameChain-self, Returns, Returns-bind, append_chain_children-IsSameChain,
}
use callstack_count.Callchain.Append.Root.{
  chain_count, chain_total, IsRoot, callchain_append-Appended,
}

commit-IsSameChain : (c c' : Cursor) → IsSameChain (callchain_cursor_commit c) c' → IsSameChain c c'
unfolding callchain_cursor_commit
commit-IsSameChain c c' h = record {
  same_nr = h.same_nr;
  same_nodes = h.same_nodes;
  same_last = h.same_last;
}

module _ (lib : RbLibrary inorder) (key : ChainKey) (period : ℕ) where
  -- Calls in a row.
  unfoldable pub append_n : ℕ → CallchainRoot → Reader → Run (CallchainRoot × Reader)
  append_n zero root s = ok (root, s)
  append_n (suc n) root s = callchain_append lib key period root s >>= λ r. append_n n r.1 r.2

  callchain_append-IsSameChain :
      (root : CallchainRoot) (s : Reader)
      → Returns
          (λ (r : Bool × CallchainRoot × Reader). IsSameChain s.cursor r.2.cursor)
          (callchain_append lib key period root s)
  unfolding callchain_append
  callchain_append-IsSameChain root s = elim (Bool-cases (s.cursor.nr == 0)) [
    | inl e ↦ rw (callchain_append, e) (IsSameChain-self s.cursor)
    | inr e ↦
        let s1 : Reader = record s { cursor = callchain_cursor_commit s.cursor } in
        rw (callchain_append, e)
          (Returns-bind (λ (d : ChildrenDone). IsSameChain s1.cursor d.reader.cursor)
            (λ (r : Bool × CallchainRoot × Reader). IsSameChain s.cursor r.2.cursor)
            (append_chain_children lib key period (info_of root.node) (children_of root.node) s1) _
            (append_chain_children-IsSameChain lib key period (info_of root.node)
              (children_of root.node) s1)
            (λ d h. commit-IsSameChain s.cursor d.reader.cursor h))
  ]

  -- With the conditions of one call, and as long as the number of chains stays below 2 ^ 32, `n` calls
  -- of callchain_append on the same cursor succeed: the chain of the cursor stays, and the tree counts
  -- it `n` times more, and every other chain as before.
  pub append_n-counts :
      (n : ℕ) (root : CallchainRoot) (s : Reader) (x : CursorNode) (p : List CursorNode)
      → IsRoot root
      → IsWritten s.cursor
      → frames s.cursor ≡ x ∷ p
      → ArePlain key (x ∷ p)
      → s.cursor.nr < 2 ^ 32
      → chain_total root + n < 2 ^ 32
      → (root' : CallchainRoot) × (s' : Reader) × (append_n n root s ≡ ok (root', s'))
        × IsRoot root'
        × (frames s'.cursor ≡ x ∷ p)
        × ((q : List Key)
            → chain_count root' q ≡ chain_count root q + n * occurs (frame_keys (x ∷ p)) q)
  unfolding append_n
  append_n-counts zero root s x p ir iw e plain small room =
      (root, s, refl, ir, e, λ q. omega arith)
  append_n-counts (suc n) root s x p ir iw e plain small room =
      let (root1, s1, run, a) =
        callchain_append-Appended lib key period root s x p ir iw e plain small
          (omega (arith, room)) in
      let kept = rw run at (callchain_append-IsSameChain root s) in
      let same : frames s1.cursor ≡ frames s.cursor = rw (kept.same_nr, kept.same_nodes) refl in
      let written : IsWritten s1.cursor = record {
        at_end = kept.same_last ∙ iw.at_end ∙ sym kept.same_nr;
        cached = rw (kept.same_nr, kept.same_nodes) iw.cached;
      } in
      let (root2, s2, run2, ir2, e2, counts) =
        append_n-counts n root1 s1 x p a.is_root written (same ∙ e) plain (rw kept.same_nr small)
          (omega (arith, a.totals, room)) in
      (
        root2,
        s2,
        rw (run, ◌>>=◌) run2,
        ir2,
        e2,
        λ q.
            let step : suc n * occurs (frame_keys (x ∷ p)) q
                ≡ occurs (frame_keys (x ∷ p)) q + n * occurs (frame_keys (x ∷ p)) q =
              omega arith in
            omega (arith, counts q, a.counts q, step),
      )
