-- ===== src/Callchain/Append/Finish.antt =====
-- append_chain of src/lib/linux/callchain.c behind its loop: what it adds to the counts.
use mathlib.Core.Path.{ap₂}
use mathlib.Core.List.{append-nil}
use callstack_count.Prelude.{
  List-cases, ℕ, ◌+◌, ◌-◌, ◌%◌, ◌^◌, ◌<◌, ◌≡◌, refl, sym, ap, ◌∙◌, inl, inr, true, false, List, [],
  ◌∷◌, ◌++◌, arith, ◌==◌, ltb, length, Run, ok,
}
use callstack_count.RbTree.{RbLibrary}
use callstack_count.Callchain.{CallchainList, CursorNode, ChainKey, add_u64, add_u32}
use callstack_count.Callchain.Cursor.{Cursor, IsReading, pending, length-pending, current-cons}
use callstack_count.Callchain.Match.{MatchResult, match_eq}
use callstack_count.Callchain.Tree.{NodeInfo, callchain_node, Children, inorder}
use callstack_count.Callchain.Weight.{total, IsFormed}
use callstack_count.Callchain.Append.{
  Reader, Matched, Append, Walk, end_children, finish, from_current,
}
use callstack_count.Callchain.Append.Values.{entry_keys, frame_keys, Splits, Differs}
use callstack_count.Callchain.Append.Split.{split_add_child-Grows}
use callstack_count.Callchain.Append.Ending.{
  Appends, Walks, formed_children, end_children-Grows, from_current-some, ChildrenGrow-Grows,
  count-le-total, val_nr-length, length_pos, count-Grows,
}

module _ (lib : RbLibrary inorder) (key : ChainKey) (period : ℕ) where
  -- append_chain behind its loop, with what append_chain_children promises for the children.
  module _ (val : List CallchainList) (info : NodeInfo) (kids : Children) (s : Reader)
      (x : CursorNode) (p : List CursorNode) (formed : IsFormed (callchain_node val info kids))
      (reading : IsReading s.cursor) (chain : pending s.cursor ≡ x ∷ p)
      (small : s.cursor.nr < 2 ^ 32)
      (room : total (callchain_node val info kids) + 1 < 2 ^ 32) where
    pub finish-Appends :
        (before behind : List CallchainList) (cmp : MatchResult) (c : Cursor)
        → let m : Matched = record { before = before; behind = behind; cmp = cmp; cursor = c } in
          let s' : Reader = record s { cursor = c } in
          Splits key val s.cursor (x ∷ p) m
          → (before ≡ [] → Differs val s.cursor m)
          → (walk : Run Walk)
          → ((y : CursorNode) (ys : List CursorNode)
              → pending c ≡ y ∷ ys
              → (w : Walk) × (walk ≡ ok w) × Walks kids s' (frame_keys (y ∷ ys)) w)
          → (a : Append) × (finish lib key period info kids s m
                (from_current lib key period info kids s' walk)
              ≡ ok a)
            × Appends (callchain_node val info kids) s (frame_keys (x ∷ p)) a
    unfolding finish
    finish-Appends [] behind cmp c sp df walk deep =
        let d = df refl in
        (
          record {
            result = cmp;
            node = callchain_node behind info kids;
            reader = record s { cursor = c };
          },
          refl,
          inr (
            d.side,
            ap (λ v. callchain_node v info kids) d.unchanged,
            ap (λ k. record s { cursor = k }) d.unmoved,
          ),
        )
    finish-Appends (v ∷ vs) (u ∷ us) cmp c sp df walk deep =
        let matches : (c.pos + 2 ^ 64 - s.cursor.pos) % 2 ^ 64 ≡ length (v ∷ vs) =
          omega (arith, sp.steps) in
        let test : ltb (length (v ∷ vs)) info.val_nr ≡ true =
          ground (arith, val_nr-length val info kids formed, sp.lengths) in
        let (n', c', run, g) =
          split_add_child-Grows lib key period (v ∷ vs) u us val info kids formed (length_pos v vs)
            sp.lengths sp.values room c (pending c) s.cursor.pos sp.reading refl
            (rw sp.same_nr small) sp.steps in
        (
          record { result = match_eq; node = n'; reader = record s { cursor = c' } },
          rw (matches, test, run),
          inl (refl, rw sp.chain at g),
        )
    finish-Appends (v ∷ vs) [] cmp c sp df walk deep =
        let matches : (c.pos + 2 ^ 64 - s.cursor.pos) % 2 ^ 64 ≡ length (v ∷ vs) =
          omega (arith, sp.steps) in
        let test : ltb (length (v ∷ vs)) info.val_nr ≡ false =
          ground (arith, val_nr-length val info kids formed, sp.lengths) in
        let same : (length (v ∷ vs) == info.val_nr) ≡ true =
          ground (arith, val_nr-length val info kids formed, sp.lengths) in
        let e : vs ++ [] ≡ vs = append-nil vs in
        let k : entry_keys (v ∷ vs) ≡ entry_keys val =
          sym (append-nil (entry_keys (v ∷ vs))) ∙ sp.values in
        elim (List-cases (pending c)) [
          | inl end ↦
              let spelt : entry_keys val ≡ frame_keys (x ∷ p) =
                sym sp.values
                ∙ ap (λ z. entry_keys (v ∷ vs) ++ frame_keys z) (sym end)
                ∙ sp.chain in
              let at_end : (c.pos == c.nr) ≡ true =
                ground (arith, length-pending c sp.reading, ap length end) in
              (
                record {
                  result = match_eq;
                  node =
                      callchain_node (v ∷ vs)
                        (record info {
                          hit = add_u64 info.hit period;
                          count = add_u32 info.count 1;
                        })
                        kids;
                  reader = record s { cursor = c };
                },
                rw (matches, test, same, at_end, e),
                inl (
                  refl,
                  rw spelt at (
                      count-Grows val (v ∷ vs) info
                        (record info {
                          hit = add_u64 info.hit period;
                          count = add_u32 info.count 1;
                        })
                        kids formed (omega (arith, sp.lengths)) k refl
                        (omega (arith, count-le-total val info kids))),
                ),
              )
          | inr (y, ys, more) ↦
              let at_end : (c.pos == c.nr) ≡ false =
                ground (arith, length-pending c sp.reading, ap length more) in
              let s' : Reader = record s { cursor = c } in
              let (shown, rest, r') = current-cons c y ys sp.reading more in
              let (w, run, ws) = deep y ys more in
              let d = end_children lib key period info w in
              let (done, g, same_count, same_nr) =
                end_children-Grows lib key period info kids s' y ys w sp.reading more
                  (rw sp.same_nr small) (formed_children val info kids formed) ws in
              let spelt : entry_keys val ++ frame_keys (y ∷ ys) ≡ frame_keys (x ∷ p) =
                ap₂ (λ a b. a ++ frame_keys b) (sym k) (sym more) ∙ sp.chain in
              (
                record {
                  result = match_eq;
                  node = callchain_node (v ∷ vs) d.info d.children;
                  reader = d.reader;
                },
                rw (
                  matches,
                  test,
                  same,
                  at_end,
                  from_current-some lib key period info kids s' walk shown run,
                  done,
                  e,
                ),
                inl (
                  refl,
                  rw spelt at (
                      ChildrenGrow-Grows val (v ∷ vs) info d.info kids d.children _ formed
                        (omega (arith, sp.lengths)) k same_nr same_count g),
                ),
              )
        ]
