-- ===== src/Callchain/Append/Growth.antt =====
-- Appending a chain counts that chain once, and changes no other count.
use callstack_count.Prelude.{
  ℕ, ◌+◌, ◌^◌, ◌<◌, ◌≡◌, refl, ap, inl, inr, List, [], ◌∷◌, arith, length, ok,
}
use callstack_count.RbTree.{Color, RbLibrary}
use callstack_count.Callchain.{CallchainList, CursorNode, ChainKey}
use callstack_count.Callchain.Cursor.{IsReading, pending}
use callstack_count.Callchain.Match.{match_error}
use callstack_count.Callchain.Tree.{
  NodeInfo, CallchainNode, callchain_node, Children, nil, rb, inorder,
}
use callstack_count.Callchain.Weight.{Key, weight, total, total_children, IsFormed, AreFormed}
use callstack_count.Callchain.Append.{
  Reader, match_values, Append, Walk, found, failed, missing, left_of, right_of, append_chain,
  append_children,
}
use callstack_count.Callchain.Append.Values.{
  ArePlain, frame_keys, match_values-Splits, match_values-Differs,
}
use callstack_count.Callchain.Append.Split.{Grows, ChildrenGrow}
use callstack_count.Callchain.Append.Ending.{Appends, Walks, formed_children}
use callstack_count.Callchain.Append.Finish.{finish-Appends}

module _ (lib : RbLibrary inorder) (key : ChainKey) (period : ℕ) where
  left_of-Walks :
      (c : Color) (l : Children) (n : CallchainNode) (r : Children) (s : Reader) (p : List Key)
      (w : Walk)
      → AreFormed (rb c l n r)
      → Walks l s p w
      → Walks (rb c l n r) s p (left_of c n r w)
  unfolding left_of weight total IsFormed
  left_of-Walks c l n r s p (found l' d s') f g = record {
    formed = (g.formed, f.1, f.2);
    weighs = λ q. omega (arith, g.weighs q);
    totals = omega (arith, g.totals);
  }
  left_of-Walks c l n r s p (failed l' s') f g = g
  left_of-Walks c l n r s p (missing l' path s') f (et, es, empty) =
      (ap (λ t. rb c t n r) et, es, empty)

  right_of-Walks :
      (c : Color) (l : Children) (n : CallchainNode) (r : Children) (s : Reader) (p : List Key)
      (w : Walk)
      → AreFormed (rb c l n r)
      → Walks r s p w
      → Walks (rb c l n r) s p (right_of c l n w)
  unfolding right_of weight total IsFormed
  right_of-Walks c l n r s p (found r' d s') f g = record {
    formed = (f.0, f.1, g.formed);
    weighs = λ q. omega (arith, g.weighs q);
    totals = omega (arith, g.totals);
  }
  right_of-Walks c l n r s p (failed r' s') f g = g
  right_of-Walks c l n r s p (missing r' path s') f (et, es, empty) =
      (ap (λ t. rb c l n t) et, es, empty)

  node-Walks :
      (c : Color) (l : Children) (n n' : CallchainNode) (r : Children) (p : List Key)
      → AreFormed (rb c l n r)
      → Grows n n' p
      → ChildrenGrow (rb c l n r) (rb c l n' r) p
  unfolding weight total IsFormed
  node-Walks c l n n' r p f g = record {
    formed = (f.0, g.formed, f.2);
    weighs = λ q. omega (arith, g.weighs q);
    totals = omega (arith, g.totals);
  }

  room_children :
      (val : List CallchainList) (info : NodeInfo) (kids : Children)
      → total (callchain_node val info kids) + 1 < 2 ^ 32
      → total_children kids + 1 < 2 ^ 32
  unfolding total
  room_children val info kids h = omega arith

  room_parts :
      (c : Color) (l : Children) (n : CallchainNode) (r : Children)
      → total_children (rb c l n r) + 1 < 2 ^ 32
      → (total_children l + 1 < 2 ^ 32) × (total n + 1 < 2 ^ 32) × (total_children r + 1 < 2 ^ 32)
  unfolding total
  room_parts c l n r h = (omega arith, omega arith, omega arith)

  IsFormed-parts :
      (c : Color) (l : Children) (n : CallchainNode) (r : Children)
      → AreFormed (rb c l n r)
      → AreFormed l × IsFormed n × AreFormed r
  unfolding IsFormed
  IsFormed-parts c l n r f = f

  some_entry :
      (val : List CallchainList) (info : NodeInfo) (kids : Children)
      → IsFormed (callchain_node val info kids)
      → 0 < length val
  unfolding IsFormed
  some_entry val info kids f = f.0

  mutual
    unfolding append_chain append_children

    pub append_chain-Appends :
        (n : CallchainNode) (s : Reader) (x : CursorNode) (p : List CursorNode)
        → IsFormed n
        → IsReading s.cursor
        → pending s.cursor ≡ x ∷ p
        → ArePlain key (x ∷ p)
        → s.cursor.nr < 2 ^ 32
        → total n + 1 < 2 ^ 32
        → (a : Append) × (append_chain lib key period n s ≡ ok a)
          × Appends n s (frame_keys (x ∷ p)) a
    append_chain-Appends (callchain_node val info kids) s x p f r e plain small room =
        let m = match_values key match_error val s.cursor in
        let sp = match_values-Splits key match_error val s.cursor (x ∷ p) r e plain in
        finish-Appends lib key period val info kids s x p f r e small room m.before m.behind m.cmp
          m.cursor sp
          (match_values-Differs key match_error val s.cursor x p r e (some_entry val info kids f)) _
          (λ y ys more.
            append_children-Walks kids (record s { cursor = m.cursor }) y ys
              (formed_children val info kids f) sp.reading more (rw more at sp.plain)
              (rw sp.same_nr small) (room_children val info kids room))

    pub append_children-Walks :
        (t : Children) (s : Reader) (x : CursorNode) (p : List CursorNode)
        → AreFormed t
        → IsReading s.cursor
        → pending s.cursor ≡ x ∷ p
        → ArePlain key (x ∷ p)
        → s.cursor.nr < 2 ^ 32
        → total_children t + 1 < 2 ^ 32
        → (w : Walk) × (append_children lib key period t s ≡ ok w)
          × Walks t s (frame_keys (x ∷ p)) w
    append_children-Walks nil s x p f r e plain small room =
        (missing nil [] s, refl, (refl, refl, tt))
    append_children-Walks (rb c l n rt) s x p f r e plain small room =
        let (fl, fn, fr) = IsFormed-parts c l n rt f in
        let (ml, mn, mr) = room_parts c l n rt room in
        let (a, run, post) = append_chain-Appends n s x p fn r e plain small mn in
        let (wl, runl, pl) = append_children-Walks l s x p fl r e plain small ml in
        let (wr, runr, pr) = append_children-Walks rt s x p fr r e plain small mr in
        elim post [
          | inl (eq, g) ↦
              (found (rb c l a.node rt) 0 a.reader, rw (run, eq), node-Walks c l n a.node rt _ f g)
          | inr (inl lt, en, es) ↦
              (left_of c n rt wl, rw (run, lt, en, es, runl), left_of-Walks c l n rt s _ wl f pl)
          | inr (inr gt, en, es) ↦
              (right_of c l n wr, rw (run, gt, en, es, runr), right_of-Walks c l n rt s _ wr f pr)
        ]
