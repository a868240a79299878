-- ===== src/Callchain/Append/Ending.antt =====
-- How append_chain and append_chain_children of src/lib/linux/callchain.c end: what they add to the
-- counts.
use callstack_count.Prelude.{
  ℕ, ◌+◌, ◌^◌, ◌≤◌, ◌<◌, ◌≡◌, refl, sym, ◌∙◌, ◌⊎◌, true, some, List, [], ◌∷◌, ◌++◌, arith, length,
  Run, ok,
}
use callstack_count.RbTree.{Side, RbLibrary}
use callstack_count.Callchain.{CallchainList, CursorNode, ChainKey}
use callstack_count.Callchain.Cursor.{callchain_cursor_current, IsReading, pending}
use callstack_count.Callchain.Match.{match_eq, match_lt, match_gt}
use callstack_count.Callchain.Tree.{
  NodeInfo, CallchainNode, callchain_node, Children, inorder, rb_link_node,
}
use callstack_count.Callchain.Weight.{
  Key, strip, at_end, occurs, weight, total, IsFormed, AreFormed, below_add, EmptyLink,
  weight_children_congr, total_children_congr, AreFormed-congr, weight_children-link,
  total_children-link, AreFormed-link,
}
use callstack_count.Callchain.Append.{
  Reader, Append, Walk, found, failed, missing, end_children, from_current,
}
use callstack_count.Callchain.Append.Values.{entry_keys, frame_keys}
use callstack_count.Callchain.Append.Split.{
  Grows, ChildrenGrow, CountsOnce, add_child-once, occurs-append,
}

-- What append_chain promises: the node took the chain, or it and the reader are as before.
abbrev pub Appends : CallchainNode → Reader → List Key → Append → Type 0
Appends n s p a =
    ((a.result ≡ match_eq) × Grows n a.node p)
    ⊎ (((a.result ≡ match_lt) ⊎ (a.result ≡ match_gt)) × (a.node ≡ n) × (a.reader ≡ s))

-- What the loop over the children promises.
abbrev pub Walks : Children → Reader → List Key → Walk → Type 0
Walks t s p (found t' depth s') = ChildrenGrow t t' p
Walks t s p (failed t' s') = ⊥
Walks t s p (missing t' path s') = (t' ≡ t) × (s' ≡ s) × EmptyLink t path

-- The node that took a chain below its own entries.
pub ChildrenGrow-Grows :
    (val val' : List CallchainList) (info info' : NodeInfo) (t t' : Children) (p : List Key)
    → IsFormed (callchain_node val info t)
    → length val' ≡ length val
    → entry_keys val' ≡ entry_keys val
    → info'.val_nr ≡ info.val_nr
    → info'.count ≡ info.count
    → ChildrenGrow t t' p
    → Grows (callchain_node val info t) (callchain_node val' info' t') (entry_keys val ++ p)
unfolding weight total IsFormed
ChildrenGrow-Grows val val' info info' t t' p f l k nr n g = record {
  formed = (omega (arith, f), omega (arith, f), omega (arith, f), g.formed);
  weighs = λ q.
      rw (k, n, occurs-append (entry_keys val) p q)
        (below_add (strip (entry_keys val) q) _ _ _ (λ rest. omega (arith, g.weighs rest)));
  totals = omega (arith, g.totals);
}

at_end_add : (q : List Key) (n : ℕ) → at_end q (n + 1) ≡ at_end q n + at_end q 1
at_end_add [] n = refl
at_end_add (k ∷ q) n = refl

pub count-le-total :
    (val : List CallchainList) (info : NodeInfo) (kids : Children)
    → info.count ≤ total (callchain_node val info kids)
unfolding total
count-le-total val info kids = omega arith

pub val_nr-length :
    (val : List CallchainList) (info : NodeInfo) (kids : Children)
    → IsFormed (callchain_node val info kids)
    → info.val_nr ≡ length val
unfolding IsFormed
val_nr-length val info kids f = f.2

pub formed_children :
    (val : List CallchainList) (info : NodeInfo) (kids : Children)
    → IsFormed (callchain_node val info kids)
    → AreFormed kids
unfolding IsFormed
formed_children val info kids f = f.3

pub length_pos : {A : Type 0} (v : A) (vs : List A) → 0 < length (v ∷ vs)
length_pos v vs = omega arith

-- The node that is the end of the chain.
pub count-Grows :
    (val val' : List CallchainList) (info info' : NodeInfo) (t : Children)
    → IsFormed (callchain_node val info t)
    → length val' ≡ length val
    → entry_keys val' ≡ entry_keys val
    → info'.val_nr ≡ info.val_nr
    → info'.count ≡ info.count + 1
    → Grows (callchain_node val info t) (callchain_node val' info' t) (entry_keys val)
unfolding weight total IsFormed occurs
count-Grows val val' info info' t f l k nr n = record {
  formed = (omega (arith, f), omega (arith, f), omega (arith, f), f.3);
  weighs = λ q.
      rw (k, n)
        (below_add (strip (entry_keys val) q) _ _ _
          (λ rest. omega (arith, at_end_add rest info.count)));
  totals = omega arith;
}

module _ (lib : RbLibrary inorder) (key : ChainKey) (period : ℕ) where
  linked-Grows :
      (t : Children) (path : List Side) (new : CallchainNode) (p : List Key)
      → EmptyLink t path
      → AreFormed t
      → CountsOnce new p
      → ChildrenGrow t (lib.rb_insert_color path (rb_link_node path new t)) p
  linked-Grows t path new p empty f once =
      let linked = rb_link_node path new t in
      let order = lib.in_order path linked in
      record {
        formed =
            AreFormed-congr linked _ (sym order) (AreFormed-link path new t empty once.formed f);
        weighs = λ q.
            weight_children_congr _ linked q order
            ∙ omega (arith, weight_children-link path new t q empty, once.weighs q);
        totals =
            total_children_congr _ linked order
            ∙ omega (arith, total_children-link path new t empty, once.totals);
      }

  pub end_children-Grows :
      (info : NodeInfo) (t : Children) (s : Reader) (x : CursorNode) (p : List CursorNode)
      (w : Walk)
      → IsReading s.cursor
      → pending s.cursor ≡ x ∷ p
      → s.cursor.nr < 2 ^ 32
      → AreFormed t
      → Walks t s (frame_keys (x ∷ p)) w
      → let d = end_children lib key period info w in
        (d.success ≡ true)
        × ChildrenGrow t d.children (frame_keys (x ∷ p))
        × (d.info.count ≡ info.count)
        × (d.info.val_nr ≡ info.val_nr)
  unfolding end_children
  end_children-Grows info t s x p (found t' depth s') r e small f g = (refl, g, refl, refl)
  end_children-Grows info t s x p (failed t' s') r e small f g = absurd g
  end_children-Grows info t s x p (missing t' path s') r e small f (et, es, empty) = (
    refl,
    rw (et, es)
        (linked-Grows t path _ _ empty f
          (add_child-once period s.cursor (x ∷ p) r e (omega arith) small)),
    refl,
    refl,
  )

  pub from_current-some :
      (info : NodeInfo) (kids : Children) (s : Reader) (walk : Run Walk) {y : CursorNode} {w : Walk}
      → callchain_cursor_current s.cursor ≡ some y
      → walk ≡ ok w
      → from_current lib key period info kids s walk ≡ ok (end_children lib key period info w)
  unfolding from_current
  from_current-some info kids s walk e r = rw (e, r, from_current)
