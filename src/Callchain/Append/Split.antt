-- ===== src/Callchain/Append/Split.antt =====
-- What add_child and split_add_child do to the counts.
use mathlib.Core.Path.{ap₂}
use mathlib.Core.Bool.{true, false}
use native.Mathlib.Nat.{add-zero}
use callstack_count.Prelude.{
  ℕ, ◌+◌, ◌-◌, ◌%◌, ◌^◌, ◌<◌, ◌≡◌, refl, sym, ap, ◌∙◌, List, [], ◌∷◌, ◌++◌, arith, ltb, length,
  length-append, ok,
}
use callstack_count.RbTree.{Color, Side, left, right, RbLibrary}
use callstack_count.Callchain.{CallchainList, CursorNode, ChainKey, add_u64, add_u32}
use callstack_count.Callchain.Cursor.{Cursor, IsReading, pending, length-pending, current-cons}
use callstack_count.Callchain.Match.{match_chain, match_chain-key}
use callstack_count.Callchain.Tree.{
  NodeInfo, CallchainNode, callchain_node, Children, nil, rb, inorder, rb_link_node,
}
use callstack_count.Callchain.Weight.{
  Key, strip, below, at_end, occurs, weight, weight_children, total, total_children, IsFormed,
  AreFormed, strip-append, below_add, EmptyLink, weight_children_congr, total_children_congr,
  AreFormed-congr, weight_children-link, total_children-link, AreFormed-link,
}
use callstack_count.Callchain.Append.{
  add_child, split_child, only_child, split_info, side_of, compared, second_child, split_add_child,
}
use callstack_count.Callchain.Append.Values.{entry_keys, frame_keys, fill_values-pending}

-- The node counts the chain once more than before, and no other chain.
pub record Grows (n n' : CallchainNode) (p : List Key) : Type 0 where
  pub formed : IsFormed n'
  pub weighs : (q : List Key) → weight n' q ≡ weight n q + occurs p q
  pub totals : total n' ≡ total n + 1

pub record ChildrenGrow (t t' : Children) (p : List Key) : Type 0 where
  pub formed : AreFormed t'
  pub weighs : (q : List Key) → weight_children t' q ≡ weight_children t q + occurs p q
  pub totals : total_children t' ≡ total_children t + 1

-- A new child counts the rest of the chain once.
pub record CountsOnce (n : CallchainNode) (p : List Key) : Type 0 where
  pub formed : IsFormed n
  pub weighs : (q : List Key) → weight n q ≡ occurs p q
  pub totals : total n ≡ 1

pub add_child-once :
    (period : ℕ) (c : Cursor) (p : List CursorNode)
    → IsReading c
    → pending c ≡ p
    → 0 < length p
    → c.nr < 2 ^ 32
    → CountsOnce (add_child period c).0 (frame_keys p)
unfolding add_child weight total IsFormed occurs
add_child-once period c p r e l small =
    let len : length p ≡ c.nr - c.pos = ap length (sym e) ∙ length-pending c r in
    let (keys, count, done) = fill_values-pending (c.nr - c.pos) c p r e len in
    record {
      formed = (omega arith, omega arith, omega (arith, r), tt);
      weighs = λ q. simp (keys, add-zero);
      totals = omega arith;
    }

one_of_inorder :
    (t : Children) (n : CallchainNode) → inorder t ≡ n ∷ [] → (c : Color) × (t ≡ rb c nil n nil)
one_of_inorder nil n e = cc
one_of_inorder (rb c nil m nil) n e = (c, ap (λ k. rb c nil k nil) (cc))
one_of_inorder (rb c nil m (rb c' l' m' r')) n e =
    absurd (omega (arith, ap length e, length-append (inorder l') (m' ∷ inorder r')))
one_of_inorder (rb c (rb c' l' m' r') m r) n e = absurd (
    omega (
      arith,
      ap length e,
      length-append (inorder l' ++ m' ∷ inorder r') (m ∷ inorder r),
      length-append (inorder l') (m' ∷ inorder r'),
    ))

-- Counts depend on the addresses of the entries only.
pub weight_entries :
    (val val' : List CallchainList) (info : NodeInfo) (kids : Children)
    → entry_keys val ≡ entry_keys val'
    → (q : List Key)
    → weight (callchain_node val info kids) q ≡ weight (callchain_node val' info kids) q
unfolding weight
weight_entries val val' info kids e q = rw e

total_entries :
    (val val' : List CallchainList) (info : NodeInfo) (kids : Children)
    → total (callchain_node val info kids) ≡ total (callchain_node val' info kids)
unfolding total
total_entries val val' info kids = refl

single_weight :
    (c : Color) (n : CallchainNode) (q : List Key) → weight_children (rb c nil n nil) q ≡ weight n q
unfolding weight
single_weight c n q = omega arith

single_total : (c : Color) (n : CallchainNode) → total_children (rb c nil n nil) ≡ total n
unfolding total
single_total c n = omega arith

both_empty : (c : Color) (n : CallchainNode) (s : Side) → EmptyLink (rb c nil n nil) (s ∷ [])
both_empty c n left = tt
both_empty c n right = tt

pub occurs-append :
    (a b q : List Key) → occurs (a ++ b) q ≡ below (strip a q) (λ rest. occurs b rest)
unfolding occurs
occurs-append a b q = strip-append a b q _

occurs-nil : (q : List Key) → occurs [] q ≡ at_end q 1
unfolding occurs strip
occurs-nil q = refl

at_end-zero : (q : List Key) → at_end q 0 ≡ 0
at_end-zero [] = refl
at_end-zero (k ∷ q) = refl

alone_formed : (c : Color) (n : CallchainNode) → IsFormed n → AreFormed (rb c nil n nil)
unfolding IsFormed
alone_formed c n f = (tt, f, tt)

module _ (lib : RbLibrary inorder) (key : ChainKey) (period : ℕ) where
  only_child_lem :
      (n : CallchainNode) → (c : Color) × (only_child lib key period n ≡ rb c nil n nil)
  unfolding only_child
  only_child_lem n = one_of_inorder _ n (lib.in_order [] _)

  -- The first child keeps its counts, and the second adds its own.
  second_child_lem :
      (node : CursorNode) (new : CallchainNode) (c : Color) (v : CallchainList)
      (vs : List CallchainList) (info : NodeInfo) (kids : Children) (p : List Key)
      → let first = callchain_node (v ∷ vs) info kids in
        IsFormed first
        → CountsOnce new p
        → (t : Children) × (second_child lib key period node new (rb c nil first nil) ≡ ok t)
          × AreFormed t
          × ((q : List Key) → weight_children t q ≡ weight first q + occurs p q)
          × (total_children t ≡ total first + 1)
  unfolding second_child compared IsFormed
  second_child_lem node new c v vs info kids p f once =
      let path = side_of (match_chain key node v).0 ∷ [] in
      let first = callchain_node ((match_chain key node v).1 ∷ vs) info kids in
      let same =
        weight_entries (v ∷ vs) ((match_chain key node v).1 ∷ vs) info kids
          (ap (λ k. k ∷ entry_keys vs) (sym (match_chain-key key node v))) in
      let same_total = total_entries (v ∷ vs) ((match_chain key node v).1 ∷ vs) info kids in
      let linked = rb_link_node path new (rb c nil first nil) in
      let t = lib.rb_insert_color path linked in
      let order = lib.in_order path linked in
      let empty = both_empty c first (side_of (match_chain key node v).0) in
      (
        t,
        refl,
        AreFormed-congr linked t (sym order)
            (AreFormed-link path new (rb c nil first nil) empty once.formed (tt, f, tt)),
        (λ q.
            weight_children_congr t linked q order
            ∙ omega (
              arith,
              weight_children-link path new (rb c nil first nil) q empty,
              once.weighs q,
              single_weight c first q,
              same q,
            )),
        total_children_congr t linked order
            ∙ omega (
              arith,
              total_children-link path new (rb c nil first nil) empty,
              once.totals,
              single_total c first,
              same_total,
            ),
      )

  -- The old counts move below the split, and the chain is counted once more.
  module _ (before : List CallchainList) (v : CallchainList) (vs val : List CallchainList)
      (info : NodeInfo) (kids : Children) (formed : IsFormed (callchain_node val info kids))
      (some_before : 0 < length before) (lengths : length before + length (v ∷ vs) ≡ length val)
      (values : entry_keys before ++ entry_keys (v ∷ vs) ≡ entry_keys val)
      (room : total (callchain_node val info kids) + 1 < 2 ^ 32) where
    abbrev child : CallchainNode
    child = split_child (v ∷ vs) (length before) info kids

    child-IsFormed : IsFormed child
    unfolding split_child IsFormed
    child-IsFormed = (omega arith, omega arith, omega (arith, formed), formed.3)

    total-child : total child ≡ total (callchain_node val info kids)
    unfolding split_child total
    total-child = refl

    weight-child :
        (q : List Key)
        → weight (callchain_node val info kids) q
          ≡ below (strip (entry_keys before) q) (λ rest. weight child rest)
    unfolding split_child weight
    weight-child q = rw (← values) (strip-append (entry_keys before) (entry_keys (v ∷ vs)) q _)

    second_split :
        (node : CursorNode) (new : CallchainNode) (c : Color) (p : List Key)
        → CountsOnce new p
        → (t : Children) × (second_child lib key period node new (rb c nil child nil) ≡ ok t)
          × AreFormed t
          × ((q : List Key) → weight_children t q ≡ weight child q + occurs p q)
          × (total_children t ≡ total child + 1)
    unfolding split_child
    second_split node new c p once = second_child_lem node new c v vs _ kids p child-IsFormed once

    grow_to :
        (i : NodeInfo) (t : Children) (rest : List Key)
        → i.val_nr ≡ length before
        → AreFormed t
        → ((q : List Key) → at_end q i.count + weight_children t q ≡ weight child q + occurs rest q)
        → i.count + total_children t ≡ total child + 1
        → Grows
            (callchain_node val info kids)
            (callchain_node before i t)
            (entry_keys before ++ rest)
    unfolding weight total IsFormed
    grow_to i t rest nr f w tot = record {
      formed = (some_before, omega (arith, formed), nr, f);
      weighs = λ q.
          below_add (strip (entry_keys before) q) _ (weight child) (occurs rest) w
          ∙ ap₂ (λ a b. a + b) (sym (weight-child q))
              (sym (occurs-append (entry_keys before) rest q));
      totals = omega (arith, tot, total-child);
    }

    pub split_add_child-Grows :
        (c : Cursor) (p : List CursorNode) (start : ℕ)
        → IsReading c
        → pending c ≡ p
        → c.nr < 2 ^ 32
        → c.pos ≡ start + length before
        → (n' : CallchainNode) × (c' : Cursor) × (split_add_child lib key period before
              (v ∷ vs)
              info
              kids
              c
              start
              (length before)
            ≡ ok (n', c'))
          × Grows (callchain_node val info kids) n' (entry_keys before ++ frame_keys p)
    unfolding split_add_child split_info
    split_add_child-Grows c [] start r e small pos =
        let end : c.pos ≡ c.nr = omega (arith, length-pending c r, ap length e, r) in
        let test : ltb ((start + length before) % 2 ^ 32) c.nr ≡ false = ground arith in
        let (col, alone) = only_child_lem child in
        let i = record (split_info info (length before)) { hit = period; count = 1 } in
        let t = only_child lib key period child in
        (
          callchain_node before i t,
          c,
          rw test,
          grow_to i t [] (omega arith) (rw alone (alone_formed col child child-IsFormed))
              (λ q. rw alone (omega (arith, single_weight col child q, occurs-nil q)))
              (rw alone (omega (arith, single_total col child))),
        )
    split_add_child-Grows c (x ∷ p) start r e small pos =
        let more : c.pos < c.nr = omega (arith, length-pending c r, ap length e, r) in
        let test : ltb ((start + length before) % 2 ^ 32) c.nr ≡ true = ground arith in
        let (shown, rest, r') = current-cons c x p r e in
        let (col, alone) = only_child_lem child in
        let once = add_child-once period c (x ∷ p) r e (omega arith) small in
        let (t, run, f, w, tot) =
          second_split x (add_child period c).0 col (frame_keys (x ∷ p)) once in
        let i = record (split_info info (length before)) {
          hit = 0;
          children_hit = add_u64 (split_info info (length before)).children_hit period;
          count = 0;
          children_count = add_u32 (split_info info (length before)).children_count 1;
        } in
        (
          callchain_node before i t,
          (add_child period c).1,
          rw (test, shown, alone, run),
          grow_to i t (frame_keys (x ∷ p)) (omega arith) f (λ q. omega (arith, w q, at_end-zero q))
              (omega (arith, tot)),
        )
