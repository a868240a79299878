-- ===== src/Callchain/Sort/Order.antt =====
-- What rb_insert_callchain of src/lib/linux/callchain.c does to the order of an output tree.
use mathlib.Core.List.{Perm, perm_middle, append_assoc, append-nil}
use mathlib.Core.List.Perm
use callstack_count.Prelude.{
  ℕ, ◌≤◌, ◌≡◌, refl, sym, ap, ◌∙◌, inl, inr, true, false, some, List, [], ◌∷◌, ◌++◌, map, arith,
  ltb, if◌then◌else◌, Bool-cases,
}
use callstack_count.RbTree.{Side, left, right, RbLibrary}
use callstack_count.RbTree.Search.{All, All-left, All-right}
use callstack_count.Callchain.Tree.{CallchainNode, NodeInfo, callchain_cumul_hits}
use callstack_count.Callchain.Sort.{
  ChainMode, chain_none, chain_flat, chain_graph_abs, chain_graph_rel, chain_folded, OutputNode,
  Outputs, empty, link, source_of, output_info, outputs_in_order, link_output, goes_left, then_at,
  find_link, rb_insert_callchain,
}

-- By what a mode orders the nodes.
unfoldable pub order_by : ChainMode → NodeInfo → ℕ
order_by chain_flat i = i.hit
order_by chain_folded i = i.hit
order_by chain_graph_abs i = callchain_cumul_hits i
order_by chain_graph_rel i = callchain_cumul_hits i
order_by chain_none i = 0

abbrev pub Compares : ChainMode → Type 0
Compares mode =
    (rnode chain : NodeInfo)
    → goes_left mode rnode chain ≡ some (ltb (order_by mode rnode) (order_by mode chain))

abbrev pub rank : ChainMode → OutputNode → ℕ
rank mode n = order_by mode (output_info n)

-- The largest first.
abbrev pub IsDescending : ChainMode → List OutputNode → Type 0
IsDescending mode [] = Unit
IsDescending mode (n ∷ ns) = All (λ m. rank mode m ≤ rank mode n) ns × IsDescending mode ns

abbrev pub sources : Outputs → List CallchainNode
sources t = map source_of (outputs_in_order t)

-- `t` keeps its nodes, takes the nodes `xs` and is in order.
pub record Grown (mode : ChainMode) (t t' : Outputs) (xs : List CallchainNode) : Type 0 where
  pub descending : IsDescending mode (outputs_in_order t')
  pub perm : Perm (sources t') (sources t ++ xs)

pub Grown_none :
    (mode : ChainMode) (t : Outputs) → IsDescending mode (outputs_in_order t) → Grown mode t t []
Grown_none mode t d = record { descending = d; perm = rw append-nil (Perm.refl (sources t)) }

pub Grown_trans :
    (mode : ChainMode) (t u v : Outputs) (xs ys : List CallchainNode)
    → Grown mode t u xs
    → Grown mode u v ys
    → Grown mode t v (xs ++ ys)
Grown_trans mode t u v xs ys g h = record {
  descending = h.descending;
  perm = rw (← append_assoc (sources t) xs ys) (Perm.trans h.perm (Perm.append_right ys g.perm));
}

-- Insertion behind the nodes that are as large.
insert_desc : ChainMode → OutputNode → List OutputNode → List OutputNode
insert_desc mode n [] = n ∷ []
insert_desc mode n (x ∷ xs) =
    if ltb (rank mode x) (rank mode n) then n ∷ x ∷ xs else x ∷ insert_desc mode n xs

insert_desc-left :
    (mode : ChainMode) (n x : OutputNode) (before after : List OutputNode)
    → ltb (rank mode x) (rank mode n) ≡ true
    → insert_desc mode n (before ++ x ∷ after) ≡ insert_desc mode n before ++ x ∷ after
unfolding insert_desc
insert_desc-left mode n x [] after h = rw h refl
insert_desc-left mode n x (b ∷ before) after h =
    elim (Bool-cases (ltb (rank mode b) (rank mode n))) [
      | inl e ↦ rw (insert_desc, e) refl
      | inr e ↦ rw (insert_desc, e) (ap (λ z. b ∷ z) (insert_desc-left mode n x before after h))
    ]

insert_desc-right :
    (mode : ChainMode) (n x : OutputNode) (before after : List OutputNode)
    → IsDescending mode (before ++ x ∷ after)
    → ltb (rank mode x) (rank mode n) ≡ false
    → insert_desc mode n (before ++ x ∷ after) ≡ before ++ x ∷ insert_desc mode n after
unfolding insert_desc
insert_desc-right mode n x [] after d h = rw h refl
insert_desc-right mode n x (b ∷ before) after d h =
    let above = (All-right (λ m. rank mode m ≤ rank mode b) before (x ∷ after) d.0).0 in
    let e : ltb (rank mode b) (rank mode n) ≡ false = ground (arith, above, h) in
    rw (insert_desc, e) (ap (λ z. b ∷ z) (insert_desc-right mode n x before after d.1 h))

insert_desc-All :
    (P : OutputNode → Type 0) (mode : ChainMode) (n : OutputNode) (xs : List OutputNode)
    → P n
    → All P xs
    → All P (insert_desc mode n xs)
unfolding insert_desc
insert_desc-All P mode n [] p h = (p, tt)
insert_desc-All P mode n (x ∷ xs) p h = elim (Bool-cases (ltb (rank mode x) (rank mode n))) [
  | inl e ↦ rw (insert_desc, e) (p, (h.0, h.1))
  | inr e ↦ rw (insert_desc, e) (h.0, insert_desc-All P mode n xs p h.1)
]

All-below :
    (mode : ChainMode) (a b : ℕ) (xs : List OutputNode)
    → a ≤ b
    → All (λ m. rank mode m ≤ a) xs
    → All (λ m. rank mode m ≤ b) xs
All-below mode a b [] h k = tt
All-below mode a b (x ∷ xs) h k = (omega (arith, h, k.0), All-below mode a b xs h k.1)

insert_desc-IsDescending :
    (mode : ChainMode) (n : OutputNode) (xs : List OutputNode)
    → IsDescending mode xs
    → IsDescending mode (insert_desc mode n xs)
unfolding insert_desc
insert_desc-IsDescending mode n [] d = (tt, tt)
insert_desc-IsDescending mode n (x ∷ xs) d = elim (Bool-cases (ltb (rank mode x) (rank mode n))) [
  | inl e ↦
      let h : rank mode x ≤ rank mode n = ground (arith, e) in
      rw (insert_desc, e) ((h, All-below mode _ _ xs h d.0), d)
  | inr e ↦
      let h : rank mode n ≤ rank mode x = ground (arith, e) in
      rw (insert_desc, e)
        (
          insert_desc-All (λ m. rank mode m ≤ rank mode x) mode n xs h d.0,
          insert_desc-IsDescending mode n xs d.1,
        )
]

insert_desc-Perm :
    (mode : ChainMode) (n : OutputNode) (xs : List OutputNode)
    → Perm (map source_of (insert_desc mode n xs)) (map source_of xs ++ source_of n ∷ [])
unfolding insert_desc
insert_desc-Perm mode n [] = Perm.refl _
insert_desc-Perm mode n (x ∷ xs) = elim (Bool-cases (ltb (rank mode x) (rank mode n))) [
  | inl e ↦
      rw (insert_desc, e)
        (Perm.symm (rw append-nil at (perm_middle {a = source_of n} (map source_of (x ∷ xs)) [])))
  | inr e ↦ rw (insert_desc, e) (Perm.cons (source_of x) (insert_desc-Perm mode n xs))
]

-- The search ends at the link where insertion puts the node.
find_link-insert_desc :
    (mode : ChainMode) (n : OutputNode) (t : Outputs)
    → Compares mode
    → IsDescending mode (outputs_in_order t)
    → (path : List Side) × (find_link mode (output_info n) t ≡ some path)
      × (outputs_in_order (link_output path n t) ≡ insert_desc mode n (outputs_in_order t))
unfolding find_link then_at insert_desc
find_link-insert_desc mode n empty c d = ([], refl, refl)
find_link-insert_desc mode n (link color l m r) c d =
    elim (Bool-cases (ltb (rank mode m) (rank mode n))) [
      | inl e ↦
          let (path, found, order) =
            find_link-insert_desc mode n l c (IsDescending-left mode (outputs_in_order l) _ d) in
          (
            left ∷ path,
            rw (find_link, c (output_info m) (output_info n), e, found, then_at) refl,
            ap (λ z. z ++ m ∷ outputs_in_order r) order
                ∙ sym (insert_desc-left mode n m (outputs_in_order l) (outputs_in_order r) e),
          )
      | inr e ↦
          let (path, found, order) =
            find_link-insert_desc mode n r c (IsDescending-right mode (outputs_in_order l) _ d).1 in
          (
            right ∷ path,
            rw (find_link, c (output_info m) (output_info n), e, found, then_at) refl,
            ap (λ z. outputs_in_order l ++ m ∷ z) order
                ∙ sym (insert_desc-right mode n m (outputs_in_order l) (outputs_in_order r) d e),
          )
    ]
  where
    IsDescending-left :
        (mode : ChainMode) (xs ys : List OutputNode)
        → IsDescending mode (xs ++ ys)
        → IsDescending mode xs
    IsDescending-left mode [] ys d = tt
    IsDescending-left mode (x ∷ xs) ys d =
        (All-left (λ m. rank mode m ≤ rank mode x) xs ys d.0, IsDescending-left mode xs ys d.1)

    IsDescending-right :
        (mode : ChainMode) (xs ys : List OutputNode)
        → IsDescending mode (xs ++ ys)
        → IsDescending mode ys
    IsDescending-right mode [] ys d = d
    IsDescending-right mode (x ∷ xs) ys d = IsDescending-right mode xs ys d.1

module _ (lib : RbLibrary outputs_in_order) where
  -- What one insertion gives: the node is in the tree, in order, with what all nodes satisfy.
  pub record Placed (mode : ChainMode) (n : OutputNode) (t : Outputs) : Type 1 where
    pub tree : Outputs
    pub run : rb_insert_callchain lib mode n t ≡ some tree
    pub grown : Grown mode t tree (source_of n ∷ [])
    pub all :
        (P : OutputNode → Type 0) → P n → All P (outputs_in_order t) → All P (outputs_in_order tree)

  pub rb_insert_callchain-Placed :
      (mode : ChainMode) (n : OutputNode) (t : Outputs)
      → Compares mode
      → IsDescending mode (outputs_in_order t)
      → Placed mode n t
  unfolding rb_insert_callchain
  rb_insert_callchain-Placed mode n t c d =
      let (path, found, order) = find_link-insert_desc mode n t c d in
      let whole = lib.in_order path (link_output path n t) ∙ order in
      record {
        tree = lib.rb_insert_color path (link_output path n t);
        run = rw (rb_insert_callchain, found) refl;
        grown = record {
          descending = rw whole (insert_desc-IsDescending mode n (outputs_in_order t) d);
          perm = rw whole (insert_desc-Perm mode n (outputs_in_order t));
        };
        all = λ P p h. rw whole (insert_desc-All P mode n (outputs_in_order t) p h);
      }
