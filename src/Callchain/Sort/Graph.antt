-- ===== src/Callchain/Sort/Graph.antt =====
-- The graph modes of src/lib/linux/callchain.c: every node gets an output tree of its children.
use mathlib.Core.List.{Perm}
use callstack_count.Prelude.{
  ℕ, ◌≡◌, refl, inl, inr, Option, some, List, [], ◌∷◌, ◌++◌, if◌then◌else◌, Bool-cases, keep,
  keep-append,
}
use callstack_count.RbTree.{RbLibrary}
use callstack_count.RbTree.Search.{All, All-left, All-right}
use callstack_count.Callchain.Tree.{
  CallchainNode, callchain_node, Children, nil, rb, inorder, NodeInfo, CallchainRoot, info_of,
  children_of,
}
use callstack_count.Callchain.Sort.{
  ChainMode, chain_graph_abs, chain_graph_rel, OutputNode, output_node, Outputs, empty, link,
  outputs_in_order, goes_left, has_cumul, and_then, rb_insert_callchain, sort_node_graph,
  sort_children_graph, sort_chain_graph_abs, sort_chain_graph_rel,
}
use callstack_count.Callchain.Sort.Order.{
  order_by, Compares, IsDescending, sources, Grown, Grown_none, Grown_trans,
  rb_insert_callchain-Placed,
}

abbrev pub reaching : ℕ → List CallchainNode → List CallchainNode
reaching min_hit ns = keep (λ n. has_cumul min_hit (info_of n)) ns

-- The output tree holds the children that reach the limit, the largest first, and so do theirs.
unfoldable mutual
  pub IsOutput : ChainMode → (NodeInfo → ℕ) → OutputNode → Type 0
  IsOutput mode limit (output_node n t) =
      IsDescending mode (outputs_in_order t)
      × Perm (sources t) (reaching (limit (info_of n)) (inorder (children_of n)))
      × AreOutputs mode limit t

  pub AreOutputs : ChainMode → (NodeInfo → ℕ) → Outputs → Type 0
  AreOutputs mode limit empty = Unit
  AreOutputs mode limit (link c l n r) =
      AreOutputs mode limit l × IsOutput mode limit n × AreOutputs mode limit r

AreOutputs-All :
    (mode : ChainMode) (limit : NodeInfo → ℕ) (t : Outputs)
    → All (IsOutput mode limit) (outputs_in_order t)
    → AreOutputs mode limit t
unfolding IsOutput
AreOutputs-All mode limit empty h = tt
AreOutputs-All mode limit (link c l n r) h =
    let P = IsOutput mode limit in
    let rest = All-right P (outputs_in_order l) (n ∷ outputs_in_order r) h in
    (
      AreOutputs-All mode limit l (All-left P (outputs_in_order l) (n ∷ outputs_in_order r) h),
      rest.0,
      AreOutputs-All mode limit r rest.1,
    )

abs-Compares : Compares chain_graph_abs
unfolding goes_left order_by
abs-Compares rnode chain = refl

rel-Compares : Compares chain_graph_rel
unfolding goes_left order_by
rel-Compares rnode chain = refl

module _ (lib : RbLibrary outputs_in_order) (mode : ChainMode) (limit : NodeInfo → ℕ) where
  record IsGood (t : Outputs) : Type 0 where
    descending : IsDescending mode (outputs_in_order t)
    outputs : All (IsOutput mode limit) (outputs_in_order t)

  abbrev SortedInto : ℕ → List CallchainNode → Outputs → Option Outputs → Type 0
  SortedInto min_hit ns t run =
      (t' : Outputs) × (run ≡ some t') × Grown mode t t' (reaching min_hit ns) × IsGood t'

  SortedInto-then :
      (min_hit : ℕ) (xs ys : List CallchainNode) (t : Outputs) (run : Option Outputs)
      (rest : Outputs → Option Outputs)
      → SortedInto min_hit xs t run
      → ((u : Outputs) → IsGood u → SortedInto min_hit ys u (rest u))
      → SortedInto min_hit (xs ++ ys) t (and_then run rest)
  unfolding and_then
  SortedInto-then min_hit xs ys t run rest (u, ran, g, good) next =
      let (v, ran', h, good') = next u good in
      (v, rw (ran, and_then) ran', rw keep-append (Grown_trans mode t u v _ _ g h), good')

  insert_reaching :
      (min_hit : ℕ) (n : CallchainNode) (own t : Outputs)
      → Compares mode
      → IsOutput mode limit (output_node n own)
      → IsGood t
      → SortedInto min_hit (n ∷ []) t (
          if has_cumul min_hit (info_of n)
          then rb_insert_callchain lib mode (output_node n own) t
          else some t)
  insert_reaching min_hit n own t c o good = elim (Bool-cases (has_cumul min_hit (info_of n))) [
    | inl e ↦
        let p = rb_insert_callchain-Placed lib mode (output_node n own) t c good.descending in
        (
          p.tree,
          rw e p.run,
          rw e p.grown,
          record {
            descending = p.grown.descending;
            outputs = p.all (IsOutput mode limit) o good.outputs;
          },
        )
    | inr e ↦ (t, rw e refl, rw e (Grown_none mode t good.descending), good)
  ]

  mutual
    unfolding sort_node_graph IsOutput and_then

    sort_node_graph-IsOutput :
        (n : CallchainNode)
        → Compares mode
        → (t : Outputs) × (sort_node_graph lib mode limit n ≡ some t)
          × IsOutput mode limit (output_node n t)
    sort_node_graph-IsOutput (callchain_node val info kids) c =
        let (t, run, g, good) =
          sort_children_graph-SortedInto (limit info) kids empty c
            (record { descending = tt; outputs = tt }) in
        (t, run, (g.descending, g.perm, AreOutputs-All mode limit t good.outputs))

    sort_children_graph-SortedInto :
        (min_hit : ℕ) (kids : Children) (t : Outputs)
        → Compares mode
        → IsGood t
        → SortedInto min_hit (inorder kids) t (sort_children_graph lib mode limit min_hit kids t)
    sort_children_graph-SortedInto min_hit nil t c good =
        (t, refl, Grown_none mode t good.descending, good)
    sort_children_graph-SortedInto min_hit (rb color l n r) t c good =
        SortedInto-then min_hit (inorder l) (n ∷ inorder r) t _ _
          (sort_children_graph-SortedInto min_hit l t c good)
          (λ u gu.
            let (own, ran, o) = sort_node_graph-IsOutput n c in
            let both =
              SortedInto-then min_hit (n ∷ []) (inorder r) u _ _
                (insert_reaching min_hit n own u c o gu)
                (λ v gv. sort_children_graph-SortedInto min_hit r v c gv) in
            (both.0, rw (ran, and_then) both.1, both.2, both.3))

-- sort_chain_graph_abs ends; in the output tree of each node it reaches are those of the node's
-- children whose cumulated hits are at least min_hit, in order, the largest first.
pub sort_chain_graph_abs-IsOutput :
    (lib : RbLibrary outputs_in_order) (root : CallchainRoot) (min_hit : ℕ)
    → (t : Outputs) × (sort_chain_graph_abs lib root min_hit ≡ some t)
      × IsOutput chain_graph_abs (λ i. min_hit) (output_node root.node t)
unfolding sort_chain_graph_abs
sort_chain_graph_abs-IsOutput lib root min_hit =
    sort_node_graph-IsOutput lib chain_graph_abs (λ i. min_hit) root.node abs-Compares

-- sort_chain_graph_rel ends, and its output trees are so with the limit that each node's own
-- children_hit gives.
pub sort_chain_graph_rel-IsOutput :
    (lib : RbLibrary outputs_in_order) (ceil_percent : ℕ → ℕ) (root : CallchainRoot)
    → (t : Outputs) × (sort_chain_graph_rel lib ceil_percent root ≡ some t)
      × IsOutput chain_graph_rel (λ i. ceil_percent i.children_hit) (output_node root.node t)
unfolding sort_chain_graph_rel
sort_chain_graph_rel-IsOutput lib ceil_percent root =
    sort_node_graph-IsOutput lib chain_graph_rel (λ i. ceil_percent i.children_hit) root.node
      rel-Compares
