-- ===== src/Callchain/Sort/Flat.antt =====
-- The flat modes of src/lib/linux/callchain.c: sort_chain_flat lists the nodes of the whole tree.
use mathlib.Core.List.{Perm}
use callstack_count.Prelude.{
  ℕ, ◌≡◌, refl, inl, inr, Option, some, List, [], ◌∷◌, ◌++◌, if◌then◌else◌, Bool-cases, keep,
  keep-append,
}
use callstack_count.RbTree.{RbLibrary}
use callstack_count.Callchain.Tree.{
  CallchainNode, callchain_node, Children, nil, rb, CallchainRoot, info_of,
}
use callstack_count.Callchain.Sort.{
  chain_flat, output_node, Outputs, empty, outputs_in_order, goes_left, is_listed, and_then,
  rb_insert_callchain, sort_node_flat, sort_children_flat, sort_chain_flat,
}
use callstack_count.Callchain.Sort.Order.{
  order_by, Compares, IsDescending, sources, Grown, Grown_none, Grown_trans,
  rb_insert_callchain-Placed,
}

-- All nodes of a tree, each behind the nodes below it.
unfoldable mutual
  pub nodes_of : CallchainNode → List CallchainNode
  nodes_of (callchain_node val info kids) =
      nodes_of_children kids ++ callchain_node val info kids ∷ []

  pub nodes_of_children : Children → List CallchainNode
  nodes_of_children nil = []
  nodes_of_children (rb c l n r) = nodes_of_children l ++ (nodes_of n ++ nodes_of_children r)

abbrev pub listed : ℕ → List CallchainNode → List CallchainNode
listed min_hit ns = keep (λ n. is_listed min_hit (info_of n)) ns

flat-Compares : Compares chain_flat
unfolding goes_left order_by
flat-Compares rnode chain = refl

module _ (lib : RbLibrary outputs_in_order) where
  abbrev SortedInto : ℕ → List CallchainNode → Outputs → Option Outputs → Type 0
  SortedInto min_hit ns t run =
      (t' : Outputs) × (run ≡ some t') × Grown chain_flat t t' (listed min_hit ns)

  SortedInto-then :
      (min_hit : ℕ) (xs ys : List CallchainNode) (t : Outputs) (run : Option Outputs)
      (rest : Outputs → Option Outputs)
      → SortedInto min_hit xs t run
      → ((u : Outputs)
          → IsDescending chain_flat (outputs_in_order u)
          → SortedInto min_hit ys u (rest u))
      → SortedInto min_hit (xs ++ ys) t (and_then run rest)
  unfolding and_then
  SortedInto-then min_hit xs ys t run rest (u, ran, g) next =
      let (v, ran', h) = next u g.descending in
      (v, rw (ran, and_then) ran', rw keep-append (Grown_trans chain_flat t u v _ _ g h))

  insert_listed :
      (min_hit : ℕ) (n : CallchainNode) (t : Outputs)
      → IsDescending chain_flat (outputs_in_order t)
      → SortedInto min_hit (n ∷ []) t (
          if is_listed min_hit (info_of n)
          then rb_insert_callchain lib chain_flat (output_node n empty) t
          else some t)
  insert_listed min_hit n t d = elim (Bool-cases (is_listed min_hit (info_of n))) [
    | inl e ↦
        let p = rb_insert_callchain-Placed lib chain_flat (output_node n empty) t flat-Compares d in
        (p.tree, rw e p.run, rw e p.grown)
    | inr e ↦ (t, rw e refl, rw e (Grown_none chain_flat t d))
  ]

  mutual
    unfolding sort_node_flat nodes_of

    sort_node_flat-SortedInto :
        (min_hit : ℕ) (n : CallchainNode) (t : Outputs)
        → IsDescending chain_flat (outputs_in_order t)
        → SortedInto min_hit (nodes_of n) t (sort_node_flat lib min_hit n t)
    sort_node_flat-SortedInto min_hit (callchain_node val info kids) t d =
        SortedInto-then min_hit (nodes_of_children kids) _ t _ _
          (sort_children_flat-SortedInto min_hit kids t d)
          (insert_listed min_hit (callchain_node val info kids))

    sort_children_flat-SortedInto :
        (min_hit : ℕ) (kids : Children) (t : Outputs)
        → IsDescending chain_flat (outputs_in_order t)
        → SortedInto min_hit (nodes_of_children kids) t (sort_children_flat lib min_hit kids t)
    sort_children_flat-SortedInto min_hit nil t d = (t, refl, Grown_none chain_flat t d)
    sort_children_flat-SortedInto min_hit (rb c l n r) t d =
        SortedInto-then min_hit (nodes_of_children l) _ t _ _
          (sort_children_flat-SortedInto min_hit l t d)
          (λ u du.
            SortedInto-then min_hit (nodes_of n) _ u _ _ (sort_node_flat-SortedInto min_hit n u du)
              (sort_children_flat-SortedInto min_hit r))

  -- sort_chain_flat ends; the nodes of its output tree are in order, the largest hit first, and they
  -- are the nodes of the whole tree that have hits, and at least min_hit of them.
  pub sort_chain_flat-Perm :
      (root : CallchainRoot) (min_hit : ℕ)
      → (t : Outputs) × (sort_chain_flat lib root min_hit ≡ some t)
        × IsDescending chain_flat (outputs_in_order t)
        × Perm (sources t) (listed min_hit (nodes_of root.node))
  unfolding sort_chain_flat
  sort_chain_flat-Perm root min_hit =
      let (t, run, g) = sort_node_flat-SortedInto min_hit root.node empty tt in
      (t, run, g.descending, g.perm)
