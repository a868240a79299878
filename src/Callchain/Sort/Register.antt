-- ===== src/Callchain/Sort/Register.antt =====
-- callchain_register_param of src/lib/linux/callchain.c, and the sort that it sets.
use mathlib.Core.List.{Perm}
use callstack_count.Prelude.{ℕ, ◌≡◌, ◌↔◌, refl, Option, none, some, List, []}
use callstack_count.RbTree.{Color, red, Side}
use callstack_count.Callchain.Tree.{
  callchain_node, nil, NodeInfo, new_info, CallchainRoot, callchain_cumul_hits,
}
use callstack_count.Callchain.Sort.{
  ChainMode, chain_none, chain_flat, chain_folded, chain_graph_abs, chain_graph_rel, OutputNode,
  output_node, Outputs, empty, link, outputs_in_order, goes_left, then_at, find_link,
  callchain_register_param,
}
use callstack_count.Callchain.Sort.Order.{IsDescending, sources}
use callstack_count.Callchain.Sort.Flat.{listed, nodes_of}
use callstack_count.Callchain.Sort.Graph.{IsOutput}

-- What the sort of a mode has to give: in the flat modes all nodes of the tree with at least min_hit
-- hits, and in the graph modes an output tree of the children at every node, in which a child needs
-- min_hit cumulative hits or, in the relative mode, a share of the hits below its parent.
abbrev pub IsSorted : ChainMode → (ℕ → ℕ) → CallchainRoot → ℕ → Outputs → Type 0
IsSorted chain_none ceil_percent root min_hit t = ⊥
IsSorted chain_flat ceil_percent root min_hit t =
    IsDescending chain_flat (outputs_in_order t)
    × Perm (sources t) (listed min_hit (nodes_of root.node))
IsSorted chain_folded ceil_percent root min_hit t =
    IsDescending chain_flat (outputs_in_order t)
    × Perm (sources t) (listed min_hit (nodes_of root.node))
IsSorted chain_graph_abs ceil_percent root min_hit t =
    IsOutput chain_graph_abs (λ i. min_hit) (output_node root.node t)
IsSorted chain_graph_rel ceil_percent root min_hit t =
    IsOutput chain_graph_rel (λ i. ceil_percent i.children_hit) (output_node root.node t)

abbrev sample : OutputNode
sample = output_node (callchain_node [] new_info nil) empty

moves : {path : List Side} → ◌≡◌ {A = Option (List Side)} (some path) none → ⊥
moves e = cc

-- callchain_register_param refuses exactly the modes in which rb_insert_callchain would not end on
-- any tree that is not empty.
pub callchain_register_param-none :
    (mode : ChainMode)
    → (callchain_register_param mode ≡ none) ↔ (
        (c : Color) (l r : Outputs) (n : OutputNode) (chain : NodeInfo)
        → find_link mode chain (link c l n r) ≡ none)
unfolding callchain_register_param find_link goes_left then_at callchain_cumul_hits
callchain_register_param-none chain_none = ((λ e c l r n chain. refl), (λ h. refl))
callchain_register_param-none chain_flat =
    ((λ e. cc), (λ h. absurd (moves (h red empty empty sample new_info))))
callchain_register_param-none chain_folded =
    ((λ e. cc), (λ h. absurd (moves (h red empty empty sample new_info))))
callchain_register_param-none chain_graph_abs =
    ((λ e. cc), (λ h. absurd (moves (h red empty empty sample new_info))))
callchain_register_param-none chain_graph_rel =
    ((λ e. cc), (λ h. absurd (moves (h red empty empty sample new_info))))
