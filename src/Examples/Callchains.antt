-- ===== src/Examples/Callchains.antt =====
-- Runs of the theorems on sorting, merging and comparing call chains.
use mathlib.Core.List.{Perm}
use callstack_count.Prelude.{
  ℕ, zero, suc, ◌*◌, ◌+◌, ◌≡◌, ◌↔◌, refl, true, none, some, List, [], ◌∷◌, arith, ok,
}
use callstack_count.RbTree.{Color, red, RbLibrary}
use callstack_count.Callchain.{CallchainList, function}
use callstack_count.Callchain.Cursor.{new_cursor, frames}
use callstack_count.Callchain.Compare.{
  AgreeOnLines, HaveLines, callchain_cnode_matched, callchain_cnode_matched_iff,
}
use callstack_count.Callchain.Tree.{
  NodeInfo, new_info, CallchainNode, callchain_node, nil, rb, CallchainRoot, callchain_init,
}
use callstack_count.Callchain.Weight.{Key, occurs}
use callstack_count.Callchain.Append.Values.{frame_keys}
use callstack_count.Callchain.Append.Repeat.{append_n, append_n-counts}
use callstack_count.Callchain.Append.{Reader}
use callstack_count.Callchain.Append.Root.{
  chain_count, chain_total, IsRoot, callchain_init-IsRoot, chain_total-callchain_init,
}
use callstack_count.Callchain.Append.Holding.{Holds}
use callstack_count.Callchain.Merge.{callchain_merge}
use callstack_count.Callchain.Merge.Steps.{marked, nodes_with_hits, chains_with_hits, IsWithin}
use callstack_count.Callchain.Merge.Counts.{callchain_merge-counts}
use callstack_count.Callchain.Sort.{
  chain_none, chain_flat, chain_graph_abs, OutputNode, output_node, Outputs, link, outputs_in_order,
  find_link, callchain_register_param, sort_chain_flat, sort_chain_graph_abs,
}
use callstack_count.Callchain.Sort.Order.{IsDescending, sources}
use callstack_count.Callchain.Sort.Flat.{listed, nodes_of, sort_chain_flat-Perm}
use callstack_count.Callchain.Sort.Graph.{IsOutput, sort_chain_graph_abs-IsOutput}
use callstack_count.Callchain.Sort.Register.{callchain_register_param-none}
use callstack_count.Examples.{reader, frame, one_frame-IsWritten, chain_lib, unresolved}

abbrev output_lib : RbLibrary outputs_in_order
output_lib = record { rb_insert_color = λ path t. t; in_order = λ path t. refl }

abbrev counted : ℕ → NodeInfo
counted hit = record new_info { val_nr = 1; count = 1; hit = hit }

abbrev at_line : ℕ → CallchainList
at_line ip = record {
  ip = ip;
  ms = unresolved;
  srcline = some (ip ∷ []);
  branch_count = 0;
  from_count = 0;
  cycles_count = 0;
  iter_count = 0;
  iter_cycles = 0;
  brtype_stat = none;
  predicted_count = 0;
  abort_count = 0;
}

abbrev leaf_node : ℕ → ℕ → CallchainNode
leaf_node ip hit = callchain_node (at_line ip ∷ []) (counted hit) nil

-- A root with two children, with 3 and 5 hits.
abbrev two_children : CallchainRoot
two_children = record {
  max_depth = 1;
  node =
      callchain_node [] (record new_info { children_hit = 8 })
        (rb red nil (leaf_node 16 3) (rb red nil (leaf_node 32 5) nil));
}

sort_chain_flat-Perm_example :
    (t : Outputs) × (sort_chain_flat output_lib two_children 4 ≡ some t)
    × IsDescending chain_flat (outputs_in_order t)
    × Perm (sources t) (listed 4 (nodes_of two_children.node))
sort_chain_flat-Perm_example = sort_chain_flat-Perm output_lib two_children 4

sort_chain_graph_abs-IsOutput_example :
    (t : Outputs) × (sort_chain_graph_abs output_lib two_children 2 ≡ some t)
    × IsOutput chain_graph_abs (λ i. 2) (output_node two_children.node t)
sort_chain_graph_abs-IsOutput_example = sort_chain_graph_abs-IsOutput output_lib two_children 2

abbrev half : ℕ → ℕ
half zero = zero
half (suc zero) = suc zero
half (suc (suc n)) = suc (half n)

callchain_register_param-none_example : (callchain_register_param chain_none ≡ none) ↔ (
    (c : Color) (l r : Outputs) (n : OutputNode) (chain : NodeInfo)
    → find_link chain_none chain (link c l n r) ≡ none)
callchain_register_param-none_example = callchain_register_param-none chain_none

abbrev empty_reader : Reader
empty_reader = record { cursor = new_cursor; deepest = 0 }

empty-Holds : Holds function new_cursor []
empty-Holds = record {
  written = record { at_end = refl; cached = omega arith };
  plain = tt;
  keys_eq = refl;
}

within : IsWithin 0 two_children.node
unfolding IsWithin
within = (
  omega arith,
  (tt, ((omega arith, tt), omega arith), (tt, ((omega arith, tt), omega arith), tt)),
)

two_hits : nodes_with_hits two_children.node ≡ 2
unfolding nodes_with_hits marked
two_hits = refl

callchain_merge-counts_example :
    (dst' : CallchainRoot) × (s' : Reader) × (callchain_merge chain_lib function empty_reader
        callchain_init two_children
      ≡ ok (true, dst', s'))
    × IsRoot dst'
    × ((q : List Key)
        → chain_count dst' q ≡ chain_count callchain_init q + chains_with_hits two_children.node q)
    × (chain_total dst' ≡ chain_total callchain_init + nodes_with_hits two_children.node)
    × (dst'.max_depth ≡ callchain_init.max_depth)
callchain_merge-counts_example =
    callchain_merge-counts chain_lib function empty_reader callchain_init two_children (λ e. cc)
      empty-Holds callchain_init-IsRoot refl within
      (omega (arith, chain_total-callchain_init, two_hits))

callchain_cnode_matched_iff_example :
    (callchain_cnode_matched (at_line 16 ∷ []) (at_line 16 ∷ []) ≡ true) ↔ (
      AgreeOnLines (at_line 16 ∷ []) (at_line 16 ∷ [])
      × HaveLines (at_line 16 ∷ []) (at_line 16 ∷ []))
callchain_cnode_matched_iff_example =
    callchain_cnode_matched_iff (at_line 16 ∷ []) (at_line 16 ∷ [])

append_n-counts_example :
    (root' : CallchainRoot) × (s' : Reader) × (append_n chain_lib function 3 5 callchain_init reader
      ≡ ok (root', s'))
    × IsRoot root'
    × (frames s'.cursor ≡ frame 16 ∷ [])
    × ((q : List Key)
        → chain_count root' q
          ≡ chain_count callchain_init q + 5 * occurs (frame_keys (frame 16 ∷ [])) q)
append_n-counts_example =
    append_n-counts chain_lib function 3 5 callchain_init reader (frame 16) [] callchain_init-IsRoot
      one_frame-IsWritten refl (record { no_lines = λ e. cc; no_sym = refl }, tt) (omega arith)
      (omega (arith, chain_total-callchain_init))
