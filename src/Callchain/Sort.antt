-- ===== src/Callchain/Sort.antt =====
-- Sorting in src/lib/linux/callchain.c: the output trees of call chains. A pointer to a node is the
-- node; the modes `flat` and `folded` leave the output tree of each node as calloc cleared it.
pub mod Order
pub mod Flat
pub mod Graph
pub mod Register
use callstack_count.Prelude.{
  ℕ, Bool, true, false, not, ◌&&◌, Option, none, some, List, [], ◌∷◌, ◌++◌, ◌==◌, leb, ltb,
  if◌then◌else◌,
}
use callstack_count.RbTree.{Color, red, Side, left, right, RbLibrary}
use callstack_count.Callchain.Tree.{
  CallchainNode, callchain_node, Children, nil, rb, NodeInfo, CallchainRoot, info_of,
  callchain_cumul_hits,
}

pub data ChainMode : Type 0 where
  chain_none chain_flat chain_graph_abs chain_graph_rel chain_folded : ChainMode

mutual
  -- A node with its output tree `rb_root`.
  pub data OutputNode : Type 0 where
    output_node : CallchainNode → Outputs → OutputNode

  -- An output tree, linked through `rb_node`.
  pub data Outputs : Type 0 where
    empty : Outputs
    link : Color → Outputs → OutputNode → Outputs → Outputs

abbrev pub source_of : OutputNode → CallchainNode
source_of (output_node n t) = n

abbrev pub output_info : OutputNode → NodeInfo
output_info (output_node n t) = info_of n

abbrev pub outputs_in_order : Outputs → List OutputNode
outputs_in_order empty = []
outputs_in_order (link c l n r) = outputs_in_order l ++ n ∷ outputs_in_order r

-- rb_link_node on an output tree.
abbrev pub link_output : List Side → OutputNode → Outputs → Outputs
link_output [] new t = link red empty new empty
link_output (left ∷ path) new empty = empty
link_output (right ∷ path) new empty = empty
link_output (left ∷ path) new (link c l n r) = link c (link_output path new l) n r
link_output (right ∷ path) new (link c l n r) = link c l n (link_output path new r)

-- The switch of rb_insert_callchain: whether the search for the link of `chain` goes left at `rnode`.
-- In the other modes it does not move.
unfoldable pub goes_left : ChainMode → NodeInfo → NodeInfo → Option Bool
goes_left chain_flat rnode chain = some (ltb rnode.hit chain.hit)
goes_left chain_folded rnode chain = some (ltb rnode.hit chain.hit)
goes_left chain_graph_abs rnode chain =
    some (ltb (callchain_cumul_hits rnode) (callchain_cumul_hits chain))
goes_left chain_graph_rel rnode chain =
    some (ltb (callchain_cumul_hits rnode) (callchain_cumul_hits chain))
goes_left chain_none rnode chain = none

-- A step to a side before the steps of the rest of the loop.
unfoldable pub then_at : Side → Option (List Side) → Option (List Side)
then_at s none = none
then_at s (some path) = some (s ∷ path)

-- The loop of rb_insert_callchain; `none` where it does not end.
unfoldable pub find_link : ChainMode → NodeInfo → Outputs → Option (List Side)
unfolding goes_left then_at
find_link mode chain empty = some []
find_link mode chain (link c l n r) = elim (goes_left mode (output_info n) chain) [
  | none ↦ none
  | some b ↦
      if b then then_at left (find_link mode chain l) else then_at right (find_link mode chain r)
]

-- What param->sort is set to.
pub data SortFunction : Type 0 where
  sort_flat sort_graph_abs sort_graph_rel : SortFunction

-- callchain_register_param; `none` where it returns -1.
unfoldable pub callchain_register_param : ChainMode → Option SortFunction
callchain_register_param chain_graph_abs = some sort_graph_abs
callchain_register_param chain_graph_rel = some sort_graph_rel
callchain_register_param chain_flat = some sort_flat
callchain_register_param chain_folded = some sort_flat
callchain_register_param chain_none = none

-- The test of __sort_chain_flat.
unfoldable pub is_listed : ℕ → NodeInfo → Bool
is_listed min_hit i = not (i.hit == 0) && leb min_hit i.hit

-- The test of __sort_chain_graph_abs and __sort_chain_graph_rel.
unfoldable pub has_cumul : ℕ → NodeInfo → Bool
has_cumul min_hit i = leb min_hit (callchain_cumul_hits i)

-- A call that may not end, and what comes behind it.
unfoldable pub and_then : Option Outputs → (Outputs → Option Outputs) → Option Outputs
and_then none f = none
and_then (some t) f = f t

module _ (lib : RbLibrary outputs_in_order) where
  unfoldable pub rb_insert_callchain : ChainMode → OutputNode → Outputs → Option Outputs
  unfolding find_link
  rb_insert_callchain mode chain root = elim (find_link mode (output_info chain) root) [
    | none ↦ none
    | some path ↦ some (lib.rb_insert_color path (link_output path chain root))
  ]

  -- __sort_chain_flat: the children first, in order, then the node.
  unfoldable mutual
    pub sort_node_flat : ℕ → CallchainNode → Outputs → Option Outputs
    sort_node_flat min_hit (callchain_node val info kids) root =
        and_then (sort_children_flat min_hit kids root) (λ t.
          if is_listed min_hit info
          then rb_insert_callchain chain_flat (output_node (callchain_node val info kids) empty) t
          else some t)

    pub sort_children_flat : ℕ → Children → Outputs → Option Outputs
    sort_children_flat min_hit nil root = some root
    sort_children_flat min_hit (rb c l n r) root =
        and_then (sort_children_flat min_hit l root)
          (λ t. and_then (sort_node_flat min_hit n t) (sort_children_flat min_hit r))

  unfoldable pub sort_chain_flat : CallchainRoot → ℕ → Option Outputs
  unfolding sort_node_flat
  sort_chain_flat root min_hit = sort_node_flat min_hit root.node empty

  -- The loop of __sort_chain_graph_abs and __sort_chain_graph_rel over the children of a node: each
  -- gets its own output tree first, then the node's takes it if it passes the test. `limit` is the
  -- min_hit that a node's children have to reach.
  unfoldable mutual
    pub sort_node_graph : ChainMode → (NodeInfo → ℕ) → CallchainNode → Option Outputs
    sort_node_graph mode limit (callchain_node val info kids) =
        sort_children_graph mode limit (limit info) kids empty

    pub sort_children_graph : ChainMode → (NodeInfo → ℕ) → ℕ → Children → Outputs → Option Outputs
    sort_children_graph mode limit min_hit nil root = some root
    sort_children_graph mode limit min_hit (rb c l n r) root =
        and_then (sort_children_graph mode limit min_hit l root) (λ t.
          and_then (sort_node_graph mode limit n) (λ own.
            and_then
              (if has_cumul min_hit (info_of n)
                then rb_insert_callchain mode (output_node n own) t
                else some t)
              (sort_children_graph mode limit min_hit r)))

  unfoldable pub sort_chain_graph_abs : CallchainRoot → ℕ → Option Outputs
  unfolding sort_node_graph
  sort_chain_graph_abs root min_hit = sort_node_graph chain_graph_abs (λ i. min_hit) root.node

  -- `ceil_percent` is `ceil(children_hit * min_percent)` as a u64: callchain.c defines ceil(x) as x, so
  -- the floating point product is truncated.
  unfoldable pub sort_chain_graph_rel : (ℕ → ℕ) → CallchainRoot → Option Outputs
  unfolding sort_node_graph
  sort_chain_graph_rel ceil_percent root =
      sort_node_graph chain_graph_rel (λ i. ceil_percent i.children_hit) root.node

  -- A call of param->sort.
  unfoldable pub sort : SortFunction → (ℕ → ℕ) → CallchainRoot → ℕ → Option Outputs
  sort sort_flat ceil_percent root min_hit = sort_chain_flat root min_hit
  sort sort_graph_abs ceil_percent root min_hit = sort_chain_graph_abs root min_hit
  sort sort_graph_rel ceil_percent root min_hit = sort_chain_graph_rel ceil_percent root
