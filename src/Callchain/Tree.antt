-- ===== src/Callchain/Tree.antt =====
-- `struct callchain_node`: the radix tree whose nodes keep their children in red-black trees. The
-- parent pointer is the position in the tree; the output trees that sorting builds are in Sort.
use callstack_count.Prelude.{ℕ, List, [], ◌∷◌, ◌++◌}
use callstack_count.RbTree.{Color, red, Side, left, right}
use callstack_count.Callchain.{CallchainList, add_u64, add_u32}

pub record NodeInfo : Type 0 where
  pub val_nr : ℕ
  pub count : ℕ
  pub children_count : ℕ
  pub hit : ℕ
  pub children_hit : ℕ

-- As calloc clears it.
abbrev pub new_info : NodeInfo
new_info = record { val_nr = 0; count = 0; children_count = 0; hit = 0; children_hit = 0 }

mutual
  pub data CallchainNode : Type 0 where
    callchain_node : List CallchainList → NodeInfo → Children → CallchainNode

  -- `rb_root_in`, through `rb_node_in`
  pub data Children : Type 0 where
    nil : Children
    rb : Color → Children → CallchainNode → Children → Children

abbrev pub val_of : CallchainNode → List CallchainList
val_of (callchain_node val info kids) = val

abbrev pub info_of : CallchainNode → NodeInfo
info_of (callchain_node val info kids) = info

abbrev pub children_of : CallchainNode → Children
children_of (callchain_node val info kids) = kids

abbrev pub inorder : Children → List CallchainNode
inorder nil = []
inorder (rb c l n r) = inorder l ++ n ∷ inorder r

-- rb_link_node at the link that the path leads to.
abbrev pub rb_link_node : List Side → CallchainNode → Children → Children
rb_link_node [] new t = rb red nil new nil
rb_link_node (left ∷ path) new nil = nil
rb_link_node (right ∷ path) new nil = nil
rb_link_node (left ∷ path) new (rb c l n r) = rb c (rb_link_node path new l) n r
rb_link_node (right ∷ path) new (rb c l n r) = rb c l n (rb_link_node path new r)

unfoldable pub callchain_cumul_hits : NodeInfo → ℕ
callchain_cumul_hits i = add_u64 i.hit i.children_hit

unfoldable pub callchain_cumul_counts : NodeInfo → ℕ
callchain_cumul_counts i = add_u32 i.count i.children_count

pub record CallchainRoot : Type 0 where
  pub max_depth : ℕ
  pub node : CallchainNode

-- callchain_init, on memory that calloc has cleared
unfoldable pub callchain_init : CallchainRoot
callchain_init = record { max_depth = 0; node = callchain_node [] new_info nil }
