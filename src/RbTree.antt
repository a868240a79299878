-- ===== src/RbTree.antt =====
-- The red-black trees of src/include/linux/rbtree.h. The library (src/lib/linux/rbtree.c) is a copy
-- of the kernel's and is a parameter here; the searches that lead to it are the program's own.
pub mod Search
use callstack_count.Prelude.{List, [], ◌∷◌, ◌++◌, Option, none, ◌≡◌}

-- The bit of `__rb_parent_color`; a node that rb_link_node has linked is red.
pub data Color : Type 0 where
  red black : Color

-- Which of its parent's links leads to a node.
pub data Side : Type 0 where
  left right : Side

-- rb_insert_color recolours and rotates from the node at the end of the path. What its callers
-- rely on is that the order of the nodes stays.
pub record RbLibrary {T : Type 0} {A : Type 0} (inorder : T → List A) : Type 0 where
  pub rb_insert_color : List Side → T → T
  pub in_order : (path : List Side) (t : T) → inorder (rb_insert_color path t) ≡ inorder t

-- A tree of values; `nil` is NULL.
pub data Tree {ℓ} (A : Type ℓ) : Type ℓ where
  nil : Tree A
  rb : Color → Tree A → A → Tree A → Tree A

-- `struct rb_root_cached`
pub record RootCached {ℓ} (A : Type ℓ) : Type ℓ where
  pub rb_root : Tree A
  pub rb_leftmost : Option A

module _ {ℓ} {A : Type ℓ} where
  abbrev pub inorder : Tree A → List A
  inorder nil = []
  inorder (rb c l a r) = inorder l ++ a ∷ inorder r

  -- RB_ROOT_CACHED
  abbrev pub rb_root_cached : RootCached A
  rb_root_cached = record { rb_root = nil; rb_leftmost = none }

  -- rb_link_node at the link that the path leads to; a linked node is red.
  abbrev pub rb_link_node : List Side → A → Tree A → Tree A
  rb_link_node [] new t = rb red nil new nil
  rb_link_node (left ∷ path) new nil = nil
  rb_link_node (right ∷ path) new nil = nil
  rb_link_node (left ∷ path) new (rb c l a r) = rb c (rb_link_node path new l) a r
  rb_link_node (right ∷ path) new (rb c l a r) = rb c l a (rb_link_node path new r)
