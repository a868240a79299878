-- ===== src/Examples/Backends.antt =====
-- Runs of the theorems on the hash table and on the nodes of the adaptive radix tree.
use callstack_count.Prelude.{
  ℕ, ◌+◌, ◌-◌, ◌<◌, ◌^◌, ◌%◌, ◌≡◌, ◌≢◌, refl, true, false, inl, Option, none, some, List, [], ◌∷◌,
  arith, ◌==◌, if◌then◌else◌, length, ok,
}
use callstack_count.Hashtable.{Hashtable, HashState, alloc_table, hash_insert}
use callstack_count.Hashtable
use callstack_count.Hashtable.Counts.{
  IsInternal, total_count, alloc_table-IsInternal, hash_insert-IsInternal,
}
use callstack_count.Hashtable.Backend.{
  PlacedStack, insert_stacks, hash_new, stack_end, IsTerminated, insert_stacks-one,
}
use callstack_count.Art.{
  Stream, Node, inner_4, inner_256, leaf, alloc_node, is_full, is_leaf, is_leaf_flags, node_size,
  is_new_key, find_key, is_none, add_child, grow, check_prefix, smaller, stream_get,
}
use callstack_count.Art.Prefix.{IsCommon, check_prefix-IsCommon}
use callstack_count.Art.Children.{IsIndexed, child_at, add_child-child_at}
use callstack_count.Art.Insert.{insert}
use callstack_count.Art.Insert.Counts.{leaf_tree, insert-ends}
use callstack_count.Art.Insert.Search.{search, search-ends}
use callstack_count.Art.Grow.{grow-child_at}

abbrev pub some_bytes : ℕ → ℕ
some_bytes a = a % 256

abbrev pub a_hash : List ℕ → ℕ → ℕ
a_hash bytes seed = length bytes + seed

abbrev one_stream : ℕ → Option callstack_count.Hashtable.Stream
one_stream p = if p == 64 then some (record { begin = 0; end = 32 }) else none

abbrev pub empty_state : HashState
empty_state = record { table = alloc_table; num_unique_entries = 0 }

pub fits : alloc_table.hits + alloc_table.unique + 1 < 2 ^ 64
unfolding alloc_table
fits = omega arith

pub free : alloc_table.num_internal < 3
unfolding alloc_table
free = omega arith

hash_insert-IsInternal_example :
    (st' : HashState) × (hash_insert some_bytes one_stream a_hash 64 empty_state ≡ ok st')
    × IsInternal one_stream st'.table
    × (total_count st'.table.internal ≡ total_count alloc_table.internal + 1)
hash_insert-IsInternal_example =
    hash_insert-IsInternal some_bytes one_stream a_hash empty_state 64
      (record { begin = 0; end = 32 }) (alloc_table-IsInternal one_stream) refl (inl free) fits

abbrev placed : ℕ → ℕ → PlacedStack
placed address ip = record {
  address = address;
  entries = record { ip = ip; map_id = 819 } ∷ record { ip = 0; map_id = 0 } ∷ [];
}

placed-IsTerminated : (address : ℕ) → IsTerminated some_bytes a_hash 64 (placed address 16)
unfolding stack_end
placed-IsTerminated address = (_, refl)

insert_stacks-one_example :
    (st' : HashState) × (insert_stacks some_bytes a_hash 64
        (placed 4096 16 ∷ placed 8192 16 ∷ [])
        (hash_new some_bytes a_hash 64 0)
      ≡ ok st')
    × (st'.table.unique ≡ 1)
    × (st'.table.hits % 2 ^ 64 ≡ 1 % 2 ^ 64)
insert_stacks-one_example =
    insert_stacks-one some_bytes a_hash 64 (placed 4096 16) (placed 8192 16 ∷ []) 0
      (placed-IsTerminated 4096, (placed-IsTerminated 8192, tt))

-- A node with four children.
abbrev four_node : Node ℕ
four_node = record (alloc_node inner_4) {
  key_len = 4;
  key = λ i. i;
  arr = λ i. some i;
  prefix_len = 2;
  count = 7;
}

abbrev empty_node : Node ℕ
empty_node = alloc_node inner_4

empty_node-IsIndexed : IsIndexed empty_node
unfolding alloc_node IsIndexed
empty_node-IsIndexed = λ a b h k e. absurd (omega (arith, h))

empty_node_room : is_full empty_node ≡ ok false
unfolding alloc_node is_full is_leaf is_leaf_flags node_size
empty_node_room = refl

empty_node_new : is_new_key empty_node 9 ≡ true
unfolding alloc_node is_new_key find_key is_none
empty_node_new = refl

add_child-child_at_example :
    (node' : Node ℕ) × (add_child empty_node 9 5 ≡ ok node')
    × IsIndexed node'
    × ((k' : ℕ) → child_at node' k' ≡ (if 9 == k' then some 5 else child_at empty_node k'))
add_child-child_at_example =
    add_child-child_at empty_node 9 5 empty_node-IsIndexed empty_node_room empty_node_new

four_node-IsIndexed : IsIndexed four_node
unfolding alloc_node IsIndexed
four_node-IsIndexed = λ a b h k e. e

four_node_full : is_full four_node ≡ ok true
unfolding alloc_node is_full is_leaf is_leaf_flags node_size
four_node_full = refl

four_node_inner : (four_node.flags ≢ leaf) × (four_node.flags ≢ inner_256)
unfolding alloc_node
four_node_inner = (λ e. cc, λ e. cc)

grow-child_at_example :
    (node' : Node ℕ) × (grow four_node ≡ ok node')
    × IsIndexed node'
    × ((k : ℕ) → k < 256 → child_at node' k ≡ child_at four_node k)
    × (node'.prefix_len ≡ 0)
    × (node'.count ≡ 0)
grow-child_at_example =
    grow-child_at four_node four_node-IsIndexed four_node_full four_node_inner.0 four_node_inner.1

abbrev a_stream : Stream
a_stream = record { data_bytes = λ i. i; size = 5; pos = 0 }

check_prefix-IsCommon_example :
    IsCommon four_node.prefix
      (λ i. stream_get a_stream (1 + i))
      (smaller four_node.prefix_len (5 - 1))
      (check_prefix four_node a_stream 1)
check_prefix-IsCommon_example =
    check_prefix-IsCommon four_node a_stream 1 (omega arith) (omega arith)

insert-ends_example : insert a_stream (leaf_tree a_stream 0) ≢ ok none
insert-ends_example = insert-ends a_stream (leaf_tree a_stream 0)

search-ends_example : search (5 + 1) (some 0) a_stream 0 (leaf_tree a_stream 0) ≢ ok none
search-ends_example = search-ends (some 0) a_stream (leaf_tree a_stream 0) (omega arith)
