-- ===== src/Art.antt =====
-- The adaptive radix tree of src/lib/art: a node and its children (src/lib/art/art.h and art.c).
-- `C` is what a slot of `arr` points to; a slot that is NULL is none. The arrays `key`, `arr` and
-- `prefix` are functions of the index. Allocation succeeds.
pub mod Children
pub mod Grow
pub mod Prefix
pub mod Insert
pub mod Backend
pub mod Main
pub mod Stacks
use callstack_count.Prelude.{
  ℕ, zero, suc, ◌+◌, ◌-◌, ◌*◌, ◌%◌, ◌^◌, Bool, true, false, ◌&&◌, not, Option, none, some, List, [],
  ◌∷◌, ◌==◌, leb, ltb, if◌then◌else◌, Run, ok, fault, died, assertion, ◌>>=◌, assert,
}

-- The flags NODE_FLAGS_*, of which a node has one.
pub data NodeFlags : Type 0 where
  leaf inner_4 inner_16 inner_48 inner_256 : NodeFlags

-- `struct stream`: the bytes from `data` on, and how many there are up to `end`.
pub record Stream : Type 0 where
  pub data_bytes : ℕ → ℕ
  pub size : ℕ
  pub pos : ℕ

pub record Node (C : Type 0) : Type 0 where
  pub key_len : ℕ
  pub key : ℕ → ℕ
  pub arr : ℕ → Option C
  pub flags : NodeFlags
  pub count : ℕ
  pub prefix_len : ℕ
  pub prefix : ℕ → ℕ

-- EMPTY
abbrev pub empty_key : ℕ
empty_key = 255

unfoldable pub stream_end : Stream → Bool
stream_end s = leb s.size s.pos

unfoldable pub stream_size : Stream → ℕ
stream_size s = s.size

unfoldable pub stream_advance : Stream → ℕ → Stream
stream_advance s n = record s { pos = (s.pos + n) % 2 ^ 32 }

unfoldable pub stream_remaining : Stream → ℕ
stream_remaining s = (s.size + 2 ^ 64 - s.pos) % 2 ^ 32

-- The byte, and the stream behind it.
unfoldable pub stream_next : Stream → ℕ × Stream
stream_next s = (s.data_bytes s.pos, record s { pos = (s.pos + 1) % 2 ^ 32 })

unfoldable pub stream_get : Stream → ℕ → ℕ
stream_get s offset = s.data_bytes offset

unfoldable pub node_size : NodeFlags → Run ℕ
node_size leaf = fault died
node_size inner_4 = ok 4
node_size inner_16 = ok 16
node_size inner_48 = ok 48
node_size inner_256 = ok 256

unfoldable pub is_leaf_flags : NodeFlags → Bool
is_leaf_flags leaf = true
is_leaf_flags _ = false

abbrev pub update : {A : Type 0} → (ℕ → A) → ℕ → A → ℕ → A
update f i a j = if i == j then a else f j

-- The loop over `key`, from an index on.
unfoldable pub find_key : (ℕ → ℕ) → ℕ → ℕ → ℕ → Option ℕ
find_key keys k i zero = none
find_key keys k i (suc left) =
    let rest = find_key keys k (i + 1) left in if keys i == k then some i else rest

unfoldable pub is_none : {A : Type 0} → Option A → Bool
is_none none = true
is_none (some a) = false

-- grow: the loop over the keys of an inner_16 node, from an index on.
unfoldable pub index_keys : (ℕ → ℕ) → ℕ → ℕ → (ℕ → ℕ) → ℕ → ℕ
index_keys keys i zero acc = acc
index_keys keys i (suc left) acc = index_keys keys (i + 1) left (update acc (keys i) (i % 2 ^ 8))

-- The first `n` elements of an array, copied into one that is clear.
abbrev pub copied : {A : Type 0} → ℕ → (ℕ → A) → A → ℕ → A
copied n f a i = if ltb i n then f i else a

-- How many of the next bytes are equal: the loop of check_prefix.
unfoldable pub matching : (ℕ → ℕ) → (ℕ → ℕ) → ℕ → ℕ
matching f g zero = 0
matching f g (suc n) =
    let rest = matching (λ i. f (suc i)) (λ i. g (suc i)) n in if f 0 == g 0 then suc rest else 0

-- !memcmp(f, g, n)
unfoldable pub memcmp_zero : (ℕ → ℕ) → (ℕ → ℕ) → ℕ → Bool
memcmp_zero f g zero = true
memcmp_zero f g (suc n) = f 0 == g 0 && memcmp_zero (λ i. f (suc i)) (λ i. g (suc i)) n

abbrev pub smaller : ℕ → ℕ → ℕ
smaller a b = if ltb a b then a else b

module _ {C : Type 0} where
  -- The keys of a fresh inner_48 node are EMPTY, all else is 0.
  unfoldable pub alloc_node : NodeFlags → Node C
  alloc_node flags = record {
    key_len = 0;
    key = λ i. elim flags [ inner_48 ↦ empty_key | _ ↦ 0 ];
    arr = λ i. none;
    flags = flags;
    count = 0;
    prefix_len = 0;
    prefix = λ i. 0;
  }

  unfoldable pub is_leaf : Node C → Bool
  unfolding is_leaf_flags
  is_leaf node = is_leaf_flags node.flags

  unfoldable pub is_full : Node C → Run Bool
  unfolding is_leaf node_size
  is_full node =
      if is_leaf node then ok true else node_size node.flags >>= λ n. ok (node.key_len == n)

  -- find_child, find_child_16: the index of the slot.
  unfoldable pub find_child : Node C → ℕ → Run (Option ℕ)
  unfolding find_key
  find_child node k = elim node.flags [
    | leaf ↦ fault died
    | inner_4 ↦ ok (find_key node.key k 0 node.key_len)
    | inner_16 ↦ ok (find_key node.key k 0 node.key_len)
    | inner_48 ↦ ok (if node.key k == empty_key then none else some (node.key k))
    | inner_256 ↦ ok (some k)
  ]

  -- The checks of add_child that the key is not there yet.
  unfoldable pub is_new_key : Node C → ℕ → Bool
  unfolding find_key is_none
  is_new_key node k = elim node.flags [
    | leaf ↦ true
    | inner_4 ↦ is_none (find_key node.key k 0 node.key_len)
    | inner_16 ↦ is_none (find_key node.key k 0 node.key_len)
    | inner_48 ↦ node.key k == empty_key
    | inner_256 ↦ is_none (node.arr k)
  ]

  unfoldable pub put_child : Node C → ℕ → C → Run (Node C)
  put_child node k child = elim node.flags [
    | leaf ↦ fault died
    | inner_256 ↦ ok (record node { arr = update node.arr k (some child) })
    | inner_48 ↦ ok (record node {
      key = update node.key k (node.key_len % 2 ^ 8);
      arr = update node.arr node.key_len (some child);
      key_len = node.key_len + 1;
    })
    | _ ↦ ok (record node {
      key = update node.key node.key_len k;
      arr = update node.arr node.key_len (some child);
      key_len = node.key_len + 1;
    })
  ]

  unfoldable pub add_child : Node C → ℕ → C → Run (Node C)
  unfolding is_new_key put_child is_full
  add_child node k child = is_full node >>= λ full.
      assert (not full) >>= λ _. assert (is_new_key node k) >>= λ _. put_child node k child

  -- The slots of an inner_48 node by their keys; the loop over the 256 keys writes each slot once.
  unfoldable pub arr_of_48 : Node C → ℕ → Option C
  arr_of_48 node i =
      if ltb i 256 && not (node.key i == empty_key) then node.arr (node.key i) else none

  unfoldable pub grown : Node C → Run (Node C)
  unfolding arr_of_48 alloc_node
  grown node = elim node.flags [
    | leaf ↦ fault assertion
    | inner_4 ↦ ok (record (alloc_node inner_16) {
      key = copied 4 node.key 0;
      arr = copied 4 node.arr none;
      key_len = 4;
    })
    | inner_16 ↦ ok (record (alloc_node inner_48) {
      key = index_keys node.key 0 16 (λ i. empty_key);
      arr = copied 16 node.arr none;
      key_len = 16;
    })
    | inner_48 ↦ ok (record (alloc_node inner_256) { arr = arr_of_48 node; key_len = 48 })
    | inner_256 ↦ fault assertion
  ]

  -- grow: the new node; freeing the old one is left out.
  unfoldable pub grow : Node C → Run (Node C)
  unfolding grown is_full
  grow node = is_full node >>= λ full. assert full >>= λ _. grown node

  -- make_leaf
  unfoldable pub make_leaf : Stream → Node C
  unfolding alloc_node stream_size
  make_leaf s = record (alloc_node leaf) { key_len = stream_size s; key = s.data_bytes }

  -- The memcmp reads stream->data at the depth; here stream_get gives these bytes.
  unfoldable pub check_prefix : Node C → Stream → ℕ → ℕ
  unfolding matching memcmp_zero stream_size
  check_prefix node s depth =
      let min_len = smaller node.prefix_len ((stream_size s + 2 ^ 32 - depth) % 2 ^ 32) in
      let rest = λ (i : ℕ). stream_get s (depth + i) in
      if memcmp_zero node.prefix rest min_len then min_len else matching node.prefix rest min_len
