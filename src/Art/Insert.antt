-- ===== src/Art/Insert.antt =====
-- insert, do_leaf and search of src/lib/art/art.c. Nodes are pointed to from the root and from the
-- slots of other nodes: a pointer is an index into the heap of all nodes allocated so far, and nothing
-- reads a node that grow has freed.
pub mod Counts
pub mod Search
pub mod Chains
pub mod Fork
pub mod Two
pub mod Nested
use callstack_count.Prelude.{
  ℕ, zero, suc, ◌+◌, ◌-◌, ◌*◌, ◌%◌, ◌^◌, Bool, true, false, ◌&&◌, not, Option, none, some, List, [],
  ◌∷◌, ◌++◌, ◌==◌, leb, ltb, if◌then◌else◌, length, get_elem?, set, Run, ok, fault, dead_pointer,
  assertion, ◌>>=◌, assert,
}
use callstack_count.Art.{
  Stream, Node, NodeFlags, inner_4, alloc_node, is_leaf, is_full, find_child, add_child, grow,
  make_leaf, matching, memcmp_zero, smaller, check_prefix, stream_get, stream_size, stream_advance,
  update,
}

pub record ArtState : Type 0 where
  pub heap : List (Node ℕ)
  pub root : Option ℕ

-- Where `_node` points: to the root, to a slot of a node, or to the variable `new_node` of do_leaf.
pub data Link : Type 0 where
  at_root at_local : Link
  at_slot : ℕ → ℕ → Link

-- The array of `prefix` and its size.
abbrev pub prefix_size : ℕ
prefix_size = 128

abbrev pub ArtRun : Type 0
ArtRun = Run ArtState

unfoldable pub load_node : ℕ → ArtState → Run (Node ℕ)
load_node p st = elim (get_elem? st.heap p) [ none ↦ fault dead_pointer | some n ↦ ok n ]

unfoldable pub store_node : ℕ → Node ℕ → ArtState → ArtState
store_node p n st = record st { heap = set st.heap p n }

-- The pointer of a new node.
abbrev pub next_node : ArtState → ℕ
next_node st = length st.heap

unfoldable pub push_node : Node ℕ → ArtState → ArtState
push_node n st = record st { heap = st.heap ++ n ∷ [] }

-- replace
unfoldable pub replace : Link → ℕ → ArtState → ArtRun
unfolding load_node store_node
replace at_root p st = ok (record st { root = some p })
replace at_local p st = ok st
replace (at_slot q i) p st =
    load_node q st >>= λ n. ok (store_node q (record n { arr = update n.arr i (some p) }) st)

unfoldable pub add_child_at : ℕ → ℕ → ℕ → ArtState → ArtRun
unfolding load_node store_node
add_child_at p k child st =
    load_node p st >>= λ n. add_child n k child >>= λ n'. ok (store_node p n' st)

abbrev pub from : (ℕ → ℕ) → ℕ → ℕ → ℕ
from f i j = f (i + j)

-- memcpy(prefix, from, n)
abbrev pub copy_prefix : Node ℕ → (ℕ → ℕ) → ℕ → Node ℕ
copy_prefix node f n = record node { prefix = λ i. if ltb i n then f i else node.prefix i }

-- The loop of do_leaf that chains inner nodes, with what it changes.
pub record Chain : Type 0 where
  pub link : Link
  pub new_node : ℕ
  pub prefix_remaining : ℕ
  pub state : ArtState

unfoldable pub extend_chain : Stream → ℕ → ℕ → Chain → Run Chain
unfolding load_node store_node push_node replace
extend_chain s depth j c = load_node c.new_node c.state >>= λ n.
    let n1 = record (copy_prefix n (from s.data_bytes (depth + j * prefix_size)) prefix_size) {
      prefix_len = prefix_size;
    } in
    let remaining = c.prefix_remaining - prefix_size in
    if ltb prefix_size remaining
    then (let chain = next_node c.state in
        let n2 = record n1 {
          key = update n1.key 0 (s.data_bytes (depth + j * prefix_size + 1));
          key_len = 1;
          arr = update n1.arr 0 (some chain);
        } in
        replace c.link c.new_node
          (store_node c.new_node n2 (push_node (alloc_node inner_4) c.state))
        >>= λ st. ok (record {
          link = at_local;
          new_node = chain;
          prefix_remaining = remaining - 1;
          state = st;
        }))
    else ok (record c { prefix_remaining = remaining; state = store_node c.new_node n1 c.state })

-- The fuel is `prefix_len`: each round takes at least 128 bytes.
unfoldable pub chain_nodes : ℕ → Stream → ℕ → ℕ → Chain → Run Chain
unfolding extend_chain
chain_nodes zero s depth j c = ok c
chain_nodes (suc fuel) s depth j c =
    let next = λ (c' : Chain). chain_nodes fuel s depth (j + 1) c' in
    if ltb prefix_size c.prefix_remaining then extend_chain s depth j c >>= next else ok c

-- What do_leaf does with the chain: the last part of the prefix, the two children, the link.
unfoldable pub end_leaf : Node ℕ → ℕ → Stream → ℕ → ℕ → Chain → ArtRun
unfolding load_node store_node push_node replace add_child_at
end_leaf node leaf_ptr s depth prefix_len c = load_node c.new_node c.state >>= λ n.
    let last_part = from s.data_bytes (depth + prefix_len - c.prefix_remaining) in
    let n' =
      if c.prefix_remaining == 0 then n else record (copy_prefix n last_part c.prefix_remaining) {
        prefix_len = c.prefix_remaining;
      } in
    let st = store_node c.new_node n' c.state in
    let key_len = (node.key_len + 2 ^ 32 - depth) % 2 ^ 32 in
    let stream_len = (stream_size s + 2 ^ 32 - depth) % 2 ^ 32 in
    (if key_len == prefix_len
      then ok st
      else add_child_at c.new_node (node.key (depth + prefix_len)) leaf_ptr st)
    >>= (λ st1.
        if stream_len == prefix_len
        then ok st1
        else add_child_at c.new_node (s.data_bytes (depth + prefix_len)) (next_node st1)
            (push_node (make_leaf s) st1))
    >>= λ st2. replace c.link c.new_node st2

-- How far the key of the leaf and the stream agree, from the start of both.
unfoldable pub leaf_match : Node ℕ → Stream → ℕ → ℕ
leaf_match node s depth =
    depth
    + matching (from node.key depth) (from s.data_bytes depth)
        (smaller node.key_len (stream_size s) - depth)

-- do_leaf. `stream_size <= 0` compares the function, not its result, and is never true.
unfoldable pub do_leaf : Link → ℕ → Stream → ℕ → ArtState → ArtRun
unfolding store_node push_node
do_leaf link p s depth st = load_node p st >>= λ node. assert (is_leaf node) >>= λ _.
    let match = leaf_match node s depth in
    let whole = match == stream_size s && match == node.key_len in
    if whole && memcmp_zero (from node.key depth) (from s.data_bytes depth) match
    then ok (store_node p (record node { count = (node.count + 1) % 2 ^ 64 }) st)
    else (let prefix_len = match - depth in
        chain_nodes prefix_len s depth 0 (record {
          link = link;
          new_node = next_node st;
          prefix_remaining = prefix_len;
          state = push_node (alloc_node inner_4) st;
        })
        >>= end_leaf node p s depth prefix_len)

-- The branch of insert for a prefix that differs.
unfoldable pub split_prefix : Link → ℕ → Node ℕ → Stream → ℕ → ℕ → ArtState → ArtRun
unfolding load_node store_node push_node replace add_child_at
split_prefix link p node s depth match_len st =
    let new_node = next_node st in
    let st1 = push_node (make_leaf s) (push_node (alloc_node inner_4) st) in
    add_child_at new_node (stream_get s (depth + match_len)) (new_node + 1) st1 >>= λ st2.
    add_child_at new_node (node.prefix match_len) p st2 >>= λ st3.
    assert (leb match_len prefix_size) >>= λ _. load_node new_node st3 >>= λ n.
    let n' = record (copy_prefix n node.prefix match_len) { prefix_len = match_len } in
    let left = (node.prefix_len + 2 ^ 32 - (match_len + 1)) % 2 ^ 32 in
    let old = record (copy_prefix node (from node.prefix (match_len + 1)) left) {
      prefix_len = left;
    } in
    replace link new_node (store_node p old (store_node new_node n' st3))

-- node = grow(_node, node): the new node, where the link points after it.
unfoldable pub grow_at : Link → ℕ → Node ℕ → ArtState → Run (ℕ × ArtState)
unfolding push_node replace
grow_at link p node st = grow node >>= λ bigger.
    replace link (next_node st) (push_node bigger st) >>= λ st'. ok (next_node st, st')

-- The branch of insert that adds a leaf to an inner node.
unfoldable pub add_leaf : Link → ℕ → Node ℕ → Stream → ℕ → ArtState → ArtRun
unfolding push_node grow_at add_child_at
add_leaf link p node s depth st = is_full node >>= λ full.
    let target : Run (ℕ × ArtState) = if full then grow_at link p node st else ok (p, st) in
    target >>= λ r.
    add_child_at r.0 (stream_get s depth) (next_node r.1) (push_node (make_leaf s) r.1)

-- How one round of the loop of insert ends: with the result, or further down.
pub data Round : Type 0 where
  done : ArtState → Round
  down : Link → ℕ → Stream → ℕ → Round

unfoldable pub follow : Link → ℕ → Node ℕ → Stream → ℕ → Option ℕ → ArtState → Run Round
unfolding add_leaf
follow link p node s depth none st = add_leaf link p node s depth st >>= λ st'. ok (done st')
follow link p node s depth (some i) st = elim (node.arr i) [
  | none ↦ add_leaf link p node s depth st >>= λ st'. ok (done st')
  | some q ↦ ok (down (at_slot p i) q (stream_advance s 1) (depth + 1))
]

-- One round of the loop.
unfoldable pub insert_round : Link → ℕ → Stream → ℕ → ArtState → Run Round
unfolding store_node
insert_round link p s depth st = load_node p st >>= λ node.
    if is_leaf node
    then do_leaf link p s depth st >>= (λ st'. ok (done st'))
    else (let match_len = check_prefix node s depth in
        if not (match_len == node.prefix_len)
        then split_prefix link p node s depth match_len st >>= (λ st'. ok (done st'))
        else (let depth' = depth + node.prefix_len in
            if leb (stream_size s) depth'
            then ok (done (store_node p (record node { count = (node.count + 1) % 2 ^ 64 }) st))
            else find_child node (stream_get s depth') >>= λ i. follow link p node s depth' i st))

-- The loop, where it ends within the fuel.
unfoldable pub insert_loop : ℕ → Link → ℕ → Stream → ℕ → ArtState → Run (Option ArtState)
insert_loop zero link p s depth st = ok none
insert_loop (suc fuel) link p s depth st = insert_round link p s depth st >>= λ r. elim r [
  | done st' ↦ ok (some st')
  | down link' q s' depth' ↦ insert_loop fuel link' q s' depth' st
]

-- insert at the root. Each round but the last takes a byte of the stream.
unfoldable pub insert : Stream → ArtState → Run (Option ArtState)
unfolding push_node insert_loop
insert s st = elim st.root [
  | none ↦ ok (some (record (push_node (make_leaf s) st) { root = some (next_node st) }))
  | some p ↦ insert_loop (stream_size s + 1) at_root p s 0 st
]
