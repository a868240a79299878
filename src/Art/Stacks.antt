-- ===== src/Art/Stacks.antt =====
-- The tree of src/lib/art/art.c as a table of counted stacks: the paths that insert and search take
-- from the root, what a tree of stacks of one size is, and the count that a stack has in it.
pub mod Paths
pub mod Matching
pub mod Searching
pub mod Keeping
pub mod Hit
pub mod Extend
pub mod Forking
pub mod Rounds
pub mod Inserting
pub mod First
pub mod Counting
pub mod Few
pub mod Overrun
pub mod Entries
pub mod MainLoop
use callstack_count.Prelude.{
  ℕ, suc, ◌+◌, ◌≤◌, ◌<◌, ◌≡◌, ◌≢◌, ◌⊎◌, Bool, Option, none, some, length, get_elem?, Run, ok, fault,
}
use callstack_count.Art.{Stream, Node, leaf, inner_4, find_key}
use callstack_count.Art.Insert.{ArtState, Link, at_root, at_slot}
use callstack_count.Art.Insert.Search.{search}

-- From the inner node `p` at depth `d`, the bytes `t` lead through the slot `i` to `q` at depth `e`.
pub record Arc (st : ArtState) (t : ℕ → ℕ) (p d i q e : ℕ) : Type 0 where
  pub node : Node ℕ
  pub here : get_elem? st.heap p ≡ some node
  pub inner : node.flags ≡ inner_4
  pub same : (j : ℕ) → j < node.prefix_len → node.prefix j ≡ t (d + j)
  pub slot : find_key node.key (t (d + node.prefix_len)) 0 node.key_len ≡ some i
  pub child : node.arr i ≡ some q
  pub deeper : e ≡ d + node.prefix_len + 1

-- The bytes `t` lead from the root through a link to a node, at a depth.
pub data Reach (st : ArtState) (t : ℕ → ℕ) : Link → ℕ → ℕ → Type 0 where
  top : {p d : ℕ} → st.root ≡ some p → d ≡ 0 → Reach st t at_root p d
  step :
      {l : Link} {p d i q e : ℕ}
      → Reach st t l p d
      → Arc st t p d i q e
      → Reach st t (at_slot p i) q e

-- The bytes `t` lead to a leaf that has them as its key, all `n` of them.
pub record Holds (n : ℕ) (st : ArtState) (t : ℕ → ℕ) (p c : ℕ) : Type 0 where
  pub link : Link
  pub depth : ℕ
  pub path : Reach st t link p depth
  pub node : Node ℕ
  pub here : get_elem? st.heap p ≡ some node
  pub kind : node.flags ≡ leaf
  pub size : node.key_len ≡ n
  pub key : (j : ℕ) → j < n → node.key j ≡ t j
  pub counted : node.count ≡ c

-- A tree of stacks of `n` bytes whose inner nodes have at most four children, where `lev` is the
-- depth of each node: every leaf is where its key leads, a node's slots in use are not NULL, and a
-- node is pointed to from one place.
pub record IsLevelled (n : ℕ) (lev : ℕ → ℕ) (st : ArtState) : Type 0 where
  pub kinds :
      (p : ℕ) (m : Node ℕ) → get_elem? st.heap p ≡ some m → (m.flags ≡ leaf) ⊎ (m.flags ≡ inner_4)
  pub sizes : (p : ℕ) (m : Node ℕ) → get_elem? st.heap p ≡ some m → m.flags ≡ leaf → m.key_len ≡ n
  pub leaves :
      (p : ℕ) (m : Node ℕ)
      → get_elem? st.heap p ≡ some m
      → m.flags ≡ leaf
      → (l : Link) × Reach st m.key l p (lev p)
  pub fits :
      (p : ℕ) (m : Node ℕ)
      → get_elem? st.heap p ≡ some m
      → m.flags ≡ inner_4
      → lev p + m.prefix_len < n
  pub used :
      (p : ℕ) (m : Node ℕ) (i : ℕ)
      → get_elem? st.heap p ≡ some m
      → m.flags ≡ inner_4
      → i < m.key_len
      → (q : ℕ) × (m.arr i ≡ some q)
  pub levels :
      (p : ℕ) (m : Node ℕ) (i q : ℕ)
      → get_elem? st.heap p ≡ some m
      → m.flags ≡ inner_4
      → m.arr i ≡ some q
      → (q < length st.heap) × (lev q ≡ lev p + m.prefix_len + 1)
  pub own :
      (p p' : ℕ) (m m' : Node ℕ) (i i' q : ℕ)
      → get_elem? st.heap p ≡ some m
      → m.flags ≡ inner_4
      → m.arr i ≡ some q
      → get_elem? st.heap p' ≡ some m'
      → m'.flags ≡ inner_4
      → m'.arr i' ≡ some q
      → (p ≡ p') × (i ≡ i')
  pub roots : (r : ℕ) → st.root ≡ some r → (r < length st.heap) × (lev r ≡ 0)

abbrev pub IsTree : ℕ → ArtState → Type 0
IsTree n st = (lev : ℕ → ℕ) × IsLevelled n lev st

-- No inner node has all of its four slots in use.
abbrev pub HasRoom : ArtState → Type 0
HasRoom st = (p : ℕ) (m : Node ℕ) → get_elem? st.heap p ≡ some m → m.flags ≡ inner_4 → m.key_len < 4

-- A stream of `n` bytes.
abbrev pub stream_of : (ℕ → ℕ) → ℕ → ℕ → Stream
stream_of f n o = record { data_bytes = f; size = n; pos = o }

-- The count of the node that a search returned.
unfoldable pub found_count : ArtState → Run (Option (Option ℕ)) → Option ℕ
found_count st (fault x) = none
found_count st (ok none) = none
found_count st (ok (some none)) = none
found_count st (ok (some (some p))) = elim (get_elem? st.heap p) [
  | none ↦ none
  | some m ↦ some m.count
]

-- The count of a stack in the tree, where it has one.
unfoldable pub count_of : ℕ → (ℕ → ℕ) → ArtState → Option ℕ
unfolding found_count
count_of n t st = found_count st (search (n + 1) st.root (stream_of t n 0) 0 st)
