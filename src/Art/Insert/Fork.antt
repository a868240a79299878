-- ===== src/Art/Insert/Fork.antt =====
-- do_leaf of src/lib/art/art.c at the leaf of another stream, where the common prefix of the two fits
-- in one node: the new inner node.
use callstack_count.Prelude.{
  ℕ, zero, suc, ◌+◌, ◌-◌, ◌^◌, ◌≤◌, ◌<◌, ◌≡◌, ◌≢◌, refl, ap, inl, inr, true, false, ◌&&◌, some,
  List, ◌∷◌, arith, ◌==◌, ltb, if◌then◌else◌, Bool-cases, ok, ◌>>=◌,
}
use callstack_count.Art.{
  Stream, Node, inner_4, alloc_node, is_leaf, is_leaf_flags, is_full, node_size, is_new_key,
  is_none, find_key, put_child, add_child, make_leaf, matching, smaller, check_prefix, stream_get,
  stream_size, update,
}
use callstack_count.Art.Prefix.{IsCommon, matching-IsCommon, check_prefix-IsCommon}
use callstack_count.Art.Insert.{
  ArtState, at_root, prefix_size, load_node, push_node, from, copy_prefix, Chain, chain_nodes,
  end_leaf, leaf_match, do_leaf, insert, insert_loop, insert_round,
}
use callstack_count.Art.Insert.Counts.{leaf_tree}

-- The bytes of two streams from the start, up to the shorter's end.
abbrev pub HaveCommon : Stream → Stream → ℕ → Type 0
HaveCommon s t m = IsCommon s.data_bytes t.data_bytes (smaller s.size t.size) m

-- The new inner node with the common prefix.
abbrev pub prefixed : Stream → ℕ → Node ℕ
prefixed t m =
    if m == 0
    then alloc_node inner_4
    else record (copy_prefix (alloc_node inner_4) (from t.data_bytes (0 + m - m)) m) {
      prefix_len = m;
    }

pub chain_nodes_short :
    (fuel : ℕ) (s : Stream) (depth j : ℕ) (c : Chain)
    → c.prefix_remaining ≤ prefix_size
    → chain_nodes fuel s depth j c ≡ ok c
unfolding chain_nodes
chain_nodes_short zero s depth j c h = refl
chain_nodes_short (suc fuel) s depth j c h =
    let short : ltb prefix_size c.prefix_remaining ≡ false = ground (arith, h) in
    rw (chain_nodes, short) refl

pub record IsPrefixed (n : Node ℕ) (t : Stream) (m : ℕ) : Type 0 where
  pub kind : n.flags ≡ inner_4
  pub fresh : n.key_len ≡ 0
  pub uncounted : n.count ≡ 0
  pub long : n.prefix_len ≡ m
  pub bytes : (i : ℕ) → i < m → n.prefix i ≡ t.data_bytes i

pub prefixed-IsPrefixed : (t : Stream) (m : ℕ) → IsPrefixed (prefixed t m) t m
unfolding alloc_node
prefixed-IsPrefixed t m = elim (Bool-cases (m == 0)) [
  | inl e ↦
      let z : 0 ≡ m = ground (arith, e) in
      rw e (record {
        kind = refl;
        fresh = refl;
        uncounted = refl;
        long = z;
        bytes = λ i h. absurd (omega (arith, h, z));
      })
  | inr e ↦ rw e (record {
    kind = refl;
    fresh = refl;
    uncounted = refl;
    long = refl;
    bytes = λ i h.
        let low : ltb i m ≡ true = ground (arith, h) in
        let same : 0 + m - m + i ≡ i = omega arith in rw (low, same) refl;
  })
]

-- Adding the first and the second child.
pub first_child :
    (n : Node ℕ) (k child : ℕ)
    → n.flags ≡ inner_4
    → n.key_len ≡ 0
    → add_child n k child
      ≡ ok (record n { key = update n.key 0 k; arr = update n.arr 0 (some child); key_len = 1 })
unfolding add_child is_full is_leaf is_leaf_flags node_size is_new_key find_key is_none put_child
first_child n k child e f = rw (e, f) refl

pub second_child :
    (n : Node ℕ) (k child : ℕ)
    → n.flags ≡ inner_4
    → n.key_len ≡ 1
    → n.key 0 ≢ k
    → add_child n k child
      ≡ ok (record n { key = update n.key 1 k; arr = update n.arr 1 (some child); key_len = 2 })
unfolding add_child is_full is_leaf is_leaf_flags node_size is_new_key find_key is_none put_child
second_child n k child e f other =
    let apart : (n.key 0 == k) ≡ false = ground (arith, other) in rw (e, f, apart) refl

-- There is only one length of the longest common prefix.
IsCommon-unique : (f g : ℕ → ℕ) (n m k : ℕ) → IsCommon f g n m → IsCommon f g n k → m ≡ k
IsCommon-unique f g n m k a b = elim (Bool-cases (ltb m k)) [
  | inl less ↦
      let h : m < k = ground (arith, less) in
      absurd (a.longest (omega (arith, h, b.bounded)) (b.equal m h))
  | inr le ↦ elim (Bool-cases (ltb k m)) [
    | inl less ↦
        let h : k < m = ground (arith, less) in
        absurd (b.longest (omega (arith, h, a.bounded)) (a.equal k h))
    | inr ge ↦ ground (arith, le, ge)
  ]
]

pub leaf_match-HaveCommon :
    (s t : Stream) (c m : ℕ)
    → HaveCommon s t m
    → leaf_match (record (make_leaf s) { count = c }) t 0 ≡ m
unfolding leaf_match make_leaf alloc_node stream_size
leaf_match-HaveCommon s t c m h =
    let n = smaller s.size t.size in
    let k = matching (from s.data_bytes 0) (from t.data_bytes 0) n in
    let common = matching-IsCommon (from s.data_bytes 0) (from t.data_bytes 0) n in
    let from_start : IsCommon s.data_bytes t.data_bytes n k = record {
      bounded = common.bounded;
      equal = λ i l. let z : 0 + i ≡ i = omega arith in rw z at (common.equal i l);
      longest = λ l. let z : 0 + k ≡ k = omega arith in rw z at (common.longest l);
    } in
    let same : n - 0 ≡ n = omega arith in
    let whole : 0 + k ≡ k = omega arith in
    rw (same, whole) (IsCommon-unique s.data_bytes t.data_bytes n k m from_start h)

-- insert into a leaf is do_leaf.
pub insert-leaf_tree :
    (s t : Stream) (c : ℕ) (st : ArtState)
    → do_leaf at_root 0 t 0 (leaf_tree s c) ≡ ok st
    → insert t (leaf_tree s c) ≡ ok (some st)
unfolding insert insert_loop insert_round load_node is_leaf is_leaf_flags make_leaf alloc_node
    stream_size
insert-leaf_tree s t c st e =
    let next : t.size + 1 ≡ suc t.size = omega arith in rw (next, insert_loop, e)

-- do_leaf where the two streams differ: the new node, and what end_leaf does with it.
pub do_leaf-end_leaf :
    (s t : Stream) (c m : ℕ)
    → HaveCommon s t m
    → (m == t.size && m == s.size) ≡ false
    → m ≤ prefix_size
    → do_leaf at_root 0 t 0 (leaf_tree s c)
      ≡ end_leaf
          (record (make_leaf s) { count = c })
          0
          t
          0
          m
          (record {
            link = at_root;
            new_node = 1;
            prefix_remaining = m;
            state = push_node (alloc_node inner_4) (leaf_tree s c);
          })
unfolding do_leaf load_node is_leaf is_leaf_flags make_leaf alloc_node stream_size
do_leaf-end_leaf s t c m h differ short =
    let far = leaf_match-HaveCommon s t c m h in
    let len : m - 0 ≡ m = omega arith in
    let chain : Chain = record {
      link = at_root;
      new_node = 1;
      prefix_remaining = m;
      state = push_node (alloc_node inner_4) (leaf_tree s c);
    } in
    rw (far, differ, len)
      (ap (λ r. r >>= end_leaf (record (make_leaf s) { count = c }) 0 t 0 m)
        (chain_nodes_short m t 0 0 chain short))

-- A heap whose root is the new inner node, behind the leaf.
abbrev pub two_heap : Stream → ℕ → Node ℕ → List (Node ℕ) → ArtState
two_heap s c n rest = record { heap = record (make_leaf s) { count = c } ∷ n ∷ rest; root = some 1 }

-- A prefix that the stream has is found.
pub check_prefix_all :
    (n : Node ℕ) (s : Stream) (m : ℕ)
    → n.prefix_len ≡ m
    → ((i : ℕ) → i < m → n.prefix i ≡ s.data_bytes i)
    → m ≤ s.size
    → s.size < 2 ^ 32
    → check_prefix n s 0 ≡ m
unfolding stream_get
check_prefix_all n s m len same fits small =
    let c = check_prefix-IsCommon n s 0 (omega arith) small in
    let k = check_prefix n s 0 in
    let span : smaller n.prefix_len (s.size - 0) ≡ m = ground (arith, len, fits) in
    elim (Bool-cases (ltb k m)) [
      | inr ge ↦ ground (arith, ge, span, c.bounded)
      | inl less ↦
          let h : k < m = ground (arith, less) in
          let z : 0 + k ≡ k = omega arith in
          absurd (c.longest (omega (arith, h, span)) (rw z (same k h)))
    ]
