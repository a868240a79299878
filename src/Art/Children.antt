-- ===== src/Art/Children.antt =====
-- find_child and add_child of src/lib/art/art.c: the slots of a node as a map from bytes to children.
use callstack_count.Prelude.{
  ℕ, zero, suc, ◌+◌, ◌%◌, ◌^◌, ◌≤◌, ◌<◌, ◌≡◌, ◌≢◌, refl, sym, ◌∙◌, inl, inr, ◌⊎◌, true, false,
  Option, none, some, arith, ◌==◌, if◌then◌else◌, Bool-cases, Option-cases, ok, ◌>>=◌,
}
use callstack_count.Art.{
  NodeFlags, leaf, inner_4, inner_16, inner_48, inner_256, Node, empty_key, update, find_key,
  is_none, is_new_key, put_child, is_full, is_leaf, is_leaf_flags, node_size, add_child,
}

pub find_key-update :
    (keys : ℕ → ℕ) (k k' i left m : ℕ)
    → m ≡ i + left
    → find_key (update keys m k) k' i (left + 1) ≡ (elim (find_key keys k' i left) [
      | none ↦ if k == k' then some m else none
      | some j ↦ some j
    ])
unfolding find_key
find_key-update keys k k' i zero m e = let same : m ≡ i = omega (arith, e) in rw same (ground arith)
find_key-update keys k k' i (suc left) m e =
    let next : suc left + 1 ≡ suc (left + 1) = omega arith in
    let ih = find_key-update keys k k' (i + 1) left m (omega (arith, e)) in
    let other : (m == i) ≡ false = ground (arith, e) in
    rw (next, find_key, other)
      (elim (Bool-cases (keys i == k')) [ inl here ↦ rw here | inr away ↦ rw away ih ])

-- The first `n` keys are distinct.
abbrev pub AreDistinct : (ℕ → ℕ) → ℕ → Type 0
AreDistinct keys n = (a b : ℕ) → a < n → b < n → keys a ≡ keys b → a ≡ b

pub find_key-none :
    (keys : ℕ → ℕ) (k i left : ℕ)
    → find_key keys k i left ≡ none
    → (a : ℕ) → i ≤ a
    → a < i + left
    → keys a ≢ k
unfolding find_key
find_key-none keys k i zero h a lo hi e = omega (arith, lo, hi)
find_key-none keys k i (suc left) h a lo hi e = elim (Bool-cases (keys i == k)) [
  | inl here ↦
      absurd (let clash : ◌≡◌ {A = Option ℕ} (some i) none = rw (find_key, here) at h in cc)
  | inr away ↦
      let rest = find_key-none keys k (i + 1) left (rw (find_key, away) at h) a in
      elim (Bool-cases (a == i)) [
        | inl same ↦
            let at : a ≡ i = ground (arith, same) in
            let hit : (keys a == k) ≡ true = ground (arith, e) in
            absurd (let clash : true ≡ false = sym hit ∙ (rw (← at) at away) in cc)
        | inr past ↦ rest (ground (arith, past, lo)) (omega (arith, hi)) e
      ]
]

pub find_key-hit :
    (keys : ℕ → ℕ) (k i left j : ℕ)
    → find_key keys k i left ≡ some j
    → (keys j ≡ k) × (i ≤ j) × (j < i + left)
unfolding find_key
find_key-hit keys k i zero j h = cc
find_key-hit keys k i (suc left) j h = elim (Bool-cases (keys i == k)) [
  | inl here ↦
      let first : ◌≡◌ {A = Option ℕ} (some i) (some j) = rw (find_key, here) at h in
      let same : i ≡ j = cc in rw (← same) (ground (arith, here), omega arith, omega arith)
  | inr away ↦
      let (e, lo, hi) = find_key-hit keys k (i + 1) left j (rw (find_key, away) at h) in
      (e, omega (arith, lo), omega (arith, hi))
]

AreDistinct-update :
    (keys : ℕ → ℕ) (k n : ℕ)
    → AreDistinct keys n
    → find_key keys k 0 n ≡ none
    → AreDistinct (update keys n k) (n + 1)
AreDistinct-update keys k n d h a b ha hb e = ground (
  arith,
  d a b,
  find_key-none keys k 0 n h a (omega arith),
  find_key-none keys k 0 n h b (omega arith),
)

is_none_iff : {A : Type 0} (o : Option A) → is_none o ≡ true → o ≡ none
unfolding is_none
is_none_iff none h = refl
is_none_iff (some a) h = cc

module _ {C : Type 0} where
  abbrev pub slot : (ℕ → Option C) → Option ℕ → Option C
  slot arr none = none
  slot arr (some i) = arr i

  -- A child behind the keys in use.
  slot-update :
      (arr : ℕ → Option C) (keys : ℕ → ℕ) (n k k' : ℕ) (child : C)
      → find_key keys k 0 n ≡ none
      → slot (update arr n (some child)) (find_key (update keys n k) k' 0 (n + 1))
        ≡ (if k == k' then some child else slot arr (find_key keys k' 0 n))
  slot-update arr keys n k k' child fresh =
      let e = find_key-update keys k k' 0 n n (omega arith) in
      elim (Option-cases (find_key keys k' 0 n)) [
        | inl gone ↦ elim (Bool-cases (k == k')) [
          | inl same ↦ rw (e, gone, same) (ground arith)
          | inr other ↦ rw (e, gone, other)
        ]
        | inr (j, here) ↦
            let bound = find_key-hit keys k' 0 n j here in
            let other : (k == k') ≡ false = ground (arith, fresh, here) in
            let below : (n == j) ≡ false = ground (arith, bound.2) in rw (e, here, other, below)
      ]

module _ {C : Type 0} where
  -- The child of a byte, as `insert` and `search` read it: the slot of find_child, if it is not NULL.
  unfoldable pub child_at : Node C → ℕ → Option C
  child_at node k = elim node.flags [
    | leaf ↦ none
    | inner_4 ↦ slot node.arr (find_key node.key k 0 node.key_len)
    | inner_16 ↦ slot node.arr (find_key node.key k 0 node.key_len)
    | inner_48 ↦ if node.key k == empty_key then none else node.arr (node.key k)
    | inner_256 ↦ node.arr k
  ]

  -- Of a node with 4 or 16 slots the keys in use are distinct. Of a node with 48 slots, a key is
  -- EMPTY or the index of a slot in use.
  unfoldable pub IsIndexed : Node C → Type 0
  IsIndexed node = elim node.flags [
    | inner_4 ↦ AreDistinct node.key node.key_len
    | inner_16 ↦ AreDistinct node.key node.key_len
    | inner_48 ↦
        (node.key_len ≤ 48) × ((k : ℕ) → (node.key k ≡ empty_key) ⊎ (node.key k < node.key_len))
    | _ ↦ Unit
  ]

  abbrev pub of_kind : NodeFlags → Node C → Node C
  of_kind kind node = record node { flags = kind }

  put_child-child_at :
      (kind : NodeFlags) (node : Node C) (k : ℕ) (child : C)
      → IsIndexed (of_kind kind node)
      → is_full (of_kind kind node) ≡ ok false
      → is_new_key (of_kind kind node) k ≡ true
      → (node' : Node C) × (put_child (of_kind kind node) k child ≡ ok node')
        × IsIndexed node'
        × ((k' : ℕ)
            → child_at node' k' ≡ (if k == k' then some child else child_at (of_kind kind node) k'))
  unfolding put_child child_at IsIndexed is_new_key is_full is_leaf is_leaf_flags node_size
  put_child-child_at leaf node k child v room fresh = absurd (cc)
  put_child-child_at inner_4 node k child v room fresh = (
    _,
    refl,
    AreDistinct-update node.key k node.key_len v (is_none_iff _ fresh),
    λ k'. slot-update node.arr node.key node.key_len k k' child (is_none_iff _ fresh),
  )
  put_child-child_at inner_16 node k child v room fresh = (
    _,
    refl,
    AreDistinct-update node.key k node.key_len v (is_none_iff _ fresh),
    λ k'. slot-update node.arr node.key node.key_len k k' child (is_none_iff _ fresh),
  )
  put_child-child_at inner_48 node k child v room fresh =
      let small : node.key_len < 48 =
        let more : (node.key_len == 48) ≡ false = cc in ground (arith, v.0) in
      let exact : node.key_len % 2 ^ 8 ≡ node.key_len = omega (arith, small) in
      (
        _,
        refl,
        (omega (arith, small), λ j. ground (arith, v.1 j, exact)),
        λ k'. ground (arith, v.1 k', small, exact),
      )
  put_child-child_at inner_256 node k child v room fresh = (_, refl, tt, λ k'. refl)

  -- Adding a child under a new byte to a well-formed node that is not full succeeds and keeps the node
  -- well-formed; afterwards the byte has
  -- that child, and every other byte the child that it had.
  pub add_child-child_at :
      (node : Node C) (k : ℕ) (child : C)
      → IsIndexed node
      → is_full node ≡ ok false
      → is_new_key node k ≡ true
      → (node' : Node C) × (add_child node k child ≡ ok node')
        × IsIndexed node'
        × ((k' : ℕ) → child_at node' k' ≡ (if k == k' then some child else child_at node k'))
  unfolding add_child
  add_child-child_at node k child v room fresh =
      let (node', put, v', at) = put_child-child_at node.flags node k child v room fresh in
      (node', rw (add_child, room, ◌>>=◌, fresh) put, v', at)
