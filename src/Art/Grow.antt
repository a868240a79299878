-- ===== src/Art/Grow.antt =====
-- grow of src/lib/art/art.c: the larger node has the children of the full one.
use callstack_count.Prelude.{
  ℕ, zero, suc, ◌+◌, ◌%◌, ◌^◌, ◌≤◌, ◌<◌, ◌≡◌, ◌≢◌, refl, ◌∙◌, inl, inr, ◌⊎◌, true, false, Option,
  none, some, arith, ◌==◌, if◌then◌else◌, Bool-cases, Option-cases, ok, ◌>>=◌,
}
use callstack_count.Art.{
  NodeFlags, leaf, inner_4, inner_16, inner_48, inner_256, Node, empty_key, update, copied,
  find_key, is_full, is_leaf, is_leaf_flags, node_size, index_keys, arr_of_48, alloc_node, grown,
  grow,
}
use callstack_count.Art.Children.{slot, child_at, IsIndexed, of_kind, AreDistinct, find_key-hit}

abbrev or_empty : Option ℕ → ℕ → ℕ
or_empty none d = d
or_empty (some j) d = j

-- Where the keys are distinct, the loop finds what find_key finds.
index_keys-find_key :
    (keys : ℕ → ℕ) (n i left : ℕ) (acc : ℕ → ℕ) (k : ℕ)
    → AreDistinct keys n
    → i + left ≡ n
    → n ≤ 16
    → index_keys keys i left acc k ≡ or_empty (find_key keys k i left) (acc k)
unfolding index_keys find_key
index_keys-find_key keys n i zero acc k d e h = refl
index_keys-find_key keys n i (suc left) acc k d e h =
    let ih =
      index_keys-find_key keys n (i + 1) left (update acc (keys i) (i % 2 ^ 8)) k d
        (omega (arith, e)) h in
    let exact : i % 2 ^ 8 ≡ i = omega (arith, e, h) in
    elim (Option-cases (find_key keys k (i + 1) left)) [
      | inl gone ↦ elim (Bool-cases (keys i == k)) [
        | inl here ↦ rw (index_keys, find_key, here) (ih ∙ rw (gone, here) exact)
        | inr away ↦ rw (index_keys, find_key, away) (ih ∙ rw gone (ground (arith, away)))
      ]
      | inr (j, found) ↦
          let (hit, lo, hi) = find_key-hit keys k (i + 1) left j found in
          let away : (keys i == k) ≡ false =
            ground (arith, d i j (omega (arith, e)) (omega (arith, e, hi)), hit, lo) in
          rw (index_keys, find_key, away) (ih ∙ rw found)
    ]

grown_index :
    (keys : ℕ → ℕ) (k : ℕ)
    → AreDistinct keys 16
    → (index_keys keys 0 16 (λ i. empty_key) k ≡ empty_key)
      ⊎ (index_keys keys 0 16 (λ i. empty_key) k < 16)
grown_index keys k d =
    let e = index_keys-find_key keys 16 0 16 (λ i. empty_key) k d refl (omega arith) in
    elim (Option-cases (find_key keys k 0 16)) [
      | inl gone ↦ inl (rw (e, gone))
      | inr (j, found) ↦ inr (rw (e, found) ((find_key-hit keys k 0 16 j found).2))
    ]

find_key-copied : (keys : ℕ → ℕ) (k : ℕ) → find_key (copied 4 keys 0) k 0 4 ≡ find_key keys k 0 4
unfolding find_key
find_key-copied keys k = refl

module _ {C : Type 0} where
  slot-copied :
      (arr : ℕ → Option C) (n : ℕ) (o : Option ℕ)
      → ((j : ℕ) → o ≡ some j → j < n)
      → slot (copied n arr none) o ≡ slot arr o
  slot-copied arr n none h = refl
  slot-copied arr n (some j) h = let small = h j refl in ground (arith, small)

  grown_slot :
      (arr : ℕ → Option C) (keys : ℕ → ℕ) (k : ℕ)
      → AreDistinct keys 16
      → (if index_keys keys 0 16 (λ i. empty_key) k == empty_key
          then none
          else copied 16 arr none (index_keys keys 0 16 (λ i. empty_key) k))
        ≡ slot arr (find_key keys k 0 16)
  grown_slot arr keys k d =
      let e = index_keys-find_key keys 16 0 16 (λ i. empty_key) k d refl (omega arith) in
      elim (Option-cases (find_key keys k 0 16)) [
        | inl gone ↦ rw (e, gone)
        | inr (j, found) ↦
            let small = (find_key-hit keys k 0 16 j found).2 in
            rw (e, found) (ground (arith, small))
      ]

  grown-child_at :
      (kind : NodeFlags) (node : Node C)
      → IsIndexed (of_kind kind node)
      → is_full (of_kind kind node) ≡ ok true
      → kind ≢ leaf
      → kind ≢ inner_256
      → (node' : Node C) × (grown (of_kind kind node) ≡ ok node')
        × IsIndexed node'
        × ((k : ℕ) → k < 256 → child_at node' k ≡ child_at (of_kind kind node) k)
        × (node'.prefix_len ≡ 0)
        × (node'.count ≡ 0)
  unfolding grown alloc_node IsIndexed child_at is_full is_leaf is_leaf_flags node_size arr_of_48
  grown-child_at leaf node v full inner room = absurd (inner refl)
  grown-child_at inner_256 node v full inner room = absurd (room refl)
  grown-child_at inner_4 node v full inner room =
      let len : node.key_len ≡ 4 = let same : (node.key_len == 4) ≡ true = cc in ground arith in
      let d = rw len at v in
      (
        _,
        refl,
        λ a b ha hb e. d a b ha hb (ground (arith, e, ha, hb)),
        λ k h.
            rw (len, find_key-copied)
              (slot-copied node.arr 4 _ (λ j e. (find_key-hit node.key k 0 4 j e).2)),
        refl,
        refl,
      )
  grown-child_at inner_16 node v full inner room =
      let len : node.key_len ≡ 16 = let same : (node.key_len == 16) ≡ true = cc in ground arith in
      let d = rw len at v in
      (
        _,
        refl,
        (omega arith, λ k. grown_index node.key k d),
        λ k h. rw len (grown_slot node.arr node.key k d),
        refl,
        refl,
      )
  grown-child_at inner_48 node v full inner room =
      (_, refl, tt, λ k h. ground (arith, h), refl, refl)

  -- A well-formed full inner node with at most 48 slots grows: the new node is well-formed and finds the same child under every
  -- byte. But its prefix is empty and its count is 0, whatever those of the old node were.
  pub grow-child_at :
      (node : Node C)
      → IsIndexed node
      → is_full node ≡ ok true
      → node.flags ≢ leaf
      → node.flags ≢ inner_256
      → (node' : Node C) × (grow node ≡ ok node')
        × IsIndexed node'
        × ((k : ℕ) → k < 256 → child_at node' k ≡ child_at node k)
        × (node'.prefix_len ≡ 0)
        × (node'.count ≡ 0)
  unfolding grow
  grow-child_at node v full inner room =
      let (node', run, v', same, p, c) = grown-child_at node.flags node v full inner room in
      (node', rw (grow, full, ◌>>=◌) run, v', same, p, c)
