-- ===== src/Art/Stacks/Overrun.antt =====
-- The comparison at the end of the match in do_leaf of src/lib/art/art.c: it starts at the depth and is
-- as long as the whole stack, so it reads as many bytes behind both stacks as the depth says.
use callstack_count.Prelude.{
  ℕ, ◌+◌, ◌-◌, ◌%◌, ◌^◌, ◌≤◌, ◌<◌, ◌≡◌, refl, ap, ◌∙◌, true, false, some, [], ◌∷◌, ◌++◌, length,
  get_elem?, set, get_elem?-append_left, get_elem?-append_last, get_elem?-set, set-append_last,
  get_elem?-bound, length-append, arith, ◌==◌, ltb, inl, inr, Bool-cases, ok, ◌>>=◌,
}
use callstack_count.Art.{
  Node, leaf, inner_4, alloc_node, is_leaf, is_leaf_flags, matching, memcmp_zero, smaller,
  stream_size, update,
}
use callstack_count.Art.Prefix.{matching-IsCommon}
use callstack_count.Art.Insert.{
  ArtState, at_slot, prefix_size, copy_prefix, load_node, store_node, push_node, replace, do_leaf,
  end_leaf, leaf_match, Chain, from,
}
use callstack_count.Art.Insert.Fork.{chain_nodes_short}
use callstack_count.Art.Stacks.{stream_of}

-- All of two equal functions match.
matching_all : (f g : ℕ → ℕ) (n : ℕ) → ((j : ℕ) → j < n → f j ≡ g j) → matching f g n ≡ n
matching_all f g n same =
    let c = matching-IsCommon f g n in
    elim (Bool-cases (ltb (matching f g n) n)) [
      | inl less ↦
          let h : matching f g n < n = ground (arith, less) in
          absurd (c.longest h (same (matching f g n) h))
      | inr whole ↦ ground (arith, whole, c.bounded)
    ]

module _ (n : ℕ) (st : ArtState) (f : ℕ → ℕ) (q i p d o : ℕ) (m a : Node ℕ)
    (here : get_elem? st.heap p ≡ some m) (lf : m.flags ≡ leaf) (len : m.key_len ≡ n)
    (holder : get_elem? st.heap q ≡ some a) (deep : d < n) (room : n ≤ prefix_size)
    (same : (j : ℕ) → j < n → m.key j ≡ f j)
    (behind : memcmp_zero (from m.key d) (from f d) n ≡ false) where
  abbrev new : ℕ
  new = length st.heap

  abbrev with_node : Node ℕ → ArtState
  with_node x = record { heap = st.heap ++ x ∷ []; root = st.root }

  abbrev childless : Node ℕ
  childless = record (copy_prefix (alloc_node inner_4) (from f (d + (n - d) - (n - d))) (n - d)) {
    prefix_len = n - d;
  }

  far : leaf_match m (stream_of f n o) d ≡ n
  unfolding leaf_match stream_size
  far =
      let least : smaller m.key_len n - d ≡ n - d = ground (arith, len) in
      let all =
        matching_all (from m.key d) (from f d) (n - d) (λ j h. same (d + j) (omega (arith, h))) in
      rw (least, all) (omega (arith, deep))

  load_new : (x : Node ℕ) → load_node new (with_node x) ≡ ok x
  unfolding load_node
  load_new x = rw (load_node, get_elem?-append_last st.heap x) refl

  abbrev start : Chain
  start = record {
    link = at_slot q i;
    new_node = new;
    prefix_remaining = n - d;
    state = with_node (alloc_node inner_4);
  }

  end_leaf-childless :
      end_leaf m p (stream_of f n o) d (n - d) start
      ≡ replace (at_slot q i) new (with_node childless)
  unfolding end_leaf store_node stream_size
  end_leaf-childless =
      let left : (n - d == 0) ≡ false = ground (arith, deep) in
      let key_len : ((m.key_len + 2 ^ 32 - d) % 2 ^ 32 == n - d) ≡ true =
        ground (arith, len, deep, room) in
      let stream_len : ((n + 2 ^ 32 - d) % 2 ^ 32 == n - d) ≡ true = ground (arith, deep, room) in
      rw (end_leaf, load_new (alloc_node inner_4), ◌>>=◌, key_len, stream_len, left)
        (ap (λ h. replace (at_slot q i) new (record { heap = h; root = st.root }))
          (set-append_last st.heap (alloc_node inner_4) childless))

  abbrev relinked_holder : Node ℕ
  relinked_holder = record a { arr = update a.arr i (some new) }

  abbrev after : ArtState
  after = record { heap = set (with_node childless).heap q relinked_holder; root = st.root }

  q_bound : q < length st.heap
  q_bound = get_elem?-bound st.heap q a holder

  replaced : replace (at_slot q i) new (with_node childless) ≡ ok after
  unfolding replace load_node store_node
  replaced =
      let there : get_elem? (st.heap ++ childless ∷ []) q ≡ some a =
        get_elem?-append_left st.heap childless q q_bound ∙ holder in
      rw (replace, load_node, there) refl

  leafy : is_leaf m ≡ true
  unfolding is_leaf is_leaf_flags
  leafy = rw lf refl

  do_leaf-childless : do_leaf (at_slot q i) p (stream_of f n o) d st ≡ ok after
  unfolding do_leaf push_node load_node stream_size
  do_leaf-childless =
      let short = chain_nodes_short (n - d) (stream_of f n o) d 0 start (omega (arith, room)) in
      let one : (n == n) ≡ true = ground arith in
      let two : (n == m.key_len) ≡ true = ground (arith, len) in
      rw (do_leaf, load_node, here, ◌>>=◌, leafy, far, one, two, behind)
        (ap (λ z. z >>= end_leaf m p (stream_of f n o) d (n - d)) short
          ∙ end_leaf-childless
          ∙ replaced)

  -- At a leaf that has the very bytes of the stack, at most 128 and more than its depth, do_leaf does
  -- not count the stack where the comparison of as many bytes from the depth on fails: it puts an inner
  -- node without children and with count 0 in the slot where the leaf was.
  pub do_leaf_overrun :
      (st' : ArtState) × (b : Node ℕ) × (c : Node ℕ) × (do_leaf
          (at_slot q i)
          p
          (stream_of f n o)
          d
          st
        ≡ ok st')
      × (get_elem? st'.heap q ≡ some b)
      × (b.arr i ≡ some new)
      × (get_elem? st'.heap new ≡ some c)
      × (c.flags ≡ inner_4)
      × (c.key_len ≡ 0)
      × (c.count ≡ 0)
  unfolding alloc_node
  do_leaf_overrun =
      let size : length (with_node childless).heap ≡ new + 1 =
        length-append st.heap (childless ∷ []) in
      let get = λ (x : ℕ).
        get_elem?-set (with_node childless).heap q x relinked_holder
          (omega (arith, q_bound, size)) in
      let at : (q == q) ≡ true = ground arith in
      let other : (q == new) ≡ false = ground (arith, q_bound) in
      let slot : (i == i) ≡ true = ground arith in
      (
        after,
        relinked_holder,
        childless,
        do_leaf-childless,
        get q ∙ rw at refl,
        rw slot refl,
        get new ∙ rw other (get_elem?-append_last st.heap childless),
        refl,
        refl,
        refl,
      )
