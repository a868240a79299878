-- ===== src/Art/Stacks/Rounds.antt =====
-- One round of the loop of insert in src/lib/art/art.c, in a tree of stacks of one size.
use callstack_count.Prelude.{
  ℕ, ◌+◌, ◌%◌, ◌^◌, ◌<◌, ◌≡◌, refl, ◌∙◌, true, false, none, some, [], ◌∷◌, ◌++◌, length, get_elem?,
  set, get_elem?-append_left, get_elem?-bound, arith, ◌==◌, leb, ok, ◌>>=◌,
}
use callstack_count.Art.{
  Node, leaf, inner_4, find_key, find_child, make_leaf, add_child, put_child, is_new_key, is_none,
  is_full, node_size, stream_get, stream_size, stream_advance, is_leaf, is_leaf_flags, memcmp_zero,
  check_prefix,
}
use callstack_count.Art.Insert.{
  ArtState, Link, at_slot, load_node, store_node, push_node, add_child_at, add_leaf, do_leaf,
  split_prefix, leaf_match, from, done, down, follow, insert_round,
}
use callstack_count.Art.Stacks.{stream_of}
use callstack_count.Art.Stacks.Extend.{leaf_of, with_child}

module _ (n : ℕ) (st : ArtState) (f : ℕ → ℕ) (l : Link) (p d o : ℕ) (m : Node ℕ)
    (here : get_elem? st.heap p ≡ some m) where
  pub round_leaf :
      (st' : ArtState)
      → m.flags ≡ leaf
      → do_leaf l p (stream_of f n o) d st ≡ ok st'
      → insert_round l p (stream_of f n o) d st ≡ ok (done st')
  unfolding insert_round load_node is_leaf is_leaf_flags
  round_leaf st' k e = rw (insert_round, load_node, here, ◌>>=◌, e, k) refl

  -- The leaf of the stack itself is counted.
  pub do_leaf_again :
      m.flags ≡ leaf
      → leaf_match m (stream_of f n o) d ≡ n
      → m.key_len ≡ n
      → memcmp_zero (from m.key d) (from f d) n ≡ true
      → do_leaf l p (stream_of f n o) d st
        ≡ ok (record st { heap = set st.heap p (record m { count = (m.count + 1) % 2 ^ 64 }) })
  unfolding do_leaf load_node is_leaf is_leaf_flags stream_size store_node
  do_leaf_again k far len all =
      let whole : (n == n) ≡ true = ground arith in
      let whole' : (n == m.key_len) ≡ true = ground (arith, len) in
      let leafy : is_leaf m ≡ true = rw k refl in
      rw (do_leaf, load_node, here, ◌>>=◌, leafy, far, whole, whole', all) refl

  inner_not_leaf : m.flags ≡ inner_4 → is_leaf m ≡ false
  unfolding is_leaf is_leaf_flags
  inner_not_leaf k = rw k refl

  pub round_split :
      (st' : ArtState)
      → m.flags ≡ inner_4
      → (check_prefix m (stream_of f n o) d == m.prefix_len) ≡ false
      → split_prefix l p m (stream_of f n o) d (check_prefix m (stream_of f n o) d) st ≡ ok st'
      → insert_round l p (stream_of f n o) d st ≡ ok (done st')
  unfolding insert_round load_node
  round_split st' k differs e =
      rw (insert_round, load_node, here, ◌>>=◌, inner_not_leaf k, differs, e) refl

  find_child_4 : m.flags ≡ inner_4 → (k : ℕ) → find_child m k ≡ ok (find_key m.key k 0 m.key_len)
  unfolding find_child
  find_child_4 kind k = rw kind refl

  -- Where the prefix agrees the round looks for the next byte.
  round_follow :
      m.flags ≡ inner_4
      → d + m.prefix_len < n
      → (check_prefix m (stream_of f n o) d == m.prefix_len) ≡ true
      → insert_round l p (stream_of f n o) d st
        ≡ follow l p m
            (stream_of f n o)
            (d + m.prefix_len)
            (find_key m.key (f (d + m.prefix_len)) 0 m.key_len)
            st
  unfolding insert_round load_node stream_size stream_get
  round_follow k fits agrees =
      let more : leb n (d + m.prefix_len) ≡ false = ground (arith, fits) in
      rw
        (
          insert_round,
          load_node,
          here,
          ◌>>=◌,
          inner_not_leaf k,
          agrees,
          more,
          find_child_4 k (f (d + m.prefix_len)),
        )
        refl

  pub round_down :
      (i q : ℕ)
      → m.flags ≡ inner_4
      → d + m.prefix_len < n
      → (check_prefix m (stream_of f n o) d == m.prefix_len) ≡ true
      → find_key m.key (f (d + m.prefix_len)) 0 m.key_len ≡ some i
      → m.arr i ≡ some q
      → insert_round l p (stream_of f n o) d st
        ≡ ok (down (at_slot p i) q (stream_of f n ((o + 1) % 2 ^ 32)) (d + m.prefix_len + 1))
  unfolding follow stream_advance
  round_down i q k fits agrees slot child =
      round_follow k fits agrees ∙ rw (slot, follow, child) refl

  add_child_4 :
      (k q : ℕ)
      → m.flags ≡ inner_4
      → m.key_len < 4
      → find_key m.key k 0 m.key_len ≡ none
      → add_child m k q ≡ ok (with_child m k q)
  unfolding add_child is_full is_leaf is_leaf_flags node_size is_new_key is_none put_child
  add_child_4 k q kind room fresh =
      let free : (m.key_len == 4) ≡ false = ground (arith, room) in rw (kind, free, fresh) refl

  not_full : m.flags ≡ inner_4 → m.key_len < 4 → is_full m ≡ ok false
  unfolding is_full is_leaf is_leaf_flags node_size
  not_full kind room =
      let free : (m.key_len == 4) ≡ false = ground (arith, room) in rw (kind, free) refl

  add_leaf_4 :
      (e : ℕ)
      → m.flags ≡ inner_4
      → m.key_len < 4
      → find_key m.key (f e) 0 m.key_len ≡ none
      → add_leaf l p m (stream_of f n o) e st
        ≡ ok (record {
          heap = set (st.heap ++ leaf_of f n ∷ []) p (with_child m (f e) (length st.heap));
          root = st.root;
        })
  unfolding add_leaf add_child_at load_node store_node push_node make_leaf stream_size stream_get
  add_leaf_4 e kind room fresh =
      let low = get_elem?-bound st.heap p m here in
      let there : get_elem? (st.heap ++ leaf_of f n ∷ []) p ≡ some m =
        get_elem?-append_left st.heap (leaf_of f n) p low ∙ here in
      rw
        (
          add_leaf,
          not_full kind room,
          ◌>>=◌,
          add_child_at,
          load_node,
          there,
          add_child_4 (f e) (length st.heap) kind room fresh,
        )
        refl

  pub round_add :
      m.flags ≡ inner_4
      → d + m.prefix_len < n
      → (check_prefix m (stream_of f n o) d == m.prefix_len) ≡ true
      → m.key_len < 4
      → find_key m.key (f (d + m.prefix_len)) 0 m.key_len ≡ none
      → insert_round l p (stream_of f n o) d st
        ≡ ok (
            done (record {
              heap =
                  set
                    (st.heap ++ leaf_of f n ∷ [])
                    p
                    (with_child m (f (d + m.prefix_len)) (length st.heap));
              root = st.root;
            }))
  unfolding follow
  round_add k fits agrees room fresh =
      round_follow k fits agrees
      ∙ rw (fresh, follow, add_leaf_4 (d + m.prefix_len) k room fresh) refl
