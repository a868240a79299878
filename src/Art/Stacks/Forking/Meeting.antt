-- ===== src/Art/Stacks/Forking/Meeting.antt =====
-- do_leaf of src/lib/art/art.c in a tree of stacks of one size, at the leaf of another stack.
use callstack_count.Prelude.{
  ℕ, ◌+◌, ◌-◌, ◌%◌, ◌^◌, ◌≤◌, ◌<◌, ◌≡◌, ◌≢◌, refl, ap, ◌∙◌, inl, inr, true, false, ◌&&◌, none, some,
  [], ◌∷◌, ◌++◌, length, get_elem?, length-append, get_elem?-append_last, set-append_last,
  get_elem?-bound, arith, ◌==◌, ltb, Bool-cases, if◌then◌else◌, ok, ◌>>=◌,
}
use callstack_count.Art.{
  Node, leaf, inner_4, update, alloc_node, make_leaf, stream_size, is_leaf, is_leaf_flags,
}
use callstack_count.Art.Insert.{
  ArtState, Link, at_local, prefix_size, copy_prefix, load_node, store_node, push_node, replace,
  add_child_at, do_leaf, end_leaf, leaf_match, Chain, from,
}
use callstack_count.Art.Insert.Fork.{first_child, second_child, chain_nodes_short}
use callstack_count.Art.Stacks.{Reach, IsLevelled, stream_of}
use callstack_count.Art.Stacks.Paths.{Reach-bound}
use callstack_count.Art.Stacks.Extend.{leaf_of}
use callstack_count.Art.Stacks.Forking.{Forked}
use callstack_count.Art.Stacks.Forking.Linking.{
  pushed, size_pushed, get_first, get_second, get_below, load-pushed, store-pushed, Forked-replace,
}
use callstack_count.Art.Stacks.Forking.Splitting.{
  two_children, find_first, find_second, slots_two, used_two,
}

module _ (n : ℕ) (lev : ℕ → ℕ) (st : ArtState) (v : IsLevelled n lev st) (f : ℕ → ℕ) (l : Link)
    (p d o : ℕ) (m : Node ℕ) (r : Reach st f l p d) (here : get_elem? st.heap p ≡ some m)
    (lf : m.flags ≡ leaf) (c : ℕ) (fits : d + c < n)
    (bytes : (j : ℕ) → j < c → m.key (d + j) ≡ f (d + j)) (differs : m.key (d + c) ≢ f (d + c))
    (far : leaf_match m (stream_of f n o) d ≡ d + c) (room : n ≤ prefix_size) where
  abbrev new : ℕ
  new = length st.heap

  abbrev copied_prefix : ℕ → ℕ
  copied_prefix = if c == 0 then (λ i. 0) else λ i. if ltb i c then f (d + c - c + i) else 0

  abbrev fork : Node ℕ
  fork = two_children c copied_prefix (m.key (d + c)) p (f (d + c)) (new + 1)

  abbrev placed : ArtState
  placed = pushed st fork (leaf_of f n)

  copied_bytes : (j : ℕ) → j < c → copied_prefix j ≡ f (d + j)
  copied_bytes j h =
      let some_left : (c == 0) ≡ false = ground (arith, h) in
      let low : ltb j c ≡ true = ground (arith, h) in
      let off : d + c - c + j ≡ d + j = omega arith in rw (some_left, low, off) refl

  placed-Forked : Forked n f st at_local p d placed
  placed-Forked = record {
    old = m;
    low = m;
    fork = fork;
    m = c;
    b = m.key (d + c);
    i_old = 0;
    i_new = 1;
    here = here;
    fits = fits;
    low_flags = refl;
    low_key_len = refl;
    low_key = refl;
    low_arr = refl;
    low_count = refl;
    above = inl (record { kind = lf; bytes = bytes; differs = refl });
    fork_inner = refl;
    fork_two = refl;
    fork_len = refl;
    fork_bytes = copied_bytes;
    fork_old = (find_first c fork.prefix (m.key (d + c)) p (f (d + c)) (new + 1), refl);
    fork_new = (find_second c fork.prefix (m.key (d + c)) p (f (d + c)) (new + 1) differs, refl);
    fork_used = λ i h. used_two c fork.prefix (m.key (d + c)) p (f (d + c)) (new + 1) i h;
    fork_slots = λ i q h. slots_two c fork.prefix (m.key (d + c)) p (f (d + c)) (new + 1) i q h;
    size_after = size_pushed st fork (leaf_of f n);
    get_fork = get_first st fork (leaf_of f n);
    get_leaf = get_second st fork (leaf_of f n);
    get_low = get_below st fork (leaf_of f n) p (Reach-bound n lev st v r) ∙ here;
    get_other =
        λ x a other h. get_below st fork (leaf_of f n) x (get_elem?-bound st.heap x a h) ∙ h;
    root_after = refl;
  }

  -- The heap with only the new inner node.
  abbrev with_node : Node ℕ → ArtState
  with_node x = record { heap = st.heap ++ x ∷ []; root = st.root }

  load_new : (x : Node ℕ) → load_node new (with_node x) ≡ ok x
  unfolding load_node
  load_new x = rw (load_node, get_elem?-append_last st.heap x) refl

  store_new : (x y : Node ℕ) → store_node new y (with_node x) ≡ with_node y
  unfolding store_node
  store_new x y = ap (λ h. record { heap = h; root = st.root }) (set-append_last st.heap x y)

  abbrev no_child : Node ℕ
  no_child = record (alloc_node inner_4) { prefix_len = c; prefix = copied_prefix }

  abbrev one : Node ℕ
  one = record no_child {
    key = update (λ i. 0) 0 (m.key (d + c));
    arr = update (λ i. none) 0 (some p);
    key_len = 1;
  }

  add_low : add_child_at new (m.key (d + c)) p (with_node no_child) ≡ ok (with_node one)
  unfolding add_child_at alloc_node
  add_low =
      rw
        (
          add_child_at,
          load_new no_child,
          ◌>>=◌,
          first_child no_child (m.key (d + c)) p refl refl,
          store_new no_child one,
        )
        refl

  add_new : add_child_at new (f (d + c)) (new + 1) (pushed st one (leaf_of f n)) ≡ ok placed
  unfolding add_child_at alloc_node
  add_new =
      rw
        (
          add_child_at,
          load-pushed st one (leaf_of f n),
          ◌>>=◌,
          second_child one (f (d + c)) (new + 1) refl refl differs,
          store-pushed st one (leaf_of f n) fork,
        )
        refl

  top_node :
      (if c == 0
        then alloc_node inner_4
        else record (copy_prefix (alloc_node inner_4) (from f (d + c - c)) c) { prefix_len = c })
      ≡ no_child
  unfolding alloc_node
  top_node = elim (Bool-cases (c == 0)) [
    | inl z ↦
        let e : 0 ≡ c = ground (arith, z) in
        rw z (ap (λ k. record (alloc_node {C = ℕ} inner_4) { prefix_len = k }) e)
    | inr s ↦ rw s refl
  ]

  abbrev start : Chain
  start = record {
    link = l;
    new_node = new;
    prefix_remaining = c;
    state = with_node (alloc_node inner_4);
  }

  -- The end of do_leaf: both children, and the link.
  end_leaf-replace : end_leaf m p (stream_of f n o) d c start ≡ replace l new placed
  unfolding end_leaf push_node make_leaf stream_size
  end_leaf-replace =
      let key_len : ((m.key_len + 2 ^ 32 - d) % 2 ^ 32 == c) ≡ false =
        ground (arith, v.sizes p m here lf, fits, room) in
      let stream_len : ((n + 2 ^ 32 - d) % 2 ^ 32 == c) ≡ false = ground (arith, fits, room) in
      let next : length (with_node one).heap ≡ new + 1 = length-append st.heap (one ∷ []) in
      let link = λ (z : ArtState). replace l new z in
      let second = λ (q : ℕ). λ (z : ArtState). add_child_at new (f (d + c)) q z in
      let rest = λ (z : ArtState). second (length z.heap) (push_node (leaf_of f n) z) in
      let stored =
        ap (λ x. store_node new x (with_node (alloc_node inner_4))) top_node
        ∙ store_new (alloc_node inner_4) no_child in
      rw (end_leaf, load_new (alloc_node inner_4), ◌>>=◌, key_len, stream_len)
        (ap (λ z. add_child_at new (m.key (d + c)) p z >>= rest >>= link) stored
          ∙ ap (λ z. z >>= rest >>= link) add_low
          ∙ ap (λ q. second q (pushed st one (leaf_of f n)) >>= link) next
          ∙ ap (λ z. z >>= link) add_new)

  leafy : is_leaf m ≡ true
  unfolding is_leaf is_leaf_flags
  leafy = rw lf refl

  -- At the leaf of another stack, a new node with two children stands above the leaf.
  pub do_leaf-Forked :
      (st' : ArtState) × (do_leaf l p (stream_of f n o) d st ≡ ok st') × Forked n f st l p d st'
  unfolding do_leaf push_node load_node stream_size
  do_leaf-Forked =
      let (st', e, w) = Forked-replace n lev st v f p d l placed r placed-Forked in
      let short = chain_nodes_short c (stream_of f n o) d 0 start (omega (arith, fits, room)) in
      let differ : (d + c == n && d + c == m.key_len) ≡ false = ground (arith, fits) in
      let len : d + c - d ≡ c = omega arith in
      (
        st',
        rw (do_leaf, load_node, here, ◌>>=◌, leafy, far, differ, len)
            (ap (λ z. z >>= end_leaf m p (stream_of f n o) d c) short ∙ end_leaf-replace ∙ e),
        w,
      )
