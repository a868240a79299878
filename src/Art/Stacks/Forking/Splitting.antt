-- ===== src/Art/Stacks/Forking/Splitting.antt =====
-- split_prefix of src/lib/art/art.c in a tree of stacks of one size.
use callstack_count.Prelude.{
  ℕ, ◌+◌, ◌-◌, ◌%◌, ◌^◌, ◌≤◌, ◌<◌, ◌≡◌, ◌≢◌, refl, sym, ap, ◌∙◌, inl, inr, ◌⊎◌, true, false, Option,
  none, some, length, get_elem?, set, get_elem?-set, length-set, get_elem?-bound, arith, ◌==◌, ltb,
  leb, Bool-cases, if◌then◌else◌, ok, ◌>>=◌,
}
use callstack_count.Art.{
  Node, inner_4, find_key, update, alloc_node, make_leaf, stream_get, stream_size,
}
use callstack_count.Art.Insert.{
  ArtState, Link, at_local, prefix_size, copy_prefix, store_node, push_node, replace, add_child_at,
  split_prefix, from,
}
use callstack_count.Art.Insert.Fork.{first_child, second_child}
use callstack_count.Art.Stacks.{Reach, IsLevelled, stream_of}
use callstack_count.Art.Stacks.Paths.{Reach-bound}
use callstack_count.Art.Stacks.Extend.{leaf_of}
use callstack_count.Art.Stacks.Forking.{Forked}
use callstack_count.Art.Stacks.Forking.Linking.{
  pushed, size_pushed, get_first, get_second, get_below, load-pushed, store-pushed, Forked-replace,
}

-- An inner node with two children.
abbrev pub two_children : ℕ → (ℕ → ℕ) → ℕ → ℕ → ℕ → ℕ → Node ℕ
two_children len prefix k q k' q' = record {
  key_len = 2;
  key = update (update (λ i. 0) 0 k) 1 k';
  arr = update (update (λ i. none) 0 (some q)) 1 (some q');
  flags = inner_4;
  count = 0;
  prefix_len = len;
  prefix = prefix;
}

module _ (len : ℕ) (prefix : ℕ → ℕ) (k q k' q' : ℕ) where
  abbrev node : Node ℕ
  node = two_children len prefix k q k' q'

  pub find_first : find_key node.key k 0 2 ≡ some 0
  unfolding find_key
  find_first = let hit : (k == k) ≡ true = ground arith in rw (find_key, hit) refl

  pub find_second : k ≢ k' → find_key node.key k' 0 2 ≡ some 1
  unfolding find_key
  find_second apart =
      let miss : (k == k') ≡ false = ground (arith, apart) in
      let hit : (k' == k') ≡ true = ground arith in rw (find_key, miss, hit) refl

  pub slots_two : (i x : ℕ) → node.arr i ≡ some x → ((i ≡ 0) × (x ≡ q)) ⊎ ((i ≡ 1) × (x ≡ q'))
  slots_two i x h = elim (Bool-cases (1 == i)) [
    | inl one ↦ let both : some q' ≡ some x = rw one at h in inr (ground (arith, one), cc)
    | inr not_one ↦ elim (Bool-cases (0 == i)) [
      | inl z ↦ let both : some q ≡ some x = rw (not_one, z) at h in inl (ground (arith, z), cc)
      | inr not_z ↦
          absurd (let bad : ◌≡◌ {A = Option ℕ} none (some x) = rw (not_one, not_z) at h in cc)
    ]
  ]

  pub used_two : (i : ℕ) → i < 2 → (i ≡ 0) ⊎ (i ≡ 1)
  used_two i h = elim (Bool-cases (i == 0)) [
    | inl z ↦ inl (ground (arith, z))
    | inr s ↦ inr (ground (arith, s, h))
  ]

module _ (n : ℕ) (lev : ℕ → ℕ) (st : ArtState) (v : IsLevelled n lev st) (f : ℕ → ℕ) (l : Link)
    (p d o : ℕ) (m : Node ℕ) (r : Reach st f l p d) (here : get_elem? st.heap p ≡ some m)
    (inner : m.flags ≡ inner_4) (c : ℕ) (short : c < m.prefix_len) (fits : d + c < n)
    (bytes : (j : ℕ) → j < c → m.prefix j ≡ f (d + j)) (differs : m.prefix c ≢ f (d + c))
    (room : n ≤ prefix_size) (long : m.prefix_len < n) where
  abbrev new : ℕ
  new = length st.heap

  -- The node with what is left of its prefix.
  abbrev left : ℕ
  left = (m.prefix_len + 2 ^ 32 - (c + 1)) % 2 ^ 32

  abbrev shortened : Node ℕ
  shortened = record (copy_prefix m (from m.prefix (c + 1)) left) { prefix_len = left }

  abbrev fork : Node ℕ
  fork =
      two_children c (λ i. if ltb i c then m.prefix i else 0) (f (d + c)) (new + 1) (m.prefix c) p

  abbrev before : ArtState
  before = pushed st fork (leaf_of f n)

  abbrev placed : ArtState
  placed = record { heap = set before.heap p shortened; root = st.root }

  left_exact : left + (c + 1) ≡ m.prefix_len
  left_exact = omega (arith, short, long, room)

  p_bound : p < length before.heap
  p_bound = omega (arith, get_elem?-bound st.heap p m here, size_pushed st fork (leaf_of f n))

  get_placed :
      (x : ℕ)
      → get_elem? placed.heap x ≡ (if p == x then some shortened else get_elem? before.heap x)
  get_placed x = get_elem?-set before.heap p x shortened p_bound

  get_other : (x : ℕ) → (p == x) ≡ false → get_elem? placed.heap x ≡ get_elem? before.heap x
  get_other x other = get_placed x ∙ rw other refl

  placed-Forked : Forked n f st at_local p d placed
  placed-Forked = record {
    old = m;
    low = shortened;
    fork = fork;
    m = c;
    b = m.prefix c;
    i_old = 1;
    i_new = 0;
    here = here;
    fits = fits;
    low_flags = refl;
    low_key_len = refl;
    low_key = refl;
    low_arr = refl;
    low_count = refl;
    above = inr (record {
      kind = inner;
      bytes = bytes;
      differs = refl;
      shorter = omega (arith, left_exact);
      rest = λ j h. let low : ltb j left ≡ true = ground (arith, h) in rw low refl;
    });
    fork_inner = refl;
    fork_two = refl;
    fork_len = refl;
    fork_bytes = λ j h. let low : ltb j c ≡ true = ground (arith, h) in rw low (bytes j h);
    fork_old = (
      find_second c fork.prefix (f (d + c)) (new + 1) (m.prefix c) p (λ e. differs (sym e)),
      refl,
    );
    fork_new = (find_first c fork.prefix (f (d + c)) (new + 1) (m.prefix c) p, refl);
    fork_used = λ i h. elim (used_two c fork.prefix (f (d + c)) (new + 1) (m.prefix c) p i h) [
      | inl e ↦ inr e
      | inr e ↦ inl e
    ];
    fork_slots = λ i q h.
        elim (slots_two c fork.prefix (f (d + c)) (new + 1) (m.prefix c) p i q h) [
          | inl e ↦ inr e
          | inr e ↦ inl e
        ];
    size_after = length-set before.heap p shortened ∙ size_pushed st fork (leaf_of f n);
    get_fork =
        let other : (p == new) ≡ false = ground (arith, Reach-bound n lev st v r) in
        get_other new other ∙ get_first st fork (leaf_of f n);
    get_leaf =
        let other : (p == new + 1) ≡ false = ground (arith, Reach-bound n lev st v r) in
        get_other (new + 1) other ∙ get_second st fork (leaf_of f n);
    get_low = let at : (p == p) ≡ true = ground arith in get_placed p ∙ rw at refl;
    get_other = λ x a other h.
        get_other x other ∙ get_below st fork (leaf_of f n) x (get_elem?-bound st.heap x a h) ∙ h;
    root_after = refl;
  }

  abbrev one : Node ℕ
  one = record (alloc_node inner_4) {
    key = update (λ i. 0) 0 (f (d + c));
    arr = update (λ i. none) 0 (some (new + 1));
    key_len = 1;
  }

  add_first :
      add_child_at new (f (d + c)) (new + 1) (pushed st (alloc_node inner_4) (leaf_of f n))
      ≡ ok (pushed st one (leaf_of f n))
  unfolding add_child_at alloc_node
  add_first =
      rw
        (
          add_child_at,
          load-pushed st (alloc_node inner_4) (leaf_of f n),
          ◌>>=◌,
          first_child (alloc_node inner_4) (f (d + c)) (new + 1) refl refl,
          store-pushed st (alloc_node inner_4) (leaf_of f n) one,
        )
        refl

  abbrev two : Node ℕ
  two = two_children 0 (λ i. 0) (f (d + c)) (new + 1) (m.prefix c) p

  add_second :
      add_child_at new (m.prefix c) p (pushed st one (leaf_of f n))
      ≡ ok (pushed st two (leaf_of f n))
  unfolding add_child_at alloc_node
  add_second =
      rw
        (
          add_child_at,
          load-pushed st one (leaf_of f n),
          ◌>>=◌,
          second_child one (m.prefix c) p refl refl (λ e. differs (sym e)),
          store-pushed st one (leaf_of f n) two,
        )
        refl

  -- Where the prefix of a node differs, a new node with two children stands above it.
  pub split_prefix-Forked :
      (st' : ArtState) × (split_prefix l p m (stream_of f n o) d c st ≡ ok st')
      × Forked n f st l p d st'
  unfolding split_prefix push_node store_node stream_get make_leaf stream_size
  split_prefix-Forked =
      let (st', e, w) = Forked-replace n lev st v f p d l placed r placed-Forked in
      let small : leb c prefix_size ≡ true = ground (arith, fits, room) in
      (
        st',
        rw
            (
              split_prefix,
              push_node,
              add_first,
              ◌>>=◌,
              add_second,
              small,
              load-pushed st two (leaf_of f n),
            )
            (ap (λ z. replace l new (store_node p shortened z))
                (store-pushed st two (leaf_of f n) fork)
              ∙ e),
        w,
      )
