-- ===== src/Art/Stacks/Inserting.antt =====
-- insert of src/lib/art/art.c in a tree of stacks of one size counts the stack.
use callstack_count.Prelude.{
  ℕ, zero, suc, ◌+◌, ◌-◌, ◌%◌, ◌^◌, ◌≤◌, ◌<◌, ◌≡◌, refl, sym, ap, ◌∙◌, inl, inr, true, false, none,
  some, get_elem?, get_elem?-some, arith, ◌==◌, ltb, Bool-cases, Option-cases, ok, ◌>>=◌,
}
use callstack_count.Art.{
  Node, leaf, inner_4, find_key, stream_size, stream_get, matching, memcmp_zero, smaller,
  check_prefix,
}
use callstack_count.Art.Prefix.{matching-IsCommon, check_prefix-IsCommon}
use callstack_count.Art.Children.{find_key-hit}
use callstack_count.Art.Insert.{
  ArtState, Link, at_slot, prefix_size, leaf_match, from, done, down, insert_round, insert_loop,
}
use callstack_count.Art.Stacks.{Reach, step, Holds, IsLevelled, HasRoom, stream_of, count_of}
use callstack_count.Art.Stacks.Paths.{Reach-bound, Reach-lev, Reach-agree, Reach-le}
use callstack_count.Art.Stacks.Searching.{count_of-none, search-leaf, search-differs, search-misses}
use callstack_count.Art.Stacks.Matching.{memcmp_zero_equal, equal_memcmp_zero, same_check_prefix}
use callstack_count.Art.Stacks.Keeping.{Inserted}
use callstack_count.Art.Stacks.Hit.{hit-Inserted}
use callstack_count.Art.Stacks.Extend.Levelled.{extended-Inserted}
use callstack_count.Art.Stacks.Forking.Splitting.{split_prefix-Forked}
use callstack_count.Art.Stacks.Forking.Meeting.{do_leaf-Forked}
use callstack_count.Art.Stacks.Forking.Counted.{forked-Inserted}
use callstack_count.Art.Stacks.Rounds.{
  do_leaf_again, round_leaf, round_split, round_down, round_add,
}

-- The stack is followed by as many bytes that are 0.
abbrev pub IsPadded : ℕ → (ℕ → ℕ) → Type 0
IsPadded n f = (j : ℕ) → j < n → f (n + j) ≡ 0

abbrev pub ArePadded : ℕ → ArtState → Type 0
ArePadded n st =
    (p : ℕ) (m : Node ℕ) → get_elem? st.heap p ≡ some m → m.flags ≡ leaf → IsPadded n m.key

-- Two stacks that are equal are so behind their ends.
padded_equal :
    (n d : ℕ) (f g : ℕ → ℕ)
    → d ≤ n
    → IsPadded n f
    → IsPadded n g
    → ((j : ℕ) → j < n → f j ≡ g j)
    → (j : ℕ) → j < n
    → from f d j ≡ from g d j
padded_equal n d f g h pf pg same j lt = elim (Bool-cases (ltb (d + j) n)) [
  | inl low ↦ same (d + j) (ground (arith, low))
  | inr high ↦
      let at : n + (d + j - n) ≡ d + j = ground (arith, high) in
      let off : d + j - n < n = ground (arith, h, lt, high) in
      sym (ap f at) ∙ pf (d + j - n) off ∙ sym (pg (d + j - n) off) ∙ ap g at
]

-- Where the stream stands does not count.
check_prefix_pos :
    (n o d : ℕ) (f : ℕ → ℕ) (m : Node ℕ)
    → check_prefix m (stream_of f n 0) d ≡ check_prefix m (stream_of f n o) d
unfolding check_prefix stream_size stream_get
check_prefix_pos n o d f m = refl

module _ (n : ℕ) (lev : ℕ → ℕ) (st : ArtState) (v : IsLevelled n lev st) (f : ℕ → ℕ)
    (room : n ≤ prefix_size) (pf : IsPadded n f) (ps : ArePadded n st) where
  small : n < 2 ^ 32
  small = omega (arith, room)

  module _ (l : Link) (p d o : ℕ) (m : Node ℕ) (r : Reach st f l p d)
      (here : get_elem? st.heap p ≡ some m) where
    leaf_match_size :
        m.key_len ≡ n
        → leaf_match m (stream_of f n o) d ≡ d + matching (from m.key d) (from f d) (n - d)
    unfolding leaf_match stream_size
    leaf_match_size len =
        let least : smaller m.key_len n - d ≡ n - d = ground (arith, len) in rw least refl

    abbrev common : ℕ
    common = matching (from m.key d) (from f d) (n - d)

    -- The key of a leaf on the path has the bytes of the path.
    key_before : m.flags ≡ leaf → (j : ℕ) → j < d → m.key j ≡ f j
    key_before lf j h =
        let (k, s) = v.leaves p m here lf in
        let deep : d ≡ lev p = Reach-lev n lev st v r in
        (Reach-agree n lev st v m.key f refl s r).1 j (omega (arith, h, deep))

    at_leaf :
        m.flags ≡ leaf
        → (st' : ArtState) × (insert_round l p (stream_of f n o) d st ≡ ok (done st'))
          × Inserted n f st st'
    at_leaf lf =
        let c = matching-IsCommon (from m.key d) (from f d) (n - d) in
        let len = v.sizes p m here lf in
        let far = leaf_match_size len in
        let deep = Reach-le n lev st v r in
        elim (Bool-cases (ltb common (n - d))) [
          | inl less ↦
              let short : common < n - d = ground (arith, less) in
              let differs = c.longest short in
              let (st', e, w) =
                do_leaf-Forked n lev st v f l p d o m r here lf common (omega (arith, short))
                  c.equal differs far room in
              let other : memcmp_zero m.key f n ≡ false =
                elim (Bool-cases (memcmp_zero m.key f n)) [
                  | inr no_match ↦ no_match
                  | inl all ↦ absurd (
                      differs (equal_memcmp_zero m.key f n all (d + common) (omega (arith, short))))
                ] in
              let absent =
                count_of-none n lev st f l p d v small r
                  (λ fuel. search-leaf n lev st v small f 0 fuel p d m here lf ∙ rw other refl) in
              (
                st',
                round_leaf n st f l p d o m here st' lf e,
                forked-Inserted n lev st v f l p d r st' w absent,
              )
          | inr whole ↦
              let end : d + common ≡ n = ground (arith, whole, c.bounded, deep) in
              let key : (j : ℕ) → j < n → m.key j ≡ f j = λ j h. elim (Bool-cases (ltb j d)) [
                | inl low ↦ key_before lf j (ground (arith, low))
                | inr high ↦
                    let off : d + (j - d) ≡ j = ground (arith, high) in
                    rw off at (c.equal (j - d) (ground (arith, high, h, end)))
              ] in
              let all =
                memcmp_zero_equal (from m.key d) (from f d) n
                  (padded_equal n d m.key f deep (ps p m here lf) pf key) in
              let holds : Holds n st f p m.count = record {
                link = l;
                depth = d;
                path = r;
                node = m;
                here = here;
                kind = lf;
                size = len;
                key = key;
                counted = refl;
              } in
              (
                _,
                round_leaf n st f l p d o m here _ lf
                    (do_leaf_again n st f l p d o m here lf (far ∙ end) len all),
                hit-Inserted n lev st f p m.count holds v small,
              )
        ]

    at_inner_differs :
        m.flags ≡ inner_4
        → (check_prefix m (stream_of f n o) d == m.prefix_len) ≡ false
        → (st' : ArtState) × (insert_round l p (stream_of f n o) d st ≡ ok (done st'))
          × Inserted n f st st'
    unfolding stream_get
    at_inner_differs k differs =
        let s = stream_of f n o in
        let deep = Reach-lev n lev st v r in
        let fits = v.fits p m here k in
        let c = check_prefix-IsCommon m s d (omega (arith, deep, fits)) small in
        let span : smaller m.prefix_len (n - d) ≡ m.prefix_len = ground (arith, deep, fits) in
        let short : check_prefix m s d < m.prefix_len = ground (arith, c.bounded, span, differs) in
        let (st', e, w) =
          split_prefix-Forked n lev st v f l p d o m r here k (check_prefix m s d) short
            (omega (arith, short, deep, fits)) c.equal (c.longest (omega (arith, short, span))) room
            (omega (arith, fits)) in
        let absent = count_of-none n lev st f l p d v small r (λ fuel.
          search-differs n lev st v small f 0 fuel p d m here k
            (rw (check_prefix_pos n o d f m) differs)) in
        (
          st',
          round_split n st f l p d o m here st' k differs e,
          forked-Inserted n lev st v f l p d r st' w absent,
        )

    -- Where the prefix agrees and the next byte has no slot.
    at_inner_misses :
        m.flags ≡ inner_4
        → (count_of n f st ≡ none → m.key_len < 4)
        → (check_prefix m (stream_of f n o) d == m.prefix_len) ≡ true
        → find_key m.key (f (d + m.prefix_len)) 0 m.key_len ≡ none
        → (st' : ArtState) × (insert_round l p (stream_of f n o) d st ≡ ok (done st'))
          × Inserted n f st st'
    at_inner_misses k free agrees fresh =
        let deep = Reach-lev n lev st v r in
        let fits : d + m.prefix_len < n = omega (arith, v.fits p m here k, deep) in
        let same = same_check_prefix m (stream_of f n o) d fits small (ground (arith, agrees)) in
        let absent = count_of-none n lev st f l p d v small r (λ fuel.
          search-misses n lev st v small f 0 fuel p d m here k deep
            (rw (check_prefix_pos n o d f m) agrees) fresh) in
        (
          _,
          round_add n st f l p d o m here k fits agrees (free absent) fresh,
          extended-Inserted n lev st v f l p d m r here k same fresh absent,
        )

    -- Where the next byte has a slot the loop goes on below.
    at_inner_hits :
        m.flags ≡ inner_4
        → (check_prefix m (stream_of f n o) d == m.prefix_len) ≡ true
        → (i : ℕ) → find_key m.key (f (d + m.prefix_len)) 0 m.key_len ≡ some i
        → (q : ℕ) × (e : ℕ) × (d < e)
          × Reach st f (at_slot p i) q e
          × (insert_round l p (stream_of f n o) d st
              ≡ ok (down (at_slot p i) q (stream_of f n ((o + 1) % 2 ^ 32)) e))
    at_inner_hits k agrees i slot =
        let deep = Reach-lev n lev st v r in
        let fits : d + m.prefix_len < n = omega (arith, v.fits p m here k, deep) in
        let within = (find_key-hit m.key _ 0 m.key_len i slot).2 in
        let (q, child) = v.used p m i here k (omega (arith, within)) in
        (
          q,
          d + m.prefix_len + 1,
          omega arith,
          step r (record {
            node = m;
            here = here;
            inner = k;
            same = same_check_prefix m (stream_of f n o) d fits small (ground (arith, agrees));
            slot = slot;
            child = child;
            deeper = refl;
          }),
          round_down n st f l p d o m here i q k fits agrees slot child,
        )

  -- From a node on the path of the stack, the loop ends and inserts the stack.
  pub insert_loop-Inserted :
      (fuel : ℕ) (l : Link) (p d o : ℕ)
      → (count_of n f st ≡ none → HasRoom st)
      → n < fuel + d
      → Reach st f l p d
      → (st' : ArtState) × (insert_loop fuel l p (stream_of f n o) d st ≡ ok (some st'))
        × Inserted n f st st'
  unfolding insert_loop
  insert_loop-Inserted zero l p d o free enough r =
      absurd (omega (arith, enough, Reach-le n lev st v r))
  insert_loop-Inserted (suc fuel) l p d o free enough r =
      let (m, here) = get_elem?-some st.heap p (Reach-bound n lev st v r) in
      elim (v.kinds p m here) [
        | inl lf ↦
            let (st', e, i) = at_leaf l p d o m r here lf in
            (st', rw (insert_loop, e, ◌>>=◌) refl, i)
        | inr k ↦ elim (Bool-cases (check_prefix m (stream_of f n o) d == m.prefix_len)) [
          | inr differs ↦
              let (st', e, i) = at_inner_differs l p d o m r here k differs in
              (st', rw (insert_loop, e, ◌>>=◌) refl, i)
          | inl agrees ↦ elim (Option-cases (find_key m.key (f (d + m.prefix_len)) 0 m.key_len)) [
            | inl fresh ↦
                let (st', e, i) =
                  at_inner_misses l p d o m r here k (λ absent. free absent p m here k) agrees
                    fresh in
                (st', rw (insert_loop, e, ◌>>=◌) refl, i)
            | inr (i, slot) ↦
                let (q, e, deeper, below, so) = at_inner_hits l p d o m r here k agrees i slot in
                let (st', rest, done_so) =
                  insert_loop-Inserted fuel (at_slot p i) q e ((o + 1) % 2 ^ 32) free
                    (omega (arith, enough, deeper)) below in
                (st', rw (insert_loop, so, ◌>>=◌) rest, done_so)
          ]
        ]
      ]
