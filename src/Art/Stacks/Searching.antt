-- ===== src/Art/Stacks/Searching.antt =====
-- search of src/lib/art/art.c in a tree of stacks of one size: it follows the path of the stack.
use callstack_count.Prelude.{
  ℕ, zero, suc, ◌+◌, ◌-◌, ◌^◌, ◌≤◌, ◌<◌, ◌≡◌, refl, sym, ap, ◌∙◌, inl, inr, true, false, Option,
  none, some, get_elem?, get_elem?-some, arith, ◌==◌, if◌then◌else◌, Bool-cases, Option-cases, ok,
  ◌>>=◌,
}
use callstack_count.Art.{
  Node, leaf, inner_4, is_leaf, is_leaf_flags, find_child, find_key, check_prefix, stream_get,
  stream_size, memcmp_zero,
}
use callstack_count.Art.Children.{find_key-hit}
use callstack_count.Art.Insert.{ArtState, Link, load_node}
use callstack_count.Art.Insert.Search.{search, search_child, leaf_matches}
use callstack_count.Art.Stacks.{
  Arc, Reach, top, step, Holds, IsLevelled, stream_of, found_count, count_of,
}
use callstack_count.Art.Stacks.Paths.{Reach-lev, Reach-bound, Reach-le}
use callstack_count.Art.Stacks.Matching.{
  memcmp_zero_equal, equal_memcmp_zero, check_prefix_same, same_check_prefix,
}

module _ (n : ℕ) (lev : ℕ → ℕ) (st : ArtState) (v : IsLevelled n lev st) (small : n < 2 ^ 32)
    (t : ℕ → ℕ) (o : ℕ) where
  pub search-Arc :
      (fuel p d i q e : ℕ)
      → d ≡ lev p
      → Arc st t p d i q e
      → search (suc fuel) (some p) (stream_of t n o) d st
        ≡ search fuel (some q) (stream_of t n o) e st
  unfolding search search_child load_node is_leaf is_leaf_flags find_child stream_size stream_get
  search-Arc fuel p d i q e depth a =
      let fits = v.fits p a.node a.here a.inner in
      let s = stream_of t n o in
      let below : d + a.node.prefix_len < n = omega (arith, fits, depth) in
      let pre = check_prefix_same a.node s d below small a.same in
      let whole : (check_prefix a.node s d == a.node.prefix_len) ≡ true = ground (arith, pre) in
      let more : (d + a.node.prefix_len == n) ≡ false = ground (arith, below) in
      rw (a.here, ◌>>=◌, whole, a.inner, more, a.slot, a.child, a.deeper) refl

  -- From the root, search comes to each node on the path.
  pub search-Reach :
      (fuel : ℕ) {l : Link} {p d : ℕ}
      → n < fuel
      → Reach st t l p d
      → (rest : ℕ) × (fuel ≤ rest + d)
        × (search fuel st.root (stream_of t n o) 0 st ≡ search rest (some p) (stream_of t n o) d st)
  search-Reach fuel h (top e z) = (fuel, omega arith, rw (e, z) refl)
  search-Reach fuel h (step {p} {d} {i} {q} {e} r a) =
      let (rest, enough, so) = search-Reach fuel h r in
      let fits = v.fits p a.node a.here a.inner in
      let lvl = Reach-lev n lev st v r in
      let left : rest ≡ suc (rest - 1) = omega (arith, enough, fits, lvl, h) in
      (
        rest - 1,
        omega (arith, enough, fits, lvl, h, a.deeper),
        so
            ∙ ap (λ z. search z (some p) (stream_of t n o) d st) left
            ∙ search-Arc (rest - 1) p d i q e lvl a,
      )

  -- At a leaf, search compares the whole key.
  pub search-leaf :
      (fuel p d : ℕ) (m : Node ℕ)
      → get_elem? st.heap p ≡ some m
      → m.flags ≡ leaf
      → search (suc fuel) (some p) (stream_of t n o) d st
        ≡ ok (some (if memcmp_zero m.key t n then some p else none))
  unfolding search load_node is_leaf is_leaf_flags leaf_matches stream_size
  search-leaf fuel p d m h k =
      let len = v.sizes p m h k in
      let whole : (n == n) ≡ true = ground arith in rw (h, ◌>>=◌, len, k, whole) refl

  -- At an inner node whose prefix the stack does not have there is nothing.
  pub search-differs :
      (fuel p d : ℕ) (m : Node ℕ)
      → get_elem? st.heap p ≡ some m
      → m.flags ≡ inner_4
      → (check_prefix m (stream_of t n o) d == m.prefix_len) ≡ false
      → search (suc fuel) (some p) (stream_of t n o) d st ≡ ok (some none)
  unfolding search load_node is_leaf is_leaf_flags
  search-differs fuel p d m h k differs = rw (h, ◌>>=◌, differs, k) refl

  -- Nor where the next byte has no slot.
  pub search-misses :
      (fuel p d : ℕ) (m : Node ℕ)
      → get_elem? st.heap p ≡ some m
      → m.flags ≡ inner_4
      → d ≡ lev p
      → (check_prefix m (stream_of t n o) d == m.prefix_len) ≡ true
      → find_key m.key (t (d + m.prefix_len)) 0 m.key_len ≡ none
      → search (suc fuel) (some p) (stream_of t n o) d st ≡ ok (some none)
  unfolding search load_node is_leaf is_leaf_flags find_child stream_get stream_size search_child
  search-misses fuel p d m h k depth whole gone =
      let fits = v.fits p m h k in
      let more : (d + m.prefix_len == n) ≡ false = ground (arith, fits, depth) in
      rw (h, ◌>>=◌, whole, k, more, gone) refl

found_count-at :
    (st : ArtState) (p : ℕ) (m : Node ℕ)
    → get_elem? st.heap p ≡ some m
    → found_count st (ok (some (some p))) ≡ some m.count
unfolding found_count
found_count-at st p m h = rw (found_count, h) refl

-- A stack that the tree holds is found, with its count.
pub count_of-Holds :
    (n : ℕ) (lev : ℕ → ℕ) (st : ArtState) (t : ℕ → ℕ) (p c : ℕ)
    → IsLevelled n lev st
    → n < 2 ^ 32
    → Holds n st t p c
    → count_of n t st ≡ some c
unfolding count_of
count_of-Holds n lev st t p c v small h =
    let (rest, enough, so) = search-Reach n lev st v small t 0 (n + 1) (omega arith) h.path in
    let deep = Reach-le n lev st v h.path in
    let left : rest ≡ suc (rest - 1) = omega (arith, enough, deep) in
    let whole = memcmp_zero_equal h.node.key t n h.key in
    let at_leaf = search-leaf n lev st v small t 0 (rest - 1) p h.depth h.node h.here h.kind in
    let found : search (suc (rest - 1)) (some p) (stream_of t n 0) h.depth st ≡ ok (some (some p)) =
      rw whole at at_leaf in
    ap (found_count st) (so ∙ ap (λ z. search z (some p) (stream_of t n 0) h.depth st) left ∙ found)
    ∙ found_count-at st p h.node h.here
    ∙ ap some h.counted

-- A stack that is stuck at a node is not found.
pub count_of-none :
    (n : ℕ) (lev : ℕ → ℕ) (st : ArtState) (t : ℕ → ℕ) (l : Link) (p d : ℕ)
    → IsLevelled n lev st
    → n < 2 ^ 32
    → Reach st t l p d
    → ((fuel : ℕ) → search (suc fuel) (some p) (stream_of t n 0) d st ≡ ok (some none))
    → count_of n t st ≡ none
unfolding count_of found_count
count_of-none n lev st t l p d v small r stuck =
    let (rest, enough, so) = search-Reach n lev st v small t 0 (n + 1) (omega arith) r in
    let deep = Reach-le n lev st v r in
    let left : rest ≡ suc (rest - 1) = omega (arith, enough, deep) in
    ap (found_count st)
      (so ∙ ap (λ z. search z (some p) (stream_of t n 0) d st) left ∙ stuck (rest - 1))

module _ (n : ℕ) (lev : ℕ → ℕ) (st : ArtState) (v : IsLevelled n lev st) (small : n < 2 ^ 32)
    (t : ℕ → ℕ) where
  -- What search finds below a node on the path is a leaf of the stack.
  search-Holds :
      (fuel p d : ℕ) {l : Link}
      → Reach st t l p d
      → (c : ℕ) → found_count st (search fuel (some p) (stream_of t n 0) d st) ≡ some c
      → (q : ℕ) × Holds n st t q c
  unfolding found_count search
  search-Holds zero p d r c e = absurd (cc)
  search-Holds (suc fuel) p d r c e =
      let (m, h) = get_elem?-some st.heap p (Reach-bound n lev st v r) in
      elim (v.kinds p m h) [
        | inl lf ↦
            let at_leaf = search-leaf n lev st v small t 0 fuel p d m h lf in
            elim (Bool-cases (memcmp_zero m.key t n)) [
              | inr other ↦ absurd (let bad = rw (at_leaf, other) at e in cc)
              | inl whole ↦
                  let counts : some m.count ≡ some c = rw (at_leaf, whole, found_count, h) at e in
                  (
                    p,
                    record {
                      link = _;
                      depth = d;
                      path = r;
                      node = m;
                      here = h;
                      kind = lf;
                      size = v.sizes p m h lf;
                      key = equal_memcmp_zero m.key t n whole;
                      counted = cc;
                    },
                  )
            ]
        | inr inner ↦ elim (Bool-cases (check_prefix m (stream_of t n 0) d == m.prefix_len)) [
          | inr differs ↦ absurd (
              let bad = rw (search-differs n lev st v small t 0 fuel p d m h inner differs) at e in
              cc)
          | inl whole ↦
              let depth = Reach-lev n lev st v r in
              let fits = v.fits p m h inner in
              elim (Option-cases (find_key m.key (t (d + m.prefix_len)) 0 m.key_len)) [
                | inl gone ↦ absurd (
                    let bad =
                      rw (search-misses n lev st v small t 0 fuel p d m h inner depth whole gone) at
                        e in
                    cc)
                | inr (i, slot) ↦
                    let within = (find_key-hit m.key _ 0 m.key_len i slot).2 in
                    let (q, child) = v.used p m i h inner (omega (arith, within)) in
                    let arc : Arc st t p d i q (d + m.prefix_len + 1) = record {
                      node = m;
                      here = h;
                      inner = inner;
                      same =
                          same_check_prefix m (stream_of t n 0) d (omega (arith, fits, depth)) small
                            (ground (arith, whole));
                      slot = slot;
                      child = child;
                      deeper = refl;
                    } in
                    search-Holds fuel q (d + m.prefix_len + 1) (step r arc) c
                      (rw (search-Arc n lev st v small t 0 fuel p d i q _ depth arc) at e)
              ]
        ]
      ]

-- A stack that is found is held, with the count.
pub Holds-count_of :
    (n : ℕ) (lev : ℕ → ℕ) (st : ArtState) (t : ℕ → ℕ) (c : ℕ)
    → IsLevelled n lev st
    → n < 2 ^ 32
    → count_of n t st ≡ some c
    → (q : ℕ) × Holds n st t q c
unfolding count_of found_count search
Holds-count_of n lev st t c v small e =
    let look =
      λ (fuel : ℕ). λ (z : Option ℕ). found_count st (search fuel z (stream_of t n 0) 0 st) in
    let next : n + 1 ≡ suc n = omega arith in
    elim (Option-cases st.root) [
      | inl empty ↦
          let bad : look (suc n) none ≡ some c = ap (look (suc n)) (sym empty) ∙ rw next at e in
          absurd (cc)
      | inr (r, at_r) ↦
          search-Holds n lev st v small t (n + 1) r 0 (top at_r refl) c
            (ap (look (n + 1)) (sym at_r) ∙ e)
    ]
