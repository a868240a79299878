-- ===== src/Art/Insert/Counts.antt =====
-- The loop of insert in src/lib/art/art.c ends, and what it counts for a stack that comes again.
use callstack_count.Prelude.{
  ℕ, zero, suc, ◌+◌, ◌-◌, ◌%◌, ◌^◌, ◌≤◌, ◌<◌, ◌≡◌, ◌≢◌, refl, sym, ap, ◌∙◌, inl, inr, true, Option,
  none, some, [], ◌∷◌, arith, ◌==◌, leb, Bool-cases, Option-cases, Run, ok, fault, ◌>>=◌, Run-cases,
}
use callstack_count.Art.{
  Stream, Node, is_leaf, is_leaf_flags, find_child, check_prefix, stream_get, stream_size,
  stream_advance, make_leaf, alloc_node, smaller, matching, memcmp_zero,
}
use callstack_count.Art.Insert.{
  ArtState, Link, at_root, load_node, store_node, push_node, do_leaf, leaf_match, Round, done, down,
  follow, insert_round, insert_loop, insert,
}

-- What a round that goes on has done: it took at least one byte, and there was one to take.
pub record Deeper (s : Stream) (depth : ℕ) (s' : Stream) (depth' : ℕ) : Type 0 where
  pub same_size : s'.size ≡ s.size
  pub deeper : depth < depth'
  pub within : depth' ≤ s.size

never_done :
    (r : Run ArtState) (l : Link) (q : ℕ) (s' : Stream) (d' : ℕ)
    → (r >>= (λ st'. ok (done st'))) ≢ ok (down l q s' d')
never_done (ok st) l q s' d' h = cc
never_done (fault x) l q s' d' h = cc

follow-Deeper :
    (link : Link) (p : ℕ) (node : Node ℕ) (s : Stream) (depth : ℕ) (i : Option ℕ) (st : ArtState)
    (l : Link) (q : ℕ) (s' : Stream) (d' : ℕ)
    → follow link p node s depth i st ≡ ok (down l q s' d')
    → (s'.size ≡ s.size) × (d' ≡ depth + 1)
unfolding follow stream_advance
follow-Deeper link p node s depth none st l q s' d' h = absurd (never_done _ l q s' d' h)
follow-Deeper link p node s depth (some i) st l q s' d' h = elim (Option-cases (node.arr i)) [
  | inl gone ↦ absurd (never_done _ l q s' d' (rw (follow, gone) at h))
  | inr (child, there) ↦
      let same : ◌≡◌ {A = Run Round} (ok (down _ child (stream_advance s 1) (depth + 1)))
          (ok (down l q s' d')) =
        rw (follow, there) at h in
      let stream : stream_advance s 1 ≡ s' = cc in
      let next : depth + 1 ≡ d' = cc in (sym (ap (λ (z : Stream). z.size) stream), sym next)
]

insert_round-Deeper :
    (link : Link) (p : ℕ) (s : Stream) (depth : ℕ) (st : ArtState) (l : Link) (q : ℕ) (s' : Stream)
    (d' : ℕ)
    → insert_round link p s depth st ≡ ok (down l q s' d')
    → Deeper s depth s' d'
unfolding insert_round stream_size
insert_round-Deeper link p s depth st l q s' d' h = elim (Run-cases (load_node p st)) [
  | inr (x, e) ↦ absurd (let bad = rw (insert_round, e, ◌>>=◌) at h in cc)
  | inl (node, e) ↦ elim (Bool-cases (is_leaf node)) [
    | inl lf ↦ absurd (never_done _ l q s' d' (rw (insert_round, e, ◌>>=◌, lf) at h))
    | inr inner ↦ elim (Bool-cases (check_prefix node s depth == node.prefix_len)) [
      | inr differs ↦
          absurd (never_done _ l q s' d' (rw (insert_round, e, ◌>>=◌, inner, differs) at h))
      | inl agrees ↦ elim (Bool-cases (leb s.size (depth + node.prefix_len))) [
        | inl over ↦ absurd (let bad = rw (insert_round, e, ◌>>=◌, inner, agrees, over) at h in cc)
        | inr more ↦ elim (Run-cases (find_child node (stream_get s (depth + node.prefix_len)))) [
          | inr (x, f) ↦
              absurd (let bad = rw (insert_round, e, ◌>>=◌, inner, agrees, more, f) at h in cc)
          | inl (i, f) ↦
              let (size, next) =
                follow-Deeper link p node s _ i st l q s' d'
                  (rw (insert_round, e, ◌>>=◌, inner, agrees, more, f) at h) in
              record {
                same_size = size;
                deeper = omega (arith, next);
                within = ground (arith, next, more);
              }
        ]
      ]
    ]
  ]
]

-- The loop ends within as many rounds as the stream has bytes, and one more.
insert_loop-ends :
    (fuel : ℕ) (link : Link) (p : ℕ) (s : Stream) (depth : ℕ) (st : ArtState)
    → depth ≤ s.size
    → s.size < fuel + depth
    → insert_loop fuel link p s depth st ≢ ok none
unfolding insert_loop
insert_loop-ends zero link p s depth st lo hi h = omega (arith, lo, hi)
insert_loop-ends (suc fuel) link p s depth st lo hi h =
    elim (Run-cases (insert_round link p s depth st)) [
      | inr (x, e) ↦ let bad = rw (insert_loop, e, ◌>>=◌) at h in cc
      | inl (done st', e) ↦ let bad = rw (insert_loop, e, ◌>>=◌) at h in cc
      | inl (down l q s' d', e) ↦
          let d = insert_round-Deeper link p s depth st l q s' d' e in
          insert_loop-ends fuel l q s' d' st (omega (arith, d.within, d.same_size))
            (omega (arith, hi, d.same_size, d.deeper)) (rw (insert_loop, e, ◌>>=◌) at h)
    ]

-- insert ends: the loop never needs more rounds than it is given.
pub insert-ends : (s : Stream) (st : ArtState) → insert s st ≢ ok none
unfolding insert stream_size
insert-ends s st h = elim (Option-cases st.root) [
  | inl new ↦ let bad = rw (insert, new) at h in cc
  | inr (p, e) ↦
      insert_loop-ends (s.size + 1) at_root p s 0 st (omega arith) (omega arith)
        (rw (insert, e) at h)
]

-- Inserting one stream several times.
unfoldable pub insert_n : ℕ → Stream → ArtState → Run (Option ArtState)
insert_n zero s st = ok (some st)
insert_n (suc n) s st = insert s st >>= λ r. elim r [ none ↦ ok none | some st' ↦ insert_n n s st' ]

abbrev pub new_tree : ArtState
new_tree = record { heap = []; root = none }

-- A tree that is a single leaf.
abbrev pub leaf_tree : Stream → ℕ → ArtState
leaf_tree s c = record { heap = record (make_leaf s) { count = c } ∷ []; root = some 0 }

pub matching_self : (f : ℕ → ℕ) (n : ℕ) → matching f f n ≡ n
unfolding matching
matching_self f zero = refl
matching_self f (suc n) = ground (arith, matching_self (λ i. f (suc i)) n)

pub memcmp_self : (f : ℕ → ℕ) (n : ℕ) → memcmp_zero f f n ≡ true
unfolding memcmp_zero
memcmp_self f zero = refl
memcmp_self f (suc n) = ground (arith, memcmp_self (λ i. f (suc i)) n)

leaf_match_self :
    (s : Stream) (c : ℕ) → leaf_match (record (make_leaf s) { count = c }) s 0 ≡ s.size
unfolding leaf_match make_leaf alloc_node stream_size
leaf_match_self s c =
    let same : smaller (stream_size s) (stream_size s) - 0 ≡ s.size = ground arith in
    rw (same, matching_self) (omega arith)

do_leaf_self :
    (s : Stream) (c : ℕ)
    → do_leaf at_root 0 s 0 (leaf_tree s c) ≡ ok (leaf_tree s ((c + 1) % 2 ^ 64))
unfolding do_leaf load_node store_node is_leaf is_leaf_flags make_leaf alloc_node stream_size
do_leaf_self s c =
    let far = leaf_match_self s c in
    let whole : (s.size == s.size) ≡ true = ground arith in rw (far, whole, memcmp_self)

pub insert_again :
    (s : Stream) (c : ℕ) → insert s (leaf_tree s c) ≡ ok (some (leaf_tree s ((c + 1) % 2 ^ 64)))
unfolding insert insert_loop insert_round load_node is_leaf is_leaf_flags make_leaf alloc_node
    stream_size
insert_again s c =
    let next : s.size + 1 ≡ suc s.size = omega arith in rw (next, insert_loop, do_leaf_self s c)

insert_n-leaf_tree :
    (n : ℕ) (s : Stream) (c : ℕ)
    → c < 2 ^ 64
    → insert_n n s (leaf_tree s c) ≡ ok (some (leaf_tree s ((c + n) % 2 ^ 64)))
unfolding insert_n
insert_n-leaf_tree zero s c h = let same : (c + 0) % 2 ^ 64 ≡ c = omega (arith, h) in rw same
insert_n-leaf_tree (suc n) s c h =
    let sum : ((c + 1) % 2 ^ 64 + n) % 2 ^ 64 ≡ (c + suc n) % 2 ^ 64 = omega arith in
    rw (insert_again s c) (insert_n-leaf_tree n s ((c + 1) % 2 ^ 64) (omega arith) ∙ rw sum)

-- Inserting a stream into a new tree once and `n` times more leaves one leaf, whose count is `n`:
-- the first insertion is not counted.
insert_n-counts :
    (n : ℕ) (s : Stream) → insert_n (suc n) s new_tree ≡ ok (some (leaf_tree s (n % 2 ^ 64)))
unfolding insert_n insert push_node make_leaf alloc_node
insert_n-counts n s =
    let none_yet : 0 + n ≡ n = omega arith in
    rw none_yet at (insert_n-leaf_tree n s 0 (omega arith))
