-- ===== src/Art/Insert/Search.antt =====
-- search of src/lib/art/art.c over the heap of insert.
use callstack_count.Prelude.{
  ℕ, zero, suc, ◌+◌, ◌^◌, ◌≤◌, ◌<◌, ◌≡◌, ◌≢◌, inl, inr, Bool, ◌&&◌, not, Option, none, some, arith,
  ◌==◌, if◌then◌else◌, Bool-cases, Run, ok, ◌>>=◌, Run-cases,
}
use callstack_count.Art.{
  Stream, Node, is_leaf, find_child, check_prefix, stream_get, stream_size, memcmp_zero,
}
use callstack_count.Art.Prefix.{check_prefix-IsCommon}
use callstack_count.Art.Insert.{ArtState, load_node}

unfoldable pub leaf_matches : Node ℕ → Stream → Bool
leaf_matches node s =
    node.key_len == stream_size s && memcmp_zero node.key s.data_bytes node.key_len

-- The call of search on the child of an inner node; none where there is no slot.
unfoldable pub search_child :
    Node ℕ → Option ℕ → (Option ℕ → Run (Option (Option ℕ))) → Run (Option (Option ℕ))
search_child node none next = ok (some none)
search_child node (some i) next = next (node.arr i)

-- search, where it ends within the fuel: the node that it returns, or NULL.
unfoldable pub search : ℕ → Option ℕ → Stream → ℕ → ArtState → Run (Option (Option ℕ))
unfolding search_child
search zero q s depth st = ok none
search (suc fuel) none s depth st = ok (some none)
search (suc fuel) (some p) s depth st =
    let next = λ (q : Option ℕ). λ (d : ℕ). search fuel q s d st in
    load_node p st >>= λ node.
    if is_leaf node
    then ok (some (if leaf_matches node s then some p else none))
    else (if not (check_prefix node s depth == node.prefix_len)
        then ok (some none)
        else (let depth' = depth + node.prefix_len in
            if depth' == stream_size s
            then ok (some (some p))
            else find_child node (stream_get s depth') >>= λ i.
                search_child node i (λ q. next q (depth' + 1))))

-- The prefix of a node that check_prefix accepts ends within the stream.
prefix_within :
    (node : Node ℕ) (s : Stream) (depth : ℕ)
    → depth ≤ s.size
    → s.size < 2 ^ 32
    → check_prefix node s depth ≡ node.prefix_len
    → depth + node.prefix_len ≤ s.size
prefix_within node s depth lo small e =
    let c = check_prefix-IsCommon node s depth lo small in ground (arith, c.bounded, e, lo)

search_from-ends :
    (fuel : ℕ) (q : Option ℕ) (s : Stream) (depth : ℕ) (st : ArtState)
    → depth ≤ s.size
    → s.size < 2 ^ 32
    → s.size < fuel + depth
    → search fuel q s depth st ≢ ok none
unfolding search stream_size
search_from-ends zero q s depth st lo small hi h = omega (arith, lo, hi)
search_from-ends (suc fuel) none s depth st lo small hi h = cc
search_from-ends (suc fuel) (some p) s depth st lo small hi h = elim (Run-cases (load_node p st)) [
  | inr (x, e) ↦ let bad = rw (search, e, ◌>>=◌) at h in cc
  | inl (node, e) ↦ elim (Bool-cases (is_leaf node)) [
    | inl lf ↦ let bad = rw (search, e, ◌>>=◌, lf) at h in cc
    | inr inner ↦ elim (Bool-cases (check_prefix node s depth == node.prefix_len)) [
      | inr differs ↦ let bad = rw (search, e, ◌>>=◌, inner, differs) at h in cc
      | inl agrees ↦ elim (Bool-cases (depth + node.prefix_len == s.size)) [
        | inl over ↦ let bad = rw (search, e, ◌>>=◌, inner, agrees, over) at h in cc
        | inr more ↦ elim (Run-cases (find_child node (stream_get s (depth + node.prefix_len)))) [
          | inr (x, f) ↦ let bad = rw (search, e, ◌>>=◌, inner, agrees, more, f) at h in cc
          | inl (none, f) ↦
              let bad = rw (search, e, ◌>>=◌, inner, agrees, more, f, search_child) at h in cc
          | inl (some i, f) ↦
              let equal : check_prefix node s depth ≡ node.prefix_len = ground (arith, agrees) in
              let within = prefix_within node s depth lo small equal in
              search_from-ends fuel (node.arr i) s (depth + node.prefix_len + 1) st
                (ground (arith, within, more)) small (omega (arith, hi))
                (rw (search, e, ◌>>=◌, inner, agrees, more, f, search_child) at h)
        ]
      ]
    ]
  ]
]

-- On a stream below 2 ^ 32 bytes search ends, whatever the heap is, and calls itself at most once
-- for each byte of the stream.
pub search-ends :
    (q : Option ℕ) (s : Stream) (st : ArtState)
    → s.size < 2 ^ 32
    → search (s.size + 1) q s 0 st ≢ ok none
search-ends q s st small h =
    search_from-ends (s.size + 1) q s 0 st (omega arith) small (omega arith) h
