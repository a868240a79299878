-- ===== src/Hashtable/Lookup.antt =====
-- hash_lookup of src/lib/hashtable/hashtable.c after hash_insert, as long as the internal buckets
-- suffice.
use callstack_count.Prelude.{
  ℕ, zero, suc, ◌+◌, ◌<◌, ◌^◌, ◌%◌, ◌≡◌, refl, sym, ap, ◌∙◌, ◌⊎◌, inl, inr, true, false, Option,
  none, some, List, [], ◌∷◌, ◌++◌, arith, leb, ltb, if◌then◌else◌, length, get_or, set, take,
  length-take, ok, ◌>>=◌,
}
use callstack_count.Hashtable.{
  Stream, Bucket, empty_bucket, HashState, max_internal, inc, load, find_internal, hit_internal,
  fill_internal, count_new, count_hit, hash_insert, hash_lookup,
}
use callstack_count.Hashtable.Counts.{
  IsInternal, find_internal-live, count-total_count, hit-IsInternal, fill-IsInternal,
}
use callstack_count.Hashtable.Keys.{
  key_eq, seen, as_int, once_more, lookup_internal-seen, find_internal-seen, seen-recount,
  seen-append,
}

take-set : (n i : ℕ) (b : Bucket) (bs : List Bucket) → take n (set bs i b) ≡ set (take n bs) i b
take-set zero i b bs = refl
take-set (suc n) i b [] = refl
take-set (suc n) zero b (a ∷ bs) = refl
take-set (suc n) (suc i) b (a ∷ bs) = ap (λ xs. a ∷ xs) (take-set n i b bs)

get_or-take :
    (n i : ℕ) (bs : List Bucket)
    → i < length (take n bs)
    → get_or (take n bs) i empty_bucket ≡ get_or bs i empty_bucket
get_or-take zero i bs h = elim h [ ]
get_or-take (suc n) i [] h = elim h [ ]
get_or-take (suc n) zero (a ∷ bs) h = refl
get_or-take (suc n) (suc i) (a ∷ bs) h = get_or-take n i bs (omega arith)

take-set_last :
    (n : ℕ) (b : Bucket) (bs : List Bucket)
    → n < length bs
    → take (n + 1) (set bs n b) ≡ take n bs ++ b ∷ []
take-set_last n b [] h = elim h [ ]
take-set_last zero b (a ∷ bs) h = refl
take-set_last (suc n) b (a ∷ bs) h =
    let next : suc n + 1 ≡ suc (n + 1) = omega arith in
    rw next (ap (λ xs. a ∷ xs) (take-set_last n b bs (omega arith)))

module _ (bytes : ℕ → ℕ) (streams : ℕ → Option Stream) (jhash : List ℕ → ℕ → ℕ) where
  -- What the buckets in use have counted for a stream.
  abbrev pub seen_in : HashState → Stream → Option ℕ
  seen_in st s = seen bytes streams jhash (take st.table.num_internal st.table.internal) s

  -- Without the indirect buckets, hash_lookup returns that count, or -1.
  pub hash_lookup-seen :
      (st : HashState) (p : ℕ) (s : Stream)
      → IsInternal streams st.table
      → streams p ≡ some s
      → hash_lookup bytes streams jhash p st ≡ ok (as_int (seen_in st s))
  unfolding hash_lookup load
  hash_lookup-seen st p s v e =
      let fast : ltb max_internal st.table.num_internal ≡ false = ground (arith, v.few) in
      rw (load, e, ◌>>=◌, fast) (lookup_internal-seen bytes streams jhash _ s v.live)

  -- What one more insertion of `s` does to the counts.
  pub record CountsOnce (st st' : HashState) (s : Stream) : Type 0 where
    pub kept : IsInternal streams st'.table
    pub counts :
        (t : Stream)
        → seen_in st' t ≡ (
            if key_eq bytes streams jhash t s
            then some (once_more (seen_in st t))
            else seen_in st t)

  hit-CountsOnce :
      (st : HashState) (s : Stream) (i : ℕ)
      → IsInternal streams st.table
      → find_internal bytes streams jhash (take st.table.num_internal st.table.internal) s
        ≡ ok (some i)
      → i < length (take st.table.num_internal st.table.internal)
      → st.table.hits + st.table.unique + 1 < 2 ^ 64
      → CountsOnce st (hit_internal bytes streams jhash i st) s
  unfolding hit_internal count_hit
  hit-CountsOnce st s i v found h room =
      let n = st.table.num_internal in
      let used : i < n = omega (arith, h, length-take n st.table.internal) in
      let b = get_or st.table.internal i empty_bucket in
      let exact : inc b.count ≡ b.count + 1 =
        omega (arith, count-total_count st.table.internal i, v.counted, room) in
      let b' : Bucket = record b { count = b.count + 1 } in
      let first = get_or-take n i st.table.internal h in
      record {
        kept = hit-IsInternal bytes streams jhash st i v used room;
        counts = λ t.
            rw (exact, take-set n i b' st.table.internal)
              (rw first at
                (seen-recount bytes streams jhash (take n st.table.internal) s i t v.live found));
      }

  fill-CountsOnce :
      (st : HashState) (p : ℕ) (s : Stream)
      → IsInternal streams st.table
      → streams p ≡ some s
      → find_internal bytes streams jhash (take st.table.num_internal st.table.internal) s ≡ ok none
      → st.table.num_internal < max_internal
      → st.table.hits + st.table.unique + 1 < 2 ^ 64
      → CountsOnce st (fill_internal bytes streams jhash p st) s
  unfolding fill_internal count_new
  fill-CountsOnce st p s v e absent free room =
      let n = st.table.num_internal in
      let none_yet = v.clear n (omega arith) in
      let exact : inc (get_or st.table.internal n empty_bucket).count ≡ 1 = rw none_yet refl in
      let next : (n + 1) % 256 ≡ n + 1 = omega (arith, free) in
      let b' : Bucket = record { key = some p; count = 1 } in
      let whole = take-set_last n b' st.table.internal (omega (arith, free, v.sized)) in
      record {
        kept = fill-IsInternal bytes streams jhash st p s v e free room;
        counts = λ t.
            rw (exact, next, whole)
              (seen-append bytes streams jhash (take n st.table.internal) p s t v.live e
                (find_internal-seen bytes streams jhash _ s v.live absent));
      }

  -- In a table that has used internal buckets only, with live keys and counters that do not overflow:
  -- where one of these buckets is free or holds the stream, hash_insert returns, and afterwards
  -- hash_lookup of a stream gives, as an int, the count that the internal buckets had for its bytes, or
  -- -1 where they had none, but for the bytes inserted one more than that count, or 1.
  pub hash_insert-lookup :
      (st : HashState) (p : ℕ) (s : Stream)
      → IsInternal streams st.table
      → streams p ≡ some s
      → (st.table.num_internal < max_internal)
        ⊎ ((i : ℕ) × (find_internal bytes streams jhash
                (take st.table.num_internal st.table.internal)
                s
              ≡ ok (some i)))
      → st.table.hits + st.table.unique + 1 < 2 ^ 64
      → (st' : HashState) × (hash_insert bytes streams jhash p st ≡ ok st')
        × CountsOnce st st' s
        × ((q : ℕ) (t : Stream)
            → streams q ≡ some t
            → hash_lookup bytes streams jhash q st'
              ≡ ok (
                  as_int (
                    if key_eq bytes streams jhash t s
                    then some (once_more (seen_in st t))
                    else seen_in st t)))
  unfolding hash_insert load
  hash_insert-lookup st p s v e space room =
      let n = st.table.num_internal in
      let fast : leb n max_internal ≡ true = ground (arith, v.few) in
      elim (find_internal-live bytes streams jhash (take n st.table.internal) s v.live) [
        | inl absent ↦
            let free : n < max_internal = elim space [
              | inl h ↦ h
              | inr (i, found) ↦ absurd (let same = sym absent ∙ found in cc)
            ] in
            let more : ltb n max_internal ≡ true = ground (arith, free) in
            let done = fill-CountsOnce st p s v e absent free room in
            (
              fill_internal bytes streams jhash p st,
              rw (fast, load, e, ◌>>=◌, absent, more),
              done,
              λ q t f. hash_lookup-seen _ q t done.kept f ∙ rw (done.counts t),
            )
        | inr (i, found, h) ↦
            let done = hit-CountsOnce st s i v found h room in
            (
              hit_internal bytes streams jhash i st,
              rw (fast, load, e, ◌>>=◌, found),
              done,
              λ q t f. hash_lookup-seen _ q t done.kept f ∙ rw (done.counts t),
            )
      ]
