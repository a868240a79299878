-- ===== src/Hashtable/Counts.antt =====
-- hash_insert of src/lib/hashtable/hashtable.c as long as the internal buckets suffice.
use callstack_count.Prelude.{
  ℕ, zero, suc, ◌+◌, ◌%◌, ◌^◌, ◌≤◌, ◌<◌, ◌≡◌, refl, sym, ap, ◌∙◌, ◌⊎◌, inl, inr, true, ◌&&◌, Option,
  none, some, List, [], ◌∷◌, arith, ◌==◌, leb, ltb, length, get_or, set, take, length-take,
  length-set, get_or-set_ne, Bool-cases, ok, ◌>>=◌,
}
use callstack_count.Hashtable.{
  Stream, Bucket, empty_bucket, Hashtable, HashState, max_internal, alloc_table, inc, load,
  load_key, stream_len, memcmp_zero, find_internal, hit_internal, fill_internal, count_new,
  count_hit, hash_insert,
}

-- All that was counted.
pub total_count : List Bucket → ℕ
total_count [] = 0
total_count (b ∷ bs) = b.count + total_count bs

total_count-set :
    (bs : List Bucket) (i : ℕ) (b : Bucket)
    → i < length bs
    → total_count (set bs i b) + (get_or bs i empty_bucket).count ≡ total_count bs + b.count
unfolding total_count
total_count-set [] i b h = elim h [ ]
total_count-set (a ∷ bs) zero b h = omega arith
total_count-set (a ∷ bs) (suc i) b h = omega (arith, total_count-set bs i b (omega (arith, h)))

pub count-total_count :
    (bs : List Bucket) (i : ℕ) → (get_or bs i empty_bucket).count ≤ total_count bs
unfolding total_count
count-total_count [] i = omega arith
count-total_count (b ∷ bs) zero = omega arith
count-total_count (b ∷ bs) (suc i) = omega (arith, count-total_count bs i)

module _ (streams : ℕ → Option Stream) where
  -- The key of a bucket points to a stream that lives.
  abbrev pub IsLive : Bucket → Type 0
  IsLive b = (p : ℕ) × (s : Stream) × (b.key ≡ some p) × (streams p ≡ some s)

  abbrev pub AreLive : List Bucket → Type 0
  AreLive [] = Unit
  AreLive (b ∷ bs) = IsLive b × AreLive bs

  AreLive-recount :
      (n i c : ℕ) (bs : List Bucket)
      → AreLive (take n bs)
      → AreLive (take n (set bs i (record (get_or bs i empty_bucket) { count = c })))
  AreLive-recount zero i c bs h = tt
  AreLive-recount (suc n) i c [] h = tt
  AreLive-recount (suc n) zero c (b ∷ bs) h = ((h.0.0, h.0.1, h.0.2, h.0.3), h.1)
  AreLive-recount (suc n) (suc i) c (b ∷ bs) h = (h.0, AreLive-recount n i c bs h.1)

  AreLive-fill :
      (n : ℕ) (b : Bucket) (bs : List Bucket)
      → AreLive (take n bs)
      → IsLive b
      → AreLive (take (n + 1) (set bs n b))
  AreLive-fill zero b [] h l = tt
  AreLive-fill zero b (a ∷ bs) h l = (l, tt)
  AreLive-fill (suc n) b [] h l = let next : suc n + 1 ≡ suc (n + 1) = omega arith in rw next tt
  AreLive-fill (suc n) b (a ∷ bs) h l =
      let next : suc n + 1 ≡ suc (n + 1) = omega arith in rw next (h.0, AreLive-fill n b bs h.1 l)

-- What hash_insert keeps as long as it uses the internal buckets: the first `num_internal` have
-- live keys, the others are clear, `unique` is their number, and the counts add up to all insertions.
pub record IsInternal (streams : ℕ → Option Stream) (t : Hashtable) : Type 0 where
  pub sized : length t.internal ≡ max_internal
  pub few : t.num_internal ≤ max_internal
  pub live : AreLive streams (take t.num_internal t.internal)
  pub clear : (i : ℕ) → t.num_internal ≤ i → get_or t.internal i empty_bucket ≡ empty_bucket
  pub distinct : t.unique ≡ t.num_internal
  pub counted : total_count t.internal ≡ t.hits + t.unique

three_clear :
    (i : ℕ) → get_or (empty_bucket ∷ empty_bucket ∷ empty_bucket ∷ []) i empty_bucket ≡ empty_bucket
three_clear zero = refl
three_clear (suc zero) = refl
three_clear (suc (suc zero)) = refl
three_clear (suc (suc (suc i))) = refl

pub alloc_table-IsInternal : (streams : ℕ → Option Stream) → IsInternal streams alloc_table
unfolding alloc_table total_count
alloc_table-IsInternal streams = record {
  sized = refl;
  few = omega arith;
  live = tt;
  clear = λ i h. three_clear i;
  distinct = refl;
  counted = refl;
}

module _ (bytes : ℕ → ℕ) (streams : ℕ → Option Stream) (jhash : List ℕ → ℕ → ℕ) where
  pub find_internal-live :
      (bs : List Bucket) (s : Stream)
      → AreLive streams bs
      → (find_internal bytes streams jhash bs s ≡ ok none)
        ⊎ ((i : ℕ) × (find_internal bytes streams jhash bs s ≡ ok (some i)) × (i < length bs))
  unfolding find_internal load_key
  find_internal-live [] s h = inl refl
  find_internal-live (b ∷ bs) s ((p, k, key, here), rest) =
      elim (Bool-cases (
        stream_len s == stream_len k
        && memcmp_zero bytes streams jhash k.begin s.begin (stream_len s))) [
          | inl same ↦ inr (0, rw (find_internal, key, load_key, here, ◌>>=◌, same), omega arith)
          | inr other ↦ elim (find_internal-live bs s rest) [
            | inl e ↦ inl (rw (find_internal, key, load_key, here, ◌>>=◌, other, e))
            | inr (i, e, h) ↦
                inr (
                  suc i,
                  rw (find_internal, key, load_key, here, ◌>>=◌, other, e),
                  omega (arith, h),
                )
          ]
        ]

  pub hit-IsInternal :
      (st : HashState) (i : ℕ)
      → IsInternal streams st.table
      → i < st.table.num_internal
      → st.table.hits + st.table.unique + 1 < 2 ^ 64
      → IsInternal streams (hit_internal bytes streams jhash i st).table
  unfolding hit_internal count_hit
  hit-IsInternal st i v h room =
      let b = get_or st.table.internal i empty_bucket in
      let bound = count-total_count st.table.internal i in
      let total = v.counted in
      let exact : inc b.count ≡ b.count + 1 = omega (arith, bound, total, room) in
      let hits : inc st.table.hits ≡ st.table.hits + 1 = omega (arith, room) in
      let b' : Bucket = record b { count = b.count + 1 } in
      rw (exact, hits)
        (record {
          sized = rw length-set v.sized;
          few = v.few;
          live =
              AreLive-recount streams st.table.num_internal i (b.count + 1) st.table.internal
                v.live;
          clear = λ j k.
              get_or-set_ne st.table.internal i j b' empty_bucket (λ e. omega (arith, e, h, k))
              ∙ v.clear j k;
          distinct = v.distinct;
          counted = omega (
            arith,
            total_count-set st.table.internal i b' (omega (arith, h, v.few, v.sized)),
            total,
          );
        })

  pub fill-IsInternal :
      (st : HashState) (p : ℕ) (s : Stream)
      → IsInternal streams st.table
      → streams p ≡ some s
      → st.table.num_internal < max_internal
      → st.table.hits + st.table.unique + 1 < 2 ^ 64
      → IsInternal streams (fill_internal bytes streams jhash p st).table
  unfolding fill_internal count_new
  fill-IsInternal st p s v e h room =
      let n = st.table.num_internal in
      let none_yet = v.clear n (omega arith) in
      let exact : inc (get_or st.table.internal n empty_bucket).count ≡ 1 = rw none_yet refl in
      let next : (n + 1) % 256 ≡ n + 1 = omega (arith, h) in
      let unique : inc st.table.unique ≡ st.table.unique + 1 = omega (arith, room) in
      let b' : Bucket = record { key = some p; count = 1 } in
      rw (exact, next, unique)
        (record {
          sized = rw length-set v.sized;
          few = omega (arith, h);
          live = AreLive-fill streams n b' st.table.internal v.live (p, s, refl, e);
          clear = λ j k.
              get_or-set_ne st.table.internal n j b' empty_bucket (λ f. omega (arith, f, k))
              ∙ v.clear j (omega (arith, k));
          distinct = omega (arith, v.distinct);
          counted = omega (
            arith,
            total_count-set st.table.internal n b' (omega (arith, h, v.sized)),
            ap (λ (a : Bucket). a.count) none_yet,
            v.counted,
          );
        })

  hit_internal-counters :
      (st : HashState) (i : ℕ)
      → st.table.hits + st.table.unique + 1 < 2 ^ 64
      → (hit_internal bytes streams jhash i st).table.hits
          + (hit_internal bytes streams jhash i st).table.unique
        ≡ st.table.hits + st.table.unique + 1
  unfolding hit_internal count_hit
  hit_internal-counters st i room = omega (arith, room)

  fill_internal-counters :
      (st : HashState) (p : ℕ)
      → st.table.hits + st.table.unique + 1 < 2 ^ 64
      → (fill_internal bytes streams jhash p st).table.hits
          + (fill_internal bytes streams jhash p st).table.unique
        ≡ st.table.hits + st.table.unique + 1
  unfolding fill_internal count_new
  fill_internal-counters st p room = omega (arith, room)

  -- In a table that has used internal buckets only, with live keys and counters that do not overflow:
  -- where one of these buckets is free or holds the stream, hash_insert returns, their counts add up
  -- to one more, and the table stays such that they add up to hits and unique entries.
  pub hash_insert-IsInternal :
      (st : HashState) (p : ℕ) (s : Stream)
      → IsInternal streams st.table
      → streams p ≡ some s
      → (st.table.num_internal < max_internal)
        ⊎ ((i : ℕ) × (find_internal bytes streams jhash
                (take st.table.num_internal st.table.internal)
                s
              ≡ ok (some i)))
      → st.table.hits + st.table.unique + 1 < 2 ^ 64
      → (st' : HashState) × (hash_insert bytes streams jhash p st ≡ ok st')
        × IsInternal streams st'.table
        × (total_count st'.table.internal ≡ total_count st.table.internal + 1)
  unfolding hash_insert load
  hash_insert-IsInternal st p s v e space room =
      let fast : leb st.table.num_internal max_internal ≡ true = ground (arith, v.few) in
      let n = st.table.num_internal in
      elim (find_internal-live (take n st.table.internal) s v.live) [
        | inl absent ↦
            let free : n < max_internal = elim space [
              | inl h ↦ h
              | inr (i, found) ↦ absurd (let same = sym absent ∙ found in cc)
            ] in
            let yes : ltb n max_internal ≡ true = ground (arith, free) in
            let v' = fill-IsInternal st p s v e free room in
            (
              fill_internal bytes streams jhash p st,
              rw (fast, load, e, ◌>>=◌, absent, yes),
              v',
              omega (arith, v'.counted, v.counted, fill_internal-counters st p room),
            )
        | inr (i, found, h) ↦
            let used : i < n = omega (arith, h, length-take n st.table.internal) in
            let v' = hit-IsInternal st i v used room in
            (
              hit_internal bytes streams jhash i st,
              rw (fast, load, e, ◌>>=◌, found),
              v',
              omega (arith, v'.counted, v.counted, hit_internal-counters st i room),
            )
      ]
