-- ===== src/Hashtable/First.antt =====
-- The loops of hash_insert and hash_lookup in src/lib/hashtable/hashtable.c over the internal buckets.
use callstack_count.Prelude.{
  ℕ, suc, ◌^◌, ◌%◌, ◌-◌, ◌≡◌, refl, sym, ◌∙◌, inl, inr, ◌⊎◌, true, false, Option, none, some, List,
  [], ◌∷◌, get_elem?, take, Bool-cases, ok,
}
use callstack_count.Hashtable.{Stream, Bucket, find_internal, lookup_internal}
use callstack_count.Hashtable.Counts.{AreLive}
use callstack_count.Hashtable.Keys.{
  content, key_eq, key_eq-content, find_internal-cons, lookup_internal-cons,
}

module _ (bytes : ℕ → ℕ) (streams : ℕ → Option Stream) (jhash : List ℕ → ℕ → ℕ) where
  -- The key of the bucket has the bytes of the stream.
  abbrev pub HasBytes : Bucket → Stream → Type 0
  HasBytes b s =
      (p : ℕ) × (k : Stream) × (b.key ≡ some p)
      × (streams p ≡ some k)
      × (content bytes streams jhash s ≡ content bytes streams jhash k)

  abbrev pub AreOthers : List Bucket → Stream → Type 0
  AreOthers [] s = Unit
  AreOthers (b ∷ bs) s = ¬ HasBytes b s × AreOthers bs s

  -- No bucket has the bytes of the stream.
  abbrev pub IsMissing : List Bucket → Stream → Type 0
  IsMissing bs s =
      (find_internal bytes streams jhash bs s ≡ ok none)
      × (lookup_internal bytes streams jhash bs s ≡ ok (2 ^ 32 - 1))
      × AreOthers bs s

  -- The first bucket that has the bytes of the stream is found.
  abbrev pub IsFirst : List Bucket → Stream → ℕ → Bucket → Type 0
  IsFirst bs s i b =
      (find_internal bytes streams jhash bs s ≡ ok (some i))
      × (lookup_internal bytes streams jhash bs s ≡ ok (b.count % 2 ^ 32))
      × (get_elem? bs i ≡ some b)
      × HasBytes b s
      × AreOthers (take i bs) s

  other_bytes :
      (b : Bucket) (p : ℕ) (k s : Stream)
      → b.key ≡ some p
      → streams p ≡ some k
      → key_eq bytes streams jhash s k ≡ false
      → ¬ HasBytes b s
  other_bytes b p k s key here other (q, t, key', there, equal) =
      let addr : p ≡ q = cc in
      let stream : t ≡ k = cc in
      let same : key_eq bytes streams jhash s t ≡ true =
        (key_eq-content bytes streams jhash s t).1 equal in
      let bad : true ≡ false = sym (rw stream at same) ∙ other in cc

  -- On internal buckets with live keys, either the loop of hash_insert finds none, that of
  -- hash_lookup gives -1, and no bucket's key has the bytes of the stream; or the loop of hash_insert
  -- finds a bucket whose key has these bytes while none before it has, and that of hash_lookup gives
  -- its count.
  pub find_internal-IsFirst :
      (bs : List Bucket) (s : Stream)
      → AreLive streams bs
      → IsMissing bs s ⊎ ((i : ℕ) × (b : Bucket) × IsFirst bs s i b)
  unfolding find_internal lookup_internal
  find_internal-IsFirst [] s live = inl (refl, refl, tt)
  find_internal-IsFirst (b ∷ bs) s ((p, k, key, here), live) =
      let found = find_internal-cons bytes streams jhash b bs p k s key here in
      let looked = lookup_internal-cons bytes streams jhash b bs p k s key here in
      elim (Bool-cases (key_eq bytes streams jhash s k)) [
        | inl same ↦
            let equal = (key_eq-content bytes streams jhash s k).0 same in
            inr (0, b, (found ∙ rw same, looked ∙ rw same, refl, (p, k, key, here, equal), tt))
        | inr other ↦
            let away = other_bytes b p k s key here other in
            elim (find_internal-IsFirst bs s live) [
              | inl (none_found, minus, others) ↦
                  inl (found ∙ rw (other, none_found), looked ∙ rw (other, minus), (away, others))
              | inr (i, c, (at, count, elem, has, others)) ↦ inr (
                suc i,
                c,
                (found ∙ rw (other, at), looked ∙ rw (other, count), elem, has, (away, others)),
              )
            ]
      ]
