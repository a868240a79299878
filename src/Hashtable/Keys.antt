-- ===== src/Hashtable/Keys.antt =====
-- When two streams count as the same key in src/lib/hashtable/hashtable.c, and what the internal
-- buckets hold for a stream.
use callstack_count.Prelude.{
  ℕ, zero, suc, ◌+◌, ◌≡◌, ◌↔◌, refl, sym, ap, ◌∙◌, inl, inr, Bool, true, false, ◌&&◌, Option, none,
  some, List, [], ◌∷◌, ◌++◌, arith, ◌==◌, ◌^◌, ◌%◌, ◌-◌, if◌then◌else◌, length, get_or, set,
  Bool-cases, Run, ok, fault, ◌>>=◌,
}
use callstack_count.Hashtable.{
  Stream, Bucket, empty_bucket, load, load_key, stream_len, read, memcmp_zero, find_internal,
  lookup_internal,
}
use callstack_count.Hashtable.Counts.{AreLive}

-- The int that stands for a count, or -1.
abbrev pub as_int : Option ℕ → ℕ
as_int none = 2 ^ 32 - 1
as_int (some c) = c % 2 ^ 32

-- What it adds to count an insertion.
abbrev pub once_more : Option ℕ → ℕ
once_more none = 1
once_more (some c) = c + 1

none_of_shift :
    (r : Run (Option ℕ))
    → (r >>= λ o. ok (elim o [ none ↦ none | some i ↦ some (suc i) ])) ≡ ok none
    → r ≡ ok none
none_of_shift (ok none) e = refl
none_of_shift (ok (some i)) e = cc
none_of_shift (fault x) e = cc

some_of_shift :
    (r : Run (Option ℕ)) (i : ℕ)
    → (r >>= λ o. ok (elim o [ none ↦ none | some j ↦ some (suc j) ])) ≡ ok (some i)
    → (j : ℕ) × (i ≡ suc j) × (r ≡ ok (some j))
some_of_shift (ok none) i e = cc
some_of_shift (ok (some j)) i e = (j, (let same : suc j ≡ i = cc in sym same), refl)
some_of_shift (fault x) i e = cc

module _ (bytes : ℕ → ℕ) (streams : ℕ → Option Stream) (jhash : List ℕ → ℕ → ℕ) where
  -- The bytes of a stream.
  abbrev pub content : Stream → List ℕ
  content s = read bytes streams jhash s.begin (stream_len s)

  -- The test of hash_insert and hash_lookup.
  abbrev pub key_eq : Stream → Stream → Bool
  key_eq s k =
      stream_len s == stream_len k && memcmp_zero bytes streams jhash k.begin s.begin (stream_len s)

  memcmp_zero-read :
      (a b n : ℕ)
      → (memcmp_zero bytes streams jhash a b n ≡ true)
        ↔ (read bytes streams jhash a n ≡ read bytes streams jhash b n)
  unfolding memcmp_zero read
  memcmp_zero-read a b zero = (λ h. refl, λ h. refl)
  memcmp_zero-read a b (suc n) =
      let (to, back) = memcmp_zero-read (a + 1) (b + 1) n in
      (
        (λ h.
            let first : bytes a ≡ bytes b = ground (arith, h) in
            let rest = to (ground (arith, h)) in cc),
        (λ h.
            let first : bytes a ≡ bytes b = cc in
            let rest = back (cc) in ground (arith, first, rest)),
      )

  length-read : (a n : ℕ) → length (read bytes streams jhash a n) ≡ n
  unfolding read
  length-read a zero = refl
  length-read a (suc n) = ap suc (length-read (a + 1) n)

  -- The test compares the bytes of the two streams.
  pub key_eq-content : (s k : Stream) → (key_eq s k ≡ true) ↔ (content s ≡ content k)
  key_eq-content s k = (
    (λ h.
        let len : stream_len s ≡ stream_len k = ground (arith, h) in
        let same : memcmp_zero bytes streams jhash k.begin s.begin (stream_len s) ≡ true =
          ground (arith, h) in
        rw (← len) (sym ((memcmp_zero-read k.begin s.begin (stream_len s)).0 same))),
    (λ h.
        let len : stream_len s ≡ stream_len k =
          sym (length-read s.begin (stream_len s))
          ∙ ap length h
          ∙ length-read k.begin (stream_len k) in
        let same = (memcmp_zero-read k.begin s.begin (stream_len s)).1 (sym (rw (← len) at h)) in
        ground (arith, len, same)),
  )

  pub key_eq_self : (s : Stream) → key_eq s s ≡ true
  key_eq_self s = (key_eq-content s s).1 refl

  -- With equal bytes, a third stream compares alike with both.
  pub key_eq_congr : (s k t : Stream) → key_eq s k ≡ true → key_eq t s ≡ key_eq t k
  key_eq_congr s k t h =
      let same = (key_eq-content s k).0 h in
      elim (Bool-cases (key_eq t s)) [
        | inl e ↦ e ∙ sym ((key_eq-content t k).1 ((key_eq-content t s).0 e ∙ same))
        | inr e ↦ elim (Bool-cases (key_eq t k)) [
          | inr f ↦ e ∙ sym f
          | inl f ↦
              let g = (key_eq-content t s).1 ((key_eq-content t k).0 f ∙ sym same) in
              absurd (let bad : true ≡ false = sym g ∙ e in cc)
        ]
      ]

  pub key_eq_sym : (s k : Stream) → key_eq s k ≡ true → key_eq k s ≡ true
  key_eq_sym s k h = (key_eq-content k s).1 (sym ((key_eq-content s k).0 h))

  apart_of : (t s k : Stream) → key_eq t k ≡ true → key_eq s k ≡ false → key_eq t s ≡ false
  apart_of t s k hit other = elim (Bool-cases (key_eq t s)) [
    | inr e ↦ e
    | inl e ↦
        let clash = key_eq_congr t k s hit in
        let back = key_eq_sym t s e in
        absurd (let bad : true ≡ false = sym back ∙ clash ∙ other in cc)
  ]

  -- The count that the first bucket with the bytes of a stream has.
  unfoldable pub seen : List Bucket → Stream → Option ℕ
  seen [] s = none
  seen (b ∷ bs) s = elim (load_key bytes streams jhash b.key) [
    | fault x ↦ seen bs s
    | ok k ↦ let rest = seen bs s in if key_eq s k then some b.count else rest
  ]

  seen-cons :
      (b : Bucket) (bs : List Bucket) (p : ℕ) (k t : Stream)
      → b.key ≡ some p
      → streams p ≡ some k
      → seen (b ∷ bs) t ≡ (if key_eq t k then some b.count else seen bs t)
  unfolding seen load_key load
  seen-cons b bs p k t key here =
      let got : load_key bytes streams jhash b.key ≡ ok k = rw (key, load_key, load, here) in
      rw (seen, got)

  pub lookup_internal-cons :
      (b : Bucket) (bs : List Bucket) (p : ℕ) (k s : Stream)
      → b.key ≡ some p
      → streams p ≡ some k
      → lookup_internal bytes streams jhash (b ∷ bs) s
        ≡ (if key_eq s k then ok (b.count % 2 ^ 32) else lookup_internal bytes streams jhash bs s)
  unfolding lookup_internal load
  lookup_internal-cons b bs p k s key here =
      let got : load bytes streams jhash p ≡ ok k = rw (load, here) in
      rw (lookup_internal, key, got, ◌>>=◌)

  -- On live keys, the loop of hash_lookup reads that count.
  pub lookup_internal-seen :
      (bs : List Bucket) (s : Stream)
      → AreLive streams bs
      → lookup_internal bytes streams jhash bs s ≡ ok (as_int (seen bs s))
  unfolding lookup_internal seen
  lookup_internal-seen [] s h = refl
  lookup_internal-seen (b ∷ bs) s ((p, k, key, here), rest) =
      let ih = lookup_internal-seen bs s rest in
      rw (lookup_internal-cons b bs p k s key here, seen-cons b bs p k s key here)
        (elim (Bool-cases (key_eq s k)) [ inl same ↦ rw same | inr other ↦ rw other ih ])

  pub find_internal-cons :
      (b : Bucket) (bs : List Bucket) (p : ℕ) (k s : Stream)
      → b.key ≡ some p
      → streams p ≡ some k
      → find_internal bytes streams jhash (b ∷ bs) s ≡ (
          if key_eq s k
          then ok (some 0)
          else find_internal bytes streams jhash bs s >>= λ r.
              ok (elim r [ none ↦ none | some i ↦ some (suc i) ]))
  unfolding find_internal load_key load
  find_internal-cons b bs p k s key here = rw (key, here, load, ◌>>=◌)

  -- A loop of hash_insert that finds nothing has seen nothing.
  pub find_internal-seen :
      (bs : List Bucket) (s : Stream)
      → AreLive streams bs
      → find_internal bytes streams jhash bs s ≡ ok none
      → seen bs s ≡ none
  unfolding seen
  find_internal-seen [] s h e = refl
  find_internal-seen (b ∷ bs) s ((p, k, key, here), rest) e =
      let step = sym (find_internal-cons b bs p k s key here) ∙ e in
      elim (Bool-cases (key_eq s k)) [
        | inl same ↦
            absurd
              (let bad : ◌≡◌ {A = Run (Option ℕ)} (ok (some 0)) (ok none) = rw same at step in cc)
        | inr other ↦
            let later = rw other at step in
            seen-cons b bs p k s key here
            ∙ rw other (find_internal-seen bs s rest (none_of_shift _ later))
      ]

  -- Counting the bucket that the loop found counts its bytes, for every stream.
  pub seen-recount :
      (bs : List Bucket) (s : Stream) (i : ℕ) (t : Stream)
      → AreLive streams bs
      → find_internal bytes streams jhash bs s ≡ ok (some i)
      → seen
          (set bs i
            (record (get_or bs i empty_bucket) { count = (get_or bs i empty_bucket).count + 1 }))
          t
        ≡ (if key_eq t s then some (once_more (seen bs t)) else seen bs t)
  unfolding find_internal
  seen-recount [] s i t h e = cc
  seen-recount (b ∷ bs) s i t ((p, k, key, here), rest) e =
      let step = sym (find_internal-cons b bs p k s key here) ∙ e in
      let old = seen-cons b bs p k t key here in
      elim (Bool-cases (key_eq s k)) [
        | inl same ↦
            let first : ◌≡◌ {A = Run (Option ℕ)} (ok (some 0)) (ok (some i)) = rw same at step in
            let zero_i : 0 ≡ i = cc in
            rw (← zero_i, old, key_eq_congr s k t same)
              (seen-cons (record b { count = b.count + 1 }) bs p k t key here ∙ ground arith)
        | inr other ↦
            let later = rw other at step in
            let (j, next, found) = some_of_shift _ i later in
            let ih = seen-recount bs s j t rest found in
            rw (next, old)
              (seen-cons b _ p k t key here ∙ elim (Bool-cases (key_eq t k)) [
                | inr away ↦ rw away ih
                | inl hit ↦
                    let apart : key_eq t s ≡ false = apart_of t s k hit other in rw (hit, apart)
              ])
      ]

  -- A new bucket behind the others counts its bytes once, where they were not seen before.
  pub seen-append :
      (bs : List Bucket) (p : ℕ) (s t : Stream)
      → AreLive streams bs
      → streams p ≡ some s
      → seen bs s ≡ none
      → seen (bs ++ record { key = some p; count = 1 } ∷ []) t
        ≡ (if key_eq t s then some (once_more (seen bs t)) else seen bs t)
  unfolding seen
  seen-append [] p s t h here e = seen-cons (record { key = some p; count = 1 }) [] p s t refl here
  seen-append (b ∷ bs) p s t ((q, k, key, at), rest) here e =
      let old = seen-cons b bs q k t key at in
      let head = sym (seen-cons b bs q k s key at) ∙ e in
      elim (Bool-cases (key_eq s k)) [
        | inl same ↦
            absurd (let bad : ◌≡◌ {A = Option ℕ} (some b.count) none = rw same at head in cc)
        | inr other ↦
            let ih = seen-append bs p s t rest here (rw other at head) in
            rw old (
              seen-cons b _ q k t key at ∙ elim (Bool-cases (key_eq t k)) [
                | inr away ↦ rw away ih
                | inl hit ↦
                    let apart : key_eq t s ≡ false = apart_of t s k hit other in rw (hit, apart)
              ])
      ]
