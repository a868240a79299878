-- ===== src/Hashtable/Slow.antt =====
-- The indirect buckets of src/lib/hashtable/hashtable.c: __hash_insert, and the expansion in
-- hash_insert that moves the internal buckets there.
use callstack_count.Prelude.{
  ℕ, ◌+◌, ◌<◌, ◌^◌, ◌%◌, ◌≡◌, ◌≢◌, refl, ap, ◌∙◌, inl, inr, true, false, Option, none, some, List,
  [], ◌∷◌, arith, ◌==◌, leb, ltb, if◌then◌else◌, length, take, Bool-cases, ok, fault, assertion,
  ◌>>=◌,
}
use callstack_count.Hashtable.{
  Stream, Bucket, HashState, max_internal, inc, load, load_key, stream_len, memcmp_zero,
  jenkins_hash, bump_slot, set_slot, find_internal, count_new, count_hit, hash_insert_slow,
  insert_keys, expand, hash_insert, hash_lookup,
}

module _ (bytes : ℕ → ℕ) (streams : ℕ → Option Stream) (jhash : List ℕ → ℕ → ℕ) where
  abbrev pub slot_of : Stream → ℕ
  slot_of s = jenkins_hash bytes streams jhash s

  -- A key that was never in its slot.
  abbrev pub with_new : ℕ → Stream → HashState → HashState
  with_new p s st = record {
    table = record (count_new bytes streams jhash st).table {
      slots =
          set_slot bytes streams jhash st.table.slots (slot_of s)
            (record { key = some p; count = 1 });
    };
    num_unique_entries = (count_new bytes streams jhash st).num_unique_entries;
  }

  -- A key whose slot is taken by a bucket with equal bytes.
  abbrev pub with_hit : Stream → Bucket → HashState → HashState
  with_hit s b st = record {
    table = record (count_hit bytes streams jhash st).table {
      slots =
          set_slot bytes streams jhash st.table.slots (slot_of s)
            (record b { count = inc b.count });
    };
    num_unique_entries = (count_hit bytes streams jhash st).num_unique_entries;
  }

  pub slow_new :
      (p : ℕ) (s : Stream) (st : HashState)
      → streams p ≡ some s
      → st.table.slots (slot_of s) ≡ none
      → hash_insert_slow bytes streams jhash (some p) st ≡ ok (with_new p s st)
  unfolding hash_insert_slow bump_slot load
  slow_new p s st e free = rw (load, e, ◌>>=◌, free, bump_slot)

  -- A stream whose slot is taken.
  pub hash_insert_slow-taken :
      (p q : ℕ) (s k : Stream) (b : Bucket) (st : HashState)
      → streams p ≡ some s
      → st.table.slots (slot_of s) ≡ some b
      → b.key ≡ some q
      → streams q ≡ some k
      → hash_insert_slow bytes streams jhash (some p) st ≡ (
          if memcmp_zero bytes streams jhash k.begin s.begin (stream_len s)
          then ok (with_hit s b st)
          else fault assertion)
  unfolding hash_insert_slow bump_slot load load_key
  hash_insert_slow-taken p q s k b st e taken key f =
      let got : load_key bytes streams jhash b.key ≡ ok k = rw (key, load_key, load, f) in
      elim (Bool-cases (memcmp_zero bytes streams jhash k.begin s.begin (stream_len s))) [
        | inl same ↦ rw (load, e, ◌>>=◌, taken, bump_slot, got, same)
        | inr other ↦ rw (load, e, ◌>>=◌, taken, bump_slot, got, other)
      ]

  -- The keys of buckets, with their streams.
  abbrev pub HaveKeys : List Bucket → List (ℕ × Stream) → Type 0
  HaveKeys [] [] = Unit
  HaveKeys [] (k ∷ ks) = ⊥
  HaveKeys (b ∷ bs) [] = ⊥
  HaveKeys (b ∷ bs) (k ∷ ks) = (b.key ≡ some k.0) × (streams k.0 ≡ some k.1) × HaveKeys bs ks

  -- None of the keys hashes to a slot.
  abbrev pub AreApart : ℕ → List (ℕ × Stream) → Type 0
  AreApart h [] = Unit
  AreApart h (k ∷ ks) = (slot_of k.1 ≢ h) × AreApart h ks

  -- No two keys share a slot.
  abbrev pub HaveOwnSlots : List (ℕ × Stream) → Type 0
  HaveOwnSlots [] = Unit
  HaveOwnSlots (k ∷ ks) = AreApart (slot_of k.1) ks × HaveOwnSlots ks

  abbrev pub AreFree : (ℕ → Option Bucket) → List (ℕ × Stream) → Type 0
  AreFree slots [] = Unit
  AreFree slots (k ∷ ks) = (slots (slot_of k.1) ≡ none) × AreFree slots ks

  -- Each key is in its slot, counted once.
  abbrev pub ArePlaced : (ℕ → Option Bucket) → List (ℕ × Stream) → Type 0
  ArePlaced slots [] = Unit
  ArePlaced slots (k ∷ ks) =
      (slots (slot_of k.1) ≡ some (record { key = some k.0; count = 1 })) × ArePlaced slots ks

  AreFree-set :
      (slots : ℕ → Option Bucket) (h : ℕ) (b : Bucket) (ks : List (ℕ × Stream))
      → AreApart h ks
      → AreFree slots ks
      → AreFree (set_slot bytes streams jhash slots h b) ks
  AreFree-set slots h b [] a f = tt
  AreFree-set slots h b (k ∷ ks) a f = (ground (arith, a.0, f.0), AreFree-set slots h b ks a.1 f.1)

  -- What inserting keys with slots of their own does.
  pub record Moved (n : ℕ) (ks : List (ℕ × Stream)) (st st' : HashState) : Type 0 where
    pub same_kind : st'.table.num_internal ≡ st.table.num_internal
    pub same_hits : st'.table.hits ≡ st.table.hits
    pub recounted : st'.table.unique % 2 ^ 64 ≡ (st.table.unique + n) % 2 ^ 64
    pub placed : ArePlaced st'.table.slots ks
    pub others : (h : ℕ) → AreApart h ks → st'.table.slots h ≡ st.table.slots h

  insert_keys-Moved :
      (bs : List Bucket) (ks : List (ℕ × Stream)) (st : HashState)
      → HaveKeys bs ks
      → HaveOwnSlots ks
      → AreFree st.table.slots ks
      → (st' : HashState) × (insert_keys bytes streams jhash bs st ≡ ok st')
        × Moved (length bs) ks st st'
  unfolding insert_keys count_new
  insert_keys-Moved [] [] st live own free = (
    st,
    refl,
    record {
      same_kind = refl;
      same_hits = refl;
      recounted = omega arith;
      placed = tt;
      others = λ h a. refl;
    },
  )
  insert_keys-Moved [] (k ∷ ks) st live own free = absurd live
  insert_keys-Moved (b ∷ bs) [] st live own free = absurd live
  insert_keys-Moved (b ∷ bs) (k ∷ ks) st (key, here, live) own free =
      let st1 = with_new k.0 k.1 st in
      let run1 = slow_new k.0 k.1 st here free.0 in
      let (st2, run2, m) =
        insert_keys-Moved bs ks st1 live own.1
          (AreFree-set st.table.slots (slot_of k.1) _ ks own.0 free.1) in
      (
        st2,
        rw (key, run1, ◌>>=◌) run2,
        record {
          same_kind = m.same_kind;
          same_hits = m.same_hits;
          recounted = omega (arith, m.recounted);
          placed = (m.others (slot_of k.1) own.0 ∙ ground arith, m.placed);
          others = λ h a. m.others h a.1 ∙ ground (arith, a.0);
        },
      )

  -- Each key is looked up with count 1.
  abbrev pub AreOnce : HashState → List (ℕ × Stream) → Type 0
  AreOnce st [] = Unit
  AreOnce st (k ∷ ks) = (hash_lookup bytes streams jhash k.0 st ≡ ok 1) × AreOnce st ks

  abbrev pub AreStored : List (ℕ × Stream) → Type 0
  AreStored [] = Unit
  AreStored (k ∷ ks) = (streams k.0 ≡ some k.1) × AreStored ks

  lookup_placed :
      (st : HashState) (ks : List (ℕ × Stream))
      → max_internal < st.table.num_internal
      → AreStored ks
      → ArePlaced st.table.slots ks
      → AreOnce st ks
  unfolding hash_lookup load
  lookup_placed st [] big live placed = tt
  lookup_placed st (k ∷ ks) big live placed =
      let slow : ltb max_internal st.table.num_internal ≡ true = ground (arith, big) in
      (rw (load, live.0, ◌>>=◌, slow, placed.0) refl, lookup_placed st ks big live.1 placed.1)

  HaveKeys-AreStored : (bs : List Bucket) (ks : List (ℕ × Stream)) → HaveKeys bs ks → AreStored ks
  HaveKeys-AreStored [] [] h = tt
  HaveKeys-AreStored [] (k ∷ ks) h = absurd h
  HaveKeys-AreStored (b ∷ bs) [] h = absurd h
  HaveKeys-AreStored (b ∷ bs) (k ∷ ks) (key, here, rest) = (here, HaveKeys-AreStored bs ks rest)

  ArePlaced-set :
      (slots : ℕ → Option Bucket) (h : ℕ) (b : Bucket) (ks : List (ℕ × Stream))
      → AreApart h ks
      → ArePlaced slots ks
      → ArePlaced (set_slot bytes streams jhash slots h b) ks
  ArePlaced-set slots h b [] a f = tt
  ArePlaced-set slots h b (k ∷ ks) a f =
      (ground (arith, a.0, f.0), ArePlaced-set slots h b ks a.1 f.1)

  -- Where the three internal buckets are in use and none holds the stream, and the four keys hash to
  -- slots of their own that are empty, hash_insert moves to the indirect buckets: afterwards all four
  -- keys are looked up with count 1, whatever the old counts were, and `unique` has grown by four,
  -- though only one key is new.
  pub hash_insert-expands :
      (st : HashState) (p : ℕ) (s : Stream) (ks : List (ℕ × Stream))
      → st.table.num_internal ≡ 3
      → length st.table.internal ≡ 3
      → HaveKeys st.table.internal ks
      → streams p ≡ some s
      → find_internal bytes streams jhash (take 3 st.table.internal) s ≡ ok none
      → HaveOwnSlots ((p, s) ∷ ks)
      → AreFree st.table.slots ((p, s) ∷ ks)
      → (st' : HashState) × (hash_insert bytes streams jhash p st ≡ ok st')
        × (st'.table.num_internal ≡ 4)
        × AreOnce st' ((p, s) ∷ ks)
        × (st'.table.unique % 2 ^ 64 ≡ (st.table.unique + 4) % 2 ^ 64)
        × (st'.table.hits ≡ st.table.hits)
  unfolding hash_insert expand load count_new
  hash_insert-expands st p s ks full sized live e absent own free =
      let st0 : HashState = record st { table = record st.table { num_internal = 4 } } in
      let (st1, run1, m) = insert_keys-Moved st.table.internal ks st0 live own.1 free.1 in
      let empty : st1.table.slots (slot_of s) ≡ none = m.others (slot_of s) own.0 ∙ free.0 in
      let run2 = slow_new p s st1 e empty in
      let st2 = with_new p s st1 in
      let stored : AreStored ((p, s) ∷ ks) = (e, HaveKeys-AreStored st.table.internal ks live) in
      let fast : leb st.table.num_internal max_internal ≡ true = ground (arith, full) in
      let stop : ltb st.table.num_internal max_internal ≡ false = ground (arith, full) in
      let three : (st.table.num_internal == max_internal) ≡ true = ground (arith, full) in
      let none_found : find_internal bytes streams jhash
            (take st.table.num_internal st.table.internal) s
          ≡ ok none =
        ap (λ n. find_internal bytes streams jhash (take n st.table.internal) s) full ∙ absent in
      (
        st2,
        rw (fast, load, e, ◌>>=◌, none_found, stop, three, run1) run2,
        m.same_kind,
        lookup_placed st2 ((p, s) ∷ ks) (omega (arith, m.same_kind)) stored
            (ground arith, ArePlaced-set st1.table.slots (slot_of s) _ ks own.0 m.placed),
        omega (arith, m.recounted, sized),
        m.same_hits,
      )
