-- ===== src/Hashtable/Expanded.antt =====
-- hash_insert and hash_lookup of src/lib/hashtable/hashtable.c on a table that has expanded.
use callstack_count.Prelude.{
  ℕ, ◌<◌, ◌^◌, ◌%◌, ◌≡◌, refl, ◌∙◌, ◌⊎◌, inl, inr, true, false, Option, none, some, List, arith,
  ◌==◌, leb, ltb, if◌then◌else◌, Bool-cases, ok, ◌>>=◌,
}
use callstack_count.Hashtable.{
  Stream, Bucket, HashState, max_internal, inc, load, stream_len, memcmp_zero, set_slot, count_new,
  count_hit, hash_insert_slow, hash_insert, hash_lookup,
}
use callstack_count.Hashtable.Slow.{slot_of, with_new, with_hit, slow_new, hash_insert_slow-taken}

-- The count in a slot.
abbrev pub slot_count : Option Bucket → ℕ
slot_count none = 0
slot_count (some b) = b.count

module _ (bytes : ℕ → ℕ) (streams : ℕ → Option Stream) (jhash : List ℕ → ℕ → ℕ) where
  -- The key of a bucket begins with the bytes of a stream.
  pub record IsFor (b : Bucket) (s : Stream) : Type 0 where
    pub address : ℕ
    pub key : Stream
    pub at_key : b.key ≡ some address
    pub live : streams address ≡ some key
    pub same : memcmp_zero bytes streams jhash key.begin s.begin (stream_len s) ≡ true

  -- What an insertion of a stream leaves.
  record Stored (st st' : HashState) (s : Stream) : Type 0 where
    expanded : st'.table.num_internal ≡ st.table.num_internal
    bucket : Bucket
    slots :
        st'.table.slots
        ≡ set_slot bytes streams jhash st.table.slots (slot_of bytes streams jhash s) bucket
    counted : bucket.count ≡ inc (slot_count (st.table.slots (slot_of bytes streams jhash s)))

  insert-Stored :
      (st : HashState) (p : ℕ) (s : Stream)
      → streams p ≡ some s
      → (st.table.slots (slot_of bytes streams jhash s) ≡ none)
        ⊎ ((b : Bucket) × (st.table.slots (slot_of bytes streams jhash s) ≡ some b) × IsFor b s)
      → (st' : HashState) × (hash_insert_slow bytes streams jhash (some p) st ≡ ok st')
        × Stored st st' s
  unfolding count_new count_hit
  insert-Stored st p s e (inl free) = (
    with_new bytes streams jhash p s st,
    slow_new bytes streams jhash p s st e free,
    record {
      expanded = refl;
      bucket = record { key = some p; count = 1 };
      slots = refl;
      counted = rw free refl;
    },
  )
  insert-Stored st p s e (inr (b, taken, f)) = (
    with_hit bytes streams jhash s b st,
    hash_insert_slow-taken bytes streams jhash p f.address s f.key b st e taken f.at_key f.live
        ∙ rw (f.same) refl,
    record {
      expanded = refl;
      bucket = record b { count = inc b.count };
      slots = refl;
      counted = rw taken refl;
    },
  )

  -- On a table that has expanded, where the slot of the stream is empty or holds a key that begins
  -- with its bytes, hash_insert returns and the table stays expanded; then hash_lookup of any stream
  -- with that slot, whatever its bytes are, gives one more than the slot had, and hash_lookup of a
  -- stream with another slot gives what it gave.
  pub hash_insert-expanded :
      (st : HashState) (p : ℕ) (s : Stream)
      → max_internal < st.table.num_internal
      → streams p ≡ some s
      → (st.table.slots (slot_of bytes streams jhash s) ≡ none)
        ⊎ ((b : Bucket) × (st.table.slots (slot_of bytes streams jhash s) ≡ some b) × IsFor b s)
      → (st' : HashState) × (hash_insert bytes streams jhash p st ≡ ok st')
        × (max_internal < st'.table.num_internal)
        × ((q : ℕ) (t : Stream)
            → streams q ≡ some t
            → hash_lookup bytes streams jhash q st' ≡ (
                if slot_of bytes streams jhash s == slot_of bytes streams jhash t
                then ok (inc (slot_count (st.table.slots (slot_of bytes streams jhash s))) % 2 ^ 32)
                else hash_lookup bytes streams jhash q st))
  unfolding hash_insert hash_lookup load
  hash_insert-expanded st p s big e space =
      let (st', run, d) = insert-Stored st p s e space in
      let slow : leb st.table.num_internal max_internal ≡ false = ground (arith, big) in
      let far : ltb max_internal st.table.num_internal ≡ true = ground (arith, big) in
      (
        st',
        rw slow run,
        rw d.expanded big,
        λ q t f.
            elim (Bool-cases (slot_of bytes streams jhash s == slot_of bytes streams jhash t)) [
              | inl hit ↦ rw (load, f, ◌>>=◌, d.expanded, far, d.slots, hit, d.counted) refl
              | inr miss ↦ rw (load, f, ◌>>=◌, d.expanded, far, d.slots, miss) refl
            ],
      )
