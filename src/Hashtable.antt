-- ===== src/Hashtable.antt =====
-- The hash table of src/lib/hashtable/hashtable.c. Its keys are pointers to `struct stream` objects
-- that belong to the caller; a stream points at the bytes of a recorded stack. `bytes` is that
-- memory, which no code writes, and `streams` gives the object at an address as long as it lives.
-- The hash function (src/lib/hashtable/jenkins.c, by Bob Jenkins) is a parameter of its bytes.
pub mod Counts
pub mod Keys
pub mod First
pub mod Lookup
pub mod Slow
pub mod Collide
pub mod Expanded
pub mod Backend
use callstack_count.Prelude.{
  ℕ, zero, suc, ◌+◌, ◌-◌, ◌*◌, ◌%◌, ◌^◌, Bool, true, false, ◌&&◌, not, Option, none, some, List, [],
  ◌∷◌, ◌==◌, leb, ltb, if◌then◌else◌, length, get_elem?, get_or, set, take, replicate, Run, ok,
  fault, dead_pointer, assertion, ◌>>=◌, assert,
}

pub record Stream : Type 0 where
  pub begin : ℕ
  pub end : ℕ

-- `key` is NULL or the address of a stream.
pub record Bucket : Type 0 where
  pub key : Option ℕ
  pub count : ℕ

abbrev pub empty_bucket : Bucket
empty_bucket = record { key = none; count = 0 }

-- A bucket of `map` is allocated for its slot alone.
pub record Hashtable : Type 0 where
  pub internal : List Bucket
  pub slots : ℕ → Option Bucket
  pub num_internal : ℕ
  pub unique : ℕ
  pub hits : ℕ

-- A table and the global `num_unique_entries`.
pub record HashState : Type 0 where
  pub table : Hashtable
  pub num_unique_entries : ℕ

abbrev pub max_internal : ℕ
max_internal = 3

unfoldable pub alloc_table : Hashtable
alloc_table = record {
  internal = replicate max_internal empty_bucket;
  slots = λ h. none;
  num_internal = 0;
  unique = 0;
  hits = 0;
}

abbrev pub inc : ℕ → ℕ
inc n = (n + 1) % 2 ^ 64

unfoldable pub update_unique : ℕ → ℕ → ℕ
update_unique entries num_unique_entries =
    if ltb num_unique_entries entries then entries else num_unique_entries

-- size_t len = stream->end - stream->begin
unfoldable pub stream_len : Stream → ℕ
stream_len s = (s.end + 2 ^ 64 - s.begin) % 2 ^ 64

module _ (bytes : ℕ → ℕ) (streams : ℕ → Option Stream) (jhash : List ℕ → ℕ → ℕ) where
  -- The bytes of a range.
  unfoldable pub read : ℕ → ℕ → List ℕ
  read a zero = []
  read a (suc n) = bytes a ∷ read (a + 1) n

  -- !memcmp(a, b, n)
  unfoldable pub memcmp_zero : ℕ → ℕ → ℕ → Bool
  memcmp_zero a b zero = true
  memcmp_zero a b (suc n) = bytes a == bytes b && memcmp_zero (a + 1) (b + 1) n

  unfoldable pub jenkins_hash : Stream → ℕ
  jenkins_hash s = jhash (read s.begin (stream_len s)) 0 % 2 ^ 16

  -- The loop of basic_hash over the bytes that are left.
  unfoldable pub basic_hash_from : List ℕ → ℕ → ℕ → ℕ
  basic_hash_from [] h exp = h
  basic_hash_from (k ∷ ks) h exp =
      basic_hash_from ks ((h + (h + k * exp % 2 ^ 64) % 2 ^ 64 % 1000000009) % 2 ^ 64)
        (exp * 31 % 2 ^ 64 % 1000000009)

  unfoldable pub basic_hash : Stream → ℕ
  unfolding basic_hash_from
  basic_hash s = basic_hash_from (read s.begin (s.end - s.begin)) 0 1 % 2 ^ 16

  -- Reading through a pointer to a stream.
  unfoldable pub load : ℕ → Run Stream
  load p = elim (streams p) [ none ↦ fault dead_pointer | some s ↦ ok s ]

  unfoldable pub load_key : Option ℕ → Run Stream
  unfolding load
  load_key none = fault dead_pointer
  load_key (some p) = load p

  -- The bucket of a slot after __hash_insert, and whether it is new.
  unfoldable pub bump_slot : ℕ → Stream → Option Bucket → Run (Bucket × Bool)
  unfolding load_key
  bump_slot p s none = ok (record { key = some p; count = 1 }, true)
  bump_slot p s (some b) = load_key b.key >>= λ k.
      assert (memcmp_zero k.begin s.begin (stream_len s)) >>= λ _.
      ok (record b { count = inc b.count }, false)

  abbrev pub set_slot : (ℕ → Option Bucket) → ℕ → Bucket → ℕ → Option Bucket
  set_slot slots h b h' = if h == h' then some b else slots h'

  -- The counters after an insertion that found its key, or that did not.
  unfoldable pub count_new : HashState → HashState
  count_new st = record {
    table = record st.table { unique = inc st.table.unique };
    num_unique_entries = update_unique (inc st.table.unique) st.num_unique_entries;
  }

  unfoldable pub count_hit : HashState → HashState
  count_hit st = record st { table = record st.table { hits = inc st.table.hits } }

  -- __hash_insert
  unfoldable pub hash_insert_slow : Option ℕ → HashState → Run HashState
  unfolding bump_slot
  hash_insert_slow none st = fault dead_pointer
  hash_insert_slow (some p) st = load p >>= λ s.
      let h = jenkins_hash s in
      bump_slot p s (st.table.slots h) >>= λ r.
      let st' : HashState = if r.1 then count_new st else count_hit st in
      ok (record st' { table = record st'.table { slots = set_slot st.table.slots h r.0 } })

  -- The loop over the internal buckets in use: the index of the first whose key is equal. The test
  -- for a NULL key stands behind a read through that key, which has failed by then.
  unfoldable pub find_internal : List Bucket → Stream → Run (Option ℕ)
  unfolding load_key
  find_internal [] s = ok none
  find_internal (b ∷ bs) s =
      let rest = find_internal bs s in
      load_key b.key >>= λ k.
      if stream_len s == stream_len k && memcmp_zero k.begin s.begin (stream_len s)
      then ok (some 0)
      else rest >>= λ r. ok (elim r [ none ↦ none | some i ↦ some (suc i) ])

  -- The internal bucket of an index counts once more.
  unfoldable pub hit_internal : ℕ → HashState → HashState
  unfolding count_hit
  hit_internal i st =
      let b = get_or st.table.internal i empty_bucket in
      let st' = count_hit st in
      record st' {
        table = record st'.table {
          internal = set st.table.internal i (record b { count = inc b.count });
        };
      }

  -- The next internal bucket takes the stream.
  unfoldable pub fill_internal : ℕ → HashState → HashState
  unfolding count_new
  fill_internal p st =
      let i = st.table.num_internal in
      let b = get_or st.table.internal i empty_bucket in
      let st' = count_new st in
      record st' {
        table = record st'.table {
          internal = set st.table.internal i (record { key = some p; count = inc b.count });
          num_internal = (i + 1) % 2 ^ 8;
        };
      }

  unfoldable pub insert_keys : List Bucket → HashState → Run HashState
  unfolding hash_insert_slow
  insert_keys [] st = ok st
  insert_keys (b ∷ bs) st = hash_insert_slow b.key st >>= insert_keys bs

  -- From the internal buckets to the indirect ones.
  unfoldable pub expand : HashState → Run HashState
  unfolding insert_keys
  expand st =
      let i = st.table.num_internal in
      assert (i == max_internal) >>= λ _.
      insert_keys st.table.internal
        (record st { table = record st.table { num_internal = max_internal + 1 } })

  unfoldable pub hash_insert : ℕ → HashState → Run HashState
  unfolding find_internal
  hash_insert p st =
      if leb st.table.num_internal max_internal
      then (load p >>= λ s. find_internal (take st.table.num_internal st.table.internal) s >>= λ r.
          elim r [
            | some i ↦ ok (hit_internal i st)
            | none ↦
                if ltb st.table.num_internal max_internal
                then ok (fill_internal p st)
                else expand st >>= hash_insert_slow (some p)
          ])
      else hash_insert_slow (some p) st

  -- The loop of hash_lookup over the internal buckets in use; the int is given by its 32 bits.
  unfoldable pub lookup_internal : List Bucket → Stream → Run ℕ
  unfolding load
  lookup_internal [] s = ok (2 ^ 32 - 1)
  lookup_internal (b ∷ bs) s =
      let rest = lookup_internal bs s in
      elim b.key [
        | none ↦ ok (2 ^ 32 - 1)
        | some p ↦ load p >>= λ k.
            if stream_len s == stream_len k && memcmp_zero k.begin s.begin (stream_len s)
            then ok (b.count % 2 ^ 32)
            else rest
      ]

  -- hash_lookup
  unfoldable pub hash_lookup : ℕ → HashState → Run ℕ
  unfolding lookup_internal
  hash_lookup p st = load p >>= λ s.
      if ltb max_internal st.table.num_internal
      then (elim (st.table.slots (jenkins_hash s)) [
        | none ↦ fault dead_pointer
        | some b ↦ ok (b.count % 2 ^ 32)
      ])
      else lookup_internal (take st.table.num_internal st.table.internal) s
