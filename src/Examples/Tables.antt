-- ===== src/Examples/Tables.antt =====
-- Runs of the theorems on lookups in the hash table, on its expansion, and on the
-- backend of the adaptive radix tree.
use callstack_count.Prelude.{
  ℕ, ◌*◌, ◌/◌, ◌^◌, ◌%◌, ◌≡◌, ◌≢◌, refl, ◌⊎◌, ◌+◌, inl, inr, ◌<◌, Option, none, some, List, [], ◌∷◌,
  arith, ◌==◌, if◌then◌else◌, length, take, ok, fault, assertion,
}
use callstack_count.Hashtable.{
  inc, Stream, Bucket, HashState, stream_len, memcmp_zero, read, load, load_key, jenkins_hash,
  find_internal, hash_insert, hash_lookup,
}
use callstack_count.Hashtable.Counts.{AreLive, alloc_table-IsInternal}
use callstack_count.Hashtable.Keys.{key_eq, as_int, once_more}
use callstack_count.Hashtable.First.{IsMissing, IsFirst, find_internal-IsFirst}
use callstack_count.Hashtable.Collide.{AreUnlike, hash_insert-collides}
use callstack_count.Hashtable.Lookup.{seen_in, CountsOnce, hash_insert-lookup}
use callstack_count.Hashtable.Expanded.{slot_count, IsFor, hash_insert-expanded}
use callstack_count.Hashtable.Slow.{slot_of, AreOnce, HaveOwnSlots, hash_insert-expands}
use callstack_count.Program.{CallstackEntry}
use callstack_count.Art.{Node}
use callstack_count.Art
use callstack_count.Art.Backend.{
  stack_byte, end_of_stack, stream_of, live_entries, read_entries, stream_of-read_entries,
}
use callstack_count.Examples.Backends.{some_bytes, a_hash, empty_state, fits, free}

-- Four streams of different lengths, which `a_hash` gives different slots.
abbrev prefix_of : ℕ → Stream
prefix_of n = record { begin = 0; end = n }

abbrev four_streams : ℕ → Option Stream
four_streams p =
    if p == 64
    then some (prefix_of 1)
    else if p == 65
    then some (prefix_of 2)
    else if p == 66
    then some (prefix_of 3)
    else if p == 67
    then some (prefix_of 4)
    else none

abbrev three_buckets : List Bucket
three_buckets =
    record { key = some 64; count = 5 }
    ∷ record { key = some 65; count = 6 }
    ∷ record { key = some 66; count = 7 }
    ∷ []

abbrev full_state : HashState
full_state = record {
  table = record {
    internal = three_buckets;
    slots = λ h. none;
    num_internal = 3;
    unique = 3;
    hits = 15;
  };
  num_unique_entries = 3;
}

live_buckets : AreLive four_streams three_buckets
live_buckets = (
  (64, prefix_of 1, refl, refl),
  ((65, prefix_of 2, refl, refl), ((66, prefix_of 3, refl, refl), tt)),
)

find_internal-IsFirst_example :
    IsMissing some_bytes four_streams a_hash three_buckets (record { begin = 256; end = 258 })
    ⊎ ((i : ℕ) × (b : Bucket) × IsFirst some_bytes four_streams a_hash three_buckets
          (record { begin = 256; end = 258 })
          i
          b)
find_internal-IsFirst_example =
    find_internal-IsFirst some_bytes four_streams a_hash three_buckets
      (record { begin = 256; end = 258 }) live_buckets

hash_insert-lookup_example :
    (st' : HashState) × (hash_insert some_bytes four_streams a_hash 67 empty_state ≡ ok st')
    × CountsOnce some_bytes four_streams a_hash empty_state st' (prefix_of 4)
    × ((q : ℕ) (t : Stream)
        → four_streams q ≡ some t
        → hash_lookup some_bytes four_streams a_hash q st'
          ≡ ok (
              as_int (
                if key_eq some_bytes four_streams a_hash t (prefix_of 4)
                then some (once_more (seen_in some_bytes four_streams a_hash empty_state t))
                else seen_in some_bytes four_streams a_hash empty_state t)))
hash_insert-lookup_example =
    hash_insert-lookup some_bytes four_streams a_hash empty_state 67 (prefix_of 4)
      (alloc_table-IsInternal four_streams) refl (inl free) fits

-- Slot 4 is taken by a stream with the same four bytes.
abbrev taken_state : HashState
taken_state = record full_state {
  table = record full_state.table {
    num_internal = 4;
    slots = λ h. if h == 4 then some (record { key = some 67; count = 2 }) else none;
  };
}

four_slot : jenkins_hash some_bytes four_streams a_hash (prefix_of 4) ≡ 4
unfolding jenkins_hash read stream_len
four_slot = refl

taken :
    taken_state.table.slots (jenkins_hash some_bytes four_streams a_hash (prefix_of 4))
    ≡ some (record { key = some 67; count = 2 })
taken = rw four_slot refl

not_yet :
    find_internal some_bytes four_streams a_hash (take 3 three_buckets) (prefix_of 4) ≡ ok none
unfolding find_internal load_key load stream_len memcmp_zero
not_yet = refl

slot : ℕ → ℕ
slot n = jenkins_hash some_bytes four_streams a_hash (prefix_of n)

apart :
    (slot 1 ≢ slot 4)
    × (slot 2 ≢ slot 4)
    × (slot 3 ≢ slot 4)
    × (slot 2 ≢ slot 1)
    × (slot 3 ≢ slot 1)
    × (slot 3 ≢ slot 2)
unfolding slot jenkins_hash read stream_len
apart = (
  (λ e. omega (arith, e)),
  (λ e. omega (arith, e)),
  (λ e. omega (arith, e)),
  (λ e. omega (arith, e)),
  (λ e. omega (arith, e)),
  (λ e. omega (arith, e)),
)

hash_insert-expands_example :
    (st' : HashState) × (hash_insert some_bytes four_streams a_hash 67 full_state ≡ ok st')
    × (st'.table.num_internal ≡ 4)
    × AreOnce some_bytes four_streams a_hash st'
        ((67, prefix_of 4) ∷ (64, prefix_of 1) ∷ (65, prefix_of 2) ∷ (66, prefix_of 3) ∷ [])
    × (st'.table.unique % 2 ^ 64 ≡ 7 % 2 ^ 64)
    × (st'.table.hits ≡ 15)
unfolding slot
hash_insert-expands_example =
    hash_insert-expands some_bytes four_streams a_hash full_state 67 (prefix_of 4)
      ((64, prefix_of 1) ∷ (65, prefix_of 2) ∷ (66, prefix_of 3) ∷ []) refl refl
      (refl, refl, (refl, refl, (refl, refl, tt))) refl not_yet
      ((apart.0, (apart.1, (apart.2, tt))), ((apart.3, (apart.4, tt)), ((apart.5, tt), (tt, tt))))
      (refl, (refl, (refl, (refl, tt))))

-- Four streams with different bytes, of which the last two have the same length and so, under
-- `a_hash`, the same slot.
abbrev bytes_at : ℕ → ℕ → Stream
bytes_at begin n = record { begin = begin; end = begin + n }

abbrev apart_streams : ℕ → Option Stream
apart_streams p =
    if p == 64
    then some (bytes_at 0 1)
    else if p == 65
    then some (bytes_at 10 2)
    else if p == 66
    then some (bytes_at 20 3)
    else if p == 67
    then some (bytes_at 30 3)
    else none

abbrev insertion_order : List (ℕ × Stream)
insertion_order =
    (64, bytes_at 0 1) ∷ (65, bytes_at 10 2) ∷ (66, bytes_at 20 3) ∷ (67, bytes_at 30 3) ∷ []

apart_absent :
    find_internal some_bytes apart_streams a_hash (take 3 three_buckets) (bytes_at 30 3) ≡ ok none
unfolding find_internal load_key load stream_len memcmp_zero
apart_absent = refl

apart-AreUnlike : AreUnlike some_bytes apart_streams a_hash insertion_order
unfolding memcmp_zero stream_len
apart-AreUnlike = ((refl, (refl, (refl, tt))), ((refl, (refl, tt)), ((refl, tt), (tt, tt))))

shared_slot : ¬ HaveOwnSlots some_bytes apart_streams a_hash insertion_order
unfolding jenkins_hash read stream_len
shared_slot own = own.1.1.0.0 refl

hash_insert-collides_example :
    hash_insert some_bytes apart_streams a_hash 67 full_state ≡ fault assertion
hash_insert-collides_example =
    hash_insert-collides some_bytes apart_streams a_hash full_state 67 (bytes_at 30 3)
      ((64, bytes_at 0 1) ∷ (65, bytes_at 10 2) ∷ (66, bytes_at 20 3) ∷ []) refl
      ((refl, refl, (refl, refl, (refl, refl, tt)))) refl apart_absent (λ h. refl) apart-AreUnlike
      shared_slot

taken-IsFor :
    IsFor some_bytes four_streams a_hash (record { key = some 67; count = 2 }) (prefix_of 4)
unfolding memcmp_zero stream_len
taken-IsFor = record { address = 67; key = prefix_of 4; at_key = refl; live = refl; same = refl }

hash_insert-expanded_example :
    (st' : HashState) × (hash_insert some_bytes four_streams a_hash 67 taken_state ≡ ok st')
    × (3 < st'.table.num_internal)
    × ((q : ℕ) (t : Stream)
        → four_streams q ≡ some t
        → hash_lookup some_bytes four_streams a_hash q st' ≡ (
            if slot_of some_bytes four_streams a_hash (prefix_of 4)
              == slot_of some_bytes four_streams a_hash t
            then ok (
                inc (
                  slot_count (
                    taken_state.table.slots (slot_of some_bytes four_streams a_hash (prefix_of 4))))
                % 2 ^ 32)
            else hash_lookup some_bytes four_streams a_hash q taken_state))
hash_insert-expanded_example =
    hash_insert-expanded some_bytes four_streams a_hash taken_state 67 (prefix_of 4) (omega arith)
      refl (inr (record { key = some 67; count = 2 }, taken, taken-IsFor))

-- A stack of one entry.
abbrev art_stack : List CallstackEntry
art_stack = record { ip = 65538; map_id = 819 } ∷ record { ip = 0; map_id = 0 } ∷ []

abbrev art_stream : callstack_count.Art.Stream
art_stream = record { data_bytes = stack_byte art_stack; size = 16; pos = 0 }

art_stack_stream : stream_of art_stack ≡ some art_stream
unfolding stream_of end_of_stack
art_stack_stream = refl

stream_of-read_entries_example :
    (16 ≡ 16 * length (live_entries 256 art_stack))
    × (read_entries (16 / 16) (stack_byte art_stack) ≡ live_entries 256 art_stack)
stream_of-read_entries_example =
    stream_of-read_entries art_stack art_stream
      (omega arith, omega arith, (omega arith, omega arith, tt)) art_stack_stream
