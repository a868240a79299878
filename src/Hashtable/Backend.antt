-- ===== src/Hashtable/Backend.antt =====
-- The backend src/lib/hashtable/callstack.c. Its `insert` passes the table the address of its own
-- local variable `s`, which dies when it returns; every call of `insert` comes from the loop of main,
-- so `s` stands at the same address, `frame`, each time.
use callstack_count.Prelude.{
  ℕ, zero, suc, ◌+◌, ◌%◌, ◌^◌, ◌≡◌, refl, ◌∙◌, true, ◌&&◌, Option, none, some, List, [], ◌∷◌, arith,
  ◌==◌, leb, if◌then◌else◌, length, take, Run, ok, fault, dead_pointer, ◌>>=◌,
}
use callstack_count.Program.{CallstackEntry}
use callstack_count.Hashtable.{
  Stream, Bucket, empty_bucket, HashState, alloc_table, inc, load, load_key, stream_len,
  memcmp_zero, find_internal, hit_internal, fill_internal, count_new, count_hit, hash_insert,
}

-- A stack and the address of its array.
pub record PlacedStack : Type 0 where
  pub address : ℕ
  pub entries : List CallstackEntry

-- The address of the first entry without an ip among those that are left; an entry has 16 bytes.
unfoldable pub stack_end : ℕ → ℕ → List CallstackEntry → Option ℕ
stack_end zero a stack = none
stack_end (suc left) a [] = some a
stack_end (suc left) a (e ∷ stack) =
    let rest = stack_end left (a + 16) stack in if e.ip == 0 then some a else rest

-- During a call of `insert`, `s` is the only stream that lives.
abbrev pub only_local : ℕ → Stream → ℕ → Option Stream
only_local frame s p = if p == frame then some s else none

module _ (bytes : ℕ → ℕ) (jhash : List ℕ → ℕ → ℕ) (frame : ℕ) where
  -- insert. Without an entry that ends the stack, `s.end` is never written.
  unfoldable pub insert_stack : PlacedStack → HashState → Run HashState
  insert_stack stack st = elim (stack_end 256 stack.address stack.entries) [
    | none ↦ fault dead_pointer
    | some end ↦
        hash_insert bytes (only_local frame (record { begin = stack.address; end = end })) jhash
          frame st
  ]

  unfoldable pub insert_stacks : List PlacedStack → HashState → Run HashState
  insert_stacks [] st = ok st
  insert_stacks (stack ∷ stacks) st = insert_stack stack st >>= insert_stacks stacks

  -- hash_new
  unfoldable pub hash_new : ℕ → HashState
  hash_new num_unique_entries = record {
    table = alloc_table;
    num_unique_entries = num_unique_entries;
  }

  memcmp_zero_self :
      (streams : ℕ → Option Stream) (a n : ℕ) → memcmp_zero bytes streams jhash a a n ≡ true
  unfolding memcmp_zero
  memcmp_zero_self streams a zero = refl
  memcmp_zero_self streams a (suc n) = ground (arith, memcmp_zero_self streams (a + 1) n)

  -- One bucket is in use, and its key is the address of `s`.
  pub record IsAliased (st : HashState) : Type 0 where
    pub one : st.table.num_internal ≡ 1
    pub count : ℕ
    pub others : List Bucket
    pub first : st.table.internal ≡ record { key = some frame; count = count } ∷ others

  abbrev pub IsTerminated : PlacedStack → Type 0
  IsTerminated stack = (end : ℕ) × (stack_end 256 stack.address stack.entries ≡ some end)

  abbrev pub AreTerminated : List PlacedStack → Type 0
  AreTerminated [] = Unit
  AreTerminated (stack ∷ stacks) = IsTerminated stack × AreTerminated stacks

  hash_insert-IsAliased :
      (s : Stream) (st : HashState)
      → IsAliased st
      → (st' : HashState) × (hash_insert bytes (only_local frame s) jhash frame st ≡ ok st')
        × IsAliased st'
        × (st'.table.unique ≡ st.table.unique)
        × (st'.table.hits ≡ inc st.table.hits)
  unfolding hash_insert load hit_internal count_hit
  hash_insert-IsAliased s st a =
      let streams = only_local frame s in
      let fast : leb st.table.num_internal 3 ≡ true = ground (arith, a.one) in
      let used : take st.table.num_internal st.table.internal
          ≡ record { key = some frame; count = a.count } ∷ [] =
        rw (a.one, a.first) refl in
      let here : streams frame ≡ some s = ground arith in
      let same : (stream_len s == stream_len s
            && memcmp_zero bytes streams jhash s.begin s.begin (stream_len s))
          ≡ true =
        ground (arith, memcmp_zero_self streams s.begin (stream_len s)) in
      (
        hit_internal bytes streams jhash 0 st,
        rw (fast, load, here, ◌>>=◌, used, find_internal, load_key, load, here, ◌>>=◌, same),
        record { one = a.one; count = inc a.count; others = a.others; first = rw a.first refl },
        refl,
        refl,
      )

  insert_stack-IsAliased :
      (stack : PlacedStack) (st : HashState)
      → IsTerminated stack
      → IsAliased st
      → (st' : HashState) × (insert_stack stack st ≡ ok st')
        × IsAliased st'
        × (st'.table.unique ≡ st.table.unique)
        × (st'.table.hits ≡ inc st.table.hits)
  unfolding insert_stack
  insert_stack-IsAliased stack st (end, e) a =
      let (st', run, al, same, more) =
        hash_insert-IsAliased (record { begin = stack.address; end = end }) st a in
      (st', rw (insert_stack, e) run, al, same, more)

  insert_stacks-IsAliased :
      (stacks : List PlacedStack) (st : HashState)
      → AreTerminated stacks
      → IsAliased st
      → (st' : HashState) × (insert_stacks stacks st ≡ ok st')
        × IsAliased st'
        × (st'.table.unique ≡ st.table.unique)
        × (st'.table.hits % 2 ^ 64 ≡ (st.table.hits + length stacks) % 2 ^ 64)
  unfolding insert_stacks
  insert_stacks-IsAliased [] st h a = (st, refl, a, refl, omega arith)
  insert_stacks-IsAliased (stack ∷ stacks) st h a =
      let (st1, run, a1, u1, h1) = insert_stack-IsAliased stack st h.0 a in
      let (st2, run2, a2, u2, h2) = insert_stacks-IsAliased stacks st1 h.1 a1 in
      (st2, rw (insert_stacks, run, ◌>>=◌) run2, a2, u2 ∙ u1, omega (arith, h1, h2))

  first_insert :
      (stack : PlacedStack) (n : ℕ)
      → IsTerminated stack
      → (st' : HashState) × (insert_stack stack (hash_new n) ≡ ok st')
        × IsAliased st'
        × (st'.table.unique ≡ 1)
        × (st'.table.hits ≡ 0)
  unfolding insert_stack hash_new hash_insert load fill_internal count_new alloc_table find_internal
  first_insert stack n (end, e) =
      let here : only_local frame (record { begin = stack.address; end = end }) frame
          ≡ some (record { begin = stack.address; end = end }) =
        ground arith in
      (
        fill_internal bytes (only_local frame (record { begin = stack.address; end = end })) jhash
            frame (hash_new n),
        rw (insert_stack, e, hash_insert, load, here, ◌>>=◌),
        record { one = refl; count = 1; others = empty_bucket ∷ empty_bucket ∷ []; first = refl },
        refl,
        refl,
      )

  -- Whatever the stacks are, as long as each has an end, the table of a new tree takes all of them
  -- for one: it finds one unique entry, and counts every further stack as a hit.
  pub insert_stacks-one :
      (stack : PlacedStack) (stacks : List PlacedStack) (n : ℕ)
      → AreTerminated (stack ∷ stacks)
      → (st' : HashState) × (insert_stacks (stack ∷ stacks) (hash_new n) ≡ ok st')
        × (st'.table.unique ≡ 1)
        × (st'.table.hits % 2 ^ 64 ≡ length stacks % 2 ^ 64)
  unfolding insert_stacks
  insert_stacks-one stack stacks n h =
      let (st1, run, a1, u1, h1) = first_insert stack n h.0 in
      let (st2, run2, a2, u2, h2) = insert_stacks-IsAliased stacks st1 h.1 a1 in
      (st2, rw (insert_stacks, run, ◌>>=◌) run2, u2 ∙ u1, omega (arith, h1, h2))
