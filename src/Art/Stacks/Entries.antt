-- ===== src/Art/Stacks/Entries.antt =====
-- art_tree_insert of src/lib/art/ops.c in a tree of stacks with the same number of entries: what it
-- counts, in terms of the stacks themselves.
use callstack_count.Prelude.{
  none, ℕ, zero, suc, ◌+◌, ◌-◌, ◌*◌, ◌/◌, ◌≤◌, ◌<◌, ◌≡◌, ◌≢◌, refl, sym, ap, ◌∙◌, inl, inr, true,
  false, Option, some, List, [], ◌∷◌, length, arith, ◌==◌, ltb, Bool-cases, ok,
}
use callstack_count.Program.{CallstackEntry}
use callstack_count.Art.{memcmp_zero}
use callstack_count.Art.Insert.{ArtState}
use callstack_count.Art.Backend
use callstack_count.Art.Backend.{
  stack_byte, end_of_stack, art_tree_insert, read_entries, live_entries, AreWords,
  read_entries-congr, stream_of-read_entries,
}
use callstack_count.Art.Stacks.{IsTree, HasRoom, stream_of, count_of}
use callstack_count.Art.Stacks.Matching.{memcmp_zero_equal, equal_memcmp_zero}
use callstack_count.Art.Stacks.Keeping.{counted_again}
use callstack_count.Art.Stacks.Inserting.{IsPadded, ArePadded}
use callstack_count.Art.Stacks.Counting.{count_of-insert}
use callstack_count.Art.Stacks.Few.{kinds, HasFew, insert-HasFew}

-- Every entry has an ip.
abbrev pub AreLive : List CallstackEntry → Type 0
AreLive [] = Unit
AreLive (e ∷ s) = (e.ip ≢ 0) × AreLive s

-- A stack of `k` entries of 64-bit words; behind it the array is zero.
pub record IsStack (k : ℕ) (s : List CallstackEntry) : Type 0 where
  pub long : length s ≡ k
  pub words : AreWords s
  pub live : AreLive s

end_of_stack-live :
    (left : ℕ) (s : List CallstackEntry)
    → AreLive s
    → length s < left
    → end_of_stack left s ≡ some (16 * length s)
unfolding end_of_stack
end_of_stack-live zero s v h = absurd (omega (arith, h))
end_of_stack-live (suc left) [] v h = refl
end_of_stack-live (suc left) (e ∷ s) v h =
    let ih = end_of_stack-live left s v.1 (omega (arith, h)) in
    let more : (e.ip == 0) ≡ false = ground (arith, v.0) in
    let sum : 16 * length s + 16 ≡ 16 * suc (length s) = omega arith in
    rw (end_of_stack, more, ih, sum) refl

live_entries-live :
    (left : ℕ) (s : List CallstackEntry) → AreLive s → length s < left → live_entries left s ≡ s
unfolding live_entries
live_entries-live zero s v h = absurd (omega (arith, h))
live_entries-live (suc left) [] v h = refl
live_entries-live (suc left) (e ∷ s) v h =
    let ih = live_entries-live left s v.1 (omega (arith, h)) in
    let more : (e.ip == 0) ≡ false = ground (arith, v.0) in rw (live_entries, more, ih) refl

stack_byte_behind : (s : List CallstackEntry) (i : ℕ) → 16 * length s ≤ i → stack_byte s i ≡ 0
unfolding stack_byte
stack_byte_behind [] i h = refl
stack_byte_behind (e ∷ s) i h =
    let ih = stack_byte_behind s (i - 16) (omega (arith, h)) in
    let far : ltb i 16 ≡ false = ground (arith, h) in rw (stack_byte, far) ih

-- The count of a stack of `k` entries in the tree.
abbrev pub stack_count : ℕ → List CallstackEntry → ArtState → Option ℕ
stack_count k s st = count_of (16 * k) (stack_byte s) st

module _ (k : ℕ) (small : k ≤ 8) where
  abbrev bytes : ℕ
  bytes = 16 * k

  stream_of-IsStack :
      (s : List CallstackEntry)
      → IsStack k s
      → Backend.stream_of s ≡ some (stream_of (stack_byte s) bytes 0)
  unfolding Backend.stream_of
  stream_of-IsStack s v =
      let at = end_of_stack-live 256 s v.live (omega (arith, v.long, small)) in
      let size : 16 * length s ≡ 16 * k = ap (λ z. 16 * z) v.long in
      rw (Backend.stream_of, at, size) refl

  stack-IsPadded : (s : List CallstackEntry) → IsStack k s → IsPadded bytes (stack_byte s)
  stack-IsPadded s v j h = stack_byte_behind s (bytes + j) (omega (arith, v.long))

  -- Two stacks with the same bytes are the same.
  same_stack :
      (s u : List CallstackEntry)
      → IsStack k s
      → IsStack k u
      → ((j : ℕ) → j < bytes → stack_byte u j ≡ stack_byte s j)
      → u ≡ s
  same_stack s u v w same =
      let every : (i : ℕ) → stack_byte u i ≡ stack_byte s i = λ i. elim (Bool-cases (ltb i bytes)) [
        | inl low ↦ same i (ground (arith, low))
        | inr high ↦
            let far : bytes ≤ i = ground (arith, high) in
            stack_byte_behind u i (omega (arith, far, w.long))
            ∙ sym (stack_byte_behind s i (omega (arith, far, v.long)))
      ] in
      let (_, back_s) =
        stream_of-read_entries s (stream_of (stack_byte s) bytes 0) v.words
          (stream_of-IsStack s v) in
      let (_, back_u) =
        stream_of-read_entries u (stream_of (stack_byte u) bytes 0) w.words
          (stream_of-IsStack u w) in
      sym (back_u ∙ live_entries-live 256 u w.live (omega (arith, w.long, small)))
      ∙ read_entries-congr (bytes / 16) (stack_byte u) (stack_byte s) every
      ∙ back_s
      ∙ live_entries-live 256 s v.live (omega (arith, v.long, small))

  -- In a tree of stacks of `k` entries, at most 8, art_tree_insert of a further stack of `k` entries of
  -- 64-bit words, all with an ip and followed by zeros, succeeds and leaves such a tree, if the stack is
  -- there already or no node has all of its four slots in use. The stack has afterwards the count 0 if it
  -- was not there, and one more, modulo 2^64, if it was; every other stack of `k` entries has the count
  -- that it had, or none.
  pub art_tree_insert-counts :
      (s : List CallstackEntry) (st : ArtState)
      → IsTree bytes st
      → ArePadded bytes st
      → (stack_count k s st ≡ none → HasRoom st)
      → IsStack k s
      → (st' : ArtState) × (art_tree_insert st.root s st.heap ≡ ok (st'.root, st'.heap))
        × IsTree bytes st'
        × ArePadded bytes st'
        × (stack_count k s st' ≡ some (counted_again (stack_count k s st)))
        × ((u : List CallstackEntry)
            → IsStack k u
            → u ≢ s
            → stack_count k u st' ≡ stack_count k u st)
  unfolding art_tree_insert
  art_tree_insert-counts s st tree ps free v =
      let (st', so, tree', ps', _, counts) =
        count_of-insert bytes (stack_byte s) 0 st (omega (arith, small)) tree ps free
          (stack-IsPadded s v) in
      let here : memcmp_zero (stack_byte s) (stack_byte s) bytes ≡ true =
        memcmp_zero_equal (stack_byte s) (stack_byte s) bytes (λ j h. refl) in
      (
        st',
        rw (art_tree_insert, stream_of-IsStack s v, so) refl,
        tree',
        ps',
        counts (stack_byte s) ∙ rw here refl,
        λ u w other.
            let differ : memcmp_zero (stack_byte u) (stack_byte s) bytes ≡ false =
              elim (Bool-cases (memcmp_zero (stack_byte u) (stack_byte s) bytes)) [
                | inr no_match ↦ no_match
                | inl all ↦ absurd (
                    other (
                      same_stack s u v w
                        (equal_memcmp_zero (stack_byte u) (stack_byte s) bytes all)))
              ] in
            counts (stack_byte u) ∙ rw differ refl,
      )

  -- art_tree_insert where at most four stacks are different.
  pub art_tree_insert-HasFew :
      (s : List CallstackEntry) (fs : List (ℕ → ℕ)) (st : ArtState)
      → IsStack k s
      → kinds bytes (stack_byte s ∷ fs) ≤ 4
      → HasFew bytes fs st
      → (st' : ArtState) × (art_tree_insert st.root s st.heap ≡ ok (st'.root, st'.heap))
        × HasFew bytes (stack_byte s ∷ fs) st'
  unfolding art_tree_insert
  art_tree_insert-HasFew s fs st v few w =
      let (st', so, w') =
        insert-HasFew bytes (stack_byte s) fs st (omega (arith, small)) (stack-IsPadded s v) few
          w in
      (st', rw (art_tree_insert, stream_of-IsStack s v, so) refl, w')
