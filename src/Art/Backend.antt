-- ===== src/Art/Backend.antt =====
-- The backend src/lib/art/ops.c: the bytes of a stack are the key of the adaptive radix tree. A word
-- of a stack is stored with its low byte first. The nodes of all trees stand in one heap, and a tree
-- is its root.
use callstack_count.Prelude.{
  ℕ, zero, suc, ◌+◌, ◌-◌, ◌*◌, ◌/◌, ◌%◌, ◌^◌, ◌<◌, ◌≡◌, refl, ◌∙◌, inl, inr, true, false, Option,
  none, some, List, [], ◌∷◌, arith, ◌==◌, ltb, if◌then◌else◌, length, Bool-cases, Option-cases, Run,
  ok, fault, dead_pointer, ◌>>=◌,
}
use callstack_count.Program.{CallstackEntry, CallstackOps}
use callstack_count.Art.{Node, Stream}
use callstack_count.Art.Insert.{ArtState}
use callstack_count.Art.Insert

-- The bytes of a word.
unfoldable pub word_byte : ℕ → ℕ → ℕ
word_byte w zero = w % 256
word_byte w (suc i) = word_byte (w / 256) i

-- `struct callstack_entry`: the ip, then the map.
unfoldable pub entry_byte : CallstackEntry → ℕ → ℕ
unfolding word_byte
entry_byte e i = if ltb i 8 then word_byte e.ip i else word_byte e.map_id (i - 8)

-- The memory of the array; what the list does not hold is zero.
unfoldable pub stack_byte : List CallstackEntry → ℕ → ℕ
unfolding entry_byte
stack_byte [] i = 0
stack_byte (e ∷ stack) i =
    let rest = stack_byte stack (i - 16) in if ltb i 16 then entry_byte e i else rest

-- The loop of art_tree_insert: where the first entry without an ip is, among those that are left.
unfoldable pub end_of_stack : ℕ → List CallstackEntry → Option ℕ
end_of_stack zero stack = none
end_of_stack (suc left) [] = some 0
end_of_stack (suc left) (e ∷ stack) =
    let rest = end_of_stack left stack in
    if e.ip == 0 then some 0 else (elim rest [ none ↦ none | some n ↦ some (n + 16) ])

-- The stream that art_tree_insert sets up; without an entry that ends the stack, `end` is never
-- written.
unfoldable pub stream_of : List CallstackEntry → Option Stream
unfolding end_of_stack stack_byte
stream_of stack = elim (end_of_stack 256 stack) [
  | none ↦ none
  | some n ↦ some (record { data_bytes = stack_byte stack; size = n; pos = 0 })
]

-- art_tree_insert. `insert` ends within its fuel.
unfoldable pub art_tree_insert :
    Option ℕ → List CallstackEntry → List (Node ℕ) → Run (Option ℕ × List (Node ℕ))
unfolding stream_of
art_tree_insert root stack heap = elim (stream_of stack) [
  | none ↦ fault dead_pointer
  | some s ↦ callstack_count.Art.Insert.insert s (record { heap = heap; root = root }) >>= λ r.
      elim r [ none ↦ ok (root, heap) | some st ↦ ok (st.root, st.heap) ]
]

-- art_tree_new with init_root
unfoldable pub art_tree_new : List (Node ℕ) → Run (Option ℕ × List (Node ℕ))
art_tree_new heap = ok (none, heap)

abbrev pub art_ops : CallstackOps (List (Node ℕ)) (Option ℕ)
art_ops = record { new = art_tree_new; insert = art_tree_insert }

-- The entries before the first without an ip, among those that are left.
unfoldable pub live_entries : ℕ → List CallstackEntry → List CallstackEntry
live_entries zero stack = []
live_entries (suc left) [] = []
live_entries (suc left) (e ∷ stack) =
    let rest = live_entries left stack in if e.ip == 0 then [] else e ∷ rest

-- The number that `n` bytes from the first on stand for.
unfoldable pub read_word : ℕ → (ℕ → ℕ) → ℕ
read_word zero f = 0
read_word (suc n) f = f 0 + 256 * read_word n (λ i. f (suc i))

-- So many entries, read from memory.
unfoldable pub read_entries : ℕ → (ℕ → ℕ) → List CallstackEntry
unfolding read_word
read_entries zero f = []
read_entries (suc n) f =
    record { ip = read_word 8 f; map_id = read_word 8 (λ i. f (8 + i)) }
    ∷ read_entries n (λ i. f (16 + i))

-- Words of 64 bits.
abbrev pub AreWords : List CallstackEntry → Type 0
AreWords [] = Unit
AreWords (e ∷ stack) = (e.ip < 2 ^ 64) × (e.map_id < 2 ^ 64) × AreWords stack

read_word-congr :
    (n : ℕ) (f g : ℕ → ℕ) → ((i : ℕ) → i < n → f i ≡ g i) → read_word n f ≡ read_word n g
unfolding read_word
read_word-congr zero f g e = refl
read_word-congr (suc n) f g e =
    let first = e 0 (omega arith) in
    let rest =
      read_word-congr n (λ i. f (suc i)) (λ i. g (suc i)) (λ i h. e (suc i) (omega arith)) in
    rw (first, rest) refl

read_word-word_byte : (n w : ℕ) → w < 256 ^ n → read_word n (word_byte w) ≡ w
unfolding read_word word_byte
read_word-word_byte zero w h = omega arith
read_word-word_byte (suc n) w h =
    let h' : w < 256 * 256 ^ n = omega (arith, h) in
    let rest = read_word-word_byte n (w / 256) (omega (arith, h')) in omega (arith, rest)

pub read_entries-congr :
    (n : ℕ) (f g : ℕ → ℕ) → ((i : ℕ) → f i ≡ g i) → read_entries n f ≡ read_entries n g
unfolding read_entries
read_entries-congr zero f g e = refl
read_entries-congr (suc n) f g e =
    let ip = read_word-congr 8 f g (λ i h. e i) in
    let map_id = read_word-congr 8 (λ i. f (8 + i)) (λ i. g (8 + i)) (λ i h. e (8 + i)) in
    let rest = read_entries-congr n (λ i. f (16 + i)) (λ i. g (16 + i)) (λ i. e (16 + i)) in
    rw (ip, map_id, rest) refl

first_word :
    (e : CallstackEntry) (stack : List CallstackEntry)
    → e.ip < 2 ^ 64
    → read_word 8 (stack_byte (e ∷ stack)) ≡ e.ip
unfolding stack_byte entry_byte
first_word e stack h =
    read_word-congr 8 (stack_byte (e ∷ stack)) (word_byte e.ip) (λ i k. ground (arith, k))
    ∙ read_word-word_byte 8 e.ip (omega (arith, h))

second_word :
    (e : CallstackEntry) (stack : List CallstackEntry)
    → e.map_id < 2 ^ 64
    → read_word 8 (λ i. stack_byte (e ∷ stack) (8 + i)) ≡ e.map_id
unfolding stack_byte entry_byte
second_word e stack h =
    read_word-congr 8 (λ i. stack_byte (e ∷ stack) (8 + i)) (word_byte e.map_id)
      (λ i k.
        let back : 8 + i - 8 ≡ i = omega arith in
        let low : ltb (8 + i) 16 ≡ true = ground (arith, k) in
        let high : ltb (8 + i) 8 ≡ false = ground arith in rw (low, high, back) refl)
    ∙ read_word-word_byte 8 e.map_id (omega (arith, h))

later_bytes :
    (e : CallstackEntry) (stack : List CallstackEntry) (i : ℕ)
    → stack_byte (e ∷ stack) (16 + i) ≡ stack_byte stack i
unfolding stack_byte
later_bytes e stack i =
    let far : ltb (16 + i) 16 ≡ false = ground arith in
    let back : 16 + i - 16 ≡ i = omega arith in rw (far, back) refl

decoded :
    (left n : ℕ) (stack : List CallstackEntry)
    → AreWords stack
    → end_of_stack left stack ≡ some n
    → (n ≡ 16 * length (live_entries left stack))
      × (read_entries (length (live_entries left stack)) (stack_byte stack)
          ≡ live_entries left stack)
unfolding end_of_stack live_entries read_entries
decoded zero n stack w e = cc
decoded (suc left) n [] w e = (let same : 0 ≡ n = cc in omega (arith, same), refl)
decoded (suc left) n (x ∷ stack) w e = elim (Bool-cases (x.ip == 0)) [
  | inl stop ↦
      let same : ◌≡◌ {A = Option ℕ} (some 0) (some n) = rw stop at e in
      let zero_size : 0 ≡ n = cc in rw (live_entries, stop) (omega (arith, zero_size), refl)
  | inr more ↦ elim (Option-cases (end_of_stack left stack)) [
    | inl gone ↦ absurd (let bad = rw (more, gone) at e in cc)
    | inr (m, found) ↦
        let same : ◌≡◌ {A = Option ℕ} (some (m + 16)) (some n) = rw (more, found) at e in
        let sum : m + 16 ≡ n = cc in
        let (size, rest) = decoded left m stack w.2 found in
        let ip = first_word x stack w.0 in
        let map_id = second_word x stack w.1 in
        let others =
          read_entries-congr (length (live_entries left stack))
            (λ i. stack_byte (x ∷ stack) (16 + i)) (stack_byte stack) (later_bytes x stack)
          ∙ rest in
        rw (live_entries, more) (omega (arith, size, sum), rw (ip, map_id, others) refl)
  ]
]

-- The stream of a stack of 64-bit words that has an end within 256 entries has 16 bytes for each entry
-- before that end, the ip and then the map, each word with its low byte first, and reading them back
-- gives these entries.
pub stream_of-read_entries :
    (stack : List CallstackEntry) (s : Stream)
    → AreWords stack
    → stream_of stack ≡ some s
    → (s.size ≡ 16 * length (live_entries 256 stack))
      × (read_entries (s.size / 16) s.data_bytes ≡ live_entries 256 stack)
unfolding stream_of
stream_of-read_entries stack s w e = elim (Option-cases (end_of_stack 256 stack)) [
  | inl gone ↦ absurd (let bad = rw (stream_of, gone) at e in cc)
  | inr (n, found) ↦
      let same : ◌≡◌ {A = Option Stream}
          (some (record { data_bytes = stack_byte stack; size = n; pos = 0 })) (some s) =
        rw (stream_of, found) at e in
      let whole : record { data_bytes = stack_byte stack; size = n; pos = 0 } ≡ s = cc in
      let (size, back) = decoded 256 n stack w found in
      let count : n / 16 ≡ length (live_entries 256 stack) = omega (arith, size) in
      rw (← whole) (size, rw count back)
]
