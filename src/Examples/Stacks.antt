-- ===== src/Examples/Stacks.antt =====
-- Runs of the theorems on the adaptive radix tree as a table of counted stacks.
use callstack_count.Prelude.{
  ℕ, zero, suc, ◌+◌, ◌^◌, ◌<◌, ◌≤◌, ◌⊎◌, ◌≡◌, ◌≢◌, refl, false, Option, none, some, List, [], ◌∷◌,
  arith, ◌==◌, ltb, if◌then◌else◌, get_elem?, ok,
}
use callstack_count.RbTree.{RbLibrary, Tree}
use callstack_count.RbTree
use callstack_count.Program.{Record, CallstackEntry, TreeEntry, Program, start, main_loop}
use callstack_count.Art.{Node, leaf, inner_4, alloc_node, make_leaf, memcmp_zero}
use callstack_count.Art.Insert.{ArtState, at_slot, push_node, insert, do_leaf, from}
use callstack_count.Art.Insert.Counts.{leaf_tree, insert_again, new_tree}
use callstack_count.Art.Backend.{stack_byte, entry_byte, word_byte, art_tree_insert, art_ops}
use callstack_count.Art.Stacks.{IsTree, HasRoom, stream_of, count_of}
use callstack_count.Art.Stacks.Keeping.{IsNarrow, counted_again, grown_to}
use callstack_count.Art.Stacks.Inserting.{IsPadded, ArePadded}
use callstack_count.Art.Stacks.Counting.{
  Inserts, none_yet, also, Tallies, count_of-insert, Inserts-Tallies, tally,
}
use callstack_count.Art.Stacks.Few.{insert_list, kinds, insert_list-tally}
use callstack_count.Art.Stacks.Overrun.{do_leaf_overrun}
use callstack_count.Art.Stacks.MainLoop.{after_rounds, art_tree, main_loop-tally}
use callstack_count.Art.Stacks.Entries.{IsStack, stack_count, art_tree_insert-counts}

-- Two bytes, and zeros behind them.
abbrev pair : ℕ → ℕ → ℕ → ℕ
pair a b i = if i == 0 then a else if i == 1 then b else 0

pair-IsPadded : (a b : ℕ) → IsPadded 2 (pair a b)
pair-IsPadded a b j h = ground arith

abbrev one_leaf : ℕ → (ℕ → ℕ) → ℕ → ArtState
one_leaf n f c = leaf_tree (stream_of f n 0) c

one_leaf-HasRoom : (n : ℕ) (f : ℕ → ℕ) (c : ℕ) → HasRoom (one_leaf n f c)
unfolding make_leaf alloc_node
one_leaf-HasRoom n f c zero m h k = absurd (cc)
one_leaf-HasRoom n f c (suc p) m h k = absurd (cc)

new_tree-HasRoom : HasRoom new_tree
new_tree-HasRoom p m h k = absurd (cc)

one_inserted : (n : ℕ) (f : ℕ → ℕ) → IsPadded n f → Inserts n (f ∷ []) (one_leaf n f 0)
unfolding insert push_node make_leaf alloc_node
one_inserted n f pf = also f 0 none_yet (λ _. new_tree-HasRoom) pf refl

two_inserted : (n : ℕ) (f : ℕ → ℕ) → IsPadded n f → Inserts n (f ∷ f ∷ []) (one_leaf n f 1)
two_inserted n f pf =
    also f 0 (one_inserted n f pf) (λ _. one_leaf-HasRoom n f 0) pf
      (insert_again (stream_of f n 0) 0)

Inserts-Tallies_example : Tallies 2 (pair 1 2 ∷ pair 1 2 ∷ []) (one_leaf 2 (pair 1 2) 1)
Inserts-Tallies_example =
    Inserts-Tallies 2 (pair 1 2 ∷ pair 1 2 ∷ []) (one_leaf 2 (pair 1 2) 1) (omega arith)
      (two_inserted 2 (pair 1 2) (pair-IsPadded 1 2))

-- What the theorem needs of a tree with one leaf.
one_leaf-Tallies :
    (n : ℕ) (f : ℕ → ℕ) → n < 129 → IsPadded n f → Tallies n (f ∷ []) (one_leaf n f 0)
one_leaf-Tallies n f h pf =
    Inserts-Tallies n (f ∷ []) (one_leaf n f 0) (omega (arith, h)) (one_inserted n f pf)

count_of-insert_example :
    (st' : ArtState) × (insert (stream_of (pair 1 3) 2 0) (one_leaf 2 (pair 1 2) 0) ≡ ok (some st'))
    × IsTree 2 st'
    × ArePadded 2 st'
    × ((b : ℕ)
        → ((◌≡◌ {A = Option ℕ} (some 0) none) ⊎ (1 ≤ b))
        → IsNarrow b (one_leaf 2 (pair 1 2) 0)
        → IsNarrow (grown_to (count_of 2 (pair 1 3) (one_leaf 2 (pair 1 2) 0)) b) st')
    × ((t : ℕ → ℕ)
        → count_of 2 t st' ≡ (
            if memcmp_zero t (pair 1 3) 2
            then some (counted_again (count_of 2 (pair 1 3) (one_leaf 2 (pair 1 2) 0)))
            else count_of 2 t (one_leaf 2 (pair 1 2) 0)))
count_of-insert_example =
    count_of-insert 2 (pair 1 3) 0 (one_leaf 2 (pair 1 2) 0) (omega arith)
      (one_leaf-Tallies 2 (pair 1 2) (omega arith) (pair-IsPadded 1 2)).0
      (one_leaf-Tallies 2 (pair 1 2) (omega arith) (pair-IsPadded 1 2)).1
      (λ _. one_leaf-HasRoom 2 (pair 1 2) 0) (pair-IsPadded 1 3)

abbrev entry : ℕ → List CallstackEntry
entry ip = record { ip = ip; map_id = 7 } ∷ []

entry-IsStack : (ip : ℕ) → ip ≢ 0 → ip < 2 ^ 64 → IsStack 1 (entry ip)
entry-IsStack ip h w = record { long = refl; words = (w, omega arith, tt); live = (h, tt) }

entry-IsPadded : (ip : ℕ) → IsPadded 16 (stack_byte (entry ip))
unfolding stack_byte
entry-IsPadded ip j h = let far : ltb (16 + j) 16 ≡ false = ground arith in rw far refl

art_tree_insert-counts_example :
    (st' : ArtState) × (art_tree_insert
        (some 0)
        (entry 5)
        (one_leaf 16 (stack_byte (entry 9)) 0).heap
      ≡ ok (st'.root, st'.heap))
    × IsTree 16 st'
    × ArePadded 16 st'
    × (stack_count 1 (entry 5) st'
        ≡ some (counted_again (stack_count 1 (entry 5) (one_leaf 16 (stack_byte (entry 9)) 0))))
    × ((u : List CallstackEntry)
        → IsStack 1 u
        → u ≢ entry 5
        → stack_count 1 u st' ≡ stack_count 1 u (one_leaf 16 (stack_byte (entry 9)) 0))
art_tree_insert-counts_example =
    art_tree_insert-counts 1 (omega arith) (entry 5) (one_leaf 16 (stack_byte (entry 9)) 0)
      (one_leaf-Tallies 16 (stack_byte (entry 9)) (omega arith) (entry-IsPadded 9)).0
      (one_leaf-Tallies 16 (stack_byte (entry 9)) (omega arith) (entry-IsPadded 9)).1
      (λ _. one_leaf-HasRoom 16 (stack_byte (entry 9)) 0)
      (entry-IsStack 5 (omega arith) (omega arith))

-- Three records of one id, two of them with one stack.
abbrev tree_entries_lib : RbLibrary {T = Tree TreeEntry} callstack_count.RbTree.inorder
tree_entries_lib = record { rb_insert_color = λ path t. t; in_order = λ path t. refl }

abbrev three_records : List Record
three_records =
    record { id = 7; stack = entry 5 }
    ∷ record { id = 7; stack = entry 9 }
    ∷ record { id = 7; stack = entry 5 }
    ∷ []

records_few : kinds 16 (after_rounds 2 three_records []) ≤ 4
unfolding memcmp_zero stack_byte entry_byte word_byte
records_few = omega arith

main_loop-tally_example :
    (m : Program (List (Node ℕ)) (Option ℕ)) × (main_loop tree_entries_lib art_ops 2 three_records
        (start tree_entries_lib art_ops [])
      ≡ ok m)
    × ((s : List CallstackEntry)
        → IsStack 1 s
        → stack_count 1 s (art_tree m 7)
          ≡ tally 16 (stack_byte s) (after_rounds 2 three_records []))
main_loop-tally_example =
    main_loop-tally tree_entries_lib 7 1 (omega arith) 2 three_records
      (
        refl,
        entry-IsStack 5 (omega arith) (omega arith),
        (
          refl,
          entry-IsStack 9 (omega arith) (omega arith),
          (refl, entry-IsStack 5 (omega arith) (omega arith), tt),
        ),
      )
      records_few

-- A leaf below an inner node, with other bytes behind its stack than the stack that is inserted.
abbrev overrun_leaf : Node ℕ
overrun_leaf = record {
  key_len = 2;
  key = pair 1 2;
  arr = λ i. none;
  flags = leaf;
  count = 6;
  prefix_len = 0;
  prefix = λ i. 0;
}

abbrev overrun_holder : Node ℕ
overrun_holder = record {
  key_len = 1;
  key = λ i. 1;
  arr = λ i. if i == 0 then some 1 else none;
  flags = inner_4;
  count = 0;
  prefix_len = 0;
  prefix = λ i. 0;
}

abbrev overrun_tree : ArtState
overrun_tree = record { heap = overrun_holder ∷ overrun_leaf ∷ []; root = some 0 }

abbrev overrun_bytes : ℕ → ℕ
overrun_bytes i = if i == 2 then 9 else pair 1 2 i

overrun_behind : memcmp_zero (from (pair 1 2) 1) (from overrun_bytes 1) 2 ≡ false
unfolding memcmp_zero
overrun_behind = refl

do_leaf_overrun_example :
    (st' : ArtState) × (b : Node ℕ) × (c : Node ℕ) × (do_leaf
        (at_slot 0 0)
        1
        (stream_of overrun_bytes 2 0)
        1
        overrun_tree
      ≡ ok st')
    × (get_elem? st'.heap 0 ≡ some b)
    × (b.arr 0 ≡ some 2)
    × (get_elem? st'.heap 2 ≡ some c)
    × (c.flags ≡ inner_4)
    × (c.key_len ≡ 0)
    × (c.count ≡ 0)
do_leaf_overrun_example =
    do_leaf_overrun 2 overrun_tree overrun_bytes 0 0 1 1 0 overrun_leaf overrun_holder refl refl
      refl refl (omega arith) (omega arith) (λ j h. ground (arith, h)) overrun_behind

abbrev four_stacks : List (ℕ → ℕ)
four_stacks = pair 1 2 ∷ pair 1 3 ∷ pair 4 5 ∷ pair 1 2 ∷ []

four_few : kinds 2 four_stacks ≤ 4
unfolding memcmp_zero
four_few = omega arith

insert_list-tally_example :
    (st : ArtState) × (insert_list 2 four_stacks ≡ ok (some st))
    × ((t : ℕ → ℕ) → count_of 2 t st ≡ tally 2 t four_stacks)
insert_list-tally_example =
    insert_list-tally 2 four_stacks (omega arith) four_few
      (pair-IsPadded 1 2, (pair-IsPadded 1 3, (pair-IsPadded 4 5, (pair-IsPadded 1 2, tt))))
