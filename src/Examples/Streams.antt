-- ===== src/Examples/Streams.antt =====
-- Runs of the theorems on two streams in the adaptive radix tree, on the cursor of the perf
-- backend, and on the arguments of main.
use callstack_count.Prelude.{ℕ, ◌↔◌, [], ◌∷◌, ◌≡◌, refl, ◌==◌, some, arith, if◌then◌else◌, ok}
use callstack_count.Art.{Stream, Node, inner_4, make_leaf}
use callstack_count.Art.Insert.{ArtState, load_node, insert}
use callstack_count.Art.Insert.Counts.{leaf_tree}
use callstack_count.Art.Insert.Search.{search}
use callstack_count.Art.Insert.Fork.{HaveCommon}
use callstack_count.Art.Insert.Two.{insert-search}
use callstack_count.Art.Insert.Nested.{insert-forgets}
use callstack_count.Callchain.Cursor.{new_cursor, callchain_cursor_reset}
use callstack_count.Program.Maps.{no_maps}
use callstack_count.Program.Options.{art, chosen, choose_ops, name_of, choose_ops_iff}
use callstack_count.Linux.{max_stack_entries, build_cursor}
use callstack_count.Linux.Bounds.{IsBounded, room, build_cursor-IsBounded}
use callstack_count.Examples.{map_lib, chain_lib, long_stack}

abbrev counting : ℕ → Stream
counting n = record { data_bytes = λ i. i; size = n; pos = 0 }

-- It differs from `counting 4` at its third byte.
abbrev forked : Stream
forked = record { data_bytes = λ i. if i == 2 then 9 else i; size = 4; pos = 0 }

forked-HaveCommon : HaveCommon (counting 4) forked 2
forked-HaveCommon = record {
  bounded = omega arith;
  equal = λ i h. ground (arith, h);
  longest = λ h e. omega (arith, e);
}

insert-search_example :
    (st : ArtState) × (insert forked (leaf_tree (counting 4) 6) ≡ ok (some st))
    × (search 5 st.root (counting 4) 0 st ≡ ok (some (some 0)))
    × (load_node 0 st ≡ ok (record (make_leaf (counting 4)) { count = 6 }))
    × (search 5 st.root forked 0 st ≡ ok (some (some 2)))
    × (load_node 2 st ≡ ok (make_leaf forked))
insert-search_example =
    insert-search (counting 4) forked 6 2 forked-HaveCommon (omega arith) (omega arith)
      (omega arith) (omega arith) (omega arith)

nested-HaveCommon : HaveCommon (counting 4) (counting 8) 4
nested-HaveCommon = record {
  bounded = omega arith;
  equal = λ i h. refl;
  longest = λ h e. omega (arith, h);
}

insert-forgets_example :
    (st : ArtState) × (n : Node ℕ) × (insert (counting 8) (leaf_tree (counting 4) 6) ≡ ok (some st))
    × (search 5 st.root (counting 4) 0 st ≡ ok (some (some 1)))
    × (load_node 1 st ≡ ok n)
    × (n.flags ≡ inner_4)
    × (n.count ≡ 0)
insert-forgets_example =
    insert-forgets (counting 4) (counting 8) 6 nested-HaveCommon (omega arith) (omega arith)
      (omega arith)

build_cursor-IsBounded_example :
    IsBounded
      (room new_cursor)
      (build_cursor map_lib chain_lib max_stack_entries long_stack no_maps
        (callchain_cursor_reset new_cursor)).1
      0
build_cursor-IsBounded_example =
    build_cursor-IsBounded map_lib chain_lib long_stack no_maps new_cursor

choose_ops_iff_example :
    (choose_ops ((46 ∷ []) ∷ (97 ∷ 114 ∷ 116 ∷ []) ∷ []) ≡ chosen art)
    ↔ ((97 ∷ 114 ∷ 116 ∷ []) ≡ name_of art)
choose_ops_iff_example = choose_ops_iff (46 ∷ []) (97 ∷ 114 ∷ 116 ∷ []) [] art
