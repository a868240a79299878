-- ===== src/Examples.antt =====
-- Runs of the theorems at concrete stacks, records and map ids.
pub mod Backends
pub mod Tables
pub mod Callchains
pub mod Stacks
pub mod Streams
use mathlib.Core.List.Perm
use callstack_count.Prelude.{
  ℕ, ◌+◌, ◌*◌, ◌^◌, ◌%◌, ◌≡◌, ◌↔◌, refl, true, false, none, List, [], ◌∷◌, ◌++◌, arith, ok,
}
use callstack_count.RbTree.{RbLibrary, Tree}
use callstack_count.RbTree
use callstack_count.Callchain.{CursorNode, function, MapSymbol}
use callstack_count.Callchain.Cursor.{
  Cursor, IsWritten, frames, callchain_cursor_append, callchain_cursor_copy, written_node,
}
use callstack_count.Callchain.Cursor.Frames.{
  callchain_cursor_append-frames, callchain_cursor_copy-frames,
}
use callstack_count.Callchain.Match.{match_lt, match_gt, match_chain_dso_addresses}
use callstack_count.Callchain.Append.{Reader, callchain_append}
use callstack_count.Callchain.Tree.{inorder, CallchainRoot, callchain_init}
use callstack_count.Callchain.Weight.{Key}
use callstack_count.Callchain.Append.Root.{
  chain_count, IsRoot, Appended, callchain_append-Appended, callchain_init-IsRoot,
  chain_total-callchain_init,
}
use callstack_count.Program.{CallstackEntry, Record, TreeEntry, Program, start, main_loop}
use callstack_count.Program.Trees.{IsProgram, tree_of, start-IsProgram}
use callstack_count.Program.Refine.{Refines, spec_loop, view, main_loop-Refines}
use callstack_count.Program.Maps.{
  MapTree, Maps, no_maps, get_map, AreOwn, get_map-congruent, AreSmall, get_map-small,
  get_map-aliases,
}
use callstack_count.Linux.{LinuxShared, linux_start, linux_ops}
use callstack_count.Linux.Order.{main_loop-order}
use callstack_count.Linux.Main.{HaveSmallMaps, count_in, records_with, main_loop-counts}
use callstack_count.Linux.Counts.{insert_all, stacks_with, insert_all-counts}

-- A library that never rotates.
abbrev pub map_lib : RbLibrary {T = Tree MapTree} callstack_count.RbTree.inorder
map_lib = record { rb_insert_color = λ path t. t; in_order = λ path t. refl }

abbrev pub chain_lib : RbLibrary inorder
chain_lib = record { rb_insert_color = λ path t. t; in_order = λ path t. refl }

abbrev entry : ℕ → ℕ → CallstackEntry
entry ip map_id = record { ip = ip; map_id = map_id }

-- The two stacks of `simple_records` in src/main.c.
abbrev short_stack : List CallstackEntry
short_stack = entry 4294910498 819 ∷ entry 0 0 ∷ []

abbrev pub long_stack : List CallstackEntry
long_stack = entry 4294910498 819 ∷ entry 4294914867 1092 ∷ entry 0 0 ∷ []

insert_all-counts_example :
    (tree' : CallchainRoot) × (g' : LinuxShared) × (insert_all map_lib chain_lib callchain_init
        (long_stack ∷ short_stack ∷ [])
        linux_start
      ≡ ok (tree', g'))
    × IsRoot tree'
    × ((q : List Key)
        → chain_count tree' q
          ≡ chain_count callchain_init q + stacks_with (long_stack ∷ short_stack ∷ []) q)
insert_all-counts_example =
    insert_all-counts map_lib chain_lib callchain_init (long_stack ∷ short_stack ∷ []) linux_start
      callchain_init-IsRoot tt
      ((omega arith, (omega arith, (omega arith, tt))), ((omega arith, (omega arith, tt)), tt))
      (omega (arith, chain_total-callchain_init))

abbrev pub unresolved : MapSymbol
unresolved = record { maps = 0; map_ptr = 819; sym = none }

abbrev pub frame : ℕ → CursorNode
frame ip = record {
  ip = ip;
  ms = unresolved;
  srcline = none;
  branch = false;
  branch_flags = record { predicted = false; abort = false; cycles = 0 };
  branch_from = 0;
  nr_loop_iter = 0;
  iter_cycles = 0;
}

-- A cursor with two frames of which the first is in use.
abbrev pub one_frame : Cursor
one_frame = record { nr = 1; nodes = frame 16 ∷ frame 32 ∷ []; last = 1; pos = 0; curr = 0 }

pub one_frame-IsWritten : IsWritten one_frame
one_frame-IsWritten = record { at_end = refl; cached = omega arith }

abbrev pub reader : Reader
reader = record { cursor = one_frame; deepest = 0 }

callchain_append-Appended_example :
    (root' : CallchainRoot) × (s' : Reader) × (callchain_append chain_lib function 3 callchain_init
        reader
      ≡ ok (true, root', s'))
    × Appended callchain_init root' (frame 16 ∷ [])
callchain_append-Appended_example =
    callchain_append-Appended chain_lib function 3 callchain_init reader (frame 16) []
      callchain_init-IsRoot one_frame-IsWritten refl
      (record { no_lines = λ e. cc; no_sym = refl }, tt) (omega arith)
      (omega (arith, chain_total-callchain_init))

callchain_cursor_append-frames_example :
    IsWritten (callchain_cursor_append one_frame 48 unresolved false none 0 0 0 none)
    × (frames (callchain_cursor_append one_frame 48 unresolved false none 0 0 0 none)
        ≡ frames one_frame ++ written_node one_frame 48 unresolved false none 0 0 0 none ∷ [])
callchain_cursor_append-frames_example =
    callchain_cursor_append-frames one_frame 48 unresolved false none 0 0 0 none one_frame-IsWritten

callchain_cursor_copy-frames_example :
    IsWritten (callchain_cursor_copy one_frame one_frame).0
    × (frames (callchain_cursor_copy one_frame one_frame).0 ≡ frames one_frame)
callchain_cursor_copy-frames_example =
    callchain_cursor_copy-frames one_frame one_frame one_frame-IsWritten

-- One map, of id 819.
abbrev one_map : Maps
one_map = (get_map map_lib 819 no_maps).1

one_map-AreOwn : AreOwn one_map
one_map-AreOwn = (get_map-congruent map_lib 819 no_maps (omega arith) tt).1

get_map-congruent_example :
    ((get_map map_lib 1092 one_map).0 % 2 ^ 32 ≡ 1092 % 2 ^ 32)
    × AreOwn (get_map map_lib 1092 one_map).1
get_map-congruent_example = get_map-congruent map_lib 1092 one_map (omega arith) one_map-AreOwn

one_map-AreSmall : AreSmall one_map
one_map-AreSmall = (get_map-small map_lib 819 no_maps (omega arith) tt).1

get_map-small_example :
    ((get_map map_lib 1092 one_map).0 ≡ 1092) × AreSmall (get_map map_lib 1092 one_map).1
get_map-small_example = get_map-small map_lib 1092 one_map (omega arith) one_map-AreSmall

get_map-aliases_example : (get_map map_lib 4294968115 (get_map map_lib 819 no_maps).1).0 ≡ 819
get_map-aliases_example =
    get_map-aliases map_lib 819 4294968115 (omega arith) (omega arith) (λ e. omega (arith, e))
      (omega arith)

abbrev tree_lib : RbLibrary {T = Tree TreeEntry} callstack_count.RbTree.inorder
tree_lib = record { rb_insert_color = λ path t. t; in_order = λ path t. refl }

abbrev two_records : List Record
two_records =
    record { id = 4369; stack = short_stack } ∷ record { id = 4369; stack = long_stack } ∷ []

main_loop-Refines_example :
    Refines tree_lib
      (linux_ops map_lib chain_lib)
      (main_loop tree_lib
        (linux_ops map_lib chain_lib)
        20
        two_records
        (start tree_lib (linux_ops map_lib chain_lib) linux_start))
      (spec_loop tree_lib (linux_ops map_lib chain_lib) 20 two_records (
        view tree_lib
          (linux_ops map_lib chain_lib)
          (start tree_lib (linux_ops map_lib chain_lib) linux_start)))
main_loop-Refines_example =
    main_loop-Refines tree_lib (linux_ops map_lib chain_lib) 20 two_records
      (start tree_lib (linux_ops map_lib chain_lib) linux_start)
      (start-IsProgram tree_lib (linux_ops map_lib chain_lib) linux_start)

two_records_small : HaveSmallMaps two_records
two_records_small =
    ((omega arith, (omega arith, tt)), ((omega arith, (omega arith, (omega arith, tt))), tt))

main_loop-counts_example :
    (m : Program LinuxShared CallchainRoot) × (main_loop tree_lib
        (linux_ops map_lib chain_lib)
        20
        two_records
        (start tree_lib (linux_ops map_lib chain_lib) linux_start)
      ≡ ok m)
    × IsProgram m
    × ((id : ℕ) (q : List Key) → count_in (tree_of m) id q ≡ 20 * records_with two_records id q)
main_loop-counts_example =
    main_loop-counts tree_lib map_lib chain_lib 20 two_records two_records_small (omega arith)

abbrev two_records_turned : List Record
two_records_turned =
    record { id = 4369; stack = long_stack } ∷ record { id = 4369; stack = short_stack } ∷ []

main_loop-order_example :
    (m m' : Program LinuxShared CallchainRoot) × (main_loop tree_lib
        (linux_ops map_lib chain_lib)
        20
        two_records
        (start tree_lib (linux_ops map_lib chain_lib) linux_start)
      ≡ ok m)
    × (main_loop tree_lib
          (linux_ops map_lib chain_lib)
          20
          two_records_turned
          (start tree_lib (linux_ops map_lib chain_lib) linux_start)
        ≡ ok m')
    × ((id : ℕ) (q : List Key) → count_in (tree_of m) id q ≡ count_in (tree_of m') id q)
main_loop-order_example =
    main_loop-order tree_lib map_lib chain_lib 20 two_records two_records_turned (Perm.swap _ _ [])
      two_records_small (two_records_small.1.0, (two_records_small.0, tt)) (omega arith)
