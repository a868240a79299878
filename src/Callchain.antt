-- ===== src/Callchain.antt =====
-- The data of the perf backend: src/include/callchain.h, map_symbol.h and branch.h.
-- Pointers that the code only compares (maps, dsos) are numbers, NULL is 0. A C string is the list
-- of its bytes, and a string pointer that may be NULL an Option.
pub mod Cursor
pub mod Match
pub mod Tree
pub mod Append
pub mod Weight
pub mod Compare
pub mod Sort
pub mod Merge
use callstack_count.Prelude.{ℕ, ◌+◌, ◌%◌, ◌^◌, Bool, Option, List}

-- Unsigned additions of the machine, on u64 and on unsigned int.
abbrev pub add_u64 : ℕ → ℕ → ℕ
add_u64 a b = (a + b) % 2 ^ 64

abbrev pub add_u32 : ℕ → ℕ → ℕ
add_u32 a b = (a + b) % 2 ^ 32

-- Of `struct symbol` the code reads these three.
pub record Symbol : Type 0 where
  pub start : ℕ
  pub inlined : Bool
  pub name : List ℕ

pub record MapSymbol : Type 0 where
  pub maps : ℕ
  pub map_ptr : ℕ
  pub sym : Option Symbol

pub record BranchFlags : Type 0 where
  pub predicted : Bool
  pub abort : Bool
  pub cycles : ℕ

-- An entry of a node's `val` list. `brtype_stat` is the flag `branch_to` of the allocated
-- `branch_type_stat`; the counters of that struct are written by no code that is compiled.
pub record CallchainList : Type 0 where
  pub ip : ℕ
  pub ms : MapSymbol
  pub srcline : Option (List ℕ)
  pub branch_count : ℕ
  pub from_count : ℕ
  pub cycles_count : ℕ
  pub iter_count : ℕ
  pub iter_cycles : ℕ
  pub brtype_stat : Option Bool
  pub predicted_count : ℕ
  pub abort_count : ℕ

-- A frame of the cursor. `nr_loop_iter` is the value that its conversion to u64 gives.
pub record CursorNode : Type 0 where
  pub ip : ℕ
  pub ms : MapSymbol
  pub srcline : Option (List ℕ)
  pub branch : Bool
  pub branch_flags : BranchFlags
  pub branch_from : ℕ
  pub nr_loop_iter : ℕ
  pub iter_cycles : ℕ

pub data ChainKey : Type 0 where
  function address source_line : ChainKey
