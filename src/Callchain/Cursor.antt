-- ===== src/Callchain/Cursor.antt =====
-- The callchain cursor of src/include/callchain.h and src/lib/linux/callchain.c: a linked list of
-- cached nodes, of which the first `nr` hold the chain. A pointer into that list is a position:
-- `last` is the link that the next append fills, `curr` the node that is read next.
pub mod Frames
pub mod Snapshot
use callstack_count.Prelude.{
  ℕ, zero, suc, ◌+◌, ◌-◌, ◌≤◌, ◌<◌, ◌≡◌, refl, Bool, Option, none, some, List, [], ◌∷◌, ◌++◌, sym,
  ap, ◌∙◌, arith, length-take, length-drop, ◌==◌, if◌then◌else◌, length, get_elem?, get_or, set,
  take, drop,
}
use callstack_count.Callchain.{MapSymbol, BranchFlags, CursorNode}

pub record Cursor : Type 0 where
  pub nr : ℕ
  pub nodes : List CursorNode
  pub last : ℕ
  pub pos : ℕ
  pub curr : ℕ

-- A cursor that calloc has cleared, before its first reset.
abbrev pub new_cursor : Cursor
new_cursor = record { nr = 0; nodes = []; last = 0; pos = 0; curr = 0 }

abbrev no_flags : BranchFlags
no_flags = record { predicted = Bool.false; abort = Bool.false; cycles = 0 }

abbrev no_symbol : MapSymbol
no_symbol = record { maps = 0; map_ptr = 0; sym = none }

-- A node that calloc has cleared.
abbrev blank : CursorNode
blank = record {
  ip = 0;
  ms = no_symbol;
  srcline = none;
  branch = Bool.false;
  branch_flags = no_flags;
  branch_from = 0;
  nr_loop_iter = 0;
  iter_cycles = 0;
}

-- The cached nodes stay.
unfoldable pub callchain_cursor_reset : Cursor → Cursor
callchain_cursor_reset c = record c { nr = 0; last = 0 }

unfoldable pub callchain_cursor_commit : Cursor → Cursor
callchain_cursor_commit c = record c { curr = 0; pos = 0 }

-- NULL at the end of the chain, or where the list of nodes ends.
unfoldable pub callchain_cursor_current : Cursor → Option CursorNode
callchain_cursor_current c = if c.pos == c.nr then none else get_elem? c.nodes c.curr

unfoldable pub callchain_cursor_advance : Cursor → Cursor
callchain_cursor_advance c = record c { curr = c.curr + 1; pos = c.pos + 1 }

-- `*cursor->last`: the cached node at the position, or a new one linked there.
unfoldable pub last_node : Cursor → CursorNode
last_node c = get_or c.nodes c.last blank

unfoldable pub link_last : Cursor → CursorNode → List CursorNode
link_last c n = if length c.nodes == c.last then c.nodes ++ n ∷ [] else set c.nodes c.last n

-- A reused node keeps its old branch flags where the call gives none.
unfoldable pub flags_of : Option BranchFlags → BranchFlags → BranchFlags
flags_of none old = old
flags_of (some f) old = f

unfoldable pub written_node :
    Cursor → ℕ → MapSymbol → Bool → Option BranchFlags → ℕ → ℕ → ℕ → Option (List ℕ) → CursorNode
unfolding last_node flags_of
written_node c ip ms branch flags nr_loop_iter iter_cycles branch_from srcline = record {
  ip = ip;
  ms = ms;
  srcline = srcline;
  branch = branch;
  branch_flags = flags_of flags (last_node c).branch_flags;
  branch_from = branch_from;
  nr_loop_iter = nr_loop_iter;
  iter_cycles = iter_cycles;
}

unfoldable pub callchain_cursor_append :
    Cursor → ℕ → MapSymbol → Bool → Option BranchFlags → ℕ → ℕ → ℕ → Option (List ℕ) → Cursor
unfolding link_last written_node
callchain_cursor_append c ip ms branch flags nr_loop_iter iter_cycles branch_from srcline =
    let node = written_node c ip ms branch flags nr_loop_iter iter_cycles branch_from srcline in
    record c { nr = c.nr + 1; nodes = link_last c node; last = c.last + 1 }

-- The loop of callchain_cursor__copy; the fuel is the number of frames that the source has left.
unfoldable pub copy_from : ℕ → Cursor → Cursor → Cursor × Cursor
copy_from zero dst src = (dst, src)
copy_from (suc fuel) dst src = elim (callchain_cursor_current src) [
  | none ↦ (dst, src)
  | some n ↦
      copy_from fuel
        (callchain_cursor_append dst n.ip n.ms n.branch (some n.branch_flags) n.nr_loop_iter
          n.iter_cycles n.branch_from n.srcline)
        (callchain_cursor_advance src)
]

-- callchain_cursor__copy: both cursors after it, first the copy.
unfoldable pub callchain_cursor_copy : Cursor → Cursor → Cursor × Cursor
unfolding copy_from
callchain_cursor_copy dst src =
    copy_from src.nr (callchain_cursor_reset dst) (callchain_cursor_commit src)

-- What the writer keeps: the link to fill is behind the last frame of the chain.
pub record IsWritten (c : Cursor) : Type 0 where
  pub at_end : c.last ≡ c.nr
  pub cached : c.nr ≤ length c.nodes

-- The chain that was written.
abbrev pub frames : Cursor → List CursorNode
frames c = take c.nr c.nodes

-- What the reader keeps.
pub record IsReading (c : Cursor) : Type 0 where
  pub in_step : c.curr ≡ c.pos
  pub bounded : c.pos ≤ c.nr
  pub stored : c.nr ≤ length c.nodes

-- The frames that are still to be read.
abbrev pub pending : Cursor → List CursorNode
pending c = take (c.nr - c.pos) (drop c.curr c.nodes)

pub IsReading-commit : (c : Cursor) → IsWritten c → IsReading (callchain_cursor_commit c)
unfolding callchain_cursor_commit
IsReading-commit c w = omega arith

pub pending-commit : (c : Cursor) → pending (callchain_cursor_commit c) ≡ frames c
unfolding callchain_cursor_commit
pending-commit c = ap (λ k. take k c.nodes) (omega arith)

take-drop_step :
    (i n : ℕ) (xs : List CursorNode)
    → i < n
    → n ≤ length xs
    → (x : CursorNode) × (get_elem? xs i ≡ some x)
      × (take (n - i) (drop i xs) ≡ x ∷ take (n - (i + 1)) (drop (i + 1) xs))
take-drop_step i zero xs lo hi = absurd (omega arith)
take-drop_step i (suc n) [] lo hi = absurd (omega arith)
take-drop_step zero (suc n) (x ∷ xs) lo hi =
    let whole : suc n - 0 ≡ suc n = omega arith in
    let less : suc n - 1 ≡ n = omega arith in (x, refl, rw (whole, less))
take-drop_step (suc i) (suc n) (x ∷ xs) lo hi =
    let whole : suc n - suc i ≡ n - i = omega arith in
    let less : suc n - suc (i + 1) ≡ n - (i + 1) = omega arith in
    let next : suc i + 1 ≡ suc (i + 1) = omega arith in
    rw (next, whole, less) (take-drop_step i n xs (omega arith) (omega arith))

pub length-pending : (c : Cursor) → IsReading c → length (pending c) ≡ c.nr - c.pos
length-pending c r =
    omega (arith, length-take (c.nr - c.pos) (drop c.curr c.nodes), length-drop c.curr c.nodes, r)

-- At the end of the chain the cursor has no frame.
pub current-nil : (c : Cursor) → IsReading c → pending c ≡ [] → callchain_cursor_current c ≡ none
unfolding callchain_cursor_current
current-nil c r e =
    let done : c.pos ≡ c.nr = omega (arith, length-pending c r, ap length e) in ground arith

-- Before the end it shows the next frame, and advancing drops that.
pub current-cons :
    (c : Cursor) (x : CursorNode) (xs : List CursorNode)
    → IsReading c
    → pending c ≡ x ∷ xs
    → (callchain_cursor_current c ≡ some x)
      × (pending (callchain_cursor_advance c) ≡ xs)
      × IsReading (callchain_cursor_advance c)
unfolding callchain_cursor_current callchain_cursor_advance
current-cons c x xs r e =
    let more : c.pos < c.nr = omega (arith, length-pending c r, ap length e) in
    let (y, got, split) = take-drop_step c.pos c.nr c.nodes more r.stored in
    let shown : pending c ≡ y ∷ take (c.nr - (c.pos + 1)) (drop (c.pos + 1) c.nodes) =
      rw r.in_step split in
    let same : x ∷ xs ≡ y ∷ take (c.nr - (c.pos + 1)) (drop (c.pos + 1) c.nodes) = sym e ∙ shown in
    (ground arith, rw r.in_step (cc), omega (arith, r))

pub length-frames : (c : Cursor) → IsWritten c → length (frames c) ≡ c.nr
length-frames c w = omega (arith, length-take c.nr c.nodes, w)
