-- ===== src/Callchain/Cursor/Snapshot.antt =====
-- callchain_cursor_snapshot of src/include/callchain.h.
use callstack_count.Prelude.{◌+◌, ◌-◌, ◌<◌, ◌^◌, ◌%◌, ◌≡◌, refl, arith, length-drop, drop}
use callstack_count.Callchain.Cursor.{
  Cursor, IsWritten, IsReading, frames, pending, callchain_cursor_commit,
}

-- The snapshot shares the nodes from `curr` on, so positions count from there; `pos` is copied, and
-- the next callchain_cursor_commit clears it.
unfoldable pub callchain_cursor_snapshot : Cursor → Cursor
callchain_cursor_snapshot src = record {
  nr = (src.nr + 2 ^ 64 - src.pos) % 2 ^ 64;
  nodes = drop src.curr src.nodes;
  last = src.last - src.curr;
  pos = src.pos;
  curr = 0;
}

-- The snapshot of a cursor that is being read holds the frames that are still to be read and is ready
-- to write; after a commit, these are the frames it reads.
callchain_cursor_snapshot-pending :
    (src : Cursor)
    → IsReading src
    → src.last ≡ src.nr
    → src.nr < 2 ^ 64
    → IsWritten (callchain_cursor_snapshot src)
      × (frames (callchain_cursor_snapshot src) ≡ pending src)
      × (pending (callchain_cursor_commit (callchain_cursor_snapshot src)) ≡ pending src)
unfolding callchain_cursor_snapshot callchain_cursor_commit
callchain_cursor_snapshot-pending src r at_end small =
    let size : (src.nr + 2 ^ 64 - src.pos) % 2 ^ 64 ≡ src.nr - src.pos =
      omega (arith, r.bounded, small) in
    let first : src.nr - src.pos - 0 ≡ src.nr - src.pos = omega arith in
    (
      record {
        at_end = rw size (omega (arith, at_end, r.in_step));
        cached = rw size (omega (arith, length-drop src.curr src.nodes, r.in_step, r.stored));
      },
      rw size refl,
      rw (size, first) refl,
    )
