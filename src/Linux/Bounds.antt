-- ===== src/Linux/Bounds.antt =====
-- How much the cursor of src/lib/linux/callstack.c holds.
use callstack_count.Prelude.{
  ℕ, zero, suc, ◌+◌, ◌≤◌, ◌≡◌, inl, inr, false, none, List, [], ◌∷◌, arith, ◌==◌, leb,
  if◌then◌else◌, length, length-append, length-set, Bool-cases,
}
use callstack_count.RbTree.{RbLibrary, Tree}
use callstack_count.RbTree
use callstack_count.Callchain.{CursorNode}
use callstack_count.Callchain.Cursor.{
  Cursor, callchain_cursor_append, callchain_cursor_reset, link_last, written_node, IsWritten,
}
use callstack_count.Callchain.Cursor.Frames.{callchain_cursor_append-frames, reset-IsWritten}
use callstack_count.Callchain.Tree.{inorder}
use callstack_count.Program.{CallstackEntry}
use callstack_count.Program.Maps.{MapTree, Maps, get_map}
use callstack_count.Linux.{map_symbol, max_stack_entries, build_cursor}

-- The chain has room for `left` more frames of the 256 that a stack can have, and at most `most`
-- nodes are cached.
pub record IsBounded (most : ℕ) (c : Cursor) (left : ℕ) : Type 0 where
  pub written : IsWritten c
  pub chain : c.nr + left ≤ 256
  pub cached : length c.nodes ≤ most

-- What is cached before, or the 256 frames of a stack where that is more.
abbrev pub room : Cursor → ℕ
room c = if leb 256 (length c.nodes) then length c.nodes else 256

link_last-length :
    (most : ℕ) (c : Cursor) (n : CursorNode) (left : ℕ)
    → 256 ≤ most
    → IsBounded most c (suc left)
    → length (link_last c n) ≤ most
unfolding link_last
link_last-length most c n left big b = elim (Bool-cases (length c.nodes == c.last)) [
  | inl new ↦
      let full : length c.nodes ≡ c.last = ground (arith, new) in
      rw (link_last, new)
        (omega (arith, length-append c.nodes (n ∷ []), full, b.written.at_end, b.chain, big))
  | inr old ↦ rw (link_last, old, length-set) b.cached
]

module _ (maps_lib : RbLibrary {T = Tree MapTree} callstack_count.RbTree.inorder)
    (lib : RbLibrary inorder) where
  append_frame-IsBounded :
      (most : ℕ) (c : Cursor) (map ip left : ℕ)
      → 256 ≤ most
      → IsBounded most c (suc left)
      → IsBounded most (callchain_cursor_append c ip (map_symbol map) false none 0 0 0 none) left
  unfolding callchain_cursor_append
  append_frame-IsBounded most c map ip left big b =
      let (w, e) =
        callchain_cursor_append-frames c ip (map_symbol map) false none 0 0 0 none b.written in
      record {
        written = w;
        chain = omega (arith, b.chain);
        cached =
            link_last-length most c (written_node c ip (map_symbol map) false none 0 0 0 none) left
              big b;
      }

  build_cursor_from :
      (most left : ℕ) (stack : List CallstackEntry) (m : Maps) (c : Cursor)
      → 256 ≤ most
      → IsBounded most c left
      → IsBounded most (build_cursor maps_lib lib left stack m c).1 0
  unfolding build_cursor
  build_cursor_from most zero stack m c big b = b
  build_cursor_from most (suc left) [] m c big b = record {
    written = b.written;
    chain = omega (arith, b.chain);
    cached = b.cached;
  }
  build_cursor_from most (suc left) (e ∷ stack) m c big b = elim (Bool-cases (e.ip == 0)) [
    | inl stop ↦
        rw (build_cursor, stop)
          (record { written = b.written; chain = omega (arith, b.chain); cached = b.cached })
    | inr more ↦
        let (ms, m') = get_map maps_lib e.map_id m in
        rw (build_cursor, more)
          (build_cursor_from most left stack m' _ big
            (append_frame-IsBounded most c ms e.ip left big b))
  ]

  room_big : (c : Cursor) → (256 ≤ room c) × (length c.nodes ≤ room c)
  room_big c = ground arith

  -- Whatever the stack and the cursor are, the loop of `insert` leaves a cursor that is ready to
  -- write, with at most 256 frames in its chain, and caches at most 256 nodes, or no more than before
  -- where more were cached.
  pub build_cursor-IsBounded :
      (stack : List CallstackEntry) (m : Maps) (c : Cursor)
      → IsBounded
          (room c)
          (build_cursor maps_lib lib max_stack_entries stack m (callchain_cursor_reset c)).1
          0
  unfolding callchain_cursor_reset
  build_cursor-IsBounded stack m c =
      let (big, h) = room_big c in
      build_cursor_from (room c) 256 stack m (callchain_cursor_reset c) big
        (record { written = reset-IsWritten c; chain = omega arith; cached = h })
