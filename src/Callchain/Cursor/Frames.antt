-- ===== src/Callchain/Cursor/Frames.antt =====
-- What the cursor operations of src/lib/linux/callchain.c do to the chain that a cursor holds.
use mathlib.Core.List.{append_assoc, append-nil}
use callstack_count.Prelude.{
  List-cases, ℕ, zero, suc, ◌+◌, ◌≤◌, ◌<◌, ◌≡◌, refl, Bool, Option, some, List, [], ◌∷◌, ◌++◌, sym,
  ap, ◌∙◌, arith, ◌==◌, length, length-append, length-set, set, take, inl, inr, Bool-cases,
}
use callstack_count.Callchain.{MapSymbol, BranchFlags, CursorNode}
use callstack_count.Callchain.Cursor.{
  Cursor, callchain_cursor_reset, callchain_cursor_commit, callchain_cursor_advance,
  callchain_cursor_append, callchain_cursor_copy, copy_from, written_node, link_last, flags_of,
  IsWritten, IsReading, frames, pending, IsReading-commit, pending-commit, length-pending,
  current-nil, current-cons,
}

take-append_all :
    (xs : List CursorNode) (x : CursorNode) → take (length xs + 1) (xs ++ x ∷ []) ≡ xs ++ x ∷ []
take-append_all [] x = refl
take-append_all (y ∷ xs) x =
    let next : suc (length xs) + 1 ≡ suc (length xs + 1) = omega arith in
    rw next (ap (λ ys. y ∷ ys) (take-append_all xs x))

take-whole : (xs : List CursorNode) → take (length xs) xs ≡ xs
take-whole [] = refl
take-whole (y ∷ xs) = ap (λ ys. y ∷ ys) (take-whole xs)

take-set_last :
    (xs : List CursorNode) (n : ℕ) (x : CursorNode)
    → n < length xs
    → take (n + 1) (set xs n x) ≡ take n xs ++ x ∷ []
take-set_last [] n x h = elim h [ ]
take-set_last (y ∷ xs) zero x h = refl
take-set_last (y ∷ xs) (suc n) x h =
    let next : suc n + 1 ≡ suc (n + 1) = omega arith in
    rw next (ap (λ ys. y ∷ ys) (take-set_last xs n x (omega arith)))

-- A reset cursor is ready to write, and holds no chain.
pub reset-IsWritten : (c : Cursor) → IsWritten (callchain_cursor_reset c)
unfolding callchain_cursor_reset
reset-IsWritten c = record { at_end = refl; cached = omega arith }

pub frames-reset : (c : Cursor) → frames (callchain_cursor_reset c) ≡ []
unfolding callchain_cursor_reset
frames-reset c = refl

link_last-frames :
    (c : Cursor) (n : CursorNode)
    → IsWritten c
    → (take (c.nr + 1) (link_last c n) ≡ frames c ++ n ∷ []) × (c.nr + 1 ≤ length (link_last c n))
unfolding link_last
link_last-frames c n w = elim (Bool-cases (length c.nodes == c.last)) [
  | inl new ↦
      let full : length c.nodes ≡ c.nr = ground (arith, w.at_end) in
      (
        rw (new, ← full, take-append_all c.nodes n, take-whole c.nodes),
        rw new (omega (arith, length-append c.nodes (n ∷ []), full)),
      )
  | inr old ↦
      let room : c.nr < length c.nodes = ground (arith, w.at_end, w.cached) in
      (
        rw (old, w.at_end) (take-set_last c.nodes c.nr n room),
        rw (old, length-set) (omega (arith, room)),
      )
]

-- At a cursor that is ready to write, appending a frame adds it behind the chain, whether its node is new or a cached one, and leaves
-- the cursor ready to write.
pub callchain_cursor_append-frames :
    (c : Cursor) (ip : ℕ) (ms : MapSymbol) (branch : Bool) (flags : Option BranchFlags)
    (nr_loop_iter iter_cycles branch_from : ℕ) (srcline : Option (List ℕ))
    → IsWritten c
    → IsWritten
        (callchain_cursor_append c ip ms branch flags nr_loop_iter iter_cycles branch_from srcline)
      × (frames (
            callchain_cursor_append c ip ms branch flags nr_loop_iter iter_cycles branch_from
              srcline)
          ≡ frames c
            ++ written_node c ip ms branch flags nr_loop_iter iter_cycles branch_from srcline ∷ [])
unfolding callchain_cursor_append
callchain_cursor_append-frames c ip ms branch flags nr_loop_iter iter_cycles branch_from srcline w =
    let node = written_node c ip ms branch flags nr_loop_iter iter_cycles branch_from srcline in
    let (e, room) = link_last-frames c node w in
    (record { at_end = omega (arith, w.at_end); cached = room }, e)

-- The loop of the copy, from a source that has frames left.
copy_from-frames :
    (fuel : ℕ) (dst src : Cursor)
    → IsWritten dst
    → IsReading src
    → length (pending src) ≤ fuel
    → IsWritten (copy_from fuel dst src).0
      × (frames (copy_from fuel dst src).0 ≡ frames dst ++ pending src)
unfolding copy_from written_node flags_of
copy_from-frames zero dst src w r h = elim (List-cases (pending src)) [
  | inl e ↦ (w, rw e (sym (append-nil _)))
  | inr (x, xs, e) ↦ absurd (omega (arith, h, ap length e))
]
copy_from-frames (suc fuel) dst src w r h = elim (List-cases (pending src)) [
  | inl e ↦ rw (copy_from, current-nil src r e) (w, rw e (sym (append-nil _)))
  | inr (x, xs, e) ↦
      let (shown, rest, r') = current-cons src x xs r e in
      let (w', added) =
        callchain_cursor_append-frames dst x.ip x.ms x.branch (some x.branch_flags) x.nr_loop_iter
          x.iter_cycles x.branch_from x.srcline w in
      let (w2, whole) =
        copy_from-frames fuel _ (callchain_cursor_advance src) w' r'
          (omega (arith, h, ap length e, ap length rest)) in
      rw (copy_from, shown) (w2, whole ∙ rw (added, rest, e, append_assoc (frames dst) (x ∷ []) xs))
]

nr_commit : (c : Cursor) → (callchain_cursor_commit c).nr ≡ c.nr
unfolding callchain_cursor_commit
nr_commit c = refl

-- From a source that is ready to write, the copy is ready too and holds the same chain, whatever it
-- held before.
pub callchain_cursor_copy-frames :
    (dst src : Cursor)
    → IsWritten src
    → IsWritten (callchain_cursor_copy dst src).0
      × (frames (callchain_cursor_copy dst src).0 ≡ frames src)
unfolding callchain_cursor_copy
callchain_cursor_copy-frames dst src w =
    let r = IsReading-commit src w in
    let (w', e) =
      copy_from-frames src.nr (callchain_cursor_reset dst) (callchain_cursor_commit src)
        (reset-IsWritten dst) r (omega (arith, length-pending _ r, nr_commit src)) in
    (w', e ∙ (rw (frames-reset dst) (pending-commit src)))
