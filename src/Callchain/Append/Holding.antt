-- ===== src/Callchain/Append/Holding.antt =====
-- The cursor of src/lib/linux/callchain.c that is ready to write behind a chain of plain frames.
use callstack_count.Prelude.{
  ℕ, suc, ◌≡◌, ◌≢◌, refl, ap, false, none, Option, List, [], ◌∷◌, ◌++◌, length,
}
use callstack_count.Callchain.{CursorNode, ChainKey, source_line, MapSymbol}
use callstack_count.Callchain.Cursor.{
  Cursor, IsWritten, frames, callchain_cursor_append, written_node,
}
use callstack_count.Callchain.Cursor.Frames.{callchain_cursor_append-frames}
use callstack_count.Callchain.Match.{IsPlain}
use callstack_count.Callchain.Weight.{Key}
use callstack_count.Callchain.Append.Values.{ArePlain, frame_keys}

pub frame_keys-append :
    (xs ys : List CursorNode) → frame_keys (xs ++ ys) ≡ frame_keys xs ++ frame_keys ys
frame_keys-append [] ys = refl
frame_keys-append (x ∷ xs) ys = ap (λ ks. (x.ms.map_ptr, x.ip) ∷ ks) (frame_keys-append xs ys)

pub length-frame_keys : (xs : List CursorNode) → length (frame_keys xs) ≡ length xs
length-frame_keys [] = refl
length-frame_keys (x ∷ xs) = ap suc (length-frame_keys xs)

ArePlain-append :
    (key : ChainKey) (xs : List CursorNode) (y : CursorNode)
    → ArePlain key xs
    → IsPlain key y
    → ArePlain key (xs ++ y ∷ [])
ArePlain-append key [] y h p = (p, tt)
ArePlain-append key (x ∷ xs) y h p = (h.0, ArePlain-append key xs y h.1 p)

-- The cursor that holds a chain of frames without symbols.
pub record Holds (key : ChainKey) (c : Cursor) (keys : List Key) : Type 0 where
  pub written : IsWritten c
  pub plain : ArePlain key (frames c)
  pub keys_eq : frame_keys (frames c) ≡ keys

pub append_frame-Holds :
    (key : ChainKey) (c : Cursor) (keys : List Key) (ip : ℕ) (ms : MapSymbol)
    (srcline : Option (List ℕ))
    → Holds key c keys
    → key ≢ source_line
    → ms.sym ≡ none
    → Holds key
        (callchain_cursor_append c ip ms false none 0 0 0 srcline)
        (keys ++ (ms.map_ptr, ip) ∷ [])
unfolding written_node
append_frame-Holds key c keys ip ms srcline h no_lines no_sym =
    let (w, e) = callchain_cursor_append-frames c ip ms false none 0 0 0 srcline h.written in
    record {
      written = w;
      plain = rw e (
          ArePlain-append key (frames c) _ h.plain
            (record { no_lines = no_lines; no_sym = no_sym }));
      keys_eq = rw (e, frame_keys-append, h.keys_eq);
    }
