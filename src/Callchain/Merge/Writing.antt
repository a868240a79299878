-- ===== src/Callchain/Merge/Writing.antt =====
-- What merge_chain_branch of src/lib/linux/callchain.c does to the chain in the cursor.
use mathlib.Core.List.{append_assoc, append-nil}
use callstack_count.Prelude.{
  ℕ, zero, suc, ◌+◌, ◌≤◌, ◌<◌, ◌^◌, ◌≡◌, ◌≢◌, refl, sym, ap, ◌∙◌, List, [], ◌∷◌, ◌++◌, arith,
  length, length-append, take,
}
use callstack_count.Callchain.{CallchainList, CursorNode, ChainKey, source_line}
use callstack_count.Callchain.Cursor.{Cursor, callchain_cursor_commit, frames, length-frames}
use callstack_count.Callchain.Match.{entry_key}
use callstack_count.Callchain.Weight.{Key}
use callstack_count.Callchain.Append.Values.{ArePlain, frame_keys, entry_keys}
use callstack_count.Callchain.Append.Reading.{IsSameChain}
use callstack_count.Callchain.Append.Holding.{length-frame_keys, Holds, append_frame-Holds}
use callstack_count.Callchain.Merge.{bare_symbol, append_entries, through_int, restore}

take-take : (n m : ℕ) (xs : List CursorNode) → n ≤ m → take n (take m xs) ≡ take n xs
take-take zero m xs h = refl
take-take (suc n) zero xs h = absurd (omega (arith, h))
take-take (suc n) (suc m) [] h = refl
take-take (suc n) (suc m) (x ∷ xs) h = ap (λ ys. x ∷ ys) (take-take n m xs (omega (arith, h)))

take_keys : (n : ℕ) (xs : List CursorNode) → frame_keys (take n xs) ≡ take n (frame_keys xs)
take_keys zero xs = refl
take_keys (suc n) [] = refl
take_keys (suc n) (x ∷ xs) = ap (λ ys. (x.ms.map_ptr, x.ip) ∷ ys) (take_keys n xs)

take-length : (xs ys : List Key) → take (length xs) (xs ++ ys) ≡ xs
take-length [] ys = refl
take-length (x ∷ xs) ys = ap (λ zs. x ∷ zs) (take-length xs ys)

pub length-Holds :
    (key : ChainKey) (c : Cursor) (keys : List Key) → Holds key c keys → c.nr ≡ length keys
length-Holds key c keys h =
    sym (length-frames c h.written) ∙ sym (length-frame_keys (frames c)) ∙ ap length h.keys_eq

take-ArePlain :
    (key : ChainKey) (n : ℕ) (xs : List CursorNode) → ArePlain key xs → ArePlain key (take n xs)
take-ArePlain key zero xs h = tt
take-ArePlain key (suc n) [] h = tt
take-ArePlain key (suc n) (x ∷ xs) h = (h.0, take-ArePlain key n xs h.1)

-- Writing the entries of a node.
pub append_entries-Holds :
    (key : ChainKey) (val : List CallchainList) (c : Cursor) (keys : List Key)
    → key ≢ source_line
    → Holds key c keys
    → Holds key (append_entries val c) (keys ++ entry_keys val)
unfolding append_entries
append_entries-Holds key [] c keys plain h = rw append-nil h
append_entries-Holds key (v ∷ vs) c keys plain h =
    rw (append_assoc keys (entry_key v ∷ []) (entry_keys vs)) at (
      append_entries-Holds key vs _ (keys ++ entry_key v ∷ []) plain
        (append_frame-Holds key c keys v.ip (bare_symbol v) v.srcline h plain refl))

-- Putting the cursor back: the chain it held is still there.
pub restore-Holds :
    (key : ChainKey) (old c : Cursor) (keys more : List Key)
    → Holds key old keys
    → Holds key c (keys ++ more)
    → length keys < 2 ^ 31
    → Holds key (restore old c) keys
unfolding restore through_int
restore-Holds key old c keys more h k small =
    let nr = length-Holds key old keys h in
    let nr' : c.nr ≡ length keys + length more =
      length-Holds key c (keys ++ more) k ∙ length-append keys more in
    let same : through_int old.nr ≡ length keys = ground (arith, nr, small) in
    let back : take (length keys) (frames c) ≡ take (length keys) c.nodes =
      take-take (length keys) c.nr c.nodes (omega (arith, nr')) in
    record {
      written = record {
        at_end = h.written.at_end ∙ nr ∙ sym same;
        cached = omega (arith, same, nr', k.written.cached);
      };
      plain = rw (same, ← back) (take-ArePlain key (length keys) (frames c) k.plain);
      keys_eq =
          rw (same, ← back)
            (take_keys (length keys) (frames c)
              ∙ ap (take (length keys)) k.keys_eq
              ∙ take-length keys more);
    }

pub same-Holds :
    (key : ChainKey) (c c' : Cursor) (keys : List Key)
    → IsSameChain (callchain_cursor_commit c) c'
    → Holds key c keys
    → Holds key c' keys
unfolding callchain_cursor_commit
same-Holds key c c' keys s h =
    let e : frames c' ≡ frames c = rw (s.same_nr, s.same_nodes) refl in
    record {
      written = record {
        at_end = s.same_last ∙ h.written.at_end ∙ sym s.same_nr;
        cached = rw (s.same_nr, s.same_nodes) h.written.cached;
      };
      plain = rw e h.plain;
      keys_eq = rw e h.keys_eq;
    }
