-- ===== src/Callchain/Append/Values.antt =====
-- The loops of append_chain and fill_node against the chain that the cursor has left.
use mathlib.Core.Path.{ap₂}
use callstack_count.Prelude.{
  ℕ, zero, suc, ◌+◌, ◌<◌, ◌≡◌, ◌≢◌, refl, ap, ◌⊎◌, inl, inr, none, List, [], ◌∷◌, ◌++◌, map, arith,
  length,
}
use callstack_count.Callchain.{CallchainList, CursorNode, ChainKey}
use callstack_count.Callchain.Cursor.{
  Cursor, callchain_cursor_current, callchain_cursor_advance, IsReading, pending, current-nil,
  current-cons,
}
use callstack_count.Callchain.Match.{
  MatchResult, match_error, match_eq, match_lt, match_gt, match_chain, match_chain-ne-error,
  match_chain-key, frame_key, entry_key, match_chain-matched, match_chain_unchanged, IsPlain,
}
use callstack_count.Callchain.Weight.{Key}
use callstack_count.Callchain.Append.{Matched, new_entry, fill_values, match_values}

abbrev pub ArePlain : ChainKey → List CursorNode → Type 0
ArePlain key [] = Unit
ArePlain key (n ∷ ns) = IsPlain key n × ArePlain key ns

abbrev pub frame_keys : List CursorNode → List Key
frame_keys = map frame_key

abbrev pub entry_keys : List CallchainList → List Key
entry_keys = map entry_key

-- fill_node copies the frames that are left, and leaves none.
pub fill_values-pending :
    (fuel : ℕ) (c : Cursor) (p : List CursorNode)
    → IsReading c
    → pending c ≡ p
    → length p ≡ fuel
    → (entry_keys (fill_values fuel c).0 ≡ frame_keys p)
      × (length (fill_values fuel c).0 ≡ fuel)
      × (callchain_cursor_current (fill_values fuel c).1 ≡ none)
unfolding fill_values new_entry
fill_values-pending zero c [] r e l = (refl, refl, current-nil c r e)
fill_values-pending zero c (x ∷ p) r e l = absurd (omega arith)
fill_values-pending (suc fuel) c [] r e l = absurd (omega arith)
fill_values-pending (suc fuel) c (x ∷ p) r e l =
    let (shown, rest, r') = current-cons c x p r e in
    let (keys, len, done) =
      fill_values-pending fuel (callchain_cursor_advance c) p r' rest (omega arith) in
    rw (shown, fill_values) (ap (λ ks. frame_key x ∷ ks) keys, ap suc len, done)

-- The four results of a comparison, with the equation.
pub data MatchResultCases (m : MatchResult) : Type 0 where
  is_error : m ≡ match_error → MatchResultCases m
  is_eq : m ≡ match_eq → MatchResultCases m
  is_lt : m ≡ match_lt → MatchResultCases m
  is_gt : m ≡ match_gt → MatchResultCases m

pub MatchResult-cases : (m : MatchResult) → MatchResultCases m
MatchResult-cases match_error = is_error refl
MatchResult-cases match_eq = is_eq refl
MatchResult-cases match_lt = is_lt refl
MatchResult-cases match_gt = is_gt refl

-- What the loop of append_chain leaves of the entries and of the chain.
pub record Splits (key : ChainKey) (val : List CallchainList) (c : Cursor) (p : List CursorNode)
    (m : Matched) : Type 0 where
  pub reading : IsReading m.cursor
  pub same_nr : m.cursor.nr ≡ c.nr
  pub steps : m.cursor.pos ≡ c.pos + length m.before
  pub lengths : length m.before + length m.behind ≡ length val
  pub values : entry_keys m.before ++ entry_keys m.behind ≡ entry_keys val
  pub chain : entry_keys m.before ++ frame_keys (pending m.cursor) ≡ frame_keys p
  pub plain : ArePlain key (pending m.cursor)

-- At the first entry it already stopped: nothing has changed, and the order tells where to go on.
pub record Differs (val : List CallchainList) (c : Cursor) (m : Matched) : Type 0 where
  pub side : (m.cmp ≡ match_lt) ⊎ (m.cmp ≡ match_gt)
  pub unmoved : m.cursor ≡ c
  pub unchanged : m.behind ≡ val

stay-Splits :
    (key : ChainKey) (cmp : MatchResult) (val behind : List CallchainList) (c : Cursor)
    (p : List CursorNode)
    → IsReading c
    → pending c ≡ p
    → ArePlain key p
    → entry_keys behind ≡ entry_keys val
    → length behind ≡ length val
    → Splits key val c p (record { before = []; behind = behind; cmp = cmp; cursor = c })
stay-Splits key cmp val behind c p r e a k l = record {
  reading = r;
  same_nr = refl;
  steps = omega arith;
  lengths = omega arith;
  values = k;
  chain = ap frame_keys e;
  plain = rw e a;
}

pub match_values-Splits :
    (key : ChainKey) (cmp : MatchResult) (val : List CallchainList) (c : Cursor)
    (p : List CursorNode)
    → IsReading c
    → pending c ≡ p
    → ArePlain key p
    → Splits key val c p (match_values key cmp val c)
unfolding match_values callchain_cursor_advance
match_values-Splits key cmp [] c p r e a = stay-Splits key cmp [] [] c p r e a refl refl
match_values-Splits key cmp (v ∷ vs) c [] r e a =
    rw (current-nil c r e, match_values)
      (stay-Splits key cmp (v ∷ vs) (v ∷ vs) c [] r e a refl refl)
match_values-Splits key cmp (v ∷ vs) c (x ∷ p) r e a =
    let (shown, rest, r') = current-cons c x p r e in
    let ih =
      match_values-Splits key (match_chain key x v).0 vs (callchain_cursor_advance c) p r' rest
        a.1 in
    let v' = (match_chain key x v).1 in
    let stay = λ (m : MatchResult).
      stay-Splits key m (v ∷ vs) (v' ∷ vs) c (x ∷ p) r e a
        (ap (λ k. k ∷ entry_keys vs) (match_chain-key key x v)) refl in
    elim (MatchResult-cases (match_chain key x v).0) [
      | is_eq h ↦
          rw (shown, h, match_values)
            (record {
              reading = ih.reading;
              same_nr = ih.same_nr;
              steps = omega (arith, ih.steps);
              lengths = omega (arith, ih.lengths);
              values = ap₂ (λ k ks. k ∷ ks) (match_chain-key key x v) ih.values;
              chain = ap₂ (λ k ks. k ∷ ks) (match_chain-matched key x v a.0 h) ih.chain;
              plain = ih.plain;
            })
      | is_error h ↦ rw (shown, h, match_values) (stay match_error)
      | is_lt h ↦ rw (shown, h, match_values) (stay match_lt)
      | is_gt h ↦ rw (shown, h, match_values) (stay match_gt)
    ]

-- Where no entry matched, the first comparison tells on which side to go on.
pub match_values-Differs :
    (key : ChainKey) (cmp : MatchResult) (val : List CallchainList) (c : Cursor) (x : CursorNode)
    (p : List CursorNode)
    → IsReading c
    → pending c ≡ x ∷ p
    → 0 < length val
    → (match_values key cmp val c).before ≡ []
    → Differs val c (match_values key cmp val c)
unfolding match_values
match_values-Differs key cmp [] c x p r e l b = absurd (omega arith)
match_values-Differs key cmp (v ∷ vs) c x p r e l b =
    let (shown, rest, r') = current-cons c x p r e in
    let same = λ (h : (match_chain key x v).0 ≢ match_eq).
      ap (λ w. w ∷ vs) (match_chain_unchanged key x v h) in
    elim (MatchResult-cases (match_chain key x v).0) [
      | is_eq h ↦ absurd (let b' = rw (shown, h, match_values) at b in cc)
      | is_error h ↦ absurd (match_chain-ne-error key x v h)
      | is_lt h ↦
          rw (shown, h, match_values)
            (record { side = inl refl; unmoved = refl; unchanged = same (λ g. cc) })
      | is_gt h ↦
          rw (shown, h, match_values)
            (record { side = inr refl; unmoved = refl; unchanged = same (λ g. cc) })
    ]
