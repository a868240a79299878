-- ===== src/Callchain/Compare.antt =====
-- Comparing two nodes by their entries: chain_match, callchain_cnode_matched and callchain_avg_cycles
-- of src/lib/linux/callchain.c.
use Prim.Native.Nat.{Ordering}
use callstack_count.Prelude.{
  ℕ, ◌+◌, ◌/◌, ◌%◌, ◌^◌, ◌≡◌, ◌↔◌, refl, sym, ◌∙◌, ◌⊎◌, inl, inr, Bool, true, false, ◌||◌, Option,
  none, some, List, [], ◌∷◌, ◌==◌, if◌then◌else◌, Bool-cases, Option-cases,
}
use callstack_count.Callchain.{CallchainList}
use callstack_count.Callchain.Match.{
  MatchResult, match_error, match_eq, match_lt, match_gt, strcmp, match_chain_strings,
  match_chain_dso_addresses, strcmp-eq,
}

abbrev is_eq : MatchResult → Bool
is_eq match_eq = true
is_eq _ = false

-- The result of the strings unless they give none, else that of the addresses.
abbrev eq_or_else : MatchResult → Bool → Bool
eq_or_else match_error next = next
eq_or_else match next = is_eq match

unfoldable pub chain_match : CallchainList → CallchainList → Bool
unfolding match_chain_strings match_chain_dso_addresses
chain_match base pair =
    eq_or_else (match_chain_strings base.srcline pair.srcline)
      (is_eq (match_chain_dso_addresses base.ms.map_ptr base.ip pair.ms.map_ptr pair.ip))

-- !srcline
abbrev pub no_line : CallchainList → Bool
no_line c = elim c.srcline [ none ↦ true | some line ↦ false ]

-- The loop of callchain_cnode_matched and the test behind it; `match` is the variable.
unfoldable pub matched_from : Bool → List CallchainList → List CallchainList → Bool
unfolding chain_match
matched_from match [] [] = match
matched_from match [] (p ∷ pair) = false
matched_from match (b ∷ base) [] = false
matched_from match (b ∷ base) (p ∷ pair) =
    let skip = matched_from match base pair in
    let next = matched_from true base pair in
    if no_line b || no_line p then skip else (if chain_match b p then next else false)

-- callchain_cnode_matched, on the `val` lists of the two nodes
unfoldable pub callchain_cnode_matched : List CallchainList → List CallchainList → Bool
unfolding matched_from
callchain_cnode_matched base pair = matched_from false base pair

-- callchain_avg_cycles
unfoldable pub callchain_avg_cycles : List CallchainList → ℕ
callchain_avg_cycles [] = 0
callchain_avg_cycles (c ∷ val) =
    let rest = callchain_avg_cycles val in
    if no_line c || c.branch_count == 0
    then rest
    else (c.cycles_count / c.branch_count + rest) % 2 ^ 64

-- The lists are equally long, and where both entries have a source line, it is the same.
abbrev pub AgreeOnLines : List CallchainList → List CallchainList → Type 0
AgreeOnLines [] [] = Unit
AgreeOnLines [] (p ∷ pair) = ⊥
AgreeOnLines (b ∷ base) [] = ⊥
AgreeOnLines (b ∷ base) (p ∷ pair) =
    ((x y : List ℕ) → b.srcline ≡ some x → p.srcline ≡ some y → x ≡ y) × AgreeOnLines base pair

-- Somewhere both entries have a source line.
abbrev pub HaveLines : List CallchainList → List CallchainList → Type 0
HaveLines [] pair = ⊥
HaveLines (b ∷ base) [] = ⊥
HaveLines (b ∷ base) (p ∷ pair) = ((no_line b ≡ false) × (no_line p ≡ false)) ⊎ HaveLines base pair

chain_match-lines :
    (b p : CallchainList) (x y : List ℕ)
    → b.srcline ≡ some x
    → p.srcline ≡ some y
    → (chain_match b p ≡ true) ↔ (x ≡ y)
unfolding chain_match match_chain_strings
chain_match-lines b p x y e f =
    rw (e, f)
      ((λ h. (strcmp-eq x y).0 (by_order (strcmp x y) h)), (λ h. rw ((strcmp-eq x y).1 h) refl))
  where
    by_order :
        (o : Ordering)
        → eq_or_else
            (elim o [ Ordering.lt ↦ match_lt | Ordering.eq ↦ match_eq | Ordering.gt ↦ match_gt ])
            (is_eq (match_chain_dso_addresses b.ms.map_ptr b.ip p.ms.map_ptr p.ip))
          ≡ true
        → o ≡ Ordering.eq
    by_order Ordering.lt h = cc
    by_order Ordering.eq h = refl
    by_order Ordering.gt h = cc

data LinesCases (b p : CallchainList) : Type 0 where
  missing : (no_line b || no_line p) ≡ true → LinesCases b p
  present : (x y : List ℕ) → b.srcline ≡ some x → p.srcline ≡ some y → LinesCases b p

Lines-cases : (b p : CallchainList) → LinesCases b p
Lines-cases b p = elim (Option-cases b.srcline) [
  | inl gone ↦ missing (rw gone refl)
  | inr (x, e) ↦ elim (Option-cases p.srcline) [
    | inl gone ↦ missing (rw (e, gone) refl)
    | inr (y, f) ↦ present x y e f
  ]
]

missing-lines :
    (b p : CallchainList)
    → (no_line b || no_line p) ≡ true
    → ((x y : List ℕ) → b.srcline ≡ some x → p.srcline ≡ some y → x ≡ y)
      × ((no_line b ≡ false) × (no_line p ≡ false) → ⊥)
missing-lines b p h = (
  (λ x y e f. absurd (let bad : false ≡ true = rw (e, f) at h in cc)),
  (λ k. absurd (let bad : (no_line b || no_line p) ≡ false = rw (k.0, k.1) refl in cc)),
)

matched_from_iff :
    (match : Bool) (base pair : List CallchainList)
    → (matched_from match base pair ≡ true)
      ↔ (AgreeOnLines base pair × ((match ≡ true) ⊎ HaveLines base pair))
unfolding matched_from
matched_from_iff match [] [] =
    ((λ h. (tt, inl h)), (λ h. elim h.1 [ inl e ↦ e | inr bad ↦ absurd bad ]))
matched_from_iff match [] (p ∷ pair) = ((λ h. cc), (λ h. absurd h.0))
matched_from_iff match (b ∷ base) [] = ((λ h. cc), (λ h. absurd h.0))
matched_from_iff match (b ∷ base) (p ∷ pair) = elim (Lines-cases b p) [
  | missing e ↦
      let ih = matched_from_iff match base pair in
      let (agree, none_here) = missing-lines b p e in
      rw (matched_from, e)
        (
          (λ h.
              let k = ih.0 h in
              ((agree, k.0), elim k.1 [ inl m ↦ inl m | inr later ↦ inr (inr later) ])),
          (λ h. ih.1 (
            h.0.1,
            elim h.1 [
              | inl m ↦ inl m
              | inr lines ↦ elim lines [
                | inl here ↦ absurd (none_here here)
                | inr later ↦ inr later
              ]
            ],
          )),
        )
  | present x y e f ↦
      let ih = matched_from_iff true base pair in
      let test : (no_line b || no_line p) ≡ false = rw (e, f) refl in
      let here : (no_line b ≡ false) × (no_line p ≡ false) = (rw e refl, rw f refl) in
      let lines = chain_match-lines b p x y e f in
      let whole : matched_from match (b ∷ base) (p ∷ pair)
          ≡ (if chain_match b p then matched_from true base pair else false) =
        rw (matched_from, test) refl in
      (
        (λ h.
            let run = sym whole ∙ h in
            elim (Bool-cases (chain_match b p)) [
              | inl same ↦
                  let k = ih.0 (rw same at run) in
                  ((only x y e f (lines.0 same), k.0), inr (inl here))
              | inr other ↦ absurd (let bad : false ≡ true = rw other at run in cc)
            ]),
        (λ h. whole ∙ rw (lines.1 (h.0.0 x y e f)) (ih.1 (h.0.1, inl refl))),
      )
]
  where
    only :
        {o p : Option (List ℕ)} (x y : List ℕ)
        → o ≡ some x
        → p ≡ some y
        → x ≡ y
        → (x' y' : List ℕ) → o ≡ some x'
        → p ≡ some y'
        → x' ≡ y'
    only x y e f same x' y' e' f' = cc

-- callchain_cnode_matched is true exactly where the two nodes have equally many entries, no two
-- entries with source lines in the same place have different ones, and at least one place has source
-- lines in both.
pub callchain_cnode_matched_iff :
    (base pair : List CallchainList)
    → (callchain_cnode_matched base pair ≡ true) ↔ (AgreeOnLines base pair × HaveLines base pair)
unfolding callchain_cnode_matched
callchain_cnode_matched_iff base pair =
    let (to, back) = matched_from_iff false base pair in
    (
      (λ h.
          let k = to h in
          (k.0, elim k.1 [ inl bad ↦ absurd (let b = bad in cc) | inr lines ↦ lines ])),
      (λ h. back (h.0, inr h.1)),
    )
