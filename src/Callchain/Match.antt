-- ===== src/Callchain/Match.antt =====
-- Comparing a frame of the cursor with an entry of a node: match_chain_strings,
-- match_chain_dso_addresses and match_chain of src/lib/linux/callchain.c. Allocation succeeds.
use Prim.Native.Nat.{compare, Ordering}
use callstack_count.Prelude.{
  ℕ, ◌≡◌, ◌≢◌, ◌↔◌, refl, sym, ◌∙◌, true, false, ◌||◌, Option, none, some, List, [], ◌∷◌, arith,
  ◌==◌, ltb, if◌then◌else◌,
}
use callstack_count.Callchain.{
  Symbol, MapSymbol, CallchainList, CursorNode, ChainKey, function, address, source_line, add_u64,
}

pub data MatchResult : Type 0 where
  match_error match_eq match_lt match_gt : MatchResult

-- strcmp, by the bytes of the two strings.
unfoldable pub strcmp : List ℕ → List ℕ → Ordering
strcmp [] [] = Ordering.eq
strcmp [] (b ∷ bs) = Ordering.lt
strcmp (a ∷ as_) [] = Ordering.gt
strcmp (a ∷ as_) (b ∷ bs) =
    let rest = strcmp as_ bs in elim (compare a b) [ Ordering.eq ↦ rest | other ↦ other ]

pub strcmp-eq : (a b : List ℕ) → (strcmp a b ≡ Ordering.eq) ↔ (a ≡ b)
unfolding strcmp
strcmp-eq [] [] = ((λ h. refl), (λ h. refl))
strcmp-eq [] (y ∷ b) = ((λ h. cc), (λ h. cc))
strcmp-eq (x ∷ a) [] = ((λ h. cc), (λ h. cc))
strcmp-eq (x ∷ a) (y ∷ b) =
    let ih = strcmp-eq a b in
    (
      (λ h.
          let first : x ≡ y = ground (arith, h) in
          let rest : strcmp a b ≡ Ordering.eq = ground (arith, h) in let same = ih.0 rest in cc),
      (λ h. let first : x ≡ y = cc in let rest : a ≡ b = cc in ground (arith, first, ih.1 rest)),
    )

abbrev of_ordering : Ordering → MatchResult
of_ordering Ordering.lt = match_lt
of_ordering Ordering.eq = match_eq
of_ordering Ordering.gt = match_gt

unfoldable pub match_chain_strings : Option (List ℕ) → Option (List ℕ) → MatchResult
match_chain_strings (some left) (some right) = of_ordering (strcmp left right)
match_chain_strings none (some right) = match_gt
match_chain_strings (some left) none = match_lt
match_chain_strings none none = match_error

-- `map__dso` is a cast: the dso is the map.
unfoldable pub match_chain_dso_addresses : ℕ → ℕ → ℕ → ℕ → MatchResult
match_chain_dso_addresses left_map left_ip right_map right_ip =
    if left_map == right_map
    then (if left_ip == right_ip
        then match_eq
        else (if ltb left_ip right_ip then match_lt else match_gt))
    else (if ltb left_map right_map then match_lt else match_gt)

-- case CCKEY_ADDRESS
unfoldable pub match_addresses : CursorNode → CallchainList → MatchResult
unfolding match_chain_dso_addresses
match_addresses node cnode =
    match_chain_dso_addresses cnode.ms.map_ptr cnode.ip node.ms.map_ptr node.ip

-- A comparison that fails falls through to the next key.
abbrev or_else : MatchResult → MatchResult → MatchResult
or_else match_error next = next
or_else match next = match

-- case CCKEY_FUNCTION, with both symbols
match_symbols : MapSymbol → Symbol → MapSymbol → Symbol → MatchResult → MatchResult
match_symbols cms csym nms nsym next =
    if csym.inlined || nsym.inlined
    then or_else (match_chain_strings (some csym.name) (some nsym.name)) next
    else match_chain_dso_addresses cms.map_ptr csym.start nms.map_ptr nsym.start

match_functions : Option Symbol → Option Symbol → CursorNode → CallchainList → MatchResult
match_functions (some nsym) (some csym) node cnode =
    match_symbols cnode.ms csym node.ms nsym (match_addresses node cnode)
match_functions _ _ node cnode = match_addresses node cnode

-- The switch of match_chain on `callchain_param.key`.
unfoldable pub compare_by : ChainKey → CursorNode → CallchainList → MatchResult
unfolding match_functions match_symbols match_addresses match_chain_strings
compare_by source_line node cnode =
    or_else (match_chain_strings cnode.srcline node.srcline)
      (match_functions node.ms.sym cnode.ms.sym node cnode)
compare_by function node cnode = match_functions node.ms.sym cnode.ms.sym node cnode
compare_by address node cnode = match_addresses node cnode

-- The branch counters of an entry that a frame with `branch` set has matched.
count_branch : CursorNode → CallchainList → CallchainList
count_branch node cnode =
    if node.branch_from == 0
    then record cnode {
      branch_count = add_u64 cnode.branch_count 1;
      brtype_stat = elim cnode.brtype_stat [ none ↦ none | some to ↦ some false ];
      cycles_count = add_u64 cnode.cycles_count node.branch_flags.cycles;
      iter_count = add_u64 cnode.iter_count node.nr_loop_iter;
      iter_cycles = add_u64 cnode.iter_cycles node.iter_cycles;
      from_count = add_u64 cnode.from_count 1;
    }
    else record cnode {
      branch_count = add_u64 cnode.branch_count 1;
      brtype_stat = some true;
      predicted_count =
          if node.branch_flags.predicted
          then add_u64 cnode.predicted_count 1
          else cnode.predicted_count;
      abort_count =
          if node.branch_flags.abort then add_u64 cnode.abort_count 1 else cnode.abort_count;
    }

update_matched : MatchResult → CursorNode → CallchainList → CallchainList
update_matched match_eq node cnode = if node.branch then count_branch node cnode else cnode
update_matched _ node cnode = cnode

-- The result, and the entry after it.
unfoldable pub match_chain : ChainKey → CursorNode → CallchainList → MatchResult × CallchainList
unfolding compare_by update_matched count_branch
match_chain key node cnode =
    let match = compare_by key node cnode in (match, update_matched match node cnode)

-- What an entry or a frame is known by when addresses are compared.
abbrev pub frame_key : CursorNode → ℕ × ℕ
frame_key n = (n.ms.map_ptr, n.ip)

abbrev pub entry_key : CallchainList → ℕ × ℕ
entry_key c = (c.ms.map_ptr, c.ip)

-- With no symbol and no source line, every frame of this program is compared by its address.
pub record IsPlain (key : ChainKey) (n : CursorNode) : Type 0 where
  pub no_lines : key ≢ source_line
  pub no_sym : n.ms.sym ≡ none

-- The comparison itself never fails: only the allocation in match_chain could.
pub match_chain-ne-error :
    (key : ChainKey) (n : CursorNode) (c : CallchainList) → (match_chain key n c).0 ≢ match_error
unfolding match_chain
match_chain-ne-error function n c h = ground arith
match_chain-ne-error address n c h = ground arith
match_chain-ne-error source_line n c h = ground arith

pub compare_by-plain :
    (key : ChainKey) (n : CursorNode) (c : CallchainList)
    → IsPlain key n
    → compare_by key n c ≡ match_addresses n c
unfolding compare_by
compare_by-plain source_line n c p = absurd (p.no_lines refl)
compare_by-plain function n c p = ground arith
compare_by-plain address n c p = refl

-- A comparison of addresses finds two frames equal exactly when map and ip are.
pub match_addresses-eq :
    (n : CursorNode) (c : CallchainList)
    → (match_addresses n c ≡ match_eq) ↔ (entry_key c ≡ frame_key n)
unfolding match_addresses
match_addresses-eq n c = ground arith

-- Exchanging the two sides exchanges less and greater.
match_chain_dso_addresses_flip :
    (m i m' i' : ℕ)
    → (match_chain_dso_addresses m i m' i' ≡ match_lt)
      ↔ (match_chain_dso_addresses m' i' m i ≡ match_gt)
unfolding match_chain_dso_addresses
match_chain_dso_addresses_flip m i m' i' = ground arith

-- The comparison of addresses is transitive: less than what is less is less.
match_chain_dso_addresses_trans :
    (m i m' i' m'' i'' : ℕ)
    → match_chain_dso_addresses m i m' i' ≡ match_lt
    → match_chain_dso_addresses m' i' m'' i'' ≡ match_lt
    → match_chain_dso_addresses m i m'' i'' ≡ match_lt
unfolding match_chain_dso_addresses
match_chain_dso_addresses_trans m i m' i' m'' i'' h k = ground arith

-- Matching leaves what an entry is compared by.
pub match_chain-key :
    (key : ChainKey) (n : CursorNode) (c : CallchainList)
    → entry_key (match_chain key n c).1 ≡ entry_key c
unfolding match_chain
match_chain-key key n c = ground arith

-- A plain frame that matches has the address of the entry.
pub match_chain-matched :
    (key : ChainKey) (n : CursorNode) (c : CallchainList)
    → IsPlain key n
    → (match_chain key n c).0 ≡ match_eq
    → entry_key (match_chain key n c).1 ≡ frame_key n
unfolding match_chain
match_chain-matched key n c p h =
    match_chain-key key n c ∙ (match_addresses-eq n c).0 (sym (compare_by-plain key n c p) ∙ h)

-- An entry that does not match stays as it is.
pub match_chain_unchanged :
    (key : ChainKey) (n : CursorNode) (c : CallchainList)
    → (match_chain key n c).0 ≢ match_eq
    → (match_chain key n c).1 ≡ c
unfolding match_chain
match_chain_unchanged key n c h = ground arith
