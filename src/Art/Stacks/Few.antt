-- ===== src/Art/Stacks/Few.antt =====
-- The tree of src/lib/art/art.c where at most four stacks are different: insert never has to grow a
-- node.
use mathlib.Core.Path.{subst}
use callstack_count.Prelude.{
  ℕ, ◌+◌, ◌≤◌, ◌<◌, ◌≡◌, refl, sym, ap, ◌∙◌, inl, inr, Option, none, some, List, [], ◌∷◌, arith,
  Run, ok, ◌>>=◌, ◌⊎◌,
}
use callstack_count.Art.Insert.{ArtState, prefix_size, insert}
use callstack_count.Art.Insert.Counts.{new_tree}
use callstack_count.Art.Stacks.{HasRoom, stream_of, count_of}
use callstack_count.Art.Stacks.Keeping.{IsNarrow, grown_to}
use callstack_count.Art.Stacks.Inserting.{IsPadded}
use callstack_count.Art.Stacks.Counting.{none_yet, Tallies, tally, count_of-insert, Inserts-Tallies}

-- insert of the stacks of a list, the last of the list first.
unfoldable pub insert_list : ℕ → List (ℕ → ℕ) → Run (Option ArtState)
insert_list n [] = ok (some new_tree)
insert_list n (f ∷ fs) =
    insert_list n fs >>= λ r. elim r [ none ↦ ok none | some st ↦ insert (stream_of f n 0) st ]

abbrev pub AllPadded : ℕ → List (ℕ → ℕ) → Type 0
AllPadded n [] = Unit
AllPadded n (f ∷ fs) = IsPadded n f × AllPadded n fs

narrow-HasRoom : (b : ℕ) (st : ArtState) → b < 4 → IsNarrow b st → HasRoom st
narrow-HasRoom b st h narrow p m e k = omega (arith, h, narrow p m e k)

grown_to-pos : (c : Option ℕ) (b : ℕ) → 1 ≤ b → 1 ≤ grown_to c b
grown_to-pos none b h = omega arith
grown_to-pos (some c) b h = h

pub grown_to-le : (c : Option ℕ) (b : ℕ) → b ≤ grown_to c b
grown_to-le none b = omega arith
grown_to-le (some c) b = omega arith

-- How many stacks a list has, where equal ones count once.
abbrev pub kinds : ℕ → List (ℕ → ℕ) → ℕ
kinds n [] = 0
kinds n (f ∷ fs) = grown_to (tally n f fs) (kinds n fs)

some_kind : (n : ℕ) (f : ℕ → ℕ) (fs : List (ℕ → ℕ)) → 1 ≤ kinds n (f ∷ fs)
some_kind n f [] = omega arith
some_kind n f (g ∷ fs) = grown_to-pos (tally n f (g ∷ fs)) (kinds n (g ∷ fs)) (some_kind n g fs)

-- What a tree is after the insertion of the stacks of a list that has at most four of them.
pub record HasFew (n : ℕ) (fs : List (ℕ → ℕ)) (st : ArtState) : Type 0 where
  pub tallies : Tallies n fs st
  pub narrow : IsNarrow (kinds n fs) st
  pub any : (st.root ≡ none) ⊎ (1 ≤ kinds n fs)

pub new_tree-HasFew : (n : ℕ) → n ≤ prefix_size → HasFew n [] new_tree
new_tree-HasFew n room = record {
  tallies = Inserts-Tallies n [] new_tree room none_yet;
  narrow = λ p m h k. absurd (cc);
  any = inl refl;
}

-- A further stack, as long as there are not more than four.
pub insert-HasFew :
    (n : ℕ) (f : ℕ → ℕ) (fs : List (ℕ → ℕ)) (st : ArtState)
    → n ≤ prefix_size
    → IsPadded n f
    → kinds n (f ∷ fs) ≤ 4
    → HasFew n fs st
    → (st' : ArtState) × (insert (stream_of f n 0) st ≡ ok (some st')) × HasFew n (f ∷ fs) st'
insert-HasFew n f fs st room pf few v =
    let (tree, padded, counts) = v.tallies in
    let free : count_of n f st ≡ none → HasRoom st = λ absent.
      let none_yet_here : tally n f fs ≡ none = sym (counts f) ∙ absent in
      let grows : kinds n (f ∷ fs) ≡ kinds n fs + 1 =
        ap (λ z. grown_to z (kinds n fs)) none_yet_here in
      narrow-HasRoom (kinds n fs) st (omega (arith, few, grows)) v.narrow in
    let (st', so, tree', padded', grown, counts') =
      count_of-insert n f 0 st room tree padded free pf in
    (
      st',
      so,
      record {
        tallies = (tree', padded', λ t. counts' t ∙ rw (counts f, counts t) refl);
        narrow =
            subst (λ z. IsNarrow (grown_to z (kinds n fs)) st') (counts f)
              (grown (kinds n fs) v.any v.narrow);
        any = inr (some_kind n f fs);
      },
    )

insert_list-HasFew :
    (n : ℕ) (fs : List (ℕ → ℕ))
    → n ≤ prefix_size
    → kinds n fs ≤ 4
    → AllPadded n fs
    → (st : ArtState) × (insert_list n fs ≡ ok (some st)) × HasFew n fs st
unfolding insert_list
insert_list-HasFew n [] room few ps = (new_tree, refl, new_tree-HasFew n room)
insert_list-HasFew n (f ∷ fs) room few ps =
    let fewer = grown_to-le (tally n f fs) (kinds n fs) in
    let (st, so, v) = insert_list-HasFew n fs room (omega (arith, few, fewer)) ps.1 in
    let (st', so', v') = insert-HasFew n f fs st room ps.0 few v in
    (st', rw (insert_list, so) so', v')

-- Any list of stacks of one size of at most 128 bytes, all followed by as many bytes that are 0, of
-- which at most four are different, is inserted into the empty tree without an error, and then each
-- stack has as its count how often it came after its first time, modulo 2^64; a stack that is not in
-- the list has none.
pub insert_list-tally :
    (n : ℕ) (fs : List (ℕ → ℕ))
    → n ≤ prefix_size
    → kinds n fs ≤ 4
    → AllPadded n fs
    → (st : ArtState) × (insert_list n fs ≡ ok (some st))
      × ((t : ℕ → ℕ) → count_of n t st ≡ tally n t fs)
insert_list-tally n fs room few ps =
    let (st, so, v) = insert_list-HasFew n fs room few ps in
    let (_, _, counts) = v.tallies in (st, so, counts)
