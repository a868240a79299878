-- ===== src/Art/Stacks/Counting.antt =====
-- The tree of src/lib/art/art.c counts: what insert does to the count of every stack, and what any
-- number of insertions does, for stacks of one size of at most 128 bytes.
use mathlib.Core.Path.{subst}
use callstack_count.Prelude.{
  ℕ, ◌+◌, ◌^◌, ◌≤◌, ◌<◌, ◌≡◌, refl, sym, ap, ◌∙◌, inl, inr, Option, none, some, List, [], ◌∷◌,
  arith, Bool-cases, Option-cases, if◌then◌else◌, ok, ◌⊎◌,
}
use callstack_count.Art.{memcmp_zero, make_leaf, stream_size}
use callstack_count.Art.Insert.{ArtState, at_root, prefix_size, push_node, insert}
use callstack_count.Art.Insert.Counts.{new_tree}
use callstack_count.Art.Stacks.{top, Holds, IsTree, HasRoom, stream_of, count_of}
use callstack_count.Art.Stacks.Searching.{count_of-Holds, Holds-count_of}
use callstack_count.Art.Stacks.Matching.{equal_memcmp_zero}
use callstack_count.Art.Stacks.Paths.{Reach-ext}
use callstack_count.Art.Stacks.Keeping.{Inserted, IsNarrow, counted_again, grown_to}
use callstack_count.Art.Stacks.First.{first-Inserted, count_of-rootless}
use callstack_count.Art.Stacks.Inserting.{IsPadded, ArePadded, insert_loop-Inserted}

-- insert ends, and inserts.
insert-Inserted :
    (n : ℕ) (f : ℕ → ℕ) (o : ℕ) (st : ArtState)
    → n ≤ prefix_size
    → IsTree n st
    → ArePadded n st
    → (count_of n f st ≡ none → HasRoom st)
    → IsPadded n f
    → (st' : ArtState) × (insert (stream_of f n o) st ≡ ok (some st')) × Inserted n f st st'
unfolding insert push_node make_leaf stream_size
insert-Inserted n f o st room (lev, v) ps free pf = elim (Option-cases st.root) [
  | inl empty ↦ (_, rw (insert, empty) refl, first-Inserted n lev st v f empty)
  | inr (p, e) ↦
      let (st', so, i) =
        insert_loop-Inserted n lev st v f room pf ps (n + 1) at_root p 0 o free (omega arith)
          (top e refl) in
      (st', rw (insert, e) so, i)
]

padded_after :
    (n : ℕ) (f : ℕ → ℕ) (st st' : ArtState)
    → Inserted n f st st'
    → IsPadded n f
    → ArePadded n st
    → ArePadded n st'
padded_after n f st st' i pf ps p m h k j lt = elim (i.keys p m h k) [
  | inl e ↦ ap (λ g. g (n + j)) e ∙ pf j lt
  | inr (q, b, h', k', e) ↦ ap (λ g. g (n + j)) e ∙ ps q b h' k' j lt
]

-- The counts after an insertion.
counts_after :
    (n : ℕ) (f : ℕ → ℕ) (st st' : ArtState)
    → n < 2 ^ 32
    → IsTree n st
    → Inserted n f st st'
    → (t : ℕ → ℕ)
    → count_of n t st'
      ≡ (if memcmp_zero t f n then some (counted_again (count_of n f st)) else count_of n t st)
counts_after n f st st' small (lev, v) i t =
    let (lev', v') = i.tree in
    elim (Bool-cases (memcmp_zero t f n)) [
      | inl same ↦
          let (p, h) = i.mine in
          let equal = equal_memcmp_zero t f n same in
          let mine : Holds n st' t p (counted_again (count_of n f st)) = record {
            link = h.link;
            depth = h.depth;
            path = Reach-ext n lev' st' v' (λ j lt. sym (equal j lt)) h.path;
            node = h.node;
            here = h.here;
            kind = h.kind;
            size = h.size;
            key = λ j lt. h.key j lt ∙ sym (equal j lt);
            counted = h.counted;
          } in
          count_of-Holds n lev' st' t p _ v' small mine ∙ rw same refl
      | inr differ ↦
          let goal : count_of n t st' ≡ count_of n t st = elim (Option-cases (count_of n t st)) [
            | inr (c, e) ↦
                let (p, h) = Holds-count_of n lev st t c v small e in
                let (p', h') = i.others t p c differ h in
                count_of-Holds n lev' st' t p' c v' small h' ∙ sym e
            | inl gone ↦ elim (Option-cases (count_of n t st')) [
              | inl still ↦ still ∙ sym gone
              | inr (c, e) ↦
                  let (p, h) = Holds-count_of n lev' st' t c v' small e in
                  let (p', h') = i.back t p c differ h in
                  let there = count_of-Holds n lev st t p' c v small h' in
                  absurd (let clash : ◌≡◌ {A = Option ℕ} none (some c) = sym gone ∙ there in cc)
            ]
          ] in
          goal ∙ rw differ refl
    ]

-- In a tree of stacks of one size of at most 128 bytes, all followed by as many bytes that are 0,
-- insert of a further such stack succeeds and leaves such a tree, if the stack is there already or no
-- node has all of its four slots in use. The stack has afterwards the count 0 if it was not there, and
-- one more, modulo 2^64, if it was; every other stack has the count that it had, or none. If no node
-- had more than `b` slots in use, where `b` is not 0 or the root is NULL, none has more than `b`
-- afterwards where the stack was there, and none more than `b + 1` where it was not.
pub count_of-insert :
    (n : ℕ) (f : ℕ → ℕ) (o : ℕ) (st : ArtState)
    → n ≤ prefix_size
    → IsTree n st
    → ArePadded n st
    → (count_of n f st ≡ none → HasRoom st)
    → IsPadded n f
    → (st' : ArtState) × (insert (stream_of f n o) st ≡ ok (some st'))
      × IsTree n st'
      × ArePadded n st'
      × ((b : ℕ)
          → ((st.root ≡ none) ⊎ (1 ≤ b))
          → IsNarrow b st
          → IsNarrow (grown_to (count_of n f st) b) st')
      × ((t : ℕ → ℕ)
          → count_of n t st' ≡ (
              if memcmp_zero t f n
              then some (counted_again (count_of n f st))
              else count_of n t st))
count_of-insert n f o st room tree ps free pf =
    let (st', so, i) = insert-Inserted n f o st room tree ps free pf in
    (
      st',
      so,
      i.tree,
      padded_after n f st st' i pf ps,
      i.grown,
      counts_after n f st st' (omega (arith, room)) tree i,
    )

-- Insertions one after the other, from the empty tree.
pub data Inserts (n : ℕ) : List (ℕ → ℕ) → ArtState → Type 0 where
  none_yet : Inserts n [] new_tree
  also :
      {fs : List (ℕ → ℕ)} {st st' : ArtState} (f : ℕ → ℕ) (o : ℕ)
      → Inserts n fs st
      → (count_of n f st ≡ none → HasRoom st)
      → IsPadded n f
      → insert (stream_of f n o) st ≡ ok (some st')
      → Inserts n (f ∷ fs) st'

-- How often a stack occurs, where its first occurrence counts 0.
abbrev pub tally : ℕ → (ℕ → ℕ) → List (ℕ → ℕ) → Option ℕ
tally n t [] = none
tally n t (f ∷ fs) = if memcmp_zero t f n then some (counted_again (tally n f fs)) else tally n t fs

new_tree-IsTree : (n : ℕ) → IsTree n new_tree
new_tree-IsTree n = (
  λ x. 0,
  record {
    kinds = λ p m h. absurd (cc);
    sizes = λ p m h. absurd (cc);
    leaves = λ p m h. absurd (cc);
    fits = λ p m h. absurd (cc);
    used = λ p m i h. absurd (cc);
    levels = λ p m i q h. absurd (cc);
    own = λ p p' m m' i i' q h. absurd (cc);
    roots = λ r e. absurd (cc);
  },
)

-- What the tree has to be after the insertions.
abbrev pub Tallies : ℕ → List (ℕ → ℕ) → ArtState → Type 0
Tallies n fs st = IsTree n st × ArePadded n st × ((t : ℕ → ℕ) → count_of n t st ≡ tally n t fs)

-- After any number of insertions into the empty tree, of stacks of one size of at most 128 bytes that
-- are followed by as many bytes that are 0, each of a stack that is there or into a tree no node of
-- which has all of its four slots in use, the nodes form a tree of such stacks in which every stack has
-- as its count how often it was inserted after its first time, modulo 2^64, and a stack that was not
-- inserted has none.
pub Inserts-Tallies :
    (n : ℕ) (fs : List (ℕ → ℕ)) (st : ArtState)
    → n ≤ prefix_size
    → Inserts n fs st
    → Tallies n fs st
Inserts-Tallies n _ _ room none_yet =
    let (lev, v) = new_tree-IsTree n in
    ((lev, v), λ p m h. absurd (cc), λ t. count_of-rootless n lev new_tree v t refl t)
Inserts-Tallies n _ _ room (also {fs} {st} {st'} f o before free pf so) =
    let (tree, ps, counts) = Inserts-Tallies n fs st room before in
    let (st2, so2, tree2, ps2, _, counts2) = count_of-insert n f o st room tree ps free pf in
    let both : ok (some st2) ≡ ok (some st') = sym so2 ∙ so in
    let same : st2 ≡ st' = cc in
    subst (Tallies n (f ∷ fs)) same (tree2, ps2, λ t. counts2 t ∙ rw (counts f, counts t) refl)
