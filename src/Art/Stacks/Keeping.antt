-- ===== src/Art/Stacks/Keeping.antt =====
-- What an insertion of src/lib/art/art.c leaves as it is: the paths through nodes that keep their
-- prefix and their slots.
use callstack_count.Prelude.{
  ℕ, ◌+◌, ◌%◌, ◌^◌, ◌≤◌, ◌≡◌, refl, ap, ◌∙◌, ◌⊎◌, false, Option, none, some, get_elem?, arith,
}
use callstack_count.Art.{Node, leaf, inner_4, find_key, memcmp_zero}
use callstack_count.Art.Insert.{ArtState, Link}
use callstack_count.Art.Stacks.{Arc, Reach, top, step, Holds, IsTree, count_of}

-- The inner node `m'` leads on wherever `m` does.
pub record Keeps (m m' : Node ℕ) : Type 0 where
  pub kind : m'.flags ≡ inner_4
  pub long : m'.prefix_len ≡ m.prefix_len
  pub bytes : (j : ℕ) → m'.prefix j ≡ m.prefix j
  pub slots :
      (k i q : ℕ)
      → find_key m.key k 0 m.key_len ≡ some i
      → m.arr i ≡ some q
      → (find_key m'.key k 0 m'.key_len ≡ some i) × (m'.arr i ≡ some q)

pub Keeps-self : (m : Node ℕ) → m.flags ≡ inner_4 → Keeps m m
Keeps-self m k = record { kind = k; long = refl; bytes = λ j. refl; slots = λ j i q h a. (h, a) }

-- Every inner node of the first heap is kept in the second.
abbrev pub KeepsAll : ArtState → ArtState → Type 0
KeepsAll st st' =
    (p : ℕ) (m : Node ℕ)
    → get_elem? st.heap p ≡ some m
    → m.flags ≡ inner_4
    → (m' : Node ℕ) × (get_elem? st'.heap p ≡ some m') × Keeps m m'

module _ (st st' : ArtState) (all : KeepsAll st st') where
  pub Arc-Keeps : (t : ℕ → ℕ) (p d i q e : ℕ) → Arc st t p d i q e → Arc st' t p d i q e
  Arc-Keeps t p d i q e a =
      let (m', h, k) = all p a.node a.here a.inner in
      let at : t (d + m'.prefix_len) ≡ t (d + a.node.prefix_len) = ap (λ z. t (d + z)) k.long in
      let there = k.slots (t (d + a.node.prefix_len)) i q a.slot a.child in
      record {
        node = m';
        here = h;
        inner = k.kind;
        same = λ j l. k.bytes j ∙ a.same j (omega (arith, l, k.long));
        slot = ap (λ z. find_key m'.key z 0 m'.key_len) at ∙ there.0;
        child = there.1;
        deeper = omega (arith, a.deeper, k.long);
      }

  pub Reach-Keeps :
      (t : ℕ → ℕ) {l : Link} {p d : ℕ} → st'.root ≡ st.root → Reach st t l p d → Reach st' t l p d
  Reach-Keeps t root (top e z) = top (root ∙ e) z
  Reach-Keeps t root (step {l} {p} {d} {i} {q} {e} r a) =
      step (Reach-Keeps t root r) (Arc-Keeps t p d i q e a)

-- The count of a stack after its insertion, from the one before.
abbrev pub counted_again : Option ℕ → ℕ
counted_again none = 0
counted_again (some c) = (c + 1) % 2 ^ 64

-- No inner node has more than `b` children.
abbrev pub IsNarrow : ℕ → ArtState → Type 0
IsNarrow b st =
    (p : ℕ) (m : Node ℕ) → get_elem? st.heap p ≡ some m → m.flags ≡ inner_4 → m.key_len ≤ b

-- How many slots may be in use after an insertion: one more, where the stack is new.
abbrev pub grown_to : Option ℕ → ℕ → ℕ
grown_to none b = b + 1
grown_to (some c) b = b

-- What an insertion of `f` makes of a tree: a tree again, in which `f` is counted once more and every
-- other stack is what it was.
pub record Inserted (n : ℕ) (f : ℕ → ℕ) (st st' : ArtState) : Type 0 where
  pub tree : IsTree n st'
  pub mine : (p : ℕ) × Holds n st' f p (counted_again (count_of n f st))
  pub others :
      (t : ℕ → ℕ) (p c : ℕ)
      → memcmp_zero t f n ≡ false
      → Holds n st t p c
      → (p' : ℕ) × Holds n st' t p' c
  pub back :
      (t : ℕ → ℕ) (p c : ℕ)
      → memcmp_zero t f n ≡ false
      → Holds n st' t p c
      → (p' : ℕ) × Holds n st t p' c
  pub grown :
      (b : ℕ)
      → ((st.root ≡ none) ⊎ (1 ≤ b))
      → IsNarrow b st
      → IsNarrow (grown_to (count_of n f st) b) st'
  pub keys :
      (p : ℕ) (m : Node ℕ)
      → get_elem? st'.heap p ≡ some m
      → m.flags ≡ leaf
      → (m.key ≡ f)
        ⊎ ((q : ℕ) × (b : Node ℕ) × (get_elem? st.heap q ≡ some b)
            × (b.flags ≡ leaf)
            × (m.key ≡ b.key))
