-- ===== src/Program/Dispatch.antt =====
-- The search of get_tree in src/main.c finds the entry of an id, and keeps the order of the ids.
use Prim.Native.Nat.{compare, Ordering}
use mathlib.Core.List.{append_assoc}
use callstack_count.Prelude.{
  ℕ, ◌<◌, ◌≡◌, ◌≢◌, refl, sym, ap, ◌∙◌, Bool, Option, none, some, List, [], ◌∷◌, ◌++◌, arith, ◌==◌,
  if◌then◌else◌,
}
use callstack_count.RbTree.{Side, left, right, Tree, nil, rb, inorder, rb_link_node}
use callstack_count.RbTree.Search.{All, All-append, All-left, All-right, MissAt}
use callstack_count.Program.{TreeEntry}

-- The entry of an id, by the order of the tree.
unfoldable pub entry_of : ℕ → List TreeEntry → Option ℕ
entry_of id [] = none
entry_of id (e ∷ es) = if TreeEntry.id e == id then some e.cs_tree else entry_of id es

-- Greater ids stand to the left.
abbrev pub IsDesc : List TreeEntry → Type 0
IsDesc [] = Unit
IsDesc (e ∷ es) = All (λ f. TreeEntry.id f < TreeEntry.id e) es × IsDesc es

entry_of-append :
    (id : ℕ) (xs ys : List TreeEntry)
    → entry_of id (xs ++ ys) ≡ (elim (entry_of id xs) [ none ↦ entry_of id ys | some t ↦ some t ])
unfolding entry_of
entry_of-append id [] ys = refl
entry_of-append id (e ∷ xs) ys = ground (arith, entry_of-append id xs ys)

entry_of-absent : (id : ℕ) (xs : List TreeEntry) → All (λ f. f.id ≢ id) xs → entry_of id xs ≡ none
unfolding entry_of
entry_of-absent id [] h = refl
entry_of-absent id (e ∷ xs) h = ground (arith, entry_of-absent id xs h.1)

All-imp :
    {A : Type 0} {P Q : A → Type 0} (f : (a : A) → P a → Q a) (xs : List A) → All P xs → All Q xs
All-imp f [] h = tt
All-imp f (x ∷ xs) h = (f x h.0, All-imp f xs h.1)

All-both :
    {A : Type 0} (P Q : A → Type 0) (xs : List A) → All P xs → All Q xs → All (λ a. P a × Q a) xs
All-both P Q [] h k = tt
All-both P Q (x ∷ xs) h k = ((h.0, k.0), All-both P Q xs h.1 k.1)

IsDesc-append :
    (xs : List TreeEntry) (e : TreeEntry) (ys : List TreeEntry)
    → IsDesc (xs ++ e ∷ ys)
    → IsDesc xs × All (λ f. e.id < f.id) xs × All (λ f. f.id < e.id) ys × IsDesc ys
IsDesc-append [] e ys h = (tt, tt, h.0, h.1)
IsDesc-append (x ∷ xs) e ys h =
    let (dx, ax, ay, dy) = IsDesc-append xs e ys h.1 in
    ((All-left _ xs (e ∷ ys) h.0, dx), ((All-right _ xs (e ∷ ys) h.0).0, ax), ay, dy)

pub IsDesc-insert :
    (xs : List TreeEntry) (e : TreeEntry) (ys : List TreeEntry)
    → IsDesc (xs ++ ys)
    → All (λ f. e.id < f.id) xs
    → All (λ f. f.id < e.id) ys
    → IsDesc (xs ++ e ∷ ys)
IsDesc-insert [] e ys d a b = (b, d)
IsDesc-insert (x ∷ xs) e ys d a b = (
  All-append _ xs (e ∷ ys) (All-left _ xs ys d.0) (a.0, All-right _ xs ys d.0),
  IsDesc-insert xs e ys d.1 a.1 b,
)

-- In an ordered list each entry is the one of its id.
pub IsDesc-entry_of :
    (id : ℕ) (es : List TreeEntry)
    → IsDesc es
    → All (λ f. f.id ≡ id → entry_of id es ≡ some f.cs_tree) es
unfolding entry_of
IsDesc-entry_of id [] d = tt
IsDesc-entry_of id (e ∷ es) d = (
  (λ h. ground arith),
  All-imp (λ f p h. ground (arith, p.0 h, p.1)) es
      (All-both _ _ es (IsDesc-entry_of id es d.1) d.0),
)

compare-lt : (a b : ℕ) → compare a b ≡ Ordering.lt → a < b
compare-lt a b h = ground arith

compare-gt : (a b : ℕ) → compare a b ≡ Ordering.gt → b < a
compare-gt a b h = ground arith

-- Where a search for an id misses in an ordered tree, greater ids stand before and smaller behind.
pub between-desc :
    (id : ℕ) (t : Tree TreeEntry) (path : List Side) (lm : Bool) (new : TreeEntry)
    → IsDesc (inorder t)
    → MissAt (λ e. compare (TreeEntry.id e) id) t path lm
    → (xs : List TreeEntry) × (ys : List TreeEntry) × (inorder t ≡ xs ++ ys)
      × (inorder (rb_link_node path new t) ≡ xs ++ new ∷ ys)
      × All (λ f. id < f.id) xs
      × All (λ f. f.id < id) ys
between-desc id nil [] lm new d m = ([], [], refl, refl, tt, tt)
between-desc id nil (s ∷ path) lm new d m = absurd m
between-desc id (rb c l e r) [] lm new d m = absurd m
between-desc id (rb c l e r) (left ∷ path) lm new d m =
    let (dl, al, ar, dr) = IsDesc-append (inorder l) e (inorder r) d in
    let small = compare-lt e.id id m.0 in
    let (xs, ys, p, q, ax, ay) = between-desc id l path lm new dl m.1 in
    (
      xs,
      ys ++ e ∷ inorder r,
      ap (λ z. z ++ e ∷ inorder r) p ∙ append_assoc xs ys _,
      ap (λ z. z ++ e ∷ inorder r) q ∙ append_assoc xs (new ∷ ys) _,
      ax,
      All-append _ ys (e ∷ inorder r) ay (small, All-imp (λ f h. omega arith) (inorder r) ar),
    )
between-desc id (rb c l e r) (right ∷ path) lm new d (o, shut, (lm', m)) =
    let (dl, al, ar, dr) = IsDesc-append (inorder l) e (inorder r) d in
    let great = compare-gt e.id id o in
    let (xs, ys, p, q, ax, ay) = between-desc id r path lm' new dr m in
    (
      inorder l ++ e ∷ xs,
      ys,
      ap (λ z. inorder l ++ e ∷ z) p ∙ sym (append_assoc (inorder l) (e ∷ xs) _),
      ap (λ z. inorder l ++ e ∷ z) q ∙ sym (append_assoc (inorder l) (e ∷ xs) _),
      All-append _ (inorder l) (e ∷ xs) (All-imp (λ f h. omega arith) (inorder l) al) (great, ax),
      ay,
    )

-- Linking a new entry adds it under its id.
pub entry_of-insert :
    (j : ℕ) (xs : List TreeEntry) (e : TreeEntry) (ys : List TreeEntry)
    → All (λ f. e.id < f.id) xs
    → entry_of j (xs ++ e ∷ ys) ≡ (if e.id == j then some e.cs_tree else entry_of j (xs ++ ys))
unfolding entry_of
entry_of-insert j [] e ys a = refl
entry_of-insert j (x ∷ xs) e ys a = ground (arith, entry_of-insert j xs e ys a.1)

pub entry_of-missed :
    (id : ℕ) (xs ys : List TreeEntry)
    → All (λ f. id < f.id) xs
    → All (λ f. f.id < id) ys
    → entry_of id (xs ++ ys) ≡ none
entry_of-missed id xs ys a b =
    entry_of-absent id (xs ++ ys)
      (All-append _ xs ys (All-imp (λ f h. omega arith) xs a) (All-imp (λ f h. omega arith) ys b))
