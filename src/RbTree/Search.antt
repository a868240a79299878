-- ===== src/RbTree/Search.antt =====
-- The search loops of src/main.c: from the root, left where the node compares less, right where it
-- compares greater, until a node compares equal or a link is NULL.
use Prim.Native.Nat.{Ordering}
use mathlib.Core.List.{append_assoc}
use callstack_count.Prelude.{
  ◌≡◌, ◌⊎◌, inl, inr, refl, sym, ap, ◌∙◌, Bool, true, false, some, List, [], ◌∷◌, ◌++◌, arith,
  if◌then◌else◌, length, length-append,
}
use callstack_count.RbTree.{
  Color, Side, left, right, RbLibrary, Tree, nil, rb, RootCached, inorder, rb_link_node,
}

-- `leftmost` is true as long as the search has not gone right.
pub data Search {ℓ} (A : Type ℓ) : Type ℓ where
  hit : A → Search A
  miss : List Side → Bool → Search A

module _ {ℓ} {A : Type ℓ} where
  unfoldable pub step_left : Search A → Search A
  step_left (hit a) = hit a
  step_left (miss path leftmost) = miss (left ∷ path) leftmost

  unfoldable pub step_right : Search A → Search A
  step_right (hit a) = hit a
  step_right (miss path leftmost) = miss (right ∷ path) false

  unfoldable pub rb_search : (A → Ordering) → Tree A → Search A
  unfolding step_left step_right
  rb_search cmp nil = miss [] true
  rb_search cmp (rb c l a r) = elim (cmp a) [
    | Ordering.lt ↦ step_left (rb_search cmp l)
    | Ordering.eq ↦ hit a
    | Ordering.gt ↦ step_right (rb_search cmp r)
  ]

data OrderingCases (o : Ordering) : Type 0 where
  is_lt : o ≡ Ordering.lt → OrderingCases o
  is_eq : o ≡ Ordering.eq → OrderingCases o
  is_gt : o ≡ Ordering.gt → OrderingCases o

Ordering-cases : (o : Ordering) → OrderingCases o
Ordering-cases Ordering.lt = is_lt refl
Ordering-cases Ordering.eq = is_eq refl
Ordering-cases Ordering.gt = is_gt refl

pub Search-cases {ℓ} :
    {A : Type ℓ} (s : Search A)
    → ((a : A) × (s ≡ hit a)) ⊎ ((path : List Side) × (lm : Bool) × (s ≡ miss path lm))
Search-cases (hit a) = inl (a, refl)
Search-cases (miss path lm) = inr (path, lm, refl)

module _ {A : Type 0} where
  -- rb_link_node and rb_insert_color_cached at the end of a search.
  unfoldable pub rb_insert_cached :
      RbLibrary {T = Tree A} inorder → List Side → Bool → A → RootCached A → RootCached A
  rb_insert_cached lib path leftmost new root = record {
    rb_root = lib.rb_insert_color path (rb_link_node path new root.rb_root);
    rb_leftmost = if leftmost then some new else root.rb_leftmost;
  }

  abbrev pub All : (A → Type 0) → List A → Type 0
  All P [] = Unit
  All P (a ∷ as_) = P a × All P as_

  pub All-append : (P : A → Type 0) (xs ys : List A) → All P xs → All P ys → All P (xs ++ ys)
  All-append P [] ys h k = k
  All-append P (x ∷ xs) ys h k = (h.0, All-append P xs ys h.1 k)

  pub All-left : (P : A → Type 0) (xs ys : List A) → All P (xs ++ ys) → All P xs
  All-left P [] ys h = tt
  All-left P (x ∷ xs) ys h = (h.0, All-left P xs ys h.1)

  pub All-right : (P : A → Type 0) (xs ys : List A) → All P (xs ++ ys) → All P ys
  All-right P [] ys h = h
  All-right P (x ∷ xs) ys h = All-right P xs ys h.1

  step_left-hit : (s : Search A) (a : A) → step_left s ≡ hit a → s ≡ hit a
  unfolding step_left
  step_left-hit (hit b) a e = e
  step_left-hit (miss path lm) a e = cc

  step_right-hit : (s : Search A) (a : A) → step_right s ≡ hit a → s ≡ hit a
  unfolding step_right
  step_right-hit (hit b) a e = e
  step_right-hit (miss path lm) a e = cc

  step_left-miss :
      (s : Search A) (path : List Side) (lm : Bool)
      → step_left s ≡ miss path lm
      → (p : List Side) × (path ≡ left ∷ p) × (s ≡ miss p lm)
  unfolding step_left
  step_left-miss (hit b) path lm e = cc
  step_left-miss (miss p lm') path lm e = (p, cc, cc)

  step_right-miss :
      (s : Search A) (path : List Side) (lm : Bool)
      → step_right s ≡ miss path lm
      → (p : List Side) × (lm' : Bool) × (path ≡ right ∷ p) × (lm ≡ false) × (s ≡ miss p lm')
  unfolding step_right
  step_right-miss (hit b) path lm e = cc
  step_right-miss (miss p lm') path lm e = (p, lm', cc, cc, refl)

  -- A hit is a node of the tree that compares equal.
  pub rb_search-hit :
      (P : A → Type 0) (cmp : A → Ordering) (t : Tree A) (a : A)
      → All P (inorder t)
      → rb_search cmp t ≡ hit a
      → P a × (cmp a ≡ Ordering.eq)
  unfolding rb_search
  rb_search-hit P cmp nil a h e = cc
  rb_search-hit P cmp (rb c l b r) a h e = elim (Ordering-cases (cmp b)) [
    | is_lt o ↦
        rb_search-hit P cmp l a (All-left P (inorder l) (b ∷ inorder r) h)
          (step_left-hit _ a (rw (o, rb_search) at e))
    | is_eq o ↦
        let same : hit b ≡ hit a = rw (o, rb_search) at e in
        let ba : b ≡ a = cc in rw (← ba) ((All-right P (inorder l) (b ∷ inorder r) h).0, o)
    | is_gt o ↦
        rb_search-hit P cmp r a (All-right P (inorder l) (b ∷ inorder r) h).1
          (step_right-hit _ a (rw (o, rb_search) at e))
  ]

  -- The way of a search that missed, node by node.
  abbrev pub MissAt : (A → Ordering) → Tree A → List Side → Bool → Type 0
  MissAt cmp nil [] lm = lm ≡ true
  MissAt cmp nil (s ∷ path) lm = ⊥
  MissAt cmp (rb c l a r) [] lm = ⊥
  MissAt cmp (rb c l a r) (left ∷ path) lm = (cmp a ≡ Ordering.lt) × MissAt cmp l path lm
  MissAt cmp (rb c l a r) (right ∷ path) lm =
      (cmp a ≡ Ordering.gt) × (lm ≡ false) × ((lm' : Bool) × MissAt cmp r path lm')

  pub rb_search-MissAt :
      (cmp : A → Ordering) (t : Tree A) (path : List Side) (lm : Bool)
      → rb_search cmp t ≡ miss path lm
      → MissAt cmp t path lm
  unfolding rb_search
  rb_search-MissAt cmp nil [] lm e = cc
  rb_search-MissAt cmp nil (s ∷ path) lm e = cc
  rb_search-MissAt cmp (rb c l a r) path lm e = elim (Ordering-cases (cmp a)) [
    | is_lt o ↦
        let (p, ep, es) = step_left-miss _ path lm (rw (o, rb_search) at e) in
        rw ep (o, rb_search-MissAt cmp l p lm es)
    | is_eq o ↦ absurd (let same = rw (o, rb_search) at e in cc)
    | is_gt o ↦
        let (p, lm', ep, el, es) = step_right-miss _ path lm (rw (o, rb_search) at e) in
        rw ep (o, el, (lm', rb_search-MissAt cmp r p lm' es))
  ]

  -- At a miss the new node stands between the nodes before and behind it.
  pub rb_link_node-between :
      (cmp : A → Ordering) (t : Tree A) (path : List Side) (lm : Bool) (new : A)
      → MissAt cmp t path lm
      → (xs : List A) × (ys : List A) × (inorder t ≡ xs ++ ys)
        × (inorder (rb_link_node path new t) ≡ xs ++ new ∷ ys)
        × (lm ≡ true → xs ≡ [])
  rb_link_node-between cmp nil [] lm new m = ([], [], refl, refl, λ h. refl)
  rb_link_node-between cmp nil (s ∷ path) lm new m = absurd m
  rb_link_node-between cmp (rb c l a r) [] lm new m = absurd m
  rb_link_node-between cmp (rb c l a r) (left ∷ path) lm new m =
      let (xs, ys, e, e', first) = rb_link_node-between cmp l path lm new m.1 in
      (
        xs,
        ys ++ a ∷ inorder r,
        ap (λ z. z ++ a ∷ inorder r) e ∙ append_assoc xs ys _,
        ap (λ z. z ++ a ∷ inorder r) e' ∙ append_assoc xs (new ∷ ys) _,
        first,
      )
  rb_link_node-between cmp (rb c l a r) (right ∷ path) lm new (o, shut, (lm', m)) =
      let (xs, ys, e, e', first) = rb_link_node-between cmp r path lm' new m in
      (
        inorder l ++ a ∷ xs,
        ys,
        ap (λ z. inorder l ++ a ∷ z) e ∙ sym (append_assoc (inorder l) (a ∷ xs) _),
        ap (λ z. inorder l ++ a ∷ z) e' ∙ sym (append_assoc (inorder l) (a ∷ xs) _),
        λ h. absurd (cc),
      )

  -- A tree whose order is a single node.
  one_of_inorder : (t : Tree A) (a : A) → inorder t ≡ a ∷ [] → (c : Color) × (t ≡ rb c nil a nil)
  one_of_inorder nil a e = cc
  one_of_inorder (rb c nil b nil) a e = (c, ap (λ k. rb c nil k nil) (cc))
  one_of_inorder (rb c nil b (rb c' l' b' r')) a e =
      absurd (omega (arith, ap length e, length-append (inorder l') (b' ∷ inorder r')))
  one_of_inorder (rb c (rb c' l' b' r') b r) a e = absurd (
      omega (
        arith,
        ap length e,
        length-append (inorder l' ++ b' ∷ inorder r') (b ∷ inorder r),
        length-append (inorder l') (b' ∷ inorder r'),
      ))

  pub rb_search-alone :
      (cmp : A → Ordering) (t : Tree A) (a : A)
      → inorder t ≡ a ∷ []
      → cmp a ≡ Ordering.eq
      → rb_search cmp t ≡ hit a
  unfolding rb_search
  rb_search-alone cmp t a e h = let (c, whole) = one_of_inorder t a e in rw (whole, rb_search, h)
