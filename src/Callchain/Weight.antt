-- ===== src/Callchain/Weight.antt =====
-- What a radix tree stands for: the number of times that each chain was appended. A chain is the
-- list of its frames' addresses (map and ip).
use callstack_count.Prelude.{
  ℕ, ◌+◌, ◌<◌, ◌^◌, ◌≡◌, refl, ◌↔◌, Bool, ◌&&◌, Option, none, some, List, [], ◌∷◌, ◌++◌, map, arith,
  ◌==◌, if◌then◌else◌, length,
}
use callstack_count.RbTree.{Side, left, right}
use callstack_count.Callchain.Match.{entry_key}
use callstack_count.Callchain.Tree.{
  CallchainNode, callchain_node, Children, nil, rb, inorder, rb_link_node,
}

abbrev pub Key : Type 0
Key = ℕ × ℕ

abbrev pub same_key : Key → Key → Bool
same_key a b = a.0 == b.0 && a.1 == b.1

-- What is left of a chain behind a prefix of it.
unfoldable pub strip : List Key → List Key → Option (List Key)
strip [] q = some q
strip (k ∷ ks) [] = none
strip (k ∷ ks) (x ∷ q) = if same_key k x then strip ks q else none

abbrev pub below : Option (List Key) → (List Key → ℕ) → ℕ
below none f = 0
below (some rest) f = f rest

abbrev pub at_end : List Key → ℕ → ℕ
at_end [] n = n
at_end (k ∷ ks) n = 0

-- 1 at the chain itself, 0 at every other.
unfoldable pub occurs : List Key → List Key → ℕ
occurs p q = below (strip p q) (λ rest. at_end rest 1)

-- The count of a chain: at each node whose path spells it.
unfoldable mutual
  pub weight : CallchainNode → List Key → ℕ
  weight (callchain_node val info kids) q =
      below (strip (map entry_key val) q)
        (λ rest. at_end rest info.count + weight_children kids rest)

  pub weight_children : Children → List Key → ℕ
  weight_children nil q = 0
  weight_children (rb c l n r) q = weight_children l q + weight n q + weight_children r q

-- All the counts of a tree.
unfoldable mutual
  pub total : CallchainNode → ℕ
  total (callchain_node val info kids) = info.count + total_children kids

  pub total_children : Children → ℕ
  total_children nil = 0
  total_children (rb c l n r) = total_children l + total n + total_children r

-- Every node below the root holds an entry, and `val_nr` is the length of its list.
unfoldable mutual
  pub IsFormed : CallchainNode → Type 0
  IsFormed (callchain_node val info kids) =
      (0 < length val) × (length val < 2 ^ 32) × (info.val_nr ≡ length val) × AreFormed kids

  pub AreFormed : Children → Type 0
  AreFormed nil = Unit
  AreFormed (rb c l n r) = AreFormed l × IsFormed n × AreFormed r

pub strip-append :
    (a b q : List Key) (f : List Key → ℕ)
    → below (strip (a ++ b) q) f ≡ below (strip a q) (λ rest. below (strip b rest) f)
unfolding strip
strip-append [] b q f = refl
strip-append (k ∷ a) b [] f = refl
strip-append (k ∷ a) b (x ∷ q) f = ground (arith, strip-append a b q f)

pub below_add :
    (o : Option (List Key)) (f g h : List Key → ℕ)
    → ((rest : List Key) → f rest ≡ g rest + h rest)
    → below o f ≡ below o g + below o h
below_add none f g h e = refl
below_add (some rest) f g h e = e rest

-- A chain occurs in itself.
pub occurs_self : (p : List Key) → occurs p p ≡ 1
unfolding occurs strip
occurs_self [] = refl
occurs_self (k ∷ p) = ground (arith, occurs_self p)

pub eq_of_occurs : (p q : List Key) → 0 < occurs p q → p ≡ q
unfolding occurs strip
eq_of_occurs [] [] h = refl
eq_of_occurs [] (x ∷ q) h = absurd (omega arith)
eq_of_occurs (k ∷ p) [] h = absurd (omega arith)
eq_of_occurs (k ∷ p) (x ∷ q) h = ground (arith, eq_of_occurs p q)

-- An empty link: the path leads out of the tree at a leaf.
abbrev pub EmptyLink : Children → List Side → Type 0
EmptyLink nil [] = Unit
EmptyLink nil (s ∷ path) = ⊥
EmptyLink (rb c l n r) [] = ⊥
EmptyLink (rb c l n r) (left ∷ path) = EmptyLink l path
EmptyLink (rb c l n r) (right ∷ path) = EmptyLink r path

-- Sums and properties of the nodes go by their order, so rebalancing keeps them.
sum_of : (CallchainNode → ℕ) → List CallchainNode → ℕ
sum_of f [] = 0
sum_of f (n ∷ ns) = f n + sum_of f ns

sum_of-append :
    (f : CallchainNode → ℕ) (a b : List CallchainNode) → sum_of f (a ++ b) ≡ sum_of f a + sum_of f b
unfolding sum_of
sum_of-append f [] b = omega arith
sum_of-append f (n ∷ a) b = omega (arith, sum_of-append f a b)

weight_children-inorder :
    (t : Children) (q : List Key) → weight_children t q ≡ sum_of (λ n. weight n q) (inorder t)
unfolding weight sum_of
weight_children-inorder nil q = refl
weight_children-inorder (rb c l n r) q = omega (
  arith,
  weight_children-inorder l q,
  weight_children-inorder r q,
  sum_of-append (λ m. weight m q) (inorder l) (n ∷ inorder r),
)

total_children-inorder : (t : Children) → total_children t ≡ sum_of total (inorder t)
unfolding total sum_of
total_children-inorder nil = refl
total_children-inorder (rb c l n r) = omega (
  arith,
  total_children-inorder l,
  total_children-inorder r,
  sum_of-append total (inorder l) (n ∷ inorder r),
)

pub weight_children_congr :
    (t u : Children) (q : List Key)
    → inorder t ≡ inorder u
    → weight_children t q ≡ weight_children u q
weight_children_congr t u q e = rw (weight_children-inorder, weight_children-inorder, e)

pub total_children_congr :
    (t u : Children) → inorder t ≡ inorder u → total_children t ≡ total_children u
total_children_congr t u e = rw (total_children-inorder, total_children-inorder, e)

abbrev AllFormed : List CallchainNode → Type 0
AllFormed [] = Unit
AllFormed (n ∷ ns) = IsFormed n × AllFormed ns

AllFormed-append : (a b : List CallchainNode) → AllFormed (a ++ b) ↔ (AllFormed a × AllFormed b)
AllFormed-append [] b = ((λ h. (tt, h)), (λ h. h.1))
AllFormed-append (n ∷ a) b =
    let ih = AllFormed-append a b in
    ((λ h. ((h.0, (ih.0 h.1).0), (ih.0 h.1).1)), (λ h. (h.0.0, ih.1 (h.0.1, h.1))))

AreFormed-inorder : (t : Children) → AreFormed t ↔ AllFormed (inorder t)
unfolding IsFormed
AreFormed-inorder nil = ((λ h. h), (λ h. h))
AreFormed-inorder (rb c l n r) =
    let il = AreFormed-inorder l in
    let ir = AreFormed-inorder r in
    let split = AllFormed-append (inorder l) (n ∷ inorder r) in
    (
      (λ h. split.1 (il.0 h.0, (h.1, ir.0 h.2))),
      (λ h. let s = split.0 h in (il.1 s.0, s.1.0, ir.1 s.1.1)),
    )

pub AreFormed-congr : (t u : Children) → inorder t ≡ inorder u → AreFormed t → AreFormed u
AreFormed-congr t u e h = (AreFormed-inorder u).1 (rw e at ((AreFormed-inorder t).0 h))

-- Linking a node at an empty link adds what the node holds.
pub weight_children-link :
    (path : List Side) (new : CallchainNode) (t : Children) (q : List Key)
    → EmptyLink t path
    → weight_children (rb_link_node path new t) q ≡ weight_children t q + weight new q
unfolding weight
weight_children-link [] new nil q h = omega arith
weight_children-link [] new (rb c l n r) q h = absurd h
weight_children-link (s ∷ path) new nil q h = absurd h
weight_children-link (left ∷ path) new (rb c l n r) q h =
    omega (arith, weight_children-link path new l q h)
weight_children-link (right ∷ path) new (rb c l n r) q h =
    omega (arith, weight_children-link path new r q h)

pub total_children-link :
    (path : List Side) (new : CallchainNode) (t : Children)
    → EmptyLink t path
    → total_children (rb_link_node path new t) ≡ total_children t + total new
unfolding total
total_children-link [] new nil h = omega arith
total_children-link [] new (rb c l n r) h = absurd h
total_children-link (s ∷ path) new nil h = absurd h
total_children-link (left ∷ path) new (rb c l n r) h =
    omega (arith, total_children-link path new l h)
total_children-link (right ∷ path) new (rb c l n r) h =
    omega (arith, total_children-link path new r h)

pub AreFormed-link :
    (path : List Side) (new : CallchainNode) (t : Children)
    → EmptyLink t path
    → IsFormed new
    → AreFormed t
    → AreFormed (rb_link_node path new t)
unfolding IsFormed
AreFormed-link [] new nil h f g = (tt, f, tt)
AreFormed-link [] new (rb c l n r) h f g = absurd h
AreFormed-link (s ∷ path) new nil h f g = absurd h
AreFormed-link (left ∷ path) new (rb c l n r) h f g = (AreFormed-link path new l h f g.0, g.1, g.2)
AreFormed-link (right ∷ path) new (rb c l n r) h f g = (g.0, g.1, AreFormed-link path new r h f g.2)
