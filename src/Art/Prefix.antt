-- ===== src/Art/Prefix.antt =====
-- check_prefix of src/lib/art/art.c.
use mathlib.Core.Path.{subst}
use callstack_count.Prelude.{
  ℕ, zero, suc, ◌+◌, ◌-◌, ◌%◌, ◌^◌, ◌≤◌, ◌<◌, ◌≡◌, ◌≢◌, refl, inl, inr, true, arith, ◌==◌,
  Bool-cases,
}
use callstack_count.Art.{
  Stream, Node, stream_get, stream_size, matching, memcmp_zero, smaller, check_prefix,
}

-- The comparison of all bytes succeeds exactly when all of them match.
memcmp_zero-matching : (f g : ℕ → ℕ) (n : ℕ) → memcmp_zero f g n ≡ true → matching f g n ≡ n
unfolding memcmp_zero matching
memcmp_zero-matching f g zero h = refl
memcmp_zero-matching f g (suc n) h =
    ground (arith, memcmp_zero-matching (λ i. f (suc i)) (λ i. g (suc i)) n)

-- `m` is the length of the longest common prefix of `n` bytes.
pub record IsCommon (f g : ℕ → ℕ) (n m : ℕ) : Type 0 where
  pub bounded : m ≤ n
  pub equal : (i : ℕ) → i < m → f i ≡ g i
  pub longest : m < n → f m ≢ g m

equal_from :
    (f g : ℕ → ℕ) (m : ℕ)
    → f 0 ≡ g 0
    → ((i : ℕ) → i < m → f (suc i) ≡ g (suc i))
    → (i : ℕ) → i < suc m
    → f i ≡ g i
equal_from f g m first rest zero h = first
equal_from f g m first rest (suc i) h = rest i (omega (arith, h))

pub matching-IsCommon : (f g : ℕ → ℕ) (n : ℕ) → IsCommon f g n (matching f g n)
unfolding matching
matching-IsCommon f g zero = record {
  bounded = omega arith;
  equal = λ i h. absurd (omega (arith, h));
  longest = λ h. absurd (omega (arith, h));
}
matching-IsCommon f g (suc n) = elim (Bool-cases (f 0 == g 0)) [
  | inr other ↦
      rw (matching, other)
        (record {
          bounded = omega arith;
          equal = λ i h. absurd (omega (arith, h));
          longest = λ h e. ground (arith, other, e);
        })
  | inl same ↦
      let c = matching-IsCommon (λ i. f (suc i)) (λ i. g (suc i)) n in
      let m = matching (λ i. f (suc i)) (λ i. g (suc i)) n in
      let first : f 0 ≡ g 0 = ground (arith, same) in
      rw (matching, same)
        (record {
          bounded = omega (arith, c.bounded);
          equal = λ i h. equal_from f g m first c.equal i h;
          longest = λ h. c.longest (omega (arith, h));
        })
]

-- At a depth within a stream below 2 ^ 32 bytes, check_prefix is the length of the longest common prefix of the node's prefix and what is left of
-- the stream, whichever of the two ways it takes.
pub check_prefix-IsCommon :
    {C : Type 0} (node : Node C) (s : Stream) (depth : ℕ)
    → depth ≤ s.size
    → s.size < 2 ^ 32
    → IsCommon node.prefix
        (λ i. stream_get s (depth + i))
        (smaller node.prefix_len (s.size - depth))
        (check_prefix node s depth)
unfolding check_prefix stream_size
check_prefix-IsCommon node s depth h small =
    let rest = λ (i : ℕ). stream_get s (depth + i) in
    let left : (s.size + 2 ^ 32 - depth) % 2 ^ 32 ≡ s.size - depth = omega (arith, h, small) in
    let n = smaller node.prefix_len (s.size - depth) in
    elim (Bool-cases (memcmp_zero node.prefix rest n)) [
      | inl whole ↦
          let c = matching-IsCommon node.prefix rest n in
          let all = memcmp_zero-matching node.prefix rest n whole in
          rw (left, whole) (subst (λ m. IsCommon node.prefix rest n m) all c)
      | inr part ↦ rw (left, part) (matching-IsCommon node.prefix rest n)
    ]
