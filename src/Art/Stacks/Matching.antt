-- ===== src/Art/Stacks/Matching.antt =====
-- The comparisons of bytes in src/lib/art/art.c, where all bytes are equal.
use callstack_count.Prelude.{
  ℕ, zero, suc, ◌+◌, ◌-◌, ◌^◌, ◌<◌, ◌≡◌, refl, inl, inr, true, arith, ◌==◌, ltb, Bool-cases,
}
use callstack_count.Art.{Stream, Node, check_prefix, stream_get, memcmp_zero, smaller}
use callstack_count.Art.Prefix.{check_prefix-IsCommon}

pub memcmp_zero_equal :
    (f g : ℕ → ℕ) (m : ℕ) → ((j : ℕ) → j < m → f j ≡ g j) → memcmp_zero f g m ≡ true
unfolding memcmp_zero
memcmp_zero_equal f g zero h = refl
memcmp_zero_equal f g (suc m) h =
    let rest =
      memcmp_zero_equal (λ i. f (suc i)) (λ i. g (suc i)) m (λ j l. h (suc j) (omega (arith, l))) in
    let first : (f 0 == g 0) ≡ true = ground (arith, h 0 (omega arith)) in rw (first, rest) refl

pub equal_memcmp_zero :
    (f g : ℕ → ℕ) (m : ℕ) → memcmp_zero f g m ≡ true → (j : ℕ) → j < m → f j ≡ g j
unfolding memcmp_zero
equal_memcmp_zero f g zero h j l = absurd (omega (arith, l))
equal_memcmp_zero f g (suc m) h zero l = ground (arith, h)
equal_memcmp_zero f g (suc m) h (suc j) l =
    equal_memcmp_zero (λ i. f (suc i)) (λ i. g (suc i)) m (ground (arith, h)) j (omega (arith, l))

-- Below the end of the stack, check_prefix accepts a prefix that the stack has.
pub check_prefix_same :
    (m : Node ℕ) (s : Stream) (d : ℕ)
    → d + m.prefix_len < s.size
    → s.size < 2 ^ 32
    → ((j : ℕ) → j < m.prefix_len → m.prefix j ≡ s.data_bytes (d + j))
    → check_prefix m s d ≡ m.prefix_len
unfolding stream_get
check_prefix_same m s d fits small same =
    let c = check_prefix-IsCommon m s d (omega (arith, fits)) small in
    let k = check_prefix m s d in
    let span : smaller m.prefix_len (s.size - d) ≡ m.prefix_len = ground (arith, fits) in
    elim (Bool-cases (ltb k m.prefix_len)) [
      | inr ge ↦ ground (arith, ge, span, c.bounded)
      | inl less ↦
          let h : k < m.prefix_len = ground (arith, less) in
          absurd (c.longest (omega (arith, h, span)) (same k h))
    ]

-- A prefix that check_prefix accepts is one that the stack has.
pub same_check_prefix :
    (m : Node ℕ) (s : Stream) (d : ℕ)
    → d + m.prefix_len < s.size
    → s.size < 2 ^ 32
    → check_prefix m s d ≡ m.prefix_len
    → (j : ℕ) → j < m.prefix_len
    → m.prefix j ≡ s.data_bytes (d + j)
unfolding stream_get
same_check_prefix m s d fits small e j h =
    let c = check_prefix-IsCommon m s d (omega (arith, fits)) small in
    c.equal j (omega (arith, e, h))
