-- ===== src/Art/Insert/Chains.antt =====
-- The loop of do_leaf in src/lib/art/art.c that chains inner nodes.
use callstack_count.Prelude.{
  ℕ, zero, suc, ◌+◌, ◌-◌, ◌≤◌, ◌<◌, ◌≡◌, inl, inr, arith, ltb, Bool-cases, refl, sym, ap, ◌∙◌,
  ltb→lt, Run, ok, fault, ◌>>=◌, Run-cases,
}
use callstack_count.Art.{Stream}
use callstack_count.Art.Insert.{ArtState, Chain, prefix_size, load_node, extend_chain, chain_nodes}

abbrev left_over : Run Chain → ℕ
left_over (ok c) = c.prefix_remaining
left_over (fault x) = 0

left_over-bind :
    (r : Run ArtState) (f : ArtState → Chain) (n : ℕ) (c' : Chain)
    → ((st : ArtState) → (f st).prefix_remaining ≡ n)
    → (r >>= λ st. ok (f st)) ≡ ok c'
    → c'.prefix_remaining ≡ n
left_over-bind (ok st) f n c' h e = sym (ap left_over e) ∙ h st
left_over-bind (fault x) f n c' h e = cc

-- A round takes at least the size of a prefix.
extend_chain-prefix_remaining :
    (s : Stream) (depth j : ℕ) (c c' : Chain)
    → prefix_size < c.prefix_remaining
    → extend_chain s depth j c ≡ ok c'
    → c'.prefix_remaining + prefix_size ≤ c.prefix_remaining
unfolding extend_chain
extend_chain-prefix_remaining s depth j c c' big h =
    elim (Run-cases (load_node c.new_node c.state)) [
      | inr (x, e) ↦ absurd (let bad = rw (extend_chain, e, ◌>>=◌) at h in cc)
      | inl (n, e) ↦ elim (Bool-cases (ltb prefix_size (c.prefix_remaining - prefix_size))) [
        | inr last ↦
            let same = rw (extend_chain, e, ◌>>=◌, last) at h in
            omega (arith, ap left_over same, big)
        | inl more ↦
            let bound = rw (extend_chain, e, ◌>>=◌, more) at h in
            omega (
              arith,
              left_over-bind _ _ (c.prefix_remaining - prefix_size - 1) c' (λ st. refl) bound,
              big,
              ltb→lt prefix_size (c.prefix_remaining - prefix_size) more,
            )
      ]
    ]

-- Where the fuel is at least what is left of the prefix, as do_leaf gives it, the loop goes on until
-- at most the size of one prefix is left.
chain_nodes-ends :
    (fuel : ℕ) (s : Stream) (depth j : ℕ) (c c' : Chain)
    → c.prefix_remaining ≤ fuel
    → chain_nodes fuel s depth j c ≡ ok c'
    → c'.prefix_remaining ≤ prefix_size
unfolding chain_nodes
chain_nodes-ends zero s depth j c c' few h = omega (arith, ap left_over h, few)
chain_nodes-ends (suc fuel) s depth j c c' few h =
    elim (Bool-cases (ltb prefix_size c.prefix_remaining)) [
      | inr short ↦
          let same = rw (chain_nodes, short) at h in ground (arith, ap left_over same, short)
      | inl long ↦
          let big = ltb→lt prefix_size c.prefix_remaining long in
          elim (Run-cases (extend_chain s depth j c)) [
            | inr (x, e) ↦ absurd (let bad = rw (chain_nodes, long, e, ◌>>=◌) at h in cc)
            | inl (c1, e) ↦
                let less = extend_chain-prefix_remaining s depth j c c1 big e in
                chain_nodes-ends fuel s depth (j + 1) c1 c' (omega (arith, few, less))
                  (rw (chain_nodes, long, e, ◌>>=◌) at h)
          ]
    ]
