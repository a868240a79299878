-- ===== src/Art/Stacks/Forking/Levelled.antt =====
-- The tree of src/lib/art/art.c after a new inner node stands above another: it is a tree again.
use callstack_count.Prelude.{
  ℕ, ◌+◌, ◌≡◌, refl, sym, ap, ◌∙◌, inl, inr, length, get_elem?-bound, arith,
}
use callstack_count.Art.{Node, leaf, inner_4, alloc_node}
use callstack_count.Art.Insert.{ArtState, Link}
use callstack_count.Art.Stacks.{Reach, IsLevelled}
use callstack_count.Art.Stacks.Paths.{Reach-moved}
use callstack_count.Art.Stacks.Forking.{Forked, Reach-IsLink, arc_case}
use callstack_count.Art.Stacks.Forking.Arcs.{
  lev', after_node, lev_new, lev_leaf, lev_low, lev_other, low_bounds, low_inner, points,
  Points-levels, Points-own, root_levels,
}
use callstack_count.Art.Stacks.Forking.Walk.{path_forth, path_new, path_low}

module _ (n : ℕ) (lev : ℕ → ℕ) (st : ArtState) (v : IsLevelled n lev st) (f : ℕ → ℕ) (l : Link)
    (p d : ℕ) (r : Reach st f l p d) (st' : ArtState) (w : Forked n f st l p d st') where
  pub forked-IsLevelled : IsLevelled n (lev' n lev st v f l p d r st' w) st'
  unfolding alloc_node
  forked-IsLevelled =
      let new = length st.heap in
      let level = lev' n lev st v f l p d r st' w in
      let after = after_node n lev st v f l p d r st' w in
      let at_new = lev_new n lev st v f l p d r st' w in
      let at_leaf = lev_leaf n lev st v f l p d r st' w in
      let at_low = lev_low n lev st v f l p d r st' w in
      let at_other = lev_other n lev st v f l p d r st' w in
      let bounds = low_bounds n lev st v f l p d r st' w in
      let above = low_inner n lev st v f l p d r st' w in
      record {
        kinds = λ x a h. elim (after x a h) [
          | inl (at, e) ↦ inr (ap (λ (z : Node ℕ). z.flags) e ∙ w.fork_inner)
          | inr (inl (at, e)) ↦ inl (ap (λ (z : Node ℕ). z.flags) e)
          | inr (inr (inl (at, e))) ↦
              let flags = ap (λ (z : Node ℕ). z.flags) e ∙ w.low_flags in
              elim (v.kinds p w.old w.here) [ inl k ↦ inl (flags ∙ k) | inr k ↦ inr (flags ∙ k) ]
          | inr (inr (inr (b, hb, other, e))) ↦
              let flags = ap (λ (z : Node ℕ). z.flags) e in
              elim (v.kinds x b hb) [ inl k ↦ inl (flags ∙ k) | inr k ↦ inr (flags ∙ k) ]
        ];
        sizes = λ x a h k. elim (after x a h) [
          | inl (at, e) ↦ absurd (
              let kinds : leaf ≡ inner_4 = sym k ∙ ap (λ (z : Node ℕ). z.flags) e ∙ w.fork_inner in
              cc)
          | inr (inl (at, e)) ↦ ap (λ (z : Node ℕ). z.key_len) e
          | inr (inr (inl (at, e))) ↦
              ap (λ (z : Node ℕ). z.key_len) e
              ∙ w.low_key_len
              ∙ v.sizes p w.old w.here (sym (ap (λ (z : Node ℕ). z.flags) e ∙ w.low_flags) ∙ k)
          | inr (inr (inr (b, hb, other, e))) ↦
              ap (λ (z : Node ℕ). z.key_len) e
              ∙ v.sizes x b hb (sym (ap (λ (z : Node ℕ). z.flags) e) ∙ k)
        ];
        leaves = λ x a h k. elim (after x a h) [
          | inl (at, e) ↦ absurd (
              let kinds : leaf ≡ inner_4 = sym k ∙ ap (λ (z : Node ℕ). z.flags) e ∙ w.fork_inner in
              cc)
          | inr (inl (at, e)) ↦
              let (link, s) = path_new n lev st v f l p d r st' w in
              (
                link,
                Reach-moved (sym (ap (λ (z : Node ℕ). z.key) e)) (sym at)
                    (sym (ap level at ∙ at_leaf)) s,
              )
          | inr (inr (inl (at, e))) ↦ elim w.above [
            | inr u ↦ absurd (
                let kinds : leaf ≡ inner_4 =
                  sym k ∙ ap (λ (z : Node ℕ). z.flags) e ∙ w.low_flags ∙ u.kind in
                cc)
            | inl u ↦
                let (link, s) = path_low n lev st v f l p d r st' w u in
                let key = sym (ap (λ (z : Node ℕ). z.key) e ∙ w.low_key) in
                (link, Reach-moved key (sym at) (sym (ap level at ∙ at_low)) s)
          ]
          | inr (inr (inr (b, hb, other, e))) ↦
              let (link, s) = v.leaves x b hb (sym (ap (λ (z : Node ℕ). z.flags) e) ∙ k) in
              let (link', s') = path_forth n lev st v f l p d r st' w b.key s in
              let low = get_elem?-bound st.heap x b hb in
              (
                link',
                Reach-moved (sym (ap (λ (z : Node ℕ). z.key) e)) (rw other refl)
                    (sym (at_other x low other)) s',
              )
        ];
        fits = λ x a h k. elim (after x a h) [
          | inl (at, e) ↦
              omega (
                arith,
                ap level at,
                at_new,
                ap (λ (z : Node ℕ). z.prefix_len) e,
                w.fork_len,
                w.fits,
              )
          | inr (inl (at, e)) ↦
              absurd (let kinds : leaf ≡ inner_4 = sym (ap (λ (z : Node ℕ). z.flags) e) ∙ k in cc)
          | inr (inr (inl (at, e))) ↦
              let u = above a e k in
              omega (
                arith,
                bounds u,
                v.fits p w.old w.here u.kind,
                ap level at,
                ap (λ (z : Node ℕ). z.prefix_len) e,
              )
          | inr (inr (inr (b, hb, other, e))) ↦
              let low = get_elem?-bound st.heap x b hb in
              omega (
                arith,
                v.fits x b hb (sym (ap (λ (z : Node ℕ). z.flags) e) ∙ k),
                at_other x low other,
                ap (λ (z : Node ℕ). z.prefix_len) e,
              )
        ];
        used = λ x a i h k lt. elim (after x a h) [
          | inl (at, e) ↦
              let arr = ap (λ (z : Node ℕ). z.arr i) e in
              elim (w.fork_used i (omega (arith, lt, ap (λ (z : Node ℕ). z.key_len) e))) [
                | inl slot ↦ (p, arr ∙ ap w.fork.arr slot ∙ w.fork_old.1)
                | inr slot ↦ (new + 1, arr ∙ ap w.fork.arr slot ∙ w.fork_new.1)
              ]
          | inr (inl (at, e)) ↦
              absurd (let kinds : leaf ≡ inner_4 = sym (ap (λ (z : Node ℕ). z.flags) e) ∙ k in cc)
          | inr (inr (inl (at, e))) ↦
              let u = above a e k in
              let (q, c) =
                v.used p w.old i w.here u.kind
                  (omega (arith, lt, ap (λ (z : Node ℕ). z.key_len) e, w.low_key_len)) in
              (q, ap (λ (z : Node ℕ). z.arr i) e ∙ ap (λ g. g i) w.low_arr ∙ c)
          | inr (inr (inr (b, hb, other, e))) ↦
              let inner : b.flags ≡ inner_4 = sym (ap (λ (z : Node ℕ). z.flags) e) ∙ k in
              let (q, c) =
                v.used x b i hb inner (omega (arith, lt, ap (λ (z : Node ℕ). z.key_len) e)) in
              (
                _,
                ap (λ (z : Node ℕ). z.arr i) e
                    ∙ arc_case n lev st v p l new x i q b (Reach-IsLink r) hb inner c,
              )
        ];
        levels = λ x a i q h k c.
            Points-levels n lev st v f l p d r st' w x i q a
              (points n lev st v f l p d r st' w x i q a h k c);
        own = λ x y a a' i j q h k c h' k' c'.
            Points-own n lev st v f l p d r st' w refl
              (points n lev st v f l p d r st' w x i q a h k c)
              (points n lev st v f l p d r st' w y j q a' h' k' c');
        roots = λ q e. root_levels n lev st v f l p d r st' w q e;
      }
