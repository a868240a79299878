-- ===== src/Art/Stacks/Extend/Levelled.antt =====
-- The branch of insert in src/lib/art/art.c that adds a leaf to an inner node: the tree afterwards.
use callstack_count.Prelude.{
  ℕ, ◌+◌, ◌<◌, ◌≡◌, refl, sym, ap, ◌∙◌, inl, inr, true, false, none, some, length, get_elem?,
  get_elem?-bound, arith,
}
use callstack_count.Art.{Node, leaf, inner_4, find_key, memcmp_zero, alloc_node}
use callstack_count.Art.Insert.{ArtState, Link, at_slot}
use callstack_count.Art.Stacks.{Reach, IsLevelled, count_of}
use callstack_count.Art.Stacks.Paths.{same_node, Reach-moved, Reach-ext, Reach-lev}
use callstack_count.Art.Stacks.Matching.{memcmp_zero_equal}
use callstack_count.Art.Stacks.Keeping.{Inserted, counted_again, grown_to}
use callstack_count.Art.Stacks.Extend.{
  leaf_of, extended, lev', size_after, get_old, get_leaf, after_node, leaf_apart, lev_old, lev_new,
  inner_after, path_forth, path_new,
}

module _ (n : ℕ) (lev : ℕ → ℕ) (st : ArtState) (v : IsLevelled n lev st) (f : ℕ → ℕ) (l : Link)
    (p d : ℕ) (m : Node ℕ) (r : Reach st f l p d) (here : get_elem? st.heap p ≡ some m)
    (inner : m.flags ≡ inner_4) (same : (j : ℕ) → j < m.prefix_len → m.prefix j ≡ f (d + j))
    (fresh : find_key m.key (f (d + m.prefix_len)) 0 m.key_len ≡ none) where
  extended-IsLevelled :
      IsLevelled n
        (lev' n lev st v f l p d m r here inner same fresh)
        (extended n lev st v f l p d m r here inner same fresh)
  unfolding alloc_node
  extended-IsLevelled = record {
    kinds = λ x a h. elim (after_node n lev st v f l p d m r here inner same fresh x a h) [
      | inl (at, e) ↦ inl (ap (λ (z : Node ℕ). z.flags) e)
      | inr (inl (at, e)) ↦ inr (ap (λ (z : Node ℕ). z.flags) e ∙ inner)
      | inr (inr (low, h')) ↦ v.kinds x a h'
    ];
    sizes = λ x a h k. elim (after_node n lev st v f l p d m r here inner same fresh x a h) [
      | inl (at, e) ↦ ap (λ (z : Node ℕ). z.key_len) e
      | inr (inl (at, e)) ↦
          absurd (let kinds : leaf ≡ inner_4 = sym k ∙ ap (λ (z : Node ℕ). z.flags) e ∙ inner in cc)
      | inr (inr (low, h')) ↦ v.sizes x a h' k
    ];
    leaves = λ x a h k. elim (after_node n lev st v f l p d m r here inner same fresh x a h) [
      | inl (at, e) ↦
          let key : f ≡ a.key = sym (ap (λ (z : Node ℕ). z.key) e) in
          let deep : d + m.prefix_len + 1 ≡ (lev' n lev st v f l p d m r here inner same fresh) x =
            sym (
              ap (lev' n lev st v f l p d m r here inner same fresh) at
              ∙ (lev_new n lev st v f l p d m r here inner same fresh)) in
          (_, Reach-moved key (sym at) deep (path_new n lev st v f l p d m r here inner same fresh))
      | inr (inl (at, e)) ↦
          absurd (let kinds : leaf ≡ inner_4 = sym k ∙ ap (λ (z : Node ℕ). z.flags) e ∙ inner in cc)
      | inr (inr (low, h')) ↦
          let (link, s) = v.leaves x a h' k in
          (
            link,
            Reach-moved refl refl (sym (lev_old n lev st v f l p d m r here inner same fresh x low))
                (path_forth n lev st v f l p d m r here inner same fresh a.key s),
          )
    ];
    fits = λ x a h k.
        let (b, h', k', len, _, _, _) =
          inner_after n lev st v f l p d m r here inner same fresh x a h k in
        let low = get_elem?-bound st.heap x b h' in
        omega (
          arith,
          v.fits x b h' k',
          len,
          lev_old n lev st v f l p d m r here inner same fresh x low,
        );
    used = λ x a i h k lt.
        let (b, h', k', len, arcs, slots, old) =
          inner_after n lev st v f l p d m r here inner same fresh x a h k in
        elim (slots i lt) [
          | inr new ↦ (_, new)
          | inl low ↦ let (q, c) = v.used x b i h' k' low in (q, old i q low c)
        ];
    levels = λ x a i q h k c.
        let (b, h', k', len, arcs, slots, old) =
          inner_after n lev st v f l p d m r here inner same fresh x a h k in
        let low = get_elem?-bound st.heap x b h' in
        elim (arcs i q c) [
          | inl (at, xp, _) ↦
              let mb = same_node st p x m b (sym xp) here h' in
              let deep : (lev' n lev st v f l p d m r here inner same fresh) q
                  ≡ d + m.prefix_len + 1 =
                ap (lev' n lev st v f l p d m r here inner same fresh) at
                ∙ (lev_new n lev st v f l p d m r here inner same fresh) in
              (
                omega (arith, at, (size_after n lev st v f l p d m r here inner same fresh)),
                omega (
                  arith,
                  deep,
                  len,
                  ap (λ (z : Node ℕ). z.prefix_len) mb,
                  lev_old n lev st v f l p d m r here inner same fresh x low,
                  ap lev xp,
                  Reach-lev n lev st v r,
                ),
              )
          | inr c' ↦
              let (below, deep) = v.levels x b i q h' k' c' in
              (
                omega (arith, below, (size_after n lev st v f l p d m r here inner same fresh)),
                omega (
                  arith,
                  deep,
                  len,
                  lev_old n lev st v f l p d m r here inner same fresh x low,
                  lev_old n lev st v f l p d m r here inner same fresh q below,
                ),
              )
        ];
    own = λ x y a a' i j q h k c h' k' c'.
        let (b, hb, kb, _, arcs, _, _) =
          inner_after n lev st v f l p d m r here inner same fresh x a h k in
        let (b', hb', kb', _, arcs', _, _) =
          inner_after n lev st v f l p d m r here inner same fresh y a' h' k' in
        elim (arcs i q c) [
          | inl (new, xp, ik) ↦ elim (arcs' j q c') [
            | inl (_, yp, jk) ↦ (xp ∙ sym yp, ik ∙ sym jk)
            | inr old ↦ absurd (omega (arith, new, (v.levels y b' j q hb' kb' old).0))
          ]
          | inr old ↦ elim (arcs' j q c') [
            | inl (new, _, _) ↦ absurd (omega (arith, new, (v.levels x b i q hb kb old).0))
            | inr old' ↦ v.own x y b b' i j q hb kb old hb' kb' old'
          ]
        ];
    roots = λ q e.
        let (low, z) = v.roots q e in
        (
          omega (arith, low, (size_after n lev st v f l p d m r here inner same fresh)),
          lev_old n lev st v f l p d m r here inner same fresh q low ∙ z,
        );
  }

  -- Adding a leaf for a stack that has none is its insertion.
  pub extended-Inserted :
      count_of n f st ≡ none
      → Inserted n f st (extended n lev st v f l p d m r here inner same fresh)
  unfolding alloc_node
  extended-Inserted absent = record {
    tree = ((lev' n lev st v f l p d m r here inner same fresh), extended-IsLevelled);
    mine = (
      length st.heap,
      record {
        link = at_slot p m.key_len;
        depth = d + m.prefix_len + 1;
        path = (path_new n lev st v f l p d m r here inner same fresh);
        node = leaf_of f n;
        here = (get_leaf n lev st v f l p d m r here inner same fresh);
        kind = refl;
        size = refl;
        key = λ j h. refl;
        counted = sym (ap counted_again absent);
      },
    );
    others = λ t q c differ o. (
      q,
      record {
        link = o.link;
        depth = o.depth;
        path = path_forth n lev st v f l p d m r here inner same fresh t o.path;
        node = o.node;
        here =
            get_old n lev st v f l p d m r here inner same fresh q o.node
              (leaf_apart n lev st v f l p d m r here inner same fresh q o.node o.here o.kind)
              o.here;
        kind = o.kind;
        size = o.size;
        key = o.key;
        counted = o.counted;
      },
    );
    grown = λ b one narrow q a h k.
        elim (after_node n lev st v f l p d m r here inner same fresh q a h) [
          | inl (at, e) ↦
              absurd (let kinds : leaf ≡ inner_4 = sym (ap (λ (z : Node ℕ). z.flags) e) ∙ k in cc)
          | inr (inl (at, e)) ↦ omega (
            arith,
            ap (λ (z : Node ℕ). z.key_len) e,
            narrow p m here inner,
            ap (λ z. grown_to z b) absent,
          )
          | inr (inr (low, h')) ↦ omega (arith, narrow q a h' k, ap (λ z. grown_to z b) absent)
        ];
    keys = λ q a h k. elim (after_node n lev st v f l p d m r here inner same fresh q a h) [
      | inl (at, e) ↦ inl (ap (λ (z : Node ℕ). z.key) e)
      | inr (inl (at, e)) ↦
          absurd (let kinds : leaf ≡ inner_4 = sym k ∙ ap (λ (z : Node ℕ). z.flags) e ∙ inner in cc)
      | inr (inr (low, h')) ↦ inr (q, a, h', k, refl)
    ];
    back = λ t q c differ o. (
      q,
      elim (after_node n lev st v f l p d m r here inner same fresh q o.node o.here) [
        | inl (at, e) ↦
            let all : memcmp_zero t f n ≡ true =
              memcmp_zero_equal t f n (λ j h. sym (o.key j h) ∙ ap (λ (z : Node ℕ). z.key j) e) in
            absurd (let clash : true ≡ false = sym all ∙ differ in cc)
        | inr (inl (at, e)) ↦
            absurd (
              let kinds : leaf ≡ inner_4 = sym o.kind ∙ ap (λ (z : Node ℕ). z.flags) e ∙ inner in
              cc)
        | inr (inr (low, h)) ↦
            let (link, s) = v.leaves q o.node h o.kind in
            record {
              link = link;
              depth = lev q;
              path = Reach-ext n lev st v o.key s;
              node = o.node;
              here = h;
              kind = o.kind;
              size = o.size;
              key = o.key;
              counted = o.counted;
            }
      ],
    );
  }
