-- ===== src/Program/Trees.antt =====
-- get_tree of src/main.c: the trees of a program as a map from ids, and how get_tree finds or adds one.
use Prim.Native.Nat.{compare, Ordering}
use callstack_count.Prelude.{
  ℕ, ◌<◌, ◌≡◌, refl, ◌∙◌, ◌⊎◌, inl, inr, Bool, Option, none, some, List, [], ◌∷◌, ◌++◌, arith, ◌==◌,
  if◌then◌else◌, length, get_elem?, set, length-append, length-set, Fault, ok, fault, ◌>>=◌,
  Run-cases, Option-cases, Bool-cases, get_elem?-append_left, get_elem?-append_last, get_elem?-some,
  get_elem?-set,
}
use callstack_count.RbTree.{Side, RbLibrary, Tree, inorder, rb_link_node}
use callstack_count.RbTree.Search.{
  hit, miss, rb_search, rb_insert_cached, rb_search-hit, rb_search-MissAt, Search-cases,
}
use callstack_count.Program.{CallstackOps, TreeEntry, Program, start, found_tree, get_tree}
use callstack_count.Program.Dispatch.{
  entry_of, IsDesc, between-desc, entry_of-insert, entry_of-missed, IsDesc-insert, IsDesc-entry_of,
}

module _ {T : Type 0} where
  -- The tree of an id, as a client sees it.
  unfoldable pub tree_of : {G : Type 0} → Program G T → ℕ → Option T
  tree_of m id = elim (entry_of id (inorder m.trees.rb_root)) [
    | none ↦ none
    | some p ↦ get_elem? m.allocated p
  ]

  abbrev pub update : (ℕ → Option T) → ℕ → T → ℕ → Option T
  update f id t j = if id == j then some t else f j

  -- The entries are ordered, their references are to allocated trees, and no two share one.
  pub record IsProgram {G : Type 0} (m : Program G T) : Type 0 where
    pub ordered : IsDesc (inorder m.trees.rb_root)
    pub live : (id p : ℕ) → entry_of id (inorder m.trees.rb_root) ≡ some p → p < length m.allocated
    pub apart :
        (i j p : ℕ)
        → entry_of i (inorder m.trees.rb_root) ≡ some p
        → entry_of j (inorder m.trees.rb_root) ≡ some p
        → i ≡ j

compare-eq : (a b : ℕ) → compare a b ≡ Ordering.eq → a ≡ b
compare-eq a b h = ground arith

module _ {G T : Type 0} (lib : RbLibrary {T = Tree TreeEntry} inorder)
    (ops : CallstackOps G T) where
  pub start-IsProgram : (g : G) → IsProgram (start lib ops g)
  unfolding start entry_of
  start-IsProgram g = record { ordered = tt; live = λ id p h. cc; apart = λ i j p h k. cc }

  pub tree_of-set :
      (m : Program G T) (id p n : ℕ) (x : T) (g : G) (j : ℕ)
      → IsProgram m
      → entry_of id (inorder m.trees.rb_root) ≡ some p
      → tree_of (record m { allocated = set m.allocated p x; shared = g; num_records = n }) j
        ≡ update (tree_of m) id x j
  unfolding tree_of
  tree_of-set m id p n x g j v e = elim (Option-cases (entry_of j (inorder m.trees.rb_root))) [
    | inl absent ↦ rw (absent, tree_of) (ground arith)
    | inr (q, present) ↦
        rw (present, tree_of)
          (get_elem?-set m.allocated p q x (v.live id p e) ∙ ground (arith, v.apart id j p e))
  ]

  pub set-IsProgram :
      (m : Program G T) (p n : ℕ) (x : T) (g : G)
      → IsProgram m
      → IsProgram (record m { allocated = set m.allocated p x; shared = g; num_records = n })
  set-IsProgram m p n x g v = record {
    ordered = v.ordered;
    live = λ id k f. rw length-set (v.live id k f);
    apart = v.apart;
  }

  -- get_tree finds the tree of the id, or makes a new one.
  pub record Gets (id : ℕ) (m m1 : Program G T) (p : ℕ) (t : T) : Type 0 where
    pub valid : IsProgram m1
    pub entry : entry_of id (inorder m1.trees.rb_root) ≡ some p
    pub tree : get_elem? m1.allocated p ≡ some t
    pub found :
        (elim (tree_of m id) [ none ↦ ops.new m.shared | some t' ↦ ok (t', m.shared) ])
        ≡ ok (t, m1.shared)
    pub others : (j : ℕ) (t' : T) → update (tree_of m1) id t' j ≡ update (tree_of m) id t' j

  get_tree-hit :
      (id : ℕ) (m : Program G T) (e : TreeEntry)
      → IsProgram m
      → rb_search (λ f. compare (TreeEntry.id f) id) m.trees.rb_root ≡ hit e
      → (t : T) × Gets id m m e.cs_tree t
  unfolding tree_of
  get_tree-hit id m e v h =
      let (own, c) = rb_search-hit _ _ m.trees.rb_root e (IsDesc-entry_of id _ v.ordered) h in
      let entry = own (compare-eq e.id id c) in
      let (t, tree) = get_elem?-some m.allocated e.cs_tree (v.live id e.cs_tree entry) in
      (
        t,
        record {
          valid = v;
          entry = entry;
          tree = tree;
          found = rw (entry, tree_of, tree);
          others = λ j t'. refl;
        },
      )

  get_tree-miss :
      (id : ℕ) (m : Program G T) (path : List Side) (lm : Bool) (t : T) (g : G)
      → IsProgram m
      → rb_search (λ f. compare (TreeEntry.id f) id) m.trees.rb_root ≡ miss path lm
      → ops.new m.shared ≡ ok (t, g)
      → Gets id m
          (record m {
            trees =
                rb_insert_cached lib path lm
                  (record { id = id; cs_tree = length m.allocated })
                  m.trees;
            allocated = m.allocated ++ t ∷ [];
            shared = g;
          })
          (length m.allocated)
          t
  unfolding tree_of rb_insert_cached
  get_tree-miss id m path lm t g v h n =
      let new : TreeEntry = record { id = id; cs_tree = length m.allocated } in
      let old = inorder m.trees.rb_root in
      let (xs, ys, split, joined, ax, ay) =
        between-desc id m.trees.rb_root path lm new v.ordered
          (rb_search-MissAt _ m.trees.rb_root path lm h) in
      let now = inorder (lib.rb_insert_color path (rb_link_node path new m.trees.rb_root)) in
      let order : now ≡ xs ++ new ∷ ys = lib.in_order path _ ∙ joined in
      let step = λ (j : ℕ).
        let s : entry_of j now ≡ (if id == j then some (length m.allocated) else entry_of j old) =
          rw (order, split) (entry_of-insert j xs new ys ax) in
        s in
      let absent : entry_of id old ≡ none = rw split (entry_of-missed id xs ys ax ay) in
      (record {
        valid = record {
          ordered = rw order (IsDesc-insert xs new ys (rw split at v.ordered) ax ay);
          live = λ j p f. ground (arith, step j, v.live j p, length-append m.allocated (t ∷ []));
          apart =
              λ i j p f k. ground (arith, step i, step j, v.live i p, v.live j p, v.apart i j p);
        };
        entry = ground (arith, step id);
        tree = get_elem?-append_last m.allocated t;
        found = rw (absent, tree_of, n);
        others = λ j t'. elim (Bool-cases (id == j)) [
          | inl same ↦ rw same
          | inr other ↦ elim (Option-cases (entry_of j old)) [
            | inl gone ↦ rw (other, tree_of, step j, other, gone)
            | inr (p, here) ↦
                rw (other, tree_of, step j, other, here)
                  (get_elem?-append_left m.allocated t p (v.live j p here))
          ]
        ];
      })

  absent_of_miss :
      (id : ℕ) (m : Program G T) (path : List Side) (lm : Bool)
      → IsProgram m
      → rb_search (λ f. compare (TreeEntry.id f) id) m.trees.rb_root ≡ miss path lm
      → tree_of m id ≡ none
  unfolding tree_of
  absent_of_miss id m path lm v h =
      let new : TreeEntry = record { id = id; cs_tree = 0 } in
      let (xs, ys, split, joined, ax, ay) =
        between-desc id m.trees.rb_root path lm new v.ordered
          (rb_search-MissAt _ m.trees.rb_root path lm h) in
      rw (tree_of, split, entry_of-missed id xs ys ax ay)

  pub get_tree-Gets :
      (id : ℕ) (m : Program G T)
      → IsProgram m
      → ((p : ℕ) × (m1 : Program G T) × (t : T) × (get_tree lib ops id m ≡ ok (p, m1))
          × Gets id m m1 p t)
        ⊎ ((x : Fault) × (get_tree lib ops id m ≡ fault x)
            × (tree_of m id ≡ none)
            × (ops.new m.shared ≡ fault x))
  unfolding get_tree
  get_tree-Gets id m v =
      elim (Search-cases (rb_search (λ e. compare (TreeEntry.id e) id) m.trees.rb_root)) [
        | inl (e, h) ↦
            let (t, g) = get_tree-hit id m e v h in inl (e.cs_tree, m, t, rw (h, found_tree), g)
        | inr (path, lm, h) ↦ elim (Run-cases (ops.new m.shared)) [
          | inl (q, n) ↦
              inl
                (_, _, q.0, rw (h, found_tree, n, ◌>>=◌), get_tree-miss id m path lm q.0 q.1 v h n)
          | inr (x, n) ↦ inr (x, rw (h, found_tree, n, ◌>>=◌), absent_of_miss id m path lm v h, n)
        ]
      ]
