-- ===== src/Program/Maps.antt =====
-- get_map of src/main.c: the map_symbol of a map id, through a one-entry cache and a red-black tree.
use Prim.Native.Nat.{Ordering}
use callstack_count.Prelude.{
  ℕ, ◌+◌, ◌-◌, ◌%◌, ◌^◌, ◌<◌, ◌≡◌, ◌≢◌, ◌↔◌, ◌⊎◌, inl, inr, refl, Bool, false, Option, none, some,
  List, [], ◌∷◌, arith, ◌==◌, ltb, if◌then◌else◌,
}
use callstack_count.RbTree.{
  RbLibrary, Side, Tree, nil, rb_link_node, inorder, RootCached, rb_root_cached,
}
use callstack_count.RbTree.Search.{
  Search, hit, miss, rb_search, rb_insert_cached, All, All-append, All-left, All-right,
  rb_search-hit, rb_search-alone, Search-cases, rb_search-MissAt, rb_link_node-between,
}

-- `struct map_tree`. Of its map_symbol only `map` is ever set, and the model has that value in place
-- of the pointer: two map_symbols with the same `map` are not told apart.
pub record MapTree : Type 0 where
  pub id : ℕ
  pub ms_map : ℕ

-- The globals `map_trees` and `last_ms`.
pub record Maps : Type 0 where
  pub map_trees : RootCached MapTree
  pub last_ms : Option ℕ

abbrev pub no_maps : Maps
no_maps = record { map_trees = rb_root_cached; last_ms = none }

-- The sign of `int cmp = mt->id - id`: the difference of two unsigned long, cut to 32 bits.
unfoldable pub int_cmp : ℕ → ℕ → Ordering
int_cmp a b =
    let cmp = (a + 2 ^ 64 - b) % 2 ^ 64 % 2 ^ 32 in
    if cmp == 0 then Ordering.eq else (if ltb cmp (2 ^ 31) then Ordering.gt else Ordering.lt)

module _ (lib : RbLibrary {T = Tree MapTree} inorder) where
  unfoldable pub found_map : Search MapTree → ℕ → Maps → ℕ × Maps
  found_map (hit mt) id m = (mt.ms_map, record m { last_ms = some mt.ms_map })
  found_map (miss path leftmost) id m =
      let mt : MapTree = record { id = id; ms_map = id } in
      (
        id,
        record { map_trees = rb_insert_cached lib path leftmost mt m.map_trees; last_ms = some id },
      )

  unfoldable pub search_map : ℕ → Maps → ℕ × Maps
  unfolding found_map
  search_map id m =
      found_map (rb_search (λ mt. int_cmp (MapTree.id mt) id) m.map_trees.rb_root) id m

  -- get_map: the `map` of the map_symbol that it returns, and the globals after it.
  unfoldable pub get_map : ℕ → Maps → ℕ × Maps
  unfolding search_map
  get_map id m = elim m.last_ms [
    | none ↦ search_map id m
    | some last ↦ if last == id then (last, m) else search_map id m
  ]

-- An entry holds the map_symbol of its own id, an unsigned long.
abbrev pub IsOwn : MapTree → Type 0
IsOwn mt = (mt.ms_map ≡ mt.id) × (mt.id < 2 ^ 64)

abbrev pub AreOwn : Maps → Type 0
AreOwn m = All IsOwn (inorder m.map_trees.rb_root)

abbrev pub IsSmall : MapTree → Type 0
IsSmall mt = (mt.ms_map ≡ mt.id) × (mt.id < 2 ^ 32)

abbrev pub AreSmall : Maps → Type 0
AreSmall m = All IsSmall (inorder m.map_trees.rb_root)

-- Two ids compare equal exactly when they agree in their low 32 bits.
pub int_cmp-eq :
    (a b : ℕ) → a < 2 ^ 64 → b < 2 ^ 64 → (int_cmp a b ≡ Ordering.eq) ↔ (a % 2 ^ 32 ≡ b % 2 ^ 32)
unfolding int_cmp
int_cmp-eq a b ha hb = ground arith

module _ (lib : RbLibrary {T = Tree MapTree} inorder) where
  -- A new entry stands among the old ones.
  insert-All :
      (P : MapTree → Type 0) (m : Maps) (cmp : MapTree → Ordering) (mt : MapTree) (path : List Side)
      (lm : Bool)
      → All P (inorder m.map_trees.rb_root)
      → P mt
      → rb_search cmp m.map_trees.rb_root ≡ miss path lm
      → All P (inorder (rb_insert_cached lib path lm mt m.map_trees).rb_root)
  unfolding rb_insert_cached
  insert-All P m cmp mt path lm own new e =
      let (xs, ys, split, joined, first) =
        rb_link_node-between cmp m.map_trees.rb_root path lm mt
          (rb_search-MissAt cmp _ path lm e) in
      let parts = rw split at own in
      rw (lib.in_order path _, joined)
        (All-append P xs (mt ∷ ys) (All-left P xs ys parts) (new, All-right P xs ys parts))

  -- What a search returns agrees with the id in the low 32 bits.
  search_map_lem :
      (id : ℕ) (m : Maps)
      → id < 2 ^ 64
      → AreOwn m
      → ((search_map lib id m).0 % 2 ^ 32 ≡ id % 2 ^ 32) × AreOwn (search_map lib id m).1
  unfolding search_map
  search_map_lem id m small own =
      let cmp = λ (mt : MapTree). int_cmp mt.id id in
      elim (Search-cases (rb_search cmp m.map_trees.rb_root)) [
        | inl (mt, e) ↦
            let (o, c) = rb_search-hit IsOwn cmp m.map_trees.rb_root mt own e in
            rw e (rw o.0 ((int_cmp-eq mt.id id o.1 small).0 c), own)
        | inr (path, lm, e) ↦ rw e (
          refl,
          insert-All IsOwn m cmp (record { id = id; ms_map = id }) path lm own (refl, small) e,
        )
      ]

  -- The cache of the last id is a shortcut.
  get_map-cases :
      (id : ℕ) (m : Maps) → (get_map lib id m ≡ search_map lib id m) ⊎ (get_map lib id m ≡ (id, m))
  unfolding get_map
  get_map-cases id m = ground arith

  -- Where each entry holds the map_symbol of its own id, get_map of a 64-bit id returns one whose map
  -- agrees with the id in the low 32 bits, and keeps this so.
  pub get_map-congruent :
      (id : ℕ) (m : Maps)
      → id < 2 ^ 64
      → AreOwn m
      → ((get_map lib id m).0 % 2 ^ 32 ≡ id % 2 ^ 32) × AreOwn (get_map lib id m).1
  get_map-congruent id m small own = elim (get_map-cases id m) [
    | inl e ↦ rw e (search_map_lem id m small own)
    | inr e ↦ rw e (refl, own)
  ]

  -- Where each entry holds the map_symbol of its own id and all ids are below 2 ^ 32, get_map of such
  -- an id returns the map_symbol of that id and keeps this so.
  pub get_map-small :
      (id : ℕ) (m : Maps)
      → id < 2 ^ 32
      → AreSmall m
      → ((get_map lib id m).0 ≡ id) × AreSmall (get_map lib id m).1
  unfolding search_map
  get_map-small id m small own =
      let cmp = λ (mt : MapTree). int_cmp mt.id id in
      elim (get_map-cases id m) [
        | inr e ↦ rw e (refl, own)
        | inl e ↦ elim (Search-cases (rb_search cmp m.map_trees.rb_root)) [
          | inl (mt, found) ↦
              let (o, c) = rb_search-hit IsSmall cmp m.map_trees.rb_root mt own found in
              let same = (int_cmp-eq mt.id id (omega (arith, o.1)) (omega (arith, small))).0 c in
              rw (e, found) (rw o.0 (omega (arith, same, o.1, small)), own)
          | inr (path, lm, missed) ↦
              rw (e, missed)
                (
                  refl,
                  insert-All IsSmall m cmp (record { id = id; ms_map = id }) path lm own
                      (refl, small) missed,
                )
        ]
      ]

  -- Where there are no entries and nothing is cached, after get_map of a 64-bit id, get_map of a second
  -- 64-bit id that differs from it but agrees in the low 32 bits returns the map_symbol of the first.
  pub get_map-aliases :
      (a b : ℕ)
      → a < 2 ^ 64
      → b < 2 ^ 64
      → a ≢ b
      → a % 2 ^ 32 ≡ b % 2 ^ 32
      → (get_map lib b (get_map lib a no_maps).1).0 ≡ a
  unfolding get_map search_map rb_insert_cached rb_search
  get_map-aliases a b ha hb ne low =
      let mt : MapTree = record { id = a; ms_map = a } in
      let other : (a == b) ≡ false = ground arith in
      let t = lib.rb_insert_color [] (rb_link_node [] mt nil) in
      let stored = lib.in_order [] (rb_link_node [] mt nil) in
      let seen =
        rb_search-alone (λ e. int_cmp (MapTree.id e) b) t mt stored
          ((int_cmp-eq a b ha hb).1 low) in
      rw (other, seen)
