-- ===== src/Linux/Main.antt =====
-- src/main.c with the perf backend: after the main loop each tree has counted the stacks of its id.
use callstack_count.Prelude.{
  ℕ, zero, suc, ◌+◌, ◌*◌, ◌≤◌, ◌<◌, ◌^◌, ◌≡◌, refl, sym, ◌∙◌, inl, inr, Option, none, some, List,
  [], ◌∷◌, arith, ◌==◌, if◌then◌else◌, length, Bool-cases, Option-cases, Run, ok, ◌>>=◌,
}
use callstack_count.RbTree.{RbLibrary, Tree}
use callstack_count.RbTree
use callstack_count.Callchain.Tree.{inorder, CallchainRoot, callchain_init}
use callstack_count.Callchain.Weight.{Key}
use callstack_count.Callchain.Append.Root.{
  chain_count, chain_total, IsRoot, callchain_init-IsRoot, chain_count-callchain_init,
  chain_total-callchain_init,
}
use callstack_count.Program.{Record, TreeEntry, Program, start, main_loop}
use callstack_count.Program.Dispatch.{entry_of}
use callstack_count.Program.Maps.{MapTree, AreSmall}
use callstack_count.Program.Trees.{IsProgram, tree_of, update, start-IsProgram}
use callstack_count.Program.Refine.{view, spec_process, spec_all, spec_loop, main_loop-Refines}
use callstack_count.Linux.{LinuxShared, linux_start, max_stack_entries, linux_tree_new, linux_ops}
use callstack_count.Linux.Counts.{chain_of, HasSmallMaps, added, insert-Inserted}

-- How often the tree of an id has counted a chain.
unfoldable pub count_in : (ℕ → Option CallchainRoot) → ℕ → List Key → ℕ
count_in f id q = elim (f id) [ none ↦ 0 | some t ↦ chain_count t q ]

-- How many of the records have the id and the chain, where the empty chain counts as none.
unfoldable pub records_with : List Record → ℕ → List Key → ℕ
records_with [] id q = 0
records_with (r ∷ rs) id q =
    (if r.id == id then added (chain_of max_stack_entries r.stack) q else 0) + records_with rs id q

abbrev pub HaveSmallMaps : List Record → Type 0
HaveSmallMaps [] = Unit
HaveSmallMaps (r ∷ rs) = HasSmallMaps r.stack × HaveSmallMaps rs

-- Each tree is formed and has counted at most `n` chains.
pub record IsCounted (f : ℕ → Option CallchainRoot) (g : LinuxShared) (n : ℕ) : Type 0 where
  pub small : AreSmall g.maps
  pub is_root : (id : ℕ) (t : CallchainRoot) → f id ≡ some t → IsRoot t
  pub bounded : (id : ℕ) (t : CallchainRoot) → f id ≡ some t → chain_total t ≤ n

suc_mul : (n rounds k : ℕ) → n + suc rounds * k ≡ n + k + rounds * k
suc_mul n rounds k = omega arith

module _ (tree_lib : RbLibrary {T = Tree TreeEntry} callstack_count.RbTree.inorder)
    (maps_lib : RbLibrary {T = Tree MapTree} callstack_count.RbTree.inorder)
    (lib : RbLibrary inorder) where
  -- What a run of the specification adds to the counts.
  pub record Counted (f : ℕ → Option CallchainRoot) (n : ℕ) (more : ℕ → List Key → ℕ)
      (r : Run ((ℕ → Option CallchainRoot) × LinuxShared)) : Type 0 where
    pub trees : ℕ → Option CallchainRoot
    pub shared : LinuxShared
    pub run : r ≡ ok (trees, shared)
    pub good : IsCounted trees shared n
    pub counts : (id : ℕ) (q : List Key) → count_in trees id q ≡ count_in f id q + more id q

  -- The tree of the record's id, which new has made if there was none.
  pub record Found (f : ℕ → Option CallchainRoot) (g : LinuxShared) (n id : ℕ) : Type 0 where
    pub tree : CallchainRoot
    pub got :
        (elim (f id) [ none ↦ linux_tree_new maps_lib lib g | some t ↦ ok (t, g) ]) ≡ ok (tree, g)
    pub is_root : IsRoot tree
    pub bounded : chain_total tree ≤ n
    pub same : (q : List Key) → chain_count tree q ≡ count_in f id q

  find_tree :
      (f : ℕ → Option CallchainRoot) (g : LinuxShared) (n id : ℕ) → IsCounted f g n → Found f g n id
  unfolding linux_tree_new count_in
  find_tree f g n id v = elim (Option-cases (f id)) [
    | inl gone ↦ record {
      tree = callchain_init;
      got = rw gone;
      is_root = callchain_init-IsRoot;
      bounded = omega (arith, chain_total-callchain_init);
      same = λ q. rw (count_in, gone) (chain_count-callchain_init q);
    }
    | inr (t, here) ↦ record {
      tree = t;
      got = rw here;
      is_root = v.is_root id t here;
      bounded = v.bounded id t here;
      same = λ q. rw (count_in, here);
    }
  ]

  spec_process-Counted :
      (r : Record) (f : ℕ → Option CallchainRoot) (g : LinuxShared) (n : ℕ)
      → IsCounted f g n
      → HasSmallMaps r.stack
      → n + 1 < 2 ^ 32
      → Counted f
          (n + 1)
          (λ id q. if r.id == id then added (chain_of max_stack_entries r.stack) q else 0)
          (spec_process tree_lib (linux_ops maps_lib lib) r (f, g))
  unfolding spec_process count_in
  spec_process-Counted r f g n v small room =
      let t = find_tree f g n r.id v in
      let (t', g', run, done) =
        insert-Inserted maps_lib lib t.tree r.stack g t.is_root v.small small
          (omega (arith, t.bounded, room)) in
      record {
        trees = update f r.id t';
        shared = g';
        run = rw (t.got, ◌>>=◌, run);
        good = record {
          small = done.small;
          is_root = λ id u e. elim (Bool-cases (r.id == id)) [
            | inl same ↦
                let new : ◌≡◌ {A = Option CallchainRoot} (some t') (some u) = rw same at e in
                let whole : t' ≡ u = cc in rw (← whole) done.is_root
            | inr other ↦ v.is_root id u (rw other at e)
          ];
          bounded = λ id u e. elim (Bool-cases (r.id == id)) [
            | inl same ↦
                let new : ◌≡◌ {A = Option CallchainRoot} (some t') (some u) = rw same at e in
                let whole : t' ≡ u = cc in rw (← whole) (omega (arith, done.totals, t.bounded))
            | inr other ↦ let old = v.bounded id u (rw other at e) in omega (arith, old)
          ];
        };
        counts = λ id q. elim (Bool-cases (r.id == id)) [
          | inl same ↦
              let e : r.id ≡ id = ground (arith, same) in
              rw (count_in, same, ← e) (done.counts q ∙ rw (t.same q))
          | inr other ↦ rw (count_in, other, count_in) (omega arith)
        ];
      }

  spec_all-Counted :
      (rs : List Record) (f : ℕ → Option CallchainRoot) (g : LinuxShared) (n : ℕ)
      → IsCounted f g n
      → HaveSmallMaps rs
      → n + length rs < 2 ^ 32
      → Counted f
          (n + length rs)
          (records_with rs)
          (spec_all tree_lib (linux_ops maps_lib lib) rs (f, g))
  unfolding spec_all records_with
  spec_all-Counted [] f g n v small room =
      let e : n + 0 ≡ n = omega arith in
      record { trees = f; shared = g; run = refl; good = rw e v; counts = λ id q. omega arith }
  spec_all-Counted (r ∷ rs) f g n v small room =
      let one = spec_process-Counted r f g n v small.0 (omega (arith, room)) in
      let rest =
        spec_all-Counted rs one.trees one.shared (n + 1) one.good small.1 (omega (arith, room)) in
      let e : n + suc (length rs) ≡ n + 1 + length rs = omega arith in
      record {
        trees = rest.trees;
        shared = rest.shared;
        run = rw (one.run, ◌>>=◌) rest.run;
        good = rw e rest.good;
        counts = λ id q. omega (arith, rest.counts id q, one.counts id q);
      }

  spec_loop-Counted :
      (rounds : ℕ) (rs : List Record) (f : ℕ → Option CallchainRoot) (g : LinuxShared) (n : ℕ)
      → IsCounted f g n
      → HaveSmallMaps rs
      → n + rounds * length rs < 2 ^ 32
      → Counted f
          (n + rounds * length rs)
          (λ id q. rounds * records_with rs id q)
          (spec_loop tree_lib (linux_ops maps_lib lib) rounds rs (f, g))
  unfolding spec_loop
  spec_loop-Counted zero rs f g n v small room =
      let e : n + 0 * length rs ≡ n = omega arith in
      record { trees = f; shared = g; run = refl; good = rw e v; counts = λ id q. omega arith }
  spec_loop-Counted (suc rounds) rs f g n v small room =
      let e : n + suc rounds * length rs ≡ n + length rs + rounds * length rs =
        suc_mul n rounds (length rs) in
      let first : n + length rs < 2 ^ 32 = omega (arith, room, e) in
      let one = spec_all-Counted rs f g n v small first in
      let rest =
        spec_loop-Counted rounds rs one.trees one.shared (n + length rs) one.good small
          (rw e at room) in
      record {
        trees = rest.trees;
        shared = rest.shared;
        run = rw (one.run, ◌>>=◌) rest.run;
        good = rw e rest.good;
        counts = λ id q.
            let sum = suc_mul 0 rounds (records_with rs id q) in
            omega (arith, rest.counts id q, one.counts id q, sum);
      }

  start-IsCounted :
      IsCounted (tree_of (start tree_lib (linux_ops maps_lib lib) linux_start)) linux_start 0
  unfolding start tree_of entry_of
  start-IsCounted = record { small = tt; is_root = λ id t e. cc; bounded = λ id t e. cc }

  start_counts :
      (id : ℕ) (q : List Key)
      → count_in (tree_of (start tree_lib (linux_ops maps_lib lib) linux_start)) id q ≡ 0
  unfolding start tree_of entry_of count_in
  start_counts id q = refl

  -- From the caches that init_caches sets up, the main loop with the perf backend ends without a
  -- fault, as long as map ids are below 2 ^ 32 and fewer than 2 ^ 32 stacks are processed; then the
  -- tree of each id has counted each chain once for every round and record with that id and chain,
  -- where the empty chain counts as none.
  pub main_loop-counts :
      (rounds : ℕ) (rs : List Record)
      → HaveSmallMaps rs
      → rounds * length rs < 2 ^ 32
      → (m : Program LinuxShared CallchainRoot) × (main_loop tree_lib
            (linux_ops maps_lib lib)
            rounds
            rs
            (start tree_lib (linux_ops maps_lib lib) linux_start)
          ≡ ok m)
        × IsProgram m
        × ((id : ℕ) (q : List Key) → count_in (tree_of m) id q ≡ rounds * records_with rs id q)
  unfolding view start
  main_loop-counts rounds rs small room =
      let m0 = start tree_lib (linux_ops maps_lib lib) linux_start in
      let loop =
        spec_loop-Counted rounds rs (tree_of m0) linux_start 0 (start-IsCounted) small
          (omega (arith, room)) in
      elim (main_loop-Refines tree_lib (linux_ops maps_lib lib) rounds rs m0
        (start-IsProgram tree_lib (linux_ops maps_lib lib) linux_start)) [
          | inr (x, run, fails) ↦ absurd (let bad = sym loop.run ∙ fails in cc)
          | inl (m, run, same, v) ↦
              let both : ◌≡◌ {A = Run ((ℕ → Option CallchainRoot) × LinuxShared)}
                  (ok (loop.trees, loop.shared)) (ok (view tree_lib (linux_ops maps_lib lib) m)) =
                sym loop.run ∙ same in
              let trees : loop.trees ≡ tree_of m = cc in
              (
                m,
                run,
                v,
                λ id q. rw (← trees) (loop.counts id q ∙ omega (arith, start_counts id q)),
              )
        ]
