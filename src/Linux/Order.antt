-- ===== src/Linux/Order.antt =====
-- src/main.c with the perf backend: the order of the records does not matter.
use mathlib.Core.Logic.{∥∥₁_elim}
use mathlib.Core.List.{Perm, Permᴰ}
use callstack_count.Prelude.{ℕ, ◌*◌, ◌<◌, ◌^◌, ◌≡◌, refl, sym, ap, ◌∙◌, List, arith, length, ok}
use callstack_count.RbTree.{RbLibrary, Tree}
use callstack_count.RbTree
use callstack_count.Callchain.Tree.{inorder, CallchainRoot}
use callstack_count.Callchain.Weight.{Key}
use callstack_count.Program.{Record, TreeEntry, Program, start, main_loop}
use callstack_count.Program.Trees.{tree_of}
use callstack_count.Program.Maps.{MapTree}
use callstack_count.Linux.{LinuxShared, linux_start, linux_ops}
use callstack_count.Linux.Main.{count_in, records_with, HaveSmallMaps, main_loop-counts}

-- What does not depend on the order of the records.
record IsSameBag (rs ss : List Record) : Type 0 where
  lengths : length rs ≡ length ss
  counts : (id : ℕ) (q : List Key) → records_with rs id q ≡ records_with ss id q

permuted : {rs ss : List Record} → Permᴰ rs ss → IsSameBag rs ss
unfolding records_with
permuted Permᴰ.nil = record { lengths = refl; counts = λ id q. refl }
permuted (Permᴰ.cons e p) =
    let ih = permuted p in
    record { lengths = omega (arith, ih.lengths); counts = λ id q. rw (e, ih.counts id q) refl }
permuted (Permᴰ.swap e f) = record { lengths = refl; counts = λ id q. rw (e, f) (omega arith) }
permuted (Permᴰ.trans p r) =
    let a = permuted p in
    let b = permuted r in
    record { lengths = a.lengths ∙ b.lengths; counts = λ id q. a.counts id q ∙ b.counts id q }

Perm-length : (rs ss : List Record) → Perm rs ss → length rs ≡ length ss
Perm-length rs ss p = ∥∥₁_elim p (hlevel) (λ d. IsSameBag.lengths (permuted d))

Perm-records_with :
    (rs ss : List Record) (id : ℕ) (q : List Key)
    → Perm rs ss
    → records_with rs id q ≡ records_with ss id q
Perm-records_with rs ss id q p = ∥∥₁_elim p (hlevel) (λ d. IsSameBag.counts (permuted d) id q)

-- With the conditions of main_loop-counts, the main loop with the perf backend on the same records in
-- another order ends without a fault too, and both runs leave the same count of every chain for every
-- id, where the empty chain counts as none.
pub main_loop-order :
    (tree_lib : RbLibrary {T = Tree TreeEntry} callstack_count.RbTree.inorder)
    (maps_lib : RbLibrary {T = Tree MapTree} callstack_count.RbTree.inorder)
    (lib : RbLibrary inorder) (rounds : ℕ) (rs ss : List Record)
    → Perm rs ss
    → HaveSmallMaps rs
    → HaveSmallMaps ss
    → rounds * length rs < 2 ^ 32
    → (m m' : Program LinuxShared CallchainRoot) × (main_loop tree_lib
          (linux_ops maps_lib lib)
          rounds
          rs
          (start tree_lib (linux_ops maps_lib lib) linux_start)
        ≡ ok m)
      × (main_loop tree_lib
            (linux_ops maps_lib lib)
            rounds
            ss
            (start tree_lib (linux_ops maps_lib lib) linux_start)
          ≡ ok m')
      × ((id : ℕ) (q : List Key) → count_in (tree_of m) id q ≡ count_in (tree_of m') id q)
main_loop-order tree_lib maps_lib lib rounds rs ss p small small' room =
    let (m, run, v, counts) = main_loop-counts tree_lib maps_lib lib rounds rs small room in
    let (m', run', v', counts') =
      main_loop-counts tree_lib maps_lib lib rounds ss small' (rw (Perm-length rs ss p) at room) in
    (
      m,
      m',
      run,
      run',
      λ id q.
          counts id q ∙ ap (λ n. rounds * n) (Perm-records_with rs ss id q p) ∙ sym (counts' id q),
    )
