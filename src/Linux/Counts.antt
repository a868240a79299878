-- ===== src/Linux/Counts.antt =====
-- The backend of src/lib/linux/callstack.c counts stacks: its tree stands for a multiset of chains.
use mathlib.Core.List.{append_assoc, append-nil}
use callstack_count.Prelude.{
  ℕ, zero, suc, ◌+◌, ◌≤◌, ◌<◌, ◌^◌, ◌≡◌, refl, sym, ap, ◌∙◌, inl, inr, true, false, none, List, [],
  ◌∷◌, ◌++◌, arith, ◌==◌, if◌then◌else◌, length, Bool-cases, Run, ok, ◌>>=◌,
}
use callstack_count.RbTree.{RbLibrary, Tree}
use callstack_count.RbTree
use callstack_count.Callchain.{CursorNode, function}
use callstack_count.Callchain.Cursor.{Cursor, callchain_cursor_reset, frames, length-frames}
use callstack_count.Callchain.Cursor.Frames.{reset-IsWritten, frames-reset}
use callstack_count.Callchain.Tree.{inorder, CallchainRoot}
use callstack_count.Callchain.Weight.{Key, occurs}
use callstack_count.Callchain.Append.Values.{frame_keys}
use callstack_count.Callchain.Append.Holding.{length-frame_keys, Holds, append_frame-Holds}
use callstack_count.Callchain.Append.Root.{
  chain_count, chain_total, IsRoot, callchain_append-Appended,
}
use callstack_count.Program.{CallstackEntry}
use callstack_count.Program.Maps.{MapTree, Maps, get_map, AreSmall, get_map-small}
use callstack_count.Linux.{
  LinuxShared, max_stack_entries, map_symbol, build_cursor, append_cursor, insert,
}

-- The chain of a stack: the entries of its array up to the first whose ip is 0.
unfoldable pub chain_of : ℕ → List CallstackEntry → List Key
chain_of zero stack = []
chain_of (suc left) [] = []
chain_of (suc left) (e ∷ stack) =
    let rest = chain_of left stack in if e.ip == 0 then [] else (e.map_id, e.ip) ∷ rest

-- A stack whose map ids fit in 32 bits.
abbrev pub HasSmallMaps : List CallstackEntry → Type 0
HasSmallMaps [] = Unit
HasSmallMaps (e ∷ stack) = (e.map_id < 2 ^ 32) × HasSmallMaps stack

-- What inserting a chain adds to the count of a chain. An empty chain is not inserted, so the empty
-- chain counts as none.
unfoldable pub added : List Key → List Key → ℕ
added [] q = 0
added (k ∷ ks) q = occurs (k ∷ ks) q

-- How many of the stacks have the chain, where the empty chain counts as none.
pub stacks_with : List (List CallstackEntry) → List Key → ℕ
stacks_with [] q = 0
stacks_with (stack ∷ stacks) q = added (chain_of max_stack_entries stack) q + stacks_with stacks q

abbrev pub AllSmall : List (List CallstackEntry) → Type 0
AllSmall [] = Unit
AllSmall (stack ∷ stacks) = HasSmallMaps stack × AllSmall stacks

length-chain_of : (left : ℕ) (stack : List CallstackEntry) → length (chain_of left stack) ≤ left
unfolding chain_of
length-chain_of zero stack = omega arith
length-chain_of (suc left) [] = omega arith
length-chain_of (suc left) (e ∷ stack) = ground (arith, length-chain_of left stack)

module _ (maps_lib : RbLibrary {T = Tree MapTree} callstack_count.RbTree.inorder)
    (lib : RbLibrary inorder) where
  -- The loop writes the chain of the stack behind what the cursor holds.
  build_cursor-Holds :
      (left : ℕ) (stack : List CallstackEntry) (m : Maps) (c : Cursor) (keys : List Key)
      → HasSmallMaps stack
      → AreSmall m
      → Holds function c keys
      → AreSmall (build_cursor maps_lib lib left stack m c).0
        × Holds function (build_cursor maps_lib lib left stack m c).1 (keys ++ chain_of left stack)
  unfolding build_cursor chain_of
  build_cursor-Holds zero stack m c keys small own h = (own, rw (append-nil keys) h)
  build_cursor-Holds (suc left) [] m c keys small own h = (own, rw (append-nil keys) h)
  build_cursor-Holds (suc left) (e ∷ stack) m c keys small own h = elim (Bool-cases (e.ip == 0)) [
    | inl stop ↦ rw (stop, append-nil keys) (own, h)
    | inr more ↦
        let (same, own') = get_map-small maps_lib e.map_id m small.0 own in
        let ms = (get_map maps_lib e.map_id m).0 in
        let step = append_frame-Holds function c keys e.ip (map_symbol ms) none h (λ k. cc) refl in
        let ih =
          build_cursor-Holds left stack (get_map maps_lib e.map_id m).1 _ _ small.1 own' step in
        let key : ◌≡◌ {A = Key} (ms, e.ip) (e.map_id, e.ip) = ap (λ k. (k, e.ip)) same in
        rw more
          (ih.0, rw (← append_assoc keys ((e.map_id, e.ip) ∷ []) (chain_of left stack), ← key) ih.1)
  ]

  -- What inserting a stack does: it succeeds, and changes the count of one chain.
  pub record Inserted (tree tree' : CallchainRoot) (g' : LinuxShared) (keys : List Key)
      : Type 0 where
    pub is_root : IsRoot tree'
    pub small : AreSmall g'.maps
    pub counts : (q : List Key) → chain_count tree' q ≡ chain_count tree q + added keys q
    pub totals : chain_total tree' ≤ chain_total tree + 1

  append_cursor-Inserted :
      (tree : CallchainRoot) (g : LinuxShared) (keys : List Key) (fs : List CursorNode)
      → IsRoot tree
      → AreSmall g.maps
      → Holds function g.reader.cursor keys
      → frames g.reader.cursor ≡ fs
      → length keys ≤ max_stack_entries
      → chain_total tree + 1 < 2 ^ 32
      → (tree' : CallchainRoot) × (g' : LinuxShared) × (append_cursor maps_lib lib tree g
          ≡ ok (tree', g'))
        × Inserted tree tree' g' keys
  unfolding append_cursor added
  append_cursor-Inserted tree g keys [] ir own h e short room =
      let none_written : (g.reader.cursor.nr == 0) ≡ true =
        ground (arith, length-frames g.reader.cursor h.written, ap length e) in
      let empty : [] ≡ keys = (sym (ap frame_keys e)) ∙ h.keys_eq in
      (
        tree,
        g,
        rw none_written refl,
        record {
          is_root = ir;
          small = own;
          counts = λ q. rw (← empty) (omega arith);
          totals = omega arith;
        },
      )
  append_cursor-Inserted tree g keys (x ∷ p) ir own h e short room =
      let some_written : (g.reader.cursor.nr == 0) ≡ false =
        ground (arith, length-frames g.reader.cursor h.written, ap length e) in
      let same : frame_keys (x ∷ p) ≡ keys = (sym (ap frame_keys e)) ∙ h.keys_eq in
      let few : g.reader.cursor.nr < 2 ^ 32 = omega (
        arith,
        short,
        ap length h.keys_eq,
        length-frame_keys (frames g.reader.cursor),
        length-frames g.reader.cursor h.written,
      ) in
      let (tree', s', run, done) =
        callchain_append-Appended lib function 0 tree g.reader x p ir h.written e (rw e at h.plain)
          few room in
      (
        tree',
        record g { reader = s' },
        rw (some_written, run, ◌>>=◌),
        record {
          is_root = done.is_root;
          small = own;
          counts = λ q. rw (← same) (done.counts q);
          totals = omega (arith, done.totals);
        },
      )

  -- Inserting a stack whose map ids fit in 32 bits succeeds, counts its chain once more, and
  -- every other chain as before.
  pub insert-Inserted :
      (tree : CallchainRoot) (stack : List CallstackEntry) (g : LinuxShared)
      → IsRoot tree
      → AreSmall g.maps
      → HasSmallMaps stack
      → chain_total tree + 1 < 2 ^ 32
      → (tree' : CallchainRoot) × (g' : LinuxShared) × (insert maps_lib lib tree stack g
          ≡ ok (tree', g'))
        × Inserted tree tree' g' (chain_of max_stack_entries stack)
  unfolding insert
  insert-Inserted tree stack g ir own small room =
      let c = callchain_cursor_reset g.reader.cursor in
      let none_yet : Holds function c [] = record {
        written = reset-IsWritten g.reader.cursor;
        plain = rw (frames-reset g.reader.cursor) tt;
        keys_eq = ap frame_keys (frames-reset g.reader.cursor);
      } in
      let (own', held) =
        build_cursor-Holds max_stack_entries stack g.maps c [] small own none_yet in
      append_cursor-Inserted tree _ (chain_of max_stack_entries stack) _ ir own' held refl
        (length-chain_of max_stack_entries stack) room

  -- Inserting a sequence of stacks into one tree.
  unfoldable pub insert_all :
      CallchainRoot → List (List CallstackEntry) → LinuxShared → Run (CallchainRoot × LinuxShared)
  insert_all tree [] g = ok (tree, g)
  insert_all tree (stack ∷ stacks) g =
      insert maps_lib lib tree stack g >>= λ p. insert_all p.0 stacks p.1

  -- Where the entries that get_map has so far hold the map_symbols of their own ids, these ids and the
  -- map ids of the stacks are below 2 ^ 32, the tree is formed, and fewer than 2 ^ 32 chains come
  -- together, inserting the stacks in turn succeeds, the tree is formed again, and the count of each
  -- chain has grown by the number of stacks that have it, where the empty chain counts as none.
  pub insert_all-counts :
      (tree : CallchainRoot) (stacks : List (List CallstackEntry)) (g : LinuxShared)
      → IsRoot tree
      → AreSmall g.maps
      → AllSmall stacks
      → chain_total tree + length stacks < 2 ^ 32
      → (tree' : CallchainRoot) × (g' : LinuxShared) × (insert_all tree stacks g ≡ ok (tree', g'))
        × IsRoot tree'
        × ((q : List Key) → chain_count tree' q ≡ chain_count tree q + stacks_with stacks q)
  unfolding insert_all stacks_with
  insert_all-counts tree [] g ir own small room = (tree, g, refl, ir, λ q. omega arith)
  insert_all-counts tree (stack ∷ stacks) g ir own small room =
      let (t1, g1, run, done) = insert-Inserted tree stack g ir own small.0 (omega (arith, room)) in
      let (t2, g2, run2, ir2, counts) =
        insert_all-counts t1 stacks g1 done.is_root done.small small.1
          (omega (arith, room, done.totals)) in
      (t2, g2, rw (run, ◌>>=◌) run2, ir2, λ q. omega (arith, counts q, done.counts q))
