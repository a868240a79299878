-- ===== src/Callchain/Merge/Steps.antt =====
-- One step of merge_chain_branch of src/lib/linux/callchain.c, and the counts that it adds.
use callstack_count.Prelude.{
  List-cases, ℕ, ◌+◌, ◌<◌, ◌^◌, ◌≡◌, refl, sym, ap, ◌∙◌, ◌⊎◌, inl, inr, true, false, Option, none,
  some, List, [], ◌∷◌, ◌++◌, map, arith, ◌==◌, if◌then◌else◌, length, Bool-cases, Run, ok, fault,
  ◌>>=◌,
}
use callstack_count.RbTree.{RbLibrary}
use callstack_count.Callchain.{CallchainList, ChainKey}
use callstack_count.Callchain.Cursor.{Cursor, callchain_cursor_commit, frames, length-frames}
use callstack_count.Callchain.Tree.{
  NodeInfo, CallchainNode, callchain_node, Children, nil, rb, inorder, val_of,
}
use callstack_count.Callchain.Match.{entry_key}
use callstack_count.Callchain.Weight.{
  Key, strip, below, at_end, occurs, weight_children, total_children, AreFormed, strip-append,
  below_add,
}
use callstack_count.Callchain.Append.{ChildrenDone}
use callstack_count.Callchain.Append.Values.{frame_keys, entry_keys}
use callstack_count.Callchain.Append.Reading.{append_chain_children-IsSameChain}
use callstack_count.Callchain.Append.Holding.{Holds}
use callstack_count.Callchain.Append.Root.{append_chain_children-ChildrenGrow}
use callstack_count.Callchain.Merge.Writing.{length-Holds, restore-Holds, same-Holds}
use callstack_count.Callchain.Merge.{restore, unless_failed, append_hits}

-- 1 for a node with hits.
unfoldable pub marked : NodeInfo → ℕ
marked info = if info.hit == 0 then 0 else 1

-- How many nodes with hits spell a chain.
unfoldable mutual
  pub chains_with_hits : CallchainNode → List Key → ℕ
  chains_with_hits (callchain_node val info kids) q =
      below (strip (map entry_key val) q)
        (λ rest. at_end rest (marked info) + chains_in_children kids rest)

  pub chains_in_children : Children → List Key → ℕ
  chains_in_children nil q = 0
  chains_in_children (rb c l n r) q =
      chains_in_children l q + (chains_with_hits n q + chains_in_children r q)

-- How many nodes have hits.
unfoldable mutual
  pub nodes_with_hits : CallchainNode → ℕ
  nodes_with_hits (callchain_node val info kids) = marked info + hits_in_children kids

  pub hits_in_children : Children → ℕ
  hits_in_children nil = 0
  hits_in_children (rb c l n r) = hits_in_children l + (nodes_with_hits n + hits_in_children r)

-- No chain from here on is longer, and every node below holds an entry.
unfoldable mutual
  pub IsWithin : ℕ → CallchainNode → Type 0
  IsWithin used (callchain_node val info kids) =
      (used + length val < 2 ^ 31) × AreWithin (used + length val) kids

  pub AreWithin : ℕ → Children → Type 0
  AreWithin used nil = Unit
  AreWithin used (rb c l n r) =
      AreWithin used l × (IsWithin used n × (0 < length (val_of n))) × AreWithin used r

below_none : (o : Option (List Key)) → below o (λ rest. at_end rest 0) ≡ 0
below_none none = refl
below_none (some []) = refl
below_none (some (k ∷ ks)) = refl

unless_succeeded :
    (d : ChildrenDone) (next : ChildrenDone → Run ChildrenDone)
    → d.success ≡ true
    → unless_failed d next ≡ next d
unfolding unless_failed
unless_succeeded d next e = ap (λ b. if b then next d else ok d) e

unless_stopped :
    (d : ChildrenDone) (next : ChildrenDone → Run ChildrenDone)
    → d.success ≡ false
    → unless_failed d next ≡ ok d
unfolding unless_failed
unless_stopped d next e = ap (λ b. if b then next d else ok d) e

-- The assignments behind the loop, where nothing failed.
pub restored :
    (old : Cursor) (first : Run ChildrenDone) (next : ChildrenDone → Run ChildrenDone)
    (d2 : ChildrenDone)
    → (first >>= λ d1. unless_failed d1 next) ≡ ok d2
    → d2.success ≡ true
    → (first >>= λ d1. unless_failed d1 (λ d. next d >>= λ d3.
        ok (record d3 { reader = record d3.reader { cursor = restore old d3.reader.cursor } })))
      ≡ ok (record d2 { reader = record d2.reader { cursor = restore old d2.reader.cursor } })
restored old (fault x) next d2 run e = cc
restored old (ok d1) next d2 run e = elim (Bool-cases d1.success) [
  | inl done ↦
      let ran : next d1 ≡ ok d2 = sym (unless_succeeded d1 next done) ∙ run in
      unless_succeeded d1 _ done ∙ rw (ran, ◌>>=◌) refl
  | inr failed ↦
      let same : ok d1 ≡ ok d2 = sym (unless_stopped d1 next failed) ∙ run in
      absurd (
        let whole : d1 ≡ d2 = cc in
        let bad : true ≡ false =
          sym e ∙ sym (ap (λ (d : ChildrenDone). d.success) whole) ∙ failed in
        cc)
]

pub below_zero : (o : Option (List Key)) → below o (λ rest. 0) ≡ 0
below_zero none = refl
below_zero (some rest) = refl

module _ (lib : RbLibrary inorder) (key : ChainKey) where
  -- What a step does below a prefix `keys` that the cursor holds: it adds `n` chains, `f rest` times
  -- the chain `keys ++ rest`, and the cursor holds the prefix again.
  pub record Merged (d d' : ChildrenDone) (keys : List Key) (n : ℕ) (f : List Key → ℕ)
      : Type 0 where
    pub success : d'.success ≡ true
    pub formed : AreFormed d'.children
    pub weighs :
        (q : List Key)
        → weight_children d'.children q ≡ weight_children d.children q + below (strip keys q) f
    pub totals : total_children d'.children ≡ total_children d.children + n
    pub holds : Holds key d'.reader.cursor keys

  abbrev pub Merges : ChildrenDone → Run ChildrenDone → List Key → ℕ → (List Key → ℕ) → Type 0
  Merges d run keys n f = (d' : ChildrenDone) × (run ≡ ok d') × Merged d d' keys n f

  -- The destination before a step.
  pub record IsReady (d : ChildrenDone) (keys : List Key) (n : ℕ) : Type 0 where
    pub success : d.success ≡ true
    pub formed : AreFormed d.children
    pub holds : Holds key d.reader.cursor keys
    pub room : total_children d.children + n < 2 ^ 32

  pub Merges-then :
      (d : ChildrenDone) (run : Run ChildrenDone) (next : ChildrenDone → Run ChildrenDone)
      (keys : List Key) (n m : ℕ) (f g : List Key → ℕ)
      → total_children d.children + (n + m) < 2 ^ 32
      → Merges d run keys n f
      → ((d1 : ChildrenDone) → IsReady d1 keys m → Merges d1 (next d1) keys m g)
      → Merges d (run >>= λ d1. unless_failed d1 next) keys (n + m) (λ rest. f rest + g rest)
  Merges-then d run next keys n m f g room (d1, ran, h) after =
      let (d2, ran', k) = after d1 (record {
        success = h.success;
        formed = h.formed;
        holds = h.holds;
        room = omega (arith, h.totals, room);
      }) in
      (
        d2,
        rw (ran, ◌>>=◌) (unless_succeeded d1 next h.success ∙ ran'),
        record {
          success = k.success;
          formed = k.formed;
          weighs = λ q. omega (
            arith,
            h.weighs q,
            k.weighs q,
            below_add (strip keys q) (λ rest. f rest + g rest) f g (λ rest. refl),
          );
          totals = omega (arith, h.totals, k.totals);
          holds = k.holds;
        },
      )

  pub append_hits-Merges :
      (info : NodeInfo) (d : ChildrenDone) (keys : List Key)
      → IsReady d keys (marked info)
      → (info.hit ≡ 0) ⊎ (0 < length keys)
      → length keys < 2 ^ 31
      → Merges d
          (append_hits lib key info.hit d)
          keys
          (marked info)
          (λ rest. at_end rest (marked info))
  unfolding append_hits marked occurs
  append_hits-Merges info d keys ready long small = elim (Bool-cases (info.hit == 0)) [
    | inl e ↦ (
      d,
      rw (append_hits, e) refl,
      record {
        success = ready.success;
        formed = ready.formed;
        weighs = λ q. rw (marked, e) (omega (arith, below_none (strip keys q)));
        totals = rw (marked, e) (omega arith);
        holds = ready.holds;
      },
    )
    | inr e ↦
        let nr = length-Holds key d.reader.cursor keys ready.holds in
        let one : marked info ≡ 1 = rw (marked, e) refl in
        elim (List-cases (frames d.reader.cursor)) [
          | inl none_held ↦
              let len : length (frames d.reader.cursor) ≡ 0 = ap length none_held in
              absurd (elim long [
                | inl h ↦ ground (arith, e, h)
                | inr h ↦
                    omega (arith, h, len, nr, length-frames d.reader.cursor ready.holds.written)
              ])
          | inr (x, p, held) ↦
              let (d', run, done, g) =
                append_chain_children-ChildrenGrow lib key info.hit d.info d.children d.reader x p
                  ready.formed ready.holds.written held (rw held at ready.holds.plain)
                  (omega (arith, nr, small)) (omega (arith, one, ready.room)) in
              let kept =
                append_chain_children-IsSameChain lib key info.hit d.info d.children
                  (record d.reader { cursor = callchain_cursor_commit d.reader.cursor }) in
              let same = rw run at kept in
              let spelt : frame_keys (x ∷ p) ≡ keys =
                ap frame_keys (sym held) ∙ ready.holds.keys_eq in
              (
                d',
                rw (append_hits, e) run,
                record {
                  success = done;
                  formed = g.formed;
                  weighs = λ q. rw (marked, e) (g.weighs q ∙ rw (spelt, occurs) refl);
                  totals = rw (marked, e) g.totals;
                  holds = same-Holds key d.reader.cursor d'.reader.cursor keys same ready.holds;
                },
              )
        ]
  ]

  -- From below the entries of a node back to where the node hangs.
  pub Merged-up :
      (d d1 d2 : ChildrenDone) (keys : List Key) (val : List CallchainList) (n : ℕ)
      (f : List Key → ℕ)
      → d1.children ≡ d.children
      → Holds key d.reader.cursor keys
      → length keys < 2 ^ 31
      → Merged d1 d2 (keys ++ entry_keys val) n f
      → Merged d
          (record d2 {
            reader = record d2.reader { cursor = restore d.reader.cursor d2.reader.cursor };
          })
          keys
          n
          (λ q. below (strip (entry_keys val) q) f)
  Merged-up d d1 d2 keys val n f same h small m = record {
    success = m.success;
    formed = m.formed;
    weighs = λ q.
        m.weighs q
        ∙ ap (λ t. weight_children t q + below (strip (keys ++ entry_keys val) q) f) same
        ∙ ap (λ k. weight_children d.children q + k) (strip-append keys (entry_keys val) q f);
    totals = m.totals ∙ ap (λ t. total_children t + n) same;
    holds =
        restore-Holds key d.reader.cursor d2.reader.cursor keys (entry_keys val) h m.holds small;
  }
