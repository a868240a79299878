-- ===== src/Callchain/Append/Reading.antt =====
-- append_chain_children of src/lib/linux/callchain.c reads the cursor: it moves the position that is
-- read next, and leaves the chain and the place to write as they are.
use callstack_count.Prelude.{
  ℕ, zero, suc, ◌+◌, ◌-◌, ◌%◌, ◌^◌, ◌≡◌, refl, ◌∙◌, inl, inr, ◌&&◌, List, [], ◌∷◌, ◌==◌, ltb,
  Bool-cases, Option-cases, Run, ok, fault, ◌>>=◌,
}
use callstack_count.RbTree.{RbLibrary, Color}
use callstack_count.Callchain.{CallchainList, ChainKey}
use callstack_count.Callchain.Cursor.{Cursor, callchain_cursor_current, callchain_cursor_advance}
use callstack_count.Callchain.Match.{MatchResult, match_error, match_chain}
use callstack_count.Callchain.Tree.{
  NodeInfo, CallchainNode, callchain_node, Children, nil, rb, inorder,
}
use callstack_count.Callchain.Append.Values.{is_error, is_eq, is_lt, is_gt, MatchResult-cases}
use callstack_count.Callchain.Append.{
  Reader, fill_values, add_child, match_values, Append, Walk, found, failed, missing, left_of,
  right_of, ChildrenDone, inc_children_hit, end_children, split_add_child, second_child, only_child,
  split_child, finish, from_current, append_chain, append_children, append_chain_children,
}

-- The chain of a cursor and the place to write.
pub record IsSameChain (c c' : Cursor) : Type 0 where
  pub same_nr : c'.nr ≡ c.nr
  pub same_nodes : c'.nodes ≡ c.nodes
  pub same_last : c'.last ≡ c.last

pub IsSameChain-self : (c : Cursor) → IsSameChain c c
IsSameChain-self c = record { same_nr = refl; same_nodes = refl; same_last = refl }

pub IsSameChain-trans : (a b c : Cursor) → IsSameChain a b → IsSameChain b c → IsSameChain a c
IsSameChain-trans a b c h k = record {
  same_nr = k.same_nr ∙ h.same_nr;
  same_nodes = k.same_nodes ∙ h.same_nodes;
  same_last = k.same_last ∙ h.same_last;
}

advance-IsSameChain : (c : Cursor) → IsSameChain c (callchain_cursor_advance c)
unfolding callchain_cursor_advance
advance-IsSameChain c = record { same_nr = refl; same_nodes = refl; same_last = refl }

-- What holds of the result, if there is one.
abbrev pub Returns : {A : Type 0} → (A → Type 0) → Run A → Type 0
Returns P (ok a) = P a
Returns P (fault x) = Unit

pub Returns-bind :
    {A B : Type 0} (P : A → Type 0) (Q : B → Type 0) (r : Run A) (f : A → Run B)
    → Returns P r
    → ((a : A) → P a → Returns Q (f a))
    → Returns Q (r >>= f)
Returns-bind P Q (ok a) f h k = k a h
Returns-bind P Q (fault x) f h k = tt

Returns-any : {A : Type 0} (r : Run A) → Returns (λ a. Unit) r
Returns-any (ok a) = tt
Returns-any (fault x) = tt

fill_values-IsSameChain : (fuel : ℕ) (c : Cursor) → IsSameChain c (fill_values fuel c).1
unfolding fill_values
fill_values-IsSameChain zero c = IsSameChain-self c
fill_values-IsSameChain (suc fuel) c = elim (Option-cases (callchain_cursor_current c)) [
  | inl done ↦ rw (fill_values, done) (IsSameChain-self c)
  | inr (n, more) ↦
      rw (fill_values, more)
        (IsSameChain-trans c _ _ (advance-IsSameChain c)
          (fill_values-IsSameChain fuel (callchain_cursor_advance c)))
]

match_values-IsSameChain :
    (key : ChainKey) (cmp : MatchResult) (val : List CallchainList) (c : Cursor)
    → IsSameChain c (match_values key cmp val c).cursor
unfolding match_values
match_values-IsSameChain key cmp [] c = IsSameChain-self c
match_values-IsSameChain key cmp (v ∷ vs) c = elim (Option-cases (callchain_cursor_current c)) [
  | inl done ↦ rw (match_values, done) (IsSameChain-self c)
  | inr (n, more) ↦ elim (MatchResult-cases (match_chain key n v).0) [
    | is_eq h ↦
        rw (more, h, match_values)
          (IsSameChain-trans c _ _ (advance-IsSameChain c)
            (match_values-IsSameChain key (match_chain key n v).0 vs (callchain_cursor_advance c)))
    | is_error h ↦ rw (more, h, match_values) (IsSameChain-self c)
    | is_lt h ↦ rw (more, h, match_values) (IsSameChain-self c)
    | is_gt h ↦ rw (more, h, match_values) (IsSameChain-self c)
  ]
]

-- The cursor of a walk.
abbrev walk_reader : Walk → Reader
walk_reader (found t depth s) = s
walk_reader (failed t s) = s
walk_reader (missing t path s) = s

left_of-reader :
    (c : Color) (n : CallchainNode) (r : Children) (w : Walk)
    → walk_reader (left_of c n r w) ≡ walk_reader w
unfolding left_of
left_of-reader c n r (found t depth s) = refl
left_of-reader c n r (failed t s) = refl
left_of-reader c n r (missing t path s) = refl

right_of-reader :
    (c : Color) (l : Children) (n : CallchainNode) (w : Walk)
    → walk_reader (right_of c l n w) ≡ walk_reader w
unfolding right_of
right_of-reader c l n (found t depth s) = refl
right_of-reader c l n (failed t s) = refl
right_of-reader c l n (missing t path s) = refl

module _ (lib : RbLibrary inorder) (key : ChainKey) (period : ℕ) where
  add_child-IsSameChain : (c : Cursor) → IsSameChain c (add_child period c).1
  unfolding add_child
  add_child-IsSameChain c = fill_values-IsSameChain (c.nr - c.pos) c

  end_children-IsSameChain :
      (info : NodeInfo) (w : Walk)
      → IsSameChain (walk_reader w).cursor (end_children lib key period info w).reader.cursor
  unfolding end_children inc_children_hit
  end_children-IsSameChain info (found t depth s) = IsSameChain-self s.cursor
  end_children-IsSameChain info (failed t s) = IsSameChain-self s.cursor
  end_children-IsSameChain info (missing t path s) = add_child-IsSameChain s.cursor

  split_add_child-IsSameChain :
      (before behind : List CallchainList) (info : NodeInfo) (kids : Children) (c : Cursor)
      (idx_parents idx_local : ℕ)
      → Returns
          (λ p. IsSameChain c p.1)
          (split_add_child lib key period before behind info kids c idx_parents idx_local)
  unfolding split_add_child
  split_add_child-IsSameChain before [] info kids c idx_parents idx_local = tt
  split_add_child-IsSameChain before (v ∷ vs) info kids c idx_parents idx_local =
      let test = ltb ((idx_parents + idx_local) % 2 ^ 32) c.nr in
      elim (Bool-cases test) [
        | inr e ↦ rw (split_add_child, e) (IsSameChain-self c)
        | inl e ↦ elim (Option-cases (callchain_cursor_current c)) [
          | inl done ↦ rw (split_add_child, e, done) tt
          | inr (node, more) ↦
              let linked =
                second_child lib key period node (add_child period c).0
                  (only_child lib key period (split_child (v ∷ vs) idx_local info kids)) in
              rw (split_add_child, e, more)
                (Returns-bind (λ t. Unit {0}) (λ (p : CallchainNode × Cursor). IsSameChain c p.1)
                  linked _ (Returns-any linked) (λ t h. add_child-IsSameChain c))
        ]
      ]

  from_current-IsSameChain :
      (info : NodeInfo) (kids : Children) (s : Reader) (walk : Run Walk)
      → Returns (λ w. IsSameChain s.cursor (walk_reader w).cursor) walk
      → Returns
          (λ d. IsSameChain s.cursor d.reader.cursor)
          (from_current lib key period info kids s walk)
  unfolding from_current
  from_current-IsSameChain info kids s walk h =
      elim (Option-cases (callchain_cursor_current s.cursor)) [
        | inl done ↦ rw (from_current, done) (IsSameChain-self s.cursor)
        | inr (node, more) ↦
            rw (from_current, more)
              (Returns-bind (λ w. IsSameChain s.cursor (walk_reader w).cursor)
                (λ d. IsSameChain s.cursor d.reader.cursor) walk _ h
                (λ w k. IsSameChain-trans s.cursor _ _ k (end_children-IsSameChain info w)))
      ]

  finish-IsSameChain :
      (info : NodeInfo) (kids : Children) (s : Reader) (before behind : List CallchainList)
      (cmp : MatchResult) (c : Cursor) (deeper : Run ChildrenDone)
      → IsSameChain s.cursor c
      → Returns (λ d. IsSameChain c d.reader.cursor) deeper
      → Returns
          (λ a. IsSameChain s.cursor a.reader.cursor)
          (finish lib key period info kids s
            (record { before = before; behind = behind; cmp = cmp; cursor = c })
            deeper)
  unfolding finish
  finish-IsSameChain info kids s [] behind cmp c deeper h k = h
  finish-IsSameChain info kids s (v ∷ vs) behind cmp c deeper h k =
      let P = λ (a : Append). IsSameChain s.cursor a.reader.cursor in
      let matches = (c.pos + 2 ^ 64 - s.cursor.pos) % 2 ^ 64 in
      elim (Bool-cases (ltb matches info.val_nr)) [
        | inl e ↦
            rw (finish, e)
              (Returns-bind (λ p. IsSameChain c p.1) P _ _
                (split_add_child-IsSameChain (v ∷ vs) behind info kids c s.cursor.pos matches)
                (λ p g. IsSameChain-trans s.cursor c _ h g))
        | inr e ↦ elim (Bool-cases (matches == info.val_nr && c.pos == c.nr)) [
          | inl f ↦ rw (finish, e, f) h
          | inr f ↦
              rw (finish, e, f)
                (Returns-bind (λ d. IsSameChain c d.reader.cursor) P deeper _ k
                  (λ d g. IsSameChain-trans s.cursor c _ h g))
        ]
      ]

  mutual
    unfolding append_chain left_of right_of

    append_chain-IsSameChain :
        (n : CallchainNode) (s : Reader)
        → Returns (λ a. IsSameChain s.cursor a.reader.cursor) (append_chain lib key period n s)
    append_chain-IsSameChain (callchain_node val info kids) s =
        let m = match_values key match_error val s.cursor in
        finish-IsSameChain info kids s m.before m.behind m.cmp m.cursor _
          (match_values-IsSameChain key match_error val s.cursor)
          (from_current-IsSameChain info kids (record s { cursor = m.cursor }) _
            (append_children-IsSameChain kids (record s { cursor = m.cursor })))

    append_children-IsSameChain :
        (t : Children) (s : Reader)
        → Returns
            (λ w. IsSameChain s.cursor (walk_reader w).cursor)
            (append_children lib key period t s)
    append_children-IsSameChain nil s = IsSameChain-self s.cursor
    append_children-IsSameChain (rb c l n r) s =
        let P = λ (w : Walk). IsSameChain s.cursor (walk_reader w).cursor in
        Returns-bind (λ a. IsSameChain s.cursor a.reader.cursor) P (append_chain lib key period n s)
          _ (append_chain-IsSameChain n s)
          (λ a h. elim (MatchResult-cases a.result) [
            | is_eq e ↦ rw e h
            | is_error e ↦ rw e h
            | is_lt e ↦ rw e (
                Returns-bind (λ w. IsSameChain a.reader.cursor (walk_reader w).cursor) P _ _
                  (append_children-IsSameChain l a.reader)
                  (λ w k. rw left_of-reader (IsSameChain-trans s.cursor a.reader.cursor _ h k)))
            | is_gt e ↦ rw e (
                Returns-bind (λ w. IsSameChain a.reader.cursor (walk_reader w).cursor) P _ _
                  (append_children-IsSameChain r a.reader)
                  (λ w k. rw right_of-reader (IsSameChain-trans s.cursor a.reader.cursor _ h k)))
          ])

  -- Whatever the tree, append_chain_children leaves the chain of the cursor and the place to write.
  pub append_chain_children-IsSameChain :
      (info : NodeInfo) (kids : Children) (s : Reader)
      → Returns
          (λ d. IsSameChain s.cursor d.reader.cursor)
          (append_chain_children lib key period info kids s)
  unfolding append_chain_children
  append_chain_children-IsSameChain info kids s =
      from_current-IsSameChain info kids s _ (append_children-IsSameChain kids s)
