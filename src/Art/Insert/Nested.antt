-- ===== src/Art/Insert/Nested.antt =====
-- do_leaf of src/lib/art/art.c at the leaf of a stream that the new one extends.
use callstack_count.Prelude.{
  ℕ, suc, ◌+◌, ◌-◌, ◌%◌, ◌^◌, ◌≤◌, ◌<◌, ◌≡◌, refl, sym, ap, ◌∙◌, true, false, ◌&&◌, some, [], ◌∷◌,
  arith, ◌==◌, ok, ◌>>=◌,
}
use callstack_count.Art.{
  Stream, Node, inner_4, alloc_node, is_leaf, is_leaf_flags, make_leaf, check_prefix, stream_size,
  update,
}
use callstack_count.Art.Insert.{
  ArtState, at_root, load_node, store_node, push_node, replace, add_child_at, end_leaf, insert,
}
use callstack_count.Art.Insert.Counts.{leaf_tree}
use callstack_count.Art.Insert.Search.{search}
use callstack_count.Art.Insert.Fork.{
  HaveCommon, prefixed, prefixed-IsPrefixed, first_child, insert-leaf_tree, do_leaf-end_leaf,
  two_heap, check_prefix_all,
}

-- Only the new stream goes on behind the common prefix.
abbrev one_child : Stream → ℕ → Node ℕ
one_child t m = record (prefixed t m) {
  key = update (prefixed t m).key 0 (t.data_bytes (0 + m));
  arr = update (prefixed t m).arr 0 (some 2);
  key_len = 1;
}

end_leaf_nested :
    (s t : Stream) (c : ℕ)
    → s.size < t.size
    → t.size < 2 ^ 32
    → end_leaf
        (record (make_leaf s) { count = c })
        0
        t
        0
        s.size
        (record {
          link = at_root;
          new_node = 1;
          prefix_remaining = s.size;
          state = push_node (alloc_node inner_4) (leaf_tree s c);
        })
      ≡ ok (two_heap s c (one_child t s.size) (make_leaf t ∷ []))
unfolding end_leaf load_node store_node push_node replace add_child_at make_leaf stream_size
end_leaf_nested s t c less st =
    let m = s.size in
    let p = prefixed-IsPrefixed t m in
    let ks : ((s.size + 2 ^ 32 - 0) % 2 ^ 32 == m) ≡ true = ground (arith, less, st) in
    let kt : ((t.size + 2 ^ 32 - 0) % 2 ^ 32 == m) ≡ false = ground (arith, less, st) in
    let one = first_child (prefixed t m) (t.data_bytes (0 + m)) 2 p.kind p.fresh in
    rw (ks, kt, ◌>>=◌, one) refl

-- search of a stream that ends with the prefix of an inner node gives that node.
search-whole_prefix :
    (s : Stream) (st : ArtState) (n : Node ℕ) (fuel : ℕ)
    → load_node 1 st ≡ ok n
    → n.flags ≡ inner_4
    → check_prefix n s 0 ≡ n.prefix_len
    → n.prefix_len ≡ s.size
    → search (suc fuel) (some 1) s 0 st ≡ ok (some (some 1))
unfolding search is_leaf is_leaf_flags stream_size
search-whole_prefix s st n fuel at_n kind same len =
    let whole : (check_prefix n s 0 == n.prefix_len) ≡ true = ground (arith, same) in
    let done : (0 + n.prefix_len == s.size) ≡ true = ground (arith, len) in
    rw (at_n, ◌>>=◌, whole, kind, done) refl

-- Where the stream of the leaf has at most 128 bytes and is a proper prefix of a second stream, insert
-- of the second succeeds but leaves the leaf out of the tree: whatever its count was, search of the
-- first stream then gives the new inner node, whose count is 0.
pub insert-forgets :
    (s t : Stream) (c : ℕ)
    → HaveCommon s t s.size
    → s.size < t.size
    → s.size ≤ 128
    → t.size < 2 ^ 32
    → (st : ArtState) × (n : Node ℕ) × (insert t (leaf_tree s c) ≡ ok (some st))
      × (search (s.size + 1) st.root s 0 st ≡ ok (some (some 1)))
      × (load_node 1 st ≡ ok n)
      × (n.flags ≡ inner_4)
      × (n.count ≡ 0)
unfolding load_node
insert-forgets s t c h less short small =
    let m = s.size in
    let n = one_child t m in
    let p = prefixed-IsPrefixed t m in
    let two = two_heap s c n (make_leaf t ∷ []) in
    let differ : (m == t.size && m == s.size) ≡ false = ground (arith, less) in
    let run =
      insert-leaf_tree s t c two
        (do_leaf-end_leaf s t c m h differ short ∙ end_leaf_nested s t c less small) in
    let found =
      check_prefix_all n s m p.long (λ i l. p.bytes i l ∙ sym (h.equal i l)) (omega arith)
        (omega (arith, less, small)) in
    let next : s.size + 1 ≡ suc s.size = omega arith in
    (
      two,
      n,
      run,
      ap (λ k. search k (some 1) s 0 two) next
          ∙ search-whole_prefix s two n s.size refl p.kind (found ∙ sym p.long) p.long,
      refl,
      p.kind,
      p.uncounted,
    )
