-- ===== src/Art/Insert/Two.antt =====
-- do_leaf of src/lib/art/art.c at the leaf of another stream: what insert makes of two streams whose
-- common prefix fits in one node.
use callstack_count.Prelude.{
  ℕ, suc, ◌+◌, ◌-◌, ◌%◌, ◌^◌, ◌≤◌, ◌<◌, ◌≡◌, ◌≢◌, refl, sym, ap, ◌∙◌, true, false, ◌&&◌, some, [],
  ◌∷◌, arith, ◌==◌, ok, ◌>>=◌,
}
use callstack_count.Art.{
  Stream, Node, inner_4, alloc_node, is_leaf, is_leaf_flags, find_key, find_child, make_leaf,
  check_prefix, stream_get, stream_size, update,
}
use callstack_count.Art.Insert.{
  ArtState, at_root, load_node, store_node, push_node, replace, add_child_at, end_leaf, insert,
}
use callstack_count.Art.Insert.Counts.{leaf_tree, memcmp_self}
use callstack_count.Art.Insert.Search.{search, search_child, leaf_matches}
use callstack_count.Art.Insert.Fork.{
  HaveCommon, prefixed, prefixed-IsPrefixed, first_child, second_child, insert-leaf_tree,
  do_leaf-end_leaf, two_heap, check_prefix_all,
}

-- Both streams go on behind the common prefix.
abbrev both_children : Stream → Stream → ℕ → Node ℕ
both_children s t m = record (prefixed t m) {
  key = update (update (prefixed t m).key 0 (s.data_bytes (0 + m))) 1 (t.data_bytes (0 + m));
  arr = update (update (prefixed t m).arr 0 (some 0)) 1 (some 2);
  key_len = 2;
}

end_leaf_both :
    (s t : Stream) (c m : ℕ)
    → s.data_bytes m ≢ t.data_bytes m
    → m < s.size
    → m < t.size
    → s.size < 2 ^ 32
    → t.size < 2 ^ 32
    → end_leaf
        (record (make_leaf s) { count = c })
        0
        t
        0
        m
        (record {
          link = at_root;
          new_node = 1;
          prefix_remaining = m;
          state = push_node (alloc_node inner_4) (leaf_tree s c);
        })
      ≡ ok (two_heap s c (both_children s t m) (make_leaf t ∷ []))
unfolding end_leaf load_node store_node push_node replace add_child_at make_leaf stream_size
end_leaf_both s t c m apart hs ht ss st =
    let p = prefixed-IsPrefixed t m in
    let ks : ((s.size + 2 ^ 32 - 0) % 2 ^ 32 == m) ≡ false = ground (arith, hs, ss) in
    let kt : ((t.size + 2 ^ 32 - 0) % 2 ^ 32 == m) ≡ false = ground (arith, ht, st) in
    let z : 0 + m ≡ m = omega arith in
    let apart' : s.data_bytes (0 + m) ≢ t.data_bytes (0 + m) = rw z apart in
    let one = first_child (prefixed t m) (s.data_bytes (0 + m)) 0 p.kind p.fresh in
    let n1 : Node ℕ = record (prefixed t m) {
      key = update (prefixed t m).key 0 (s.data_bytes (0 + m));
      arr = update (prefixed t m).arr 0 (some 0);
      key_len = 1;
    } in
    let two = second_child n1 (t.data_bytes (0 + m)) 2 p.kind refl apart' in
    rw (ks, kt, one, ◌>>=◌, two) refl

-- search at an inner node with two children whose prefix the stream has.
search-inner_4 :
    (s : Stream) (st : ArtState) (n : Node ℕ) (m fuel i : ℕ)
    → load_node 1 st ≡ ok n
    → n.flags ≡ inner_4
    → n.key_len ≡ 2
    → check_prefix n s 0 ≡ n.prefix_len
    → n.prefix_len ≡ m
    → m < s.size
    → find_key n.key (s.data_bytes (0 + m)) 0 2 ≡ some i
    → search (suc fuel) (some 1) s 0 st ≡ search fuel (n.arr i) s (0 + m + 1) st
unfolding search search_child is_leaf is_leaf_flags find_child stream_get stream_size
search-inner_4 s st n m fuel i at_n kind two same len fits found =
    let whole : (check_prefix n s 0 == n.prefix_len) ≡ true = ground (arith, same) in
    let more : (0 + m == s.size) ≡ false = ground (arith, fits) in
    rw (at_n, ◌>>=◌, whole, kind, len, more, two, found) refl

search-leaf :
    (s : Stream) (st : ArtState) (p c fuel d : ℕ)
    → load_node p st ≡ ok (record (make_leaf s) { count = c })
    → search (suc fuel) (some p) s d st ≡ ok (some (some p))
unfolding search is_leaf is_leaf_flags make_leaf alloc_node leaf_matches stream_size
search-leaf s st p c fuel d e =
    let same : (s.size == s.size) ≡ true = ground arith in rw (e, ◌>>=◌, same, memcmp_self) refl

key_first :
    (s t : Stream) (m : ℕ) → find_key (both_children s t m).key (s.data_bytes (0 + m)) 0 2 ≡ some 0
unfolding find_key
key_first s t m =
    let same : (s.data_bytes (0 + m) == s.data_bytes (0 + m)) ≡ true = ground arith in rw same refl

key_second :
    (s t : Stream) (m : ℕ)
    → s.data_bytes m ≢ t.data_bytes m
    → find_key (both_children s t m).key (t.data_bytes (0 + m)) 0 2 ≡ some 1
unfolding find_key
key_second s t m apart =
    let z : 0 + m ≡ m = omega arith in
    let apart' : s.data_bytes (0 + m) ≢ t.data_bytes (0 + m) = rw z apart in
    let other : (s.data_bytes (0 + m) == t.data_bytes (0 + m)) ≡ false = ground (arith, apart') in
    let same : (t.data_bytes (0 + m) == t.data_bytes (0 + m)) ≡ true = ground arith in
    rw (other, same) refl

-- A second stream that leaves the first before the end of either, behind a common prefix of at most
-- 128 bytes: insert into the leaf of the first succeeds, and afterwards search finds for each stream
-- the leaf with its bytes, for the first with the count it had and for the second with count 0.
pub insert-search :
    (s t : Stream) (c m : ℕ)
    → HaveCommon s t m
    → m < s.size
    → m < t.size
    → m ≤ 128
    → s.size < 2 ^ 32
    → t.size < 2 ^ 32
    → (st : ArtState) × (insert t (leaf_tree s c) ≡ ok (some st))
      × (search (s.size + 1) st.root s 0 st ≡ ok (some (some 0)))
      × (load_node 0 st ≡ ok (record (make_leaf s) { count = c }))
      × (search (t.size + 1) st.root t 0 st ≡ ok (some (some 2)))
      × (load_node 2 st ≡ ok (make_leaf t))
unfolding load_node make_leaf alloc_node
insert-search s t c m h hs ht short ss st =
    let n = both_children s t m in
    let p = prefixed-IsPrefixed t m in
    let two = two_heap s c n (make_leaf t ∷ []) in
    let apart : s.data_bytes m ≢ t.data_bytes m = h.longest (ground (arith, hs, ht)) in
    let differ : (m == t.size && m == s.size) ≡ false = ground (arith, hs) in
    let run =
      insert-leaf_tree s t c two
        (do_leaf-end_leaf s t c m h differ short ∙ end_leaf_both s t c m apart hs ht ss st) in
    let in_s =
      check_prefix_all n s m p.long (λ i l. p.bytes i l ∙ sym (h.equal i l)) (omega (arith, hs))
        ss in
    let in_t = check_prefix_all n t m p.long p.bytes (omega (arith, ht)) st in
    let es : s.size + 1 ≡ suc (suc (s.size - 1)) = omega (arith, hs) in
    let et : t.size + 1 ≡ suc (suc (t.size - 1)) = omega (arith, ht) in
    (
      two,
      run,
      ap (λ k. search k (some 1) s 0 two) es
          ∙ search-inner_4 s two n m (suc (s.size - 1)) 0 refl p.kind refl (in_s ∙ sym p.long)
              p.long hs (key_first s t m)
          ∙ search-leaf s two 0 c (s.size - 1) (0 + m + 1) refl,
      refl,
      ap (λ k. search k (some 1) t 0 two) et
          ∙ search-inner_4 t two n m (suc (t.size - 1)) 1 refl p.kind refl (in_t ∙ sym p.long)
              p.long ht (key_second s t m apart)
          ∙ search-leaf t two 2 0 (t.size - 1) (0 + m + 1) refl,
      refl,
    )
