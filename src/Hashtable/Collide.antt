-- ===== src/Hashtable/Collide.antt =====
-- The assertion of __hash_insert in src/lib/hashtable/hashtable.c, in an expansion of the table.
use mathlib.Core.Path.{fun_ext}
use callstack_count.Prelude.{
  ℕ, ◌≡◌, refl, ap, ◌∙◌, sym, inl, inr, true, false, Option, none, some, List, [], ◌∷◌, ◌++◌, arith,
  ◌==◌, leb, ltb, take, Bool-cases, Option-cases, Run, ok, fault, assertion, ◌>>=◌,
}
use callstack_count.Hashtable.{
  Stream, Bucket, HashState, max_internal, load, stream_len, memcmp_zero, set_slot, find_internal,
  hash_insert_slow, insert_keys, expand, hash_insert,
}
use callstack_count.Hashtable.Slow.{
  slot_of, with_new, slow_new, hash_insert_slow-taken, HaveKeys, AreApart, HaveOwnSlots, AreFree,
}

bind_ok : {A : Type 0} → (r : Run A) → r >>= (λ x. ok x) ≡ r
bind_ok (ok x) = refl
bind_ok (fault x) = refl

bind_assoc : {A : Type 0} → (r : Run A) (f g : A → Run A) → (r >>= f) >>= g ≡ r >>= λ x. f x >>= g
bind_assoc (ok x) f g = refl
bind_assoc (fault x) f g = refl

module _ (bytes : ℕ → ℕ) (streams : ℕ → Option Stream) (jhash : List ℕ → ℕ → ℕ) where
  -- The bytes from the begin of a key are not those of any of the streams, over its length.
  abbrev pub IsUnlike : Stream → List (ℕ × Stream) → Type 0
  IsUnlike k [] = Unit
  IsUnlike k (t ∷ ts) =
      (memcmp_zero bytes streams jhash k.begin t.1.begin (stream_len t.1) ≡ false) × IsUnlike k ts

  -- So it is for each key and the streams behind it.
  abbrev pub AreUnlike : List (ℕ × Stream) → Type 0
  AreUnlike [] = Unit
  AreUnlike (k ∷ ks) = IsUnlike k.1 ks × AreUnlike ks

  -- The slots hold live keys that are unlike the streams to come.
  abbrev HoldOthers : (ℕ → Option Bucket) → List (ℕ × Stream) → Type 0
  HoldOthers slots ks =
      (h : ℕ) (b : Bucket)
      → slots h ≡ some b
      → (q : ℕ) × (k : Stream) × (b.key ≡ some q) × (streams q ≡ some k) × IsUnlike k ks

  AreFree-unset :
      (slots : ℕ → Option Bucket) (h : ℕ) (b : Bucket) (ks : List (ℕ × Stream))
      → AreFree bytes streams jhash (set_slot bytes streams jhash slots h b) ks
      → AreApart bytes streams jhash h ks × AreFree bytes streams jhash slots ks
  AreFree-unset slots h b [] f = (tt, tt)
  AreFree-unset slots h b (k ∷ ks) f =
      let (apart, free) = AreFree-unset slots h b ks f.1 in
      elim (Bool-cases (slot_of bytes streams jhash k.1 == h)) [
        | inl same ↦ absurd (ground (arith, same, f.0))
        | inr other ↦ ((ground (arith, other), apart), (ground (arith, other, f.0), free))
      ]

  HoldOthers-set :
      (slots : ℕ → Option Bucket) (k : ℕ × Stream) (ks : List (ℕ × Stream))
      → streams k.0 ≡ some k.1
      → IsUnlike k.1 ks
      → HoldOthers slots (k ∷ ks)
      → HoldOthers
          (set_slot bytes streams jhash slots
            (slot_of bytes streams jhash k.1)
            (record { key = some k.0; count = 1 }))
          ks
  HoldOthers-set slots k ks here unlike others h b taken =
      elim (Bool-cases (h == slot_of bytes streams jhash k.1)) [
        | inl same ↦
            let new : record { key = some k.0; count = 1 } ≡ b = ground (arith, same, taken) in
            (k.0, k.1, ap (λ c. c.key) (sym new), here, unlike)
        | inr other ↦
            let (q, t, at_key, there, away) = others h b (ground (arith, other, taken)) in
            (q, t, at_key, there, away.1)
      ]

  insert_keys-collides :
      (bs : List Bucket) (ks : List (ℕ × Stream)) (st : HashState)
      → HaveKeys bytes streams jhash bs ks
      → AreUnlike ks
      → HoldOthers st.table.slots ks
      → ¬ (HaveOwnSlots bytes streams jhash ks × AreFree bytes streams jhash st.table.slots ks)
      → insert_keys bytes streams jhash bs st ≡ fault assertion
  unfolding insert_keys
  insert_keys-collides [] [] st live unlike others clash = absurd (clash (tt, tt))
  insert_keys-collides [] (k ∷ ks) st live unlike others clash = absurd live
  insert_keys-collides (b ∷ bs) [] st live unlike others clash = absurd live
  insert_keys-collides (b ∷ bs) (k ∷ ks) st (key, here, live) unlike others clash =
      elim (Option-cases (st.table.slots (slot_of bytes streams jhash k.1))) [
        | inr (c, taken) ↦
            let (q, t, at_key, there, other) = others _ c taken in
            let run =
              hash_insert_slow-taken bytes streams jhash k.0 q k.1 t c st here taken at_key there in
            rw (key, run, other.0) refl
        | inl free ↦
            let run = slow_new bytes streams jhash k.0 k.1 st here free in
            let st1 = with_new bytes streams jhash k.0 k.1 st in
            rw (key, run, ◌>>=◌)
              (insert_keys-collides bs ks st1 live unlike.1
                (HoldOthers-set st.table.slots k ks here unlike.0 others)
                (λ all.
                  let (apart, free') = AreFree-unset st.table.slots _ _ ks all.1 in
                  clash ((apart, all.0), (free, free'))))
      ]

  insert_keys-append :
      (bs : List Bucket) (b : Bucket) (st : HashState)
      → insert_keys bytes streams jhash (bs ++ b ∷ []) st
        ≡ (insert_keys bytes streams jhash bs st >>= hash_insert_slow bytes streams jhash b.key)
  unfolding insert_keys
  insert_keys-append [] b st = bind_ok (hash_insert_slow bytes streams jhash b.key st)
  insert_keys-append (c ∷ bs) b st =
      let ih = fun_ext (insert_keys-append bs b) in
      rw ih (
        sym (
          bind_assoc (hash_insert_slow bytes streams jhash c.key st)
            (insert_keys bytes streams jhash bs) (hash_insert_slow bytes streams jhash b.key)))

  HaveKeys-append :
      (bs : List Bucket) (ks : List (ℕ × Stream)) (p n : ℕ) (s : Stream)
      → HaveKeys bytes streams jhash bs ks
      → streams p ≡ some s
      → HaveKeys bytes streams jhash
          (bs ++ record { key = some p; count = n } ∷ [])
          (ks ++ (p, s) ∷ [])
  HaveKeys-append [] [] p n s h e = (refl, e, tt)
  HaveKeys-append [] (k ∷ ks) p n s h e = absurd h
  HaveKeys-append (b ∷ bs) [] p n s h e = absurd h
  HaveKeys-append (b ∷ bs) (k ∷ ks) p n s (key, here, rest) e =
      (key, here, HaveKeys-append bs ks p n s rest e)

  -- Where the three internal buckets are in use, none holds the stream and all slots are empty, two
  -- of the four keys share a slot, and the bytes in memory where a key begins are never, over the
  -- length of a stream inserted after it, those of that stream, hash_insert does not return: the
  -- assertion of __hash_insert fails.
  pub hash_insert-collides :
      (st : HashState) (p : ℕ) (s : Stream) (ks : List (ℕ × Stream))
      → st.table.num_internal ≡ 3
      → HaveKeys bytes streams jhash st.table.internal ks
      → streams p ≡ some s
      → find_internal bytes streams jhash (take 3 st.table.internal) s ≡ ok none
      → ((h : ℕ) → st.table.slots h ≡ none)
      → AreUnlike (ks ++ (p, s) ∷ [])
      → ¬ HaveOwnSlots bytes streams jhash (ks ++ (p, s) ∷ [])
      → hash_insert bytes streams jhash p st ≡ fault assertion
  unfolding hash_insert expand load
  hash_insert-collides st p s ks full live e absent free unlike clash =
      let st0 : HashState = record st { table = record st.table { num_internal = 4 } } in
      let all =
        insert_keys-collides (st.table.internal ++ record { key = some p; count = 0 } ∷ [])
          (ks ++ (p, s) ∷ []) st0 (HaveKeys-append st.table.internal ks p 0 s live e) unlike
          (λ h b taken. absurd (let bad = sym taken ∙ free h in cc)) (λ both. clash both.0) in
      let run = sym (insert_keys-append st.table.internal _ st0) ∙ all in
      let fast : leb st.table.num_internal max_internal ≡ true = ground (arith, full) in
      let stop : ltb st.table.num_internal max_internal ≡ false = ground (arith, full) in
      let three : (st.table.num_internal == max_internal) ≡ true = ground (arith, full) in
      let none_found : find_internal bytes streams jhash
            (take st.table.num_internal st.table.internal) s
          ≡ ok none =
        ap (λ n. find_internal bytes streams jhash (take n st.table.internal) s) full ∙ absent in
      rw (fast, load, e, ◌>>=◌, none_found, stop, three) run
