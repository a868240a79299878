-- ===== src/Program/Options.antt =====
-- How main of src/main.c chooses the backend, from the bytes of its arguments, and the number of maps
-- that it counts at the end.
use Prim.Native.Nat.{Ordering}
use callstack_count.Prelude.{
  ℕ, ◌%◌, ◌^◌, ◌≡◌, ◌↔◌, refl, ap, ◌∙◌, inl, inr, Bool, true, false, List, [], ◌∷◌, if◌then◌else◌,
  Bool-cases, length,
}
use callstack_count.RbTree.{inorder}
use callstack_count.Callchain.Match.{strcmp, strcmp-eq}
use callstack_count.Program.Maps.{Maps}

-- What cs_ops is set to.
pub data Backend : Type 0 where
  linux art hash : Backend

pub data Choice : Type 0 where
  usage invalid : Choice
  chosen : Backend → Choice

abbrev pub name_of : Backend → List ℕ
name_of linux = 108 ∷ 105 ∷ 110 ∷ 117 ∷ 120 ∷ []
name_of art = 97 ∷ 114 ∷ 116 ∷ []
name_of hash = 104 ∷ 97 ∷ 115 ∷ 104 ∷ []

abbrev is_equal : Ordering → Bool
is_equal Ordering.eq = true
is_equal _ = false

-- !strcmp(argument, name)
unfoldable pub is_name : List ℕ → Backend → Bool
is_name argument b = is_equal (strcmp argument (name_of b))

-- The first argument is the name of the program.
unfoldable pub choose_ops : List (List ℕ) → Choice
unfolding is_name
choose_ops [] = usage
choose_ops (program ∷ []) = usage
choose_ops (program ∷ argument ∷ rest) =
    if is_name argument linux
    then chosen linux
    else (if is_name argument art
        then chosen art
        else (if is_name argument hash then chosen hash else invalid))

-- The walk with rb_first and rb_next counts the maps.
unfoldable pub num_maps : Maps → ℕ
num_maps m = length (inorder m.map_trees.rb_root) % 2 ^ 64

of_is_equal : (o : Ordering) → is_equal o ≡ true → o ≡ Ordering.eq
of_is_equal Ordering.lt h = cc
of_is_equal Ordering.eq h = refl
of_is_equal Ordering.gt h = cc

is_name_iff :
    (argument : List ℕ) (b : Backend) → (is_name argument b ≡ true) ↔ (argument ≡ name_of b)
unfolding is_name
is_name_iff argument b = (
  (λ h. (strcmp-eq argument (name_of b)).0 (of_is_equal (strcmp argument (name_of b)) h)),
  (λ h. ap is_equal ((strcmp-eq argument (name_of b)).1 h)),
)

chosen_named :
    (program : List ℕ) (rest : List (List ℕ)) (b : Backend)
    → choose_ops (program ∷ name_of b ∷ rest) ≡ chosen b
unfolding choose_ops is_name strcmp
chosen_named program rest linux = refl
chosen_named program rest art = refl
chosen_named program rest hash = refl

-- main goes on with a backend exactly where the first argument is the backend's name; the arguments
-- behind it do not matter.
pub choose_ops_iff :
    (program argument : List ℕ) (rest : List (List ℕ)) (b : Backend)
    → (choose_ops (program ∷ argument ∷ rest) ≡ chosen b) ↔ (argument ≡ name_of b)
unfolding choose_ops
choose_ops_iff program argument rest b = (
  (λ h. elim (Bool-cases (is_name argument linux)) [
    | inl e ↦
        let same : chosen linux ≡ chosen b = rw (choose_ops, e) at h in
        let whole : linux ≡ b = cc in (is_name_iff argument linux).0 e ∙ ap name_of whole
    | inr not_linux ↦ elim (Bool-cases (is_name argument art)) [
      | inl e ↦
          let same : chosen art ≡ chosen b = rw (choose_ops, not_linux, e) at h in
          let whole : art ≡ b = cc in (is_name_iff argument art).0 e ∙ ap name_of whole
      | inr not_art ↦ elim (Bool-cases (is_name argument hash)) [
        | inl e ↦
            let same : chosen hash ≡ chosen b = rw (choose_ops, not_linux, not_art, e) at h in
            let whole : hash ≡ b = cc in (is_name_iff argument hash).0 e ∙ ap name_of whole
        | inr not_hash ↦ absurd (
            let bad : invalid ≡ chosen b = rw (choose_ops, not_linux, not_art, not_hash) at h in cc)
      ]
    ]
  ]),
  (λ e. ap (λ a. choose_ops (program ∷ a ∷ rest)) e ∙ chosen_named program rest b),
)
