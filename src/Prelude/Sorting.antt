-- ===== src/Prelude/Sorting.antt =====
-- `list.sort` with a key, as an insertion sort. Both are stable, and a stable sort is determined
-- by its order.
use Prim.Native.Nat.{ℕ}
use Prim.Native.String.{String}
use mathlib.Core.Path.{◌≡◌, refl}
use mathlib.Core.Logic.{inl, inr}
use mathlib.Core.Bool.{Bool, true, false}
use mathlib.Core.List.{List, [], ◌∷◌, Perm}
use mathlib.Core.List.Perm
use navigator_orchestrator_a.Prelude.Tests.{if◌then◌else◌, Bool-cases, ltb, ◌==◌}
use navigator_orchestrator_a.Prelude.Texts.{str_lt}
use native.Mathlib.Omega.{arith}
use navigator_orchestrator_a.Prelude.Lists.{All, All-map}

-- A strict order, as Boolean tests: at most one of two stands before the other, and "not before"
-- is transitive.
pub record IsStrictOrder {ℓ} {A : Type ℓ} (before : A → A → Bool) : Type ℓ where
  pub asym : (x y : A) → before x y ≡ true → before y x ≡ false
  pub trans_not : (x y z : A) → before y x ≡ false → before z y ≡ false → before z x ≡ false

module _ {ℓ} {A : Type ℓ} (before : A → A → Bool) where
  -- `x` goes in front of the first `y` that is strictly behind it, or at the end.
  insert_by : A → List A → List A
  insert_by x [] = x ∷ []
  insert_by x (y ∷ ys) = if before y x then y ∷ insert_by x ys else x ∷ y ∷ ys

  -- `before y x`: y stands strictly before x
  unfoldable pub sort_by : List A → List A
  unfolding insert_by
  sort_by [] = []
  sort_by (x ∷ xs) = insert_by x (sort_by xs)

  -- Each element has none strictly before it among those that follow.
  abbrev pub IsSorted : List A → Type ℓ
  IsSorted [] = Unit
  IsSorted (x ∷ xs) = All (λ y. before y x ≡ false) xs × IsSorted xs

  insert_by-perm : (x : A) (ys : List A) → Perm (insert_by x ys) (x ∷ ys)
  unfolding insert_by
  insert_by-perm x [] = Perm.refl _
  insert_by-perm x (y ∷ ys) = elim (Bool-cases (before y x)) [
    | inl e ↦ rw e (Perm.trans (Perm.cons y (insert_by-perm x ys)) (Perm.swap x y ys))
    | inr e ↦ rw e (Perm.refl _)
  ]

  pub sort_by-perm : (xs : List A) → Perm (sort_by xs) xs
  unfolding sort_by
  sort_by-perm [] = Perm.refl _
  sort_by-perm (x ∷ xs) = Perm.trans (insert_by-perm x (sort_by xs)) (Perm.cons x (sort_by-perm xs))

module _ {ℓ κ} {A : Type ℓ} (before : A → A → Bool) (P : A → Type κ) where
  All-insert_by : (x : A) (ys : List A) → P x → All P ys → All P (insert_by before x ys)
  unfolding insert_by
  All-insert_by x [] px h = (px, tt)
  All-insert_by x (y ∷ ys) px h = elim (Bool-cases (before y x)) [
    | inl e ↦ rw e (h.0, All-insert_by x ys px h.1)
    | inr e ↦ rw e (px, h)
  ]

  pub All-sort_by : (xs : List A) → All P xs → All P (sort_by before xs)
  unfolding sort_by
  All-sort_by [] h = tt
  All-sort_by (x ∷ xs) h = All-insert_by x (sort_by before xs) h.0 (All-sort_by xs h.1)

  -- What holds of the sorted elements holds of the given ones.
  All-insert_by_inv : (x : A) (ys : List A) → All P (insert_by before x ys) → P x × All P ys
  unfolding insert_by
  All-insert_by_inv x [] h = h
  All-insert_by_inv x (y ∷ ys) h = elim (Bool-cases (before y x)) [
    | inl e ↦
        let k : P y × All P (insert_by before x ys) = rw e at h in
        let r = All-insert_by_inv x ys k.1 in (r.0, (k.0, r.1))
    | inr e ↦ rw e at h
  ]

  pub All-sort_by_inv : (xs : List A) → All P (sort_by before xs) → All P xs
  unfolding sort_by
  All-sort_by_inv [] h = tt
  All-sort_by_inv (x ∷ xs) h =
      let r = All-insert_by_inv x (sort_by before xs) h in (r.0, All-sort_by_inv xs r.1)

module _ {ℓ} {A : Type ℓ} (before : A → A → Bool) (order : IsStrictOrder before) where
  insert_by-IsSorted :
      (x : A) (ys : List A) → IsSorted before ys → IsSorted before (insert_by before x ys)
  unfolding insert_by
  insert_by-IsSorted x [] h = (tt, tt)
  insert_by-IsSorted x (y ∷ ys) h = elim (Bool-cases (before y x)) [
    | inl e ↦ rw e (
      All-insert_by before (λ z. before z y ≡ false) x ys (order.asym y x e) h.0,
      insert_by-IsSorted x ys h.1,
    )
    | inr e ↦ rw e ((e, All-map _ _ ys (λ z n. order.trans_not x y z e n) h.0), h)
  ]

  pub sort_by-IsSorted : (xs : List A) → IsSorted before (sort_by before xs)
  unfolding sort_by
  sort_by-IsSorted [] = tt
  sort_by-IsSorted (x ∷ xs) = insert_by-IsSorted x (sort_by before xs) (sort_by-IsSorted xs)

-- The order of pairs of a number and a text, as Python compares tuples.
unfoldable pub key_lt : ℕ → String → ℕ → String → Bool
key_lt m s n t = if ltb m n then true else if m == n then str_lt s t else false

str_lt_asym : (s t : String) → str_lt s t ≡ true → str_lt t s ≡ false
str_lt_asym String.[] String.[] h = refl
str_lt_asym String.[] (String.◌∷◌ d t) h = refl
str_lt_asym (String.◌∷◌ c s) String.[] h = cc
str_lt_asym (String.◌∷◌ c s) (String.◌∷◌ d t) h = ground (arith, str_lt_asym s t)

str_lt_trans_not : (s t u : String) → str_lt t s ≡ false → str_lt u t ≡ false → str_lt u s ≡ false
str_lt_trans_not String.[] String.[] u p q = q
str_lt_trans_not String.[] (String.◌∷◌ d t) String.[] p q = cc
str_lt_trans_not String.[] (String.◌∷◌ d t) (String.◌∷◌ e u) p q = refl
str_lt_trans_not (String.◌∷◌ c s) String.[] u p q = cc
str_lt_trans_not (String.◌∷◌ c s) (String.◌∷◌ d t) String.[] p q = cc
str_lt_trans_not (String.◌∷◌ c s) (String.◌∷◌ d t) (String.◌∷◌ e u) p q =
    ground (arith, str_lt_trans_not s t u)

module _ (m : ℕ) (s : String) (n : ℕ) (t : String) where
  pub key_lt_asym : key_lt m s n t ≡ true → key_lt n t m s ≡ false
  unfolding key_lt
  key_lt_asym h = ground (arith, str_lt_asym s t)

  pub key_lt_trans_not :
      (o : ℕ) (u : String)
      → key_lt n t m s ≡ false
      → key_lt o u n t ≡ false
      → key_lt o u m s ≡ false
  unfolding key_lt
  key_lt_trans_not o u p q = ground (arith, str_lt_trans_not s t u)
