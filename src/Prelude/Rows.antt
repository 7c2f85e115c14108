-- ===== src/Prelude/Rows.antt =====
-- The lengths of a prefix, of a selection and of a map, and what holds of their elements.
use Prim.Native.Nat.{ℕ, zero, suc}
use mathlib.Core.Path.{◌≡◌, refl}
use mathlib.Core.Logic.{inl, inr}
use mathlib.Core.Bool.{Bool, true}
use mathlib.Core.List.{List, [], ◌∷◌, map}
use native.Mathlib.Omega.{arith}
use thin_pi.Prelude.Tests.{if◌then◌else◌, ltb, Bool-cases}
use thin_pi.Prelude.Lists.{length, take, any, select, count_where, All, All-map}

module _ {ℓ} {A : Type ℓ} where
  pub length-take_lt :
      (k n : ℕ) (xs : List A) → ltb k n ≡ true → ltb k (length (take n xs)) ≡ ltb k (length xs)
  unfolding take
  length-take_lt k zero xs h = absurd (ground arith)
  length-take_lt k (suc n) [] h = refl
  length-take_lt zero (suc n) (x ∷ xs) h = ground arith
  length-take_lt (suc k) (suc n) (x ∷ xs) h = ground (arith, length-take_lt k n xs)

  pub length-take :
      (n : ℕ) (xs : List A) → length (take n xs) ≡ (if ltb n (length xs) then n else length xs)
  unfolding take
  length-take zero [] = refl
  length-take zero (x ∷ xs) = ground arith
  length-take (suc n) [] = ground arith
  length-take (suc n) (x ∷ xs) = ground (arith, length-take n xs)

  pub length-select : (p : A → Bool) (xs : List A) → length (select p xs) ≡ count_where p xs
  unfolding select count_where
  length-select p [] = refl
  length-select p (x ∷ xs) = ground (arith, length-select p xs)

module _ {ℓ κ} {A : Type ℓ} (P : A → Type κ) where
  pub All-take : (n : ℕ) (xs : List A) → All P xs → All P (take n xs)
  unfolding take
  All-take zero xs h = tt
  All-take (suc n) [] h = tt
  All-take (suc n) (x ∷ xs) h = (h.0, All-take n xs h.1)

  pub All-map_of : {B : Type ℓ} (f : B → A) (ys : List B) → All (λ y. P (f y)) ys → All P (map f ys)
  All-map_of f [] h = tt
  All-map_of f (y ∷ ys) h = (h.0, All-map_of f ys h.1)

  -- What follows from the test holds of every row that is selected.
  pub All-select :
      (q : A → Bool) (xs : List A) → All (λ x. q x ≡ true → P x) xs → All P (select q xs)
  unfolding select
  All-select q [] h = tt
  All-select q (x ∷ xs) h = elim (Bool-cases (q x)) [
    | inl hit ↦ rw hit (h.0 hit, All-select q xs h.1)
    | inr miss ↦ rw miss (All-select q xs h.1)
  ]

module _ {ℓ} {A : Type ℓ} where
  pub length-map {κ} : {B : Type κ} (f : A → B) (xs : List A) → length (map f xs) ≡ length xs
  length-map f [] = refl
  length-map f (x ∷ xs) = omega (arith, length-map f xs)

  -- A row that is like itself shows that some row is like it.
  pub All-any : (r : A → A → Bool) (xs : List A) → All (λ x. r x x ≡ true → any (r x) xs ≡ true) xs
  unfolding any
  All-any r [] = tt
  All-any r (x ∷ xs) =
      (λ h. ground arith, All-map _ _ xs (λ y step k. ground (arith, step k)) (All-any r xs))
