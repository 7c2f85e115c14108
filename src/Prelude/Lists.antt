-- ===== src/Prelude/Lists.antt =====
-- Lists over the native numbers, and the row operations of a table: the first row that passes a
-- test, the rows that pass it, their number, and a write to each of them.
use Prim.Native.Nat.{ℕ, zero, suc, ◌+◌}
use mathlib.Core.Path.{◌≡◌, refl, subst, sym}
use mathlib.Core.Logic.{inl, inr}
use mathlib.Core.Bool.{Bool, true, false, ◌||◌}
use mathlib.Core.List.{List, [], ◌∷◌, ◌++◌}
use mathlib.Core.Option.{Option, none, some, some-injective}
use native.Mathlib.Omega.{arith}
use thin_pi.Prelude.Tests.{if◌then◌else◌, Bool-cases}

module _ {ℓ} {A : Type ℓ} where
  abbrev pub length : List A → ℕ
  length [] = 0
  length (x ∷ xs) = suc (length xs)

  pub length-append : (xs ys : List A) → length (xs ++ ys) ≡ length xs + length ys
  length-append [] ys = omega arith
  length-append (x ∷ xs) ys = omega (arith, length-append xs ys)

  abbrev pub is_nil : List A → Bool
  is_nil [] = true
  is_nil (x ∷ xs) = false

  unfoldable pub take : ℕ → List A → List A
  take zero xs = []
  take (suc n) [] = []
  take (suc n) (x ∷ xs) = x ∷ take n xs

  -- SELECT ... that reads one row
  unfoldable pub find : (A → Bool) → List A → Option A
  find p [] = none
  find p (x ∷ xs) = if p x then some x else find p xs

  unfoldable pub any : (A → Bool) → List A → Bool
  any p [] = false
  any p (x ∷ xs) = p x || any p xs

  -- SELECT ... that reads all rows
  unfoldable pub select : (A → Bool) → List A → List A
  select p [] = []
  select p (x ∷ xs) = let rest = select p xs in if p x then x ∷ rest else rest

  -- SELECT COUNT(*), and the affected rows of an UPDATE
  unfoldable pub count_where : (A → Bool) → List A → ℕ
  count_where p [] = 0
  count_where p (x ∷ xs) = let rest = count_where p xs in if p x then suc rest else rest

  -- UPDATE ... SET ... WHERE
  unfoldable pub update_where : (A → Bool) → (A → A) → List A → List A
  update_where p f [] = []
  update_where p f (x ∷ xs) = (if p x then f x else x) ∷ update_where p f xs

  abbrev pub All {κ} : (A → Type κ) → List A → Type κ
  All P [] = Unit
  All P (x ∷ xs) = P x × All P xs

module _ {ℓ κ} {A : Type ℓ} (P : A → Type κ) (q : A → Bool) where
  -- What holds of every row holds of the row that is found, if one is.
  pub find-All : (xs : List A) → All P xs → (x : A) → find q xs ≡ some x → P x
  unfolding find
  find-All [] h x e = cc
  find-All (y ∷ ys) h x e = elim (Bool-cases (q y)) [
    | inl hit ↦ subst P (some-injective _ _ (rw hit at e)) h.0
    | inr miss ↦ find-All ys h.1 x (rw miss at e)
  ]

module _ {ℓ} {A : Type ℓ} where
  pub find_sound : (q : A → Bool) (xs : List A) (x : A) → find q xs ≡ some x → q x ≡ true
  unfolding find
  find_sound q [] x e = cc
  find_sound q (y ∷ ys) x e = elim (Bool-cases (q y)) [
    | inl hit ↦ subst (λ z. q z ≡ true) (some-injective _ _ (rw hit at e)) hit
    | inr miss ↦ find_sound q ys x (rw miss at e)
  ]

  pub find-any :
      (p q : A → Bool) (xs : List A) (x : A) → find p xs ≡ some x → q x ≡ true → any q xs ≡ true
  unfolding find any
  find-any p q [] x e h = cc
  find-any p q (y ∷ ys) x e h = elim (Bool-cases (p y)) [
    | inl hit ↦ rw (subst (λ z. q z ≡ true) (sym (some-injective _ _ (rw hit at e))) h)
    | inr miss ↦ rw (find-any p q ys x (rw miss at e) h) (ground arith)
  ]

  pub any-false : (q : A → Bool) (xs : List A) → any q xs ≡ false → All (λ x. q x ≡ false) xs
  unfolding any
  any-false q [] h = tt
  any-false q (y ∷ ys) h = (ground arith, any-false q ys (ground arith))

module _ {ℓ κ} {A : Type ℓ} (P : A → Type κ) where
  pub All-update_where :
      (q : A → Bool) (f : A → A) (xs : List A)
      → ((x : A) → P x → P (f x))
      → All P xs
      → All P (update_where q f xs)
  unfolding update_where
  All-update_where q f [] keep h = tt
  All-update_where q f (x ∷ xs) keep h = elim (Bool-cases (q x)) [
    | inl hit ↦ rw hit (keep x h.0, All-update_where q f xs keep h.1)
    | inr miss ↦ rw miss (h.0, All-update_where q f xs keep h.1)
  ]

  pub All-append : (xs ys : List A) → All P xs → All P ys → All P (xs ++ ys)
  All-append [] ys h k = k
  All-append (x ∷ xs) ys h k = (h.0, All-append xs ys h.1 k)

  pub All-map {μ} : (Q : A → Type μ) (xs : List A) → ((x : A) → P x → Q x) → All P xs → All Q xs
  All-map Q [] f h = tt
  All-map Q (x ∷ xs) f h = (f x h.0, All-map Q xs f h.1)

module _ {ℓ} {A : Type ℓ} where
  pub find-append :
      (p : A → Bool) (xs ys : List A) → any p xs ≡ false → find p (xs ++ ys) ≡ find p ys
  unfolding find any
  find-append p [] ys h = refl
  find-append p (x ∷ xs) ys h = ground (arith, find-append p xs ys)

  pub any_weaken :
      (p q : A → Bool) (xs : List A)
      → ((x : A) → p x ≡ true → q x ≡ true)
      → any q xs ≡ false
      → any p xs ≡ false
  unfolding any
  any_weaken p q [] imp h = refl
  any_weaken p q (x ∷ xs) imp h = ground (arith, imp x, any_weaken p q xs imp)

  pub count_where-append :
      (p : A → Bool) (xs ys : List A)
      → count_where p (xs ++ ys) ≡ count_where p xs + count_where p ys
  unfolding count_where
  count_where-append p [] ys = omega arith
  count_where-append p (x ∷ xs) ys = ground (arith, count_where-append p xs ys)

  pub count_where_none :
      (p : A → Bool) (xs : List A) → All (λ x. p x ≡ false) xs → count_where p xs ≡ 0
  unfolding count_where
  count_where_none p [] h = refl
  count_where_none p (x ∷ xs) h = ground (arith, count_where_none p xs h.1)

  pub any-true : (p : A → Bool) (xs : List A) → any p xs ≡ true → (x : A) × (p x ≡ true)
  unfolding any
  any-true p [] h = absurd (ground arith)
  any-true p (x ∷ xs) h = elim (Bool-cases (p x)) [
    | inl hit ↦ (x, hit)
    | inr miss ↦ any-true p xs (ground arith)
  ]

  abbrev pub map_option {κ} : {B : Type κ} → (A → B) → Option A → Option B
  map_option f none = none
  map_option f (some x) = some (f x)

  -- A search that does not read what an update writes finds the same row, as the update left it.
  pub find-update_where :
      (p q : A → Bool) (f : A → A) (xs : List A)
      → ((x : A) → p (f x) ≡ p x)
      → find p (update_where q f xs) ≡ map_option (λ x. if q x then f x else x) (find p xs)
  unfolding find update_where
  find-update_where p q f [] blind = refl
  find-update_where p q f (x ∷ xs) blind = elim (Bool-cases (q x)) [
    | inl hit ↦
        rw (hit, blind x)
          (elim (Bool-cases (p x)) [
            | inl seen ↦ rw (seen, hit)
            | inr passed ↦ rw passed (find-update_where p q f xs blind)
          ])
    | inr miss ↦ rw miss (elim (Bool-cases (p x)) [
      | inl seen ↦ rw (seen, miss)
      | inr passed ↦ rw passed (find-update_where p q f xs blind)
    ])
  ]
