-- ===== src/Prelude/Split.antt =====
-- The functions of the package strings that cut a text: HasPrefix, Split at one byte and Fields.
use Prim.Native.Nat.{ℕ}
use mathlib.Core.Path.{◌≡◌, refl}
use mathlib.Core.Logic.{inl, inr}
use mathlib.Core.Bool.{Bool, true, false, ◌&&◌}
use mathlib.Core.List.{List, [], ◌∷◌, ◌++◌}
use native.Mathlib.Omega.{arith}
use thin_pi.Prelude.Tests.{if◌then◌else◌, ◌==◌, ==_refl, Bool-cases}
use thin_pi.Prelude.Lists.{any}
use thin_pi.Prelude.Text.{Bytes, is_space}

unfoldable pub has_prefix : Bytes → Bytes → Bool
has_prefix s [] = true
has_prefix [] (d ∷ p) = false
has_prefix (c ∷ s) (d ∷ p) = c == d && has_prefix s p

unfoldable pub push : ℕ → List Bytes → List Bytes
push c [] = (c ∷ []) ∷ []
push c (w ∷ ws) = (c ∷ w) ∷ ws

-- strings.Split at one byte
unfoldable pub split : ℕ → Bytes → List Bytes
unfolding push
split sep [] = [] ∷ []
split sep (c ∷ s) = let rest = split sep s in if c == sep then [] ∷ rest else push c rest

pub split_plain : (sep : ℕ) (s : Bytes) → any (λ c. c == sep) s ≡ false → split sep s ≡ s ∷ []
unfolding split push any
split_plain sep [] h = refl
split_plain sep (c ∷ s) h = elim (Bool-cases (c == sep)) [
  | inl hit ↦ absurd (ground arith)
  | inr other ↦ rw (other, split_plain sep s (rw other at h))
]

pub split-append :
    (sep : ℕ) (s rest : Bytes)
    → any (λ c. c == sep) s ≡ false
    → split sep (s ++ (sep ∷ rest)) ≡ s ∷ split sep rest
unfolding split push any
split-append sep [] rest h = rw (==_refl sep)
split-append sep (c ∷ s) rest h = elim (Bool-cases (c == sep)) [
  | inl hit ↦ absurd (ground arith)
  | inr other ↦ rw (other, split-append sep s rest (rw other at h))
]

-- Whether a text goes on with space, or ends.
abbrev pub ends_word : Bytes → Bool
ends_word [] = true
ends_word (c ∷ s) = is_space c

-- strings.Fields
unfoldable pub fields : Bytes → List Bytes
unfolding is_space push
fields [] = []
fields (c ∷ s) =
    let rest = fields s in
    if is_space c then rest else if ends_word s then (c ∷ []) ∷ rest else push c rest

pub fields-append :
    (c : ℕ) (s rest : Bytes)
    → any is_space (c ∷ s) ≡ false
    → fields ((c ∷ s) ++ (32 ∷ rest)) ≡ (c ∷ s) ∷ fields rest
unfolding fields push any is_space
fields-append c [] rest h = ground arith
fields-append c (d ∷ s) rest h = ground (arith, fields-append d s rest)
