-- ===== src/Prelude/Sorting.antt =====
-- Insertion sort by a Boolean order. Where the order is strict and total on the items, any other
-- correct sort gives the same list.
use mathlib.Core.Path.{◌≡◌, refl}
use mathlib.Core.Logic.{inl, inr}
use mathlib.Core.Bool.{Bool}
use mathlib.Core.List.{List, [], ◌∷◌}
use native.Mathlib.Omega.{arith}
use Prim.Native.Nat.{suc}
use a_simple_game_server.Prelude.Tests.{if◌then◌else◌, Bool-cases}
use a_simple_game_server.Prelude.Lists.{length, All}

module _ {ℓ} {A : Type ℓ} (less : A → A → Bool) where
  unfoldable pub place : A → List A → List A
  place a [] = a ∷ []
  place a (x ∷ xs) = if less x a then x ∷ place a xs else a ∷ x ∷ xs

  unfoldable pub sort_by : List A → List A
  unfolding place
  sort_by [] = []
  sort_by (x ∷ xs) = place x (sort_by xs)

  length-place : (a : A) (xs : List A) → length (place a xs) ≡ suc (length xs)
  unfolding place
  length-place a [] = refl
  length-place a (x ∷ xs) = ground (arith, length-place a xs)

  pub length-sort_by : (xs : List A) → length (sort_by xs) ≡ length xs
  unfolding sort_by
  length-sort_by [] = refl
  length-sort_by (x ∷ xs) = omega (arith, length-sort_by xs, length-place x (sort_by xs))

  All-place {κ} : (P : A → Type κ) (a : A) (xs : List A) → P a → All P xs → All P (place a xs)
  unfolding place
  All-place P a [] h hs = (h, tt)
  All-place P a (x ∷ xs) h hs = elim (Bool-cases (less x a)) [
    | inl below ↦ rw below (hs.0, All-place P a xs h hs.1)
    | inr above ↦ rw above (h, hs)
  ]

  pub All-sort_by {κ} : (P : A → Type κ) (xs : List A) → All P xs → All P (sort_by xs)
  unfolding sort_by
  All-sort_by P [] hs = tt
  All-sort_by P (x ∷ xs) hs = All-place P x (sort_by xs) hs.0 (All-sort_by P xs hs.1)
