-- ===== src/Prelude/Maps.antt =====
-- Go's `map[string]V` as an association list, in the order in which a range over it runs. Theorems
-- range over all lists, so over every order of iteration.
use mathlib.Core.Path.{◌≡◌, refl}
use mathlib.Core.Logic.{◌≢◌, inl, inr}
use mathlib.Core.Option.{Option, none, some}
use mathlib.Core.List.{List, [], ◌∷◌, map}
use native.Mathlib.Omega.{arith}
use text.Mathlib.TextEquality.{eq_iff}
use Prim.Native.Nat.{ℕ, ◌+◌}
use Prim.Native.String.{String}
use a_simple_game_server.Prelude.Tests.{◌==◌, string_eq, if◌then◌else◌, Bool-cases}
use a_simple_game_server.Prelude.Lists.{length, All, sum_by}

abbrev pub Map {ℓ} : Type ℓ → Type ℓ
Map V = List (String × V)

module _ {ℓ} {V : Type ℓ} where
  unfoldable pub insert : String → V → Map V → Map V
  insert key v [] = (key, v) ∷ []
  insert key v ((old, w) ∷ rest) =
      if old == key then (key, v) ∷ rest else (old, w) ∷ insert key v rest

  unfoldable pub delete : String → Map V → Map V
  delete key [] = []
  delete key ((old, w) ∷ rest) = if old == key then delete key rest else (old, w) ∷ delete key rest

  unfoldable pub lookup : String → Map V → Option V
  lookup key [] = none
  lookup key ((old, w) ∷ rest) = if old == key then some w else lookup key rest

  abbrev pub keys : Map V → List String
  keys m = map (λ e. e.0) m

  pub lookup-insert :
      (key asked : String) (v : V) (m : Map V)
      → lookup asked (insert key v m) ≡ (if key == asked then some v else lookup asked m)
  unfolding insert lookup
  lookup-insert key asked v [] = refl
  lookup-insert key asked v ((old, w) ∷ rest) =
      let later = lookup-insert key asked v rest in
      ground (arith, eq_iff old key, eq_iff old asked, eq_iff key asked)

  pub lookup-delete :
      (k j : String) (m : Map V) → lookup j (delete k m) ≡ (if k == j then none else lookup j m)
  unfolding lookup delete
  lookup-delete k j [] = ground arith
  lookup-delete k j ((i, w) ∷ m) =
      ground (arith, eq_iff k j, eq_iff i k, eq_iff i j, lookup-delete k j m)

  pub lookup-insert_self : (k : String) (v : V) (m : Map V) → lookup k (insert k v m) ≡ some v
  lookup-insert_self k v m = ground (arith, lookup-insert k k v m, eq_iff k k)

  pub lookup-insert_eq :
      (k j : String) (v : V) (m : Map V) → k ≡ j → lookup j (insert k v m) ≡ some v
  lookup-insert_eq k j v m e = ground (arith, lookup-insert k j v m, eq_iff k j)

  pub lookup-insert_ne :
      (k j : String) (v : V) (m : Map V) → k ≢ j → lookup j (insert k v m) ≡ lookup j m
  lookup-insert_ne k j v m ne = ground (arith, lookup-insert k j v m, eq_iff k j)

  -- A property of all entries survives a write that has it, and a delete.
  pub All-insert {κ} :
      (P : String × V → Type κ) (k : String) (v : V) (m : Map V)
      → P (k, v)
      → All P m
      → All P (insert k v m)
  unfolding insert
  All-insert P k v [] h hs = (h, tt)
  All-insert P k v ((j, w) ∷ m) h hs = elim (Bool-cases (j == k)) [
    | inl same ↦ rw same (h, hs.1)
    | inr other ↦ rw other (hs.0, All-insert P k v m h hs.1)
  ]

  pub All-delete {κ} :
      (P : String × V → Type κ) (k : String) (m : Map V) → All P m → All P (delete k m)
  unfolding delete
  All-delete P k [] hs = tt
  All-delete P k ((j, w) ∷ m) hs = elim (Bool-cases (j == k)) [
    | inl same ↦ rw same (All-delete P k m hs.1)
    | inr other ↦ rw other (hs.0, All-delete P k m hs.1)
  ]

  pub All-lookup {κ} :
      (P : String × V → Type κ) (k : String) (v : V) (m : Map V)
      → All P m
      → lookup k m ≡ some v
      → P (k, v)
  unfolding lookup
  All-lookup P k v [] hs e = cc
  All-lookup P k v ((j, w) ∷ m) hs e = elim (Bool-cases (j == k)) [
    | inl same ↦
        let ek : j ≡ k = (eq_iff j k).0 same in
        let ev : w ≡ v = ground (arith) in rw (← ek, ← ev) hs.0
    | inr other ↦ All-lookup P k v m hs.1 (ground arith)
  ]

  -- No key twice.
  abbrev pub Distinct : Map V → Type ℓ
  Distinct [] = Unit
  Distinct ((k, v) ∷ m) = (lookup k m ≡ none) × Distinct m

  -- A write over an old entry exchanges its share of a sum for the new one's.
  pub sum-insert :
      (f : String × V → ℕ) (k : String) (u v : V) (m : Map V)
      → lookup k m ≡ some u
      → sum_by f (insert k v m) + f (k, u) ≡ sum_by f m + f (k, v)
  unfolding lookup insert sum_by
  sum-insert f k u v [] at = cc
  sum-insert f k u v ((j, w) ∷ m) at = elim (Bool-cases (j == k)) [
    | inl same ↦
        let ek : j ≡ k = (eq_iff j k).0 same in
        let eu : w ≡ u = ground (arith) in rw (same, ek, eu) (omega arith)
    | inr other ↦ let rest = sum-insert f k u v m (ground arith) in rw other (omega arith)
  ]

  -- A new entry adds its share.
  pub sum-insert_new :
      (f : String × V → ℕ) (k : String) (v : V) (m : Map V)
      → lookup k m ≡ none
      → sum_by f (insert k v m) ≡ sum_by f m + f (k, v)
  unfolding lookup insert sum_by
  sum-insert_new f k v [] at = omega arith
  sum-insert_new f k v ((j, w) ∷ m) at = elim (Bool-cases (j == k)) [
    | inl same ↦ absurd (ground arith)
    | inr other ↦ let rest = sum-insert_new f k v m (ground arith) in rw other (omega arith)
  ]

  delete_absent : (k : String) (m : Map V) → lookup k m ≡ none → delete k m ≡ m
  unfolding lookup delete
  delete_absent k [] at = refl
  delete_absent k ((j, w) ∷ m) at = elim (Bool-cases (j == k)) [
    | inl same ↦ absurd (ground arith)
    | inr other ↦ rw other (rw (delete_absent k m (ground arith)))
  ]

  -- A deleted entry takes its share away.
  pub sum-delete :
      (f : String × V → ℕ) (k : String) (u : V) (m : Map V)
      → Distinct m
      → lookup k m ≡ some u
      → sum_by f (delete k m) + f (k, u) ≡ sum_by f m
  unfolding lookup delete sum_by
  sum-delete f k u [] d at = cc
  sum-delete f k u ((j, w) ∷ m) d at = elim (Bool-cases (j == k)) [
    | inl same ↦
        let ek : j ≡ k = (eq_iff j k).0 same in
        let eu : w ≡ u = ground (arith) in
        let gone : delete k m ≡ m = delete_absent k m (rw ek at d.0) in
        rw (same, gone, ek, eu) (omega arith)
    | inr other ↦ let rest = sum-delete f k u m d.1 (ground arith) in rw other (omega arith)
  ]

  pub length-insert :
      (k : String) (u v : V) (m : Map V) → lookup k m ≡ some u → length (insert k v m) ≡ length m
  unfolding lookup insert
  length-insert k u v [] at = cc
  length-insert k u v ((j, w) ∷ m) at = elim (Bool-cases (j == k)) [
    | inl same ↦ rw same
    | inr other ↦ let rest = length-insert k u v m (ground arith) in rw other (omega arith)
  ]
