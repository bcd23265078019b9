-- ===== src/World/SpawnCells.antt =====
-- The choice of a cell in world.go: `bestSpawnCellLocked` and `findSafePositionLocked` find a
-- walkable cell whenever there is one.
use Prim.Native.Char.{Char}
use native.Mathlib.Nat.{zero-add}
use a_simple_game_server.Prelude.{
  ℕ, zero, suc, ℤ, pos, negsuc, String, Bool, true, false, List, [], ◌∷◌, Option, none, some, ◌+◌,
  ◌<◌, ◌%◌, ◌≡◌, refl, ◌⊎◌, inl, inr, arith, ltb, length, get_elem?, All, All-append, Bool-cases,
  Option-cases, if◌then◌else◌, length-append, ◌==◌, nat_eq,
}
use a_simple_game_server.Prelude.Sorting.{sort_by, All-sort_by, length-sort_by}
use a_simple_game_server.World.State.{World, Grid, intn}
use a_simple_game_server.World.Grid.{cell_at}
use a_simple_game_server.World.Place.{
  walkable, Candidate, row_candidates, candidates, candidate_less, best_spawn_cell, find_safe,
}

module _ (w : World) (ignore : String) (prefer : Bool) where
  abbrev pub IsOpen : Candidate → Type 0
  IsOpen c = walkable w (pos c.x) (pos c.y) ignore ≡ true

  row_candidates-IsOpen :
      (y x : ℕ) (cs : List Char) → All IsOpen (row_candidates w ignore prefer y x cs)
  unfolding row_candidates
  row_candidates-IsOpen y x [] = tt
  row_candidates-IsOpen y x (c ∷ cs) = elim (Bool-cases (walkable w (pos x) (pos y) ignore)) [
    | inl open_cell ↦ rw open_cell (open_cell, row_candidates-IsOpen y (suc x) cs)
    | inr shut_cell ↦ rw shut_cell (row_candidates-IsOpen y (suc x) cs)
  ]

  candidates-IsOpen : (y : ℕ) (rows : Grid) → All IsOpen (candidates w ignore prefer y rows)
  unfolding candidates
  candidates-IsOpen y [] = tt
  candidates-IsOpen y (row ∷ rows) =
      All-append IsOpen _ _ (row_candidates-IsOpen y 0 row) (candidates-IsOpen (suc y) rows)

  -- A cell that is left out of the candidates is not walkable.
  row_candidates-nil :
      (y x i : ℕ) (cs : List Char) {c : Char}
      → length (row_candidates w ignore prefer y x cs) ≡ 0
      → get_elem? cs i ≡ some c
      → walkable w (pos (x + i)) (pos y) ignore ≡ false
  unfolding row_candidates
  row_candidates-nil y x i [] e g = cc
  row_candidates-nil y x zero (c ∷ cs) e g =
      let same : x + 0 ≡ x = omega arith in rw same (ground arith)
  row_candidates-nil y x (suc i) (c ∷ cs) e g =
      let same : x + suc i ≡ suc x + i = omega arith in
      rw same (row_candidates-nil y (suc x) i cs (ground arith) g)

  candidates-nil :
      (y j i : ℕ) (rows : Grid) {row : List Char} {c : Char}
      → length (candidates w ignore prefer y rows) ≡ 0
      → get_elem? rows j ≡ some row
      → get_elem? row i ≡ some c
      → walkable w (pos i) (pos (y + j)) ignore ≡ false
  unfolding candidates
  candidates-nil y j i [] e g h = cc
  candidates-nil y zero i (r ∷ rows) {row} {c} e g h =
      let here : get_elem? r i ≡ some c = ground arith in
      let same : y + 0 ≡ y = omega arith in
      rw same (
        rw zero-add at (
          row_candidates-nil y 0 i r
            (omega (
              arith,
              length-append (row_candidates w ignore prefer y 0 r)
                  (candidates w ignore prefer (suc y) rows),
            ))
            here))
  candidates-nil y (suc j) i (r ∷ rows) e g h =
      let same : y + suc j ≡ suc y + j = omega arith in
      rw same (
        candidates-nil (suc y) j i rows
          (omega (
            arith,
            length-append (row_candidates w ignore prefer y 0 r)
                (candidates w ignore prefer (suc y) rows),
          ))
          g h)

  no_candidates :
      (x y : ℤ)
      → length (candidates w ignore prefer 0 w.terrain) ≡ 0
      → walkable w x y ignore ≡ false
  unfolding walkable cell_at
  no_candidates (pos i) (pos j) e = elim (Option-cases (get_elem? w.terrain j)) [
    | inl off ↦ ground arith
    | inr (row, on) ↦ elim (Option-cases (get_elem? row i)) [
      | inl off ↦ ground arith
      | inr (c, hit) ↦
          unfold walkable cell_at in (rw zero-add at (candidates-nil 0 j i w.terrain e on hit))
    ]
  ]
  no_candidates (pos i) (negsuc j) e = refl
  no_candidates (negsuc i) y e = refl

get_elem?-lt {ℓ} :
    {A : Type ℓ} (xs : List A) (i : ℕ) → i < length xs → (a : A) × (get_elem? xs i ≡ some a)
get_elem?-lt [] i h = elim h [ ]
get_elem?-lt (x ∷ xs) zero h = (x, refl)
get_elem?-lt (x ∷ xs) (suc i) h = get_elem?-lt xs i (omega arith)

All-get_elem? {ℓ κ} :
    {A : Type ℓ} (P : A → Type κ) (xs : List A) (i : ℕ) {a : A}
    → All P xs
    → get_elem? xs i ≡ some a
    → P a
All-get_elem? P [] i h e = cc
All-get_elem? P (x ∷ xs) zero {a} h e = let same : x ≡ a = ground arith in rw (← same) h.0
All-get_elem? P (x ∷ xs) (suc i) h e = All-get_elem? P xs i h.1 e

-- What `best_spawn_cell` finds: a walkable cell, or nothing on a map with none.
pub data Found (w : World) (ignore : String) (r : Option (ℤ × ℤ)) : Type 0 where
  at_cell : (x y : ℤ) → r ≡ some (x, y) → walkable w x y ignore ≡ true → Found w ignore r
  nowhere : r ≡ none → ((x y : ℤ) → walkable w x y ignore ≡ false) → Found w ignore r

-- The choice of a cell to appear on always returns one of the walkable cells, and nothing only when no
-- cell of the map is walkable.
pub best_spawn_cell-Found :
    (w : World) (ignore : String) (prefer : Bool)
    → Found w ignore (best_spawn_cell w ignore prefer).0
unfolding best_spawn_cell intn
best_spawn_cell-Found w ignore prefer =
    let cs = candidates w ignore prefer 0 w.terrain in
    let sorted = sort_by candidate_less cs in
    let i =
      w.rng.answer w.rng.asked (if ltb (length sorted) 12 then length sorted else 12)
      % (if ltb (length sorted) 12 then length sorted else 12) in
    elim (Bool-cases (length sorted == 0)) [
      | inl empty ↦ nowhere (rw empty) (λ x y.
          no_candidates w ignore prefer x y (ground (arith, length-sort_by candidate_less cs)))
      | inr some_left ↦
          let (c, hit) = get_elem?-lt sorted i (ground arith) in
          at_cell (pos c.x) (pos c.y) (rw (some_left, hit)) (
            All-get_elem? (IsOpen w ignore prefer) sorted i
              (All-sort_by candidate_less (IsOpen w ignore prefer) cs
                (candidates-IsOpen w ignore prefer 0 w.terrain))
              hit)
    ]

-- The cell that `find_safe` gives is walkable, unless no cell of the map is.
pub find_safe-walkable :
    (w : World) (x y : ℤ) (ignore : String)
    → (let cell = (find_safe w x y ignore).0 in walkable w cell.0 cell.1 ignore ≡ true)
      ⊎ ((x' y' : ℤ) → walkable w x' y' ignore ≡ false)
unfolding find_safe
find_safe-walkable w x y ignore = elim (Bool-cases (walkable w x y ignore)) [
  | inl here ↦ inl (rw here here)
  | inr taken ↦ elim (best_spawn_cell-Found w ignore true) [
    | at_cell x' y' e ok ↦ inl (rw (taken, e) ok)
    | nowhere e none_free ↦ inr none_free
  ]
]
