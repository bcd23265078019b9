-- ===== src/World/Place.antt =====
-- world.go, where a unit may stand: `walkableForLocked`, `spawnScoreLocked`,
-- `bestSpawnCellLocked` and `findSafePositionLocked`.
use Prim.Native.Char.{Char}
use a_simple_game_server.Prelude.{
  ℕ, suc, ℤ, pos, String, Bool, true, false, not, ◌&&◌, List, [], ◌∷◌, ◌++◌, Option, none, some,
  ◌+◌, ◌*◌, ◌/◌, ◌+ℤ◌, ◌-ℤ◌, ◌*ℤ◌, ltb, ltb_ℤ, ◌==◌, string_eq, int_eq, nat_eq, length, get_elem?,
  any, if◌then◌else◌,
}
use a_simple_game_server.Prelude.Maps.{Map}
use a_simple_game_server.Prelude.Sorting.{sort_by}
use a_simple_game_server.Protocol.{map_width, map_height}
use a_simple_game_server.World.State.{Player, Npc, Treasure, World, Grid, distance, intn}
use a_simple_game_server.World.Grid.{cell_at, is_wall, row_length}

-- An alive player of another name stands on the cell.
unfoldable pub player_blocks : ℤ → ℤ → String → String × Player → Bool
player_blocks x y ignore (_, p) = not (p.username == ignore) && p.alive && p.x == x && p.y == y

unfoldable pub npc_blocks : ℤ → ℤ → String × Npc → Bool
npc_blocks x y (_, n) = n.alive && n.x == x && n.y == y

unfoldable pub walkable : World → ℤ → ℤ → String → Bool
unfolding any player_blocks npc_blocks
walkable w x y ignore = elim (cell_at w.terrain x y) [
  | none ↦ false
  | some c ↦
      if is_wall c
      then false
      else if any (player_blocks x y ignore) w.players
      then false
      else if any (npc_blocks x y) w.npcs
      then false
      else true
]

pub record Candidate : Type 0 where
  pub x : ℕ
  pub y : ℕ
  pub score : ℤ

-- The three loops that look for the nearest living unit or treasure, from a bound down.
unfoldable pub nearest_npc : ℤ → ℤ → ℕ → Map Npc → ℕ
nearest_npc x y best [] = best
nearest_npc x y best ((_, n) ∷ ns) =
    nearest_npc x y
      (if n.alive then (let d = distance x y n.x n.y in if ltb d best then d else best) else best)
      ns

unfoldable pub nearest_player : ℤ → ℤ → ℕ → Map Player → ℕ
nearest_player x y best [] = best
nearest_player x y best ((_, p) ∷ ps) =
    nearest_player x y
      (if p.alive then (let d = distance x y p.x p.y in if ltb d best then d else best) else best)
      ps

unfoldable pub nearest_treasure : ℤ → ℤ → ℕ → Map Treasure → ℕ
nearest_treasure x y best [] = best
nearest_treasure x y best ((_, t) ∷ ts) =
    nearest_treasure x y (let d = distance x y t.x t.y in if ltb d best then d else best) ts

abbrev pub min_ℤ : ℤ → ℤ → ℤ
min_ℤ a b = if ltb_ℤ a b then a else b

unfoldable pub spawn_score : World → ℤ → ℤ → Bool → ℤ
unfolding nearest_npc nearest_player nearest_treasure distance
spawn_score w x y prefer_npc =
    let far = map_width + map_height in
    let best_npc = nearest_npc x y far w.npcs in
    let best_player = nearest_player x y far w.players in
    let best_treasure = nearest_treasure x y far w.treasures in
    let width = row_length w.terrain 0 in
    let height = length w.terrain in
    let edge_margin =
      min_ℤ (min_ℤ x (pos width -ℤ pos 1 -ℤ x)) (min_ℤ y (pos height -ℤ pos 1 -ℤ y)) in
    let center_dist = distance x y (pos (width / 2)) (pos (height / 2)) in
    let score =
      pos (best_npc * 120 + best_player * 20 + best_treasure * 15)
      +ℤ edge_margin *ℤ pos 30
      -ℤ pos (center_dist * 3) in
    if prefer_npc then score +ℤ pos (distance x y w.cfg.spawn_x w.cfg.spawn_y * 2) else score

-- The walkable cells of one row, from column `x` on, and then of all rows from row `y` on.
unfoldable pub row_candidates : World → String → Bool → ℕ → ℕ → List Char → List Candidate
row_candidates w ignore prefer y x [] = []
row_candidates w ignore prefer y x (c ∷ cs) =
    let rest = row_candidates w ignore prefer y (suc x) cs in
    if walkable w (pos x) (pos y) ignore
    then record { x = x; y = y; score = spawn_score w (pos x) (pos y) prefer } ∷ rest
    else rest

unfoldable pub candidates : World → String → Bool → ℕ → Grid → List Candidate
unfolding row_candidates
candidates w ignore prefer y [] = []
candidates w ignore prefer y (row ∷ rows) =
    row_candidates w ignore prefer y 0 row ++ candidates w ignore prefer (suc y) rows

-- Higher scores first, ties by row and then by column.
unfoldable pub candidate_less : Candidate → Candidate → Bool
candidate_less a b =
    if a.score == b.score
    then (if a.y == b.y then ltb a.x b.x else ltb a.y b.y)
    else ltb_ℤ b.score a.score

-- One of the twelve best cells, at random; `none` when no cell is walkable.
unfoldable pub best_spawn_cell : World → String → Bool → Option (ℤ × ℤ) × World
unfolding candidates
best_spawn_cell w ignore prefer =
    let sorted = sort_by candidate_less (candidates w ignore prefer 0 w.terrain) in
    let count = length sorted in
    if count == 0
    then (none, w)
    else let (i, w') = intn w (if ltb count 12 then count else 12) in
      (elim (get_elem? sorted i) [ none ↦ none | some c ↦ some (pos c.x, pos c.y) ], w')

unfoldable pub find_safe : World → ℤ → ℤ → String → (ℤ × ℤ) × World
find_safe w x y ignore =
    if walkable w x y ignore
    then ((x, y), w)
    else let (found, w') = best_spawn_cell w ignore true in
      elim found [ none ↦ ((w.cfg.spawn_x, w.cfg.spawn_y), w') | some cell ↦ (cell, w') ]
