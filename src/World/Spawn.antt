-- ===== src/World/Spawn.antt =====
-- world.go, what appears on the map: `treasureAtLocked`, `dropTreasureLocked`,
-- `spawnTreasureLocked`, `spawnNPCLocked`, `bootstrap` and `NewWorld`.
use a_simple_game_server.Prelude.{
  ℕ, zero, suc, ℤ, String, true, false, ◌&&◌, List, [], ◌∷◌, Option, none, some, ◌+◌, ◌%◌, ◌/◌,
  ◌==◌, int_eq, ltb, length, get_elem?, if◌then◌else◌, decimal,
}
use Prim.Native.String.{◌++◌}
use a_simple_game_server.Prelude.Maps.{Map, insert}
use a_simple_game_server.Protocol.{npc_damage, min_npcs, max_treasures}
use a_simple_game_server.World.State.{MapConfig, Npc, Treasure, World, intn, bump}
use a_simple_game_server.World.Grid.{cell_at, strings_to_grid}
use a_simple_game_server.World.Place.{best_spawn_cell}

-- The first treasure on the cell, with its key.
unfoldable pub treasure_at : ℤ → ℤ → Map Treasure → Option (String × Treasure)
treasure_at x y [] = none
treasure_at x y ((id, t) ∷ ts) = if t.x == x && t.y == y then some (id, t) else treasure_at x y ts

abbrev pub treasure_id : String → ℕ → String
treasure_id map_id n = (map_id ++ "-t-") ++ decimal n

abbrev pub npc_id : String → ℕ → String
npc_id map_id n = (map_id ++ "-npc-") ++ decimal n

-- Adds to the treasure that lies on the cell, or lays down a new one.
unfoldable pub drop_treasure : World → ℤ → ℤ → ℕ → String → World × Option Treasure
unfolding bump
drop_treasure w x y value kind = elim (cell_at w.terrain x y) [
  | none ↦ (w, none)
  | some _ ↦ elim (treasure_at x y w.treasures) [
    | some (key, t) ↦
        let t' : Treasure = record t { value = t.value + value } in
        (bump (record w { treasures = insert key t' w.treasures }), some t')
    | none ↦
        let id = treasure_id w.cfg.id w.next_treasure in
        let t : Treasure = record { id = id; kind = kind; x = x; y = y; value = value } in
        (
          bump (record w {
            treasures = insert id t w.treasures;
            next_treasure = w.next_treasure + 1;
          }),
          some t,
        )
  ]
]

unfoldable pub spawn_treasure : World → String → World × Option Treasure
spawn_treasure w kind =
    let (found, w') = best_spawn_cell w "" false in
    elim found [
      | none ↦ (w', none)
      | some cell ↦ let (v, w'') = intn w' 4 in drop_treasure w'' cell.0 cell.1 (1 + v) kind
    ]

abbrev pub npc_names : List String
npc_names = "史莱姆" ∷ "荒原狼" ∷ "流寇" ∷ "宝匣怪" ∷ "石像魔" ∷ "潜行兽" ∷ []

abbrev pub npc_name : ℕ → String
npc_name n = elim (get_elem? npc_names (n % length npc_names)) [ none ↦ "" | some s ↦ s ]

unfoldable pub spawn_npc : World → World × Option Npc
unfolding bump
spawn_npc w =
    let (found, w') = best_spawn_cell w "" true in
    elim found [
      | none ↦ (w', none)
      | some cell ↦
          let (v, w'') = intn w' 30 in
          let id = npc_id w''.cfg.id w''.next_npc in
          let n : Npc = record {
            id = id;
            name = npc_name w''.next_npc;
            x = cell.0;
            y = cell.1;
            hp = 70 + v;
            max_hp = 90;
            attack = npc_damage;
            alive = true;
          } in
          (bump (record w'' { next_npc = w''.next_npc + 1; npcs = insert id n w''.npcs }), some n)
    ]

-- The loops of `bootstrap`, which has no exit but its test. `none`: still looping after that many
-- rounds.
unfoldable pub bootstrap_npcs : ℕ → World → Option World
bootstrap_npcs zero w = if ltb (length w.npcs) min_npcs then none else some w
bootstrap_npcs (suc f) w =
    let rest = bootstrap_npcs f (spawn_npc w).0 in
    if ltb (length w.npcs) min_npcs then rest else some w

unfoldable pub bootstrap_treasures : ℕ → World → Option World
bootstrap_treasures zero w = if ltb (length w.treasures) (max_treasures / 2) then none else some w
bootstrap_treasures (suc f) w =
    let rest = bootstrap_treasures f (spawn_treasure w "遗迹补给").0 in
    if ltb (length w.treasures) (max_treasures / 2) then rest else some w

unfoldable pub bootstrap : ℕ → World → Option World
unfolding bootstrap_npcs bootstrap_treasures
bootstrap fuel w = elim (bootstrap_npcs fuel w) [
  | none ↦ none
  | some w' ↦ bootstrap_treasures fuel w'
]

-- The world before `bootstrap`. `seeded` is the generator that a map's identifier seeds.
unfoldable pub blank_world : (String → List ℕ → ℕ → ℕ) → MapConfig → World
blank_world seeded cfg = record {
  cfg = cfg;
  terrain = strings_to_grid cfg.layout;
  players = [];
  npcs = [];
  treasures = [];
  rng = record { asked = []; answer = seeded cfg.id };
  version = 0;
  next_npc = 0;
  next_treasure = 0;
}

unfoldable pub new_world : (String → List ℕ → ℕ → ℕ) → ℕ → MapConfig → Option World
unfolding blank_world bootstrap
new_world seeded fuel cfg = bootstrap fuel (blank_world seeded cfg)
