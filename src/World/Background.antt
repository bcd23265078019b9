-- ===== src/World/Background.antt =====
-- world.go, `BackgroundStep` and `closestPlayerLocked`: revivals, respawning monsters and
-- treasures, and each monster's attack or walk. Ranges over a map run over its keys.
use a_simple_game_server.Prelude.{
  ℕ, zero, suc, ℤ, pos, String, Bool, true, not, ◌&&◌, List, [], ◌∷◌, ◌++◌, Option, none, some, ◌+◌,
  ◌-◌, ◌%◌, ◌+ℤ◌, ◌-ℤ◌, ltb, leb, eqb, str_lt, length, if◌then◌else◌,
}
use a_simple_game_server.Prelude.Maps.{lookup, insert, keys}
use a_simple_game_server.Prelude.Sorting.{sort_by}
use a_simple_game_server.Protocol.{min_npcs, max_treasures}
use a_simple_game_server.Messages.{
  Event, revived_at_camp, npc_appeared, treasure_appeared, fell_to_npc, struck,
}
use a_simple_game_server.World.State.{Player, Npc, World, bump, distance, intn}
use a_simple_game_server.World.Place.{walkable}
use a_simple_game_server.World.Life.{refresh, knock_down}
use a_simple_game_server.World.Spawn.{spawn_npc, spawn_treasure}
use a_simple_game_server.World.Attack.{player_weaker}

-- The first loop: everybody whose time has come revives.
unfoldable pub refresh_all : ℕ → List String → World → World × List Event
refresh_all now [] w = (w, [])
refresh_all now (k ∷ ks) w = elim (lookup k w.players) [
  | none ↦ refresh_all now ks w
  | some q ↦
      let (w', p) = refresh now w k q in
      let (w'', events) = refresh_all now ks w' in
      (w'', (if not q.alive && p.alive then revived_at_camp p.username ∷ events else events))
]

-- The second loop: monsters up to the minimum, or until no cell is free.
unfoldable pub top_up_npcs : ℕ → World → World × List Event
top_up_npcs zero w = (w, [])
top_up_npcs (suc f) w =
    let (w', spawned) = spawn_npc w in
    let (w'', events) = top_up_npcs f w' in
    if ltb (length w.npcs) min_npcs
    then elim spawned [
      | none ↦ (w', [])
      | some n ↦ (w'', npc_appeared w.cfg.name n.name n.x n.y ∷ events)
    ]
    else (w, [])

-- The chance of a new treasure, below the limit.
unfoldable pub roll_treasure : World → World × List Event
roll_treasure w =
    let (roll, w') = intn w 100 in
    if not (ltb roll 45)
    then (w', [])
    else let (w'', laid) = spawn_treasure w' "野外宝箱" in
      elim laid [ none ↦ (w'', []) | some t ↦ (w'', treasure_appeared w.cfg.name t.x t.y ∷ []) ]

unfoldable pub maybe_treasure : World → World × List Event
unfolding roll_treasure
maybe_treasure w = if ltb (length w.treasures) max_treasures then roll_treasure w else (w, [])

-- `closestPlayerLocked`, a loop that also refreshes every player.
unfoldable pub closest_player :
    ℕ
    → ℤ
    → ℤ
    → ℕ
    → Option (String × Player)
    → List String
    → World
    → World × Option (String × Player)
closest_player now x y radius best [] w = (w, best)
closest_player now x y radius best (k ∷ ks) w = elim (lookup k w.players) [
  | none ↦ closest_player now x y radius best ks w
  | some q ↦
      let (w', p) = refresh now w k q in
      let better : Bool = elim best [ none ↦ true | some (_, b) ↦ player_weaker p b ] in
      let near = p.alive && leb (distance x y p.x p.y) radius in
      closest_player now x y radius (if near && better then some (k, p) else best) ks w'
]

unfoldable pub npc_strikes : ℕ → World → Npc → String → Player → World × List Event
unfolding bump
npc_strikes now w n key target =
    let hurt : Player = record target { hp = target.hp - n.attack; last_update = now } in
    if eqb hurt.hp 0
    then (
      bump (record w { players = insert key (knock_down now hurt) w.players }),
      fell_to_npc target.username n.name ∷ [],
    )
    else (
      bump (record w { players = insert key hurt w.players }),
      struck n.name target.username n.attack ∷ [],
    )

-- The cell in one of the four directions that the walk tries.
unfoldable pub walk_cell : ℕ → ℤ → ℤ → ℤ × ℤ
walk_cell zero x y = (x, y -ℤ pos 1)
walk_cell (suc zero) x y = (x, y +ℤ pos 1)
walk_cell (suc (suc zero)) x y = (x -ℤ pos 1, y)
walk_cell _ x y = (x +ℤ pos 1, y)

-- `for step := 4 - left; step < 4; step++`: the first direction that is free.
unfoldable pub npc_walks : World → String → Npc → ℕ → ℕ → World
unfolding bump walk_cell
npc_walks w id n base zero = w
npc_walks w id n base (suc left) =
    let rest = npc_walks w id n base left in
    let (nx, ny) = walk_cell ((base + (4 - suc left)) % 4) n.x n.y in
    if walkable w nx ny ""
    then bump (record w { npcs = insert id (record n { x = nx; y = ny }) w.npcs })
    else rest

-- One round of the last loop.
unfoldable pub npc_turn : ℕ → World → String → World × List Event
npc_turn now w id = elim (lookup id w.npcs) [
  | none ↦ (w, [])
  | some n ↦
      if not n.alive
      then (w, [])
      else let (w', target) = closest_player now n.x n.y 1 none (keys w.players) w in
        elim target [
          | some (key, p) ↦ npc_strikes now w' n key p
          | none ↦ let (base, w'') = intn w' 4 in (npc_walks w'' id n base 4, [])
        ]
]

unfoldable pub npc_turns : ℕ → List String → World → World × List Event
npc_turns now [] w = (w, [])
npc_turns now (id ∷ ids) w =
    let (w', events) = npc_turn now w id in
    let (w'', later) = npc_turns now ids w' in (w'', events ++ later)

unfoldable pub background_step : ℕ → World → World × List Event
background_step now w =
    let (w1, revived) = refresh_all now (keys w.players) w in
    let (w2, appeared) = top_up_npcs (length w1.npcs + min_npcs) w1 in
    let (w3, laid) = maybe_treasure w2 in
    let (w4, acted) = npc_turns now (sort_by str_lt (keys w3.npcs)) w3 in
    (w4, revived ++ (appeared ++ (laid ++ acted)))
