-- ===== src/World/Move.antt =====
-- world.go, `MovePlayer`. A handler returns the new world and, when the player is there, the event
-- and the profile.
use a_simple_game_server.Prelude.{
  ℕ, ℤ, pos, String, Option, none, some, ◌+◌, ◌+ℤ◌, ◌-ℤ◌, ◌==◌, string_eq, if◌then◌else◌,
}
use a_simple_game_server.Prelude.Maps.{lookup, insert, delete}
use a_simple_game_server.Protocol.{UserProfile}
use a_simple_game_server.Messages.{Event, down_no_move, blocked, moved_to, picked_up}
use a_simple_game_server.World.State.{Player, World, bump, respawn_in}
use a_simple_game_server.World.Place.{walkable}
use a_simple_game_server.World.Life.{refresh, profile_locked}
use a_simple_game_server.World.Spawn.{treasure_at}

abbrev pub Reply : Type 0
Reply = Option (Event × UserProfile)

-- The cell next to `(x, y)` in a direction; any other text stays.
unfoldable pub step_cell : ℤ → ℤ → String → ℤ × ℤ
step_cell x y dir =
    if dir == "up"
    then (x, y -ℤ pos 1)
    else if dir == "down"
    then (x, y +ℤ pos 1)
    else if dir == "left"
    then (x -ℤ pos 1, y)
    else if dir == "right"
    then (x +ℤ pos 1, y)
    else (x, y)

-- The end of `MovePlayer`: the cell is walkable.
unfoldable pub move_to : ℕ → World → String → Player → ℤ → ℤ → World × Reply
unfolding bump
move_to now w username p nx ny =
    let p' : Player = record p { x = nx; y = ny; last_update = now } in
    elim (treasure_at nx ny w.treasures) [
      | none ↦
          let w' : World = record w { players = insert username p' w.players } in
          (bump w', some (moved_to username nx ny, profile_locked w p'))
      | some (id, t) ↦
          let p'' : Player = record p' { treasures = p.treasures + t.value } in
          let w' : World = record w {
            players = insert username p'' w.players;
            treasures = delete id w.treasures;
          } in
          (bump w', some (picked_up username nx ny t.kind t.value, profile_locked w p''))
    ]

unfoldable pub move_alive : ℕ → World → String → Player → String → World × Reply
move_alive now w username p dir =
    let (nx, ny) = step_cell p.x p.y dir in
    if walkable w nx ny p.username
    then move_to now w username p nx ny
    else (w, some (blocked username, profile_locked w p))

unfoldable pub move_player : ℕ → World → String → String → World × Reply
move_player now w username dir = elim (lookup username w.players) [
  | none ↦ (w, none)
  | some q ↦
      let (w', p) = refresh now w username q in
      if p.alive
      then move_alive now w' username p dir
      else (w', some (down_no_move username (respawn_in now p), profile_locked w' p))
]
