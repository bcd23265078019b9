-- ===== src/World/Life.antt =====
-- world.go, falling and coming back: `knockDownPlayerLocked`, `refreshPlayerStateLocked`,
-- `respawnPlayer`, and the copies that leave the world, `profileLocked` and `playerViewLocked`.
-- Each handler reads the clock once: `now` stands for all its calls of `time.Now`.
use a_simple_game_server.Prelude.{ℕ, String, true, false, none, some, ◌+◌, ltb, if◌then◌else◌}
use a_simple_game_server.Prelude.Maps.{lookup, insert}
use a_simple_game_server.Protocol.{UserProfile, PlayerView, max_potions}
use a_simple_game_server.World.State.{Player, World, bump, respawn_in}
use a_simple_game_server.World.Place.{find_safe}

abbrev pub respawn_delay : ℕ
respawn_delay = 4_000_000_000

unfoldable pub knock_down : ℕ → Player → Player
knock_down now p = record p {
  hp = 0;
  alive = false;
  deaths = p.deaths + 1;
  respawn_at = some (now + respawn_delay);
  last_update = now;
}

abbrev pub max_ℕ : ℕ → ℕ → ℕ
max_ℕ a b = if ltb b a then a else b

-- The part of `refreshPlayerStateLocked` after its guards: the player stored under `key` revives.
unfoldable pub revive : ℕ → World → String → Player → World × Player
unfolding bump
revive now w key p =
    let (cell, w') = find_safe w w.cfg.spawn_x w.cfg.spawn_y p.username in
    let p' : Player = record p {
      x = cell.0;
      y = cell.1;
      hp = p.max_hp;
      potions = max_ℕ p.potions max_potions;
      alive = true;
      respawn_at = none;
      last_update = now;
    } in
    (bump (record w' { players = insert key p' w'.players }), p')

unfoldable pub refresh : ℕ → World → String → Player → World × Player
unfolding revive
refresh now w key p = if p.alive then (w, p) else elim p.respawn_at [
  | none ↦ (w, p)
  | some t ↦ if ltb now t then (w, p) else revive now w key p
]

unfoldable pub respawn_player : ℕ → World → String → World
respawn_player now w username = elim (lookup username w.players) [
  | none ↦ w
  | some p ↦
      if p.alive
      then w
      else let (cell, w') = find_safe w w.cfg.spawn_x w.cfg.spawn_y username in
        let p' : Player = record p {
          x = cell.0;
          y = cell.1;
          hp = p.max_hp;
          potions = max_potions;
          alive = true;
          respawn_at = none;
          last_update = now;
        } in
        bump (record w' { players = insert username p' w'.players })
]

unfoldable pub profile_locked : World → Player → UserProfile
profile_locked w p = record {
  username = p.username;
  password_hash = "";
  last_map = w.cfg.id;
  last_node = "";
  x = p.x;
  y = p.y;
  hp = p.hp;
  max_hp = p.max_hp;
  attack = p.attack;
  potions = p.potions;
  treasures = p.treasures;
  kills = p.kills;
  deaths = p.deaths;
  victories = p.victories;
  alive = p.alive;
}

unfoldable pub player_view : ℕ → Player → PlayerView
player_view now p = record {
  username = p.username;
  map_id = p.map_id;
  x = p.x;
  y = p.y;
  hp = p.hp;
  max_hp = p.max_hp;
  attack = p.attack;
  potions = p.potions;
  treasures = p.treasures;
  kills = p.kills;
  deaths = p.deaths;
  victories = p.victories;
  alive = p.alive;
  respawn_in = respawn_in now p;
  last_update = p.last_update;
}
