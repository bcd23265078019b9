-- ===== src/World/Sessions.antt =====
-- world.go, players that come, go and are rewarded: `AddOrRestorePlayer`, `RemovePlayer`,
-- `ProfileOf` and `RewardPlayer`.
use a_simple_game_server.Prelude.{
  ℕ, ℤ, String, true, false, not, ◌&&◌, Option, none, some, ◌+◌, eqb, ◌==◌, string_eq,
  if◌then◌else◌,
}
use a_simple_game_server.Prelude.Maps.{lookup, insert, delete}
use a_simple_game_server.Protocol.{UserProfile, PlayerView, init_hp, init_attack, max_potions}
use a_simple_game_server.World.State.{Player, World, bump, value_or}
use a_simple_game_server.World.Place.{find_safe}
use a_simple_game_server.World.Life.{refresh, profile_locked, player_view}

-- The player that `AddOrRestorePlayer` builds at a cell.
unfoldable pub restored_player : ℕ → World → UserProfile → ℤ → ℤ → Player
unfolding value_or
restored_player now w profile x y =
    let built : Player = record {
      username = profile.username;
      map_id = w.cfg.id;
      x = x;
      y = y;
      hp = value_or profile.hp init_hp;
      max_hp = value_or profile.max_hp init_hp;
      attack = value_or profile.attack init_attack;
      potions = value_or profile.potions max_potions;
      treasures = profile.treasures;
      kills = profile.kills;
      deaths = profile.deaths;
      victories = profile.victories;
      alive = profile.alive;
      respawn_at = none;
      last_update = now;
    } in
    let downed : Player =
      if eqb profile.hp 0 && not profile.alive then record built { alive = false } else built in
    if eqb downed.hp 0 then record downed { hp = downed.max_hp; alive = true } else downed

unfoldable pub add_or_restore_player : ℕ → World → UserProfile → World × PlayerView
unfolding restored_player bump
add_or_restore_player now w profile =
    let x = if profile.last_map == w.cfg.id then profile.x else w.cfg.spawn_x in
    let y = if profile.last_map == w.cfg.id then profile.y else w.cfg.spawn_y in
    let (cell, w') = find_safe w x y "" in
    let p = restored_player now w' profile cell.0 cell.1 in
    (bump (record w' { players = insert p.username p w'.players }), player_view now p)

unfoldable pub remove_player : World → String → World × Option UserProfile
unfolding bump
remove_player w username = elim (lookup username w.players) [
  | none ↦ (w, none)
  | some p ↦ (bump (record w { players = delete username w.players }), some (profile_locked w p))
]

unfoldable pub profile_of : ℕ → World → String → World × Option UserProfile
profile_of now w username = elim (lookup username w.players) [
  | none ↦ (w, none)
  | some q ↦ let (w', p) = refresh now w username q in (w', some (profile_locked w' p))
]

unfoldable pub reward_player : ℕ → World → String → ℕ → ℕ → World × Option UserProfile
unfolding bump
reward_player now w username treasure_delta victory_delta = elim (lookup username w.players) [
  | none ↦ (w, none)
  | some p ↦
      let p' : Player = record p {
        treasures = p.treasures + treasure_delta;
        victories = p.victories + victory_delta;
        last_update = now;
      } in
      let w' = bump (record w { players = insert username p' w.players }) in
      (w', some (profile_locked w' p'))
]
