-- ===== src/World/Heal.antt =====
-- world.go, `HealPlayer`.
use a_simple_game_server.Prelude.{ℕ, String, none, some, ◌+◌, ◌-◌, ltb, eqb, if◌then◌else◌}
use a_simple_game_server.Prelude.Maps.{lookup, insert}
use a_simple_game_server.Protocol.{heal_amount}
use a_simple_game_server.Messages.{down_no_potion, out_of_potions, recovered}
use a_simple_game_server.World.State.{Player, World, bump, respawn_in}
use a_simple_game_server.World.Life.{refresh, profile_locked}
use a_simple_game_server.World.Move.{Reply}

-- The player after one potion.
unfoldable pub drink : ℕ → Player → Player
drink now p =
    let hp' = p.hp + heal_amount in
    record p {
      hp = if ltb p.max_hp hp' then p.max_hp else hp';
      potions = p.potions - 1;
      last_update = now;
    }

unfoldable pub heal_alive : ℕ → World → String → Player → World × Reply
unfolding drink bump
heal_alive now w username p =
    if eqb p.potions 0
    then (w, some (out_of_potions username, profile_locked w p))
    else let p' = drink now p in
      (
        bump (record w { players = insert username p' w.players }),
        some (recovered username (p'.hp - p.hp), profile_locked w p'),
      )

unfoldable pub heal_player : ℕ → World → String → World × Reply
heal_player now w username = elim (lookup username w.players) [
  | none ↦ (w, none)
  | some q ↦
      let (w', p) = refresh now w username q in
      if p.alive
      then heal_alive now w' username p
      else (w', some (down_no_potion username (respawn_in now p), profile_locked w' p))
]
