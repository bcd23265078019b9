-- ===== src/Lab2/Tests.antt =====
-- The theorems about the open world at concrete inputs.
use a_simple_game_server.Prelude.{◌-ℤ◌, In, All, ◌⊎◌, inl, ◌≤◌, [], ◌∷◌, refl, arith, nat_eq}
use a_simple_game_server.Lab2.World.{
  Player, World, new_player, new_world, find_player, add_player, attack_player,
}
use a_simple_game_server.Lab2.Rules.{IsWorld}
use a_simple_game_server.Lab2.Reach.{start, joins, attacks, Reaches-IsWorld}
use a_simple_game_server.Lab2.Targets.{InReach, OutOfReach}
use a_simple_game_server.Lab2.Strikes.{Struck, attack_player_lem}

abbrev ann : Player
ann = new_player (4, 4) 1 "ann"

abbrev bob : Player
bob = record (new_player (5, 4) 2 "bob") { hp = 20 }

abbrev cid : Player
cid = new_player (4, 5) 3 "cid"

abbrev trio : World
trio = record { players = cid ∷ bob ∷ ann ∷ []; next_id = 4 }

attack_player_lem_example :
    (t : Player) × In t trio.players
    × InReach ann t
    × All (λ p. OutOfReach ann p ⊎ (t.hp ≤ p.hp)) trio.players
    × Struck trio 1 3 ann t
unfolding ◌-ℤ◌
attack_player_lem_example =
    attack_player_lem trio 1 3 ann cid (ground arith) (unfold find_player in refl) refl (inl refl)
      ((λ e. omega arith), refl, omega arith)

abbrev after_blow : World
after_blow = (attack_player (add_player (5, 4) (add_player (4, 4) new_world "ann").0 "bob").0 1).0

Reaches-IsWorld_example : IsWorld after_blow
Reaches-IsWorld_example = Reaches-IsWorld after_blow (
    attacks (add_player (5, 4) (add_player (4, 4) new_world "ann").0 "bob").0 1 (
      joins (5, 4) (add_player (4, 4) new_world "ann").0 "bob"
        (joins (4, 4) new_world "ann" start)))
