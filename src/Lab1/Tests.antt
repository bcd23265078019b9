-- ===== src/Lab1/Tests.antt =====
-- The theorems about the duel at concrete inputs.
use a_simple_game_server.Prelude.{◌-ℤ◌, pos, [], ◌∷◌, some, none, arith, List, Option, replicate}
use a_simple_game_server.Lab1.Game.{Request, Game, start_game, new_game, new_player, run}
use a_simple_game_server.Lab1.Rules.{Ends, run-Ends}
use a_simple_game_server.Lab1.Duration.{IsOver, run-IsOver}

abbrev attack : Option Request
attack = some (record { kind = "attack"; dir = "" })

abbrev step_right : Option Request
step_right = some (record { kind = "move"; dir = "right" })

abbrev far_game : Game
far_game = start_game "ann" "bob"

run-Ends_example :
    Ends far_game
      (step_right ∷ attack ∷ none ∷ [])
      (run far_game (step_right ∷ attack ∷ none ∷ [])).0
run-Ends_example = run-Ends far_game (step_right ∷ attack ∷ none ∷ []) (ground arith)

abbrev near_game : Game
near_game = new_game (new_player 1 "ann" (pos 4) (pos 5)) (new_player 2 "bob" (pos 5) (pos 6))

abbrev eight_attacks : List (Option Request)
eight_attacks = replicate 8 attack

run-IsOver_example : IsOver (run near_game eight_attacks).0
unfolding ◌-ℤ◌
run-IsOver_example =
    run-IsOver near_game eight_attacks (ground arith) (omega arith) (ground arith) (omega arith)
