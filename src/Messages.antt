-- ===== src/Messages.antt =====
-- The texts that the server sends to players, one constructor for each format string of world.go
-- and cluster.go, with the values that are put in. `silent` is the empty string.
use a_simple_game_server.Prelude.{ℕ, ℤ, String, Bool, true, false}

pub data Event : Type 0 where
  silent : Event
  down_no_move : String → ℕ → Event
  blocked : String → Event
  moved_to : String → ℤ → ℤ → Event
  picked_up : String → ℤ → ℤ → String → ℕ → Event
  down_no_potion : String → ℕ → Event
  out_of_potions : String → Event
  recovered : String → ℕ → Event
  down_no_attack : String → ℕ → Event
  struck : String → String → ℕ → Event
  defeated_npc : String → String → Event
  no_target : String → Event
  defeated_player : String → String → Event
  attacked_by : String → ℕ → Event
  knocked_down_by : String → ℕ → Event
  down_no_shop : String → ℕ → Event
  short_for_potion : ℕ → Event
  potion_limit : ℕ → Event
  bought_potion : String → ℕ → Event
  short_for_weapon : ℕ → Event
  bought_weapon : String → ℕ → ℕ → Event
  unknown_item : Event
  revived_at_camp : String → Event
  npc_appeared : String → String → ℤ → ℤ → Event
  treasure_appeared : String → ℤ → ℤ → Event
  fell_to_npc : String → String → Event
  welcome_back : String → Event
  map_hosted_by : String → String → Event
  boss_out_of_range : ℕ → Event
  boss_reforming : ℕ → Event
  boss_ended : String → String → Event
  boss_reward : ℕ → Event
  boss_struck : String → String → ℕ → ℕ → ℕ → Event
  boss_returned : String → Event
  already_on_map : String → Event
  down_no_switch : String → Event
  switched_map : String → String → Event
  failover : String → String → String → Event
  admin_failed : String → Event
  admin_recovered : String → Event

abbrev pub is_silent : Event → Bool
is_silent silent = true
is_silent _ = false
