-- ===== src/World/Tests.antt =====
-- The theorems about world.go at concrete inputs.
use text.Mathlib.TextEquality.{eq_iff}
use a_simple_game_server.Prelude.{
  inl, ℤ, pos, String, true, false, [], ◌∷◌, none, some, ◌+◌, ◌-◌, ◌≤◌, ◌≡◌, refl, ◌⊎◌, ◌↔◌, arith,
  decimal,
}
use a_simple_game_server.Prelude.Maps.{lookup, insert}
use a_simple_game_server.Messages.{recovered}
use a_simple_game_server.Protocol.{PlayerView, NpcView, MapCheckpoint}
use a_simple_game_server.World.State.{Player, Npc, World}
use a_simple_game_server.World.Grid.{cell_at, is_wall}
use a_simple_game_server.World.Place.{walkable, best_spawn_cell, find_safe}
use a_simple_game_server.World.Life.{refresh, profile_locked}
use a_simple_game_server.World.Spawn.{drop_treasure}
use a_simple_game_server.World.Move.{move_player}
use a_simple_game_server.World.Heal.{heal_player}
use a_simple_game_server.World.Attack.{pick_npc, attack}
use a_simple_game_server.World.Shop.{buy_item}
use a_simple_game_server.World.Sessions.{add_or_restore_player}
use a_simple_game_server.World.Background.{background_step}
use a_simple_game_server.World.Snapshot.{load_players, load_npcs, npc_of_view, restore_checkpoint}
use a_simple_game_server.World.Walkable.{IsFree, walkable_iff}
use a_simple_game_server.World.SpawnCells.{Found, best_spawn_cell-Found, find_safe-walkable}
use a_simple_game_server.World.Outcomes.{Updated, store}
use a_simple_game_server.World.Targets.{Picked, NpcInReach, NpcNotAfter, pick_npc-Picked}
use a_simple_game_server.World.HitPoints.{IsSound, AllSound, attack-AllSound}
use a_simple_game_server.World.BackgroundHitPoints.{background_step-AllSound}
use a_simple_game_server.World.Effects.{IsHealed, IsPurchase, heal_player_lem, buy_item_lem}
use a_simple_game_server.World.Stuck.{
  StaysStuck, refresh_due, add_or_restore_player_stuck, restore_checkpoint_stuck,
}
use a_simple_game_server.World.Occupancy.{Apart, HasRoom, move_player-Apart}
use a_simple_game_server.World.Loot.{loot, move_player-loot}
use a_simple_game_server.World.Collisions.{Replaces, drop_treasure-loot, restore_then_spawn}
use a_simple_game_server.World.Examples.{ann, ben, fallen, bat, rat, world, fallen_profile}

ann-IsSound : IsSound ann
ann-IsSound = record { at_most = omega arith; room = omega arith; standing = λ _. omega arith }

ben-IsSound : IsSound ben
ben-IsSound = record { at_most = omega arith; room = omega arith; standing = λ _. omega arith }

world-AllSound : AllSound world
world-AllSound = (ann-IsSound, (ben-IsSound, tt))

-- `ann` alone with the `bat`.
abbrev alone : World
alone = record world { players = ("ann", ann) ∷ []; npcs = ("m-npc-1", bat) ∷ [] }

alone-Apart : Apart alone
unfolding lookup
alone-Apart = record {
  named = λ k p at. ground (arith, eq_iff "ann" k);
  players_apart = λ k j p q at bt ne up vp. λ same. ground (arith, eq_iff "ann" k, eq_iff "ann" j);
  npcs_apart = λ k p at up. ((λ on same. ground (arith, eq_iff "ann" k)), tt);
}

alone-HasRoom : HasRoom alone "ann"
unfolding walkable cell_at is_wall
alone-HasRoom = (pos 2, pos 1, ground arith)

walkable_iff_example :
    (walkable world (pos 2) (pos 1) "ann" ≡ true) ↔ IsFree world (pos 2) (pos 1) "ann"
walkable_iff_example = walkable_iff world (pos 2) (pos 1) "ann"

move_player-Apart_example : Apart (move_player 9 alone "ann" "right").0
move_player-Apart_example = move_player-Apart 9 alone "ann" "right" alone-Apart alone-HasRoom

move_player-loot_example : loot (move_player 9 world "ann" "right").0 ≡ loot world
unfolding lookup
move_player-loot_example = move_player-loot 9 world "ann" "right" (refl, tt)

pick_npc-Picked_example :
    Picked
      (NpcInReach (pos 1) (pos 1))
      NpcNotAfter
      world.npcs
      (pick_npc (pos 1) (pos 1) none world.npcs)
pick_npc-Picked_example = pick_npc-Picked (pos 1) (pos 1) world.npcs

attack-AllSound_example : AllSound (attack 9 world "ann").0
attack-AllSound_example = attack-AllSound 9 world "ann" world-AllSound

background_step-AllSound_example : AllSound (background_step 9 world).0
background_step-AllSound_example = background_step-AllSound 9 world world-AllSound

heal_player_lem_example :
    (p' : Player) × IsHealed ann p'
    × (heal_player 9 world "ann"
        ≡ (store world "ann" p', some (recovered "ann" (p'.hp - 50), profile_locked world p')))
unfolding lookup
heal_player_lem_example = heal_player_lem 9 world "ann" ann refl refl ann-IsSound (omega arith)

buy_item_lem_example : Updated (IsPurchase ann) world "ann" (buy_item 9 world "ann" "potion").0
unfolding lookup
buy_item_lem_example = buy_item_lem 9 world "ann" "potion" ann refl refl

abbrev wanted : String
wanted = "potion"

best_spawn_cell-Found_example : Found world "ann" (best_spawn_cell world "ann" true).0
best_spawn_cell-Found_example = best_spawn_cell-Found world "ann" true

find_safe-walkable_example :
    (let cell = (find_safe world (pos 1) (pos 1) "ann").0 in
      walkable world cell.0 cell.1 "ann" ≡ true)
    ⊎ ((x' y' : ℤ) → walkable world x' y' "ann" ≡ false)
find_safe-walkable_example = find_safe-walkable world (pos 1) (pos 1) "ann"

refresh_due_example :
    (let r = refresh 9 world "ann" fallen in
      (r.1.alive ≡ true)
      × (r.1.hp ≡ 120)
      × (3 ≤ r.1.potions)
      × (lookup "ann" r.0.players ≡ some r.1)
      × ((walkable world r.1.x r.1.y "ann" ≡ true)
          ⊎ ((x y : ℤ) → walkable world x y "ann" ≡ false)))
refresh_due_example = refresh_due 9 world "ann" fallen 7 refl refl (omega arith)

add_or_restore_player_stuck_example :
    StaysStuck (add_or_restore_player 9 world fallen_profile).0 "ann" 1000 "up"
add_or_restore_player_stuck_example =
    add_or_restore_player_stuck 9 1000 world fallen_profile "up" refl

abbrev fallen_view : PlayerView
fallen_view = record {
  username = "ann";
  map_id = "m";
  x = pos 1;
  y = pos 1;
  hp = 0;
  max_hp = 120;
  attack = 35;
  potions = 2;
  treasures = 4;
  kills = 0;
  deaths = 1;
  victories = 0;
  alive = false;
  respawn_in = 5;
  last_update = 0;
}

-- Ann is down in the checkpoint, with five seconds left.
abbrev with_fallen : MapCheckpoint
with_fallen = record {
  map_id = "m";
  node_id = "node-a";
  version = 5;
  terrain = [];
  players = fallen_view ∷ [];
  npcs = [];
  treasures = [];
  checkpoint = 8;
}

restore_checkpoint_stuck_example :
    StaysStuck (restore_checkpoint 9 world with_fallen) "ann" 1000 "up"
restore_checkpoint_stuck_example =
    restore_checkpoint_stuck 9 1000 world with_fallen fallen_view "up" refl (λ e. omega (arith, e))
      (tt, tt) (inl refl) refl

drop_treasure-loot_example : loot (drop_treasure world (pos 1) (pos 1) 5 "coin").0 ≡ loot world + 5
unfolding lookup cell_at decimal
drop_treasure-loot_example =
    drop_treasure-loot world (pos 1) (pos 1) 5 "coin" "." refl (refl, tt) refl

abbrev view_of : Npc → NpcView
view_of n = record {
  id = n.id;
  name = n.name;
  x = n.x;
  y = n.y;
  hp = n.hp;
  max_hp = n.max_hp;
  attack = n.attack;
  alive = n.alive;
}

-- Two monsters, the second of which has the number 3.
abbrev two_monsters : MapCheckpoint
two_monsters = record {
  map_id = "m";
  node_id = "node-a";
  version = 5;
  terrain = [];
  players = [];
  npcs = view_of bat ∷ view_of rat ∷ [];
  treasures = [];
  checkpoint = 8;
}

restore_then_spawn_example : Replaces (restore_checkpoint 9 world two_monsters) rat
unfolding lookup insert load_npcs npc_of_view decimal restore_checkpoint load_players walkable
    cell_at is_wall
restore_then_spawn_example =
    restore_then_spawn 9 world two_monsters rat (pos 1) (pos 1) refl (λ e. omega (arith, e)) refl
      refl refl
