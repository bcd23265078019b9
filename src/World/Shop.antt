-- ===== src/World/Shop.antt =====
-- world.go, `BuyItem`.
use a_simple_game_server.Prelude.{
  ℕ, String, none, some, ◌+◌, ◌-◌, ltb, leb, ◌==◌, string_eq, if◌then◌else◌,
}
use a_simple_game_server.Prelude.Maps.{lookup, insert}
use a_simple_game_server.Protocol.{potion_price, potion_cap, weapon_price, weapon_boost}
use a_simple_game_server.Messages.{
  down_no_shop, short_for_potion, potion_limit, bought_potion, short_for_weapon, bought_weapon,
  unknown_item,
}
use a_simple_game_server.World.State.{Player, World, bump, respawn_in}
use a_simple_game_server.World.Life.{refresh, profile_locked}
use a_simple_game_server.World.Move.{Reply}

unfoldable pub buy_potion : ℕ → World → String → Player → World × Reply
unfolding bump
buy_potion now w username p =
    if ltb p.treasures potion_price
    then (w, some (short_for_potion potion_price, profile_locked w p))
    else if leb potion_cap p.potions
    then (w, some (potion_limit potion_cap, profile_locked w p))
    else let p' : Player = record p {
      treasures = p.treasures - potion_price;
      potions = p.potions + 1;
      last_update = now;
    } in
      (
        bump (record w { players = insert username p' w.players }),
        some (bought_potion username potion_price, profile_locked w p'),
      )

unfoldable pub buy_weapon : ℕ → World → String → Player → World × Reply
unfolding bump
buy_weapon now w username p =
    if ltb p.treasures weapon_price
    then (w, some (short_for_weapon weapon_price, profile_locked w p))
    else let p' : Player = record p {
      treasures = p.treasures - weapon_price;
      attack = p.attack + weapon_boost;
      last_update = now;
    } in
      (
        bump (record w { players = insert username p' w.players }),
        some (bought_weapon username weapon_boost weapon_price, profile_locked w p'),
      )

unfoldable pub buy_alive : ℕ → World → String → Player → String → World × Reply
buy_alive now w username p item =
    if item == "potion"
    then buy_potion now w username p
    else if item == "weapon"
    then buy_weapon now w username p
    else (w, some (unknown_item, profile_locked w p))

unfoldable pub buy_item : ℕ → World → String → String → World × Reply
buy_item now w username item = elim (lookup username w.players) [
  | none ↦ (w, none)
  | some q ↦
      let (w', p) = refresh now w username q in
      if p.alive
      then buy_alive now w' username p item
      else (w', some (down_no_shop username (respawn_in now p), profile_locked w' p))
]
