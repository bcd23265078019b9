-- ===== src/World/HitPoints.antt =====
-- The hit points of the players in world.go: every handler and the background step keep them within
-- their bounds.
use a_simple_game_server.Prelude.{
  ℕ, String, true, none, some, ◌≤◌, ◌<◌, ◌≡◌, arith, All, All-In, string_eq,
}
use a_simple_game_server.Prelude.Maps.{lookup, insert, All-insert, All-lookup}
use a_simple_game_server.World.State.{Player, Npc, World}
use a_simple_game_server.World.Life.{refresh, knock_down}
use a_simple_game_server.World.Move.{move_alive, move_player}
use a_simple_game_server.World.Heal.{drink, heal_alive, heal_player}
use a_simple_game_server.World.Attack.{pick_player, kill_npc, attack_alive, attack}
use a_simple_game_server.World.Shop.{buy_alive, buy_item}
use a_simple_game_server.World.Frames.{as_is, again, refresh-Refreshed, revived}
use a_simple_game_server.World.Outcomes.{
  store, stepped, richer, stays, walks, finds, move_alive-Moved, same, stored, heal_alive-Updated,
  Bought, potion, weapon, buy_alive-Updated, move_player-cases, heal_player-cases, buy_item-cases,
}
use a_simple_game_server.World.Targets.{nobody, picked, pick_player-Picked}
use a_simple_game_server.World.Fights.{
  idle, hurts_npc, kills_npc, hurts_player, kills_player, attack_alive-Fought, kill_npc-players,
  attack-cases, tired, winner, hurt_player,
}

-- At most the maximum, which is positive; and positive while the player stands.
pub record IsSound (p : Player) : Type 0 where
  pub at_most : p.hp ≤ p.max_hp
  pub room : 0 < p.max_hp
  pub standing : p.alive ≡ true → 0 < p.hp

abbrev pub AllSound : World → Type 0
AllSound w = All (λ e. IsSound e.1) w.players

-- A world, and the copy of a player that a handler works on.
abbrev pub SoundPair : World × Player → Type 0
SoundPair r = AllSound r.0 × IsSound r.1

pub refresh-AllSound :
    (now : ℕ) (w : World) (key : String) (p : Player)
    → AllSound w
    → IsSound p
    → SoundPair (refresh now w key p)
refresh-AllSound now w key p ws ps = elim (refresh-Refreshed now w key p) [
  | as_is e ↦ rw e (ws, ps)
  | again g t down at due e ↦
      let back : IsSound (revived now w p) = record {
        at_most = omega arith;
        room = ps.room;
        standing = λ _. ps.room;
      } in
      rw e (All-insert (λ e. IsSound e.1) key (revived now w p) w.players back ws, back)
]

pub knock_down-IsSound : (now : ℕ) (o : Player) → IsSound o → IsSound (knock_down now o)
unfolding knock_down
knock_down-IsSound now o os = record { at_most = omega arith; room = os.room; standing = λ up. cc }

module _ (now : ℕ) (w : World) (username : String) (p : Player) (ws : AllSound w)
    (ps : IsSound p) where
  put-AllSound : (p' : Player) → IsSound p' → AllSound (store w username p')
  put-AllSound p' ps' = All-insert (λ e. IsSound e.1) username p' w.players ps' ws

  move_alive-AllSound : (dir : String) → AllSound (move_alive now w username p dir).0
  move_alive-AllSound dir = elim (move_alive-Moved now w username p dir) [
    | stays shut_cell e ↦ rw e ws
    | walks open_cell bare e ↦ rw e (put-AllSound (stepped now p _ _) (omega (arith, ps.standing)))
    | finds id t open_cell hit e ↦
        rw e (put-AllSound (richer (stepped now p _ _) t.value) (omega (arith, ps.standing)))
  ]

  drink-IsSound : IsSound (drink now p)
  unfolding drink
  drink-IsSound = record {
    at_most = ground (arith, ps.at_most);
    room = ps.room;
    standing = λ up. ground (arith, ps.standing up, ps.room);
  }

  heal_alive-AllSound : AllSound (heal_alive now w username p).0
  heal_alive-AllSound = elim (heal_alive-Updated now w username p) [
    | same e ↦ rw e ws
    | stored p' (q, left) e ↦ rw (e, q) (put-AllSound (drink now p) drink-IsSound)
  ]

  Bought-IsSound : (p' : Player) → Bought now p p' → IsSound p'
  Bought-IsSound p' (potion rich fits e) = rw e (omega (arith, ps.standing))
  Bought-IsSound p' (weapon rich e) = rw e (omega (arith, ps.standing))

  buy_alive-AllSound : (item : String) → AllSound (buy_alive now w username p item).0
  buy_alive-AllSound item = elim (buy_alive-Updated now w username p item) [
    | same e ↦ rw e ws
    | stored p' b e ↦ rw e (put-AllSound p' (Bought-IsSound p' b))
  ]

  kill_npc-AllSound : (key : String) (n : Npc) → AllSound (kill_npc now w username p key n).0
  kill_npc-AllSound key n =
      let kept = (kill_npc-players now w username p key n).0 in
      rw kept (put-AllSound (winner now p) (omega (arith, ps.standing)))

  -- The player that is picked is one of the map.
  picked-IsSound :
      (key : String) (o : Player)
      → pick_player p username none w.players ≡ some (key, o)
      → IsSound o
  picked-IsSound key o hit = elim (pick_player-Picked p username w.players) [
    | nobody e rest ↦ cc
    | picked k b e i q rest ↦
        let same : b ≡ o = ground arith in
        rw (← same) (All-In (λ e. IsSound e.1) w.players (k, b) ws i)
  ]

  attack_alive-AllSound : AllSound (attack_alive now w username p).0
  attack_alive-AllSound = elim (attack_alive-Fought now w username p) [
    | idle clear alone e ↦ rw e ws
    | hurts_npc key n hit left e ↦ rw e (put-AllSound (tired now p) (omega (arith, ps.standing)))
    | kills_npc key n hit dead e ↦ rw e (kill_npc-AllSound key n)
    | hurts_player key o clear hit left e ↦
        let os = picked-IsSound key o hit in
        rw e (
          All-insert (λ e. IsSound e.1) key (hurt_player o p.attack)
            (insert username (tired now p) w.players)
            (record {
              at_most = omega (arith, os.at_most);
              room = os.room;
              standing = λ _. omega arith;
            })
            (put-AllSound (tired now p) (omega (arith, ps.standing))))
    | kills_player key o clear hit dead e ↦
        let os = picked-IsSound key o hit in
        rw e (
          All-insert (λ e. IsSound e.1) key (knock_down now o)
            (insert username (winner now p) w.players) (knock_down-IsSound now o os)
            (put-AllSound (winner now p) (omega (arith, ps.standing))))
  ]

module _ (now : ℕ) (w : World) (username : String) (ws : AllSound w) where
  found-IsSound : (q : Player) → lookup username w.players ≡ some q → IsSound q
  found-IsSound q at = All-lookup (λ e. IsSound e.1) username q w.players ws at

  abbrev after :
      (q : Player) → lookup username w.players ≡ some q → SoundPair (refresh now w username q)
  after q at = refresh-AllSound now w username q ws (found-IsSound q at)

  -- `MovePlayer` keeps every player's hit points at most the maximum, and positive while the player
  -- stands.
  pub move_player-AllSound : (dir : String) → AllSound (move_player now w username dir).0
  move_player-AllSound dir =
      move_player-cases AllSound now w username ws dir (λ q at. (after q at).0)
        (λ q at up. move_alive-AllSound now _ username _ (after q at).0 (after q at).1 dir)

  pub heal_player-AllSound : AllSound (heal_player now w username).0
  heal_player-AllSound =
      heal_player-cases AllSound now w username ws (λ q at. (after q at).0)
        (λ q at up. heal_alive-AllSound now _ username _ (after q at).0 (after q at).1)

  pub buy_item-AllSound : (item : String) → AllSound (buy_item now w username item).0
  buy_item-AllSound item =
      buy_item-cases AllSound now w username ws item (λ q at. (after q at).0)
        (λ q at up. buy_alive-AllSound now _ username _ (after q at).0 (after q at).1 item)

  -- `Attack` keeps every player's hit points, the attacker's and those of the player struck too, at most
  -- the maximum, and positive while the player stands.
  pub attack-AllSound : AllSound (attack now w username).0
  attack-AllSound =
      attack-cases AllSound now w username ws (λ q at. (after q at).0)
        (λ q at up. attack_alive-AllSound now _ username _ (after q at).0 (after q at).1)
