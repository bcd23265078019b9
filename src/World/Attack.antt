-- ===== src/World/Attack.antt =====
-- world.go, `Attack`: monsters before players, the weakest in range first.
use a_simple_game_server.Prelude.{
  ℕ, ℤ, String, Bool, true, false, not, ◌&&◌, ◌||◌, [], ◌∷◌, Option, none, some, ◌+◌, ◌-◌, ltb, leb,
  eqb, ◌==◌, string_eq, str_lt, if◌then◌else◌,
}
use a_simple_game_server.Prelude.Maps.{Map, lookup, insert, delete}
use a_simple_game_server.Protocol.{UserProfile, attack_range}
use a_simple_game_server.Messages.{
  Event, silent, down_no_attack, struck, defeated_npc, no_target, defeated_player, attacked_by,
  knocked_down_by,
}
use a_simple_game_server.World.State.{Player, Npc, World, bump, respawn_in, distance, intn}
use a_simple_game_server.World.Life.{refresh, knock_down, profile_locked}
use a_simple_game_server.World.Spawn.{drop_treasure}

-- The event, the struck player's name and event (both empty if none was struck), the profile.
pub record AttackReply : Type 0 where
  pub event : Event
  pub target : String
  pub target_event : Event
  pub profile : UserProfile

unfoldable pub npc_in_range : ℤ → ℤ → Npc → Bool
npc_in_range x y n = n.alive && leb (distance x y n.x n.y) attack_range

-- The loop's test for a better target than the best so far: lower hit points, ties by name.
unfoldable pub npc_weaker : Npc → Npc → Bool
npc_weaker n best = ltb n.hp best.hp || eqb n.hp best.hp && str_lt n.id best.id

unfoldable pub pick_npc : ℤ → ℤ → Option (String × Npc) → Map Npc → Option (String × Npc)
pick_npc x y best [] = best
pick_npc x y best ((key, n) ∷ ns) =
    let better : Bool = elim best [ none ↦ true | some (_, b) ↦ npc_weaker n b ] in
    pick_npc x y (if npc_in_range x y n && better then some (key, n) else best) ns

unfoldable pub player_in_range : Player → Player → String → Bool
player_in_range p other username =
    not (other.username == username)
    && other.alive
    && leb (distance p.x p.y other.x other.y) attack_range

unfoldable pub player_weaker : Player → Player → Bool
player_weaker o best = ltb o.hp best.hp || eqb o.hp best.hp && str_lt o.username best.username

unfoldable pub pick_player :
    Player → String → Option (String × Player) → Map Player → Option (String × Player)
pick_player p username best [] = best
pick_player p username best ((key, o) ∷ os) =
    let better : Bool = elim best [ none ↦ true | some (_, b) ↦ player_weaker o b ] in
    pick_player p username (if player_in_range p o username && better then some (key, o) else best)
      os

-- The two ends of a blow at a monster.
unfoldable pub kill_npc : ℕ → World → String → Player → String → Npc → World × AttackReply
unfolding bump intn
kill_npc now w username p key n =
    let p' : Player = record p { last_update = now; kills = p.kills + 1 } in
    let dead : Npc = record n { hp = 0; alive = false } in
    let w' : World = record w {
      npcs = delete n.id (insert key dead w.npcs);
      players = insert username p' w.players;
    } in
    let (v, w'') = intn w' 3 in
    let w3 = (drop_treasure w'' n.x n.y (2 + v) "怪物战利品").0 in
    (
      bump w3,
      record {
        event = defeated_npc username n.name;
        target = "";
        target_event = silent;
        profile = profile_locked w3 p';
      },
    )

unfoldable pub wound_npc : ℕ → World → String → Player → String → Npc → World × AttackReply
unfolding bump
wound_npc now w username p key n =
    let p' : Player = record p { last_update = now } in
    let n' : Npc = record n { hp = n.hp - p.attack } in
    let w' : World = record w {
      npcs = insert key n' w.npcs;
      players = insert username p' w.players;
    } in
    (
      bump w',
      record {
        event = struck username n.name p.attack;
        target = "";
        target_event = silent;
        profile = profile_locked w' p';
      },
    )

unfoldable pub strike_npc : ℕ → World → String → Player → String → Npc → World × AttackReply
strike_npc now w username p key n =
    if eqb (n.hp - p.attack) 0
    then kill_npc now w username p key n
    else wound_npc now w username p key n

-- The two ends of a blow at a player.
unfoldable pub kill_player : ℕ → World → String → Player → String → Player → World × AttackReply
unfolding bump
kill_player now w username p key o =
    let p' : Player = record p { last_update = now; kills = p.kills + 1 } in
    let o' = knock_down now o in
    let w' : World = record w { players = insert key o' (insert username p' w.players) } in
    (
      bump w',
      record {
        event = defeated_player username o.username;
        target = o.username;
        target_event = knocked_down_by username (respawn_in now o');
        profile = profile_locked w' p';
      },
    )

unfoldable pub wound_player : ℕ → World → String → Player → String → Player → World × AttackReply
unfolding bump
wound_player now w username p key o =
    let p' : Player = record p { last_update = now } in
    let o' : Player = record o { hp = o.hp - p.attack } in
    let w' : World = record w { players = insert key o' (insert username p' w.players) } in
    (
      bump w',
      record {
        event = struck username o.username p.attack;
        target = o.username;
        target_event = attacked_by username p.attack;
        profile = profile_locked w' p';
      },
    )

unfoldable pub strike_player : ℕ → World → String → Player → String → Player → World × AttackReply
strike_player now w username p key o =
    if eqb (o.hp - p.attack) 0
    then kill_player now w username p key o
    else wound_player now w username p key o

unfoldable pub attack_alive : ℕ → World → String → Player → World × AttackReply
attack_alive now w username p = elim (pick_npc p.x p.y none w.npcs) [
  | some (key, n) ↦ strike_npc now w username p key n
  | none ↦ elim (pick_player p username none w.players) [
    | some (key, o) ↦ strike_player now w username p key o
    | none ↦ (
      w,
      record {
        event = no_target username;
        target = "";
        target_event = silent;
        profile = profile_locked w p;
      },
    )
  ]
]

unfoldable pub attack : ℕ → World → String → World × Option AttackReply
attack now w username = elim (lookup username w.players) [
  | none ↦ (w, none)
  | some q ↦
      let (w', p) = refresh now w username q in
      if p.alive then (let (w'', r) = attack_alive now w' username p in (w'', some r)) else (
        w',
        some (record {
          event = down_no_attack username (respawn_in now p);
          target = "";
          target_event = silent;
          profile = profile_locked w' p;
        }),
      )
]
