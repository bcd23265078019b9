-- ===== src/Warzone/Arena.antt =====
-- warzone_go, game.go: the players' actions and the end of a round, under the server's game lock.
use a_simple_game_server.Prelude.{
  ℕ, suc, ◌+◌, ◌-◌, Bool, true, false, not, ◌&&◌, ◌||◌, List, [], ◌∷◌, Option, none, some, ltb, leb,
  ◌==◌, nat_eq, int_eq, pos, ltb_ℤ, ◌+ℤ◌, ◌-ℤ◌, if◌then◌else◌, get_elem?,
}
use a_simple_game_server.Warzone.Bytes.{Bytes, bytes_eq, name_str}
use a_simple_game_server.Warzone.Database.{Database, update_stats}
use a_simple_game_server.Warzone.State.{
  map_w, map_h, attack_damage, power_damage, attack_range, PlayerState, Slot, picks_up, no_target,
  too_far, hits, hits_hard, defeats, last_survivor, round_over, ConnEntry, Server, Env, is_conn,
  stands, gap, modify, count, find_index,
}
use a_simple_game_server.Warzone.Round.{conn_to_game_slot, game_online}

-- The player in the slot stands on a weapon: it is taken.
unfoldable pub check_pickup : Server → ℕ → Server
unfolding find_index modify
check_pickup srv gs = elim (get_elem? srv.slots gs) [
  | none ↦ srv
  | some s ↦
      let p = s.player in
      elim (find_index (λ w. w.active && w.x == p.x && w.y == p.y) srv.weapons) [
        | none ↦ srv
        | some i ↦ record srv {
          weapons = modify i (λ w. record w { active = false }) srv.weapons;
          slots =
              modify gs (λ s. record s { player = record s.player { has_weapon = true } })
                srv.slots;
          last_event = picks_up (name_str p.name);
        }
      ]
]

abbrev pub username_of : List ConnEntry → ℕ → Bytes
username_of conns cid = elim (get_elem? conns cid) [ none ↦ [] | some c ↦ c.username ]

-- The loop of `saveStatsLocked` over the slots.
unfoldable pub save_slots : Env → Option ℕ → List ConnEntry → List Slot → Database → Database
save_slots env winner conns [] db = db
save_slots env winner conns (s ∷ ss) db = save_slots env winner conns ss (elim s.conn [
  | none ↦ db
  | some cid ↦
      let username = username_of conns cid in
      if username == []
      then db
      else update_stats env.now env.writes db username (is_conn cid winner) s.kills s.died
])

unfoldable pub save_stats : Env → Server → Server
unfolding save_slots
save_stats env srv = record srv { db = save_slots env srv.winner_conn srv.conns srv.slots srv.db }

-- The last slot whose player stands.
unfoldable pub last_standing : List Slot → Option Slot
last_standing [] = none
last_standing (s ∷ ss) = elim (last_standing ss) [
  | some t ↦ some t
  | none ↦ if stands s then some s else none
]

unfoldable pub check_game_over : Env → Server → Option ℕ → Server
unfolding count last_standing
check_game_over env srv hint =
    if ltb 1 (count stands srv.slots) then srv else elim (last_standing srv.slots) [
      | some s ↦ save_stats env (record srv {
        game_over = true;
        winner_conn = s.conn;
        last_event = last_survivor (name_str s.player.name);
      })
      | none ↦
          save_stats env
            (record srv { game_over = true; winner_conn = hint; last_event = round_over })
    ]

-- A step, kept on the map.
unfoldable pub stepped : ℕ → PlayerState → PlayerState
stepped action p =
    if action == 1
    then (if ltb_ℤ (pos 0) p.y then record p { y = p.y -ℤ pos 1 } else p)
    else if action == 2
    then (if ltb_ℤ p.y (pos (map_h - 1)) then record p { y = p.y +ℤ pos 1 } else p)
    else if action == 3
    then (if ltb_ℤ (pos 0) p.x then record p { x = p.x -ℤ pos 1 } else p)
    else if action == 4
    then (if ltb_ℤ p.x (pos (map_w - 1)) then record p { x = p.x +ℤ pos 1 } else p)
    else p

-- The loop for the nearest standing opponent: the slot and the distance of the best so far.
unfoldable pub nearest : ℕ → PlayerState → ℕ → Option (ℕ × ℕ) → List Slot → Option (ℕ × ℕ)
nearest gs me g best [] = best
nearest gs me g best (s ∷ ss) =
    let d = gap me.x s.player.x + gap me.y s.player.y in
    let better : Bool = elim best [ none ↦ true | some (_, e) ↦ ltb d e ] in
    nearest gs me (suc g) (if not (g == gs) && stands s && better then some (g, d) else best) ss

-- The target falls, the attacker's count grows, and the slot of the target's connection is marked.
unfoldable pub fell_slots : ℕ → Slot → ℕ → List Slot → List Slot
unfolding modify
fell_slots gs tgt target slots =
    let down =
      modify target (λ s. record s { player = record s.player { health = 0; alive = false } })
        slots in
    let counted = modify gs (λ s. record s { kills = s.kills + 1 }) down in
    elim tgt.conn [
      | none ↦ counted
      | some tcid ↦ elim (find_index (λ s. is_conn tcid s.conn) counted) [
        | none ↦ counted
        | some g ↦ modify g (λ s. record s { died = true }) counted
      ]
    ]

-- The blow that takes the target's last hit points.
unfoldable pub fell : Env → Server → ℕ → ℕ → PlayerState → Slot → ℕ → Server
unfolding fell_slots
fell env srv cid gs me tgt target =
    check_game_over env
      (record srv {
        slots = fell_slots gs tgt target srv.slots;
        last_event = defeats (name_str me.name) (name_str tgt.player.name);
      })
      (some cid)

abbrev pub damage_of : PlayerState → ℕ
damage_of me = if me.has_weapon then power_damage else attack_damage

-- The blow: the weapon is used up and the target loses health.
unfoldable pub wound : Server → ℕ → PlayerState → PlayerState → ℕ → Server
unfolding modify
wound srv gs me tgt target =
    let dmg = damage_of me in
    let disarmed =
      modify gs (λ s. record s { player = record s.player { has_weapon = false } }) srv.slots in
    let mine = name_str me.name in
    let theirs = name_str tgt.name in
    record srv {
      slots =
          modify target
            (λ s. record s { player = record s.player { health = s.player.health - dmg } })
            disarmed;
      last_event = if me.has_weapon then hits_hard mine theirs dmg else hits mine theirs dmg;
    }

-- The nearest opponent is in range.
unfoldable pub strike : Env → Server → ℕ → ℕ → PlayerState → Slot → ℕ → Server
unfolding wound fell
strike env srv cid gs me tgt target =
    let srv' = wound srv gs me tgt.player target in
    if leb tgt.player.health (damage_of me) then fell env srv' cid gs me tgt target else srv'

unfoldable pub attack : Env → Server → ℕ → ℕ → PlayerState → Server
unfolding nearest
attack env srv cid gs me = elim (nearest gs me 0 none srv.slots) [
  | none ↦ record srv { last_event = no_target (name_str me.name) }
  | some (target, d) ↦ elim (get_elem? srv.slots target) [
    | none ↦ srv
    | some tgt ↦
        if ltb attack_range d
        then record srv { last_event = too_far (name_str me.name) (name_str tgt.player.name) d }
        else strike env srv cid gs me tgt target
  ]
]

unfoldable pub apply_action : Env → Server → ℕ → ℕ → Server
unfolding stepped modify
apply_action env srv cid action =
    if not srv.game_started || srv.game_over then srv else elim (conn_to_game_slot srv cid) [
      | none ↦ srv
      | some gs ↦ elim (get_elem? srv.slots gs) [
        | none ↦ srv
        | some s ↦
            if not s.player.alive
            then srv
            else if action == 5
            then attack env srv cid gs s.player
            else check_pickup
                (record srv {
                  slots = modify gs (λ s. record s { player = stepped action s.player }) srv.slots;
                })
                gs
      ]
    ]

-- The player leaves the slot, with name, counters and the rest left in it.
unfoldable pub vacate : Server → ℕ → Server
unfolding modify
vacate srv g = record srv {
  slots =
      modify g
        (λ s. record s {
          conn = none;
          player = record s.player { connected = false; alive = false };
        })
        srv.slots;
}

-- With the last player the round goes.
unfoldable pub end_if_empty : Server → Server
end_if_empty srv =
    if game_online srv == 0 then record srv { game_started = false; game_over = false } else srv

unfoldable pub remove_from_game : Env → Server → ℕ → Server
unfolding vacate end_if_empty
remove_from_game env srv cid = elim (conn_to_game_slot srv cid) [
  | none ↦ srv
  | some g ↦ end_if_empty (
      if srv.game_started && not srv.game_over
      then check_game_over env (vacate srv g) none
      else vacate srv g)
]
