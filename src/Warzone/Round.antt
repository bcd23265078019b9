-- ===== src/Warzone/Round.antt =====
-- warzone_go, game.go: counting the players, the start of a round and the weapons that appear.
use a_simple_game_server.Prelude.{
  ℕ, zero, suc, ◌+◌, ◌-◌, ◌/◌, ◌%◌, Bool, true, false, not, ◌&&◌, ◌||◌, List, [], ◌∷◌, Option, none,
  some, ◌==◌, nat_eq, int_eq, ℤ, pos, if◌then◌else◌, get_elem?, any,
}
use a_simple_game_server.Warzone.Bytes.{bytes_eq}
use a_simple_game_server.Warzone.State.{
  map_w, map_h, max_health, WeaponItem, Slot, round_begins, weapon_appears, Server, Env, is_conn,
  is_occupied, stands, modify, count, find_index,
}

unfoldable pub conn_to_game_slot : Server → ℕ → Option ℕ
unfolding find_index
conn_to_game_slot srv cid = find_index (λ s. is_conn cid s.conn) srv.slots

unfoldable pub game_online : Server → ℕ
unfolding count
game_online srv = count is_occupied srv.slots

unfoldable pub game_ready : Server → ℕ
unfolding count
game_ready srv = count (λ s. is_occupied s && s.player.ready) srv.slots

-- The candidates: the corners two cells from the border, and the centre.
unfoldable pub candidates : List (ℕ × ℕ)
candidates =
    (2, 2)
    ∷ (map_w - 3, 2)
    ∷ (2, map_h - 3)
    ∷ (map_w - 3, map_h - 3)
    ∷ ((2 + (map_w - 3)) / 2, (2 + (map_h - 3)) / 2)
    ∷ []

-- `order[count-1][rank]`.
unfoldable pub spawn_order : List (List ℕ)
spawn_order =
    (4 ∷ 0 ∷ 0 ∷ 0 ∷ 0 ∷ [])
    ∷ (0 ∷ 3 ∷ 0 ∷ 0 ∷ 0 ∷ [])
    ∷ (0 ∷ 3 ∷ 4 ∷ 0 ∷ 0 ∷ [])
    ∷ (0 ∷ 1 ∷ 2 ∷ 3 ∷ 0 ∷ [])
    ∷ (0 ∷ 1 ∷ 2 ∷ 3 ∷ 4 ∷ [])
    ∷ []

-- The spawn point of the player of a rank among `oc`. The indices are in range with at most five players;
-- the origin stands for the panic that they would be otherwise.
unfoldable pub spawn_point : ℕ → ℕ → ℕ × ℕ
unfolding candidates spawn_order
spawn_point oc rank = elim (get_elem? spawn_order (oc - 1)) [
  | none ↦ (0, 0)
  | some row ↦ elim (get_elem? row rank) [
    | none ↦ (0, 0)
    | some i ↦ elim (get_elem? candidates i) [ none ↦ (0, 0) | some p ↦ p ]
  ]
]

-- The slot at the start of a round: a player at a spawn point, or an empty slot.
unfoldable pub reset_slot : ℕ → ℕ → Slot → Slot
reset_slot oc rank s =
    if is_occupied s
    then record s {
      player = record s.player {
        x = pos (spawn_point oc rank).0;
        y = pos (spawn_point oc rank).1;
        health = max_health;
        alive = true;
        connected = true;
        ready = false;
        has_weapon = false;
      };
      kills = 0;
      died = false;
    }
    else record s { player = record s.player { connected = false; alive = false } }

unfoldable pub reset_slots : ℕ → ℕ → List Slot → List Slot
unfolding reset_slot
reset_slots oc rank [] = []
reset_slots oc rank (s ∷ ss) =
    reset_slot oc rank s ∷ reset_slots oc (if is_occupied s then rank + 1 else rank) ss

unfoldable pub clear_weapons : List WeaponItem → List WeaponItem
clear_weapons [] = []
clear_weapons (w ∷ ws) = record w { active = false } ∷ clear_weapons ws

unfoldable pub reset_game : Server → Server
unfolding reset_slots clear_weapons
reset_game srv =
    let oc = game_online srv in
    record srv {
      slots = reset_slots oc 0 srv.slots;
      weapons = clear_weapons srv.weapons;
      game_started = true;
      game_over = false;
      winner_conn = none;
      last_event = round_begins oc;
    }

-- A standing player or a weapon on the cell.
unfoldable pub is_busy : Server → ℤ → ℤ → Bool
unfolding any
is_busy srv x y =
    any (λ s. stands s && s.player.x == x && s.player.y == y) srv.slots
    || any (λ w. w.active && w.x == x && w.y == y) srv.weapons

-- The attempts that are left, from the number `n` on.
unfoldable pub try_cells : Env → Server → ℕ → ℕ → ℕ → Server
unfolding is_busy modify
try_cells env srv slot zero n = srv
try_cells env srv slot (suc left) n =
    let x = 2 + (env.draws n).0 % (map_w - 4) in
    let y = 2 + (env.draws n).1 % (map_h - 4) in
    let next = try_cells env srv slot left (n + 1) in
    if is_busy srv (pos x) (pos y) then next else record srv {
      weapons = modify slot (λ w. record { x = pos x; y = pos y; active = true }) srv.weapons;
      last_event = weapon_appears x y;
    }

unfoldable pub spawn_weapon : Env → Server → Server
unfolding try_cells find_index
spawn_weapon env srv = elim (find_index (λ w. not w.active) srv.weapons) [
  | none ↦ srv
  | some slot ↦ try_cells env srv slot 50 0
]
