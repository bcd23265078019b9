-- ===== src/Warzone/Bounds.antt =====
-- warzone_go, game.go and conn.go: players and weapons stay on the map, and health within its range.
use a_simple_game_server.Prelude.{
  pos, ◌%◌, ◌-◌, ℕ, zero, suc, ◌+◌, not, ◌&&◌, ◌||◌, List, Option, none, some, ◌≡◌, refl, arith,
  ◌==◌, nat_eq, int_eq, ltb, leb, get_elem?, choose, choose_some,
}
use a_simple_game_server.Warzone.Bytes.{Bytes}
use a_simple_game_server.Warzone.State.{
  map_w, map_h, attack_range, PlayerState, Slot, Server, Env, find_index, is_some, count, stands,
}
use a_simple_game_server.Warzone.Round.{
  conn_to_game_slot, reset_game, game_ready, game_online, try_cells, spawn_weapon, is_busy,
}
use a_simple_game_server.Warzone.Arena.{
  check_pickup, check_game_over, save_stats, last_standing, nearest, fell, end_if_empty, vacate,
  damage_of, wound, strike, attack, apply_action, remove_from_game,
}
use a_simple_game_server.Warzone.Packets.{After, Reply}
use a_simple_game_server.Warzone.Conn.{join, begin_if_ready, handle_ready}
use a_simple_game_server.Warzone.Changes.{All-modify, get_elem?-modify}
use a_simple_game_server.Warzone.System.{new_server, Phases, Reaches}
use a_simple_game_server.Warzone.Database.{Database}
use a_simple_game_server.Warzone.Steps.{Holds, IsKept, Reaches-Holds}
use a_simple_game_server.Warzone.Ranges.{
  IsInBounds, IsOnMap, InBounds, stepped-IsInBounds, reset_slots-Fine, clear_weapons-OnMap,
  change-Fine, fell_slots-Fine,
}

module _ (env : Env) where
  -- The end of a round changes no slot and no weapon.
  check_game_over-Holds :
      (srv : Server) (hint : Option ℕ)
      → Holds InBounds srv
      → Holds InBounds (check_game_over env srv hint)
  unfolding check_game_over save_stats
  check_game_over-Holds srv hint h =
      choose (Holds InBounds) (ltb 1 (count stands srv.slots)) (λ _. h)
        (λ _. choose_some (Holds InBounds) (last_standing srv.slots) (λ _. h) (λ s _. h))

  check_pickup-Holds :
      (srv : Server) (gs : ℕ) → Holds InBounds srv → Holds InBounds (check_pickup srv gs)
  unfolding check_pickup
  check_pickup-Holds srv gs h =
      choose_some (Holds InBounds) (get_elem? srv.slots gs) (λ _. h)
        (λ s _.
          choose_some (Holds InBounds)
            (find_index (λ w. w.active && w.x == s.player.x && w.y == s.player.y) srv.weapons)
            (λ _. h)
            (λ i _. (
              change-Fine gs _ srv.slots (λ s b. b) h.0,
              All-modify IsOnMap i _ srv.weapons (λ w _ b. b) h.1,
            )))

  strike-Holds :
      (srv : Server) (cid gs target : ℕ) (me : PlayerState) (tgt : Slot)
      → get_elem? srv.slots target ≡ some tgt
      → Holds InBounds srv
      → Holds InBounds (strike env srv cid gs me tgt target)
  unfolding strike wound fell
  strike-Holds srv cid gs target me tgt at h =
      choose (Holds InBounds) (leb tgt.player.health (damage_of me))
        (λ _. check_game_over-Holds _ (some cid) (
          fell_slots-Fine gs target (damage_of me) tgt _
              (change-Fine gs _ srv.slots (λ s b. b) h.0),
          h.1,
        ))
        (λ more. (
          All-modify (λ s. IsInBounds s.player) target _ _
              (λ s at' b.
                let same =
                  get_elem?-modify (λ s. s.player.health) gs target _ srv.slots tgt s (λ x. refl) at
                    at' in
                ground arith)
              (change-Fine gs _ srv.slots (λ s b. b) h.0),
          h.1,
        ))

  attack-Holds :
      (srv : Server) (cid gs : ℕ) (me : PlayerState)
      → Holds InBounds srv
      → Holds InBounds (attack env srv cid gs me)
  unfolding attack
  attack-Holds srv cid gs me h =
      choose_some (Holds InBounds) (nearest gs me 0 none srv.slots) (λ _. h)
        (λ (target, d) _.
          choose_some (Holds InBounds) (get_elem? srv.slots target) (λ _. h)
            (λ tgt at.
              choose (Holds InBounds) (ltb attack_range d) (λ _. h)
                (λ _. strike-Holds srv cid gs target me tgt at h)))

  apply_action-Holds :
      (srv : Server) (cid action : ℕ)
      → Holds InBounds srv
      → Holds InBounds (apply_action env srv cid action)
  unfolding apply_action
  apply_action-Holds srv cid action h =
      choose (Holds InBounds) (not srv.game_started || srv.game_over) (λ _. h)
        (λ _.
          choose_some (Holds InBounds) (conn_to_game_slot srv cid) (λ _. h)
            (λ gs _.
              choose_some (Holds InBounds) (get_elem? srv.slots gs) (λ _. h)
                (λ s _.
                  choose (Holds InBounds) (not s.player.alive) (λ _. h)
                    (λ _.
                      choose (Holds InBounds) (action == 5)
                        (λ _. attack-Holds srv cid gs s.player h)
                        (λ _. check_pickup-Holds _ gs (
                          change-Fine gs _ srv.slots (λ s. stepped-IsInBounds action s.player) h.0,
                          h.1,
                        ))))))

  end_if_empty-Holds : (srv : Server) → Holds InBounds srv → Holds InBounds (end_if_empty srv)
  unfolding end_if_empty
  end_if_empty-Holds srv h = choose (Holds InBounds) (game_online srv == 0) (λ _. h) (λ _. h)

  remove_from_game-Holds :
      (srv : Server) (cid : ℕ) → Holds InBounds srv → Holds InBounds (remove_from_game env srv cid)
  unfolding remove_from_game vacate
  remove_from_game-Holds srv cid h =
      choose_some (Holds InBounds) (conn_to_game_slot srv cid) (λ _. h)
        (λ g _. end_if_empty-Holds _ (
          choose (Holds InBounds) (srv.game_started && not srv.game_over)
            (λ _. check_game_over-Holds _ none (gone g)) (λ _. gone g)))
    where
      gone : (g : ℕ) → Holds InBounds (vacate srv g)
      gone g = (change-Fine g _ srv.slots (λ s b. ground arith) h.0, h.1)

  join-Holds :
      (srv : Server) (cid : ℕ) (s : Bytes)
      → Holds InBounds srv
      → Holds InBounds (join env srv cid s).server
  unfolding join
  join-Holds srv cid s h =
      choose_some (λ (a : After). Holds InBounds a.server)
        (find_index (λ g. not (is_some g.conn)) srv.slots) (λ _. h)
        (λ gs _. (change-Fine gs _ srv.slots (λ s b. ground arith) h.0, h.1))

begin_if_ready-Holds : (srv : Server) → Holds InBounds srv → Holds InBounds (begin_if_ready srv)
unfolding begin_if_ready reset_game
begin_if_ready-Holds srv h =
    choose (Holds InBounds) (game_ready srv == game_online srv && leb 2 (game_online srv))
      (λ _. (reset_slots-Fine srv.slots _ 0 h.0, clear_weapons-OnMap srv.weapons h.1)) (λ _. h)

handle_ready-Holds :
    (srv : Server) (cid : ℕ) → Holds InBounds srv → Holds InBounds (handle_ready srv cid).0
unfolding handle_ready
handle_ready-Holds srv cid h =
    choose (λ (r : Server × List (ℕ × Reply)). Holds InBounds r.0) srv.game_started (λ _. h)
      (λ _.
        choose_some (λ (r : Server × List (ℕ × Reply)). Holds InBounds r.0)
          (conn_to_game_slot srv cid) (λ _. h)
          (λ gs _. begin_if_ready-Holds _ (change-Fine gs _ srv.slots (λ s b. b) h.0, h.1)))

try_cells-Holds :
    (env : Env) (srv : Server) (slot left n : ℕ)
    → Holds InBounds srv
    → Holds InBounds (try_cells env srv slot left n)
unfolding try_cells
try_cells-Holds env srv slot zero n h = h
try_cells-Holds env srv slot (suc left) n h =
    choose (Holds InBounds)
      (is_busy srv (pos (2 + (env.draws n).0 % (map_w - 4)))
        (pos (2 + (env.draws n).1 % (map_h - 4))))
      (λ _. try_cells-Holds env srv slot left (n + 1) h)
      (λ _. (h.0, All-modify IsOnMap slot _ srv.weapons (λ w _ b. omega arith) h.1))

spawn_weapon-Holds :
    (env : Env) (srv : Server) → Holds InBounds srv → Holds InBounds (spawn_weapon env srv)
unfolding spawn_weapon
spawn_weapon-Holds env srv h =
    choose_some (Holds InBounds) (find_index (λ w. not w.active) srv.weapons) (λ _. h)
      (λ slot _. try_cells-Holds env srv slot 50 0 h)

new_server-Holds : (db : Database) → Holds InBounds (new_server db)
unfolding new_server
new_server-Holds db = ground arith

InBounds-IsKept : IsKept InBounds
InBounds-IsKept = record {
  acts = apply_action-Holds;
  leaves = remove_from_game-Holds;
  joins = join-Holds;
  readies = handle_ready-Holds;
  starts = new_server-Holds;
  ticks = spawn_weapon-Holds;
}

-- Whatever the connections send and whoever comes and goes, from the start of the server on every player
-- and every weapon is on the map, no health exceeds the full one, and no player is alive without health.
pub Reaches-InBounds : (srv : Server) (ph : Phases) → Reaches srv ph → Holds InBounds srv
Reaches-InBounds = Reaches-Holds InBounds InBounds-IsKept
