-- ===== src/Warzone/Frames.antt =====
-- warzone_go, game.go: the players' actions move nobody to another slot and change no connection's entry; one
-- who leaves the game gives up one slot.
use a_simple_game_server.Prelude.{
  ℕ, zero, suc, ◌+◌, false, not, ◌&&◌, ◌||◌, List, [], ◌∷◌, Option, none, some, ◌≡◌, refl, ap,
  arith, ◌==◌, nat_eq, int_eq, ltb, leb, if◌then◌else◌, get_elem?, map, choose, choose_some,
}
use a_simple_game_server.Warzone.State.{
  attack_range, PlayerState, Slot, ConnEntry, Server, Env, is_conn, modify, find_index, count,
  stands, is_occupied,
}
use a_simple_game_server.Warzone.Round.{
  conn_to_game_slot, reset_slot, reset_slots, reset_game, game_ready, game_online,
}
use a_simple_game_server.Warzone.Arena.{
  check_pickup, check_game_over, save_stats, last_standing, nearest, fell_slots, fell, end_if_empty,
  vacate, damage_of, wound, strike, attack, apply_action, remove_from_game,
}
use a_simple_game_server.Warzone.Packets.{Reply}
use a_simple_game_server.Warzone.Conn.{begin_if_ready, handle_ready}
use a_simple_game_server.Warzone.Changes.{modify-id}

-- The connections in the slots.
abbrev pub seats : List Slot → List (Option ℕ)
seats ss = map (λ s. s.conn) ss

-- The server has these seats and these entries.
abbrev pub Has : List (Option ℕ) → List ConnEntry → Server → Type 0
Has ss cs srv = seats srv.slots ≡ ss × srv.conns ≡ cs

pub seats-modify :
    (n : ℕ) (f : Slot → Slot) (g : Option ℕ → Option ℕ) (ss : List Slot)
    → ((s : Slot) → (f s).conn ≡ g s.conn)
    → seats (modify n f ss) ≡ modify n g (seats ss)
unfolding modify
seats-modify n f g [] keep = refl
seats-modify zero f g (s ∷ ss) keep = rw (keep s) refl
seats-modify (suc n) f g (s ∷ ss) keep = ap (s.conn ∷◌) (seats-modify n f g ss keep)

seats-reset_slots : (ss : List Slot) (oc rank : ℕ) → seats (reset_slots oc rank ss) ≡ seats ss
unfolding reset_slots reset_slot
seats-reset_slots [] oc rank = refl
seats-reset_slots (s ∷ ss) oc rank =
    ground (arith, seats-reset_slots ss oc (if is_occupied s then rank + 1 else rank))

module _ (ss : List (Option ℕ)) (cs : List ConnEntry) where
  abbrev H : Server → Type 0
  H = Has ss cs

  -- A change of a slot that keeps its connection.
  change :
      (n : ℕ) (f : Slot → Slot) (sl : List Slot)
      → ((s : Slot) → (f s).conn ≡ s.conn)
      → seats sl ≡ ss
      → seats (modify n f sl) ≡ ss
  change n f sl keep h = rw (seats-modify n f (λ c. c) sl keep, modify-id n (seats sl)) h

  begin_if_ready-Has : (srv : Server) → H srv → H (begin_if_ready srv)
  unfolding begin_if_ready reset_game
  begin_if_ready-Has srv h =
      choose H (game_ready srv == game_online srv && leb 2 (game_online srv))
        (λ _. (rw (seats-reset_slots srv.slots (game_online srv) 0) h.0, h.1)) (λ _. h)

  pub handle_ready-Has : (srv : Server) (cid : ℕ) → H srv → H (handle_ready srv cid).0
  unfolding handle_ready
  handle_ready-Has srv cid h =
      choose (λ (r : Server × List (ℕ × Reply)). H r.0) srv.game_started (λ _. h)
        (λ _.
          choose_some (λ (r : Server × List (ℕ × Reply)). H r.0) (conn_to_game_slot srv cid)
            (λ _. h) (λ gs _. begin_if_ready-Has _ (change gs _ srv.slots (λ s. refl) h.0, h.1)))

  module _ (env : Env) where
    check_game_over-Has :
        (srv : Server) (hint : Option ℕ) → H srv → H (check_game_over env srv hint)
    unfolding check_game_over save_stats
    check_game_over-Has srv hint h =
        choose H (ltb 1 (count stands srv.slots)) (λ _. h)
          (λ _. choose_some H (last_standing srv.slots) (λ _. h) (λ s _. h))

    check_pickup-Has : (srv : Server) (gs : ℕ) → H srv → H (check_pickup srv gs)
    unfolding check_pickup
    check_pickup-Has srv gs h =
        choose_some H (get_elem? srv.slots gs) (λ _. h)
          (λ s _.
            choose_some H
              (find_index (λ w. w.active && w.x == s.player.x && w.y == s.player.y) srv.weapons)
              (λ _. h) (λ i _. (change gs _ srv.slots (λ s. refl) h.0, h.1)))

    fell_slots-seats :
        (gs target : ℕ) (tgt : Slot) (sl : List Slot)
        → seats sl ≡ ss
        → seats (fell_slots gs tgt target sl) ≡ ss
    unfolding fell_slots
    fell_slots-seats gs target tgt sl h =
        choose_some S tgt.conn (λ _. counted)
          (λ tcid _.
            choose_some S (find_index (λ s. is_conn tcid s.conn) _) (λ _. counted)
              (λ g _. change g _ _ (λ s. refl) counted))
      where
        S : List Slot → Type 0
        S sl = seats sl ≡ ss

        counted : S (
            modify gs
              (λ s. record s { kills = s.kills + 1 })
              (modify target
                (λ s. record s { player = record s.player { health = 0; alive = false } })
                sl))
        counted = change gs _ _ (λ s. refl) (change target _ sl (λ s. refl) h)

    attack-Has :
        (srv : Server) (cid gs : ℕ) (me : PlayerState) → H srv → H (attack env srv cid gs me)
    unfolding attack strike wound fell
    attack-Has srv cid gs me h =
        choose_some H (nearest gs me 0 none srv.slots) (λ _. h)
          (λ (target, d) _.
            choose_some H (get_elem? srv.slots target) (λ _. h)
              (λ tgt _.
                choose H (ltb attack_range d) (λ _. h)
                  (λ _.
                    choose H (leb tgt.player.health (damage_of me))
                      (λ _.
                        check_game_over-Has _ (some cid)
                          (fell_slots-seats gs target tgt _ (hurt target), h.1))
                      (λ _. (hurt target, h.1)))))
      where
        hurt : (target : ℕ) → seats (wound srv gs me me target).slots ≡ ss
        hurt target = change target _ _ (λ s. refl) (change gs _ srv.slots (λ s. refl) h.0)

    pub apply_action-Has :
        (srv : Server) (cid action : ℕ) → H srv → H (apply_action env srv cid action)
    unfolding apply_action
    apply_action-Has srv cid action h =
        choose H (not srv.game_started || srv.game_over) (λ _. h)
          (λ _.
            choose_some H (conn_to_game_slot srv cid) (λ _. h)
              (λ gs _.
                choose_some H (get_elem? srv.slots gs) (λ _. h)
                  (λ s _.
                    choose H (not s.player.alive) (λ _. h)
                      (λ _.
                        choose H (action == 5) (λ _. attack-Has srv cid gs s.player h)
                          (λ _.
                            check_pickup-Has _ gs (change gs _ srv.slots (λ s. refl) h.0, h.1))))))

    end_if_empty-Has : (srv : Server) → H srv → H (end_if_empty srv)
    unfolding end_if_empty
    end_if_empty-Has srv h = choose H (game_online srv == 0) (λ _. h) (λ _. h)

-- Whoever leaves the game gives up the slot.
pub remove_from_game-Has :
    (env : Env) (srv : Server) (cid g : ℕ)
    → conn_to_game_slot srv cid ≡ some g
    → Has (modify g (λ _. none) (seats srv.slots)) srv.conns (remove_from_game env srv cid)
unfolding remove_from_game vacate
remove_from_game-Has env srv cid g at =
    rw (remove_from_game, at)
      (end_if_empty-Has _ srv.conns env _ (
        choose (Has _ srv.conns) (srv.game_started && not srv.game_over)
          (λ _. check_game_over-Has _ srv.conns env _ none gone) (λ _. gone)))
  where
    gone : Has (modify g (λ _. none) (seats srv.slots)) srv.conns (vacate srv g)
    gone = (seats-modify g _ (λ _. none) srv.slots (λ s. refl), refl)
