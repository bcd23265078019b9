-- ===== src/Warzone/Seating.antt =====
-- warzone_go, server.go: who sits in the slots of the game, from the start of the server on.
use a_simple_game_server.Prelude.{
  pos, ◌%◌, ◌-◌, ℕ, zero, suc, ◌+◌, not, true, List, Option, none, some, ◌≡◌, ◌≢◌, refl, arith, inl,
  inr, ◌&&◌, nat_eq, get_elem?, choose, choose_some,
}
use a_simple_game_server.Warzone.Database.{Database}
use a_simple_game_server.Warzone.State.{map_w, map_h, ConnEntry, Server, Env, find_index}
use a_simple_game_server.Warzone.Round.{spawn_weapon, try_cells, is_busy}
use a_simple_game_server.Warzone.Packets.{auth, playing, closed, Reply}
use a_simple_game_server.Warzone.System.{
  Phases, put_phase, Reaches, start, packet, connection, weapon, new_server,
}
use a_simple_game_server.Warzone.Loops.{accept, weapon_tick}
use a_simple_game_server.Warzone.Frames.{seats, Has}
use a_simple_game_server.Warzone.Changes.{
  All-get_elem?, find_index-get_elem?, get_elem?-modify_other, get_elem?-modify_same,
}
use a_simple_game_server.Warzone.Seats.{Fits, Fits-entry, same-IsSeated}
use a_simple_game_server.Warzone.Leaving.{InOrder}
use a_simple_game_server.Warzone.Threads.{step-Good}

accept-InOrder :
    (env : Env) (srv : Server) (ph : Phases) (cid : ℕ)
    → (accept env srv).1 ≡ some cid
    → InOrder srv ph
    → InOrder (accept env srv).0 (put_phase cid (auth 0) ph)
unfolding accept
accept-InOrder env srv ph cid e ok =
    choose_some
      (λ (r : Server × Option ℕ). r.1 ≡ some cid → InOrder r.0 (put_phase cid (auth 0) ph))
      (find_index (λ c. not c.active) srv.conns) (λ _ bad. absurd cc)
      (λ i found mine.
        let same : i ≡ cid = cc in
        let (x, at, idle) = find_index-get_elem? (λ c. not c.active) srv.conns i found in
        let here : get_elem? srv.conns cid ≡ some x = rw (← same) at in
        rw (same) (
          same-IsSeated (seats srv.slots) srv.conns ph ok cid _ _ (auth 0)
            (λ c ne. get_elem?-modify_other cid c _ srv.conns ne)
            (rw (get_elem?-modify_same cid _ srv.conns x here) refl) refl
            (λ n seat.
              absurd (elim (Fits-entry (get_elem? srv.conns cid) (ph cid) (ok.entries cid)) [
                | inl ended ↦ let was = ok.plays n cid seat in cc
                | inr (y, there, active) ↦ cc
              ]))))
      e

try_cells-Has :
    (env : Env) (srv : Server) (slot left n : ℕ)
    → Has (seats srv.slots) srv.conns (try_cells env srv slot left n)
unfolding try_cells
try_cells-Has env srv slot zero n = (refl, refl)
try_cells-Has env srv slot (suc left) n =
    choose (Has (seats srv.slots) srv.conns)
      (is_busy srv (pos (2 + (env.draws n).0 % (map_w - 4)))
        (pos (2 + (env.draws n).1 % (map_h - 4))))
      (λ _. try_cells-Has env srv slot left (n + 1)) (λ _. (refl, refl))

weapon_tick-Has :
    (env : Env) (srv : Server) → Has (seats srv.slots) srv.conns (weapon_tick env srv).0
unfolding weapon_tick spawn_weapon
weapon_tick-Has env srv =
    choose (λ (r : Server × List (ℕ × Reply)). Has (seats srv.slots) srv.conns r.0)
      (srv.game_started && not srv.game_over)
      (λ _.
        choose_some (Has (seats srv.slots) srv.conns) (find_index (λ w. not w.active) srv.weapons)
          (λ _. (refl, refl)) (λ slot _. try_cells-Has env srv slot 50 0))
      (λ _. (refl, refl))

new_server-InOrder : (db : Database) → InOrder (new_server db) (λ n. closed)
unfolding new_server
new_server-InOrder db = record {
  entries = λ c. tt;
  plays = λ n c at. absurd (vacant n c at);
  once = λ n m c a b. absurd (vacant n c a);
}
  where
    vacant : (n c : ℕ) → get_elem? (seats (new_server db).slots) n ≢ some (some c)
    vacant n c at =
        let empty =
          All-get_elem? (λ o. o ≡ none) (seats (new_server db).slots) n (some c) (ground arith)
            at in
        absurd cc

Reaches-InOrder : (srv : Server) (ph : Phases) → Reaches srv ph → InOrder srv ph
Reaches-InOrder _ _ (start db) = new_server-InOrder db
Reaches-InOrder _ _ (packet env srv ph cid s r) =
    step-Good env ph cid srv (ph cid) s (Reaches-InOrder srv ph r) refl
Reaches-InOrder _ _ (connection env srv ph cid e r) =
    accept-InOrder env srv ph cid e (Reaches-InOrder srv ph r)
Reaches-InOrder _ _ (weapon env srv ph r) =
    let (slots, conns) = weapon_tick-Has env srv in rw (slots, conns) (Reaches-InOrder srv ph r)

Fits-playing :
    (o : Option ConnEntry)
    → Fits o playing
    → (e : ConnEntry) × o ≡ some e × e.active ≡ true × e.authed ≡ true
Fits-playing none h = absurd h
Fits-playing (some e) h = (e, refl, h.0, h.1)

-- From the start of the server on, whoever sits in a slot of the game is a connection that is active, that
-- has registered or logged in, and whose thread is in the game.
pub Reaches-plays :
    (srv : Server) (ph : Phases) (n c : ℕ)
    → Reaches srv ph
    → get_elem? (seats srv.slots) n ≡ some (some c)
    → ph c ≡ playing
      × ((e : ConnEntry) × get_elem? srv.conns c ≡ some e × e.active ≡ true × e.authed ≡ true)
Reaches-plays srv ph n c r at =
    let ok = Reaches-InOrder srv ph r in
    let plays = ok.plays n c at in
    (plays, Fits-playing (get_elem? srv.conns c) (rw (← plays) (ok.entries c)))

-- From the start of the server on, no connection sits in two slots.
pub Reaches-once :
    (srv : Server) (ph : Phases) (n m c : ℕ)
    → Reaches srv ph
    → get_elem? (seats srv.slots) n ≡ some (some c)
    → get_elem? (seats srv.slots) m ≡ some (some c)
    → n ≡ m
Reaches-once srv ph n m c r = (Reaches-InOrder srv ph r).once n m c
