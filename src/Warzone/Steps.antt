-- ===== src/Warzone/Steps.antt =====
-- warzone_go, conn.go: what a connection's step can do to the state of the game. A property of the slots, the
-- weapons and the two flags holds after every step if the four operations on them keep it.
use a_simple_game_server.Prelude.{
  ℕ, Option, ◌&&◌, ◌+◌, leb, not, Bool, List, ◌||◌, ◌==◌, nat_eq, choose, choose_some,
}
use a_simple_game_server.Warzone.Bytes.{Bytes}
use a_simple_game_server.Warzone.Database.{Database, Message}
use a_simple_game_server.Warzone.State.{WeaponItem, Slot, Server, Env, find_index}
use a_simple_game_server.Warzone.Round.{spawn_weapon, conn_to_game_slot}
use a_simple_game_server.Warzone.Arena.{apply_action, remove_from_game}
use a_simple_game_server.Warzone.Packets.{
  Phase, auth, lobby, playing, closed, Reply, After, pkt_disconnect, pkt_heartbeat,
  pkt_heartbeat_ack, pkt_register, pkt_login, pkt_join, pkt_stats_request, pkt_ready, pkt_action,
  recv_header, recv_payload, cleanup, leave,
}
use a_simple_game_server.Warzone.Conn.{
  answered, authenticate, auth_step, join, lobby_step, handle_ready, handle_action, game_step,
  conn_step,
}
use a_simple_game_server.Warzone.Loops.{accept, weapon_tick}
use a_simple_game_server.Warzone.System.{
  new_server, Phases, Reaches, start, packet, connection, weapon,
}

abbrev pub GameProperty : Type 1
GameProperty = List Slot → List WeaponItem → Bool → Bool → Type 0

-- The property, of a server.
abbrev pub Holds : GameProperty → Server → Type 0
Holds P srv = P srv.slots srv.weapons srv.game_started srv.game_over

-- The start of the server has the property, and the operations on the game keep the property.
pub record IsKept (P : GameProperty) : Type 0 where
  pub acts :
      (env : Env) (srv : Server) (cid action : ℕ)
      → Holds P srv
      → Holds P (apply_action env srv cid action)
  pub leaves :
      (env : Env) (srv : Server) (cid : ℕ) → Holds P srv → Holds P (remove_from_game env srv cid)
  pub joins :
      (env : Env) (srv : Server) (cid : ℕ) (s : Bytes)
      → Holds P srv
      → Holds P (join env srv cid s).server
  pub starts : (db : Database) → Holds P (new_server db)
  pub ticks : (env : Env) (srv : Server) → Holds P srv → Holds P (spawn_weapon env srv)
  pub readies : (srv : Server) (cid : ℕ) → Holds P srv → Holds P (handle_ready srv cid).0

module _ (P : GameProperty) (k : IsKept P) (env : Env) (cid : ℕ) where
  leave-Holds : (srv : Server) (s : Bytes) → Holds P srv → Holds P (leave env srv cid s).server
  unfolding cleanup
  leave-Holds srv s h =
      choose_some (λ (r : Server × List (ℕ × Reply)). Holds P r.0) (conn_to_game_slot srv cid)
        (λ _. h) (λ gs _. k.leaves env _ cid h)

  abbrev Ends : After → Type 0
  Ends a = Holds P a.server

  answered-Holds :
      (srv : Server) (attempt : ℕ) (username s : Bytes) (answer : Bool × Message)
      → Holds P srv
      → Ends (answered env srv cid attempt username s answer)
  unfolding answered
  answered-Holds srv attempt username s answer h =
      choose Ends (not env.sends) (λ _. leave-Holds srv s h)
        (λ _.
          choose Ends answer.0 (λ _. h)
            (λ _. choose Ends (leb 10 (attempt + 1)) (λ _. leave-Holds srv s h) (λ _. h)))

  authenticate-Holds :
      (srv : Server) (attempt kind len : ℕ) (s : Bytes)
      → Holds P srv
      → Ends (authenticate env srv cid attempt kind len s)
  unfolding authenticate
  authenticate-Holds srv attempt kind len s h =
      choose_some Ends (recv_payload 96 len s) (λ _. leave-Holds srv s h)
        (λ (payload, rest) _.
          choose Ends (kind == pkt_register) (λ _. answered-Holds _ attempt _ rest _ h)
            (λ _. answered-Holds srv attempt _ rest _ h))

  auth_step-Holds :
      (srv : Server) (attempt : ℕ) (s : Bytes)
      → Holds P srv
      → Holds P (auth_step env srv cid attempt s).server
  unfolding auth_step
  auth_step-Holds srv attempt s h =
      choose_some Ends (recv_header s) (λ _. leave-Holds srv s h)
        (λ (kind, len, rest) _.
          choose Ends (kind == pkt_disconnect) (λ _. leave-Holds srv rest h)
            (λ _.
              choose Ends (kind == pkt_heartbeat) (λ _. h)
                (λ _.
                  choose Ends (kind == pkt_heartbeat_ack) (λ _. h)
                    (λ _.
                      choose Ends (kind == pkt_register || kind == pkt_login)
                        (λ _. authenticate-Holds srv attempt kind len rest h) (λ _. h)))))

  lobby_step-Holds :
      (srv : Server) (s : Bytes) → Holds P srv → Holds P (lobby_step env srv cid s).server
  unfolding lobby_step
  lobby_step-Holds srv s h =
      choose_some Ends (recv_header s) (λ _. leave-Holds srv s h)
        (λ (kind, len, rest) _.
          choose Ends (kind == pkt_disconnect) (λ _. leave-Holds srv rest h)
            (λ _.
              choose Ends (kind == pkt_heartbeat) (λ _. h)
                (λ _.
                  choose Ends (kind == pkt_heartbeat_ack) (λ _. h)
                    (λ _.
                      choose Ends (kind == pkt_join) (λ _. k.joins env srv cid rest h)
                        (λ _. choose Ends (kind == pkt_stats_request) (λ _. h) (λ _. h))))))

  handle_action-Holds :
      (srv : Server) (len : ℕ) (s : Bytes) → Holds P srv → Ends (handle_action env srv cid len s)
  unfolding handle_action
  handle_action-Holds srv len s h =
      choose_some Ends (recv_payload 1 len s) (λ _. leave-Holds srv s h)
        (λ r _. k.acts env srv cid _ h)

  game_step-Holds :
      (srv : Server) (s : Bytes) → Holds P srv → Holds P (game_step env srv cid s).server
  unfolding game_step
  game_step-Holds srv s h =
      choose_some Ends (recv_header s) (λ _. leave-Holds srv s h)
        (λ (kind, len, rest) _.
          choose Ends (kind == pkt_ready) (λ _. k.readies srv cid h)
            (λ _.
              choose Ends (kind == pkt_action) (λ _. handle_action-Holds srv len rest h)
                (λ _.
                  choose Ends (kind == pkt_stats_request) (λ _. h)
                    (λ _.
                      choose Ends (kind == pkt_heartbeat) (λ _. h)
                        (λ _.
                          choose Ends (kind == pkt_heartbeat_ack) (λ _. h)
                            (λ _.
                              choose Ends (kind == pkt_disconnect) (λ _. leave-Holds srv rest h)
                                (λ _. h)))))))

  pub conn_step-Holds :
      (srv : Server) (p : Phase) (s : Bytes)
      → Holds P srv
      → Holds P (conn_step env srv cid p s).server
  unfolding conn_step
  conn_step-Holds srv (auth n) s h = auth_step-Holds srv n s h
  conn_step-Holds srv lobby s h = lobby_step-Holds srv s h
  conn_step-Holds srv playing s h = game_step-Holds srv s h
  conn_step-Holds srv closed s h = h

module _ (P : GameProperty) (k : IsKept P) where
  accept-Holds : (env : Env) (srv : Server) → Holds P srv → Holds P (accept env srv).0
  unfolding accept
  accept-Holds env srv h =
      choose_some (λ (r : Server × Option ℕ). Holds P r.0)
        (find_index (λ c. not c.active) srv.conns) (λ _. h) (λ i _. h)

  weapon_tick-Holds : (env : Env) (srv : Server) → Holds P srv → Holds P (weapon_tick env srv).0
  unfolding weapon_tick
  weapon_tick-Holds env srv h =
      choose (λ (r : Server × List (ℕ × Reply)). Holds P r.0)
        (srv.game_started && not srv.game_over) (λ _. k.ticks env srv h) (λ _. h)

  pub Reaches-Holds : (srv : Server) (ph : Phases) → Reaches srv ph → Holds P srv
  Reaches-Holds _ _ (start db) = k.starts db
  Reaches-Holds _ _ (packet env srv ph cid s r) =
      conn_step-Holds P k env cid srv (ph cid) s (Reaches-Holds srv ph r)
  Reaches-Holds _ _ (connection env srv ph cid e r) = accept-Holds env srv (Reaches-Holds srv ph r)
  Reaches-Holds _ _ (weapon env srv ph r) = weapon_tick-Holds env srv (Reaches-Holds srv ph r)
