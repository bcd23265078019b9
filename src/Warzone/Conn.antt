-- ===== src/Warzone/Conn.antt =====
-- warzone_go, conn.go: the three phases of a connection's thread. A step reads and answers one packet.
use a_simple_game_server.Prelude.{
  pos, ℕ, ◌+◌, Bool, true, false, not, ◌&&◌, ◌||◌, List, [], ◌∷◌, ◌++◌, none, some, leb, ◌==◌,
  nat_eq, if◌then◌else◌, get_elem?, drop,
}
use a_simple_game_server.Warzone.Bytes.{Bytes, bytes_eq, fixed, bytes_to_string, name_str}
use a_simple_game_server.Warzone.Database.{Message, register_user, login, get_stats, take}
use a_simple_game_server.Warzone.State.{
  Slot, enters, is_ready, Server, Env, is_some, modify, find_index,
}
use a_simple_game_server.Warzone.Round.{conn_to_game_slot, game_online, game_ready, reset_game}
use a_simple_game_server.Warzone.Arena.{username_of, apply_action}
use a_simple_game_server.Warzone.Broadcast.{broadcast_state}
use a_simple_game_server.Warzone.Packets.{
  Phase, auth, lobby, playing, closed, Reply, heartbeat_ack, room_full, auth_result, stats_response,
  After, recv_header, recv_payload, pkt_register, pkt_login, pkt_join, pkt_action, pkt_ready,
  pkt_stats_request, pkt_heartbeat, pkt_heartbeat_ack, pkt_disconnect, to_all, touch_hb, leave,
  stay,
}

-- The answer to an attempt is sent; the tenth attempt that fails ends the thread.
unfoldable pub answered : Env → Server → ℕ → ℕ → Bytes → Bytes → Bool × Message → After
unfolding modify
answered env srv cid attempt username s answer =
    let told = (cid, auth_result answer.0 answer.1 username) ∷ [] in
    if not env.sends
    then leave env srv cid s
    else if answer.0
    then stay
        (record srv {
          conns = modify cid (λ c. record c { authed = true; username = username }) srv.conns;
        })
        lobby s told
    else if leb 10 (attempt + 1)
    then (let a = leave env srv cid s in record a { sent = told ++ a.sent })
    else stay srv (auth (attempt + 1)) s told

-- One attempt to register or to log in.
unfoldable pub authenticate : Env → Server → ℕ → ℕ → ℕ → ℕ → Bytes → After
unfolding answered recv_payload bytes_to_string
authenticate env srv cid attempt kind len s = elim (recv_payload 96 len s) [
  | none ↦ leave env srv cid s
  | some (payload, rest) ↦
      let username = bytes_to_string (take 32 payload) in
      let password = bytes_to_string (drop 32 payload) in
      if kind == pkt_register
      then (let (db, r) = register_user env.now env.writes srv.db username password in
          answered env (record srv { db = db }) cid attempt username rest r)
      else answered env srv cid attempt username rest (login srv.db username password)
]

abbrev ack : Env → ℕ → List (ℕ × Reply)
ack env cid = if env.sends then (cid, heartbeat_ack) ∷ [] else []

unfoldable pub auth_step : Env → Server → ℕ → ℕ → Bytes → After
unfolding authenticate touch_hb
auth_step env srv cid attempt s = elim (recv_header s) [
  | none ↦ leave env srv cid s
  | some (kind, len, rest) ↦
      if kind == pkt_disconnect
      then leave env srv cid rest
      else if kind == pkt_heartbeat
      then stay (touch_hb env srv cid) (auth attempt) rest (ack env cid)
      else if kind == pkt_heartbeat_ack
      then stay (touch_hb env srv cid) (auth attempt) rest []
      else if kind == pkt_register || kind == pkt_login
      then authenticate env srv cid attempt kind len rest
      else stay srv (auth attempt) (drop len rest) []
]

-- `handleStatsRequest`; its errors are ignored.
unfoldable pub handle_stats_request : Env → Server → ℕ → ℕ → Bytes → Bytes × List (ℕ × Reply)
unfolding recv_payload bytes_to_string
handle_stats_request env srv cid len s =
    let (payload, rest) : Bytes × Bytes = elim (recv_payload 32 len s) [
      | none ↦ (fixed 32 [], [])
      | some r ↦ r
    ] in
    let asked = bytes_to_string payload in
    let target = if asked == [] then username_of srv.conns cid else asked in
    (rest, if env.sends then (cid, stats_response target (get_stats srv.db target)) ∷ [] else [])

-- The player that takes a free slot; the counters of the slot stay as they are.
unfoldable pub seated : ℕ → Bytes → Slot → Slot
seated cid username s = record s {
  conn = some cid;
  player = record {
    x = pos 0;
    y = pos 0;
    health = 0;
    alive = false;
    connected = true;
    ready = false;
    has_weapon = false;
    name = fixed 16 username;
  };
}

unfoldable pub join : Env → Server → ℕ → Bytes → After
unfolding seated modify find_index
join env srv cid s = elim (find_index (λ g. not (is_some g.conn)) srv.slots) [
  | none ↦ stay srv lobby s (if env.sends then (cid, room_full) ∷ [] else [])
  | some gs ↦
      let username = username_of srv.conns cid in
      let srv' : Server = record srv {
        slots = modify gs (seated cid username) srv.slots;
        conns = modify cid (λ c. record c { game_slot = some gs }) srv.conns;
        last_event = enters username;
      } in
      stay srv' playing s (to_all (broadcast_state srv'))
]

unfoldable pub lobby_step : Env → Server → ℕ → Bytes → After
unfolding join touch_hb handle_stats_request
lobby_step env srv cid s = elim (recv_header s) [
  | none ↦ leave env srv cid s
  | some (kind, len, rest) ↦
      if kind == pkt_disconnect
      then leave env srv cid rest
      else if kind == pkt_heartbeat
      then stay (touch_hb env srv cid) lobby rest (ack env cid)
      else if kind == pkt_heartbeat_ack
      then stay (touch_hb env srv cid) lobby rest []
      else if kind == pkt_join
      then join env srv cid rest
      else if kind == pkt_stats_request
      then (let (rest', sent) = handle_stats_request env srv cid len rest in
          stay srv lobby rest' sent)
      else stay srv lobby (drop len rest) []
]

-- The round begins when all are ready, two at least.
unfoldable pub begin_if_ready : Server → Server
begin_if_ready srv =
    if game_ready srv == game_online srv && leb 2 (game_online srv) then reset_game srv else srv

unfoldable pub handle_ready : Server → ℕ → Server × List (ℕ × Reply)
unfolding modify begin_if_ready
handle_ready srv cid = if srv.game_started then (srv, []) else elim (conn_to_game_slot srv cid) [
  | none ↦ (srv, [])
  | some gs ↦
      let name : Bytes = elim (get_elem? srv.slots gs) [
        | none ↦ []
        | some s ↦ name_str s.player.name
      ] in
      let srv' = begin_if_ready (record srv {
        slots = modify gs (λ s. record s { player = record s.player { ready = true } }) srv.slots;
        last_event = is_ready name;
      }) in
      (srv', to_all (broadcast_state srv'))
]

unfoldable pub handle_action : Env → Server → ℕ → ℕ → Bytes → After
unfolding recv_payload
handle_action env srv cid len s = elim (recv_payload 1 len s) [
  | none ↦ leave env srv cid s
  | some (payload, rest) ↦
      let action : ℕ = elim payload [ [] ↦ 0 | a ∷ _ ↦ a ] in
      let srv' = apply_action env srv cid action in
      stay srv' playing rest (to_all (broadcast_state srv'))
]

unfoldable pub game_step : Env → Server → ℕ → Bytes → After
unfolding handle_ready handle_action touch_hb handle_stats_request
game_step env srv cid s = elim (recv_header s) [
  | none ↦ leave env srv cid s
  | some (kind, len, rest) ↦
      if kind == pkt_ready
      then (let (srv', sent) = handle_ready srv cid in stay srv' playing rest sent)
      else if kind == pkt_action
      then handle_action env srv cid len rest
      else if kind == pkt_stats_request
      then (let (rest', sent) = handle_stats_request env srv cid len rest in
          stay srv playing rest' sent)
      else if kind == pkt_heartbeat
      then stay (touch_hb env srv cid) playing rest (ack env cid)
      else if kind == pkt_heartbeat_ack
      then stay (touch_hb env srv cid) playing rest []
      else if kind == pkt_disconnect
      then leave env srv cid rest
      else stay srv playing (drop len rest) []
]

-- One round of the thread.
unfoldable pub conn_step : Env → Server → ℕ → Phase → Bytes → After
unfolding auth_step lobby_step game_step
conn_step env srv cid (auth n) s = auth_step env srv cid n s
conn_step env srv cid lobby s = lobby_step env srv cid s
conn_step env srv cid playing s = game_step env srv cid s
conn_step env srv cid closed s = stay srv closed s []
