-- ===== src/Warzone/Packets.antt =====
-- warzone_go, protocol.go and conn.go: packets as they are read, and the end of a connection's thread. `unread`
-- is all that the peer sends before it closes.
use a_simple_game_server.Prelude.{
  ℕ, zero, suc, ◌+◌, ◌*◌, Bool, false, List, [], ◌∷◌, Option, none, some, leb, nat_eq,
  if◌then◌else◌, get_elem?, drop, map,
}
use a_simple_game_server.Warzone.Bytes.{Bytes, bytes_eq, fixed, name_str}
use a_simple_game_server.Warzone.Database.{Message, StatsRecord}
use a_simple_game_server.Warzone.State.{disconnected, ConnEntry, Server, Env, modify}
use a_simple_game_server.Warzone.Round.{conn_to_game_slot}
use a_simple_game_server.Warzone.Arena.{remove_from_game}
use a_simple_game_server.Warzone.Broadcast.{StateUpdate, broadcast_state}

-- The three phases of `connThread`, the first with the attempts made, and its end.
pub data Phase : Type 0 where
  auth : ℕ → Phase
  lobby playing closed : Phase

pub data Reply : Type 0 where
  heartbeat_ack room_full : Reply
  auth_result : Bool → Message → Bytes → Reply
  stats_response : Bytes → Option StatsRecord → Reply
  update : StateUpdate → Reply

-- What a step leaves: the server, the thread's phase, the bytes it has not read, and what was sent to
-- which connection.
pub record After : Type 0 where
  pub server : Server
  pub phase : Phase
  pub unread : Bytes
  pub sent : List (ℕ × Reply)

-- `io.ReadFull`: that many bytes, or the error of a stream that ends before.
unfoldable pub read_full : ℕ → Bytes → Option (Bytes × Bytes)
read_full zero s = some ([], s)
read_full (suc n) [] = none
read_full (suc n) (c ∷ s) = elim (read_full n s) [
  | none ↦ none
  | some (p, rest) ↦ some (c ∷ p, rest)
]

-- `RecvHeader`: the type, and the length in two bytes, the low one first.
unfoldable pub recv_header : Bytes → Option (ℕ × ℕ × Bytes)
recv_header (t ∷ lo ∷ hi ∷ s) = some (t, lo + 256 * hi, s)
recv_header _ = none

abbrev pub pkt_register : ℕ
pkt_register = 1

abbrev pub pkt_login : ℕ
pkt_login = 2

abbrev pub pkt_join : ℕ
pkt_join = 4

abbrev pub pkt_action : ℕ
pkt_action = 5

abbrev pub pkt_ready : ℕ
pkt_ready = 7

abbrev pub pkt_stats_request : ℕ
pkt_stats_request = 8

abbrev pub pkt_heartbeat : ℕ
pkt_heartbeat = 10

abbrev pub pkt_heartbeat_ack : ℕ
pkt_heartbeat_ack = 11

abbrev pub pkt_disconnect : ℕ
pkt_disconnect = 12

-- A payload of a size: decoded if the packet is long enough, even if more follows; thrown away, and all
-- zeros, if it is shorter. `none` is the error of a stream that ends inside it.
unfoldable pub recv_payload : ℕ → ℕ → Bytes → Option (Bytes × Bytes)
unfolding read_full fixed
recv_payload size len s =
    if leb size len then read_full size s else some (fixed size [], drop len s)

abbrev pub to_all : List (ℕ × StateUpdate) → List (ℕ × Reply)
to_all us = map (λ u. (u.0, update u.1)) us

unfoldable pub touch_hb : Env → Server → ℕ → Server
unfolding modify
touch_hb env srv cid = record srv {
  conns = modify cid (λ c. record c { last_hb = env.clock }) srv.conns;
}

-- `connEntry{}`.
abbrev pub empty_entry : ConnEntry
empty_entry = record {
  active = false;
  authed = false;
  username = [];
  game_slot = some 0;
  last_hb = 0;
}

-- The deferred `cleanup` of the thread.
unfoldable pub cleanup : Env → Server → ℕ → Server × List (ℕ × Reply)
unfolding modify broadcast_state
cleanup env srv cid =
    let (srv1, sent) : Server × List (ℕ × Reply) = elim (conn_to_game_slot srv cid) [
      | none ↦ (srv, [])
      | some gs ↦
          let name : Bytes = elim (get_elem? srv.slots gs) [
            | none ↦ []
            | some s ↦ name_str s.player.name
          ] in
          let left = remove_from_game env (record srv { last_event = disconnected name }) cid in
          (left, to_all (broadcast_state left))
    ] in
    (record srv1 { conns = modify cid (λ c. empty_entry) srv1.conns }, sent)

abbrev pub leave : Env → Server → ℕ → Bytes → After
leave env srv cid s =
    let (srv', sent) = cleanup env srv cid in
    record { server = srv'; phase = closed; unread = s; sent = sent }

abbrev pub stay : Server → Phase → Bytes → List (ℕ × Reply) → After
stay srv p s sent = record { server = srv; phase = p; unread = s; sent = sent }
