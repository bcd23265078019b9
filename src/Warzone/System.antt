-- ===== src/Warzone/System.antt =====
-- warzone_go: the server from `New` on, as its threads take turns. A connection's thread takes a step with any
-- bytes and any outside circumstances, a connection is accepted, or the weapon worker ticks.
use a_simple_game_server.Prelude.{
  ℕ, pos, false, [], none, some, ◌≡◌, ◌==◌, nat_eq, if◌then◌else◌, replicate,
}
use a_simple_game_server.Warzone.Bytes.{Bytes, fixed}
use a_simple_game_server.Warzone.Database.{Database}
use a_simple_game_server.Warzone.State.{
  max_players, max_weapons, max_conn, Slot, server_started, Server, Env,
}
use a_simple_game_server.Warzone.Packets.{Phase, auth, closed, empty_entry}
use a_simple_game_server.Warzone.Conn.{conn_step}
use a_simple_game_server.Warzone.Loops.{accept, weapon_tick}

abbrev pub empty_slot : Slot
empty_slot = record {
  conn = none;
  player = record {
    x = pos 0;
    y = pos 0;
    health = 0;
    alive = false;
    connected = false;
    ready = false;
    has_weapon = false;
    name = fixed 16 [];
  };
  kills = 0;
  died = false;
}

unfoldable pub new_server : Database → Server
new_server db = record {
  db = db;
  conns = replicate max_conn empty_entry;
  slots = replicate max_players empty_slot;
  weapons = replicate max_weapons (record { x = pos 0; y = pos 0; active = false });
  game_started = false;
  game_over = false;
  winner_conn = none;
  last_event = server_started;
}

abbrev pub Phases : Type 0
Phases = ℕ → Phase

abbrev pub put_phase : ℕ → Phase → Phases → Phases
put_phase cid p ph n = if n == cid then p else ph n

-- The states of the server and of the connections' threads that can come about.
pub data Reaches : Server → Phases → Type 0 where
  start : (db : Database) → Reaches (new_server db) (λ n. closed)
  packet :
      (env : Env) (srv : Server) (ph : Phases) (cid : ℕ) (s : Bytes)
      → Reaches srv ph
      → Reaches
          (conn_step env srv cid (ph cid) s).server
          (put_phase cid (conn_step env srv cid (ph cid) s).phase ph)
  connection :
      (env : Env) (srv : Server) (ph : Phases) (cid : ℕ)
      → (accept env srv).1 ≡ some cid
      → Reaches srv ph
      → Reaches (accept env srv).0 (put_phase cid (auth 0) ph)
  weapon :
      (env : Env) (srv : Server) (ph : Phases) → Reaches srv ph → Reaches (weapon_tick env srv).0 ph
