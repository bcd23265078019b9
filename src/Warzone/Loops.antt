-- ===== src/Warzone/Loops.antt =====
-- warzone_go, server.go: the loop that accepts connections and the two background workers.
use a_simple_game_server.Prelude.{
  ℕ, suc, ◌-◌, true, false, not, ◌&&◌, List, [], ◌∷◌, Option, none, some, ltb, nat_eq,
  if◌then◌else◌,
}
use a_simple_game_server.Warzone.Bytes.{bytes_eq}
use a_simple_game_server.Warzone.State.{
  heartbeat_timeout, ConnEntry, Server, Env, modify, find_index,
}
use a_simple_game_server.Warzone.Round.{spawn_weapon}
use a_simple_game_server.Warzone.Broadcast.{broadcast_state}
use a_simple_game_server.Warzone.Packets.{Reply, to_all}

-- `Start` at a new connection: the first free entry, or a refusal.
unfoldable pub accept : Env → Server → Server × Option ℕ
unfolding find_index modify
accept env srv = elim (find_index (λ c. not c.active) srv.conns) [
  | none ↦ (srv, none)
  | some i ↦ (
    record srv {
      conns =
          modify i
            (λ c. record {
              active = true;
              authed = false;
              username = [];
              game_slot = none;
              last_hb = env.clock;
            })
            srv.conns;
    },
    some i,
  )
]

-- One round of `weaponWorker`.
unfoldable pub weapon_tick : Env → Server → Server × List (ℕ × Reply)
weapon_tick env srv =
    if srv.game_started && not srv.game_over
    then (let srv' = spawn_weapon env srv in (srv', to_all (broadcast_state srv')))
    else (srv, [])

-- One round of `heartbeatWatcher`: the connections, from the number `i` on, that it closes.
unfoldable pub expired : Env → ℕ → List ConnEntry → List ℕ
expired env i [] = []
expired env i (c ∷ cs) =
    let rest = expired env (suc i) cs in
    if c.active && ltb heartbeat_timeout (env.clock - c.last_hb) then i ∷ rest else rest
