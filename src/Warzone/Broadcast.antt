-- ===== src/Warzone/Broadcast.antt =====
-- warzone_go, game.go: `broadcastStateLocked`.
use a_simple_game_server.Prelude.{
  ℕ, suc, Bool, List, [], ◌∷◌, none, some, nat_eq, if◌then◌else◌, get_elem?,
}
use a_simple_game_server.Warzone.Bytes.{bytes_eq}
use a_simple_game_server.Warzone.State.{PlayerState, WeaponItem, Slot, News, Server}
use a_simple_game_server.Warzone.Round.{conn_to_game_slot, game_online, game_ready}

-- One `StateUpdatePayload`, with `LastEvent` as the news that it tells.
pub record StateUpdate : Type 0 where
  pub players : List PlayerState
  pub weapons : List WeaponItem
  pub your_id : ℕ
  pub player_count : ℕ
  pub ready_count : ℕ
  pub game_started : Bool
  pub game_over : Bool
  pub winner_id : ℕ
  pub news : News

unfoldable pub players_of : List Slot → List PlayerState
players_of [] = []
players_of (s ∷ ss) = s.player ∷ players_of ss

-- 0xFF where there is no winner, or the winner has left.
unfoldable pub winner_id : Server → ℕ
winner_id srv = elim srv.winner_conn [
  | none ↦ 255
  | some c ↦ elim (conn_to_game_slot srv c) [ none ↦ 255 | some g ↦ g ]
]

unfoldable pub state_update : Server → ℕ → StateUpdate
unfolding players_of winner_id
state_update srv g = record {
  players = players_of srv.slots;
  weapons = srv.weapons;
  your_id = g;
  player_count = game_online srv;
  ready_count = game_ready srv;
  game_started = srv.game_started;
  game_over = srv.game_over;
  winner_id = winner_id srv;
  news = srv.last_event;
}

-- The updates that go out, to the connections in the game, from the slot `g` on.
unfoldable pub updates_from : Server → ℕ → List Slot → List (ℕ × StateUpdate)
updates_from srv g [] = []
updates_from srv g (s ∷ ss) =
    let rest = updates_from srv (suc g) ss in
    elim s.conn [
      | none ↦ rest
      | some cid ↦ elim (get_elem? srv.conns cid) [
        | none ↦ rest
        | some c ↦ if c.active then (cid, state_update srv g) ∷ rest else rest
      ]
    ]

unfoldable pub broadcast_state : Server → List (ℕ × StateUpdate)
unfolding updates_from
broadcast_state srv = updates_from srv 0 srv.slots
