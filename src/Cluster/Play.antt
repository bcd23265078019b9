-- ===== src/Cluster/Play.antt =====
-- cluster.go, `Move`, `Attack`, `Heal` and `BuyItem`: find the session and its node, run the world's
-- handler, tell the players, store the profiles, and answer with a snapshot.
use a_simple_game_server.Prelude.{String, none, some, ◌==◌, string_eq, if◌then◌else◌}
use a_simple_game_server.Prelude.Maps.{lookup}
use a_simple_game_server.Protocol.{UserProfile}
use a_simple_game_server.Messages.{Event, is_silent}
use a_simple_game_server.World.Attack.{AttackReply}
use a_simple_game_server.Cluster.State.{
  Session, Cluster, Machine, Result, ok, err, move_refused, attack_refused, heal_refused,
  shop_refused,
}
use a_simple_game_server.Cluster.Nodes.{
  node_move_player, node_attack, node_heal, node_buy_item, node_profile,
}
use a_simple_game_server.Cluster.Events.{push_event}
use a_simple_game_server.Cluster.Persist.{
  session_node, put_node, placed, save, persist_session_state,
}
use a_simple_game_server.Cluster.Views.{WorldState, snapshot_for}

-- What the handlers have in common after the world's answer.
unfoldable pub finish :
    Machine → Cluster → Session → String → Event → UserProfile → Cluster × Result WorldState
finish m c s username event profile =
    let c1 = save m (push_event c username event) (placed profile s.map_id s.node_id) in
    snapshot_for m.now (persist_session_state m c1 username) username

unfoldable pub move : Machine → Cluster → String → String → Cluster × Result WorldState
move m c username dir = elim (session_node c username) [
  | err e ↦ (c, err e)
  | ok (s, n) ↦
      let (n', reply) = node_move_player m.now n s.map_id username dir in
      let c' = put_node c s.node_id n' in
      elim reply [
        | none ↦ (c', err move_refused)
        | some (event, profile) ↦ finish m c' s username event profile
      ]
]

unfoldable pub heal : Machine → Cluster → String → Cluster × Result WorldState
heal m c username = elim (session_node c username) [
  | err e ↦ (c, err e)
  | ok (s, n) ↦
      let (n', reply) = node_heal m.now n s.map_id username in
      let c' = put_node c s.node_id n' in
      elim reply [
        | none ↦ (c', err heal_refused)
        | some (event, profile) ↦ finish m c' s username event profile
      ]
]

unfoldable pub buy : Machine → Cluster → String → String → Cluster × Result WorldState
buy m c username item = elim (session_node c username) [
  | err e ↦ (c, err e)
  | ok (s, n) ↦
      let (n', reply) = node_buy_item m.now n s.map_id username item in
      let c' = put_node c s.node_id n' in
      elim reply [
        | none ↦ (c', err shop_refused)
        | some (event, profile) ↦ finish m c' s username event profile
      ]
]

-- The struck player is told, and stored as the node has them now.
unfoldable pub tell_target : Machine → Cluster → Session → AttackReply → Cluster
tell_target m c s r =
    if r.target == ""
    then c
    else if is_silent r.target_event
    then c
    else let c1 = push_event c r.target r.target_event in
      elim (lookup s.node_id c1.nodes) [
        | none ↦ c1
        | some n ↦
            let (n', found) = node_profile m.now n s.map_id r.target in
            let c2 = put_node c1 s.node_id n' in
            elim found [
              | none ↦ c2
              | some profile ↦
                  persist_session_state m (save m c2 (placed profile s.map_id s.node_id)) r.target
            ]
      ]

unfoldable pub attack : Machine → Cluster → String → Cluster × Result WorldState
unfolding tell_target
attack m c username = elim (session_node c username) [
  | err e ↦ (c, err e)
  | ok (s, n) ↦
      let (n', reply) = node_attack m.now n s.map_id username in
      let c' = put_node c s.node_id n' in
      elim reply [
        | none ↦ (c', err attack_refused)
        | some r ↦
            let c1 = tell_target m (push_event c' username r.event) s r in
            let c2 = save m c1 (placed r.profile s.map_id s.node_id) in
            snapshot_for m.now (persist_session_state m c2 username) username
      ]
]
