-- ===== src/Cluster/Persist.antt =====
-- cluster.go, `sessionNode` and `persistSessionState`.
use a_simple_game_server.Prelude.{String, none, some}
use a_simple_game_server.Prelude.Maps.{lookup, insert}
use a_simple_game_server.Protocol.{UserProfile, HotSession}
use a_simple_game_server.Storage.{save_profile, save_hot_session}
use a_simple_game_server.Cluster.State.{
  Session, Node, Cluster, Machine, Result, ok, err, offline, node_unavailable,
}
use a_simple_game_server.Cluster.Nodes.{node_profile}

unfoldable pub session_node : Cluster → String → Result (Session × Node)
session_node c username = elim (lookup username c.sessions) [
  | none ↦ err (offline username)
  | some s ↦ elim (lookup s.node_id c.nodes) [
    | none ↦ err (node_unavailable s.node_id)
    | some n ↦ ok (s, n)
  ]
]

abbrev pub put_node : Cluster → String → Node → Cluster
put_node c id n = record c { nodes = insert id n c.nodes }

-- A profile that is told its map and node.
abbrev pub placed : UserProfile → String → String → UserProfile
placed profile map_id node_id = record profile { last_map = map_id; last_node = node_id }

abbrev pub save : Machine → Cluster → UserProfile → Cluster
save m c profile = record c { store = (save_profile m.writes c.store profile).0 }

abbrev pub hot_session : Machine → Session → String → UserProfile → HotSession
hot_session m s username profile = record {
  username = username;
  map_id = s.map_id;
  node_id = s.node_id;
  x = profile.x;
  y = profile.y;
  hp = profile.hp;
  treasures = profile.treasures;
  session_version = s.version;
  updated_at = m.now;
}

-- The two writes at the end: the second is made only if the first succeeds.
unfoldable pub persist_profile : Machine → Cluster → Session → String → UserProfile → Cluster
persist_profile m c s username profile =
    let (store', failed) = save_profile m.writes c.store (placed profile s.map_id s.node_id) in
    elim failed [
      | some _ ↦ record c { store = store' }
      | none ↦ record c {
        store = (save_hot_session m.writes store' (hot_session m s username profile)).0;
      }
    ]

-- Every caller ignores the error, so only the cluster is returned.
unfoldable pub persist_session_state : Machine → Cluster → String → Cluster
unfolding persist_profile
persist_session_state m c username = elim (lookup username c.sessions) [
  | none ↦ c
  | some s ↦ elim (lookup s.node_id c.nodes) [
    | none ↦ c
    | some n ↦
        let (n', found) = node_profile m.now n s.map_id username in
        let c' = put_node c s.node_id n' in
        elim found [ none ↦ c' | some profile ↦ persist_profile m c' s username profile ]
  ]
]
