-- ===== src/Cluster/Switch.antt =====
-- cluster.go, `SwitchMap`.
use a_simple_game_server.Prelude.{String, not, none, some, ◌+◌, ◌==◌, string_eq, if◌then◌else◌}
use a_simple_game_server.Prelude.Maps.{lookup, insert}
use a_simple_game_server.Protocol.{UserProfile}
use a_simple_game_server.Messages.{already_on_map, down_no_switch, switched_map}
use a_simple_game_server.World.State.{MapConfig}
use a_simple_game_server.Cluster.State.{
  Session, Node, Cluster, Machine, Result, err, offline, no_such_map, route_incomplete, source_lost,
  at_key,
}
use a_simple_game_server.Cluster.Nodes.{node_profile, node_remove_player, add_player}
use a_simple_game_server.Cluster.Events.{push_event, push_event_locked}
use a_simple_game_server.Cluster.Persist.{put_node, save, persist_session_state}
use a_simple_game_server.Cluster.Views.{WorldState, snapshot_for}

-- The profile that arrives: at the target map's spawn.
unfoldable pub arriving : UserProfile → String → String → MapConfig → UserProfile
arriving profile target node_id cfg = record profile {
  last_map = target;
  last_node = node_id;
  x = cfg.spawn_x;
  y = cfg.spawn_y;
}

-- The session after the switch: its version counts the switch and the event.
unfoldable pub switched_session : Session → String → String → Session
switched_session s target node_id =
    push_event_locked (record s { map_id = target; node_id = node_id; version = s.version + 1 })
      (switched_map target node_id)

-- The player has left the source world with `profile`.
unfoldable pub arrive :
    Machine → Cluster → Session → String → String → String → MapConfig → UserProfile → Cluster
unfolding arriving switched_session
arrive m c s username target node_id cfg profile =
    let there = arriving profile target node_id cfg in
    let c1 : Cluster = elim (lookup node_id c.nodes) [
      | none ↦ c
      | some n ↦ put_node c node_id (add_player m.now n target there)
    ] in
    let c2 : Cluster = record c1 {
      sessions = insert username (switched_session s target node_id) c1.sessions;
    } in
    persist_session_state m (save m c2 there) username

-- Both nodes are known: look at the player, and move them over if they stand.
unfoldable pub leave :
    Machine
    → Cluster
    → Session
    → Node
    → String
    → String
    → String
    → MapConfig
    → Cluster × Result WorldState
leave m c s source username target node_id cfg =
    let (source1, found) = node_profile m.now source s.map_id username in
    let c1 = put_node c s.node_id source1 in
    elim found [
      | none ↦ (c1, err source_lost)
      | some profile ↦
          if not profile.alive
          then snapshot_for m.now (push_event c1 username (down_no_switch username)) username
          else let (source2, removed) = node_remove_player source1 s.map_id username in
            let c2 = put_node c s.node_id source2 in
            elim removed [
              | none ↦ (c2, err source_lost)
              | some gone ↦
                  snapshot_for m.now (arrive m c2 s username target node_id cfg gone) username
            ]
    ]

unfoldable pub switch_map : Machine → Cluster → String → String → Cluster × Result WorldState
switch_map m c username target = elim (lookup username c.sessions) [
  | none ↦ (c, err (offline username))
  | some s ↦ elim (lookup target c.configs) [
    | none ↦ (c, err (no_such_map target))
    | some cfg ↦
        if s.map_id == target
        then snapshot_for m.now (push_event c username (already_on_map target)) username
        else let node_id = at_key target c.owners in
          elim (lookup s.node_id c.nodes) [
            | none ↦ (c, err route_incomplete)
            | some source ↦ elim (lookup node_id c.nodes) [
              | none ↦ (c, err route_incomplete)
              | some _ ↦ leave m c s source username target node_id cfg
            ]
          ]
  ]
]
