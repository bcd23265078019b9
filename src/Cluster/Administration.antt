-- ===== src/Cluster/Administration.antt =====
-- `failNode`, `recoverNode` and `ExecuteAdmin` of cluster.go: the sessions stay with their maps.
use a_simple_game_server.Prelude.{
  String, true, false, ◌||◌, List, [], ◌∷◌, inl, inr, Bool-cases, Option-cases, ◌==◌, string_eq,
}
use a_simple_game_server.Prelude.Maps.{lookup, insert}
use a_simple_game_server.Messages.{admin_failed, admin_recovered}
use a_simple_game_server.Storage.{load_checkpoint, save_checkpoint}
use a_simple_game_server.Cluster.State.{Cluster, Machine, at_key}
use a_simple_game_server.Cluster.Nodes.{start, stop, store_replica, node_checkpoint, set_healthy}
use a_simple_game_server.Cluster.Events.{broadcast_global_event}
use a_simple_game_server.Cluster.Persist.{put_node}
use a_simple_game_server.Cluster.Views.{view}
use a_simple_game_server.Cluster.Failover.{
  handle_node_failure, flush_maps, fail_node, reload_replicas, recover_node, execute_admin,
}
use a_simple_game_server.Cluster.Routing.{Routed, Keeps-Routed, broadcast_global_event-Keeps}
use a_simple_game_server.Cluster.Succession.{handle_node_failure-Routed}

flush_maps-Routed :
    (m : Machine) (node_id : String) (ids : List String) (c : Cluster)
    → Routed c
    → Routed (flush_maps m node_id ids c)
unfolding flush_maps
flush_maps-Routed m node_id [] c r = r
flush_maps-Routed m node_id (map_id ∷ ids) c r = elim (Option-cases (lookup node_id c.nodes)) [
  | inl missing ↦ rw (missing, flush_maps) (flush_maps-Routed m node_id ids c r)
  | inr (n, at) ↦
      let (n', captured) = node_checkpoint m.now n map_id in
      let c1 = put_node c node_id n' in
      elim (Option-cases captured) [
        | inl nothing ↦
            rw (at, nothing, flush_maps)
              (flush_maps-Routed m node_id ids c1 (record { routes = r.routes }))
        | inr (cp, held) ↦
            let c2 : Cluster = record c1 { store = save_checkpoint m.writes c1.store cp } in
            let replica_id = at_key map_id c2.replicas in
            elim (Option-cases (lookup replica_id c2.nodes)) [
              | inl lonely ↦
                  rw (at, held, lonely, flush_maps)
                    (flush_maps-Routed m node_id ids c2 (record { routes = r.routes }))
              | inr (replica, standing) ↦
                  rw (at, held, standing, flush_maps)
                    (flush_maps-Routed m node_id ids
                      (put_node c2 replica_id (store_replica replica cp))
                      (record { routes = r.routes }))
            ]
      ]
]

fail_node-Routed :
    (m : Machine) (c : Cluster) (node_id : String) → Routed c → Routed (fail_node m c node_id).0
unfolding fail_node
fail_node-Routed m c node_id r = elim (Option-cases (lookup node_id c.nodes)) [
  | inl missing ↦ rw (missing, fail_node) r
  | inr (node, at) ↦
      let c1 = flush_maps m node_id (view node).primary_maps c in
      let r1 : Routed c1 = flush_maps-Routed m node_id (view node).primary_maps c r in
      elim (Option-cases (lookup node_id c1.nodes)) [
        | inl gone ↦ rw (at, gone, fail_node) r1
        | inr (n, there) ↦
            let (stopped, failed) = stop m n in
            elim (Option-cases failed) [
              | inr (e, bad) ↦ rw (at, there, bad, fail_node) (record { routes = r1.routes })
              | inl fine ↦
                  let c2 = put_node c1 node_id (set_healthy m.now stopped false).0 in
                  let c3 = handle_node_failure m c2 node_id in
                  let told = broadcast_global_event-Keeps c3 (admin_failed node_id) in
                  rw (at, there, fine, fail_node)
                    (Keeps-Routed c3 (broadcast_global_event c3 (admin_failed node_id)) told
                      (handle_node_failure-Routed m c2 node_id (record { routes = r1.routes })))
            ]
      ]
]

reload_replicas-Routed :
    (node_id : String) (os : List (String × String)) (c : Cluster)
    → Routed c
    → Routed (reload_replicas node_id os c)
unfolding reload_replicas
reload_replicas-Routed node_id [] c r = r
reload_replicas-Routed node_id ((map_id, owner_id) ∷ os) c r =
    elim (Bool-cases (owner_id == node_id)) [
      | inl own ↦ rw own (reload_replicas-Routed node_id os c r)
      | inr other ↦ elim (Option-cases (load_checkpoint c.store map_id)) [
        | inl bad ↦ rw (other, bad) (reload_replicas-Routed node_id os c r)
        | inr (cp, held) ↦ elim (Option-cases (lookup node_id c.nodes)) [
          | inl missing ↦ rw (other, held, missing) (reload_replicas-Routed node_id os c r)
          | inr (n, at) ↦
              let c1 : Cluster = record (put_node c node_id (store_replica n cp)) {
                replicas = insert map_id node_id c.replicas;
              } in
              rw (other, held, at)
                (reload_replicas-Routed node_id os c1 (record { routes = r.routes }))
        ]
      ]
    ]

recover_node-Routed :
    (m : Machine) (c : Cluster) (node_id : String) → Routed c → Routed (recover_node m c node_id).0
unfolding recover_node
recover_node-Routed m c node_id r = elim (Option-cases (lookup node_id c.nodes)) [
  | inl missing ↦ rw (missing, recover_node) r
  | inr (node, at) ↦
      let (started, failed) = start m node in
      elim (Option-cases failed) [
        | inr (e, bad) ↦ rw (at, bad, recover_node) (record { routes = r.routes })
        | inl fine ↦
            let c1 = put_node c node_id (set_healthy m.now started true).0 in
            let c2 = reload_replicas node_id c1.owners c1 in
            let told = broadcast_global_event-Keeps c2 (admin_recovered node_id) in
            rw (at, fine, recover_node)
              (Keeps-Routed c2 (broadcast_global_event c2 (admin_recovered node_id)) told
                (reload_replicas-Routed node_id c1.owners c1 (record { routes = r.routes })))
      ]
]

-- Whatever administration command is given, to fail a node, to recover one, to show the state or one
-- that is refused, every session still names the node that owns its map.
pub execute_admin-Routed :
    (m : Machine) (c : Cluster) (action node_id : String)
    → Routed c
    → Routed (execute_admin m c action node_id).0
unfolding execute_admin
execute_admin-Routed m c action node_id r =
    let down = fail_node-Routed m c node_id r in
    let up = recover_node-Routed m c node_id r in
    elim (Bool-cases (action == "status" || action == "状态")) [
      | inl s ↦ rw s r
      | inr not_s ↦ elim (Bool-cases (action == "fail" || action == "down" || action == "故障")) [
        | inl f ↦ elim (Bool-cases (node_id == "")) [
          | inl blank ↦ rw (not_s, f, blank) r
          | inr named ↦ rw (not_s, f, named) down
        ]
        | inr not_f ↦ elim (Bool-cases (action == "recover" || action == "up" || action == "恢复")) [
          | inl v ↦ elim (Bool-cases (node_id == "")) [
            | inl blank ↦ rw (not_s, not_f, v, blank) r
            | inr named ↦ rw (not_s, not_f, v, named) up
          ]
          | inr not_v ↦ rw (not_s, not_f, not_v) r
        ]
      ]
    ]
