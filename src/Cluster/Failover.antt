-- ===== src/Cluster/Failover.antt =====
-- cluster.go, failover and administration: `handleNodeFailure`, `pickReplicaLocked`, `failNode`,
-- `recoverNode`, `ExecuteAdmin`, and the start, `NewCluster`.
use a_simple_game_server.Prelude.{
  String, Bool, true, false, ◌||◌, List, [], ◌∷◌, Option, none, some, ◌==◌, string_eq, str_lt,
  if◌then◌else◌,
}
use a_simple_game_server.Prelude.Maps.{Map, lookup, insert, keys}
use a_simple_game_server.Prelude.Sorting.{sort_by}
use a_simple_game_server.Messages.{failover, admin_failed, admin_recovered}
use a_simple_game_server.Storage.{Store, load_checkpoint, save_checkpoint}
use a_simple_game_server.World.State.{MapConfig}
use a_simple_game_server.World.Maps.{available_maps}
use a_simple_game_server.Cluster.State.{
  Session, Node, Cluster, Machine, Error, unknown_node, node_required, unknown_action, at_key,
}
use a_simple_game_server.Cluster.Nodes.{
  new_node, start, stop, remove_hosted_map, install_primary_map, restore_primary_map,
  node_checkpoint, store_replica, promote, set_healthy,
}
use a_simple_game_server.Cluster.Events.{push_event_locked, broadcast_global_event}
use a_simple_game_server.Cluster.Persist.{put_node}
use a_simple_game_server.Cluster.Views.{NodeView, view, node_views}
use a_simple_game_server.Cluster.Boss.{new_boss, build_boss_sites}

-- The first healthy node, by identifier, that is not the owner; the empty text if there is none.
unfoldable pub first_replica : String → Map Node → List String → String
first_replica owner_id nodes [] = ""
first_replica owner_id nodes (id ∷ ids) =
    let rest = first_replica owner_id nodes ids in
    if id == owner_id
    then rest
    else elim (lookup id nodes) [ none ↦ rest | some n ↦ if n.healthy then id else rest ]

unfoldable pub pick_replica : Map Node → String → String
unfolding first_replica
pick_replica nodes owner_id = first_replica owner_id nodes (sort_by str_lt (keys nodes))

-- The replica takes the map over, from its own snapshot or else from the stored checkpoint.
unfoldable pub take_over : Machine → Store → Node → String → MapConfig → Node × Bool
take_over m store replica map_id cfg = elim (promote m replica map_id cfg) [
  | some promoted ↦ (promoted, true)
  | none ↦ elim (load_checkpoint store map_id) [
    | none ↦ (replica, false)
    | some cp ↦
        let given = store_replica replica cp in
        elim (promote m given map_id cfg) [
          | some promoted ↦ (promoted, true)
          | none ↦ (given, false)
        ]
  ]
]

-- The sessions on the map follow it to its new node, and are told.
unfoldable pub move_sessions : String → String → String → Map Session → Map Session
move_sessions map_id from to [] = []
move_sessions map_id from to ((k, s) ∷ m) =
    (
      k,
      if s.map_id == map_id
          then push_event_locked (record s { node_id = to }) (failover map_id from to)
          else s,
    )
    ∷ move_sessions map_id from to m

-- The map has moved from the failed node to `replica_id`.
unfoldable pub hand_over : Cluster → String → String → String → Cluster
unfolding move_sessions
hand_over c failed_id map_id replica_id =
    let c1 : Cluster = record c {
      owners = insert map_id replica_id c.owners;
      replicas = insert map_id (pick_replica c.nodes replica_id) c.replicas;
    } in
    let c2 : Cluster = elim (lookup failed_id c1.nodes) [
      | none ↦ c1
      | some f ↦ put_node c1 failed_id (remove_hosted_map f map_id)
    ] in
    record c2 { sessions = move_sessions map_id failed_id replica_id c2.sessions }

unfoldable pub fail_map : Machine → Cluster → String → String → Cluster
fail_map m c failed_id map_id =
    let replica_id = at_key map_id c.replicas in
    elim (lookup replica_id c.nodes) [
      | none ↦ c
      | some replica ↦ elim (lookup map_id c.configs) [
        | none ↦ c
        | some cfg ↦
            let (replica', taken) = take_over m c.store replica map_id cfg in
            let c' = put_node c replica_id replica' in
            if taken then hand_over c' failed_id map_id replica_id else c'
      ]
    ]

-- The loop over the owners, in any order; an entry changes only in its own round.
unfoldable pub fail_maps : Machine → String → List (String × String) → Cluster → Cluster
fail_maps m failed_id [] c = c
fail_maps m failed_id ((map_id, owner_id) ∷ rest) c =
    fail_maps m failed_id rest (if owner_id == failed_id then fail_map m c failed_id map_id else c)

unfoldable pub handle_node_failure : Machine → Cluster → String → Cluster
unfolding fail_maps
handle_node_failure m c failed_id = fail_maps m failed_id c.owners c

-- `failNode` first brings the checkpoints and the replicas of the node's maps up to date.
unfoldable pub flush_maps : Machine → String → List String → Cluster → Cluster
flush_maps m node_id [] c = c
flush_maps m node_id (map_id ∷ ids) c = elim (lookup node_id c.nodes) [
  | none ↦ flush_maps m node_id ids c
  | some n ↦
      let (n', captured) = node_checkpoint m.now n map_id in
      let c1 = put_node c node_id n' in
      elim captured [
        | none ↦ flush_maps m node_id ids c1
        | some cp ↦
            let c2 : Cluster = record c1 { store = save_checkpoint m.writes c1.store cp } in
            let replica_id = at_key map_id c2.replicas in
            elim (lookup replica_id c2.nodes) [
              | none ↦ flush_maps m node_id ids c2
              | some replica ↦
                  flush_maps m node_id ids (put_node c2 replica_id (store_replica replica cp))
            ]
      ]
]

unfoldable pub fail_node : Machine → Cluster → String → Cluster × Option Error
unfolding flush_maps
fail_node m c node_id = elim (lookup node_id c.nodes) [
  | none ↦ (c, some (unknown_node node_id))
  | some node ↦
      let c1 = flush_maps m node_id (view node).primary_maps c in
      elim (lookup node_id c1.nodes) [
        | none ↦ (c1, some (unknown_node node_id))
        | some n ↦
            let (stopped, failed) = stop m n in
            elim failed [
              | some e ↦ (put_node c1 node_id stopped, some e)
              | none ↦
                  let c2 = put_node c1 node_id (set_healthy m.now stopped false).0 in
                  (
                    broadcast_global_event (handle_node_failure m c2 node_id)
                        (admin_failed node_id),
                    none,
                  )
            ]
      ]
]

-- The node becomes the replica of every map that another node owns.
unfoldable pub reload_replicas : String → List (String × String) → Cluster → Cluster
reload_replicas node_id [] c = c
reload_replicas node_id ((map_id, owner_id) ∷ rest) c =
    let reloaded : Cluster = elim (load_checkpoint c.store map_id) [
      | none ↦ c
      | some cp ↦ elim (lookup node_id c.nodes) [
        | none ↦ c
        | some n ↦ record (put_node c node_id (store_replica n cp)) {
          replicas = insert map_id node_id c.replicas;
        }
      ]
    ] in
    reload_replicas node_id rest (if owner_id == node_id then c else reloaded)

unfoldable pub recover_node : Machine → Cluster → String → Cluster × Option Error
unfolding reload_replicas
recover_node m c node_id = elim (lookup node_id c.nodes) [
  | none ↦ (c, some (unknown_node node_id))
  | some node ↦
      let (started, failed) = start m node in
      elim failed [
        | some e ↦ (put_node c node_id started, some e)
        | none ↦
            let c1 = put_node c node_id (set_healthy m.now started true).0 in
            (
              broadcast_global_event (reload_replicas node_id c1.owners c1)
                  (admin_recovered node_id),
              none,
            )
      ]
]

pub data AdminReply : Type 0 where
  status : List NodeView → AdminReply
  done : AdminReply
  failed : Error → AdminReply

abbrev admin_reply : Option Error → AdminReply
admin_reply none = done
admin_reply (some e) = failed e

unfoldable pub execute_admin : Machine → Cluster → String → String → Cluster × AdminReply
execute_admin m c action node_id =
    if action == "status" || action == "状态"
    then (c, status (node_views c.nodes))
    else if action == "fail" || action == "down" || action == "故障"
    then (if node_id == ""
        then (c, failed node_required)
        else let (c', e) = fail_node m c node_id in (c', admin_reply e))
    else if action == "recover" || action == "up" || action == "恢复"
    then (if node_id == ""
        then (c, failed node_required)
        else let (c', e) = recover_node m c node_id in (c', admin_reply e))
    else (c, failed (unknown_action action))

unfoldable pub config_map : List MapConfig → Map MapConfig
config_map [] = []
config_map (cfg ∷ cfgs) = insert cfg.id cfg (config_map cfgs)

-- One entry of the table of placements in `NewCluster`.
unfoldable pub place_map : Machine → Cluster → String → String → String → Cluster
place_map m c map_id owner replica = elim (lookup map_id c.configs) [
  | none ↦ c
  | some cfg ↦
      let c1 : Cluster = record c {
        owners = insert map_id owner c.owners;
        replicas = insert map_id replica c.replicas;
      } in
      elim (lookup owner c1.nodes) [
        | none ↦ c1
        | some n ↦
            let installed = install_primary_map m n cfg in
            let c2 = put_node c1 owner installed in
            elim (load_checkpoint c2.store map_id) [
              | none ↦ c2
              | some cp ↦
                  let c3 = put_node c2 owner (restore_primary_map m installed cfg cp) in
                  elim (lookup replica c3.nodes) [
                    | none ↦ c3
                    | some r ↦ put_node c3 replica (store_replica r cp)
                  ]
            ]
      ]
]

unfoldable pub new_cluster : Machine → Store → Cluster
unfolding place_map config_map
new_cluster m store =
    let configs = config_map available_maps in
    let boss = new_boss in
    let c0 : Cluster = record {
      store = store;
      nodes =
          ("node-a", new_node m.now "node-a" "127.0.0.1:9311")
          ∷ ("node-b", new_node m.now "node-b" "127.0.0.1:9312")
          ∷ ("node-c", new_node m.now "node-c" "127.0.0.1:9313")
          ∷ [];
      sessions = [];
      owners = [];
      replicas = [];
      configs = configs;
      boss = record boss { sites = build_boss_sites configs };
    } in
    place_map m (place_map m (place_map m c0 "green" "node-a" "node-c") "cave" "node-b" "node-c")
      "ruins" "node-a" "node-b"
