-- ===== src/Cluster/Ticks.antt =====
-- cluster.go, one round of each of the four loops that run beside the handlers: the background step,
-- the heartbeat, the checkpoints and the flush of the sessions.
use a_simple_game_server.Prelude.{
  String, Bool, not, ◌&&◌, List, [], ◌∷◌, none, some, str_lt, if◌then◌else◌,
}
use a_simple_game_server.Prelude.Maps.{Map, lookup, keys}
use a_simple_game_server.Prelude.Sorting.{sort_by}
use a_simple_game_server.Messages.{Event}
use a_simple_game_server.Storage.{save_checkpoint}
use a_simple_game_server.Cluster.State.{Node, Cluster, Machine, at_key}
use a_simple_game_server.Cluster.Nodes.{
  node_background_step, node_checkpoint, store_replica, set_healthy,
}
use a_simple_game_server.Cluster.Events.{broadcast_map_event}
use a_simple_game_server.Cluster.Persist.{put_node, persist_session_state}
use a_simple_game_server.Cluster.Failover.{handle_node_failure}

unfoldable pub tell_map : String → List Event → Cluster → Cluster
tell_map map_id [] c = c
tell_map map_id (e ∷ es) c = tell_map map_id es (broadcast_map_event c map_id e)

unfoldable pub tell_maps : List (String × List Event) → Cluster → Cluster
unfolding tell_map
tell_maps [] c = c
tell_maps ((map_id, events) ∷ rest) c = tell_maps rest (tell_map map_id events c)

unfoldable pub background_nodes : Machine → List String → Cluster → Cluster
background_nodes m [] c = c
background_nodes m (id ∷ ids) c = elim (lookup id c.nodes) [
  | none ↦ background_nodes m ids c
  | some n ↦
      let (n', results) = node_background_step m.now n in
      background_nodes m ids (tell_maps results (put_node c id n'))
]

unfoldable pub healthy_ids : Map Node → List String
healthy_ids [] = []
healthy_ids ((id, n) ∷ m) = if n.healthy then id ∷ healthy_ids m else healthy_ids m

unfoldable pub background_tick : Machine → Cluster → Cluster
unfolding background_nodes
background_tick m c = background_nodes m (sort_by str_lt (healthy_ids c.nodes)) c

-- `answers` says which addresses answer the ping.
unfoldable pub heartbeat_nodes : Machine → (String → Bool) → List String → Cluster → Cluster
heartbeat_nodes m answers [] c = c
heartbeat_nodes m answers (id ∷ ids) c = elim (lookup id c.nodes) [
  | none ↦ heartbeat_nodes m answers ids c
  | some n ↦
      let (n', was_healthy) = set_healthy m.now n (answers n.addr) in
      let c' = put_node c id n' in
      heartbeat_nodes m answers ids
        (if was_healthy && not (answers n.addr) then handle_node_failure m c' n.id else c')
]

unfoldable pub heartbeat_tick : Machine → (String → Bool) → Cluster → Cluster
unfolding heartbeat_nodes
heartbeat_tick m answers c = heartbeat_nodes m answers (sort_by str_lt (keys c.nodes)) c

unfoldable pub checkpoint_map : Machine → Cluster → String → String → Cluster
checkpoint_map m c map_id owner_id = elim (lookup owner_id c.nodes) [
  | none ↦ c
  | some owner ↦
      if not owner.healthy
      then c
      else let (owner', captured) = node_checkpoint m.now owner map_id in
        let c1 = put_node c owner_id owner' in
        elim captured [
          | none ↦ c1
          | some cp ↦
              let c2 : Cluster = record c1 { store = save_checkpoint m.writes c1.store cp } in
              let replica_id = at_key map_id c2.replicas in
              elim (lookup replica_id c2.nodes) [
                | none ↦ c2
                | some replica ↦ put_node c2 replica_id (store_replica replica cp)
              ]
        ]
]

unfoldable pub checkpoint_maps : Machine → List (String × String) → Cluster → Cluster
unfolding checkpoint_map
checkpoint_maps m [] c = c
checkpoint_maps m ((map_id, owner_id) ∷ rest) c =
    checkpoint_maps m rest (checkpoint_map m c map_id owner_id)

unfoldable pub checkpoint_tick : Machine → Cluster → Cluster
unfolding checkpoint_maps
checkpoint_tick m c = checkpoint_maps m c.owners c

unfoldable pub flush_users : Machine → List String → Cluster → Cluster
flush_users m [] c = c
flush_users m (u ∷ us) c = flush_users m us (persist_session_state m c u)

unfoldable pub flush_tick : Machine → Cluster → Cluster
unfolding flush_users
flush_tick m c = flush_users m (keys c.sessions) c
