-- ===== src/Cluster/Succession.antt =====
-- Failover in cluster.go: which node `pickReplicaLocked` picks, that `handleNodeFailure` and
-- `ExecuteAdmin` move the sessions together with the maps, and when a map cannot move.
use text.Mathlib.TextEquality.{eq_iff}
use a_simple_game_server.Prelude.{
  String, true, false, List, [], ◌∷◌, none, some, ◌≡◌, ◌≢◌, refl, ap, ◌∙◌, sym, ◌⊎◌, inl, inr,
  arith, Bool-cases, Option-cases, ◌==◌, string_eq, str_lt, if◌then◌else◌,
}
use a_simple_game_server.Prelude.Maps.{
  Map, lookup, insert, keys, lookup-insert, lookup-insert_self, lookup-insert_ne,
}
use a_simple_game_server.Prelude.Sorting.{sort_by}
use a_simple_game_server.Messages.{failover}
use a_simple_game_server.Storage.{Store, load_checkpoint, zero_checkpoint}
use a_simple_game_server.World.State.{MapConfig}
use a_simple_game_server.Cluster.State.{Session, Node, Cluster, Machine, at_key}
use a_simple_game_server.Cluster.Nodes.{promote, store_replica}
use a_simple_game_server.Cluster.Events.{push_event_locked}
use a_simple_game_server.Cluster.Persist.{put_node}
use a_simple_game_server.Cluster.Failover.{
  first_replica, pick_replica, take_over, move_sessions, hand_over, fail_map, fail_maps,
  handle_node_failure,
}
use a_simple_game_server.Cluster.Routing.{IsRouted, Routed}

-- A node that may stand in for `owner_id`: another one, and healthy.
abbrev pub CanReplace : Map Node → String → String → Type 0
CanReplace nodes owner_id id =
    (id ≢ owner_id) × (n : Node) × (lookup id nodes ≡ some n) × (n.healthy ≡ true)

first_replica_lem :
    (owner_id : String) (nodes : Map Node) (ids : List String)
    → (first_replica owner_id nodes ids ≡ "")
      ⊎ CanReplace nodes owner_id (first_replica owner_id nodes ids)
unfolding first_replica
first_replica_lem owner_id nodes [] = inl refl
first_replica_lem owner_id nodes (id ∷ ids) =
    let rest = first_replica_lem owner_id nodes ids in
    elim (Bool-cases (id == owner_id)) [
      | inl same ↦ rw same rest
      | inr other ↦ elim (Option-cases (lookup id nodes)) [
        | inl missing ↦ rw (other, missing) rest
        | inr (n, at) ↦ elim (Bool-cases n.healthy) [
          | inl up ↦
              let ne : id ≢ owner_id = λ e. ground (arith, eq_iff id owner_id) in
              rw (other, at, up) (inr (ne, n, at, up))
          | inr down ↦ rw (other, at, down) rest
        ]
      ]
    ]

-- The replica that is picked for a map is a healthy node other than the map's owner, or the empty text.
pub pick_replica_lem :
    (nodes : Map Node) (owner_id : String)
    → (pick_replica nodes owner_id ≡ "") ⊎ CanReplace nodes owner_id (pick_replica nodes owner_id)
unfolding pick_replica
pick_replica_lem nodes owner_id = first_replica_lem owner_id nodes (sort_by str_lt (keys nodes))

move_sessions-at :
    (map_id from to : String) (m : Map Session) (u : String) (s' : Session)
    → lookup u (move_sessions map_id from to m) ≡ some s'
    → (s : Session) × (lookup u m ≡ some s)
      × (s'.map_id ≡ s.map_id)
      × (s'.node_id ≡ (if s.map_id == map_id then to else s.node_id))
unfolding move_sessions lookup push_event_locked
move_sessions-at map_id from to [] u s' at = cc
move_sessions-at map_id from to ((k, s) ∷ m) u s' at = elim (Bool-cases (k == u)) [
  | inl same ↦ elim (Bool-cases (s.map_id == map_id)) [
    | inl on ↦
        let e : s' ≡ push_event_locked (record s { node_id = to }) (failover map_id from to) =
          ground arith in
        (s, rw same, ap (λ x. x.map_id) e, rw on (ap (λ x. x.node_id) e))
    | inr off ↦
        let e : s' ≡ s = ground arith in
        (s, rw same, ap (λ x. x.map_id) e, rw off (ap (λ x. x.node_id) e))
  ]
  | inr other ↦
      let (old, found, p, q) = move_sessions-at map_id from to m u s' (ground arith) in
      (old, rw other found, p, q)
]

-- The sessions on a map that moves name its new node; the others name the node they named.
move_sessions-IsRouted :
    (map_id from to : String) (m : Map Session) (owners : Map String)
    → IsRouted m owners
    → IsRouted (move_sessions map_id from to m) (insert map_id to owners)
move_sessions-IsRouted map_id from to m owners r u s' at =
    let (s, old, e, f) = move_sessions-at map_id from to m u s' at in
    let before = r u s old in
    let there = lookup-insert map_id s.map_id to owners in
    elim (Bool-cases (s.map_id == map_id)) [
      | inl on ↦
          let ek : s.map_id ≡ map_id = (eq_iff s.map_id map_id).0 on in
          rw (e, f, on, ek) (lookup-insert_self map_id to owners)
      | inr off ↦
          let diff : (map_id == s.map_id) ≡ false =
            ground (arith, eq_iff s.map_id map_id, eq_iff map_id s.map_id) in
          rw (e, f, off) (rw diff at there ∙ before)
    ]

hand_over-Routed :
    (c : Cluster) (failed_id map_id replica_id : String)
    → Routed c
    → Routed (hand_over c failed_id map_id replica_id)
unfolding hand_over
hand_over-Routed c failed_id map_id replica_id r =
    let moved = move_sessions-IsRouted map_id failed_id replica_id c.sessions c.owners r.routes in
    elim (Option-cases (lookup failed_id c.nodes)) [
      | inl missing ↦ rw missing (record { routes = moved })
      | inr (n, at) ↦ rw at (record { routes = moved })
    ]

fail_map-Routed :
    (m : Machine) (c : Cluster) (failed_id map_id : String)
    → Routed c
    → Routed (fail_map m c failed_id map_id)
unfolding fail_map
fail_map-Routed m c failed_id map_id r =
    let replica_id = at_key map_id c.replicas in
    elim (Option-cases (lookup replica_id c.nodes)) [
      | inl missing ↦ rw (missing, fail_map) r
      | inr (replica, at) ↦ elim (Option-cases (lookup map_id c.configs)) [
        | inl no_config ↦ rw (at, no_config, fail_map) r
        | inr (cfg, at_cfg) ↦
            let (replica', taken) = take_over m c.store replica map_id cfg in
            let c' = put_node c replica_id replica' in
            let r' : Routed c' = record { routes = r.routes } in
            elim (Bool-cases taken) [
              | inl took ↦
                  rw (at, at_cfg, took, fail_map)
                    (hand_over-Routed c' failed_id map_id replica_id r')
              | inr kept ↦ rw (at, at_cfg, kept, fail_map) r'
            ]
      ]
    ]

fail_maps-Routed :
    (m : Machine) (failed_id : String) (os : List (String × String)) (c : Cluster)
    → Routed c
    → Routed (fail_maps m failed_id os c)
unfolding fail_maps
fail_maps-Routed m failed_id [] c r = r
fail_maps-Routed m failed_id ((map_id, owner_id) ∷ os) c r =
    elim (Bool-cases (owner_id == failed_id)) [
      | inl his ↦ rw his (
          fail_maps-Routed m failed_id os (fail_map m c failed_id map_id)
            (fail_map-Routed m c failed_id map_id r))
      | inr other ↦ rw other (fail_maps-Routed m failed_id os c r)
    ]

-- When a node fails and its maps move, every session still names the node that owns its map.
pub handle_node_failure-Routed :
    (m : Machine) (c : Cluster) (failed_id : String)
    → Routed c
    → Routed (handle_node_failure m c failed_id)
unfolding handle_node_failure
handle_node_failure-Routed m c failed_id r = fail_maps-Routed m failed_id c.owners c r

-- The replica cannot take over a map of which it has no snapshot and of which no checkpoint was
-- stored: the zero checkpoint that `LoadCheckpoint` answers with is filed under the empty name.
take_over_lem :
    (m : Machine) (st : Store) (replica : Node) (map_id : String) (cfg : MapConfig)
    → lookup map_id replica.replica_snapshots ≡ none
    → lookup map_id st.checkpoints ≡ none
    → map_id ≢ ""
    → (take_over m st replica map_id cfg).1 ≡ false
unfolding take_over promote load_checkpoint store_replica
take_over_lem m st replica map_id cfg no_copy no_file named =
    let unfiled : lookup map_id (insert "" zero_checkpoint replica.replica_snapshots) ≡ none =
      lookup-insert_ne "" map_id zero_checkpoint replica.replica_snapshots (λ e. named (sym e))
      ∙ no_copy in
    let blank : load_checkpoint st map_id ≡ some zero_checkpoint =
      rw (no_file, load_checkpoint) refl in
    let lost : promote m replica map_id cfg ≡ none = rw (no_copy, promote) refl in
    let again : promote m (store_replica replica zero_checkpoint) map_id cfg ≡ none =
      rw (unfiled, promote) refl in
    rw (lost, blank, again, take_over) refl

-- A map whose replica node has no snapshot of it, and of which no checkpoint is stored, stays with the
-- node that failed, and its sessions with it.
pub fail_map_stays :
    (m : Machine) (c : Cluster) (failed_id map_id replica_id : String) (replica : Node)
    → lookup map_id c.replicas ≡ some replica_id
    → lookup replica_id c.nodes ≡ some replica
    → lookup map_id replica.replica_snapshots ≡ none
    → lookup map_id c.store.checkpoints ≡ none
    → map_id ≢ ""
    → ((fail_map m c failed_id map_id).owners ≡ c.owners)
      × ((fail_map m c failed_id map_id).sessions ≡ c.sessions)
unfolding fail_map
fail_map_stays m c failed_id map_id replica_id replica picked at no_copy no_file named =
    let found : lookup (at_key map_id c.replicas) c.nodes ≡ some replica = rw (picked, at_key) at in
    elim (Option-cases (lookup map_id c.configs)) [
      | inl no_config ↦ rw (found, no_config, fail_map) (refl, refl)
      | inr (cfg, at_cfg) ↦
          let stuck = take_over_lem m c.store replica map_id cfg no_copy no_file named in
          rw (found, at_cfg, stuck, fail_map) (refl, refl)
    ]
