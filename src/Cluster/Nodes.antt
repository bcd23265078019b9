-- ===== src/Cluster/Nodes.antt =====
-- cluster.go, `NodeService`: a node hosts worlds and keeps snapshots of maps that others host.
use a_simple_game_server.Prelude.{
  ℕ, String, Bool, true, false, List, [], ◌∷◌, Option, none, some, str_lt, if◌then◌else◌,
}
use a_simple_game_server.Prelude.Maps.{lookup, insert, delete, keys}
use a_simple_game_server.Prelude.Sorting.{sort_by}
use a_simple_game_server.Protocol.{UserProfile, MapView, MapCheckpoint}
use a_simple_game_server.Messages.{Event}
use a_simple_game_server.World.State.{MapConfig, World}
use a_simple_game_server.World.Move.{move_player, Reply}
use a_simple_game_server.World.Heal.{heal_player}
use a_simple_game_server.World.Attack.{attack, AttackReply}
use a_simple_game_server.World.Shop.{buy_item}
use a_simple_game_server.World.Sessions.{
  add_or_restore_player, remove_player, profile_of, reward_player,
}
use a_simple_game_server.World.Background.{background_step}
use a_simple_game_server.World.Snapshot.{snapshot, counts, capture_checkpoint, restore_checkpoint}
use a_simple_game_server.Cluster.State.{Node, Machine, Error, port_failed}

unfoldable pub new_node : ℕ → String → String → Node
new_node now id addr = record {
  id = id;
  addr = addr;
  healthy = true;
  last_heartbeat = now;
  maps = [];
  replica_snapshots = [];
  listening = false;
}

unfoldable pub start : Machine → Node → Node × Option Error
start m n =
    if n.listening
    then (n, none)
    else if m.opens
    then (record n { listening = true; last_heartbeat = m.now; healthy = true }, none)
    else (n, some port_failed)

unfoldable pub stop : Machine → Node → Node × Option Error
stop m n =
    if n.listening
    then (
      record n { listening = false; healthy = false },
      if m.closes then none else some port_failed,
    )
    else (n, none)

unfoldable pub remove_hosted_map : Node → String → Node
remove_hosted_map n map_id = record n { maps = delete map_id n.maps }

unfoldable pub install_primary_map : Machine → Node → MapConfig → Node
install_primary_map m n cfg = elim (lookup cfg.id n.maps) [
  | some _ ↦ n
  | none ↦ record n { maps = insert cfg.id (m.fresh cfg) n.maps }
]

unfoldable pub restore_primary_map : Machine → Node → MapConfig → MapCheckpoint → Node
restore_primary_map m n cfg cp =
    let instance' : World = elim (lookup cfg.id n.maps) [ some w ↦ w | none ↦ m.fresh cfg ] in
    record n { maps = insert cfg.id (restore_checkpoint m.now instance' cp) n.maps }

-- A method of a hosted world, called through the node; `none` where the node does not host the map.
unfoldable pub on_map {ℓ} :
    {A : Type ℓ} → Node → String → (World → World × Option A) → Node × Option A
on_map n map_id method = elim (lookup map_id n.maps) [
  | none ↦ (n, none)
  | some w ↦ let (w', r) = method w in (record n { maps = insert map_id w' n.maps }, r)
]

unfoldable pub add_player : ℕ → Node → String → UserProfile → Node
add_player now n map_id profile = elim (lookup map_id n.maps) [
  | none ↦ n
  | some w ↦ record n { maps = insert map_id (add_or_restore_player now w profile).0 n.maps }
]

unfoldable pub node_remove_player : Node → String → String → Node × Option UserProfile
unfolding on_map
node_remove_player n map_id username = on_map n map_id (λ w. remove_player w username)

unfoldable pub node_move_player : ℕ → Node → String → String → String → Node × Reply
unfolding on_map
node_move_player now n map_id username dir = on_map n map_id (λ w. move_player now w username dir)

unfoldable pub node_attack : ℕ → Node → String → String → Node × Option AttackReply
unfolding on_map
node_attack now n map_id username = on_map n map_id (λ w. attack now w username)

unfoldable pub node_heal : ℕ → Node → String → String → Node × Reply
unfolding on_map
node_heal now n map_id username = on_map n map_id (λ w. heal_player now w username)

unfoldable pub node_buy_item : ℕ → Node → String → String → String → Node × Reply
unfolding on_map
node_buy_item now n map_id username item = on_map n map_id (λ w. buy_item now w username item)

unfoldable pub node_profile : ℕ → Node → String → String → Node × Option UserProfile
unfolding on_map
node_profile now n map_id username = on_map n map_id (λ w. profile_of now w username)

unfoldable pub node_reward_player : ℕ → Node → String → String → ℕ → ℕ → Node × Option UserProfile
unfolding on_map
node_reward_player now n map_id username treasures victories =
    on_map n map_id (λ w. reward_player now w username treasures victories)

unfoldable pub node_snapshot : ℕ → Node → String → Node × Option MapView
unfolding on_map
node_snapshot now n map_id =
    on_map n map_id (λ w. let (w', v) = snapshot now w n.id in (w', some v))

unfoldable pub node_counts : Node → String → Option (ℕ × ℕ × ℕ × ℕ)
node_counts n map_id = elim (lookup map_id n.maps) [ none ↦ none | some w ↦ some (counts w) ]

unfoldable pub node_checkpoint : ℕ → Node → String → Node × Option MapCheckpoint
unfolding on_map
node_checkpoint now n map_id =
    on_map n map_id (λ w. let (w', cp) = capture_checkpoint now w n.id in (w', some cp))

-- The loop over the hosted maps, in the order of their identifiers.
unfoldable pub step_maps : ℕ → List String → Node → Node × List (String × List Event)
step_maps now [] n = (n, [])
step_maps now (map_id ∷ ids) n = elim (lookup map_id n.maps) [
  | none ↦ step_maps now ids n
  | some w ↦
      let (w', events) = background_step now w in
      let (n', results) = step_maps now ids (record n { maps = insert map_id w' n.maps }) in
      (n', elim events [ [] ↦ results | e ∷ es ↦ (map_id, e ∷ es) ∷ results ])
]

unfoldable pub node_background_step : ℕ → Node → Node × List (String × List Event)
unfolding step_maps
node_background_step now n = step_maps now (sort_by str_lt (keys n.maps)) n

unfoldable pub store_replica : Node → MapCheckpoint → Node
store_replica n cp = record n { replica_snapshots = insert cp.map_id cp n.replica_snapshots }

-- `none` is the error that there is no snapshot.
unfoldable pub promote : Machine → Node → String → MapConfig → Option Node
promote m n map_id cfg = elim (lookup map_id n.replica_snapshots) [
  | none ↦ none
  | some cp ↦ some (record n {
    maps = insert map_id (restore_checkpoint m.now (m.fresh cfg) cp) n.maps;
    replica_snapshots = delete map_id n.replica_snapshots;
  })
]

-- The node, and whether it was healthy.
unfoldable pub set_healthy : ℕ → Node → Bool → Node × Bool
set_healthy now n healthy = (
  record n { healthy = healthy; last_heartbeat = if healthy then now else n.last_heartbeat },
  n.healthy,
)
