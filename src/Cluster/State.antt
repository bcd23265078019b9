-- ===== src/Cluster/State.antt =====
-- cluster.go, its types. A handler runs as one step: the moments between its lock regions, at which
-- another handler could run, are left out.
use a_simple_game_server.Prelude.{ℕ, String, Bool, List, none, some}
use a_simple_game_server.Prelude.Maps.{Map, lookup}
use a_simple_game_server.Protocol.{MapCheckpoint, BossSite}
use a_simple_game_server.Messages.{Event}
use a_simple_game_server.Storage.{Store, StoreError}
use a_simple_game_server.World.State.{MapConfig, World}

pub record Session : Type 0 where
  pub username : String
  pub map_id : String
  pub node_id : String
  pub events : List Event
  pub version : ℕ

-- `listening` stands for `ln != nil`.
pub record Node : Type 0 where
  pub id : String
  pub addr : String
  pub healthy : Bool
  pub last_heartbeat : ℕ
  pub maps : Map World
  pub replica_snapshots : Map MapCheckpoint
  pub listening : Bool

pub record Boss : Type 0 where
  pub name : String
  pub hp : ℕ
  pub max_hp : ℕ
  pub alive : Bool
  pub last_hit : String
  pub respawn_at : ℕ
  pub sites : List BossSite
  pub version : ℕ
  pub contributors : Map ℕ

pub record Cluster : Type 0 where
  pub store : Store
  pub nodes : Map Node
  pub sessions : Map Session
  pub owners : Map String
  pub replicas : Map String
  pub configs : Map MapConfig
  pub boss : Boss

-- What the machine gives during one handler: the time, whether files can be written, whether a port
-- can be opened and closed, the password hash, and the world that `NewWorld` builds for a map.
pub record Machine : Type 0 where
  pub now : ℕ
  pub writes : Bool
  pub opens : Bool
  pub closes : Bool
  pub hash : String → String
  pub fresh : MapConfig → World

-- Go's `m[k]` on a map of strings: the empty string where the key is missing.
abbrev pub at_key : String → Map String → String
at_key k m = elim (lookup k m) [ none ↦ "" | some v ↦ v ]

pub data Error : Type 0 where
  stored : StoreError → Error
  no_confirmation : Error
  passwords_differ : Error
  already_online : String → Error
  no_node_for_map : Error
  offline : String → Error
  node_unavailable : String → Error
  move_refused : Error
  attack_refused : Error
  heal_refused : Error
  shop_refused : Error
  no_player_state : Error
  no_boss_here : Error
  no_such_map : String → Error
  route_incomplete : Error
  source_lost : Error
  host_gone : Error
  map_not_hosted : String → String → Error
  no_snapshot : String → String → Error
  unknown_node : String → Error
  node_required : Error
  unknown_action : String → Error
  port_failed : Error

pub data Result {ℓ} (A : Type ℓ) : Type ℓ where
  ok : A → Result A
  err : Error → Result A
