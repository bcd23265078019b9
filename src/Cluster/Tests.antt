-- ===== src/Cluster/Tests.antt =====
-- The theorems about cluster.go at concrete inputs: a cluster of three nodes, of which one has failed
-- and one is played on.
use text.Mathlib.TextEquality.{eq_iff}
use Prim.Native.Nat.{min}
use a_simple_game_server.Prelude.{
  pos, true, false, List, [], ◌∷◌, ◌++◌, ◌+◌, ◌≡◌, refl, ◌⊎◌, inl, inr, arith, All, length, sum_by,
  Bool-cases, map, ◌==◌, string_eq,
}
use a_simple_game_server.Prelude.Maps.{lookup}
use a_simple_game_server.Messages.{Event, welcome_back}
use a_simple_game_server.Storage.{new_profile}
use a_simple_game_server.World.Examples.{config, world}
use a_simple_game_server.Cluster.State.{Session, Node, Boss, Cluster, Machine}
use a_simple_game_server.Cluster.Events.{push_event_locked}
use a_simple_game_server.Cluster.Boss.{attack_boss, plan_rewards}
use a_simple_game_server.Cluster.Failover.{pick_replica, fail_map, execute_admin}
use a_simple_game_server.Cluster.EventLists.{push_event_locked_lem}
use a_simple_game_server.Cluster.BossFight.{IsBalanced, online, IsFairPlan, plan_rewards_lem}
use a_simple_game_server.Cluster.BossRequests.{attack_boss-IsBalanced}
use a_simple_game_server.Cluster.Routing.{Routed}
use a_simple_game_server.Cluster.Succession.{CanReplace, pick_replica_lem, fail_map_stays}
use a_simple_game_server.Cluster.Accounts.{login, logout}
use a_simple_game_server.Cluster.Play.{move, attack, heal, buy}
use a_simple_game_server.Cluster.Switch.{switch_map}
use a_simple_game_server.Cluster.Requests.{request-Routed}
use a_simple_game_server.Cluster.Entry.{login-Routed, switch_map-Routed}
use a_simple_game_server.Cluster.Administration.{execute_admin-Routed}

abbrev machine : Machine
machine = record {
  now = 9;
  writes = true;
  opens = true;
  closes = true;
  hash = λ pw. pw;
  fresh = λ cfg. record world { cfg = cfg };
}

abbrev node_a : Node
node_a = record {
  id = "node-a";
  addr = "127.0.0.1:9311";
  healthy = false;
  last_heartbeat = 0;
  maps = ("m", world) ∷ [];
  replica_snapshots = [];
  listening = false;
}

abbrev node_b : Node
node_b = record node_a { id = "node-b"; healthy = true; maps = []; listening = true }

abbrev session : Session
session = record {
  username = "ann";
  map_id = "m";
  node_id = "node-a";
  events = welcome_back "ann" ∷ [];
  version = 1;
}

-- The boss after a first blow of fifty.
abbrev wounded : Boss
wounded = record {
  name = "boss";
  hp = 50;
  max_hp = 100;
  alive = true;
  last_hit = "ann";
  respawn_at = 0;
  sites = record { map_id = "m"; x = pos 3; y = pos 1 } ∷ [];
  version = 2;
  contributors = ("ann", 50) ∷ [];
}

abbrev cluster : Cluster
cluster = record {
  store = record {
    users = ("ben", record (new_profile "ben" "secret") { last_map = "m" }) ∷ [];
    sessions = [];
    users_file = [];
    hot_file = [];
    checkpoints = [];
  };
  nodes = ("node-a", node_a) ∷ ("node-b", node_b) ∷ [];
  sessions = ("ann", session) ∷ [];
  owners = ("m", "node-a") ∷ [];
  replicas = ("m", "node-b") ∷ [];
  configs = ("m", config) ∷ [];
  boss = wounded;
}

cluster-Routed : Routed cluster
unfolding lookup
cluster-Routed = record {
  routes = λ u s at.
      let named : session ≡ s = elim (Bool-cases ("ann" == u)) [
        | inl same ↦ ground arith
        | inr other ↦ absurd (ground arith)
      ] in
      rw (← named) refl;
}

wounded-IsBalanced : IsBalanced wounded
unfolding sum_by
wounded-IsBalanced = record { lives = λ _. omega arith; account = λ _. omega arith }

execute_admin-Routed_example : Routed (execute_admin machine cluster "fail" "node-a").0
execute_admin-Routed_example = execute_admin-Routed machine cluster "fail" "node-a" cluster-Routed

attack_boss-IsBalanced_example : IsBalanced (attack_boss machine cluster "ann").0.boss
attack_boss-IsBalanced_example = attack_boss-IsBalanced machine cluster "ann" wounded-IsBalanced

plan_rewards_lem_example :
    (let plans = (plan_rewards "ann" ("ann" ∷ "ben" ∷ []) cluster.sessions).1 in
      (map (λ r. r.username) plans ≡ online ("ann" ∷ "ben" ∷ []) cluster.sessions)
      × All (IsFairPlan "ann") plans)
plan_rewards_lem_example = plan_rewards_lem "ann" ("ann" ∷ "ben" ∷ []) cluster.sessions

pick_replica_lem_example :
    (pick_replica cluster.nodes "node-a" ≡ "")
    ⊎ CanReplace cluster.nodes "node-a" (pick_replica cluster.nodes "node-a")
pick_replica_lem_example = pick_replica_lem cluster.nodes "node-a"

fail_map_stays_example :
    ((fail_map machine cluster "node-a" "m").owners ≡ cluster.owners)
    × ((fail_map machine cluster "node-a" "m").sessions ≡ cluster.sessions)
unfolding lookup
fail_map_stays_example =
    fail_map_stays machine cluster "node-a" "m" "node-b" node_b refl refl refl refl
      (λ e. ground (arith, eq_iff "m" ""))

push_event_locked_lem_example :
    (let s' = push_event_locked session (welcome_back "ben") in
      ((front : List Event) × (front ++ s'.events ≡ session.events ++ welcome_back "ben" ∷ []))
      × (length s'.events ≡ min 8 (length session.events + 1))
      × (s'.version ≡ 2)
      × (s'.username ≡ "ann")
      × (s'.map_id ≡ "m")
      × (s'.node_id ≡ "node-a"))
push_event_locked_lem_example = push_event_locked_lem session (welcome_back "ben")

request-Routed_example :
    Routed (move machine cluster "ann" "right").0
    × Routed (attack machine cluster "ann").0
    × Routed (heal machine cluster "ann").0
    × Routed (buy machine cluster "ann" "right").0
    × Routed (logout machine cluster "ann")
request-Routed_example = request-Routed machine cluster "ann" "right" cluster-Routed

login-Routed_example : Routed (login machine cluster "ben" "secret").0
unfolding lookup
login-Routed_example = login-Routed machine cluster "ben" "secret" refl cluster-Routed

-- The cluster with a second map, on the other node.
abbrev two_maps : Cluster
two_maps = record cluster {
  nodes = ("node-a", node_a) ∷ ("node-b", record node_b { maps = ("n", world) ∷ [] }) ∷ [];
  owners = ("m", "node-a") ∷ ("n", "node-b") ∷ [];
  configs = ("m", config) ∷ ("n", record config { id = "n" }) ∷ [];
}

two_maps-Routed : Routed two_maps
unfolding lookup
two_maps-Routed = record {
  routes = λ u s at.
      let named : session ≡ s = elim (Bool-cases ("ann" == u)) [
        | inl same ↦ ground arith
        | inr other ↦ absurd (ground arith)
      ] in
      rw (← named) refl;
}

switch_map-Routed_example : Routed (switch_map machine two_maps "ann" "n").0
unfolding lookup
switch_map-Routed_example = switch_map-Routed machine two_maps "ann" "n" refl two_maps-Routed
