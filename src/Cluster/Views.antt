-- ===== src/Cluster/Views.antt =====
-- cluster.go, what a client sees: `SnapshotFor`, `NodeService.View` and `BossState.viewLocked`.
use a_simple_game_server.Prelude.{
  ℕ, pos, String, Bool, true, false, List, [], ◌∷◌, none, some, map, ◌-◌, ◌/◌, ltb, ◌==◌, string_eq,
  str_lt, if◌then◌else◌,
}
use a_simple_game_server.Prelude.Maps.{Map, lookup, keys}
use a_simple_game_server.Prelude.Sorting.{sort_by}
use a_simple_game_server.Protocol.{PlayerView, MapView, BossSite, boss_atk_range}
use a_simple_game_server.Messages.{Event}
use a_simple_game_server.Cluster.State.{
  Node, Boss, Cluster, Result, ok, err, offline, host_gone, map_not_hosted, at_key,
}
use a_simple_game_server.Cluster.Nodes.{node_snapshot, node_counts}
use a_simple_game_server.Cluster.Persist.{put_node}

pub record MapBrief : Type 0 where
  pub id : String
  pub name : String
  pub node_id : String
  pub players : ℕ
  pub npcs : ℕ
  pub treasures : ℕ
  pub version : ℕ
  pub primary : Bool
  pub is_current : Bool

pub record NodeView : Type 0 where
  pub id : String
  pub addr : String
  pub healthy : Bool
  pub primary_maps : List String
  pub replica_maps : List String
  pub last_heartbeat : ℕ

pub record BossView : Type 0 where
  pub name : String
  pub hp : ℕ
  pub max_hp : ℕ
  pub alive : Bool
  pub last_hit : String
  pub respawn_in : ℕ
  pub attack_gap : ℕ
  pub sites : List BossSite
  pub version : ℕ

pub record WorldState : Type 0 where
  pub self : PlayerView
  pub map : MapView
  pub maps : List MapBrief
  pub nodes : List NodeView
  pub boss : BossView
  pub events : List Event
  pub session_version : ℕ

unfoldable pub view : Node → NodeView
view n = record {
  id = n.id;
  addr = n.addr;
  healthy = n.healthy;
  primary_maps = sort_by str_lt (keys n.maps);
  replica_maps = sort_by str_lt (keys n.replica_snapshots);
  last_heartbeat = n.last_heartbeat;
}

-- Whole seconds from now, at least one.
abbrev pub wait_seconds : ℕ → ℕ → ℕ
wait_seconds now t = let s = (t - now) / 1_000_000_000 in if ltb s 1 then 1 else s

unfoldable pub boss_view : ℕ → Boss → BossView
boss_view now b = record {
  name = b.name;
  hp = b.hp;
  max_hp = b.max_hp;
  alive = b.alive;
  last_hit = b.last_hit;
  respawn_in = if b.alive then 0 else wait_seconds now b.respawn_at;
  attack_gap = boss_atk_range;
  sites = b.sites;
  version = b.version;
}

abbrev pub zero_view : PlayerView
zero_view = record {
  username = "";
  map_id = "";
  x = pos 0;
  y = pos 0;
  hp = 0;
  max_hp = 0;
  attack = 0;
  potions = 0;
  treasures = 0;
  kills = 0;
  deaths = 0;
  victories = 0;
  alive = false;
  respawn_in = 0;
  last_update = 0;
}

unfoldable pub find_self : String → List PlayerView → PlayerView
find_self username [] = zero_view
find_self username (p ∷ ps) = if p.username == username then p else find_self username ps

-- One line for each configured map whose owner hosts it.
unfoldable pub map_briefs : Cluster → String → List String → List MapBrief
map_briefs c current [] = []
map_briefs c current (map_id ∷ ids) =
    let rest = map_briefs c current ids in
    let owner_id = at_key map_id c.owners in
    elim (lookup owner_id c.nodes) [
      | none ↦ rest
      | some host ↦ elim (node_counts host map_id) [
        | none ↦ rest
        | some (players, npcs, treasures, version) ↦
            record {
              id = map_id;
              name = elim (lookup map_id c.configs) [ none ↦ "" | some cfg ↦ cfg.name ];
              node_id = owner_id;
              players = players;
              npcs = npcs;
              treasures = treasures;
              version = version;
              primary = true;
              is_current = map_id == current;
            }
            ∷ rest
      ]
    ]

unfoldable pub node_views : Map Node → List NodeView
unfolding view
node_views nodes = sort_by (λ a b. str_lt a.id b.id) (map (λ e. view e.1) nodes)

-- Reading the map refreshes its players, so the cluster changes too.
unfoldable pub snapshot_for : ℕ → Cluster → String → Cluster × Result WorldState
unfolding boss_view find_self map_briefs node_views
snapshot_for now c username = elim (lookup username c.sessions) [
  | none ↦ (c, err (offline username))
  | some s ↦ elim (lookup s.node_id c.nodes) [
    | none ↦ (c, err host_gone)
    | some n ↦
        let (n', seen) = node_snapshot now n s.map_id in
        let c' = put_node c s.node_id n' in
        elim seen [
          | none ↦ (c, err (map_not_hosted s.map_id n.id))
          | some map_view ↦ (
            c',
            ok (record {
              self = find_self username map_view.players;
              map = map_view;
              maps = map_briefs c' s.map_id (sort_by str_lt (keys c'.configs));
              nodes = node_views c'.nodes;
              boss = boss_view now c.boss;
              events = s.events;
              session_version = s.version;
            }),
          )
        ]
  ]
]
