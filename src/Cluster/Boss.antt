-- ===== src/Cluster/Boss.antt =====
-- cluster.go, the world boss: `newBossState`, `bossSite`, `buildBossSites`, `AttackBoss` and
-- `respawnBossAfterCooldown`.
use a_simple_game_server.Prelude.{
  ℕ, pos, String, true, false, List, [], ◌∷◌, Option, none, some, ◌+◌, ◌-◌, ◌/◌, ltb, eqb, ◌==◌,
  string_eq, str_lt, if◌then◌else◌,
}
use a_simple_game_server.Prelude.Maps.{Map, lookup, insert, keys}
use a_simple_game_server.Prelude.Sorting.{sort_by}
use a_simple_game_server.Protocol.{UserProfile, BossSite, boss_atk_range}
use a_simple_game_server.Messages.{
  boss_out_of_range, boss_reforming, boss_ended, boss_reward, boss_struck, boss_returned,
}
use a_simple_game_server.World.State.{MapConfig, distance}
use a_simple_game_server.Cluster.State.{
  Session, Boss, Cluster, Machine, Result, ok, err, no_player_state, no_boss_here,
}
use a_simple_game_server.Cluster.Nodes.{node_profile, node_reward_player}
use a_simple_game_server.Cluster.Events.{push_event, push_event_locked, broadcast_global_event}
use a_simple_game_server.Cluster.Persist.{
  session_node, put_node, placed, save, persist_session_state,
}
use a_simple_game_server.Cluster.Views.{WorldState, snapshot_for, wait_seconds}

unfoldable pub new_boss : Boss
new_boss = record {
  name = "烬灭魔龙";
  hp = 1600;
  max_hp = 1600;
  alive = true;
  last_hit = "";
  respawn_at = 0;
  sites =
      record { map_id = "green"; x = pos 50; y = pos 20 }
      ∷ record { map_id = "cave"; x = pos 49; y = pos 20 }
      ∷ record { map_id = "ruins"; x = pos 50; y = pos 20 }
      ∷ [];
  version = 1;
  contributors = [];
}

unfoldable pub boss_site : String → List BossSite → Option BossSite
boss_site map_id [] = none
boss_site map_id (s ∷ ss) = if s.map_id == map_id then some s else boss_site map_id ss

unfoldable pub sites_of : Map MapConfig → List String → List BossSite
sites_of configs [] = []
sites_of configs (map_id ∷ ids) =
    let rest = sites_of configs ids in
    elim (lookup map_id configs) [
      | none ↦ record { map_id = map_id; x = pos 0; y = pos 0 } ∷ rest
      | some cfg ↦ record { map_id = map_id; x = cfg.boss_x; y = cfg.boss_y } ∷ rest
    ]

unfoldable pub build_boss_sites : Map MapConfig → List BossSite
unfolding sites_of
build_boss_sites configs = sites_of configs (sort_by str_lt (keys configs))

pub record RewardPlan : Type 0 where
  pub username : String
  pub map_id : String
  pub node_id : String
  pub treasure : ℕ
  pub victories : ℕ

-- The damage of one blow, at least twenty.
unfoldable pub boss_damage : UserProfile → ℕ
boss_damage profile = let d = profile.attack + profile.treasures / 2 in if ltb d 20 then 20 else d

-- The blow itself: hit points, the last to hit, the version and the contributions.
unfoldable pub strike_boss : Boss → String → ℕ → Boss
strike_boss b username damage =
    let before : ℕ = elim (lookup username b.contributors) [ none ↦ 0 | some d ↦ d ] in
    record b {
      hp = b.hp - damage;
      last_hit = username;
      version = b.version + 1;
      contributors = insert username (before + damage) b.contributors;
    }

-- The loop over the contributors: those online are told and planned a reward, the killer a larger one.
unfoldable pub plan_rewards : String → List String → Map Session → Map Session × List RewardPlan
plan_rewards killer [] sessions = (sessions, [])
plan_rewards killer (u ∷ us) sessions = elim (lookup u sessions) [
  | none ↦ plan_rewards killer us sessions
  | some s ↦
      let reward : ℕ = if u == killer then 6 else 3 in
      let victories : ℕ = if u == killer then 1 else 0 in
      let told = insert u (push_event_locked s (boss_reward reward)) sessions in
      let (sessions', plans) = plan_rewards killer us told in
      (
        sessions',
        record {
          username = u;
          map_id = s.map_id;
          node_id = s.node_id;
          treasure = reward;
          victories = victories;
        }
            ∷ plans,
      )
]

-- The loop that pays the rewards out.
unfoldable pub pay_rewards : Machine → List RewardPlan → Cluster → Cluster
pay_rewards m [] c = c
pay_rewards m (r ∷ rs) c = elim (lookup r.node_id c.nodes) [
  | none ↦ pay_rewards m rs c
  | some host ↦
      let (host', updated) =
        node_reward_player m.now host r.map_id r.username r.treasure r.victories in
      let c' = put_node c r.node_id host' in
      elim updated [
        | none ↦ pay_rewards m rs c'
        | some profile ↦ pay_rewards m rs (save m c' (placed profile r.map_id r.node_id))
      ]
]

-- A blow that ends the boss: everybody is told, the contributors online are planned their rewards.
unfoldable pub end_boss : Machine → Cluster → Boss → String → Cluster × List RewardPlan
end_boss m c b username =
    let c1 = broadcast_global_event c (boss_ended b.name username) in
    let (sessions', plans) = plan_rewards username (keys b.contributors) c1.sessions in
    let fallen : Boss = record b {
      hp = 0;
      alive = false;
      respawn_at = m.now + 15_000_000_000;
      contributors = [];
    } in
    (record c1 { sessions = sessions'; boss = fallen }, plans)

-- The locked region of `AttackBoss` for a living boss.
unfoldable pub hit_boss : Machine → Cluster → String → ℕ → Cluster × List RewardPlan
unfolding strike_boss end_boss
hit_boss m c username damage =
    let b = strike_boss c.boss username damage in
    if eqb b.hp 0 then end_boss m c b username else (
      broadcast_global_event (record c { boss = b })
          (boss_struck b.name username damage b.hp b.max_hp),
      [],
    )

-- In range of the boss's image on the map.
unfoldable pub fight_boss : Machine → Cluster → String → UserProfile → Cluster × Result WorldState
fight_boss m c username profile =
    if c.boss.alive
    then (let (c1, plans) = hit_boss m c username (boss_damage profile) in
        snapshot_for m.now (persist_session_state m (pay_rewards m plans c1) username) username)
    else snapshot_for m.now
        (push_event c username (boss_reforming (wait_seconds m.now c.boss.respawn_at))) username

unfoldable pub attack_boss : Machine → Cluster → String → Cluster × Result WorldState
attack_boss m c username = elim (session_node c username) [
  | err e ↦ (c, err e)
  | ok (s, n) ↦
      let (n', found) = node_profile m.now n s.map_id username in
      let c' = put_node c s.node_id n' in
      elim found [
        | none ↦ (c', err no_player_state)
        | some profile ↦ elim (boss_site s.map_id c'.boss.sites) [
          | none ↦ (c', err no_boss_here)
          | some site ↦
              if ltb boss_atk_range (distance profile.x profile.y site.x site.y)
              then snapshot_for m.now (push_event c' username (boss_out_of_range boss_atk_range))
                  username
              else fight_boss m c' username profile
        ]
      ]
]

-- What runs fifteen seconds after the boss has fallen.
unfoldable pub respawn_boss : Cluster → Cluster
unfolding new_boss
respawn_boss c = broadcast_global_event (record c { boss = new_boss }) (boss_returned new_boss.name)
