-- ===== src/Cluster/BossRequests.antt =====
-- `AttackBoss` of cluster.go, whole, and the boss's return: the account of its hit points.
use a_simple_game_server.Prelude.{
  String, true, false, [], ◌∷◌, List, ◌≡◌, refl, Bool, sum_by, ◌∙◌, inl, inr, arith, Bool-cases,
  Option-cases, ltb, if◌then◌else◌,
}
use a_simple_game_server.Prelude.Maps.{lookup}
use a_simple_game_server.Protocol.{UserProfile, boss_atk_range}
use a_simple_game_server.Messages.{
  Event, is_silent, boss_out_of_range, boss_reforming, boss_returned,
}
use a_simple_game_server.Storage.{save_profile}
use a_simple_game_server.World.State.{distance}
use a_simple_game_server.Cluster.State.{Session, Cluster, Machine, Result}
use a_simple_game_server.Cluster.Nodes.{node_profile, node_snapshot, node_reward_player}
use a_simple_game_server.Cluster.Events.{push_event}
use a_simple_game_server.Cluster.Persist.{
  session_node, put_node, placed, save, persist_profile, persist_session_state,
}
use a_simple_game_server.Cluster.Views.{WorldState, snapshot_for, wait_seconds}
use a_simple_game_server.Cluster.Boss.{
  new_boss, boss_site, RewardPlan, boss_damage, pay_rewards, hit_boss, fight_boss, attack_boss,
  respawn_boss,
}
use a_simple_game_server.Cluster.BossFight.{IsBalanced, broadcast-boss, hit_boss-IsBalanced}
use a_simple_game_server.Cluster.Requests.{Result-cases}

push_event-boss : (c : Cluster) (u : String) (e : Event) → (push_event c u e).boss ≡ c.boss
unfolding push_event
push_event-boss c u e = elim (Bool-cases (is_silent e)) [
  | inl quiet ↦ rw (quiet, push_event) refl
  | inr loud ↦ elim (Option-cases (lookup u c.sessions)) [
    | inl off ↦ rw (loud, off, push_event) refl
    | inr (s, on) ↦ rw (loud, on, push_event) refl
  ]
]

persist_profile-boss :
    (m : Machine) (c : Cluster) (s : Session) (u : String) (profile : UserProfile)
    → (persist_profile m c s u profile).boss ≡ c.boss
unfolding persist_profile
persist_profile-boss m c s u profile =
    elim (Option-cases (save_profile m.writes c.store (placed profile s.map_id s.node_id)).1) [
      | inl saved ↦ rw (saved, persist_profile) refl
      | inr (e, bad) ↦ rw (bad, persist_profile) refl
    ]

persist_session_state-boss :
    (m : Machine) (c : Cluster) (u : String) → (persist_session_state m c u).boss ≡ c.boss
unfolding persist_session_state
persist_session_state-boss m c u = elim (Option-cases (lookup u c.sessions)) [
  | inl off ↦ rw (off, persist_session_state) refl
  | inr (s, on) ↦ elim (Option-cases (lookup s.node_id c.nodes)) [
    | inl gone ↦ rw (on, gone, persist_session_state) refl
    | inr (n, at) ↦
        let (n', found) = node_profile m.now n s.map_id u in
        elim (Option-cases found) [
          | inl nobody ↦ rw (on, at, nobody, persist_session_state) refl
          | inr (profile, here) ↦
              rw (on, at, here, persist_session_state)
                (persist_profile-boss m (put_node c s.node_id n') s u profile)
        ]
  ]
]

snapshot_for-boss :
    (m : Machine) (c : Cluster) (u : String) → (snapshot_for m.now c u).0.boss ≡ c.boss
unfolding snapshot_for
snapshot_for-boss m c u = elim (Option-cases (lookup u c.sessions)) [
  | inl off ↦ rw (off, snapshot_for) refl
  | inr (s, on) ↦ elim (Option-cases (lookup s.node_id c.nodes)) [
    | inl gone ↦ rw (on, gone, snapshot_for) refl
    | inr (n, at) ↦ elim (Option-cases (node_snapshot m.now n s.map_id).1) [
      | inl nothing ↦ rw (on, at, nothing, snapshot_for) refl
      | inr (v, here) ↦ rw (on, at, here, snapshot_for) refl
    ]
  ]
]

pay_rewards-boss :
    (m : Machine) (plans : List RewardPlan) (c : Cluster) → (pay_rewards m plans c).boss ≡ c.boss
unfolding pay_rewards
pay_rewards-boss m [] c = refl
pay_rewards-boss m (r ∷ rs) c = elim (Option-cases (lookup r.node_id c.nodes)) [
  | inl gone ↦ rw (gone, pay_rewards) (pay_rewards-boss m rs c)
  | inr (n, at) ↦
      let (n', updated) = node_reward_player m.now n r.map_id r.username r.treasure r.victories in
      let c' = put_node c r.node_id n' in
      elim (Option-cases updated) [
        | inl nobody ↦ rw (at, nobody, pay_rewards) (pay_rewards-boss m rs c')
        | inr (p, here) ↦
            rw (at, here, pay_rewards)
              (pay_rewards-boss m rs (save m c' (placed p r.map_id r.node_id)))
      ]
]

-- An event and a snapshot leave the boss as it is.
told-IsBalanced :
    (m : Machine) (c : Cluster) (u : String) (e : Event)
    → IsBalanced c.boss
    → IsBalanced (snapshot_for m.now (push_event c u e) u).0.boss
told-IsBalanced m c u e b = rw (snapshot_for-boss m (push_event c u e) u, push_event-boss c u e) b

either-IsBalanced :
    (a : Bool) (x y : Cluster × Result WorldState)
    → (a ≡ true → IsBalanced x.0.boss)
    → (a ≡ false → IsBalanced y.0.boss)
    → IsBalanced (if a then x else y).0.boss
either-IsBalanced true x y h k = h refl
either-IsBalanced false x y h k = k refl

fight_boss-IsBalanced :
    (m : Machine) (c : Cluster) (u : String) (profile : UserProfile)
    → IsBalanced c.boss
    → IsBalanced (fight_boss m c u profile).0.boss
unfolding fight_boss
fight_boss-IsBalanced m c u profile b =
    let (c1, plans) = hit_boss m c u (boss_damage profile) in
    let c2 = pay_rewards m plans c1 in
    let c3 = persist_session_state m c2 u in
    let wait = boss_reforming (wait_seconds m.now c.boss.respawn_at) in
    let same : (snapshot_for m.now c3 u).0.boss ≡ c1.boss =
      snapshot_for-boss m c3 u ∙ persist_session_state-boss m c2 u ∙ pay_rewards-boss m plans c1 in
    either-IsBalanced c.boss.alive (snapshot_for m.now c3 u)
      (snapshot_for m.now (push_event c u wait) u)
      (λ up. rw same (hit_boss-IsBalanced m c u (boss_damage profile) up b))
      (λ down. told-IsBalanced m c u wait b)

-- `AttackBoss`, on every branch, refusals and the boss's fall included, keeps the account: while the
-- boss lives it has hit points left, and these and all the damage that is credited make up the full
-- hit points.
pub attack_boss-IsBalanced :
    (m : Machine) (c : Cluster) (u : String)
    → IsBalanced c.boss
    → IsBalanced (attack_boss m c u).0.boss
unfolding attack_boss
attack_boss-IsBalanced m c u b = elim (Result-cases (session_node c u)) [
  | inl (e, off) ↦ rw (off, attack_boss) b
  | inr ((s, n), on) ↦
      let (n', found) = node_profile m.now n s.map_id u in
      let c' = put_node c s.node_id n' in
      elim (Option-cases found) [
        | inl nobody ↦ rw (on, nobody, attack_boss) b
        | inr (profile, here) ↦ elim (Option-cases (boss_site s.map_id c.boss.sites)) [
          | inl no_site ↦ rw (on, here, no_site, attack_boss) b
          | inr (site, shown) ↦
              elim (Bool-cases (ltb boss_atk_range (distance profile.x profile.y site.x site.y))) [
                | inl far ↦
                    rw (on, here, shown, far, attack_boss)
                      (told-IsBalanced m c' u (boss_out_of_range boss_atk_range) b)
                | inr near ↦
                    rw (on, here, shown, near, attack_boss) (fight_boss-IsBalanced m c' u profile b)
              ]
        ]
      ]
]

-- The boss that comes back is balanced, whatever the old one was.
pub respawn_boss-IsBalanced : (c : Cluster) → IsBalanced (respawn_boss c).boss
unfolding respawn_boss new_boss sum_by
respawn_boss-IsBalanced c =
    let same = broadcast-boss (record c { boss = new_boss }) (boss_returned new_boss.name) in
    rw same (record { lives = λ _. omega arith; account = λ _. omega arith })
