-- ===== src/Cluster/BossFight.antt =====
-- The world boss of cluster.go: the account of its hit points, and the rewards.
use text.Mathlib.TextEquality.{eq_iff}
use a_simple_game_server.Prelude.{
  ℕ, String, true, List, [], ◌∷◌, Option, none, some, map, ◌+◌, ◌<◌, ◌≡◌, ◌≢◌, refl, ap, ◌∙◌, ◌⊎◌,
  inl, inr, arith, Bool-cases, Option-cases, All, sum_by, eqb, ◌==◌, string_eq, if◌then◌else◌,
}
use a_simple_game_server.Prelude.Maps.{
  Map, lookup, insert, lookup-insert, sum-insert, sum-insert_new,
}
use a_simple_game_server.Messages.{Event, boss_reward}
use a_simple_game_server.Cluster.State.{Session, Boss, Cluster, Machine}
use a_simple_game_server.Cluster.Events.{push_event_locked, broadcast_global_event}
use a_simple_game_server.Cluster.Boss.{RewardPlan, strike_boss, plan_rewards, end_boss, hit_boss}

-- What has been dealt since the boss appeared.
abbrev pub dealt : Boss → ℕ
dealt b = sum_by (λ e. e.1) b.contributors

-- While the boss lives it has hit points left, and these and the damage that the contributors are
-- credited with make up the full hit points.
pub record IsBalanced (b : Boss) : Type 0 where
  pub lives : b.alive ≡ true → 0 < b.hp
  pub account : b.alive ≡ true → b.hp + dealt b ≡ b.max_hp

strike_boss-dealt : (b : Boss) (u : String) (d : ℕ) → dealt (strike_boss b u d) ≡ dealt b + d
unfolding strike_boss
strike_boss-dealt b u d = elim (Option-cases (lookup u b.contributors)) [
  | inl new ↦ rw new (sum-insert_new (λ e. e.1) u (0 + d) b.contributors new ∙ omega arith)
  | inr (x, at) ↦ rw at (omega (arith, sum-insert (λ e. e.1) u x (x + d) b.contributors at))
]

pub broadcast-boss : (c : Cluster) (e : Event) → (broadcast_global_event c e).boss ≡ c.boss
unfolding broadcast_global_event
broadcast-boss c e = ground arith

strike_boss-IsBalanced :
    (b : Boss) (u : String) (d : ℕ)
    → b.alive ≡ true
    → IsBalanced b
    → 0 < (strike_boss b u d).hp
    → IsBalanced (strike_boss b u d)
strike_boss-IsBalanced b u d up ok left = record {
  lives = λ _. left;
  account = λ _. unfold strike_boss in omega (arith, strike_boss-dealt b u d, ok.account up, left);
}

-- A blow at a living boss keeps the account: all the damage is credited, to the last blow.
pub hit_boss-IsBalanced :
    (m : Machine) (c : Cluster) (u : String) (d : ℕ)
    → c.boss.alive ≡ true
    → IsBalanced c.boss
    → IsBalanced (hit_boss m c u d).0.boss
unfolding hit_boss end_boss
hit_boss-IsBalanced m c u d up b =
    let struck = strike_boss c.boss u d in
    elim (Bool-cases (eqb struck.hp 0)) [
      | inl dead ↦ rw dead (record { lives = λ h. cc; account = λ h. cc })
      | inr left ↦ rw (left, broadcast-boss) (strike_boss-IsBalanced c.boss u d up b (ground arith))
    ]

-- `u` before `us`, if it has a session.
abbrev if_present : String → Option Session → List String → List String
if_present u none us = us
if_present u (some _) us = u ∷ us

-- The names among `us` that have a session.
abbrev pub online : List String → Map Session → List String
online [] sessions = []
online (u ∷ us) sessions = if_present u (lookup u sessions) (online us sessions)

online-insert :
    (us : List String) (k : String) (s s' : Session) (sessions : Map Session)
    → lookup k sessions ≡ some s
    → online us (insert k s' sessions) ≡ online us sessions
online-insert [] k s s' sessions at = refl
online-insert (u ∷ us) k s s' sessions at =
    let later = online-insert us k s s' sessions at in
    let here = lookup-insert k u s' sessions in
    elim (Bool-cases (k == u)) [
      | inl same ↦
          let ek : k ≡ u = (eq_iff k u).0 same in
          let old : lookup u sessions ≡ some s = rw ek at at in
          let new : lookup u (insert k s' sessions) ≡ some s' = rw same at here in
          rw
            (
              ap (λ x. if_present u x (online us (insert k s' sessions))) new,
              ap (λ x. if_present u x (online us sessions)) old,
              later,
            )
            refl
      | inr other ↦
          let same_entry : lookup u (insert k s' sessions) ≡ lookup u sessions = rw other at here in
          rw (same_entry, later) refl
    ]

-- Six treasures and a victory for the killer, three treasures for the others.
abbrev pub IsFairPlan : String → RewardPlan → Type 0
IsFairPlan killer r =
    ((r.username ≡ killer) × (r.treasure ≡ 6) × (r.victories ≡ 1))
    ⊎ ((r.username ≢ killer) × (r.treasure ≡ 3) × (r.victories ≡ 0))

-- When the boss falls, one reward is planned for each contributor who is online, in the order of the
-- contributors, and for nobody else; the killer's is six treasures and a victory, any other's three
-- treasures.
pub plan_rewards_lem :
    (killer : String) (us : List String) (sessions : Map Session)
    → (let plans = (plan_rewards killer us sessions).1 in
        (map (λ r. r.username) plans ≡ online us sessions) × All (IsFairPlan killer) plans)
unfolding plan_rewards
plan_rewards_lem killer [] sessions = (refl, tt)
plan_rewards_lem killer (u ∷ us) sessions = elim (Option-cases (lookup u sessions)) [
  | inl off ↦
      let rest = plan_rewards_lem killer us sessions in rw (off, plan_rewards) (rest.0, rest.1)
  | inr (s, at) ↦
      let reward : ℕ = if u == killer then 6 else 3 in
      let told = push_event_locked s (boss_reward reward) in
      let rest = plan_rewards_lem killer us (insert u told sessions) in
      let names = rest.0 ∙ online-insert us u s told sessions at in
      rw (at, plan_rewards) (ap (◌∷◌ u) names, (ground (arith, eq_iff u killer), rest.1))
]
