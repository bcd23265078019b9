-- ===== src/Cluster/Requests.antt =====
-- The requests of cluster.go that move no session: `Move`, `Attack`, `Heal`, `BuyItem` and `Logout`.
use a_simple_game_server.Prelude.{
  String, ◌≡◌, refl, ◌⊎◌, inl, inr, Bool-cases, Option-cases, ◌==◌, string_eq,
}
use a_simple_game_server.Prelude.Maps.{lookup}
use a_simple_game_server.Protocol.{UserProfile}
use a_simple_game_server.Messages.{Event, is_silent}
use a_simple_game_server.Storage.{save_profile}
use a_simple_game_server.World.Attack.{AttackReply}
use a_simple_game_server.Cluster.State.{Session, Cluster, Machine, Error, Result, ok, err}
use a_simple_game_server.Cluster.Nodes.{
  node_profile, node_snapshot, node_move_player, node_attack, node_heal, node_buy_item,
  node_remove_player,
}
use a_simple_game_server.Cluster.Events.{push_event}
use a_simple_game_server.Cluster.Persist.{
  session_node, put_node, placed, save, persist_profile, persist_session_state,
}
use a_simple_game_server.Cluster.Views.{snapshot_for}
use a_simple_game_server.Cluster.Accounts.{logout}
use a_simple_game_server.Cluster.Play.{finish, move, heal, buy, tell_target, attack}
use a_simple_game_server.Cluster.Routing.{
  Routed, Keeps, Keeps-Routed, Keeps-same, Keeps-trans, Follows-delete, push_event-Keeps,
}

pub Result-cases {ℓ} :
    {A : Type ℓ} (r : Result A) → ((e : Error) × (r ≡ err e)) ⊎ ((a : A) × (r ≡ ok a))
Result-cases (err e) = inl (e, refl)
Result-cases (ok a) = inr (a, refl)

persist_profile-Keeps :
    (m : Machine) (c : Cluster) (s : Session) (u : String) (profile : UserProfile)
    → Keeps c (persist_profile m c s u profile)
unfolding persist_profile
persist_profile-Keeps m c s u profile =
    let (store', failed) = save_profile m.writes c.store (placed profile s.map_id s.node_id) in
    elim (Option-cases failed) [
      | inl saved ↦ rw (saved, persist_profile) (Keeps-same c _ refl refl)
      | inr (e, bad) ↦ rw (bad, persist_profile) (Keeps-same c _ refl refl)
    ]

pub persist_session_state-Keeps :
    (m : Machine) (c : Cluster) (u : String) → Keeps c (persist_session_state m c u)
unfolding persist_session_state
persist_session_state-Keeps m c u = elim (Option-cases (lookup u c.sessions)) [
  | inl off ↦ rw (off, persist_session_state) (Keeps-same c c refl refl)
  | inr (s, on) ↦ elim (Option-cases (lookup s.node_id c.nodes)) [
    | inl gone ↦ rw (on, gone, persist_session_state) (Keeps-same c c refl refl)
    | inr (n, at) ↦
        let (n', found) = node_profile m.now n s.map_id u in
        let c' = put_node c s.node_id n' in
        let put : Keeps c c' = Keeps-same c c' refl refl in
        elim (Option-cases found) [
          | inl nobody ↦ rw (on, at, nobody, persist_session_state) put
          | inr (profile, here) ↦
              rw (on, at, here, persist_session_state)
                (Keeps-trans c c' (persist_profile m c' s u profile) put
                  (persist_profile-Keeps m c' s u profile))
        ]
  ]
]

pub snapshot_for-Keeps :
    (m : Machine) (c : Cluster) (u : String) → Keeps c (snapshot_for m.now c u).0
unfolding snapshot_for
snapshot_for-Keeps m c u = elim (Option-cases (lookup u c.sessions)) [
  | inl off ↦ rw (off, snapshot_for) (Keeps-same c c refl refl)
  | inr (s, on) ↦ elim (Option-cases (lookup s.node_id c.nodes)) [
    | inl gone ↦ rw (on, gone, snapshot_for) (Keeps-same c c refl refl)
    | inr (n, at) ↦
        let (n', seen) = node_snapshot m.now n s.map_id in
        elim (Option-cases seen) [
          | inl nothing ↦ rw (on, at, nothing, snapshot_for) (Keeps-same c c refl refl)
          | inr (v, here) ↦
              rw (on, at, here, snapshot_for) (Keeps-same c (put_node c s.node_id n') refl refl)
        ]
  ]
]

save-Keeps : (m : Machine) (c : Cluster) (profile : UserProfile) → Keeps c (save m c profile)
save-Keeps m c profile = Keeps-same c (save m c profile) refl refl

-- A save, the persistence and the snapshot at the end of a request.
pub ending-Keeps :
    (m : Machine) (c : Cluster) (u : String) (profile : UserProfile)
    → Keeps c (snapshot_for m.now (persist_session_state m (save m c profile) u) u).0
ending-Keeps m c u profile =
    let c1 = save m c profile in
    let c2 = persist_session_state m c1 u in
    Keeps-trans c c1 (snapshot_for m.now c2 u).0 (save-Keeps m c profile) (
      Keeps-trans c1 c2 (snapshot_for m.now c2 u).0 (persist_session_state-Keeps m c1 u)
        (snapshot_for-Keeps m c2 u))

finish-Keeps :
    (m : Machine) (c : Cluster) (s : Session) (u : String) (e : Event) (profile : UserProfile)
    → Keeps c (finish m c s u e profile).0
unfolding finish
finish-Keeps m c s u e profile =
    let c1 = push_event c u e in
    Keeps-trans c c1 (finish m c s u e profile).0 (push_event-Keeps c u e)
      (ending-Keeps m c1 u (placed profile s.map_id s.node_id))

move-Keeps : (m : Machine) (c : Cluster) (u dir : String) → Keeps c (move m c u dir).0
unfolding move
move-Keeps m c u dir = elim (Result-cases (session_node c u)) [
  | inl (e, off) ↦ rw (off, move) (Keeps-same c c refl refl)
  | inr ((s, n), on) ↦
      let (n', reply) = node_move_player m.now n s.map_id u dir in
      let c' = put_node c s.node_id n' in
      let put : Keeps c c' = Keeps-same c c' refl refl in
      elim (Option-cases reply) [
        | inl refused ↦ rw (on, refused, move) put
        | inr ((event, profile), said) ↦
            rw (on, said, move)
              (Keeps-trans c c' (finish m c' s u event profile).0 put
                (finish-Keeps m c' s u event profile))
      ]
]

heal-Keeps : (m : Machine) (c : Cluster) (u : String) → Keeps c (heal m c u).0
unfolding heal
heal-Keeps m c u = elim (Result-cases (session_node c u)) [
  | inl (e, off) ↦ rw (off, heal) (Keeps-same c c refl refl)
  | inr ((s, n), on) ↦
      let (n', reply) = node_heal m.now n s.map_id u in
      let c' = put_node c s.node_id n' in
      let put : Keeps c c' = Keeps-same c c' refl refl in
      elim (Option-cases reply) [
        | inl refused ↦ rw (on, refused, heal) put
        | inr ((event, profile), said) ↦
            rw (on, said, heal)
              (Keeps-trans c c' (finish m c' s u event profile).0 put
                (finish-Keeps m c' s u event profile))
      ]
]

buy-Keeps : (m : Machine) (c : Cluster) (u item : String) → Keeps c (buy m c u item).0
unfolding buy
buy-Keeps m c u item = elim (Result-cases (session_node c u)) [
  | inl (e, off) ↦ rw (off, buy) (Keeps-same c c refl refl)
  | inr ((s, n), on) ↦
      let (n', reply) = node_buy_item m.now n s.map_id u item in
      let c' = put_node c s.node_id n' in
      let put : Keeps c c' = Keeps-same c c' refl refl in
      elim (Option-cases reply) [
        | inl refused ↦ rw (on, refused, buy) put
        | inr ((event, profile), said) ↦
            rw (on, said, buy)
              (Keeps-trans c c' (finish m c' s u event profile).0 put
                (finish-Keeps m c' s u event profile))
      ]
]

tell_target-Keeps :
    (m : Machine) (c : Cluster) (s : Session) (r : AttackReply) → Keeps c (tell_target m c s r)
unfolding tell_target
tell_target-Keeps m c s r = elim (Bool-cases (r.target == "")) [
  | inl nobody ↦ rw (nobody, tell_target) (Keeps-same c c refl refl)
  | inr somebody ↦ elim (Bool-cases (is_silent r.target_event)) [
    | inl quiet ↦ rw (somebody, quiet, tell_target) (Keeps-same c c refl refl)
    | inr loud ↦
        let c1 = push_event c r.target r.target_event in
        let told = push_event-Keeps c r.target r.target_event in
        elim (Option-cases (lookup s.node_id c1.nodes)) [
          | inl gone ↦ rw (somebody, loud, gone, tell_target) told
          | inr (n, at) ↦
              let (n', found) = node_profile m.now n s.map_id r.target in
              let c2 = put_node c1 s.node_id n' in
              let put : Keeps c c2 = Keeps-trans c c1 c2 told (Keeps-same c1 c2 refl refl) in
              elim (Option-cases found) [
                | inl missing ↦ rw (somebody, loud, at, missing, tell_target) put
                | inr (profile, here) ↦
                    let c3 = save m c2 (placed profile s.map_id s.node_id) in
                    rw (somebody, loud, at, here, tell_target)
                      (Keeps-trans c c2 (persist_session_state m c3 r.target) put (
                        Keeps-trans c2 c3 (persist_session_state m c3 r.target)
                          (save-Keeps m c2 (placed profile s.map_id s.node_id))
                          (persist_session_state-Keeps m c3 r.target)))
              ]
        ]
  ]
]

attack-Keeps : (m : Machine) (c : Cluster) (u : String) → Keeps c (attack m c u).0
unfolding attack
attack-Keeps m c u = elim (Result-cases (session_node c u)) [
  | inl (e, off) ↦ rw (off, attack) (Keeps-same c c refl refl)
  | inr ((s, n), on) ↦
      let (n', reply) = node_attack m.now n s.map_id u in
      let c' = put_node c s.node_id n' in
      let put : Keeps c c' = Keeps-same c c' refl refl in
      elim (Option-cases reply) [
        | inl refused ↦ rw (on, refused, attack) put
        | inr (r, said) ↦
            let c1 = push_event c' u r.event in
            let c2 = tell_target m c1 s r in
            let profile = placed r.profile s.map_id s.node_id in
            let end = (snapshot_for m.now (persist_session_state m (save m c2 profile) u) u).0 in
            rw (on, said, attack)
              (Keeps-trans c c' end put (
                Keeps-trans c' c1 end (push_event-Keeps c' u r.event) (
                  Keeps-trans c1 c2 end (tell_target-Keeps m c1 s r)
                    (ending-Keeps m c2 u profile))))
      ]
]

logout-Keeps : (m : Machine) (c : Cluster) (u : String) → Keeps c (logout m c u)
unfolding logout
logout-Keeps m c u = elim (Option-cases (lookup u c.sessions)) [
  | inl off ↦ rw (off, logout) (Keeps-same c c refl refl)
  | inr (s, on) ↦
      let gone = Follows-delete c.sessions u in
      elim (Option-cases (lookup s.node_id c.nodes)) [
        | inl lost ↦ rw (on, lost, logout) (record { owners = refl; follows = gone })
        | inr (n, at) ↦ elim (Option-cases (node_remove_player n s.map_id u).1) [
          | inl missing ↦ rw (on, at, missing, logout) (record { owners = refl; follows = gone })
          | inr (p, here) ↦ rw (on, at, here, logout) (record { owners = refl; follows = gone })
        ]
      ]
]

-- `Move`, `Attack`, `Heal`, `BuyItem` and `Logout`, on every branch of them, refusals included, keep
-- every session with the node that owns its map.
pub request-Routed :
    (m : Machine) (c : Cluster) (u arg : String)
    → Routed c
    → Routed (move m c u arg).0
      × Routed (attack m c u).0
      × Routed (heal m c u).0
      × Routed (buy m c u arg).0
      × Routed (logout m c u)
request-Routed m c u arg r = (
  Keeps-Routed c (move m c u arg).0 (move-Keeps m c u arg) r,
  Keeps-Routed c (attack m c u).0 (attack-Keeps m c u) r,
  Keeps-Routed c (heal m c u).0 (heal-Keeps m c u) r,
  Keeps-Routed c (buy m c u arg).0 (buy-Keeps m c u arg) r,
  Keeps-Routed c (logout m c u) (logout-Keeps m c u) r,
)
