-- ===== src/Cluster/Entry.antt =====
-- The requests of cluster.go that route a session: `Login` and `SwitchMap`.
use a_simple_game_server.Prelude.{
  String, none, some, ◌≡◌, refl, ap, ◌∙◌, sym, ◌⊎◌, inl, inr, arith, Bool-cases, Option-cases, ◌==◌,
  string_eq,
}
use a_simple_game_server.Prelude.Maps.{Map, lookup, insert, lookup-insert}
use a_simple_game_server.Protocol.{UserProfile}
use a_simple_game_server.Messages.{Event, already_on_map, down_no_switch}
use a_simple_game_server.Storage.{Checked, admitted, refused, authenticate, StoreError}
use a_simple_game_server.World.State.{MapConfig}
use a_simple_game_server.Cluster.State.{Session, Node, Cluster, Machine, at_key}
use a_simple_game_server.Cluster.Nodes.{add_player, node_profile, node_remove_player}
use a_simple_game_server.Cluster.Events.{push_event, push_event_locked}
use a_simple_game_server.Cluster.Persist.{put_node, persist_session_state}
use a_simple_game_server.Cluster.Views.{snapshot_for}
use a_simple_game_server.Cluster.Accounts.{login_map, new_session, enter, login}
use a_simple_game_server.Cluster.Switch.{arriving, switched_session, arrive, leave, switch_map}
use a_simple_game_server.Cluster.Routing.{
  IsRouted, Routed, Keeps, Keeps-Routed, Keeps-trans, push_event-Keeps,
}
use a_simple_game_server.Cluster.Requests.{
  persist_session_state-Keeps, snapshot_for-Keeps, ending-Keeps,
}

insert-IsRouted :
    (m : Map Session) (owners : Map String) (u : String) (s : Session)
    → IsRouted m owners
    → lookup s.map_id owners ≡ some s.node_id
    → IsRouted (insert u s m) owners
insert-IsRouted m owners u s r here v t at = elim (Bool-cases (u == v)) [
  | inl same ↦ let et : s ≡ t = ground (arith, lookup-insert u v s m) in rw (← et) here
  | inr other ↦ r v t (ground (arith, lookup-insert u v s m))
]

-- Where no node has the empty name, a map whose owner is a node has that owner on record.
owner-lookup :
    (c : Cluster) (map_id : String) (n : Node)
    → lookup "" c.nodes ≡ none
    → lookup (at_key map_id c.owners) c.nodes ≡ some n
    → lookup map_id c.owners ≡ some (at_key map_id c.owners)
owner-lookup c map_id n unnamed at = elim (Option-cases (lookup map_id c.owners)) [
  | inl unowned ↦
      let blank : at_key map_id c.owners ≡ "" = rw (unowned, at_key) refl in
      let bad : lookup "" c.nodes ≡ some n = rw blank at at in cc
  | inr (o, owned) ↦
      let same : at_key map_id c.owners ≡ o = rw (owned, at_key) refl in owned ∙ ap some (sym same)
]

enter-Routed :
    (m : Machine) (c : Cluster) (profile : UserProfile) (u map_id owner_id : String) (owner : Node)
    → Routed c
    → lookup map_id c.owners ≡ some owner_id
    → Routed (enter m c profile u map_id owner_id owner)
unfolding enter
enter-Routed m c profile u map_id owner_id owner r owned =
    let session = new_session u map_id owner_id in
    let c1 = put_node c owner_id (add_player m.now owner map_id profile) in
    let c2 : Cluster = record c1 { sessions = insert u session c1.sessions } in
    Keeps-Routed c2 (persist_session_state m c2 u) (persist_session_state-Keeps m c2 u)
      (record { routes = insert-IsRouted c.sessions c.owners u session r.routes owned })

Checked-cases :
    (k : Checked) → ((p : UserProfile) × (k ≡ admitted p)) ⊎ ((e : StoreError) × (k ≡ refused e))
Checked-cases (admitted p) = inl (p, refl)
Checked-cases (refused e) = inr (e, refl)

-- `Login`, whether it succeeds or is refused, keeps every session with the node that owns its map, if
-- no node has the empty name.
pub login-Routed :
    (m : Machine) (c : Cluster) (u password : String)
    → lookup "" c.nodes ≡ none
    → Routed c
    → Routed (login m c u password).0
unfolding login
login-Routed m c u password unnamed r =
    elim (Checked-cases (authenticate m.hash c.store u password)) [
      | inr (e, bad) ↦ rw (bad, login) r
      | inl (profile, good) ↦ elim (Option-cases (lookup u c.sessions)) [
        | inr (s, on) ↦ rw (good, on, login) r
        | inl off ↦
            let map_id = login_map c profile in
            let owner_id = at_key map_id c.owners in
            elim (Option-cases (lookup owner_id c.nodes)) [
              | inl none_there ↦ rw (good, off, none_there, login) r
              | inr (owner, at) ↦
                  let c' = enter m c profile u map_id owner_id owner in
                  rw (good, off, at, login)
                    (Keeps-Routed c' (snapshot_for m.now c' u).0 (snapshot_for-Keeps m c' u) (
                      enter-Routed m c profile u map_id owner_id owner r
                        (owner-lookup c map_id owner unnamed at)))
            ]
      ]
    ]

arrive-Routed :
    (m : Machine) (c : Cluster) (s : Session) (u target node_id : String) (cfg : MapConfig)
    (profile : UserProfile)
    → Routed c
    → lookup target c.owners ≡ some node_id
    → Routed (snapshot_for m.now (arrive m c s u target node_id cfg profile) u).0
unfolding arrive switched_session push_event_locked
arrive-Routed m c s u target node_id cfg profile r owned =
    let there = arriving profile target node_id cfg in
    let session = switched_session s target node_id in
    let routes = insert-IsRouted c.sessions c.owners u session r.routes owned in
    elim (Option-cases (lookup node_id c.nodes)) [
      | inl gone ↦
          let c2 : Cluster = record c { sessions = insert u session c.sessions } in
          rw (gone, arrive)
            (Keeps-Routed c2 _ (ending-Keeps m c2 u there) (record { routes = routes }))
      | inr (n, at) ↦
          let c1 = put_node c node_id (add_player m.now n target there) in
          let c2 : Cluster = record c1 { sessions = insert u session c1.sessions } in
          rw (at, arrive)
            (Keeps-Routed c2 _ (ending-Keeps m c2 u there) (record { routes = routes }))
    ]

told-Keeps :
    (m : Machine) (c : Cluster) (u : String) (e : Event)
    → Keeps c (snapshot_for m.now (push_event c u e) u).0
told-Keeps m c u e =
    let c1 = push_event c u e in
    Keeps-trans c c1 (snapshot_for m.now c1 u).0 (push_event-Keeps c u e)
      (snapshot_for-Keeps m c1 u)

leave-Routed :
    (m : Machine) (c : Cluster) (s : Session) (source : Node) (u target node_id : String)
    (cfg : MapConfig)
    → Routed c
    → lookup target c.owners ≡ some node_id
    → Routed (leave m c s source u target node_id cfg).0
unfolding leave
leave-Routed m c s source u target node_id cfg r owned =
    let (source1, found) = node_profile m.now source s.map_id u in
    let c1 = put_node c s.node_id source1 in
    let r1 : Routed c1 = record { routes = r.routes } in
    elim (Option-cases found) [
      | inl lost ↦ rw (lost, leave) r1
      | inr (profile, here) ↦ elim (Bool-cases profile.alive) [
        | inr down ↦
            rw (here, down, leave) (Keeps-Routed c1 _ (told-Keeps m c1 u (down_no_switch u)) r1)
        | inl up ↦
            let (source2, removed) = node_remove_player source1 s.map_id u in
            let c2 = put_node c s.node_id source2 in
            let r2 : Routed c2 = record { routes = r.routes } in
            elim (Option-cases removed) [
              | inl lost ↦ rw (here, up, lost, leave) r2
              | inr (gone, out) ↦
                  rw (here, up, out, leave)
                    (arrive-Routed m c2 s u target node_id cfg gone r2 owned)
            ]
      ]
    ]

-- `SwitchMap`, whether the player moves or stays, keeps every session with the node that owns its map,
-- if no node has the empty name.
pub switch_map-Routed :
    (m : Machine) (c : Cluster) (u target : String)
    → lookup "" c.nodes ≡ none
    → Routed c
    → Routed (switch_map m c u target).0
unfolding switch_map
switch_map-Routed m c u target unnamed r = elim (Option-cases (lookup u c.sessions)) [
  | inl off ↦ rw (off, switch_map) r
  | inr (s, on) ↦ elim (Option-cases (lookup target c.configs)) [
    | inl unknown ↦ rw (on, unknown, switch_map) r
    | inr (cfg, known) ↦ elim (Bool-cases (s.map_id == target)) [
      | inl there ↦
          rw (on, known, there, switch_map)
            (Keeps-Routed c _ (told-Keeps m c u (already_on_map target)) r)
      | inr elsewhere ↦
          let node_id = at_key target c.owners in
          elim (Option-cases (lookup s.node_id c.nodes)) [
            | inl lost ↦ rw (on, known, elsewhere, lost, switch_map) r
            | inr (source, at) ↦ elim (Option-cases (lookup node_id c.nodes)) [
              | inl unhosted ↦ rw (on, known, elsewhere, at, unhosted, switch_map) r
              | inr (n, host) ↦
                  rw (on, known, elsewhere, at, host, switch_map)
                    (leave-Routed m c s source u target node_id cfg r
                      (owner-lookup c target n unnamed host))
            ]
          ]
    ]
  ]
]
