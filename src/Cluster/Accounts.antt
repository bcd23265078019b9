-- ===== src/Cluster/Accounts.antt =====
-- cluster.go, `Register`, `QuickEnter`, `Login` and `Logout`.
use a_simple_game_server.Prelude.{
  String, Bool, true, false, not, [], ◌∷◌, Option, none, some, ◌==◌, string_eq, if◌then◌else◌,
}
use a_simple_game_server.Prelude.Maps.{lookup, insert, delete}
use a_simple_game_server.Protocol.{UserProfile}
use a_simple_game_server.Messages.{welcome_back, map_hosted_by}
use a_simple_game_server.Storage.{
  admitted, refused, user_exists, register, authenticate, delete_hot_session,
}
use a_simple_game_server.World.Maps.{default_map_id}
use a_simple_game_server.Cluster.State.{
  Session, Node, Cluster, Machine, Error, Result, err, stored, no_confirmation, passwords_differ,
  already_online, no_node_for_map, at_key,
}
use a_simple_game_server.Cluster.Nodes.{add_player, node_remove_player}
use a_simple_game_server.Cluster.Persist.{put_node, placed, save, persist_session_state}
use a_simple_game_server.Cluster.Views.{WorldState, snapshot_for}

unfoldable pub register_user : Machine → Cluster → String → String → String → Cluster × Option Error
register_user m c username password confirm =
    if confirm == ""
    then (c, some no_confirmation)
    else if not (password == confirm)
    then (c, some passwords_differ)
    else let (store', failed) = register m.hash m.writes c.store username password in
      (record c { store = store' }, elim failed [ none ↦ none | some e ↦ some (stored e) ])

-- The map that a profile was last on, or the default one if there is no such map.
unfoldable pub login_map : Cluster → UserProfile → String
login_map c profile = elim (lookup profile.last_map c.configs) [
  | none ↦ default_map_id
  | some _ ↦ profile.last_map
]

abbrev pub new_session : String → String → String → Session
new_session username map_id node_id = record {
  username = username;
  map_id = map_id;
  node_id = node_id;
  events = welcome_back username ∷ map_hosted_by map_id node_id ∷ [];
  version = 1;
}

-- The end of `Login`, once the map and its node are known.
unfoldable pub enter : Machine → Cluster → UserProfile → String → String → String → Node → Cluster
enter m c profile username map_id owner_id owner =
    let c' = put_node c owner_id (add_player m.now owner map_id profile) in
    let session = new_session username map_id owner_id in
    persist_session_state m (record c' { sessions = insert username session c'.sessions }) username

unfoldable pub login : Machine → Cluster → String → String → Cluster × Result WorldState
unfolding login_map
login m c username password = elim (authenticate m.hash c.store username password) [
  | refused e ↦ (c, err (stored e))
  | admitted profile ↦ elim (lookup username c.sessions) [
    | some _ ↦ (c, err (already_online username))
    | none ↦
        let map_id = login_map c profile in
        let owner_id = at_key map_id c.owners in
        elim (lookup owner_id c.nodes) [
          | none ↦ (c, err no_node_for_map)
          | some owner ↦
              snapshot_for m.now (enter m c profile username map_id owner_id owner) username
        ]
  ]
]

-- `QuickEnter` goes on to log in after a registration that fails only because the user exists.
unfoldable pub is_user_exists : Error → Bool
is_user_exists (stored (user_exists _)) = true
is_user_exists _ = false

unfoldable pub quick_enter : Machine → Cluster → String → String → Cluster × Result WorldState
unfolding is_user_exists
quick_enter m c username password =
    let (c', failed) = register_user m c username password password in
    elim failed [
      | none ↦ login m c' username password
      | some e ↦ if is_user_exists e then login m c' username password else (c', err e)
    ]

abbrev pub forget : Machine → Cluster → String → Cluster
forget m c username = record c { store = (delete_hot_session m.writes c.store username).0 }

unfoldable pub logout : Machine → Cluster → String → Cluster
logout m c username = elim (lookup username c.sessions) [
  | none ↦ c
  | some s ↦
      let c1 : Cluster = record c { sessions = delete username c.sessions } in
      elim (lookup s.node_id c.nodes) [
        | none ↦ forget m c1 username
        | some n ↦
            let (n', removed) = node_remove_player n s.map_id username in
            let c2 = put_node c1 s.node_id n' in
            elim removed [
              | none ↦ forget m c2 username
              | some profile ↦ forget m (save m c2 (placed profile s.map_id s.node_id)) username
            ]
      ]
]
