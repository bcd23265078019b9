-- ===== src/Cluster/Events.antt =====
-- cluster.go, the event lists of the sessions: `pushEvent`, `pushEventLocked` and the broadcasts.
use a_simple_game_server.Prelude.{
  String, [], ◌∷◌, ◌++◌, none, some, ◌+◌, ◌-◌, ltb, ◌==◌, string_eq, length, drop, if◌then◌else◌,
}
use a_simple_game_server.Prelude.Maps.{Map, lookup, insert}
use a_simple_game_server.Messages.{Event, is_silent}
use a_simple_game_server.Cluster.State.{Session, Cluster}

-- The last eight events are kept.
unfoldable pub push_event_locked : Session → Event → Session
push_event_locked s event =
    let events' = s.events ++ event ∷ [] in
    record s {
      events = if ltb 8 (length events') then drop (length events' - 8) events' else events';
      version = s.version + 1;
    }

unfoldable pub push_event : Cluster → String → Event → Cluster
push_event c username event = if is_silent event then c else elim (lookup username c.sessions) [
  | none ↦ c
  | some s ↦ record c { sessions = insert username (push_event_locked s event) c.sessions }
]

-- The loops over the sessions: all of them, and those on one map.
unfoldable pub push_all : Event → Map Session → Map Session
push_all event [] = []
push_all event ((k, s) ∷ m) = (k, push_event_locked s event) ∷ push_all event m

unfoldable pub push_on_map : String → Event → Map Session → Map Session
push_on_map map_id event [] = []
push_on_map map_id event ((k, s) ∷ m) =
    (k, if s.map_id == map_id then push_event_locked s event else s) ∷ push_on_map map_id event m

unfoldable pub broadcast_global_event : Cluster → Event → Cluster
unfolding push_all
broadcast_global_event c event =
    if is_silent event then c else record c { sessions = push_all event c.sessions }

unfoldable pub broadcast_map_event : Cluster → String → Event → Cluster
unfolding push_on_map
broadcast_map_event c map_id event =
    if is_silent event then c else record c { sessions = push_on_map map_id event c.sessions }
