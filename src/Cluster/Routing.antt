-- ===== src/Cluster/Routing.antt =====
-- Routing in cluster.go: the property that every session names the node that owns its map, and that the
-- event lists keep it.
use text.Mathlib.TextEquality.{eq_iff}
use a_simple_game_server.Prelude.{
  String, [], ◌∷◌, some, ◌≡◌, refl, ap, ◌∙◌, inl, inr, arith, Bool-cases, Option-cases, ◌==◌,
  string_eq,
}
use a_simple_game_server.Prelude.Maps.{Map, lookup, insert, delete, lookup-insert, lookup-delete}
use a_simple_game_server.Messages.{Event, is_silent}
use a_simple_game_server.Cluster.State.{Session, Cluster}
use a_simple_game_server.Cluster.Events.{
  push_event_locked, push_event, push_all, broadcast_global_event,
}

-- Every session is on a map whose owner is the node that the session names.
abbrev pub IsRouted : Map Session → Map String → Type 0
IsRouted sessions owners =
    (u : String) (s : Session)
    → lookup u sessions ≡ some s
    → lookup s.map_id owners ≡ some s.node_id

pub record Routed (c : Cluster) : Type 0 where
  pub routes : IsRouted c.sessions c.owners

-- The new sessions stand where the old ones did: only events and versions differ, or they are gone.
abbrev pub Follows : Map Session → Map Session → Type 0
Follows old new =
    (u : String) (s' : Session)
    → lookup u new ≡ some s'
    → (s : Session) × (lookup u old ≡ some s) × (s'.map_id ≡ s.map_id) × (s'.node_id ≡ s.node_id)

-- A step that keeps the owners and moves no session.
pub record Keeps (c c' : Cluster) : Type 0 where
  pub owners : c'.owners ≡ c.owners
  pub follows : Follows c.sessions c'.sessions

pub Keeps-Routed : (c c' : Cluster) → Keeps c c' → Routed c → Routed c'
Keeps-Routed c c' k r = record {
  routes = λ u s' at.
      let (s, old, e, f) = k.follows u s' at in
      let here : lookup s'.map_id c.owners ≡ some s'.node_id = rw (e, f) (r.routes u s old) in
      rw k.owners here;
}

pub Keeps-same : (c c' : Cluster) → c'.owners ≡ c.owners → c'.sessions ≡ c.sessions → Keeps c c'
Keeps-same c c' o s = record { owners = o; follows = λ u t at. (t, rw s at at, refl, refl) }

pub Keeps-trans : (a b c : Cluster) → Keeps a b → Keeps b c → Keeps a c
Keeps-trans a b c h k = record {
  owners = k.owners ∙ h.owners;
  follows = λ u s' at.
      let (s1, at1, e1, f1) = k.follows u s' at in
      let (s0, at0, e0, f0) = h.follows u s1 at1 in (s0, at0, e1 ∙ e0, f1 ∙ f0);
}

Follows-insert :
    (m : Map Session) (u : String) (s s' : Session)
    → lookup u m ≡ some s
    → s'.map_id ≡ s.map_id
    → s'.node_id ≡ s.node_id
    → Follows m (insert u s' m)
Follows-insert m u s s' old e f v t at = elim (Bool-cases (u == v)) [
  | inl same ↦
      let ek : u ≡ v = (eq_iff u v).0 same in
      let et : t ≡ s' = ground (arith, lookup-insert u v s' m) in
      (s, rw ek at old, ap (λ x. x.map_id) et ∙ e, ap (λ x. x.node_id) et ∙ f)
  | inr other ↦ (t, ground (arith, lookup-insert u v s' m), refl, refl)
]

pub Follows-delete : (m : Map Session) (u : String) → Follows m (delete u m)
Follows-delete m u v t at = (t, ground (arith, lookup-delete u v m), refl, refl)

pub push_event-Keeps : (c : Cluster) (u : String) (e : Event) → Keeps c (push_event c u e)
unfolding push_event push_event_locked
push_event-Keeps c u e = elim (Bool-cases (is_silent e)) [
  | inl quiet ↦ rw quiet (Keeps-same c c refl refl)
  | inr loud ↦ elim (Option-cases (lookup u c.sessions)) [
    | inl off ↦ rw (loud, off) (Keeps-same c c refl refl)
    | inr (s, at) ↦
        rw (loud, at)
          (record {
            owners = refl;
            follows = Follows-insert c.sessions u s (push_event_locked s e) at refl refl;
          })
  ]
]

push_all-Follows : (e : Event) (m : Map Session) → Follows m (push_all e m)
unfolding push_all push_event_locked lookup
push_all-Follows e [] u t at = cc
push_all-Follows e ((k, s) ∷ m) u t at = elim (Bool-cases (k == u)) [
  | inl same ↦
      let et : t ≡ push_event_locked s e = ground arith in
      (s, rw same, ap (λ x. x.map_id) et, ap (λ x. x.node_id) et)
  | inr other ↦
      let (old, found, p, q) = push_all-Follows e m u t (ground arith) in
      (old, rw other found, p, q)
]

pub broadcast_global_event-Keeps : (c : Cluster) (e : Event) → Keeps c (broadcast_global_event c e)
unfolding broadcast_global_event
broadcast_global_event-Keeps c e = elim (Bool-cases (is_silent e)) [
  | inl quiet ↦ rw quiet (Keeps-same c c refl refl)
  | inr loud ↦ rw loud (record { owners = refl; follows = push_all-Follows e c.sessions })
]
