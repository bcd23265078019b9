-- ===== src/Cluster/EventLists.antt =====
-- The event list of a session in cluster.go: `pushEventLocked` keeps the last eight events.
use a_simple_game_server.Prelude.{
  ℕ, zero, suc, List, [], ◌∷◌, ◌++◌, ◌+◌, ◌-◌, ◌≡◌, refl, ap, inl, inr, arith, ltb, length,
  length-append, length-drop, drop, Bool-cases, ltb→lt,
}
use Prim.Native.Nat.{min}
use a_simple_game_server.Messages.{Event}
use a_simple_game_server.Cluster.State.{Session}
use a_simple_game_server.Cluster.Events.{push_event_locked}

drop-split {ℓ} : {A : Type ℓ} (n : ℕ) (xs : List A) → (front : List A) × (front ++ drop n xs ≡ xs)
drop-split zero xs = ([], refl)
drop-split (suc n) [] = ([], refl)
drop-split (suc n) (x ∷ xs) = let (front, e) = drop-split n xs in (x ∷ front, ap (◌∷◌ x) e)

-- After a push the session's events are the end of the old events and the new one, eight at most and
-- no fewer than there are; the version has grown by one, and the rest of the session is as it was.
pub push_event_locked_lem :
    (s : Session) (event : Event)
    → (let s' = push_event_locked s event in
        ((front : List Event) × (front ++ s'.events ≡ s.events ++ event ∷ []))
        × (length s'.events ≡ min 8 (length s.events + 1))
        × (s'.version ≡ s.version + 1)
        × (s'.username ≡ s.username)
        × (s'.map_id ≡ s.map_id)
        × (s'.node_id ≡ s.node_id))
unfolding push_event_locked
push_event_locked_lem s event =
    let all = s.events ++ event ∷ [] in
    let size = length-append s.events (event ∷ []) in
    elim (Bool-cases (ltb 8 (length all))) [
      | inl long ↦ (
        rw long (drop-split (length all - 8) all),
        rw long (omega (arith, length-drop (length all - 8) all, size, ltb→lt 8 (length all) long)),
        refl,
        refl,
        refl,
        refl,
      )
      | inr fits ↦ (rw fits ([], refl), rw fits (ground (arith, size)), refl, refl, refl, refl)
    ]
