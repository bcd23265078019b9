-- ===== src/Lab1/Duration.antt =====
-- Lab/Lab1/complete/game/game.go: a duel of blows only does not last long.
use a_simple_game_server.Prelude.{
  ℕ, abs-sub_comm, ◌+◌, ◌-◌, ◌/◌, ◌≤◌, ◌<◌, false, List, [], ◌∷◌, ◌++◌, Option, none, some, ◌≡◌,
  refl, ◌⊎◌, inl, inr, arith, ltb, ◌==◌, nat_eq, string_eq, length, All, Bool-cases, choose,
}
use a_simple_game_server.Lab1.Game.{
  announce, attack_dmg, attack_range, Player, Request, Event, Sent, Game, current, opponent,
  put_players, distance, handle_attack, process_action, Outcome, over, waiting, take_turn, turns,
  run,
}
use a_simple_game_server.Lab1.Actions.{IsAttack, Stands}
use a_simple_game_server.Lab1.Rules.{IsDuel, players-Stand, two_turns}

-- The blows that a player withstands, the last one included.
abbrev pub blows : Player → ℕ
blows p = (p.hp + (attack_dmg - 1)) / attack_dmg

abbrev pub IsOver : Outcome → Type 0
IsOver (over g winner) = Unit
IsOver (waiting g) = ⊥

process_action-attack :
    (a t : Player) (m : Request)
    → m.kind ≡ "attack"
    → process_action a t m ≡ (a, (handle_attack a t).0, (handle_attack a t).1)
unfolding process_action
process_action-attack a t m e = rw e refl

-- A blow in range fells the target or leaves it with fewer blows.
abbrev Weakened : Player → Player → Player → Type 0
Weakened a t u = (u.alive ≡ false) ⊎ (Stands u × distance a u ≤ attack_range × blows u < blows t)

handle_attack-Weakened :
    (a t : Player) → Stands t → distance a t ≤ attack_range → Weakened a t (handle_attack a t).0
unfolding handle_attack
handle_attack-Weakened a t h near =
    choose (λ (r : Player × Event). Weakened a t r.0) (ltb attack_range (distance a t))
      (λ far. absurd (ground arith))
      (λ _. elim (Bool-cases (t.hp - attack_dmg == 0)) [
        | inl e ↦ inl (rw e refl)
        | inr e ↦ inr (rw e (ground arith, near, ground arith))
      ])

distance_sym : (p q : Player) → distance p q ≡ distance q p
distance_sym p q = rw (abs-sub_comm p.x q.x, abs-sub_comm p.y q.y) refl

-- Who is at turn, and the other.
abbrev Near : Game → Type 0
Near g = distance (current g) (opponent g) ≤ attack_range

abbrev total : Game → ℕ
total g = blows (current g) + blows (opponent g)

-- The duel is over, or goes on in range with fewer blows left.
abbrev Progress : ℕ → Outcome → Type 0
Progress n (over g winner) = Unit
Progress n (waiting g) = IsDuel g × Near g × total g < n

next-Progress :
    (g : Game) (c o : Player) (n : ℕ)
    → g.turn < 2
    → Stands c
    → Stands o
    → distance c o ≤ attack_range
    → blows c + blows o < n
    → (let g' = put_players g c o in
        Progress n (waiting (record g' { turn = 1 - g'.turn; round = g'.round + 1 })))
next-Progress g c o n ht hc ho near less = elim (two_turns g.turn ht) [
  | inl e ↦ rw e ((hc, ho, omega arith), rw (distance_sym o c) near, omega (arith, less))
  | inr e ↦ rw e ((ho, hc, omega arith), rw (distance_sym o c) near, omega (arith, less))
]

take_turn-Progress :
    (g : Game) (m : Request)
    → IsDuel g
    → Near g
    → m.kind ≡ "attack"
    → Progress (total g) (take_turn g (some m)).0
unfolding take_turn
take_turn-Progress g m h near e =
    let (hc, ho) = players-Stand g h in
    let u = (handle_attack (current g) (opponent g)).0 in
    rw (process_action-attack (current g) (opponent g) m e) (
      choose (λ (x : Outcome × List (ℕ × Sent)). Progress (total g) x.0) u.alive
        (λ alive. elim (handle_attack-Weakened (current g) (opponent g) ho near) [
          | inl dead ↦ absurd cc
          | inr (hu, near', less) ↦
              next-Progress g (current g) u (total g) h.2 hc hu near' (omega (arith, less))
        ])
        (λ _. tt))

turns-IsOver :
    (ms : List (Option Request)) (g : Game)
    → IsDuel g
    → Near g
    → All IsAttack ms
    → total g ≤ length ms
    → IsOver (turns g ms).0
unfolding turns
turns-IsOver [] g h near attacks enough =
    let (hc, ho) = players-Stand g h in absurd (omega (arith, hc.2, enough))
turns-IsOver (none ∷ ms) g h near attacks enough = absurd attacks.0
turns-IsOver (some m ∷ ms) g h near attacks enough =
    elim (take_turn g (some m)).0
        as (λ o.
          Progress (total g) o
          → IsOver
              (elim o as (λ x. Outcome × List (ℕ × Sent)) [
                | over g' winner ↦ (over g' winner, announce g ++ (take_turn g (some m)).1)
                | waiting g' ↦
                    ((turns g' ms).0, announce g ++ (take_turn g (some m)).1 ++ (turns g' ms).1)
              ]).0) [
                | over g' winner ↦ λ p. tt
                | waiting g' ↦ λ p. turns-IsOver ms g' p.0 p.1 attacks.1 (omega (arith, p.2))
              ]
      (take_turn-Progress g m h near attacks.0)

-- A duel in which the players, alive and in range of each other, only attack is over at the latest when
-- there were as many requests as the two withstand blows together.
pub run-IsOver :
    (g : Game) (ms : List (Option Request))
    → IsDuel g
    → distance (current g) (opponent g) ≤ attack_range
    → All IsAttack ms
    → blows (current g) + blows (opponent g) ≤ length ms
    → IsOver (run g ms).0
unfolding run
run-IsOver g ms h near attacks enough = turns-IsOver ms g h near attacks enough
