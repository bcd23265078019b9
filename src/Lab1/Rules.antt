-- ===== src/Lab1/Rules.antt =====
-- Lab/Lab1/complete/game/game.go: how a duel can stand, and how it ends.
use a_simple_game_server.Prelude.{
  ℕ, ◌+◌, ◌-◌, ◌≤◌, ◌<◌, String, false, List, [], ◌∷◌, ◌++◌, Option, none, some, ◌≡◌, refl, ◌⊎◌,
  inl, inr, arith, ◌==◌, nat_eq, string_eq, Bool-cases, choose, All, length, ap,
}
use a_simple_game_server.Lab1.Game.{
  announce, attack_range, Player, Request, Sent, Game, current, opponent, put_players, distance,
  process_action, Outcome, over, waiting, take_turn, turns, run,
}
use a_simple_game_server.Lab1.Actions.{Stands, IsAttack, process_action-Acted}

-- A duel that goes on.
abbrev pub IsDuel : Game → Type 0
IsDuel g = Stands g.first × Stands g.second × g.turn < 2

-- The player whose turn it is stands and has won: the other is in range without hit points.
abbrev pub Wins : Game → String → Type 0
Wins g winner =
    Stands (current g)
    × winner ≡ (current g).name
    × (opponent g).alive ≡ false
    × (opponent g).hp ≡ 0
    × distance (current g) (opponent g) ≤ attack_range

-- The player whose turn it is has left, both stand, and the other has won.
abbrev pub IsForfeit : Game → String → Type 0
IsForfeit g winner = IsDuel g × winner ≡ (opponent g).name

-- A request that has come from a client, not a lost connection.
abbrev pub HasCome : Option Request → Type 0
HasCome none = ⊥
HasCome (some m) = Unit

-- The request of the last round of `g'` in a duel that began as `g`: all before it have come, one a round.
abbrev pub IsLast : Game → List (Option Request) → Option Request → Game → Type 0
IsLast g ms m g' =
    (before : List (Option Request)) × (after : List (Option Request)) × ms ≡ before ++ m ∷ after
    × All HasCome before
    × g'.round ≡ g.round + length before

-- How a duel that began as `g` stands after requests: it goes on with both alive, and all of them have come,
-- one a round; or the request of the last round was an attack that won; or the connection of the player
-- whose turn it was is lost in the last round, and the other has won.
abbrev pub Ends : Game → List (Option Request) → Outcome → Type 0
Ends g ms (waiting g') = IsDuel g' × All HasCome ms × g'.round ≡ g.round + length ms
Ends g ms (over g' winner) =
    ((m : Request) × m.kind ≡ "attack" × IsLast g ms (some m) g' × Wins g' winner)
    ⊎ (IsLast g ms none g' × IsForfeit g' winner)

pub two_turns : (n : ℕ) → n < 2 → (n ≡ 0) ⊎ (n ≡ 1)
two_turns n h = elim (Bool-cases (n == 0)) [
  | inl e ↦ inl (ground arith)
  | inr e ↦ inr (ground arith)
]

current-put_players : (g : Game) (c o : Player) → current (put_players g c o) ≡ c
current-put_players g c o = elim (Bool-cases (g.turn == 0)) [
  | inl e ↦ rw (e, e) refl
  | inr e ↦ rw (e, e) refl
]

opponent-put_players : (g : Game) (c o : Player) → opponent (put_players g c o) ≡ o
opponent-put_players g c o = elim (Bool-cases (g.turn == 0)) [
  | inl e ↦ rw (e, e) refl
  | inr e ↦ rw (e, e) refl
]

pub players-Stand : (g : Game) → IsDuel g → Stands (current g) × Stands (opponent g)
players-Stand g (h1, h2, ht) = elim (Bool-cases (g.turn == 0)) [
  | inl e ↦ rw e (h1, h2)
  | inr e ↦ rw e (h2, h1)
]

round-put_players : (g : Game) (c o : Player) → (put_players g c o).round ≡ g.round
round-put_players g c o =
    choose (λ (x : Game). x.round ≡ g.round) (g.turn == 0) (λ _. refl) (λ _. refl)

next-IsDuel :
    (g : Game) (c o : Player)
    → g.turn < 2
    → Stands c
    → Stands o
    → (let g' = put_players g c o in
        IsDuel (record g' { turn = 1 - g'.turn; round = g'.round + 1 }))
next-IsDuel g c o ht hc ho = elim (Bool-cases (g.turn == 0)) [
  | inl e ↦ rw e (hc, ho, omega arith)
  | inr e ↦ rw e (ho, hc, omega arith)
]

-- One turn: the next round, a blow that wins, or a lost connection.
abbrev Turned : Game → Option Request → Outcome → Type 0
Turned g m (waiting g') = IsDuel g' × HasCome m × g'.round ≡ g.round + 1
Turned g m (over g' winner) =
    g'.round ≡ g.round × ((IsAttack m × Wins g' winner) ⊎ (m ≡ none × IsForfeit g' winner))

take_turn-Turned : (g : Game) (m : Option Request) → IsDuel g → Turned g m (take_turn g m).0
unfolding take_turn
take_turn-Turned g none h = (refl, inr (refl, (h, refl)))
take_turn-Turned g (some m) h =
    let (hc, ho) = players-Stand g h in
    let (acts, hit) = process_action-Acted (current g) (opponent g) m hc ho in
    let c = (process_action (current g) (opponent g) m).0 in
    let o = (process_action (current g) (opponent g) m).1 in
    let kept = round-put_players g c o in
    choose (λ (x : Outcome × List (ℕ × Sent)). Turned g (some m) x.0) o.alive
      (λ alive.
        let stands : Stands o = elim hit [
          | inl k ↦ k
          | inr (_, inl k) ↦ k
          | inr (_, inr k) ↦ absurd cc
        ] in
        (next-IsDuel g c o h.2 acts stands, tt, omega (arith, kept)))
      (λ dead. (
        kept,
        inl (
            rw (current-put_players g c o, opponent-put_players g c o)
              (elim hit [
                | inl k ↦ absurd cc
                | inr (_, inl k) ↦ absurd cc
                | inr (e, inr k) ↦ (e, (acts, refl, k.1, k.2, k.3))
              ])),
      ))

later-IsLast :
    (g g' g2 : Game) (r : Request) (m : Option Request) (ms : List (Option Request))
    → g'.round ≡ g.round + 1
    → IsLast g' ms m g2
    → IsLast g (some r ∷ ms) m g2
later-IsLast g g' g2 r m ms e (before, after, split, came, last) =
    (some r ∷ before, after, ap (λ l. some r ∷ l) split, (tt, came), omega arith)

later-Ends :
    (g g' : Game) (r : Request) (ms : List (Option Request)) (o : Outcome)
    → g'.round ≡ g.round + 1
    → Ends g' ms o
    → Ends g (some r ∷ ms) o
later-Ends g g' r ms (waiting g2) e (duel, came, last) = (duel, (tt, came), omega arith)
later-Ends g g' r ms (over g2 winner) e (inl (m, k, at, won)) =
    inl (m, k, later-IsLast g g' g2 r (some m) ms e at, won)
later-Ends g g' r ms (over g2 winner) e (inr (at, left)) =
    inr (later-IsLast g g' g2 r none ms e at, left)

over-Ends :
    (g g' : Game) (m : Option Request) (ms : List (Option Request)) (winner : String)
    → Turned g m (over g' winner)
    → Ends g (m ∷ ms) (over g' winner)
over-Ends g g' none ms winner (e, inl won) = absurd won.0
over-Ends g g' (some m) ms winner (e, inl won) =
    inl (m, won.0, ([], ms, refl, tt, omega arith), won.1)
over-Ends g g' m ms winner (e, inr (lost, left)) =
    inr (([], ms, ap (λ x. x ∷ ms) lost, tt, omega arith), left)

turns-Ends : (ms : List (Option Request)) (g : Game) → IsDuel g → Ends g ms (turns g ms).0
unfolding turns
turns-Ends [] g h = (h, tt, omega arith)
turns-Ends (m ∷ ms) g h =
    elim (take_turn g m).0
        as (λ o.
          Turned g m o
          → Ends g (m ∷ ms)
              (elim o as (λ x. Outcome × List (ℕ × Sent)) [
                | over g' winner ↦ (over g' winner, announce g ++ (take_turn g m).1)
                | waiting g' ↦ ((turns g' ms).0, announce g ++ (take_turn g m).1 ++ (turns g' ms).1)
              ]).0) [
                | over g' winner ↦ λ t. over-Ends g g' m ms winner t
                | waiting g' ↦ λ t.
                    elim m as (λ x. Turned g x (waiting g') → Ends g (x ∷ ms) (turns g' ms).0) [
                      | none ↦ λ t. absurd t.1
                      | some r ↦
                          λ t. later-Ends g g' r ms (turns g' ms).0 t.2 (turns-Ends ms g' t.0)
                    ]
                      t
              ]
      (take_turn-Turned g m h)

-- A duel is given in which both players are on the map and alive, with some hit points, at most the full
-- ones, and at most three potions, and one of them is at turn. After any requests and lost connections it
-- stands in one of three ways. It goes on and is such a duel still, and every request has come and taken
-- one round. Or the request of its last round was an attack: the attacker, who stands, is the winner, and
-- the other is in range without hit points and not alive. Or in its last round the connection of the
-- player whose turn it was is lost: both stand, and the other is the winner. In the last two, all requests
-- before that of the last round have come and taken one round each.
pub run-Ends : (g : Game) (ms : List (Option Request)) → IsDuel g → Ends g ms (run g ms).0
unfolding run
run-Ends g ms h = turns-Ends ms g h
