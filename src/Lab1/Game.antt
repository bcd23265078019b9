-- ===== src/Lab1/Game.antt =====
-- Lab/Lab1/complete/game/game.go: the two players, their actions and the loop of the duel. Coordinates are
-- integers. Hit points, which the code sets to zero when they would fall below it, are natural numbers.
use a_simple_game_server.Prelude.{
  ℕ, ℤ, pos, ltb_ℤ, abs, ◌+ℤ◌, ◌-ℤ◌, int_eq, ◌+◌, ◌-◌, String, Bool, true, false, ◌&&◌, List, [],
  ◌∷◌, ◌++◌, Option, none, some, ltb, ◌==◌, nat_eq, string_eq, if◌then◌else◌,
}

abbrev pub map_width : ℕ
map_width = 20

abbrev pub map_height : ℕ
map_height = 20

abbrev pub init_hp : ℕ
init_hp = 100

abbrev pub attack_dmg : ℕ
attack_dmg = 30

abbrev pub heal_amt : ℕ
heal_amt = 40

abbrev pub max_potions : ℕ
max_potions = 3

abbrev pub attack_range : ℕ
attack_range = 2

pub record Player : Type 0 where
  pub id : ℕ
  pub name : String
  pub x : ℤ
  pub y : ℤ
  pub hp : ℕ
  pub max_hp : ℕ
  pub potions : ℕ
  pub alive : Bool

abbrev pub new_player : ℕ → String → ℤ → ℤ → Player
new_player id name x y = record {
  id = id;
  name = name;
  x = x;
  y = y;
  hp = init_hp;
  max_hp = init_hp;
  potions = max_potions;
  alive = true;
}

-- What a client asks for.
pub record Request : Type 0 where
  pub kind : String
  pub dir : String

-- The texts of the events.
pub data Event : Type 0 where
  duel_begins : String → String → Event
  unknown_request no_potion : String → Event
  bad_direction bumps : String → String → Event
  walks : String → String → ℤ → ℤ → Event
  out_of_range : String → String → ℕ → Event
  strikes : String → String → ℕ → ℕ → Event
  drinks : String → ℕ → ℕ → ℕ → ℕ → Event
  leaves beaten : String → String → Event

-- What the server sends. A state has the players and the turn.
pub data Sent : Type 0 where
  state : Player → Player → ℕ → Sent
  event : Event → Sent
  your_turn : ℕ → Sent
  wait : ℕ → String → Sent
  game_over : String → Sent

-- `Players[Turn]` is the one whose turn it is, `Players[1-Turn]` the other.
pub record Game : Type 0 where
  pub first : Player
  pub second : Player
  pub turn : ℕ
  pub round : ℕ

abbrev pub new_game : Player → Player → Game
new_game p q = record { first = p; second = q; turn = 0; round = 1 }

-- The players as `main` of the server makes them.
abbrev pub start_game : String → String → Game
start_game a b =
    new_game (new_player 1 a (pos 0) (pos 0))
      (new_player 2 b (pos (map_width - 1)) (pos (map_height - 1)))

abbrev pub current : Game → Player
current g = if g.turn == 0 then g.first else g.second

abbrev pub opponent : Game → Player
opponent g = if g.turn == 0 then g.second else g.first

-- The two players after an action of the one whose turn it is.
abbrev pub put_players : Game → Player → Player → Game
put_players g cur opp =
    if g.turn == 0
    then record g { first = cur; second = opp }
    else record g { first = opp; second = cur }

-- The step of `handleMove`, and whether the direction is one.
unfoldable pub stepped : Player → String → Option Player
stepped p dir =
    if dir == "up"
    then some (if ltb_ℤ (pos 0) p.y then record p { y = p.y -ℤ pos 1 } else p)
    else if dir == "down"
    then some (if ltb_ℤ p.y (pos (map_height - 1)) then record p { y = p.y +ℤ pos 1 } else p)
    else if dir == "left"
    then some (if ltb_ℤ (pos 0) p.x then record p { x = p.x -ℤ pos 1 } else p)
    else if dir == "right"
    then some (if ltb_ℤ p.x (pos (map_width - 1)) then record p { x = p.x +ℤ pos 1 } else p)
    else none

unfoldable pub handle_move : Player → String → Player × Event
unfolding stepped
handle_move p dir = elim (stepped p dir) [
  | none ↦ (p, bad_direction p.name dir)
  | some q ↦ (q, if q.x == p.x && q.y == p.y then bumps p.name dir else walks p.name dir q.x q.y)
]

abbrev pub distance : Player → Player → ℕ
distance p q = abs (p.x -ℤ q.x) + abs (p.y -ℤ q.y)

unfoldable pub handle_attack : Player → Player → Player × Event
handle_attack actor target =
    if ltb attack_range (distance actor target)
    then (target, out_of_range actor.name target.name (distance actor target))
    else (let hp' = target.hp - attack_dmg in
        (
          record target { hp = hp'; alive = if hp' == 0 then false else target.alive },
          strikes actor.name target.name hp' target.max_hp,
        ))

unfoldable pub handle_heal : Player → Player × Event
handle_heal p =
    if p.potions == 0
    then (p, no_potion p.name)
    else (let hp' : ℕ = if ltb p.max_hp (p.hp + heal_amt) then p.max_hp else p.hp + heal_amt in
        (
          record p { potions = p.potions - 1; hp = hp' },
          drinks p.name (hp' - p.hp) hp' p.max_hp (p.potions - 1),
        ))

-- The actor and the target after the action.
unfoldable pub process_action : Player → Player → Request → Player × Player × Event
unfolding handle_move handle_attack handle_heal
process_action actor target m =
    if m.kind == "move"
    then ((handle_move actor m.dir).0, target, (handle_move actor m.dir).1)
    else if m.kind == "attack"
    then (actor, (handle_attack actor target).0, (handle_attack actor target).1)
    else if m.kind == "heal"
    then ((handle_heal actor).0, target, (handle_heal actor).1)
    else (actor, target, unknown_request actor.name)

-- To both players, the first one first.
abbrev pub broadcast : Sent → List (ℕ × Sent)
broadcast s = (0, s) ∷ (1, s) ∷ []

abbrev pub broadcast_state : Game → List (ℕ × Sent)
broadcast_state g = broadcast (state g.first g.second g.turn)

-- How `Run` stands: over, with the name of the winner, or waiting for the next request.
pub data Outcome : Type 0 where
  over : Game → String → Outcome
  waiting : Game → Outcome

-- The answers to one request, `none` for a connection that is lost, and how the duel goes on.
unfoldable pub take_turn : Game → Option Request → Outcome × List (ℕ × Sent)
unfolding process_action
take_turn g none = (
  over g (opponent g).name,
  broadcast (event (leaves (current g).name (opponent g).name))
      ++ broadcast (game_over (opponent g).name),
)
take_turn g (some m) =
    let (cur, opp, ev) = process_action (current g) (opponent g) m in
    let g' : Game = put_players g cur opp in
    let told = broadcast (event ev) ++ broadcast_state g' in
    if opp.alive
    then (waiting (record g' { turn = 1 - g'.turn; round = g'.round + 1 }), told)
    else (
      over g' cur.name,
      told ++ broadcast (event (beaten cur.name opp.name)) ++ broadcast (game_over cur.name),
    )

-- The notices before a request is received.
abbrev pub announce : Game → List (ℕ × Sent)
announce g = (g.turn, your_turn g.round) ∷ (1 - g.turn, wait g.round (current g).name) ∷ []

-- The loop, over the requests in the order in which the players whose turn it is send them.
unfoldable pub turns : Game → List (Option Request) → Outcome × List (ℕ × Sent)
unfolding take_turn
turns g [] = (waiting g, announce g)
turns g (m ∷ ms) =
    let (o, told) = take_turn g m in
    elim o [
      | over g' winner ↦ (over g' winner, announce g ++ told)
      | waiting g' ↦ let (o', rest) = turns g' ms in (o', announce g ++ told ++ rest)
    ]

unfoldable pub run : Game → List (Option Request) → Outcome × List (ℕ × Sent)
unfolding turns
run g ms =
    let (o, told) = turns g ms in
    (o, broadcast (event (duel_begins g.first.name g.second.name)) ++ broadcast_state g ++ told)
