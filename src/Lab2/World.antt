-- ===== src/Lab2/World.antt =====
-- Lab/Lab2/complete/world/world.go: the shared world and its operations, each under the write lock. The map of
-- players is the list of them in the order in which a range over it runs. Coordinates are integers. Hit
-- points, which the code sets to zero when they would fall below it, are natural numbers.
use a_simple_game_server.Prelude.{
  ℕ, ℤ, pos, ltb_ℤ, abs, ◌+ℤ◌, ◌-ℤ◌, int_eq, ◌+◌, ◌-◌, ◌%◌, String, Bool, true, false, not, ◌&&◌,
  List, [], ◌∷◌, Option, none, some, ltb, ◌==◌, nat_eq, string_eq, if◌then◌else◌,
}

abbrev pub map_width : ℕ
map_width = 30

abbrev pub map_height : ℕ
map_height = 20

abbrev pub init_hp : ℕ
init_hp = 100

abbrev pub attack_dmg : ℕ
attack_dmg = 30

abbrev pub heal_amt : ℕ
heal_amt = 40

abbrev pub max_potions : ℕ
max_potions = 5

abbrev pub attack_range : ℕ
attack_range = 2

pub record Player : Type 0 where
  pub id : ℕ
  pub name : String
  pub x : ℤ
  pub y : ℤ
  pub hp : ℕ
  pub max_hp : ℕ
  pub potions : ℕ
  pub alive : Bool
  pub kills : ℕ

pub record World : Type 0 where
  pub players : List Player
  pub next_id : ℕ

-- The texts of the events. The last number of a blow is that of the hit points left.
pub data Event : Type 0 where
  silent : Event
  bumps no_target no_potion : String → Event
  walks : String → ℤ → ℤ → Event
  strikes kills : String → String → ℕ → ℕ → Event
  drinks : String → ℕ → ℕ → ℕ → ℕ → Event

-- `rand.Intn` for both coordinates: two numbers from outside.
abbrev pub place : ℕ × ℕ → ℤ × ℤ
place draw = (pos (draw.0 % map_width), pos (draw.1 % map_height))

abbrev pub new_player : ℕ × ℕ → ℕ → String → Player
new_player draw id name = record {
  id = id;
  name = name;
  x = (place draw).0;
  y = (place draw).1;
  hp = init_hp;
  max_hp = init_hp;
  potions = max_potions;
  alive = true;
  kills = 0;
}

unfoldable pub new_world : World
new_world = record { players = []; next_id = 1 }

unfoldable pub find_player : ℕ → List Player → Option Player
find_player id [] = none
find_player id (p ∷ ps) = if p.id == id then some p else find_player id ps

-- A change of the player with an id, made through the pointer.
unfoldable pub update_player : ℕ → (Player → Player) → List Player → List Player
update_player id f [] = []
update_player id f (p ∷ ps) = if p.id == id then f p ∷ ps else p ∷ update_player id f ps

unfoldable pub delete_player : ℕ → List Player → List Player
delete_player id [] = []
delete_player id (p ∷ ps) = let rest = delete_player id ps in if p.id == id then rest else p ∷ rest

unfoldable pub add_player : ℕ × ℕ → World → String → World × ℕ
add_player draw w name = (
  record { players = new_player draw w.next_id name ∷ w.players; next_id = w.next_id + 1 },
  w.next_id,
)

unfoldable pub remove_player : World → ℕ → World
unfolding delete_player
remove_player w id = record w { players = delete_player id w.players }

-- The step of `MovePlayer`; another direction is no step.
unfoldable pub stepped : String → Player → Player
stepped dir p =
    if dir == "up"
    then (if ltb_ℤ (pos 0) p.y then record p { y = p.y -ℤ pos 1 } else p)
    else if dir == "down"
    then (if ltb_ℤ p.y (pos (map_height - 1)) then record p { y = p.y +ℤ pos 1 } else p)
    else if dir == "left"
    then (if ltb_ℤ (pos 0) p.x then record p { x = p.x -ℤ pos 1 } else p)
    else if dir == "right"
    then (if ltb_ℤ p.x (pos (map_width - 1)) then record p { x = p.x +ℤ pos 1 } else p)
    else p

unfoldable pub move_player : World → ℕ → String → World × Event
unfolding stepped find_player update_player
move_player w id dir = elim (find_player id w.players) [
  | none ↦ (w, silent)
  | some p ↦
      if not p.alive
      then (w, silent)
      else (let q = stepped dir p in
          (
            record w { players = update_player id (stepped dir) w.players },
            if q.x == p.x && q.y == p.y then bumps p.name else walks p.name q.x q.y,
          ))
]

abbrev pub distance : Player → Player → ℕ
distance p q = abs (p.x -ℤ q.x) + abs (p.y -ℤ q.y)

-- Another player who is alive and in range.
abbrev pub is_target : Player → Player → Bool
is_target a p = not (p.id == a.id) && p.alive && not (ltb attack_range (distance a p))

abbrev pub is_weaker : Player → Option Player → Bool
is_weaker p none = true
is_weaker p (some q) = ltb p.hp q.hp

-- The loop for the target: the best so far.
unfoldable pub pick_target : Player → Option Player → List Player → Option Player
pick_target a best [] = best
pick_target a best (p ∷ ps) =
    pick_target a (if is_target a p && is_weaker p best then some p else best) ps

unfoldable pub hurt : Player → Player
hurt p = record p {
  hp = p.hp - attack_dmg;
  alive = if p.hp - attack_dmg == 0 then false else p.alive;
}

-- The world, the event, and the player whom the five seconds' wait will revive.
unfoldable pub attack_player : World → ℕ → World × Event × Option ℕ
unfolding find_player update_player pick_target
attack_player w id = elim (find_player id w.players) [
  | none ↦ (w, silent, none)
  | some a ↦ if not a.alive then (w, silent, none) else elim (pick_target a none w.players) [
    | none ↦ (w, no_target a.name, none)
    | some t ↦
        let hit = update_player t.id hurt w.players in
        let left = t.hp - attack_dmg in
        if left == 0
        then (
          record w { players = update_player id (λ p. record p { kills = p.kills + 1 }) hit },
          kills a.name t.name left t.max_hp,
          some t.id,
        )
        else (record w { players = hit }, strikes a.name t.name left t.max_hp, none)
  ]
]

abbrev pub healed : Player → ℕ
healed p = if ltb p.max_hp (p.hp + heal_amt) then p.max_hp else p.hp + heal_amt

unfoldable pub heal_player : World → ℕ → World × Event
unfolding find_player update_player
heal_player w id = elim (find_player id w.players) [
  | none ↦ (w, silent)
  | some p ↦
      if not p.alive then (w, silent) else if p.potions == 0 then (w, no_potion p.name) else (
        record w {
          players =
              update_player id (λ q. record q { potions = q.potions - 1; hp = healed q }) w.players;
        },
        drinks p.name (healed p - p.hp) (healed p) p.max_hp (p.potions - 1),
      )
]

unfoldable pub respawn : ℕ × ℕ → World → ℕ → World
unfolding update_player
respawn draw w id = record w {
  players =
      update_player id
        (λ p. record p {
          x = (place draw).0;
          y = (place draw).1;
          hp = p.max_hp;
          potions = max_potions;
          alive = true;
        })
        w.players;
}
