-- ===== src/World/Outcomes.antt =====
-- The ways in which the handlers of world.go end, as data: each case gives the world that is left.
-- The proofs about invariants split on these.
use a_simple_game_server.Prelude.{
  ℕ, ℤ, String, true, false, none, some, ◌+◌, ◌-◌, ◌<◌, ◌≤◌, ◌≡◌, refl, inl, inr, arith, Bool-cases,
  Option-cases, eqb, ltb, leb, ◌==◌, string_eq,
}
use a_simple_game_server.Prelude.Maps.{lookup, insert, delete}
use a_simple_game_server.World.State.{Player, Treasure, World, bump}
use a_simple_game_server.World.Place.{walkable}
use a_simple_game_server.World.Life.{refresh}
use a_simple_game_server.World.Spawn.{treasure_at}
use a_simple_game_server.World.Move.{step_cell, move_to, move_alive, move_player}
use a_simple_game_server.World.Heal.{drink, heal_alive, heal_player}
use a_simple_game_server.World.Shop.{buy_potion, buy_weapon, buy_alive, buy_item}

-- The world with one player written back, one version on.
abbrev pub store : World → String → Player → World
store w key p = record w { players = insert key p w.players; version = w.version + 1 }

abbrev pub stepped : ℕ → Player → ℤ → ℤ → Player
stepped now p x y = record p { x = x; y = y; last_update = now }

abbrev pub richer : Player → ℕ → Player
richer p v = record p { treasures = p.treasures + v }

pub data Moved (now : ℕ) (w : World) (username : String) (p : Player) (x y : ℤ) (w' : World)
    : Type 0 where
  stays : walkable w x y p.username ≡ false → w' ≡ w → Moved now w username p x y w'
  walks :
      walkable w x y p.username ≡ true
      → treasure_at x y w.treasures ≡ none
      → w' ≡ store w username (stepped now p x y)
      → Moved now w username p x y w'
  finds :
      (id : String) (t : Treasure)
      → walkable w x y p.username ≡ true
      → treasure_at x y w.treasures ≡ some (id, t)
      → w' ≡ record (store w username (richer (stepped now p x y) t.value)) {
        treasures = delete id w.treasures;
      }
      → Moved now w username p x y w'

pub move_alive-Moved :
    (now : ℕ) (w : World) (username : String) (p : Player) (dir : String)
    → (let cell = step_cell p.x p.y dir in
        Moved now w username p cell.0 cell.1 (move_alive now w username p dir).0)
unfolding move_alive move_to bump step_cell
move_alive-Moved now w username p dir =
    let x = (step_cell p.x p.y dir).0 in
    let y = (step_cell p.x p.y dir).1 in
    elim (Bool-cases (walkable w x y p.username)) [
      | inr shut_cell ↦ stays shut_cell (ground arith)
      | inl open_cell ↦ elim (Option-cases (treasure_at x y w.treasures)) [
        | inl bare ↦ walks open_cell bare (ground arith)
        | inr ((id, t), hit) ↦ finds id t open_cell hit (ground arith)
      ]
    ]

-- The world unchanged, or one player written back.
pub data Updated (Q : Player → Type 0) (w : World) (key : String) (w' : World) : Type 0 where
  same : w' ≡ w → Updated Q w key w'
  stored : (p : Player) → Q p → w' ≡ store w key p → Updated Q w key w'

pub heal_alive-Updated :
    (now : ℕ) (w : World) (username : String) (p : Player)
    → Updated
        (λ p'. (p' ≡ drink now p) × (0 < p.potions))
        w
        username
        (heal_alive now w username p).0
unfolding heal_alive bump
heal_alive-Updated now w username p = elim (Bool-cases (eqb p.potions 0)) [
  | inl out ↦ same (ground arith)
  | inr left ↦ stored (drink now p) (refl, ground arith) (ground arith)
]

-- What a purchase makes of the buyer.
pub data Bought (now : ℕ) (p p' : Player) : Type 0 where
  potion :
      3 ≤ p.treasures
      → p.potions < 8
      → p' ≡ record p { treasures = p.treasures - 3; potions = p.potions + 1; last_update = now }
      → Bought now p p'
  weapon :
      8 ≤ p.treasures
      → p' ≡ record p { treasures = p.treasures - 8; attack = p.attack + 6; last_update = now }
      → Bought now p p'

buy_potion-Updated :
    (now : ℕ) (w : World) (username : String) (p : Player)
    → Updated (Bought now p) w username (buy_potion now w username p).0
unfolding buy_potion bump
buy_potion-Updated now w username p = elim (Bool-cases (ltb p.treasures 3)) [
  | inl poor ↦ same (ground arith)
  | inr rich ↦ elim (Bool-cases (leb 8 p.potions)) [
    | inl full ↦ same (ground arith)
    | inr fits ↦ stored _ (potion (ground arith) (ground arith) refl) (ground arith)
  ]
]

buy_weapon-Updated :
    (now : ℕ) (w : World) (username : String) (p : Player)
    → Updated (Bought now p) w username (buy_weapon now w username p).0
unfolding buy_weapon bump
buy_weapon-Updated now w username p = elim (Bool-cases (ltb p.treasures 8)) [
  | inl poor ↦ same (ground arith)
  | inr rich ↦ stored _ (weapon (ground arith) refl) (ground arith)
]

pub buy_alive-Updated :
    (now : ℕ) (w : World) (username : String) (p : Player) (item : String)
    → Updated (Bought now p) w username (buy_alive now w username p item).0
unfolding buy_alive
buy_alive-Updated now w username p item = elim (Bool-cases (item == "potion")) [
  | inl a ↦ rw a (buy_potion-Updated now w username p)
  | inr na ↦ elim (Bool-cases (item == "weapon")) [
    | inl b ↦ rw (na, b) (buy_weapon-Updated now w username p)
    | inr nb ↦ same (rw (na, nb))
  ]
]

-- A handler that looks the player up, refreshes, and goes on if the player stands: what holds of
-- the world after the refresh, and after the rest, holds at its end.
module _ (Q : World → Type 0) (now : ℕ) (w : World) (username : String) (missing : Q w) where
  abbrev Downed : Type 0
  Downed = (q : Player) → lookup username w.players ≡ some q → Q (refresh now w username q).0

  abbrev Standing : (World → Player → World) → Type 0
  Standing rest =
      (q : Player)
      → lookup username w.players ≡ some q
      → (refresh now w username q).1.alive ≡ true
      → Q (rest (refresh now w username q).0 (refresh now w username q).1)

  pub move_player-cases :
      (dir : String)
      → Downed
      → Standing (λ w' p. (move_alive now w' username p dir).0)
      → Q (move_player now w username dir).0
  unfolding move_player
  move_player-cases dir down up = elim (Option-cases (lookup username w.players)) [
    | inl gone ↦ rw (gone, move_player) missing
    | inr (q, at) ↦ elim (Bool-cases (refresh now w username q).1.alive) [
      | inl alive ↦ rw (at, move_player, alive) (up q at alive)
      | inr fallen ↦ rw (at, move_player, fallen) (down q at)
    ]
  ]

  pub heal_player-cases :
      Downed
      → Standing (λ w' p. (heal_alive now w' username p).0)
      → Q (heal_player now w username).0
  unfolding heal_player
  heal_player-cases down up = elim (Option-cases (lookup username w.players)) [
    | inl gone ↦ rw (gone, heal_player) missing
    | inr (q, at) ↦ elim (Bool-cases (refresh now w username q).1.alive) [
      | inl alive ↦ rw (at, heal_player, alive) (up q at alive)
      | inr fallen ↦ rw (at, heal_player, fallen) (down q at)
    ]
  ]

  pub buy_item-cases :
      (item : String)
      → Downed
      → Standing (λ w' p. (buy_alive now w' username p item).0)
      → Q (buy_item now w username item).0
  unfolding buy_item
  buy_item-cases item down up = elim (Option-cases (lookup username w.players)) [
    | inl gone ↦ rw (gone, buy_item) missing
    | inr (q, at) ↦ elim (Bool-cases (refresh now w username q).1.alive) [
      | inl alive ↦ rw (at, buy_item, alive) (up q at alive)
      | inr fallen ↦ rw (at, buy_item, fallen) (down q at)
    ]
  ]
