-- ===== src/Warzone/State.antt =====
-- warzone_go: the constants and state of protocol.go, server.go, conn.go and game.go. The arrays that are
-- indexed by the game slot are one list of slots; a connection number of -1 is `none`.
use a_simple_game_server.Prelude.{
  ℕ, zero, suc, ℤ, abs, ◌-ℤ◌, ◌+◌, Bool, true, false, ◌&&◌, List, [], ◌∷◌, Option, none, some, ◌==◌,
  nat_eq, if◌then◌else◌,
}
use a_simple_game_server.Warzone.Bytes.{Bytes}
use a_simple_game_server.Warzone.Database.{Database}

abbrev pub map_w : ℕ
map_w = 36

abbrev pub map_h : ℕ
map_h = 12

abbrev pub max_health : ℕ
max_health = 100

abbrev pub attack_damage : ℕ
attack_damage = 15

abbrev pub power_damage : ℕ
power_damage = 30

abbrev pub attack_range : ℕ
attack_range = 3

abbrev pub max_players : ℕ
max_players = 5

abbrev pub max_weapons : ℕ
max_weapons = 6

abbrev pub max_conn : ℕ
max_conn = 20

-- Eight seconds, in nanoseconds.
abbrev pub heartbeat_timeout : ℕ
heartbeat_timeout = 8_000_000_000

-- Coordinates, signed bytes in the code, are integers here: a step is taken only within the map, so none
-- wraps. Health, which the code sets to zero when it would fall below, is a natural number. The flags are
-- bytes that are zero or one.
pub record PlayerState : Type 0 where
  pub x : ℤ
  pub y : ℤ
  pub health : ℕ
  pub alive : Bool
  pub connected : Bool
  pub ready : Bool
  pub has_weapon : Bool
  pub name : Bytes

pub record WeaponItem : Type 0 where
  pub x : ℤ
  pub y : ℤ
  pub active : Bool

pub record Slot : Type 0 where
  pub conn : Option ℕ
  pub player : PlayerState
  pub kills : ℕ
  pub died : Bool

-- The texts of `LastEvent`.
pub data News : Type 0 where
  server_started round_over : News
  round_begins : ℕ → News
  weapon_appears : ℕ → ℕ → News
  picks_up no_target last_survivor disconnected enters is_ready : Bytes → News
  too_far hits hits_hard : Bytes → Bytes → ℕ → News
  defeats : Bytes → Bytes → News

pub record ConnEntry : Type 0 where
  pub active : Bool
  pub authed : Bool
  pub username : Bytes
  pub game_slot : Option ℕ
  pub last_hb : ℕ

pub record Server : Type 0 where
  pub db : Database
  pub conns : List ConnEntry
  pub slots : List Slot
  pub weapons : List WeaponItem
  pub game_started : Bool
  pub game_over : Bool
  pub winner_conn : Option ℕ
  pub last_event : News

-- What the machine gives: the time as a text and as a number, whether files can be written and packets be
-- sent, and the pairs of random numbers.
pub record Env : Type 0 where
  pub now : Bytes
  pub clock : ℕ
  pub writes : Bool
  pub sends : Bool
  pub draws : ℕ → ℕ × ℕ

abbrev pub is_some {ℓ} : {A : Type ℓ} → Option A → Bool
is_some none = false
is_some (some _) = true

-- `slotConn[g] == cid` for a connection's number.
abbrev pub is_conn : ℕ → Option ℕ → Bool
is_conn cid none = false
is_conn cid (some c) = c == cid

abbrev pub is_occupied : Slot → Bool
is_occupied s = is_some s.conn

-- In the game and alive.
abbrev pub stands : Slot → Bool
stands s = is_occupied s && s.player.alive

-- `abs(a - b)`.
abbrev pub gap : ℤ → ℤ → ℕ
gap a b = abs (a -ℤ b)

-- A change of the element at an index; beyond the end nothing changes.
unfoldable pub modify {ℓ} : {A : Type ℓ} → ℕ → (A → A) → List A → List A
modify n f [] = []
modify zero f (x ∷ xs) = f x ∷ xs
modify (suc n) f (x ∷ xs) = x ∷ modify n f xs

unfoldable pub count {ℓ} : {A : Type ℓ} → (A → Bool) → List A → ℕ
count p [] = 0
count p (x ∷ xs) = (if p x then 1 else 0) + count p xs

-- The index of the first element that passes the test.
unfoldable pub find_index {ℓ} : {A : Type ℓ} → (A → Bool) → List A → Option ℕ
find_index p [] = none
find_index p (x ∷ xs) =
    if p x then some 0 else elim (find_index p xs) [ none ↦ none | some n ↦ some (suc n) ]
