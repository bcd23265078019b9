-- ===== src/World/State.antt =====
-- world.go, its types and small helpers. The maps `players`, `npcs` and `treasures` are association
-- lists; the pseudo-random generator is a function of the bounds asked for so far.
use a_simple_game_server.Prelude.{
  ℕ, ℤ, String, Bool, List, ◌∷◌, Option, none, some, ◌+◌, ◌/◌, ◌-◌, ◌%◌, ◌-ℤ◌, abs, eqb, ltb,
  if◌then◌else◌,
}
use a_simple_game_server.Prelude.Maps.{Map}
use Prim.Native.Char.{Char}

pub record MapConfig : Type 0 where
  pub id : String
  pub name : String
  pub layout : List String
  pub spawn_x : ℤ
  pub spawn_y : ℤ
  pub boss_x : ℤ
  pub boss_y : ℤ

-- `respawn_at` is `none` for Go's zero time.
pub record Player : Type 0 where
  pub username : String
  pub map_id : String
  pub x : ℤ
  pub y : ℤ
  pub hp : ℕ
  pub max_hp : ℕ
  pub attack : ℕ
  pub potions : ℕ
  pub treasures : ℕ
  pub kills : ℕ
  pub deaths : ℕ
  pub victories : ℕ
  pub alive : Bool
  pub respawn_at : Option ℕ
  pub last_update : ℕ

pub record Npc : Type 0 where
  pub id : String
  pub name : String
  pub x : ℤ
  pub y : ℤ
  pub hp : ℕ
  pub max_hp : ℕ
  pub attack : ℕ
  pub alive : Bool

pub record Treasure : Type 0 where
  pub id : String
  pub kind : String
  pub x : ℤ
  pub y : ℤ
  pub value : ℕ

-- `math/rand.Rand` after its seeding: the next answer is a function of the bounds asked for so far,
-- newest first, and of the new bound.
pub record Rng : Type 0 where
  pub asked : List ℕ
  pub answer : List ℕ → ℕ → ℕ

abbrev pub Grid : Type 0
Grid = List (List Char)

pub record World : Type 0 where
  pub cfg : MapConfig
  pub terrain : Grid
  pub players : Map Player
  pub npcs : Map Npc
  pub treasures : Map Treasure
  pub rng : Rng
  pub version : ℕ
  pub next_npc : ℕ
  pub next_treasure : ℕ

-- `w.rng.Intn(n)` for a positive `n`: some number below `n`.
unfoldable pub intn : World → ℕ → ℕ × World
intn w n = (
  w.rng.answer w.rng.asked n % n,
  record w { rng = record { asked = n ∷ w.rng.asked; answer = w.rng.answer } },
)

-- `distance` of world.go and `manhattan` of cluster.go.
unfoldable pub distance : ℤ → ℤ → ℤ → ℤ → ℕ
distance ax ay bx by = abs (ax -ℤ bx) + abs (ay -ℤ by)

unfoldable pub value_or : ℕ → ℕ → ℕ
value_or v fallback = if eqb v 0 then fallback else v

unfoldable pub bump : World → World
bump w = record w { version = w.version + 1 }

-- `playerRespawnInLocked`: whole seconds that are left, at least one.
unfoldable pub respawn_in : ℕ → Player → ℕ
respawn_in now p = if p.alive then 0 else elim p.respawn_at [
  | none ↦ 0
  | some t ↦ let remain = (t - now) / 1_000_000_000 in if ltb remain 1 then 1 else remain
]
