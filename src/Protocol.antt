-- ===== src/Protocol.antt =====
-- Lab/Lab3/complete/protocol/message.go: the game's constants and the records that the parts of the
-- server hand to one another. A time is a number of nanoseconds.
use a_simple_game_server.Prelude.{ℕ, ℤ, String, Bool, List}

abbrev pub init_hp : ℕ
init_hp = 120

abbrev pub init_attack : ℕ
init_attack = 35

abbrev pub attack_range : ℕ
attack_range = 2

abbrev pub boss_atk_range : ℕ
boss_atk_range = 4

abbrev pub npc_damage : ℕ
npc_damage = 18

abbrev pub heal_amount : ℕ
heal_amount = 30

abbrev pub max_potions : ℕ
max_potions = 3

abbrev pub potion_cap : ℕ
potion_cap = 8

abbrev pub potion_price : ℕ
potion_price = 3

abbrev pub weapon_price : ℕ
weapon_price = 8

abbrev pub weapon_boost : ℕ
weapon_boost = 6

abbrev pub min_npcs : ℕ
min_npcs = 5

abbrev pub max_treasures : ℕ
max_treasures = 8

abbrev pub map_width : ℕ
map_width = 56

abbrev pub map_height : ℕ
map_height = 24

pub record PlayerView : Type 0 where
  pub username : String
  pub map_id : String
  pub x : ℤ
  pub y : ℤ
  pub hp : ℕ
  pub max_hp : ℕ
  pub attack : ℕ
  pub potions : ℕ
  pub treasures : ℕ
  pub kills : ℕ
  pub deaths : ℕ
  pub victories : ℕ
  pub alive : Bool
  pub respawn_in : ℕ
  pub last_update : ℕ

pub record NpcView : Type 0 where
  pub id : String
  pub name : String
  pub x : ℤ
  pub y : ℤ
  pub hp : ℕ
  pub max_hp : ℕ
  pub attack : ℕ
  pub alive : Bool

pub record TreasureView : Type 0 where
  pub id : String
  pub kind : String
  pub x : ℤ
  pub y : ℤ
  pub value : ℕ

pub record MapView : Type 0 where
  pub id : String
  pub name : String
  pub node_id : String
  pub width : ℕ
  pub height : ℕ
  pub terrain : List String
  pub players : List PlayerView
  pub npcs : List NpcView
  pub treasures : List TreasureView
  pub version : ℕ

pub record UserProfile : Type 0 where
  pub username : String
  pub password_hash : String
  pub last_map : String
  pub last_node : String
  pub x : ℤ
  pub y : ℤ
  pub hp : ℕ
  pub max_hp : ℕ
  pub attack : ℕ
  pub potions : ℕ
  pub treasures : ℕ
  pub kills : ℕ
  pub deaths : ℕ
  pub victories : ℕ
  pub alive : Bool

pub record HotSession : Type 0 where
  pub username : String
  pub map_id : String
  pub node_id : String
  pub x : ℤ
  pub y : ℤ
  pub hp : ℕ
  pub treasures : ℕ
  pub session_version : ℕ
  pub updated_at : ℕ

pub record MapCheckpoint : Type 0 where
  pub map_id : String
  pub node_id : String
  pub version : ℕ
  pub terrain : List String
  pub players : List PlayerView
  pub npcs : List NpcView
  pub treasures : List TreasureView
  pub checkpoint : ℕ

pub record BossSite : Type 0 where
  pub map_id : String
  pub x : ℤ
  pub y : ℤ
