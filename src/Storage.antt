-- ===== src/Storage.antt =====
-- Lab/Lab3/complete/storage/store.go: accounts, hot sessions and checkpoint files. A file holds the
-- value that was written to it (`encoding/json` reads back what it wrote). Whether a write succeeds is
-- the argument `writes`; SHA-256 in hexadecimal is the argument `hash`.
pub mod Accounts
mod Tests
use a_simple_game_server.Prelude.{
  ℕ, pos, String, Bool, true, false, ◌&&◌, ◌||◌, not, [], Option, none, some, ◌==◌, string_eq, ◌≡◌,
  if◌then◌else◌,
}
use a_simple_game_server.Prelude.Maps.{Map, lookup, insert, delete}
use a_simple_game_server.Protocol.{
  UserProfile, HotSession, MapCheckpoint, init_hp, init_attack, max_potions,
}

-- A checkpoint file: well-formed, empty, or not to be read or decoded.
pub data CheckpointFile : Type 0 where
  holds : MapCheckpoint → CheckpointFile
  empty_file : CheckpointFile
  unreadable : CheckpointFile

pub record Store : Type 0 where
  pub users : Map UserProfile
  pub sessions : Map HotSession
  pub users_file : Map UserProfile
  pub hot_file : Map HotSession
  pub checkpoints : Map CheckpointFile

pub data StoreError : Type 0 where
  empty_credentials : StoreError
  user_exists : String → StoreError
  no_user : String → StoreError
  wrong_password : StoreError
  write_failed : StoreError

-- `saveUsersLocked`: the file takes the users, if it can be written.
unfoldable pub save_users : Bool → Store → Store × Option StoreError
save_users writes s =
    if writes then (record s { users_file = s.users }, none) else (s, some write_failed)

unfoldable pub save_hot : Bool → Store → Store × Option StoreError
save_hot writes s =
    if writes then (record s { hot_file = s.sessions }, none) else (s, some write_failed)

unfoldable pub new_profile : String → String → UserProfile
new_profile username password_hash = record {
  username = username;
  password_hash = password_hash;
  last_map = "green";
  last_node = "";
  x = pos 4;
  y = pos 4;
  hp = init_hp;
  max_hp = init_hp;
  attack = init_attack;
  potions = max_potions;
  treasures = 0;
  kills = 0;
  deaths = 0;
  victories = 0;
  alive = true;
}

unfoldable pub register :
    (String → String) → Bool → Store → String → String → Store × Option StoreError
unfolding save_users new_profile
register hash writes s username password =
    if username == "" || password == ""
    then (s, some empty_credentials)
    else elim (lookup username s.users) [
      | some _ ↦ (s, some (user_exists username))
      | none ↦
          save_users writes
            (record s { users = insert username (new_profile username (hash password)) s.users })
    ]

pub data Checked : Type 0 where
  admitted : UserProfile → Checked
  refused : StoreError → Checked

unfoldable pub authenticate : (String → String) → Store → String → String → Checked
authenticate hash s username password =
    if username == "" || password == ""
    then refused empty_credentials
    else elim (lookup username s.users) [
      | none ↦ refused (no_user username)
      | some user ↦
          if user.password_hash == hash password then admitted user else refused wrong_password
    ]

unfoldable pub load_profile : Store → String → Checked
load_profile s username = elim (lookup username s.users) [
  | none ↦ refused (no_user username)
  | some user ↦ admitted user
]

-- The profile that is stored: a profile without a hash takes the hash of the one before.
unfoldable pub kept_hash : Store → UserProfile → UserProfile
kept_hash s profile = elim (lookup profile.username s.users) [
  | none ↦ profile
  | some existing ↦
      if profile.password_hash == ""
      then record profile { password_hash = existing.password_hash }
      else profile
]

unfoldable pub save_profile : Bool → Store → UserProfile → Store × Option StoreError
unfolding kept_hash save_users
save_profile writes s profile =
    save_users writes (record s { users = insert profile.username (kept_hash s profile) s.users })

unfoldable pub save_hot_session : Bool → Store → HotSession → Store × Option StoreError
unfolding save_hot
save_hot_session writes s session =
    save_hot writes (record s { sessions = insert session.username session s.sessions })

unfoldable pub delete_hot_session : Bool → Store → String → Store × Option StoreError
unfolding save_hot
delete_hot_session writes s username =
    save_hot writes (record s { sessions = delete username s.sessions })

unfoldable pub save_checkpoint : Bool → Store → MapCheckpoint → Store
save_checkpoint writes s cp =
    if writes then record s { checkpoints = insert cp.map_id (holds cp) s.checkpoints } else s

-- Go's zero value, which `LoadCheckpoint` returns where there is no file or an empty one.
abbrev pub zero_checkpoint : MapCheckpoint
zero_checkpoint = record {
  map_id = "";
  node_id = "";
  version = 0;
  terrain = [];
  players = [];
  npcs = [];
  treasures = [];
  checkpoint = 0;
}

unfoldable pub load_checkpoint : Store → String → Option MapCheckpoint
load_checkpoint s map_id = elim (lookup map_id s.checkpoints) [
  | none ↦ some zero_checkpoint
  | some file ↦ elim file [
    | holds cp ↦ some cp
    | empty_file ↦ some zero_checkpoint
    | unreadable ↦ none
  ]
]

-- `NewStore`, once the directories are there: the contents of the two files, or the error of
-- reading one.
unfoldable pub open_store :
    Option (Map UserProfile) → Option (Map HotSession) → Map CheckpointFile → Option Store
open_store none _ _ = none
open_store (some users) none _ = none
open_store (some users) (some sessions) checkpoints = some (record {
  users = users;
  sessions = sessions;
  users_file = users;
  hot_file = sessions;
  checkpoints = checkpoints;
})
