-- ===== src/Warzone/Database.antt =====
-- warzone_go, database.go: accounts and statistics in two text files. A file is its bytes, or `none` if it
-- is not there; every operation reads the files again. Whether `os.Create` succeeds is `writes`, the time
-- as a text is `now`.
pub mod UserFile
pub mod StatsLine
pub mod StatsFile
pub mod Accounts
use a_simple_game_server.Prelude.{
  ℕ, zero, suc, ◌+◌, ◌-◌, ◌<◌, ℤ, pos, negsuc, ◌+ℤ◌, ◌-ℤ◌, ltb_ℤ, leb_ℤ, Bool, true, false, ◌||◌,
  List, [], ◌∷◌, ◌++◌, Option, none, some, ltb, ◌==◌, nat_eq, if◌then◌else◌, length, any, drop,
}
use Prim.Native.Nat.{◌^◌}
use a_simple_game_server.Prelude.Sorting.{sort_by}
use a_simple_game_server.Warzone.Bytes.{Bytes, codes, bytes_eq}
use a_simple_game_server.Warzone.Decimal.{atoi, format_int, max_int}
use a_simple_game_server.Warzone.Hash.{hash_password}
use a_simple_game_server.Warzone.Files.{lines, split_n}

pub record UserRecord : Type 0 where
  pub username : Bytes
  pub password_hash : Bytes
  pub created_at : Bytes

pub record StatsRecord : Type 0 where
  pub username : Bytes
  pub wins : ℤ
  pub losses : ℤ
  pub kills : ℤ
  pub deaths : ℤ
  pub games : ℤ
  pub last_played : Bytes

pub record Database : Type 0 where
  pub users_file : Option Bytes
  pub stats_file : Option Bytes

-- The message that goes with the outcome.
pub data Message : Type 0 where
  bad_username_length bad_password_length bad_character username_taken registered : Message
  logged_in wrong_password unknown_user : Message

-- A line that is skipped: empty, or a comment.
unfoldable pub is_skipped : Bytes → Bool
is_skipped [] = true
is_skipped (c ∷ s) = c == b'#'

abbrev pub content : Option Bytes → Bytes
content none = []
content (some s) = s

user_of_parts : List Bytes → List UserRecord
user_of_parts (u ∷ h ∷ t ∷ []) = record { username = u; password_hash = h; created_at = t } ∷ []
user_of_parts _ = []

unfoldable pub parse_users : List Bytes → List UserRecord
unfolding user_of_parts
parse_users [] = []
parse_users (line ∷ rest) =
    let later = parse_users rest in
    if is_skipped line then later else user_of_parts (split_n 2 line) ++ later

unfoldable pub load_users : Database → List UserRecord
unfolding parse_users
load_users db = parse_users (lines (content db.users_file))

abbrev pub user_line : UserRecord → Bytes
user_line u = u.username ++ b'|' ∷ (u.password_hash ++ b'|' ∷ u.created_at)

unfoldable pub print_users : List UserRecord → Bytes
print_users [] = []
print_users (u ∷ us) = user_line u ++ b'\n' ∷ print_users us

abbrev pub users_header : Bytes
users_header = codes "# username|password_hash|created_at"

unfoldable pub save_users : Bool → Database → List UserRecord → Database
unfolding print_users
save_users writes db us =
    if writes then record db { users_file = some (users_header ++ b'\n' ∷ print_users us) } else db

pub stats_of_parts : List Bytes → List StatsRecord
stats_of_parts (u ∷ w ∷ l ∷ k ∷ d ∷ g ∷ t ∷ []) =
    record {
      username = u;
      wins = atoi w;
      losses = atoi l;
      kills = atoi k;
      deaths = atoi d;
      games = atoi g;
      last_played = t;
    }
    ∷ []
stats_of_parts _ = []

unfoldable pub parse_stats : List Bytes → List StatsRecord
unfolding stats_of_parts
parse_stats [] = []
parse_stats (line ∷ rest) =
    let later = parse_stats rest in
    if is_skipped line then later else stats_of_parts (split_n 6 line) ++ later

unfoldable pub load_stats : Database → List StatsRecord
unfolding parse_stats
load_stats db = parse_stats (lines (content db.stats_file))

abbrev pub stats_line : StatsRecord → Bytes
stats_line s =
    s.username
    ++ b'|'
      ∷ (format_int s.wins
          ++ b'|'
            ∷ (format_int s.losses
                ++ b'|'
                  ∷ (format_int s.kills
                      ++ b'|'
                        ∷ (format_int s.deaths
                            ++ b'|' ∷ (format_int s.games ++ b'|' ∷ s.last_played)))))

unfoldable pub print_stats : List StatsRecord → Bytes
print_stats [] = []
print_stats (s ∷ ss) = stats_line s ++ b'\n' ∷ print_stats ss

abbrev pub stats_header : Bytes
stats_header = codes "# username|wins|losses|kills|deaths|games|last_played"

unfoldable pub save_stats : Bool → Database → List StatsRecord → Database
unfolding print_stats
save_stats writes db ss =
    if writes then record db { stats_file = some (stats_header ++ b'\n' ∷ print_stats ss) } else db

unfoldable pub find_user : Bytes → List UserRecord → Option UserRecord
find_user name [] = none
find_user name (u ∷ us) = if u.username == name then some u else find_user name us

unfoldable pub find_stats : Bytes → List StatsRecord → Option StatsRecord
find_stats name [] = none
find_stats name (s ∷ ss) = if s.username == name then some s else find_stats name ss

-- A bar or a line break.
abbrev pub is_separator : ℕ → Bool
is_separator c = c == b'|' || c == b'\n'

abbrev pub new_user : Bytes → Bytes → Bytes → UserRecord
new_user now username password = record {
  username = username;
  password_hash = hash_password username password;
  created_at = now;
}

abbrev pub new_stats : Bytes → Bytes → StatsRecord
new_stats now username = record {
  username = username;
  wins = pos 0;
  losses = pos 0;
  kills = pos 0;
  deaths = pos 0;
  games = pos 0;
  last_played = now;
}

unfoldable pub register_user : Bytes → Bool → Database → Bytes → Bytes → Database × (Bool × Message)
register_user now writes db username password =
    if length username == 0 || ltb 30 (length username)
    then (db, (false, bad_username_length))
    else if ltb (length password) 4
    then (db, (false, bad_password_length))
    else if any is_separator username
    then (db, (false, bad_character))
    else elim (find_user username (load_users db)) [
      | some _ ↦ (db, (false, username_taken))
      | none ↦
          let db1 = save_users writes db (load_users db ++ new_user now username password ∷ []) in
          let db2 = save_stats writes db1 (load_stats db1 ++ new_stats now username ∷ []) in
          (db2, (true, registered))
    ]

unfoldable pub login : Database → Bytes → Bytes → Bool × Message
login db username password = elim (find_user username (load_users db)) [
  | none ↦ (false, unknown_user)
  | some u ↦
      if u.password_hash == hash_password username password
      then (true, logged_in)
      else (false, wrong_password)
]

unfoldable pub get_stats : Database → Bytes → Option StatsRecord
get_stats db username = find_stats username (load_stats db)

-- A sum in 64 bits; what is added is not negative.
unfoldable pub plus_int : ℤ → ℕ → ℤ
plus_int z k = let sum = z +ℤ pos k in if ltb_ℤ (pos max_int) sum then sum -ℤ pos (2 ^ 64) else sum

-- One more game in a record.
unfoldable pub played : Bytes → Bool → ℕ → Bool → StatsRecord → StatsRecord
unfolding plus_int
played now is_winner kills died s = record s {
  games = plus_int s.games 1;
  kills = plus_int s.kills kills;
  deaths = if died then plus_int s.deaths 1 else s.deaths;
  wins = if is_winner then plus_int s.wins 1 else s.wins;
  losses = if is_winner then s.losses else plus_int s.losses 1;
  last_played = now;
}

-- The first record of the name is updated, or a new one is added at the end.
unfoldable pub update_records :
    Bytes → Bytes → Bool → ℕ → Bool → List StatsRecord → List StatsRecord
unfolding played
update_records now username is_winner kills died [] =
    played now is_winner kills died (new_stats now username) ∷ []
update_records now username is_winner kills died (s ∷ ss) =
    if s.username == username
    then played now is_winner kills died s ∷ ss
    else s ∷ update_records now username is_winner kills died ss

unfoldable pub update_stats : Bytes → Bool → Database → Bytes → Bool → ℕ → Bool → Database
unfolding update_records
update_stats now writes db username is_winner kills died =
    save_stats writes db (update_records now username is_winner kills died (load_stats db))

abbrev pub take {ℓ} : {A : Type ℓ} → ℕ → List A → List A
take zero xs = []
take (suc n) [] = []
take (suc n) (x ∷ xs) = x ∷ take n xs

-- `sort.Slice` by wins; among equal wins its order is not fixed, and is that of insertion here.
unfoldable pub leaderboard : Database → ℕ → List StatsRecord
leaderboard db top = take top (sort_by (λ a b. ltb_ℤ b.wins a.wins) (load_stats db))
