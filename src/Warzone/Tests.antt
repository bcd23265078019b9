-- ===== src/Warzone/Tests.antt =====
-- The theorems about warzone_go at concrete inputs.
use a_simple_game_server.Prelude.{
  ◌+ℤ◌, inl, ℕ, pos, true, false, [], ◌∷◌, ◌++◌, none, some, ◌≡◌, refl, arith, any, get_elem?,
  if◌then◌else◌, ◌==◌, nat_eq, All,
}
use a_simple_game_server.Warzone.Bytes.{
  Bytes, codes, fixed, bytes_to_string, bytes_eq, same_bytes_iff,
}
use a_simple_game_server.Warzone.Hash.{hash_password}
use a_simple_game_server.Warzone.Database.{
  UserRecord, StatsRecord, Database, is_skipped, registered, logged_in, wrong_password,
  unknown_user, load_users, save_users, load_stats, save_stats, register_user, login, get_stats,
  update_stats, find_user, find_stats, is_separator, take,
}
use a_simple_game_server.Warzone.Database.UserFile.{
  IsField, Starts, IsUserRecord, load_users-save_users,
}
use a_simple_game_server.Warzone.Database.StatsLine.{IsStatsRecord}
use a_simple_game_server.Warzone.Database.StatsFile.{after, load_stats-save_stats, update_stats_lem}
use a_simple_game_server.Warzone.Database.Accounts.{IsAccepted, register_user_lem, register_comment}
use a_simple_game_server.Warzone.Files.{lines}
use a_simple_game_server.Warzone.State.{Env, Server, ConnEntry, modify, find_index}
use a_simple_game_server.Warzone.Packets.{
  auth, closed, playing, After, recv_header, recv_payload, read_full,
}
use a_simple_game_server.Warzone.Conn.{
  seated, join, lobby_step, authenticate, conn_step, answered, auth_step,
}
use a_simple_game_server.Warzone.Loops.{accept}
use a_simple_game_server.Warzone.System.{
  new_server, Phases, put_phase, Reaches, start, packet, connection,
}
use a_simple_game_server.Warzone.Wire.{send_packet, auth_payload, send_login, auth_step-send_login}
use a_simple_game_server.Warzone.Steps.{Holds}
use a_simple_game_server.Warzone.Ranges.{InBounds}
use a_simple_game_server.Warzone.Bounds.{Reaches-InBounds}
use a_simple_game_server.Warzone.Running.{IsContested, Reaches-IsContested}
use a_simple_game_server.Warzone.Frames.{seats}
use a_simple_game_server.Warzone.Seating.{Reaches-plays, Reaches-once}

abbrev no_files : Database
no_files = record { users_file = none; stats_file = none }

abbrev noon : Env
noon = record {
  now = codes "2024-01-01 12:00:00";
  clock = 0;
  writes = true;
  sends = true;
  draws = λ n. (n, n);
}

abbrev ann : Bytes
ann = codes "ann"

abbrev bob : Bytes
bob = codes "bob"

abbrev sesame : Bytes
sesame = codes "sesame"

abbrev ann_user : UserRecord
ann_user = record { username = ann; password_hash = codes "00ff"; created_at = noon.now }

ann_name-IsField : IsField ann
ann_name-IsField = record {
  no_bar = ground arith;
  no_break = ground arith;
  no_return = ground arith;
}

noon-IsField : IsField noon.now
noon-IsField = record { no_bar = ground arith; no_break = ground arith; no_return = ground arith }

ann-Starts : Starts ann
unfolding is_skipped
ann-Starts = refl

ann_user-IsUserRecord : IsUserRecord ann_user
ann_user-IsUserRecord = record {
  name = ann_name-IsField;
  starts = ann-Starts;
  hash = record { no_bar = ground arith; no_break = ground arith; no_return = ground arith };
  time = noon-IsField;
}

load_users-save_users_example :
    load_users (save_users true no_files (ann_user ∷ [])) ≡ ann_user ∷ []
load_users-save_users_example =
    load_users-save_users no_files (ann_user ∷ []) (ann_user-IsUserRecord, tt)

abbrev ann_stats : StatsRecord
ann_stats = record {
  username = ann;
  wins = pos 2;
  losses = pos 1;
  kills = pos 7;
  deaths = pos 1;
  games = pos 3;
  last_played = noon.now;
}

ann_stats-IsStatsRecord : IsStatsRecord ann_stats
ann_stats-IsStatsRecord = record {
  name = ann_name-IsField;
  starts = ann-Starts;
  wins = omega arith;
  losses = omega arith;
  kills = omega arith;
  deaths = omega arith;
  games = omega arith;
  time = noon-IsField;
}

load_stats-save_stats_example :
    load_stats (save_stats true no_files (ann_stats ∷ [])) ≡ ann_stats ∷ []
load_stats-save_stats_example =
    load_stats-save_stats no_files (ann_stats ∷ []) (ann_stats-IsStatsRecord, tt)

-- The file holds the statistics of one player already.
abbrev one_record : Database
one_record = save_stats true no_files (ann_stats ∷ [])

one_record-loaded : load_stats one_record ≡ ann_stats ∷ []
one_record-loaded = load_stats-save_stats no_files (ann_stats ∷ []) (ann_stats-IsStatsRecord, tt)

update_stats_lem_example :
    let db' = update_stats noon.now true one_record ann true 2 false in
    (get_stats db' ann ≡ some (after noon.now ann true 2 false ann_stats))
    × (get_stats db' bob ≡ get_stats one_record bob)
    × All IsStatsRecord (load_stats db')
unfolding ◌+ℤ◌
update_stats_lem_example =
    update_stats_lem noon.now ann true 2 false one_record bob ann_stats ann_name-IsField ann-Starts
      noon-IsField (omega arith) (rw one_record-loaded (ann_stats-IsStatsRecord, tt))
      (inl (unfold get_stats find_stats in rw one_record-loaded refl))
      (record {
        wins = omega arith;
        losses = omega arith;
        kills = omega arith;
        deaths = omega arith;
        games = omega arith;
      })
      (λ e. let bad = (same_bytes_iff ann bob).1 e in absurd cc)

-- A database with Ann's account, to which Bob's is added.
abbrev one_account : Database
one_account = save_users true no_files (ann_user ∷ [])

one_account-loaded : load_users one_account ≡ ann_user ∷ []
one_account-loaded = load_users-save_users no_files (ann_user ∷ []) (ann_user-IsUserRecord, tt)

bob-IsAccepted : IsAccepted bob sesame
unfolding is_separator any
bob-IsAccepted = record {
  some_bytes = omega arith;
  short = omega arith;
  long_password = omega arith;
  no_separator = refl;
}

register_user_lem_example :
    let db' = (register_user noon.now true one_account bob sesame).0 in
    ((register_user noon.now true one_account bob sesame).1 ≡ (true, registered))
    × (login db' bob (codes "wrong") ≡ (
        if hash_password bob sesame == hash_password bob (codes "wrong")
        then (true, logged_in)
        else (false, wrong_password)))
    × (login db' ann sesame ≡ login one_account ann sesame)
register_user_lem_example =
    register_user_lem noon.now one_account bob sesame (codes "wrong") ann sesame bob-IsAccepted
      (ground arith) (unfold is_skipped in refl) noon-IsField
      (rw one_account-loaded (ann_user-IsUserRecord, tt))
      (rw one_account-loaded (unfold find_user in refl))
      (λ e. let bad = (same_bytes_iff bob ann).1 e in absurd cc)

hashed-IsAccepted : IsAccepted (codes "#one") sesame
unfolding is_separator any
hashed-IsAccepted = record {
  some_bytes = omega arith;
  short = omega arith;
  long_password = omega arith;
  no_separator = refl;
}

register_comment_example :
    let db' = (register_user noon.now true one_account (codes "#one") sesame).0 in
    ((register_user noon.now true one_account (codes "#one") sesame).1 ≡ (true, registered))
    × (load_users db' ≡ load_users one_account)
    × (login db' (codes "#one") sesame ≡ (false, unknown_user))
register_comment_example =
    register_comment noon.now one_account (codes "one") sesame sesame hashed-IsAccepted
      (ground arith) noon-IsField (rw one_account-loaded (ann_user-IsUserRecord, tt))
      (rw one_account-loaded (unfold find_user in refl))

auth_step-send_login_example :
    auth_step noon (new_server no_files) 0 0 (send_login false ann sesame ++ 4 ∷ 0 ∷ 0 ∷ [])
    ≡ answered noon
        (new_server no_files)
        0
        0
        ann
        (4 ∷ 0 ∷ 0 ∷ [])
        (login (new_server no_files).db ann sesame)
auth_step-send_login_example =
    auth_step-send_login noon (new_server no_files) 0 0 false ann sesame (4 ∷ 0 ∷ 0 ∷ [])
      (omega arith) (omega arith) (ground arith) (ground arith)

-- Ann connects, registers and joins the game.
abbrev connected : Server
connected = (accept noon (new_server no_files)).0

abbrev phases1 : Phases
phases1 = put_phase 0 (auth 0) (λ n. closed)

abbrev after_login : After
after_login = conn_step noon connected 0 (phases1 0) (send_login true ann sesame)

abbrev phases2 : Phases
phases2 = put_phase 0 after_login.phase phases1

abbrev after_join : After
after_join = conn_step noon after_login.server 0 (phases2 0) (4 ∷ 0 ∷ 0 ∷ [])

abbrev phases3 : Phases
phases3 = put_phase 0 after_join.phase phases2

joined : Reaches after_join.server phases3
unfolding accept new_server
joined = packet noon after_login.server phases2 0 (4 ∷ 0 ∷ 0 ∷ []) (
    packet noon connected phases1 0 (send_login true ann sesame)
      (connection noon (new_server no_files) (λ n. closed) 0 refl (start no_files)))

ann_sits : get_elem? (seats after_join.server.slots) 0 ≡ some (some 0)
unfolding accept new_server conn_step send_login send_packet auth_payload recv_header recv_payload
    read_full fixed bytes_to_string take register_user load_users find_user any auth_step lobby_step
    authenticate answered join seated modify find_index lines
ann_sits = refl

Reaches-InBounds_example : Holds InBounds after_join.server
Reaches-InBounds_example = Reaches-InBounds after_join.server phases3 joined

Reaches-IsContested_example : Holds IsContested after_join.server
Reaches-IsContested_example = Reaches-IsContested after_join.server phases3 joined

Reaches-plays_example :
    phases3 0 ≡ playing
    × ((e : ConnEntry) × get_elem? after_join.server.conns 0 ≡ some e
        × e.active ≡ true
        × e.authed ≡ true)
Reaches-plays_example = Reaches-plays after_join.server phases3 0 0 joined ann_sits

abbrev ann_slot : ℕ
ann_slot = 0

Reaches-once_example : ann_slot ≡ ann_slot
Reaches-once_example =
    Reaches-once after_join.server phases3 ann_slot ann_slot 0 joined ann_sits ann_sits
