-- ===== src/Warzone/Database/Accounts.antt =====
-- What `RegisterUser` and `Login` of database.go promise, and where a name breaks the promise.
use a_simple_game_server.Prelude.{
  true, false, ◌||◌, List, [], ◌∷◌, ◌++◌, none, some, ◌≤◌, ◌≡◌, ◌≢◌, refl, ◌∙◌, inl, inr, arith,
  ltb, ◌==◌, nat_eq, if◌then◌else◌, All, All-map, All-append, any, any-false, Bool-cases, length,
}
use mathlib.Core.List.{append-nil}
use a_simple_game_server.Warzone.Bytes.{Bytes, bytes_eq, same_bytes_iff, Lacks}
use a_simple_game_server.Warzone.Hash.{hash_password, hash_password-Lacks}
use a_simple_game_server.Warzone.Files.{lines}
use a_simple_game_server.Warzone.Database.{
  UserRecord, Database, registered, logged_in, wrong_password, unknown_user, new_user, load_users,
  save_users, save_stats, find_user, is_separator, is_skipped, register_user, login, parse_users,
  print_users, user_line,
}
use a_simple_game_server.Warzone.Database.UserFile.{
  IsField, Starts, IsUserRecord, load_users-save_users, parse_users-print, print_users-append,
  header_skipped, comment_skipped, user_line-Lacks,
}

-- What `RegisterUser` asks of a name and a password.
pub record IsAccepted (username password : Bytes) : Type 0 where
  pub some_bytes : 1 ≤ length username
  pub short : length username ≤ 30
  pub long_password : 4 ≤ length password
  pub no_separator : any is_separator username ≡ false

hash_password-IsField : (u p : Bytes) → IsField (hash_password u p)
hash_password-IsField u p = record {
  no_bar = hash_password-Lacks b'|' u p (λ h. omega (arith, h.1));
  no_break = hash_password-Lacks b'\n' u p (λ h. omega (arith, h.0));
  no_return = hash_password-Lacks b'\r' u p (λ h. omega (arith, h.0));
}

find_user-append :
    (name : Bytes) (us : List UserRecord) (u : UserRecord)
    → find_user name us ≡ none
    → find_user name (us ++ u ∷ []) ≡ (if u.username == name then some u else none)
unfolding find_user
find_user-append name [] u h = refl
find_user-append name (v ∷ us) u h = ground (arith, find_user-append name us u)

find_user-append_other :
    (name : Bytes) (us : List UserRecord) (u : UserRecord)
    → (u.username == name) ≡ false
    → find_user name (us ++ u ∷ []) ≡ find_user name us
unfolding find_user
find_user-append_other name [] u h = rw h refl
find_user-append_other name (v ∷ us) u h = ground (arith, find_user-append_other name us u h)

-- The users that are loaded after a successful registration, whatever the name.
registered_file :
    (now : Bytes) (db : Database) (u p : Bytes)
    → IsAccepted u p
    → find_user u (load_users db) ≡ none
    → ((register_user now true db u p).1 ≡ (true, registered))
      × ((register_user now true db u p).0.users_file
          ≡ (save_users true db (load_users db ++ new_user now u p ∷ [])).users_file)
unfolding register_user save_users save_stats
registered_file now db u p ok new =
    let a : (length u == 0 || ltb 30 (length u)) ≡ false =
      ground (arith, ok.some_bytes, ok.short) in
    let b : ltb (length p) 4 ≡ false = ground (arith, ok.long_password) in
    rw (a, b, ok.no_separator, new, register_user) (refl, refl)

load_users-file :
    (db db' : Database) → db.users_file ≡ db'.users_file → load_users db ≡ load_users db'
unfolding load_users
load_users-file db db' e = rw e refl

accepted-IsField : (u p : Bytes) → IsAccepted u p → Lacks b'\r' u → IsField u
accepted-IsField u p ok clean = record {
  no_bar =
      All-map (λ c. is_separator c ≡ false) (λ c. c ≢ b'|') u (λ c h e. ground arith)
        (any-false is_separator u ok.no_separator);
  no_break =
      All-map (λ c. is_separator c ≡ false) (λ c. c ≢ b'\n') u (λ c h e. ground arith)
        (any-false is_separator u ok.no_separator);
  no_return = clean;
}

new_user-IsUserRecord :
    (now u p : Bytes)
    → IsAccepted u p
    → Lacks b'\r' u
    → IsField now
    → Starts u
    → IsUserRecord (new_user now u p)
new_user-IsUserRecord now u p ok clean time starts = record {
  name = accepted-IsField u p ok clean;
  starts = starts;
  hash = hash_password-IsField u p;
  time = time;
}

login_found :
    (db : Database) (u p : Bytes) (r : UserRecord)
    → find_user u (load_users db) ≡ some r
    → login db u p ≡ (
        if r.password_hash == hash_password u p then (true, logged_in) else (false, wrong_password))
unfolding login
login_found db u p r at = rw (at, login) refl

-- A registration with an accepted name and password of a name that is not taken succeeds, and after it
-- exactly the passwords with the same hash log in; the answer to anybody else is as before. It holds if the
-- files can be written, the accounts in the file are good records, and the name neither starts like a
-- comment nor holds a carriage return.
pub register_user_lem :
    (now : Bytes) (db : Database) (u p attempt other guess : Bytes)
    → IsAccepted u p
    → Lacks b'\r' u
    → Starts u
    → IsField now
    → All IsUserRecord (load_users db)
    → find_user u (load_users db) ≡ none
    → u ≢ other
    → (let db' = (register_user now true db u p).0 in
        ((register_user now true db u p).1 ≡ (true, registered))
        × (login db' u attempt ≡ (
            if hash_password u p == hash_password u attempt
            then (true, logged_in)
            else (false, wrong_password)))
        × (login db' other guess ≡ login db other guess))
unfolding login
register_user_lem now db u p attempt other guess ok clean starts time good new diff =
    let (done, file) = registered_file now db u p ok new in
    let us = load_users db in
    let r = new_user now u p in
    let one : IsUserRecord r = new_user-IsUserRecord now u p ok clean time starts in
    let all = All-append IsUserRecord us (r ∷ []) good (one, tt) in
    let db' = (register_user now true db u p).0 in
    let loaded : load_users db' ≡ us ++ r ∷ [] =
      load_users-file db' (save_users true db (us ++ r ∷ [])) file
      ∙ load_users-save_users db (us ++ r ∷ []) all in
    let self : (u == u) ≡ true = (same_bytes_iff u u).1 refl in
    let apart : (u == other) ≡ false = elim (Bool-cases (u == other)) [
      | inl same ↦ absurd (diff ((same_bytes_iff u other).0 same))
      | inr ne ↦ ne
    ] in
    let mine : find_user u (load_users db') ≡ some r =
      rw loaded (find_user-append u us r new ∙ rw self refl) in
    let theirs : find_user other (load_users db') ≡ find_user other us =
      rw loaded (find_user-append_other other us r apart) in
    (done, login_found db' u attempt r mine, rw (theirs, login) refl)

-- The bug: a registration with a name that starts with a hash sign is answered with success, but the
-- account is read as a comment: nobody can log in to it, and the accounts are those of before. It holds if
-- the name has at most 30 bytes, without bar, line feed or carriage return, and is not that of an account;
-- the password has at least 4 bytes; the time is a text without bar, line feed or carriage return; the
-- files can be written; and the accounts before are good records.
pub register_comment :
    (now : Bytes) (db : Database) (rest p attempt : Bytes)
    → IsAccepted (b'#' ∷ rest) p
    → Lacks b'\r' rest
    → IsField now
    → All IsUserRecord (load_users db)
    → find_user (b'#' ∷ rest) (load_users db) ≡ none
    → (let db' = (register_user now true db (b'#' ∷ rest) p).0 in
        ((register_user now true db (b'#' ∷ rest) p).1 ≡ (true, registered))
        × (load_users db' ≡ load_users db)
        × (login db' (b'#' ∷ rest) attempt ≡ (false, unknown_user)))
unfolding login
register_comment now db rest p attempt ok clean time good new =
    let u = b'#' ∷ rest in
    let (done, file) = registered_file now db u p ok new in
    let us = load_users db in
    let r = new_user now u p in
    let db' = (register_user now true db u p).0 in
    let name = accepted-IsField u p ok ((λ e. ground (arith)), clean) in
    let hash = hash_password-IsField u p in
    let none_left : parse_users (lines []) ≡ [] = unfold lines parse_users in refl in
    let hidden : parse_users (lines (print_users (r ∷ []))) ≡ [] =
      unfold print_users in
      (comment_skipped (user_line r) [] (unfold is_skipped in refl)
          (user_line-Lacks b'\n' r (λ e. ground (arith)) name.no_break hash.no_break time.no_break)
          (user_line-Lacks b'\r' r (λ e. ground (arith)) name.no_return hash.no_return
            time.no_return)
        ∙ none_left) in
    let read : parse_users (lines (print_users us ++ print_users (r ∷ []))) ≡ us =
      parse_users-print us (print_users (r ∷ [])) good ∙ rw hidden (append-nil us) in
    let loaded : load_users db' ≡ us =
      load_users-file db' (save_users true db (us ++ r ∷ [])) file
      ∙ unfold load_users save_users in
        (header_skipped (print_users (us ++ r ∷ [])) ∙ rw (print_users-append us (r ∷ [])) read) in
    (done, loaded, rw (loaded, new, login) refl)
