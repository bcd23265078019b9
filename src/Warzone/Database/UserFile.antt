-- ===== src/Warzone/Database/UserFile.antt =====
-- The file of accounts: what is saved is loaded again.
use a_simple_game_server.Prelude.{
  ℕ, true, false, List, [], ◌∷◌, ◌++◌, ◌≡◌, ◌≢◌, refl, ◌∙◌, arith, nat_eq, All, All-append,
}
use mathlib.Core.List.{append_assoc, append-nil}
use a_simple_game_server.Warzone.Bytes.{Bytes, Lacks}
use a_simple_game_server.Warzone.Files.{lines, split_n, lines-line, split_n-part, split_n-last}
use a_simple_game_server.Warzone.Database.{
  UserRecord, Database, is_skipped, user_of_parts, parse_users, load_users, user_line, print_users,
  users_header, save_users,
}

-- A text that stands between bars: no bar, and no byte that ends a line.
pub record IsField (s : Bytes) : Type 0 where
  pub no_bar : Lacks b'|' s
  pub no_break : Lacks b'\n' s
  pub no_return : Lacks b'\r' s

-- A text that does not start a comment.
abbrev pub Starts : Bytes → Type 0
Starts s = is_skipped (s ++ b'|' ∷ []) ≡ false

-- A record that survives in the file.
pub record IsUserRecord (u : UserRecord) : Type 0 where
  pub name : IsField u.username
  pub starts : Starts u.username
  pub hash : IsField u.password_hash
  pub time : IsField u.created_at

pub Lacks-join : (b : ℕ) (p q : Bytes) → b'|' ≢ b → Lacks b p → Lacks b q → Lacks b (p ++ b'|' ∷ q)
Lacks-join b p q h hp hq = All-append (λ c. c ≢ b) p (b'|' ∷ q) hp (h, hq)

pub is_skipped-start : (p q : Bytes) → Starts p → is_skipped (p ++ b'|' ∷ q) ≡ false
unfolding is_skipped
is_skipped-start [] q h = h
is_skipped-start (c ∷ p) q h = h

split_user :
    (u : UserRecord)
    → IsUserRecord u
    → split_n 2 (user_line u) ≡ u.username ∷ u.password_hash ∷ u.created_at ∷ []
split_user u h =
    rw
      (
        split_n-part 1 u.username (u.password_hash ++ b'|' ∷ u.created_at) h.name.no_bar,
        split_n-part 0 u.password_hash u.created_at h.hash.no_bar,
        split_n-last u.created_at,
      )
      refl

pub user_line-Lacks :
    (b : ℕ) (u : UserRecord)
    → b'|' ≢ b
    → Lacks b u.username
    → Lacks b u.password_hash
    → Lacks b u.created_at
    → Lacks b (user_line u)
user_line-Lacks b u ne n h t =
    Lacks-join b u.username (u.password_hash ++ b'|' ∷ u.created_at) ne n
      (Lacks-join b u.password_hash u.created_at ne h t)

pub print_users-append :
    (us vs : List UserRecord) → print_users (us ++ vs) ≡ print_users us ++ print_users vs
unfolding print_users
print_users-append [] vs = refl
print_users-append (u ∷ us) vs =
    rw
      (
        print_users-append us vs,
        append_assoc (user_line u) (b'\n' ∷ print_users us) (print_users vs),
      )
      refl

-- What stands behind good records in the file is read behind them.
pub parse_users-print :
    (us : List UserRecord) (rest : Bytes)
    → All IsUserRecord us
    → parse_users (lines (print_users us ++ rest)) ≡ us ++ parse_users (lines rest)
unfolding print_users parse_users
parse_users-print [] rest h = refl
parse_users-print (u ∷ us) rest (h, hs) =
    let line =
      lines-line (user_line u) (print_users us ++ rest)
        (user_line-Lacks b'\n' u (λ e. ground (arith)) h.name.no_break h.hash.no_break
          h.time.no_break)
        (user_line-Lacks b'\r' u (λ e. ground (arith)) h.name.no_return h.hash.no_return
          h.time.no_return) in
    let shown = is_skipped-start u.username (u.password_hash ++ b'|' ∷ u.created_at) h.starts in
    rw
      (
        append_assoc (user_line u) (b'\n' ∷ print_users us) rest,
        line,
        shown,
        split_user u h,
        parse_users-print us rest hs,
      )
      (unfold user_of_parts in refl)

-- A comment line is passed over.
pub comment_skipped :
    (p rest : Bytes)
    → is_skipped p ≡ true
    → Lacks b'\n' p
    → Lacks b'\r' p
    → parse_users (lines (p ++ b'\n' ∷ rest)) ≡ parse_users (lines rest)
unfolding parse_users
comment_skipped p rest skip h k = rw (lines-line p rest h k, skip) refl

pub header_skipped :
    (s : Bytes) → parse_users (lines (users_header ++ b'\n' ∷ s)) ≡ parse_users (lines s)
unfolding is_skipped
header_skipped s = comment_skipped users_header s refl (ground arith) (ground arith)

-- The accounts that are written to the file are the accounts that are read from it, in their order, if no
-- name starts like a comment and no field holds a bar or the end of a line.
pub load_users-save_users :
    (db : Database) (us : List UserRecord)
    → All IsUserRecord us
    → load_users (save_users true db us) ≡ us
unfolding load_users save_users
load_users-save_users db us h =
    let read = parse_users-print us [] h in
    header_skipped (print_users us)
    ∙ rw (append-nil (print_users us)) at read
    ∙ unfold lines in append-nil us
