-- ===== src/Warzone/Wire.antt =====
-- warzone_go, protocol.go and the client's client.go: packets as the client sends them, and how the server
-- reads them.
use a_simple_game_server.Prelude.{
  ℕ, zero, suc, ◌+◌, ◌*◌, ◌/◌, ◌%◌, ◌≤◌, ◌<◌, Bool, true, false, [], ◌∷◌, ◌++◌, some, ◌≡◌, refl, ap,
  arith, ◌==◌, nat_eq, if◌then◌else◌, length, length-append, drop,
}
use a_simple_game_server.Warzone.Bytes.{Bytes, fixed, Lacks, length-fixed, bytes_to_string-fixed}
use a_simple_game_server.Warzone.Database.{register_user, login, take}
use a_simple_game_server.Warzone.State.{Server, Env}
use a_simple_game_server.Warzone.Arena.{apply_action}
use a_simple_game_server.Warzone.Broadcast.{broadcast_state}
use a_simple_game_server.Warzone.Packets.{
  playing, read_full, recv_header, recv_payload, pkt_register, pkt_login, pkt_action, to_all, stay,
}
use a_simple_game_server.Warzone.Conn.{answered, authenticate, auth_step, handle_action, game_step}

-- `SendPacket`: the type, the length as sixteen bits, the low byte first, and the payload.
unfoldable pub send_packet : ℕ → Bytes → Bytes
send_packet kind body = let n = length body % 65536 in kind ∷ n % 256 ∷ n / 256 ∷ body

-- The `AuthPayload` of `loginUI`.
unfoldable pub auth_payload : Bytes → Bytes → Bytes
auth_payload user pass = fixed 32 user ++ fixed 64 pass

-- `sendAction`.
unfoldable pub send_action : ℕ → Bytes
unfolding send_packet
send_action a = send_packet pkt_action (a ∷ [])

-- The packet of `loginUI`.
unfoldable pub send_login : Bool → Bytes → Bytes → Bytes
unfolding send_packet auth_payload
send_login is_reg user pass =
    send_packet (if is_reg then pkt_register else pkt_login) (auth_payload user pass)

-- A packet shorter than 64 KiB: its header is read back.
pub recv_header-send_packet :
    (kind : ℕ) (body s : Bytes)
    → length body < 65536
    → recv_header (send_packet kind body ++ s) ≡ some (kind, length body, body ++ s)
unfolding recv_header send_packet
recv_header-send_packet kind body s fits =
    let whole : length body % 65536 % 256 + 256 * (length body % 65536 / 256) ≡ length body =
      omega arith in
    rw whole refl

read_full-append : (n : ℕ) (p s : Bytes) → length p ≡ n → read_full n (p ++ s) ≡ some (p, s)
unfolding read_full
read_full-append zero [] s e = refl
read_full-append zero (c ∷ p) s e = absurd (omega arith)
read_full-append (suc n) [] s e = absurd (omega arith)
read_full-append (suc n) (c ∷ p) s e = rw (read_full-append n p s (omega arith)) refl

take-append : (n : ℕ) (p s : Bytes) → length p ≡ n → take n (p ++ s) ≡ p
unfolding take
take-append zero [] s e = refl
take-append zero (c ∷ p) s e = absurd (omega arith)
take-append (suc n) [] s e = absurd (omega arith)
take-append (suc n) (c ∷ p) s e = ap (c ∷◌) (take-append n p s (omega arith))

drop-append : (n : ℕ) (p s : Bytes) → length p ≡ n → drop n (p ++ s) ≡ s
drop-append zero [] s e = refl
drop-append zero (c ∷ p) s e = absurd (omega arith)
drop-append (suc n) [] s e = absurd (omega arith)
drop-append (suc n) (c ∷ p) s e = drop-append n p s (omega arith)

-- A payload of the expected size is read, and nothing after it.
recv_payload-append : (n : ℕ) (p s : Bytes) → length p ≡ n → recv_payload n n (p ++ s) ≡ some (p, s)
unfolding recv_payload
recv_payload-append n p s e = ground (arith, read_full-append n p s e)

module _ (user pass : Bytes) where
  length-auth_payload : length (auth_payload user pass) ≡ 96
  unfolding auth_payload
  length-auth_payload = omega (
    arith,
    length-append (fixed 32 user) (fixed 64 pass),
    length-fixed 32 user,
    length-fixed 64 pass,
  )

  take-auth_payload : take 32 (auth_payload user pass) ≡ fixed 32 user
  unfolding auth_payload
  take-auth_payload = take-append 32 (fixed 32 user) (fixed 64 pass) (length-fixed 32 user)

  drop-auth_payload : drop 32 (auth_payload user pass) ≡ fixed 64 pass
  unfolding auth_payload
  drop-auth_payload = drop-append 32 (fixed 32 user) (fixed 64 pass) (length-fixed 32 user)

  recv_payload-auth_payload :
      (s : Bytes)
      → recv_payload 96 96 (auth_payload user pass ++ s) ≡ some (auth_payload user pass, s)
  recv_payload-auth_payload s =
      recv_payload-append 96 (auth_payload user pass) s length-auth_payload

recv_header-send_login :
    (is_reg : Bool) (user pass s : Bytes)
    → recv_header (send_login is_reg user pass ++ s)
      ≡ some (if is_reg then pkt_register else pkt_login, 96, auth_payload user pass ++ s)
unfolding send_login
recv_header-send_login is_reg user pass s = rw (← length-auth_payload user pass) (
    recv_header-send_packet _ (auth_payload user pass) s
      (omega (arith, length-auth_payload user pass)))

module _ (env : Env) (srv : Server) (cid attempt : ℕ) (user pass s : Bytes) (lu : length user ≤ 32)
    (lp : length pass ≤ 64) (cu : Lacks 0 user) (cp : Lacks 0 pass) where
  abbrev Handled : ℕ → Type 0
  Handled kind = authenticate env srv cid attempt kind 96 (auth_payload user pass ++ s) ≡ (
      if kind == pkt_register
      then (let (db, r) = register_user env.now env.writes srv.db user pass in
          answered env (record srv { db = db }) cid attempt user s r)
      else answered env srv cid attempt user s (login srv.db user pass))

  authenticate-auth_payload : (kind : ℕ) → Handled kind
  unfolding authenticate
  authenticate-auth_payload kind =
      rw
        (
          authenticate,
          recv_payload-auth_payload user pass s,
          take-auth_payload user pass,
          drop-auth_payload user pass,
          bytes_to_string-fixed 32 user lu cu,
          bytes_to_string-fixed 64 pass lp cp,
        )
        refl

-- In the first phase, the packet that the client sends for a name of at most 32 bytes and a password of at
-- most 64, both without zero bytes, makes the server register, or log in, with exactly this name and this
-- password, and leaves what follows the packet unread.
pub auth_step-send_login :
    (env : Env) (srv : Server) (cid attempt : ℕ) (is_reg : Bool) (user pass s : Bytes)
    → length user ≤ 32
    → length pass ≤ 64
    → Lacks 0 user
    → Lacks 0 pass
    → auth_step env srv cid attempt (send_login is_reg user pass ++ s) ≡ (
        if is_reg
        then (let (db, r) = register_user env.now env.writes srv.db user pass in
            answered env (record srv { db = db }) cid attempt user s r)
        else answered env srv cid attempt user s (login srv.db user pass))
unfolding auth_step
auth_step-send_login env srv cid attempt true user pass s lu lp cu cp =
    rw (auth_step, recv_header-send_login true user pass s)
      (authenticate-auth_payload env srv cid attempt user pass s lu lp cu cp pkt_register)
auth_step-send_login env srv cid attempt false user pass s lu lp cu cp =
    rw (auth_step, recv_header-send_login false user pass s)
      (authenticate-auth_payload env srv cid attempt user pass s lu lp cu cp pkt_login)

-- In the game, the packet that the client sends for an action makes the server apply this action and tell
-- all players of the new state, and leaves what follows the packet unread.
pub game_step-send_action :
    (env : Env) (srv : Server) (cid action : ℕ) (s : Bytes)
    → game_step env srv cid (send_action action ++ s)
      ≡ stay
          (apply_action env srv cid action)
          playing
          s
          (to_all (broadcast_state (apply_action env srv cid action)))
unfolding game_step handle_action send_action recv_payload read_full send_packet recv_header
game_step-send_action env srv cid action s = refl
