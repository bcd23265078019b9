-- ===== src/Warzone/Hash.antt =====
-- warzone_go, database.go: `fnv1a64` and `hashPassword`, over bytes.
use Prim.Native.Nat.{◌^◌, bit_xor}
use a_simple_game_server.Prelude.{
  ℕ, zero, suc, ◌+◌, ◌-◌, ◌*◌, ◌/◌, ◌%◌, ◌≤◌, [], ◌∷◌, ◌++◌, arith, ltb, if◌then◌else◌, All,
}
use a_simple_game_server.Warzone.Bytes.{Bytes, codes, Lacks}

abbrev pub pepper : Bytes
pepper = codes "warzone2024!"

-- `h ^= c; h *= prime` in 64 bits, from left to right.
unfoldable pub fnv1a64_from : ℕ → Bytes → ℕ
fnv1a64_from h [] = h
fnv1a64_from h (c ∷ s) = fnv1a64_from (bit_xor h c * 1_099_511_628_211 % 2 ^ 64) s

unfoldable pub fnv1a64 : Bytes → ℕ
unfolding fnv1a64_from
fnv1a64 s = fnv1a64_from 14_695_981_039_346_656_037 s

hex_digit : ℕ → ℕ
hex_digit d = if ltb d 10 then b'0' + d else b'a' + (d - 10)

-- `%0kx` of a number with at most `k` digits.
hex : ℕ → ℕ → Bytes → Bytes
unfolding hex_digit
hex zero h out = out
hex (suc k) h out = hex k (h / 16) (hex_digit (h % 16) ∷ out)

unfoldable pub hash_password : Bytes → Bytes → Bytes
unfolding fnv1a64 hex
hash_password username password =
    hex 16 (fnv1a64 (username ++ (b':' ∷ password) ++ (b':' ∷ pepper))) []

abbrev IsHex : ℕ → Type 0
IsHex c = (b'0' ≤ c) × (c ≤ b'f')

hex-IsHex : (k h : ℕ) (out : Bytes) → All IsHex out → All IsHex (hex k h out)
unfolding hex
hex-IsHex zero h out d = d
hex-IsHex (suc k) h out d =
    hex-IsHex k (h / 16) (hex_digit (h % 16) ∷ out) (unfold hex_digit in ground arith, d)

lacks : (b : ℕ) (s : Bytes) → (IsHex b → ⊥) → All IsHex s → Lacks b s
lacks b [] out d = tt
lacks b (c ∷ s) out (h, d) = ((λ e. out (rw (← e) h)), lacks b s out d)

-- A hash holds only hexadecimal digits.
pub hash_password-Lacks : (b : ℕ) (u p : Bytes) → (IsHex b → ⊥) → Lacks b (hash_password u p)
unfolding hash_password
hash_password-Lacks b u p out =
    let h = fnv1a64 (u ++ (b':' ∷ p) ++ (b':' ∷ pepper)) in
    lacks b (hex 16 h []) out (hex-IsHex 16 h [] tt)
