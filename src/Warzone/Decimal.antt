-- ===== src/Warzone/Decimal.antt =====
-- Go's `%d` and `strconv.Atoi` on 64-bit integers, as database.go uses them: the error of `Atoi` is
-- dropped, so a text that is no number counts as zero, and one out of range as the bound.
use Prim.Native.Nat.{◌^◌}
use a_simple_game_server.Prelude.{
  ℕ, zero, suc, ◌+◌, ◌-◌, ◌*◌, ◌/◌, ◌%◌, ◌≤◌, ◌<◌, ℤ, pos, negsuc, ◌||◌, [], ◌∷◌, Option, none,
  some, ◌≡◌, ◌≢◌, refl, sym, ◌∙◌, inl, inr, Bool-cases, arith, ltb, ◌==◌, nat_eq, if◌then◌else◌,
  All,
}
use a_simple_game_server.Warzone.Bytes.{Bytes, Lacks}

-- The last digit is put first; a number below `fuel` has fewer digits than that.
emit : ℕ → ℕ → Bytes → Bytes
emit zero n out = out
emit (suc f) n out =
    let rest = emit f (n / 10) ((b'0' + n % 10) ∷ out) in
    if ltb n 10 then (b'0' + n) ∷ out else rest

unfoldable pub format : ℕ → Bytes
unfolding emit
format n = emit (suc n) n []

unfoldable pub format_int : ℤ → Bytes
unfolding format
format_int (pos n) = format n
format_int (negsuc n) = b'-' ∷ format (n + 1)

-- The number that digits spell behind `n`; `none` at anything but a digit.
scan : Bytes → ℕ → Option ℕ
scan [] n = some n
scan (c ∷ s) n = if ltb c b'0' || ltb b'9' c then none else scan s (n * 10 + (c - b'0'))

abbrev pub max_int : ℕ
max_int = 2 ^ 63 - 1

-- A magnitude as an integer, kept within 64 bits.
unfoldable pub signed_int : Option ℕ → ℤ
signed_int none = pos 0
signed_int (some n) = if ltb max_int n then pos max_int else pos n

unfoldable pub negated_int : Option ℕ → ℤ
negated_int none = pos 0
negated_int (some zero) = pos 0
negated_int (some (suc n)) = if ltb max_int n then negsuc max_int else negsuc n

unfoldable pub scan_some : Bytes → Option ℕ
unfolding scan
scan_some [] = none
scan_some (c ∷ s) = scan (c ∷ s) 0

unfoldable pub atoi : Bytes → ℤ
unfolding scan_some signed_int negated_int
atoi [] = pos 0
atoi (c ∷ s) =
    if c == b'-'
    then negated_int (scan_some s)
    else if c == b'+'
    then signed_int (scan_some s)
    else signed_int (scan_some (c ∷ s))

-- The 64-bit integers.
abbrev pub IsInt : ℤ → Type 0
IsInt (pos n) = n ≤ max_int
IsInt (negsuc n) = n ≤ max_int

scan-emit : (f n : ℕ) (out : Bytes) → n < f → scan (emit f n out) 0 ≡ scan out n
unfolding emit scan
scan-emit zero n out h = absurd (omega arith)
scan-emit (suc f) n out h = ground (arith, scan-emit f (n / 10) ((b'0' + n % 10) ∷ out))

abbrev IsDigit : ℕ → Type 0
IsDigit c = (b'0' ≤ c) × (c ≤ b'9')

-- Digits, one at least.
record IsNumeral (s : Bytes) : Type 0 where
  first : ℕ
  rest : Bytes
  split : s ≡ first ∷ rest
  first_digit : IsDigit first
  digits : All IsDigit rest

emit-IsNumeral : (f n : ℕ) (out : Bytes) → n < f → All IsDigit out → IsNumeral (emit f n out)
unfolding emit
emit-IsNumeral zero n out h d = absurd (omega arith)
emit-IsNumeral (suc f) n out h d = elim (Bool-cases (ltb n 10)) [
  | inl small ↦ rw small (record {
    first = b'0' + n;
    rest = out;
    split = refl;
    first_digit = ground arith;
    digits = d;
  })
  | inr large ↦
      rw large (emit-IsNumeral f (n / 10) ((b'0' + n % 10) ∷ out) (ground arith) (ground arith, d))
]

format-IsNumeral : (n : ℕ) → IsNumeral (format n)
unfolding format
format-IsNumeral n = emit-IsNumeral (suc n) n [] (omega arith) tt

scan_some-format : (n : ℕ) → scan_some (format n) ≡ some n
unfolding scan_some
scan_some-format n =
    let num = format-IsNumeral n in
    let e : scan_some (format n) ≡ scan (format n) 0 = rw num.split refl in
    e ∙ unfold format in scan-emit (suc n) n [] (omega arith)

-- Every 64-bit integer is read back from its decimal print.
pub atoi-format_int : (z : ℤ) → IsInt z → atoi (format_int z) ≡ z
unfolding atoi format_int
atoi-format_int (negsuc n) h = let e = scan_some-format (n + 1) in ground arith
atoi-format_int (pos n) h =
    let num = format-IsNumeral n in
    let e : scan_some (num.first ∷ num.rest) ≡ some n = rw num.split at (scan_some-format n) in
    let d = num.first_digit in rw num.split (ground arith)

All-Lacks : (b : ℕ) (s : Bytes) → (IsDigit b → ⊥) → All IsDigit s → Lacks b s
All-Lacks b [] out d = tt
All-Lacks b (c ∷ s) out (h, d) = ((λ e. out (rw (← e) h)), All-Lacks b s out d)

-- A decimal print has no byte but digits and a sign.
pub format_int-Lacks : (b : ℕ) (z : ℤ) → (IsDigit b → ⊥) → b ≢ b'-' → Lacks b (format_int z)
unfolding format_int
format_int-Lacks b (pos n) out sign =
    let num = format-IsNumeral n in
    rw num.split ((λ e. out (rw (← e) num.first_digit)), All-Lacks b num.rest out num.digits)
format_int-Lacks b (negsuc n) out sign =
    let num = format-IsNumeral (n + 1) in
    (
      (λ e. sign (sym e)),
      rw num.split ((λ e. out (rw (← e) num.first_digit)), All-Lacks b num.rest out num.digits),
    )
