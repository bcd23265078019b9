-- ===== src/Warzone/Bytes.antt =====
-- Texts of warzone_go as lists of bytes, with protocol.go's `BytesToString`, `StringToFixedBytes` and
-- `NameStr`.
use Prim.Native.Char.{code}
use a_simple_game_server.Prelude.{
  ℕ, zero, suc, String, Bool, true, false, ◌&&◌, List, [], ◌∷◌, ◌≡◌, ◌≢◌, ◌≤◌, refl, ap, arith, ◌↔◌,
  Equality, ◌==◌, nat_eq, eqb, if◌then◌else◌, length, All,
}

abbrev pub Bytes : Type 0
Bytes = List ℕ

-- The bytes of an ASCII literal.
abbrev pub codes : String → Bytes
codes String.[] = []
codes (String.◌∷◌ c s) = code c ∷ codes s

abbrev pub same_bytes : Bytes → Bytes → Bool
same_bytes [] [] = true
same_bytes [] (d ∷ t) = false
same_bytes (c ∷ s) [] = false
same_bytes (c ∷ s) (d ∷ t) = eqb c d && same_bytes s t

pub same_bytes_iff : (s t : Bytes) → (same_bytes s t ≡ true) ↔ (s ≡ t)
same_bytes_iff [] [] = ground arith
same_bytes_iff [] (d ∷ t) = ground arith
same_bytes_iff (c ∷ s) [] = ground arith
same_bytes_iff (c ∷ s) (d ∷ t) = ground (arith, same_bytes_iff s t)

instance abbrev pub bytes_eq : Equality Bytes
bytes_eq = record { same = same_bytes; agrees = same_bytes_iff }

-- The text is free of the byte.
abbrev pub Lacks : ℕ → Bytes → Type 0
Lacks b = All (λ c. c ≢ b)

-- `StringToFixedBytes` into an array of the size: cut off or filled with zeros.
unfoldable pub fixed : ℕ → Bytes → Bytes
fixed zero s = []
fixed (suc n) [] = 0 ∷ fixed n []
fixed (suc n) (c ∷ s) = c ∷ fixed n s

-- `BytesToString`: up to the first zero.
unfoldable pub bytes_to_string : Bytes → Bytes
bytes_to_string [] = []
bytes_to_string (c ∷ s) = if c == 0 then [] else c ∷ bytes_to_string s

abbrev is_empty : Bytes → Bool
is_empty [] = true
is_empty (c ∷ s) = false

-- `NameStr`: the zeros at the end are dropped.
unfoldable pub name_str : Bytes → Bytes
name_str [] = []
name_str (c ∷ s) = let rest = name_str s in if c == 0 && is_empty rest then [] else c ∷ rest

pub length-fixed : (n : ℕ) (s : Bytes) → length (fixed n s) ≡ n
unfolding fixed
length-fixed zero s = refl
length-fixed (suc n) [] = ap suc (length-fixed n [])
length-fixed (suc n) (c ∷ s) = ap suc (length-fixed n s)

bytes_to_string-zeros : (n : ℕ) → bytes_to_string (fixed n []) ≡ []
unfolding fixed bytes_to_string
bytes_to_string-zeros zero = refl
bytes_to_string-zeros (suc n) = refl

-- A text without zeros that fits in the array is read back as it was written.
pub bytes_to_string-fixed :
    (n : ℕ) (s : Bytes) → length s ≤ n → Lacks 0 s → bytes_to_string (fixed n s) ≡ s
unfolding fixed bytes_to_string
bytes_to_string-fixed n [] fits clean = bytes_to_string-zeros n
bytes_to_string-fixed zero (c ∷ s) fits clean = absurd (omega arith)
bytes_to_string-fixed (suc n) (c ∷ s) fits (hc, hs) =
    ground (arith, bytes_to_string-fixed n s (omega arith) hs)
