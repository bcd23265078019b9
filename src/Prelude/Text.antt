-- ===== src/Prelude/Text.antt =====
-- Texts: their order, decimal numerals, and the passage to lists of characters.
use Prim.Native.Char.{Char}
use Prim.Native.Nat.{ℕ, zero, suc, ◌/◌, ◌%◌}
use Prim.Native.String.{String, compare, ◌++◌}
use mathlib.Core.Path.{◌≡◌, refl, ap}
use mathlib.Core.Bool.{Bool}
use mathlib.Core.List.{List, [], ◌∷◌}
use text.Mathlib.Text.{is_lt}
use a_simple_game_server.Prelude.Tests.{ltb, if◌then◌else◌}

-- Go's `<` on strings.
abbrev pub str_lt : String → String → Bool
str_lt s t = is_lt (compare s t)

-- `[]rune(s)`.
unfoldable pub runes : String → List Char
runes String.[] = []
runes (String.◌∷◌ c s) = c ∷ runes s

-- `string(rs)`.
unfoldable pub from_runes : List Char → String
from_runes [] = String.[]
from_runes (c ∷ cs) = String.◌∷◌ c (from_runes cs)

pub from_runes-runes : (s : String) → from_runes (runes s) ≡ s
unfolding runes from_runes
from_runes-runes String.[] = refl
from_runes-runes (String.◌∷◌ c s) = ap (String.◌∷◌ c) (from_runes-runes s)

pub runes-from_runes : (cs : List Char) → runes (from_runes cs) ≡ cs
unfolding runes from_runes
runes-from_runes [] = refl
runes-from_runes (c ∷ cs) = ap (◌∷◌ c) (runes-from_runes cs)

digit : ℕ → String
digit zero = "0"
digit (suc zero) = "1"
digit (suc (suc zero)) = "2"
digit (suc (suc (suc zero))) = "3"
digit (suc (suc (suc (suc zero)))) = "4"
digit (suc (suc (suc (suc (suc zero))))) = "5"
digit (suc (suc (suc (suc (suc (suc zero)))))) = "6"
digit (suc (suc (suc (suc (suc (suc (suc zero))))))) = "7"
digit (suc (suc (suc (suc (suc (suc (suc (suc zero)))))))) = "8"
digit _ = "9"

decimal_fuel : ℕ → ℕ → String → String
decimal_fuel zero n acc = acc
decimal_fuel (suc f) n acc =
    let acc' = digit (n % 10) ++ acc in
    let rest = decimal_fuel f (n / 10) acc' in if ltb n 10 then acc' else rest

-- `%d` of a number that is not negative. A number has at most `n + 1` digits.
unfoldable pub decimal : ℕ → String
unfolding digit decimal_fuel
decimal n = decimal_fuel (suc n) n ""
