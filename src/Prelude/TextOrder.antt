-- ===== src/Prelude/TextOrder.antt =====
-- Go's order on strings is transitive.
use Prim.Native.Char.{Char, code}
use Prim.Native.String.{String}
use Prim.Native.String.compare
use mathlib.Core.Path.{◌≡◌}
use mathlib.Core.Bool.{true, false}
use native.Mathlib.Omega.{arith}
use text.Mathlib.TextPositions.{compare_refl}
use a_simple_game_server.Prelude.Tests.{ltb, eqb, if◌then◌else◌}
use a_simple_game_server.Prelude.Text.{str_lt}

str_lt_cons :
    (c d : Char) (s t : String)
    → str_lt (String.◌∷◌ c s) (String.◌∷◌ d t) ≡ (
        if ltb (code c) (code d) then true else if eqb (code c) (code d) then str_lt s t else false)
str_lt_cons c d s t = rw (compare.cons-cons c d s t) (ground arith)

pub str_lt_trans : (a b c : String) → str_lt a b ≡ true → str_lt b c ≡ true → str_lt a c ≡ true
str_lt_trans String.[] String.[] c h k = cc
str_lt_trans String.[] (String.◌∷◌ y t) String.[] h k = rw (compare.cons-nil y t) at k
str_lt_trans String.[] (String.◌∷◌ y t) (String.◌∷◌ z u) h k = rw (compare.nil-cons z u)
str_lt_trans (String.◌∷◌ x s) String.[] c h k =
    let bad : false ≡ true = rw (compare.cons-nil x s) at h in cc
str_lt_trans (String.◌∷◌ x s) (String.◌∷◌ y t) String.[] h k =
    let bad : false ≡ true = rw (compare.cons-nil y t) at k in cc
str_lt_trans (String.◌∷◌ x s) (String.◌∷◌ y t) (String.◌∷◌ z u) h k =
    ground
      (arith, str_lt_cons x y s t, str_lt_cons y z t u, str_lt_cons x z s u, str_lt_trans s t u)

pub str_lt_irrefl : (a : String) → str_lt a a ≡ false
str_lt_irrefl a = rw (compare_refl a)
