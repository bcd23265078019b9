-- ===== src/Prelude/Int.antt =====
-- Signed integers over the native numbers. Sums, differences and orders go through the two parts
-- of an integer, which are numbers that `omega` reads.
use Prim.Native.Nat.{ℕ, suc, ◌+◌, ◌-◌, ◌*◌, ◌<◌}
use mathlib.Core.Path.{◌≡◌}
use mathlib.Core.Logic.{◌↔◌}
use mathlib.Core.Bool.{Bool, true, ◌&&◌}
use native.Mathlib.Omega.{arith}
use a_simple_game_server.Prelude.Tests.{ltb, leb, eqb, if◌then◌else◌, Equality}

-- `negsuc n` is -(n + 1).
pub data ℤ : Type 0 where
  pos : ℕ → ℤ
  negsuc : ℕ → ℤ

abbrev pub pos_part : ℤ → ℕ
pos_part (pos n) = n
pos_part (negsuc n) = 0

abbrev pub neg_part : ℤ → ℕ
neg_part (pos n) = 0
neg_part (negsuc n) = suc n

abbrev pub sub_ℕ : ℕ → ℕ → ℤ
sub_ℕ a b = if leb b a then pos (a - b) else negsuc (b - a - 1)

infixl 65 ◌+ℤ◌ ◌-ℤ◌
infixl 70 ◌*ℤ◌
unfoldable pub ◌+ℤ◌ : ℤ → ℤ → ℤ
a +ℤ b = sub_ℕ (pos_part a + pos_part b) (neg_part a + neg_part b)

unfoldable pub ◌-ℤ◌ : ℤ → ℤ → ℤ
a -ℤ b = sub_ℕ (pos_part a + neg_part b) (neg_part a + pos_part b)

unfoldable pub ◌*ℤ◌ : ℤ → ℤ → ℤ
a *ℤ b =
    sub_ℕ (pos_part a * pos_part b + neg_part a * neg_part b)
      (pos_part a * neg_part b + neg_part a * pos_part b)

abbrev pub ltb_ℤ : ℤ → ℤ → Bool
ltb_ℤ a b = ltb (pos_part a + neg_part b) (pos_part b + neg_part a)

abbrev pub leb_ℤ : ℤ → ℤ → Bool
leb_ℤ a b = leb (pos_part a + neg_part b) (pos_part b + neg_part a)

abbrev pub eqb_ℤ : ℤ → ℤ → Bool
eqb_ℤ a b = eqb (pos_part a) (pos_part b) && eqb (neg_part a) (neg_part b)

pub eqb_ℤ_iff : (a b : ℤ) → (eqb_ℤ a b ≡ true) ↔ (a ≡ b)
eqb_ℤ_iff a b = ground arith

instance abbrev pub int_eq : Equality ℤ
int_eq = record { same = eqb_ℤ; agrees = eqb_ℤ_iff }

-- |a|.
abbrev pub abs : ℤ → ℕ
abs a = pos_part a + neg_part a

pub abs-sub_comm : (a b : ℤ) → abs (a -ℤ b) ≡ abs (b -ℤ a)
unfolding ◌-ℤ◌
abs-sub_comm a b = ground arith

-- A coordinate from zero up to, not including, `n`.
abbrev pub Within : ℕ → ℤ → Type 0
Within n (pos m) = m < n
Within n (negsuc m) = ⊥

-- A step towards zero that the test for zero guards, and a step away from it that the bound guards.
pub Within-less : (n : ℕ) (z : ℤ) → Within n z → ltb_ℤ (pos 0) z ≡ true → Within n (z -ℤ pos 1)
unfolding ◌-ℤ◌
Within-less n (pos m) h e = ground arith
Within-less n (negsuc m) h e = absurd h

pub Within-more :
    (n : ℕ) (z : ℤ) → Within n z → ltb_ℤ z (pos (n - 1)) ≡ true → Within n (z +ℤ pos 1)
unfolding ◌+ℤ◌
Within-more n (pos m) h e = ground arith
Within-more n (negsuc m) h e = absurd h
