-- ===== src/Prelude/Picking.antt =====
-- A loop that keeps the best item so far finds a least one among those that qualify.
use mathlib.Core.Path.{◌≡◌, refl}
use mathlib.Core.Logic.{inl, inr}
use mathlib.Core.Bool.{Bool, true, false, ◌&&◌}
use mathlib.Core.List.{[], ◌∷◌}
use mathlib.Core.Option.{Option, none, some}
use Prim.Native.String.{String}
use native.Mathlib.Omega.{arith}
use a_simple_game_server.Prelude.Tests.{if◌then◌else◌, Bool-cases}
use a_simple_game_server.Prelude.Lists.{All, In}
use a_simple_game_server.Prelude.Maps.{Map}

module _ {A : Type 0} (ok : A → Bool) (less : A → A → Bool) where
  abbrev better : A → Option (String × A) → Bool
  better a none = true
  better a (some (_, b)) = less a b

  unfoldable pub pick_by : Option (String × A) → Map A → Option (String × A)
  pick_by best [] = best
  pick_by best ((key, a) ∷ m) = pick_by (if ok a && better a best then some (key, a) else best) m

  -- The answer `r` of a pick from `m`: nothing, if nothing qualifies, or an entry that qualifies and
  -- that no entry which qualifies is less than.
  pub data Least (m : Map A) (r : Option (String × A)) : Type 0 where
    no_one : r ≡ none → All (λ e. ok e.1 ≡ false) m → Least m r
    least :
        (key : String) (a : A)
        → r ≡ some (key, a)
        → In (key, a) m
        → ok a ≡ true
        → All (λ e. ok e.1 ≡ true → less e.1 a ≡ false) m
        → Least m r

  module _ (irrefl : (a : A) → less a a ≡ false)
      (trans : (a b c : A) → less a b ≡ true → less b c ≡ true → less a c ≡ true) where
    -- From a best entry `b` on, the answer is `b` itself or an entry that is less.
    data Improved (b : String × A) (m : Map A) (r : Option (String × A)) : Type 0 where
      kept : r ≡ some b → All (λ e. ok e.1 ≡ true → less e.1 b.1 ≡ false) m → Improved b m r
      replaced :
          (c : String × A)
          → r ≡ some c
          → In c m
          → ok c.1 ≡ true
          → less c.1 b.1 ≡ true
          → All (λ e. ok e.1 ≡ true → less e.1 c.1 ≡ false) m
          → Improved b m r

    head_not_less : (a b c : A) → less c b ≡ true → less a b ≡ false → less a c ≡ false
    head_not_less a b c cb ab = elim (Bool-cases (less a c)) [
      | inr f ↦ f
      | inl t ↦ let bad = trans a c b t cb in cc
    ]

    pick_by-Improved : (b : String × A) (m : Map A) → Improved b m (pick_by (some b) m)
    unfolding pick_by
    pick_by-Improved b [] = kept refl tt
    pick_by-Improved (k, b) ((key, a) ∷ m) = elim (Bool-cases (ok a && less a b)) [
      | inr passed ↦ elim (pick_by-Improved (k, b) m) [
        | kept e rest ↦ kept (rw passed e) ((λ q. ground arith), rest)
        | replaced c e m q lt rest ↦
            replaced c (rw passed e) (inr m) q lt
              ((λ qa. head_not_less a b c.1 lt (ground arith)), rest)
      ]
      | inl taken ↦ elim (pick_by-Improved (key, a) m) [
        | kept e rest ↦
            replaced (key, a) (rw taken e) (inl refl) (ground arith) (ground arith)
              ((λ q. irrefl a), rest)
        | replaced c e m q lt rest ↦
            replaced c (rw taken e) (inr m) q (trans c.1 a b lt (ground arith))
              ((λ qa. head_not_less a a c.1 lt (irrefl a)), rest)
      ]
    ]

    pub pick_by-Least : (m : Map A) → Least m (pick_by none m)
    unfolding pick_by
    pick_by-Least [] = no_one refl tt
    pick_by-Least ((key, a) ∷ m) = elim (Bool-cases (ok a)) [
      | inl q ↦ elim (pick_by-Improved (key, a) m) [
        | kept e rest ↦ least key a (rw q e) (inl refl) q ((λ _. irrefl a), rest)
        | replaced c e i qc lt rest ↦
            least c.0 c.1 (rw q e) (inr i) qc ((λ _. head_not_less a a c.1 lt (irrefl a)), rest)
      ]
      | inr unfit ↦ elim (pick_by-Least m) [
        | no_one e rest ↦ no_one (rw unfit e) (unfit, rest)
        | least k b e i qb rest ↦ least k b (rw unfit e) (inr i) qb ((λ qa. cc), rest)
      ]
    ]
