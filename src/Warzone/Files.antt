-- ===== src/Warzone/Files.antt =====
-- The text files of warzone_go's database: `bufio.Scanner` over lines, `strings.SplitN`, and that lines
-- which are written come back.
use a_simple_game_server.Prelude.{
  ℕ, zero, suc, true, false, List, [], ◌∷◌, ◌++◌, ◌≡◌, refl, ap, ◌∙◌, arith, ◌==◌, nat_eq,
  if◌then◌else◌,
}
use mathlib.Core.List.{append_assoc, append-nil}
use a_simple_game_server.Warzone.Bytes.{Bytes, Lacks}

-- A carriage return at the end of a line is dropped.
unfoldable pub drop_cr : Bytes → Bytes
drop_cr [] = []
drop_cr (c ∷ []) = if c == b'\r' then [] else c ∷ []
drop_cr (c ∷ d ∷ s) = c ∷ drop_cr (d ∷ s)

-- The lines behind the part `cur` of a line; no line is empty at the very end. Lines beyond the scanner's
-- limit of 64 KB are left out.
lines_from : Bytes → Bytes → List Bytes
lines_from [] [] = []
lines_from (b ∷ cur) [] = drop_cr (b ∷ cur) ∷ []
lines_from cur (c ∷ s) = elim (c == b'\n') [
  | true ↦ drop_cr cur ∷ lines_from [] s
  | false ↦ lines_from (cur ++ c ∷ []) s
]

unfoldable pub lines : Bytes → List Bytes
unfolding lines_from drop_cr
lines s = lines_from [] s

-- Cuts at up to `n` bars behind the part `cur`.
split_from : ℕ → Bytes → Bytes → List Bytes
split_from n cur [] = cur ∷ []
split_from zero cur (c ∷ s) = (cur ++ c ∷ s) ∷ []
split_from (suc n) cur (c ∷ s) = elim (c == b'|') [
  | true ↦ cur ∷ split_from n [] s
  | false ↦ split_from (suc n) (cur ++ c ∷ []) s
]

-- `SplitN(s, "|", n + 1)`.
unfoldable pub split_n : ℕ → Bytes → List Bytes
unfolding split_from
split_n n s = split_from n [] s

drop_cr_clean : (s : Bytes) → Lacks b'\r' s → drop_cr s ≡ s
unfolding drop_cr
drop_cr_clean [] h = refl
drop_cr_clean (c ∷ []) h = ground (arith, h.0)
drop_cr_clean (c ∷ d ∷ s) h = ap (◌∷◌ c) (drop_cr_clean (d ∷ s) h.1)

lines_from-line :
    (p cur rest : Bytes)
    → Lacks b'\n' p
    → lines_from cur (p ++ b'\n' ∷ rest) ≡ drop_cr (cur ++ p) ∷ lines_from [] rest
unfolding lines_from
lines_from-line [] [] rest h = refl
lines_from-line [] (b ∷ cur) rest h = rw append-nil refl
lines_from-line (c ∷ p) [] rest h = ground (arith, lines_from-line p (c ∷ []) rest h.1, h.0)
lines_from-line (c ∷ p) (b ∷ cur) rest h =
    ground (
      arith,
      lines_from-line p (b ∷ cur ++ c ∷ []) rest h.1,
      h.0,
      append_assoc (b ∷ cur) (c ∷ []) p,
    )

-- The first line of a file is the text up to its first line break.
pub lines-line :
    (p rest : Bytes) → Lacks b'\n' p → Lacks b'\r' p → lines (p ++ b'\n' ∷ rest) ≡ p ∷ lines rest
unfolding lines
lines-line p rest h k =
    lines_from-line p [] rest h ∙ ap (λ q. q ∷ lines_from [] rest) (drop_cr_clean p k)

split_from-part :
    (n : ℕ) (p cur rest : Bytes)
    → Lacks b'|' p
    → split_from (suc n) cur (p ++ b'|' ∷ rest) ≡ (cur ++ p) ∷ split_from n [] rest
unfolding split_from
split_from-part n [] cur rest h = rw append-nil refl
split_from-part n (c ∷ p) cur rest h =
    ground (arith, split_from-part n p (cur ++ c ∷ []) rest h.1, h.0, append_assoc cur (c ∷ []) p)

-- The first part of a line is the text up to its first bar.
pub split_n-part :
    (n : ℕ) (p rest : Bytes)
    → Lacks b'|' p
    → split_n (suc n) (p ++ b'|' ∷ rest) ≡ p ∷ split_n n rest
unfolding split_n
split_n-part n p rest h = split_from-part n p [] rest h

-- The last part takes the rest, bars and all.
pub split_n-last : (s : Bytes) → split_n 0 s ≡ s ∷ []
unfolding split_n split_from
split_n-last [] = refl
split_n-last (c ∷ s) = refl
