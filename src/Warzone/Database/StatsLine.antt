-- ===== src/Warzone/Database/StatsLine.antt =====
-- A line of the file of statistics: it is read back as the record that it was printed from.
use a_simple_game_server.Prelude.{ℕ, ℤ, [], ◌∷◌, ◌++◌, ◌≤◌, ◌≡◌, ◌≢◌, refl, arith, nat_eq}
use a_simple_game_server.Warzone.Bytes.{Bytes, Lacks, bytes_eq}
use a_simple_game_server.Warzone.Decimal.{format_int, IsInt, atoi-format_int, format_int-Lacks}
use a_simple_game_server.Warzone.Files.{split_n, split_n-part, split_n-last}
use a_simple_game_server.Warzone.Database.{StatsRecord, stats_of_parts, stats_line}
use a_simple_game_server.Warzone.Database.UserFile.{IsField, Starts, Lacks-join}

-- A record that survives in the file.
pub record IsStatsRecord (s : StatsRecord) : Type 0 where
  pub name : IsField s.username
  pub starts : Starts s.username
  pub wins : IsInt s.wins
  pub losses : IsInt s.losses
  pub kills : IsInt s.kills
  pub deaths : IsInt s.deaths
  pub games : IsInt s.games
  pub time : IsField s.last_played

abbrev pub numbers : StatsRecord → Bytes
numbers s =
    format_int s.wins
    ++ b'|'
      ∷ (format_int s.losses
          ++ b'|'
            ∷ (format_int s.kills
                ++ b'|'
                  ∷ (format_int s.deaths ++ b'|' ∷ (format_int s.games ++ b'|' ∷ s.last_played))))

no_bar : (z : ℤ) → Lacks b'|' (format_int z)
no_bar z = format_int-Lacks b'|' z (λ h. omega (arith, h.1)) (λ e. ground (arith))

split_stats :
    (s : StatsRecord)
    → IsStatsRecord s
    → split_n 6 (stats_line s)
      ≡ s.username
        ∷ format_int s.wins
        ∷ format_int s.losses
        ∷ format_int s.kills
        ∷ format_int s.deaths
        ∷ format_int s.games
        ∷ s.last_played
        ∷ []
split_stats s h =
    let g = format_int s.games ++ b'|' ∷ s.last_played in
    let d = format_int s.deaths ++ b'|' ∷ g in
    let k = format_int s.kills ++ b'|' ∷ d in
    let l = format_int s.losses ++ b'|' ∷ k in
    rw
      (
        split_n-part 5 s.username (numbers s) h.name.no_bar,
        split_n-part 4 (format_int s.wins) l (no_bar s.wins),
        split_n-part 3 (format_int s.losses) k (no_bar s.losses),
        split_n-part 2 (format_int s.kills) d (no_bar s.kills),
        split_n-part 1 (format_int s.deaths) g (no_bar s.deaths),
        split_n-part 0 (format_int s.games) s.last_played (no_bar s.games),
        split_n-last s.last_played,
      )
      refl

stats_line-Lacks :
    (b : ℕ) (s : StatsRecord)
    → b'|' ≢ b
    → ((b'0' ≤ b) × (b ≤ b'9') → ⊥)
    → b ≢ b'-'
    → Lacks b s.username
    → Lacks b s.last_played
    → Lacks b (stats_line s)
stats_line-Lacks b s ne out sign n t =
    let clean = λ (z : ℤ). format_int-Lacks b z out sign in
    let g = format_int s.games ++ b'|' ∷ s.last_played in
    let d = format_int s.deaths ++ b'|' ∷ g in
    let k = format_int s.kills ++ b'|' ∷ d in
    let l = format_int s.losses ++ b'|' ∷ k in
    Lacks-join b s.username (numbers s) ne n (
      Lacks-join b (format_int s.wins) l ne (clean s.wins) (
        Lacks-join b (format_int s.losses) k ne (clean s.losses) (
          Lacks-join b (format_int s.kills) d ne (clean s.kills) (
            Lacks-join b (format_int s.deaths) g ne (clean s.deaths)
              (Lacks-join b (format_int s.games) s.last_played ne (clean s.games) t)))))

pub stats_line-clean :
    (s : StatsRecord) → IsStatsRecord s → Lacks b'\n' (stats_line s) × Lacks b'\r' (stats_line s)
stats_line-clean s h = (
  stats_line-Lacks b'\n' s (λ e. ground (arith)) (λ d. omega (arith, d.0)) (λ e. ground (arith))
      h.name.no_break h.time.no_break,
  stats_line-Lacks b'\r' s (λ e. ground (arith)) (λ d. omega (arith, d.0)) (λ e. ground (arith))
      h.name.no_return h.time.no_return,
)

pub read_back :
    (s : StatsRecord) → IsStatsRecord s → stats_of_parts (split_n 6 (stats_line s)) ≡ s ∷ []
unfolding stats_of_parts
read_back s h =
    rw
      (
        split_stats s h,
        atoi-format_int s.wins h.wins,
        atoi-format_int s.losses h.losses,
        atoi-format_int s.kills h.kills,
        atoi-format_int s.deaths h.deaths,
        atoi-format_int s.games h.games,
      )
      refl
