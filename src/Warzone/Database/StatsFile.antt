-- ===== src/Warzone/Database/StatsFile.antt =====
-- The file of statistics: what is saved is loaded again, and what `UpdateStats` makes of it.
use a_simple_game_server.Prelude.{
  ℕ, ℤ, pos, negsuc, Bool, true, false, List, [], ◌∷◌, ◌++◌, Option, none, some, ◌≤◌, ◌≡◌, ◌≢◌,
  refl, ap, sym, ltb_ℤ, ◌⊎◌, ◌∙◌, inl, inr, arith, ◌==◌, nat_eq, if◌then◌else◌, All, Bool-cases,
  ◌+ℤ◌, ◌-ℤ◌,
}
use a_simple_game_server.Warzone.Bytes.{Bytes, bytes_eq, same_bytes_iff}
use a_simple_game_server.Warzone.Decimal.{max_int, IsInt}
use a_simple_game_server.Warzone.Files.{lines, lines-line}
use a_simple_game_server.Warzone.Database.{
  StatsRecord, Database, is_skipped, parse_stats, load_stats, stats_line, print_stats, stats_header,
  save_stats, find_stats, get_stats, plus_int, played, new_stats, update_records, update_stats,
}
use a_simple_game_server.Warzone.Database.UserFile.{IsField, Starts, is_skipped-start}
use a_simple_game_server.Warzone.Database.StatsLine.{
  IsStatsRecord, numbers, stats_line-clean, read_back,
}

parse_stats-print :
    (ss : List StatsRecord) → All IsStatsRecord ss → parse_stats (lines (print_stats ss)) ≡ ss
unfolding print_stats parse_stats
parse_stats-print [] h = unfold lines in refl
parse_stats-print (s ∷ ss) (h, hs) =
    let (c, d) = stats_line-clean s h in
    let line = lines-line (stats_line s) (print_stats ss) c d in
    let shown = is_skipped-start s.username (numbers s) h.starts in
    rw (line, shown, read_back s h, parse_stats-print ss hs) refl

header_skipped :
    (s : Bytes) → parse_stats (lines (stats_header ++ b'\n' ∷ s)) ≡ parse_stats (lines s)
unfolding parse_stats is_skipped
header_skipped s = rw (lines-line stats_header s (ground arith) (ground arith)) refl

-- The statistics that are written to the file are those that are read from it, in their order and with
-- every 64-bit number as it was, if no name starts like a comment and no text holds a bar or the end of
-- a line.
pub load_stats-save_stats :
    (db : Database) (ss : List StatsRecord)
    → All IsStatsRecord ss
    → load_stats (save_stats true db ss) ≡ ss
unfolding load_stats save_stats
load_stats-save_stats db ss h = header_skipped (print_stats ss) ∙ parse_stats-print ss h

plus_int-IsInt : (z : ℤ) (k : ℕ) → IsInt z → k ≤ max_int → IsInt (plus_int z k)
unfolding plus_int ◌+ℤ◌ ◌-ℤ◌
plus_int-IsInt (pos n) k h b = ground arith
plus_int-IsInt (negsuc n) k h b = ground arith

IsInt-bound : (s : ℤ) → IsInt s → ltb_ℤ (pos max_int) s ≡ false
IsInt-bound (pos n) h = ground arith
IsInt-bound (negsuc n) h = ground arith

plus_int-exact : (z : ℤ) (k : ℕ) → IsInt (z +ℤ pos k) → plus_int z k ≡ z +ℤ pos k
unfolding plus_int
plus_int-exact z k h = rw (IsInt-bound (z +ℤ pos k) h) refl

played-IsStatsRecord :
    (now : Bytes) (win : Bool) (kills : ℕ) (died : Bool) (s : StatsRecord)
    → IsField now
    → kills ≤ max_int
    → IsStatsRecord s
    → IsStatsRecord (played now win kills died s)
unfolding played
played-IsStatsRecord now win kills died s time bound h = record {
  name = h.name;
  starts = h.starts;
  wins = ground (arith, plus_int-IsInt s.wins 1 h.wins, h.wins);
  losses = ground (arith, plus_int-IsInt s.losses 1 h.losses, h.losses);
  kills = plus_int-IsInt s.kills kills h.kills bound;
  deaths = ground (arith, plus_int-IsInt s.deaths 1 h.deaths, h.deaths);
  games = plus_int-IsInt s.games 1 h.games (omega arith);
  time = time;
}

-- One more game with so many kills counts in the record within 64 bits.
pub record HasSpace (more : ℕ) (b : StatsRecord) : Type 0 where
  pub wins : IsInt (b.wins +ℤ pos 1)
  pub losses : IsInt (b.losses +ℤ pos 1)
  pub kills : IsInt (b.kills +ℤ pos more)
  pub deaths : IsInt (b.deaths +ℤ pos 1)
  pub games : IsInt (b.games +ℤ pos 1)

module _ (now name : Bytes) (win : Bool) (kills : ℕ) (died : Bool) where
  update_records-good :
      (ss : List StatsRecord)
      → IsField name
      → Starts name
      → IsField now
      → kills ≤ max_int
      → All IsStatsRecord ss
      → All IsStatsRecord (update_records now name win kills died ss)
  unfolding update_records
  update_records-good [] field starts time bound h =
      let fresh : IsStatsRecord (new_stats now name) = record {
        name = field;
        starts = starts;
        wins = omega arith;
        losses = omega arith;
        kills = omega arith;
        deaths = omega arith;
        games = omega arith;
        time = time;
      } in
      (played-IsStatsRecord now win kills died (new_stats now name) time bound fresh, tt)
  update_records-good (s ∷ ss) field starts time bound (h, hs) =
      elim (Bool-cases (s.username == name)) [
        | inl same ↦ rw same (played-IsStatsRecord now win kills died s time bound h, hs)
        | inr other ↦ rw other (h, update_records-good ss field starts time bound hs)
      ]

  -- A record without games.
  abbrev pub blank : StatsRecord
  blank = record {
    username = name;
    wins = pos 0;
    losses = pos 0;
    kills = pos 0;
    deaths = pos 0;
    games = pos 0;
    last_played = now;
  }

  abbrev or_blank : Option StatsRecord → StatsRecord
  or_blank none = blank
  or_blank (some s) = s

  -- The record of the name before the game, or one without games.
  abbrev pub IsBefore : Database → StatsRecord → Type 0
  IsBefore db b = (get_stats db name ≡ some b) ⊎ (get_stats db name ≡ none × b ≡ blank)

  -- The record after the game.
  abbrev pub after : StatsRecord → StatsRecord
  after b = record {
    username = name;
    wins = if win then b.wins +ℤ pos 1 else b.wins;
    losses = if win then b.losses else b.losses +ℤ pos 1;
    kills = b.kills +ℤ pos kills;
    deaths = if died then b.deaths +ℤ pos 1 else b.deaths;
    games = b.games +ℤ pos 1;
    last_played = now;
  }

  find_stats-name :
      (b : StatsRecord) (ss : List StatsRecord) → find_stats name ss ≡ some b → b.username ≡ name
  unfolding find_stats
  find_stats-name b [] e = absurd cc
  find_stats-name b (s ∷ ss) e = elim (Bool-cases (s.username == name)) [
    | inl same ↦
        let here : some s ≡ some b = rw same at e in
        let k : b ≡ s = cc in rw k ((same_bytes_iff s.username name).0 same)
    | inr other ↦ find_stats-name b ss (rw other at e)
  ]

  played-after :
      (b : StatsRecord)
      → b.username ≡ name
      → HasSpace kills b
      → played now win kills died b ≡ after b
  unfolding played
  played-after b named h =
      rw
        (
          named,
          plus_int-exact b.wins 1 h.wins,
          plus_int-exact b.losses 1 h.losses,
          plus_int-exact b.kills kills h.kills,
          plus_int-exact b.deaths 1 h.deaths,
          plus_int-exact b.games 1 h.games,
        )
        refl

  find_stats-update_records :
      (ss : List StatsRecord)
      → find_stats name (update_records now name win kills died ss)
        ≡ some (played now win kills died (or_blank (find_stats name ss)))
  unfolding update_records find_stats
  find_stats-update_records [] = unfold played in rw ((same_bytes_iff name name).1 refl) refl
  find_stats-update_records (s ∷ ss) = elim (Bool-cases (s.username == name)) [
    | inl same ↦ unfold played in rw same (rw same refl)
    | inr other ↦ rw other (rw other (find_stats-update_records ss))
  ]

  find_stats-update_records_other :
      (other : Bytes) (ss : List StatsRecord)
      → (name == other) ≡ false
      → find_stats other (update_records now name win kills died ss) ≡ find_stats other ss
  unfolding update_records find_stats
  find_stats-update_records_other other [] ne = unfold played in rw ne refl
  find_stats-update_records_other other (s ∷ ss) ne = elim (Bool-cases (s.username == name)) [
    | inl same ↦
        let e : s.username ≡ name = (same_bytes_iff s.username name).0 same in
        let apart : (s.username == other) ≡ false = rw e ne in
        unfold played in rw (same, apart) refl
    | inr diff ↦ rw diff (
        ap (λ r. if s.username == other then some s else r)
          (find_stats-update_records_other other ss ne))
  ]

  -- After a game the record of the player counts it: one game more, won or lost, with its kills, with one
  -- death more exactly if the player died, and with its time; a player without a record gets one that
  -- starts from zeros. Every other record is as before. It holds if the file can be written; its records
  -- are good; the name and the time have no bar, line feed or carriage return, and the name does not
  -- start like a comment; and the kills, and each count of the record with one more, or with the kills,
  -- are within 64 bits.
  pub update_stats_lem :
      (db : Database) (other : Bytes) (b : StatsRecord)
      → IsField name
      → Starts name
      → IsField now
      → kills ≤ max_int
      → All IsStatsRecord (load_stats db)
      → IsBefore db b
      → HasSpace kills b
      → name ≢ other
      → (let db' = update_stats now true db name win kills died in
          (get_stats db' name ≡ some (after b))
          × (get_stats db' other ≡ get_stats db other)
          × All IsStatsRecord (load_stats db'))
  unfolding update_stats get_stats
  update_stats_lem db other b field starts time bound good was space diff =
      let ss = load_stats db in
      let ts = update_records now name win kills died ss in
      let all = update_records-good ss field starts time bound good in
      let loaded : load_stats (save_stats true db ts) ≡ ts = load_stats-save_stats db ts all in
      let apart : (name == other) ≡ false = elim (Bool-cases (name == other)) [
        | inl same ↦ absurd (diff ((same_bytes_iff name other).0 same))
        | inr ne ↦ ne
      ] in
      let named : b.username ≡ name = elim was [
        | inl found ↦ find_stats-name b ss found
        | inr (_, e) ↦ rw e refl
      ] in
      let from : or_blank (find_stats name ss) ≡ b = elim was [
        | inl found ↦ rw found refl
        | inr (absent, e) ↦ rw absent (sym e)
      ] in
      (
        rw loaded (
            find_stats-update_records ss
            ∙ ap (λ r. some (played now win kills died r)) from
            ∙ ap (λ r. some r) (played-after b named space)),
        rw loaded (find_stats-update_records_other other ss apart),
        rw loaded all,
      )
