-- ===== src/World/BackgroundHitPoints.antt =====
-- `BackgroundStep` of world.go and the players' hit points.
use a_simple_game_server.Prelude.{
  ℕ, ℤ, String, Bool, true, false, List, [], ◌∷◌, Option, none, some, ◌+◌, ◌-◌, inl, inr, arith,
  Bool-cases, Option-cases, eqb, length, if◌then◌else◌, str_lt,
}
use a_simple_game_server.Prelude.Maps.{lookup, keys, All-insert, All-lookup}
use a_simple_game_server.Prelude.Sorting.{sort_by}
use a_simple_game_server.Protocol.{min_npcs}
use a_simple_game_server.World.State.{Player, Npc, World, intn, bump}
use a_simple_game_server.World.Life.{refresh, knock_down}
use a_simple_game_server.World.Background.{
  refresh_all, top_up_npcs, maybe_treasure, closest_player, npc_strikes, npc_turn, npc_turns,
  background_step,
}
use a_simple_game_server.World.BackgroundFrames.{
  top_up_npcs-SamePlayers, maybe_treasure-SamePlayers, npc_walks-SamePlayers,
}
use a_simple_game_server.World.HitPoints.{IsSound, AllSound, refresh-AllSound}

module _ (now : ℕ) where
  pub refresh_all-AllSound :
      (ks : List String) (w : World) → AllSound w → AllSound (refresh_all now ks w).0
  unfolding refresh_all
  refresh_all-AllSound [] w ws = ws
  refresh_all-AllSound (k ∷ ks) w ws = elim (Option-cases (lookup k w.players)) [
    | inl gone ↦ rw (gone, refresh_all) (refresh_all-AllSound ks w ws)
    | inr (q, at) ↦
        rw (at, refresh_all)
          (refresh_all-AllSound ks (refresh now w k q).0
            (refresh-AllSound now w k q ws (All-lookup (λ e. IsSound e.1) k q w.players ws at)).0)
  ]

-- The player found, if there is one.
abbrev BestSound : Option (String × Player) → Type 0
BestSound none = Unit
BestSound (some (_, p)) = IsSound p

choose-BestSound :
    (c : Bool) (k : String) (p : Player) (best : Option (String × Player))
    → IsSound p
    → BestSound best
    → BestSound (if c then some (k, p) else best)
choose-BestSound true k p best ps bs = ps
choose-BestSound false k p best ps bs = bs

module _ (now : ℕ) where
  closest_player-AllSound :
      (x y : ℤ) (radius : ℕ) (ks : List String) (w : World) (best : Option (String × Player))
      → AllSound w
      → BestSound best
      → (let r = closest_player now x y radius best ks w in AllSound r.0 × BestSound r.1)
  unfolding closest_player
  closest_player-AllSound x y radius [] w best ws bs = (ws, bs)
  closest_player-AllSound x y radius (k ∷ ks) w best ws bs =
      elim (Option-cases (lookup k w.players)) [
        | inl gone ↦ rw (gone, closest_player) (closest_player-AllSound x y radius ks w best ws bs)
        | inr (q, at) ↦
            let next =
              refresh-AllSound now w k q ws (All-lookup (λ e. IsSound e.1) k q w.players ws at) in
            rw (at, closest_player)
              (closest_player-AllSound x y radius ks (refresh now w k q).0 _ next.0
                (choose-BestSound _ k (refresh now w k q).1 best next.1 bs))
      ]

  npc_strikes-AllSound :
      (w : World) (n : Npc) (key : String) (p : Player)
      → AllSound w
      → IsSound p
      → AllSound (npc_strikes now w n key p).0
  unfolding npc_strikes bump knock_down
  npc_strikes-AllSound w n key p ws ps =
      let hurt : Player = record p { hp = p.hp - n.attack; last_update = now } in
      elim (Bool-cases (eqb (p.hp - n.attack) 0)) [
        | inl dead ↦ rw dead (
            All-insert (λ e. IsSound e.1) key (knock_down now hurt) w.players
              (record { at_most = omega arith; room = ps.room; standing = λ up. cc }) ws)
        | inr left ↦ rw left (
            All-insert (λ e. IsSound e.1) key hurt w.players
              (record {
                at_most = omega (arith, ps.at_most);
                room = ps.room;
                standing = λ _. ground arith;
              })
              ws)
      ]

  npc_turn-AllSound : (w : World) (id : String) → AllSound w → AllSound (npc_turn now w id).0
  unfolding npc_turn intn
  npc_turn-AllSound w id ws = elim (Option-cases (lookup id w.npcs)) [
    | inl gone ↦ rw (gone, npc_turn) ws
    | inr (n, at) ↦ elim (Bool-cases n.alive) [
      | inr dead ↦ simp (at, npc_turn, dead) ws
      | inl alive ↦
          let found = closest_player now n.x n.y 1 none (keys w.players) w in
          let sound = closest_player-AllSound n.x n.y 1 (keys w.players) w none ws tt in
          elim (Option-cases found.1) [
            | inl nobody ↦
                let walked = npc_walks-SamePlayers (intn found.0 4).1 id n (intn found.0 4).0 4 in
                simp (at, npc_turn, alive, nobody) (rw walked.players sound.0)
            | inr ((key, p), hit) ↦
                simp (at, npc_turn, alive, hit)
                  (npc_strikes-AllSound found.0 n key p sound.0 (rw hit at sound.1))
          ]
    ]
  ]

  npc_turns-AllSound :
      (ids : List String) (w : World) → AllSound w → AllSound (npc_turns now ids w).0
  unfolding npc_turns
  npc_turns-AllSound [] w ws = ws
  npc_turns-AllSound (id ∷ ids) w ws =
      npc_turns-AllSound ids (npc_turn now w id).0 (npc_turn-AllSound w id ws)

  -- The background step (revivals, new monsters and treasures, and every monster's attack or walk)
  -- keeps every player's hit points at most the maximum, and positive while the player stands.
  pub background_step-AllSound : (w : World) → AllSound w → AllSound (background_step now w).0
  unfolding background_step
  background_step-AllSound w ws =
      let w1 = (refresh_all now (keys w.players) w).0 in
      let w2 = (top_up_npcs (length w1.npcs + min_npcs) w1).0 in
      let w3 = (maybe_treasure w2).0 in
      let s1 = refresh_all-AllSound now (keys w.players) w ws in
      let s2 : AllSound w2 =
        rw (top_up_npcs-SamePlayers (length w1.npcs + min_npcs) w1).players s1 in
      let s3 : AllSound w3 = rw (maybe_treasure-SamePlayers w2).players s2 in
      npc_turns-AllSound (sort_by str_lt (keys w3.npcs)) w3 s3
