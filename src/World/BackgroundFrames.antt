-- ===== src/World/BackgroundFrames.antt =====
-- What the parts of `BackgroundStep` in world.go leave alone.
use a_simple_game_server.Prelude.{
  ℕ, zero, suc, String, true, false, ◌+◌, ◌-◌, ◌%◌, ◌≤◌, ◌≡◌, refl, ◌∙◌, inl, inr, arith,
  Bool-cases, Option-cases, ltb, length,
}
use a_simple_game_server.Protocol.{min_npcs, max_treasures}
use a_simple_game_server.World.State.{Npc, Rng, World, intn, bump}
use a_simple_game_server.World.Place.{walkable, best_spawn_cell}
use a_simple_game_server.World.Spawn.{spawn_npc, spawn_treasure}
use a_simple_game_server.World.Background.{top_up_npcs, maybe_treasure, npc_walks, walk_cell}
use a_simple_game_server.World.Frames.{best_spawn_cell-SameBut}
use a_simple_game_server.World.Fights.{drop_treasure-SameUnits}

-- The players, the terrain and the configuration stay, and the version does not fall.
pub record SamePlayers (w w' : World) : Type 0 where
  pub players : w'.players ≡ w.players
  pub terrain : w'.terrain ≡ w.terrain
  pub cfg : w'.cfg ≡ w.cfg
  pub version : w.version ≤ w'.version

pub SamePlayers-refl : (w : World) → SamePlayers w w
SamePlayers-refl w = record { players = refl; terrain = refl; cfg = refl; version = omega arith }

still : (w : World) (r : Rng) → SamePlayers w (record w { rng = r })
still w r = record { players = refl; terrain = refl; cfg = refl; version = omega arith }

pub SamePlayers-trans : (a b c : World) → SamePlayers a b → SamePlayers b c → SamePlayers a c
SamePlayers-trans a b c h k = record {
  players = k.players ∙ h.players;
  terrain = k.terrain ∙ h.terrain;
  cfg = k.cfg ∙ h.cfg;
  version = omega arith;
}

pub spawn_npc-SamePlayers : (w : World) → SamePlayers w (spawn_npc w).0
unfolding spawn_npc bump intn
spawn_npc-SamePlayers w =
    let (r, e) = best_spawn_cell-SameBut w "" true in
    elim (Option-cases (best_spawn_cell w "" true).0) [
      | inl gone ↦ rw (gone, spawn_npc, e) (still w r)
      | inr (cell, at) ↦
          rw (at, spawn_npc, e)
            (record { players = refl; terrain = refl; cfg = refl; version = omega arith })
    ]

pub spawn_treasure-SamePlayers :
    (w : World) (kind : String) → SamePlayers w (spawn_treasure w kind).0
unfolding spawn_treasure intn
spawn_treasure-SamePlayers w kind =
    let (r, e) = best_spawn_cell-SameBut w "" false in
    elim (Option-cases (best_spawn_cell w "" false).0) [
      | inl gone ↦ rw (gone, spawn_treasure, e) (still w r)
      | inr (cell, at) ↦
          rw (at, spawn_treasure, e)
            (let kept = drop_treasure-SameUnits _ cell.0 cell.1 _ kind in
              record {
                players = kept.players;
                terrain = kept.terrain;
                cfg = kept.cfg;
                version = kept.version;
              })
    ]

pub top_up_npcs-SamePlayers : (f : ℕ) (w : World) → SamePlayers w (top_up_npcs f w).0
unfolding top_up_npcs
top_up_npcs-SamePlayers zero w = SamePlayers-refl w
top_up_npcs-SamePlayers (suc f) w = elim (Bool-cases (ltb (length w.npcs) min_npcs)) [
  | inr enough ↦ rw enough (SamePlayers-refl w)
  | inl short ↦ elim (Option-cases (spawn_npc w).1) [
    | inl gone ↦ rw (short, gone) (spawn_npc-SamePlayers w)
    | inr (n, at) ↦
        rw (short, at)
          (SamePlayers-trans w (spawn_npc w).0 _ (spawn_npc-SamePlayers w)
            (top_up_npcs-SamePlayers f (spawn_npc w).0))
  ]
]

pub maybe_treasure-SamePlayers : (w : World) → SamePlayers w (maybe_treasure w).0
unfolding maybe_treasure intn
maybe_treasure-SamePlayers w =
    let w' = (intn w 100).1 in
    let roll = w.rng.answer w.rng.asked 100 % 100 in
    let laid = spawn_treasure w' "野外宝箱" in
    elim (Bool-cases (ltb (length w.treasures) max_treasures)) [
      | inr enough ↦ rw enough (SamePlayers-refl w)
      | inl short ↦ elim (Bool-cases (ltb roll 45)) [
        | inr unlucky ↦
            rw (short, unlucky)
              (record { players = refl; terrain = refl; cfg = refl; version = omega arith })
        | inl lucky ↦ elim (Option-cases laid.1) [
          | inl gone ↦
              rw (short, lucky, gone)
                (let s = spawn_treasure-SamePlayers w' "野外宝箱" in
                  record {
                    players = s.players;
                    terrain = s.terrain;
                    cfg = s.cfg;
                    version = s.version;
                  })
          | inr (t, at) ↦
              rw (short, lucky, at)
                (let s = spawn_treasure-SamePlayers w' "野外宝箱" in
                  record {
                    players = s.players;
                    terrain = s.terrain;
                    cfg = s.cfg;
                    version = s.version;
                  })
        ]
      ]
    ]

pub npc_walks-SamePlayers :
    (w : World) (id : String) (n : Npc) (base left : ℕ) → SamePlayers w (npc_walks w id n base left)
unfolding npc_walks bump
npc_walks-SamePlayers w id n base zero = SamePlayers-refl w
npc_walks-SamePlayers w id n base (suc left) =
    let cell = walk_cell ((base + (4 - suc left)) % 4) n.x n.y in
    elim (Bool-cases (walkable w cell.0 cell.1 "")) [
      | inl free ↦
          rw free (record { players = refl; terrain = refl; cfg = refl; version = omega arith })
      | inr taken ↦ rw taken (npc_walks-SamePlayers w id n base left)
    ]
