-- ===== src/World/Frames.antt =====
-- What the choice of a cell leaves alone: all of the world but its generator. And the cases of
-- `refreshPlayerStateLocked`, from which the proofs about every handler start.
use a_simple_game_server.Prelude.{
  ℕ, ℤ, String, Bool, true, false, ◌∷◌, none, some, ◌+◌, ◌≤◌, ◌≡◌, inl, inr, arith, Bool-cases,
  Option-cases, ltb, ◌==◌, nat_eq, length, ltb, if◌then◌else◌,
}
use a_simple_game_server.Prelude.Maps.{insert}
use a_simple_game_server.Prelude.Sorting.{sort_by}
use a_simple_game_server.World.State.{Player, Rng, World, intn, bump}
use a_simple_game_server.World.Place.{
  walkable, candidates, candidate_less, best_spawn_cell, find_safe,
}
use a_simple_game_server.World.Life.{revive, refresh}

-- Two worlds that differ in their generators only.
abbrev pub SameBut : World → World → Type 0
SameBut w w' = (r : Rng) × (w' ≡ record w { rng = r })

pub best_spawn_cell-SameBut :
    (w : World) (ignore : String) (prefer : Bool) → SameBut w (best_spawn_cell w ignore prefer).1
unfolding best_spawn_cell intn
best_spawn_cell-SameBut w ignore prefer =
    let n = length (sort_by candidate_less (candidates w ignore prefer 0 w.terrain)) in
    let asked = (if ltb n 12 then n else 12) ∷ w.rng.asked in
    elim (Bool-cases (n == 0)) [
      | inl empty ↦ (w.rng, rw empty)
      | inr some_left ↦ (record { asked = asked; answer = w.rng.answer }, rw some_left)
    ]

pub find_safe-SameBut :
    (w : World) (x y : ℤ) (ignore : String) → SameBut w (find_safe w x y ignore).1
unfolding find_safe
find_safe-SameBut w x y ignore = elim (Bool-cases (walkable w x y ignore)) [
  | inl here ↦ (w.rng, rw here)
  | inr taken ↦
      let (r, e) = best_spawn_cell-SameBut w ignore true in
      elim (Option-cases (best_spawn_cell w ignore true).0) [
        | inl gone ↦ (r, rw (taken, gone) e)
        | inr (cell, at) ↦ (r, rw (taken, at) e)
      ]
]

-- The player that `revive` puts back.
abbrev pub revived : ℕ → World → Player → Player
revived now w p =
    let cell = (find_safe w w.cfg.spawn_x w.cfg.spawn_y p.username).0 in
    record p {
      x = cell.0;
      y = cell.1;
      hp = p.max_hp;
      potions = if ltb 3 p.potions then p.potions else 3;
      alive = true;
      respawn_at = none;
      last_update = now;
    }

abbrev pub restored_at : ℕ → World → String → Player → Rng → World × Player
restored_at now w key p g = (
  record w { players = insert key (revived now w p) w.players; version = w.version + 1; rng = g },
  revived now w p,
)

pub refresh_again :
    (now : ℕ) (w : World) (key : String) (p : Player) (t : ℕ)
    → p.alive ≡ false
    → p.respawn_at ≡ some t
    → t ≤ now
    → (g : Rng) × (refresh now w key p ≡ restored_at now w key p g)
unfolding refresh revive bump
refresh_again now w key p t down at due =
    let early : ltb now t ≡ false = ground arith in
    let (g, e) = find_safe-SameBut w w.cfg.spawn_x w.cfg.spawn_y p.username in
    (g, simp (down, at, early, e))

pub data Refreshed (now : ℕ) (w : World) (key : String) (p : Player) (r : World × Player)
    : Type 0 where
  as_is : r ≡ (w, p) → Refreshed now w key p r
  again :
      (g : Rng) (t : ℕ)
      → p.alive ≡ false
      → p.respawn_at ≡ some t
      → t ≤ now
      → r ≡ restored_at now w key p g
      → Refreshed now w key p r

-- A refresh leaves everything as it is, or revives a downed player whose time has come.
pub refresh-Refreshed :
    (now : ℕ) (w : World) (key : String) (p : Player) → Refreshed now w key p (refresh now w key p)
unfolding refresh revive bump
refresh-Refreshed now w key p = elim (Bool-cases p.alive) [
  | inl up ↦ as_is (ground arith)
  | inr down ↦ elim (Option-cases p.respawn_at) [
    | inl never ↦ as_is (ground arith)
    | inr (t, at) ↦ elim (Bool-cases (ltb now t)) [
      | inl early ↦ as_is (ground arith)
      | inr due ↦
          let (g, e) = refresh_again now w key p t down at (ground arith) in
          again g t down at (ground arith) e
    ]
  ]
]
