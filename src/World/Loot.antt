-- ===== src/World/Loot.antt =====
-- Treasures in world.go: what players carry and what lies on the map, together.
use a_simple_game_server.Prelude.{
  ℕ, ℤ, String, ◌&&◌, [], ◌∷◌, Option, some, ◌+◌, ◌≡◌, refl, ◌∙◌, inl, inr, arith, Bool-cases,
  sum_by, ◌==◌, string_eq, int_eq,
}
use text.Mathlib.TextEquality.{eq_iff}
use a_simple_game_server.Prelude.Maps.{
  Map, lookup, lookup-insert_self, Distinct, sum-insert, sum-delete,
}
use a_simple_game_server.World.State.{Player, Treasure, World}
use a_simple_game_server.World.Life.{refresh}
use a_simple_game_server.World.Spawn.{treasure_at}
use a_simple_game_server.World.Move.{move_alive, move_player}
use a_simple_game_server.World.Frames.{as_is, again, refresh-Refreshed, revived}
use a_simple_game_server.World.Outcomes.{
  stepped, richer, stays, walks, finds, move_alive-Moved, move_player-cases,
}

abbrev pub carried : Map Player → ℕ
carried m = sum_by (λ e. e.1.treasures) m

abbrev pub lying : Map Treasure → ℕ
lying m = sum_by (λ e. e.1.value) m

-- All the treasure of a world.
abbrev pub loot : World → ℕ
loot w = carried w.players + lying w.treasures

pub treasure_at-lookup :
    (x y : ℤ) (m : Map Treasure) (k : String) (t : Treasure)
    → Distinct m
    → treasure_at x y m ≡ some (k, t)
    → lookup k m ≡ some t
unfolding treasure_at lookup
treasure_at-lookup x y [] k t d e = cc
treasure_at-lookup x y ((j, u) ∷ m) k t d e = elim (Bool-cases (u.x == x && u.y == y)) [
  | inl here ↦
      let e' : ◌≡◌ {A = Option (String × Treasure)} (some (j, u)) (some (k, t)) = rw here at e in
      let same : j ≡ k = ground arith in
      let value : u ≡ t = ground arith in rw ((eq_iff j k).1 same, value)
  | inr off ↦
      let rest = treasure_at-lookup x y m k t d.1 (rw off at e) in ground (arith, eq_iff j k)
]

-- A refresh keeps the treasure, and leaves the player where the handler found it.
refresh-loot :
    (now : ℕ) (w : World) (u : String) (q : Player)
    → lookup u w.players ≡ some q
    → (let r = refresh now w u q in
        (lookup u r.0.players ≡ some r.1)
        × (carried r.0.players ≡ carried w.players)
        × (r.0.treasures ≡ w.treasures)
        × (r.1.treasures ≡ q.treasures))
refresh-loot now w u q at = elim (refresh-Refreshed now w u q) [
  | as_is e ↦ rw e (at, refl, refl, refl)
  | again g t down time due e ↦ rw e (
    lookup-insert_self u (revived now w q) w.players,
    omega (arith, sum-insert (λ e. e.1.treasures) u q (revived now w q) w.players at),
    refl,
    refl,
  )
]

-- A step of a standing player moves treasure from the map to the player, and loses and makes none.
pub move_alive-loot :
    (now : ℕ) (w : World) (u : String) (p : Player) (dir : String)
    → lookup u w.players ≡ some p
    → Distinct w.treasures
    → loot (move_alive now w u p dir).0 ≡ loot w
move_alive-loot now w u p dir at d = elim (move_alive-Moved now w u p dir) [
  | stays shut_cell e ↦ rw e
  | walks open_cell bare e ↦
      rw e (omega (arith, sum-insert (λ e. e.1.treasures) u p (stepped now p _ _) w.players at))
  | finds id t open_cell hit e ↦ rw e (
      omega (
        arith,
        sum-insert (λ e. e.1.treasures) u p (richer (stepped now p _ _) t.value) w.players at,
        sum-delete (λ e. e.1.value) id t w.treasures d
            (treasure_at-lookup _ _ w.treasures id t d hit),
      ))
]

-- `MovePlayer` conserves treasure: what all players carry and what lies on the map add up to the same
-- before and after, picked up or not, if no two treasures share a key.
pub move_player-loot :
    (now : ℕ) (w : World) (u dir : String)
    → Distinct w.treasures
    → loot (move_player now w u dir).0 ≡ loot w
move_player-loot now w u dir d =
    move_player-cases (λ w'. loot w' ≡ loot w) now w u refl dir
      (λ q at. let (found, c, t, _) = refresh-loot now w u q at in rw t (omega arith))
      (λ q at up.
        let (found, c, t, _) = refresh-loot now w u q at in
        move_alive-loot now _ u _ dir found (rw t d) ∙ rw t (omega arith))
