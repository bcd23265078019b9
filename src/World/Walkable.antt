-- ===== src/World/Walkable.antt =====
-- Where a unit may stand: `walkableForLocked`, `bestSpawnCellLocked` and `findSafePositionLocked` of
-- world.go against a description of a free cell.
use Prim.Native.Char.{Char}
use text.Mathlib.TextEquality.{eq_iff}
use a_simple_game_server.Prelude.{
  ℤ, String, true, false, some, ◌≡◌, ◌≢◌, ◌↔◌, inl, inr, arith, string_eq, int_eq, eqb_ℤ_iff, any,
  All, All-map, any-false, All-any, Option-cases,
}
use a_simple_game_server.World.State.{Player, Npc, World}
use a_simple_game_server.World.Grid.{cell_at, is_wall}
use a_simple_game_server.World.Place.{player_blocks, npc_blocks, walkable}

-- Nobody but `ignore` stands on the cell.
abbrev pub Leaves : ℤ → ℤ → String → String × Player → Type 0
Leaves x y ignore e = e.1.username ≢ ignore → e.1.alive ≡ true → ¬ ((e.1.x ≡ x) × (e.1.y ≡ y))

abbrev pub LeavesNpc : ℤ → ℤ → String × Npc → Type 0
LeavesNpc x y e = e.1.alive ≡ true → ¬ ((e.1.x ≡ x) × (e.1.y ≡ y))

-- A cell of the map that is no wall and holds no living unit, `ignore` left aside.
pub record IsFree (w : World) (x y : ℤ) (ignore : String) : Type 0 where
  pub cell : Char
  pub on_map : cell_at w.terrain x y ≡ some cell
  pub no_wall : is_wall cell ≡ false
  pub no_player : All (Leaves x y ignore) w.players
  pub no_npc : All (LeavesNpc x y) w.npcs

player_blocks-false :
    (x y : ℤ) (ignore : String) (e : String × Player)
    → (player_blocks x y ignore e ≡ false) ↔ Leaves x y ignore e
unfolding player_blocks
player_blocks-false x y ignore (k, p) = (
  λ h ne al at. ground (arith, eq_iff p.username ignore, eqb_ℤ_iff p.x x, eqb_ℤ_iff p.y y),
  λ h. ground (arith, h, eq_iff p.username ignore, eqb_ℤ_iff p.x x, eqb_ℤ_iff p.y y),
)

npc_blocks-false : (x y : ℤ) (e : String × Npc) → (npc_blocks x y e ≡ false) ↔ LeavesNpc x y e
unfolding npc_blocks
npc_blocks-false x y (k, n) = (
  λ h al at. ground (arith, eqb_ℤ_iff n.x x, eqb_ℤ_iff n.y y),
  λ h. ground (arith, h, eqb_ℤ_iff n.x x, eqb_ℤ_iff n.y y),
)

walkable-IsFree :
    (w : World) (x y : ℤ) (ignore : String) → walkable w x y ignore ≡ true → IsFree w x y ignore
unfolding walkable
walkable-IsFree w x y ignore h = elim (Option-cases (cell_at w.terrain x y)) [
  | inl off ↦ absurd (ground arith)
  | inr (c, on) ↦
      let players_clear : any (player_blocks x y ignore) w.players ≡ false = ground arith in
      let npcs_clear : any (npc_blocks x y) w.npcs ≡ false = ground arith in
      record {
        cell = c;
        on_map = on;
        no_wall = ground arith;
        no_player =
            All-map _ (Leaves x y ignore) w.players (λ e. (player_blocks-false x y ignore e).0)
              (any-false _ w.players players_clear);
        no_npc =
            All-map _ (LeavesNpc x y) w.npcs (λ e. (npc_blocks-false x y e).0)
              (any-false _ w.npcs npcs_clear);
      }
]

IsFree-walkable :
    (w : World) (x y : ℤ) (ignore : String) → IsFree w x y ignore → walkable w x y ignore ≡ true
unfolding walkable
IsFree-walkable w x y ignore f =
    let players_clear : any (player_blocks x y ignore) w.players ≡ false = All-any _ w.players (
      All-map (Leaves x y ignore) _ w.players (λ e. (player_blocks-false x y ignore e).1)
        f.no_player) in
    let npcs_clear : any (npc_blocks x y) w.npcs ≡ false =
      All-any _ w.npcs
        (All-map (LeavesNpc x y) _ w.npcs (λ e. (npc_blocks-false x y e).1) f.no_npc) in
    ground (arith, f.on_map, f.no_wall, players_clear, npcs_clear)

-- The code's test for a walkable cell passes exactly on the cells of the map that are no wall and on
-- which no living monster and no living player of another name stands.
pub walkable_iff :
    (w : World) (x y : ℤ) (ignore : String) → (walkable w x y ignore ≡ true) ↔ IsFree w x y ignore
walkable_iff w x y ignore = (walkable-IsFree w x y ignore, IsFree-walkable w x y ignore)
