-- ===== src/World/Occupancy.antt =====
-- Who stands where in world.go: the cells of the living players and monsters under `MovePlayer`.
use a_simple_game_server.Prelude.{
  ℕ, ℤ, String, true, false, some, ◌≡◌, ◌≢◌, inl, inr, arith, sym, ◌∙◌, Bool-cases, All, ◌==◌,
  string_eq,
}
use mathlib.Core.Path.{subst}
use text.Mathlib.TextEquality.{eq_iff}
use a_simple_game_server.Prelude.Maps.{Map, lookup, insert, lookup-insert, All-lookup}
use a_simple_game_server.World.State.{Player, Npc, World}
use a_simple_game_server.World.Place.{walkable}
use a_simple_game_server.World.Life.{refresh}
use a_simple_game_server.World.Move.{step_cell, move_alive, move_player}
use a_simple_game_server.World.Walkable.{Leaves, LeavesNpc, IsFree, walkable_iff}
use a_simple_game_server.World.SpawnCells.{find_safe-walkable}
use a_simple_game_server.World.Frames.{as_is, again, refresh-Refreshed, revived}
use a_simple_game_server.World.Outcomes.{
  stepped, richer, stays, walks, finds, move_alive-Moved, move_player-cases,
}

-- Two standing players under different keys, and a standing player and a living monster, never share
-- a cell; and a player is stored under the player's name.
pub record IsApart (players : Map Player) (npcs : Map Npc) : Type 0 where
  pub named : (k : String) (p : Player) → lookup k players ≡ some p → p.username ≡ k
  pub players_apart :
      (k j : String) (p q : Player)
      → lookup k players ≡ some p
      → lookup j players ≡ some q
      → k ≢ j
      → p.alive ≡ true
      → q.alive ≡ true
      → ¬ ((p.x ≡ q.x) × (p.y ≡ q.y))
  pub npcs_apart :
      (k : String) (p : Player)
      → lookup k players ≡ some p
      → p.alive ≡ true
      → All (LeavesNpc p.x p.y) npcs

abbrev pub Apart : World → Type 0
Apart w = IsApart w.players w.npcs

module _ (w : World) (u : String) (p : Player) (a : Apart w) (name : p.username ≡ u)
    (free : IsFree w p.x p.y u) where
  -- Nobody else stands where the player now stands.
  others_leave :
      (j : String) (q : Player)
      → lookup j w.players ≡ some q
      → u ≢ j
      → q.alive ≡ true
      → ¬ ((q.x ≡ p.x) × (q.y ≡ p.y))
  others_leave j q at ne up =
      All-lookup (Leaves p.x p.y u) j q w.players free.no_player at
        (λ e. ne (sym e ∙ a.named j q at)) up

  -- What a lookup after the write can be.
  data After (k : String) (r : Player) : Type 0 where
    written : u ≡ k → r ≡ p → After k r
    older : u ≢ k → lookup k w.players ≡ some r → After k r

  lookup-After : (k : String) (r : Player) → lookup k (insert u p w.players) ≡ some r → After k r
  lookup-After k r at = elim (Bool-cases (u == k)) [
    | inl same ↦ written ((eq_iff u k).0 same) (ground (arith, lookup-insert u k p w.players))
    | inr other ↦
        older (λ e. ground (arith, eq_iff u k)) (ground (arith, lookup-insert u k p w.players))
  ]

  apart-After :
      (k j : String) (r q : Player)
      → After k r
      → After j q
      → k ≢ j
      → r.alive ≡ true
      → q.alive ≡ true
      → ¬ ((r.x ≡ q.x) × (r.y ≡ q.y))
  apart-After k j r q (written e er) (written f fq) ne rup qup = λ _. ne (sym e ∙ f)
  apart-After k j r q (written e er) (older n at) ne rup qup =
      λ (ex, ey). others_leave j q at n qup (ground arith, ground arith)
  apart-After k j r q (older n at) (written f fq) ne rup qup =
      λ (ex, ey). others_leave k r at n rup (ground arith, ground arith)
  apart-After k j r q (older n at) (older m bt) ne rup qup =
      a.players_apart k j r q at bt ne rup qup

  npcs-After :
      (k : String) (r : Player) → After k r → r.alive ≡ true → All (LeavesNpc r.x r.y) w.npcs
  npcs-After k r (written e er) up = rw er free.no_npc
  npcs-After k r (older n at) up = a.npcs_apart k r at up

  named-After : (k : String) (r : Player) → After k r → r.username ≡ k
  named-After k r (written e er) = rw er (name ∙ e)
  named-After k r (older n at) = a.named k r at

  pub insert-IsApart : IsApart (insert u p w.players) w.npcs
  insert-IsApart = record {
    named = λ k r at. named-After k r (lookup-After k r at);
    players_apart = λ k j r q at bt ne rup qup.
        apart-After k j r q (lookup-After k r at) (lookup-After j q bt) ne rup qup;
    npcs_apart = λ k r at up. npcs-After k r (lookup-After k r at) up;
  }

-- Some cell of the map is walkable.
abbrev pub HasRoom : World → String → Type 0
HasRoom w u = (x : ℤ) × (y : ℤ) × (walkable w x y u ≡ true)

refresh-Apart :
    (now : ℕ) (w : World) (u : String) (q : Player)
    → Apart w
    → HasRoom w u
    → lookup u w.players ≡ some q
    → (let r = refresh now w u q in Apart r.0 × (r.1.username ≡ u))
refresh-Apart now w u q a (x, y, room) at = elim (refresh-Refreshed now w u q) [
  | as_is e ↦ rw e (a, a.named u q at)
  | again g t down time due e ↦
      let back = revived now w q in
      let name : q.username ≡ u = a.named u q at in
      elim (find_safe-walkable w w.cfg.spawn_x w.cfg.spawn_y q.username) [
        | inl ok ↦
            let free : IsFree w back.x back.y u =
              subst (λ v. IsFree w back.x back.y v) name
                ((walkable_iff w back.x back.y q.username).0 ok) in
            rw e (insert-IsApart w u back a name free, name)
        | inr full ↦
            let no : walkable w x y u ≡ false =
              subst (λ v. walkable w x y v ≡ false) name (full x y) in
            cc
      ]
]

move_alive-Apart :
    (now : ℕ) (w : World) (u : String) (p : Player) (dir : String)
    → Apart w
    → p.username ≡ u
    → Apart (move_alive now w u p dir).0
move_alive-Apart now w u p dir a name =
    let x = (step_cell p.x p.y dir).0 in
    let y = (step_cell p.x p.y dir).1 in
    elim (move_alive-Moved now w u p dir) [
      | stays shut_cell e ↦ rw e a
      | walks open_cell bare e ↦ rw e (
          insert-IsApart w u (stepped now p x y) a name
            (subst (IsFree w x y) name ((walkable_iff w x y p.username).0 open_cell)))
      | finds id t open_cell hit e ↦ rw e (
          insert-IsApart w u (richer (stepped now p x y) t.value) a name
            (subst (IsFree w x y) name ((walkable_iff w x y p.username).0 open_cell)))
    ]

-- `MovePlayer` keeps the players on cells of their own, whatever the direction. If before it every player is
-- stored under the own name, and no two living players and no living player and living monster share a
-- cell, this is so after it, provided that some cell of the map is walkable for the player. Two monsters
-- are not compared.
pub move_player-Apart :
    (now : ℕ) (w : World) (u dir : String)
    → Apart w
    → HasRoom w u
    → Apart (move_player now w u dir).0
move_player-Apart now w u dir a room =
    move_player-cases Apart now w u a dir (λ q at. (refresh-Apart now w u q a room at).0)
      (λ q at up.
        let (apart, name) = refresh-Apart now w u q a room at in
        move_alive-Apart now _ u _ dir apart name)
