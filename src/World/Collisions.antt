-- ===== src/World/Collisions.antt =====
-- Identifiers in world.go: what a dropped treasure and a spawned monster do when the next identifier
-- is new, and when it is taken, as it may be after `RestoreCheckpoint`.
use a_simple_game_server.Prelude.{
  ℕ, ℤ, refl, String, true, false, none, some, ◌+◌, ◌≡◌, ◌≢◌, inl, inr, arith, Option-cases, length,
  eqb, ◌==◌, string_eq, [],
}
use Prim.Native.Char.{Char}
use text.Mathlib.TextEquality.{eq_iff}
use a_simple_game_server.Prelude.Maps.{
  lookup, lookup-insert_self, All-lookup, Distinct, sum-insert, sum-insert_new, length-insert,
}
use a_simple_game_server.Protocol.{MapCheckpoint, npc_damage}
use a_simple_game_server.World.State.{Npc, Treasure, World, intn, bump}
use a_simple_game_server.World.Grid.{cell_at}
use a_simple_game_server.World.Place.{walkable}
use a_simple_game_server.World.Spawn.{
  treasure_at, treasure_id, npc_id, npc_name, drop_treasure, spawn_npc,
}
use a_simple_game_server.World.Snapshot.{load_npcs, restore_checkpoint}
use a_simple_game_server.World.SpawnCells.{at_cell, nowhere, best_spawn_cell-Found}
use a_simple_game_server.World.Walkable.{LeavesNpc, walkable_iff}
use a_simple_game_server.World.Frames.{best_spawn_cell-SameBut}
use a_simple_game_server.World.Loot.{loot, treasure_at-lookup}

-- A treasure that is dropped on a cell of the map adds its value to the world's treasure, whether it
-- is laid on another one or on a bare cell, if the next identifier is new.
pub drop_treasure-loot :
    (w : World) (x y : ℤ) (v : ℕ) (kind : String) (c : Char)
    → cell_at w.terrain x y ≡ some c
    → Distinct w.treasures
    → lookup (treasure_id w.cfg.id w.next_treasure) w.treasures ≡ none
    → loot (drop_treasure w x y v kind).0 ≡ loot w + v
unfolding drop_treasure bump
drop_treasure-loot w x y v kind c on d new =
    let id = treasure_id w.cfg.id w.next_treasure in
    elim (Option-cases (treasure_at x y w.treasures)) [
      | inl bare ↦
          let laid : Treasure = record { id = id; kind = kind; x = x; y = y; value = v } in
          rw (on, drop_treasure, bare)
            (omega (arith, sum-insert_new (λ e. e.1.value) id laid w.treasures new))
      | inr ((key, t), hit) ↦
          let more : Treasure = record t { value = t.value + v } in
          rw (on, drop_treasure, hit)
            (omega (
              arith,
              sum-insert (λ e. e.1.value) key t more w.treasures
                  (treasure_at-lookup x y w.treasures key t d hit),
            ))
    ]

-- If the next identifier is taken, the treasure that has it is lost.
pub drop_treasure_overwrites :
    (w : World) (x y : ℤ) (v : ℕ) (kind : String) (c : Char) (old : Treasure)
    → cell_at w.terrain x y ≡ some c
    → treasure_at x y w.treasures ≡ none
    → lookup (treasure_id w.cfg.id w.next_treasure) w.treasures ≡ some old
    → loot (drop_treasure w x y v kind).0 + old.value ≡ loot w + v
unfolding drop_treasure bump
drop_treasure_overwrites w x y v kind c old on bare taken =
    let id = treasure_id w.cfg.id w.next_treasure in
    let laid : Treasure = record { id = id; kind = kind; x = x; y = y; value = v } in
    rw (on, drop_treasure, bare)
      (omega (arith, sum-insert (λ e. e.1.value) id old laid w.treasures taken))

-- What a spawn does in a world where a living monster has the next number: the monster that is spawned,
-- on another cell, has its place in the list of the monsters, which is not longer.
abbrev pub Replaces : World → Npc → Type 0
Replaces w old =
    let id = npc_id w.cfg.id w.next_npc in
    (new : Npc) × ((spawn_npc w).1 ≡ some new)
    × (lookup id w.npcs ≡ some old)
    × (lookup id (spawn_npc w).0.npcs ≡ some new)
    × ¬ ((old.x ≡ new.x) × (old.y ≡ new.y))
    × (length (spawn_npc w).0.npcs ≡ length w.npcs)

spawn_npc-Replaces :
    (w : World) (old : Npc) (x y : ℤ)
    → lookup (npc_id w.cfg.id w.next_npc) w.npcs ≡ some old
    → old.alive ≡ true
    → walkable w x y "" ≡ true
    → Replaces w old
unfolding spawn_npc bump intn
spawn_npc-Replaces w old x y taken lives open_cell =
    let (r, e) = best_spawn_cell-SameBut w "" true in
    elim (best_spawn_cell-Found w "" true) [
      | nowhere _ full ↦ absurd (let shut = full x y in cc)
      | at_cell x' y' at ok ↦
          let id = npc_id w.cfg.id w.next_npc in
          let w2 : World = record w { rng = r } in
          let new : Npc = record {
            id = id;
            name = npc_name w.next_npc;
            x = x';
            y = y';
            hp = 70 + (intn w2 30).0;
            max_hp = 90;
            attack = npc_damage;
            alive = true;
          } in
          let free = (walkable_iff w x' y' "").0 ok in
          (
            new,
            rw (at, spawn_npc, e) refl,
            taken,
            rw (at, spawn_npc, e) (lookup-insert_self id new w.npcs),
            All-lookup (LeavesNpc x' y') id old w.npcs free.no_npc taken lives,
            rw (at, spawn_npc, e) (length-insert id old new w.npcs taken),
          )
    ]

-- The bug: `RestoreCheckpoint` counts the monsters to number the next one. Where the checkpoint holds a
-- living monster under the number after their count, the next spawn in the restored world puts a new
-- monster, on another cell, in its place under the same identifier, and there are as many monsters as
-- before. It holds for a checkpoint of this map with a version, if some cell of the restored map is
-- walkable.
pub restore_then_spawn :
    (now : ℕ) (w : World) (cp : MapCheckpoint) (old : Npc) (x y : ℤ)
    → cp.map_id ≡ w.cfg.id
    → cp.version ≢ 0
    → lookup (npc_id w.cfg.id (length (load_npcs cp.npcs []) + 1)) (load_npcs cp.npcs []) ≡ some old
    → old.alive ≡ true
    → walkable (restore_checkpoint now w cp) x y "" ≡ true
    → Replaces (restore_checkpoint now w cp) old
unfolding restore_checkpoint
restore_then_spawn now w cp old x y same live taken lives open_cell =
    let mine : (cp.map_id == w.cfg.id) ≡ true = (eq_iff cp.map_id w.cfg.id).1 same in
    let fresh : eqb cp.version 0 ≡ false = ground arith in
    spawn_npc-Replaces (restore_checkpoint now w cp) old x y (rw (mine, fresh) taken) lives
      open_cell
