-- ===== src/World/Fights.antt =====
-- The ways in which `Attack` of world.go ends, as data, and what a dropped treasure leaves alone.
use a_simple_game_server.Prelude.{
  ℕ, ℤ, String, true, false, ◌∷◌, ◌%◌, none, some, ◌+◌, ◌-◌, ◌<◌, ◌≤◌, ◌≡◌, refl, inl, inr, arith,
  Bool-cases, Option-cases, eqb,
}
use a_simple_game_server.Prelude.Maps.{lookup, insert, delete}
use a_simple_game_server.World.State.{Player, Npc, World, bump, intn}
use a_simple_game_server.World.Grid.{cell_at}
use a_simple_game_server.World.Life.{refresh, knock_down}
use a_simple_game_server.World.Spawn.{treasure_at, drop_treasure}
use a_simple_game_server.World.Attack.{
  pick_npc, pick_player, kill_npc, wound_npc, strike_npc, kill_player, wound_player, strike_player,
  attack_alive, attack,
}
use a_simple_game_server.World.Outcomes.{store}

-- The parts of a world that a treasure never changes.
pub record SameUnits (w w' : World) : Type 0 where
  pub players : w'.players ≡ w.players
  pub npcs : w'.npcs ≡ w.npcs
  pub terrain : w'.terrain ≡ w.terrain
  pub cfg : w'.cfg ≡ w.cfg
  pub version : w.version ≤ w'.version

pub drop_treasure-SameUnits :
    (w : World) (x y : ℤ) (v : ℕ) (kind : String) → SameUnits w (drop_treasure w x y v kind).0
unfolding drop_treasure bump
drop_treasure-SameUnits w x y v kind = elim (Option-cases (cell_at w.terrain x y)) [
  | inl off ↦
      rw (off, drop_treasure)
        (record { players = refl; npcs = refl; terrain = refl; cfg = refl; version = omega arith })
  | inr (c, on) ↦ elim (Option-cases (treasure_at x y w.treasures)) [
    | inl bare ↦
        rw (on, drop_treasure, bare)
          (record {
            players = refl;
            npcs = refl;
            terrain = refl;
            cfg = refl;
            version = omega arith;
          })
    | inr ((id, t), at) ↦
        rw (on, drop_treasure, at)
          (record {
            players = refl;
            npcs = refl;
            terrain = refl;
            cfg = refl;
            version = omega arith;
          })
  ]
]

abbrev pub tired : ℕ → Player → Player
tired now p = record p { last_update = now }

abbrev pub winner : ℕ → Player → Player
winner now p = record p { last_update = now; kills = p.kills + 1 }

abbrev pub hurt_npc : Npc → ℕ → Npc
hurt_npc n d = record n { hp = n.hp - d }

abbrev pub hurt_player : Player → ℕ → Player
hurt_player o d = record o { hp = o.hp - d }

-- `w'` after `username`, who stands as `p`, has attacked in `w`.
pub data Fought (now : ℕ) (w : World) (username : String) (p : Player) (w' : World) : Type 0 where
  idle :
      pick_npc p.x p.y none w.npcs ≡ none
      → pick_player p username none w.players ≡ none
      → w' ≡ w
      → Fought now w username p w'
  hurts_npc :
      (key : String) (n : Npc)
      → pick_npc p.x p.y none w.npcs ≡ some (key, n)
      → p.attack < n.hp
      → w'
        ≡ record (store w username (tired now p)) { npcs = insert key (hurt_npc n p.attack) w.npcs }
      → Fought now w username p w'
  kills_npc :
      (key : String) (n : Npc)
      → pick_npc p.x p.y none w.npcs ≡ some (key, n)
      → n.hp ≤ p.attack
      → w' ≡ (kill_npc now w username p key n).0
      → Fought now w username p w'
  hurts_player :
      (key : String) (o : Player)
      → pick_npc p.x p.y none w.npcs ≡ none
      → pick_player p username none w.players ≡ some (key, o)
      → p.attack < o.hp
      → w' ≡ record w {
        players = insert key (hurt_player o p.attack) (insert username (tired now p) w.players);
        version = w.version + 1;
      }
      → Fought now w username p w'
  kills_player :
      (key : String) (o : Player)
      → pick_npc p.x p.y none w.npcs ≡ none
      → pick_player p username none w.players ≡ some (key, o)
      → o.hp ≤ p.attack
      → w' ≡ record w {
        players = insert key (knock_down now o) (insert username (winner now p) w.players);
        version = w.version + 1;
      }
      → Fought now w username p w'

-- An attack of a standing player ends in exactly one of these ways.
pub attack_alive-Fought :
    (now : ℕ) (w : World) (username : String) (p : Player)
    → Fought now w username p (attack_alive now w username p).0
unfolding attack_alive strike_npc strike_player wound_npc wound_player kill_player bump
attack_alive-Fought now w username p = elim (Option-cases (pick_npc p.x p.y none w.npcs)) [
  | inr ((key, n), hit) ↦ elim (Bool-cases (eqb (n.hp - p.attack) 0)) [
    | inl dead ↦ kills_npc key n hit (ground arith) (rw (hit, attack_alive, dead))
    | inr left ↦ hurts_npc key n hit (ground arith) (rw (hit, attack_alive, left))
  ]
  | inl clear ↦ elim (Option-cases (pick_player p username none w.players)) [
    | inl alone ↦ idle clear alone (rw (clear, attack_alive, alone))
    | inr ((key, o), hit) ↦ elim (Bool-cases (eqb (o.hp - p.attack) 0)) [
      | inl dead ↦ kills_player key o clear hit (ground arith) (rw (clear, attack_alive, hit, dead))
      | inr left ↦ hurts_player key o clear hit (ground arith) (rw (clear, attack_alive, hit, left))
    ]
  ]
]

-- The world after `kill_npc`, but for its treasures, generator and version.
pub kill_npc-players :
    (now : ℕ) (w : World) (username : String) (p : Player) (key : String) (n : Npc)
    → ((kill_npc now w username p key n).0.players ≡ insert username (winner now p) w.players)
      × ((kill_npc now w username p key n).0.npcs
          ≡ delete n.id (insert key (record n { hp = 0; alive = false }) w.npcs))
      × (w.version < (kill_npc now w username p key n).0.version)
unfolding kill_npc bump intn
kill_npc-players now w username p key n =
    let draw = w.rng.answer w.rng.asked 3 % 3 in
    let slain : World = record w {
      npcs = delete n.id (insert key (record n { hp = 0; alive = false }) w.npcs);
      players = insert username (winner now p) w.players;
      rng = record { asked = 3 ∷ w.rng.asked; answer = w.rng.answer };
    } in
    let kept = drop_treasure-SameUnits slain n.x n.y (2 + draw) "怪物战利品" in
    (kept.players, kept.npcs, omega (arith, kept.version))

module _ (Q : World → Type 0) (now : ℕ) (w : World) (username : String) where
  pub attack-cases :
      Q w
      → ((q : Player) → lookup username w.players ≡ some q → Q (refresh now w username q).0)
      → ((q : Player)
          → lookup username w.players ≡ some q
          → (refresh now w username q).1.alive ≡ true
          → Q
              (attack_alive now
                (refresh now w username q).0
                username
                (refresh now w username q).1).0)
      → Q (attack now w username).0
  unfolding attack
  attack-cases missing down up = elim (Option-cases (lookup username w.players)) [
    | inl gone ↦ rw (gone, attack) missing
    | inr (q, at) ↦ elim (Bool-cases (refresh now w username q).1.alive) [
      | inl alive ↦ rw (at, attack, alive) (up q at alive)
      | inr fallen ↦ rw (at, attack, fallen) (down q at)
    ]
  ]
