-- ===== src/World/Snapshot.antt =====
-- world.go, what is read and restored: `Snapshot`, `Counts`, `CaptureCheckpoint` and
-- `RestoreCheckpoint`.
use a_simple_game_server.Prelude.{
  ℕ, String, not, ◌||◌, List, [], ◌∷◌, none, map, ◌+◌, eqb, ◌==◌, string_eq, str_lt, length, runes,
  if◌then◌else◌,
}
use a_simple_game_server.Prelude.Maps.{Map, insert, keys}
use a_simple_game_server.Prelude.Sorting.{sort_by}
use a_simple_game_server.Protocol.{
  PlayerView, NpcView, TreasureView, MapView, MapCheckpoint, max_potions,
}
use a_simple_game_server.World.State.{Player, Npc, Treasure, World, value_or}
use a_simple_game_server.World.Grid.{strings_to_grid, grid_to_strings}
use a_simple_game_server.World.Life.{player_view}
use a_simple_game_server.World.Background.{refresh_all}

unfoldable pub npc_view : Npc → NpcView
npc_view n = record {
  id = n.id;
  name = n.name;
  x = n.x;
  y = n.y;
  hp = n.hp;
  max_hp = n.max_hp;
  attack = n.attack;
  alive = n.alive;
}

unfoldable pub treasure_view : Treasure → TreasureView
treasure_view t = record { id = t.id; kind = t.kind; x = t.x; y = t.y; value = t.value }

abbrev layout_width : List String → ℕ
layout_width [] = 0
layout_width (row ∷ _) = length (runes row)

-- The map as it stands, without the refresh that comes before.
unfoldable pub map_view : ℕ → World → String → MapView
map_view now w node_id = record {
  id = w.cfg.id;
  name = w.cfg.name;
  node_id = node_id;
  width = layout_width w.cfg.layout;
  height = length w.cfg.layout;
  terrain = grid_to_strings w.terrain;
  players =
      sort_by (λ a b. str_lt a.username b.username) (map (λ e. player_view now e.1) w.players);
  npcs = sort_by (λ a b. str_lt a.id b.id) (map (λ e. npc_view e.1) w.npcs);
  treasures = sort_by (λ a b. str_lt a.id b.id) (map (λ e. treasure_view e.1) w.treasures);
  version = w.version;
}

unfoldable pub snapshot : ℕ → World → String → World × MapView
unfolding map_view
snapshot now w node_id =
    let w' = (refresh_all now (keys w.players) w).0 in (w', map_view now w' node_id)

-- Players, monsters, treasures and the version.
unfoldable pub counts : World → ℕ × ℕ × ℕ × ℕ
counts w = (length w.players, length w.npcs, length w.treasures, w.version)

unfoldable pub capture_checkpoint : ℕ → World → String → World × MapCheckpoint
unfolding snapshot
capture_checkpoint now w node_id =
    let (w', v) = snapshot now w node_id in
    (
      w',
      record {
        map_id = v.id;
        node_id = v.node_id;
        version = v.version;
        terrain = v.terrain;
        players = v.players;
        npcs = v.npcs;
        treasures = v.treasures;
        checkpoint = now;
      },
    )

unfoldable pub player_of_view : ℕ → String → PlayerView → Player
unfolding value_or
player_of_view now map_id v = record {
  username = v.username;
  map_id = map_id;
  x = v.x;
  y = v.y;
  hp = v.hp;
  max_hp = v.max_hp;
  attack = v.attack;
  potions = value_or v.potions max_potions;
  treasures = v.treasures;
  kills = v.kills;
  deaths = v.deaths;
  victories = v.victories;
  alive = v.alive;
  respawn_at = none;
  last_update = now;
}

unfoldable pub npc_of_view : NpcView → Npc
npc_of_view v = record {
  id = v.id;
  name = v.name;
  x = v.x;
  y = v.y;
  hp = v.hp;
  max_hp = v.max_hp;
  attack = v.attack;
  alive = v.alive;
}

unfoldable pub treasure_of_view : TreasureView → Treasure
treasure_of_view v = record { id = v.id; kind = v.kind; x = v.x; y = v.y; value = v.value }

-- The three loops that fill a fresh map, in the views' order.
unfoldable pub load_players : ℕ → String → List PlayerView → Map Player → Map Player
load_players now map_id [] m = m
load_players now map_id (v ∷ vs) m =
    load_players now map_id vs (insert v.username (player_of_view now map_id v) m)

unfoldable pub load_npcs : List NpcView → Map Npc → Map Npc
load_npcs [] m = m
load_npcs (v ∷ vs) m = load_npcs vs (insert v.id (npc_of_view v) m)

unfoldable pub load_treasures : List TreasureView → Map Treasure → Map Treasure
load_treasures [] m = m
load_treasures (v ∷ vs) m = load_treasures vs (insert v.id (treasure_of_view v) m)

unfoldable pub restore_checkpoint : ℕ → World → MapCheckpoint → World
unfolding player_of_view npc_of_view treasure_of_view load_players load_npcs load_treasures
restore_checkpoint now w cp =
    if not (cp.map_id == w.cfg.id) || eqb cp.version 0
    then w
    else let npcs' = load_npcs cp.npcs [] in
      let treasures' = load_treasures cp.treasures [] in
      record w {
        terrain = elim cp.terrain [ [] ↦ w.terrain | row ∷ rows ↦ strings_to_grid (row ∷ rows) ];
        players = load_players now w.cfg.id cp.players [];
        npcs = npcs';
        treasures = treasures';
        version = cp.version;
        next_npc = length npcs' + 1;
        next_treasure = length treasures' + 1;
      }
