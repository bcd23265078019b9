-- ===== src/World/Examples.antt =====
-- A small world for the tests: a room of five cells with two players, two monsters and a treasure.
use a_simple_game_server.Prelude.{pos, true, false, [], ◌∷◌, none, some}
use a_simple_game_server.Protocol.{UserProfile}
use a_simple_game_server.World.State.{MapConfig, Player, Npc, Treasure, World, Grid}

abbrev pub room : Grid
room =
    ("#" ∷ "#" ∷ "#" ∷ "#" ∷ "#" ∷ [])
    ∷ ("#" ∷ "." ∷ "." ∷ "." ∷ "#" ∷ [])
    ∷ ("#" ∷ "." ∷ "." ∷ "#" ∷ "#" ∷ [])
    ∷ ("#" ∷ "#" ∷ "#" ∷ "#" ∷ "#" ∷ [])
    ∷ []

abbrev pub config : MapConfig
config = record {
  id = "m";
  name = "room";
  layout = "#####" ∷ "#...#" ∷ "#..##" ∷ "#####" ∷ [];
  spawn_x = pos 1;
  spawn_y = pos 1;
  boss_x = pos 3;
  boss_y = pos 1;
}

abbrev pub ann : Player
ann = record {
  username = "ann";
  map_id = "m";
  x = pos 1;
  y = pos 1;
  hp = 50;
  max_hp = 120;
  attack = 35;
  potions = 2;
  treasures = 4;
  kills = 0;
  deaths = 0;
  victories = 0;
  alive = true;
  respawn_at = none;
  last_update = 0;
}

abbrev pub ben : Player
ben = record ann { username = "ben"; x = pos 1; y = pos 2; hp = 20 }

-- Down until time 7.
abbrev pub fallen : Player
fallen = record ann { hp = 0; alive = false; respawn_at = some 7 }

abbrev pub bat : Npc
bat = record {
  id = "m-npc-1";
  name = "bat";
  x = pos 3;
  y = pos 1;
  hp = 40;
  max_hp = 40;
  attack = 18;
  alive = true;
}

abbrev pub rat : Npc
rat = record bat { id = "m-npc-3"; name = "rat"; x = pos 2; y = pos 2; hp = 30 }

abbrev pub coin : Treasure
coin = record { id = "m-t-1"; kind = "coin"; x = pos 2; y = pos 1; value = 3 }

abbrev pub world : World
world = record {
  cfg = config;
  terrain = room;
  players = ("ann", ann) ∷ ("ben", ben) ∷ [];
  npcs = ("m-npc-1", bat) ∷ ("m-npc-3", rat) ∷ [];
  treasures = ("m-t-1", coin) ∷ [];
  rng = record { asked = []; answer = λ asked n. 0 };
  version = 5;
  next_npc = 4;
  next_treasure = 2;
}

-- The profile that is stored of a player who leaves while down.
abbrev pub fallen_profile : UserProfile
fallen_profile = record {
  username = "ann";
  password_hash = "";
  last_map = "m";
  last_node = "node-a";
  x = pos 1;
  y = pos 1;
  hp = 0;
  max_hp = 120;
  attack = 35;
  potions = 2;
  treasures = 4;
  kills = 0;
  deaths = 1;
  victories = 0;
  alive = false;
}
