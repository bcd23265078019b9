-- ===== src/World/Maps.antt =====
-- world.go, the three built-in maps and their lookup by identifier.
use a_simple_game_server.Prelude.{
  pos, String, List, [], ◌∷◌, Option, none, some, ◌==◌, string_eq, if◌then◌else◌,
}
use a_simple_game_server.World.State.{MapConfig, Grid}
use a_simple_game_server.World.Grid.{
  blank_grid, draw_border, fill_rect, draw_h, draw_v, carve, grid_to_strings,
}

-- The statements of a builder, in their order.
unfoldable pub draw : List (Grid → Grid) → Grid → Grid
draw [] g = g
draw (f ∷ fs) g = draw fs (f g)

unfoldable pub green_grid : Grid
unfolding blank_grid draw_border fill_rect draw_h draw_v carve draw
green_grid =
    draw
      (draw_border
        ∷ fill_rect 8 3 14 5
        ∷ fill_rect 33 14 14 4
        ∷ draw_v (pos 26) (pos 1) (pos 21)
        ∷ draw_v (pos 45) (pos 2) (pos 13)
        ∷ draw_h (pos 9) (pos 1) (pos 20)
        ∷ draw_h (pos 7) (pos 30) (pos 54)
        ∷ carve (pos 26) (pos 5)
        ∷ carve (pos 26) (pos 12)
        ∷ carve (pos 26) (pos 18)
        ∷ carve (pos 45) (pos 5)
        ∷ carve (pos 45) (pos 10)
        ∷ carve (pos 6) (pos 9)
        ∷ carve (pos 12) (pos 9)
        ∷ carve (pos 18) (pos 9)
        ∷ carve (pos 37) (pos 7)
        ∷ carve (pos 44) (pos 7)
        ∷ carve (pos 50) (pos 7)
        ∷ [])
      blank_grid

unfoldable pub build_green_map : MapConfig
unfolding green_grid grid_to_strings
build_green_map = record {
  id = "green";
  name = "青岚要塞";
  layout = grid_to_strings green_grid;
  spawn_x = pos 4;
  spawn_y = pos 4;
  boss_x = pos 50;
  boss_y = pos 20;
}

unfoldable pub cave_grid : Grid
unfolding blank_grid draw_border fill_rect draw_h draw_v carve draw
cave_grid =
    draw
      (draw_border
        ∷ fill_rect 5 5 10 9
        ∷ fill_rect 36 12 12 7
        ∷ draw_v (pos 28) (pos 1) (pos 22)
        ∷ draw_h (pos 4) (pos 18) (pos 51)
        ∷ draw_h (pos 18) (pos 2) (pos 25)
        ∷ draw_v (pos 18) (pos 10) (pos 20)
        ∷ carve (pos 28) (pos 4)
        ∷ carve (pos 28) (pos 11)
        ∷ carve (pos 28) (pos 18)
        ∷ carve (pos 22) (pos 4)
        ∷ carve (pos 34) (pos 4)
        ∷ carve (pos 45) (pos 4)
        ∷ carve (pos 9) (pos 18)
        ∷ carve (pos 14) (pos 18)
        ∷ carve (pos 18) (pos 15)
        ∷ [])
      blank_grid

unfoldable pub build_cave_map : MapConfig
unfolding cave_grid grid_to_strings
build_cave_map = record {
  id = "cave";
  name = "玄矿地窟";
  layout = grid_to_strings cave_grid;
  spawn_x = pos 4;
  spawn_y = pos 20;
  boss_x = pos 49;
  boss_y = pos 20;
}

unfoldable pub ruins_grid : Grid
unfolding blank_grid draw_border fill_rect draw_h draw_v carve draw
ruins_grid =
    draw
      (draw_border
        ∷ draw_v (pos 12) (pos 2) (pos 20)
        ∷ draw_v (pos 24) (pos 1) (pos 18)
        ∷ draw_v (pos 37) (pos 5) (pos 22)
        ∷ draw_h (pos 6) (pos 2) (pos 22)
        ∷ draw_h (pos 13) (pos 15) (pos 40)
        ∷ fill_rect 42 3 8 5
        ∷ fill_rect 6 15 8 4
        ∷ carve (pos 12) (pos 5)
        ∷ carve (pos 12) (pos 11)
        ∷ carve (pos 12) (pos 17)
        ∷ carve (pos 24) (pos 4)
        ∷ carve (pos 24) (pos 10)
        ∷ carve (pos 24) (pos 16)
        ∷ carve (pos 37) (pos 9)
        ∷ carve (pos 37) (pos 17)
        ∷ carve (pos 8) (pos 6)
        ∷ carve (pos 18) (pos 6)
        ∷ carve (pos 19) (pos 13)
        ∷ carve (pos 29) (pos 13)
        ∷ carve (pos 44) (pos 13)
        ∷ [])
      blank_grid

unfoldable pub build_ruins_map : MapConfig
unfolding ruins_grid grid_to_strings
build_ruins_map = record {
  id = "ruins";
  name = "残星遗迹";
  layout = grid_to_strings ruins_grid;
  spawn_x = pos 50;
  spawn_y = pos 4;
  boss_x = pos 50;
  boss_y = pos 20;
}

unfoldable pub available_maps : List MapConfig
unfolding build_green_map build_cave_map build_ruins_map
available_maps = build_green_map ∷ build_cave_map ∷ build_ruins_map ∷ []

abbrev pub default_map_id : String
default_map_id = "green"

-- The loop of `FindConfig`.
unfoldable pub find_in : String → List MapConfig → Option MapConfig
find_in id [] = none
find_in id (c ∷ cs) = if c.id == id then some c else find_in id cs

unfoldable pub find_config : String → Option MapConfig
unfolding find_in available_maps
find_config id = find_in id available_maps
