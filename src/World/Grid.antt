-- ===== src/World/Grid.antt =====
-- world.go, `stringsToGrid` to `carve`: terrain as rows of characters.
use Prim.Native.Char.{Char}
use Prim.Native.Nat.{min}
use a_simple_game_server.Prelude.{
  ℕ, suc, ℤ, pos, negsuc, String, List, Option, none, some, map, ◌+◌, ◌-◌, ltb, leb, length,
  get_elem?, set, replicate, runes, from_runes, for_range, if◌then◌else◌, pos_part, Bool, eqb,
}
use a_simple_game_server.Protocol.{map_width, map_height}
use a_simple_game_server.World.State.{Grid}
use Prim.Native.Char.{code}

abbrev pub wall : Char
wall = "#"

abbrev pub floor : Char
floor = "."

unfoldable pub is_wall : Char → Bool
is_wall c = eqb (code c) b'#'

unfoldable pub strings_to_grid : List String → Grid
strings_to_grid rows = map runes rows

unfoldable pub grid_to_strings : Grid → List String
grid_to_strings grid = map from_runes grid

-- `grid[y][x]`, or `none` where an index is out of range.
unfoldable pub cell_at : Grid → ℤ → ℤ → Option Char
cell_at grid (pos x) (pos y) = elim (get_elem? grid y) [ none ↦ none | some row ↦ get_elem? row x ]
cell_at grid _ _ = none

-- `grid[y][x] = c` where the indices are in range; a write out of range, which panics, is left out
-- by the guards of every caller.
unfoldable pub put_cell : Char → ℕ → ℕ → Grid → Grid
put_cell c x y grid = elim (get_elem? grid y) [ none ↦ grid | some row ↦ set grid y (set row x c) ]

-- `len(grid[y])`.
abbrev pub row_length : Grid → ℕ → ℕ
row_length grid y = elim (get_elem? grid y) [ none ↦ 0 | some row ↦ length row ]

unfoldable pub blank_grid : Grid
blank_grid = replicate map_height (replicate map_width floor)

unfoldable pub draw_border : Grid → Grid
unfolding put_cell for_range
draw_border grid =
    let across = λ (x : ℕ) (g : Grid). put_cell wall x (length g - 1) (put_cell wall x 0 g) in
    let down = λ (y : ℕ) (g : Grid). put_cell wall (row_length g y - 1) y (put_cell wall 0 y g) in
    let g = for_range 0 (row_length grid 0) across grid in for_range 0 (length g) down g

-- The bounds of both loops stop at the grid's edge.
unfoldable pub fill_rect : ℕ → ℕ → ℕ → ℕ → Grid → Grid
unfolding put_cell for_range
fill_rect x y width height grid =
    let row = λ (yy : ℕ) (g : Grid).
      for_range x (min (x + width) (row_length g yy) - x) (λ xx g'. put_cell wall xx yy g') g in
    for_range y (min (y + height) (length grid) - y) row grid

unfoldable pub draw_h : ℤ → ℤ → ℤ → Grid → Grid
unfolding put_cell for_range
draw_h (negsuc y) from_x to_x grid = grid
draw_h (pos y) from_x (negsuc to_x) grid = grid
draw_h (pos y) from_x (pos to_x) grid =
    if leb (length grid) y
    then grid
    else let start = pos_part from_x in
      for_range start (min (suc to_x) (row_length grid y) - start) (λ x g. put_cell wall x y g) grid

unfoldable pub draw_v : ℤ → ℤ → ℤ → Grid → Grid
unfolding put_cell for_range
draw_v (pos x) from_y (pos to_y) grid =
    let start = pos_part from_y in
    let body = λ (y : ℕ) (g : Grid). if ltb x (row_length g y) then put_cell wall x y g else g in
    for_range start (min (suc to_y) (length grid) - start) body grid
draw_v _ from_y _ grid = grid

unfoldable pub carve : ℤ → ℤ → Grid → Grid
unfolding put_cell
carve (pos x) (pos y) grid =
    if ltb y (length grid)
    then (if ltb x (row_length grid y) then put_cell floor x y grid else grid)
    else grid
carve _ _ grid = grid
