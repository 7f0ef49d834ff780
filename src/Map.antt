-- ===== src/Map.antt =====
-- lib/coregame/src/cg_map.c with lib/coregame/include/cg_map.h: the grid of cells in memory and
-- on disk. A map's `cells[]` is the list of the cells that its allocation holds; a pointer to a
-- cell is its index there. A function that reads or writes through a pointer returns `none` where
-- the C program leaves the allocation or follows a null pointer.
pub mod Cells
pub mod Resize
pub mod Disk
pub mod World
use wa_game.Prelude.{
  ℕ, ◌+◌, ◌-◌, ◌*◌, ◌/◌, ◌%◌, ◌^◌, Bool, false, ◌||◌, ◌&&◌, Option, none, some, List, [], ◌∷◌, ltb,
  leb, ◌==◌, if◌then◌else◌, get_elem?, replicate, for_range, ◌>>=◌, not,
}

-- `CG_CELL_*`
abbrev pub cell_empty : ℕ
cell_empty = 0

abbrev pub cell_block : ℕ
cell_block = 1

abbrev pub cell_spawn : ℕ
cell_spawn = 2

-- `vec2u16_t`
pub record CellPos : Type 0 where
  pub x : ℕ
  pub y : ℕ

-- `cg_disk_cell_t`
pub record DiskCell : Type 0 where
  pub pos : CellPos
  pub type : ℕ

-- `cg_runtime_cell_t`; `contents` is the `cg_empty_cell_data_t` behind `data`, with the players
-- that stand in the cell (`none` for a null `data`).
pub record Cell : Type 0 where
  pub pos : CellPos
  pub type : ℕ
  pub contents : Option (List ℕ)

-- `cg_map_header_t`
pub record Header : Type 0 where
  pub magic : List ℕ
  pub w : ℕ
  pub h : ℕ
  pub grid_size : ℕ

-- `cg_disk_map_t`
pub record DiskMap : Type 0 where
  pub header : Header
  pub cells : List DiskCell

-- `cg_runtime_map_t`
pub record RuntimeMap : Type 0 where
  pub w : ℕ
  pub h : ℕ
  pub grid_size : ℕ
  pub editor_mode : Bool
  pub cells : List Cell

-- `CG_MAP_MAGIC`, with its closing zero
abbrev pub map_magic : List ℕ
map_magic = b'.' ∷ b'c' ∷ b'g' ∷ b'm' ∷ b'a' ∷ b'p' ∷ 0 ∷ []

abbrev pub u16 : ℕ → ℕ
u16 n = n % 2 ^ 16

abbrev pub u32 : ℕ → ℕ
u32 n = n % 2 ^ 32

-- `sizeof` of the packed header and disk cell, and of the runtime cell and map on a 64-bit target.
abbrev pub sizeof_header : ℕ
sizeof_header = 13

abbrev pub sizeof_disk_cell : ℕ
sizeof_disk_cell = 5

abbrev pub sizeof_cell : ℕ
sizeof_cell = 16

abbrev pub sizeof_map : ℕ
sizeof_map = 16

pub runtime_map_calc_size : ℕ → ℕ → ℕ
runtime_map_calc_size w h = u32 (w * h * sizeof_cell + sizeof_map)

pub disk_map_calc_size : ℕ → ℕ → ℕ
disk_map_calc_size w h = u32 (w * h * sizeof_disk_cell + sizeof_header)

pub runtime_map_size : RuntimeMap → ℕ
unfolding runtime_map_calc_size
runtime_map_size m = runtime_map_calc_size (u16 m.w) (u16 m.h)

-- `(y * map->w) + x`, an unsigned 32-bit sum
abbrev pub cell_index : ℕ → ℕ → ℕ → ℕ
cell_index w x y = u32 (y * w + x)

-- A write through a pointer into `cells[]`.
unfoldable pub modify_at {ℓ} : {A : Type ℓ} → List A → ℕ → (A → A) → Option (List A)
modify_at [] i f = none
modify_at (c ∷ cs) ℕ.zero f = some (f c ∷ cs)
modify_at (c ∷ cs) (ℕ.suc i) f = do cs' ← modify_at cs i f; some (c ∷ cs')

-- An update through a pointer to a cell.
abbrev pub Write : Type 0
Write = ℕ × (Cell → Cell)

abbrev pub write : List Cell → Write → Option (List Cell)
write cells (p, f) = modify_at cells p f

-- `for (x = 0; x < w; x++) for (y = 0; y < h; y++)`, each round writing what `g` computes for it.
unfoldable pub for_cells : ℕ → ℕ → (ℕ → ℕ → Option Write) → List Cell → Option (List Cell)
for_cells w h g = for_range w 0 λ x. for_range h 0 λ y cells. g x y >>= write cells

abbrev blank_cell : Cell
blank_cell = record { pos = record { x = 0; y = 0 }; type = 0; contents = none }

abbrev at_pos : ℕ → ℕ → Cell → Cell
at_pos x y c = record c { pos = record { x = x; y = y } }

map_set_cells_pos : RuntimeMap → Option RuntimeMap
unfolding for_cells modify_at for_range
map_set_cells_pos m = do
  cells ← for_cells m.w m.h (λ x y. some (cell_index m.w x y, at_pos x y)) m.cells
  some (record m { cells = cells })

-- `calloc(1, size)` as a map: what is left behind the header holds whole cells.
map_calloc : ℕ → Option (List Cell)
map_calloc size =
    if ltb size sizeof_map
    then none
    else some (replicate ((size - sizeof_map) / sizeof_cell) blank_cell)

pub map_new : ℕ → ℕ → ℕ → Option RuntimeMap
unfolding map_set_cells_pos map_calloc runtime_map_calc_size
map_new w h grid_size = do
  cells ← map_calloc (runtime_map_calc_size w h)
  map_set_cells_pos
      (record { w = w; h = h; grid_size = grid_size; editor_mode = false; cells = cells })

pub mini16 : ℕ → ℕ → ℕ
mini16 a b = if ltb b a then b else a

abbrev with_type : ℕ → Cell → Cell
with_type t c = record c { type = t }

-- The new map, through `*mapp`.
pub map_resize : RuntimeMap → ℕ → ℕ → Option RuntimeMap
unfolding map_new mini16 for_cells modify_at for_range
map_resize m new_w new_h =
    if not m.editor_mode then some m else if new_w == m.w && new_h == m.h then some m else (do
      new_map ← map_new new_w new_h (u16 m.grid_size)
      let old_w = u16 m.w
      let old_h = u16 m.h
      let copy = λ (x y : ℕ). do
        old_cell ← get_elem? m.cells (u32 (y * old_w + x))
        some (u32 (y * new_w + x), with_type old_cell.type)
      cells ← for_cells (mini16 new_w old_w) (mini16 new_h old_h) copy new_map.cells
      some (record new_map { cells = cells }))

-- The pointer, or `none` for NULL.
pub disk_map_at : DiskMap → ℕ → ℕ → Option ℕ
disk_map_at m x y = if leb m.header.w x || leb m.header.h y then none else some (y * m.header.w + x)

unfoldable pub runtime_map_at : RuntimeMap → ℕ → ℕ → Option ℕ
runtime_map_at m x y = if leb m.w x || leb m.h y then none else some (cell_index m.w x y)
