-- ===== src/Map/Disk.antt =====
-- The part of lib/coregame/src/cg_map.c that goes between a map in memory and its image on disk:
-- `cg_map_load`, `cg_map_load_disk`, `cg_map_runtime_disk_size`, `cg_map_save`. Opening, reading and
-- writing the file are the caller's: what was read is an argument, what is written a result.
pub mod Save
pub mod Load
pub mod RoundTrip
pub mod Faults
use wa_game.Prelude.{
  ℕ, ◌+◌, ◌-◌, ◌*◌, ◌/◌, ◌%◌, ◌^◌, Bool, true, false, Option, none, some, List, [], ◌∷◌, ◌==◌,
  if◌then◌else◌, get_elem?, length, for_range, ◌>>=◌,
}
use wa_game.Platform.{ArrayApi}
use wa_game.Map.{
  Cell, DiskCell, DiskMap, Header, RuntimeMap, Write, map_magic, sizeof_header, sizeof_disk_cell,
  cell_block, u16, u32, modify_at, for_cells, map_new, runtime_map_at,
}

-- `disk_cells_count`; the subtraction is one of `size_t`.
abbrev pub disk_cells_count : ℕ → ℕ
disk_cells_count disk_size = (disk_size + 2 ^ 64 - sizeof_header) % 2 ^ 64 / sizeof_disk_cell

abbrev pub from_disk : DiskCell → Cell → Cell
from_disk d c = record c { type = d.type; pos = d.pos }

-- A round of the first loop of `cg_map_load_disk`.
pub load_cell : List DiskCell → ℕ → RuntimeMap → Option RuntimeMap
load_cell disk i ret = do
  disk_cell ← get_elem? disk i
  p ← runtime_map_at ret disk_cell.pos.x disk_cell.pos.y
  cells ← modify_at ret.cells p (from_disk disk_cell)
  some (record ret { cells = cells })

-- `array_init(&data->contents, …)` in every cell that is no block.
abbrev pub with_contents : Cell → Cell
with_contents c = if c.type == cell_block then c else record c { contents = some [] }

-- A round of the second loop.
abbrev content_slot : RuntimeMap → ℕ → ℕ → Option Write
content_slot ret x y = do p ← runtime_map_at ret (u16 x) (u16 y); some (p, with_contents)

alloc_contents : RuntimeMap → Option RuntimeMap
alloc_contents ret = do
  cells ← for_cells ret.w ret.h (content_slot ret) ret.cells
  some (record ret { cells = cells })

pub map_load_disk : DiskMap → ℕ → Option RuntimeMap
unfolding load_cell alloc_contents
map_load_disk disk disk_size = do
  ret ← map_new disk.header.w disk.header.h disk.header.grid_size
  ret ← for_range (disk_cells_count disk_size) 0 (load_cell disk.cells) ret
  alloc_contents ret

abbrev same_bytes : List ℕ → List ℕ → Bool
same_bytes [] [] = true
same_bytes (a ∷ as') (b ∷ bs) = if a == b then same_bytes as' bs else false
same_bytes _ _ = false

-- The argument is the file's image and size, `none` if it could not be opened; the inner `none` is
-- the NULL that is returned. The size goes to `cg_map_load_disk` as 32 bits.
pub map_load : Option (DiskMap × ℕ) → Option (Option RuntimeMap)
unfolding map_load_disk
map_load none = some none
map_load (some (disk, size)) =
    if same_bytes disk.header.magic map_magic
    then (do ret ← map_load_disk disk (u32 size); some (some ret))
    else some none

-- What `cg_map_save` leaves in the file that it opened (`fopen` with "wb+" empties it).
pub data SavedFile : Type 0 where
  untouched : SavedFile
  emptied : SavedFile
  image : DiskMap → ℕ → SavedFile

abbrev pub header_of : RuntimeMap → Header
header_of m = record { magic = map_magic; w = u16 m.w; h = u16 m.h; grid_size = u16 m.grid_size }

module _ (arrays : ArrayApi) where
  abbrev count_cell : RuntimeMap → ℕ → ℕ × List ℕ → Option (ℕ × List ℕ)
  count_cell m i (size, idx) = do
    cell ← get_elem? m.cells i
    some (if cell.type == 0 then (size, idx) else (size + sizeof_disk_cell, arrays.add idx i))

  -- The size of the image, and the indices of the cells that go into it.
  map_runtime_disk_size : RuntimeMap → Option (ℕ × List ℕ)
  map_runtime_disk_size m = for_range ((m.w * m.h) % 2 ^ 32) 0 (count_cell m) (sizeof_header, [])

  -- The loop that fills `map_disk->cells`.
  copy_cells : RuntimeMap → List ℕ → Option (List DiskCell)
  copy_cells m [] = some []
  copy_cells m (i ∷ idx) = do
    src ← get_elem? m.cells i
    rest ← copy_cells m idx
    some (record { pos = src.pos; type = src.type } ∷ rest)

  pub map_save : Bool → RuntimeMap → Option (Bool × SavedFile)
  unfolding map_runtime_disk_size copy_cells
  map_save false m = some (false, SavedFile.untouched)
  map_save true m = do
    (size, idx) ← map_runtime_disk_size m
    cells ← copy_cells m idx
    let disk : DiskMap = record { header = header_of m; cells = cells }
    some (if length idx == 0 then (false, SavedFile.emptied) else (true, SavedFile.image disk size))
