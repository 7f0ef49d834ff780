-- ===== src/Map/Disk/RoundTrip.antt =====
-- Loading the image of a saved map gives the map back.
use wa_game.Prelude.{
  ℕ, zero, suc, ◌+◌, ◌<◌, ◌≡◌, ◌≢◌, refl, sym, ◌∙◌, arith, true, false, none, some, List, [], ◌∷◌,
  ◌==◌, ◌&&◌, ltb, if◌then◌else◌, get_elem?, length, for_range, Returns, lt→ltb,
}
use mathlib.Core.Option
use wa_game.Platform.{ArrayApi, IsArray}
use wa_game.Map.{Cell, DiskMap, RuntimeMap, map_new, cell_index, cell_block, u16, u32}
use wa_game.Map.Cells.{for_cells_lem}
use wa_game.Map.Resize.{IsValid, Fits, IsBlank, map_new_lem}
use wa_game.Map.Disk.{
  SavedFile, disk_cells_count, with_contents, content_slot, alloc_contents, map_load, map_load_disk,
  map_save, load_cell,
}
use wa_game.Map.Disk.Save.{stored, length-stored, Suffix-self, disk_image, image_size, map_save_lem}
use wa_game.Map.Disk.Load.{
  Loaded, seen, load_list-eq, load_list-Loaded, blank-Loaded, placed_at, index_lt,
  runtime_map_at-some, bind_Returns,
}

-- The cell that is loaded for a saved one: an empty list of players in all but blocks.
abbrev pub reloaded_cell : Cell → Cell
reloaded_cell c = record {
  pos = c.pos;
  type = c.type;
  contents = if c.type == cell_block then none else some [];
}

pub record IsReloaded (m m' : RuntimeMap) : Type 0 where
  pub w_eq : m'.w ≡ m.w
  pub h_eq : m'.h ≡ m.h
  pub grid_eq : m'.grid_size ≡ u16 m.grid_size
  pub room : length m'.cells ≡ length m.cells
  pub cells_eq :
      (k : ℕ) (c : Cell)
      → get_elem? m.cells k ≡ some c
      → get_elem? m'.cells k ≡ some (reloaded_cell c)

some_stored :
    (cs : List Cell) (k : ℕ) (c : Cell)
    → get_elem? cs k ≡ some c
    → c.type ≢ 0
    → (length (stored cs) == 0) ≡ false
some_stored [] k c e filled = cc
some_stored (d ∷ cs) zero c e filled = ground arith
some_stored (d ∷ cs) (suc k) c e filled = ground (arith, some_stored cs k c e filled)

module _ (m : RuntimeMap) (v : IsValid m) (fits : Fits m.w m.h) where
  count-eq : disk_cells_count (image_size m) ≡ length (stored m.cells)
  count-eq = omega (arith, length-stored m.cells, v.room)

  with_contents-seen :
      (k : ℕ) (c : Cell)
      → k < length m.cells
      → some (with_contents (seen m v (length m.cells) k c)) ≡ some (reloaded_cell c)
  with_contents-seen k c p = ground arith

  module _ (r : RuntimeMap) (l : Loaded m v (length m.cells) r) where
    slot-eq :
        (x y : ℕ)
        → x < r.w
        → y < r.h
        → content_slot r x y ≡ some (cell_index r.w x y, with_contents)
    slot-eq x y p q =
        let x-eq : u16 x ≡ x = omega (arith, l.w_eq, v.w_small) in
        let y-eq : u16 y ≡ y = omega (arith, l.h_eq, v.h_small) in
        rw (x-eq, y-eq, runtime_map_at-some r x y p q) refl

    emptied :
        (cells : List Cell)
        → length cells ≡ length r.cells
        → ((x y : ℕ)
            → x < r.w
            → y < r.h
            → get_elem? cells (cell_index r.w x y) ≡ (
                if ltb x r.w && ltb y r.h
                then Option.map with_contents (get_elem? r.cells (cell_index r.w x y))
                else get_elem? r.cells (cell_index r.w x y)))
        → IsReloaded m (record r { cells = cells })
    emptied cells len at = record {
      w_eq = l.w_eq;
      h_eq = l.h_eq;
      grid_eq = l.grid_eq;
      room = len ∙ l.room ∙ sym v.room;
      cells_eq = λ k c e.
          let (p, q, i) = placed_at m v k c e in
          rw (l.w_eq, l.h_eq, i) at (at c.pos.x c.pos.y (rw l.w_eq p) (rw l.h_eq q))
          ∙ rw (lt→ltb c.pos.x m.w p, lt→ltb c.pos.y m.h q, l.cells_eq k c e)
              (with_contents-seen k c (omega (arith, index_lt m v k c e, v.room)));
    }

    -- The second loop of `cg_map_load_disk`.
    filled_contents : Returns (alloc_contents r) (IsReloaded m)
    unfolding alloc_contents
    filled_contents =
        bind_Returns
          (for_cells_lem r.w r.h r.w r.h (content_slot r) (λ _ _. with_contents) r.cells
            (rw (l.w_eq, l.h_eq) (omega (arith, l.room))) (omega (arith, l.w_eq, v.w_small))
            (omega (arith, l.h_eq, v.h_small)) (omega arith) (omega arith) slot-eq)
          (λ cells (len, at). (record r { cells = cells }, refl, emptied cells len at))

  header-IsBlank :
      Returns (map_new (u16 m.w) (u16 m.h) (u16 m.grid_size)) (IsBlank m.w m.h (u16 m.grid_size))
  header-IsBlank =
      let w-eq : u16 m.w ≡ m.w = omega (arith, v.w_small) in
      let h-eq : u16 m.h ≡ m.h = omega (arith, v.h_small) in
      rw (w-eq, h-eq) (map_new_lem m.w m.h (u16 m.grid_size) v.w_small v.h_small fits)

  cells-Loaded :
      (r : RuntimeMap)
      → IsBlank m.w m.h (u16 m.grid_size) r
      → Returns
          (for_range (disk_cells_count (image_size m)) 0 (load_cell (stored m.cells)) r)
          (Loaded m v (length m.cells))
  cells-Loaded r b =
      let all : 0 + length m.cells ≡ length m.cells = omega arith in
      rw
        (
          count-eq,
          load_list-eq (stored m.cells) (stored m.cells) 0 r (Suffix-self (stored m.cells)),
        )
        (rw all at (load_list-Loaded m v m.cells 0 r (Suffix-self m.cells) (blank-Loaded m v b)))

  small_image : u32 (image_size m) ≡ image_size m
  small_image = omega (arith, length-stored m.cells, v.room, fits)

  map_load_disk_lem : Returns (map_load_disk (disk_image m) (image_size m)) (IsReloaded m)
  unfolding map_load_disk
  map_load_disk_lem =
      bind_Returns header-IsBlank
        (λ r b. bind_Returns (cells-Loaded r b) (λ r' l. filled_contents r' l))

  -- A valid map whose allocation does not wrap and that has a cell that is not empty is saved to
  -- a file that opens, and what was saved is loaded, without a fault, as a map of the same sides
  -- and with the same type and position in each cell; arrays append what is added.
  pub map_load-map_save :
      (arrays : ArrayApi)
      → IsArray arrays
      → (k : ℕ) (c : Cell) → get_elem? m.cells k ≡ some c
      → c.type ≢ 0
      → (file : DiskMap × ℕ) × (map_save arrays true m ≡ some (true, SavedFile.image file.0 file.1))
        × Returns (map_load (some file)) (λ r. (m' : RuntimeMap) × (r ≡ some m') × IsReloaded m m')
  unfolding map_load
  map_load-map_save arrays laws k c e filled = (
    (disk_image m, image_size m),
    map_save_lem arrays laws m v fits ∙ rw (some_stored m.cells k c e filled) refl,
    rw small_image (bind_Returns map_load_disk_lem (λ m' r. (some m', refl, (m', refl, r)))),
  )
