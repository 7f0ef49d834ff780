-- ===== src/Tests/Maps.antt =====
-- A map of two cells, a spawn and a block, under the theorems on maps.
use wa_game.Prelude.{
  ℕ, zero, suc, ◌<◌, ◌≡◌, refl, arith, true, false, none, some, [], ◌∷◌, get_elem?, Returns, length,
  ◌==◌, if◌then◌else◌, inl,
}
use wa_game.Platform.Models.{arrays, arrays-IsArray}
use wa_game.Map.{Cell, DiskCell, DiskMap, RuntimeMap, map_new, map_resize, map_magic, cell_index}
use wa_game.Map.Resize.{IsValid, IsBlank, IsResized, map_new_lem, map_resize_lem}
use wa_game.Map.Disk.{SavedFile, map_load_disk, map_load, map_save}
use wa_game.Map.Disk.Save.{stored, disk_image, image_size, map_save_lem}
use wa_game.Map.Disk.RoundTrip.{IsReloaded, map_load-map_save}
use wa_game.Map.Disk.Faults.{map_load_disk-Outside}

abbrev spawn : Cell
spawn = record { pos = record { x = 0; y = 0 }; type = 2; contents = none }

abbrev block : Cell
block = record { pos = record { x = 1; y = 0 }; type = 1; contents = none }

abbrev pub small : RuntimeMap
small = record { w = 2; h = 1; grid_size = 16; editor_mode = true; cells = spawn ∷ block ∷ [] }

small-placed :
    (x y : ℕ)
    → x < 2
    → y < 1
    → (c : Cell) × (get_elem? small.cells (cell_index 2 x y) ≡ some c)
      × (c.pos.x ≡ x)
      × (c.pos.y ≡ y)
small-placed zero zero p q = (spawn, refl, refl, refl)
small-placed (suc zero) zero p q = (block, refl, refl, refl)
small-placed (suc (suc x)) y p q = absurd (omega arith)
small-placed x (suc y) p q = absurd (omega arith)

pub small-IsValid : IsValid small
small-IsValid = record {
  w_small = omega arith;
  h_small = omega arith;
  room = refl;
  placed = small-placed;
}

map_load-map_save_example :
    (file : DiskMap × ℕ) × (map_save arrays true small ≡ some (true, SavedFile.image file.0 file.1))
    × Returns (map_load (some file)) (λ r. (m' : RuntimeMap) × (r ≡ some m') × IsReloaded small m')
map_load-map_save_example =
    map_load-map_save small small-IsValid (omega arith) arrays arrays-IsArray 1 block refl
      (omega arith)

map_new_lem_example : Returns (map_new 3 2 16) (IsBlank 3 2 16)
map_new_lem_example = map_new_lem 3 2 16 (omega arith) (omega arith) (omega arith)

map_resize_lem_example : Returns (map_resize small 1 3) (IsResized small 1 3)
map_resize_lem_example =
    map_resize_lem small small-IsValid 1 3 (omega arith) (omega arith) refl (omega arith) refl

map_save_lem_example :
    map_save arrays true small
    ≡ some (
        if length (stored small.cells) == 0
        then (false, SavedFile.emptied)
        else (true, SavedFile.image (disk_image small) (image_size small)))
map_save_lem_example = map_save_lem arrays arrays-IsArray small small-IsValid (omega arith)

abbrev stray : DiskCell
stray = record { pos = record { x = 2; y = 0 }; type = 1 }

abbrev bad_image : DiskMap
bad_image = record {
  header = record { magic = map_magic; w = 2; h = 1; grid_size = 16 };
  cells = stray ∷ [];
}

map_load_disk-Outside_example : map_load_disk bad_image 18 ≡ none
map_load_disk-Outside_example =
    map_load_disk-Outside bad_image 18 0 stray (omega arith) (omega arith) (omega arith)
      (omega arith) refl (inl (omega arith))
