-- ===== src/Map/Disk/Save.antt =====
-- `cg_map_save`: the image is the list of the cells that are not empty, in the order of the grid.
use wa_game.Prelude.{
  ℕ, suc, ◌+◌, ◌*◌, ◌%◌, ◌^◌, ◌≤◌, ◌≡◌, refl, sym, ◌∙◌, arith, true, false, Option, some, List, [],
  ◌∷◌, ◌++◌, ◌==◌, if◌then◌else◌, get_elem?, length, for_range, Bool-cases, inl, inr,
}
use mathlib.Core.List.{append-nil, append_assoc}
use native.Mathlib.Nat.{add-zero}
use wa_game.Platform.{ArrayApi, IsArray}
use wa_game.Map.{Cell, DiskCell, DiskMap, RuntimeMap, sizeof_header, sizeof_disk_cell}
use wa_game.Map.Disk.{header_of, SavedFile, count_cell, map_runtime_disk_size, copy_cells, map_save}
use wa_game.Map.Resize.{IsValid, Fits}

-- `suffix` is what stands in `cells` from index `i` on.
abbrev pub Suffix {ℓ} : {A : Type ℓ} → List A → ℕ → List A → Type ℓ
Suffix cells i suffix = (k : ℕ) → get_elem? cells (i + k) ≡ get_elem? suffix k

pub Suffix-head {ℓ} :
    {A : Type ℓ} (cells : List A) (i : ℕ) (c : A) (cs : List A)
    → Suffix cells i (c ∷ cs)
    → get_elem? cells i ≡ some c
Suffix-head cells i c cs s = rw add-zero at (s 0)

pub Suffix-tail {ℓ} :
    {A : Type ℓ} (cells : List A) (i : ℕ) (c : A) (cs : List A)
    → Suffix cells i (c ∷ cs)
    → Suffix cells (suc i) cs
Suffix-tail cells i c cs s k = let e : suc i + k ≡ i + suc k = omega arith in rw e (s (suc k))

pub Suffix-self {ℓ} : {A : Type ℓ} (cells : List A) → Suffix cells 0 cells
Suffix-self cells k = let e : 0 + k ≡ k = omega arith in rw e

-- The indices, from `i` on, of the cells that are not empty, and those cells as they are stored.
abbrev pub filled : ℕ → List Cell → List ℕ
filled i [] = []
filled i (c ∷ cs) = if c.type == 0 then filled (suc i) cs else i ∷ filled (suc i) cs

abbrev pub stored_cell : Cell → DiskCell
stored_cell c = record { pos = c.pos; type = c.type }

abbrev pub stored : List Cell → List DiskCell
stored [] = []
stored (c ∷ cs) = if c.type == 0 then stored cs else stored_cell c ∷ stored cs

length-filled : (i : ℕ) (cs : List Cell) → length (filled i cs) ≡ length (stored cs)
length-filled i [] = refl
length-filled i (c ∷ cs) = ground (arith, length-filled (suc i) cs)

pub length-stored : (cs : List Cell) → length (stored cs) ≤ length cs
length-stored [] = omega arith
length-stored (c ∷ cs) = ground (arith, length-stored cs)

some_pair :
    {a b : ℕ} {xs ys : List ℕ}
    → a ≡ b
    → xs ≡ ys
    → ◌≡◌ {A = Option (ℕ × List ℕ)} (some (a, xs)) (some (b, ys))
some_pair p q = rw (p, q)

-- The image of a map.
abbrev pub disk_image : RuntimeMap → DiskMap
disk_image m = record { header = header_of m; cells = stored m.cells }

abbrev pub image_size : RuntimeMap → ℕ
image_size m = sizeof_header + sizeof_disk_cell * length (stored m.cells)

module _ (arrays : ArrayApi) (laws : IsArray arrays) (m : RuntimeMap) where
  counted :
      (cs : List Cell) (i size : ℕ) (idx : List ℕ)
      → Suffix m.cells i cs
      → for_range (length cs) i (count_cell arrays m) (size, idx)
        ≡ some (size + sizeof_disk_cell * length (stored cs), idx ++ filled i cs)
  unfolding for_range
  counted [] i size idx s = some_pair (omega arith) (sym (append-nil idx))
  counted (c ∷ cs) i size idx s = elim (Bool-cases (c.type == 0)) [
    | inl e ↦
        rw (Suffix-head m.cells i c cs s, e)
          (counted cs (suc i) size idx (Suffix-tail m.cells i c cs s))
    | inr e ↦
        rw (Suffix-head m.cells i c cs s, e, laws.add_lem idx i)
          (counted cs (suc i) (size + sizeof_disk_cell) (idx ++ (i ∷ []))
              (Suffix-tail m.cells i c cs s)
            ∙ some_pair (omega arith) (append_assoc idx (i ∷ []) (filled (suc i) cs)))
  ]

  copied :
      (cs : List Cell) (i : ℕ)
      → Suffix m.cells i cs
      → copy_cells arrays m (filled i cs) ≡ some (stored cs)
  unfolding copy_cells
  copied [] i s = refl
  copied (c ∷ cs) i s =
      let rest = copied cs (suc i) (Suffix-tail m.cells i c cs s) in
      elim (Bool-cases (c.type == 0)) [
        | inl e ↦ rw e rest
        | inr e ↦ rw (e, Suffix-head m.cells i c cs s, rest)
      ]

  module _ (v : IsValid m) (fits : Fits m.w m.h) where
    cells_count-eq : (m.w * m.h) % 2 ^ 32 ≡ length m.cells
    cells_count-eq = omega (arith, v.room)

    indexed : map_runtime_disk_size arrays m ≡ some (image_size m, filled 0 m.cells)
    unfolding map_runtime_disk_size
    indexed = rw cells_count-eq (counted m.cells 0 sizeof_header [] (Suffix-self m.cells))

    -- Saving a valid map whose allocation does not wrap to a file that opens reads only cells of
    -- the map, and writes the header and the cells that are not empty, in their order and with
    -- the size of just these; with no such cell it reports failure and leaves the file emptied.
    -- Arrays append what is added.
    pub map_save_lem :
        map_save arrays true m
        ≡ some (
            if length (stored m.cells) == 0
            then (false, SavedFile.emptied)
            else (true, SavedFile.image (disk_image m) (image_size m)))
    unfolding map_save
    map_save_lem = rw (indexed, copied m.cells 0 (Suffix-self m.cells), length-filled 0 m.cells)
