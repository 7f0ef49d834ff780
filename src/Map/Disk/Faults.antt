-- ===== src/Map/Disk/Faults.antt =====
-- `cg_map_load_disk` on an image with a cell outside the grid: the null pointer that
-- `cg_runtime_map_at` returns is written through.
use wa_game.Prelude.{
  ℕ, zero, suc, ◌+◌, ◌^◌, ◌≤◌, ◌<◌, ◌≡◌, refl, ◌⊎◌, arith, Option, none, some, List, get_elem?,
  for_range, ◌>>=◌,
}
use native.Mathlib.Decide.{dec_lt}
use wa_game.Map.{DiskCell, DiskMap, RuntimeMap, runtime_map_at}
use wa_game.Map.Resize.{Fits, map_new_lem}
use wa_game.Map.Disk.{disk_cells_count, load_cell, map_load_disk}

-- The cell lies outside a grid of these sides.
abbrev pub Outside : ℕ → ℕ → DiskCell → Type 0
Outside w h d = (w ≤ d.pos.x) ⊎ (h ≤ d.pos.y)

bind_none :
    {A B : Type 0} (o : Option A) {f : A → Option B}
    → ((a : A) → o ≡ some a → f a ≡ none)
    → (o >>= f) ≡ none
bind_none none h = refl
bind_none (some a) h = h a refl

module _ (disk : List DiskCell) where
  load_cell-sides :
      (i : ℕ) (r r' : RuntimeMap) → load_cell disk i r ≡ some r' → (r'.w ≡ r.w) × (r'.h ≡ r.h)
  unfolding load_cell
  load_cell-sides i r r' e = ground arith

  load_cell-Outside :
      (i : ℕ) (d : DiskCell) (r : RuntimeMap)
      → get_elem? disk i ≡ some d
      → Outside r.w r.h d
      → load_cell disk i r ≡ none
  unfolding load_cell runtime_map_at
  load_cell-Outside i d r e out = ground arith

  loop-Outside :
      (n i k : ℕ) (d : DiskCell) (r : RuntimeMap)
      → i ≤ k
      → k < i + n
      → get_elem? disk k ≡ some d
      → Outside r.w r.h d
      → for_range n i (load_cell disk) r ≡ none
  unfolding for_range
  loop-Outside zero i k d r p q e out = absurd (omega arith)
  loop-Outside (suc n) i k d r p q e out = elim (dec_lt i k) [
    | yes later ↦ bind_none (load_cell disk i r) λ r' e'.
        let (ew, eh) = load_cell-sides i r r' e' in
        loop-Outside n (suc i) k d r' later (omega arith) e (rw (ew, eh) out)
    | no now ↦
        let same : k ≡ i = omega arith in rw (load_cell-Outside i d r (rw same at e) out) refl
  ]

-- Loading an image that has, within its size, a cell outside the grid that its header gives
-- faults, whatever the other cells are; the sides fit 16 bits and the allocation does not wrap.
pub map_load_disk-Outside :
    (disk : DiskMap) (size k : ℕ) (d : DiskCell)
    → disk.header.w < 2 ^ 16
    → disk.header.h < 2 ^ 16
    → Fits disk.header.w disk.header.h
    → k < disk_cells_count size
    → get_elem? disk.cells k ≡ some d
    → Outside disk.header.w disk.header.h d
    → map_load_disk disk size ≡ none
unfolding map_load_disk
map_load_disk-Outside disk size k d ws hs fits p e out =
    let (r, made, b) = map_new_lem disk.header.w disk.header.h disk.header.grid_size ws hs fits in
    rw
      (
        made,
        loop-Outside disk.cells (disk_cells_count size) 0 k d r (omega arith) (omega arith) e
            (rw (b.w_eq, b.h_eq) out),
      )
      refl
