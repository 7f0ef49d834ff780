-- ===== src/Map/World.antt =====
-- `cg_map_at_wpos` and `cg_map_at_wpos_clamp` of lib/coregame/src/cg_map.c: the cell at a position of
-- the world. A map's `grid_size` comes from 16 bits, so its conversion to `i32` keeps it. The outer
-- `none` is the fault of a division by zero, the inner one is NULL.
use wa_game.Prelude.{
  ℕ, zero, suc, ◌-◌, ◌/◌, ◌%◌, ◌^◌, ◌<◌, ◌≡◌, ◌≢◌, refl, arith, Bool, ◌||◌, Option, none, some,
  ◌==◌, if◌then◌else◌, length, Returns,
}
use wa_game.Prelude.Int.{ℤ, pos, negsuc, ◌≤ℤ◌, ◌-ℤ◌}
use wa_game.Platform.{Floats, IsClamp}
use wa_game.Vec.{Vec}
use wa_game.Map.{RuntimeMap, cell_index, runtime_map_at}
use wa_game.Map.Cells.{index_bound, cell_index-eq}
use wa_game.Map.Resize.{IsValid}
use wa_game.Map.Disk.Load.{runtime_map_at-some}

-- `-n`
abbrev pub minus : ℕ → ℤ
minus zero = pos 0
minus (suc n) = negsuc n

-- C's division of an `i32`, towards zero.
abbrev pub div_int : ℤ → ℕ → ℤ
div_int (pos n) g = pos (n / g)
div_int (negsuc n) g = minus (suc n / g)

-- The conversion of an `i32` to `u16`.
abbrev pub u16_of : ℤ → ℕ
u16_of (pos n) = n % 2 ^ 16
u16_of (negsuc n) = 2 ^ 16 - 1 - n % 2 ^ 16

module _ (floats : Floats) where
  open floats use {s, clampi}

  unfoldable pub map_at_wpos : RuntimeMap → Vec floats → Option (Option ℕ)
  map_at_wpos m p =
      let x = div_int (s.to_ℤ p.x) m.grid_size in
      let y = div_int (s.to_ℤ p.y) m.grid_size in
      if s.lt p.x (s.of_ℤ (pos 0)) || s.lt p.y (s.of_ℤ (pos 0))
      then some none
      else if m.grid_size == 0
      then none
      else some (runtime_map_at m (u16_of x) (u16_of y))

  pub map_at_wpos_clamp : RuntimeMap → Vec floats → Option (Option ℕ)
  map_at_wpos_clamp m p =
      let x = clampi (div_int (s.to_ℤ p.x) m.grid_size) (pos 0) (pos m.w -ℤ pos 1) in
      let y = clampi (div_int (s.to_ℤ p.y) m.grid_size) (pos 0) (pos m.h -ℤ pos 1) in
      if m.grid_size == 0 then none else some (runtime_map_at m (u16_of x) (u16_of y))

  small_u16 : (x : ℤ) (w : ℕ) → pos 0 ≤ℤ x → x ≤ℤ pos (w - 1) → 0 < w → w < 2 ^ 16 → u16_of x < w
  small_u16 (pos n) w p q r t = omega arith
  small_u16 (negsuc n) w p q r t = absurd (omega arith)

  not_zero : (n : ℕ) → n ≢ 0 → (n == 0) ≡ Bool.false
  not_zero n h = ground arith

  last : (w : ℕ) → 0 < w → pos w -ℤ pos 1 ≡ pos (w - 1)
  unfolding ◌-ℤ◌
  last w r = ground arith

  clamped_lt :
      (clamps : IsClamp floats) (x : ℤ) (w : ℕ)
      → 0 < w
      → w < 2 ^ 16
      → u16_of (clampi x (pos 0) (pos w -ℤ pos 1)) < w
  clamped_lt clamps x w r t =
      let (low, high) = clamps.clampi-bounds x (pos 0) (pos (w - 1)) (omega arith) in
      rw (last w r) (small_u16 (clampi x (pos 0) (pos (w - 1))) w low high r t)

  -- In a valid map with at least one cell and a grid size that is not 0, the clamped lookup by
  -- world position does not fault and gives a cell within the allocation, never NULL, whatever
  -- the position; the clamp of integers lies between its bounds.
  pub map_at_wpos_clamp_lem :
      (clamps : IsClamp floats) (m : RuntimeMap) (v : IsValid m) (p : Vec floats)
      → 0 < m.w
      → 0 < m.h
      → m.grid_size ≢ 0
      → Returns (map_at_wpos_clamp m p) (λ o. (k : ℕ) × (o ≡ some k) × (k < length m.cells))
  unfolding map_at_wpos_clamp
  map_at_wpos_clamp_lem clamps m v p wide high grid =
      let x = u16_of (clampi (div_int (s.to_ℤ p.x) m.grid_size) (pos 0) (pos m.w -ℤ pos 1)) in
      let y = u16_of (clampi (div_int (s.to_ℤ p.y) m.grid_size) (pos 0) (pos m.h -ℤ pos 1)) in
      let x-lt = clamped_lt clamps (div_int (s.to_ℤ p.x) m.grid_size) m.w wide v.w_small in
      let y-lt = clamped_lt clamps (div_int (s.to_ℤ p.y) m.grid_size) m.h high v.h_small in
      (
        some (cell_index m.w x y),
        rw (not_zero m.grid_size grid, runtime_map_at-some m x y x-lt y-lt) refl,
        (
          cell_index m.w x y,
          refl,
          omega (
            arith,
            cell_index-eq m.w x y v.w_small x-lt (omega (arith, v.h_small)),
            index_bound m.w m.h x y x-lt y-lt,
            v.room,
          ),
        ),
      )
