-- ===== src/Game/Walk.antt =====
-- lib/coregame/src/coregame.c: which cells a player covers, and which a bullet passes. The walk from
-- one point to another (`cg_get_cells_2points`) runs on fuel, `none` when it runs out; the cells are
-- pointers, so indices. An `i32` that counts cells is taken not to overflow.
pub mod Ends
pub mod Cover
use wa_game.Prelude.{
  ℕ, zero, suc, ◌+◌, ◌-◌, ◌*◌, ◌/◌, ◌%◌, ◌^◌, Bool, true, false, ◌&&◌, Option, none, some, List, [],
  ◌∷◌, if◌then◌else◌, get_elem?, for_range, ◌>>=◌,
}
use wa_game.Prelude.Int.{ℤ, pos, negsuc, ◌+ℤ◌, eqb_ℤ}
use wa_game.Platform.{ArrayApi, Floats}
use wa_game.Vec.{Vec}
use wa_game.Map.{RuntimeMap, runtime_map_at, u16}
use wa_game.Map.World.{u16_of, map_at_wpos}

abbrev pub step_of : Bool → ℤ
step_of true = pos 1
step_of false = negsuc 0

module _ (arrays : ArrayApi) (floats : Floats) where
  open floats use {F32, s, fabs, floorf, widen, narrow}

  -- What does not change in the walk: the last cell, the signs of the steps, the times between cells.
  pub record Line : Type 0 where
    pub x1 : ℤ
    pub y1 : ℤ
    pub right : Bool
    pub down : Bool
    pub t_delta_x : F32
    pub t_delta_y : F32

  abbrev pub after_cell : (List ℕ → Option (List ℕ)) → Option ℕ → List ℕ → Bool → Option (List ℕ)
  after_cell rest none cells last = some cells
  after_cell rest (some cell) cells last =
      if last then some (arrays.add cells cell) else rest (arrays.add cells cell)

  -- The loop; `across` is the test `t_max_x < t_max_y`.
  unfoldable pub walk : ℕ → RuntimeMap → Line → ℤ → ℤ → F32 → F32 → List ℕ → Option (List ℕ)
  walk zero map line x0 y0 t_max_x t_max_y cells = none
  walk (suc fuel) map line x0 y0 t_max_x t_max_y cells =
      let across = s.lt t_max_x t_max_y in
      let x0' = (if across then x0 +ℤ step_of line.right else x0) in
      let y0' = (if across then y0 else y0 +ℤ step_of line.down) in
      let t_max_x' = (if across then s.add t_max_x line.t_delta_x else t_max_x) in
      let t_max_y' = (if across then t_max_y else s.add t_max_y line.t_delta_y) in
      after_cell (walk fuel map line x0' y0' t_max_x' t_max_y')
        (runtime_map_at map (u16_of x0) (u16_of y0)) cells (eqb_ℤ x0 line.x1 && eqb_ℤ y0 line.y1)

  -- The time at which the line first leaves the cell `x0`.
  abbrev first_time : ℤ → Bool → F32 → F32 → F32 → F32
  first_time x0 forward grid_size start delta =
      let edge = (if forward then x0 +ℤ pos 1 else x0) in
      s.div (s.sub (s.mul (s.of_ℤ edge) grid_size) start) delta

  unfoldable pub get_cells_2points :
      ℕ → RuntimeMap → Vec floats → Vec floats → List ℕ → Option (List ℕ)
  get_cells_2points fuel map start end' cells =
      let grid_size = s.of_ℤ (pos map.grid_size) in
      let cell_of = λ (a : F32). s.to_ℤ (floorf (s.div a grid_size)) in
      let dx = s.sub end'.x start.x in
      let dy = s.sub end'.y start.y in
      let zero_f = s.of_ℤ (pos 0) in
      let right = s.lt zero_f dx in
      let down = s.lt zero_f dy in
      let line : Line = record {
        x1 = cell_of end'.x;
        y1 = cell_of end'.y;
        right = right;
        down = down;
        t_delta_x = narrow (fabs (widen (s.div grid_size dx)));
        t_delta_y = narrow (fabs (widen (s.div grid_size dy)));
      } in
      walk fuel map line (cell_of start.x) (cell_of start.y)
        (first_time (cell_of start.x) right grid_size start.x dx)
        (first_time (cell_of start.y) down grid_size start.y dy) cells

  -- A round of the loops of `cg_player_get_cells`: NULL is passed over.
  abbrev pub take_cell : RuntimeMap → ℕ → ℕ → List ℕ → Option (List ℕ)
  take_cell map x y cells = elim (runtime_map_at map x y) [
    | none ↦ some cells
    | some cell ↦ some (arrays.add cells cell)
  ]

  -- `for (i = from; i <= to; i++)`
  abbrev pub rounds : ℕ → ℕ → ℕ
  rounds from to = to + 1 - from

  -- The loops, at the cells of the two corners.
  unfoldable pub covered : RuntimeMap → Option ℕ → Option ℕ → Option (List ℕ)
  covered map (some left) (some right) = do
    c_left ← get_elem? map.cells left
    c_right ← get_elem? map.cells right
    for_range (rounds c_left.pos.x c_right.pos.x) c_left.pos.x
        (λ x. for_range (rounds c_left.pos.y c_right.pos.y) c_left.pos.y (take_cell map x)) []
  covered map none _ = some []
  covered map (some left) none = some []

  unfoldable pub player_get_cells :
      RuntimeMap → Vec floats → Vec floats → Vec floats → Option (List ℕ)
  player_get_cells map at velocity size = do
    let top_left : Vec floats = record { x = s.add at.x velocity.x; y = s.add at.y velocity.y }
    let bot_right : Vec floats = record { x = s.add top_left.x size.x; y = s.add top_left.y size.y }
    left ← map_at_wpos floats map top_left
    right ← map_at_wpos floats map bot_right
    covered map left right
