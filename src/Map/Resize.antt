-- ===== src/Map/Resize.antt =====
-- `cg_map_new` and `cg_map_resize`: the maps that they build.
use wa_game.Prelude.{
  ℕ, zero, suc, ◌+◌, ◌-◌, ◌*◌, ◌/◌, ◌^◌, ◌≤◌, ◌<◌, ◌≡◌, refl, ◌∙◌, arith, ◌&&◌, true, false, Option,
  none, some, List, ltb, ◌==◌, if◌then◌else◌, get_elem?, length, replicate, length-replicate, ◌>>=◌,
  Returns,
}
use mathlib.Core.Option
use wa_game.Map.{
  Cell, RuntimeMap, cell_index, u32, u16, sizeof_cell, sizeof_map, blank_cell, at_pos, with_type,
  Write, for_cells, map_calloc, map_set_cells_pos, map_new, map_resize, mini16,
  runtime_map_calc_size,
}
use wa_game.Map.Cells.{index_bound, cell_index-eq, for_cells_lem}

-- A map that the other functions may use: sides that a header can hold, an allocation of just its
-- cells, and in each cell its own position.
pub record IsValid (m : RuntimeMap) : Type 0 where
  pub w_small : m.w < 2 ^ 16
  pub h_small : m.h < 2 ^ 16
  pub room : length m.cells ≡ m.w * m.h
  pub placed :
      (x y : ℕ)
      → x < m.w
      → y < m.h
      → (c : Cell) × (get_elem? m.cells (cell_index m.w x y) ≡ some c)
        × (c.pos.x ≡ x)
        × (c.pos.y ≡ y)

-- The type of the cell at a position, `none` outside the allocation.
abbrev pub type_at : RuntimeMap → ℕ → ℕ → Option ℕ
type_at m x y = Option.map (λ (c : Cell). c.type) (get_elem? m.cells (cell_index m.w x y))

-- The allocation of a `w` by `h` map does not wrap.
abbrev pub Fits : ℕ → ℕ → Type 0
Fits w h = w * h * sizeof_cell + sizeof_map < 2 ^ 32

get_elem?-replicate {ℓ} :
    {A : Type ℓ} (n k : ℕ) (a : A) → k < n → get_elem? (replicate n a) k ≡ some a
get_elem?-replicate zero k a h = elim h [ ]
get_elem?-replicate (suc n) zero a h = refl
get_elem?-replicate (suc n) (suc k) a h = get_elem?-replicate n k a (omega arith)

abbrev fresh_cell : ℕ → ℕ → Cell
fresh_cell x y = at_pos x y blank_cell

map_calloc-eq :
    (w h : ℕ)
    → Fits w h
    → map_calloc (runtime_map_calc_size w h) ≡ some (replicate (w * h) blank_cell)
unfolding map_calloc runtime_map_calc_size
map_calloc-eq w h fits =
    let e : u32 (w * h * sizeof_cell + sizeof_map) ≡ w * h * sizeof_cell + sizeof_map =
      omega arith in
    let n : (w * h * sizeof_cell + sizeof_map - sizeof_map) / sizeof_cell ≡ w * h = omega arith in
    rw (e, n) (ground arith)

-- A valid map of the given sides whose cells are all empty and hold no data, not in editor mode.
pub record IsBlank (w h grid_size : ℕ) (m : RuntimeMap) : Type 0 where
  pub valid : IsValid m
  pub w_eq : m.w ≡ w
  pub h_eq : m.h ≡ h
  pub grid_eq : m.grid_size ≡ grid_size
  pub playing : m.editor_mode ≡ false
  pub blank :
      (x y : ℕ) → x < w → y < h → get_elem? m.cells (cell_index w x y) ≡ some (fresh_cell x y)

pub length-blank :
    {w h grid_size : ℕ} {m : RuntimeMap} → IsBlank w h grid_size m → length m.cells ≡ w * h
length-blank b = rw (b.w_eq, b.h_eq) at b.valid.room

blank_room : (w h : ℕ) → length (replicate (w * h) blank_cell) ≡ w * h
blank_room w h = length-replicate (w * h) blank_cell

module _ (w h : ℕ) (ws : w < 2 ^ 16) (hs : h < 2 ^ 16) where
  -- What `cg_map_set_cells_pos` makes of the zeroed cells.
  fresh_cells :
      Returns
        (for_cells w h (λ x y. some (cell_index w x y, at_pos x y)) (replicate (w * h) blank_cell))
        (λ cells.
          (length cells ≡ w * h)
          × ((x y : ℕ)
              → x < w
              → y < h
              → get_elem? cells (cell_index w x y) ≡ some (fresh_cell x y)))
  fresh_cells =
      let (cells, e, (len, at)) =
        for_cells_lem w h w h (λ x y. some (cell_index w x y, at_pos x y)) at_pos
          (replicate (w * h) blank_cell) (omega (arith, blank_room w h)) ws hs (omega arith)
          (omega arith) (λ x y _ _. refl) in
      (cells, e, (len ∙ blank_room w h, λ x y p q. rw (at x y p q, zeroed x y p q) (ground arith)))
    where
      zeroed :
          (x y : ℕ)
          → x < w
          → y < h
          → get_elem? (replicate (w * h) blank_cell) (cell_index w x y) ≡ some blank_cell
      zeroed x y p q =
          get_elem?-replicate (w * h) (cell_index w x y) blank_cell
            (omega (arith, cell_index-eq w x y ws p (omega arith), index_bound w h x y p q))

-- For sides of 16 bits whose allocation does not wrap, a new map is made without a write outside
-- the allocation; it is valid, has the given sides, is not in editor mode, and each cell is empty
-- and knows its position.
pub map_new_lem :
    (w h grid_size : ℕ)
    → w < 2 ^ 16
    → h < 2 ^ 16
    → Fits w h
    → Returns (map_new w h grid_size) (IsBlank w h grid_size)
unfolding map_new map_set_cells_pos
map_new_lem w h grid_size ws hs fits =
    let (cells, e, (len, fresh)) = fresh_cells w h ws hs in
    (
      record { w = w; h = h; grid_size = grid_size; editor_mode = false; cells = cells },
      rw (map_calloc-eq w h fits, e),
      record {
        valid = record {
          w_small = ws;
          h_small = hs;
          room = len;
          placed = λ x y p q. (fresh_cell x y, fresh x y p q, refl, refl);
        };
        w_eq = refl;
        h_eq = refl;
        grid_eq = refl;
        playing = refl;
        blank = fresh;
      },
    )

-- The types after a resize: those of the old map on the part that both share, else empty.
pub record IsResized (m : RuntimeMap) (w h : ℕ) (m' : RuntimeMap) : Type 0 where
  valid : IsValid m'
  w_eq : m'.w ≡ w
  h_eq : m'.h ≡ h
  kept :
      (x y : ℕ)
      → x < w
      → y < h
      → type_at m' x y ≡ (if ltb x m.w && ltb y m.h then type_at m x y else some 0)

abbrev or_zero : Option ℕ → ℕ
or_zero none = 0
or_zero (some n) = n

module _ (m : RuntimeMap) (v : IsValid m) (w h : ℕ) (ws : w < 2 ^ 16) (hs : h < 2 ^ 16) where
  abbrev copy_type : ℕ → ℕ → Option Write
  copy_type x y = do
    old_cell ← get_elem? m.cells (u32 (y * u16 m.w + x))
    some (u32 (y * w + x), with_type old_cell.type)

  -- The type that the copy takes from the old cell at a position.
  abbrev old_type : ℕ → ℕ → ℕ
  old_type x y = or_zero (type_at m x y)

  type_at-some : (x y : ℕ) → x < m.w → y < m.h → type_at m x y ≡ some (old_type x y)
  type_at-some x y p q = let (c, e, _, _) = v.placed x y p q in rw e

  copy_type-eq :
      (x y : ℕ)
      → x < m.w
      → y < m.h
      → copy_type x y ≡ some (cell_index w x y, with_type (old_type x y))
  copy_type-eq x y p q =
      let (c, e, _, _) = v.placed x y p q in
      let same : u16 m.w ≡ m.w = omega (arith, v.w_small) in rw (same, e) refl

  abbrev copied_cell : ℕ → ℕ → Cell
  copied_cell x y =
      with_type
        (if ltb x (mini16 w (u16 m.w)) && ltb y (mini16 h (u16 m.h)) then old_type x y else 0)
        (fresh_cell x y)

  -- What the copy into a blank map leaves.
  resized :
      {grid_size : ℕ} (new_map : RuntimeMap) (cells : List Cell)
      → IsBlank w h grid_size new_map
      → length cells ≡ length new_map.cells
      → ((x y : ℕ)
          → x < w
          → y < h
          → get_elem? cells (cell_index w x y) ≡ (
              if ltb x (mini16 w (u16 m.w)) && ltb y (mini16 h (u16 m.h))
              then Option.map
                  (with_type (old_type x y))
                  (get_elem? new_map.cells (cell_index w x y))
              else get_elem? new_map.cells (cell_index w x y)))
      → IsResized m w h (record new_map { cells = cells })
  unfolding mini16
  resized new_map cells b len at = record {
    valid = record {
      w_small = b.valid.w_small;
      h_small = b.valid.h_small;
      room = len ∙ b.valid.room;
      placed = λ x y p q.
          let p' : x < w = omega (arith, b.w_eq) in
          let q' : y < h = omega (arith, b.h_eq) in
          (
            copied_cell x y,
            rw (b.w_eq, at x y p' q', b.blank x y p' q') (ground arith),
            refl,
            refl,
          );
    };
    w_eq = b.w_eq;
    h_eq = b.h_eq;
    kept = λ x y p q.
        rw (b.w_eq, at x y p q, b.blank x y p q)
          (ground (arith, v.w_small, v.h_small, type_at-some x y));
  }

  shared-le : (a b : ℕ) → mini16 a b ≤ a
  unfolding mini16
  shared-le a b = ground arith

  shared-lt : (k a b : ℕ) → b < 2 ^ 16 → k < mini16 a (u16 b) → k < b
  unfolding mini16
  shared-lt k a b small q = ground arith

  -- A resize of a valid map in editor mode to other sides, that fit 16 bits and whose allocation
  -- does not wrap, does not fault and gives a valid map of the new sides, in which each cell of
  -- the part that both maps share has its old type and every other cell is empty.
  pub map_resize_lem :
      m.editor_mode ≡ true
      → Fits w h
      → ((w == m.w) && (h == m.h)) ≡ false
      → Returns (map_resize m w h) (IsResized m w h)
  unfolding map_resize
  map_resize_lem edited fits moved = built (map_new_lem w h (u16 m.grid_size) ws hs fits)
    where
      copied :
          (new_map : RuntimeMap)
          → map_new w h (u16 m.grid_size) ≡ some new_map
          → IsBlank w h (u16 m.grid_size) new_map
          → Returns
              (for_cells (mini16 w (u16 m.w)) (mini16 h (u16 m.h)) copy_type new_map.cells)
              (λ cells.
                (length cells ≡ length new_map.cells)
                × ((x y : ℕ)
                    → x < w
                    → y < h
                    → get_elem? cells (cell_index w x y) ≡ (
                        if ltb x (mini16 w (u16 m.w)) && ltb y (mini16 h (u16 m.h))
                        then Option.map
                            (with_type (old_type x y))
                            (get_elem? new_map.cells (cell_index w x y))
                        else get_elem? new_map.cells (cell_index w x y))))
          → Returns (map_resize m w h) (IsResized m w h)
      copied new_map e b (cells, done, (len, at)) = (
        record new_map { cells = cells },
        rw (edited, moved, e, done) refl,
        resized new_map cells b len at,
      )

      built :
          Returns (map_new w h (u16 m.grid_size)) (IsBlank w h (u16 m.grid_size))
          → Returns (map_resize m w h) (IsResized m w h)
      built (new_map, e, b) = copied new_map e b (
          for_cells_lem w h (mini16 w (u16 m.w)) (mini16 h (u16 m.h)) copy_type
            (λ x y. with_type (old_type x y)) new_map.cells (omega (arith, length-blank b)) ws hs
            (shared-le w (u16 m.w)) (shared-le h (u16 m.h))
            (λ x y p q.
              copy_type-eq x y (shared-lt x w m.w v.w_small p) (shared-lt y h m.h v.h_small q)))
