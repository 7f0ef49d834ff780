-- ===== src/Client/Editor/Built.antt =====
-- What building in the editor keeps of a map.
use wa_game.Prelude.{
  ℕ, ◌<◌, ◌≡◌, ◌≢◌, refl, ap, ◌∙◌, arith, Bool, true, false, ◌||◌, Option, none, some, List, ◌==◌,
  if◌then◌else◌, get_elem?, length, Returns, Bool-cases, Option-cases, inl, inr, leb, subst,
}
use mathlib.Core.Option
use wa_game.Prelude.Int.{pos}
use wa_game.Platform.{Floats}
use wa_game.Vec.{Vec}
use wa_game.Map.{CellPos, Cell, RuntimeMap, cell_index, cell_block, cell_empty, runtime_map_at}
use wa_game.Map.Cells.{
  update_at, modify_at-eq, length-update_at, get_elem?-update_at, cell_index-eq, index_bound,
}
use wa_game.Map.Resize.{IsValid}
use wa_game.Map.World.{map_at_wpos}
use wa_game.Client.Editor.{set_cell, set_at, add_block, del_block, handle_building}

-- A valid map in which no block has a list of players.
pub record IsBuilt (map : RuntimeMap) : Type 0 where
  pub valid : IsValid map
  pub bare :
      (k : ℕ) (c : Cell) → get_elem? map.cells k ≡ some c → c.type ≡ cell_block → c.contents ≡ none

set_cell-pos : (t : ℕ) (c : Cell) → (set_cell t c).pos ≡ c.pos
unfolding set_cell
set_cell-pos t c = elim (Bool-cases (c.type == t)) [ inl e ↦ rw e refl | inr e ↦ rw e refl ]

set_cell-bare :
    (t : ℕ) (c : Cell)
    → (c.type ≡ cell_block → c.contents ≡ none)
    → (set_cell t c).type ≡ cell_block
    → (set_cell t c).contents ≡ none
unfolding set_cell
set_cell-bare t c old = elim (Bool-cases (c.type == t)) [
  | inl same ↦ rw same old
  | inr other ↦ rw other λ (e : t ≡ cell_block). rw e refl
]

module _ (map : RuntimeMap) (t p : ℕ) (b : IsBuilt map) where
  abbrev cells' : List Cell
  cells' = update_at map.cells p (set_cell t)

  cell_after :
      (k : ℕ)
      → get_elem? cells' k ≡ (
          if k == p then Option.map (set_cell t) (get_elem? map.cells k) else get_elem? map.cells k)
  cell_after k = get_elem?-update_at map.cells p k (set_cell t)

  still_placed :
      (x y : ℕ)
      → x < map.w
      → y < map.h
      → (c : Cell) × (get_elem? cells' (cell_index map.w x y) ≡ some c)
        × (c.pos.x ≡ x)
        × (c.pos.y ≡ y)
  still_placed x y p-lt q-lt =
      let (c, e, ex, ey) = b.valid.placed x y p-lt q-lt in
      let k = cell_index map.w x y in
      elim (Bool-cases (k == p)) [
        | inr other ↦ (c, cell_after k ∙ rw other e, ex, ey)
        | inl same ↦ (
          set_cell t c,
          cell_after k ∙ rw (same, e) refl,
          ap (λ (v : CellPos). v.x) (set_cell-pos t c) ∙ ex,
          ap (λ (v : CellPos). v.y) (set_cell-pos t c) ∙ ey,
        )
      ]

  still_bare :
      (k : ℕ) (c : Cell) → get_elem? cells' k ≡ some c → c.type ≡ cell_block → c.contents ≡ none
  still_bare k c e = elim (Bool-cases (k == p)) [
    | inr other ↦
        let old : get_elem? map.cells k ≡ some c = rw (cell_after k, other) at e in b.bare k c old
    | inl same ↦ elim (Option-cases (get_elem? map.cells k)) [
      | inl absent ↦ let bad : none ≡ some c = rw (cell_after k, same, absent) at e in absurd (cc)
      | inr (c0, there) ↦
          let eq : some (set_cell t c0) ≡ some c = rw (cell_after k, same, there) at e in
          let now : set_cell t c0 ≡ c = cc in
          subst (λ (z : Cell). z.type ≡ cell_block → z.contents ≡ none) now
            (set_cell-bare t c0 (b.bare k c0 there))
    ]
  ]

  updated : IsBuilt (record map { cells = cells' })
  updated = record {
    valid = record {
      w_small = b.valid.w_small;
      h_small = b.valid.h_small;
      room = length-update_at map.cells p (set_cell t) ∙ b.valid.room;
      placed = still_placed;
    };
    bare = still_bare;
  }

set_at-IsBuilt :
    (map : RuntimeMap) (t p : ℕ)
    → IsBuilt map
    → p < length map.cells
    → Returns (set_at map t (some p)) IsBuilt
unfolding set_at
set_at-IsBuilt map t p b lt =
    rw (modify_at-eq map.cells p (set_cell t) lt) (_, refl, updated map t p b)

-- The lookup of a cell gives NULL or one of the map.
abbrev InMap : RuntimeMap → Option ℕ → Type 0
InMap map none = Unit {0}
InMap map (some p) = p < length map.cells

runtime_map_at-InMap :
    (map : RuntimeMap) (x y : ℕ) → IsValid map → InMap map (runtime_map_at map x y)
unfolding runtime_map_at
runtime_map_at-InMap map x y v = elim (Bool-cases (leb map.w x || leb map.h y)) [
  | inl out ↦ rw out tt
  | inr inside ↦
      let wide : x < map.w = ground arith in
      let high : y < map.h = ground arith in
      rw inside (
        omega (
          arith,
          cell_index-eq map.w x y v.w_small wide (omega (arith, v.h_small)),
          index_bound map.w map.h x y wide high,
          v.room,
        ))
]

map_at_wpos-InMap :
    (floats : Floats) (map : RuntimeMap) (at : Vec floats)
    → IsValid map
    → map.grid_size ≢ 0
    → Returns (map_at_wpos floats map at) (InMap map)
unfolding map_at_wpos
map_at_wpos-InMap floats map at v grid =
    let some_grid : (map.grid_size == 0) ≡ false = ground arith in
    elim (Bool-cases
      (floats.s.lt at.x (floats.s.of_ℤ (pos 0)) || floats.s.lt at.y (floats.s.of_ℤ (pos 0)))) [
        | inl out ↦ rw out (_, refl, tt)
        | inr inside ↦ rw (inside, some_grid) (_, refl, runtime_map_at-InMap map _ _ v)
      ]

found_IsBuilt :
    (map : RuntimeMap) (t : ℕ) (o : Option ℕ)
    → IsBuilt map
    → InMap map o
    → Returns (set_at map t o) IsBuilt
unfolding set_at
found_IsBuilt map t none b i = (map, refl, b)
found_IsBuilt map t (some p) b i = set_at-IsBuilt map t p b i

-- A map that is valid, whose grid size is not 0 and in which no block has a list of players, is
-- so after a round of building in the editor, wherever the mouse is and whatever button is down,
-- and nothing faults.
pub handle_building-IsBuilt :
    (floats : Floats) (map : RuntimeMap) (mouse : Vec floats) (on_ui left right : Bool)
    (selected_cell_type : ℕ)
    → IsBuilt map
    → map.grid_size ≢ 0
    → Returns (handle_building floats map mouse on_ui left right selected_cell_type) IsBuilt
unfolding handle_building add_block del_block
handle_building-IsBuilt floats map mouse true left right sel b grid = (map, refl, b)
handle_building-IsBuilt floats map mouse false true right sel b grid =
    let (o, e, i) = map_at_wpos-InMap floats map mouse b.valid grid in
    rw e (found_IsBuilt map _ o b i)
handle_building-IsBuilt floats map mouse false false true sel b grid =
    let (o, e, i) = map_at_wpos-InMap floats map mouse b.valid grid in
    rw e (found_IsBuilt map cell_empty o b i)
handle_building-IsBuilt floats map mouse false false false sel b grid = (map, refl, b)
