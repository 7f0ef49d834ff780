-- ===== src/Game/Cells.antt =====
-- lib/coregame/src/coregame.c: which cells list a player. A player's `cells` and the cells of the map
-- point at each other; `none` is a fault, as at a cell with no list that is not a block.
pub mod Undo
use wa_game.Prelude.{
  ℕ, zero, suc, ◌+◌, ◌<◌, ◌≡◌, refl, sym, ap, ◌∙◌, arith, Bool, true, false, not, ◌&&◌, ◌||◌,
  Option, none, some, List, [], ◌∷◌, ◌++◌, ◌==◌, if◌then◌else◌, get_elem?, length, length-append,
  mem, take, drop, ◌>>=◌, Returns, Bool-cases, inl, inr,
}
use mathlib.Core.Option
use mathlib.Core.List.{append-nil}
use wa_game.Platform.{ArrayApi, IsArray}
use wa_game.Map.{Cell, cell_block, modify_at}
use wa_game.Map.Cells.{update_at, modify_at-eq, length-update_at, get_elem?-update_at}
use wa_game.Map.Disk.Load.{lt_of_get_elem?}
use wa_game.Prelude.{==-self}

-- `for (i = 0; i < player->cells.count; i++)`: what is done to each cell, unless it is a block.
abbrev pub at_cell : (List ℕ → List ℕ) → Cell → Option (List ℕ) → Option Cell
at_cell f cell none = none
at_cell f cell (some contents) = some (record cell { contents = some (f contents) })

abbrev pub unless_block : (List ℕ → List ℕ) → Cell → Option Cell
unless_block f cell =
    let changed = at_cell f cell cell.contents in
    if not (cell.type == cell_block) then changed else some cell

unfoldable pub each_cell : (List ℕ → List ℕ) → List ℕ → List Cell → Option (List Cell)
each_cell f [] cells = some cells
each_cell f (p ∷ ps) cells = do
  cell ← get_elem? cells p
  cell' ← unless_block f cell
  cells' ← modify_at cells p λ _. cell'
  each_cell f ps cells'

module _ (arrays : ArrayApi) where
  -- The search of `cg_remove_player_from_cell` at index `i`, with what stands from there on.
  unfoldable pub erase_from : ℕ → List ℕ → ℕ → List ℕ → List ℕ
  erase_from id contents i [] = contents
  erase_from id contents i (player_in_cell ∷ rest) =
      let later = erase_from id contents (i + 1) rest in
      if player_in_cell == id then arrays.erase contents i else later

  unfoldable pub remove_player_from_cell : ℕ → List ℕ → List ℕ
  remove_player_from_cell id contents = erase_from id contents 0 contents

  unfoldable pub remove_self_from_cells : ℕ → List ℕ → List Cell → Option (List Cell)
  remove_self_from_cells id = each_cell (remove_player_from_cell id)

  unfoldable pub add_into_cells : ℕ → List ℕ → List Cell → Option (List Cell)
  add_into_cells id = each_cell (λ contents. arrays.add contents id)
