-- ===== src/Client/Editor.antt =====
-- client/src/map_editor.c with client/include/map_editor.h: the cells that the editor sets, and which map
-- of its list is selected. The map that a header points to, files and what is drawn are left out.
pub mod Built
pub mod Selected
use wa_game.Prelude.{
  ℕ, ◌+◌, ◌%◌, Bool, true, false, Option, none, some, List, [], ◌∷◌, ◌==◌, if◌then◌else◌, ◌>>=◌,
}
use wa_game.Platform.{Platform, Floats}
use wa_game.Vec.{Vec}
use wa_game.Map.{Header, Cell, RuntimeMap, cell_block, cell_empty, modify_at}
use wa_game.Map.World.{map_at_wpos}

-- `map_editor_set_cell`
unfoldable pub set_cell : ℕ → Cell → Cell
set_cell new_type cell = if cell.type == new_type then cell else record cell {
  type = new_type;
  contents = (if new_type == cell_block then none else some []);
}

-- The pointer to the cell may be NULL.
unfoldable pub set_at : RuntimeMap → ℕ → Option ℕ → Option RuntimeMap
set_at map new_type none = some map
set_at map new_type (some p) = do
  cells ← modify_at map.cells p (set_cell new_type)
  some (record map { cells = cells })

module _ (floats : Floats) where
  -- Where the mouse is in the world, and the index of the type in the list of the window.
  unfoldable pub add_block : RuntimeMap → Vec floats → ℕ → Option RuntimeMap
  add_block map mouse selected_cell_type = do
    cell ← map_at_wpos floats map mouse
    set_at map ((selected_cell_type + cell_block) % 256) cell

  unfoldable pub del_block : RuntimeMap → Vec floats → Option RuntimeMap
  del_block map mouse = do cell ← map_at_wpos floats map mouse; set_at map cell_empty cell

  -- `map_editor_handle_building`: whether the mouse is on the interface, and its two buttons.
  unfoldable pub handle_building :
      RuntimeMap → Vec floats → Bool → Bool → Bool → ℕ → Option RuntimeMap
  handle_building map mouse on_ui left right selected_cell_type =
      if on_ui
      then some map
      else if left
      then add_block map mouse selected_cell_type
      else if right
      then del_block map mouse
      else some map

-- `editor_map_header_t`
pub record MapHeader : Type 0 where
  pub id : ℕ
  pub header : Header
  pub path : List ℕ
  pub name : List ℕ
  pub selected : Bool

module _ (platform : Platform) where
  open platform use {ght}

  -- `maps` and `map_selected` of `waapp_map_editor_t`; the pointer is a key.
  pub record MapList : Type 0 where
    pub maps : ght.Table MapHeader
    pub map_selected : Option ℕ

  abbrev unselect : ght.Table MapHeader → ℕ → Option MapHeader → ght.Table MapHeader
  unselect maps key none = maps
  unselect maps key (some h) = ght.write maps key (record h { selected = false })

  -- `editor_reset_map_disk_selection`
  unfoldable pub reset_selection : ght.Table MapHeader → List ℕ → ght.Table MapHeader
  reset_selection maps [] = maps
  reset_selection maps (key ∷ keys) = reset_selection (unselect maps key (ght.get maps key)) keys

  abbrev press_found : MapList → ℕ → Option MapHeader → MapList
  press_found list key none = list
  press_found list key (some h) =
      let reset = reset_selection list.maps (ght.keys list.maps) in
      if h.selected then record { maps = reset; map_selected = none } else record {
        maps = ght.write reset key (record h { selected = true });
        map_selected = some key;
      }

  -- A press on a line of the list, in `map_editor_update`.
  unfoldable pub press : MapList → ℕ → MapList
  press list key = press_found list key (ght.get list.maps key)
