-- ===== src/Tests/Editors.antt =====
-- The small map in the editor, and a list of two maps.
use wa_game.Prelude.{
  ℕ, zero, suc, ◌≡◌, refl, arith, true, false, none, some, [], ◌∷◌, get_elem?, Returns,
}
use wa_game.Prelude.Int.{pos}
use wa_game.Platform.Models.{machine, floats, ght-IsGht}
use wa_game.Vec.{Vec}
use wa_game.Map.{Cell}
use wa_game.Client.Editor.{MapHeader, MapList, handle_building, press}
use wa_game.Client.Editor.Built.{IsBuilt, handle_building-IsBuilt}
use wa_game.Client.Editor.Selected.{IsSelected, press-IsSelected}
use wa_game.Tests.Maps.{small, small-IsValid}
use wa_game.Tests.Servers.{iterates}

small-bare : (k : ℕ) (c : Cell) → get_elem? small.cells k ≡ some c → c.type ≡ 1 → c.contents ≡ none
small-bare zero c e t = ground arith
small-bare (suc zero) c e t = ground arith
small-bare (suc (suc k)) c e t = absurd (ground arith)

abbrev mouse : Vec floats
mouse = record { x = pos 20; y = pos 3 }

handle_building-IsBuilt_example :
    Returns (handle_building floats small mouse false true false 1) IsBuilt
handle_building-IsBuilt_example =
    handle_building-IsBuilt floats small mouse false true false 1
      (record { valid = small-IsValid; bare = small-bare }) λ e. absurd (ground arith)

abbrev map_header : ℕ → MapHeader
map_header id = record {
  id = id;
  header = record { magic = []; w = 2; h = 1; grid_size = 16 };
  path = [];
  name = [];
  selected = false;
}

abbrev two_maps : MapList machine
two_maps = record { maps = (5, map_header 1) ∷ (6, map_header 2) ∷ []; map_selected = none }

press-IsSelected_example :
    IsSelected machine (press machine two_maps 6)
    × ((press machine two_maps 6).map_selected ≡ some 6)
press-IsSelected_example =
    press-IsSelected machine ght-IsGht iterates two_maps 6 (map_header 2) refl
