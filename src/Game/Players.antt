-- ===== src/Game/Players.antt =====
-- lib/coregame/src/coregame.c as the server is built: how a player comes into a game and leaves it
-- (`coregame_add_player`, `coregame_free_player`, and `cg_do_free_player`, which the table calls). The
-- server sets no `player_free_callback`, so `on_player_free` is NULL. `none` is a fault.
pub mod Leave
use wa_game.Prelude.{ℕ, ◌+◌, ◌-◌, Bool, false, Option, none, some, List, [], take, ◌>>=◌}
use wa_game.Prelude.Int.{pos}
use wa_game.Platform.{Platform}
use wa_game.Vec.{Vec}
use wa_game.Map.{u32}
use wa_game.Game.{GunPointer, null, live, freed, Player, Game}
use wa_game.Game.Cells.{add_into_cells, remove_self_from_cells}
use wa_game.Game.Walk.{player_get_cells}
use wa_game.Game.Movement.{zero_f, with_cells}
use wa_game.Game.Snapshots.{delete_player}

abbrev player_health : ℕ
player_health = 100

abbrev player_name_max : ℕ
player_name_max = 32

module _ (platform : Platform) where
  open platform use {arrays, ght, floats}
  open floats use {s}

  -- `coregame_add_player_from`: the game and the player with its cells.
  unfoldable pub add_player_from :
      Game platform → Player platform → Option (Game platform × Player platform)
  add_player_from game player = do
    let players = ght.insert game.players player.id player
    cells ← player_get_cells arrays floats game.map player.pos player.velocity player.size
    entered ← add_into_cells arrays player.id cells game.map.cells
    let placed = record player { cells = cells }
    let seen = record game { players = ght.write players player.id placed }
    some (with_cells platform seen entered, placed)

  -- `calloc` and the fields that `coregame_add_player` sets, for the bytes of a name.
  unfoldable pub new_player : ℕ → List ℕ → Player platform
  new_player id name =
      let zero = zero_f platform in
      let zero_vec : Vec floats = record { x = zero; y = zero } in
      let side = s.of_ℤ (pos 150) in
      record {
        id = id;
        pos = zero_vec;
        dir = zero_vec;
        velocity = zero_vec;
        health = s.of_ℤ (pos player_health);
        max_health = s.of_ℤ (pos player_health);
        gun = null;
        size = record { x = side; y = side };
        prev_pos = zero_vec;
        prev_dir = zero_vec;
        cursor = zero_vec;
        username = take (player_name_max - 1) name;
        cells = [];
        input = 0;
        dirty = false;
        gun_dirty = false;
        last_input_timestamp = floats.d.of_ℤ (pos 0);
        kills = 0;
        deaths = 0;
        shoot = false;
      }

  unfoldable pub add_player : Game platform → List ℕ → Option (Game platform × Player platform)
  unfolding add_player_from new_player
  add_player game name =
      let id = u32 (game.player_id_seq + 1) in
      add_player_from (record game { player_id_seq = id }) (new_player id name)

  -- `free(player->gun)`: a second time is a fault.
  abbrev pub frees : GunPointer platform → Option Bool
  frees null = some false
  frees (live gun) = some false
  frees freed = none

  unfoldable pub do_free_player : Game platform → Player platform → Option (Game platform)
  do_free_player game player = do
    _ ← frees player.gun
    left ← remove_self_from_cells arrays player.id player.cells game.map.cells
    some (with_cells platform game left)

  unfoldable pub free_player : Game platform → Player platform → Option (Game platform)
  free_player game player = do
    sbsm ← delete_player platform game.sbsm player.id
    game' ← do_free_player (record game { sbsm = sbsm }) player
    some (record game' { players = ght.del game'.players player.id })
