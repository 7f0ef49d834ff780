-- ===== src/Tests/Games.antt =====
-- A game of one player with a loaded gun, and a ring of two snapshots, under the theorems on games.
use wa_game.Prelude.{
  zero, suc, List, get_elem?, ℕ, ◌≡◌, ◌≢◌, refl, arith, true, false, none, some, [], ◌∷◌, Returns,
  mem, ◌>>=◌,
}
use wa_game.Prelude.Int.{pos, pos_part}
use wa_game.Platform.Models.{machine, ght-IsGht, floats}
use wa_game.Platform.Models.{arrays, arrays-IsArray}
use wa_game.Map.{Cell}
use wa_game.Game.Cells.{add_into_cells, remove_self_from_cells}
use wa_game.Game.Cells.Undo.{Without, remove_self_from_cells-add_into_cells}
use wa_game.Vec.{Vec}
use wa_game.Game.{GunSpec, Gun, live, freed, Player, PlayerSnapshot, GameSnapshot, Sbsm, Game}
use wa_game.Game.Guns.{gun_update, player_change_gun, get_gun_spec, reload_step}
use wa_game.Game.Guns.Ammo.{IsLoaded}
use wa_game.Game.Guns.Shots.{AreFree}
use wa_game.Game.Guns.Fired.{Fired, gun_update-Fired}
use wa_game.Game.Guns.Change.{IsDangling, player_change_gun_unknown}
use wa_game.Game.Snapshots.{sbsm_index, sbsm_lookup, snapshot_to_player, commit_player}
use wa_game.Game.Snapshots.Commit.{
  Restored, snapshot_to_player-Restored, Committed, commit_player-Committed,
}
use wa_game.Game.Rotation.{sbsm_rotate}
use wa_game.Game.Rotation.Ring.{IsRing, Rotated, sbsm_rotate-Rotated}
use wa_game.Game.Input.{set_player_input_t}
use wa_game.Game.Input.Late.{Accepted, set_player_input_t-Accepted}

abbrev pistol : GunSpec machine
pistol = record {
  id = 1;
  bps = pos 1;
  initial_charge_time = pos 0;
  bullet_spawn_interval = pos 1;
  bullet_speed = pos 9;
  dmg = pos 5;
  knockback_force = pos 2;
  max_ammo = pos 6;
  reload_time = pos 3;
  autocharge = false;
}

abbrev pub rifle : GunSpec machine
rifle = record pistol { id = 2; max_ammo = pos 30 }

abbrev pub gun : Gun machine
gun = record {
  spec = pistol;
  bullet_timer = pos 2;
  charge_time = pos 0;
  ammo = pos 4;
  reload_time = pos 0;
}

gun-IsLoaded : IsLoaded machine gun
gun-IsLoaded = record { not_negative = refl; le-max = omega arith; sane = refl }

abbrev origin : Vec floats
origin = record { x = pos 0; y = pos 0 }

abbrev pub player : Player machine
player = record {
  id = 7;
  pos = origin;
  dir = origin;
  velocity = origin;
  health = pos 100;
  max_health = pos 100;
  gun = live gun;
  size = origin;
  prev_pos = origin;
  prev_dir = origin;
  cursor = origin;
  username = [];
  cells = [];
  input = 16;
  dirty = true;
  gun_dirty = false;
  last_input_timestamp = pos 0;
  kills = 0;
  deaths = 0;
  shoot = true;
}

pub armed : player.gun ≢ freed
armed e = ground arith

abbrev stored_player : PlayerSnapshot machine
stored_player = record {
  player_id = 7;
  pos = origin;
  velocity = origin;
  input = 0;
  shooting = false;
  ammo = pos 5;
  bullet_timer = pos 0;
  charge_timer = pos 0;
  reload_timer = pos 0;
  gun_id = 2;
  dirty_count = 0;
  dirty = false;
  dirty_move = false;
  dirty_gun = false;
}

-- A snapshot that was taken at a time, of the one player.
abbrev pub snapshot : ℕ → GameSnapshot machine
snapshot time = record {
  timestamp = pos time;
  seq = time;
  player_states = (7, stored_player) ∷ [];
  bullet_states = [];
  dirty = false;
}

abbrev pub ring : Sbsm machine
ring = record {
  seq = 2;
  interval_ms = pos 1;
  time = pos 1;
  size = 2;
  dirty = false;
  oldest_change = none;
  base_idx = 0;
  present_idx = 1;
  snapshots = snapshot 0 ∷ snapshot 1 ∷ [];
}

pub ring-IsRing : IsRing machine ring
ring-IsRing = record { room = refl; base_in = omega arith; present_in = omega arith }

abbrev pub game : Game machine
game = record {
  players = (7, player) ∷ [];
  bullets = [];
  map = record { w = 0; h = 0; grid_size = 16; editor_mode = false; cells = [] };
  gun_specs = pistol ∷ rifle ∷ [];
  delta = pos 1;
  has_bullet_create = true;
  has_bullet_free = false;
  has_player_reload = false;
  has_player_changed = true;
  player_id_seq = 8;
  bullet_id_seq = 0;
  pause = false;
  sbsm = ring;
  rewinding = false;
  notices = [];
}

ids_free : AreFree machine game (pos_part (reload_step machine game.delta gun).0.ammo)
ids_free j lt = refl

gun_update-Fired_example : Fired machine game player gun (gun_update machine game player gun)
gun_update-Fired_example =
    gun_update-Fired machine ght-IsGht game player gun gun-IsLoaded (omega arith) ids_free

player_change_gun_unknown_example :
    Returns (player_change_gun machine game.gun_specs player 9) (IsDangling machine)
unfolding get_gun_spec
player_change_gun_unknown_example =
    player_change_gun_unknown machine game.gun_specs player 9 gun refl refl refl refl

snapshot_to_player-Restored_example :
    Returns
      (snapshot_to_player machine game player stored_player)
      (Restored machine player stored_player gun)
unfolding get_gun_spec
snapshot_to_player-Restored_example =
    snapshot_to_player-Restored machine game player stored_player gun pistol refl refl

commit_player-Committed_example :
    Returns (commit_player machine (snapshot 1) player) (Committed machine (snapshot 1) player)
commit_player-Committed_example =
    commit_player-Committed machine ght-IsGht (snapshot 1) player armed refl

abbrev resting : Player machine
resting = record player { dirty = false }

sbsm_rotate-Rotated_example : Returns (sbsm_rotate machine (some game) ring) (Rotated machine ring)
sbsm_rotate-Rotated_example = sbsm_rotate-Rotated machine game ring ring-IsRing

abbrev interval : floats.F64
interval = pos 4

set_player_input_t-Accepted_example :
    Returns (set_player_input_t machine ring player 17 (snapshot 1).timestamp) (λ r.
      Accepted machine ring 1 7 17 (snapshot 1).timestamp r.0
      × (r.1.last_input_timestamp ≡ (snapshot 1).timestamp))
unfolding sbsm_lookup sbsm_index
set_player_input_t-Accepted_example =
    set_player_input_t-Accepted machine ght-IsGht ring 1 (snapshot 1) refl refl tt player 17
      (snapshot 1).timestamp refl refl armed refl

-- A free cell where player 3 stands, and a block.
abbrev cells : List Cell
cells =
    record { pos = record { x = 0; y = 0 }; type = 0; contents = some (3 ∷ []) }
    ∷ record { pos = record { x = 1; y = 0 }; type = 1; contents = none }
    ∷ []

cells-Without :
    (p : ℕ)
    → mem p (0 ∷ 1 ∷ []) ≡ true
    → (cell : Cell) × (get_elem? cells p ≡ some cell) × Without arrays arrays-IsArray 7 cell
cells-Without zero m = (_, refl, λ o. (3 ∷ [], refl, refl))
cells-Without (suc zero) m = (_, refl, λ o. absurd (ground arith))
cells-Without (suc (suc p)) m = absurd (ground arith)

remove_self_from_cells-add_into_cells_example :
    Returns
      (add_into_cells arrays 7 (0 ∷ 1 ∷ []) cells >>= remove_self_from_cells arrays 7 (0 ∷ 1 ∷ []))
      (λ cells'. (k : ℕ) → get_elem? cells' k ≡ get_elem? cells k)
remove_self_from_cells-add_into_cells_example =
    remove_self_from_cells-add_into_cells arrays arrays-IsArray 7 (0 ∷ 1 ∷ []) cells refl
      cells-Without
