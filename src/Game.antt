-- ===== src/Game.antt =====
-- lib/coregame/include/coregame.h and sbsm.h: the state of the game, as the server is built
-- (CG_SERVER). Players, bullets and snapshots live in hash tables and are named by their keys, so
-- a pointer to one is its id; a pointer to a snapshot of the ring is its index.
pub mod Guns
pub mod Cells
pub mod Collision
pub mod Walk
pub mod Movement
pub mod Bullets
pub mod Players
pub mod Replay
pub mod Snapshots
pub mod Rotation
pub mod Input
use wa_game.Prelude.{ℕ, Bool, Option, List}
use wa_game.Prelude.Int.{ℤ}
use wa_game.Platform.{Platform}
use wa_game.Vec.{Vec, Rect}
use wa_game.Map.{RuntimeMap}

-- `player_speed` and the bits of a player's input
abbrev pub player_speed : ℕ
player_speed = 1400

abbrev pub input_up : ℕ
input_up = 1

abbrev pub input_down : ℕ
input_down = 2

abbrev pub input_right : ℕ
input_right = 4

abbrev pub input_left : ℕ
input_left = 8

abbrev pub input_shoot : ℕ
input_shoot = 16

abbrev pub move_input : ℕ
move_input = 15

abbrev pub gun_input : ℕ
gun_input = 16

module _ (platform : Platform) where
  open platform use {floats, ght}
  open floats use {F32, F64}

  -- `cg_gun_spec_t`
  pub record GunSpec : Type 0 where
    pub id : ℕ
    pub bps : F32
    pub initial_charge_time : F32
    pub bullet_spawn_interval : F32
    pub bullet_speed : F32
    pub dmg : F32
    pub knockback_force : F32
    pub max_ammo : ℤ
    pub reload_time : F32
    pub autocharge : Bool

  -- `cg_gun_t` without the pointer to its owner, in whose `gun` field it stands; the kind is a value
  -- here and a pointer into the array of kinds there.
  pub record Gun : Type 0 where
    pub spec : GunSpec
    pub bullet_timer : F32
    pub charge_time : F32
    pub ammo : ℤ
    pub reload_time : F32

  -- A player's `gun`: NULL, a gun, or the address of one that was freed.
  pub data GunPointer : Type 0 where
    null : GunPointer
    live : Gun → GunPointer
    freed : GunPointer

  -- `cg_player_t`; `cells` holds indices into the map's cells.
  pub record Player : Type 0 where
    pub id : ℕ
    pub pos : Vec floats
    pub dir : Vec floats
    pub velocity : Vec floats
    pub health : F32
    pub max_health : F32
    pub gun : GunPointer
    pub size : Vec floats
    pub prev_pos : Vec floats
    pub prev_dir : Vec floats
    pub cursor : Vec floats
    pub username : List ℕ
    pub cells : List ℕ
    pub input : ℕ
    pub dirty : Bool
    pub gun_dirty : Bool
    pub last_input_timestamp : F64
    pub kills : ℕ
    pub deaths : ℕ
    pub shoot : Bool

  -- `cg_bullet_t`
  pub record Bullet : Type 0 where
    pub id : ℕ
    pub owner_id : ℕ
    pub r : Rect floats
    pub dir : Vec floats
    pub velocity : Vec floats
    pub dmg : F32
    pub gun_id : ℕ
    pub cells : List ℕ
    pub collided : Bool
    pub contact_point : Vec floats

  -- `cg_player_snapshot_t`
  pub record PlayerSnapshot : Type 0 where
    pub player_id : ℕ
    pub pos : Vec floats
    pub velocity : Vec floats
    pub input : ℕ
    pub shooting : Bool
    pub ammo : ℤ
    pub bullet_timer : F32
    pub charge_timer : F32
    pub reload_timer : F32
    pub gun_id : ℕ
    pub dirty_count : ℕ
    pub dirty : Bool
    pub dirty_move : Bool
    pub dirty_gun : Bool

  -- `cg_bullet_snapshot_t`
  pub record BulletSnapshot : Type 0 where
    pub bullet_id : ℕ
    pub pos : Vec floats
    pub collided : Bool

  -- `cg_game_snapshot_t`
  pub record GameSnapshot : Type 0 where
    pub timestamp : F64
    pub seq : ℕ
    pub player_states : ght.Table PlayerSnapshot
    pub bullet_states : ght.Table BulletSnapshot
    pub dirty : Bool

  -- `cg_sbsm_t`. `base` and `present` always point at the snapshots of `base_idx` and
  -- `present_idx`.
  pub record Sbsm : Type 0 where
    pub seq : ℕ
    pub interval_ms : F64
    pub time : F64
    pub size : ℕ
    pub dirty : Bool
    pub oldest_change : Option ℕ
    pub base_idx : ℕ
    pub present_idx : ℕ
    pub snapshots : List GameSnapshot

  -- What the game tells its owner through callbacks that change nothing of the game.
  pub data Notice : Type 0 where
    bullet_created : ℕ → Notice
    bullet_freed : ℕ → Notice
    player_freed : ℕ → Notice
    player_reloaded : ℕ → Notice
    player_changed : ℕ → Notice
    player_gun_changed : ℕ → Notice

  -- `coregame_t`. Of the callbacks it is kept whether they are set; what was called is appended to
  -- `notices`.
  pub record Game : Type 0 where
    pub players : ght.Table Player
    pub bullets : ght.Table Bullet
    pub map : RuntimeMap
    pub gun_specs : List GunSpec
    pub delta : F64
    pub has_bullet_create : Bool
    pub has_bullet_free : Bool
    pub has_player_reload : Bool
    pub has_player_changed : Bool
    pub player_id_seq : ℕ
    pub bullet_id_seq : ℕ
    pub pause : Bool
    pub sbsm : Sbsm
    pub rewinding : Bool
    pub notices : List Notice
