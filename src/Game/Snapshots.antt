-- ===== src/Game/Snapshots.antt =====
-- lib/coregame/src/sbsm.c, "Snapshot-Based State Management": the ring of the last game snapshots,
-- what is committed to it and what is read back. `none` is a fault: a null or freed gun, a ring with
-- no room.
pub mod Commit
use wa_game.Prelude.{
  ℕ, zero, suc, ◌+◌, ◌*◌, ◌%◌, ◌^◌, Bool, true, false, not, Option, none, some, List, [], ◌∷◌, ◌++◌,
  ◌==◌, leb, if◌then◌else◌, get_elem?, replicate, for_range, ◌>>=◌,
}
use wa_game.Prelude.Int.{ℤ, pos, pos_part, eqb_ℤ}
use wa_game.Platform.{Platform, Floats, FloatOps}
use wa_game.Vec.{Vec}
use wa_game.Map.{modify_at, u32}
use wa_game.Game.{
  Gun, GunPointer, null, live, freed, Player, Bullet, PlayerSnapshot, BulletSnapshot, GameSnapshot,
  Sbsm, Game, bullet_freed,
}
use wa_game.Game.Guns.{notify, player_change_gun_force}

-- `index++; if (index >= size) index = 0;`
abbrev pub next_index : ℕ → ℕ → ℕ
next_index size i = if leb size (i + 1) then 0 else i + 1

module _ (platform : Platform) where
  open platform use {ght, floats}
  open floats use {F32, F64, s, d, ceil, clampf64}

  -- `(u32)ceil(timestamp_ms / interval_ms) % size`
  unfoldable pub sbsm_index : Sbsm platform → F64 → ℕ
  sbsm_index sbsm timestamp =
      u32 (pos_part (d.to_ℤ (ceil (d.div timestamp sbsm.interval_ms)))) % sbsm.size

  -- The index of the snapshot for a time.
  unfoldable pub sbsm_lookup : Sbsm platform → F64 → Option ℕ
  unfolding sbsm_index
  sbsm_lookup sbsm timestamp = do
    base ← get_elem? sbsm.snapshots sbsm.base_idx
    present ← get_elem? sbsm.snapshots sbsm.present_idx
    some (sbsm_index sbsm (clampf64 timestamp base.timestamp present.timestamp))

  with_gun : PlayerSnapshot platform → GunPointer platform → Option (PlayerSnapshot platform)
  with_gun pss null = some pss
  with_gun pss (live gun) = some (record pss {
    gun_id = gun.spec.id;
    ammo = gun.ammo;
    bullet_timer = gun.bullet_timer;
    charge_timer = gun.charge_time;
    reload_timer = gun.reload_time;
  })
  with_gun pss freed = none

  unfoldable pub player_to_snapshot :
      PlayerSnapshot platform → Player platform → Option (PlayerSnapshot platform)
  unfolding with_gun
  player_to_snapshot pss player =
      with_gun
        (record pss {
          pos = player.pos;
          velocity = player.velocity;
          input = player.input;
          shooting = player.shoot;
        })
        player.gun

  abbrev restore_gun : Player platform → PlayerSnapshot platform → Gun platform → Player platform
  restore_gun player pss gun =
      let gun' = record gun {
        ammo = pss.ammo;
        bullet_timer = pss.bullet_timer;
        charge_time = pss.charge_timer;
        reload_time = pss.reload_timer;
      } in
      if eqb_ℤ gun.ammo pss.ammo
      then record player { gun = live gun' }
      else record player { gun = live gun'; gun_dirty = true }

  -- `player->gun->…` of a pointer
  abbrev pub held_gun : GunPointer platform → Option (Gun platform)
  held_gun null = none
  held_gun (live gun) = some gun
  held_gun freed = none

  abbrev moved_back : Player platform → PlayerSnapshot platform → Player platform
  moved_back player pss = record player {
    pos = record { x = s.sub pss.pos.x pss.velocity.x; y = s.sub pss.pos.y pss.velocity.y };
    input = pss.input;
    shoot = pss.shooting;
  }

  unfoldable pub snapshot_to_player :
      Game platform → Player platform → PlayerSnapshot platform → Option (Player platform)
  snapshot_to_player game player pss = do
    let back = moved_back player pss
    gun ← held_gun back.gun
    let changed = player_change_gun_force platform game.gun_specs back gun.spec.id
    (player', _) ← if pss.gun_id == gun.spec.id then some (back, true) else changed
    gun' ← held_gun player'.gun
    some (restore_gun player' pss gun')

  pub snapshot_to_bullet : Bullet platform → BulletSnapshot platform → Bullet platform
  snapshot_to_bullet bullet bss = record bullet {
    r = record { pos = bss.pos; size = bullet.r.size };
    collided = bss.collided;
  }

  zero_f32 : F32
  zero_f32 = s.of_ℤ (pos 0)

  zero_vec : Vec floats
  unfolding zero_f32
  zero_vec = record { x = zero_f32; y = zero_f32 }

  -- `calloc(1, sizeof(cg_player_snapshot_t))` with the id set
  unfoldable pub new_player_snapshot : ℕ → PlayerSnapshot platform
  unfolding zero_vec zero_f32
  new_player_snapshot id = record {
    player_id = id;
    pos = zero_vec;
    velocity = zero_vec;
    input = 0;
    shooting = false;
    ammo = pos 0;
    bullet_timer = zero_f32;
    charge_timer = zero_f32;
    reload_timer = zero_f32;
    gun_id = 0;
    dirty_count = 0;
    dirty = false;
    dirty_move = false;
    dirty_gun = false;
  }

  -- The snapshot of the player in `ss`, inserted new if there is none: its table and value.
  abbrev found_or_new :
      ght.Table (PlayerSnapshot platform)
      → ℕ
      → Option (PlayerSnapshot platform)
      → ght.Table (PlayerSnapshot platform) × PlayerSnapshot platform
  found_or_new t id none = (ght.insert t id (new_player_snapshot id), new_player_snapshot id)
  found_or_new t id (some pss) = (t, pss)

  -- The snapshot and the player after the commit.
  unfoldable pub commit_player :
      GameSnapshot platform → Player platform → Option (GameSnapshot platform × Player platform)
  commit_player ss player =
      let (states, pss) =
        found_or_new ss.player_states player.id (ght.get ss.player_states player.id) in
      let store = (do
        pss' ← player_to_snapshot pss player
        some (
          record ss { player_states = ght.write states player.id (record pss' { dirty = false }) },
          record player { dirty = false },
        )) in
      if not player.dirty
      then some (record ss { player_states = ght.del ss.player_states player.id }, player)
      else store

  unfoldable pub commit_bullet : GameSnapshot platform → Bullet platform → GameSnapshot platform
  commit_bullet ss bullet =
      let bss : BulletSnapshot platform = record {
        bullet_id = bullet.id;
        pos = bullet.r.pos;
        collided = bullet.collided;
      } in
      record ss {
        bullet_states = (elim (ght.get ss.bullet_states bullet.id) [
          | none ↦ ght.insert ss.bullet_states bullet.id bss
          | some _ ↦ ght.write ss.bullet_states bullet.id bss
        ]);
      }

  -- `sbsm_delete_player`: one round of the loop, and the loop.
  abbrev pub drop_player : ℕ → GameSnapshot platform → GameSnapshot platform
  drop_player id ss = record ss { player_states = ght.del ss.player_states id }

  unfoldable pub delete_from :
      ℕ → ℕ → ℕ → ℕ → List (GameSnapshot platform) → Option (List (GameSnapshot platform))
  delete_from zero size id index snapshots = some snapshots
  delete_from (suc left) size id index snapshots = do
    snapshots' ← modify_at snapshots index (drop_player id)
    delete_from left size id (next_index size index) snapshots'

  unfoldable pub delete_player : Sbsm platform → ℕ → Option (Sbsm platform)
  unfolding delete_from
  delete_player sbsm id = do
    base ← get_elem? sbsm.snapshots sbsm.base_idx
    snapshots ← delete_from sbsm.size sbsm.size id (sbsm_index sbsm base.timestamp) sbsm.snapshots
    some (record sbsm { snapshots = snapshots })
