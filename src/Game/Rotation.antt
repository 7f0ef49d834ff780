-- ===== src/Game/Rotation.antt =====
-- lib/coregame/src/sbsm.c: `sbsm_rotate`, which opens the next snapshot of the ring and moves the
-- oldest one along, with the backfilling that it does, and `sbsm_create`; `coregame_free_bullet` of
-- lib/coregame/src/coregame.c. `none` is a fault, such as a ring with no room.
pub mod Ring
pub mod Create
use wa_game.Prelude.{
  ℕ, ◌+◌, Bool, false, Option, none, some, List, [], ◌∷◌, ◌==◌, if◌then◌else◌, get_elem?, replicate,
  ◌>>=◌,
}
use wa_game.Prelude.Int.{pos}
use wa_game.Platform.{Platform, Floats, FloatOps}
use wa_game.Map.{modify_at, u32}
use wa_game.Game.{Bullet, PlayerSnapshot, BulletSnapshot, GameSnapshot, Sbsm, Game, bullet_freed}
use wa_game.Game.Guns.{notify}
use wa_game.Game.Snapshots.{next_index}

module _ (platform : Platform) where
  open platform use {ght, floats}
  open floats use {F64, d}

  -- `coregame_free_bullet`
  unfoldable pub free_bullet : Game platform → ℕ → Game platform
  free_bullet game id =
      let told = (if game.has_bullet_free then notify platform game (bullet_freed id) else game) in
      record told { bullets = ght.del told.bullets id }

  -- The copies of the player states that the new base lacks.
  abbrev PlayerTable : Type 0
  PlayerTable = ght.Table (PlayerSnapshot platform)

  abbrev copy_missing :
      PlayerTable → PlayerSnapshot platform → Option (PlayerSnapshot platform) → PlayerTable
  copy_missing new pss none = ght.insert new pss.player_id pss
  copy_missing new pss (some _) = new

  abbrev backfill_player : PlayerTable → Option (PlayerSnapshot platform) → PlayerTable
  backfill_player new none = new
  backfill_player new (some pss) = copy_missing new pss (ght.get new pss.player_id)

  player_states_backfilling : PlayerTable → List ℕ → PlayerTable → PlayerTable
  player_states_backfilling old [] new = new
  player_states_backfilling old (k ∷ ks) new =
      player_states_backfilling old ks (backfill_player new (ght.get old k))

  -- The game and the bullet states of the new base; `cg` is NULL (`none`) while the ring is created.
  abbrev pub BulletFill : Type 0
  BulletFill = Option (Game platform) × ght.Table (BulletSnapshot platform)

  abbrev free_found : Game platform → Option (Bullet platform) → Game platform
  free_found game none = game
  free_found game (some bullet) = free_bullet game bullet.id

  abbrev fill_bullet :
      ght.Table (BulletSnapshot platform)
      → BulletSnapshot platform
      → Option (BulletSnapshot platform)
      → ght.Table (BulletSnapshot platform)
  fill_bullet new old none = ght.insert new old.bullet_id old
  fill_bullet new old (some _) = new

  free_collided : BulletFill → BulletSnapshot platform → Option BulletFill
  free_collided (none, new) old = none
  free_collided (some game, new) old =
      some (some (free_found game (ght.get game.bullets old.bullet_id)), new)

  do_bullet_backfilling : BulletFill → BulletSnapshot platform → Option BulletFill
  unfolding free_collided
  do_bullet_backfilling (cg, new) old =
      if old.collided
      then free_collided (cg, new) old
      else some (cg, fill_bullet new old (ght.get new old.bullet_id))

  -- A round of the loop, at the state that its key leads to.
  abbrev fill_round : BulletFill → Option (BulletSnapshot platform) → Option BulletFill
  fill_round fill none = some fill
  fill_round fill (some bss) = do_bullet_backfilling fill bss

  bullet_states_backfilling :
      ght.Table (BulletSnapshot platform) → List ℕ → BulletFill → Option BulletFill
  unfolding do_bullet_backfilling
  bullet_states_backfilling old [] fill = some fill
  bullet_states_backfilling old (k ∷ ks) fill = do
    fill' ← fill_round fill (ght.get old k)
    bullet_states_backfilling old ks fill'

  abbrev with_states :
      PlayerTable
      → ght.Table (BulletSnapshot platform)
      → GameSnapshot platform
      → GameSnapshot platform
  with_states players bullets ss = record ss { player_states = players; bullet_states = bullets }

  -- `sbsm_state_backfilling` into the snapshot with index `new_idx`.
  state_backfilling :
      Option (Game platform)
      → List (GameSnapshot platform)
      → ℕ
      → ℕ
      → Option (Option (Game platform) × List (GameSnapshot platform))
  state_backfilling cg snapshots new_idx old_idx = do
    old ← get_elem? snapshots old_idx
    new ← get_elem? snapshots new_idx
    let players =
        player_states_backfilling old.player_states (ght.keys old.player_states) new.player_states
    (cg', bullets) ←
        bullet_states_backfilling old.bullet_states (ght.keys old.bullet_states)
          (cg, new.bullet_states)
    snapshots' ← modify_at snapshots new_idx (with_states players bullets)
    some (cg', snapshots')

  -- What becomes of the present snapshot.
  abbrev pub stamped : F64 → ℕ → GameSnapshot platform → GameSnapshot platform
  stamped time seq ss = record ss {
    timestamp = time;
    seq = seq;
    player_states = ght.clear ss.player_states;
  }

  -- The end of `sbsm_rotate`.
  stamp_present :
      Option (Game platform) → Sbsm platform → Option (Option (Game platform) × Sbsm platform)
  stamp_present cg sbsm = do
    let time = d.add sbsm.time sbsm.interval_ms
    snapshots ← modify_at sbsm.snapshots sbsm.present_idx (stamped time sbsm.seq)
    some (cg, record sbsm { time = time; seq = u32 (sbsm.seq + 1); snapshots = snapshots })

  pub sbsm_rotate :
      Option (Game platform) → Sbsm platform → Option (Option (Game platform) × Sbsm platform)
  sbsm_rotate cg sbsm =
      let present = next_index sbsm.size sbsm.present_idx in
      let base = next_index sbsm.size sbsm.base_idx in
      let moved = record sbsm { present_idx = present } in
      let full = (do
        (cg', snapshots) ← state_backfilling cg sbsm.snapshots base sbsm.base_idx
        stamp_present cg' (record moved { base_idx = base; snapshots = snapshots })) in
      if present == sbsm.base_idx then full else stamp_present cg moved

  zero_f64 : F64
  zero_f64 = d.of_ℤ (pos 0)

  empty_snapshot : GameSnapshot platform
  unfolding zero_f64
  empty_snapshot = record {
    timestamp = zero_f64;
    seq = 0;
    player_states = ght.init (PlayerSnapshot platform);
    bullet_states = ght.init (BulletSnapshot platform);
    dirty = false;
  }

  -- `calloc` and the fields that `sbsm_create` sets
  new_ring : ℕ → F64 → Sbsm platform
  new_ring size interval_ms = record {
    seq = 0;
    interval_ms = interval_ms;
    time = zero_f64;
    size = size;
    dirty = false;
    oldest_change = none;
    base_idx = 0;
    present_idx = 0;
    snapshots = replicate size empty_snapshot;
  }

  pub sbsm_create : ℕ → F64 → Option (Sbsm platform)
  sbsm_create size interval_ms = do
    (_, sbsm) ← sbsm_rotate none (new_ring size interval_ms)
    some sbsm
