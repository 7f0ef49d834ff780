-- ===== src/Game/Guns.antt =====
-- Guns: lib/coregame/src/coregame.c from `cg_get_gun_spec` and `cg_add_bullet` to
-- `cg_default_gun_shoot`, and from `coregame_gun_update` to `coregame_player_reload`. A function that
-- changes a player returns the new one: its caller stores it under the player's key.
pub mod Ammo
pub mod Fired
pub mod Shots
pub mod Change
use wa_game.Prelude.{
  ℕ, zero, suc, ◌+◌, ◌%◌, ◌^◌, Bool, true, false, not, ◌&&◌, Option, none, some, List, [], ◌∷◌,
  ◌++◌, ◌==◌, if◌then◌else◌, ◌>>=◌,
}
use wa_game.Prelude.Int.{ℤ, pos, pos_part, ◌-ℤ◌, ltb_ℤ, eqb_ℤ}
use wa_game.Platform.{Platform, Floats, FloatOps}
use wa_game.Vec.{Vec, Rect, vec_norm}
use wa_game.Game.{
  player_speed, GunSpec, Gun, GunPointer, null, live, freed, Player, Bullet, Game, Notice,
  bullet_created, player_reloaded,
}

module _ (platform : Platform) where
  open platform use {arrays, ght, floats}
  open floats use {F32, F64, s, d, widen, narrow, decimal, clampf}

  abbrev zero_f : F32
  zero_f = s.of_ℤ (pos 0)

  -- `if (x)` at a number
  abbrev pub nonzero : F32 → Bool
  nonzero x = not (s.eq x zero_f)

  -- `x += y` at a `float` and a `double`
  abbrev pub add_to : F32 → F64 → F32
  add_to x y = narrow (d.add (widen x) y)

  abbrev pub notify : Game platform → Notice platform → Game platform
  notify game n = record game { notices = game.notices ++ (n ∷ []) }

  unfoldable pub get_gun_spec : List (GunSpec platform) → ℕ → Option (GunSpec platform)
  get_gun_spec [] id = none
  get_gun_spec (spec ∷ specs) id = if spec.id == id then some spec else get_gun_spec specs id

  -- One coordinate of the point where a bullet starts.
  abbrev muzzle : F32 → F32 → F32 → F64 → F32
  muzzle at size dir delta = add_to at (
      d.add (widen (s.div size (s.of_ℤ (pos 2))))
        (d.mul (widen (s.mul dir (s.of_ℤ (pos player_speed)))) delta))

  unfoldable pub new_bullet : Game platform → Player platform → Gun platform → Bullet platform
  new_bullet game player gun =
      let at : Vec floats = record {
        x = muzzle player.pos.x player.size.x player.dir.x game.delta;
        y = muzzle player.pos.y player.size.y player.dir.y game.delta;
      } in
      let zero_v : Vec floats = record { x = zero_f; y = zero_f } in
      let aim : Vec floats = record {
        x = s.sub player.cursor.x at.x;
        y = s.sub player.cursor.y at.y;
      } in
      record {
        id = (game.bullet_id_seq + 1) % 2 ^ 32;
        owner_id = player.id;
        r = record { pos = at; size = record { x = s.of_ℤ (pos 10); y = s.of_ℤ (pos 10) } };
        dir = vec_norm floats aim;
        velocity = zero_v;
        dmg = gun.spec.dmg;
        gun_id = gun.spec.id;
        cells = [];
        collided = false;
        contact_point = zero_v;
      }

  -- The new bullet is in the table, and its creation announced.
  unfoldable pub add_bullet :
      Game platform → Player platform → Gun platform → Game platform × Bullet platform
  unfolding new_bullet
  add_bullet game player gun =
      let bullet = new_bullet game player gun in
      let game' = record game {
        bullet_id_seq = bullet.id;
        bullets = ght.insert game.bullets bullet.id bullet;
      } in
      (if game.has_bullet_create then notify game' (bullet_created bullet.id) else game', bullet)

  abbrev pub kick : Gun platform → Bullet platform → Player platform → Player platform
  kick gun bullet player =
      let push = λ (v dir : F32). s.add v (s.mul (s.neg dir) gun.spec.knockback_force) in
      record player {
        velocity = record {
          x = push player.velocity.x bullet.dir.x;
          y = push player.velocity.y bullet.dir.y;
        };
      }

  unfoldable pub default_gun_shoot :
      Game platform → Player platform → Gun platform → Game platform × Player platform
  unfolding add_bullet
  default_gun_shoot game player gun =
      let (game', bullet) = add_bullet game player gun in
      let flying = record bullet {
        velocity = record {
          x = s.mul bullet.dir.x gun.spec.bullet_speed;
          y = s.mul bullet.dir.y gun.spec.bullet_speed;
        };
      } in
      let player' = if nonzero gun.spec.knockback_force then kick gun bullet player else player in
      (record game' { bullets = ght.write game'.bullets bullet.id flying }, player')

  abbrev pub ready : Gun platform → Bool
  ready gun = s.le gun.spec.bullet_spawn_interval gun.bullet_timer && ltb_ℤ (pos 0) gun.ammo

  -- What a round of the loop of `coregame_gun_update` leaves of the gun.
  abbrev pub spent : Gun platform → Gun platform
  spent gun = record gun {
    bullet_timer = s.sub gun.bullet_timer gun.spec.bullet_spawn_interval;
    ammo = gun.ammo -ℤ pos 1;
  }

  -- `while (gun->bullet_timer >= interval && gun->ammo > 0)`, on fuel.
  unfoldable pub shoot_loop :
      ℕ
      → Game platform
      → Player platform
      → Gun platform
      → Game platform × Player platform × Gun platform
  shoot_loop zero game player gun = (game, player, gun)
  shoot_loop (suc fuel) game player gun =
      let (game', player') = default_gun_shoot game player gun in
      let rest = shoot_loop fuel game' player' (spent gun) in
      if ready gun then rest else (game, player, gun)

  -- The reloading at the start: the new gun, and whether the update goes on.
  unfoldable pub reload_step : F64 → Gun platform → Gun platform × Bool
  reload_step delta gun =
      let time = add_to gun.reload_time delta in
      if ltb_ℤ (pos 0) gun.ammo
      then (gun, true)
      else if s.le gun.spec.reload_time time
      then (record gun { reload_time = zero_f; ammo = gun.spec.max_ammo }, true)
      else (record gun { reload_time = time }, false)

  -- The gun of a player who holds the trigger.
  unfoldable pub trigger_step : F64 → Gun platform → Gun platform
  trigger_step delta gun =
      if s.eq gun.bullet_timer zero_f
        && nonzero gun.spec.initial_charge_time
        && s.lt gun.charge_time gun.spec.initial_charge_time
      then record gun { charge_time = add_to gun.charge_time delta }
      else record gun { bullet_timer = add_to gun.bullet_timer delta }

  -- The gun of a player who does not.
  unfoldable pub idle_step : F64 → Gun platform → Gun platform
  idle_step delta gun =
      let less = d.sub (widen gun.charge_time) (d.mul delta (d.of_ℤ (pos 2))) in
      let moved =
        (if gun.spec.autocharge
          then add_to gun.bullet_timer delta
          else narrow (d.sub (widen gun.bullet_timer) delta)) in
      if nonzero gun.spec.initial_charge_time
      then record gun {
        charge_time = clampf (narrow less) zero_f gun.spec.initial_charge_time;
        bullet_timer = zero_f;
      }
      else record gun { bullet_timer = clampf moved zero_f gun.spec.bullet_spawn_interval }

  -- The end of the update, after the loop.
  unfoldable pub after_shots :
      ℤ → Game platform × Player platform × Gun platform → Game platform × Player platform
  after_shots start_ammo (game, player, gun) =
      let player' =
        (if eqb_ℤ start_ammo gun.ammo
          then record player { gun = live gun }
          else record player { gun = live gun; dirty = true; gun_dirty = true }) in
      (
        if not (ltb_ℤ (pos 0) gun.ammo) && game.has_player_reload
            then notify game (player_reloaded player.id)
            else game,
        player',
      )

  -- `coregame_gun_update` of the gun that the player holds.
  unfoldable pub gun_update :
      Game platform → Player platform → Gun platform → Game platform × Player platform
  gun_update game player gun =
      let (loaded, goes_on) = reload_step game.delta gun in
      let reloading = (if ltb_ℤ (pos 0) gun.ammo then player else record player { dirty = true }) in
      let pulled = trigger_step game.delta loaded in
      let rested = idle_step game.delta loaded in
      let moved = not (s.eq gun.bullet_timer rested.bullet_timer) in
      if not goes_on
      then (game, record reloading { gun = live loaded })
      else if player.shoot
      then after_shots pulled.ammo
          (shoot_loop (pos_part pulled.ammo) game (record reloading { dirty = true }) pulled)
      else (
        game,
        (if moved
            then record reloading { gun = live rested; dirty = true }
            else record reloading { gun = live rested }),
      )

  -- `calloc` and the fields that `coregame_create_gun` sets.
  abbrev pub full_gun : GunSpec platform → Gun platform
  full_gun spec = record {
    spec = spec;
    bullet_timer = zero_f;
    charge_time = zero_f;
    ammo = spec.max_ammo;
    reload_time = zero_f;
  }

  abbrev give_gun : Player platform → Option (GunSpec platform) → Player platform × Bool
  give_gun owner none = (owner, false)
  give_gun owner (some spec) = (record owner { gun = live (full_gun spec) }, true)

  unfoldable pub create_gun : List (GunSpec platform) → ℕ → Player platform → Player platform × Bool
  create_gun specs id owner = give_gun owner (get_gun_spec specs id)

  -- 1.0 / x, computed as a double
  abbrev inverse : F32 → F32
  inverse x = narrow (d.div (d.of_ℤ (pos 1)) (widen x))

  pub add_gun_spec : List (GunSpec platform) → GunSpec platform → List (GunSpec platform)
  add_gun_spec specs spec = arrays.add specs (record spec {
    bullet_spawn_interval = inverse spec.bps;
    initial_charge_time =
        (if nonzero spec.initial_charge_time then inverse spec.initial_charge_time else zero_f);
  })

  -- Freeing a pointer twice is a fault.
  free_gun : Player platform → GunPointer platform → Option (Player platform)
  free_gun player null = some player
  free_gun player (live gun) = some (record player { gun = freed })
  free_gun player freed = none

  unfoldable pub player_change_gun_force :
      List (GunSpec platform) → Player platform → ℕ → Option (Player platform × Bool)
  unfolding free_gun
  player_change_gun_force specs player id = do
    player' ← free_gun player player.gun
    some (create_gun specs id player')

  change_held :
      List (GunSpec platform)
      → Player platform
      → ℕ
      → GunPointer platform
      → Option (Player platform × Bool)
  change_held specs player id null = some (create_gun specs id player)
  change_held specs player id (live gun) =
      if gun.spec.id == id
      then some (player, false)
      else if not (ltb_ℤ (pos 0) gun.ammo)
      then some (player, false)
      else some (create_gun specs id (record player { gun = freed }))
  change_held specs player id freed = none

  unfoldable pub player_change_gun :
      List (GunSpec platform) → Player platform → ℕ → Option (Player platform × Bool)
  unfolding change_held
  player_change_gun specs player id = change_held specs player id player.gun

  reload_held :
      Game platform
      → Player platform
      → GunPointer platform
      → Option (Game platform × Player platform)
  reload_held game player null = some (game, player)
  reload_held game player (live gun) =
      if eqb_ℤ gun.ammo gun.spec.max_ammo
      then some (game, player)
      else some (
        if game.has_player_reload then notify game (player_reloaded player.id) else game,
        record player { gun = live (record gun { ammo = pos 0 }) },
      )
  reload_held game player freed = none

  unfoldable pub player_reload :
      Game platform → Player platform → Option (Game platform × Player platform)
  unfolding reload_held
  player_reload game player = reload_held game player player.gun
