-- ===== src/Client/Application/Receive/Guns.antt =====
-- client/src/game_net_events.c, the segments about guns and bullets.
use wa_game.Prelude.{
  ℕ, Bool, true, not, Option, none, some, List, [], ◌∷◌, ◌&&◌, ◌==◌, if◌then◌else◌, ◌>>=◌,
}
use wa_game.Prelude.Int.{ℤ, eqb_ℤ}
use wa_game.Platform.{Platform}
use wa_game.Vec.{Vec}
use wa_game.Game.{GunSpec, Gun, live, Player}
use wa_game.Game.Guns.{player_change_gun_force, player_reload, add_bullet, add_gun_spec}
use wa_game.Game.Snapshots.{held_gun}
use wa_game.Client.Application.{ClientGame, Application, Request}
use wa_game.Client.Application.{player_reload as player_reload_request}
use wa_game.Client.Application.Receive.{with_players, own_player, change_player}

module _ (platform : Platform) where
  open platform use {ght, floats}
  open floats use {F32, F64, s}

  abbrev keep_spec : Option (List (GunSpec platform)) → GunSpec platform → List (GunSpec platform)
  keep_spec none spec = platform.arrays.add [] spec
  keep_spec (some specs) spec = platform.arrays.add specs spec

  -- Before there is a game the specifications are kept.
  unfoldable pub game_gun_spec : Application platform → GunSpec platform → Application platform
  game_gun_spec app spec = elim app.game [
    | none ↦ record app { tmp_gun_specs = some (keep_spec app.tmp_gun_specs spec) }
    | some game ↦
        let specs = add_gun_spec platform game.cg.gun_specs spec in
        record app { game = some (record game { cg = record game.cg { gun_specs = specs } }) }
  ]

  unfoldable pub game_player_gun_id : ClientGame platform → ℕ → ℕ → Option (ClientGame platform)
  game_player_gun_id game id gun_id =
      change_player platform game id
        λ p. do (p', _) ← player_change_gun_force platform game.cg.gun_specs p gun_id; some p'

  -- client/src/game.c, `game_on_player_reload`, which compares with the id of the client's player.
  abbrev pub on_player_reload :
      ClientGame platform → Player platform → Option (List (Request platform))
  on_player_reload game player = do
    own ← own_player platform game
    some (if player.id == own.id then player_reload_request ∷ [] else [])

  -- `coregame_player_reload` calls it for a gun that is not full, when it is set.
  abbrev pub reload_called :
      ClientGame platform → Player platform → Option (List (Request platform))
  reload_called game player = do
    gun ← held_gun platform player.gun
    let told = on_player_reload game player
    (if game.cg.has_player_reload && not (eqb_ℤ gun.ammo gun.spec.max_ammo) then told else some [])

  abbrev pub reload_found :
      ClientGame platform
      → Option (Player platform)
      → Option (ClientGame platform × List (Request platform))
  reload_found game none = some (game, [])
  reload_found game (some player) = do
    pushed ← reload_called game player
    (cg, player') ← player_reload platform game.cg player
    let stored = ght.write cg.players player.id player'
    some (with_players platform (record game { cg = cg }) stored, pushed)

  unfoldable pub game_player_reload :
      ClientGame platform → ℕ → Option (ClientGame platform × List (Request platform))
  game_player_reload game id = reload_found game (ght.get game.cg.players id)

  -- The state of the gun, when it is of the right kind; the timers are kept while the player shoots.
  abbrev pub state_gun : Bool → ℤ → F32 → F32 → F32 → Gun platform → Gun platform
  state_gun shoot ammo bullet_timer charge_timer reload_timer gun =
      let loaded = record gun { ammo = ammo; reload_time = reload_timer } in
      if not shoot
      then record loaded { bullet_timer = bullet_timer; charge_time = charge_timer }
      else loaded

  unfoldable pub gun_state_player :
      List (GunSpec platform)
      → ℕ
      → (Bool → Gun platform → Gun platform)
      → Player platform
      → Option (Player platform)
  gun_state_player specs gun_id f player = do
    gun ← held_gun platform player.gun
    let changed = player_change_gun_force platform specs player gun_id
    (player', _) ← if gun.spec.id == gun_id then some (player, true) else changed
    gun' ← held_gun platform player'.gun
    some (record player' { gun = live (f player'.shoot gun') })

  unfoldable pub game_player_gun_state :
      ClientGame platform → ℕ → ℕ → ℤ → F32 → F32 → F32 → Option (ClientGame platform)
  game_player_gun_state game id gun_id ammo bullet_timer charge_timer reload_timer =
      change_player platform game id (
        gun_state_player game.cg.gun_specs gun_id
          λ shoot. state_gun shoot ammo bullet_timer charge_timer reload_timer)

  -- The gun's pointer is read after the bullet was made: NULL is a fault.
  abbrev fly :
      ClientGame platform
      → Vec floats
      → Vec floats
      → Option (Player platform)
      → Option (ClientGame platform)
  fly game at dir none = some game
  fly game at dir (some player) = do
    gun ← held_gun platform player.gun
    let (cg, bullet) = add_bullet platform game.cg player gun
    let flying = record bullet {
      r = record { pos = at; size = bullet.r.size };
      dir = dir;
      velocity = record {
        x = s.mul dir.x gun.spec.bullet_speed;
        y = s.mul dir.y gun.spec.bullet_speed;
      };
    }
    some (record game { cg = record cg { bullets = ght.write cg.bullets bullet.id flying } })

  unfoldable pub game_rewind_bullet :
      ClientGame platform → ℕ → Vec floats → Vec floats → Option (ClientGame platform)
  game_rewind_bullet game owner at dir = fly game at dir (ght.get game.cg.players owner)
