-- ===== src/Game/Bullets.antt =====
-- lib/coregame/src/coregame.c as the server is built: how the bullets fly and what they hit, from
-- `cg_bullet_block_cell_collision_test` to `coregame_update_bullets`. A bullet that is being updated
-- is passed along. `none` is a fault, such as the use of a bullet that was freed.
pub mod Hits
pub mod Answering
pub mod Flight
pub mod Landing
use wa_game.Prelude.{
  ℕ, ◌+◌, ◌*◌, Bool, true, false, ◌||◌, Option, none, some, List, [], ◌∷◌, ◌==◌, if◌then◌else◌,
  get_elem?, ◌>>=◌,
}
use wa_game.Prelude.Int.{pos}
use wa_game.Platform.{Platform}
use wa_game.Vec.{Vec, Rect}
use wa_game.Map.{Cell, cell_block, u32, modify_at}
use wa_game.Game.{Player, Bullet, Game, GameSnapshot}
use wa_game.Game.Collision.{Contact, bullet_cell_collision}
use wa_game.Game.Walk.{get_cells_2points}
use wa_game.Game.Movement.{zero_f, no_contact, cell_rect, player_rect}
use wa_game.Game.Snapshots.{commit_bullet}
use wa_game.Game.Rotation.{free_bullet}

module _ (platform : Platform) where
  open platform use {arrays, ght, floats}
  open floats use {F32, F64, s, d, widen, narrow}

  -- The callback `player_damaged` at the ids of the target and the attacker, if it is set.
  abbrev pub Damaged : Type 0
  Damaged = Option (Game platform → ℕ → ℕ → Option (Game platform))

  -- What a test leaves: the game, the bullet, where it goes, and the result.
  abbrev pub Tested : Type 0
  Tested = Game platform × Bullet platform × Vec floats × Bool

  abbrev pub stopped : Bullet platform → Vec floats → Bullet platform
  stopped bullet point = record bullet { collided = true; contact_point = point }

  unfoldable pub block_cell_collision_test :
      Game platform → Bullet platform → Cell → Vec floats → Tested
  block_cell_collision_test game bullet cell next_pos =
      let (hit, c) =
        bullet_cell_collision floats bullet.r bullet.velocity (cell_rect platform game.map cell)
          (no_contact platform) in
      if hit then (game, stopped bullet c.point, c.point, true) else (game, bullet, next_pos, false)

  -- The target's health after the hit, not below zero.
  abbrev pub wounded : Player platform → F32 → Player platform
  wounded target dmg =
      let health = s.sub target.health dmg in
      record target { health = if s.lt health (zero_f platform) then zero_f platform else health }

  -- The damage, once the attacker was sought: the game after it, and whether the attacker was there.
  unfoldable pub attacked :
      (Game platform → ℕ → ℕ → Option (Game platform))
      → Game platform
      → Bullet platform
      → Player platform
      → Option (Player platform)
      → Option (Game platform × Bool)
  attacked damaged game bullet target none = some (game, false)
  attacked damaged game bullet target (some attacker) = do
    let players = ght.write game.players target.id (wounded target bullet.dmg)
    game' ← damaged (record game { players = players }) target.id attacker.id
    some (game', true)

  unfoldable pub hurt :
      Damaged → Game platform → Bullet platform → Player platform → Option (Game platform × Bool)
  hurt none game bullet target = some (game, true)
  hurt (some damaged) game bullet target =
      attacked damaged game bullet target (ght.get game.players bullet.owner_id)

  -- The body of the loop at a player who was hit: after the damage, and all of it.
  abbrev pub after_hit : Bullet platform → Vec floats → Vec floats → Game platform × Bool → Tested
  after_hit bullet point next_pos (game, found) =
      if found then (game, stopped bullet point, point, true) else (game, bullet, next_pos, true)

  abbrev pub strike :
      Damaged
      → Game platform
      → Bullet platform
      → Player platform
      → Vec floats
      → Vec floats
      → Option Tested
  strike damaged game bullet target point next_pos = do
    r ← hurt damaged game bullet target
    some (after_hit bullet point next_pos r)

  -- The loop of `cg_bullet_empty_cell_collision_test` over the players in the cell.
  unfoldable pub test_contents :
      Damaged
      → Game platform
      → Bullet platform
      → List ℕ
      → Vec floats
      → Contact floats
      → Option Tested
  test_contents damaged game bullet [] next_pos contact = some (game, bullet, next_pos, false)
  test_contents damaged game bullet (id ∷ ids) next_pos contact = do
    target ← ght.get game.players id
    let (hit, c) =
        bullet_cell_collision floats bullet.r bullet.velocity (player_rect platform target) contact
    let passed = test_contents damaged game bullet ids next_pos contact
    let missed = test_contents damaged game bullet ids next_pos c
    let struck = strike damaged game bullet target c.point next_pos
    if target.id == bullet.owner_id then passed else if hit then struck else missed

  unfoldable pub empty_cell_collision_test :
      Damaged → Game platform → Bullet platform → Option (List ℕ) → Vec floats → Option Tested
  empty_cell_collision_test damaged game bullet none next_pos = none
  empty_cell_collision_test damaged game bullet (some contents) next_pos =
      test_contents damaged game bullet contents next_pos (no_contact platform)

  -- A round of `cg_bullet_collision_test`.
  unfoldable pub test_cell :
      Damaged → Game platform → Bullet platform → Cell → Vec floats → Option Tested
  test_cell damaged game bullet cell next_pos =
      if cell.type == cell_block
      then some (block_cell_collision_test game bullet cell next_pos)
      else empty_cell_collision_test damaged game bullet cell.contents next_pos

  -- `cg_bullet_collision_test`, over `bullet->cells`
  unfoldable pub collision_test :
      Damaged → Game platform → Bullet platform → List ℕ → Vec floats → Option Tested
  collision_test damaged game bullet [] next_pos = some (game, bullet, next_pos, false)
  collision_test damaged game bullet (p ∷ ps) next_pos = do
    cell ← get_elem? game.map.cells p
    tested ← test_cell damaged game bullet cell next_pos
    let on = collision_test damaged tested.0 tested.1 ps tested.2
    if tested.3 then some tested else on

  abbrev pub next_position : Game platform → Bullet platform → Vec floats
  next_position game bullet =
      let go = λ (at v : F32). narrow (d.add (widen at) (d.mul (widen v) game.delta)) in
      record { x = go bullet.r.pos.x bullet.velocity.x; y = go bullet.r.pos.y bullet.velocity.y }

  abbrev pub is_outside : Game platform → Vec floats → Bool
  is_outside game at =
      let zero = zero_f platform in
      let edge = λ (n : ℕ). s.of_ℤ (pos (u32 (n * game.map.grid_size))) in
      s.lt at.x zero || s.lt at.y zero || s.lt (edge game.map.w) at.x || s.lt (edge game.map.h) at.y

  -- The bullet after the test.
  abbrev pub landed : Tested → Bullet platform
  landed (game, bullet, next_pos, hit) =
      let r : Rect floats = record { pos = next_pos; size = bullet.r.size } in
      if hit then record bullet { collided = true; r = r } else record bullet { r = r }

  -- `sbsm_commit_bullet(ss, bullet)` for the snapshot with index `at` and the bullet with this id,
  -- which may have been freed.
  unfoldable pub commit_bullet_to : Game platform → ℕ → ℕ → Option (Game platform)
  commit_bullet_to game at id = do
    bullet ← ght.get game.bullets id
    ss ← get_elem? game.sbsm.snapshots at
    snapshots ← modify_at game.sbsm.snapshots at λ _. commit_bullet platform ss bullet
    some (record game { sbsm = record game.sbsm { snapshots = snapshots } })

  -- The end of the update: what is stored, what is freed, and the commit.
  unfoldable pub settle : Tested → Option (Game platform)
  settle tested =
      let bullet = landed tested in
      let stored = record tested.0 { bullets = ght.write tested.0.bullets bullet.id bullet } in
      let left =
        (if is_outside stored bullet.r.pos
          then free_bullet platform stored bullet.id
          else stored) in
      commit_bullet_to left left.sbsm.present_idx bullet.id

  unfoldable pub update_bullet : Damaged → Game platform → Bullet platform → Option (Game platform)
  update_bullet damaged game bullet =
      let next_pos = next_position game bullet in
      let fuel = game.map.w + game.map.h + 1 in
      let flown = (do
        cells ← get_cells_2points arrays floats fuel game.map bullet.r.pos next_pos []
        tested ← collision_test damaged game (record bullet { cells = cells }) cells next_pos
        settle tested) in
      if bullet.collided then some game else flown

  abbrev update_found : Damaged → Game platform → Option (Bullet platform) → Option (Game platform)
  update_found damaged game none = some game
  update_found damaged game (some bullet) = update_bullet damaged game bullet

  update_each : Damaged → List ℕ → Game platform → Option (Game platform)
  update_each damaged [] game = some game
  update_each damaged (k ∷ ks) game = do
    game' ← update_found damaged game (ght.get game.bullets k)
    update_each damaged ks game'

  pub update_bullets : Damaged → Game platform → Option (Game platform)
  unfolding update_each
  update_bullets damaged game = update_each damaged (ght.keys game.bullets) game
