-- ===== src/Game/Movement.antt =====
-- lib/coregame/src/coregame.c as the server is built: how the players move (`coregame_update_player`,
-- `coregame_update_players`). A player that is being updated is passed along; the others stand in
-- the table. The callbacks are notices.
use wa_game.Prelude.{
  ℕ, Bool, true, false, not, ◌||◌, Option, none, some, List, [], ◌∷◌, ◌==◌, if◌then◌else◌,
  get_elem?, ◌*◌, ◌>>=◌,
}
use wa_game.Prelude.Int.{pos}
use wa_game.Platform.{Platform}
use wa_game.Vec.{Vec, Rect}
use wa_game.Map.{Cell, RuntimeMap, cell_block, u32, modify_at}
use wa_game.Game.{
  GunPointer, null, live, freed, Player, Game, player_changed, player_gun_changed, player_speed,
}
use wa_game.Game.Guns.{notify, gun_update}
use wa_game.Game.Cells.{add_into_cells, remove_self_from_cells}
use wa_game.Game.Collision.{Contact, player_cell_collision, resolve_player_collision}
use wa_game.Game.Walk.{player_get_cells}
use wa_game.Game.Snapshots.{commit_player}

module _ (platform : Platform) where
  open platform use {ght, floats, arrays}
  open floats use {F32, F64, s, d, widen, narrow}

  abbrev pub zero_f : F32
  zero_f = s.of_ℤ (pos 0)

  abbrev pub no_contact : Contact floats
  no_contact = record {
    point = record { x = zero_f; y = zero_f };
    normal = record { x = zero_f; y = zero_f };
    time = zero_f;
  }

  -- The rectangle of a cell of the map.
  abbrev pub cell_rect : RuntimeMap → Cell → Rect floats
  cell_rect map cell =
      let to_float = λ (n : ℕ). s.of_ℤ (pos n) in
      record {
        pos = record {
          x = to_float (u32 (cell.pos.x * map.grid_size));
          y = to_float (u32 (cell.pos.y * map.grid_size));
        };
        size = record { x = to_float map.grid_size; y = to_float map.grid_size };
      }

  abbrev pub player_rect : Player platform → Rect floats
  player_rect player = record { pos = player.pos; size = player.size }

  -- A test of a player against a target and, when it hits, what it does to the velocity.
  abbrev collide : Player platform → Rect floats → Contact floats → Player platform × Contact floats
  collide player target contact =
      let (hit, c) =
        player_cell_collision floats (player_rect player) player.velocity target contact in
      (
        if hit
            then record player { velocity = resolve_player_collision floats player.velocity c }
            else player,
        c,
      )

  -- The loop over the players in a cell; the contact of one test is there for the next.
  handle_player_collision :
      Game platform → List ℕ → Player platform → Contact floats → Option (Player platform)
  handle_player_collision game [] player contact = some player
  handle_player_collision game (id ∷ ids) player contact = do
    target ← ght.get game.players id
    let (player', contact') = collide player (player_rect target) contact
    handle_player_collision game ids player' contact'

  abbrev in_contents : Game platform → Player platform → Option (List ℕ) → Option (Player platform)
  in_contents game player none = none
  in_contents game player (some contents) = handle_player_collision game contents player no_contact

  abbrev collide_cell : Game platform → Player platform → Cell → Option (Player platform)
  collide_cell game player cell =
      let block = (collide player (cell_rect game.map cell) no_contact).0 in
      let others = in_contents game player cell.contents in
      if cell.type == cell_block then some block else others

  -- `cg_player_handle_collision`, over `player->cells`
  handle_collision : Game platform → List ℕ → Player platform → Option (Player platform)
  unfolding handle_player_collision
  handle_collision game [] player = some player
  handle_collision game (p ∷ ps) player = do
    cell ← get_elem? game.map.cells p
    player' ← collide_cell game player cell
    handle_collision game ps player'

  abbrev pub with_cells : Game platform → List Cell → Game platform
  with_cells game cells = record game { map = record game.map { cells = cells } }

  -- `x *= delta` at a `float` and a `double`
  abbrev scaled : F32 → F64 → F32
  scaled v delta = narrow (d.mul (widen v) delta)

  -- The part of the update for a player who has a velocity.
  unfoldable pub move_player :
      Game platform → Player platform → Option (Game platform × Player platform)
  unfolding handle_collision
  move_player game player = do
    let slow = record player {
      velocity = record {
        x = scaled player.velocity.x game.delta;
        y = scaled player.velocity.y game.delta;
      };
    }
    left ← remove_self_from_cells arrays player.id player.cells game.map.cells
    let game1 = with_cells game left
    near ← player_get_cells arrays floats game1.map slow.pos slow.velocity slow.size
    resolved ← handle_collision game1 near (record slow { cells = near })
    let to : Vec floats = record {
      x = s.add resolved.pos.x resolved.velocity.x;
      y = s.add resolved.pos.y resolved.velocity.y;
    }
    let moved = record resolved { pos = to }
    here ← player_get_cells arrays floats game1.map moved.pos moved.velocity moved.size
    entered ← add_into_cells arrays player.id here game1.map.cells
    some (with_cells game1 entered, record moved { cells = here })

  abbrev differs : Vec floats → Vec floats → Bool
  differs a b = not (s.eq a.x b.x) || not (s.eq a.y b.y)

  -- The end of the update, which tells of a change.
  unfoldable pub tell_change : Game platform × Player platform → Game platform × Player platform
  tell_change (game, player) =
      let dirty = record game { sbsm = record game.sbsm { dirty = true } } in
      let told =
        (if game.has_player_changed
          then notify platform dirty (player_changed player.id)
          else dirty) in
      if differs player.prev_dir player.dir || differs player.prev_pos player.pos
      then (told, record player { dirty = true; prev_pos = player.pos; prev_dir = player.dir })
      else (game, player)

  abbrev pub nonzero : F32 → Bool
  nonzero v = not (s.eq v zero_f)

  unfoldable pub update_player :
      Game platform → Player platform → Option (Game platform × Player platform)
  update_player game player = do
    let moving = nonzero player.velocity.x || nonzero player.velocity.y
    let moved = move_player game player
    r ← (if moving then moved else some (game, player))
    some (tell_change r)

  -- `if (player->gun) coregame_gun_update(cg, player->gun)`
  abbrev pub update_gun :
      Game platform
      → Player platform
      → GunPointer platform
      → Option (Game platform × Player platform)
  update_gun game player null = some (game, player)
  update_gun game player (live gun) = some (gun_update platform game player gun)
  update_gun game player freed = none

  -- `player->velocity = player->dir * PLAYER_SPEED`
  abbrev pub run : Player platform → Player platform
  run player =
      let speed = s.of_ℤ (pos player_speed) in
      record player {
        velocity = record { x = s.mul player.dir.x speed; y = s.mul player.dir.y speed };
      }

  abbrev tell_gun : Game platform × Player platform → Game platform × Player platform
  tell_gun (game, player) =
      if player.gun_dirty
      then (
        notify platform game (player_gun_changed player.id),
        record player { gun_dirty = false },
      )
      else (game, player)

  -- The commit to the snapshot with index `at`, and the write through the pointer to the player.
  pub commit_to : Game platform → ℕ → Player platform → Option (Game platform)
  commit_to game at player = do
    ss ← get_elem? game.sbsm.snapshots at
    (ss', player') ← commit_player platform ss player
    snapshots ← modify_at game.sbsm.snapshots at λ _. ss'
    some (record game {
      sbsm = record game.sbsm { snapshots = snapshots };
      players = ght.write game.players player'.id player';
    })

  -- A round of `coregame_update_players`.
  pub update_one : Game platform → Player platform → Option (Game platform)
  unfolding commit_to
  update_one game player = do
    let running = run player
    (game1, shot) ← update_gun game running running.gun
    r ← update_player game1 shot
    let (game2, told) = tell_gun r
    commit_to game2 game2.sbsm.present_idx told

  abbrev update_found : Game platform → Option (Player platform) → Option (Game platform)
  unfolding update_one
  update_found game none = some game
  update_found game (some player) = update_one game player

  update_each : List ℕ → Game platform → Option (Game platform)
  update_each [] game = some game
  update_each (k ∷ ks) game = do
    game' ← update_found game (ght.get game.players k)
    update_each ks game'

  pub update_players : Game platform → Option (Game platform)
  unfolding update_each
  update_players game = update_each (ght.keys game.players) game
