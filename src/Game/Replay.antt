-- ===== src/Game/Replay.antt =====
-- lib/coregame/src/sbsm.c from `sbsm_rewind_player` to `sbsm_rollback`, which runs the game anew from
-- the oldest snapshot whose input has changed, and `coregame_update` of lib/coregame/src/coregame.c.
-- The loop of `sbsm_rewind` runs on fuel.
pub mod Ends
use wa_game.Prelude.{
  ℕ, zero, suc, ◌||◌, Bool, true, false, not, Option, none, some, List, [], ◌∷◌, ◌==◌,
  if◌then◌else◌, get_elem?, ◌>>=◌,
}
use wa_game.Prelude.Int.{pos}
use wa_game.Platform.{Platform}
use wa_game.Map.{modify_at}
use wa_game.Game.{Player, Bullet, PlayerSnapshot, BulletSnapshot, GameSnapshot, Game}
use wa_game.Game.Input.{set_player_input}
use wa_game.Game.Snapshots.{sbsm_index, next_index, snapshot_to_player, snapshot_to_bullet}
use wa_game.Game.Rotation.{sbsm_rotate}
use wa_game.Game.Movement.{run, update_gun, update_player, commit_to, update_players}
use wa_game.Game.Bullets.{Damaged, update_bullet, commit_bullet_to, update_bullets}

module _ (platform : Platform) where
  open platform use {ght, floats}
  open floats use {F64, d}

  -- `pss->dirty = false` in the snapshot with index `at`
  clean_state : Game platform → ℕ → PlayerSnapshot platform → Option (Game platform)
  clean_state game at pss = do
    let clean = record pss { dirty = false }
    snapshots ←
        modify_at game.sbsm.snapshots at
          λ ss. record ss { player_states = ght.write ss.player_states pss.player_id clean }
    some (record game { sbsm = record game.sbsm { snapshots = snapshots } })

  -- The player's new input, if the snapshot has one.
  rewind_input :
      Game platform
      → ℕ
      → Player platform
      → Option (PlayerSnapshot platform)
      → Option (Game platform × Player platform)
  unfolding clean_state
  rewind_input game at player none = some (game, player)
  rewind_input game at player (some pss) =
      let cleaned = (do
        game' ← clean_state game at pss
        some (game', set_player_input platform player pss.input)) in
      if pss.dirty then cleaned else some (game, player)

  -- `sbsm_rewind_player` at the snapshot with index `at`
  unfoldable rewind_player : Game platform → ℕ → Player platform → Option (Game platform)
  unfolding rewind_input
  rewind_player game at player = do
    gss ← get_elem? game.sbsm.snapshots at
    (game1, steered) ← rewind_input game at player (ght.get gss.player_states player.id)
    (game2, shot) ← update_gun platform game1 steered steered.gun
    (game3, moved) ← update_player platform game2 (run platform shot)
    commit_to platform game3 at moved

  abbrev rewind_found : Game platform → ℕ → Option (Player platform) → Option (Game platform)
  unfolding rewind_player
  rewind_found game at none = some game
  rewind_found game at (some player) = rewind_player game at player

  unfoldable rewind_players : List ℕ → Game platform → ℕ → Option (Game platform)
  rewind_players [] game at = some game
  rewind_players (k ∷ ks) game at = do
    game' ← rewind_found game at (ght.get game.players k)
    rewind_players ks game' at

  abbrev rewind_bullet :
      Damaged platform → Game platform → ℕ → Option (Bullet platform) → Option (Game platform)
  rewind_bullet damaged game at none = some game
  rewind_bullet damaged game at (some bullet) = do
    game' ← update_bullet platform damaged game bullet
    commit_bullet_to platform game' at bullet.id

  unfoldable rewind_bullets : Damaged platform → List ℕ → Game platform → ℕ → Option (Game platform)
  rewind_bullets damaged [] game at = some game
  rewind_bullets damaged (k ∷ ks) game at = do
    game' ← rewind_bullet damaged game at (ght.get game.bullets k)
    rewind_bullets damaged ks game' at

  -- The body of the loop up to the test for its end.
  pub rewind_round : Damaged platform → Game platform → ℕ → Option (Game platform)
  unfolding rewind_players rewind_bullets
  rewind_round damaged game at = do
    game' ← rewind_players (ght.keys game.players) game at
    rewind_bullets damaged (ght.keys game'.bullets) game' at

  -- `gss->timestamp <= sbsm->present->timestamp`, for the present snapshot with index `present`
  abbrev pub goes_on : Game platform → ℕ → ℕ → Option Bool
  goes_on game present at = do
    gss ← get_elem? game.sbsm.snapshots at
    now ← get_elem? game.sbsm.snapshots present
    some (d.le gss.timestamp now.timestamp)

  -- How a run of the loop ends.
  pub data Run : Type 0 where
    out_of_fuel : Run
    fault : Run
    done : Game platform → Run

  abbrev pub after_round : (Game platform → Run) → Bool → Option (Game platform) → Run
  after_round on last none = fault
  after_round on last (some game) = if last then done game else on game

  abbrev pub guarded : Game platform → Option Bool → Run → Run
  guarded game none body = fault
  guarded game (some true) body = body
  guarded game (some false) body = done game

  -- The loop, for the ring's size and the index of its present snapshot, which do not change in it.
  unfoldable pub rewind_loop : ℕ → Damaged platform → ℕ → ℕ → Game platform → ℕ → Run
  rewind_loop zero damaged size present game at = out_of_fuel
  rewind_loop (suc fuel) damaged size present game at = guarded game (goes_on game present at) (
      after_round (λ game'. rewind_loop fuel damaged size present game' (next_index size at))
        (at == present) (rewind_round damaged game at))

  -- The result of the loop; running out of fuel counts as a fault.
  abbrev finished : Run → Option (Game platform)
  finished out_of_fuel = none
  finished fault = none
  finished (done game) = some game

  -- `sbsm_rewind` from the snapshot with index `at`; the next one is sought from its timestamp.
  abbrev pub rewind_from : ℕ → Damaged platform → Game platform → ℕ → GameSnapshot platform → Run
  rewind_from fuel damaged game at gss =
      let size = game.sbsm.size in
      let index = sbsm_index platform game.sbsm gss.timestamp in
      let present = game.sbsm.present_idx in
      guarded game (goes_on game present at) (
        after_round (λ game'. rewind_loop fuel damaged size present game' (next_index size index))
          (at == present) (rewind_round damaged game at))

  unfoldable pub sbsm_rewind : Damaged platform → Game platform → ℕ → Option (Game platform)
  sbsm_rewind damaged game at = do
    gss ← get_elem? game.sbsm.snapshots at
    game' ← finished (rewind_from game.sbsm.size damaged (record game { rewinding = true }) at gss)
    some (record game' { rewinding = false })

  abbrev rollback_found :
      Game platform
      → ℕ
      → PlayerSnapshot platform
      → Option (Player platform)
      → Option (Game platform)
  unfolding clean_state
  rollback_found game at pss none = some game
  rollback_found game at pss (some player) = do
    back ← snapshot_to_player platform game player pss
    let steered = set_player_input platform back pss.input
    clean_state (record game { players = ght.write game.players player.id steered }) at pss

  abbrev rollback_player :
      Game platform → ℕ → Option (PlayerSnapshot platform) → Option (Game platform)
  rollback_player game at none = some game
  rollback_player game at (some pss) =
      rollback_found game at pss (ght.get game.players pss.player_id)

  -- The loop over the player states of the snapshot with index `at`.
  rollback_players : List ℕ → Game platform → ℕ → Option (Game platform)
  rollback_players [] game at = some game
  rollback_players (k ∷ ks) game at = do
    gss ← get_elem? game.sbsm.snapshots at
    game' ← rollback_player game at (ght.get gss.player_states k)
    rollback_players ks game' at

  abbrev rollback_found_bullet :
      Game platform → BulletSnapshot platform → Option (Bullet platform) → Game platform
  rollback_found_bullet game bss none = game
  rollback_found_bullet game bss (some bullet) = record game {
    bullets = ght.write game.bullets bullet.id (snapshot_to_bullet platform bullet bss);
  }

  abbrev rollback_bullet : Game platform → Option (BulletSnapshot platform) → Game platform
  rollback_bullet game none = game
  rollback_bullet game (some bss) =
      rollback_found_bullet game bss (ght.get game.bullets bss.bullet_id)

  -- The loop over the bullet states.
  rollback_bullets : ght.Table (BulletSnapshot platform) → List ℕ → Game platform → Game platform
  rollback_bullets states [] game = game
  rollback_bullets states (k ∷ ks) game =
      rollback_bullets states ks (rollback_bullet game (ght.get states k))

  -- `sbsm_rollback` to the snapshot with index `at`
  sbsm_rollback : Damaged platform → Game platform → ℕ → Option (Game platform)
  unfolding rollback_players rollback_bullets
  sbsm_rollback damaged game at = do
    gss ← get_elem? game.sbsm.snapshots at
    let slow = record game {
      delta = d.div game.sbsm.interval_ms (d.of_ℤ (pos 1000));
      sbsm = record game.sbsm { oldest_change = none };
    }
    game1 ← rollback_players (ght.keys gss.player_states) slow at
    let game2 = rollback_bullets gss.bullet_states (ght.keys gss.bullet_states) game1
    sbsm_rewind damaged game2 at

  abbrev rollback_oldest : Damaged platform → Game platform → Option ℕ → Option (Game platform)
  rollback_oldest damaged game none = some game
  rollback_oldest damaged game (some at) = sbsm_rollback damaged game at

  -- `cg` that `sbsm_rotate` was given, with the ring that it leaves.
  abbrev with_ring : Option (Game platform) → Game platform → Game platform
  with_ring none game = game
  with_ring (some cg) game = cg

  -- `coregame_update`; `delta` is the time since the last one, times `time_scale`.
  pub coregame_update : Damaged platform → Game platform → F64 → Option (Game platform)
  coregame_update damaged game delta =
      let timed = record game { delta = delta } in
      let played = (do
        game1 ← rollback_oldest damaged timed timed.sbsm.oldest_change
        (cg, sbsm) ← sbsm_rotate platform (some game1) game1.sbsm
        let game2 = record (with_ring cg game1) { sbsm = sbsm }
        game3 ← update_players platform game2
        update_bullets platform damaged game3) in
      if game.pause then some timed else played
