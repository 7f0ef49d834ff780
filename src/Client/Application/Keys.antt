-- ===== src/Client/Application/Keys.antt =====
-- client/src/game.c, the keys and the mouse: `game_handle_key`, `game_handle_num_keys`, `game_move_bots`,
-- `game_lock_cam` as far as the game goes, `game_handle_pointer`, `game_handle_mouse_button`, and the end
-- of `game_update_logic`, where a changed input is sent. The window and what is drawn are left out. A
-- function returns the game and what it pushes; `none` is a fault.
pub mod Held
use Prim.Native.Nat.{bit_or, bit_xor}
use wa_game.Prelude.{
  ℕ, Bool, true, false, not, ◌&&◌, Option, none, some, List, [], ◌∷◌, ◌==◌, if◌then◌else◌, ◌>>=◌,
}
use wa_game.Platform.{Platform}
use wa_game.Vec.{Vec}
use wa_game.Game.{Player, input_up, input_down, input_right, input_left, input_shoot}
use wa_game.Game.Guns.{player_change_gun}
use wa_game.Game.Input.{has_flag, set_player_input}
use wa_game.Client.Application.{
  Request, player_cursor, player_gun_id, player_input, move_bot, ClientGame,
}
use wa_game.Client.Application.Receive.{with_players}
use wa_game.Client.Application.Receive.Guns.{reload_found}
use wa_game.Client.Application.Receive.{own_player}

-- The keys that the game knows, of `WA_KEY_*`.
pub data Key : Type 0 where
  v w s a d space t enter esc one two three r b other : Key

abbrev is_esc : Key → Bool
is_esc esc = true
is_esc _ = false

module _ (platform : Platform) where
  open platform use {ght, floats}

  abbrev pub Handled : Type 0
  Handled = Option (ClientGame platform × List (Request platform))

  abbrev unchanged : ClientGame platform → Handled
  unchanged game = some (game, [])

  -- `if (ev->pressed)`
  abbrev on_press : Bool → ClientGame platform → Handled → Handled
  on_press pressed game handled = if pressed then handled else unchanged game

  abbrev store_input : ClientGame platform → ℕ → Handled
  store_input game input = do
    _ ← own_player platform game
    unchanged (record game { input = input })

  abbrev move_key : ClientGame platform → ℕ → Bool → Handled
  move_key game flag pressed =
      store_input game (if pressed then bit_or game.input flag else bit_xor game.input flag)

  -- The player's cursor is where the mouse is.
  unfoldable pub lock_cam : Vec floats → ClientGame platform → Handled
  lock_cam mouse game = do
    player ← own_player platform game
    let aimed = ght.write game.cg.players player.id (record player { cursor = mouse })
    some (with_players platform game aimed, player_cursor mouse ∷ [])

  unfoldable pub handle_num_key : ClientGame platform → ℕ → Handled
  handle_num_key game gun_id = do
    player ← own_player platform game
    (player', changed) ← player_change_gun platform game.cg.gun_specs player gun_id
    let game' = with_players platform game (ght.write game.cg.players player.id player')
    some (game', if changed then player_gun_id gun_id ∷ [] else [])

  unfoldable pub move_bots : ClientGame platform → Handled
  move_bots game = do player ← own_player platform game; some (game, move_bot player.cursor ∷ [])

  abbrev space_key : Vec floats → ClientGame platform → Handled
  space_key mouse game =
      let turned = record game { lock_cam = not game.lock_cam } in
      if turned.lock_cam then lock_cam mouse turned else unchanged turned

  abbrev esc_key : ClientGame platform → ClientGame platform
  esc_key game =
      if game.open_chat
      then record game { open_chat = false }
      else record game { show_stats = not game.show_stats }

  abbrev reload_key : ClientGame platform → Handled
  reload_key game = do player ← own_player platform game; reload_found platform game (some player)

  -- The `switch` of `game_handle_key`, for the mouse and whether the control key is down.
  unfoldable pub switch_key : Vec floats → Bool → ClientGame platform → Key → Bool → Handled
  switch_key mouse ctrl game v pressed = unchanged game
  switch_key mouse ctrl game w pressed = move_key game input_up pressed
  switch_key mouse ctrl game s pressed = move_key game input_down pressed
  switch_key mouse ctrl game a pressed = move_key game input_left pressed
  switch_key mouse ctrl game d pressed = move_key game input_right pressed
  switch_key mouse ctrl game space pressed = on_press pressed game (space_key mouse game)
  switch_key mouse ctrl game t pressed =
      on_press pressed game (store_input game (bit_xor game.input input_shoot))
  switch_key mouse ctrl game enter pressed =
      on_press pressed game (unchanged (record game { open_chat = true }))
  switch_key mouse ctrl game esc pressed = on_press pressed game (unchanged (esc_key game))
  switch_key mouse ctrl game one pressed = on_press pressed game (handle_num_key game 0)
  switch_key mouse ctrl game two pressed = on_press pressed game (handle_num_key game 1)
  switch_key mouse ctrl game three pressed = on_press pressed game (handle_num_key game 2)
  switch_key mouse ctrl game r pressed = on_press pressed game (reload_key game)
  switch_key mouse ctrl game b pressed = on_press (pressed && ctrl) game (move_bots game)
  switch_key mouse ctrl game other pressed = unchanged game

  unfoldable pub handle_key : Vec floats → Bool → ClientGame platform → Key → Bool → Handled
  handle_key mouse ctrl game key pressed =
      if game.open_chat && not (is_esc key)
      then unchanged game
      else switch_key mouse ctrl game key pressed

  abbrev pointed : Vec floats → ClientGame platform → Option ℕ → Handled
  pointed mouse game none = unchanged game
  pointed mouse game (some id) = lock_cam mouse game

  unfoldable pub handle_pointer : Vec floats → ClientGame platform → Handled
  handle_pointer mouse game = pointed mouse game game.player

  -- The left button, or another.
  unfoldable pub handle_mouse_button : ClientGame platform → Bool → Bool → Handled
  handle_mouse_button game is_left pressed =
      let released =
        (if has_flag game.input input_shoot then bit_xor game.input input_shoot else game.input) in
      if is_left
      then store_input game (if pressed then bit_or game.input input_shoot else released)
      else unchanged game

  abbrev sent_input : ClientGame platform → Option ℕ → Handled
  sent_input game none = unchanged game
  sent_input game (some id) = do
    player ← own_player platform game
    let told = ght.write game.cg.players player.id (set_player_input platform player game.input)
    let known = record (with_players platform game told) { prev_input = game.input }
    some (
        if game.input == game.prev_input then (game, []) else (known, player_input game.input ∷ []))

  -- The input of the client's own player, to the game and to the server, when it has changed.
  unfoldable pub update_input : ClientGame platform → Handled
  update_input game = sent_input game game.player
