-- ===== src/Client/Application/Receive.antt =====
-- client/src/game_net_events.c: what the client does with the segments of the server. A handler takes
-- the fields of its segment. The bars and rectangles that are drawn for a player are left out; the
-- client is built without CG_SERVER. `none` is a fault: a game that is NULL, a gun that is freed, an own
-- player who is not in the game.
pub mod Agree
pub mod Playing
pub mod Play
pub mod Armed
pub mod Run
pub mod Guns
use wa_game.Prelude.{
  ℕ, Bool, true, false, not, Option, none, some, List, [], ◌∷◌, ◌++◌, ◌==◌, if◌then◌else◌, take,
  ◌>>=◌,
}
use wa_game.Prelude.Int.{ℤ, pos}
use wa_game.Platform.{Platform}
use wa_game.Vec.{Vec}
use wa_game.Map.{DiskMap}
use wa_game.Map.Disk.{map_load_disk}
use wa_game.Game.{GunSpec, Gun, GunPointer, null, live, freed, Player, Bullet, Game}
use wa_game.Game.Guns.{create_gun, player_change_gun_force, player_reload, add_bullet, add_gun_spec}
use wa_game.Game.Input.{set_player_input}
use wa_game.Game.Players.{new_player, add_player_from, do_free_player}
use wa_game.Game.Snapshots.{held_gun}
use wa_game.Client.States.{switch, main_menu}
use wa_game.Client.Application.{
  Extra, PlayerKill, Request, ClientGame, Application, add_chatmsg, printed, name_max, msg_max,
  label_size,
}
use wa_game.Server.{Segment}

-- The texts that `snprintf` writes.
abbrev bracket : List ℕ
bracket = 91 ∷ []

abbrev entered_text : List ℕ
entered_text =
    32 ∷ 101 ∷ 110 ∷ 116 ∷ 101 ∷ 114 ∷ 101 ∷ 100 ∷ 32 ∷ 116 ∷ 104 ∷ 101 ∷ 32 ∷ 103 ∷ 97 ∷ 109 ∷ 101
    ∷ 93 ∷ []

abbrev left_text : List ℕ
left_text = 32 ∷ 108 ∷ 101 ∷ 102 ∷ 116 ∷ 32 ∷ 116 ∷ 104 ∷ 101 ∷ 32 ∷ 103 ∷ 97 ∷ 109 ∷ 101 ∷ 93 ∷ []

abbrev unknown_name : List ℕ
unknown_name = 91 ∷ 91 ∷ 117 ∷ 110 ∷ 107 ∷ 110 ∷ 111 ∷ 119 ∷ 110 ∷ 93 ∷ 93 ∷ []

abbrev player_quote : List ℕ
player_quote = 80 ∷ 108 ∷ 97 ∷ 121 ∷ 101 ∷ 114 ∷ 32 ∷ 39 ∷ []

abbrev renamed_text : List ℕ
renamed_text = 39 ∷ 32 ∷ 114 ∷ 101 ∷ 110 ∷ 97 ∷ 109 ∷ 101 ∷ 100 ∷ 32 ∷ 116 ∷ 111 ∷ 32 ∷ 39 ∷ []

abbrev quote : List ℕ
quote = 39 ∷ []

module _ (platform : Platform) where
  open platform use {ght, floats}
  open floats use {F32, F64, s, sqrtf, powf}

  -- What a handler does to `app->game`, which it takes to be there.
  abbrev pub in_game :
      Application platform
      → (ClientGame platform → Option (ClientGame platform))
      → Option (Application platform)
  in_game app f = do game ← app.game; game' ← f game; some (record app { game = some game' })

  -- The same for a handler that pushes.
  abbrev pub in_game_pushing :
      Application platform
      → (ClientGame platform → Option (ClientGame platform × List (Request platform)))
      → Option (Application platform)
  in_game_pushing app f = do
    game ← app.game
    (game', pushed) ← f game
    some (record app { game = some game'; pushed = app.pushed ++ pushed })

  abbrev pub with_players : ClientGame platform → ght.Table (Player platform) → ClientGame platform
  with_players game players = record game { cg = record game.cg { players = players } }

  abbrev change_found :
      ClientGame platform
      → ℕ
      → (Player platform → Option (Player platform))
      → Option (Player platform)
      → Option (ClientGame platform)
  change_found game id f none = some game
  change_found game id f (some player) = do
    player' ← f player
    some (with_players game (ght.write game.cg.players id player'))

  -- `if (player)`: a change of a player of the game, by its id.
  unfoldable pub change_player :
      ClientGame platform
      → ℕ
      → (Player platform → Option (Player platform))
      → Option (ClientGame platform)
  change_player game id f = change_found game id f (ght.get game.cg.players id)

  -- `strncpy` to a name
  abbrev pub named : List ℕ → List ℕ
  named name = take name_max name

  -- The player of a segment, as `calloc` and the assignments leave it: what was not sent is zero.
  unfoldable pub player_of : Player platform → Player platform
  unfolding new_player
  player_of sent = record (new_player platform sent.id []) {
    pos = sent.pos;
    size = sent.size;
    dir = sent.dir;
    cursor = sent.cursor;
    health = sent.health;
    max_health = sent.max_health;
    shoot = sent.shoot;
    username = named sent.username;
  }

  abbrev extra_of : Player platform → Extra platform
  extra_of player = record { server_pos = player.pos; interpolate = false; ping = s.of_ℤ (pos 0) }

  -- `game_new_player`, for `net.player_id`
  unfoldable pub game_new_player :
      ClientGame platform → F64 → ℕ → Player platform → ℕ → Option (ClientGame platform)
  game_new_player game now own_id sent gun_id = do
    let (armed, _) = create_gun platform game.cg.gun_specs gun_id (player_of sent)
    let msg = printed msg_max (bracket ++ armed.username ++ entered_text)
    let told = add_chatmsg platform game now none msg
    (cg, _) ← add_player_from platform told.cg armed
    some (record told {
      cg = cg;
      extras = ght.insert told.extras armed.id (extra_of armed);
      player = (if armed.id == own_id then some armed.id else told.player);
    })

  -- `coregame_free_player` as the client is built; the callback frees the client's `player_t`.
  unfoldable pub client_free_player :
      ClientGame platform → Player platform → Option (ClientGame platform)
  client_free_player game player = do
    cg ← do_free_player platform game.cg player
    some (record game {
      cg = record cg { players = ght.del cg.players player.id };
      extras = ght.del game.extras player.id;
    })

  abbrev delete_found :
      ClientGame platform → F64 → Option (Player platform) → Option (ClientGame platform)
  delete_found game now none = some game
  delete_found game now (some player) =
      client_free_player
        (add_chatmsg platform game now none
          (printed msg_max (bracket ++ player.username ++ left_text)))
        player

  unfoldable pub game_delete_player : ClientGame platform → F64 → ℕ → Option (ClientGame platform)
  game_delete_player game now id = delete_found game now (ght.get game.cg.players id)

  -- `coregame_dist`
  abbrev pub dist : Vec floats → Vec floats → F32
  dist a b =
      sqrtf (s.add (powf (s.sub b.x a.x) (s.of_ℤ (pos 2))) (powf (s.sub b.y a.y) (s.of_ℤ (pos 2))))

  abbrev extra_found :
      ClientGame platform
      → ℕ
      → (Extra platform → Extra platform)
      → Option (Extra platform)
      → ClientGame platform
  extra_found game id f none = game
  extra_found game id f (some extra) = record game { extras = ght.write game.extras id (f extra) }

  abbrev pub with_extra :
      ClientGame platform → ℕ → (Extra platform → Extra platform) → ClientGame platform
  with_extra game id f = extra_found game id f (ght.get game.extras id)

  abbrev move_found :
      ClientGame platform → Vec floats → Bool → Option (Player platform) → ClientGame platform
  move_found game to absolute none = game
  move_found game to absolute (some player) =
      let moved =
        with_players game (ght.write game.cg.players player.id (record player { pos = to })) in
      let placed = with_extra moved player.id λ x. record x { server_pos = to } in
      let far = with_extra game player.id λ x. record x { server_pos = to; interpolate = true } in
      if absolute
      then placed
      else if s.lt game.interp_threshold_dist (dist player.pos to)
      then far
      else placed

  unfoldable pub game_player_move :
      ClientGame platform → ℕ → Vec floats → Bool → ClientGame platform
  game_player_move game id to absolute = move_found game to absolute (ght.get game.cg.players id)

  unfoldable pub game_player_cursor :
      ClientGame platform → ℕ → Vec floats → Option (ClientGame platform)
  game_player_cursor game id to = change_player game id λ p. some (record p { cursor = to })

  -- The client's own player; a pointer that is NULL, or to a player who was freed, is a fault.
  abbrev pub own_player : ClientGame platform → Option (Player platform)
  own_player game = do id ← game.player; ght.get game.cg.players id

  -- The id of the client's own player is read.
  abbrev pub if_own : ClientGame platform → Player platform → Option (Player platform)
  if_own game p = do _ ← own_player game; some p

  unfoldable pub game_player_health : ClientGame platform → ℕ → ℤ → Option (ClientGame platform)
  game_player_health game id health =
      change_player game id λ p. if_own game (record p { health = s.of_ℤ health })

  abbrev died_found :
      ClientGame platform
      → F64
      → Option (Player platform)
      → Option (Player platform)
      → ClientGame platform
  died_found game now none attacker = game
  died_found game now (some target) none = game
  died_found game now (some target) (some attacker) = record game {
    player_deaths =
        game.player_deaths
        ++ (record {
          target_name = named target.username;
          attacker_name = named attacker.username;
          timestamp = now;
        }
            ∷ []);
  }

  unfoldable pub game_player_died : ClientGame platform → F64 → ℕ → ℕ → ClientGame platform
  game_player_died game now target attacker =
      died_found game now (ght.get game.cg.players target) (ght.get game.cg.players attacker)

  unfoldable pub game_player_stats : ClientGame platform → ℕ → ℕ → ℕ → Option (ClientGame platform)
  game_player_stats game id kills deaths =
      change_player game id λ p. some (record p { kills = kills; deaths = deaths })

  abbrev ping_found : ClientGame platform → F32 → Option (Player platform) → ClientGame platform
  ping_found game ms none = game
  ping_found game ms (some player) = with_extra game player.id λ x. record x { ping = ms }

  unfoldable pub game_player_ping : ClientGame platform → ℕ → F32 → ClientGame platform
  game_player_ping game id ms = ping_found game ms (ght.get game.cg.players id)

  -- A load that fails leaves NULL.
  pub game_cg_map : Application platform → DiskMap → ℕ → Option (Application platform)
  game_cg_map app tcp_map size = do
    map ← map_load_disk tcp_map size
    some (record app { map_from_server = some map })

  abbrev shutdown_text : List ℕ
  shutdown_text =
      83 ∷ 101 ∷ 114 ∷ 118 ∷ 101 ∷ 114 ∷ 32 ∷ 115 ∷ 104 ∷ 117 ∷ 116 ∷ 100 ∷ 111 ∷ 119 ∷ 110 ∷ []

  unfoldable pub game_server_shutdown : Application platform → Application platform
  game_server_shutdown app = record app { mm_state = shutdown_text; sm = switch app.sm main_menu }

  abbrev chat_name : Option (Player platform) → List ℕ
  chat_name none = unknown_name
  chat_name (some player) = player.username

  unfoldable pub game_chat_msg : ClientGame platform → F64 → ℕ → List ℕ → ClientGame platform
  game_chat_msg game now id msg =
      add_chatmsg platform game now
        (if id == 0 then none else some (chat_name (ght.get game.cg.players id))) msg

  unfoldable pub game_player_input : ClientGame platform → ℕ → ℕ → Option (ClientGame platform)
  game_player_input game id flags =
      change_player game id λ p. some (set_player_input platform p flags)

  abbrev rename_text : List ℕ → List ℕ → List ℕ
  rename_text old new = printed label_size (player_quote ++ old ++ renamed_text ++ new ++ quote)

  abbrev rename_found :
      ClientGame platform → F64 → List ℕ → Option (Player platform) → Option (ClientGame platform)
  rename_found game now name none = some game
  rename_found game now name (some player) = do
    let told = add_chatmsg platform game now none (rename_text player.username name)
    player' ← if_own game (record player { username = named name })
    some (with_players told (ght.write told.cg.players player.id player'))

  unfoldable pub game_username_change :
      ClientGame platform → F64 → ℕ → List ℕ → Option (ClientGame platform)
  game_username_change game now id name = rename_found game now name (ght.get game.cg.players id)
