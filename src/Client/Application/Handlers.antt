-- ===== src/Client/Application/Handlers.antt =====
-- client/src/client_net.c, `client_net_init`'s table of handlers, with the segments that begin the game
-- and measure the connection.
use wa_game.Prelude.{ℕ, Bool, not, ◌&&◌, Option, some, List, if◌then◌else◌, ◌>>=◌}
use wa_game.Prelude.Int.{pos}
use wa_game.Platform.{Platform}
use wa_game.Vec.{Vec}
use wa_game.Map.{u16}
use wa_game.Client.States
use wa_game.Client.States.{Manager, is_current, state_of, switch}
use wa_game.Client.Application.{Application, ClientGame, player_ping, push}
use wa_game.Client.Application.Receive.{
  in_game, in_game_pushing, with_extra, game_new_player, game_delete_player, game_player_move,
  game_player_cursor, game_player_health, game_player_died, game_player_stats, game_player_ping,
  game_cg_map, game_server_shutdown, game_chat_msg, game_player_input, game_username_change,
}
use wa_game.Client.Application.Receive.Guns.{
  game_gun_spec, game_player_gun_id, game_player_reload, game_player_gun_state, game_rewind_bullet,
}
use wa_game.Server.{Segment}
use wa_game.Client.Application.Net.{
  with_net, session_id, set_tickrate, game_init, do_reconnect, Outcome,
}

module _ (platform : Platform) where
  open platform use {ght, floats}
  open floats use {F32, F64, d, narrow, decimal, fabs}

  -- What the segments come with that is not in them: the clock, in seconds since the start and, for a
  -- pong, in milliseconds, the result of `connect` and the socket's address for a new connection.
  pub record World : Type 0 where
    pub now : F64
    pub now_ms : F64
    pub delta : F64
    pub threshold : F32
    pub factor : F32
    pub strtoul : List ℕ → ℕ
    pub outcome : Outcome
    pub ipstr : List ℕ
    -- `net_udp_bullet_t`: the owner, the position and the direction
    pub shot : ℕ → ℕ × Vec floats × Vec floats
    -- the client's time in a pong, moved on by what it waited at the server since `recv_s`
    pub sent_time : F64 → F64 → F64

  -- A switch to the game calls its `init` when it was cleaned up.
  abbrev starts : Manager → Bool
  starts sm = not (is_current sm.current States.game) && (state_of sm States.game).cleaned_up

  unfoldable pub udp_info :
      World → Application platform → ℕ → F64 → F64 → Option (Application platform)
  udp_info world app port tickrate time = do
    let net = record (set_tickrate platform app.net tickrate) {
      time_offset = time;
      udp_port = u16 port;
    }
    let told = with_net platform app net
    let begun = game_init platform world.threshold world.factor world.delta told
    entered ← if starts told.sm then begun else some told
    some (record entered { sm = switch entered.sm States.game })

  -- `REMOTE_INTERP_*` and `LOCAL_INTERP_*`, by the thresholds `RTT_*`
  unfoldable pub interp_factors : F64 → F32 × F32
  interp_factors rtt =
      let above = λ (ms : ℕ). d.lt (d.of_ℤ (pos ms)) rtt in
      if above 140
      then (narrow (decimal 1 1000), narrow (decimal 5 1000))
      else if above 70
      then (narrow (decimal 2 1000), narrow (decimal 1 100))
      else if above 20
      then (narrow (decimal 4 1000), narrow (decimal 15 1000))
      else (narrow (decimal 5 1000), narrow (decimal 175 10000))

  abbrev interpolated : ClientGame platform → F64 → ClientGame platform
  interpolated game rtt =
      let factors = interp_factors rtt in
      if game.ignore_auto_interp
      then game
      else record game { target_remote_interp = factors.0; target_local_interp = factors.1 }

  unfoldable pub udp_pong : World → Application platform → F64 → F64 → Option (Application platform)
  udp_pong world app t_client_s t_server_ms = do
    let rtt = d.sub world.now_ms (d.mul t_client_s (d.of_ℤ (pos 1000)))
    let jitter = fabs (d.sub rtt app.net.prev_latency)
    let net = record app.net {
      time_offset = d.sub (d.add t_server_ms (d.div rtt (d.of_ℤ (pos 2)))) world.now_ms;
      jitter = jitter;
      prev_latency = rtt;
      latency = rtt;
    }
    game ← app.game
    id ← game.player
    let ms = narrow rtt
    let pinged = with_extra platform game id λ x. record x { ping = ms }
    let pushed = push platform (with_net platform app net) (player_ping ms)
    some (record pushed { game = some (interpolated pinged (d.add rtt jitter)) })

  -- The handlers of `client_net_init`, by the type of the segment.
  unfoldable pub receive :
      World → Application platform → Segment platform → Option (Application platform)
  receive w app (Segment.delete_player id) =
      in_game platform app λ g. game_delete_player platform g w.now id
  receive w app (Segment.chat id msg) =
      in_game platform app λ g. some (game_chat_msg platform g w.now id msg)
  receive w app (Segment.username_change id name) =
      in_game platform app λ g. game_username_change platform g w.now id name
  receive w app (Segment.player_move id to input absolute) =
      in_game platform app λ g. some (game_player_move platform g id to absolute)
  receive w app (Segment.player_cursor id to) =
      in_game platform app λ g. game_player_cursor platform g id to
  receive w app (Segment.player_health id health) =
      in_game platform app λ g. game_player_health platform g id health
  receive w app (Segment.player_stats id kills deaths) =
      in_game platform app λ g. game_player_stats platform g id kills deaths
  receive w app (Segment.player_died target attacker) =
      in_game platform app λ g. some (game_player_died platform g w.now target attacker)
  receive w app (Segment.player_ping id ms) =
      in_game platform app λ g. some (game_player_ping platform g id ms)
  receive w app (Segment.player_gun_id id gun_id) =
      in_game platform app λ g. game_player_gun_id platform g id gun_id
  receive w app (Segment.player_input id flags timestamp) =
      in_game platform app λ g. game_player_input platform g id flags
  receive w app (Segment.player_reload id) =
      in_game_pushing platform app λ g. game_player_reload platform g id
  receive w app (Segment.player_gun_state id gun_id ammo bullet_timer charge_timer reload_timer) =
      in_game platform app
        λ g. game_player_gun_state platform g id gun_id ammo bullet_timer charge_timer reload_timer
  receive w app (Segment.bullet id) =
      in_game platform app
        λ g. let shot = w.shot id in game_rewind_bullet platform g shot.0 shot.1 shot.2
  receive w app Segment.do_reconnect = do_reconnect platform w.strtoul w.outcome w.ipstr app
  receive w app Segment.server_shutdown = some (game_server_shutdown platform app)
  receive w app (Segment.pong t_client_s present recv_s) =
      udp_pong w app (w.sent_time t_client_s recv_s) present
  receive w app (Segment.session_id session player) = some (session_id platform app session player)
  receive w app (Segment.cg_map map size) = game_cg_map platform app map size
  receive w app (Segment.udp_info port tickrate time) = udp_info w app port tickrate time
  receive w app (Segment.gun_spec spec) = some (game_gun_spec platform app spec)
  receive w app (Segment.new_player sent gun_id) =
      in_game platform app λ g. game_new_player platform g w.now app.net.player_id sent gun_id
