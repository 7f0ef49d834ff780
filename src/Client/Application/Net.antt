-- ===== src/Client/Application/Net.antt =====
-- client/src/client_net.c, what the client does when it connects and reconnects, and `game_init` of
-- client/src/game.c, which a switch to the game runs. Sockets are the operating system's; `strtoul` is the C library's.
pub mod Address
pub mod Reconnect
use wa_game.Prelude.{
  ℕ, ◌-◌, Bool, true, false, not, ◌&&◌, Option, none, some, List, [], ◌∷◌, ◌++◌, ◌==◌,
  if◌then◌else◌, take, ◌>>=◌,
}
use wa_game.Prelude.Int.{pos}
use wa_game.Platform.{Platform}
use wa_game.Vec.{Vec}
use wa_game.Map.{RuntimeMap, u16}
use wa_game.Game.{GunSpec, Player, Bullet, Sbsm, GameSnapshot, Game}
use wa_game.Game.Guns.{add_gun_spec}
use wa_game.Client.States.{Manager, is_current, state_of, switch}
use wa_game.Client.States
use wa_game.Client.Application.{
  colon, Extra, PlayerKill, ChatMsg, Request, Application, ClientGame, ClientNet, SavedName,
  unsaved, saved, gone, connect, bot_mode, player_ping, ping, push, name_max,
}
use wa_game.Client.Application.Receive.{
  in_game, own_player, client_free_player, with_extra, game_new_player, game_delete_player,
  game_player_move, game_player_cursor, game_player_health, game_player_died, game_player_stats,
  game_player_ping, game_cg_map, game_server_shutdown, game_chat_msg, game_player_input,
  game_username_change,
}
use wa_game.Client.Application.Receive.Guns.{
  game_gun_spec, game_player_gun_id, game_player_reload, game_player_gun_state, game_rewind_bullet,
}
use wa_game.Server.{Segment}

-- `client_net_parse_address`: `strtok` at colons.
abbrev pub skip_colons : List ℕ → List ℕ
skip_colons [] = []
skip_colons (b ∷ bs) = if b == colon then skip_colons bs else b ∷ bs

-- The bytes up to the next colon, and those after it.
abbrev pub until_colon : List ℕ → List ℕ × List ℕ
until_colon [] = ([], [])
until_colon (b ∷ bs) =
    let rest = until_colon bs in if b == colon then ([], bs) else (b ∷ rest.0, rest.1)

-- A token, or NULL, and what is left.
abbrev pub first_token : List ℕ → Option (List ℕ) × List ℕ
first_token [] = (none, [])
first_token (c ∷ cs) = let t = until_colon (c ∷ cs) in (some t.0, t.1)

unfoldable pub token : List ℕ → Option (List ℕ) × List ℕ
token bs = first_token (skip_colons bs)

-- `DEFAULT_PORT`, and `INET6_ADDRSTRLEN` of the system
abbrev pub default_port : ℕ
default_port = 49420

abbrev pub addr_len : ℕ
addr_len = 46

abbrev port_of : (List ℕ → ℕ) → Option (List ℕ) → ℕ
port_of strtoul none = default_port
port_of strtoul (some digits) = u16 (strtoul digits)

-- The text of the address and the port; no address is a fault.
unfoldable pub parse_address : (List ℕ → ℕ) → List ℕ → Option (List ℕ × ℕ)
parse_address strtoul addr = do
  ip ← (token addr).0
  some (take (addr_len - 1) ip, port_of strtoul (token (token addr).1).0)

-- How `connect` of the system ends: at once, later, or with an error.
pub data Outcome : Type 0 where
  connected waiting refused : Outcome

module _ (platform : Platform) where
  open platform use {ght, floats}
  open floats use {F32, F64, d, narrow, decimal, fabs}

  abbrev pub with_net : Application platform → ClientNet platform → Application platform
  with_net app net = record app { net = net }

  unfoldable pub session_id : Application platform → ℕ → ℕ → Application platform
  session_id app session player =
      with_net app (record app.net { session_id = session; player_id = player })

  abbrev pub set_tickrate : ClientNet platform → F64 → ClientNet platform
  set_tickrate net tickrate = record net {
    tickrate = tickrate;
    interval = d.div (d.of_ℤ (pos 1)) tickrate;
  }

  -- The name for a connection, of the saved one if there is one.
  abbrev pub connect_name : Application platform → SavedName platform → Option (List ℕ)
  connect_name app unsaved = some app.mm_username
  connect_name app (saved name) = some name
  connect_name app gone = none

  abbrev after_free : SavedName platform → SavedName platform
  after_free unsaved = unsaved
  after_free _ = gone

  -- `client_net_on_connect`
  unfoldable pub on_connect : Application platform → Option (Application platform)
  on_connect app = do
    name ← connect_name app app.save_username
    let asked = push platform app (connect (take name_max name))
    let told = (if app.bot then push platform asked (bot_mode true) else asked)
    some (record told { save_username = after_free app.save_username })

  -- The client has no ring of snapshots.
  abbrev no_ring : Sbsm platform
  no_ring = record {
    seq = 0;
    interval_ms = d.of_ℤ (pos 0);
    time = d.of_ℤ (pos 0);
    size = 0;
    dirty = false;
    oldest_change = none;
    base_idx = 0;
    present_idx = 0;
    snapshots = [];
  }

  -- `coregame_init` as the client is built, for the time since the clock was zero.
  abbrev coregame_init : F64 → RuntimeMap → Game platform
  coregame_init delta map = record {
    players = ght.init (Player platform);
    bullets = ght.init (Bullet platform);
    map = map;
    gun_specs = [];
    delta = delta;
    has_bullet_create = true;
    has_bullet_free = false;
    has_player_reload = true;
    has_player_changed = false;
    player_id_seq = 0;
    bullet_id_seq = 0;
    pause = false;
    sbsm = no_ring;
    rewinding = false;
    notices = [];
  }

  abbrev add_specs : List (GunSpec platform) → List (GunSpec platform) → List (GunSpec platform)
  add_specs specs [] = specs
  add_specs specs (spec ∷ more) = add_specs (add_gun_spec platform specs spec) more

  abbrev init_specs : Option (List (GunSpec platform)) → List (GunSpec platform)
  init_specs none = []
  init_specs (some specs) = add_specs [] specs

  -- `INTERPOLATE_THRESHOLD_DIST` and `INTERPOLATE_FACTOR` come with `coregame_init`.
  unfoldable pub game_init : F32 → F32 → F64 → Application platform → Option (Application platform)
  game_init threshold factor delta app = do
    map ← app.map_from_server
    let cg = record (coregame_init delta map) { gun_specs = init_specs app.tmp_gun_specs }
    some (record app {
      tmp_gun_specs = none;
      game = some (record {
        cg = cg;
        extras = ght.init (Extra platform);
        player = none;
        input = 0;
        prev_input = 0;
        player_deaths = [];
        chat_msgs = [];
        new_msg = false;
        last_chatmsg = d.of_ℤ (pos 0);
        open_chat = false;
        lock_cam = true;
        show_stats = false;
        ignore_auto_interp = false;
        interp_threshold_dist = threshold;
        target_local_interp = factor;
        target_remote_interp = factor;
      });
    })

  -- `client_net_disconnect`, of a connection with both sockets: `udp_close` clears its `client_udp_t`.
  abbrev disconnect : Application platform → Application platform
  disconnect app =
      let zero = d.of_ℤ (pos 0) in
      with_net app (record {
        session_id = app.net.session_id;
        player_id = app.net.player_id;
        udp_port = 0;
        tickrate = zero;
        interval = zero;
        time_offset = zero;
        latency = zero;
        prev_latency = zero;
        jitter = zero;
      })

  -- `client_net_async_connect`; the callback of a connection that is made later is `on_connect`.
  unfoldable pub async_connect :
      (List ℕ → ℕ) → Outcome → Application platform → List ℕ → Option (Application platform)
  async_connect strtoul outcome app addr = do
    _ ← parse_address strtoul addr
    elim outcome [ connected ↦ on_connect app | waiting ↦ some app | refused ↦ some app ]

  -- `do_reconnect`, with the text of the address in the socket
  unfoldable pub do_reconnect :
      (List ℕ → ℕ) → Outcome → List ℕ → Application platform → Option (Application platform)
  do_reconnect strtoul outcome ipstr app = do
    game ← app.game
    player ← own_player platform game
    app' ← async_connect strtoul outcome (disconnect app) ipstr
    game' ← client_free_player platform (record game { player = none }) player
    some (record app' { save_username = saved (take name_max player.username); game = some game' })
