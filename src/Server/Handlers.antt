-- ===== src/Server/Handlers.antt =====
-- server/src/server_game.c: what the server does with the segments of its clients, and what it tells
-- them when the game calls back. The source of a segment is a client of the table; its fields that a
-- handler reads are those it had when the segment came. `none` is a fault: a client without a player, a
-- player without a gun, a freed gun. Sockets are flushed by the library, which the log does not show.
pub mod Guns
pub mod Damage
pub mod Early
pub mod Join
pub mod Bots
use wa_game.Prelude.{
  ℕ, ◌+◌, ◌==◌, if◌then◌else◌, not, ◌&&◌, ◌||◌, Bool, true, false, Option, none, some, List, [],
  ◌∷◌, ◌++◌, map, take, ◌>>=◌,
}
use wa_game.Prelude.Int.{pos}
use wa_game.Platform.{Platform}
use wa_game.Vec.{Vec}
use wa_game.Map.{u16}
use wa_game.Game.{live, Player, Bullet, Game}
use wa_game.Game.Guns.{player_change_gun}
use wa_game.Game.Snapshots.{held_gun, delete_player}
use wa_game.Game.Input.{set_player_input_t}
use wa_game.Server.{
  Segment, Channel, tcp, udp, udp_important, Sent, Client, Server, plays_other, broadcast,
  add_data_all_udp_clients_i,
}
use wa_game.Server.Spawn.{next_spawn}

-- `CHAT_MSG_MAX`
abbrev chat_msg_max : ℕ
chat_msg_max = 128

module _ (platform : Platform) where
  open platform use {ght, floats}
  open floats use {F32, F64, s}

  abbrev pub everyone : Client platform → Bool
  everyone client = true

  abbrev is_player : Option ℕ → Bool
  is_player none = false
  is_player (some id) = true

  -- `if (client->player)`
  abbrev pub plays : Client platform → Bool
  plays client = is_player client.player

  -- `client != source_client`
  abbrev pub not_from : ℕ → Client platform → Bool
  not_from session client = not (client.session_id == session)

  abbrev pub write_player : Server platform → ℕ → Player platform → Server platform
  write_player server id player = record server {
    game = record server.game { players = ght.write server.game.players id player };
  }

  -- A segment for the source alone.
  abbrev pub push_to : Server platform → ℕ → Channel platform → Segment platform → Server platform
  push_to server session channel segment = record server {
    sent = server.sent ++ (record { to = session; channel = channel; segment = segment } ∷ []);
  }

  unfoldable pub on_player_reload : Server platform → ℕ → Server platform
  on_player_reload server id =
      add_data_all_udp_clients_i platform server (Segment.player_reload id) id

  unfoldable pub broadcast_delete_player : Server platform → ℕ → Server platform
  broadcast_delete_player server id =
      broadcast platform server everyone tcp (Segment.delete_player id)

  pub on_player_changed : Server platform → Player platform → Server platform
  on_player_changed server player =
      broadcast platform server everyone udp
        (Segment.player_move player.id player.pos player.input false)

  unfoldable pub on_player_gun_changed :
      Server platform → Player platform → Option (Server platform)
  on_player_gun_changed server player = do
    gun ← held_gun platform player.gun
    let state =
        Segment.player_gun_state player.id gun.spec.id gun.ammo gun.bullet_timer gun.charge_time
          gun.reload_time
    some (broadcast platform server everyone udp_important state)

  -- The segment names the bullet; its fields are read when the buffer is sent.
  pub on_bullet_create : Server platform → Bullet platform → Server platform
  on_bullet_create server bullet =
      if not server.game.rewinding
      then server
      else broadcast platform server (plays_other platform bullet.owner_id) udp_important
          (Segment.bullet bullet.id)

  unfoldable pub player_cursor :
      Server platform → Client platform → Vec floats → Option (Server platform)
  player_cursor server source cursor_pos = do
    id ← source.player
    player ← ght.get server.game.players id
    let server' = write_player server id (record player { cursor = cursor_pos })
    some (
        broadcast platform server' (not_from source.session_id) udp
          (Segment.player_cursor id cursor_pos))

  -- The round trip time goes to the library's buffer as well.
  unfoldable pub player_ping : Server platform → Client platform → F32 → Option (Server platform)
  player_ping server source ms = if s.lt ms (s.of_ℤ (pos 0)) then some server else (do
    id ← source.player
    some (broadcast platform server (not_from source.session_id) udp (Segment.player_ping id ms)))

  pub want_server_stats : Server platform → Client platform → Bool → Server platform
  want_server_stats server source opt_in = record server {
    clients = ght.write server.clients source.session_id (record source { want_stats = opt_in });
  }

  unfoldable pub chat_msg : Server platform → Client platform → List ℕ → Option (Server platform)
  chat_msg server source msg = do
    id ← source.player
    some (broadcast platform server plays tcp (Segment.chat id (take chat_msg_max msg)))

  -- The answer to a change of guns: to all who play, or to the source alone with the gun it has.
  unfoldable pub answer_gun_id :
      Server platform → Client platform → ℕ → ℕ → Player platform × Bool → Option (Server platform)
  answer_gun_id server source id gun_id (player, true) = some (
      broadcast platform (write_player server id player) plays udp_important
        (Segment.player_gun_id id gun_id))
  answer_gun_id server source id gun_id (player, false) = do
    gun ← held_gun platform player.gun
    some (
        push_to (write_player server id player) source.session_id udp_important
          (Segment.player_gun_id id gun.spec.id))

  unfoldable pub player_gun_id : Server platform → Client platform → ℕ → Option (Server platform)
  unfolding answer_gun_id
  player_gun_id server source gun_id = do
    id ← source.player
    player ← ght.get server.game.players id
    changed ← player_change_gun platform server.game.gun_specs player gun_id
    answer_gun_id server source id gun_id changed

  unfoldable pub player_input :
      Server platform → Client platform → ℕ → F64 → Option (Server platform)
  player_input server source flags timestamp = do
    id ← source.player
    player ← ght.get server.game.players id
    (sbsm, player') ← set_player_input_t platform server.game.sbsm player flags timestamp
    let server' =
        write_player (record server { game = record server.game { sbsm = sbsm } }) id player'
    some (
        broadcast platform server' (λ client. plays client && not_from source.session_id client)
          udp_important (Segment.player_input id flags timestamp))

  unfoldable pub player_reload : Server platform → Client platform → Option (Server platform)
  unfolding on_player_reload
  player_reload server source = do
    id ← source.player
    player ← ght.get server.game.players id
    gun ← held_gun platform player.gun
    let server' =
        write_player server id (record player { gun = live (record gun { ammo = pos 0 }) })
    some (on_player_reload server' id)

  -- The player of a bot moves, and all are told. `garbage` is what the fresh memory of the segment
  -- holds in the field that is not set.
  abbrev move_one : Vec floats → ℕ → Server platform → Option ℕ → Option (Server platform)
  move_one to garbage server none = some server
  move_one to garbage server (some id) = do
    player ← ght.get server.game.players id
    some (
        add_data_all_udp_clients_i platform (write_player server id (record player { pos = to }))
          (Segment.player_move id to garbage true) 0)

  abbrev move_if_bot :
      Vec floats → ℕ → Server platform → Option (Client platform) → Option (Server platform)
  move_if_bot to garbage server none = some server
  move_if_bot to garbage server (some client) =
      let moved = move_one to garbage server client.player in
      if client.bot then moved else some server

  move_each : Vec floats → ℕ → List ℕ → Server platform → Option (Server platform)
  move_each to garbage [] server = some server
  move_each to garbage (k ∷ ks) server = do
    server' ← move_if_bot to garbage server (ght.get server.clients k)
    move_each to garbage ks server'

  pub move_bot : Server platform → Client platform → Vec floats → ℕ → Option (Server platform)
  unfolding move_each
  move_bot server source to garbage =
      let moved = move_each to garbage (ght.keys server.clients) server in
      if source.bot then some server else moved
