-- ===== src/Server/Closing.antt =====
-- server/src/server.c: how a client is closed (`server_close_client`), and the check for clients that
-- are silent (`server_routine_checks`). A client's buffers and its socket are the library's. `none` is
-- a fault: a client that is closed already, a player who is not in the game.
pub mod Told
use wa_game.Prelude.{
  ℕ, Bool, true, false, not, ◌&&◌, Option, none, some, List, [], ◌∷◌, ◌==◌, if◌then◌else◌, ◌>>=◌,
}
use wa_game.Platform.{Platform}
use wa_game.Game.Players.{free_player}
use wa_game.Server.{Segment, tcp, Client, Server}
use wa_game.Server.Handlers.{plays, push_to, broadcast_delete_player}

module _ (platform : Platform) where
  open platform use {ght, floats}
  open floats use {F64, d}

  -- The client's player leaves the game.
  unfoldable pub free_player_of : Server platform → Option ℕ → Option (Server platform)
  free_player_of server none = some server
  free_player_of server (some id) = do
    player ← ght.get server.game.players id
    game ← free_player platform server.game player
    some (record server { game = game })

  -- `if (player_id)`
  unfoldable pub tell_gone : Server platform → Option ℕ → Server platform
  tell_gone server none = server
  tell_gone server (some id) =
      if id == 0 then server else broadcast_delete_player platform server id

  unfoldable pub close_client : Server platform → ℕ → Option (Server platform)
  close_client server session = do
    client ← ght.get server.clients session
    let warned =
        (if not server.running && plays platform client
          then push_to platform server session tcp Segment.server_shutdown
          else server)
    left ← free_player_of warned client.player
    some (tell_gone (record left { clients = ght.del left.clients session }) client.player)

  -- A round of `server_routine_checks`.
  unfoldable pub check_client :
      Server platform → ℕ → Option (Client platform) → Option (Server platform)
  check_client server session none = some server
  check_client server session (some client) =
      let closed = close_client server session in
      let elapsed = d.sub server.current_time client.last_packet_time in
      if d.lt server.client_timeout_threshold elapsed then closed else some server

  unfoldable pub check_each : List ℕ → Server platform → Option (Server platform)
  check_each [] server = some server
  check_each (session ∷ sessions) server = do
    server' ← check_client server session (ght.get server.clients session)
    check_each sessions server'

  -- With no clients there is nothing to visit.
  pub routine_checks : Server platform → Option (Server platform)
  unfolding check_each
  routine_checks server = check_each (ght.keys server.clients) server
