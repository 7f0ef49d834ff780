-- ===== src/Server/Handlers/Join.antt =====
-- server/src/server_game.c, `client_tcp_connect`: a client comes into the game, is told of the game and
-- of the players who are there, and they are told of the client's. The statistics are left out.
-- And `udp_ping`, by which a client then measures the connection.
use wa_game.Prelude.{ℕ, Option, none, some, List, [], ◌∷◌, ◌==◌, if◌then◌else◌, get_elem?, ◌>>=◌}
use wa_game.Platform.{Platform}
use wa_game.Game.{GunSpec}
use wa_game.Game.Guns.{create_gun}
use wa_game.Game.Players.{add_player}
use wa_game.Game.Snapshots.{held_gun}
use wa_game.Server.{Segment, tcp, udp, Client, Server}
use wa_game.Server.Handlers.{push_to, write_player}
use wa_game.Server.Spawn.{next_spawn}

-- `CG_GUN_ID_SMALL`
abbrev gun_id_small : ℕ
gun_id_small = 0

module _ (platform : Platform) where
  open platform use {ght, floats}
  open floats use {F64}

  unfoldable pub tcp_new_player : Server platform → ℕ → Option (Segment platform)
  tcp_new_player server id = do
    player ← ght.get server.game.players id
    gun ← held_gun platform player.gun
    some (Segment.new_player player gun.spec.id)

  -- A round of `broadcast_new_player` at a client who plays: what it is sent, and what the new client is.
  unfoldable pub introduce :
      Segment platform → ℕ → Server platform → ℕ → ℕ → Option (Server platform)
  introduce segment new_session server session id =
      let told = push_to platform server session tcp segment in
      let both = (do
        other ← tcp_new_player server id
        some (push_to platform told new_session tcp other)) in
      if session == new_session then some told else both

  abbrev introduce_found :
      Segment platform → ℕ → Server platform → Option (Client platform) → Option (Server platform)
  introduce_found segment new_session server none = some server
  introduce_found segment new_session server (some client) = elim client.player [
    | none ↦ some server
    | some id ↦ introduce segment new_session server client.session_id id
  ]

  unfoldable pub introduce_each :
      Segment platform → ℕ → List ℕ → Server platform → Option (Server platform)
  introduce_each segment new_session [] server = some server
  introduce_each segment new_session (k ∷ ks) server = do
    server' ← introduce_found segment new_session server (ght.get server.clients k)
    introduce_each segment new_session ks server'

  unfoldable pub broadcast_new_player : Server platform → ℕ → ℕ → Option (Server platform)
  broadcast_new_player server new_session id = do
    segment ← tcp_new_player server id
    introduce_each segment new_session (ght.keys server.clients) server

  abbrev push_specs : Server platform → ℕ → List (GunSpec platform) → Server platform
  push_specs server session [] = server
  push_specs server session (spec ∷ specs) =
      push_specs (push_to platform server session tcp (Segment.gun_spec spec)) session specs

  -- The new player, with a small gun and at a spawn point, and the client who has it.
  unfoldable pub join : Server platform → Client platform → List ℕ → Option (Server platform × ℕ)
  join server source username = do
    (game, player) ← add_player platform server.game username
    let (armed, _) = create_gun platform game.gun_specs gun_id_small player
    (at, server') ← next_spawn platform (record server { game = game })
    let placed = write_player platform server' player.id (record armed { pos = at })
    some (
      record placed {
        clients =
            ght.write placed.clients source.session_id (record source { player = some player.id });
      },
      player.id,
    )

  pub client_tcp_connect : Server platform → Client platform → List ℕ → Option (Server platform)
  unfolding join broadcast_new_player
  client_tcp_connect server source username = do
    present ← get_elem? server.game.sbsm.snapshots server.game.sbsm.present_idx
    (joined, id) ← join server source username
    let session = source.session_id
    let named = push_to platform joined session tcp (Segment.session_id session id)
    let mapped =
        push_to platform named session tcp (Segment.cg_map server.disk_map.0 server.disk_map.1)
    let info = Segment.udp_info server.udp_port server.tickrate present.timestamp
    let informed =
        push_specs (push_to platform mapped session tcp info) session joined.game.gun_specs
    broadcast_new_player informed session id

  -- The segment takes the time that passes until it is sent, from `recv_s`, into account then.
  pub udp_ping : Server platform → Client platform → F64 → F64 → Option (Server platform)
  udp_ping server source t_client_s recv_s = do
    present ← get_elem? server.game.sbsm.snapshots server.game.sbsm.present_idx
    let pong = Segment.pong t_client_s present.timestamp recv_s
    some (push_to platform server source.session_id udp pong)
