-- ===== src/Server/Session.antt =====
-- server/src/server.c, `server_verify_session`: which UDP packets are taken for a client's. The
-- request to reconnect goes to the address itself, not through a client's buffer; it is part of the
-- result. What is printed is left out.
pub mod Bound
use wa_game.Prelude.{ℕ, Option, none, some, ◌==◌, not, if◌then◌else◌, Bool, true, false, List, []}
use wa_game.Platform.{Platform}
use wa_game.Server.{Address, Client, Server}

module _ (platform : Platform) where
  open platform use {ght, floats}

  -- What becomes of a packet: refused with a request to reconnect, refused, or taken for a client's.
  pub data Verdict : Type 0 where
    reconnect : Address platform → Verdict
    refused : Verdict
    accepted : ℕ → Verdict

  -- `client->last_packet_time = server->timer.start_time_s`, then the client is stored.
  unfoldable pub take_packet : Server platform → ℕ → Client platform → Server platform × Verdict
  take_packet server session client = (
    record server {
      clients =
          ght.write server.clients session
            (record client { last_packet_time = server.start_time_s });
    },
    accepted session,
  )

  unfoldable pub verify_client :
      Server platform → ℕ → Address platform → Client platform → Server platform × Verdict
  unfolding take_packet
  verify_client server session source client =
      if client.udp_connected
      then take_packet server session client
      else if not (client.tcp_ip == source.ip)
      then (server, refused)
      else take_packet server session (record client { udp = source; udp_connected = true })

  abbrev verify_found :
      Server platform → ℕ → Address platform → Option (Client platform) → Server platform × Verdict
  verify_found server session source none = (server, reconnect source)
  verify_found server session source (some client) = verify_client server session source client

  unfoldable pub verify_session : Server platform → ℕ → Address platform → Server platform × Verdict
  verify_session server session source =
      verify_found server session source (ght.get server.clients session)
