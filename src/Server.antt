-- ===== src/Server.antt =====
-- server/include/server.h, client.h and lib/netdef/include/netdef.h: the state of the server, and the
-- broadcasts of server/src/server.c. What is pushed into the buffers of a connection (`ssp_io_push_ref`
-- and its variants, of the submodule lib/ssp) is the log `sent`, in order. A pointer to a client is its
-- session id, the key of the table that owns it.
pub mod Broadcast
pub mod Closing
pub mod Events
pub mod Handlers
pub mod Session
pub mod Spawn
use wa_game.Prelude.{
  ℕ, Bool, false, not, Option, none, some, List, [], ◌∷◌, ◌++◌, ◌==◌, if◌then◌else◌,
}
use wa_game.Prelude.Int.{ℤ}
use wa_game.Platform.{Platform}
use wa_game.Vec.{Vec}
use wa_game.Map.{DiskMap}
use wa_game.Game.{GunSpec, Player, Game}

module _ (platform : Platform) where
  open platform use {ght, floats}
  open floats use {F32, F64}

  -- A segment for a client: its type, with the fields of its struct.
  pub data Segment : Type 0 where
    delete_player : ℕ → Segment
    chat : ℕ → List ℕ → Segment
    username_change : ℕ → List ℕ → Segment
    player_move : ℕ → Vec floats → ℕ → Bool → Segment
    player_cursor : ℕ → Vec floats → Segment
    player_health : ℕ → ℤ → Segment
    player_stats : ℕ → ℕ → ℕ → Segment
    player_died : ℕ → ℕ → Segment
    player_ping : ℕ → F32 → Segment
    player_gun_id : ℕ → ℕ → Segment
    player_input : ℕ → ℕ → F64 → Segment
    player_reload : ℕ → Segment
    player_gun_state : ℕ → ℕ → ℤ → F32 → F32 → F32 → Segment
    bullet : ℕ → Segment
    do_reconnect : Segment
    server_shutdown : Segment
    pong : F64 → F64 → F64 → Segment
    session_id : ℕ → ℕ → Segment
    cg_map : DiskMap → ℕ → Segment
    udp_info : ℕ → F64 → F64 → Segment
    gun_spec : GunSpec platform → Segment
    new_player : Player platform → ℕ → Segment

  -- To which of a client's connections, and whether it is marked important (the `_i` variants).
  pub data Channel : Type 0 where
    tcp udp udp_important : Channel

  pub record Sent : Type 0 where
    pub to : ℕ
    pub channel : Channel
    pub segment : Segment

  -- `udp_addr_t`: IPv4 address and port
  pub record Address : Type 0 where
    pub ip : ℕ
    pub port : ℕ

  -- `client_t`; `player` is the id of the client's player, or NULL.
  pub record Client : Type 0 where
    pub session_id : ℕ
    pub player : Option ℕ
    pub tcp_ip : ℕ
    pub udp : Address
    pub og_username : Option (List ℕ)
    pub udp_connected : Bool
    pub want_stats : Bool
    pub bot : Bool
    pub last_packet_time : F64

  -- `server_t`, as far as the handlers use it.
  pub record Server : Type 0 where
    pub clients : ght.Table Client
    pub game : Game platform
    pub spawn_points : List ℕ
    pub spawn_idx : ℕ
    pub start_time_s : F64
    pub current_time : F64
    pub client_timeout_threshold : F64
    pub running : Bool
    pub udp_port : ℕ
    pub tickrate : F64
    pub disk_map : DiskMap × ℕ
    pub sent : List Sent

  -- `player && player->id != ignore_player_id`
  abbrev other : ℕ → Option ℕ → Bool
  other ignore none = false
  other ignore (some id) = not (id == ignore)

  abbrev pub plays_other : ℕ → Client → Bool
  plays_other ignore client = other ignore client.player

  abbrev pub offer : (Client → Bool) → Channel → Segment → ℕ → Option Client → List Sent
  offer wants channel segment key none = []
  offer wants channel segment key (some client) =
      if wants client then record { to = key; channel = channel; segment = segment } ∷ [] else []

  -- `GHT_FOREACH(client_t* client, clients, { if (wants) push })`
  unfoldable pub push_each :
      ght.Table Client → (Client → Bool) → Channel → Segment → List ℕ → List Sent
  push_each clients wants channel segment [] = []
  push_each clients wants channel segment (key ∷ keys) =
      offer wants channel segment key (ght.get clients key)
      ++ push_each clients wants channel segment keys

  unfoldable pub broadcast : Server → (Client → Bool) → Channel → Segment → Server
  broadcast server wants channel segment = record server {
    sent = server.sent ++ push_each server.clients wants channel segment (ght.keys server.clients);
  }

  unfoldable pub add_data_all_udp_clients : Server → Segment → ℕ → Server
  add_data_all_udp_clients server segment ignore = broadcast server (plays_other ignore) udp segment

  unfoldable pub add_data_all_udp_clients_i : Server → Segment → ℕ → Server
  add_data_all_udp_clients_i server segment ignore =
      broadcast server (plays_other ignore) udp_important segment
