-- ===== src/Client/Application.antt =====
-- client/include/game.h, player.h and client_net.h: the state of the client in a game, as the handlers
-- and the keys use it, and the chat of client/src/game.c. A string is the list of its bytes, without
-- the NUL; `none` is a fault.
pub mod Chat
pub mod Keys
pub mod Receive
pub mod Net
pub mod Handlers
use wa_game.Prelude.{
  ℕ, ◌+◌, ◌-◌, Bool, true, Option, none, some, List, [], ◌∷◌, ◌++◌, leb, if◌then◌else◌, length,
  take,
}
use wa_game.Platform.{Platform}
use wa_game.Vec.{Vec}
use wa_game.Map.{RuntimeMap}
use wa_game.Game.{GunSpec, Game}
use wa_game.Client.States.{Manager}

-- `PLAYER_NAME_MAX`, `CHAT_MSG_MAX` and `UI_LABEL_SIZE`
abbrev pub name_max : ℕ
name_max = 32

abbrev pub msg_max : ℕ
msg_max = 128

abbrev pub label_size : ℕ
label_size = 128

-- `snprintf(buf, size, "%s", s)`: what the buffer then holds.
abbrev pub printed : ℕ → List ℕ → List ℕ
printed size s = take (size - 1) s

-- `chatmsg_t`; the lengths are what `snprintf` returns.
pub record ChatMsg : Type 0 where
  pub name : List ℕ
  pub name_len : ℕ
  pub msg : List ℕ
  pub msg_len : ℕ

-- `game_add_chatmsg`: what is written for a name, or for none.
abbrev pub colon : ℕ
colon = 58

abbrev pub chat_entry : Option (List ℕ) → List ℕ → ChatMsg
chat_entry none msg = record {
  name = [];
  name_len = 0;
  msg = printed msg_max msg;
  msg_len = length msg;
}
chat_entry (some name) msg = record {
  name = printed name_max (name ++ (colon ∷ []));
  name_len = length name + 1;
  msg = printed msg_max msg;
  msg_len = length msg;
}

abbrev pub chat_kept : ℕ
chat_kept = 30

module _ (platform : Platform) where
  open platform use {arrays, ght, floats}
  open floats use {F32, F64}

  -- The fields of a player that only the client has, and `stats.ping`.
  pub record Extra : Type 0 where
    pub server_pos : Vec floats
    pub interpolate : Bool
    pub ping : F32

  -- `player_kill_t`
  pub record PlayerKill : Type 0 where
    pub target_name : List ℕ
    pub attacker_name : List ℕ
    pub timestamp : F64

  -- What the client pushes into the buffers of its connections.
  pub data Request : Type 0 where
    connect : List ℕ → Request
    bot_mode : Bool → Request
    player_cursor : Vec floats → Request
    player_gun_id : ℕ → Request
    player_input : ℕ → Request
    player_reload : Request
    move_bot : Vec floats → Request
    chat_msg : List ℕ → Request
    player_ping : F32 → Request
    ping : Request

  -- `client_game_t`. `player` is the id of the client's own player, and `input` the one of its
  -- `player_t`.
  pub record ClientGame : Type 0 where
    pub cg : Game platform
    pub extras : ght.Table Extra
    pub player : Option ℕ
    pub input : ℕ
    pub prev_input : ℕ
    pub player_deaths : List PlayerKill
    pub chat_msgs : List ChatMsg
    pub new_msg : Bool
    pub last_chatmsg : F64
    pub open_chat : Bool
    pub lock_cam : Bool
    pub show_stats : Bool
    pub ignore_auto_interp : Bool
    pub interp_threshold_dist : F32
    pub target_local_interp : F32
    pub target_remote_interp : F32

  -- `client_net_t` and its `client_udp_t`
  pub record ClientNet : Type 0 where
    pub session_id : ℕ
    pub player_id : ℕ
    pub udp_port : ℕ
    pub tickrate : F64
    pub interval : F64
    pub time_offset : F64
    pub latency : F64
    pub prev_latency : F64
    pub jitter : F64

  -- `app->save_username`: NULL, a copy of a name, or the address of one that was freed.
  pub data SavedName : Type 0 where
    unsaved : SavedName
    saved : List ℕ → SavedName
    gone : SavedName

  -- `waapp_t`; `mm_state` and `mm_username` are texts of the main menu.
  pub record Application : Type 0 where
    pub game : Option ClientGame
    pub net : ClientNet
    pub sm : Manager
    pub mm_state : List ℕ
    pub mm_username : List ℕ
    pub save_username : SavedName
    pub bot : Bool
    pub map_from_server : Option RuntimeMap
    pub tmp_gun_specs : Option (List (GunSpec platform))
    pub start_time_s : F64
    pub pushed : List Request

  abbrev pub push : Application → Request → Application
  push app r = record app { pushed = app.pushed ++ (r ∷ []) }

  -- The list after an entry was added.
  unfoldable pub chat_append : List ChatMsg → ChatMsg → List ChatMsg
  chat_append msgs entry =
      let added = arrays.add msgs entry in
      if leb chat_kept (length added) then arrays.erase added 0 else added

  unfoldable pub add_chatmsg : ClientGame → F64 → Option (List ℕ) → List ℕ → ClientGame
  add_chatmsg game now name [] = game
  add_chatmsg game now name (b ∷ bs) = record game {
    chat_msgs = chat_append game.chat_msgs (chat_entry name (b ∷ bs));
    new_msg = true;
    last_chatmsg = now;
  }

  -- `game_send_chatmsg`
  pub send_chatmsg : Application → List ℕ → Application
  send_chatmsg app [] = app
  send_chatmsg app (b ∷ bs) = push app (chat_msg (printed msg_max (b ∷ bs)))
