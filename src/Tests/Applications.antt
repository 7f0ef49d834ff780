-- ===== src/Tests/Applications.antt =====
-- A client in a game of one player under the theorems on its segments, its chat and its keys.
use wa_game.Prelude.{
  ℕ, zero, suc, ◌^◌, ◌<◌, ◌≡◌, refl, arith, Bool, true, false, none, some, List, [], ◌∷◌, ◌++◌,
  ◌==◌, length, Returns, Bool-cases, inl, inr,
}
use wa_game.Prelude.Int.{pos}
use wa_game.Platform.Models.{machine, ght, ght-IsGht, arrays-IsArray, floats}
use wa_game.Vec.{Vec}
use wa_game.Game.{Player, input_up}
use wa_game.Game.Guns.{get_gun_spec}
use wa_game.Game.Input.{has_flag}
use wa_game.Game.Players.{do_free_player}
use wa_game.Game.Cells.{remove_self_from_cells, each_cell}
use wa_game.Client.Application.{Application, ClientGame, unsaved}
use wa_game.Client.Application.Chat.{last, Message, add_all, entries, add_chatmsg-last}
use wa_game.Client.Application.Keys.{Key}
use wa_game.Client.Application.Keys.Held.{
  IsInput, after_keys, handle_keys, handle_keys-IsInput, handle_keys-stuck,
}
use wa_game.Client.Application.Net.{
  waiting, on_connect, do_reconnect, parse_address, token, default_port,
}
use wa_game.Client.Application.Handlers.{World, receive}
use wa_game.Client.Application.Net.Reconnect.{asked, do_reconnect-on_connect}
use wa_game.Client.Application.Receive.{client_free_player}
use wa_game.Client.Application.Receive.Agree.{Shows, on_player_gun_changed-receive}
use wa_game.Client.Application.Receive.Playing.{IsArmed}
use wa_game.Client.Application.Receive.Armed.{IsPlaying}
use wa_game.Client.Application.Receive.Run.{receive_all, receive_all-IsPlaying}
use wa_game.Client.States.{manager_init}
use wa_game.Server.{Segment, udp_important}
use wa_game.Server.Broadcast.{delivered}
use wa_game.Server.Handlers.{on_player_gun_changed}
use wa_game.Tests.Games
use wa_game.Tests.Servers.{server, client, iterates}

abbrev origin : Vec floats
origin = record { x = pos 0; y = pos 0 }

abbrev playing : ClientGame machine
playing = record {
  cg = Games.game;
  extras = [];
  player = some 7;
  input = 2;
  prev_input = 2;
  player_deaths = [];
  chat_msgs = [];
  new_msg = false;
  last_chatmsg = pos 0;
  open_chat = false;
  lock_cam = true;
  show_stats = false;
  ignore_auto_interp = false;
  interp_threshold_dist = pos 200;
  target_local_interp = pos 1;
  target_remote_interp = pos 1;
}

abbrev app : Application machine
app = record {
  game = some playing;
  net = record {
    session_id = 70;
    player_id = 7;
    udp_port = 4000;
    tickrate = pos 64;
    interval = pos 1;
    time_offset = pos 0;
    latency = pos 0;
    prev_latency = pos 0;
    jitter = pos 0;
  };
  sm = manager_init;
  mm_state = [];
  mm_username = 65 ∷ [];
  save_username = unsaved;
  bot = false;
  map_from_server = none;
  tmp_gun_specs = none;
  start_time_s = pos 9;
  pushed = [];
}

abbrev world : World machine
world = record {
  now = pos 9;
  now_ms = pos 9000;
  delta = pos 1;
  threshold = pos 200;
  factor = pos 1;
  strtoul = length;
  outcome = waiting;
  ipstr = 49 ∷ 46 ∷ 49 ∷ [];
  shot = λ id. (7, origin, origin);
  sent_time = λ t r. t;
}

at_seven :
    (id : ℕ) (p : Player machine)
    → ght.get Games.game.players id ≡ some p
    → (id ≡ 7) × (p ≡ Games.player)
at_seven id p e = elim (Bool-cases (id == 7)) [
  | inl same ↦ let eq : some Games.player ≡ some p = rw same at e in (ground arith, cc)
  | inr other ↦ let eq : none ≡ some p = rw other at e in absurd (cc)
]

playing-IsArmed : IsArmed machine Games.game.gun_specs playing
playing-IsArmed = record {
  keyed = λ id p e. rw ((at_seven id p e).1, (at_seven id p e).0) refl;
  armed = λ id p e. rw ((at_seven id p e).1) (_, refl);
  own = (7, Games.player, refl, refl);
  specs_eq = refl;
}

abbrev alone : ClientGame machine
alone = record playing { cg = record Games.game { players = [] }; player = none }

do_reconnect-on_connect_example :
    Returns (do_reconnect machine length waiting world.ipstr app) (λ app'.
      (app'.game ≡ some alone)
      × Returns (on_connect machine app') (λ app''.
        (app''.pushed ≡ asked machine app Games.player.username)
        × (on_connect machine app'' ≡ none)))
unfolding parse_address token client_free_player do_free_player remove_self_from_cells each_cell
do_reconnect-on_connect_example =
    do_reconnect-on_connect machine length world.ipstr app playing alone Games.player
      (world.ipstr, default_port) refl refl refl refl

receive_all-IsPlaying_example :
    Returns
      (receive_all machine
        ((world, Segment.player_gun_id 7 2)
          ∷ (world, Segment.player_reload 7)
          ∷ (world, Segment.bullet 3)
          ∷ [])
        app)
      (IsPlaying machine Games.game.gun_specs)
unfolding get_gun_spec
receive_all-IsPlaying_example =
    receive_all-IsPlaying machine ght-IsGht Games.game.gun_specs
      ((world, Segment.player_gun_id 7 2)
        ∷ (world, Segment.player_reload 7)
        ∷ (world, Segment.bullet 3)
        ∷ [])
      app ((_, refl), (tt, (tt, tt))) (playing, refl, playing-IsArmed)

on_player_gun_changed-receive_example :
    Returns (on_player_gun_changed machine server Games.player) (λ server'.
      (segment : Segment machine) × (delivered machine 80 server'.sent
        ≡ delivered machine 80 server.sent ++ ((udp_important, segment) ∷ []))
      × Returns (receive machine world app segment) (Shows machine true Games.gun 7))
unfolding get_gun_spec
on_player_gun_changed-receive_example =
    on_player_gun_changed-receive machine ght-IsGht iterates server Games.player Games.gun 80
      (client 80 8) world app playing Games.player refl refl refl playing-IsArmed refl (_, refl)

abbrev lines : List (Message machine)
lines = (pos 1, none, 65 ∷ []) ∷ (pos 2, some (66 ∷ []), []) ∷ (pos 3, some (66 ∷ []), 67 ∷ []) ∷ []

add_chatmsg-last_example :
    (add_all machine playing lines).chat_msgs ≡ last 29 (playing.chat_msgs ++ entries machine lines)
add_chatmsg-last_example = add_chatmsg-last machine arrays-IsArray playing lines (omega arith)

abbrev only_down : ℕ → Bool
only_down k = k == 1

two_flags : (k : ℕ) → k < 4 → has_flag 2 (2 ^ k) ≡ only_down k
two_flags zero h = refl
two_flags (suc zero) h = refl
two_flags (suc (suc zero)) h = refl
two_flags (suc (suc (suc zero))) h = refl
two_flags (suc (suc (suc (suc k)))) h = absurd (omega arith)

handle_keys-IsInput_example :
    Returns
      (handle_keys machine origin false ((Key.w, true) ∷ (Key.s, false) ∷ []) playing)
      (λ game'. IsInput (after_keys only_down ((Key.w, true) ∷ (Key.s, false) ∷ [])) game'.input)
handle_keys-IsInput_example =
    handle_keys-IsInput machine origin false ((Key.w, true) ∷ (Key.s, false) ∷ []) only_down playing
      7 Games.player refl refl refl (record { small = omega arith; flags = two_flags })
      (refl, (refl, tt))

abbrev chatting : ClientGame machine
chatting = record playing { open_chat = true }

handle_keys-stuck_example :
    Returns
      (handle_keys machine origin false
        ((Key.w, true) ∷ (Key.esc, true) ∷ (Key.esc, false) ∷ (Key.w, false) ∷ [])
        chatting)
      (λ game'. has_flag game'.input input_up ≡ true)
handle_keys-stuck_example =
    handle_keys-stuck machine origin false chatting 7 Games.player refl refl refl (omega arith) refl
