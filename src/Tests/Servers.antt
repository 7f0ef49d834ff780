-- ===== src/Tests/Servers.antt =====
-- A server with two clients under the theorems on its operations.
use wa_game.Prelude.{
  ℕ, zero, suc, ◌+◌, ◌%◌, ◌<◌, ◌≡◌, refl, arith, true, false, ◌&&◌, none, some, List, [], ◌∷◌, ◌++◌,
  ◌==◌, if◌then◌else◌, get_elem?, length, mem, Returns,
}
use wa_game.Prelude.Int.{pos}
use wa_game.Platform.Models.{machine, ght, ght-IsGht, arrays-IsArray, find, without, visit}
use wa_game.Map.{DiskMap}
use wa_game.Map.{Cell, cell_index}
use wa_game.Game.Guns.{get_gun_spec}
use wa_game.Game.Snapshots.{sbsm_lookup, sbsm_index}
use wa_game.Game.Input.{set_player_input_t}
use wa_game.Game.Input.Late.{Accepted, set_player_input_t-Accepted}
use wa_game.Server.{Segment, Client, Server, udp, udp_important}
use wa_game.Server.{udp, add_data_all_udp_clients, add_data_all_udp_clients_i}
use wa_game.Server.Broadcast.{
  count, IsIteration, delivered, share, is_for, once_if, add_data_all_udp_clients-delivered,
}
use wa_game.Server.Session.{verify_session}
use wa_game.Server.Session.Bound.{IsBound, verify_session-IsBound}
use wa_game.Server.Spawn.{find_spawns}
use wa_game.Server.Spawn.Found.{is_spawn, find_spawns_lem}
use wa_game.Server.Spawn.Cycle.{IsReady, AreInTurn, spawn_times, next_spawn_again}
use wa_game.Server.Handlers.{player_gun_id, player_input, plays, not_from}
use wa_game.Server.Handlers.Guns.{Answered, player_gun_id_unknown, player_gun_id_known}
use wa_game.Server.Handlers.Bots.{bot_mode, bot_name}
use wa_game.Server.Handlers.Bots.Named.{Plays, bot_mode-bot_mode}
use wa_game.Server.Handlers.Early.{player_input_passed}
use wa_game.Tests.Maps.{small, small-IsValid}
use wa_game.Tests.Games.{game, player, gun, rifle, ring, snapshot, armed}

abbrev pub client : ℕ → ℕ → Client machine
client session player = record {
  session_id = session;
  player = some player;
  tcp_ip = 1;
  udp = record { ip = 1; port = 4000 };
  og_username = none;
  udp_connected = true;
  want_stats = false;
  bot = false;
  last_packet_time = pos 0;
}

abbrev no_disk_map : DiskMap
no_disk_map = record { header = record { magic = []; w = 0; h = 0; grid_size = 0 }; cells = [] }

abbrev pub server : Server machine
server = record {
  clients = (70, client 70 7) ∷ (80, client 80 8) ∷ [];
  game = game;
  spawn_points = 0 ∷ 3 ∷ 5 ∷ [];
  spawn_idx = 2;
  start_time_s = pos 9;
  current_time = pos 9;
  client_timeout_threshold = pos 5;
  running = true;
  udp_port = 4000;
  tickrate = pos 64;
  disk_map = (no_disk_map, 0);
  sent = [];
}

-- The table of the instance is iterated over as the broadcasts rely on.
count-without :
    (k j : ℕ) (js : List ℕ) → count k (without j js) ≡ (if j == k then 0 else count k js)
count-without k j [] = ground arith
count-without k j (i ∷ js) = grind (arith, count-without k j js)

count-visit :
    {V : Type 0} (t : List (ℕ × V)) (k : ℕ)
    → count k (visit t) ≡ (elim (find t k) [ none ↦ 0 | some _ ↦ 1 ])
count-visit [] k = refl
count-visit ((j, v) ∷ t) k = grind (arith, count-without k j (visit t), count-visit t k)

pub iterates : IsIteration machine
iterates = record { once = λ {V} t k. count-visit t k }

add_data_all_udp_clients-delivered_example :
    (delivered machine 80 (add_data_all_udp_clients machine server (Segment.player_reload 7) 7).sent
      ≡ delivered machine 80 server.sent
        ++ once_if machine
            (is_for machine 7 (ght.get server.clients 80))
            udp
            (Segment.player_reload 7))
    × (delivered machine 80
          (add_data_all_udp_clients_i machine server (Segment.player_reload 7) 7).sent
        ≡ delivered machine 80 server.sent
          ++ once_if machine
              (is_for machine 7 (ght.get server.clients 80))
              udp_important
              (Segment.player_reload 7))
add_data_all_udp_clients-delivered_example =
    add_data_all_udp_clients-delivered machine iterates server (Segment.player_reload 7) 7 80

abbrev source : Client machine
source = client 70 7

server-IsBound : IsBound machine server
server-IsBound k c e on = grind arith

verify_session-IsBound_example :
    IsBound machine (verify_session machine server 80 (record { ip = 1; port = 4001 })).0
verify_session-IsBound_example =
    verify_session-IsBound machine ght-IsGht server 80 (record { ip = 1; port = 4001 })
      server-IsBound

find_spawns_lem_example : Returns (find_spawns machine small) (λ points.
    ((x y : ℕ)
      → x < small.w
      → y < small.h
      → mem (cell_index small.w x y) points ≡ is_spawn small (cell_index small.w x y))
    × ((p : ℕ) → mem p points ≡ true → is_spawn small p ≡ true))
find_spawns_lem_example = find_spawns_lem machine arrays-IsArray small small-IsValid

-- A server on the small map, with its one spawn point.
abbrev on_map : Server machine
on_map = record server { game = record game { map = small }; spawn_points = 0 ∷ []; spawn_idx = 0 }

on_map-cells :
    (i p : ℕ)
    → get_elem? on_map.spawn_points i ≡ some p
    → (cell : Cell) × (get_elem? on_map.game.map.cells p ≡ some cell)
on_map-cells zero zero e = (_, refl)
on_map-cells zero (suc p) e = absurd (ground arith)
on_map-cells (suc i) p e = absurd (ground arith)

on_map-IsReady : IsReady machine on_map
on_map-IsReady = record { idx_in = omega arith; few = omega arith; cells_in = on_map-cells }

next_spawn_again_example : Returns (spawn_times machine 4 on_map) (λ r.
    AreInTurn machine on_map on_map.spawn_idx r.0
    × (length r.0 ≡ 4)
    × IsReady machine r.1
    × (r.1.spawn_points ≡ on_map.spawn_points)
    × (r.1.spawn_idx ≡ (on_map.spawn_idx + 4) % length on_map.spawn_points))
next_spawn_again_example = next_spawn_again machine 4 on_map on_map-IsReady

player_gun_id_unknown_example : player_gun_id machine server source 9 ≡ none
unfolding get_gun_spec
player_gun_id_unknown_example =
    player_gun_id_unknown machine server source 7 9 player gun refl refl refl refl refl refl

player_gun_id_known_example :
    Returns (player_gun_id machine server source 2) (Answered machine server source 7 2)
unfolding get_gun_spec
player_gun_id_known_example =
    player_gun_id_known machine iterates ght-IsGht server source 7 2 player rifle refl refl refl gun
      refl

-- The input of Tests.Games, as the game takes it.
taken : Returns (set_player_input_t machine ring player 17 (snapshot 1).timestamp) (λ r.
    Accepted machine ring 1 7 17 (snapshot 1).timestamp r.0
    × (r.1.last_input_timestamp ≡ (snapshot 1).timestamp))
unfolding sbsm_lookup sbsm_index
taken =
    set_player_input_t-Accepted machine ght-IsGht ring 1 (snapshot 1) refl refl tt player 17
      (snapshot 1).timestamp refl refl armed refl

player_input_passed_example :
    Returns (player_input machine server source 17 (snapshot 1).timestamp) (λ server'.
      (server'.game.sbsm ≡ taken.0.0)
      × (ght.get server'.game.players 7 ≡ some taken.0.1)
      × ((k : ℕ)
          → delivered machine k server'.sent
            ≡ delivered machine k server.sent
              ++ share machine
                  (λ client. plays machine client && not_from machine 70 client)
                  udp_important
                  (Segment.player_input 7 17 (snapshot 1).timestamp)
                  (ght.get server.clients k)))
player_input_passed_example =
    player_input_passed machine iterates ght-IsGht server source 7 17 player (snapshot 1).timestamp
      taken.0 refl refl taken.1

server-Plays : Plays machine server 70 7 source player
server-Plays = record { client_at = refl; session_eq = refl; player_eq = refl; player_at = refl }

bot_mode-bot_mode_example : Returns (bot_mode machine server source true) (λ between.
    Plays machine between 70 7
      (record source { bot = true; og_username = some player.username })
      (record player { username = bot_name player.username player.id })
    × Returns
        (bot_mode machine between
          (record source { bot = true; og_username = some player.username })
          false)
        (λ after.
          Plays machine after 70 7 (record source { bot = false; og_username = none }) player))
bot_mode-bot_mode_example =
    bot_mode-bot_mode machine ght-IsGht server 70 7 source player server-Plays refl (omega arith)
