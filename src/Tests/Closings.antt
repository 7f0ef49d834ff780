-- ===== src/Tests/Closings.antt =====
-- A server of two clients, one of whom is closed.
use wa_game.Prelude.{ℕ, ◌≡◌, refl, arith, none, some, [], ◌∷◌, Returns}
use wa_game.Map.{modify_at}
use wa_game.Platform.Models.{machine, ght-IsGht}
use wa_game.Game.{GameSnapshot, Game}
use wa_game.Game.Cells.{each_cell, remove_self_from_cells}
use wa_game.Game.Snapshots.{sbsm_index, delete_from, delete_player}
use wa_game.Game.Players.{do_free_player, free_player}
use wa_game.Server.{Segment, tcp, Server, broadcast, push_each}
use wa_game.Server.Handlers.{broadcast_delete_player}
use wa_game.Server.Closing.{free_player_of, tell_gone, close_client}
use wa_game.Server.Closing.Told.{HasClosed, close_client-HasClosed, close_client_again}
use wa_game.Tests.Games.{game, player, ring, snapshot}
use wa_game.Tests.Servers.{client, server, iterates}

abbrev forgotten : ℕ → GameSnapshot machine
forgotten time = record (snapshot time) { player_states = [] }

abbrev left_game : Game machine
left_game = record game {
  players = [];
  sbsm = record ring { snapshots = forgotten 0 ∷ forgotten 1 ∷ [] };
}

player_leaves : free_player machine game player ≡ some left_game
unfolding free_player do_free_player delete_player delete_from sbsm_index modify_at
    remove_self_from_cells each_cell
player_leaves = refl

close_client-HasClosed_example :
    Returns
      (close_client machine server 70)
      (HasClosed machine ght-IsGht iterates server 70 7 left_game)
close_client-HasClosed_example =
    close_client-HasClosed machine ght-IsGht iterates server 70 7 (client 70 7) player left_game
      refl refl refl (λ e. absurd (omega (arith, e))) refl player_leaves

abbrev closed_server : Server machine
closed_server = record server {
  clients = (80, client 80 8) ∷ [];
  game = left_game;
  sent = record { to = 80; channel = tcp; segment = Segment.delete_player 7 } ∷ [];
}

closes : close_client machine server 70 ≡ some closed_server
unfolding close_client free_player_of tell_gone broadcast_delete_player broadcast push_each
closes = rw player_leaves refl

close_client_again_example : close_client machine closed_server 70 ≡ none
close_client_again_example =
    close_client_again machine ght-IsGht iterates server closed_server 70 closes
