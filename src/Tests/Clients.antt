-- ===== src/Tests/Clients.antt =====
-- The client as it starts, and a list of two events, under the theorems on states and events.
use wa_game.Prelude.{
  ℕ, ◌≡◌, refl, arith, true, none, some, [], ◌∷◌, ◌==◌, if◌then◌else◌, mem, Returns,
}
use wa_game.Client.States.{
  Manager, game, main_menu, map_editor, switch, update_states, manager_init,
}
use wa_game.Client.States.Sound.{IsSound, switch-IsSound}
use wa_game.Client.States.Updates.{update_states-IsSound, manager_init-IsSound}
use wa_game.Server.Events.{Heap, Events, close_event, close_all_events}
use wa_game.Server.Events.Chain.{IsList}
use wa_game.Server.Events.Close.Refines.{close_event-IsList, close_all_events-IsList}

abbrev game_manager : Manager
game_manager = switch manager_init game

game_manager-IsSound : IsSound game_manager
game_manager-IsSound = switch-IsSound manager_init game manager_init-IsSound

update_states-IsSound_example :
    Returns (update_states game_manager (main_menu ∷ map_editor ∷ [])) IsSound
update_states-IsSound_example =
    update_states-IsSound game_manager (main_menu ∷ map_editor ∷ []) game_manager-IsSound

-- Events at the addresses 1 and 2.
abbrev two_on_heap : Heap
two_on_heap = λ k.
    if k == 1
    then some (record { fd = 7; next = some 2; prev = none })
    else if k == 2
    then some (record { fd = 8; next = none; prev = some 1 })
    else none

abbrev two_events : Events
two_events = record { head = some 1; tail = some 2; heap = two_on_heap }

two_events-IsList : IsList two_events (1 ∷ 2 ∷ [])
two_events-IsList = record {
  chain = (
    refl,
    record { fd = 7; next = some 2; prev = none },
    refl,
    refl,
    (refl, record { fd = 8; next = none; prev = some 1 }, refl, refl, (refl, refl)),
  );
  apart = refl;
}

close_event-IsList_example : Returns (close_event two_events 1) (λ ev'.
    IsList ev' (2 ∷ [])
    × (ev'.heap 1 ≡ none)
    × ((j : ℕ) → two_events.heap j ≡ none → ev'.heap j ≡ none))
close_event-IsList_example = close_event-IsList two_events [] 1 (2 ∷ []) two_events-IsList

close_all_events-IsList_example :
    Returns
      (close_all_events 2 two_events)
      (λ ev'. IsList ev' [] × ((k : ℕ) → mem k (1 ∷ 2 ∷ []) ≡ true → ev'.heap k ≡ none))
close_all_events-IsList_example =
    close_all_events-IsList 2 (1 ∷ 2 ∷ []) two_events two_events-IsList (omega arith)
