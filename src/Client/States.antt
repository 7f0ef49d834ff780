-- ===== src/Client/States.antt =====
-- client/src/state.c with client/include/state.h: the main menu, the game and the map editor, of
-- which one is current. What the callbacks of a state do is not modelled but which are called, in
-- order; the update of a state is the list of the switches that it asks for.
pub mod Sound
pub mod Updates
pub mod Cleanup
use wa_game.Prelude.{
  Bool, true, false, not, ◌&&◌, ◌||◌, Option, none, some, List, [], ◌∷◌, ◌++◌, if◌then◌else◌,
}

pub data Name : Type 0 where
  main_menu game map_editor : Name

pub data Call : Type 0 where
  init enter update exit cleanup : Name → Call

-- `waapp_state_t`: the two bits of `flags`, and whether `data` is set.
pub record State : Type 0 where
  pub do_cleanup : Bool
  pub cleaned_up : Bool
  pub data_set : Bool

-- `waapp_state_manager_t`, and the calls made so far.
pub record Manager : Type 0 where
  pub current : Option Name
  pub prev : Option Name
  pub cleanup_pending : Bool
  pub menu_state : State
  pub game_state : State
  pub editor_state : State
  pub calls : List Call

-- `sm->current == state`
abbrev pub same_name : Name → Name → Bool
same_name main_menu main_menu = true
same_name game game = true
same_name map_editor map_editor = true
same_name _ _ = false

abbrev pub is_current : Option Name → Name → Bool
is_current none s = false
is_current (some c) s = same_name c s

abbrev pub state_of : Manager → Name → State
state_of sm main_menu = sm.menu_state
state_of sm game = sm.game_state
state_of sm map_editor = sm.editor_state

abbrev pub with_state : Manager → Name → State → Manager
with_state sm main_menu st = record sm { menu_state = st }
with_state sm game st = record sm { game_state = st }
with_state sm map_editor st = record sm { editor_state = st }

abbrev pub call : Manager → Call → Manager
call sm c = record sm { calls = sm.calls ++ (c ∷ []) }

-- The game has no callbacks `enter` and `exit`.
abbrev pub has_enter : Name → Bool
has_enter s = not (same_name s game)

unfoldable pub leave : Manager → Option Name → Manager
leave sm none = sm
leave sm (some p) =
    let called = (if has_enter p then call sm (exit p) else sm) in
    record called { cleanup_pending = called.cleanup_pending || (state_of called p).do_cleanup }

-- `state->flags ^= STATE_CLEANED_UP` when the bit is set
unfoldable pub prepare : Manager → Name → Manager
prepare sm s =
    let st = state_of sm s in
    if st.cleaned_up
    then with_state (call sm (init s)) s
        (record st { data_set = true; cleaned_up = not st.cleaned_up })
    else sm

unfoldable pub switch : Manager → Name → Manager
switch sm s =
    let left = leave (record sm { prev = sm.current }) sm.current in
    let ready = prepare left s in
    let entered = (if has_enter s then call ready (enter s) else ready) in
    if is_current sm.current s then sm else record entered { current = some s }

unfoldable pub clean : Manager → Name → Manager
clean sm s =
    with_state (call sm (cleanup s)) s
      (record (state_of sm s) { data_set = false; cleaned_up = true })

abbrev pub switches : Manager → List Name → Manager
switches sm [] = sm
switches sm (s ∷ ss) = switches (switch sm s) ss

abbrev clean_prev : Manager → Option Name → Option Manager
clean_prev sm none = none
clean_prev sm (some p) = some (record (clean sm p) { cleanup_pending = false })

-- `waapp_state_update`, without the drawing. It faults with no current state, or one whose `data`
-- is not set.
abbrev pub run_current : Manager → Option Name → List Name → Option Manager
run_current sm none wanted = none
run_current sm (some c) wanted =
    if (state_of sm c).data_set then some (switches (call sm (update c)) wanted) else none

abbrev pub finish : Option Manager → Option Manager
finish none = none
finish (some sm) = if sm.cleanup_pending then clean_prev sm sm.prev else some sm

unfoldable pub update_states : Manager → List Name → Option Manager
update_states sm wanted = finish (run_current sm sm.current wanted)

abbrev idle : Bool → State
idle do_cleanup = record { do_cleanup = do_cleanup; cleaned_up = true; data_set = false }

-- `waapp_state_manager_init`
unfoldable pub manager_init : Manager
unfolding switch leave prepare
manager_init =
    switch
      (record {
        current = none;
        prev = none;
        cleanup_pending = false;
        menu_state = idle false;
        game_state = idle true;
        editor_state = idle false;
        calls = [];
      })
      main_menu

abbrev pub clean_if_set : Manager → Name → Manager
clean_if_set sm s = if not (state_of sm s).cleaned_up then clean sm s else sm

-- `waapp_state_manager_cleanup`
unfoldable pub manager_cleanup : Manager → Manager
unfolding clean
manager_cleanup sm = clean_if_set (clean_if_set (clean_if_set sm main_menu) map_editor) game
