-- ===== src/Client/States/Updates.antt =====
-- An update of the state manager keeps it sound, and so does its initialisation (client/src/state.c).
use wa_game.Prelude.{
  Bool, true, false, ◌≡◌, refl, none, some, List, [], ◌∷◌, Bool-cases, inl, inr, Returns, arith,
  sym, Option-cases, ◌∙◌, ap,
}
use wa_game.Client.States.{
  Name, main_menu, game, map_editor, Manager, same_name, state_of, switch, clean, switches,
  update_states, manager_init, run_current, finish, leave, prepare, call, Call, update,
}
use wa_game.Client.States.Sound.{AllAgree, IsSound, Pending, switch-IsSound}

switches-IsSound : (sm : Manager) (ss : List Name) → IsSound sm → IsSound (switches sm ss)
switches-IsSound sm [] h = h
switches-IsSound sm (s ∷ ss) h = switches-IsSound (switch sm s) ss (switch-IsSound sm s h)

pub not_true : true ≡ false → ⊥
not_true e = ground arith

clean_live :
    (sm : Manager) (p c : Name)
    → same_name c p ≡ false
    → (state_of sm c).data_set ≡ true
    → (state_of (record (clean sm p) { cleanup_pending = false }) c).data_set ≡ true
unfolding clean
clean_live sm main_menu main_menu e h = absurd (not_true e)
clean_live sm main_menu game e h = h
clean_live sm main_menu map_editor e h = h
clean_live sm game main_menu e h = h
clean_live sm game game e h = absurd (not_true e)
clean_live sm game map_editor e h = h
clean_live sm map_editor main_menu e h = h
clean_live sm map_editor game e h = h
clean_live sm map_editor map_editor e h = absurd (not_true e)

clean-AllAgree :
    (sm : Manager) (p : Name)
    → AllAgree sm
    → AllAgree (record (clean sm p) { cleanup_pending = false })
unfolding clean
clean-AllAgree sm main_menu h = (refl, h.1, h.2)
clean-AllAgree sm game h = (h.0, refl, h.2)
clean-AllAgree sm map_editor h = (h.0, h.1, refl)

pub clean_same :
    (sm : Manager) (p : Name) → ((clean sm p).current ≡ sm.current) × ((clean sm p).prev ≡ sm.prev)
unfolding clean
clean_same sm main_menu = (refl, refl)
clean_same sm game = (refl, refl)
clean_same sm map_editor = (refl, refl)

-- Another state than the current one can be cleaned up.
clean-IsSound :
    (sm : Manager) (p : Name) (h : IsSound sm)
    → sm.prev ≡ some p
    → IsSound (record (clean sm p) { cleanup_pending = false })
clean-IsSound sm p h e =
    let agree = clean-AllAgree sm p (h.menu_agrees, h.game_agrees, h.editor_agrees) in
    let (current, prev) = clean_same sm p in
    record {
      menu_agrees = agree.0;
      game_agrees = agree.1;
      editor_agrees = agree.2;
      now = h.now;
      current_eq = current ∙ h.current_eq;
      live = clean_live sm p h.now (rw e at h.other) h.live;
      other = rw prev h.other;
      pending = tt;
    }

no-Pending : (b : Bool) → b ≡ true → Pending b none → ⊥
no-Pending true e h = h
no-Pending false e h = not_true (sym e)

finish-IsSound : (sm : Manager) → IsSound sm → Returns (finish (some sm)) IsSound
finish-IsSound sm h = elim (Bool-cases sm.cleanup_pending) [
  | inl due ↦ elim (Option-cases sm.prev) [
    | inl absent ↦ absurd (no-Pending sm.cleanup_pending due (rw absent at h.pending))
    | inr (p, e) ↦ (_, rw (due, e) refl, clean-IsSound sm p h e)
  ]
  | inr not_due ↦ (sm, rw not_due refl, h)
]

called-IsSound : (sm : Manager) (c : Call) → IsSound sm → IsSound (call sm c)
called-IsSound sm c h = record {
  menu_agrees = h.menu_agrees;
  game_agrees = h.game_agrees;
  editor_agrees = h.editor_agrees;
  now = h.now;
  current_eq = h.current_eq;
  live = live_called h.now h.live;
  other = h.other;
  pending = h.pending;
}
  where
    live_called :
        (s : Name) → (state_of sm s).data_set ≡ true → (state_of (call sm c) s).data_set ≡ true
    live_called main_menu h = h
    live_called game h = h
    live_called map_editor h = h

pub run_live :
    (sm : Manager) (c : Name) (wanted : List Name)
    → (state_of sm c).data_set ≡ true
    → run_current sm (some c) wanted ≡ some (switches (call sm (update c)) wanted)
run_live sm c wanted h = rw h refl

-- If the state manager is sound (a state has its data just when it is not cleaned up, there is a
-- current state, it has its data, the state before it is another one, and is there if a cleanup
-- is pending), an update in which the current state asks for any switches, one after the other,
-- does not fault and leaves it sound.
pub update_states-IsSound :
    (sm : Manager) (wanted : List Name) → IsSound sm → Returns (update_states sm wanted) IsSound
unfolding update_states
update_states-IsSound sm wanted h =
    let (sm', e, h') =
      finish-IsSound (switches (call sm (update h.now)) wanted)
        (switches-IsSound (call sm (update h.now)) wanted (called-IsSound sm (update h.now) h)) in
    (
      sm',
      ap finish (ap (λ o. run_current sm o wanted) h.current_eq ∙ run_live sm h.now wanted h.live)
          ∙ e,
      h',
    )

-- The manager is sound when it starts.
pub manager_init-IsSound : IsSound manager_init
unfolding manager_init switch leave prepare
manager_init-IsSound = record {
  menu_agrees = refl;
  game_agrees = refl;
  editor_agrees = refl;
  now = main_menu;
  current_eq = refl;
  live = refl;
  other = tt;
  pending = tt;
}
