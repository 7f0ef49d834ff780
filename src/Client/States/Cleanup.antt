-- ===== src/Client/States/Cleanup.antt =====
-- Which states are cleaned up, and when.
use wa_game.Prelude.{
  Bool, true, false, not, ◌≡◌, refl, some, [], ◌∷◌, Bool-cases, inl, inr, Returns, arith, if_either,
  ◌∙◌, ap, ◌||◌,
}
use wa_game.Client.States.{
  Name, main_menu, game, map_editor, Manager, same_name, state_of, switch, clean, update_states,
  manager_cleanup, run_current, finish, leave, prepare, call, clean_if_set, update,
}
use wa_game.Client.States.Sound.{IsSound, AllAgree}
use wa_game.Client.States.Updates.{run_live, clean_same, not_true}

left_game :
    (sm : Manager) (s : Name)
    → sm.current ≡ some game
    → sm.game_state.do_cleanup ≡ true
    → same_name s game ≡ false
    → ((switch sm s).current ≡ some s)
      × ((switch sm s).prev ≡ some game)
      × ((switch sm s).cleanup_pending ≡ true)
unfolding switch leave prepare
left_game sm main_menu e flag apart = elim (Bool-cases sm.menu_state.cleaned_up) [
  | inl c ↦ rw (e, flag, c) (refl, refl, set_by sm.cleanup_pending)
  | inr c ↦ rw (e, flag, c) (refl, refl, set_by sm.cleanup_pending)
]
  where
    set_by : (b : Bool) → (b || true) ≡ true
    set_by b = ground arith
left_game sm map_editor e flag apart = elim (Bool-cases sm.editor_state.cleaned_up) [
  | inl c ↦ rw (e, flag, c) (refl, refl, set_by sm.cleanup_pending)
  | inr c ↦ rw (e, flag, c) (refl, refl, set_by sm.cleanup_pending)
]
  where
    set_by : (b : Bool) → (b || true) ≡ true
    set_by b = ground arith
left_game sm game e flag apart = absurd (not_true apart)

cleaned_game : (sm : Manager) → (clean sm game).game_state.cleaned_up ≡ true
unfolding clean
cleaned_game sm = refl

-- When the game is the current state of a sound manager and asks, in its update, for one switch
-- to another state, then after the update that state is current, the game is cleaned up, and no
-- cleanup is pending; the game has the flag for it.
pub leave_game :
    (sm : Manager) (s : Name)
    → IsSound sm
    → sm.current ≡ some game
    → sm.game_state.do_cleanup ≡ true
    → same_name s game ≡ false
    → Returns (update_states sm (s ∷ [])) (λ sm'.
      (sm'.current ≡ some s) × (sm'.game_state.cleaned_up ≡ true) × (sm'.cleanup_pending ≡ false))
unfolding update_states
leave_game sm s h e flag apart =
    let at_game : h.now ≡ game = cc in
    let set : sm.game_state.data_set ≡ true = rw at_game at h.live in
    let sm1 = switch (call sm (update game)) s in
    let (current, prev, due) = left_game (call sm (update game)) s e flag apart in
    (
      record (clean sm1 game) { cleanup_pending = false },
      ap finish (ap (λ o. run_current sm o (s ∷ [])) e ∙ run_live sm game (s ∷ []) set)
          ∙ rw (due, prev) refl,
      ((clean_same sm1 game).0 ∙ current, cleaned_game sm1, refl),
    )

-- After the test a state is cleaned up, and those that were stay so.
record Cleaned (sm : Manager) (s : Name) (sm' : Manager) : Type 0 where
  agree : AllAgree sm'
  done : (state_of sm' s).cleaned_up ≡ true
  kept : (t : Name) → (state_of sm t).cleaned_up ≡ true → (state_of sm' t).cleaned_up ≡ true

clean_kept :
    (sm : Manager) (s t : Name)
    → (state_of sm t).cleaned_up ≡ true
    → (state_of (clean sm s) t).cleaned_up ≡ true
unfolding clean
clean_kept sm main_menu main_menu k = refl
clean_kept sm main_menu game k = k
clean_kept sm main_menu map_editor k = k
clean_kept sm game main_menu k = k
clean_kept sm game game k = refl
clean_kept sm game map_editor k = k
clean_kept sm map_editor main_menu k = k
clean_kept sm map_editor game k = k
clean_kept sm map_editor map_editor k = refl

clean-Cleaned : (sm : Manager) (s : Name) → AllAgree sm → Cleaned sm s (clean sm s)
unfolding clean
clean-Cleaned sm main_menu h = record {
  agree = (refl, h.1, h.2);
  done = refl;
  kept = clean_kept sm main_menu;
}
clean-Cleaned sm game h = record {
  agree = (h.0, refl, h.2);
  done = refl;
  kept = clean_kept sm game;
}
clean-Cleaned sm map_editor h = record {
  agree = (h.0, h.1, refl);
  done = refl;
  kept = clean_kept sm map_editor;
}

clean_if_set-Cleaned : (sm : Manager) (s : Name) → AllAgree sm → Cleaned sm s (clean_if_set sm s)
clean_if_set-Cleaned sm s h =
    if_either (Cleaned sm s) (not (state_of sm s).cleaned_up) (λ _. clean-Cleaned sm s h)
      (λ e. record { agree = h; done = ground arith; kept = λ t k. k })

-- If each state has its data just when it is not cleaned up, this holds again after the cleanup
-- of the manager, and all three states are cleaned up.
pub manager_cleanup_all :
    (sm : Manager)
    → AllAgree sm
    → AllAgree (manager_cleanup sm)
      × (((manager_cleanup sm).menu_state.cleaned_up ≡ true)
          × ((manager_cleanup sm).game_state.cleaned_up ≡ true)
          × ((manager_cleanup sm).editor_state.cleaned_up ≡ true))
unfolding manager_cleanup clean
manager_cleanup_all sm h =
    let m = clean_if_set-Cleaned sm main_menu h in
    let sm1 = clean_if_set sm main_menu in
    let e = clean_if_set-Cleaned sm1 map_editor m.agree in
    let sm2 = clean_if_set sm1 map_editor in
    let g = clean_if_set-Cleaned sm2 game e.agree in
    (g.agree, (g.kept main_menu (e.kept main_menu m.done), g.done, g.kept map_editor e.done))
