-- ===== src/Client/States/Sound.antt =====
-- The current state is always initialised.
use wa_game.Prelude.{
  Bool, true, false, not, ◌≡◌, refl, Option, none, some, if◌then◌else◌, if_either, ◌∙◌,
}
use wa_game.Client.States.{
  Name, main_menu, game, map_editor, State, Manager, same_name, state_of, switch, leave, prepare,
  call, enter, has_enter,
}

abbrev pub Agrees : State → Type 0
Agrees st = st.data_set ≡ not st.cleaned_up

abbrev pub Other : Name → Option Name → Type 0
Other c none = Unit {0}
Other c (some p) = same_name c p ≡ false

abbrev pub Pending : Bool → Option Name → Type 0
Pending false p = Unit {0}
Pending true none = ⊥
Pending true (some p) = Unit {0}

-- A state's data is set just when it is not cleaned up. There is a current state, whose data is set;
-- the state before it is another, and is there if a cleanup is pending.
pub record IsSound (sm : Manager) : Type 0 where
  pub menu_agrees : Agrees sm.menu_state
  pub game_agrees : Agrees sm.game_state
  pub editor_agrees : Agrees sm.editor_state
  pub now : Name
  pub current_eq : sm.current ≡ some now
  pub live : (state_of sm now).data_set ≡ true
  pub other : Other now sm.prev
  pub pending : Pending sm.cleanup_pending sm.prev

abbrev pub AllAgree : Manager → Type 0
AllAgree sm = Agrees sm.menu_state × Agrees sm.game_state × Agrees sm.editor_state

leave-AllAgree :
    (sm : Manager) (p : Name)
    → AllAgree sm
    → AllAgree (leave sm (some p)) × ((leave sm (some p)).prev ≡ sm.prev)
unfolding leave
leave-AllAgree sm main_menu h = (h, refl)
leave-AllAgree sm game h = (h, refl)
leave-AllAgree sm map_editor h = (h, refl)

Pending-some : (b : Bool) (p : Name) → Pending b (some p)
Pending-some true p = tt
Pending-some false p = tt

-- What preparing a state keeps, and that its data is then set.
record Prepared (sm : Manager) (s : Name) (sm' : Manager) : Type 0 where
  agree : AllAgree sm'
  set : (state_of sm' s).data_set ≡ true
  same_prev : sm'.prev ≡ sm.prev

prepare-Prepared : (sm : Manager) (s : Name) → AllAgree sm → Prepared sm s (prepare sm s)
unfolding prepare
prepare-Prepared sm main_menu h =
    if_either (Prepared sm main_menu) sm.menu_state.cleaned_up
      (λ e. record { agree = (rw e refl, h.1, h.2); set = refl; same_prev = refl })
      (λ e. record { agree = h; set = h.0 ∙ rw e refl; same_prev = refl })
prepare-Prepared sm game h =
    if_either (Prepared sm game) sm.game_state.cleaned_up
      (λ e. record { agree = (h.0, rw e refl, h.2); set = refl; same_prev = refl })
      (λ e. record { agree = h; set = h.1 ∙ rw e refl; same_prev = refl })
prepare-Prepared sm map_editor h =
    if_either (Prepared sm map_editor) sm.editor_state.cleaned_up
      (λ e. record { agree = (h.0, h.1, rw e refl); set = refl; same_prev = refl })
      (λ e. record { agree = h; set = h.2 ∙ rw e refl; same_prev = refl })

live_in :
    (sm : Manager) (s : Name)
    → (state_of sm s).data_set ≡ true
    → (state_of (record sm { current = some s }) s).data_set ≡ true
live_in sm main_menu h = h
live_in sm game h = h
live_in sm map_editor h = h

entered :
    (sm : Manager) (s p : Name)
    → AllAgree sm
    → (state_of sm s).data_set ≡ true
    → sm.prev ≡ some p
    → same_name s p ≡ false
    → IsSound (record sm { current = some s })
entered sm s p h set prev apart = record {
  menu_agrees = h.0;
  game_agrees = h.1;
  editor_agrees = h.2;
  now = s;
  current_eq = refl;
  live = live_in sm s set;
  other = rw prev apart;
  pending = rw prev (Pending-some sm.cleanup_pending p);
}

same_name_comm : (a b : Name) → same_name a b ≡ same_name b a
same_name_comm main_menu main_menu = refl
same_name_comm main_menu game = refl
same_name_comm main_menu map_editor = refl
same_name_comm game main_menu = refl
same_name_comm game game = refl
same_name_comm game map_editor = refl
same_name_comm map_editor main_menu = refl
same_name_comm map_editor game = refl
same_name_comm map_editor map_editor = refl

-- The end of a switch, with the entry callback or without.
enter-IsSound :
    (sm ready : Manager) (s p : Name)
    → Prepared sm s ready
    → sm.prev ≡ some p
    → same_name s p ≡ false
    → IsSound (record (if has_enter s then call ready (enter s) else ready) { current = some s })
enter-IsSound sm ready main_menu p h prev apart =
    entered (call ready (enter main_menu)) main_menu p h.agree h.set (h.same_prev ∙ prev) apart
enter-IsSound sm ready game p h prev apart =
    entered ready game p h.agree h.set (h.same_prev ∙ prev) apart
enter-IsSound sm ready map_editor p h prev apart =
    entered (call ready (enter map_editor)) map_editor p h.agree h.set (h.same_prev ∙ prev) apart

again : (sm : Manager) (h : IsSound sm) → IsSound (record sm { current = some h.now })
again sm h = record {
  menu_agrees = h.menu_agrees;
  game_agrees = h.game_agrees;
  editor_agrees = h.editor_agrees;
  now = h.now;
  current_eq = refl;
  live = live_in sm h.now h.live;
  other = h.other;
  pending = h.pending;
}

-- If the state manager is sound, it is so after a switch to any state, the current one or
-- another.
pub switch-IsSound : (sm : Manager) (s : Name) → IsSound sm → IsSound (switch sm s)
unfolding switch
switch-IsSound sm s h =
    let from = record sm { current = some h.now; prev = some h.now } in
    let (agree, prev) = leave-AllAgree from h.now (h.menu_agrees, h.game_agrees, h.editor_agrees) in
    rw h.current_eq (
      if_either IsSound (same_name h.now s) (λ _. again sm h)
        (λ e.
          enter-IsSound (leave from (some h.now)) (prepare (leave from (some h.now)) s) s h.now
            (prepare-Prepared (leave from (some h.now)) s agree) prev (same_name_comm s h.now ∙ e)))
