-- ===== src/Client/Application/Receive/Run.antt =====
-- A row of segments, as they come, at a client in a game.
use wa_game.Prelude.{ℕ, refl, Option, some, List, [], ◌∷◌, ◌>>=◌, Returns, Option-cases, inl, inr}
use wa_game.Platform.{Platform, IsGht}
use wa_game.Server.{Segment}
use wa_game.Game.{GunSpec, Player}
use wa_game.Game.Input.{set_player_input}
use wa_game.Client.Application.{Application, ClientGame}
use wa_game.Client.Application.Handlers.{World, receive}
use wa_game.Client.Application.Receive.{
  change_player, game_player_cursor, game_player_health, game_player_died, game_player_stats,
  game_player_ping, game_chat_msg, game_player_input,
}
use wa_game.Client.Application.Receive.Guns.{game_player_gun_id, game_player_gun_state}
use wa_game.Client.Application.Receive.Playing.{Held, IsArmed, Keeps, change_player-IsArmed}
use wa_game.Client.Application.Receive.Play.{
  IsInPlay, player_change_gun_force-Keeps, gun_state_player-Keeps,
}
use wa_game.Client.Application.Receive.Armed.{
  IsPlaying, in_game_lem, in_game_pushing_lem, unchanged-IsArmed, add_chatmsg-IsArmed,
  with_extra-IsArmed, game_player_move-IsArmed, game_player_reload-IsArmed,
  game_username_change-IsArmed, game_rewind_bullet-IsArmed,
}

module _ (platform : Platform) where
  open platform use {ght}

  -- The segments that come with one turn of the client's loop each.
  unfoldable pub receive_all :
      List (World platform × Segment platform)
      → Application platform
      → Option (Application platform)
  receive_all [] app = some app
  receive_all ((w, segment) ∷ more) app = do
    app' ← receive platform w app segment
    receive_all more app'

  abbrev pub AllInPlay : List (GunSpec platform) → List (World platform × Segment platform) → Type 0
  AllInPlay specs [] = Unit
  AllInPlay specs ((w, segment) ∷ more) = IsInPlay platform specs segment × AllInPlay specs more

  module _ (is_ght : IsGht ght) (specs : List (GunSpec platform)) where
    abbrev Fine : (ClientGame platform → Option (ClientGame platform)) → Type 0
    Fine f =
        (game : ClientGame platform)
        → IsArmed platform specs game
        → Returns (f game) (IsArmed platform specs)

    changed :
        (id : ℕ) (f : ClientGame platform → Player platform → Option (Player platform))
        → ((game : ClientGame platform) (p : Player platform)
            → IsArmed platform specs game
            → Held platform p.gun
            → Returns (f game p) (Keeps platform p))
        → Fine (λ game. change_player platform game id (f game))
    changed id f keep game ok =
        change_player-IsArmed platform is_ght specs game id (f game) ok λ p h. keep game p ok h

    game_player_died-IsArmed :
        (now : platform.floats.F64) (target attacker : ℕ)
        → Fine (λ g. some (game_player_died platform g now target attacker))
    unfolding game_player_died
    game_player_died-IsArmed now target attacker game ok =
        elim (Option-cases (ght.get game.cg.players target)) [
          | inl absent ↦ rw absent (_, refl, ok)
          | inr (t, there) ↦ elim (Option-cases (ght.get game.cg.players attacker)) [
            | inl absent ↦ rw (there, absent) (_, refl, ok)
            | inr (a, here) ↦
                rw (there, here)
                  (_, refl, unchanged-IsArmed platform is_ght specs game _ ok refl refl refl)
          ]
        ]

    game_player_ping-IsArmed :
        (id : ℕ) (ms : platform.floats.F32) → Fine (λ g. some (game_player_ping platform g id ms))
    unfolding game_player_ping
    game_player_ping-IsArmed id ms game ok = elim (Option-cases (ght.get game.cg.players id)) [
      | inl absent ↦ rw absent (_, refl, ok)
      | inr (p, there) ↦ rw there (_, refl, with_extra-IsArmed platform is_ght specs game p.id _ ok)
    ]

    game_chat_msg-IsArmed :
        (now : platform.floats.F64) (id : ℕ) (msg : List ℕ)
        → Fine (λ g. some (game_chat_msg platform g now id msg))
    unfolding game_chat_msg
    game_chat_msg-IsArmed now id msg game ok =
        (_, refl, add_chatmsg-IsArmed platform is_ght specs game now _ msg ok)

    -- One such segment is received without a fault and leaves the client in play.
    pub receive-IsPlaying :
        (w : World platform) (app : Application platform) (segment : Segment platform)
        → IsInPlay platform specs segment
        → IsPlaying platform specs app
        → Returns (receive platform w app segment) (IsPlaying platform specs)
    unfolding receive game_player_cursor game_player_health game_player_stats game_player_gun_id
        game_player_input game_player_gun_state set_player_input
    receive-IsPlaying w app (Segment.chat id msg) i ok =
        in_game_lem platform is_ght specs app _ ok (game_chat_msg-IsArmed w.now id msg)
    receive-IsPlaying w app (Segment.username_change id name) i ok =
        in_game_lem platform is_ght specs app _ ok
          λ game. game_username_change-IsArmed platform is_ght specs game w.now id name
    receive-IsPlaying w app (Segment.player_move id to input absolute) i ok =
        in_game_lem platform is_ght specs app _ ok
          λ game a. (_, refl, game_player_move-IsArmed platform is_ght specs game id to absolute a)
    receive-IsPlaying w app (Segment.player_cursor id to) i ok =
        in_game_lem platform is_ght specs app _ ok (changed id _ λ game p a h. (_, refl, (refl, h)))
    receive-IsPlaying w app (Segment.player_health id health) i ok =
        in_game_lem platform is_ght specs app _ ok
          (changed id _ λ game p a h. rw (a.own.2, a.own.3) (_, refl, (refl, h)))
    receive-IsPlaying w app (Segment.player_stats id kills deaths) i ok =
        in_game_lem platform is_ght specs app _ ok (changed id _ λ game p a h. (_, refl, (refl, h)))
    receive-IsPlaying w app (Segment.player_died target attacker) i ok =
        in_game_lem platform is_ght specs app _ ok (game_player_died-IsArmed w.now target attacker)
    receive-IsPlaying w app (Segment.player_ping id ms) i ok =
        in_game_lem platform is_ght specs app _ ok (game_player_ping-IsArmed id ms)
    receive-IsPlaying w app (Segment.player_gun_id id gun_id) i ok =
        in_game_lem platform is_ght specs app _ ok (
          changed id _ λ game p a h.
            let (r, e, k) = player_change_gun_force-Keeps platform specs p gun_id h i in
            rw (a.specs_eq, e) (_, refl, k))
    receive-IsPlaying w app (Segment.player_input id flags timestamp) i ok =
        in_game_lem platform is_ght specs app _ ok (changed id _ λ game p a h. (_, refl, (refl, h)))
    receive-IsPlaying w app (Segment.player_reload id) i ok =
        in_game_pushing_lem platform is_ght specs app _ ok
          λ game. game_player_reload-IsArmed platform is_ght specs game id
    receive-IsPlaying w app (Segment.player_gun_state id gun_id ammo bullet charge reload) i ok =
        in_game_lem platform is_ght specs app _ ok (
          changed id _
            λ game p a h. rw (a.specs_eq) (gun_state_player-Keeps platform specs p gun_id _ h i))
    receive-IsPlaying w app (Segment.bullet id) i ok =
        in_game_lem platform is_ght specs app _ ok
          λ game. game_rewind_bullet-IsArmed platform is_ght specs game _ _ _
    receive-IsPlaying w app Segment.do_reconnect i ok = elim i [ ]
    receive-IsPlaying w app (Segment.delete_player id) i ok = elim i [ ]
    receive-IsPlaying w app Segment.server_shutdown i ok = elim i [ ]
    receive-IsPlaying w app (Segment.pong t u v) i ok = elim i [ ]
    receive-IsPlaying w app (Segment.session_id session player) i ok = elim i [ ]
    receive-IsPlaying w app (Segment.cg_map map size) i ok = elim i [ ]
    receive-IsPlaying w app (Segment.udp_info port tickrate time) i ok = elim i [ ]
    receive-IsPlaying w app (Segment.gun_spec spec) i ok = elim i [ ]
    receive-IsPlaying w app (Segment.new_player sent gun_id) i ok = elim i [ ]

    -- While the client is in a game that has its own player, in which every player stands under
    -- its id and holds a gun that is not freed, any row of segments of play is received without a
    -- fault and leaves the client so, with the same kinds of guns; a segment of play is one about
    -- a player that neither adds nor deletes one, a bullet or a chat message, and one that gives
    -- a gun gives a kind that the client knows. Tables obey their laws.
    pub receive_all-IsPlaying :
        (segments : List (World platform × Segment platform)) (app : Application platform)
        → AllInPlay specs segments
        → IsPlaying platform specs app
        → Returns (receive_all segments app) (IsPlaying platform specs)
    unfolding receive_all
    receive_all-IsPlaying [] app i ok = (app, refl, ok)
    receive_all-IsPlaying ((w, segment) ∷ more) app i ok =
        let (app', e, ok') = receive-IsPlaying w app segment i.0 ok in
        rw e (receive_all-IsPlaying more app' i.1 ok')
