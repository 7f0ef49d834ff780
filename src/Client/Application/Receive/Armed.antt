-- ===== src/Client/Application/Receive/Armed.antt =====
-- The handlers, one by one, at a game that is in order.
use wa_game.Prelude.{
  ℕ, ◌≡◌, refl, ap, ◌∙◌, Bool, Option, none, some, List, [], ◌∷◌, Returns, Bool-cases, Option-cases,
  if_either, inl, inr, not, ◌&&◌,
}
use wa_game.Platform.{Platform, IsGht}
use wa_game.Prelude.Int.{eqb_ℤ}
use wa_game.Vec.{Vec}
use wa_game.Game.{GunSpec, Player, Game}
use wa_game.Game.Guns.{add_bullet}
use wa_game.Client.Application.{Application, ClientGame, Extra, Request, add_chatmsg}
use wa_game.Client.Application.Receive.{
  dist, named, if_own, rename_text, in_game, in_game_pushing, with_extra, game_player_move,
  game_username_change,
}
use wa_game.Client.Application.Receive.Playing.{Held, IsArmed, write-IsArmed}
use wa_game.Client.Application.Receive.Guns.{reload_called, game_player_reload, game_rewind_bullet}
use wa_game.Client.Application.Receive.Play.{player_reload-Reloaded}

module _ (platform : Platform) where
  open platform use {ght}

  -- The application has a game, and the game is in order.
  abbrev pub IsPlaying : List (GunSpec platform) → Application platform → Type 0
  IsPlaying specs app = Returns app.game (IsArmed platform specs)

  module _ (is_ght : IsGht ght) (specs : List (GunSpec platform)) where
    pub in_game_lem :
        (app : Application platform) (f : ClientGame platform → Option (ClientGame platform))
        → IsPlaying specs app
        → ((game : ClientGame platform)
            → IsArmed platform specs game
            → Returns (f game) (IsArmed platform specs))
        → Returns (in_game platform app f) (IsPlaying specs)
    in_game_lem app f (game, e, ok) keep =
        let (game', e', ok') = keep game ok in rw (e, e') (_, refl, (game', refl, ok'))

    pub in_game_pushing_lem :
        (app : Application platform)
        (f : ClientGame platform → Option (ClientGame platform × List (Request platform)))
        → IsPlaying specs app
        → ((game : ClientGame platform)
            → IsArmed platform specs game
            → Returns (f game) (λ r. IsArmed platform specs r.0))
        → Returns (in_game_pushing platform app f) (IsPlaying specs)
    in_game_pushing_lem app f (game, e, ok) keep =
        let (r, e', ok') = keep game ok in rw (e, e') (_, refl, (r.0, refl, ok'))

    -- A change of nothing that the order is about.
    pub unchanged-IsArmed :
        (game game' : ClientGame platform)
        → IsArmed platform specs game
        → game'.cg.players ≡ game.cg.players
        → game'.cg.gun_specs ≡ game.cg.gun_specs
        → game'.player ≡ game.player
        → IsArmed platform specs game'
    unchanged-IsArmed game game' ok ps ss own = record {
      keyed = rw (ps) ok.keyed;
      armed = rw (ps) ok.armed;
      own = (ok.own.0, ok.own.1, own ∙ ok.own.2, rw ps ok.own.3);
      specs_eq = ss ∙ ok.specs_eq;
    }

    pub add_chatmsg-IsArmed :
        (game : ClientGame platform) (now : platform.floats.F64) (name : Option (List ℕ))
        (msg : List ℕ)
        → IsArmed platform specs game
        → IsArmed platform specs (add_chatmsg platform game now name msg)
    unfolding add_chatmsg
    add_chatmsg-IsArmed game now name [] ok = ok
    add_chatmsg-IsArmed game now name (b ∷ bs) ok = unchanged-IsArmed game _ ok refl refl refl

    at_own :
        (game : ClientGame platform) (id : ℕ) (p : Player platform)
        → IsArmed platform specs game
        → ght.get game.cg.players id ≡ some p
        → ght.get game.cg.players p.id ≡ some p
    at_own game id p ok there = ap (ght.get game.cg.players) (ok.keyed id p there) ∙ there

    told_players :
        (game : ClientGame platform) (now : platform.floats.F64) (name : Option (List ℕ))
        (msg : List ℕ)
        → (add_chatmsg platform game now name msg).cg.players ≡ game.cg.players
    unfolding add_chatmsg
    told_players game now name [] = refl
    told_players game now name (b ∷ bs) = refl

    pub with_extra-IsArmed :
        (game : ClientGame platform) (id : ℕ) (f : Extra platform → Extra platform)
        → IsArmed platform specs game
        → IsArmed platform specs (with_extra platform game id f)
    with_extra-IsArmed game id f ok = elim (Option-cases (ght.get game.extras id)) [
      | inl absent ↦ rw absent ok
      | inr (extra, there) ↦ rw there (unchanged-IsArmed game _ ok refl refl refl)
    ]

    pub game_player_move-IsArmed :
        (game : ClientGame platform) (id : ℕ) (to : Vec platform.floats) (absolute : Bool)
        → IsArmed platform specs game
        → IsArmed platform specs (game_player_move platform game id to absolute)
    unfolding game_player_move
    game_player_move-IsArmed game id to absolute ok =
        elim (Option-cases (ght.get game.cg.players id)) [
          | inl absent ↦ rw absent ok
          | inr (p, there) ↦
              let there' = at_own game id p ok there in
              let moved =
                write-IsArmed platform is_ght specs game ok p.id p (record p { pos = to }) there'
                  (refl, ok.armed id p there) in
              let far = platform.floats.s.lt game.interp_threshold_dist (dist platform p.pos to) in
              rw there (elim (Bool-cases absolute) [
                | inl yes_abs ↦ rw yes_abs (with_extra-IsArmed _ p.id _ moved)
                | inr no_abs ↦ rw no_abs (elim (Bool-cases far) [
                  | inl yes_far ↦ rw yes_far (with_extra-IsArmed game p.id _ ok)
                  | inr no_far ↦ rw no_far (with_extra-IsArmed _ p.id _ moved)
                ])
              ])
        ]

    -- The callback of a reload finds the client's own player.
    reload_called_lem :
        (game : ClientGame platform) (p : Player platform)
        → IsArmed platform specs game
        → Held platform p.gun
        → Returns (reload_called platform game p) (λ _. Unit {0})
    reload_called_lem game p ok (gun, e) =
        let calls = game.cg.has_player_reload && not (eqb_ℤ gun.ammo gun.spec.max_ammo) in
        elim (Bool-cases calls) [
          | inl on ↦ rw (e, on, ok.own.2, ok.own.3) (_, refl, tt)
          | inr off ↦ rw (e, off) (_, refl, tt)
        ]

    pub game_player_reload-IsArmed :
        (game : ClientGame platform) (id : ℕ)
        → IsArmed platform specs game
        → Returns (game_player_reload platform game id) (λ r. IsArmed platform specs r.0)
    unfolding game_player_reload
    game_player_reload-IsArmed game id ok = elim (Option-cases (ght.get game.cg.players id)) [
      | inl absent ↦ rw absent ((game, []), refl, ok)
      | inr (p, there) ↦
          let (pushed, c, _) = reload_called_lem game p ok (ok.armed id p there) in
          let ((cg, p'), e, r) = player_reload-Reloaded platform game.cg p (ok.armed id p there) in
          let game' = record game { cg = cg } in
          let ok' : IsArmed platform specs game' =
            unchanged-IsArmed game game' ok r.players_eq r.specs_eq refl in
          rw (there, c, e)
            (
              _,
              refl,
              write-IsArmed platform is_ght specs game' ok' p.id p p'
                  (rw r.players_eq (at_own game id p ok there)) r.keeps,
            )
    ]

    pub game_username_change-IsArmed :
        (game : ClientGame platform) (now : platform.floats.F64) (id : ℕ) (name : List ℕ)
        → IsArmed platform specs game
        → Returns (game_username_change platform game now id name) (IsArmed platform specs)
    unfolding game_username_change
    game_username_change-IsArmed game now id name ok =
        elim (Option-cases (ght.get game.cg.players id)) [
          | inl absent ↦ rw absent (game, refl, ok)
          | inr (p, there) ↦
              let msg = rename_text platform p.username name in
              let told = add_chatmsg platform game now none msg in
              let p' = record p { username = named platform name } in
              let mine : if_own platform game p' ≡ some p' = rw (ok.own.2, ok.own.3) refl in
              let there' : ght.get told.cg.players p.id ≡ some p =
                rw (told_players game now none msg) (at_own game id p ok there) in
              let ok' = add_chatmsg-IsArmed game now none msg ok in
              rw (there, mine)
                (
                  _,
                  refl,
                  write-IsArmed platform is_ght specs told ok' p.id p p' there'
                      (refl, ok.armed id p there),
                )
        ]

    pub game_rewind_bullet-IsArmed :
        (game : ClientGame platform) (id : ℕ) (at dir : Vec platform.floats)
        → IsArmed platform specs game
        → Returns (game_rewind_bullet platform game id at dir) (IsArmed platform specs)
    unfolding game_rewind_bullet add_bullet
    game_rewind_bullet-IsArmed game id at dir ok =
        elim (Option-cases (ght.get game.cg.players id)) [
          | inl absent ↦ rw absent (game, refl, ok)
          | inr (p, there) ↦
              let (gun, e) = ok.armed id p there in
              rw (there, e)
                (
                  _,
                  refl,
                  unchanged-IsArmed game _ ok
                      (if_either (λ (g : Game platform). g.players ≡ game.cg.players)
                        game.cg.has_bullet_create (λ _. refl) (λ _. refl))
                      (if_either (λ (g : Game platform). g.gun_specs ≡ game.cg.gun_specs)
                        game.cg.has_bullet_create (λ _. refl) (λ _. refl))
                      refl,
                )
        ]
