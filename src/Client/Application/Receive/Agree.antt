-- ===== src/Client/Application/Receive/Agree.antt =====
-- The state of a gun on its way from the server to a client: `on_player_gun_changed` of
-- server/src/server_game.c and `game_player_gun_state`.
use wa_game.Prelude.{
  ℕ, ◌≡◌, refl, ◌∙◌, Bool, true, false, some, List, [], ◌∷◌, ◌++◌, ◌==◌, Returns, Bool-cases,
  ==_iff, ==-self, inl, inr,
}
use wa_game.Platform.{Platform, IsGht}
use wa_game.Server.{Segment, udp_important, Client, Server}
use wa_game.Server.Broadcast.{IsIteration, delivered, broadcast-delivered}
use wa_game.Server.Handlers.{everyone, on_player_gun_changed}
use wa_game.Game.{GunSpec, Gun, live, freed, Player}
use wa_game.Game.Guns.{player_change_gun_force, full_gun}
use wa_game.Game.Guns.Change.{create_gun-full, get_gun_spec-id}
use wa_game.Game.Snapshots.{held_gun}
use wa_game.Client.Application.{Application, ClientGame}
use wa_game.Client.Application.Handlers.{World, receive}
use wa_game.Client.Application.Receive.{change_player}
use wa_game.Client.Application.Receive.Guns.{state_gun, gun_state_player, game_player_gun_state}
use wa_game.Client.Application.Receive.Playing.{Held, Held-live, IsArmed}
use wa_game.Client.Application.Receive.Play.{IsKnown}

module _ (platform : Platform) where
  open platform use {ght}

  -- The client's gun is the server's, but that the timers of a player who shoots are the client's own.
  pub record SameGun (shoot : Bool) (gun gun' : Gun platform) : Type 0 where
    pub kind_eq : gun'.spec.id ≡ gun.spec.id
    pub ammo_eq : gun'.ammo ≡ gun.ammo
    pub reload_eq : gun'.reload_time ≡ gun.reload_time
    pub bullet_eq : shoot ≡ false → gun'.bullet_timer ≡ gun.bullet_timer
    pub charge_eq : shoot ≡ false → gun'.charge_time ≡ gun.charge_time

  abbrev stated : Bool → Gun platform → Gun platform → Gun platform
  stated shoot gun =
      state_gun platform shoot gun.ammo gun.bullet_timer gun.charge_time gun.reload_time

  stated-SameGun :
      (shoot : Bool) (gun old : Gun platform)
      → old.spec.id ≡ gun.spec.id
      → SameGun shoot gun (stated shoot gun old)
  stated-SameGun true gun old e = record {
    kind_eq = e;
    ammo_eq = refl;
    reload_eq = refl;
    bullet_eq = λ n. cc;
    charge_eq = λ n. cc;
  }
  stated-SameGun false gun old e = record {
    kind_eq = e;
    ammo_eq = refl;
    reload_eq = refl;
    bullet_eq = λ _. refl;
    charge_eq = λ _. refl;
  }

  -- The player, with the server's gun.
  abbrev pub HasGun : Bool → Gun platform → Player platform → Type 0
  HasGun shoot gun q' = Returns (held_gun platform q'.gun) (SameGun shoot gun)

  gun_state_player-HasGun :
      (specs : List (GunSpec platform)) (gun : Gun platform) (q : Player platform)
      → Held platform q.gun
      → IsKnown platform specs gun.spec.id
      → Returns
          (gun_state_player platform specs gun.spec.id (λ shoot. stated shoot gun) q)
          (HasGun q.shoot gun)
  unfolding gun_state_player player_change_gun_force
  gun_state_player-HasGun specs gun q (old, e) (spec, known) =
      elim (Bool-cases (old.spec.id == gun.spec.id)) [
        | inl same ↦
            rw (e, same, e)
              (_, refl, (_, refl, stated-SameGun q.shoot gun old ((==_iff _ _).0 same)))
        | inr other ↦
            let was = Held-live platform q.gun old e in
            let bare = record q { gun = freed } in
            let full = create_gun-full platform specs gun.spec.id spec bare known in
            let id_eq = get_gun_spec-id platform specs gun.spec.id spec known in
            rw (e, other, was, full)
              (_, refl, (_, refl, stated-SameGun q.shoot gun (full_gun platform spec) id_eq))
      ]

  -- The application's player of an id, with the server's gun.
  abbrev pub Shows : Bool → Gun platform → ℕ → Application platform → Type 0
  Shows shoot gun id app =
      Returns app.game λ game. Returns (ght.get game.cg.players id) (HasGun shoot gun)

  -- When the server tells of the changed gun of a player, which is not freed, each client of the
  -- table is sent one segment, marked important, and when a client that is in a game as above
  -- receives it, that has the player and knows the kind of gun, nothing faults, and its player
  -- then has a gun of that kind with the ammunition and reload time of the server's, and with its
  -- other timers too unless the client's player shoots. The tables obey their laws and their
  -- iteration visits each key once.
  pub on_player_gun_changed-receive :
      (is_ght : IsGht ght) (iterates : IsIteration platform) (server : Server platform)
      (player : Player platform) (gun : Gun platform) (k : ℕ) (client : Client platform)
      (w : World platform) (app : Application platform) (game : ClientGame platform)
      (q : Player platform)
      → player.gun ≡ live gun
      → ght.get server.clients k ≡ some client
      → app.game ≡ some game
      → IsArmed platform game.cg.gun_specs game
      → ght.get game.cg.players player.id ≡ some q
      → IsKnown platform game.cg.gun_specs gun.spec.id
      → Returns (on_player_gun_changed platform server player) (λ server'.
        (segment : Segment platform) × (delivered platform k server'.sent
          ≡ delivered platform k server.sent ++ ((udp_important, segment) ∷ []))
        × Returns (receive platform w app segment) (Shows q.shoot gun player.id))
  unfolding on_player_gun_changed receive game_player_gun_state change_player
  on_player_gun_changed-receive is_ght iterates server player gun k client w app game q pg there ag
        ok here known =
      let (q', e, has) =
        gun_state_player-HasGun game.cg.gun_specs gun q (ok.armed player.id q here) known in
      let segment =
        Segment.player_gun_state player.id gun.spec.id gun.ammo gun.bullet_timer gun.charge_time
          gun.reload_time in
      let held : held_gun platform player.gun ≡ some gun = rw pg refl in
      let written =
        is_ght.get-write game.cg.players player.id player.id q'
        ∙ rw (==-self player.id, here) refl in
      rw held (
        _,
        refl,
        (
          segment,
          broadcast-delivered platform iterates server (everyone platform) udp_important segment k
              ∙ rw there refl,
          rw (ag, here, e) (_, refl, (_, refl, (q', written, has))),
        ),
      )
