-- ===== src/Client/Application/Receive/Play.antt =====
-- The segments of play, one by one and in a row, at a client in a game.
use wa_game.Prelude.{ℕ, ◌≡◌, refl, Bool, some, List, ◌==◌, Returns, Bool-cases, if_either, inl, inr}
use wa_game.Prelude.Int.{eqb_ℤ}
use wa_game.Platform.{Platform}
use wa_game.Server.{Segment}
use wa_game.Game.{GunSpec, Gun, freed, Player, Game}
use wa_game.Game.Guns.{get_gun_spec, player_change_gun_force, player_reload}
use wa_game.Game.Guns.Change.{create_gun-full}
use wa_game.Client.Application.Receive.Guns.{gun_state_player}
use wa_game.Client.Application.Receive.Playing.{Held, Held-live, Keeps}

module _ (platform : Platform) where
  open platform use {ght}

  -- A kind of gun that the client knows.
  abbrev pub IsKnown : List (GunSpec platform) → ℕ → Type 0
  IsKnown specs gun_id =
      (spec : GunSpec platform) × (get_gun_spec platform specs gun_id ≡ some spec)

  -- A segment of play; one that gives a gun gives one of a known kind.
  abbrev pub IsInPlay : List (GunSpec platform) → Segment platform → Type 0
  IsInPlay specs (Segment.chat id msg) = Unit {0}
  IsInPlay specs (Segment.username_change id name) = Unit {0}
  IsInPlay specs (Segment.player_move id to input absolute) = Unit {0}
  IsInPlay specs (Segment.player_cursor id to) = Unit {0}
  IsInPlay specs (Segment.player_health id health) = Unit {0}
  IsInPlay specs (Segment.player_stats id kills deaths) = Unit {0}
  IsInPlay specs (Segment.player_died target attacker) = Unit {0}
  IsInPlay specs (Segment.player_ping id ms) = Unit {0}
  IsInPlay specs (Segment.player_gun_id id gun_id) = IsKnown specs gun_id
  IsInPlay specs (Segment.player_input id flags timestamp) = Unit {0}
  IsInPlay specs (Segment.player_reload id) = Unit {0}
  IsInPlay specs (Segment.player_gun_state id gun_id ammo bullet charge reload) =
      IsKnown specs gun_id
  IsInPlay specs (Segment.bullet id) = Unit {0}
  IsInPlay specs _ = ⊥

  pub player_change_gun_force-Keeps :
      (specs : List (GunSpec platform)) (p : Player platform) (gun_id : ℕ)
      → Held platform p.gun
      → IsKnown specs gun_id
      → Returns (player_change_gun_force platform specs p gun_id) (λ r. Keeps platform p r.0)
  unfolding player_change_gun_force
  player_change_gun_force-Keeps specs p gun_id (gun, e) (spec, known) =
      let live_gun = Held-live platform p.gun gun e in
      rw live_gun (
        _,
        refl,
        rw (create_gun-full platform specs gun_id spec (record p { gun = freed }) known)
            (refl, (_, refl)),
      )

  pub gun_state_player-Keeps :
      (specs : List (GunSpec platform)) (p : Player platform) (gun_id : ℕ)
      (f : Bool → Gun platform → Gun platform)
      → Held platform p.gun
      → IsKnown specs gun_id
      → Returns (gun_state_player platform specs gun_id f p) (Keeps platform p)
  unfolding gun_state_player
  gun_state_player-Keeps specs p gun_id f (gun, e) known =
      elim (Bool-cases (gun.spec.id == gun_id)) [
        | inl same ↦ rw (e, same, e) (_, refl, (refl, (_, refl)))
        | inr other ↦
            let (r, c, (ids, (gun', e'))) =
              player_change_gun_force-Keeps specs p gun_id (gun, e) known in
            rw (e, other, c, e') (_, refl, (ids, (_, refl)))
      ]

  -- What a reload leaves alone.
  pub record Reloaded (game : Game platform) (p : Player platform)
      (r : Game platform × Player platform) : Type 0 where
    pub keeps : Keeps platform p r.1
    pub players_eq : r.0.players ≡ game.players
    pub specs_eq : r.0.gun_specs ≡ game.gun_specs

  pub player_reload-Reloaded :
      (game : Game platform) (p : Player platform)
      → Held platform p.gun
      → Returns (player_reload platform game p) (Reloaded game p)
  unfolding player_reload
  player_reload-Reloaded game p (gun, e) =
      let live_gun = Held-live platform p.gun gun e in
      let full = eqb_ℤ gun.ammo gun.spec.max_ammo in
      rw (live_gun) (elim (Bool-cases full) [
        | inl same ↦
            rw same
              (_, refl, record { keeps = (refl, (_, refl)); players_eq = refl; specs_eq = refl })
        | inr other ↦ rw other (
          _,
          refl,
          record {
            keeps = (refl, (_, refl));
            players_eq =
                if_either (λ (g : Game platform). g.players ≡ game.players) game.has_player_reload
                  (λ _. refl) (λ _. refl);
            specs_eq =
                if_either (λ (g : Game platform). g.gun_specs ≡ game.gun_specs)
                  game.has_player_reload (λ _. refl) (λ _. refl);
          },
        )
      ])
