-- ===== src/Game/Guns/Change.antt =====
-- Changing guns: `coregame_player_change_gun` with a kind that the game has, and with one that it
-- has not.
use wa_game.Prelude.{
  ℕ, ◌≡◌, ◌≢◌, refl, ap, arith, Bool, true, false, none, some, List, [], ◌∷◌, ◌==◌, Returns,
  Bool-cases, inl, inr,
}
use wa_game.Prelude.Int.{pos, ltb_ℤ}
use wa_game.Platform.{Platform}
use wa_game.Game.{GunSpec, Gun, Player, Game, GunPointer, null, live, freed}
use wa_game.Game.Guns.{
  get_gun_spec, create_gun, full_gun, player_change_gun, change_held, player_reload,
}

module _ (platform : Platform) where
  pub get_gun_spec-id :
      (specs : List (GunSpec platform)) (id : ℕ) (spec : GunSpec platform)
      → get_gun_spec platform specs id ≡ some spec
      → spec.id ≡ id
  unfolding get_gun_spec
  get_gun_spec-id [] id spec e = cc
  get_gun_spec-id (x ∷ specs) id spec e = ground (arith, get_gun_spec-id specs id spec)

  -- What a change may leave: the player as before, or with a full new gun of the wanted kind.
  pub data Changed (player : Player platform) (id : ℕ) : Player platform × Bool → Type 0 where
    kept : Changed player id (player, false)
    taken :
        (gun : Gun platform)
        → gun.spec.id ≡ id
        → gun.ammo ≡ gun.spec.max_ammo
        → Changed player id (record player { gun = live gun }, true)

  pub create_gun-full :
      (specs : List (GunSpec platform)) (id : ℕ) (spec : GunSpec platform)
      (player : Player platform)
      → get_gun_spec platform specs id ≡ some spec
      → create_gun platform specs id player
        ≡ (record player { gun = live (full_gun platform spec) }, true)
  unfolding create_gun
  create_gun-full specs id spec player e = rw e refl

  create_gun-none :
      (specs : List (GunSpec platform)) (id : ℕ) (player : Player platform)
      → get_gun_spec platform specs id ≡ none
      → create_gun platform specs id player ≡ (player, false)
  unfolding create_gun
  create_gun-none specs id player e = rw e refl

  module _ (specs : List (GunSpec platform)) (player : Player platform) (id : ℕ)
      (spec : GunSpec platform) (known : get_gun_spec platform specs id ≡ some spec) where
    full : Changed player id (record player { gun = live (full_gun platform spec) }, true)
    full = taken (full_gun platform spec) (get_gun_spec-id specs id spec known) refl

    change_held-Changed :
        (g : GunPointer platform)
        → g ≢ freed
        → Returns (change_held platform specs player id g) (Changed player id)
    unfolding change_held
    change_held-Changed null h = (_, ap some (create_gun-full specs id spec player known), full)
    change_held-Changed freed h = absurd (h refl)
    change_held-Changed (live gun) h = elim (Bool-cases (gun.spec.id == id)) [
      | inl same ↦ rw same (_, refl, kept)
      | inr other ↦ rw other (elim (Bool-cases (ltb_ℤ (pos 0) gun.ammo)) [
        | inr empty ↦ rw empty (_, refl, kept)
        | inl loaded ↦
            rw loaded (
              _,
              ap some (create_gun-full specs id spec (record player { gun = freed }) known),
              full,
            )
      ])
    ]

    -- A change to a kind of gun that the game has, for a player whose gun is not freed, does not
    -- fault and either leaves the player alone or gives a gun of that kind with a full magazine.
    pub player_change_gun-Changed :
        player.gun ≢ freed
        → Returns (player_change_gun platform specs player id) (Changed player id)
    unfolding player_change_gun
    player_change_gun-Changed h = change_held-Changed player.gun h

  -- The address of a freed gun is left in the player: the next change and the next reload read it.
  pub record IsDangling (r : Player platform × Bool) : Type 0 where
    pub gun_freed : r.0.gun ≡ freed
    pub refused : r.1 ≡ false
    pub next_change :
        (specs : List (GunSpec platform)) (id : ℕ) → player_change_gun platform specs r.0 id ≡ none
    pub next_reload : (game : Game platform) → player_reload platform game r.0 ≡ none

  -- A change to a kind of gun that the game has not, for a player who holds a gun of another kind
  -- with ammunition, is refused with the freed gun left in the player, and the next change of gun
  -- or reload of the player faults.
  pub player_change_gun_unknown :
      (specs : List (GunSpec platform)) (player : Player platform) (id : ℕ) (gun : Gun platform)
      → get_gun_spec platform specs id ≡ none
      → player.gun ≡ live gun
      → (gun.spec.id == id) ≡ false
      → ltb_ℤ (pos 0) gun.ammo ≡ true
      → Returns (player_change_gun platform specs player id) IsDangling
  unfolding player_change_gun player_reload
  player_change_gun_unknown specs player id gun e held other loaded = (
    (record player { gun = freed }, false),
    rw (held, other, loaded, create_gun-none specs id (record player { gun = freed }) e) refl,
    record { gun_freed = refl; refused = refl; next_change = λ _ _. refl; next_reload = λ _. refl },
  )
