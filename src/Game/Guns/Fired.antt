-- ===== src/Game/Guns/Fired.antt =====
-- The bullets that `coregame_gun_update` fires, with what it leaves of the gun.
use wa_game.Prelude.{ℕ, ◌-◌, ◌^◌, ◌<◌, ◌≡◌, refl, sym, ap, ◌∙◌, arith, Bool-cases, inl, inr}
use wa_game.Prelude.Int.{ℤ, pos_part}
use wa_game.Platform.{Platform, IsGht}
use wa_game.Game.{GunSpec, Gun, GunPointer, Player, Bullet, Game, live}
use wa_game.Game.Guns.{shoot_loop, reload_step, trigger_step, idle_step, after_shots, gun_update}
use wa_game.Game.Guns.Ammo.{
  IsLoaded, Updated, gun_update-Updated, reload_step-IsLoaded, trigger_step-same, after_shots-same,
  idle_step-same,
}
use wa_game.Game.Guns.Shots.{HasShots, AreFree, none_shot, minus_self, shoot_loop-HasShots}

module _ (platform : Platform) where
  -- What the update leaves, and the bullets in the table for the rounds that are gone.
  pub record Fired (game : Game platform) (player : Player platform) (gun : Gun platform)
      (out : Game platform × Player platform) : Type 0 where
    pub updated : Updated platform game gun (reload_step platform game.delta gun).0.ammo out
    pub shots :
        HasShots platform player.id gun.spec game.bullet_id_seq
          (pos_part (reload_step platform game.delta gun).0.ammo - pos_part updated.gun'.ammo)
          game.bullets
          out.0.bullets

module _ (platform : Platform) (laws : IsGht platform.ght) where
  open platform use {ght, floats}

  HasShots-of_eq :
      {o o' : ℕ} {spec spec' : GunSpec platform} {seq n n' : ℕ}
      {before after after' : ght.Table (Bullet platform)}
      → o ≡ o'
      → spec ≡ spec'
      → n ≡ n'
      → after ≡ after'
      → HasShots platform o spec seq n before after
      → HasShots platform o' spec' seq n' before after'
  HasShots-of_eq eo es en ea shots = rw (← eo, ← es, ← en, ← ea) shots

  after_shots-bullets :
      (start : ℤ) (game : Game platform) (player : Player platform) (gun : Gun platform)
      → (after_shots platform start (game, player, gun)).0.bullets ≡ game.bullets
  unfolding after_shots
  after_shots-bullets start game player gun = ground arith

  -- The player holds a gun, and the bullets for the rounds gone from it are in the table.
  Filled : Game platform → ℕ → Gun platform → ℤ → Game platform × Player platform → Type 0
  Filled game owner gun start out =
      (gun' : Gun platform) × (out.1.gun ≡ live gun')
      × HasShots platform owner gun.spec game.bullet_id_seq (pos_part start - pos_part gun'.ammo)
          game.bullets out.0.bullets

  module _ (game : Game platform) (player : Player platform) (gun : Gun platform)
      (l : IsLoaded platform gun) where
    abbrev loaded : Gun platform
    loaded = (reload_step platform game.delta gun).0

    abbrev pulled : Gun platform
    pulled = trigger_step platform game.delta loaded

    -- No shot was fired.
    quiet :
        (player' : Player platform) (gun' : Gun platform)
        → player'.gun ≡ live gun'
        → gun'.ammo ≡ loaded.ammo
        → Filled game player.id gun loaded.ammo (game, player')
    unfolding Filled
    quiet player' gun' h e = (
      gun',
      h,
      none_shot platform laws player.id gun.spec game.bullet_id_seq _ game.bullets
          (rw e (minus_self platform laws (pos_part loaded.ammo))),
    )

    shooting :
        (player' : Player platform)
        → player'.id ≡ player.id
        → pos_part gun.spec.max_ammo < 2 ^ 32
        → AreFree platform game (pos_part loaded.ammo)
        → Filled game player.id gun loaded.ammo (
            after_shots platform pulled.ammo
              (shoot_loop platform (pos_part pulled.ammo) game player' pulled))
    unfolding Filled
    shooting player' same small free =
        let (game', player'', gun') =
          shoot_loop platform (pos_part pulled.ammo) game player' pulled in
        let (ll, ls) = reload_step-IsLoaded platform game.delta gun l in
        let (pa, ps) = trigger_step-same platform game.delta loaded in
        let (h, _) = after_shots-same platform pulled.ammo game' player'' gun' in
        let fits : pos_part pulled.ammo < 2 ^ 32 = rw pa (
          omega (arith, ll.le-max, ap (λ (k : GunSpec platform). pos_part k.max_ammo) ls, small)) in
        let free' : AreFree platform game (pos_part pulled.ammo) = rw pa free in
        let shots =
          shoot_loop-HasShots platform laws (pos_part pulled.ammo) game player' pulled (omega arith)
            fits free' in
        (
          gun',
          h,
          HasShots-of_eq same (ps ∙ ls) (ap (λ (a : ℤ). pos_part a - pos_part gun'.ammo) pa)
              (sym (after_shots-bullets pulled.ammo game' player'' gun')) shots,
        )

    gun_update-Filled :
        pos_part gun.spec.max_ammo < 2 ^ 32
        → AreFree platform game (pos_part loaded.ammo)
        → Filled game player.id gun loaded.ammo (gun_update platform game player gun)
    unfolding gun_update
    gun_update-Filled small free =
        let rested = idle_step platform game.delta loaded in
        let (ia, _) = idle_step-same platform game.delta loaded in
        elim (Bool-cases (reload_step platform game.delta gun).1) [
          | inr waits ↦ rw waits (quiet _ loaded refl refl)
          | inl goes ↦ rw goes (elim (Bool-cases player.shoot) [
            | inl held ↦ rw held (shooting _ (ground arith) small free)
            | inr idle ↦ rw idle (quiet _ rested (ground arith) ia)
          ])
        ]

    same_gun :
        (a b : Gun platform) (held : GunPointer platform) → held ≡ live a → held ≡ live b → a ≡ b
    same_gun a b held p q = cc

    -- An update of a gun whose ammunition lies between nothing and its magazine, of fewer than
    -- 2^32 rounds, in a game that holds no bullet under the next ids, as many as the gun has
    -- rounds after the reload step, leaves the player a gun of the same kind for which this holds
    -- of the ammunition again; for each round that is gone since the reload step the table of
    -- bullets then holds, under the next ids in turn, modulo 2^32, one that flies, has the player
    -- as its owner and the kind, damage and speed of the gun, and it holds under any other key
    -- what it held before. Tables obey their laws.
    pub gun_update-Fired :
        pos_part gun.spec.max_ammo < 2 ^ 32
        → AreFree platform game (pos_part (reload_step platform game.delta gun).0.ammo)
        → Fired platform game player gun (gun_update platform game player gun)
    unfolding Filled
    gun_update-Fired small free =
        let updated = gun_update-Updated platform game player gun l in
        let (gun', held, shots) = gun_update-Filled small free in
        let same = same_gun gun' updated.gun' _ held updated.held in
        record { updated = updated; shots = rw (same) at shots }
