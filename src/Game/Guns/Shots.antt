-- ===== src/Game/Guns/Shots.antt =====
-- The bullets that the loop of `coregame_gun_update` puts into the table of the game.
use wa_game.Prelude.{
  ℕ, zero, suc, ◌+◌, ◌-◌, ◌%◌, ◌^◌, ◌≤◌, ◌<◌, ◌≡◌, ◌≢◌, refl, sym, ◌∙◌, arith, false, none, some,
  Bool-cases, if_either, if◌then◌else◌, inl, inr, Returns, ◌==◌, ==-self,
}
use wa_game.Prelude.Int.{pos_part}
use wa_game.Platform.{Platform, IsGht}
use wa_game.Game.{GunSpec, Gun, Player, Bullet, Game}
use wa_game.Game.Guns.{default_gun_shoot, shoot_loop, ready, spent, new_bullet}
use wa_game.Game.Guns.Ammo.{shoot_loop-Shot, has_ammo, spend, default_gun_shoot-seq}

-- The id of the bullet that is made `j` bullets after the next one.
abbrev pub id_after : ℕ → ℕ → ℕ
id_after seq j = (seq + suc j) % 2 ^ 32

id_after-suc : (seq j : ℕ) → id_after ((seq + 1) % 2 ^ 32) j ≡ id_after seq (suc j)
id_after-suc seq j = omega arith

id_after-ne : (seq j : ℕ) → suc j < 2 ^ 32 → id_after seq (suc j) ≢ id_after seq 0
id_after-ne seq j h e = omega arith

not_same : (i j : ℕ) → i ≢ j → i == j ≡ false
not_same i j ne = ground arith

module _ (platform : Platform) where
  open platform use {ght, floats}
  open floats use {s}

  -- A bullet that the player has just shot with a gun of this kind.
  pub record IsShotBy (owner : ℕ) (spec : GunSpec platform) (id : ℕ) (bullet : Bullet platform)
      : Type 0 where
    pub id_eq : bullet.id ≡ id
    pub owner_eq : bullet.owner_id ≡ owner
    pub gun_eq : bullet.gun_id ≡ spec.id
    pub dmg_eq : bullet.dmg ≡ spec.dmg
    pub speed_x : bullet.velocity.x ≡ s.mul bullet.dir.x spec.bullet_speed
    pub speed_y : bullet.velocity.y ≡ s.mul bullet.dir.y spec.bullet_speed
    pub flies : bullet.collided ≡ false

  -- The table holds `n` new bullets under the ids in turn, and what it held under any other key.
  pub record HasShots (owner : ℕ) (spec : GunSpec platform) (seq n : ℕ)
      (before after : ght.Table (Bullet platform)) : Type 0 where
    pub there :
        (j : ℕ)
        → j < n
        → Returns (ght.get after (id_after seq j)) (IsShotBy owner spec (id_after seq j))
    pub others :
        (k : ℕ) → ((j : ℕ) → j < n → k ≢ id_after seq j) → ght.get after k ≡ ght.get before k

  -- The next ids are not in use.
  abbrev pub AreFree : Game platform → ℕ → Type 0
  AreFree game n = (j : ℕ) → j < n → ght.get game.bullets (id_after game.bullet_id_seq j) ≡ none

module _ (platform : Platform) (laws : IsGht platform.ght) where
  open platform use {ght, floats}
  open floats use {s}

  pub none_shot :
      (owner : ℕ) (spec : GunSpec platform) (seq n : ℕ) (t : ght.Table (Bullet platform))
      → n ≡ 0
      → HasShots platform owner spec seq n t t
  none_shot owner spec seq n t e = record {
    there = λ j lt. absurd (omega (arith, e, lt));
    others = λ k h. refl;
  }

  -- One shot.
  abbrev flying : Game platform → Player platform → Gun platform → Bullet platform
  flying game player gun =
      let bullet = new_bullet platform game player gun in
      record bullet {
        velocity = record {
          x = s.mul bullet.dir.x gun.spec.bullet_speed;
          y = s.mul bullet.dir.y gun.spec.bullet_speed;
        };
      }

  default_gun_shoot-bullets :
      (game : Game platform) (player : Player platform) (gun : Gun platform)
      → (default_gun_shoot platform game player gun).0.bullets
        ≡ ght.write
            (ght.insert game.bullets
              (id_after game.bullet_id_seq 0)
              (new_bullet platform game player gun))
            (id_after game.bullet_id_seq 0)
            (flying game player gun)
  unfolding default_gun_shoot new_bullet
  default_gun_shoot-bullets game player gun =
      let id = id_after game.bullet_id_seq 0 in
      let made = ght.insert game.bullets id (new_bullet platform game player gun) in
      if_either
        (λ (g : Game platform).
          ght.write g.bullets id (flying game player gun)
          ≡ ght.write made id (flying game player gun))
        game.has_bullet_create (λ _. refl) (λ _. refl)

  default_gun_shoot-id :
      (game : Game platform) (player : Player platform) (gun : Gun platform)
      → (default_gun_shoot platform game player gun).1.id ≡ player.id
  unfolding default_gun_shoot
  default_gun_shoot-id game player gun = ground arith

  flying-IsShotBy :
      (game : Game platform) (player : Player platform) (gun : Gun platform)
      → IsShotBy platform player.id gun.spec
          (id_after game.bullet_id_seq 0)
          (flying game player gun)
  unfolding new_bullet
  flying-IsShotBy game player gun = record {
    id_eq = refl;
    owner_eq = refl;
    gun_eq = refl;
    dmg_eq = refl;
    speed_x = refl;
    speed_y = refl;
    flies = refl;
  }

  module _ (game : Game platform) (player : Player platform) (gun : Gun platform)
      (free : ght.get game.bullets (id_after game.bullet_id_seq 0) ≡ none) where
    shot_get :
        (k : ℕ)
        → ght.get (default_gun_shoot platform game player gun).0.bullets k ≡ (
            if k == id_after game.bullet_id_seq 0
            then some (flying game player gun)
            else ght.get game.bullets k)
    shot_get k =
        let id = id_after game.bullet_id_seq 0 in
        let made = ght.insert game.bullets id (new_bullet platform game player gun) in
        rw
          (
            default_gun_shoot-bullets game player gun,
            laws.get-write made id k (flying game player gun),
            laws.get-insert game.bullets id id (new_bullet platform game player gun) free,
            laws.get-insert game.bullets id k (new_bullet platform game player gun) free,
            ==-self id,
          )
          (elim (Bool-cases (k == id)) [ inl same ↦ rw same refl | inr other ↦ rw other refl ])

  -- The bullets of one shot, and then of `n` more.
  module _ (game : Game platform) (player : Player platform) (gun : Gun platform) (n : ℕ)
      (small : suc n < 2 ^ 32) (free : ght.get game.bullets (id_after game.bullet_id_seq 0) ≡ none)
      (out : ght.Table (Bullet platform))
      (shots : HasShots platform player.id gun.spec
        ((game.bullet_id_seq + 1) % 2 ^ 32)
        n
        (default_gun_shoot platform game player gun).0.bullets
        out) where
    apart : (j : ℕ) → j < n → id_after game.bullet_id_seq (suc j) ≢ id_after game.bullet_id_seq 0
    apart j lt = id_after-ne game.bullet_id_seq j (omega (arith, lt, small))

    one_more_there :
        (j : ℕ)
        → j < suc n
        → Returns
            (ght.get out (id_after game.bullet_id_seq j))
            (IsShotBy platform player.id gun.spec (id_after game.bullet_id_seq j))
    one_more_there zero lt =
        let id = id_after game.bullet_id_seq 0 in
        let kept =
          shots.others id λ j l e. apart j l (sym (e ∙ id_after-suc game.bullet_id_seq j)) in
        (
          flying game player gun,
          kept ∙ shot_get game player gun free id ∙ rw (==-self id) refl,
          flying-IsShotBy game player gun,
        )
    one_more_there (suc j) lt =
        rw (← id_after-suc game.bullet_id_seq j) (shots.there j (omega (arith, lt)))

    one_more_others :
        (k : ℕ)
        → ((j : ℕ) → j < suc n → k ≢ id_after game.bullet_id_seq j)
        → ght.get out k ≡ ght.get game.bullets k
    one_more_others k ne =
        shots.others k
          (λ j l e. ne (suc j) (omega (arith, l)) (e ∙ id_after-suc game.bullet_id_seq j))
        ∙ shot_get game player gun free k
        ∙ rw (not_same k (id_after game.bullet_id_seq 0) (ne 0 (omega arith))) refl

    one_more : HasShots platform player.id gun.spec game.bullet_id_seq (suc n) game.bullets out
    one_more = record { there = one_more_there; others = one_more_others }

  -- The ids after the next one stay free over a shot.
  shot-AreFree :
      (game : Game platform) (player : Player platform) (gun : Gun platform) (n : ℕ)
      → suc n < 2 ^ 32
      → AreFree platform game (suc n)
      → AreFree platform (default_gun_shoot platform game player gun).0 n
  shot-AreFree game player gun n small free j lt =
      let seq = game.bullet_id_seq in
      rw
        (
          default_gun_shoot-seq platform game player gun,
          id_after-suc seq j,
          shot_get game player gun (free 0 (omega arith)) (id_after seq (suc j)),
          not_same (id_after seq (suc j)) (id_after seq 0)
              (id_after-ne seq j (omega (arith, lt, small))),
        )
        (free (suc j) (omega (arith, lt)))

  pub minus_self : (a : ℕ) → a - a ≡ 0
  minus_self a = omega arith

  minus_more : (a b c : ℕ) → b + 1 ≡ a → c ≤ b → suc (b - c) ≡ a - c
  minus_more a b c e le = omega arith

  -- A loop puts in a bullet for each round that is gone.
  pub shoot_loop-HasShots :
      (fuel : ℕ) (game : Game platform) (player : Player platform) (gun : Gun platform)
      → pos_part gun.ammo ≤ fuel
      → pos_part gun.ammo < 2 ^ 32
      → AreFree platform game (pos_part gun.ammo)
      → HasShots platform player.id gun.spec game.bullet_id_seq
          (pos_part gun.ammo - pos_part (shoot_loop platform fuel game player gun).2.ammo)
          game.bullets
          (shoot_loop platform fuel game player gun).0.bullets
  unfolding shoot_loop
  shoot_loop-HasShots zero game player gun enough small free =
      none_shot player.id gun.spec game.bullet_id_seq _ game.bullets
        (minus_self (pos_part gun.ammo))
  shoot_loop-HasShots (suc fuel) game player gun enough small free =
      elim (Bool-cases (ready platform gun)) [
        | inr stop ↦ rw stop (
            none_shot player.id gun.spec game.bullet_id_seq _ game.bullets
              (minus_self (pos_part gun.ammo)))
        | inl go ↦
            let game' = (default_gun_shoot platform game player gun).0 in
            let player' = (default_gun_shoot platform game player gun).1 in
            let gun' = spent platform gun in
            let out = shoot_loop platform fuel game' player' gun' in
            let (less, _) = spend platform gun.ammo (
              has_ammo platform (s.le gun.spec.bullet_spawn_interval gun.bullet_timer) gun.ammo
                go) in
            let count : suc (pos_part gun'.ammo) ≡ pos_part gun.ammo = omega (arith, less) in
            let free' : AreFree platform game (suc (pos_part gun'.ammo)) = rw count free in
            let rest =
              shoot_loop-HasShots fuel game' player' gun' (omega (arith, less, enough))
                (omega (arith, less, small))
                (shot-AreFree game player gun (pos_part gun'.ammo) (omega (arith, count, small))
                  free') in
            let shot =
              shoot_loop-Shot platform fuel game' player' gun' (omega (arith, less, enough)) in
            let left = pos_part out.2.ammo in
            let n = pos_part gun'.ammo - left in
            let more = minus_more (pos_part gun.ammo) (pos_part gun'.ammo) left less shot.left-le in
            let shots : HasShots platform player.id gun.spec ((game.bullet_id_seq + 1) % 2 ^ 32) n
                game'.bullets out.0.bullets =
              rw
                (
                  default_gun_shoot-id game player gun,
                  default_gun_shoot-seq platform game player gun,
                )
                at rest in
            rw (go, ← more)
              (one_more game player gun n (omega (arith, count, small)) (free' 0 (omega arith))
                out.0.bullets shots)
      ]
