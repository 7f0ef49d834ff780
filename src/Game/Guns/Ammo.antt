-- ===== src/Game/Guns/Ammo.antt =====
-- Ammunition and the ids of bullets: what `coregame_gun_update` fires.
use wa_game.Prelude.{
  ℕ, zero, suc, ◌+◌, ◌-◌, ◌%◌, ◌^◌, ◌≤◌, ◌≡◌, refl, ap, ◌∙◌, arith, Bool, true, false, ◌&&◌,
  Bool-cases, inl, inr,
}
use wa_game.Prelude.Int.{ℤ, pos, pos_part, neg_part, ◌-ℤ◌, ltb_ℤ}
use wa_game.Platform.{Platform}
use wa_game.Game.{Gun, Player, Game, live}
use wa_game.Game.Guns.{
  default_gun_shoot, shoot_loop, ready, spent, reload_step, trigger_step, idle_step, after_shots,
  gun_update,
}

module _ (platform : Platform) where
  open platform use {floats}

  pub default_gun_shoot-seq :
      (game : Game platform) (player : Player platform) (gun : Gun platform)
      → (default_gun_shoot platform game player gun).0.bullet_id_seq
        ≡ (game.bullet_id_seq + 1) % 2 ^ 32
  unfolding default_gun_shoot
  default_gun_shoot-seq game player gun = ground arith

  -- What the loop has done when it ends: it ran until its test failed, the ammunition that is gone
  -- is the number of bullets made, and nothing else of the gun but the timer changed.
  pub record Shot (game : Game platform) (gun : Gun platform)
      (out : Game platform × Player platform × Gun platform) : Type 0 where
    pub stopped : ready platform out.2 ≡ false
    pub left-le : pos_part out.2.ammo ≤ pos_part gun.ammo
    pub not_negative : neg_part out.2.ammo ≡ neg_part gun.ammo
    pub same_spec : out.2.spec ≡ gun.spec
    pub made :
        out.0.bullet_id_seq % 2 ^ 32
        ≡ (game.bullet_id_seq + (pos_part gun.ammo - pos_part out.2.ammo)) % 2 ^ 32

  pub spend :
      (a : ℤ)
      → ltb_ℤ (pos 0) a ≡ true
      → (pos_part (a -ℤ pos 1) + 1 ≡ pos_part a) × (neg_part (a -ℤ pos 1) ≡ neg_part a)
  unfolding ◌-ℤ◌
  spend a h = ground arith

  out_of_ammo : (b : Bool) (a : ℤ) → pos_part a ≤ 0 → (b && ltb_ℤ (pos 0) a) ≡ false
  out_of_ammo b a h = ground arith

  pub has_ammo : (b : Bool) (a : ℤ) → (b && ltb_ℤ (pos 0) a) ≡ true → ltb_ℤ (pos 0) a ≡ true
  has_ammo b a h = ground arith

  one_more :
      (seq a b c out : ℕ)
      → b + 1 ≡ a
      → c ≤ b
      → out % 2 ^ 32 ≡ ((seq + 1) % 2 ^ 32 + (b - c)) % 2 ^ 32
      → out % 2 ^ 32 ≡ (seq + (a - c)) % 2 ^ 32
  one_more seq a b c out e le h = omega arith

  fired :
      (game : Game platform) (player : Player platform) (gun : Gun platform)
      {out : Game platform × Player platform × Gun platform}
      → ready platform gun ≡ true
      → Shot (default_gun_shoot platform game player gun).0 (spent platform gun) out
      → Shot game gun out
  fired game player gun {out} go s =
      let (less, same) =
        spend gun.ammo
          (has_ammo (floats.s.le gun.spec.bullet_spawn_interval gun.bullet_timer) gun.ammo go) in
      record {
        stopped = s.stopped;
        left-le = omega (arith, s.left-le, less);
        not_negative = s.not_negative ∙ same;
        same_spec = s.same_spec;
        made =
            one_more game.bullet_id_seq (pos_part gun.ammo) (pos_part (spent platform gun).ammo)
              (pos_part out.2.ammo) out.0.bullet_id_seq less s.left-le
              (rw (default_gun_shoot-seq game player gun) at s.made);
      }

  pub shoot_loop-Shot :
      (fuel : ℕ) (game : Game platform) (player : Player platform) (gun : Gun platform)
      → pos_part gun.ammo ≤ fuel
      → Shot game gun (shoot_loop platform fuel game player gun)
  unfolding shoot_loop
  shoot_loop-Shot zero game player gun enough = record {
    stopped =
        out_of_ammo (floats.s.le gun.spec.bullet_spawn_interval gun.bullet_timer) gun.ammo enough;
    left-le = omega arith;
    not_negative = refl;
    same_spec = refl;
    made = omega arith;
  }
  shoot_loop-Shot (suc fuel) game player gun enough = elim (Bool-cases (ready platform gun)) [
    | inl go ↦ rw go (
        fired game player gun go (
          shoot_loop-Shot fuel (default_gun_shoot platform game player gun).0
            (default_gun_shoot platform game player gun).1 (spent platform gun)
            (omega (
              arith,
              spend gun.ammo (
                  has_ammo (floats.s.le gun.spec.bullet_spawn_interval gun.bullet_timer) gun.ammo
                    go),
            ))))
    | inr stop ↦ rw stop (record {
      stopped = stop;
      left-le = omega arith;
      not_negative = refl;
      same_spec = refl;
      made = omega arith;
    })
  ]

  -- Ammunition lies between nothing and the magazine of the gun.
  pub record IsLoaded (gun : Gun platform) : Type 0 where
    pub not_negative : neg_part gun.ammo ≡ 0
    pub le-max : pos_part gun.ammo ≤ pos_part gun.spec.max_ammo
    pub sane : neg_part gun.spec.max_ammo ≡ 0

  -- A player holds a well-loaded gun of the old kind, and an id was taken for each round that is gone
  -- since the magazine held `start`.
  pub record Updated (game : Game platform) (gun : Gun platform) (start : ℤ)
      (out : Game platform × Player platform) : Type 0 where
    pub gun' : Gun platform
    pub held : out.1.gun ≡ live gun'
    pub loaded : IsLoaded gun'
    pub same_spec : gun'.spec ≡ gun.spec
    pub fired-le : pos_part gun'.ammo ≤ pos_part start
    pub made :
        out.0.bullet_id_seq % 2 ^ 32
        ≡ (game.bullet_id_seq + (pos_part start - pos_part gun'.ammo)) % 2 ^ 32

  pub reload_step-IsLoaded :
      (delta : floats.F64) (gun : Gun platform)
      → IsLoaded gun
      → IsLoaded (reload_step platform delta gun).0
        × ((reload_step platform delta gun).0.spec ≡ gun.spec)
  unfolding reload_step
  reload_step-IsLoaded delta gun l = ground arith

  pub trigger_step-same :
      (delta : floats.F64) (gun : Gun platform)
      → ((trigger_step platform delta gun).ammo ≡ gun.ammo)
        × ((trigger_step platform delta gun).spec ≡ gun.spec)
  unfolding trigger_step
  trigger_step-same delta gun = ground arith

  pub idle_step-same :
      (delta : floats.F64) (gun : Gun platform)
      → ((idle_step platform delta gun).ammo ≡ gun.ammo)
        × ((idle_step platform delta gun).spec ≡ gun.spec)
  unfolding idle_step
  idle_step-same delta gun = ground arith

  pub after_shots-same :
      (start : ℤ) (game : Game platform) (player : Player platform) (gun : Gun platform)
      → ((after_shots platform start (game, player, gun)).1.gun ≡ live gun)
        × ((after_shots platform start (game, player, gun)).0.bullet_id_seq ≡ game.bullet_id_seq)
  unfolding after_shots
  after_shots-same start game player gun = ground arith

  IsLoaded-of_eq :
      {g h : Gun platform} → IsLoaded g → h.ammo ≡ g.ammo → h.spec ≡ g.spec → IsLoaded h
  IsLoaded-of_eq l ea es = record {
    not_negative = rw ea l.not_negative;
    le-max = rw (ea, es) l.le-max;
    sane = rw es l.sane;
  }

  module _ (game : Game platform) (gun loaded : Gun platform) (l : IsLoaded loaded)
      (same : loaded.spec ≡ gun.spec) where
    -- No shot was fired.
    quiet :
        (game' : Game platform) (player' : Player platform) (gun' : Gun platform)
        → player'.gun ≡ live gun'
        → gun'.ammo ≡ loaded.ammo
        → gun'.spec ≡ loaded.spec
        → game'.bullet_id_seq ≡ game.bullet_id_seq
        → Updated game gun loaded.ammo (game', player')
    quiet game' player' gun' h ea es eq = record {
      gun' = gun';
      held = h;
      loaded = IsLoaded-of_eq l ea es;
      same_spec = es ∙ same;
      fired-le = rw ea (omega arith);
      made = rw (ea, eq) (omega arith);
    }

    -- The loop ran from a gun that holds the same ammunition.
    fired_out :
        (pulled : Gun platform) (out : Game platform × Player platform × Gun platform)
        → pulled.ammo ≡ loaded.ammo
        → pulled.spec ≡ loaded.spec
        → Shot game pulled out
        → Updated game gun loaded.ammo (after_shots platform pulled.ammo out)
    fired_out pulled (game', player', gun') ea es s =
        let (h, seq) = after_shots-same pulled.ammo game' player' gun' in
        record {
          gun' = gun';
          held = h;
          loaded = record {
            not_negative = s.not_negative ∙ rw ea l.not_negative;
            le-max = rw (s.same_spec, es) (omega (arith, s.left-le, ap pos_part ea, l.le-max));
            sane = rw (s.same_spec, es) l.sane;
          };
          same_spec = s.same_spec ∙ es ∙ same;
          fired-le = omega (arith, s.left-le, ap pos_part ea);
          made = rw (seq, ← ea) s.made;
        }

  -- An update of a gun whose ammunition lies between nothing and its magazine leaves the player a
  -- gun of the same kind for which this holds again, and moves the last id of a bullet on, modulo
  -- 2^32, by the number of rounds that are gone since the reload step.
  pub gun_update-Updated :
      (game : Game platform) (player : Player platform) (gun : Gun platform)
      → IsLoaded gun
      → Updated game gun
          (reload_step platform game.delta gun).0.ammo
          (gun_update platform game player gun)
  unfolding gun_update
  gun_update-Updated game player gun l =
      let loaded = (reload_step platform game.delta gun).0 in
      let pulled = trigger_step platform game.delta loaded in
      let rested = idle_step platform game.delta loaded in
      let (ll, same) = reload_step-IsLoaded game.delta gun l in
      let (pa, ps) = trigger_step-same game.delta loaded in
      let (ia, is') = idle_step-same game.delta loaded in
      elim (Bool-cases (reload_step platform game.delta gun).1) [
        | inr waits ↦ rw waits (quiet game gun loaded ll same game _ loaded refl refl refl refl)
        | inl goes ↦ rw goes (elim (Bool-cases player.shoot) [
          | inl held ↦ rw held (
              fired_out game gun loaded ll same pulled _ pa ps
                (shoot_loop-Shot (pos_part pulled.ammo) game _ pulled (omega arith)))
          | inr idle ↦
              rw idle (quiet game gun loaded ll same game _ rested (ground arith) ia is' refl)
        ])
      ]
