-- ===== src/Game/Collision.antt =====
-- lib/coregame/src/coregame.c: the collision of a moving rectangle with one that stands still, by a
-- ray against the target made larger, and what it does to the velocity of a player.
use wa_game.Prelude.{
  ◌≡◌, refl, ◌⊎◌, inl, inr, Bool-cases, Bool, true, false, ◌&&◌, ◌||◌, if◌then◌else◌,
}
use wa_game.Prelude.Int.{pos, negsuc}
use wa_game.Platform.{Floats}
use wa_game.Vec.{Vec, Rect}

module _ (floats : Floats) where
  open floats use {F32, s, d, widen, narrow, isnanf, fmaxf, fminf, fabsf, clampf}

  -- The variables that a test writes through its pointers.
  pub record Contact : Type 0 where
    pub point : Vec floats
    pub normal : Vec floats
    pub time : F32

  abbrev pub zero : F32
  zero = s.of_ℤ (pos 0)

  abbrev pub vec : F32 → F32 → Vec floats
  vec x y = record { x = x; y = y }

  -- The side that was hit; at a corner the normal stays what it was.
  abbrev normal_of : Vec floats → F32 → F32 → Vec floats → Vec floats
  normal_of dir near_x near_y normal =
      let one = s.of_ℤ (pos 1) in
      let minus_one = s.of_ℤ (negsuc 0) in
      if s.lt near_y near_x
      then (if s.lt dir.x zero then vec one zero else vec minus_one zero)
      else if s.lt near_x near_y
      then (if s.lt dir.y zero then vec zero one else vec zero minus_one)
      else normal

  -- After the swaps: `near` and `far` are in order.
  hit_test : Vec floats → Vec floats → F32 → F32 → F32 → F32 → Contact → Bool × Contact
  hit_test ray_point dir near_x far_x near_y far_y contact =
      let t_near = fmaxf near_x near_y in
      let t_far = fminf far_x far_y in
      let timed = record contact { time = t_near } in
      let hit = record timed {
        point =
            vec (s.add ray_point.x (s.mul t_near dir.x)) (s.add ray_point.y (s.mul t_near dir.y));
        normal = normal_of dir near_x near_y contact.normal;
      } in
      if s.lt far_y near_x || s.lt far_x near_y
      then (false, contact)
      else if s.lt t_far zero
      then (false, timed)
      else (true, hit)

  pub ray_collision_test : Vec floats → Vec floats → Rect floats → Contact → Bool × Contact
  unfolding hit_test
  ray_collision_test ray_point dir target contact =
      let near_x = s.div (s.sub target.pos.x ray_point.x) dir.x in
      let near_y = s.div (s.sub target.pos.y ray_point.y) dir.y in
      let far_x = s.div (s.sub (s.add target.pos.x target.size.x) ray_point.x) dir.x in
      let far_y = s.div (s.sub (s.add target.pos.y target.size.y) ray_point.y) dir.y in
      let lower = λ (a b : F32). if s.lt b a then b else a in
      let upper = λ (a b : F32). if s.lt b a then a else b in
      if isnanf far_x || isnanf far_y || isnanf near_x || isnanf near_y
      then (false, contact)
      else hit_test ray_point dir (lower near_x far_x) (upper near_x far_x) (lower near_y far_y)
          (upper near_y far_y) contact

  -- `x - (w / 2.0)` and `x + (w / 2.0)`
  abbrev less_half : F32 → F32 → F32
  less_half x w = narrow (d.sub (widen x) (d.div (widen w) (d.of_ℤ (pos 2))))

  abbrev plus_half : F32 → F32 → F32
  plus_half x w = narrow (d.add (widen x) (d.div (widen w) (d.of_ℤ (pos 2))))

  abbrev expanded : Vec floats → Rect floats → Rect floats
  expanded size target = record {
    pos = vec (less_half target.pos.x size.x) (less_half target.pos.y size.y);
    size = vec (s.add target.size.x size.x) (s.add target.size.y size.y);
  }

  abbrev mid : Vec floats → Vec floats → Vec floats
  mid at size = vec (plus_half at.x size.x) (plus_half at.y size.y)

  -- `cg_bullet_cell_collision`, at the bullet's rectangle and velocity
  pub bullet_cell_collision : Rect floats → Vec floats → Rect floats → Contact → Bool × Contact
  unfolding ray_collision_test
  bullet_cell_collision r velocity target contact =
      let (hit, c) =
        ray_collision_test (mid r.pos r.size) velocity (expanded r.size target) contact in
      let timed = record c { time = fabsf c.time } in
      if hit then (s.lt timed.time (s.of_ℤ (pos 1)), timed) else (false, c)

  -- `cg_player_cell_collision`, at the player's position, size and velocity
  pub player_cell_collision : Rect floats → Vec floats → Rect floats → Contact → Bool × Contact
  unfolding ray_collision_test
  player_cell_collision r velocity target contact =
      let (hit, c) =
        ray_collision_test (mid r.pos r.size) velocity (expanded r.size target) contact in
      if hit then (s.le zero c.time && s.lt c.time (s.of_ℤ (pos 1)), c) else (false, c)

  -- One coordinate of `cg_resolve_player_collision`.
  abbrev resolved : F32 → F32 → F32 → F32
  resolved v normal time =
      let a = fabsf v in
      s.add v (clampf (s.mul (s.mul normal a) (s.sub (s.of_ℤ (pos 1)) time)) (s.neg a) a)

  pub resolve_player_collision : Vec floats → Contact → Vec floats
  resolve_player_collision velocity contact =
      vec (resolved velocity.x contact.normal.x contact.time)
        (resolved velocity.y contact.normal.y contact.time)

  -- Two tests that both miss, or both hit at the same time and point.
  abbrev Agree : Bool × Contact → Bool × Contact → Type 0
  Agree a b =
      ((a.0 ≡ false) × (b.0 ≡ false))
      ⊎ ((a.0 ≡ true) × (b.0 ≡ true) × (b.1.time ≡ a.1.time) × (b.1.point ≡ a.1.point))

  hit_test-Agree :
      (at dir : Vec floats) (near_x far_x near_y far_y : F32) (c c' : Contact)
      → Agree
          (hit_test at dir near_x far_x near_y far_y c)
          (hit_test at dir near_x far_x near_y far_y c')
  unfolding hit_test
  hit_test-Agree at dir near_x far_x near_y far_y c c' =
      elim (Bool-cases (s.lt far_y near_x || s.lt far_x near_y)) [
        | inl apart ↦ rw apart (inl (refl, refl))
        | inr on ↦ elim (Bool-cases (s.lt (fminf far_x far_y) zero)) [
          | inl behind ↦ rw (on, behind) (inl (refl, refl))
          | inr ahead ↦ rw (on, ahead) (inr (refl, refl, refl, refl))
        ]
      ]

  ray_collision_test-Agree :
      (at dir : Vec floats) (target : Rect floats) (c c' : Contact)
      → Agree (ray_collision_test at dir target c) (ray_collision_test at dir target c')
  unfolding ray_collision_test
  ray_collision_test-Agree at dir target c c' =
      let near_x = s.div (s.sub target.pos.x at.x) dir.x in
      let near_y = s.div (s.sub target.pos.y at.y) dir.y in
      let far_x = s.div (s.sub (s.add target.pos.x target.size.x) at.x) dir.x in
      let far_y = s.div (s.sub (s.add target.pos.y target.size.y) at.y) dir.y in
      elim (Bool-cases (isnanf far_x || isnanf far_y || isnanf near_x || isnanf near_y)) [
        | inl bad ↦ rw bad (inl (refl, refl))
        | inr fine ↦ rw fine (hit_test-Agree at dir _ _ _ _ c c')
      ]

  -- Whether a bullet meets a rectangle, and where, does not depend on what was hit before.
  pub bullet_cell_collision-fresh :
      (r : Rect floats) (velocity : Vec floats) (target : Rect floats) (c c' : Contact)
      → ((bullet_cell_collision r velocity target c').0
          ≡ (bullet_cell_collision r velocity target c).0)
        × ((bullet_cell_collision r velocity target c).0 ≡ true
            → (bullet_cell_collision r velocity target c').1.point
              ≡ (bullet_cell_collision r velocity target c).1.point)
  unfolding bullet_cell_collision
  bullet_cell_collision-fresh r velocity target c c' =
      elim (ray_collision_test-Agree (mid r.pos r.size) velocity (expanded r.size target) c c') [
        | inl (a, b) ↦ rw (a, b) (refl, λ e. absurd (cc))
        | inr (a, b, time, point) ↦ rw (a, b, time, point) (refl, λ e. refl)
      ]
