-- ===== src/Vec.antt =====
-- lib/coregame/include/vec.h and rect.h: vectors, over the machine's floating point.
use wa_game.Prelude.{if◌then◌else◌, not}
use wa_game.Prelude.Int.{pos}
use wa_game.Platform.{Floats}

module _ (floats : Floats) where
  open floats use {F32, s, sqrtf}

  -- `vec2f_t`
  pub record Vec : Type 0 where
    pub x : F32
    pub y : F32

  -- `cg_rect_t`; its `pos` and `size` are vectors.
  pub record Rect : Type 0 where
    pub pos : Vec
    pub size : Vec

  -- `sqrtf(x * x + y * y)` of `vec2f_norm`
  abbrev pub magnitude : Vec → F32
  magnitude v = sqrtf (s.add (s.mul v.x v.x) (s.mul v.y v.y))

  unfoldable pub vec_norm : Vec → Vec
  vec_norm v =
      if not (s.eq (magnitude v) (s.of_ℤ (pos 0)))
      then record { x = s.div v.x (magnitude v); y = s.div v.y (magnitude v) }
      else v
