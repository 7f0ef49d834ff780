-- ===== src/Game/Walk/Ends.antt =====
-- The walk between two points ends within as many cells as the map is wide and high, wherever the
-- points are, and passes only cells of the map.
use wa_game.Prelude.{
  ℕ, zero, suc, ◌+◌, ◌-◌, ◌^◌, ◌≤◌, ◌<◌, ◌≡◌, refl, arith, Bool, true, false, ◌&&◌, ◌||◌, none,
  List, [], ◌∷◌, if◌then◌else◌, leb, mem, mem-append, eq_of_test, length, length-append, Returns,
  Bool-cases, inl, inr,
}
use wa_game.Prelude.Int.{ℤ, pos, negsuc, ◌+ℤ◌, eqb_ℤ}
use wa_game.Platform.{ArrayApi, IsArray, Floats}
use wa_game.Vec.{Vec}
use wa_game.Map.{RuntimeMap, runtime_map_at, cell_index}
use wa_game.Map.Cells.{index_bound, cell_index-eq}
use wa_game.Map.World.{u16_of}
use wa_game.Map.Resize.{IsValid}
use wa_game.Map.Disk.Load.{runtime_map_at-some}
use wa_game.Game.Walk.{Line, walk, step_of, get_cells_2points}

-- How many cells are left from `x` on, in the direction of the step.
abbrev left_over : ℕ → Bool → ℕ → ℕ
left_over w true x = w - x
left_over w false x = x + 1

-- One more and one less, case by case.
plus_one-eq : (n : ℕ) → pos n +ℤ pos 1 ≡ pos (suc n)
unfolding ◌+ℤ◌
plus_one-eq n = ground arith

plus_one_neg : (n : ℕ) → negsuc (suc n) +ℤ pos 1 ≡ negsuc n
unfolding ◌+ℤ◌
plus_one_neg n = ground arith

plus_one_last : negsuc 0 +ℤ pos 1 ≡ pos 0
unfolding ◌+ℤ◌
plus_one_last = refl

less_one-eq : (n : ℕ) → pos (suc n) +ℤ negsuc 0 ≡ pos n
unfolding ◌+ℤ◌
less_one-eq n = ground arith

less_one_first : pos 0 +ℤ negsuc 0 ≡ negsuc 0
unfolding ◌+ℤ◌
less_one_first = refl

less_one_neg : (n : ℕ) → negsuc n +ℤ negsuc 0 ≡ negsuc (suc n)
unfolding ◌+ℤ◌
less_one_neg n = ground arith

step-shrinks :
    (w : ℕ) (forward : Bool) (x : ℤ)
    → w < 2 ^ 16
    → u16_of x < w
    → u16_of (x +ℤ step_of forward) < w
    → left_over w forward (u16_of (x +ℤ step_of forward)) < left_over w forward (u16_of x)
step-shrinks w true (pos n) small p q =
    let q' = rw (plus_one-eq n) at q in rw (plus_one-eq n) (omega arith)
step-shrinks w true (negsuc zero) small p q = absurd (omega arith)
step-shrinks w true (negsuc (suc n)) small p q =
    let q' = rw (plus_one_neg n) at q in rw (plus_one_neg n) (omega arith)
step-shrinks w false (pos zero) small p q = let q' = rw less_one_first at q in absurd (omega arith)
step-shrinks w false (pos (suc n)) small p q =
    let q' = rw (less_one-eq n) at q in rw (less_one-eq n) (omega arith)
step-shrinks w false (negsuc n) small p q =
    let q' = rw (less_one_neg n) at q in rw (less_one_neg n) (omega arith)

left_over-le : (w : ℕ) (forward : Bool) (x : ℕ) → x < w → left_over w forward x ≤ w
left_over-le w true x h = omega arith
left_over-le w false x h = omega arith

module _ (arrays : ArrayApi) (floats : Floats) (laws : IsArray arrays) (map : RuntimeMap)
    (v : IsValid map) where
  -- The cells are in the allocation, and there are at most so many.
  pub record Passed (most : ℕ) (cells : List ℕ) : Type 0 where
    pub inside : (p : ℕ) → mem p cells ≡ true → p < length map.cells
    pub few : length cells ≤ most

  add-Passed :
      (cells : List ℕ) (most x y : ℕ)
      → x < map.w
      → y < map.h
      → Passed most cells
      → Passed (most + 1) (arrays.add cells (cell_index map.w x y))
  add-Passed cells most x y p q h =
      let here = cell_index map.w x y in
      let here-in : here < length map.cells = omega (
        arith,
        cell_index-eq map.w x y v.w_small p (omega (arith, v.h_small)),
        index_bound map.w map.h x y p q,
        v.room,
      ) in
      rw (laws.add_lem cells here) (record {
        inside = λ k m. elim (Bool-cases (mem k cells)) [
          | inl old ↦ h.inside k old
          | inr new ↦
              let same : k ≡ here = eq_of_test k here (rw (mem-append k cells here, new) at m) in
              rw same here-in
        ];
        few = omega (arith, length-append cells (here ∷ []), h.few);
      })

  more :
      (most larger : ℕ) (cells : List ℕ) → most ≤ larger → Passed most cells → Passed larger cells
  more most larger cells le h = record { inside = h.inside; few = omega (arith, h.few) }

  pub outside : (x y : ℕ) → (leb map.w x || leb map.h y) ≡ true → runtime_map_at map x y ≡ none
  unfolding runtime_map_at
  outside x y h = rw h refl

  pub within : (x y : ℕ) → (leb map.w x || leb map.h y) ≡ false → (x < map.w) × (y < map.h)
  within x y h = ground arith

  -- Enough fuel for the rest of the walk.
  abbrev Enough : ℕ → Line arrays floats → ℤ → ℤ → Type 0
  Enough fuel line x0 y0 =
      u16_of x0 < map.w
      → u16_of y0 < map.h
      → left_over map.w line.right (u16_of x0) + left_over map.h line.down (u16_of y0) < fuel

  left_over-pos : (w : ℕ) (forward : Bool) (x : ℕ) → x < w → 1 ≤ left_over w forward x
  left_over-pos w true x h = omega arith
  left_over-pos w false x h = omega arith

  -- The step to the next cell, and the walk from there.
  next :
      (fuel : ℕ) (line : Line arrays floats) (x0 y0 : ℤ) (tx ty : floats.F32) (cells : List ℕ)
      (P : List ℕ → Type 0)
      → left_over map.w line.right (u16_of x0) + left_over map.h line.down (u16_of y0) < suc fuel
      → u16_of x0 < map.w
      → u16_of y0 < map.h
      → ((x y : ℤ) (tx' ty' : floats.F32)
          → Enough fuel line x y
          → Returns (walk arrays floats fuel map line x y tx' ty' cells) P)
      → Returns
          (walk arrays floats fuel map line
            (if floats.s.lt tx ty then x0 +ℤ step_of line.right else x0)
            (if floats.s.lt tx ty then y0 else y0 +ℤ step_of line.down)
            (if floats.s.lt tx ty then floats.s.add tx line.t_delta_x else tx)
            (if floats.s.lt tx ty then ty else floats.s.add ty line.t_delta_y)
            cells)
          P
  next fuel line x0 y0 tx ty cells P enough p q ih = elim (Bool-cases (floats.s.lt tx ty)) [
    | inl across ↦ rw across (
        ih (x0 +ℤ step_of line.right) y0 (floats.s.add tx line.t_delta_x) ty
          (λ p' q'. omega (arith, step-shrinks map.w line.right x0 v.w_small p p')))
    | inr along ↦ rw along (
        ih x0 (y0 +ℤ step_of line.down) tx (floats.s.add ty line.t_delta_y)
          (λ p' q'. omega (arith, step-shrinks map.h line.down y0 v.h_small q q')))
  ]

  walk-Passed :
      (fuel : ℕ) (line : Line arrays floats) (x0 y0 : ℤ) (tx ty : floats.F32) (cells : List ℕ)
      (most : ℕ)
      → Enough (suc fuel) line x0 y0
      → Passed most cells
      → Returns
          (walk arrays floats (suc fuel) map line x0 y0 tx ty cells)
          (Passed (most + suc fuel))
  unfolding walk
  walk-Passed zero line x0 y0 tx ty cells most enough h =
      elim (Bool-cases (leb map.w (u16_of x0) || leb map.h (u16_of y0))) [
        | inl out ↦ (
          cells,
          rw (outside (u16_of x0) (u16_of y0) out) refl,
          more most (most + 1) cells (omega arith) h,
        )
        | inr inn ↦
            let (p, q) = within (u16_of x0) (u16_of y0) inn in
            absurd (omega (arith, enough p q, left_over-pos map.w line.right (u16_of x0) p))
      ]
  walk-Passed (suc fuel) line x0 y0 tx ty cells most enough h =
      elim (Bool-cases (leb map.w (u16_of x0) || leb map.h (u16_of y0))) [
        | inl out ↦ (
          cells,
          rw (outside (u16_of x0) (u16_of y0) out) refl,
          more most (most + suc (suc fuel)) cells (omega arith) h,
        )
        | inr inn ↦
            let (p, q) = within (u16_of x0) (u16_of y0) inn in
            let here = cell_index map.w (u16_of x0) (u16_of y0) in
            let added = add-Passed cells most (u16_of x0) (u16_of y0) p q h in
            let assoc : most + 1 + suc fuel ≡ most + suc (suc fuel) = omega arith in
            rw (runtime_map_at-some map (u16_of x0) (u16_of y0) p q)
              (elim (Bool-cases (eqb_ℤ x0 line.x1 && eqb_ℤ y0 line.y1)) [
                | inl last ↦ rw last (
                  arrays.add cells here,
                  refl,
                  more (most + 1) (most + suc (suc fuel)) (arrays.add cells here) (omega arith)
                      added,
                )
                | inr on ↦ rw on (
                    next (suc fuel) line x0 y0 tx ty (arrays.add cells here)
                      (Passed (most + suc (suc fuel))) (enough p q) p q
                      (λ x y tx' ty' e. rw assoc at (
                        walk-Passed fuel line x y tx' ty' (arrays.add cells here) (most + 1) e
                          added)))
              ])
      ]

  walk_all :
      (line : Line arrays floats) (x0 y0 : ℤ) (tx ty : floats.F32)
      → Returns
          (walk arrays floats (map.w + map.h + 1) map line x0 y0 tx ty [])
          (Passed (map.w + map.h + 1))
  walk_all line x0 y0 tx ty =
      let fuel : suc (map.w + map.h) ≡ map.w + map.h + 1 = omega arith in
      let none_yet : Passed 0 [] = record {
        inside = λ k m. absurd (ground arith);
        few = omega arith;
      } in
      let start : 0 + (map.w + map.h + 1) ≡ map.w + map.h + 1 = omega arith in
      rw (fuel, start) at
        (walk-Passed (map.w + map.h) line x0 y0 tx ty [] 0
          (λ p q. omega (
            arith,
            left_over-le map.w line.right (u16_of x0) p,
            left_over-le map.h line.down (u16_of y0) q,
          ))
          none_yet)

  -- In a valid map the walk from one point to another ends within as many rounds as the map is
  -- wide and high, and one more, whatever the points, and collects at most so many cells, all of
  -- the map; arrays append what is added.
  pub get_cells_2points-Passed :
      (start end' : Vec floats)
      → Returns
          (get_cells_2points arrays floats (map.w + map.h + 1) map start end' [])
          (Passed (map.w + map.h + 1))
  unfolding get_cells_2points
  get_cells_2points-Passed start end' = walk_all _ _ _ _ _
