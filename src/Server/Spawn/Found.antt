-- ===== src/Server/Spawn/Found.antt =====
-- The search for spawn points finds the spawn cells of the map and no others.
use wa_game.Prelude.{
  mem-append, eq_of_test, ℕ, suc, ◌<◌, ◌≡◌, refl, ap, ◌∙◌, arith, Bool, true, false, ◌||◌, ◌&&◌,
  none, some, List, [], ◌∷◌, ◌++◌, mem, ◌==◌, ltb, get_elem?, for_range, for_range_from_zero,
  Returns, Bool-cases, inl, inr,
}
use wa_game.Platform.{Platform, IsArray}
use wa_game.Map.{RuntimeMap, cell_index, cell_spawn}
use wa_game.Map.Cells.{index_injective, cell_index-eq}
use wa_game.Map.Resize.{IsValid}
use wa_game.Map.Disk.Load.{runtime_map_at-some}
use wa_game.Prelude.{==-self}
use wa_game.Server.Spawn.{look_at, find_spawns}

seen_more :
    (x y x' y' : ℕ) (b s : Bool)
    → (b ≡ true → (x' ≡ x) × (y' ≡ y) × (s ≡ true))
    → (x' ≡ x → y' ≡ y → b ≡ true)
    → (((ltb x' x || (x' == x && ltb y' y)) && s) || b)
      ≡ ((ltb x' x || (x' == x && ltb y' (suc y))) && s)
seen_more x y x' y' b s h k = grind arith

seen_same :
    (x y x' y' : ℕ) (s : Bool)
    → (x' ≡ x → y' ≡ y → s ≡ false)
    → ((ltb x' x || (x' == x && ltb y' y)) && s) ≡ ((ltb x' x || (x' == x && ltb y' (suc y))) && s)
seen_same x y x' y' s h = grind arith

-- The cell is one where players spawn.
abbrev pub is_spawn : RuntimeMap → ℕ → Bool
is_spawn map p = elim (get_elem? map.cells p) [ none ↦ false | some cell ↦ cell.type == cell_spawn ]

module _ (platform : Platform) (laws : IsArray platform.arrays) (map : RuntimeMap)
    (v : IsValid map) where
  -- The spawn points found when the search stands at `x` and `y`.
  abbrev Found : ℕ → ℕ → List ℕ → Type 0
  Found x y points =
      ((x' y' : ℕ)
        → x' < map.w
        → y' < map.h
        → mem (cell_index map.w x' y') points
          ≡ ((ltb x' x || (x' == x && ltb y' y)) && is_spawn map (cell_index map.w x' y')))
      × ((p : ℕ) → mem p points ≡ true → is_spawn map p ≡ true)

  same_cell :
      (x y x' y' : ℕ)
      → x < map.w
      → y < map.h
      → x' < map.w
      → y' < map.h
      → (cell_index map.w x' y' == cell_index map.w x y) ≡ true
      → (x' ≡ x) × (y' ≡ y)
  same_cell x y x' y' p q p' q' e = index_injective map.w x' y' x y p' p (
      omega (
        arith,
        eq_of_test (cell_index map.w x' y') (cell_index map.w x y) e,
        cell_index-eq map.w x y v.w_small p (omega (arith, v.h_small)),
        cell_index-eq map.w x' y' v.w_small p' (omega (arith, v.h_small)),
      ))

  round :
      (x y : ℕ) (points : List ℕ)
      → x < map.w
      → y < map.h
      → Found x y points
      → Returns (look_at platform map x y points) (Found x (suc y))
  round x y points p q (found, sound) =
      let (c, at, _, _) = v.placed x y p q in
      let here = cell_index map.w x y in
      let kind : is_spawn map here ≡ (c.type == cell_spawn) = rw (at, is_spawn) refl in
      elim (Bool-cases (c.type == cell_spawn)) [
        | inl spawn ↦ (
          points ++ (here ∷ []),
          rw (runtime_map_at-some map x y p q, at, spawn, laws.add_lem points here) refl,
          (
            (λ x' y' p' q'.
                mem-append (cell_index map.w x' y') points here
                ∙ rw (found x' y' p' q') (
                    seen_more x y x' y' (cell_index map.w x' y' == here)
                      (is_spawn map (cell_index map.w x' y'))
                      (λ e.
                        let (ex, ey) = same_cell x y x' y' p q p' q' e in
                        (ex, ey, rw (ex, ey, kind) spawn))
                      (λ ex ey. rw (ex, ey) (==-self here)))),
            λ k m. elim (Bool-cases (mem k points)) [
              | inl old ↦ sound k old
              | inr new ↦
                  let last : k ≡ here =
                    eq_of_test k here (rw (mem-append k points here, new) at m) in
                  rw last (kind ∙ spawn)
            ],
          ),
        )
        | inr other ↦ (
          points,
          rw (runtime_map_at-some map x y p q, at, other) refl,
          (
            (λ x' y' p' q'.
                found x' y' p' q'
                ∙ seen_same x y x' y' (is_spawn map (cell_index map.w x' y'))
                    (λ ex ey. rw (ex, ey, kind) other)),
            sound,
          ),
        )
      ]

  column :
      (x : ℕ) (points : List ℕ)
      → x < map.w
      → Found x 0 points
      → Returns (for_range map.h 0 (look_at platform map x) points) (Found (suc x) 0)
  column x points p before =
      let (after, e, (found, sound)) =
        for_range_from_zero (Found x) map.h (look_at platform map x)
          (λ y points q. round x y points p q) points before in
      (
        after,
        e,
        (
          (λ x' y' p' q'.
              found x' y' p' q'
              ∙ ap (λ (b : Bool). b && is_spawn map (cell_index map.w x' y')) (ground arith)),
          sound,
        ),
      )

  -- The search for spawn points in a valid map does not fault, and finds a cell of the grid just
  -- when it is a spawn cell, and nothing else; arrays append what is added.
  pub find_spawns_lem : Returns (find_spawns platform map) (λ points.
      ((x y : ℕ)
        → x < map.w
        → y < map.h
        → mem (cell_index map.w x y) points ≡ is_spawn map (cell_index map.w x y))
      × ((p : ℕ) → mem p points ≡ true → is_spawn map p ≡ true))
  unfolding find_spawns
  find_spawns_lem =
      let (points, e, (found, sound)) =
        for_range_from_zero (λ x. Found x 0) map.w (λ x. for_range map.h 0 (look_at platform map x))
          (λ x points p. column x points p) [] ((λ x y p q. ground arith), λ p m. ground arith) in
      (points, e, ((λ x y p q. rw (found x y p q) (ground arith)), sound))
