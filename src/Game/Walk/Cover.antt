-- ===== src/Game/Walk/Cover.antt =====
-- The cells that a player covers (lib/coregame/src/coregame.c, `cg_player_get_cells`) are different
-- cells of the map.
use wa_game.Prelude.{
  distinct-append, ℕ, suc, ◌+◌, ◌*◌, ◌<◌, ◌≡◌, ◌≢◌, refl, sym, ◌∙◌, arith, true, false, ◌||◌,
  Option, none, some, List, [], ◌∷◌, ◌++◌, ◌==◌, ◌⊎◌, inl, inr, leb, get_elem?-some, length, mem,
  mem-append, distinct, for_range, for_range_inv, eq_of_test, Returns, Bool-cases,
}
use wa_game.Prelude.Int.{pos}
use wa_game.Platform.{ArrayApi, IsArray, Floats}
use wa_game.Vec.{Vec}
use wa_game.Map.{RuntimeMap, runtime_map_at, cell_index}
use wa_game.Map.Cells.{index_bound, index_injective, cell_index-eq}
use wa_game.Map.World.{map_at_wpos}
use wa_game.Map.Resize.{IsValid}
use wa_game.Map.Disk.Load.{runtime_map_at-some, bind_Returns}
use wa_game.Game.Walk.Ends.{outside, within}
use wa_game.Game.Walk.{take_cell, rounds, covered, player_get_cells}

-- In the order of the loops: column by column.
abbrev Before : ℕ → ℕ → ℕ → ℕ → Type 0
Before x' y' x y = (x' < x) ⊎ ((x' ≡ x) × (y' < y))

module _ (arrays : ArrayApi) (floats : Floats) (laws : IsArray arrays) (map : RuntimeMap)
    (v : IsValid map) where
  -- A cell of the map that the loops have passed before (x, y).
  abbrev Place : ℕ → ℕ → ℕ → Type 0
  Place x y p = (x' y' : ℕ) × (p ≡ y' * map.w + x') × (x' < map.w) × (y' < map.h) × Before x' y' x y

  record IsPassed (x y : ℕ) (cells : List ℕ) : Type 0 where
    apart : distinct cells ≡ true
    places : (p : ℕ) → mem p cells ≡ true → Place x y p

  later :
      (x y u w' : ℕ) (cells : List ℕ)
      → ((x' y' : ℕ) → Before x' y' x y → Before x' y' u w')
      → IsPassed x y cells
      → IsPassed u w' cells
  later x y u w' cells on h = record {
    apart = h.apart;
    places = λ p m. let (x', y', e, p1, p2, b) = h.places p m in (x', y', e, p1, p2, on x' y' b);
  }

  next_row : (x y x' y' : ℕ) → Before x' y' x y → Before x' y' x (suc y)
  next_row x y x' y' (inl a) = inl a
  next_row x y x' y' (inr (a, b)) = inr (a, omega arith)

  new_cell :
      (x y : ℕ) (cells : List ℕ)
      → x < map.w
      → y < map.h
      → IsPassed x y cells
      → mem (y * map.w + x) cells ≡ false
  new_cell x y cells p q h = elim (Bool-cases (mem (y * map.w + x) cells)) [
    | inl inside ↦
        let (x', y', e, p', q', b) = h.places (y * map.w + x) inside in
        let (ex, ey) = index_injective map.w x y x' y' p p' e in
        absurd (elim b [ inl a ↦ omega arith | inr c ↦ omega (arith, c.0, c.1) ])
    | inr out ↦ out
  ]

  take_cell-IsPassed :
      (x y : ℕ) (cells : List ℕ)
      → IsPassed x y cells
      → Returns (take_cell arrays floats map x y cells) (IsPassed x (suc y))
  take_cell-IsPassed x y cells h = elim (Bool-cases (leb map.w x || leb map.h y)) [
    | inl out ↦
        rw (take_cell, outside arrays floats laws map v x y out)
          (cells, refl, later x y x (suc y) cells (next_row x y) h)
    | inr inn ↦
        let (p, q) = within arrays floats laws map v x y inn in
        let here = cell_index map.w x y in
        let eq : here ≡ y * map.w + x =
          cell_index-eq map.w x y v.w_small p (omega (arith, v.h_small)) in
        let after = later x y x (suc y) cells (next_row x y) h in
        rw (take_cell, runtime_map_at-some map x y p q, laws.add_lem cells here)
          (
            _,
            refl,
            record {
              apart = distinct-append cells here h.apart (rw eq (new_cell x y cells p q h));
              places = λ k m. elim (Bool-cases (mem k cells)) [
                | inl old ↦ after.places k old
                | inr new ↦
                    let same : k == here ≡ true = last_of k cells here m new in
                    (x, y, eq_of_test k here same ∙ eq, p, q, inr (refl, omega arith))
              ];
            },
          )
  ]
    where
      last_of :
          (k : ℕ) (xs : List ℕ) (here : ℕ)
          → mem k (xs ++ (here ∷ [])) ≡ true
          → mem k xs ≡ false
          → k == here ≡ true
      last_of k xs here m new = let e = mem-append k xs here in ground arith

  -- From one corner to the other.
  columns-IsPassed :
      (from_x from_y across down : ℕ)
      → Returns
          (for_range across from_x (λ x. for_range down from_y (take_cell arrays floats map x)) [])
          (IsPassed (from_x + across) 0)
  columns-IsPassed from_x from_y across down =
      for_range_inv (λ x. IsPassed x 0) across from_x
        (λ x. for_range down from_y (take_cell arrays floats map x))
        (λ x cells _ _ h. column x cells h) []
        (record { apart = refl; places = λ p m. absurd (ground arith) })
    where
      column :
          (x : ℕ) (cells : List ℕ)
          → IsPassed x 0 cells
          → Returns
              (for_range down from_y (take_cell arrays floats map x) cells)
              (IsPassed (suc x) 0)
      column x cells h =
          let (cells', e, h') =
            for_range_inv (IsPassed x) down from_y (take_cell arrays floats map x)
              (λ y cells1 _ _ g. take_cell-IsPassed x y cells1 g) cells
              (later x 0 x from_y cells (λ x' y' b. start x y' from_y x' b) h) in
          (
            cells',
            e,
            later x (from_y + down) (suc x) 0 cells' (λ x' y' b. finish x (from_y + down) x' y' b)
                h',
          )
        where
          start : (x y' w x' : ℕ) → Before x' y' x 0 → Before x' y' x w
          start x y' w x' (inl a) = inl a
          start x y' w x' (inr (a, b)) = absurd (omega arith)

          finish : (x y x' y' : ℕ) → Before x' y' x y → Before x' y' (suc x) 0
          finish x y x' y' (inl a) = inl (omega arith)
          finish x y x' y' (inr (a, b)) = inl (omega arith)

  -- Different cells of the allocation.
  pub record AreCells (cells : List ℕ) : Type 0 where
    pub different : distinct cells ≡ true
    pub inside : (p : ℕ) → mem p cells ≡ true → p < length map.cells

  passed-AreCells : (x y : ℕ) (cells : List ℕ) → IsPassed x y cells → AreCells cells
  passed-AreCells x y cells h = record {
    different = h.apart;
    inside = λ p m.
        let (x', y', e, p', q', _) = h.places p m in
        omega (arith, index_bound map.w map.h x' y' p' q', v.room);
  }

  none-AreCells : AreCells []
  none-AreCells = record { different = refl; inside = λ p m. absurd (ground arith) }

  covered-AreCells :
      (left right : Option ℕ)
      → ((k : ℕ) → left ≡ some k → k < length map.cells)
      → ((k : ℕ) → right ≡ some k → k < length map.cells)
      → Returns (covered arrays floats map left right) AreCells
  unfolding covered
  covered-AreCells none right l r = (_, refl, none-AreCells)
  covered-AreCells (some left) none l r = (_, refl, none-AreCells)
  covered-AreCells (some left) (some right) l r =
      let (c, e) = get_elem?-some map.cells left (l left refl) in
      let (c', e') = get_elem?-some map.cells right (r right refl) in
      let (cells, done, h) =
        columns-IsPassed c.pos.x c.pos.y (rounds arrays floats c.pos.x c'.pos.x)
          (rounds arrays floats c.pos.y c'.pos.y) in
      (cells, rw (e, e') done, passed-AreCells _ _ cells h)

  found_in : (x y : ℕ) (k : ℕ) → runtime_map_at map x y ≡ some k → k < length map.cells
  found_in x y k e = elim (Bool-cases (leb map.w x || leb map.h y)) [
    | inl out ↦ absurd (clash (outside arrays floats laws map v x y out) e)
    | inr inn ↦
        let (p, q) = within arrays floats laws map v x y inn in
        let eq = cell_index-eq map.w x y v.w_small p (omega (arith, v.h_small)) in
        let same : cell_index map.w x y ≡ k =
          some_injective (sym (runtime_map_at-some map x y p q) ∙ e) in
        omega (arith, same, eq, index_bound map.w map.h x y p q, v.room)
  ]
    where
      clash : {o : Option ℕ} {k : ℕ} → o ≡ none → o ≡ some k → ⊥
      clash p q = ground arith

      some_injective : {a b : ℕ} → some a ≡ some b → a ≡ b
      some_injective e = ground arith

  map_at_wpos-inside :
      (at : Vec floats)
      → map.grid_size ≢ 0
      → Returns (map_at_wpos floats map at) (λ o. (k : ℕ) → o ≡ some k → k < length map.cells)
  unfolding map_at_wpos
  map_at_wpos-inside at g =
      let zero_f = floats.s.of_ℤ (pos 0) in
      elim (Bool-cases (floats.s.lt at.x zero_f || floats.s.lt at.y zero_f)) [
        | inl out ↦ rw out (_, refl, λ k e. absurd (ground arith))
        | inr inn ↦
            let sized : map.grid_size == 0 ≡ false = ground arith in
            rw (inn, sized) (_, refl, λ k e. found_in _ _ k e)
      ]

  -- In a valid map whose grid size is not 0 the cells of a player, wherever it is, are found
  -- without a fault and are different cells within the allocation; arrays append what is added.
  pub player_get_cells-AreCells :
      (at velocity size : Vec floats)
      → map.grid_size ≢ 0
      → Returns (player_get_cells arrays floats map at velocity size) AreCells
  unfolding player_get_cells
  player_get_cells-AreCells at velocity size g =
      bind_Returns (map_at_wpos-inside _ g)
        λ left l. bind_Returns (map_at_wpos-inside _ g) λ right r. covered-AreCells left right l r
