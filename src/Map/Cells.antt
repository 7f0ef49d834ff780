-- ===== src/Map/Cells.antt =====
-- The nested loops of cg_map.c over the cells: what each cell holds afterwards.
use wa_game.Prelude.{
  ℕ, zero, suc, ◌+◌, ◌*◌, ◌^◌, ◌≤◌, ◌<◌, ◌≡◌, refl, sym, ap, ◌∙◌, arith, Bool, ◌&&◌, ◌||◌, Option,
  some, List, [], ◌∷◌, ltb, ◌==◌, if◌then◌else◌, get_elem?, length, for_range, for_range_from_zero,
  ◌>>=◌, Returns,
}
use mathlib.Core.Option
use wa_game.Map.{Cell, cell_index, Write, write, modify_at, for_cells}

module _ {ℓ} {A : Type ℓ} where
  -- The list that a write within bounds leaves.
  abbrev pub update_at : List A → ℕ → (A → A) → List A
  update_at [] i f = []
  update_at (x ∷ xs) zero f = f x ∷ xs
  update_at (x ∷ xs) (suc i) f = x ∷ update_at xs i f

  pub modify_at-eq :
      (xs : List A) (i : ℕ) (f : A → A) → i < length xs → modify_at xs i f ≡ some (update_at xs i f)
  unfolding modify_at
  modify_at-eq [] i f h = elim h [ ]
  modify_at-eq (x ∷ xs) zero f h = refl
  modify_at-eq (x ∷ xs) (suc i) f h = rw (modify_at-eq xs i f (omega arith))

  pub length-update_at : (xs : List A) (i : ℕ) (f : A → A) → length (update_at xs i f) ≡ length xs
  length-update_at [] i f = refl
  length-update_at (x ∷ xs) zero f = refl
  length-update_at (x ∷ xs) (suc i) f = ap suc (length-update_at xs i f)

  pub get_elem?-update_at :
      (xs : List A) (i k : ℕ) (f : A → A)
      → get_elem? (update_at xs i f) k
        ≡ (if k == i then Option.map f (get_elem? xs k) else get_elem? xs k)
  get_elem?-update_at [] i k f = ground arith
  get_elem?-update_at (x ∷ xs) zero zero f = refl
  get_elem?-update_at (x ∷ xs) zero (suc k) f = ground arith
  get_elem?-update_at (x ∷ xs) (suc i) zero f = ground arith
  get_elem?-update_at (x ∷ xs) (suc i) (suc k) f = ground (arith, get_elem?-update_at xs i k f)

row_lt : (w x y y' : ℕ) → x < w → y < y' → y * w + x < y' * w
row_lt w x y y' p q = grind arith

not_row_lt : (w x y x' y' : ℕ) → x < w → y * w + x ≡ y' * w + x' → ¬ (y < y')
not_row_lt w x y x' y' p e q = omega (arith, row_lt w x y y' p q)

-- Different cells have different indices.
pub index_injective :
    (w x y x' y' : ℕ) → x < w → x' < w → y * w + x ≡ y' * w + x' → (x ≡ x') × (y ≡ y')
index_injective w x y x' y' p q e =
    let e' : y ≡ y' = omega (arith, not_row_lt w x y x' y' p e, not_row_lt w x' y' x y q (sym e)) in
    (omega (arith, ap (λ (t : ℕ). t * w) e'), e')

pub index_bound : (w h x y : ℕ) → x < w → y < h → y * w + x < w * h
index_bound w h x y p q = grind arith

mul_bound : (a b c d : ℕ) → a ≤ c → b ≤ d → a * b ≤ c * d
mul_bound a b c d p q = grind arith

-- On a map of the sizes that a header can hold, the unsigned sum does not wrap.
pub cell_index-eq : (w x y : ℕ) → w < 2 ^ 16 → x < w → y < 2 ^ 16 → cell_index w x y ≡ y * w + x
cell_index-eq w x y hw hx hy = omega (arith, mul_bound y w 65535 65535 (omega arith) (omega arith))

-- The rounds `(x', y')` that the nested loops over `h` rows have made when they reach `(x, y)`.
abbrev pub done : ℕ → ℕ → ℕ → ℕ → ℕ → Bool
done h x y x' y' = ltb x' x && ltb y' h || x' == x && ltb y' y

-- The cells when the loops reach `(x, y)`: those passed are updated, the others as before.
module _ (stride rows h : ℕ) (f : ℕ → ℕ → Cell → Cell) (base : List Cell) where
  abbrev pub Passed : ℕ → ℕ → List Cell → Type 0
  Passed x y cells =
      (length cells ≡ length base)
      × ((x' y' : ℕ)
          → x' < stride
          → y' < rows
          → get_elem? cells (cell_index stride x' y') ≡ (
              if done h x y x' y'
              then Option.map (f x' y') (get_elem? base (cell_index stride x' y'))
              else get_elem? base (cell_index stride x' y')))

module _ (stride rows w h : ℕ) (g : ℕ → ℕ → Option Write) (f : ℕ → ℕ → Cell → Cell)
    (base : List Cell) (room : stride * rows ≤ length base) (stride_small : stride < 2 ^ 16)
    (rows_small : rows < 2 ^ 16) (w-le : w ≤ stride) (h-le : h ≤ rows)
    (computed : (x y : ℕ) → x < w → y < h → g x y ≡ some (cell_index stride x y, f x y)) where
  index_eq : (x y : ℕ) → x < stride → y < rows → cell_index stride x y ≡ y * stride + x
  index_eq x y p q = cell_index-eq stride x y stride_small p (omega arith)

  same_index :
      (x y x' y' : ℕ)
      → x < stride
      → y < rows
      → x' < stride
      → y' < rows
      → (cell_index stride x' y' == cell_index stride x y) ≡ (x' == x && y' == y)
  same_index x y x' y' p q p' q' =
      rw (index_eq x y p q, index_eq x' y' p' q')
        (ground (
          arith,
          λ (e : y' * stride + x' ≡ y * stride + x). index_injective stride x' y' x y p' p e,
        ))

  -- One round: the write is within the allocation and touches no other cell.
  round :
      (x y : ℕ) (cells : List Cell)
      → x < w
      → y < h
      → Passed stride rows h f base x y cells
      → Returns (g x y >>= write cells) (Passed stride rows h f base x (suc y))
  round x y cells p q (len, at) =
      let i = cell_index stride x y in
      let bound : i < length cells =
        rw (index_eq x y (omega arith) (omega arith), len)
          (omega (arith, index_bound stride rows x y (omega arith) (omega arith))) in
      (
        update_at cells i (f x y),
        rw (computed x y p q) (modify_at-eq cells i (f x y) bound),
        (
          length-update_at cells i (f x y) ∙ len,
          λ x' y' p' q'.
              rw
                (
                  get_elem?-update_at,
                  same_index x y x' y' (omega arith) (omega arith) p' q',
                  at x' y' p' q',
                )
                (ground arith),
        ),
      )

  column :
      (x : ℕ) (cells : List Cell)
      → x < w
      → Passed stride rows h f base x 0 cells
      → Returns
          (for_range h 0 (λ y cells. g x y >>= write cells) cells)
          (Passed stride rows h f base (suc x) 0)
  column x cells p before =
      let (after, e, (len, at)) =
        for_range_from_zero (Passed stride rows h f base x) h (λ y cells. g x y >>= write cells)
          (λ y cells q. round x y cells p q) cells before in
      (after, e, (len, λ x' y' p' q'. rw (at x' y' p' q') (ground arith)))

  -- The loops run to their end and update exactly the cells of the `w` by `h` corner.
  pub for_cells_lem : Returns (for_cells w h g base) (λ cells.
      (length cells ≡ length base)
      × ((x' y' : ℕ)
          → x' < stride
          → y' < rows
          → get_elem? cells (cell_index stride x' y') ≡ (
              if ltb x' w && ltb y' h
              then Option.map (f x' y') (get_elem? base (cell_index stride x' y'))
              else get_elem? base (cell_index stride x' y'))))
  unfolding for_cells
  for_cells_lem =
      let (after, e, (len, at)) =
        for_range_from_zero (λ x. Passed stride rows h f base x 0) w
          (λ x. for_range h 0 λ y cells. g x y >>= write cells) column base
          (refl, λ x' y' p q. ground arith) in
      (after, e, (len, λ x' y' p' q'. rw (at x' y' p' q') (ground arith)))
