-- ===== src/Map/Disk/Load.antt =====
-- `cg_map_load_disk` on the image of a map: the first loop puts the stored cells back.
use wa_game.Prelude.{
  ℕ, zero, suc, ◌+◌, ◌*◌, ◌/◌, ◌%◌, ◌<◌, ◌≡◌, refl, ap, ◌∙◌, arith, true, Option, none, some, List,
  [], ◌∷◌, ◌==◌, ltb, if◌then◌else◌, get_elem?, length, for_range, ◌>>=◌, Bool-cases, inl, inr,
  Returns,
}
use native.Mathlib.Nat.{mod-lt, div-add-mod', div-lt_iff_lt-mul}
use wa_game.Map.{Cell, DiskCell, RuntimeMap, cell_index, u16, runtime_map_at}
use wa_game.Map.Cells.{
  update_at, modify_at-eq, length-update_at, get_elem?-update_at, cell_index-eq,
}
use wa_game.Map.Disk.{load_cell, from_disk}
use wa_game.Map.Disk.Save.{Suffix, Suffix-head, Suffix-tail, stored, stored_cell}
use wa_game.Map.Resize.{IsValid, IsBlank, length-blank}

-- The first loop as a recursion on the disk cells.
abbrev pub load_list : List DiskCell → RuntimeMap → Option RuntimeMap
load_list [] r = some r
load_list (d ∷ ds) r = load_cell (d ∷ []) 0 r >>= load_list ds

load_cell-eq :
    (disk : List DiskCell) (i : ℕ) (d : DiskCell) (r : RuntimeMap)
    → get_elem? disk i ≡ some d
    → load_cell disk i r ≡ load_cell (d ∷ []) 0 r
unfolding load_cell
load_cell-eq disk i d r e = rw e

bind_congr :
    {A B : Type 0} (o : Option A) {f g : A → Option B}
    → ((a : A) → f a ≡ g a)
    → (o >>= f) ≡ (o >>= g)
bind_congr none h = refl
bind_congr (some a) h = h a

pub load_list-eq :
    (disk ds : List DiskCell) (i : ℕ) (r : RuntimeMap)
    → Suffix disk i ds
    → for_range (length ds) i (load_cell disk) r ≡ load_list ds r
unfolding for_range
load_list-eq disk [] i r s = refl
load_list-eq disk (d ∷ ds) i r s = rw (load_cell-eq disk i d r (Suffix-head disk i d ds s)) (
    bind_congr (load_cell (d ∷ []) 0 r)
      (λ r'. load_list-eq disk ds (suc i) r' (Suffix-tail disk i d ds s)))

pub lt_of_get_elem? :
    {A : Type 0} (xs : List A) (k : ℕ) {a : A} → get_elem? xs k ≡ some a → k < length xs
lt_of_get_elem? [] k e = cc
lt_of_get_elem? (x ∷ xs) zero e = omega arith
lt_of_get_elem? (x ∷ xs) (suc k) e = omega (arith, lt_of_get_elem? xs k e)

width_pos : (w h k : ℕ) → k < w * h → 0 < w
width_pos zero h k p = absurd (omega arith)
width_pos (suc w) h k p = omega arith

-- The column and the row of an index.
coords : (w h k : ℕ) → k < w * h → (k % w < w) × (k / w < h) × (k / w * w + k % w ≡ k)
coords w h k p = (
  mod-lt k (width_pos w h k p),
  (div-lt_iff_lt-mul (width_pos w h k p)).1 (omega arith),
  div-add-mod' k w,
)

pub runtime_map_at-some :
    (r : RuntimeMap) (x y : ℕ)
    → x < r.w
    → y < r.h
    → runtime_map_at r x y ≡ some (cell_index r.w x y)
unfolding runtime_map_at
runtime_map_at-some r x y p q = ground arith

pub bind_Returns :
    {A B : Type 0} {P : A → Type 0} {Q : B → Type 0} {o : Option A} {f : A → Option B}
    → Returns o P
    → ((a : A) → P a → Returns (f a) Q)
    → Returns (o >>= f) Q
bind_Returns {f = f} (a, e, p) h = rw e (h a p)

pub bind_split :
    {A B : Type 0} (o : Option A) (f : A → Option B) (b : B)
    → o >>= f ≡ some b
    → (a : A) × (o ≡ some a) × (f a ≡ some b)
bind_split none f b e = absurd (ground arith)
bind_split (some a) f b e = (a, refl, e)

module _ (m : RuntimeMap) (v : IsValid m) where
  pub index_lt : (k : ℕ) (c : Cell) → get_elem? m.cells k ≡ some c → k < m.w * m.h
  index_lt k c e = omega (arith, lt_of_get_elem? m.cells k e, v.room)

  same_place :
      (k i x y : ℕ) (c c' : Cell)
      → get_elem? m.cells k ≡ some c
      → get_elem? m.cells i ≡ some c'
      → i ≡ k
      → c'.pos.x ≡ x
      → c'.pos.y ≡ y
      → (c.pos.x ≡ x) × (c.pos.y ≡ y)
  same_place k i x y c c' e e' same px py = ground arith

  located :
      (k : ℕ) (c : Cell)
      → get_elem? m.cells k ≡ some c
      → (x y : ℕ) → x < m.w
      → y < m.h
      → y * m.w + x ≡ k
      → (c' : Cell) × (get_elem? m.cells (cell_index m.w x y) ≡ some c')
        × (c'.pos.x ≡ x)
        × (c'.pos.y ≡ y)
      → (c.pos.x < m.w) × (c.pos.y < m.h) × (cell_index m.w c.pos.x c.pos.y ≡ k)
  located k c e x y p q at (c', e', px, py) =
      let i-eq : cell_index m.w x y ≡ k =
        cell_index-eq m.w x y v.w_small p (omega (arith, v.h_small)) ∙ at in
      let (ex, ey) = same_place k (cell_index m.w x y) x y c c' e e' i-eq px py in
      (rw ex p, rw ey q, rw (ex, ey) i-eq)

  -- The position of the cell with index `k`.
  pub placed_at :
      (k : ℕ) (c : Cell)
      → get_elem? m.cells k ≡ some c
      → (c.pos.x < m.w) × (c.pos.y < m.h) × (cell_index m.w c.pos.x c.pos.y ≡ k)
  placed_at k c e =
      let (x-lt, y-lt, at) = coords m.w m.h k (index_lt k c e) in
      located k c e (k % m.w) (k / m.w) x-lt y-lt at (v.placed (k % m.w) (k / m.w) x-lt y-lt)

  -- A cell as it is in the loaded map when the cells below index `i` are back.
  abbrev pub seen : ℕ → ℕ → Cell → Cell
  seen i k c = record { pos = c.pos; type = if ltb k i then c.type else 0; contents = none }

  abbrev with_seen : Cell → ℕ → Option Cell
  with_seen c t = some (record { pos = c.pos; type = t; contents = none })

  -- The loaded map when the cells below index `i` are back.
  pub record Loaded (i : ℕ) (r : RuntimeMap) : Type 0 where
    pub w_eq : r.w ≡ m.w
    pub h_eq : r.h ≡ m.h
    pub grid_eq : r.grid_size ≡ u16 m.grid_size
    pub room : length r.cells ≡ m.w * m.h
    pub cells_eq :
        (k : ℕ) (c : Cell) → get_elem? m.cells k ≡ some c → get_elem? r.cells k ≡ some (seen i k c)

  pub blank-Loaded : {r : RuntimeMap} → IsBlank m.w m.h (u16 m.grid_size) r → Loaded 0 r
  blank-Loaded b = record {
    w_eq = b.w_eq;
    h_eq = b.h_eq;
    grid_eq = b.grid_eq;
    room = length-blank b;
    cells_eq = λ k c e.
        let (p, q, at) = placed_at k c e in
        (rw at at (b.blank c.pos.x c.pos.y p q)) ∙ ap (with_seen c) (ground arith);
  }

  skip-Loaded :
      (i : ℕ) (c : Cell) (r : RuntimeMap)
      → get_elem? m.cells i ≡ some c
      → (c.type == 0) ≡ true
      → Loaded i r
      → Loaded (suc i) r
  skip-Loaded i c r e z l = record {
    w_eq = l.w_eq;
    h_eq = l.h_eq;
    grid_eq = l.grid_eq;
    room = l.room;
    cells_eq = λ k d ek. l.cells_eq k d ek ∙ ap (with_seen d) (ground arith);
  }

  pointer-eq :
      (i : ℕ) (c : Cell) (r : RuntimeMap)
      → get_elem? m.cells i ≡ some c
      → Loaded i r
      → runtime_map_at r c.pos.x c.pos.y ≡ some i
  pointer-eq i c r e l =
      let (p, q, at) = placed_at i c e in
      let p' : c.pos.x < r.w = rw l.w_eq p in
      let q' : c.pos.y < r.h = rw l.h_eq q in
      runtime_map_at-some r c.pos.x c.pos.y p' q' ∙ ap (λ (k : ℕ). some k) (rw l.w_eq at)

  put-Loaded :
      (i : ℕ) (c : Cell) (r : RuntimeMap)
      → get_elem? m.cells i ≡ some c
      → Loaded i r
      → Returns (load_cell (stored_cell c ∷ []) 0 r) (Loaded (suc i))
  unfolding load_cell
  put-Loaded i c r e l =
      let cells = update_at r.cells i (from_disk (stored_cell c)) in
      (
        record r { cells = cells },
        rw
            (
              pointer-eq i c r e l,
              modify_at-eq r.cells i (from_disk (stored_cell c))
                  (omega (arith, l.room, index_lt i c e)),
            )
            refl,
        record {
          w_eq = l.w_eq;
          h_eq = l.h_eq;
          grid_eq = l.grid_eq;
          room = length-update_at r.cells i (from_disk (stored_cell c)) ∙ l.room;
          cells_eq = λ k d ek.
              get_elem?-update_at r.cells i k (from_disk (stored_cell c))
              ∙ rw (l.cells_eq k d ek) (ground arith);
        },
      )

  -- Loading the stored cells from index `i` on puts every cell back.
  pub load_list-Loaded :
      (cs : List Cell) (i : ℕ) (r : RuntimeMap)
      → Suffix m.cells i cs
      → Loaded i r
      → Returns (load_list (stored cs) r) (Loaded (i + length cs))
  load_list-Loaded [] i r s l = let e : i ≡ i + 0 = omega arith in (r, refl, rw (e) at l)
  load_list-Loaded (c ∷ cs) i r s l =
      let e : suc i + length cs ≡ i + suc (length cs) = omega arith in
      let at = Suffix-head m.cells i c cs s in
      let tail = Suffix-tail m.cells i c cs s in
      elim (Bool-cases (c.type == 0)) [
        | inl z ↦ rw (z, ← e) (load_list-Loaded cs (suc i) r tail (skip-Loaded i c r at z l))
        | inr z ↦
            rw (z, ← e)
              (bind_Returns (put-Loaded i c r at l)
                (λ r' l'. load_list-Loaded cs (suc i) r' tail l'))
      ]
