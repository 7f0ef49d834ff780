-- ===== src/Game/Cells/Undo.antt =====
-- Taking a player out of the cells undoes putting the player in.
use wa_game.Prelude.{
  distinct-tail, ℕ, suc, ◌+◌, ◌≡◌, refl, sym, ap, ◌∙◌, arith, Bool, true, false, Option, some, List,
  [], ◌∷◌, ◌++◌, ◌==◌, if◌then◌else◌, get_elem?, length, mem, distinct, take, drop, ◌>>=◌, Returns,
  Bool-cases, inl, inr,
}
use mathlib.Core.Option
use wa_game.Platform.{ArrayApi, IsArray}
use wa_game.Map.{Cell, cell_block}
use wa_game.Map.Cells.{update_at, modify_at-eq, get_elem?-update_at}
use wa_game.Map.Disk.Load.{lt_of_get_elem?}
use wa_game.Prelude.{==-self}
use wa_game.Game.Cells.{
  unless_block, each_cell, erase_from, remove_player_from_cell, remove_self_from_cells,
  add_into_cells,
}

abbrev in_cell : (List ℕ → List ℕ) → Cell → Cell
in_cell f cell =
    if cell.type == cell_block then cell else record cell { contents = Option.map f cell.contents }

-- The cell has a list unless it is a block.
abbrev pub Listed : Cell → Type 0
Listed cell = (cell.type == cell_block) ≡ false → (xs : List ℕ) × (cell.contents ≡ some xs)

unless_block-eq :
    (f : List ℕ → List ℕ) (cell : Cell) → Listed cell → unless_block f cell ≡ some (in_cell f cell)
unless_block-eq f cell h = elim (Bool-cases (cell.type == cell_block)) [
  | inl block ↦ rw block refl
  | inr open' ↦ let (xs, e) = h open' in rw (open', e) refl
]

apart : (p q : ℕ) (ps : List ℕ) → mem p ps ≡ false → mem q ps ≡ true → (q == p) ≡ false
apart p q ps d m = elim (Bool-cases (q == p)) [
  | inl same ↦ let e : q ≡ p = ground arith in absurd (clash (mem p ps) d (rw e at m))
  | inr other ↦ other
]
  where
    clash : (b : Bool) → b ≡ false → b ≡ true → ⊥
    clash b e f = ground arith

update_seen :
    (f : List ℕ → List ℕ) (p k : ℕ) (ps : List ℕ) (cell : Cell) (before after : Option Cell)
    → mem p ps ≡ false
    → (k ≡ p → before ≡ some cell)
    → after ≡ (if k == p then Option.map (λ _. in_cell f cell) before else before)
    → (if mem k ps then Option.map (in_cell f) after else after)
      ≡ (if mem k (p ∷ ps) then Option.map (in_cell f) before else before)
update_seen f p k ps cell before after out at e = elim (Bool-cases (k == p)) [
  | inl same ↦
      let k-eq : k ≡ p = ground arith in
      let gone : mem k ps ≡ false = rw k-eq out in rw (e, same, gone, at k-eq) refl
  | inr other ↦ rw (e, other) refl
]

-- What the loop does to the map, cell by cell.
each_cell-at :
    (f : List ℕ → List ℕ) (ps : List ℕ) (cells : List Cell)
    → distinct ps ≡ true
    → ((p : ℕ) → mem p ps ≡ true → (cell : Cell) × (get_elem? cells p ≡ some cell) × Listed cell)
    → Returns (each_cell f ps cells) (λ cells'.
      (k : ℕ)
      → get_elem? cells' k
        ≡ (if mem k ps then Option.map (in_cell f) (get_elem? cells k) else get_elem? cells k))
unfolding each_cell
each_cell-at f [] cells d h = (cells, refl, λ k. refl)
each_cell-at f (p ∷ ps) cells d h =
    let (cell, at, listed) = h p (rw (==-self p) refl) in
    let cells1 = update_at cells p (λ _. in_cell f cell) in
    let step : (k : ℕ)
        → get_elem? cells1 k ≡ (
            if k == p
            then Option.map (λ _. in_cell f cell) (get_elem? cells k)
            else get_elem? cells k) =
      λ k. get_elem?-update_at cells p k (λ _. in_cell f cell) in
    let (out, rest) = distinct-tail p ps d in
    let still : (q : ℕ) → mem q ps ≡ true → (c : Cell) × (get_elem? cells1 q ≡ some c) × Listed c =
      λ q m.
        let other = apart p q ps out m in
        let (c, e, l) = h q (rw (other, m) refl) in (c, step q ∙ rw other e, l) in
    let (cells', e, at') = each_cell-at f ps cells1 rest still in
    (
      cells',
      rw
          (
            at,
            unless_block-eq f cell listed,
            modify_at-eq cells p (λ _. in_cell f cell) (lt_of_get_elem? cells p at),
          )
          e,
      λ k.
          at' k
          ∙ update_seen f p k ps cell (get_elem? cells k) (get_elem? cells1 k) out
              (λ same. rw same at) (step k),
    )

take-all :
    (xs : List ℕ) (id : ℕ)
    → take (length xs) (xs ++ (id ∷ [])) ++ drop (suc (length xs)) (xs ++ (id ∷ [])) ≡ xs
take-all [] id = refl
take-all (x ∷ xs) id = rw (take-all xs id)

in_cell-block :
    (f : List ℕ → List ℕ) (cell : Cell) → (cell.type == cell_block) ≡ true → in_cell f cell ≡ cell
in_cell-block f cell block = ground arith

in_cell-open :
    (f : List ℕ → List ℕ) (cell : Cell) (xs : List ℕ)
    → (cell.type == cell_block) ≡ false
    → cell.contents ≡ some xs
    → in_cell f cell ≡ record cell { contents = some (f xs) }
in_cell-open f cell xs open' e = rw (open', e) refl

both : (b : Bool) → b ≡ true → b ≡ false → ⊥
both b e f = ground arith

module _ (arrays : ArrayApi) (laws : IsArray arrays) (id : ℕ) where
  erase_from-last :
      (contents : List ℕ) (i : ℕ) (ys : List ℕ)
      → mem id ys ≡ false
      → erase_from arrays id contents i (ys ++ (id ∷ [])) ≡ arrays.erase contents (i + length ys)
  unfolding erase_from
  erase_from-last contents i [] d =
      rw (==-self id) (ap (λ j. arrays.erase contents j) (omega arith))
  erase_from-last contents i (y ∷ ys) d =
      let (other, rest) = not_first y ys d in
      let next : i + 1 + length ys ≡ i + suc (length ys) = omega arith in
      rw other (erase_from-last contents (i + 1) ys rest ∙ ap (λ j. arrays.erase contents j) next)
    where
      not_first :
          (y : ℕ) (ys : List ℕ)
          → mem id (y ∷ ys) ≡ false
          → ((y == id) ≡ false) × (mem id ys ≡ false)
      not_first y ys d = ground arith

  remove_player_from_cell-add :
      (xs : List ℕ) → mem id xs ≡ false → remove_player_from_cell arrays id (arrays.add xs id) ≡ xs
  unfolding remove_player_from_cell
  remove_player_from_cell-add xs d =
      rw
        (
          laws.add_lem xs id,
          erase_from-last (xs ++ (id ∷ [])) 0 xs d,
          laws.erase_lem (xs ++ (id ∷ [])) (0 + length xs),
        )
        (ap (λ n. take n (xs ++ (id ∷ [])) ++ drop (suc n) (xs ++ (id ∷ []))) (omega arith)
          ∙ take-all xs id)

  -- The cell has a list, unless it is a block, and the player is not in it.
  abbrev pub Without : Cell → Type 0
  Without cell =
      (cell.type == cell_block) ≡ false
      → (xs : List ℕ) × (cell.contents ≡ some xs) × (mem id xs ≡ false)

  abbrev added : List ℕ → List ℕ
  added contents = arrays.add contents id

  added-Listed : (cell : Cell) → Without cell → Listed (in_cell added cell)
  added-Listed cell w = elim (Bool-cases (cell.type == cell_block)) [
    | inl block ↦
        rw (in_cell-block added cell block) (λ o. absurd (both (cell.type == cell_block) block o))
    | inr open' ↦
        let (xs, e, _) = w open' in rw (in_cell-open added cell xs open' e) (λ _. (added xs, refl))
  ]

  in_cell-back :
      (cell : Cell)
      → Without cell
      → in_cell (remove_player_from_cell arrays id) (in_cell added cell) ≡ cell
  in_cell-back cell w = elim (Bool-cases (cell.type == cell_block)) [
    | inl block ↦
        rw (in_cell-block added cell block)
          (in_cell-block (remove_player_from_cell arrays id) cell block)
    | inr open' ↦
        let (xs, e, d) = w open' in
        rw (in_cell-open added cell xs open' e) (
          in_cell-open (remove_player_from_cell arrays id)
            (record cell { contents = some (added xs) }) (added xs) open' refl
          ∙ ap (λ (ys : List ℕ). record cell { contents = some ys })
              (remove_player_from_cell-add xs d)
          ∙ ap (λ (o : Option (List ℕ)). record cell { contents = o }) (sym e))
  ]

  -- Putting a player into different cells of the map, each of them a block or with a list in
  -- which the player is not, and then taking the player out of them does not fault and leaves
  -- every cell as it was; arrays append what is added and erase one place.
  pub remove_self_from_cells-add_into_cells :
      (ps : List ℕ) (cells : List Cell)
      → distinct ps ≡ true
      → ((p : ℕ) → mem p ps ≡ true → (cell : Cell) × (get_elem? cells p ≡ some cell) × Without cell)
      → Returns
          (add_into_cells arrays id ps cells >>= remove_self_from_cells arrays id ps)
          (λ cells'. (k : ℕ) → get_elem? cells' k ≡ get_elem? cells k)
  unfolding add_into_cells remove_self_from_cells
  remove_self_from_cells-add_into_cells ps cells d h =
      let listed : (p : ℕ)
          → mem p ps ≡ true
          → (c : Cell) × (get_elem? cells p ≡ some c) × Listed c =
        λ p m. let (c, e, w) = h p m in (c, e, λ o. let (xs, f, _) = w o in (xs, f)) in
      let (cells1, e1, at1) = each_cell-at added ps cells d listed in
      let listed1 : (p : ℕ)
          → mem p ps ≡ true
          → (c : Cell) × (get_elem? cells1 p ≡ some c) × Listed c =
        λ p m.
          let (c, e, w) = h p m in (in_cell added c, at1 p ∙ rw (m, e) refl, added-Listed c w) in
      let (cells2, e2, at2) =
        each_cell-at (remove_player_from_cell arrays id) ps cells1 d listed1 in
      (
        cells2,
        rw e1 e2,
        λ k. at2 k ∙ elim (Bool-cases (mem k ps)) [
          | inl m ↦ let (c, e, w) = h k m in rw (at1 k, m, e) (ap some (in_cell-back c w))
          | inr m ↦ rw (m, at1 k, m) refl
        ],
      )
