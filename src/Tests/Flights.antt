-- ===== src/Tests/Flights.antt =====
-- A bullet on a map of a free cell and a block, under the theorems on the walk, the flight and the
-- replay.
use wa_game.Prelude.{
  ◌>>=◌, ℕ, zero, suc, ◌<◌, ◌≡◌, ◌≢◌, refl, subst, ◌==◌, arith, true, false, none, some, [], ◌∷◌,
  get_elem?, mem, inl, inr, Returns, Bool-cases,
}
use wa_game.Prelude.Int.{pos}
use wa_game.Platform.Models.{machine, arrays, arrays-IsArray, ght, ght-IsGht, floats}
use wa_game.Map.{Cell, RuntimeMap, cell_index}
use wa_game.Map.Resize.{IsValid}
use wa_game.Vec.{Vec}
use wa_game.Game.{Player, Bullet, Game}
use wa_game.Game.Cells.Undo.{Without}
use wa_game.Game.Walk.{player_get_cells}
use wa_game.Game.Walk.Cover.{AreCells, player_get_cells-AreCells}
use wa_game.Game.Players.{add_player, free_player}
use wa_game.Game.Players.Leave.{free_player-add_player}
use wa_game.Game.Rotation.Ring.{IsRing}
use wa_game.Game.Walk.{get_cells_2points}
use wa_game.Game.Walk.Ends.{Passed, get_cells_2points-Passed}
use wa_game.Game.Bullets.{Damaged}
use wa_game.Game.Bullets.Answering.{AllThere, IsSafe, AllSafe}
use wa_game.Game.Bullets.Landing.{Landed, update_bullet-Landed}
use wa_game.Game.Replay.{rewind_from, out_of_fuel}
use wa_game.Game.Replay.Ends.{rewind_from-Ended}
use wa_game.Server.{Server}
use wa_game.Server.Handlers.Damage.Answers.{damaged_by, IsServed, damaged_by-IsAnswering}
use wa_game.Tests.Servers.{server}
use wa_game.Tests.Games.{game, player, ring-IsRing, snapshot}

abbrev free : Cell
free = record { pos = record { x = 0; y = 0 }; type = 0; contents = some (7 ∷ []) }

abbrev block : Cell
block = record { pos = record { x = 1; y = 0 }; type = 1; contents = none }

abbrev yard : RuntimeMap
yard = record { w = 2; h = 1; grid_size = 16; editor_mode = false; cells = free ∷ block ∷ [] }

yard-placed :
    (x y : ℕ)
    → x < 2
    → y < 1
    → (c : Cell) × (get_elem? yard.cells (cell_index 2 x y) ≡ some c)
      × (c.pos.x ≡ x)
      × (c.pos.y ≡ y)
yard-placed zero zero p q = (free, refl, refl, refl)
yard-placed (suc zero) zero p q = (block, refl, refl, refl)
yard-placed (suc (suc x)) y p q = absurd (omega arith)
yard-placed x (suc y) p q = absurd (omega arith)

yard-IsValid : IsValid yard
yard-IsValid = record {
  w_small = omega arith;
  h_small = omega arith;
  room = refl;
  placed = yard-placed;
}

abbrev near : Vec floats
near = record { x = pos 3; y = pos 2 }

abbrev far : Vec floats
far = record { x = pos 30; y = pos 5 }

get_cells_2points-Passed_example :
    Returns
      (get_cells_2points arrays floats 4 yard near far [])
      (Passed arrays floats arrays-IsArray yard yard-IsValid 4)
get_cells_2points-Passed_example =
    get_cells_2points-Passed arrays floats arrays-IsArray yard yard-IsValid near far

abbrev bullet : Bullet machine
bullet = record {
  id = 1;
  owner_id = 9;
  r = record { pos = near; size = near };
  dir = near;
  velocity = near;
  dmg = pos 5;
  gun_id = 1;
  cells = [];
  collided = false;
  contact_point = near;
}

abbrev shooter : Player machine
shooter = record player { id = 9 }

abbrev duel : Game machine
duel = record game {
  map = yard;
  players = (7, player) ∷ (9, shooter) ∷ [];
  bullets = (1, bullet) ∷ [];
}

-- The server of the duel, whose one spawn point is the free cell, with its callback on damage.
abbrev arena : Server machine
arena = record server { game = duel; spawn_points = 0 ∷ []; spawn_idx = 0 }

abbrev damaged : Damaged machine
damaged = damaged_by machine arena 0

arena-cells :
    (i p : ℕ) → get_elem? (0 ∷ []) i ≡ some p → (cell : Cell) × (get_elem? yard.cells p ≡ some cell)
arena-cells zero p e = let here : 0 ≡ p = ground arith in (free, rw (← here) refl)
arena-cells (suc i) p e = absurd (ground arith)

duel-keyed : (id : ℕ) (p : Player machine) → ght.get duel.players id ≡ some p → p.id ≡ id
duel-keyed id p e = elim (Bool-cases (id == 7)) [
  | inl same ↦
      let eq : some player ≡ some p = rw same at e in
      let v : player ≡ p = cc in rw (← v) (ground arith)
  | inr other ↦ elim (Bool-cases (id == 9)) [
    | inl same ↦
        let eq : some shooter ≡ some p = rw (other, same) at e in
        let v : shooter ≡ p = cc in rw (← v) (ground arith)
    | inr none' ↦ let eq : none ≡ some p = rw (other, none') at e in absurd (cc)
  ]
]

duel-IsServed : IsServed machine arena duel
duel-IsServed = record {
  keyed = duel-keyed;
  ring = ring-IsRing;
  ready = record { idx_in = omega arith; few = omega arith; cells_in = arena-cells };
}

is_seven : (id : ℕ) → mem id (7 ∷ []) ≡ true → id == 7 ≡ true
is_seven id m = ground arith

seven_there : AllThere machine duel (7 ∷ [])
seven_there id m = (player, rw (is_seven id m) refl)

duel-IsSafe : (p : ℕ) (cell : Cell) → get_elem? yard.cells p ≡ some cell → IsSafe machine duel cell
duel-IsSafe zero cell e =
    let here : free ≡ cell = ground arith in
    subst (IsSafe machine duel) here (inr (7 ∷ [], refl, seven_there))
duel-IsSafe (suc zero) cell e =
    let here : block ≡ cell = ground arith in subst (IsSafe machine duel) here (inl refl)
duel-IsSafe (suc (suc p)) cell e = absurd (ground arith)

update_bullet-Landed_example : Landed machine ght-IsGht damaged duel bullet
update_bullet-Landed_example =
    update_bullet-Landed machine ght-IsGht damaged arrays-IsArray (IsServed machine arena)
      (λ g good. good.ring) (damaged_by-IsAnswering machine ght-IsGht arena 0) duel bullet
      yard-IsValid duel-IsServed duel-IsSafe refl refl

duel-AllSafe : AllSafe machine duel (0 ∷ 1 ∷ [])
duel-AllSafe zero m = (free, refl, duel-IsSafe 0 free refl)
duel-AllSafe (suc zero) m = (block, refl, duel-IsSafe 1 block refl)
duel-AllSafe (suc (suc p)) m = absurd (ground arith)

rewind_from-Ended_example : rewind_from machine 2 damaged duel 0 (snapshot 0) ≢ out_of_fuel
rewind_from-Ended_example = rewind_from-Ended machine damaged duel 0 (snapshot 0) ring-IsRing

-- The map with cells so large that a new player covers one.
abbrev field : RuntimeMap
field = record yard { grid_size = 160 }

field-IsValid : IsValid field
field-IsValid = record {
  w_small = omega arith;
  h_small = omega arith;
  room = refl;
  placed = yard-placed;
}

abbrev match_game : Game machine
match_game = record game { map = field }

not_in_field :
    (p : ℕ) (cell : Cell)
    → get_elem? field.cells p ≡ some cell
    → Without arrays arrays-IsArray 9 cell
not_in_field zero cell e =
    let here : free ≡ cell = ground arith in
    subst (Without arrays arrays-IsArray 9) here (λ open'. (7 ∷ [], refl, refl))
not_in_field (suc zero) cell e =
    let here : block ≡ cell = ground arith in
    subst (Without arrays arrays-IsArray 9) here (λ open'. absurd (not_open open'))
  where
    not_open : (block.type == 1) ≡ false → ⊥
    not_open e = ground arith
not_in_field (suc (suc p)) cell e = absurd (ground arith)

free_player-add_player_example :
    Returns
      (add_player machine match_game (97 ∷ []) >>= λ (r : Game machine × Player machine).
        free_player machine r.0 r.1)
      (λ game'.
        ((k : ℕ) → get_elem? game'.map.cells k ≡ get_elem? field.cells k)
        × ((id : ℕ) → ght.get game'.players id ≡ ght.get match_game.players id)
        × IsRing machine game'.sbsm)
free_player-add_player_example =
    free_player-add_player machine arrays-IsArray ght-IsGht match_game (97 ∷ []) field-IsValid
      (λ e. absurd (omega (arith, e))) ring-IsRing refl not_in_field

player_get_cells-AreCells_example :
    Returns
      (player_get_cells arrays floats field near near far)
      (AreCells arrays floats arrays-IsArray field field-IsValid)
player_get_cells-AreCells_example =
    player_get_cells-AreCells arrays floats arrays-IsArray field field-IsValid near near far
      (λ e. absurd (omega (arith, e)))
