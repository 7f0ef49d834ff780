-- ===== src/Server/Spawn/Cycle.antt =====
-- Spawn points are taken in turn.
use wa_game.Prelude.{
  ℕ, zero, suc, ◌+◌, ◌%◌, ◌^◌, ◌<◌, ◌≡◌, refl, sym, ap, ◌∙◌, arith, Option, some, get_elem?,
  get_elem?-some, length, ◌>>=◌, Returns, List, [], ◌∷◌,
}
use wa_game.Platform.{Platform}
use wa_game.Map.{Cell, u32}
use wa_game.Vec.{Vec}
use native.Mathlib.Decide.{dec_lt}
use native.Mathlib.Nat.{mod-add-mod, mod-eq_of_lt, mod_self, mod-mod}
use wa_game.Server.{Server}
use wa_game.Server.Spawn.{next_spawn, next_idx, spawn_pos}

next_idx_lem :
    (count i : ℕ)
    → i < count
    → count < 2 ^ 32
    → (next_idx count i < count) × (next_idx count i ≡ (i + 1) % count)
next_idx_lem count i p q =
    let whole : u32 (i + 1) ≡ i + 1 = omega arith in
    elim (dec_lt (i + 1) count) [
      | yes in' ↦ rw (whole, mod-eq_of_lt in') (ground arith)
      | no out ↦
          let last : i + 1 ≡ count = omega arith in rw (whole, last, mod_self count) (ground arith)
    ]

-- `k` spawns, one after the other, with the positions that they give.
abbrev pub spawn_times :
    (platform : Platform)
    → ℕ
    → Server platform
    → Option (List (Vec platform.floats) × Server platform)
spawn_times platform zero server = some ([], server)
spawn_times platform (suc k) server = do
  (at, server') ← next_spawn platform server
  (more, server'') ← spawn_times platform k server'
  some (at ∷ more, server'')

module _ (platform : Platform) where
  -- Each spawn point is a cell of the map, and the index is at one of them.
  pub record IsReady (server : Server platform) : Type 0 where
    pub idx_in : server.spawn_idx < length server.spawn_points
    pub few : length server.spawn_points < 2 ^ 32
    pub cells_in :
        (i p : ℕ)
        → get_elem? server.spawn_points i ≡ some p
        → (cell : Cell) × (get_elem? server.game.map.cells p ≡ some cell)

  -- The result of a spawn: the position of the cell at the index, and the index of the next.
  pub record Spawned (server : Server platform) (r : Vec platform.floats × Server platform)
      : Type 0 where
    pub ready : IsReady r.1
    pub idx_eq : r.1.spawn_idx ≡ (server.spawn_idx + 1) % length server.spawn_points
    pub points_eq : r.1.spawn_points ≡ server.spawn_points
    pub game_eq : r.1.game ≡ server.game
    pub p : ℕ
    pub cell : Cell
    pub point : get_elem? server.spawn_points server.spawn_idx ≡ some p
    pub cell_at : get_elem? server.game.map.cells p ≡ some cell
    pub pos_eq : r.0 ≡ spawn_pos platform server.game.map.grid_size cell

  -- On a server whose spawn index is at one of its spawn points, all of them cells of the map and
  -- fewer than 2^32, a spawn does not fault; it gives the position of the cell at the index,
  -- moves the index to the next point in turn, and leaves the server ready again.
  pub next_spawn-Spawned :
      (server : Server platform)
      → IsReady server
      → Returns (next_spawn platform server) (Spawned server)
  unfolding next_spawn
  next_spawn-Spawned server ready =
      let (p, point) = get_elem?-some server.spawn_points server.spawn_idx ready.idx_in in
      let (cell, at) = ready.cells_in server.spawn_idx p point in
      let next = next_idx (length server.spawn_points) server.spawn_idx in
      let (small, turn) =
        next_idx_lem (length server.spawn_points) server.spawn_idx ready.idx_in ready.few in
      (
        (spawn_pos platform server.game.map.grid_size cell, record server { spawn_idx = next }),
        rw (point, at) refl,
        record {
          ready = record { idx_in = small; few = ready.few; cells_in = ready.cells_in };
          idx_eq = turn;
          points_eq = refl;
          game_eq = refl;
          p = p;
          cell = cell;
          point = point;
          cell_at = at;
          pos_eq = refl;
        },
      )

stay : (i n : ℕ) → i < n → i + 0 < n
stay i n h = omega arith

plus_one : (i : ℕ) → suc i ≡ i + 1
plus_one i = omega arith

next_mod : (n i j : ℕ) → i % n ≡ j % n → suc i % n ≡ suc j % n
next_mod n i j e =
    ap (λ (m : ℕ). m % n) (plus_one i)
    ∙ sym (mod-add-mod i n 1)
    ∙ ap (λ (m : ℕ). (m + 1) % n) e
    ∙ mod-add-mod j n 1
    ∙ ap (λ (m : ℕ). m % n) (sym (plus_one j))

-- The positions are those of the cells at the spawn points from an index on, taken in turn.
abbrev pub AreInTurn :
    (platform : Platform) → Server platform → ℕ → List (Vec platform.floats) → Type 0
AreInTurn platform server i [] = Unit
AreInTurn platform server i (at ∷ more) =
    ((p : ℕ) × (cell : Cell) × (get_elem? server.spawn_points (i % length server.spawn_points)
        ≡ some p)
      × (get_elem? server.game.map.cells p ≡ some cell)
      × (at ≡ spawn_pos platform server.game.map.grid_size cell))
    × AreInTurn platform server (suc i) more

-- The turn goes by the spawn points and the map, and by the index modulo their number.
AreInTurn-same :
    (platform : Platform) (a b : Server platform) (i j : ℕ) (ats : List (Vec platform.floats))
    → a.spawn_points ≡ b.spawn_points
    → a.game ≡ b.game
    → i % length b.spawn_points ≡ j % length b.spawn_points
    → AreInTurn platform a i ats
    → AreInTurn platform b j ats
AreInTurn-same platform a b i j [] ps gs is turns = tt
AreInTurn-same platform a b i j (at ∷ more) ps gs is ((p, cell, point, here, pos_eq), turns) = (
  (p, cell, rw (← is, ← ps) point, rw (← gs) here, rw (← gs) pos_eq),
  AreInTurn-same platform a b (suc i) (suc j) more ps gs (next_mod (length b.spawn_points) i j is)
      turns,
)

-- On a server whose spawn index is at one of its spawn points, all of them cells of the map and
-- fewer than 2^32, any number of spawns, one after the other, run without a fault and give as
-- many positions, each that of the cell at the next spawn point in turn, beginning at the index
-- and going around; the server is ready again, its spawn points are as they were, and its index
-- has moved on by the number of spawns, modulo the number of spawn points.
pub next_spawn_again :
    (platform : Platform) (k : ℕ) (server : Server platform)
    → IsReady platform server
    → Returns (spawn_times platform k server) (λ r.
      AreInTurn platform server server.spawn_idx r.0
      × (length r.0 ≡ k)
      × IsReady platform r.1
      × (r.1.spawn_points ≡ server.spawn_points)
      × (r.1.spawn_idx ≡ (server.spawn_idx + k) % length server.spawn_points))
next_spawn_again platform zero server ready = (
  ([], server),
  refl,
  (
    tt,
    refl,
    ready,
    refl,
    ap (λ (n : ℕ). n) (omega arith)
        ∙ sym (mod-eq_of_lt (stay server.spawn_idx (length server.spawn_points) ready.idx_in)),
  ),
)
next_spawn_again platform (suc k) server ready =
    let (r, e, s) = next_spawn-Spawned platform server ready in
    let ((ats, after), f, (turns, count, ready', points, idx)) =
      next_spawn_again platform k r.1 s.ready in
    let n = length server.spawn_points in
    let first : get_elem? server.spawn_points (server.spawn_idx % n) ≡ some s.p =
      rw (mod-eq_of_lt ready.idx_in) s.point in
    let shift : r.1.spawn_idx % n ≡ suc server.spawn_idx % n =
      rw (s.idx_eq) (mod-mod (server.spawn_idx + 1) n ∙ ap (λ (m : ℕ). m % n) (omega arith)) in
    (
      (r.0 ∷ ats, after),
      rw (e, f) refl,
      (
        (
          (s.p, s.cell, first, s.cell_at, s.pos_eq),
          AreInTurn-same platform r.1 server r.1.spawn_idx (suc server.spawn_idx) ats s.points_eq
              s.game_eq shift turns,
        ),
        ap suc count,
        ready',
        points ∙ s.points_eq,
        idx
            ∙ rw (s.points_eq, s.idx_eq)
                (mod-add-mod (server.spawn_idx + 1) (length server.spawn_points) k
                  ∙ ap (λ (n : ℕ). n % length server.spawn_points) (omega arith)),
      ),
    )
