-- ===== src/Server/Spawn.antt =====
-- server/src/server.c, `server_next_spawn`, and the search for spawn points in `server_init_coregame`
-- of server/src/server_init.c. A spawn point is a pointer to a cell of the map, so its index.
pub mod Found
pub mod Cycle
use wa_game.Prelude.{
  ℕ, ◌+◌, ◌*◌, ◌==◌, if◌then◌else◌, Option, none, some, List, [], leb, get_elem?, length, for_range,
  ◌>>=◌,
}
use wa_game.Prelude.Int.{pos}
use wa_game.Platform.{Platform}
use wa_game.Vec.{Vec}
use wa_game.Map.{Cell, RuntimeMap, cell_spawn, runtime_map_at, u32}
use wa_game.Server.{Server}

-- The index after `spawn_idx`.
abbrev next_idx : ℕ → ℕ → ℕ
next_idx count i = if leb count (u32 (i + 1)) then 0 else u32 (i + 1)

module _ (platform : Platform) where
  open platform use {arrays, floats}

  -- A round of the search.
  abbrev look_at : RuntimeMap → ℕ → ℕ → List ℕ → Option (List ℕ)
  look_at map x y points = do
    p ← runtime_map_at map x y
    cell ← get_elem? map.cells p
    some (if cell.type == cell_spawn then arrays.add points p else points)

  unfoldable pub find_spawns : RuntimeMap → Option (List ℕ)
  find_spawns map = for_range map.w 0 (λ x. for_range map.h 0 (look_at map x)) []

  abbrev pub spawn_pos : ℕ → Cell → Vec floats
  spawn_pos grid_size cell =
      let to_float = λ (n : ℕ). floats.s.of_ℤ (pos n) in
      record {
        x = to_float (u32 (cell.pos.x * grid_size));
        y = to_float (u32 (cell.pos.y * grid_size));
      }

  unfoldable pub next_spawn : Server platform → Option (Vec floats × Server platform)
  next_spawn server = do
    p ← get_elem? server.spawn_points server.spawn_idx
    cell ← get_elem? server.game.map.cells p
    some (
      spawn_pos server.game.map.grid_size cell,
      record server { spawn_idx = next_idx (length server.spawn_points) server.spawn_idx },
    )
