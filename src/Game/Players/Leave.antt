-- ===== src/Game/Players/Leave.antt =====
-- A player who joins and leaves at once leaves no trace (lib/coregame/src/coregame.c).
use wa_game.Prelude.{
  ℕ, zero, suc, ◌+◌, ◌<◌, ◌≡◌, ◌≢◌, refl, sym, ◌∙◌, arith, none, some, List, ◌==◌, get_elem?,
  get_elem?-some, length, ◌>>=◌, Returns, Bool-cases, inl, inr, eq_of_test,
}
use wa_game.Platform.{Platform, IsGht, IsArray}
use wa_game.Map.{Cell, u32}
use wa_game.Map.Cells.{update_at, modify_at-eq, length-update_at}
use wa_game.Map.Disk.Load.{bind_split}
use wa_game.Map.Resize.{IsValid}
use wa_game.Game.{Player, Game, GameSnapshot, Sbsm}
use wa_game.Game.Cells.{add_into_cells, remove_self_from_cells}
use wa_game.Game.Cells.Undo.{Without, remove_self_from_cells-add_into_cells}
use wa_game.Game.Walk.Cover.{player_get_cells-AreCells}
use wa_game.Game.Snapshots.{sbsm_index, next_index, drop_player, delete_from, delete_player}
use wa_game.Game.Rotation.Ring.{IsRing, next_index-lt}
use wa_game.Game.Players.{add_player, add_player_from, new_player, do_free_player, free_player}
use native.Mathlib.Nat.{mod-lt}

module _ (platform : Platform) where
  open platform use {arrays, ght, floats}

  delete_from-length :
      (left size id index : ℕ) (snapshots : List (GameSnapshot platform))
      → length snapshots ≡ size
      → index < size
      → Returns (delete_from platform left size id index snapshots) (λ s. length s ≡ size)
  unfolding delete_from
  delete_from-length zero size id index snapshots room q = (snapshots, refl, room)
  delete_from-length (suc left) size id index snapshots room q =
      rw (modify_at-eq snapshots index (drop_player platform id) (omega (arith, room, q))) (
        delete_from-length left size id (next_index size index)
          (update_at snapshots index (drop_player platform id))
          (length-update_at snapshots index (drop_player platform id) ∙ room)
          (next_index-lt platform size index q))

  pub delete_player-IsRing :
      (sbsm : Sbsm platform) (id : ℕ)
      → IsRing platform sbsm
      → Returns (delete_player platform sbsm id) (IsRing platform)
  unfolding delete_player sbsm_index
  delete_player-IsRing sbsm id ring =
      let (base, e) =
        get_elem?-some sbsm.snapshots sbsm.base_idx (omega (arith, ring.room, ring.base_in)) in
      let index = sbsm_index platform sbsm base.timestamp in
      let (snapshots, e', room) =
        delete_from-length sbsm.size sbsm.size id index sbsm.snapshots ring.room
          (mod-lt _ (omega (arith, ring.base_in))) in
      (
        record sbsm { snapshots = snapshots },
        rw (e, e') refl,
        record { room = room; base_in = ring.base_in; present_in = ring.present_in },
      )

  module _ (laws : IsArray arrays) (tables : IsGht ght) where
    leave-players :
        (t : ght.Table (Player platform)) (id j : ℕ) (p p' : Player platform)
        → ght.get t id ≡ none
        → ght.get (ght.del (ght.write (ght.insert t id p) id p') id) j ≡ ght.get t j
    leave-players t id j p p' fresh = elim (Bool-cases (j == id)) [
      | inl same ↦
          let eq : j ≡ id = eq_of_test j id same in
          rw (tables.get-del (ght.write (ght.insert t id p) id p') id j, same, eq) (sym fresh)
      | inr other ↦
          rw
            (
              tables.get-del (ght.write (ght.insert t id p) id p') id j,
              other,
              tables.get-write (ght.insert t id p) id j p',
              other,
              tables.get-insert t id j p fresh,
              other,
            )
            refl
    ]

    -- In a game with a valid map, a grid size that is not 0, a ring in order, and where the next
    -- player id is not in the table nor in the list of any cell, and each cell is a block or has
    -- a list, a player who is added and freed at once leaves every cell and the table of players
    -- as they were and the ring in order, and nothing faults; tables and arrays obey their laws.
    pub free_player-add_player :
        (game : Game platform) (name : List ℕ)
        → IsValid game.map
        → game.map.grid_size ≢ 0
        → IsRing platform game.sbsm
        → ght.get game.players (u32 (game.player_id_seq + 1)) ≡ none
        → ((p : ℕ) (cell : Cell)
            → get_elem? game.map.cells p ≡ some cell
            → Without arrays laws (u32 (game.player_id_seq + 1)) cell)
        → Returns
            (add_player platform game name >>= λ (r : Game platform × Player platform).
              free_player platform r.0 r.1)
            (λ game'.
              ((k : ℕ) → get_elem? game'.map.cells k ≡ get_elem? game.map.cells k)
              × ((id : ℕ) → ght.get game'.players id ≡ ght.get game.players id)
              × IsRing platform game'.sbsm)
    unfolding add_player add_player_from free_player do_free_player
    free_player-add_player game name valid grid ring fresh without =
        let id = u32 (game.player_id_seq + 1) in
        let player = new_player platform id name in
        let (cells, e, all) =
          player_get_cells-AreCells arrays floats laws game.map valid player.pos player.velocity
            player.size grid in
        let (back, undone, same) =
          remove_self_from_cells-add_into_cells arrays laws id cells game.map.cells all.different
            λ p m.
              let (cell, at) = get_elem?-some game.map.cells p (all.inside p m) in
              (cell, at, without p cell at) in
        let (entered, e1, e2) =
          bind_split (add_into_cells arrays id cells game.map.cells)
            (remove_self_from_cells arrays id cells) back undone in
        let (sbsm, e3, ring') = delete_player-IsRing game.sbsm id ring in
        rw (e, e1, e3, e2)
          (
            _,
            refl,
            (
              same,
              (λ j. leave-players game.players id j player (record player { cells = cells }) fresh),
              ring',
            ),
          )
