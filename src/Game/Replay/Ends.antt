-- ===== src/Game/Replay/Ends.antt =====
-- The loop of `sbsm_rewind` (lib/coregame/src/sbsm.c) walks the ring up to its present snapshot.
use wa_game.Prelude.{
  ℕ, zero, suc, ◌+◌, ◌-◌, ◌<◌, ◌≤◌, ◌≡◌, ◌≢◌, refl, arith, Bool, true, false, Option, none, some,
  ◌==◌, leb, if◌then◌else◌,
}
use native.Mathlib.Nat.{mod-lt}
use wa_game.Platform.{Platform}
use wa_game.Game.{Game, GameSnapshot}
use wa_game.Game.Snapshots.{sbsm_index, next_index}
use wa_game.Game.Rotation.Ring.{IsRing, next_index-lt}
use wa_game.Game.Bullets.{Damaged}
use wa_game.Game.Replay.{
  Run, out_of_fuel, after_round, guarded, goes_on, rewind_round, rewind_loop, rewind_from,
}

-- How many steps of the ring lead from one index to another.
abbrev steps : ℕ → ℕ → ℕ → ℕ
steps size at present = if leb at present then present - at else present + size - at

steps-next :
    (size at present : ℕ)
    → at < size
    → present < size
    → at == present ≡ false
    → steps size (next_index size at) present + 1 ≤ steps size at present
steps-next size at present p q e = ground arith

steps-lt : (size at present : ℕ) → at < size → present < size → steps size at present < size
steps-lt size at present p q = ground arith

module _ (platform : Platform) where
  guarded-Ended :
      (game : Game platform) (o : Option Bool) (body : Run platform)
      → body ≢ out_of_fuel
      → guarded platform game o body ≢ out_of_fuel
  guarded-Ended game none body h = λ e. ground arith
  guarded-Ended game (some true) body h = h
  guarded-Ended game (some false) body h = λ e. ground arith

  after_round-Ended :
      (on : Game platform → Run platform) (last : Bool) (o : Option (Game platform))
      → (last ≡ false → (game : Game platform) → on game ≢ out_of_fuel)
      → after_round platform on last o ≢ out_of_fuel
  after_round-Ended on last none h = λ e. ground arith
  after_round-Ended on true (some game) h = λ e. ground arith
  after_round-Ended on false (some game) h = h refl game

  rewind_loop-Ended :
      (fuel : ℕ) (damaged : Damaged platform) (size present : ℕ) (game : Game platform) (at : ℕ)
      → at < size
      → present < size
      → steps size at present < fuel
      → rewind_loop platform fuel damaged size present game at ≢ out_of_fuel
  unfolding rewind_loop
  rewind_loop-Ended zero damaged size present game at p q h = absurd (omega arith)
  rewind_loop-Ended (suc fuel) damaged size present game at p q h =
      guarded-Ended game (goes_on platform game present at) _ (
        after_round-Ended _ (at == present) (rewind_round platform damaged game at) λ e game'.
          rewind_loop-Ended fuel damaged size present game' (next_index size at)
            (next_index-lt platform size at p) q (omega (arith, steps-next size at present p q e)))

  -- With a ring in order, the replay from any of its snapshots ends within as many rounds after
  -- the first as the ring has snapshots, whatever the rounds do to the game.
  pub rewind_from-Ended :
      (damaged : Damaged platform) (game : Game platform) (at : ℕ) (gss : GameSnapshot platform)
      → IsRing platform game.sbsm
      → rewind_from platform game.sbsm.size damaged game at gss ≢ out_of_fuel
  unfolding sbsm_index
  rewind_from-Ended damaged game at gss ring =
      let size = game.sbsm.size in
      let present = game.sbsm.present_idx in
      let index = sbsm_index platform game.sbsm gss.timestamp in
      let index_in : index < size = mod-lt _ (omega (arith, ring.present_in)) in
      let next_in = next_index-lt platform size index index_in in
      guarded-Ended game (goes_on platform game present at) _ (
        after_round-Ended _ (at == present) (rewind_round platform damaged game at) λ _ game'.
          rewind_loop-Ended size damaged size present game' (next_index size index) next_in
            ring.present_in (steps-lt size (next_index size index) present next_in ring.present_in))
