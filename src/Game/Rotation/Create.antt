-- ===== src/Game/Rotation/Create.antt =====
-- `sbsm_create`: which sizes give a ring. The server asks for a quarter of its tick rate.
use wa_game.Prelude.{ℕ, ◌≤◌, ◌≡◌, refl, ◌∙◌, arith, false, none, ◌==◌, length-replicate, Returns}
use native.Mathlib.Nat.{mod-eq_of_lt}
use wa_game.Platform.{Platform}
use wa_game.Map.Disk.Load.{bind_Returns}
use wa_game.Game.Snapshots.{next_index}
use wa_game.Game.Rotation.{empty_snapshot, state_backfilling, new_ring, sbsm_rotate, sbsm_create}
use wa_game.Game.Rotation.Ring.{IsRing, sbsm_rotate-room}

module _ (platform : Platform) where
  open platform use {floats}

  new_ring-IsRing :
      (size : ℕ) (interval : floats.F64)
      → 2 ≤ size
      → IsRing platform (new_ring platform size interval)
  unfolding new_ring
  new_ring-IsRing size interval h = record {
    room = length-replicate size (empty_snapshot platform);
    base_in = omega arith;
    present_in = omega arith;
  }

  first_index : (size : ℕ) → 2 ≤ size → (next_index size 0 ≡ 1) × ((next_index size 0 == 0) ≡ false)
  first_index size h = ground arith

  -- Creating a ring of two or more snapshots does not fault, and gives a ring of that size with
  -- the base at 0 and the present at 1.
  pub sbsm_create-IsRing :
      (size : ℕ) (interval : floats.F64)
      → 2 ≤ size
      → Returns (sbsm_create platform size interval) (λ sbsm.
        IsRing platform sbsm × (sbsm.size ≡ size) × (sbsm.base_idx ≡ 0) × (sbsm.present_idx ≡ 1))
  unfolding sbsm_create new_ring
  sbsm_create-IsRing size interval h =
      let (one, room) = first_index size h in
      bind_Returns
        (sbsm_rotate-room platform none (new_ring platform size interval)
          (new_ring-IsRing size interval h) room)
        (λ r (rot, base).
          (r.1, refl, (rot.ring, rot.same_size, base, rot.present_eq ∙ mod-eq_of_lt h)))

  -- A ring with no room is written outside its allocation.
  pub sbsm_create_empty : (interval : floats.F64) → sbsm_create platform 0 interval ≡ none
  unfolding sbsm_create sbsm_rotate new_ring state_backfilling
  sbsm_create_empty interval = refl
