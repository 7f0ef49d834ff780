-- ===== src/Game/Input.antt =====
-- A player's input: `coregame_set_player_input`, `coregame_set_player_input_t` and
-- `coregame_get_player_input` of lib/coregame/src/coregame.c. The input is a byte of flags.
pub mod Late
use Prim.Native.Nat.{bit_and, bit_or}
use wa_game.Prelude.{
  ℕ, suc, ◌+◌, Bool, true, false, not, ◌||◌, ◌&&◌, Option, none, some, ◌==◌, ltb, if◌then◌else◌,
  get_elem?, ◌>>=◌,
}
use wa_game.Prelude.Int.{pos}
use wa_game.Platform.{Platform, Floats, FloatOps}
use wa_game.Vec.{Vec, vec_norm}
use wa_game.Map.{modify_at, u32}
use wa_game.Game.{
  input_up, input_down, input_right, input_left, input_shoot, move_input, gun_input, Player,
  PlayerSnapshot, GameSnapshot, Sbsm,
}
use wa_game.Game.Snapshots.{sbsm_lookup, player_to_snapshot, new_player_snapshot}

-- `input & flag`, as a truth value
abbrev pub has_flag : ℕ → ℕ → Bool
has_flag input flag = not (bit_and input flag == 0)

module _ (platform : Platform) where
  open platform use {ght, floats}
  open floats use {F32, F64, s, d, widen, narrow}

  abbrev zero_f : F32
  zero_f = s.of_ℤ (pos 0)

  -- `x -= 1.0` and `x += 1.0`
  abbrev less_one : F32 → F32
  less_one x = narrow (d.sub (widen x) (d.of_ℤ (pos 1)))

  abbrev plus_one : F32 → F32
  plus_one x = narrow (d.add (widen x) (d.of_ℤ (pos 1)))

  -- One coordinate of the direction: down by a flag, then up by another.
  abbrev axis : Bool → Bool → F32
  axis minus plus =
      let x = (if minus then less_one zero_f else zero_f) in if plus then plus_one x else x

  unfoldable pub set_player_input : Player platform → ℕ → Player platform
  set_player_input player input =
      let dir_vec : Vec floats = record {
        x = axis (has_flag input input_left) (has_flag input input_right);
        y = axis (has_flag input input_up) (has_flag input input_down);
      } in
      record player {
        dir = vec_norm floats dir_vec;
        shoot = has_flag input input_shoot;
        input = input;
      }

  pub get_player_input : Player platform → ℕ
  get_player_input player =
      let x = player.dir.x in
      let y = player.dir.y in
      let right =
        (if s.lt zero_f x
          then bit_or 0 input_right
          else if s.lt x zero_f
          then bit_or 0 input_left
          else 0) in
      let down = (if s.lt zero_f y then bit_or right input_down else right) in
      let up = (if s.lt y zero_f then bit_or down input_up else down) in
      if player.shoot then bit_or up input_shoot else up

  -- The new input in a player's snapshot.
  abbrev pub with_input : ℕ → PlayerSnapshot platform → PlayerSnapshot platform
  with_input input ps = record ps {
    dirty_move = not (bit_and ps.input move_input == bit_and input move_input);
    dirty_gun = not (bit_and ps.input gun_input == bit_and input gun_input);
    input = input;
    dirty = true;
    dirty_count = u32 (ps.dirty_count + 1);
  }

  -- The oldest snapshot with a change, when the one at `index` has changed.
  abbrev pub older : Sbsm platform → ℕ → F64 → Option ℕ → Option (Option ℕ)
  older sbsm index time none = some (some index)
  older sbsm index time (some j) = do
    old ← get_elem? sbsm.snapshots j
    some (if d.lt time old.timestamp then some index else some j)

  abbrev pub write_input :
      ght.Table (PlayerSnapshot platform)
      → PlayerSnapshot platform
      → ℕ
      → ℕ
      → GameSnapshot platform
      → GameSnapshot platform
  write_input states ps id input old = record old {
    dirty = true;
    player_states = ght.write states id (with_input input ps);
  }

  -- The end of `coregame_set_player_input_t`: the state table and value of the player in the snapshot
  -- `ss` at `index`.
  unfoldable pub apply_input :
      Sbsm platform
      → ℕ
      → GameSnapshot platform
      → ght.Table (PlayerSnapshot platform)
      → PlayerSnapshot platform
      → ℕ
      → ℕ
      → Option (Sbsm platform)
  apply_input sbsm index ss states ps id input = do
    oldest ← older sbsm index ss.timestamp sbsm.oldest_change
    snapshots ← modify_at sbsm.snapshots index (write_input states ps id input)
    some (record sbsm { snapshots = snapshots; oldest_change = oldest })

  -- An input that changes nothing only marks the snapshot.
  abbrev mark_dirty : Sbsm platform → ℕ → Option (Sbsm platform)
  mark_dirty sbsm index = do
    snapshots ← modify_at sbsm.snapshots index λ old. record old { dirty = true }
    some (record sbsm { snapshots = snapshots })

  -- The test for an early return at the player's state in the snapshot.
  abbrev pub unheeded : ℕ → Option (PlayerSnapshot platform) → Bool
  unheeded input none = false
  unheeded input (some ps) = ps.input == input || ltb 1 ps.dirty_count

  -- With the player's state in the snapshot, or NULL.
  unfoldable pub put_input :
      Sbsm platform
      → ℕ
      → GameSnapshot platform
      → Player platform
      → ℕ
      → Option (PlayerSnapshot platform)
      → Option (Sbsm platform)
  put_input sbsm index ss player input none = do
    ps ← player_to_snapshot platform (new_player_snapshot platform player.id) player
    apply_input sbsm index ss (ght.insert ss.player_states player.id ps) ps player.id input
  put_input sbsm index ss player input (some ps) =
      if unheeded input (some ps)
      then mark_dirty sbsm index
      else apply_input sbsm index ss ss.player_states ps player.id input

  pub set_player_input_t :
      Sbsm platform → Player platform → ℕ → F64 → Option (Sbsm platform × Player platform)
  set_player_input_t sbsm player input timestamp = do
    index ← sbsm_lookup platform sbsm timestamp
    ss ← get_elem? sbsm.snapshots index
    let taken = (do
      sbsm' ← put_input sbsm index ss player input (ght.get ss.player_states player.id)
      some (sbsm', record player { last_input_timestamp = ss.timestamp }))
    if d.lt ss.timestamp player.last_input_timestamp then some (sbsm, player) else taken
