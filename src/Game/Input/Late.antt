-- ===== src/Game/Input/Late.antt =====
-- An input that arrives late is put into the snapshot of its time, and the game is run anew from
-- the oldest such snapshot.
use wa_game.Prelude.{
  ℕ, ◌≡◌, ◌≢◌, refl, ◌∙◌, true, false, Option, none, some, ◌==◌, get_elem?, Returns, Bool-cases,
  inl, inr,
}
use wa_game.Platform.{Platform, IsGht}
use wa_game.Map.Cells.{update_at, modify_at-eq, get_elem?-update_at}
use wa_game.Map.Disk.Load.{bind_Returns, lt_of_get_elem?}
use wa_game.Game.{freed, GameSnapshot, PlayerSnapshot, Sbsm, Player}
use wa_game.Game.Input.{
  older, with_input, write_input, unheeded, apply_input, put_input, set_player_input_t,
}
use wa_game.Game.Snapshots.{sbsm_lookup, new_player_snapshot}
use wa_game.Prelude.{==-self}
use wa_game.Game.Snapshots.Commit.{player_to_snapshot-Records}

module _ (platform : Platform) where
  open platform use {ght, floats}

  -- The oldest changed snapshot is not newer than the one at `time`.
  pub data NotAfter (sbsm : Sbsm platform) (time : floats.F64) : Option ℕ → Type 0 where
    covered :
        (j : ℕ) (old : GameSnapshot platform)
        → get_elem? sbsm.snapshots j ≡ some old
        → floats.d.lt time old.timestamp ≡ false
        → NotAfter sbsm time (some j)

  -- The pointer to the oldest change is NULL or points into the ring.
  abbrev pub OldestIn : Sbsm platform → Option ℕ → Type 0
  OldestIn sbsm none = Unit {0}
  OldestIn sbsm (some j) = (old : GameSnapshot platform) × (get_elem? sbsm.snapshots j ≡ some old)

  older-NotAfter :
      (sbsm : Sbsm platform) (index : ℕ) (ss : GameSnapshot platform) (o : Option ℕ)
      → get_elem? sbsm.snapshots index ≡ some ss
      → floats.d.lt ss.timestamp ss.timestamp ≡ false
      → OldestIn sbsm o
      → Returns (older platform sbsm index ss.timestamp o) (NotAfter sbsm ss.timestamp)
  older-NotAfter sbsm index ss none e irr v = (_, refl, covered index ss e irr)
  older-NotAfter sbsm index ss (some j) e irr (old, at) =
      elim (Bool-cases (floats.d.lt ss.timestamp old.timestamp)) [
        | inl before ↦ rw (at, before) (_, refl, covered index ss e irr)
        | inr after ↦ rw (at, after) (_, refl, covered j old at after)
      ]

  -- The player's state in a snapshot asks for this input.
  pub record Asks (states : ght.Table (PlayerSnapshot platform)) (id input : ℕ) : Type 0 where
    pub ps : PlayerSnapshot platform
    pub stored : ght.get states id ≡ some ps
    pub input_eq : ps.input ≡ input
    pub dirty : ps.dirty ≡ true

  -- What an accepted input leaves.
  pub record Accepted (sbsm : Sbsm platform) (index id input : ℕ) (time : floats.F64)
      (sbsm' : Sbsm platform) : Type 0 where
    pub oldest : NotAfter sbsm time sbsm'.oldest_change
    pub ss : GameSnapshot platform
    pub at : get_elem? sbsm'.snapshots index ≡ some ss
    pub marked : ss.dirty ≡ true
    pub asks : Asks ss.player_states id input
    pub others :
        (k : ℕ) → (k == index) ≡ false → get_elem? sbsm'.snapshots k ≡ get_elem? sbsm.snapshots k

  module _ (laws : IsGht ght) (sbsm : Sbsm platform) (index : ℕ) (ss : GameSnapshot platform)
      (e : get_elem? sbsm.snapshots index ≡ some ss)
      (irr : floats.d.lt ss.timestamp ss.timestamp ≡ false)
      (valid : OldestIn sbsm sbsm.oldest_change) where
    apply_input-Accepted :
        (states : ght.Table (PlayerSnapshot platform)) (ps q : PlayerSnapshot platform)
        (id input : ℕ)
        → ght.get states id ≡ some q
        → Returns
            (apply_input platform sbsm index ss states ps id input)
            (Accepted sbsm index id input ss.timestamp)
    unfolding apply_input
    apply_input-Accepted states ps q id input got =
        let (oldest, eo, covers) = older-NotAfter sbsm index ss sbsm.oldest_change e irr valid in
        let f = write_input platform states ps id input in
        (
          (record sbsm { snapshots = update_at sbsm.snapshots index f; oldest_change = oldest }),
          rw (eo, modify_at-eq sbsm.snapshots index f (lt_of_get_elem? sbsm.snapshots index e))
              refl,
          record {
            oldest = covers;
            ss = f ss;
            at = get_elem?-update_at sbsm.snapshots index index f ∙ rw (==-self index, e) refl;
            marked = refl;
            asks = record {
              ps = with_input platform input ps;
              stored =
                  laws.get-write states id id (with_input platform input ps)
                  ∙ rw (==-self id, got) refl;
              input_eq = refl;
              dirty = refl;
            };
            others = λ k h. get_elem?-update_at sbsm.snapshots index k f ∙ rw h refl;
          },
        )

    put_input-Accepted :
        (player : Player platform) (input : ℕ) (o : Option (PlayerSnapshot platform))
        → ght.get ss.player_states player.id ≡ o
        → player.gun ≢ freed
        → unheeded platform input o ≡ false
        → Returns
            (put_input platform sbsm index ss player input o)
            (Accepted sbsm index player.id input ss.timestamp)
    unfolding put_input
    put_input-Accepted player input none got ok new =
        bind_Returns
          (player_to_snapshot-Records platform player (new_player_snapshot platform player.id) ok)
          (λ ps _.
            apply_input-Accepted (ght.insert ss.player_states player.id ps) ps ps player.id input (
              laws.get-insert ss.player_states player.id player.id ps got
              ∙ rw (==-self player.id) refl))
    put_input-Accepted player input (some ps) got ok new =
        rw new (apply_input-Accepted ss.player_states ps ps player.id input got)

    -- An input whose time leads to a snapshot that is not before the last input, that is not the
    -- one the snapshot has and not a third change of it, of a player whose gun is not freed, is
    -- stored in that snapshot and in no other, marked; the last input time becomes that of the
    -- snapshot, and the oldest change is at a snapshot that is not after it. The table obeys its
    -- laws, no time is before itself, and the oldest change points into the ring.
    pub set_player_input_t-Accepted :
        (player : Player platform) (input : ℕ) (timestamp : floats.F64)
        → sbsm_lookup platform sbsm timestamp ≡ some index
        → floats.d.lt ss.timestamp player.last_input_timestamp ≡ false
        → player.gun ≢ freed
        → unheeded platform input (ght.get ss.player_states player.id) ≡ false
        → Returns (set_player_input_t platform sbsm player input timestamp) (λ r.
          Accepted sbsm index player.id input ss.timestamp r.0
          × (r.1.last_input_timestamp ≡ ss.timestamp))
    unfolding set_player_input_t
    set_player_input_t-Accepted player input timestamp looked fresh ok new =
        let (sbsm', ep, acc) =
          put_input-Accepted player input (ght.get ss.player_states player.id) refl ok new in
        (
          (sbsm', record player { last_input_timestamp = ss.timestamp }),
          rw (looked, e, ep, fresh) refl,
          (acc, refl),
        )
