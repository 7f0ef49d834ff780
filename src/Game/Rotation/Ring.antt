-- ===== src/Game/Rotation/Ring.antt =====
-- The ring of snapshots under `sbsm_rotate`.
use wa_game.Prelude.{
  ℕ, zero, suc, ◌+◌, ◌%◌, ◌<◌, ◌≡◌, refl, sym, ap, ◌∙◌, arith, false, Option, none, some, List, [],
  ◌∷◌, ◌==◌, if◌then◌else◌, get_elem?, get_elem?-some, length, Returns, Bool-cases, inl, inr,
}
use mathlib.Core.Option
use native.Mathlib.Decide.{dec_lt}
use native.Mathlib.Nat.{mod-eq_of_lt, mod_self}
use wa_game.Platform.{Platform}
use wa_game.Map.{u32}
use wa_game.Map.Cells.{update_at, modify_at-eq, length-update_at}
use wa_game.Map.Disk.Load.{bind_Returns}
use wa_game.Game.{Game, GameSnapshot, BulletSnapshot, Sbsm}
use wa_game.Game.Snapshots.{next_index}
use wa_game.Game.Rotation.{
  BulletFill, with_states, player_states_backfilling, fill_round, free_collided,
  do_bullet_backfilling, bullet_states_backfilling, state_backfilling, stamped, stamp_present,
  sbsm_rotate,
}

module _ (platform : Platform) where
  open platform use {ght, floats}

  -- A ring with room, whose two ends lie in it.
  pub record IsRing (sbsm : Sbsm platform) : Type 0 where
    pub room : length sbsm.snapshots ≡ sbsm.size
    pub base_in : sbsm.base_idx < sbsm.size
    pub present_in : sbsm.present_idx < sbsm.size

  -- When a snapshot was taken, and which one it was.
  abbrev pub label : GameSnapshot platform → floats.F64 × ℕ
  label ss = (ss.timestamp, ss.seq)

  abbrev pub labels : Sbsm platform → ℕ → Option (floats.F64 × ℕ)
  labels sbsm i = Option.map label (get_elem? sbsm.snapshots i)

  pub next_index-eq : (size i : ℕ) → i < size → next_index size i ≡ (i + 1) % size
  next_index-eq size i h = elim (dec_lt (i + 1) size) [
    | yes p ↦ rw (mod-eq_of_lt p) (ground arith)
    | no p ↦ let e : i + 1 ≡ size = omega arith in rw (e, mod_self size) (ground arith)
  ]

  pub next_index-lt : (size i : ℕ) → i < size → next_index size i < size
  next_index-lt size i h = ground arith

  -- While there is a game, the backfilling does not fault.
  abbrev Filled : BulletFill platform → Type 0
  Filled fill = (game : Game platform) × (fill.0 ≡ some game)

  round-Filled :
      (fill : BulletFill platform) (o : Option (BulletSnapshot platform))
      → Filled fill
      → Returns (fill_round platform fill o) Filled
  unfolding do_bullet_backfilling free_collided
  round-Filled fill none f = (fill, refl, f)
  round-Filled (none, new) (some bss) (game, e) = cc
  round-Filled (some cg, new) (some bss) f = elim (Bool-cases bss.collided) [
    | inl gone ↦ rw gone (_, refl, (_, refl))
    | inr here ↦ rw here (_, refl, f)
  ]

  bullets-Filled :
      (old : ght.Table (BulletSnapshot platform)) (ks : List ℕ) (fill : BulletFill platform)
      → Filled fill
      → Returns (bullet_states_backfilling platform old ks fill) Filled
  unfolding bullet_states_backfilling
  bullets-Filled old [] fill f = (fill, refl, f)
  bullets-Filled old (k ∷ ks) fill f =
      bind_Returns (round-Filled fill (ght.get old k) f)
        (λ fill' f'. bullets-Filled old ks fill' f')

  -- The labels of a list of snapshots.
  abbrev marks : List (GameSnapshot platform) → ℕ → Option (floats.F64 × ℕ)
  marks snapshots k = Option.map label (get_elem? snapshots k)

  -- An update that keeps the label keeps every label.
  marks-update :
      (snapshots : List (GameSnapshot platform)) (i k : ℕ)
      (f : GameSnapshot platform → GameSnapshot platform)
      → ((ss : GameSnapshot platform) → label (f ss) ≡ label ss)
      → marks (update_at snapshots i f) k ≡ marks snapshots k
  marks-update [] i k f h = refl
  marks-update (ss ∷ rest) zero zero f h = ap some (h ss)
  marks-update (ss ∷ rest) zero (suc k) f h = refl
  marks-update (ss ∷ rest) (suc i) zero f h = refl
  marks-update (ss ∷ rest) (suc i) (suc k) f h = marks-update rest i k f h

  -- What the backfilling may change: the states of one snapshot.
  record Backfilled (snapshots : List (GameSnapshot platform))
      (r : Option (Game platform) × List (GameSnapshot platform)) : Type 0 where
    filled : (game : Game platform) × (r.0 ≡ some game)
    same_length : length r.1 ≡ length snapshots
    same_marks : (k : ℕ) → marks r.1 k ≡ marks snapshots k

  backfilled :
      (game : Game platform) (snapshots : List (GameSnapshot platform)) (new_idx old_idx : ℕ)
      → new_idx < length snapshots
      → old_idx < length snapshots
      → Returns
          (state_backfilling platform (some game) snapshots new_idx old_idx)
          (Backfilled snapshots)
  unfolding state_backfilling
  backfilled game snapshots new_idx old_idx p q =
      let (old, eo) = get_elem?-some snapshots old_idx q in
      let (new, en) = get_elem?-some snapshots new_idx p in
      let (fill, ef, f) =
        bullets-Filled old.bullet_states (ght.keys old.bullet_states) (some game, new.bullet_states)
          (game, refl) in
      let players =
        player_states_backfilling platform old.player_states (ght.keys old.player_states)
          new.player_states in
      let store = with_states platform players fill.1 in
      (
        (fill.0, update_at snapshots new_idx store),
        rw (eo, en, ef, modify_at-eq snapshots new_idx store p) refl,
        record {
          filled = f;
          same_length = length-update_at snapshots new_idx store;
          same_marks = λ k. marks-update snapshots new_idx k store (λ _. refl);
        },
      )

  marks-stamped :
      (snapshots : List (GameSnapshot platform)) (i k : ℕ) (time : floats.F64) (seq : ℕ)
      → i < length snapshots
      → marks (update_at snapshots i (stamped platform time seq)) k
        ≡ (if k == i then some (time, seq) else marks snapshots k)
  marks-stamped [] i k time seq h = elim h [ ]
  marks-stamped (ss ∷ rest) zero zero time seq h = refl
  marks-stamped (ss ∷ rest) zero (suc k) time seq h = ground arith
  marks-stamped (ss ∷ rest) (suc i) zero time seq h = ground arith
  marks-stamped (ss ∷ rest) (suc i) (suc k) time seq h =
      ground (arith, marks-stamped rest i k time seq)

  -- What a rotation does to the ring.
  pub record Rotated (sbsm : Sbsm platform) (r : Option (Game platform) × Sbsm platform)
      : Type 0 where
    pub ring : IsRing r.1
    pub same_size : r.1.size ≡ sbsm.size
    pub present_eq : r.1.present_idx ≡ (sbsm.present_idx + 1) % sbsm.size
    pub base_eq : r.1.base_idx ≡ (
        if r.1.present_idx == sbsm.base_idx then (sbsm.base_idx + 1) % sbsm.size else sbsm.base_idx)
    pub labels_eq :
        (k : ℕ)
        → labels r.1 k ≡ (
            if k == r.1.present_idx
            then some (floats.d.add sbsm.time sbsm.interval_ms, sbsm.seq)
            else labels sbsm k)
    pub time_eq : r.1.time ≡ floats.d.add sbsm.time sbsm.interval_ms
    pub seq_eq : r.1.seq ≡ u32 (sbsm.seq + 1)

  -- The rotation, once the indices are set and the snapshots backfilled.
  stamp_present-Rotated :
      (sbsm : Sbsm platform) (cg : Option (Game platform)) (base : ℕ)
      (snapshots : List (GameSnapshot platform))
      → IsRing sbsm
      → length snapshots ≡ length sbsm.snapshots
      → ((k : ℕ) → marks snapshots k ≡ marks sbsm.snapshots k)
      → base < sbsm.size
      → base ≡ (
          if next_index sbsm.size sbsm.present_idx == sbsm.base_idx
          then (sbsm.base_idx + 1) % sbsm.size
          else sbsm.base_idx)
      → Returns
          (stamp_present platform cg (record sbsm {
            present_idx = next_index sbsm.size sbsm.present_idx;
            base_idx = base;
            snapshots = snapshots;
          }))
          (Rotated sbsm)
  unfolding stamp_present
  stamp_present-Rotated sbsm cg base snapshots ring len same base-lt base-eq =
      let i = next_index sbsm.size sbsm.present_idx in
      let i-lt : i < length snapshots =
        omega (arith, next_index-lt sbsm.size sbsm.present_idx ring.present_in, ring.room, len) in
      let time = floats.d.add sbsm.time sbsm.interval_ms in
      let out = record sbsm {
        present_idx = i;
        base_idx = base;
        snapshots = update_at snapshots i (stamped platform time sbsm.seq);
        time = time;
        seq = u32 (sbsm.seq + 1);
      } in
      (
        (cg, out),
        rw (modify_at-eq snapshots i (stamped platform time sbsm.seq) i-lt) refl,
        record {
          ring = record {
            room = length-update_at snapshots i (stamped platform time sbsm.seq) ∙ len ∙ ring.room;
            base_in = base-lt;
            present_in = next_index-lt sbsm.size sbsm.present_idx ring.present_in;
          };
          same_size = refl;
          present_eq = next_index-eq sbsm.size sbsm.present_idx ring.present_in;
          base_eq = base-eq;
          labels_eq = λ k. marks-stamped snapshots i k time sbsm.seq i-lt ∙ rw (same k) refl;
          time_eq = refl;
          seq_eq = refl;
        },
      )

  -- A rotation of a ring of snapshots, in a game, does not fault and leaves a ring of the same
  -- size: the present moves one on, the base moves one on just when the present would run into
  -- it, only the new present is stamped with the next time and number, and every other snapshot
  -- keeps its time and number.
  pub sbsm_rotate-Rotated :
      (game : Game platform) (sbsm : Sbsm platform)
      → IsRing sbsm
      → Returns (sbsm_rotate platform (some game) sbsm) (Rotated sbsm)
  unfolding sbsm_rotate
  sbsm_rotate-Rotated game sbsm ring =
      elim (Bool-cases (next_index sbsm.size sbsm.present_idx == sbsm.base_idx)) [
        | inl full ↦ rw full (
            bind_Returns
              (backfilled game sbsm.snapshots (next_index sbsm.size sbsm.base_idx) sbsm.base_idx
                (rw ring.room (next_index-lt sbsm.size sbsm.base_idx ring.base_in))
                (rw ring.room ring.base_in))
              (λ r b.
                stamp_present-Rotated sbsm r.0 (next_index sbsm.size sbsm.base_idx) r.1 ring
                  b.same_length b.same_marks (next_index-lt sbsm.size sbsm.base_idx ring.base_in)
                  (rw full (next_index-eq sbsm.size sbsm.base_idx ring.base_in))))
        | inr room ↦ rw room (
            stamp_present-Rotated sbsm (some game) sbsm.base_idx sbsm.snapshots ring refl
              (λ _. refl) ring.base_in (rw room refl))
      ]

  -- With room left in the ring no game is needed.
  pub sbsm_rotate-room :
      (cg : Option (Game platform)) (sbsm : Sbsm platform)
      → IsRing sbsm
      → (next_index sbsm.size sbsm.present_idx == sbsm.base_idx) ≡ false
      → Returns
          (sbsm_rotate platform cg sbsm)
          (λ r. Rotated sbsm r × (r.1.base_idx ≡ sbsm.base_idx))
  unfolding sbsm_rotate
  sbsm_rotate-room cg sbsm ring room =
      let (r, e, rot) =
        stamp_present-Rotated sbsm cg sbsm.base_idx sbsm.snapshots ring refl (λ _. refl)
          ring.base_in (rw room refl) in
      let opened : r.1.present_idx ≡ next_index sbsm.size sbsm.present_idx =
        rot.present_eq ∙ sym (next_index-eq sbsm.size sbsm.present_idx ring.present_in) in
      (r, rw room e, (rot, rot.base_eq ∙ rw (opened, room) refl))
