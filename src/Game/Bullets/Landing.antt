-- ===== src/Game/Bullets/Landing.antt =====
-- How the update of a bullet ends (lib/coregame/src/coregame.c, `coregame_update_bullet`).
use wa_game.Prelude.{
  ℕ, ◌+◌, ◌≡◌, refl, arith, true, false, Option, none, some, List, [], ◌∙◌, inl, inr, get_elem?,
  get_elem?-some, Returns, Bool-cases, ==-self,
}
use wa_game.Platform.{Platform, IsGht, IsArray}
use wa_game.Map.{Cell}
use wa_game.Map.Cells.{modify_at-eq, update_at, get_elem?-update_at}
use wa_game.Map.Resize.{IsValid}
use wa_game.Game.{Bullet, BulletSnapshot, Game, GameSnapshot}
use wa_game.Game.Walk.{get_cells_2points}
use wa_game.Game.Walk.Ends.{get_cells_2points-Passed}
use wa_game.Game.Snapshots.{commit_bullet}
use wa_game.Game.Rotation.{free_bullet}
use wa_game.Game.Rotation.Ring.{IsRing}
use wa_game.Game.Bullets.{
  Damaged, Tested, landed, is_outside, commit_bullet_to, collision_test, settle, update_bullet,
  next_position,
}
use wa_game.Game.Bullets.Answering.{IsSafe, AllSafe, IsAnswering}
use wa_game.Game.Bullets.Flight.{collision_test-End}
use wa_game.Game.Bullets.Hits.{Flown}

module _ (platform : Platform) (laws : IsGht platform.ght) where
  open platform use {arrays, ght, floats}

  landed-id : (tested : Tested platform) → (landed platform tested).id ≡ tested.1.id
  landed-id (game, bullet, next_pos, true) = refl
  landed-id (game, bullet, next_pos, false) = refl

  free_bullet-gone :
      (game : Game platform) (id : ℕ) → ght.get (free_bullet platform game id).bullets id ≡ none
  unfolding free_bullet
  free_bullet-gone game id = elim (Bool-cases game.has_bullet_free) [
    | inl set ↦ rw (set, laws.get-del game.bullets id id, ==-self id) refl
    | inr unset ↦ rw (unset, laws.get-del game.bullets id id, ==-self id) refl
  ]

  settle_outside :
      (tested : Tested platform)
      → is_outside platform tested.0 (landed platform tested).r.pos ≡ true
      → settle platform tested ≡ none
  unfolding settle commit_bullet_to
  settle_outside tested out = rw (out, free_bullet-gone _ (landed platform tested).id) refl

  -- What a commit of the bullet leaves in a snapshot.
  abbrev pub committed : Bullet platform → BulletSnapshot platform
  committed bullet = record {
    bullet_id = bullet.id;
    pos = bullet.r.pos;
    collided = bullet.collided;
  }

  -- The state of the bullet that a commit finds in the snapshot, or not.
  stored-get :
      (t : ght.Table (BulletSnapshot platform)) (id : ℕ) (bss : BulletSnapshot platform)
      → (o : Option (BulletSnapshot platform)) → ght.get t id ≡ o
      → ght.get (elim o [ none ↦ ght.insert t id bss | some _ ↦ ght.write t id bss ]) id ≡ some bss
  stored-get t id bss none e = rw (laws.get-insert t id id bss e, ==-self id) refl
  stored-get t id bss (some old) e = rw (laws.get-write t id id bss, ==-self id, e) refl

  commit_bullet-get :
      (ss : GameSnapshot platform) (bullet : Bullet platform)
      → ght.get (commit_bullet platform ss bullet).bullet_states bullet.id ≡ some (committed bullet)
  unfolding commit_bullet
  commit_bullet-get ss bullet = stored-get ss.bullet_states bullet.id (committed bullet) _ refl

  -- The bullet as it lands is in the table and in the present snapshot.
  pub record HasLanded (bullet : Bullet platform) (game : Game platform) : Type 0 where
    pub kept : ght.get game.bullets bullet.id ≡ some bullet
    pub told :
        Returns
          (get_elem? game.sbsm.snapshots game.sbsm.present_idx)
          (λ ss. ght.get ss.bullet_states bullet.id ≡ some (committed bullet))

  settle_inside :
      (tested : Tested platform) (old : Bullet platform)
      → ght.get tested.0.bullets tested.1.id ≡ some old
      → IsRing platform tested.0.sbsm
      → is_outside platform tested.0 (landed platform tested).r.pos ≡ false
      → Returns (settle platform tested) (HasLanded (landed platform tested))
  unfolding settle commit_bullet_to
  settle_inside tested old e ring inn =
      let bullet = landed platform tested in
      let game = tested.0 in
      let at = game.sbsm.present_idx in
      let (ss, es) =
        get_elem?-some game.sbsm.snapshots at (omega (arith, ring.room, ring.present_in)) in
      let found : ght.get (ght.write game.bullets bullet.id bullet) bullet.id ≡ some bullet =
        rw
          (
            laws.get-write game.bullets bullet.id bullet.id bullet,
            ==-self bullet.id,
            landed-id tested,
            e,
          )
          refl in
      let written =
        modify_at-eq game.sbsm.snapshots at (λ _. commit_bullet platform ss bullet)
          (omega (arith, ring.room, ring.present_in)) in
      let there : get_elem?
            (update_at game.sbsm.snapshots at (λ _. commit_bullet platform ss bullet)) at
          ≡ some (commit_bullet platform ss bullet) =
        rw
          (
            get_elem?-update_at game.sbsm.snapshots at at (λ _. commit_bullet platform ss bullet),
            ==-self at,
            es,
          )
          refl in
      rw (inn, found, es, written)
        (
          _,
          refl,
          record {
            kept = found;
            told = (commit_bullet platform ss bullet, there, commit_bullet-get ss bullet);
          },
        )

  update_bullet-settle :
      (damaged : Damaged platform) (game : Game platform) (bullet : Bullet platform)
      (cells : List ℕ)
      → (tested : Tested platform) → bullet.collided ≡ false
      → get_cells_2points arrays floats
          (game.map.w + game.map.h + 1)
          game.map
          bullet.r.pos
          (next_position platform game bullet)
          []
        ≡ some cells
      → collision_test platform damaged game
          (record bullet { cells = cells })
          cells
          (next_position platform game bullet)
        ≡ some tested
      → update_bullet platform damaged game bullet ≡ settle platform tested
  unfolding update_bullet
  update_bullet-settle damaged game bullet cells tested flies e e' = rw (e, e', flies) refl

  module _ (damaged : Damaged platform) where
    -- The update of a bullet that flies: the cells of the walk to its next position, how its test
    -- against them ends, what comes of it.
    pub record Landed (game : Game platform) (bullet : Bullet platform) : Type 0 where
      pub cells : List ℕ
      pub tested : Tested platform
      pub walked :
          get_cells_2points arrays floats
            (game.map.w + game.map.h + 1)
            game.map
            bullet.r.pos
            (next_position platform game bullet)
            []
          ≡ some cells
      pub flown :
          Flown platform damaged game
            (record bullet { cells = cells })
            (next_position platform game bullet)
            cells
            tested
      pub lost :
          is_outside platform tested.0 (landed platform tested).r.pos ≡ true
          → update_bullet platform damaged game bullet ≡ none
      pub kept :
          is_outside platform tested.0 (landed platform tested).r.pos ≡ false
          → Returns
              (update_bullet platform damaged game bullet)
              (HasLanded (landed platform tested))

    -- In a game as the damage callback needs it, which includes a ring in order, with a valid map
    -- in which every cell is a block or lists players who exist, the update of a flying bullet in
    -- the table takes the cells of the walk to its next position, and its test passes all of them
    -- and changes nothing, or passes those before the first that stops it: a block that it meets
    -- within the step, where it stops at the point that is met and the game stays the same, or a
    -- cell of no block, at the first of its players, other than the bullet's owner, whom it
    -- meets. There it stops at the point that is met, after the callback, if one is set, got the
    -- game with the player's wounds; if one is set and the attacker is not in the table, the game
    -- and the bullet stay as they are and the rest of the cells is not tested. If the bullet then
    -- lies within the map, the update does not fault and leaves the bullet so in the table and in
    -- the present snapshot; if it lies outside, the update faults: it commits the bullet that it
    -- has freed. The callback, if set, returns when target and attacker are in the table, leaves
    -- the game as it needs it and the bullets as they are; tables and arrays obey their laws.
    pub update_bullet-Landed :
        IsArray platform.arrays
        → (P : Game platform → Type 0)
        → ((game : Game platform) → P game → IsRing platform game.sbsm)
        → IsAnswering platform P damaged
        → (game : Game platform) (bullet : Bullet platform) → IsValid game.map
        → P game
        → ((p : ℕ) (cell : Cell)
            → get_elem? game.map.cells p ≡ some cell
            → IsSafe platform game cell)
        → ght.get game.bullets bullet.id ≡ some bullet
        → bullet.collided ≡ false
        → Landed game bullet
    update_bullet-Landed arrays_laws P rings answers game bullet valid good safe here flies =
        let to = next_position platform game bullet in
        let (cells, e, passed) =
          get_cells_2points-Passed platform.arrays floats arrays_laws game.map valid bullet.r.pos
            to in
        let all : AllSafe platform game cells = λ p m.
          let (cell, at) = get_elem?-some game.map.cells p (passed.inside p m) in
          (cell, at, safe p cell at) in
        let (tested, e', (flown, (same, (bullets, good')))) =
          collision_test-End platform P damaged answers (record bullet { cells = cells }) to game
            good cells all in
        let old : ght.get tested.0.bullets tested.1.id ≡ some bullet = rw (bullets, same) here in
        let settled = update_bullet-settle damaged game bullet cells tested flies e e' in
        record {
          cells = cells;
          tested = tested;
          walked = e;
          flown = flown;
          lost = λ out. settled ∙ settle_outside tested out;
          kept = λ inn. rw settled (settle_inside tested bullet old (rings tested.0 good') inn);
        }
