-- ===== src/Game/Snapshots/Commit.antt =====
-- What is committed to a snapshot and what is read back from one.
use wa_game.Prelude.{
  ==-self, ℕ, ◌≡◌, ◌≢◌, refl, ◌∙◌, true, false, Option, none, some, ◌==◌, if◌then◌else◌, Returns,
  Bool-cases, inl, inr,
}
use wa_game.Prelude.Int.{eqb_ℤ}
use wa_game.Platform.{Platform, IsGht}
use wa_game.Game.{
  GunPointer, null, live, freed, Gun, GunSpec, Player, PlayerSnapshot, GameSnapshot, Game,
}
use wa_game.Game.Guns.{player_change_gun_force, full_gun, get_gun_spec}
use wa_game.Game.Guns.Change.{create_gun-full, get_gun_spec-id}
use wa_game.Game.Snapshots.{
  player_to_snapshot, with_gun, commit_player, found_or_new, new_player_snapshot,
  snapshot_to_player, moved_back, restore_gun,
}

module _ (platform : Platform) where
  open platform use {ght, floats}

  -- A restored player has the moved-back position, input and gun state of the snapshot, and a gun
  -- of the kind that the player held before.
  pub record Restored (player : Player platform) (pss : PlayerSnapshot platform)
      (gun : Gun platform) (player' : Player platform) : Type 0 where
    pub gun' : Gun platform
    pub held : player'.gun ≡ live gun'
    pub kind : gun'.spec.id ≡ gun.spec.id
    pub ammo : gun'.ammo ≡ pss.ammo
    pub bullet_timer : gun'.bullet_timer ≡ pss.bullet_timer
    pub charge_time : gun'.charge_time ≡ pss.charge_timer
    pub reload_time : gun'.reload_time ≡ pss.reload_timer
    pub input : player'.input ≡ pss.input
    pub shoot : player'.shoot ≡ pss.shooting
    pub x : player'.pos.x ≡ floats.s.sub pss.pos.x pss.velocity.x
    pub y : player'.pos.y ≡ floats.s.sub pss.pos.y pss.velocity.y

  restored :
      (player : Player platform) (pss : PlayerSnapshot platform) (gun gun' : Gun platform)
      (g : GunPointer platform)
      → gun'.spec.id ≡ gun.spec.id
      → Restored player pss gun
          (restore_gun platform (record (moved_back platform player pss) { gun = g }) pss gun')
  restored player pss gun gun' g kind = elim (Bool-cases (eqb_ℤ gun'.ammo pss.ammo)) [
    | inl same ↦ rw same (record {
      gun' = reset gun';
      held = refl;
      kind = kind;
      ammo = refl;
      bullet_timer = refl;
      charge_time = refl;
      reload_time = refl;
      input = refl;
      shoot = refl;
      x = refl;
      y = refl;
    })
    | inr other ↦ rw other (record {
      gun' = reset gun';
      held = refl;
      kind = kind;
      ammo = refl;
      bullet_timer = refl;
      charge_time = refl;
      reload_time = refl;
      input = refl;
      shoot = refl;
      x = refl;
      y = refl;
    })
  ]
    where
      reset : Gun platform → Gun platform
      reset g' = record g' {
        ammo = pss.ammo;
        bullet_timer = pss.bullet_timer;
        charge_time = pss.charge_timer;
        reload_time = pss.reload_timer;
      }

  -- Restoring a player, who holds a gun of a kind that the game has, from a snapshot does not
  -- fault, sets the input, the trigger, the position before the step and the numbers of the gun
  -- to those of the snapshot, and leaves the kind of gun that the player held, whichever the
  -- snapshot names.
  pub snapshot_to_player-Restored :
      (game : Game platform) (player : Player platform) (pss : PlayerSnapshot platform)
      (gun : Gun platform) (spec : GunSpec platform)
      → player.gun ≡ live gun
      → get_gun_spec platform game.gun_specs gun.spec.id ≡ some spec
      → Returns (snapshot_to_player platform game player pss) (Restored player pss gun)
  unfolding snapshot_to_player player_change_gun_force
  snapshot_to_player-Restored game player pss gun spec held known =
      elim (Bool-cases (pss.gun_id == gun.spec.id)) [
        | inl same ↦ (_, rw (held, same) refl, restored player pss gun gun player.gun refl)
        | inr other ↦ (
          restore_gun platform
              (record (moved_back platform player pss) { gun = live (full_gun platform spec) }) pss
              (full_gun platform spec),
          rw
              (
                held,
                other,
                create_gun-full platform game.gun_specs gun.spec.id spec
                    (record (moved_back platform player pss) { gun = freed }) known,
              )
              refl,
          restored player pss gun (full_gun platform spec) (live (full_gun platform spec))
              (get_gun_spec-id platform game.gun_specs gun.spec.id spec known),
        )
      ]

  -- The snapshot holds the player's state.
  pub record Records (player : Player platform) (pss : PlayerSnapshot platform) : Type 0 where
    pub pos : pss.pos ≡ player.pos
    pub velocity : pss.velocity ≡ player.velocity
    pub input : pss.input ≡ player.input
    pub shooting : pss.shooting ≡ player.shoot

  with_gun-Records :
      (player : Player platform) (pss : PlayerSnapshot platform) (g : GunPointer platform)
      → g ≢ freed
      → Records player pss
      → Returns (with_gun platform pss g) (Records player)
  unfolding with_gun
  with_gun-Records player pss null ok r = (_, refl, r)
  with_gun-Records player pss (live gun) ok r = (
    _,
    refl,
    record { pos = r.pos; velocity = r.velocity; input = r.input; shooting = r.shooting },
  )
  with_gun-Records player pss freed ok r = absurd (ok refl)

  pub player_to_snapshot-Records :
      (player : Player platform) (pss : PlayerSnapshot platform)
      → player.gun ≢ freed
      → Returns (player_to_snapshot platform pss player) (Records player)
  unfolding player_to_snapshot
  player_to_snapshot-Records player pss ok =
      with_gun-Records player _ player.gun ok
        (record { pos = refl; velocity = refl; input = refl; shooting = refl })

  -- What a commit leaves in the table of a snapshot: the player's state, marked clean, and every
  -- other player's as it was.
  pub record Committed (ss : GameSnapshot platform) (player : Player platform)
      (r : GameSnapshot platform × Player platform) : Type 0 where
    pub pss : PlayerSnapshot platform
    pub stored : ght.get r.0.player_states player.id ≡ some pss
    pub clean : pss.dirty ≡ false
    pub records : Records player pss
    pub player_clean : r.1.dirty ≡ false
    pub others :
        (id : ℕ)
        → (id == player.id) ≡ false
        → ght.get r.0.player_states id ≡ ght.get ss.player_states id

  module _ (laws : IsGht ght) where
    found-get :
        (t : ght.Table (PlayerSnapshot platform)) (id : ℕ) (o : Option (PlayerSnapshot platform))
        → ght.get t id ≡ o
        → let (t', pss) = found_or_new platform t id o in
          (ght.get t' id ≡ some pss) × ((j : ℕ) → (j == id) ≡ false → ght.get t' j ≡ ght.get t j)
    found-get t id (some pss) e = (e, λ j _. refl)
    found-get t id none e = (
      laws.get-insert t id id (new_player_snapshot platform id) e ∙ rw (==-self id) refl,
      λ j h. laws.get-insert t id j (new_player_snapshot platform id) e ∙ rw h refl,
    )

    -- Committing a dirty player whose gun is not freed stores position, velocity, input and
    -- trigger in the snapshot, marks both clean, and leaves the other players of the snapshot
    -- alone; the table obeys its laws.
    pub commit_player-Committed :
        (ss : GameSnapshot platform) (player : Player platform)
        → player.gun ≢ freed
        → player.dirty ≡ true
        → Returns (commit_player platform ss player) (Committed ss player)
    unfolding commit_player
    commit_player-Committed ss player ok dirty =
        let found =
          found_or_new platform ss.player_states player.id (ght.get ss.player_states player.id) in
        let (got, same) =
          found-get ss.player_states player.id (ght.get ss.player_states player.id) refl in
        let (pss, e, r) = player_to_snapshot-Records player found.1 ok in
        let clean = record pss { dirty = false } in
        (
          (
            record ss { player_states = ght.write found.0 player.id clean },
            record player { dirty = false },
          ),
          rw e (rw dirty refl),
          record {
            pss = clean;
            stored =
                laws.get-write found.0 player.id player.id clean ∙ rw (==-self player.id, got) refl;
            clean = refl;
            records = record {
              pos = r.pos;
              velocity = r.velocity;
              input = r.input;
              shooting = r.shooting;
            };
            player_clean = refl;
            others = λ id h. laws.get-write found.0 player.id id clean ∙ rw h (same id h);
          },
        )

    -- Committing a clean player takes the player out of the snapshot and changes no other player
    -- there, nor the player; the table obeys its laws.
    pub commit_player_clean :
        (ss : GameSnapshot platform) (player : Player platform)
        → player.dirty ≡ false
        → Returns (commit_player platform ss player) (λ r.
          (r.1 ≡ player)
          × ((id : ℕ)
              → ght.get r.0.player_states id
                ≡ (if id == player.id then none else ght.get ss.player_states id)))
    unfolding commit_player
    commit_player_clean ss player clean = (
      (record ss { player_states = ght.del ss.player_states player.id }, player),
      rw clean refl,
      (refl, λ id. laws.get-del ss.player_states player.id id),
    )
