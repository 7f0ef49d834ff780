-- ===== src/Game/Bullets/Flight.antt =====
-- How a bullet's flight ends (lib/coregame/src/coregame.c, `cg_bullet_collision_test`).
use wa_game.Prelude.{
  ℕ, ◌≡◌, refl, arith, true, false, some, List, [], ◌∷◌, ◌==◌, inl, inr, get_elem?, Returns,
  Bool-cases, ap, sym, ◌∙◌, ==-self,
}
use wa_game.Platform.{Platform}
use wa_game.Vec.{Vec}
use wa_game.Map.{Cell, cell_block}
use wa_game.Game.{Player, Bullet, Game}
use wa_game.Game.Collision.{Contact, bullet_cell_collision}
use wa_game.Game.Movement.{player_rect, cell_rect, no_contact}
use wa_game.Game.Collision.{bullet_cell_collision-fresh}
use wa_game.Game.Bullets.Hits.{
  meets, IsMissed, IsStruck, unanswered, unattacked, wounding, Met, none_met, one_met, IsPassed,
  Stops, blocked, struck, Flown, missed, stopped_at,
}
use wa_game.Game.Bullets.{
  Damaged, Tested, block_cell_collision_test, test_contents, empty_cell_collision_test, test_cell,
  collision_test,
}
use wa_game.Game.Bullets.Answering.{AllThere, IsSafe, AllSafe, IsAnswering, Kept, strike-IsStruck}

module _ (platform : Platform) where
  open platform use {ght, floats}

  module _ (P : Game platform → Type 0) where
    module _ (damaged : Damaged platform) (answers : IsAnswering platform P damaged)
        (bullet : Bullet platform) (next_pos : Vec floats) where
      module _ (game : Game platform) (good : P game) where
        abbrev nothing : Tested platform
        nothing = (game, bullet, next_pos, false)

        abbrev Meets : List ℕ → Tested platform → Type 0
        Meets ids tested =
            Met platform damaged game bullet next_pos ids tested
            × Kept platform P game bullet tested

        -- One more player, who is missed, in front.
        Met-cons :
            (id : ℕ) (ids : List ℕ) (tested : Tested platform)
            → IsMissed platform damaged game bullet next_pos id
            → Meets ids tested
            → Meets (id ∷ ids) tested
        Met-cons id ids _ m (none_met ms, kept) = (none_met (m, ms), kept)
        Met-cons id ids _ m (one_met before after j target tested e ms there other hit s, kept) = (
          one_met (id ∷ before) after j target tested (ap (λ l. id ∷ l) e) (m, ms) there other hit
              s,
          kept,
        )

        test_contents-Met :
            (ids : List ℕ) (contact : Contact floats)
            → AllThere platform game ids
            → Returns (test_contents platform damaged game bullet ids next_pos contact) (Meets ids)
        unfolding test_contents
        test_contents-Met [] contact there = (_, refl, (none_met tt, (refl, (refl, good))))
        test_contents-Met (id ∷ ids) contact there =
            let (target, e) = there id (rw (==-self id) refl) in
            let rect = player_rect platform target in
            let (same, place) =
              bullet_cell_collision-fresh floats bullet.r bullet.velocity rect (no_contact platform)
                contact in
            let later = λ (c : Contact floats).
              test_contents-Met ids c (λ j m. there j (rw m (ground arith))) in
            let test = bullet_cell_collision floats bullet.r bullet.velocity rect contact in
            rw e (elim (Bool-cases (target.id == bullet.owner_id)) [
              | inl own ↦
                  let (tested, e', met) = later contact in
                  let missed : IsMissed platform damaged game bullet next_pos id = record {
                    target = target;
                    there = e;
                    past = inl own;
                  } in
                  rw (own, e') (tested, refl, Met-cons id ids tested missed met)
              | inr other ↦ elim (Bool-cases test.0) [
                | inl hit ↦
                    let fresh : meets platform damaged game bullet next_pos rect ≡ true =
                      sym same ∙ hit in
                    let (tested, e', (s, kept)) =
                      strike-IsStruck platform P damaged answers game bullet next_pos target id good
                        e in
                    rw (other, hit, place fresh, e')
                      (
                        tested,
                        refl,
                        (one_met [] ids id target tested refl tt e other fresh s, kept),
                      )
                | inr past ↦
                    let (tested, e', met) = later test.1 in
                    let missed : IsMissed platform damaged game bullet next_pos id = record {
                      target = target;
                      there = e;
                      past = inr (sym same ∙ past);
                    } in
                    rw (other, past, e') (tested, refl, Met-cons id ids tested missed met)
              ]
            ])

        -- How the test of one cell ends.
        data CellEnd (p : ℕ) : Tested platform → Type 0 where
          passes : IsPassed platform damaged game bullet next_pos p → CellEnd p nothing
          stops :
              (tested : Tested platform)
              → Stops platform damaged game bullet next_pos p tested
              → tested.3 ≡ true
              → CellEnd p tested

        abbrev Ends : ℕ → Tested platform → Type 0
        Ends p tested = CellEnd p tested × Kept platform P game bullet tested

        block-End :
            (p : ℕ) (cell : Cell)
            → get_elem? game.map.cells p ≡ some cell
            → cell.type == cell_block ≡ true
            → Ends p (block_cell_collision_test platform game bullet cell next_pos)
        unfolding block_cell_collision_test
        block-End p cell here block =
            elim (Bool-cases
              (meets platform damaged game bullet next_pos (cell_rect platform game.map cell))) [
                | inl hit ↦
                    rw hit (stops _ (blocked cell here block hit) refl, (refl, (refl, good)))
                | inr past ↦ rw past (
                  passes (record { cell = cell; here = here; past = inl (block, past) }),
                  (refl, (refl, good)),
                )
              ]

        IsStruck-hit :
            (target : Player platform) (tested : Tested platform)
            → IsStruck platform damaged game bullet next_pos target tested
            → tested.3 ≡ true
        IsStruck-hit target _ (unanswered d) = refl
        IsStruck-hit target _ (unattacked f d by) = refl
        IsStruck-hit target _ (wounding f attacker game' d by e) = refl

        contents-End :
            (p : ℕ) (cell : Cell) (ids : List ℕ) (tested : Tested platform)
            → get_elem? game.map.cells p ≡ some cell
            → cell.type == cell_block ≡ false
            → cell.contents ≡ some ids
            → Met platform damaged game bullet next_pos ids tested
            → CellEnd p tested
        contents-End p cell ids _ here open' e (none_met ms) =
            passes (record { cell = cell; here = here; past = inr (open', (ids, e, ms)) })
        contents-End p cell ids _ here open' e
              (one_met before after id target tested i ms there other hit s) =
            let struck_hit = IsStruck-hit target tested s in
            stops tested
              (struck cell ids tested here open' e
                (one_met before after id target tested i ms there other hit s) struck_hit)
              struck_hit

        test_cell-End :
            (p : ℕ) (cell : Cell)
            → get_elem? game.map.cells p ≡ some cell
            → IsSafe platform game cell
            → Returns (test_cell platform damaged game bullet cell next_pos) (Ends p)
        unfolding test_cell empty_cell_collision_test
        test_cell-End p cell here (inl block) = rw block (_, refl, block-End p cell here block)
        test_cell-End p cell here (inr (ids, e, there)) =
            elim (Bool-cases (cell.type == cell_block)) [
              | inl block ↦ rw block (_, refl, block-End p cell here block)
              | inr open' ↦
                  let (tested, t, (met, kept)) =
                    test_contents-Met ids (no_contact platform) there in
                  rw (open', e, t)
                    (tested, refl, (contents-End p cell ids tested here open' e met, kept))
            ]

        IsPassed-eq :
            (p : ℕ) (tested : Tested platform)
            → CellEnd p tested
            → tested.3 ≡ false
            → IsPassed platform damaged game bullet next_pos p × (tested ≡ nothing)
        IsPassed-eq p _ (passes i) e = (i, refl)
        IsPassed-eq p _ (stops tested s hit) e = absurd (ground arith)

        stopped-at :
            (p : ℕ) (tested : Tested platform)
            → CellEnd p tested
            → tested.3 ≡ true
            → Stops platform damaged game bullet next_pos p tested
        stopped-at p _ (passes i) e = absurd (ground arith)
        stopped-at p _ (stops tested s hit) e = s

        abbrev End : List ℕ → Tested platform → Type 0
        End ps tested =
            Flown platform damaged game bullet next_pos ps tested
            × Kept platform P game bullet tested

        Flown-cons :
            (p : ℕ) (ps : List ℕ) (tested : Tested platform)
            → IsPassed platform damaged game bullet next_pos p
            → End ps tested
            → End (p ∷ ps) tested
        Flown-cons p ps _ i (missed is, kept) = (missed (i, is), kept)
        Flown-cons p ps _ i (stopped_at before after q tested e is s, kept) =
            (stopped_at (p ∷ before) after q tested (ap (λ l. p ∷ l) e) (i, is) s, kept)

        -- In a game as the damage callback needs it, the test of a bullet against cells of the
        -- map, each a block or with a list of players who exist, does not fault and ends at the
        -- first obstacle on the way. The bullet keeps its id, the table of bullets stays the same
        -- and the game as the damage callback needs it.
        pub collision_test-End :
            (cells : List ℕ)
            → AllSafe platform game cells
            → Returns (collision_test platform damaged game bullet cells next_pos) (End cells)
        unfolding collision_test
        collision_test-End [] safe = (_, refl, (missed tt, (refl, (refl, good))))
        collision_test-End (p ∷ ps) safe =
            let (cell, e, is_safe) = safe p (rw (==-self p) refl) in
            let (tested, e', (end', kept)) = test_cell-End p cell e is_safe in
            elim (Bool-cases tested.3) [
              | inl hit ↦
                  rw (e, e', hit)
                    (
                      tested,
                      refl,
                      (stopped_at [] ps p tested refl tt (stopped-at p tested end' hit), kept),
                    )
              | inr past ↦
                  let (i, eq) = IsPassed-eq p tested end' past in
                  let (final, f, ends) =
                    collision_test-End ps λ j m. safe j (rw m (ground arith)) in
                  rw (e, e', eq, f) (final, refl, Flown-cons p ps final i ends)
            ]
