-- ===== src/Game/Bullets/Hits.antt =====
-- What stops a bullet (lib/coregame/src/coregame.c, `cg_bullet_collision_test`), as a specification:
-- the first obstacle on its way.
use wa_game.Prelude.{
  ℕ, ◌≡◌, Bool, true, false, Option, none, some, List, [], ◌∷◌, ◌++◌, ◌==◌, ◌⊎◌, get_elem?,
}
use wa_game.Platform.{Platform}
use wa_game.Vec.{Vec, Rect}
use wa_game.Map.{Cell, cell_block}
use wa_game.Game.{Player, Bullet, Game}
use wa_game.Game.Collision.{bullet_cell_collision}
use wa_game.Game.Movement.{player_rect, cell_rect, no_contact}
use wa_game.Game.Bullets.{Damaged, Tested, stopped, wounded}

module _ (platform : Platform) where
  open platform use {ght, floats}

  module _ (damaged : Damaged platform) (game : Game platform) (bullet : Bullet platform)
      (next_pos : Vec floats) where
    -- Whether the bullet meets a rectangle in this step, and where.
    abbrev pub meets : Rect floats → Bool
    meets r = (bullet_cell_collision floats bullet.r bullet.velocity r (no_contact platform)).0

    abbrev pub point_at : Rect floats → Vec floats
    point_at r =
        (bullet_cell_collision floats bullet.r bullet.velocity r (no_contact platform)).1.point

    -- A player whom the bullet flies past: its owner, or one whom it does not meet.
    pub record IsMissed (id : ℕ) : Type 0 where
      pub target : Player platform
      pub there : ght.get game.players id ≡ some target
      pub past :
          (target.id == bullet.owner_id ≡ true) ⊎ (meets (player_rect platform target) ≡ false)

    abbrev pub AreMissed : List ℕ → Type 0
    AreMissed [] = Unit
    AreMissed (id ∷ ids) = IsMissed id × AreMissed ids

    -- What comes of a player who is met: without a callback the bullet stops there; without the
    -- attacker it flies on, but its flight is tested no more; otherwise the callback gets the game
    -- with the wounded player, and the bullet stops.
    pub data IsStruck (target : Player platform) : Tested platform → Type 0 where
      unanswered :
          damaged ≡ none
          → IsStruck target (
            game,
            stopped platform bullet (point_at (player_rect platform target)),
            point_at (player_rect platform target),
            true,
          )
      unattacked :
          (f : Game platform → ℕ → ℕ → Option (Game platform))
          → damaged ≡ some f
          → ght.get game.players bullet.owner_id ≡ none
          → IsStruck target (game, bullet, next_pos, true)
      wounding :
          (f : Game platform → ℕ → ℕ → Option (Game platform)) (attacker : Player platform)
          (game' : Game platform)
          → damaged ≡ some f
          → ght.get game.players bullet.owner_id ≡ some attacker
          → f
              (record game {
                players = ght.write game.players target.id (wounded platform target bullet.dmg);
              })
              target.id
              attacker.id
            ≡ some game'
          → IsStruck target (
            game',
            stopped platform bullet (point_at (player_rect platform target)),
            point_at (player_rect platform target),
            true,
          )

    -- The players of a cell: the bullet misses all, or strikes the first whom it does not miss.
    pub data Met (ids : List ℕ) : Tested platform → Type 0 where
      none_met : AreMissed ids → Met ids (game, bullet, next_pos, false)
      one_met :
          (before after : List ℕ) (id : ℕ) (target : Player platform) (tested : Tested platform)
          → ids ≡ before ++ (id ∷ after)
          → AreMissed before
          → ght.get game.players id ≡ some target
          → target.id == bullet.owner_id ≡ false
          → meets (player_rect platform target) ≡ true
          → IsStruck target tested
          → Met ids tested

    -- A cell that does not stop the bullet: a block that it does not meet, or a cell of no block
    -- whose players it misses.
    pub record IsPassed (p : ℕ) : Type 0 where
      pub cell : Cell
      pub here : get_elem? game.map.cells p ≡ some cell
      pub past :
          ((cell.type == cell_block ≡ true) × (meets (cell_rect platform game.map cell) ≡ false))
          ⊎ ((cell.type == cell_block ≡ false)
              × ((ids : List ℕ) × (cell.contents ≡ some ids) × AreMissed ids))

    abbrev pub ArePassed : List ℕ → Type 0
    ArePassed [] = Unit
    ArePassed (p ∷ ps) = IsPassed p × ArePassed ps

    -- A cell that does: a block that it meets, or a cell of no block with a player whom it strikes.
    pub data Stops (p : ℕ) : Tested platform → Type 0 where
      blocked :
          (cell : Cell)
          → get_elem? game.map.cells p ≡ some cell
          → cell.type == cell_block ≡ true
          → meets (cell_rect platform game.map cell) ≡ true
          → Stops p (
            game,
            stopped platform bullet (point_at (cell_rect platform game.map cell)),
            point_at (cell_rect platform game.map cell),
            true,
          )
      struck :
          (cell : Cell) (ids : List ℕ) (tested : Tested platform)
          → get_elem? game.map.cells p ≡ some cell
          → cell.type == cell_block ≡ false
          → cell.contents ≡ some ids
          → Met ids tested
          → tested.3 ≡ true
          → Stops p tested

    -- A flight over cells: it passes all of them and nothing changes, or it passes those before the
    -- first that stops it.
    pub data Flown (cells : List ℕ) : Tested platform → Type 0 where
      missed : ArePassed cells → Flown cells (game, bullet, next_pos, false)
      stopped_at :
          (before after : List ℕ) (p : ℕ) (tested : Tested platform)
          → cells ≡ before ++ (p ∷ after)
          → ArePassed before
          → Stops p tested
          → Flown cells tested
