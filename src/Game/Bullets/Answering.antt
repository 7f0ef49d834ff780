-- ===== src/Game/Bullets/Answering.antt =====
-- The damage callback of lib/coregame/src/coregame.c, as a test of a bullet needs it, and what a strike
-- comes to.
use wa_game.Prelude.{
  ℕ, ◌≡◌, refl, true, Option, none, some, List, ◌==◌, ◌⊎◌, inl, inr, get_elem?, mem, Returns,
  Option-cases,
}
use wa_game.Platform.{Platform}
use wa_game.Vec.{Vec}
use wa_game.Map.{Cell, cell_block}
use wa_game.Game.{Player, Bullet, Game}
use wa_game.Game.Movement.{player_rect}
use wa_game.Game.Bullets.Hits.{point_at, IsStruck, unanswered, unattacked, wounding}
use wa_game.Game.Bullets.{Damaged, Tested, wounded, attacked, hurt, strike}

module _ (platform : Platform) where
  open platform use {ght, floats}

  -- The players that a cell lists exist.
  abbrev pub AllThere : Game platform → List ℕ → Type 0
  AllThere game ids =
      (id : ℕ)
      → mem id ids ≡ true
      → (target : Player platform) × (ght.get game.players id ≡ some target)

  -- A block, or a cell whose players exist.
  abbrev pub IsSafe : Game platform → Cell → Type 0
  IsSafe game cell =
      (cell.type == cell_block ≡ true)
      ⊎ ((contents : List ℕ) × (cell.contents ≡ some contents) × AllThere game contents)

  abbrev pub AllSafe : Game platform → List ℕ → Type 0
  AllSafe game cells =
      (p : ℕ)
      → mem p cells ≡ true
      → (cell : Cell) × (get_elem? game.map.cells p ≡ some cell) × IsSafe game cell

  module _ (P : Game platform → Type 0) where
    -- The game stays as the callback needs it, and its bullets as they are.
    abbrev pub Answer : Game platform → Game platform → Type 0
    Answer game game' = (game'.bullets ≡ game.bullets) × P game'

    -- At a game as it needs it, with the target and the attacker in the table and the target's wounds
    -- stored, the callback returns.
    abbrev pub Answers : (Game platform → ℕ → ℕ → Option (Game platform)) → Type 0
    Answers f =
        (game : Game platform) (target attacker : Player platform) (id owner : ℕ) (dmg : floats.F32)
        → P game
        → ght.get game.players id ≡ some target
        → ght.get game.players owner ≡ some attacker
        → Returns
            (f
              (record game {
                players = ght.write game.players target.id (wounded platform target dmg);
              })
              target.id attacker.id)
            (Answer game)

    pub data IsAnswering : Damaged platform → Type 0 where
      silent : IsAnswering none
      answering :
          (f : Game platform → ℕ → ℕ → Option (Game platform)) → Answers f → IsAnswering (some f)

    -- What a test leaves besides: the bullet keeps its id, and the table of bullets stays.
    abbrev pub Kept : Game platform → Bullet platform → Tested platform → Type 0
    Kept game bullet tested = (tested.1.id ≡ bullet.id) × Answer game tested.0

    -- A strike does not fault, and ends as it should.
    pub strike-IsStruck :
        (damaged : Damaged platform)
        → IsAnswering damaged
        → (game : Game platform) (bullet : Bullet platform) (next_pos : Vec floats)
          (target : Player platform) (id : ℕ)
        → P game
        → ght.get game.players id ≡ some target
        → Returns
            (strike platform damaged game bullet target
              (point_at platform damaged game bullet next_pos (player_rect platform target))
              next_pos)
            (λ tested.
              IsStruck platform damaged game bullet next_pos target tested
              × Kept game bullet tested)
    unfolding hurt attacked
    strike-IsStruck _ silent game bullet next_pos target id good at =
        (_, refl, (unanswered refl, (refl, (refl, good))))
    strike-IsStruck _ (answering f answer) game bullet next_pos target id good at =
        elim (Option-cases (ght.get game.players bullet.owner_id)) [
          | inl absent ↦ rw absent (_, refl, (unattacked f refl absent, (refl, (refl, good))))
          | inr (attacker, by) ↦
              let (game', e, kept) =
                answer game target attacker id bullet.owner_id bullet.dmg good at by in
              rw (by, e) (_, refl, (wounding f attacker game' refl by e, (refl, kept)))
        ]
