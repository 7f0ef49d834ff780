-- ===== src/Client/Application/Receive/Playing.antt =====
-- A client in a game: what the handlers rely on, and that the segments of play keep it.
use wa_game.Prelude.{
  ℕ, ◌≡◌, refl, ap, sym, ◌∙◌, Option, some, List, ◌==◌, Returns, Bool-cases, Option-cases, ==_iff,
  subst, inl, inr,
}
use wa_game.Platform.{Platform, IsGht}
use wa_game.Game.{GunSpec, Gun, GunPointer, null, live, freed, Player}
use wa_game.Game.Snapshots.{held_gun}
use wa_game.Client.Application.{ClientGame}
use wa_game.Client.Application.Receive.{with_players, change_player}

module _ (platform : Platform) where
  open platform use {ght}

  -- A pointer to a gun that is not freed.
  abbrev pub Held : GunPointer platform → Type 0
  Held g = (gun : Gun platform) × (held_gun platform g ≡ some gun)

  pub Held-live :
      (g : GunPointer platform) (gun : Gun platform) → held_gun platform g ≡ some gun → g ≡ live gun
  Held-live null gun e = cc
  Held-live (live gun') gun e = cc
  Held-live freed gun e = cc

  -- A game that has the client's own player, in which every player is under its id and has a gun.
  pub record IsArmed (specs : List (GunSpec platform)) (game : ClientGame platform) : Type 0 where
    pub keyed : (id : ℕ) (p : Player platform) → ght.get game.cg.players id ≡ some p → p.id ≡ id
    pub armed : (id : ℕ) (p : Player platform) → ght.get game.cg.players id ≡ some p → Held p.gun
    pub own :
        (id : ℕ) × (p : Player platform) × (game.player ≡ some id)
        × (ght.get game.cg.players id ≡ some p)
    pub specs_eq : game.cg.gun_specs ≡ specs

  -- A change of a player that keeps the id and a gun.
  abbrev pub Keeps : Player platform → Player platform → Type 0
  Keeps p p' = (p'.id ≡ p.id) × Held p'.gun

  module _ (is_ght : IsGht ght) (specs : List (GunSpec platform)) where
    module _ (game : ClientGame platform) (ok : IsArmed specs game) (k : ℕ) (p v : Player platform)
        (there : ght.get game.cg.players k ≡ some p) (keeps : Keeps p v) where
      written :
          (id : ℕ) (q : Player platform)
          → ght.get (ght.write game.cg.players k v) id ≡ some q
          → (q.id ≡ id) × Held q.gun
      written id q e = elim (Bool-cases (id == k)) [
        | inl same ↦
            let eq : some v ≡ some q = rw (is_ght.get-write, same, there) at e in
            let vq : v ≡ q = cc in
            let ki : k ≡ id = sym ((==_iff id k).0 same) in
            (
              ap (λ (x : Player platform). x.id) (sym vq) ∙ keeps.0 ∙ ok.keyed k p there ∙ ki,
              subst (λ (x : Player platform). Held x.gun) vq keeps.1,
            )
        | inr other ↦
            let old : ght.get game.cg.players id ≡ some q = rw (is_ght.get-write, other) at e in
            (ok.keyed id q old, ok.armed id q old)
      ]

      -- The client's own player is still there.
      own_written :
          (id : ℕ) (q : Player platform)
          → ght.get game.cg.players id ≡ some q
          → (q' : Player platform) × (ght.get (ght.write game.cg.players k v) id ≡ some q')
      own_written id q e = elim (Bool-cases (id == k)) [
        | inl same ↦ (v, rw (is_ght.get-write, same, there) refl)
        | inr other ↦ (q, rw (is_ght.get-write, other) e)
      ]

      pub write-IsArmed : IsArmed specs (with_players platform game (ght.write game.cg.players k v))
      write-IsArmed = record {
        keyed = λ id q e. (written id q e).0;
        armed = λ id q e. (written id q e).1;
        own = let (q', e) = own_written ok.own.0 ok.own.1 ok.own.3 in (ok.own.0, q', ok.own.2, e);
        specs_eq = ok.specs_eq;
      }

    pub change_player-IsArmed :
        (game : ClientGame platform) (id : ℕ) (f : Player platform → Option (Player platform))
        → IsArmed specs game
        → ((p : Player platform) → Held p.gun → Returns (f p) (Keeps p))
        → Returns (change_player platform game id f) (IsArmed specs)
    unfolding change_player
    change_player-IsArmed game id f ok keep = elim (Option-cases (ght.get game.cg.players id)) [
      | inl absent ↦ rw absent (game, refl, ok)
      | inr (p, there) ↦
          let (p', e, keeps) = keep p (ok.armed id p there) in
          rw (there, e) (_, refl, write-IsArmed game ok id p p' there keeps)
    ]
