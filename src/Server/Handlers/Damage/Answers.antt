-- ===== src/Server/Handlers/Damage/Answers.antt =====
-- The server's callback on damage, as the flight of bullets needs it.
use wa_game.Prelude.{
  ℕ, ◌≡◌, refl, sym, ap, ◌∙◌, ◌+◌, some, ◌==◌, ==_iff, Bool-cases, inl, inr, Returns, ◌>>=◌,
}
use wa_game.Prelude.Int.{pos}
use wa_game.Platform.{Platform, IsGht}
use wa_game.Map.{u16}
use wa_game.Game.{Player, Game}
use wa_game.Game.Bullets.{Damaged, wounded}
use wa_game.Game.Bullets.Answering.{IsAnswering, answering}
use wa_game.Game.Players.Leave.{delete_player-IsRing}
use wa_game.Game.Rotation.Ring.{IsRing}
use wa_game.Server.{Server}
use wa_game.Server.Spawn.Cycle.{IsReady, next_spawn-Spawned}
use wa_game.Server.Handlers.Damage.{modify_player, send_all, respawn, kill, on_player_damaged}

module _ (platform : Platform) where
  open platform use {ght}

  -- Every player stands under its id.
  abbrev pub IsKeyed : ght.Table (Player platform) → Type 0
  IsKeyed t = (id : ℕ) (p : Player platform) → ght.get t id ≡ some p → p.id ≡ id

  -- The callback of a server, at the game of the moment.
  abbrev pub damaged_by : Server platform → ℕ → Damaged platform
  damaged_by server garbage = some λ game target attacker. do
    server' ← on_player_damaged platform (record server { game = game }) target attacker garbage
    some server'.game

  -- Every player stands under its id, the ring is in order, and the server can spawn.
  pub record IsServed (server : Server platform) (game : Game platform) : Type 0 where
    pub keyed : IsKeyed game.players
    pub ring : IsRing platform game.sbsm
    pub ready : IsReady platform (record server { game = game })

module _ (platform : Platform) (laws : IsGht platform.ght) where
  open platform use {ght, floats}

  -- What a game keeps of another: its players are still there, and its bullets and its map stay.
  record Fit (game game' : Game platform) : Type 0 where
    keyed : IsKeyed platform game'.players
    there :
        (k : ℕ) (p : Player platform)
        → ght.get game.players k ≡ some p
        → (q : Player platform) × (ght.get game'.players k ≡ some q)
    bullets_eq : game'.bullets ≡ game.bullets
    map_eq : game'.map ≡ game.map
    ring : IsRing platform game'.sbsm

  module _ (t : ght.Table (Player platform)) (k : ℕ) (p v : Player platform)
      (here : ght.get t k ≡ some p) where
    write-IsKeyed : IsKeyed platform t → v.id ≡ k → IsKeyed platform (ght.write t k v)
    write-IsKeyed keyed same id q e = elim (Bool-cases (id == k)) [
      | inl at ↦
          let eq : some v ≡ some q = rw (laws.get-write, at, here) at e in
          let vq : v ≡ q = cc in
          ap (λ (x : Player platform). x.id) (sym vq) ∙ same ∙ sym ((==_iff id k).0 at)
      | inr other ↦
          let old : ght.get t id ≡ some q = rw (laws.get-write, other) at e in keyed id q old
    ]

    write_there :
        (j : ℕ) (q : Player platform)
        → ght.get t j ≡ some q
        → (r : Player platform) × (ght.get (ght.write t k v) j ≡ some r)
    write_there j q e = elim (Bool-cases (j == k)) [
      | inl at ↦ (v, rw (laws.get-write, at, here) refl)
      | inr other ↦ (q, rw (laws.get-write, other) e)
    ]

  modify_player-Fit :
      (game : Game platform) (server : Server platform) (k : ℕ) (p : Player platform)
      (f : Player platform → Player platform)
      → Fit game server.game
      → ght.get game.players k ≡ some p
      → ((q : Player platform) → (f q).id ≡ q.id)
      → Returns (modify_player platform server k f) (λ s. Fit game s.game)
  unfolding modify_player
  modify_player-Fit game server k p f fit at same =
      let (q, e) = fit.there k p at in
      let players = server.game.players in
      rw e (
        _,
        refl,
        record {
          keyed = write-IsKeyed players k q (f q) e fit.keyed (same q ∙ fit.keyed k q e);
          there =
              λ j r h. let (r', e') = fit.there j r h in write_there players k q (f q) e j r' e';
          bullets_eq = fit.bullets_eq;
          map_eq = fit.map_eq;
          ring = fit.ring;
        },
      )

  module _ (game : Game platform) (server : Server platform) (target attacker : ℕ)
      (p q : Player platform) (at : ght.get game.players target ≡ some p)
      (by : ght.get game.players attacker ≡ some q) (fit : Fit game server.game)
      (ready : IsReady platform server) where
    respawn-Fit : Returns (respawn platform server target attacker) (λ r. Fit game r.1.game)
    unfolding respawn
    respawn-Fit =
        let (sbsm, e, ring) = delete_player-IsRing platform server.game.sbsm target fit.ring in
        let left = record server { game = record server.game { sbsm = sbsm } } in
        let (r, e1, spawned) =
          next_spawn-Spawned platform left
            (record { idx_in = ready.idx_in; few = ready.few; cells_in = ready.cells_in }) in
        let fit0 : Fit game left.game = record {
          keyed = fit.keyed;
          there = fit.there;
          bullets_eq = fit.bullets_eq;
          map_eq = fit.map_eq;
          ring = ring;
        } in
        let fit1 : Fit game r.1.game = rw spawned.game_eq fit0 in
        let (s2, e2, fit2) =
          modify_player-Fit game r.1 target p (λ p. record p { pos = r.0; health = p.max_health })
            fit1 at (λ x. refl) in
        let (s3, e3, fit3) =
          modify_player-Fit game s2 attacker q (λ p. record p { kills = u16 (p.kills + 1) }) fit2 by
            (λ x. refl) in
        let (s4, e4, fit4) =
          modify_player-Fit game s3 target p (λ p. record p { deaths = u16 (p.deaths + 1) }) fit3 at
            (λ x. refl) in
        rw (e, e1, e2, e3, e4) (_, refl, fit4)

    kill-Fit :
        (garbage : ℕ)
        → Returns (kill platform server target attacker garbage) (λ s. Fit game s.game)
    unfolding kill send_all
    kill-Fit garbage =
        let (r, e, fit') = respawn-Fit in
        let (dead, e1) = fit'.there target p at in
        let (killer, e2) = fit'.there attacker q by in rw (e, e1, e2) (_, refl, fit')

    on_player_damaged-Fit :
        (garbage : ℕ)
        → Returns (on_player_damaged platform server target attacker garbage) (λ s. Fit game s.game)
    unfolding on_player_damaged send_all
    on_player_damaged-Fit garbage =
        let (now, e) = fit.there target p at in
        let (s, e', fit') = kill-Fit garbage in
        rw e (elim (Bool-cases (floats.s.le now.health (floats.s.of_ℤ (pos 0)))) [
          | inl dead ↦ rw (dead, e') (s, refl, fit')
          | inr alive ↦ rw alive (_, refl, fit)
        ])

  -- On a server that can spawn, the callback on damage answers: from a game with a ring in order in
  -- which every player stands under its id, it returns, and leaves such a game with the same bullets.
  pub damaged_by-IsAnswering :
      (server : Server platform) (garbage : ℕ)
      → IsAnswering platform (IsServed platform server) (damaged_by platform server garbage)
  damaged_by-IsAnswering server garbage =
      answering _ λ game target attacker id owner dmg good at by.
        let at' : ght.get game.players target.id ≡ some target =
          ap (ght.get game.players) (good.keyed id target at) ∙ at in
        let by' : ght.get game.players attacker.id ≡ some attacker =
          ap (ght.get game.players) (good.keyed owner attacker by) ∙ by in
        let hit = record game {
          players = ght.write game.players target.id (wounded platform target dmg);
        } in
        let fit : Fit game hit = record {
          keyed =
              write-IsKeyed game.players target.id target (wounded platform target dmg) at'
                good.keyed refl;
          there = write_there game.players target.id target (wounded platform target dmg) at';
          bullets_eq = refl;
          map_eq = refl;
          ring = good.ring;
        } in
        let (s, e, fit') =
          on_player_damaged-Fit game (record server { game = hit }) target.id attacker.id target
            attacker at' by' fit
            (record {
              idx_in = good.ready.idx_in;
              few = good.ready.few;
              cells_in = good.ready.cells_in;
            })
            garbage in
        rw e (
          _,
          refl,
          (
            fit'.bullets_eq,
            record {
              keyed = fit'.keyed;
              ring = fit'.ring;
              ready = record {
                idx_in = good.ready.idx_in;
                few = good.ready.few;
                cells_in = rw fit'.map_eq good.ready.cells_in;
              };
            },
          ),
        )
