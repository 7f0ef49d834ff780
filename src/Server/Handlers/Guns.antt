-- ===== src/Server/Handlers/Guns.antt =====
-- `player_gun_id`: what a client can do to the server and to the others by asking for a gun.
use wa_game.Prelude.{
  ℕ, Bool, if◌then◌else◌, ◌≡◌, ◌≢◌, refl, ◌∙◌, sym, arith, true, false, ◌++◌, Option, none, some,
  [], ◌∷◌, ◌==◌, Returns, ◌>>=◌, Bool-cases, inl, inr,
}
use mathlib.Core.List.{append-nil}
use wa_game.Prelude.Int.{pos, ltb_ℤ}
use wa_game.Platform.{Platform, IsGht}
use wa_game.Game.{Gun, GunSpec, Player, live, freed}
use wa_game.Game.Guns.{get_gun_spec}
use wa_game.Game.Guns.Change.{
  Changed, kept, taken, player_change_gun-Changed, player_change_gun_unknown,
}
use wa_game.Prelude.{==-self}
use wa_game.Server.{Segment, udp_important, Client, Server, broadcast}
use wa_game.Server.Broadcast.{IsIteration, delivered, delivered-append, share, broadcast-delivered}
use wa_game.Server.Handlers.{answer_gun_id, player_gun_id, plays, write_player, push_to}

pub bind_some :
    {A B : Type 0} {o : Option A} {a : A} {r : Option B} (f : A → Option B)
    → o ≡ some a
    → f a ≡ r
    → (o >>= f) ≡ r
bind_some f e g = rw e g

module _ (platform : Platform) where
  open platform use {ght}

  answer_freed :
      (server : Server platform) (source : Client platform) (id gun_id : ℕ)
      (changed : Player platform × Bool)
      → changed.1 ≡ false
      → changed.0.gun ≡ freed
      → answer_gun_id platform server source id gun_id changed ≡ none
  unfolding answer_gun_id
  answer_freed server source id gun_id (player, true) e f = absurd (ground arith)
  answer_freed server source id gun_id (player, false) e f = rw f refl

  live_not_freed : (gun : Gun platform) → live gun ≢ freed
  live_not_freed gun e = ground arith

  -- What the clients are told, and what the player then holds.
  pub data Answered (server : Server platform) (source : Client platform) (id gun_id : ℕ)
      (server' : Server platform) : Type 0 where
    changed_gun :
        (player : Player platform) (gun : Gun platform)
        → ght.get server'.game.players id ≡ some player
        → player.gun ≡ live gun
        → gun.spec.id ≡ gun_id
        → gun.ammo ≡ gun.spec.max_ammo
        → ((k : ℕ)
            → delivered platform k server'.sent
              ≡ delivered platform k server.sent
                ++ share platform
                    (plays platform)
                    udp_important
                    (Segment.player_gun_id id gun_id)
                    (ght.get server.clients k))
        → Answered server source id gun_id server'
    kept_gun :
        (player : Player platform) (gun : Gun platform)
        → ght.get server.game.players id ≡ some player
        → ght.get server'.game.players id ≡ some player
        → player.gun ≡ live gun
        → ((k : ℕ)
            → delivered platform k server'.sent ≡ (
                if source.session_id == k
                then delivered platform k server.sent
                  ++ ((udp_important, Segment.player_gun_id id gun.spec.id) ∷ [])
                else delivered platform k server.sent))
        → Answered server source id gun_id server'

  answer-Answered :
      (iterates : IsIteration platform) (laws : IsGht ght) (server : Server platform)
      (source : Client platform) (id gun_id : ℕ) (player : Player platform) (gun : Gun platform)
      → ght.get server.game.players id ≡ some player
      → player.gun ≡ live gun
      → {changed : Player platform × Bool} → Changed platform player gun_id changed
      → Returns
          (answer_gun_id platform server source id gun_id changed)
          (Answered server source id gun_id)
  unfolding answer_gun_id broadcast
  answer-Answered iterates laws server source id gun_id player gun pe held kept = (
    push_to platform (write_player platform server id player) source.session_id udp_important
        (Segment.player_gun_id id gun.spec.id),
    rw held refl,
    kept_gun player gun pe
        (laws.get-write server.game.players id id player ∙ rw (==-self id, pe) refl) held
        (λ k.
          delivered-append platform k server.sent _ ∙ elim (Bool-cases (source.session_id == k)) [
            | inl e ↦ rw e
            | inr e ↦ rw e (append-nil (delivered platform k server.sent))
          ]),
  )
  answer-Answered iterates laws server source id gun_id player gun pe held (taken g ge full) =
      let player' = record player { gun = live g } in
      (
        broadcast platform (write_player platform server id player') (plays platform) udp_important
            (Segment.player_gun_id id gun_id),
        refl,
        changed_gun player' g
            (laws.get-write server.game.players id id player' ∙ rw (==-self id, pe) refl) refl ge
            full
            (λ k.
              broadcast-delivered platform iterates (write_player platform server id player')
                (plays platform) udp_important (Segment.player_gun_id id gun_id) k),
      )

  -- When a client, whose player is in the game and holds a gun with ammunition, asks for a kind
  -- of gun that the game has not, other than the one held, the handler faults: it reads the gun
  -- that was freed.
  pub player_gun_id_unknown :
      (server : Server platform) (source : Client platform) (id gun_id : ℕ)
      (player : Player platform) (gun : Gun platform)
      → source.player ≡ some id
      → ght.get server.game.players id ≡ some player
      → get_gun_spec platform server.game.gun_specs gun_id ≡ none
      → player.gun ≡ live gun
      → (gun.spec.id == gun_id) ≡ false
      → ltb_ℤ (pos 0) gun.ammo ≡ true
      → player_gun_id platform server source gun_id ≡ none
  unfolding player_gun_id answer_gun_id
  player_gun_id_unknown server source id gun_id player gun se pe unknown held other loaded =
      let (changed, e, d) =
        player_change_gun_unknown platform server.game.gun_specs player gun_id gun unknown held
          other loaded in
      rw (se, pe, e) (answer_freed server source id gun_id changed d.refused d.gun_freed)

  -- When a client, whose player is in the game and holds a gun, asks for a kind of gun that the
  -- game has, the handler does not fault: either the player then holds a full gun of that kind
  -- and just the clients that play are told, once each, or the player is as before and only the
  -- client is told, of the gun that the player holds. The tables obey their laws and their
  -- iteration visits each key once.
  pub player_gun_id_known :
      (iterates : IsIteration platform) (laws : IsGht ght) (server : Server platform)
      (source : Client platform) (id gun_id : ℕ) (player : Player platform)
      (spec : GunSpec platform)
      → source.player ≡ some id
      → ght.get server.game.players id ≡ some player
      → get_gun_spec platform server.game.gun_specs gun_id ≡ some spec
      → (gun : Gun platform) → player.gun ≡ live gun
      → Returns (player_gun_id platform server source gun_id) (Answered server source id gun_id)
  unfolding player_gun_id
  player_gun_id_known iterates laws server source id gun_id player spec se pe known gun held =
      let (changed, e, c) =
        player_change_gun-Changed platform server.game.gun_specs player gun_id spec known
          (λ f. live_not_freed gun (sym held ∙ f)) in
      let (server', f, answered) =
        answer-Answered iterates laws server source id gun_id player gun pe held c in
      (server', bind_some _ se (bind_some _ pe (bind_some _ e f)), answered)
