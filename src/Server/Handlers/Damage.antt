-- ===== src/Server/Handlers/Damage.antt =====
-- server/src/server_game.c, `on_player_damaged`: a player who has no health left is sent back to a spawn
-- point, and all clients are told. `garbage` is what the fresh memory of a segment holds in the field
-- that is not set.
pub mod Answers
use wa_game.Prelude.{
  ℕ, ◌+◌, if◌then◌else◌, true, Option, none, some, List, [], ◌∷◌, ◌++◌, map, ◌>>=◌,
}
use wa_game.Prelude.Int.{pos}
use wa_game.Platform.{Platform}
use wa_game.Vec.{Vec}
use wa_game.Map.{u16}
use wa_game.Game.{Player}
use wa_game.Game.Snapshots.{delete_player}
use wa_game.Server.{Segment, Channel, udp, udp_important, Sent, Client, Server}
use wa_game.Server.Spawn.{next_spawn}
use wa_game.Server.Handlers.{write_player}

module _ (platform : Platform) where
  open platform use {ght, floats}
  open floats use {F32, F64, s}

  -- An update through a pointer to a player.
  pub modify_player :
      Server platform → ℕ → (Player platform → Player platform) → Option (Server platform)
  modify_player server id f = do
    player ← ght.get server.game.players id
    some (write_player platform server id (f player))

  -- All of a client's segments in one round of the iteration.
  abbrev parcel :
      ℕ
      → Option (Client platform)
      → List (Channel platform × Segment platform)
      → List (Sent platform)
  parcel key none segments = []
  parcel key (some client) segments =
      map (λ p. record { to = key; channel = p.0; segment = p.1 }) segments

  push_parcels :
      Server platform → List (Channel platform × Segment platform) → List ℕ → List (Sent platform)
  push_parcels server segments [] = []
  push_parcels server segments (k ∷ ks) =
      parcel k (ght.get server.clients k) segments ++ push_parcels server segments ks

  pub send_all : Server platform → List (Channel platform × Segment platform) → Server platform
  unfolding push_parcels
  send_all server segments = record server {
    sent = server.sent ++ push_parcels server segments (ght.keys server.clients);
  }

  -- `health->health <= 0`: the target is out of the ring of snapshots and stands at a spawn point with
  -- full health, and the kill is counted.
  unfoldable pub respawn : Server platform → ℕ → ℕ → Option (Vec floats × Server platform)
  unfolding modify_player
  respawn server target attacker = do
    sbsm ← delete_player platform server.game.sbsm target
    (to, server1) ←
        next_spawn platform (record server { game = record server.game { sbsm = sbsm } })
    server2 ← modify_player server1 target λ p. record p { pos = to; health = p.max_health }
    server3 ← modify_player server2 attacker λ p. record p { kills = u16 (p.kills + 1) }
    server4 ← modify_player server3 target λ p. record p { deaths = u16 (p.deaths + 1) }
    some (to, server4)

  -- The five segments that tell of a kill.
  abbrev obituary :
      Vec floats
      → ℕ
      → Player platform
      → Player platform
      → List (Channel platform × Segment platform)
  obituary to garbage target attacker =
      (udp_important, Segment.player_health target.id (s.to_ℤ target.health))
      ∷ (udp_important, Segment.player_move target.id to garbage true)
      ∷ (udp, Segment.player_died target.id attacker.id)
      ∷ (udp, Segment.player_stats target.id target.kills target.deaths)
      ∷ (udp, Segment.player_stats attacker.id attacker.kills attacker.deaths)
      ∷ []

  pub kill : Server platform → ℕ → ℕ → ℕ → Option (Server platform)
  kill server target attacker garbage = do
    (to, server') ← respawn server target attacker
    dead ← ght.get server'.game.players target
    killer ← ght.get server'.game.players attacker
    some (send_all server' (obituary to garbage dead killer))

  pub on_player_damaged : Server platform → ℕ → ℕ → ℕ → Option (Server platform)
  unfolding kill send_all
  on_player_damaged server target attacker garbage = do
    player ← ght.get server.game.players target
    let fatal = kill server target attacker garbage
    (if s.le player.health (s.of_ℤ (pos 0))
        then fatal
        else some (
            send_all server
              ((udp_important, Segment.player_health player.id (s.to_ℤ player.health)) ∷ [])))
