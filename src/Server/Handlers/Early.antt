-- ===== src/Server/Handlers/Early.antt =====
-- Inputs that are passed on.
use wa_game.Prelude.{ℕ, Bool, ◌∙◌, ◌≡◌, refl, ◌++◌, some, ◌&&◌, Returns}
use wa_game.Platform.{Platform, IsGht}
use wa_game.Server.{Segment, udp_important, Client, Server, broadcast}
use wa_game.Server.Broadcast.{IsIteration, delivered, share, broadcast-delivered}
use wa_game.Server.Handlers.{player_input, plays, not_from, write_player}
use wa_game.Server.Handlers.Guns.{bind_some}
use wa_game.Game.{Sbsm, Player}
use wa_game.Game.Input.{set_player_input_t}
use wa_game.Prelude.{==-self}

module _ (platform : Platform) where
  open platform use {ght, floats}

  -- When the game takes the input of a client's player without a fault, the server keeps what the
  -- game made of it, and just the other clients that play are told of the input, once each. The
  -- tables obey their laws and their iteration visits each key once.
  pub player_input_passed :
      (iterates : IsIteration platform) (laws : IsGht ght) (server : Server platform)
      (source : Client platform) (id flags : ℕ) (player : Player platform) (time : floats.F64)
      (r : Sbsm platform × Player platform)
      → source.player ≡ some id
      → ght.get server.game.players id ≡ some player
      → set_player_input_t platform server.game.sbsm player flags time ≡ some r
      → Returns (player_input platform server source flags time) (λ server'.
        (server'.game.sbsm ≡ r.0)
        × (ght.get server'.game.players id ≡ some r.1)
        × ((k : ℕ)
            → delivered platform k server'.sent
              ≡ delivered platform k server.sent
                ++ share platform
                    (λ client. plays platform client && not_from platform source.session_id client)
                    udp_important
                    (Segment.player_input id flags time)
                    (ght.get server.clients k)))
  unfolding player_input broadcast
  player_input_passed iterates laws server source id flags player time (sbsm, player') se pe done =
      let server' =
        write_player platform (record server { game = record server.game { sbsm = sbsm } }) id
          player' in
      let others : Client platform → Bool =
        λ client. plays platform client && not_from platform source.session_id client in
      (
        broadcast platform server' others udp_important (Segment.player_input id flags time),
        bind_some _ se (bind_some _ pe (bind_some _ done refl)),
        (
          refl,
          laws.get-write server.game.players id id player' ∙ rw (==-self id, pe) refl,
          λ k.
              broadcast-delivered platform iterates server' others udp_important
                (Segment.player_input id flags time) k,
        ),
      )
