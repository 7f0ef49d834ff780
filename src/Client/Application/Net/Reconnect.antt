-- ===== src/Client/Application/Net/Reconnect.antt =====
-- A reconnection that the server asks for, and the connection that is made then.
use wa_game.Prelude.{
  ℕ, zero, suc, ◌≡◌, refl, ap, none, some, List, [], ◌∷◌, ◌++◌, if◌then◌else◌, take, Returns, true,
  Bool-cases, inl, inr,
}
use wa_game.Platform.{Platform}
use wa_game.Game.{Player}
use wa_game.Client.Application.{
  Request, saved, Application, ClientGame, connect, bot_mode, name_max,
}
use wa_game.Client.Application.Receive.{own_player, client_free_player}
use wa_game.Client.Application.Net.{on_connect, do_reconnect, async_connect, parse_address, waiting}

take-take {ℓ} : {A : Type ℓ} (n : ℕ) (xs : List A) → take n (take n xs) ≡ take n xs
take-take zero xs = refl
take-take (suc n) [] = refl
take-take (suc n) (x ∷ xs) = ap (λ ys. x ∷ ys) (take-take n xs)

module _ (platform : Platform) where
  -- What the client has sent when a connection under a name is made.
  abbrev pub asked : Application platform → List ℕ → List (Request platform)
  asked app name =
      let named = app.pushed ++ (connect (take name_max name) ∷ []) in
      if app.bot then named ++ (bot_mode true ∷ []) else named

  connected_then :
      (app : Application platform) (name : List ℕ)
      → app.save_username ≡ saved (take name_max name)
      → Returns
          (on_connect platform app)
          (λ app''. (app''.pushed ≡ asked app name) × (on_connect platform app'' ≡ none))
  unfolding on_connect
  connected_then app name e = elim (Bool-cases app.bot) [
    | inl bot ↦ rw (e, on_connect, bot, take-take name_max name) (_, refl, (refl, refl))
    | inr no_bot ↦ rw (e, on_connect, no_bot, take-take name_max name) (_, refl, (refl, refl))
  ]

  -- When the server asks a client to reconnect, whose player is in its game and is freed without
  -- a fault, and whose address can be read, and the connection is not made at once, then the
  -- player leaves the game; when the connection is made the client asks for its old name, as a
  -- bot if it is one; and a further connection faults.
  pub do_reconnect-on_connect :
      (strtoul : List ℕ → ℕ) (ipstr : List ℕ) (app : Application platform)
      (game left : ClientGame platform) (player : Player platform) (address : List ℕ × ℕ)
      → app.game ≡ some game
      → own_player platform game ≡ some player
      → parse_address strtoul ipstr ≡ some address
      → client_free_player platform (record game { player = none }) player ≡ some left
      → Returns (do_reconnect platform strtoul waiting ipstr app) (λ app'.
        (app'.game ≡ some left)
        × Returns (on_connect platform app') (λ app''.
          (app''.pushed ≡ asked app player.username) × (on_connect platform app'' ≡ none)))
  unfolding do_reconnect async_connect on_connect
  do_reconnect-on_connect strtoul ipstr app game left player address g o p f =
      rw (g, o, p, f) (_, refl, (refl, connected_then _ player.username refl))
