-- ===== src/Server/Closing/Told.antt =====
-- Who is left, and who is told, when a client is closed (server/src/server.c).
use wa_game.Prelude.{
  ℕ, ◌≡◌, ◌≢◌, refl, sym, ap, ◌∙◌, arith, true, false, Option, none, some, ◌++◌, ◌==◌,
  if◌then◌else◌, Returns, Bool-cases, inl, inr, ==-self,
}
use wa_game.Platform.{Platform, IsGht}
use wa_game.Map.Disk.Load.{bind_split}
use wa_game.Game.{Player, Game}
use wa_game.Game.Players.{free_player}
use wa_game.Server.{Segment, tcp, Client, Server, broadcast}
use wa_game.Server.Broadcast.{IsIteration, delivered, share, broadcast-delivered}
use wa_game.Server.Handlers.{everyone, broadcast_delete_player}
use wa_game.Server.Closing.{free_player_of, tell_gone, close_client}

module _ (platform : Platform) (laws : IsGht platform.ght) (iterates : IsIteration platform) where
  open platform use {ght}

  -- The server after a client with the player `id` was closed.
  pub record HasClosed (server : Server platform) (session id : ℕ) (game : Game platform)
      (server' : Server platform) : Type 0 where
    pub game_eq : server'.game ≡ game
    pub clients_eq :
        (k : ℕ)
        → ght.get server'.clients k ≡ (if k == session then none else ght.get server.clients k)
    pub told :
        (k : ℕ)
        → delivered platform k server'.sent
          ≡ delivered platform k server.sent
            ++ share platform
                (everyone platform)
                tcp
                (Segment.delete_player id)
                (if k == session then none else ght.get server.clients k)

  -- While the server runs, closing a client of the table whose player, with an id that is not 0,
  -- is in the game does not fault if the game frees the player without a fault: the game is then
  -- what that leaves, the client is out of the table and the others are as they were, and each of
  -- the others, and nobody else, is told once over TCP that the player is gone. The tables obey
  -- their laws and their iteration visits each key once.
  pub close_client-HasClosed :
      (server : Server platform) (session id : ℕ) (client : Client platform)
      (player : Player platform)
      → (game : Game platform) → server.running ≡ true
      → ght.get server.clients session ≡ some client
      → client.player ≡ some id
      → id ≢ 0
      → ght.get server.game.players id ≡ some player
      → free_player platform server.game player ≡ some game
      → Returns (close_client platform server session) (HasClosed server session id game)
  unfolding close_client free_player_of tell_gone broadcast_delete_player broadcast
  close_client-HasClosed server session id client player game running here plays nonzero there
        freed =
      let left = record server {
        game = game;
        clients = ght.del server.clients session;
        running = true;
      } in
      let not_zero : id == 0 ≡ false = ground arith in
      rw (here, running, plays, there, freed, not_zero)
        (
          _,
          refl,
          record {
            game_eq = refl;
            clients_eq = λ k. laws.get-del server.clients session k;
            told = λ k.
                broadcast-delivered platform iterates left (everyone platform) tcp
                  (Segment.delete_player id) k
                ∙ ap
                    (λ o.
                      delivered platform k server.sent
                      ++ share platform (everyone platform) tcp (Segment.delete_player id) o)
                    (laws.get-del server.clients session k);
          },
        )

  tell_gone-clients :
      (server : Server platform) (o : Option ℕ)
      → (tell_gone platform server o).clients ≡ server.clients
  unfolding tell_gone broadcast_delete_player broadcast
  tell_gone-clients server none = refl
  tell_gone-clients server (some id) = elim (Bool-cases (id == 0)) [
    | inl zero' ↦ rw zero' refl
    | inr more ↦ rw more refl
  ]

  -- After a client was closed without a fault, closing it again faults; the tables obey their
  -- laws.
  pub close_client_again :
      (server server' : Server platform) (session : ℕ)
      → close_client platform server session ≡ some server'
      → close_client platform server' session ≡ none
  unfolding close_client free_player_of tell_gone broadcast_delete_player
  close_client_again server server' session e =
      let (client, _, after) = bind_split (ght.get server.clients session) _ server' e in
      let (left, _, last) = bind_split (free_player_of platform _ client.player) _ server' after in
      let gone = record left { clients = ght.del left.clients session } in
      let same : tell_gone platform gone client.player ≡ server' = some_injective last in
      let absent : ght.get server'.clients session ≡ none =
        ap (λ (t : Server platform). ght.get t.clients session) (sym same)
        ∙ ap (λ t. ght.get t session) (tell_gone-clients gone client.player)
        ∙ laws.get-del left.clients session session
        ∙ rw (==-self session) refl in
      rw absent refl
    where
      some_injective : {s t : Server platform} → some s ≡ some t → s ≡ t
      some_injective e = ground arith
