-- ===== src/Server/Handlers/Bots.antt =====
-- server/src/server_game.c, `bot_mode`: a client that is driven by the program has a name that says so.
pub mod Named
use wa_game.Prelude.{
  ℕ, zero, suc, ◌-◌, ◌+◌, ◌/◌, ◌%◌, ltb, Bool, true, false, not, Option, none, some, List, [], ◌∷◌,
  ◌++◌, if◌then◌else◌, take, ◌>>=◌,
}
use wa_game.Platform.{Platform}
use wa_game.Game.{Player}
use wa_game.Server.{Segment, tcp, Client, Server, broadcast}
use wa_game.Server.Handlers.{plays, write_player}

abbrev pub username_max : ℕ
username_max = 32

-- `%u` of an unsigned number of 32 bits, which has ten digits at most.
digits : ℕ → ℕ → List ℕ
digits zero n = []
digits (suc fuel) n =
    let rest = digits fuel (n / 10) ++ ((48 + n % 10) ∷ []) in
    if ltb n 10 then (48 + n) ∷ [] else rest

-- `"Bot_%s_%u"`, as `snprintf` cuts it
unfoldable pub bot_name : List ℕ → ℕ → List ℕ
unfolding digits
bot_name og id = take (username_max - 1) (66 ∷ 111 ∷ 116 ∷ 95 ∷ (og ++ (95 ∷ digits 10 id)))

abbrev same_mode : Bool → Bool → Bool
same_mode true b = b
same_mode false b = not b

module _ (platform : Platform) where
  open platform use {ght}

  -- The new name of the player, and what is kept of the old one. A name that is not kept is a fault.
  abbrev new_names : Bool → Client platform → Player platform → Option (List ℕ × Option (List ℕ))
  new_names true source player =
      let og = take username_max player.username in some (bot_name og player.id, some og)
  new_names false source player = do
    og ← source.og_username
    some (take (username_max - 1) og, none)

  abbrev rename :
      Server platform
      → Client platform
      → Bool
      → ℕ
      → Player platform
      → List ℕ × Option (List ℕ)
      → Server platform
  rename server source is_bot id player (name, og) =
      let source' = record source { bot = is_bot; og_username = og } in
      let known = record server { clients = ght.write server.clients source.session_id source' } in
      let renamed = write_player platform known id (record player { username = name }) in
      broadcast platform renamed (plays platform) tcp
        (Segment.username_change player.id (take username_max name))

  abbrev change_mode : Server platform → Client platform → Bool → Option (Server platform)
  change_mode server source is_bot = do
    id ← source.player
    player ← ght.get server.game.players id
    names ← new_names is_bot source player
    some (rename server source is_bot id player names)

  unfoldable pub bot_mode : Server platform → Client platform → Bool → Option (Server platform)
  bot_mode server source is_bot =
      if same_mode is_bot source.bot then some server else change_mode server source is_bot
