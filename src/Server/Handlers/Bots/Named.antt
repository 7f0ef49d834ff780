-- ===== src/Server/Handlers/Bots/Named.antt =====
-- A client becomes a bot, and is none again.
use wa_game.Prelude.{
  ℕ, zero, suc, ◌<◌, ◌≡◌, refl, ap, ◌∙◌, arith, Bool, true, false, Option, none, some, List, [],
  ◌∷◌, take, length, ◌>>=◌, Returns, ==-self,
}
use wa_game.Platform.{Platform, IsGht}
use wa_game.Game.{Player}
use wa_game.Server.{Client, Server, broadcast}
use wa_game.Server.Handlers.Bots.{rename, change_mode, new_names, bot_mode, bot_name, username_max}

take-short {ℓ} : {A : Type ℓ} (n : ℕ) (xs : List A) → length xs < suc n → take n xs ≡ xs
take-short zero [] h = refl
take-short zero (x ∷ xs) h = absurd (omega arith)
take-short (suc n) [] h = refl
take-short (suc n) (x ∷ xs) h = ap (λ ys. x ∷ ys) (take-short n xs (omega arith))

module _ (platform : Platform) where
  open platform use {ght}

  -- The client of a session and its player.
  pub record Plays (server : Server platform) (k id : ℕ) (c : Client platform) (p : Player platform)
      : Type 0 where
    pub client_at : ght.get server.clients k ≡ some c
    pub session_eq : c.session_id ≡ k
    pub player_eq : c.player ≡ some id
    pub player_at : ght.get server.game.players id ≡ some p

  module _ (is_ght : IsGht ght) (server : Server platform) (k id : ℕ) (c : Client platform)
      (p : Player platform) (plays : Plays server k id c p) where
    rename-Plays :
        (b : Bool) (name : List ℕ) (og : Option (List ℕ))
        → Plays
            (rename platform server c b id p (name, og))
            k
            id
            (record c { bot = b; og_username = og })
            (record p { username = name })
    unfolding broadcast
    rename-Plays b name og = record {
      client_at =
          rw (plays.session_eq)
            (is_ght.get-write server.clients k k _ ∙ rw (==-self k, plays.client_at) refl);
      session_eq = plays.session_eq;
      player_eq = plays.player_eq;
      player_at =
          is_ght.get-write server.game.players id id _ ∙ rw (==-self id, plays.player_at) refl;
    }

    change_eq :
        (b : Bool)
        → change_mode platform server c b
          ≡ (new_names platform b c p >>= λ names. some (rename platform server c b id p names))
    change_eq b = rw (plays.player_eq, plays.player_at) refl

    become_bot :
        c.bot ≡ false
        → length p.username < username_max
        → Returns (bot_mode platform server c true) (λ between.
          Plays between k id
            (record c { bot = true; og_username = some p.username })
            (record p { username = bot_name p.username p.id }))
    unfolding bot_mode
    become_bot no_bot short =
        let cut = take-short 32 p.username (omega arith) in
        let named = bot_name p.username p.id in
        let asked : bot_mode platform server c true ≡ change_mode platform server c true =
          rw no_bot refl in
        let done : change_mode platform server c true
            ≡ some (rename platform server c true id p (named, some p.username)) =
          change_eq true ∙ rw cut refl in
        (_, asked ∙ done, rename-Plays true named (some p.username))

    be_no_bot :
        (og : List ℕ)
        → c.bot ≡ true
        → c.og_username ≡ some og
        → length og < username_max
        → Returns (bot_mode platform server c false) (λ after.
          Plays after k id
            (record c { bot = false; og_username = none })
            (record p { username = og }))
    unfolding bot_mode
    be_no_bot og is_bot kept short =
        let asked : bot_mode platform server c false ≡ change_mode platform server c false =
          rw is_bot refl in
        let found : new_names platform false c p ≡ some (og, none) =
          rw (kept, take-short 31 og short) refl in
        let done : change_mode platform server c false
            ≡ some (rename platform server c false id p (og, none)) =
          change_eq false
          ∙ ap (λ o. o >>= λ names. some (rename platform server c false id p names)) found in
        (_, asked ∙ done, rename-Plays false og none)

  -- A client of the table that is no bot, whose player is in the game under a name of fewer than
  -- 32 bytes, becomes a bot, with the name of one and the old name kept, and when it is none
  -- again its player is as before and nothing is kept; nothing faults, and the tables obey their
  -- laws.
  pub bot_mode-bot_mode :
      (is_ght : IsGht ght) (server : Server platform) (k id : ℕ) (c : Client platform)
      (p : Player platform)
      → Plays server k id c p
      → c.bot ≡ false
      → length p.username < username_max
      → Returns (bot_mode platform server c true) (λ between.
        Plays between k id
          (record c { bot = true; og_username = some p.username })
          (record p { username = bot_name p.username p.id })
        × Returns
            (bot_mode platform between
              (record c { bot = true; og_username = some p.username })
              false)
            (λ after. Plays after k id (record c { bot = false; og_username = none }) p))
  bot_mode-bot_mode is_ght server k id c p plays no_bot short =
      let (between, e, plays') = become_bot is_ght server k id c p plays no_bot short in
      (between, e, (plays', be_no_bot is_ght between k id _ _ plays' p.username refl refl short))
