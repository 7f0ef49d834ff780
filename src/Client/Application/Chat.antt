-- ===== src/Client/Application/Chat.antt =====
-- The chat of the client: after any messages it holds the last ones.
use wa_game.Prelude.{
  ℕ, zero, suc, ◌+◌, ◌-◌, ◌<◌, ◌≤◌, ◌≡◌, refl, ap, sym, ◌∙◌, arith, Option, List, [], ◌∷◌, ◌++◌,
  leb, length, length-append, drop, length-drop, Bool-cases, inl, inr,
}
use mathlib.Core.List.{append_assoc, append-nil}
use wa_game.Platform.{Platform, IsArray}
use wa_game.Client.Application.{
  ChatMsg, ClientGame, chat_kept, chat_append, chat_entry, add_chatmsg,
}

-- The last `n` of a list.
abbrev pub last {ℓ} : {A : Type ℓ} → ℕ → List A → List A
last n xs = drop (length xs - n) xs

drop-append {ℓ} :
    {A : Type ℓ} (n : ℕ) (xs ys : List A) → n ≤ length xs → drop n (xs ++ ys) ≡ drop n xs ++ ys
drop-append zero xs ys h = refl
drop-append (suc n) [] ys h = absurd (omega arith)
drop-append (suc n) (x ∷ xs) ys h = drop-append n xs ys (omega arith)

drop-suc {ℓ} : {A : Type ℓ} (n : ℕ) (xs : List A) → drop 1 (drop n xs) ≡ drop (suc n) xs
drop-suc zero xs = refl
drop-suc (suc n) [] = refl
drop-suc (suc n) (x ∷ xs) = drop-suc n xs

module _ (platform : Platform) where
  open platform use {arrays, floats}
  open floats use {F64}

  -- A message as it comes: the time, the name or none, and the text.
  abbrev pub Message : Type 0
  Message = F64 × Option (List ℕ) × List ℕ

  unfoldable pub add_all : ClientGame platform → List Message → ClientGame platform
  add_all game [] = game
  add_all game ((now, name, msg) ∷ lines) = add_all (add_chatmsg platform game now name msg) lines

  -- The entries of the messages that are not empty.
  abbrev pub entry_of : Option (List ℕ) → List ℕ → List ChatMsg
  entry_of name [] = []
  entry_of name (b ∷ bs) = chat_entry name (b ∷ bs) ∷ []

  abbrev pub entries : List Message → List ChatMsg
  entries [] = []
  entries ((now, name, msg) ∷ lines) = entry_of name msg ++ entries lines

  module _ (is_array : IsArray arrays) where
    chat_append-last :
        (all : List ChatMsg) (entry : ChatMsg)
        → chat_append platform (last 29 all) entry ≡ last 29 (all ++ (entry ∷ []))
    unfolding chat_append
    chat_append-last all entry =
        let n = length all in
        let kept = last 29 all ++ (entry ∷ []) in
        let added : arrays.add (last 29 all) entry ≡ kept = is_array.add_lem (last 29 all) entry in
        let n' : length (all ++ (entry ∷ [])) ≡ n + 1 = length-append all (entry ∷ []) in
        let len : length kept ≡ length (drop (n - 29) all) + 1 =
          length-append (drop (n - 29) all) (entry ∷ []) in
        let short : length (drop (n - 29) all) ≡ n - (n - 29) = length-drop (n - 29) all in
        let whole : kept ≡ drop (n - 29) (all ++ (entry ∷ [])) =
          sym (drop-append (n - 29) all (entry ∷ []) (omega arith)) in
        elim (Bool-cases (leb chat_kept (length kept))) [
          | inl full ↦
              let is_full : 30 ≤ length kept = ground arith in
              let next : suc (n - 29) ≡ n + 1 - 29 = omega arith in
              rw
                (
                  added,
                  full,
                  is_array.erase_lem kept 0,
                  whole,
                  drop-suc (n - 29) (all ++ (entry ∷ [])),
                  next,
                  n',
                )
                refl
          | inr room ↦
              let is_short : length kept < 30 = ground arith in
              let none_out : n - 29 ≡ n + 1 - 29 = omega arith in
              rw (added, room, whole, none_out, n') refl
        ]

    add_all-last :
        (lines : List Message) (game : ClientGame platform) (all : List ChatMsg)
        → game.chat_msgs ≡ last 29 all
        → (add_all game lines).chat_msgs ≡ last 29 (all ++ entries lines)
    unfolding add_all add_chatmsg
    add_all-last [] game all e = rw (append-nil) e
    add_all-last ((now, name, []) ∷ lines) game all e = add_all-last lines game all e
    add_all-last ((now, name, b ∷ bs) ∷ lines) game all e =
        let entry = chat_entry name (b ∷ bs) in
        let e' : chat_append platform game.chat_msgs entry ≡ last 29 (all ++ (entry ∷ [])) =
          ap (λ msgs. chat_append platform msgs entry) e ∙ chat_append-last all entry in
        add_all-last lines _ (all ++ (entry ∷ [])) e'
        ∙ ap (last 29) (append_assoc all (entry ∷ []) (entries lines))

    -- If the chat holds fewer than 30 messages, then after any messages it holds the last 29 of
    -- those that it held and of the entries of the new ones that are not empty; arrays append and
    -- erase as they should.
    pub add_chatmsg-last :
        (game : ClientGame platform) (lines : List Message)
        → length game.chat_msgs < chat_kept
        → (add_all game lines).chat_msgs ≡ last 29 (game.chat_msgs ++ entries lines)
    add_chatmsg-last game lines h =
        let whole : length game.chat_msgs - 29 ≡ 0 = omega arith in
        add_all-last lines game game.chat_msgs (rw whole refl)
