-- ===== src/Client/Application/Keys/Held.antt =====
-- The keys that are held, and the flags of the input.
use Prim.Native.Nat.{bit_or, bit_xor}
use wa_game.Prelude.{
  ℕ, zero, suc, ◌^◌, ◌<◌, ◌≡◌, refl, ap, ◌∙◌, arith, Bool, true, false, not, ◌&&◌, ◌||◌, Option,
  none, some, List, [], ◌∷◌, ◌==◌, ltb, if◌then◌else◌, ◌>>=◌, Returns, Bool-cases, inl, inr,
}
use wa_game.Platform.{Platform}
use wa_game.Vec.{Vec}
use wa_game.Game.{Player, input_up}
use wa_game.Game.Input.{has_flag}
use wa_game.Client.Application.{ClientGame}
use wa_game.Client.Application.Keys.{Key, switch_key, handle_key}

-- A test of the numbers from a bound down, to be run.
holds_to : (ℕ → Bool) → ℕ → Bool
holds_to test zero = true
holds_to test (suc bound) = let lower = holds_to test bound in if test bound then lower else false

holds_to-at :
    (test : ℕ → Bool) {bound : ℕ} (k : ℕ) → k < bound → holds_to test bound ≡ true → test k ≡ true
unfolding holds_to
holds_to-at test {bound = zero} k inside run = elim inside [ ]
holds_to-at test {bound = suc bound} k inside run = elim (Bool-cases (test bound)) [
  | inr bad ↦ let no_run : false ≡ true = rw bad at run in absurd (cc)
  | inl good ↦
      let run' : holds_to test bound ≡ true = rw good at run in
      elim (Bool-cases (k == bound)) [
        | inl last ↦ let e : k ≡ bound = ground arith in rw e good
        | inr before ↦ holds_to-at test {bound = bound} k (ground arith) run'
      ]
]

abbrev beq : Bool → Bool → Bool
beq true b = b
beq false b = not b

beq_lem : (p q : Bool) → beq p q ≡ true → p ≡ q
beq_lem p q e = ground arith

-- What a press and a release of the key of one flag do to another.
abbrev check : ℕ → ℕ → ℕ → Bool
check j k i =
    (ltb (bit_or i (2 ^ j)) 32 && ltb (bit_xor i (2 ^ j)) 32)
    && (beq (has_flag (bit_or i (2 ^ j)) (2 ^ k)) (k == j || has_flag i (2 ^ k))
        && beq (has_flag (bit_xor i (2 ^ j)) (2 ^ k))
            (if k == j then not (has_flag i (2 ^ k)) else has_flag i (2 ^ k)))

-- Each pair of flags, at each input.
checks : holds_to (λ j. holds_to (λ k. holds_to (check j k) 32) 4) 4 ≡ true
unfolding holds_to
checks = refl

check_lem : (j k i : ℕ) → j < 4 → k < 4 → i < 32 → check j k i ≡ true
check_lem j k i a b c =
    let of_j = holds_to-at (λ j. holds_to (λ k. holds_to (check j k) 32) 4) j a checks in
    let of_k = holds_to-at (λ k. holds_to (check j k) 32) k b of_j in
    holds_to-at (check j k) i c of_k

-- The input's flags are those of the keys that are down.
pub record IsInput (down : ℕ → Bool) (input : ℕ) : Type 0 where
  pub small : input < 32
  pub flags : (k : ℕ) → k < 4 → has_flag input (2 ^ k) ≡ down k

abbrev pub after : (ℕ → Bool) → ℕ → Bool → ℕ → Bool
after down j pressed k = if k == j then pressed else down k

lt_of_test : (p q : ℕ) → ltb p q ≡ true → p < q
lt_of_test p q e = ground arith

and_true : (p q : Bool) → (p && q) ≡ true → (p ≡ true) × (q ≡ true)
and_true p q e = ground arith

module _ (down : ℕ → Bool) (input j : ℕ) (h : j < 4) (ok : IsInput down input) where
  checked :
      (k : ℕ)
      → k < 4
      → (bit_or input (2 ^ j) < 32)
        × (bit_xor input (2 ^ j) < 32)
        × (has_flag (bit_or input (2 ^ j)) (2 ^ k) ≡ (k == j || down k))
        × (has_flag (bit_xor input (2 ^ j)) (2 ^ k) ≡ (if k == j then not (down k) else down k))
  checked k hk =
      let (sizes, rest) = and_true _ _ (check_lem j k input h hk ok.small) in
      let (small_or, small_xor) = and_true _ _ sizes in
      let (set, cleared) = and_true _ _ rest in
      let held = ok.flags k hk in
      (
        lt_of_test _ _ small_or,
        lt_of_test _ _ small_xor,
        rw (← held) (beq_lem _ _ set),
        rw (← held) (beq_lem _ _ cleared),
      )

  flip_IsInput :
      (pressed : Bool)
      → down j ≡ not pressed
      → IsInput
          (after down j pressed)
          (if pressed then bit_or input (2 ^ j) else bit_xor input (2 ^ j))
  flip_IsInput true d = record {
    small = (checked 0 (omega arith)).0;
    flags = λ k hk.
        (checked k hk).2
        ∙ elim (Bool-cases (k == j)) [ inl same ↦ rw same refl | inr other ↦ rw other refl ];
  }
  flip_IsInput false d = record {
    small = (checked 0 (omega arith)).1;
    flags = λ k hk. (checked k hk).3 ∙ elim (Bool-cases (k == j)) [
      | inl same ↦ let kj : k ≡ j = ground arith in rw (same, kj, d) refl
      | inr other ↦ rw other refl
    ];
  }

-- The flag of a key that moves the player, by its place in the byte.
abbrev pub bit_of : Key → Option ℕ
bit_of Key.w = some 0
bit_of Key.s = some 1
bit_of Key.d = some 2
bit_of Key.a = some 3
bit_of _ = none

-- The events of those keys: each is pressed when it is up, and released when it is down.
abbrev pub IsTurn : (ℕ → Bool) → Option ℕ → Bool → Type 0
IsTurn down none pressed = ⊥
IsTurn down (some j) pressed = down j ≡ not pressed

abbrev pub after_key : (ℕ → Bool) → Option ℕ → Bool → ℕ → Bool
after_key down none pressed = down
after_key down (some j) pressed = after down j pressed

abbrev pub AreTurns : (ℕ → Bool) → List (Key × Bool) → Type 0
AreTurns down [] = Unit
AreTurns down ((key, pressed) ∷ events) =
    IsTurn down (bit_of key) pressed × AreTurns (after_key down (bit_of key) pressed) events

abbrev pub after_keys : (ℕ → Bool) → List (Key × Bool) → ℕ → Bool
after_keys down [] = down
after_keys down ((key, pressed) ∷ events) = after_keys (after_key down (bit_of key) pressed) events

module _ (platform : Platform) where
  open platform use {ght}

  -- Several events of the keyboard, for the game alone.
  unfoldable pub handle_keys :
      Vec platform.floats
      → Bool
      → List (Key × Bool)
      → ClientGame platform
      → Option (ClientGame platform)
  handle_keys mouse ctrl [] game = some game
  handle_keys mouse ctrl ((key, pressed) ∷ events) game = do
    (game', _) ← handle_key platform mouse ctrl game key pressed
    handle_keys mouse ctrl events game'

  -- One such event.
  module _ (mouse : Vec platform.floats) (ctrl : Bool) (game : ClientGame platform) (own : ℕ)
      (p : Player platform) (mine : game.player ≡ some own)
      (here : ght.get game.cg.players own ≡ some p) (shut : game.open_chat ≡ false)
      (down : ℕ → Bool) (ok : IsInput down game.input) where
    turn :
        (key : Key) (pressed : Bool)
        → IsTurn down (bit_of key) pressed
        → Returns (handle_key platform mouse ctrl game key pressed) (λ r.
          IsInput (after_key down (bit_of key) pressed) r.0.input
          × ((r.0.player ≡ some own)
              × (ght.get r.0.cg.players own ≡ some p)
              × (r.0.open_chat ≡ false)))
    unfolding handle_key switch_key
    turn Key.w pressed i =
        rw (shut, mine, here)
          (_, refl, (flip_IsInput down game.input 0 (omega arith) ok pressed i, (refl, here, refl)))
    turn Key.s pressed i =
        rw (shut, mine, here)
          (_, refl, (flip_IsInput down game.input 1 (omega arith) ok pressed i, (refl, here, refl)))
    turn Key.d pressed i =
        rw (shut, mine, here)
          (_, refl, (flip_IsInput down game.input 2 (omega arith) ok pressed i, (refl, here, refl)))
    turn Key.a pressed i =
        rw (shut, mine, here)
          (_, refl, (flip_IsInput down game.input 3 (omega arith) ok pressed i, (refl, here, refl)))
    turn Key.v pressed i = elim i [ ]
    turn Key.space pressed i = elim i [ ]
    turn Key.t pressed i = elim i [ ]
    turn Key.enter pressed i = elim i [ ]
    turn Key.esc pressed i = elim i [ ]
    turn Key.one pressed i = elim i [ ]
    turn Key.two pressed i = elim i [ ]
    turn Key.three pressed i = elim i [ ]
    turn Key.r pressed i = elim i [ ]
    turn Key.b pressed i = elim i [ ]
    turn Key.other pressed i = elim i [ ]

  -- While the chat is closed and the client has a player, who is in its game, the four flags of
  -- movement are those of the keys that are down, after any presses of such keys that are up and
  -- releases of such keys that are down, if they were so before, with an input below 32; nothing
  -- faults.
  pub handle_keys-IsInput :
      (mouse : Vec platform.floats) (ctrl : Bool) (events : List (Key × Bool)) (down : ℕ → Bool)
      (game : ClientGame platform) (own : ℕ) (p : Player platform)
      → game.player ≡ some own
      → ght.get game.cg.players own ≡ some p
      → game.open_chat ≡ false
      → IsInput down game.input
      → AreTurns down events
      → Returns
          (handle_keys mouse ctrl events game)
          (λ game'. IsInput (after_keys down events) game'.input)
  unfolding handle_keys
  handle_keys-IsInput mouse ctrl [] down game own p mine here shut ok turns = (game, refl, ok)
  handle_keys-IsInput mouse ctrl ((key, pressed) ∷ events) down game own p mine here shut ok turns =
      let (r, e, (ok', (mine', here', shut'))) =
        turn mouse ctrl game own p mine here shut down ok key pressed turns.0 in
      rw e (handle_keys-IsInput mouse ctrl events _ r.0 own p mine' here' shut' ok' turns.1)

  -- If the chat is open and the flag for up is clear, with an input below 32, then after W is
  -- pressed, the chat is closed with Escape, and both keys are released, the flag for up is set,
  -- in a game that has the client's own player.
  pub handle_keys-stuck :
      (mouse : Vec platform.floats) (ctrl : Bool) (game : ClientGame platform) (own : ℕ)
      (p : Player platform)
      → game.player ≡ some own
      → ght.get game.cg.players own ≡ some p
      → game.open_chat ≡ true
      → game.input < 32
      → has_flag game.input input_up ≡ false
      → Returns
          (handle_keys mouse ctrl
            ((Key.w, true) ∷ (Key.esc, true) ∷ (Key.esc, false) ∷ (Key.w, false) ∷ [])
            game)
          (λ game'. has_flag game'.input input_up ≡ true)
  unfolding handle_keys handle_key switch_key
  handle_keys-stuck mouse ctrl game own p mine here opened small up =
      let (_, rest) = and_true _ _ (check_lem 0 0 game.input (omega arith) (omega arith) small) in
      let (_, cleared) = and_true _ _ rest in
      rw (opened, mine, here) (_, refl, beq_lem _ _ cleared ∙ ap not up)
