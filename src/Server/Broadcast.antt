-- ===== src/Server/Broadcast.antt =====
-- Who is sent what by a broadcast.
use wa_game.Prelude.{
  ℕ, zero, suc, ◌≡◌, refl, ap, ◌∙◌, arith, Bool, true, Option, none, some, List, [], ◌∷◌, ◌++◌,
  ◌==◌, if◌then◌else◌, Bool-cases, Option-cases, false, not, inl, inr,
}
use mathlib.Core.List.{append-nil}
use wa_game.Platform.{Platform}
use wa_game.Server.{
  Segment, Channel, Sent, Client, Server, offer, push_each, broadcast, plays_other, udp,
  udp_important, add_data_all_udp_clients, add_data_all_udp_clients_i,
}

abbrev pub count : ℕ → List ℕ → ℕ
count k [] = 0
count k (j ∷ js) = if j == k then suc (count k js) else count k js

module _ (platform : Platform) where
  open platform use {ght}

  -- The iteration over a table visits each of its keys once.
  pub record IsIteration : Type 1 where
    pub once :
        {V : Type 0} (t : ght.Table V) (k : ℕ)
        → count k (ght.keys t) ≡ (elim (ght.get t k) [ none ↦ 0 | some _ ↦ 1 ])

  -- What the log holds for a client, in order.
  abbrev pub delivered : ℕ → List (Sent platform) → List (Channel platform × Segment platform)
  delivered k [] = []
  delivered k (s ∷ log) =
      if s.to == k then (s.channel, s.segment) ∷ delivered k log else delivered k log

  pub delivered-append :
      (k : ℕ) (xs ys : List (Sent platform))
      → delivered k (xs ++ ys) ≡ delivered k xs ++ delivered k ys
  delivered-append k [] ys = refl
  delivered-append k (s ∷ xs) ys = elim (Bool-cases (s.to == k)) [
    | inl e ↦ rw (e, delivered-append k xs ys)
    | inr e ↦ rw (e, delivered-append k xs ys)
  ]

  -- What one client is to be sent.
  abbrev pub share :
      (Client platform → Bool)
      → Channel platform
      → Segment platform
      → Option (Client platform)
      → List (Channel platform × Segment platform)
  share wants channel segment none = []
  share wants channel segment (some client) = if wants client then (channel, segment) ∷ [] else []

  abbrev times :
      ℕ → List (Channel platform × Segment platform) → List (Channel platform × Segment platform)
  times zero xs = []
  times (suc n) xs = xs ++ times n xs

  delivered-offer :
      (k : ℕ) (wants : Client platform → Bool) (ch : Channel platform) (seg : Segment platform)
      (j : ℕ) (client : Option (Client platform))
      → delivered k (offer platform wants ch seg j client)
        ≡ (if j == k then share wants ch seg client else [])
  delivered-offer k wants ch seg j none = elim (Bool-cases (j == k)) [ inl e ↦ rw e | inr e ↦ rw e ]
  delivered-offer k wants ch seg j (some client) = elim (Bool-cases (wants client)) [
    | inl e ↦ elim (Bool-cases (j == k)) [ inl q ↦ rw (e, q) | inr q ↦ rw (e, q) ]
    | inr e ↦ elim (Bool-cases (j == k)) [ inl q ↦ rw (e, q) | inr q ↦ rw (e, q) ]
  ]

  -- `j == k` decides equality.
  same : (j k : ℕ) → (j == k) ≡ true → j ≡ k
  same j k e = ground arith

  held :
      (o : Option (Client platform)) (wants : Client platform → Bool) (ch : Channel platform)
      (seg : Segment platform)
      → times (elim o [ none ↦ 0 | some _ ↦ 1 ]) (share wants ch seg o) ≡ share wants ch seg o
  held none wants ch seg = refl
  held (some c) wants ch seg = append-nil (share wants ch seg (some c))

  delivered-push_each :
      (clients : ght.Table (Client platform)) (wants : Client platform → Bool)
      (ch : Channel platform) (seg : Segment platform) (k : ℕ) (keys : List ℕ)
      → delivered k (push_each platform clients wants ch seg keys)
        ≡ times (count k keys) (share wants ch seg (ght.get clients k))
  unfolding push_each
  delivered-push_each clients wants ch seg k [] = refl
  delivered-push_each clients wants ch seg k (j ∷ keys) =
      let ih = delivered-push_each clients wants ch seg k keys in
      delivered-append k (offer platform wants ch seg j (ght.get clients j))
        (push_each platform clients wants ch seg keys)
      ∙ elim (Bool-cases (j == k)) [
        | inl e ↦ rw (delivered-offer k wants ch seg j (ght.get clients j), e, ih, same j k e)
        | inr e ↦ rw (delivered-offer k wants ch seg j (ght.get clients j), e, ih)
      ]

  -- A broadcast adds the segment once to what each client that it is for is sent.
  pub broadcast-delivered :
      (iterates : IsIteration) (server : Server platform) (wants : Client platform → Bool)
      (ch : Channel platform) (seg : Segment platform) (k : ℕ)
      → delivered k (broadcast platform server wants ch seg).sent
        ≡ delivered k server.sent ++ share wants ch seg (ght.get server.clients k)
  unfolding broadcast
  broadcast-delivered iterates server wants ch seg k =
      rw
        (
          delivered-append k server.sent
              (push_each platform server.clients wants ch seg (ght.keys server.clients)),
          delivered-push_each server.clients wants ch seg k (ght.keys server.clients),
          iterates.once server.clients k,
        )
        (ap (◌++◌ (delivered k server.sent)) (held (ght.get server.clients k) wants ch seg))

  -- Whether the segment is for a client that is looked up: one with a player other than the
  -- ignored one.
  abbrev pub is_for : ℕ → Option (Client platform) → Bool
  is_for ignore none = false
  is_for ignore (some client) = elim client.player [ none ↦ false | some id ↦ not (id == ignore) ]

  abbrev pub once_if :
      Bool → Channel platform → Segment platform → List (Channel platform × Segment platform)
  once_if wanted channel segment = if wanted then (channel, segment) ∷ [] else []

  share-plays_other :
      (ignore : ℕ) (ch : Channel platform) (seg : Segment platform)
      (client : Option (Client platform))
      → share (plays_other platform ignore) ch seg client ≡ once_if (is_for ignore client) ch seg
  share-plays_other ignore ch seg none = refl
  share-plays_other ignore ch seg (some client) = elim (Option-cases client.player) [
    | inl alone ↦ rw (alone) refl
    | inr (id, e) ↦ rw (e) refl
  ]

  -- When data is added for all UDP clients but an ignored player's, plainly or as important, each
  -- address is sent, after what it had been sent before, the segment once on that channel when it
  -- is that of a client with a player whose id is not the ignored one, and nothing otherwise; the
  -- iteration over a table visits each key once.
  pub add_data_all_udp_clients-delivered :
      (iterates : IsIteration) (server : Server platform) (seg : Segment platform) (ignore k : ℕ)
      → (delivered k (add_data_all_udp_clients platform server seg ignore).sent
          ≡ delivered k server.sent ++ once_if (is_for ignore (ght.get server.clients k)) udp seg)
        × (delivered k (add_data_all_udp_clients_i platform server seg ignore).sent
            ≡ delivered k server.sent
              ++ once_if (is_for ignore (ght.get server.clients k)) udp_important seg)
  unfolding add_data_all_udp_clients add_data_all_udp_clients_i
  add_data_all_udp_clients-delivered iterates server seg ignore k =
      let wants = plays_other platform ignore in
      let client = ght.get server.clients k in
      let before = delivered k server.sent in
      (
        broadcast-delivered iterates server wants udp seg k
            ∙ ap (◌++◌ before) (share-plays_other ignore udp seg client),
        broadcast-delivered iterates server wants udp_important seg k
            ∙ ap (◌++◌ before) (share-plays_other ignore udp_important seg client),
      )
