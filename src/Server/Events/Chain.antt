-- ===== src/Server/Events/Chain.antt =====
-- The list that the events are, and that adding one appends to it.
use wa_game.Prelude.{
  distinct-append, distinct-tail, ==-self, eq_of_test, ℕ, ◌≡◌, refl, ap, ◌∙◌, arith, Bool, true,
  false, Option, none, some, List, [], ◌∷◌, ◌++◌, ◌==◌, mem, distinct, Returns, Bool-cases, inl,
  inr,
}
use wa_game.Server.Events.{Event, Heap, Events, store, add_event, append_to}

-- From `cur` the links lead through `ks` to `tail`, where each event points back at the one before.
abbrev pub Chain : Heap → Option ℕ → Option ℕ → Option ℕ → List ℕ → Type 0
Chain heap prev cur tail [] = (cur ≡ none) × (tail ≡ prev)
Chain heap prev cur tail (k ∷ ks) =
    (cur ≡ some k)
    × (e : Event) × (heap k ≡ some e)
    × (e.prev ≡ prev)
    × Chain heap (some k) e.next tail ks

-- The events are the list `ks` of different addresses.
pub record IsList (ev : Events) (ks : List ℕ) : Type 0 where
  pub chain : Chain ev.heap none ev.head ev.tail ks
  pub apart : distinct ks ≡ true

-- A change of other addresses does not touch a chain.
pub Chain-frame :
    (heap heap' : Heap) (prev cur tail : Option ℕ) (ks : List ℕ)
    → ((j : ℕ) → mem j ks ≡ true → heap' j ≡ heap j)
    → Chain heap prev cur tail ks
    → Chain heap' prev cur tail ks
Chain-frame heap heap' prev cur tail [] same c = c
Chain-frame heap heap' prev cur tail (k ∷ ks) same (at, e, found, back, rest) = (
  at,
  e,
  same k (ground arith) ∙ found,
  back,
  Chain-frame heap heap' (some k) e.next tail ks (λ j m. same j (rw m (ground arith))) rest,
)

-- An address in the chain is allocated.
pub Chain-allocated :
    (heap : Heap) (prev cur tail : Option ℕ) (ks : List ℕ) (j : ℕ)
    → Chain heap prev cur tail ks
    → heap j ≡ none
    → mem j ks ≡ false
Chain-allocated heap prev cur tail [] j c free = refl
Chain-allocated heap prev cur tail (k ∷ ks) j (at, e, found, back, rest) free =
    elim (Bool-cases (j == k)) [
      | inl same ↦ let eq : j ≡ k = ground arith in absurd (clash (rw eq at free) found)
      | inr other ↦ rw other (Chain-allocated heap (some k) e.next tail ks j rest free)
    ]
  where
    clash : {o : Option Event} {e : Event} → o ≡ none → o ≡ some e → ⊥
    clash p q = ground arith

-- The tail is the last of the list.
pub tail-mem :
    (heap : Heap) (prev cur : Option ℕ) (t k : ℕ) (ks : List ℕ)
    → Chain heap prev cur (some t) (k ∷ ks)
    → mem t (k ∷ ks) ≡ true
tail-mem heap prev cur t k [] (at, e, found, back, (end', last)) =
    let eq : t ≡ k = cc in rw eq (rw (==-self k) refl)
tail-mem heap prev cur t k (k2 ∷ ks) (at, e, found, back, rest) =
    let m = tail-mem heap (some k) e.next t k2 ks rest in ground arith

pub more : (j k : ℕ) (ks : List ℕ) → mem j ks ≡ true → mem j (k ∷ ks) ≡ true
more j k ks m = ground arith

pub not_in : (k t : ℕ) (ks : List ℕ) → mem k ks ≡ false → mem t ks ≡ true → (k == t) ≡ false
not_in k t ks out m = elim (Bool-cases (k == t)) [
  | inl same ↦
      let eq : k ≡ t = eq_of_test k t same in absurd (both_ways (mem t ks) (rw eq at out) m)
  | inr other ↦ other
]
  where
    both_ways : (b : Bool) → b ≡ false → b ≡ true → ⊥
    both_ways b p q = ground arith

module _ (heap heap' : Heap) (t fresh : ℕ) (new : Event) (at_new : heap' fresh ≡ some new)
    (new_prev : new.prev ≡ some t) (new_next : new.next ≡ none)
    (linked : (e : Event) → heap t ≡ some e → heap' t ≡ some (record e { next = some fresh })) where
  -- The chain with a new last event.
  append-Chain :
      (prev cur : Option ℕ) (k : ℕ) (ks : List ℕ)
      → ((j : ℕ) → mem j (k ∷ ks) ≡ true → (j == t) ≡ false → heap' j ≡ heap j)
      → distinct (k ∷ ks) ≡ true
      → Chain heap prev cur (some t) (k ∷ ks)
      → Chain heap' prev cur (some fresh) (k ∷ (ks ++ (fresh ∷ [])))
  append-Chain prev cur k [] same d (at, e, found, back, (end', last)) =
      let eq : t ≡ k = cc in
      let at' : heap t ≡ some e = rw eq found in
      (
        at,
        record e { next = some fresh },
        rw eq at (linked e at'),
        back,
        (refl, new, at_new, new_prev ∙ ap some eq, (new_next, refl)),
      )
  append-Chain prev cur k (k2 ∷ ks) same d (at, e, found, back, rest) =
      let m = tail-mem heap (some k) e.next t k2 ks rest in
      let (out, d') = distinct-tail k (k2 ∷ ks) d in
      let apart : (k == t) ≡ false = not_in k t (k2 ∷ ks) out m in
      (
        at,
        e,
        same k (rw (==-self k) refl) apart ∙ found,
        back,
        append-Chain (some k) e.next k2 ks (λ j m' n. same j (more j k (k2 ∷ ks) m') n) d' rest,
      )

-- The tail of a chain is an event.
pub tail-event :
    (heap : Heap) (prev cur tail : Option ℕ) (k : ℕ) (ks : List ℕ)
    → Chain heap prev cur tail (k ∷ ks)
    → (t : ℕ) × (e : Event) × (tail ≡ some t) × (heap t ≡ some e)
tail-event heap prev cur tail k [] (at, e, found, back, (end', last)) = (k, e, last, found)
tail-event heap prev cur tail k (k2 ∷ ks) (at, e, found, back, rest) =
    tail-event heap (some k) e.next tail k2 ks rest

abbrev alone : ℕ → Event
alone fd = record { fd = fd; next = none; prev = none }

-- The heap after an event was appended behind the tail `t`.
abbrev appended : Heap → ℕ → Event → ℕ → ℕ → Heap
appended heap t e fresh fd =
    store (store (store heap fresh (some (alone fd))) t (some (record e { next = some fresh })))
      fresh (some (record { fd = fd; next = none; prev = some t }))

append_to-eq :
    (ev : Events) (fresh fd h t : ℕ) (e : Event)
    → ev.heap t ≡ some e
    → (t == fresh) ≡ false
    → append_to ev fresh fd (some h) (some t)
      ≡ some (record ev { tail = some fresh; heap = appended ev.heap t e fresh fd })
append_to-eq ev fresh fd h t e found other =
    let other' : (fresh == t) ≡ false = ground arith in
    rw (other, found, other', ==-self fresh) refl

-- If the events are a doubly linked list with different addresses and the new address is free,
-- adding an event does not fault and the events are then the same list with the new one at its
-- end.
pub add_event-IsList :
    (ev : Events) (ks : List ℕ) (fresh fd : ℕ)
    → IsList ev ks
    → ev.heap fresh ≡ none
    → Returns (add_event ev fresh fd) (λ ev'. IsList ev' (ks ++ (fresh ∷ [])))
unfolding add_event
add_event-IsList ev [] fresh fd l free =
    let (head, tail) = l.chain in
    (
      record { head = some fresh; tail = some fresh; heap = store ev.heap fresh (some (alone fd)) },
      ap (λ o. append_to ev fresh fd o ev.tail) head,
      record {
        chain = (refl, alone fd, rw (==-self fresh) refl, refl, (refl, refl));
        apart = refl;
      },
    )
add_event-IsList ev (k ∷ ks) fresh fd l free =
    let (t, e, tail, found) = tail-event ev.heap none ev.head ev.tail k ks l.chain in
    let out = Chain-allocated ev.heap none ev.head ev.tail (k ∷ ks) fresh l.chain free in
    let t-in = tail-mem ev.heap none ev.head t k ks (rw tail at l.chain) in
    let other : (t == fresh) ≡ false =
      (let far = not_in fresh t (k ∷ ks) out t-in in ground arith) in
    (
      record ev { tail = some fresh; heap = appended ev.heap t e fresh fd },
      ap (λ o. append_to ev fresh fd o ev.tail) l.chain.0
          ∙ ap (λ o. append_to ev fresh fd (some k) o) tail
          ∙ append_to-eq ev fresh fd k t e found other,
      record {
        chain =
            append-Chain ev.heap (appended ev.heap t e fresh fd) t fresh
              (record { fd = fd; next = none; prev = some t }) (rw (==-self fresh) refl) refl refl
              (λ e' f.
                let eq : e ≡ e' = cc in
                rw (other, ==-self t)
                  (ap (λ (x : Event). some (record x { next = some fresh })) eq))
              none ev.head k ks
              (λ j m n.
                let far = not_in fresh j (k ∷ ks) out m in
                let far' : (j == fresh) ≡ false = ground arith in rw (far', n) refl)
              l.apart (rw tail at l.chain);
        apart = distinct-append (k ∷ ks) fresh l.apart out;
      },
    )
