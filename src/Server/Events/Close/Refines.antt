-- ===== src/Server/Events/Close/Refines.antt =====
-- Closing one event takes it out of the list, and closing all of them ends with none.
use wa_game.Prelude.{
  eq_of_test, subst, ==-self, mem-append_list, ℕ, zero, suc, ◌≤◌, ◌≡◌, refl, ap, ◌∙◌, arith, Bool,
  true, false, Option, none, some, List, [], ◌∷◌, ◌++◌, ◌==◌, if◌then◌else◌, mem, length, Returns,
  Bool-cases, inl, inr,
}
use wa_game.Server.Events.{
  Event, Heap, Events, is_at, tail_without, close_event, close_from, close_all_events,
}
use wa_game.Server.Events.Chain.{Chain, IsList, tail-mem, more}
use wa_game.Server.Events.Close.{unlinked, LastIs, locate, remove-Chain, or_true, next-far}
use wa_game.Server.Events.Close.Unlink.{
  before-apart, after-apart, distinct-without, Sides, closed_heap,
}

-- An event's address in a chain leads to an event.
in-Chain :
    (heap : Heap) (prev cur tail : Option ℕ) (ks : List ℕ) (p : ℕ)
    → Chain heap prev cur tail ks
    → mem p ks ≡ true
    → (x : Event) × (heap p ≡ some x)
in-Chain heap prev cur tail [] p c m = absurd (ground arith)
in-Chain heap prev cur tail (k ∷ ks) p (at, e, found, back, rest) m = elim (Bool-cases (p == k)) [
  | inl same ↦ (e, ap heap (eq_of_test p k same) ∙ found)
  | inr other ↦ in-Chain heap (some k) e.next tail ks p rest (rw other at m)
]

-- The link after an event.
next-in :
    (heap : Heap) (prev cur tail : Option ℕ) (ys : List ℕ) (n : ℕ)
    → Chain heap prev cur tail ys
    → cur ≡ some n
    → mem n ys ≡ true
next-in heap prev cur tail [] n (at, last) h = absurd (ground arith)
next-in heap prev cur tail (y ∷ ys) n (at, e, found, back, rest) h =
    let eq : n ≡ y = cc in rw eq (rw (==-self y) refl)

prev-in : (xs : List ℕ) (o : Option ℕ) (p : ℕ) → LastIs none xs o → o ≡ some p → mem p xs ≡ true
prev-in [] o p l h = absurd (ground arith)
prev-in (x ∷ xs) o p (q, e, m) h = let eq : q ≡ p = cc in subst (λ z. mem z (x ∷ xs) ≡ true) eq m

is_at-all : (o : Option ℕ) (k : ℕ) → ((p : ℕ) → o ≡ some p → (p == k) ≡ false) → is_at o k ≡ false
is_at-all none k h = refl
is_at-all (some p) k h = h p refl

is_at-eq : (o : Option ℕ) (j : ℕ) → is_at o j ≡ true → o ≡ some j
is_at-eq none j h = absurd (ground arith)
is_at-eq (some p) j h = ap some (eq_of_test p j h)

-- The tail has no next.
tail-end :
    (heap : Heap) (prev cur tail : Option ℕ) (k : ℕ) (ys : List ℕ)
    → Chain heap prev cur tail ys
    → tail ≡ some k
    → mem k ys ≡ false
    → cur ≡ none
tail-end heap prev cur tail k [] (at, last) h out = at
tail-end heap prev cur tail k (y ∷ ys) c h out =
    absurd (both (mem k (y ∷ ys)) out (tail-mem heap prev cur k y ys (rw h at c)))
  where
    both : (b : Bool) → b ≡ false → b ≡ true → ⊥
    both b p q = ground arith

tail_back :
    (xs : List ℕ) (e : Event) (head : Option ℕ)
    → e.next ≡ none
    → LastIs none xs e.prev
    → (xs ≡ [] → head ≡ none)
    → tail_without e head ≡ e.prev
tail_back [] e head n last h = rw (n, last) (h refl)
tail_back (x ∷ xs) e head n (p, last, m) h = rw (n, last) refl

-- The first link of a chain is given by its list.
abbrev head_of : List ℕ → Option ℕ
head_of [] = none
head_of (k ∷ ks) = some k

Chain-head :
    (heap : Heap) (prev cur tail : Option ℕ) (ks : List ℕ)
    → Chain heap prev cur tail ks
    → cur ≡ head_of ks
Chain-head heap prev cur tail [] c = c.0
Chain-head heap prev cur tail (k ∷ ks) c = c.0

unlinked-none :
    (heap : Heap) (k : ℕ) (e : Event) (j : ℕ) → heap j ≡ none → unlinked heap k e j ≡ none
unlinked-none heap k e j h = elim (Bool-cases (j == k)) [
  | inl a ↦ rw a refl
  | inr a ↦ elim (Bool-cases (is_at e.prev j)) [
    | inl b ↦ rw (a, b, h) refl
    | inr b ↦ elim (Bool-cases (is_at e.next j)) [
      | inl c ↦ rw (a, b, c, h) refl
      | inr c ↦ rw (a, b, c, h) refl
    ]
  ]
]

module _ (ev : Events) (xs : List ℕ) (k : ℕ) (ys : List ℕ) (l : IsList ev (xs ++ (k ∷ ys))) where
  sides :
      (e : Event)
      → LastIs none xs e.prev
      → Chain ev.heap (some k) e.next ev.tail ys
      → Sides ev.heap k e ev.tail
  sides e last after = record {
    prev_there = λ p h.
        in-Chain ev.heap none ev.head ev.tail (xs ++ (k ∷ ys)) p l.chain
          (rw (mem-append_list p xs (k ∷ ys), prev-in xs e.prev p last h) refl);
    next_there = λ n h. in-Chain ev.heap none ev.head ev.tail (xs ++ (k ∷ ys)) n l.chain (
        rw
          (
            mem-append_list n xs (k ∷ ys),
            more n k ys (next-in ev.heap (some k) e.next ev.tail ys n after h),
          )
          (or_true (mem n xs)));
    prev_far =
        is_at-all e.prev k λ p h. (before-apart p xs k ys l.apart (prev-in xs e.prev p last h)).0;
    next_far = next-far ev.heap (some k) e.next ev.tail k ys (after-apart xs k ys l.apart) after;
    sides_apart = λ j h.
        let (_, out) =
          before-apart j xs k ys l.apart (prev-in xs e.prev j last (is_at-eq e.prev j h)) in
        next-far ev.heap (some k) e.next ev.tail j ys out after;
  }

  was_tail :
      (e : Event) (tail' : Option ℕ)
      → LastIs none xs e.prev
      → Chain ev.heap (some k) e.next ev.tail ys
      → tail' ≡ (
          if is_at ev.tail k
          then tail_without e (if is_at ev.head k then e.next else ev.head)
          else ev.tail)
      → ev.tail ≡ some k
      → tail' ≡ e.prev
  was_tail e tail' last after t h =
      let n = tail-end ev.heap (some k) e.next ev.tail k ys after h (after-apart xs k ys l.apart) in
      t
      ∙ ap
          (λ o.
            if is_at o k then tail_without e (if is_at ev.head k then e.next else ev.head) else o)
          h
      ∙ rw (==-self k)
          (tail_back xs e (if is_at ev.head k then e.next else ev.head) n last (alone n))
    where
      alone : e.next ≡ none → xs ≡ [] → (if is_at ev.head k then e.next else ev.head) ≡ none
      alone n eq =
          let c : ev.head ≡ some k =
            Chain-head ev.heap none ev.head ev.tail (xs ++ (k ∷ ys)) l.chain
            ∙ ap (λ (zs : List ℕ). head_of (zs ++ (k ∷ ys))) eq in
          rw (c, ==-self k) n

  -- If the events are a doubly linked list with different addresses, closing any one of them does
  -- not fault and leaves the list without just that one, in order, with head, tail and links
  -- right; its address is free, and what was free stays so.
  pub close_event-IsList : Returns (close_event ev k) (λ ev'.
      IsList ev' (xs ++ ys)
      × (ev'.heap k ≡ none)
      × ((j : ℕ) → ev.heap j ≡ none → ev'.heap j ≡ none))
  close_event-IsList =
      let (e, found, last, after) = locate ev.heap none ev.head ev.tail xs k ys l.chain in
      let (ev', done, (head, tail, heap)) = closed_heap ev k e ev.tail found (sides e last after) in
      let chain =
        remove-Chain ev.heap ev'.heap k e found ev.tail ev'.tail
          (was_tail e ev'.tail last after tail) (λ h. tail ∙ rw h refl) heap none ev.head xs ys
          (λ j h. absurd (ground arith)) l.apart l.chain in
      (
        ev',
        done,
        (
          record { chain = rw head chain; apart = distinct-without xs k ys l.apart },
          heap k ∙ rw (==-self k) refl,
          λ j h. heap j ∙ unlinked-none ev.heap k e j h,
        ),
      )

close_from-IsList :
    (fuel : ℕ) (ks : List ℕ) (event : Option ℕ) (ev : Events)
    → IsList ev ks
    → event ≡ head_of ks
    → length ks ≤ fuel
    → Returns (close_from fuel event ev) (λ ev'.
      IsList ev' []
      × ((k : ℕ) → mem k ks ≡ true → ev'.heap k ≡ none)
      × ((j : ℕ) → ev.heap j ≡ none → ev'.heap j ≡ none))
unfolding close_from
close_from-IsList zero [] event ev l h enough =
    (ev, refl, (l, (λ k m. absurd (ground arith)), λ j f. f))
close_from-IsList zero (k ∷ ks) event ev l h enough = absurd (omega arith)
close_from-IsList (suc fuel) [] event ev l h enough =
    (ev, rw h refl, (l, (λ k m. absurd (ground arith)), λ j f. f))
close_from-IsList (suc fuel) (k ∷ ks) event ev l h enough =
    let (at, e, found, back, rest) = l.chain in
    let (ev1, e1, (l1, gone, still)) = close_event-IsList ev [] k ks l in
    let (ev2, e2, (l2, freed, kept)) =
      close_from-IsList fuel ks e.next ev1 l1 (Chain-head ev.heap (some k) e.next ev.tail ks rest)
        (omega arith) in
    (
      ev2,
      rw (h, found, e1) e2,
      (
        l2,
        (λ j m. elim (Bool-cases (j == k)) [
          | inl same ↦ kept j (ap ev1.heap (eq_of_test j k same) ∙ gone)
          | inr other ↦ freed j (rw other at m)
        ]),
        λ j f. kept j (still j f),
      ),
    )

-- If the events are a doubly linked list with different addresses, closing all of them takes at
-- most as many rounds as there are, does not fault, and leaves no event and every address of the
-- list free.
pub close_all_events-IsList :
    (fuel : ℕ) (ks : List ℕ) (ev : Events)
    → IsList ev ks
    → length ks ≤ fuel
    → Returns
        (close_all_events fuel ev)
        (λ ev'. IsList ev' [] × ((k : ℕ) → mem k ks ≡ true → ev'.heap k ≡ none))
unfolding close_all_events
close_all_events-IsList fuel ks ev l enough =
    let (ev', e, (l', freed, _)) =
      close_from-IsList fuel ks ev.head ev l (Chain-head ev.heap none ev.head ev.tail ks l.chain)
        enough in
    (ev', e, (l', freed))
