-- ===== src/Server/Events/Close/Unlink.antt =====
-- What `server_close_event` writes: the neighbours are linked with each other.
use wa_game.Prelude.{
  eq_of_test, if_either, ==-self, mem-append_list, ℕ, ◌≡◌, refl, ◌∙◌, arith, true, false, Option,
  none, some, List, [], ◌∷◌, ◌++◌, ◌==◌, if◌then◌else◌, mem, distinct, Returns, Bool-cases, inl,
  inr,
}
use mathlib.Core.Option
use wa_game.Server.Events.{Event, Heap, Events, store, modify_if, is_at, tail_without, close_event}
use wa_game.Prelude.{distinct-tail}
use wa_game.Server.Events.Close.{unlinked, with_next, with_prev, flip, or_false}

-- A conditional write through a pointer that is NULL or to an event.
modify_if-eq :
    (heap : Heap) (o : Option ℕ) (f : Event → Event)
    → ((k : ℕ) → o ≡ some k → (e : Event) × (heap k ≡ some e))
    → Returns
        (modify_if heap o f)
        (λ heap'. (j : ℕ) → heap' j ≡ (if is_at o j then Option.map f (heap j) else heap j))
modify_if-eq heap none f h = (heap, refl, λ j. refl)
modify_if-eq heap (some k) f h =
    let (e, found) = h k refl in (store heap k (some (f e)), rw found refl, λ j. written j e found)
  where
    written :
        (j : ℕ) (e : Event)
        → heap k ≡ some e
        → store heap k (some (f e)) j ≡ (if k == j then Option.map f (heap j) else heap j)
    written j e found = elim (Bool-cases (j == k)) [
      | inl same ↦ let eq : j ≡ k = eq_of_test j k same in rw eq (rw (==-self k, found) refl)
      | inr other ↦ rw (other, flip j k other) refl
    ]

-- Facts about a list of different addresses with `k` in it.
pub before-apart :
    (p : ℕ) (xs : List ℕ) (k : ℕ) (ys : List ℕ)
    → distinct (xs ++ (k ∷ ys)) ≡ true
    → mem p xs ≡ true
    → ((p == k) ≡ false) × (mem p ys ≡ false)
before-apart p [] k ys d m = absurd (ground arith)
before-apart p (x ∷ xs) k ys d m =
    let (x-out, d') = distinct-tail x (xs ++ (k ∷ ys)) d in
    elim (Bool-cases (p == x)) [
      | inl same ↦
          let eq : p ≡ x = eq_of_test p x same in
          let (_, later) =
            or_false (mem x xs) (mem x (k ∷ ys)) (rw (mem-append_list x xs (k ∷ ys)) at x-out) in
          rw eq (or_false (x == k) (mem x ys) later)
      | inr other ↦ before-apart p xs k ys d' (rw other at m)
    ]

pub after-apart :
    (xs : List ℕ) (k : ℕ) (ys : List ℕ) → distinct (xs ++ (k ∷ ys)) ≡ true → mem k ys ≡ false
after-apart [] k ys d = (distinct-tail k ys d).0
after-apart (x ∷ xs) k ys d = after-apart xs k ys (distinct-tail x (xs ++ (k ∷ ys)) d).1

pub distinct-without :
    (xs : List ℕ) (k : ℕ) (ys : List ℕ)
    → distinct (xs ++ (k ∷ ys)) ≡ true
    → distinct (xs ++ ys) ≡ true
distinct-without [] k ys d = (distinct-tail k ys d).1
distinct-without (x ∷ xs) k ys d =
    let (x-out, d') = distinct-tail x (xs ++ (k ∷ ys)) d in
    let (out1, later) =
      or_false (mem x xs) (mem x (k ∷ ys)) (rw (mem-append_list x xs (k ∷ ys)) at x-out) in
    let (_, out2) = or_false (x == k) (mem x ys) later in
    rw (mem-append_list x xs ys, out1, out2) (distinct-without xs k ys d')

-- The neighbours of an event in a chain.
pub record Sides (heap : Heap) (k : ℕ) (e : Event) (tail : Option ℕ) : Type 0 where
  pub prev_there : (p : ℕ) → e.prev ≡ some p → (x : Event) × (heap p ≡ some x)
  pub next_there : (n : ℕ) → e.next ≡ some n → (x : Event) × (heap n ≡ some x)
  pub prev_far : is_at e.prev k ≡ false
  pub next_far : is_at e.next k ≡ false
  pub sides_apart : (j : ℕ) → is_at e.prev j ≡ true → is_at e.next j ≡ false

both_written :
    (heap : Heap) (k : ℕ) (e : Event) (j : ℕ) (one two : Option Event)
    → one ≡ (if is_at e.prev j then Option.map (with_next e.next) (heap j) else heap j)
    → two ≡ (if is_at e.next j then Option.map (with_prev e.prev) one else one)
    → (is_at e.prev j ≡ true → is_at e.next j ≡ false)
    → (j == k) ≡ false
    → two ≡ unlinked heap k e j
both_written heap k e j one two a1 a2 apart q = elim (Bool-cases (is_at e.prev j)) [
  | inl p ↦ a2 ∙ rw (apart p) (a1 ∙ rw (q, p) refl)
  | inr p ↦ let one' : one ≡ heap j = a1 ∙ rw p refl in a2 ∙ rw (one', q, p) refl
]

pub closed_heap :
    (ev : Events) (k : ℕ) (e : Event) (tail : Option ℕ)
    → ev.heap k ≡ some e
    → Sides ev.heap k e tail
    → Returns (close_event ev k) (λ ev'.
      (ev'.head ≡ (if is_at ev.head k then e.next else ev.head))
      × (ev'.tail ≡ (
          if is_at ev.tail k
          then tail_without e (if is_at ev.head k then e.next else ev.head)
          else ev.tail))
      × ((j : ℕ) → ev'.heap j ≡ unlinked ev.heap k e j))
unfolding close_event
closed_heap ev k e tail found s =
    let (heap1, e1, at1) = modify_if-eq ev.heap e.prev (with_next e.next) s.prev_there in
    let k1 : heap1 k ≡ some e = at1 k ∙ rw s.prev_far found in
    let next1 : (n : ℕ) → e.next ≡ some n → (x : Event) × (heap1 n ≡ some x) = λ n h.
      let (x, f) = s.next_there n h in
      elim (Bool-cases (is_at e.prev n)) [
        | inl q ↦ (with_next e.next x, at1 n ∙ rw (q, f) refl)
        | inr q ↦ (x, at1 n ∙ rw q f)
      ] in
    let (heap2, e2, at2) = modify_if-eq heap1 e.next (with_prev e.prev) next1 in
    let k2 : heap2 k ≡ some e = at2 k ∙ rw s.next_far k1 in
    let head = (if is_at ev.head k then e.next else ev.head) in
    (
      record {
        head = head;
        tail = (if is_at ev.tail k then tail_without e head else ev.tail);
        heap = store heap2 k none;
      },
      rw (found, e1, k1, e2, k2) refl,
      (
        refl,
        refl,
        λ j.
            if_either (λ o. o ≡ unlinked ev.heap k e j) (j == k) (λ q. rw q refl)
              (λ q.
                both_written ev.heap k e j (heap1 j) (heap2 j) (at1 j) (at2 j) (s.sides_apart j) q),
      ),
    )
