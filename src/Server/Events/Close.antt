-- ===== src/Server/Events/Close.antt =====
-- Closing an event takes it out of the list.
use wa_game.Prelude.{
  distinct-tail, subst, ==-self, eq_of_test, mem-append_list, ℕ, zero, suc, ◌≤◌, ◌≡◌, refl, sym, ap,
  ◌∙◌, arith, Bool, true, false, not, ◌&&◌, ◌||◌, Option, none, some, List, [], ◌∷◌, ◌++◌, ◌==◌,
  if◌then◌else◌, mem, distinct, length, Returns, Bool-cases, inl, inr, ◌>>=◌,
}
pub mod Unlink
pub mod Refines
use mathlib.Core.Option
use wa_game.Server.Events.{
  Event, Heap, Events, store, modify, modify_if, is_at, tail_without, close_event, close_from,
  close_all_events,
}
use wa_game.Server.Events.Chain.{Chain, IsList, Chain-frame, tail-event, tail-mem, not_in, more}

abbrev pub with_next : Option ℕ → Event → Event
with_next o e = record e { next = o }

abbrev pub with_prev : Option ℕ → Event → Event
with_prev o e = record e { prev = o }

-- The heap without the event at `k`, whose neighbours are linked with each other.
abbrev pub unlinked : Heap → ℕ → Event → Heap
unlinked heap k e = λ j.
    if j == k
    then none
    else if is_at e.prev j
    then Option.map (with_next e.next) (heap j)
    else if is_at e.next j
    then Option.map (with_prev e.prev) (heap j)
    else heap j

-- What stands before an event of a chain.
abbrev pub LastIs : Option ℕ → List ℕ → Option ℕ → Type 0
LastIs prev [] o = o ≡ prev
LastIs prev (x ∷ xs) o = (p : ℕ) × (o ≡ some p) × (mem p (x ∷ xs) ≡ true)

pub locate :
    (heap : Heap) (prev cur tail : Option ℕ) (xs : List ℕ) (k : ℕ) (ys : List ℕ)
    → Chain heap prev cur tail (xs ++ (k ∷ ys))
    → (e : Event) × (heap k ≡ some e) × LastIs prev xs e.prev × Chain heap (some k) e.next tail ys
locate heap prev cur tail [] k ys (at, e, found, back, rest) = (e, found, back, rest)
locate heap prev cur tail (x ∷ []) k ys (at, e, found, back, rest) =
    let (e', f, b, r) = locate heap (some x) e.next tail [] k ys rest in
    (e', f, (x, b, rw (==-self x) refl), r)
locate heap prev cur tail (x ∷ x2 ∷ xs) k ys (at, e, found, back, rest) =
    let (e', f, (p, b, m), r) = locate heap (some x) e.next tail (x2 ∷ xs) k ys rest in
    (e', f, (p, b, more p x (x2 ∷ xs) m), r)

abbrev pub Outside : Option ℕ → List ℕ → Type 0
Outside prev ks = (j : ℕ) → prev ≡ some j → mem j ks ≡ false

pub flip : (a b : ℕ) → (a == b) ≡ false → (b == a) ≡ false
flip a b h = ground arith

pub or_true : (b : Bool) → (b || true) ≡ true
or_true b = ground arith

pub or_false : (a b : Bool) → (a || b) ≡ false → (a ≡ false) × (b ≡ false)
or_false a b h = ground arith

Outside-some : (x : ℕ) (ks : List ℕ) → mem x ks ≡ false → Outside (some x) ks
Outside-some x ks out j h = let eq : x ≡ j = cc in subst (λ z. mem z ks ≡ false) eq out

pub next-far :
    (heap : Heap) (prev cur tail : Option ℕ) (x : ℕ) (ys : List ℕ)
    → mem x ys ≡ false
    → Chain heap prev cur tail ys
    → is_at cur x ≡ false
next-far heap prev cur tail x [] out (at, last) = rw at refl
next-far heap prev cur tail x (y ∷ ys) out (at, e, found, back, rest) =
    rw at (let (far, _) = or_false (x == y) (mem x ys) out in flip x y far)

pub is_at-Outside :
    (prev : Option ℕ) (j : ℕ) (ks : List ℕ)
    → Outside prev ks
    → mem j ks ≡ true
    → is_at prev j ≡ false
is_at-Outside none j ks out m = refl
is_at-Outside (some p) j ks out m = not_in p j ks (out p refl) m

module _ (heap heap' : Heap) (k : ℕ) (e : Event) (found : heap k ≡ some e) (tail tail' : Option ℕ)
    (was_tail : tail ≡ some k → tail' ≡ e.prev) (same_tail : is_at tail k ≡ false → tail' ≡ tail)
    (heap'-eq : (j : ℕ) → heap' j ≡ unlinked heap k e j) where
  abbrev pub cur_without : Option ℕ → Option ℕ
  cur_without cur = if is_at cur k then e.next else cur

  remove-head :
      (prev cur : Option ℕ) (ys : List ℕ)
      → Outside prev (k ∷ ys)
      → distinct (k ∷ ys) ≡ true
      → Chain heap prev cur tail (k ∷ ys)
      → Chain heap' prev e.next tail' ys
  remove-head prev cur [] out d (at, e', f, back, (end', last)) =
      let same : e ≡ e' = cc in
      (
        ap (λ (x : Event). x.next) same ∙ end',
        was_tail last ∙ ap (λ (x : Event). x.prev) same ∙ back,
      )
  remove-head prev cur (y ∷ ys) out d (at, e', f, back, (at2, ey, fy, backy, rest)) =
      let same : e ≡ e' = cc in
      let prev-eq : e.prev ≡ prev = ap (λ (x : Event). x.prev) same ∙ back in
      let next-eq : e.next ≡ some y = ap (λ (x : Event). x.next) same ∙ at2 in
      let (k-out, d') = distinct-tail k (y ∷ ys) d in
      let (y-out, d'') = distinct-tail y ys d' in
      let y-far : (y == k) ≡ false = flip k y (not_in k y (y ∷ ys) k-out (rw (==-self y) refl)) in
      let y-prev : is_at e.prev y ≡ false =
        rw prev-eq (is_at-Outside prev y (k ∷ y ∷ ys) out (rw (y-far, ==-self y) refl)) in
      let still : (j : ℕ) → mem j ys ≡ true → heap' j ≡ heap j = λ j m.
        let j-far : (j == k) ≡ false = flip k j (not_in k j (y ∷ ys) k-out (more j y ys m)) in
        let j-prev : is_at e.prev j ≡ false =
          rw prev-eq (is_at-Outside prev j (k ∷ y ∷ ys) out (more j k (y ∷ ys) (more j y ys m))) in
        let j-next : is_at e.next j ≡ false = rw next-eq (not_in y j ys y-out m) in
        heap'-eq j ∙ rw (j-far, j-prev, j-next) refl in
      let from_y : Chain heap (some k) (some y) tail (y ∷ ys) = (refl, ey, fy, backy, rest) in
      let (t, _, tail-eq, _) = tail-event heap (some k) (some y) tail y ys from_y in
      let t-in = tail-mem heap (some k) (some y) t y ys (rw tail-eq at from_y) in
      let tail-far : is_at tail k ≡ false =
        rw tail-eq (flip k t (not_in k t (y ∷ ys) k-out t-in)) in
      (
        next-eq,
        record ey { prev = e.prev },
        heap'-eq y ∙ rw (y-far, y-prev, next-eq, ==-self y, fy) refl,
        prev-eq,
        rw (same_tail tail-far) (Chain-frame heap heap' (some y) ey.next tail ys still rest),
      )

  pub remove-Chain :
      (prev cur : Option ℕ) (xs ys : List ℕ)
      → Outside prev (xs ++ (k ∷ ys))
      → distinct (xs ++ (k ∷ ys)) ≡ true
      → Chain heap prev cur tail (xs ++ (k ∷ ys))
      → Chain heap' prev (cur_without cur) tail' (xs ++ ys)
  remove-Chain prev cur [] ys out d c = rw (c.0, ==-self k) (remove-head prev cur ys out d c)
  remove-Chain prev cur (x ∷ []) ys out d (at, ex, fx, back, rest) =
      let (e', f, b, _) = locate heap (some x) ex.next tail [] k ys rest in
      let same : e ≡ e' = cc in
      let prev-eq : e.prev ≡ some x = ap (λ (z : Event). z.prev) same ∙ b in
      let (x-out, d') = distinct-tail x (k ∷ ys) d in
      let x-far : (x == k) ≡ false = not_in x k (k ∷ ys) x-out (rw (==-self k) refl) in
      (
        rw (at, x-far) refl,
        record ex { next = e.next },
        heap'-eq x ∙ rw (x-far, prev-eq, ==-self x, fx) refl,
        back,
        remove-head (some x) ex.next ys (Outside-some x (k ∷ ys) x-out) d' rest,
      )
  remove-Chain prev cur (x ∷ x2 ∷ xs) ys out d (at, ex, fx, back, rest) =
      let (e', f, (p, b, m), after) = locate heap (some x) ex.next tail (x2 ∷ xs) k ys rest in
      let same : e ≡ e' = cc in
      let prev-eq : e.prev ≡ some p = ap (λ (z : Event). z.prev) same ∙ b in
      let (x-out, d') = distinct-tail x (x2 ∷ (xs ++ (k ∷ ys))) d in
      let apart : (j : ℕ) → mem j (x2 ∷ (xs ++ (k ∷ ys))) ≡ true → (j == x) ≡ false =
        λ j h. flip x j (not_in x j (x2 ∷ (xs ++ (k ∷ ys))) x-out h) in
      let k-in : mem k (x2 ∷ (xs ++ (k ∷ ys))) ≡ true =
        rw (mem-append_list k (x2 ∷ xs) (k ∷ ys), ==-self k) (or_true (mem k (x2 ∷ xs))) in
      let x-far : (x == k) ≡ false = flip k x (apart k k-in) in
      let p-in : mem p (x2 ∷ (xs ++ (k ∷ ys))) ≡ true =
        rw (mem-append_list p (x2 ∷ xs) (k ∷ ys), m) refl in
      let x-next : is_at e.next x ≡ false =
        let (_, e-ys) =
          or_false (mem x (x2 ∷ xs)) (mem x (k ∷ ys))
            (rw (mem-append_list x (x2 ∷ xs) (k ∷ ys)) at x-out) in
        let (_, y-out) = or_false (x == k) (mem x ys) e-ys in
        ap (λ o. is_at o x) (ap (λ (z : Event). z.next) same)
        ∙ next-far heap (some k) e'.next tail x ys y-out after in
      let x2-far : (x2 == k) ≡ false =
        let (x2-out, _) = distinct-tail x2 (xs ++ (k ∷ ys)) d' in
        not_in x2 k (xs ++ (k ∷ ys)) x2-out
          (rw (mem-append_list k xs (k ∷ ys), ==-self k) (or_true (mem k xs))) in
      (
        rw (at, x-far) refl,
        ex,
        heap'-eq x ∙ rw (x-far, prev-eq, apart p p-in, x-next) fx,
        back,
        subst (λ o. Chain heap' (some x) o tail' (x2 ∷ (xs ++ ys)))
            (ap cur_without rest.0 ∙ rw x2-far refl ∙ sym rest.0)
            (remove-Chain (some x) ex.next (x2 ∷ xs) ys
              (Outside-some x (x2 ∷ (xs ++ (k ∷ ys))) x-out) d' rest),
      )
