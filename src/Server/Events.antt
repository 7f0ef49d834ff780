-- ===== src/Server/Events.antt =====
-- server/src/event.c with server/include/event.h: the doubly linked list of the events of the event
-- loop, on an explicit heap. `calloc` returns the address `fresh`; `none` is a fault, the use of a
-- pointer that is NULL or freed. What epoll is told is left out, and what the close callback does to the
-- server, which is not to touch the list.
pub mod Chain
pub mod Close
use Prim.Native.Nat.{bit_and, bit_or}
use wa_game.Prelude.{
  ℕ, zero, suc, Bool, true, false, not, Option, none, some, List, [], ◌∷◌, ◌==◌, if◌then◌else◌,
  ◌>>=◌,
}

-- `event_t`; `fd` stands for it with its `data`, `read` and `close`.
pub record Event : Type 0 where
  pub fd : ℕ
  pub next : Option ℕ
  pub prev : Option ℕ

abbrev pub Heap : Type 0
Heap = ℕ → Option Event

-- `server->events`, and the heap that it points into
pub record Events : Type 0 where
  pub head : Option ℕ
  pub tail : Option ℕ
  pub heap : Heap

abbrev pub store : Heap → ℕ → Option Event → Heap
store heap k o = λ j. if j == k then o else heap j

-- A write through a pointer.
abbrev pub modify : Heap → ℕ → (Event → Event) → Option Heap
modify heap k f = do e ← heap k; some (store heap k (some (f e)))

-- `if (p) p->… = …`
abbrev pub modify_if : Heap → Option ℕ → (Event → Event) → Option Heap
modify_if heap none f = some heap
modify_if heap (some k) f = modify heap k f

abbrev append_to : Events → ℕ → ℕ → Option ℕ → Option ℕ → Option Events
append_to ev fresh fd none tail = some (record ev {
  head = some fresh;
  tail = some fresh;
  heap = store ev.heap fresh (some (record { fd = fd; next = none; prev = none }));
})
append_to ev fresh fd (some h) none = none
append_to ev fresh fd (some h) (some t) = do
  let heap = store ev.heap fresh (some (record { fd = fd; next = none; prev = none }))
  linked ← modify heap t λ e. record e { next = some fresh }
  both ← modify linked fresh λ e. record e { prev = some t }
  some (record ev { tail = some fresh; heap = both })

unfoldable pub add_event : Events → ℕ → ℕ → Option Events
add_event ev fresh fd = append_to ev fresh fd ev.head ev.tail

-- `p == event`
abbrev pub is_at : Option ℕ → ℕ → Bool
is_at none k = false
is_at (some j) k = j == k

-- The new tail, when the event is the tail.
abbrev pub tail_without : Event → Option ℕ → Option ℕ
tail_without e head = elim e.next [
  | some n ↦ some n
  | none ↦ elim e.prev [ some p ↦ some p | none ↦ head ]
]

unfoldable pub close_event : Events → ℕ → Option Events
close_event ev k = do
  e ← ev.heap k
  heap1 ← modify_if ev.heap e.prev λ p. record p { next = e.next }
  e' ← heap1 k
  heap2 ← modify_if heap1 e'.next λ n. record n { prev = e'.prev }
  e'' ← heap2 k
  let head = (if is_at ev.head k then e''.next else ev.head)
  let tail = (if is_at ev.tail k then tail_without e'' head else ev.tail)
  some (record { head = head; tail = tail; heap = store heap2 k none })

-- `while (event)`, on fuel
unfoldable pub close_from : ℕ → Option ℕ → Events → Option Events
close_from zero event ev = some ev
close_from (suc fuel) none ev = some ev
close_from (suc fuel) (some k) ev = do
  e ← ev.heap k
  ev' ← close_event ev k
  close_from fuel e.next ev'

unfoldable pub close_all_events : ℕ → Events → Option Events
close_all_events fuel ev = close_from fuel ev.head ev

-- EPOLLIN, EPOLLERR and EPOLLHUP of the operating system
abbrev epoll_in : ℕ
epoll_in = 1

abbrev epoll_err : ℕ
epoll_err = 8

abbrev epoll_hup : ℕ
epoll_hup = 16

-- `server_handle_event`; `read` is the callback of the event.
pub handle_event : (ℕ → Events → Option Events) → Events → ℕ → ℕ → Option Events
unfolding close_event
handle_event read ev k events =
    let closed = close_event ev k in
    let read_on = (if not (bit_and events epoll_in == 0) then read k ev else some ev) in
    if not (bit_and events (bit_or epoll_err epoll_hup) == 0) then closed else read_on
