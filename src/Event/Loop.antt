-- ===== src/Event/Loop.antt =====
-- event.c: the loop, its start and its end. What happens in a round comes as an argument: what
-- `epoll_wait` returns, the time of `ustime`, and whether `event_stop` is called. The interval is not
-- negative, and of the entries only what `handle` gives them is modelled.
pub mod Ticks
use mathlib.Core.List.{map}
use fnsproxy.Base.{
  ℕ, zero, suc, ◌+◌, ◌-◌, ◌*◌, ◌/◌, ◌%◌, ◌≡◌, ◌≢◌, ◌≤◌, ◌<◌, ◌∙◌, refl, sym, ap, inl, inr, Bool,
  true, false, not, ◌&&◌, ◌||◌, List, [], ◌∷◌, ◌++◌, Option, none, some, ◌==◌, ltb, leb,
  if◌then◌else◌, arith, length, Bool-cases,
}
use fnsproxy.Event.{event_of}

-- `event_t`; `epoll_fd` is `none` for -1, `has_tick` says whether `tick` is set.
pub record Event : Type 0 where
  pub stop : Bool
  pub has_tick : Bool
  pub interval : ℕ
  pub fd_count : ℕ
  pub epoll_fd : Option ℕ

-- `event_init`, given what `epoll_create` returns: whether it returns 0, and the loop.
abbrev pub event_init : (epoll_fd : Option ℕ) (interval : ℕ) → Bool × Event
event_init epoll_fd interval = (
  elim epoll_fd [ none ↦ false | some fd ↦ true ],
  record { stop = false; has_tick = true; interval = interval; fd_count = 0; epoll_fd = epoll_fd },
)

-- `event_create`, given whether `calloc` serves it: the loop, or `NULL`. What `calloc` returns is not tested,
-- so `event_init` writes through `NULL`, the outer `none`.
pub event_create : (memory : Bool) (epoll_fd : Option ℕ) (interval : ℕ) → Option (Option Event)
event_create memory epoll_fd interval =
    let (started, evt) = event_init epoll_fd interval in
    if not memory then none else if started then some (some evt) else some none

-- `event_stop`
pub event_stop : Event → Event
event_stop evt = record evt { stop = true }

-- `event_destroy`: the descriptor that is closed, and the loop.
pub event_destroy : Event → Option ℕ × Event
event_destroy evt = (
  evt.epoll_fd,
  record { stop = false; has_tick = false; interval = 0; fd_count = 0; epoll_fd = none },
)

-- `event_free` of the loop at an address: the descriptor that is closed, and the address that is freed.
pub event_free : (address : ℕ) → Event → Option ℕ × ℕ
unfolding event_destroy
event_free address evt = ((event_destroy evt).0, address)

-- `evtent_t`, with numbers for the handler and its argument.
pub record Entry : Type 0 where
  pub fd : ℕ
  pub f : ℕ
  pub x : ℕ
  pub added : Bool

-- `event_entry_create`; `none` where it writes through `NULL`.
pub event_entry_create : (memory : Bool) (handler arg fd : ℕ) → Option Entry
event_entry_create memory handler arg fd =
    if memory then some (record { fd = fd; f = handler; x = arg; added = false }) else none

-- The flags of a descriptor that is ready: `EPOLLHUP`, `EPOLLRDHUP`, `EPOLLIN` and `EPOLLOUT`.
pub record Ready : Type 0 where
  pub hup : Bool
  pub rdhup : Bool
  pub readable : Bool
  pub writable : Bool

-- What `epoll_wait` returns: an error, `EINTR`, or what is ready.
pub data Wait : Type 0 where
  failed interrupted : Wait
  ready : List Ready → Wait

pub record Round : Type 0 where
  pub wait : Wait
  pub now : ℕ
  pub stops : Bool

-- A call of the tick at a time, or of a handler with an event.
pub data Call : Type 0 where
  tick_at handled : ℕ → Call

-- How the loop ends: by `exit (1)`, by `stop`, or not within these rounds.
pub data End : Type 0 where
  exited stopped running : End

-- `(e - t) / 1000 >= interval`, where the division is that of signed numbers.
unfoldable pub is_due : (t e interval : ℕ) → Bool
is_due t e interval =
    if leb t e then leb interval ((e - t) / 1000) else ltb (t - e) 1000 && interval == 0

-- `handle`
abbrev pub handle : Ready → Call
handle r = handled (event_of r.hup r.rdhup r.readable r.writable)

-- What a round calls: the tick, then the handlers.
pub round_calls : (t interval : ℕ) → (now : ℕ) → List Ready → List Call
unfolding is_due
round_calls t interval now rs =
    (if is_due t now interval then tick_at now ∷ [] else []) ++ map handle rs

-- What the `for` loop goes through; `none` where the program exits before it.
abbrev pub served : Wait → Option (List Ready)
served failed = none
served interrupted = some []
served (ready rs) = some rs

-- `event_loop`, from the time `t` of the last tick or the start.
unfoldable pub event_loop : (interval t : ℕ) (stop : Bool) → List Round → List Call × End
unfolding round_calls is_due
event_loop interval t stop [] = ([], if stop then stopped else running)
event_loop interval t stop (r ∷ rounds) =
    let (calls, end) =
      event_loop interval (if is_due t r.now interval then r.now else t) r.stops rounds in
    if stop then ([], stopped) else elim (served r.wait) [
      | none ↦ ([], exited)
      | some rs ↦ (round_calls t interval r.now rs ++ calls, end)
    ]

-- `mstime` and `ustime` of times.c, given `tv_sec` and `tv_usec`.
pub mstime : (sec usec : ℕ) → ℕ
mstime sec usec = sec * 1000 + usec / 1000

pub ustime : (sec usec : ℕ) → ℕ
ustime sec usec = sec * 1000000 + usec

-- The two clocks agree: the milliseconds are those of the microseconds.
pub mstime-ustime : (sec usec : ℕ) → mstime sec usec ≡ ustime sec usec / 1000
unfolding mstime ustime
mstime-ustime sec usec = omega arith
