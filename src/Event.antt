-- ===== src/Event.antt =====
-- event.c: the registration of an entry with epoll, and the event that a handler is given.
-- epoll_ctl itself is left out: a registration gives the request that is made of it.
pub mod Registration
pub mod Loop
mod Tests
use fnsproxy.Base.{
  ℕ, ◌+◌, ◌-◌, ◌%◌, Bool, true, false, not, ◌&&◌, ◌||◌, List, [], ◌∷◌, Option, none, some, ◌==◌,
  if◌then◌else◌, u32_mod,
}

-- `EVENT_DEL`, `EVENT_RD`, `EVENT_WR` and `EVENT_HUP`.
abbrev pub event_del : ℕ
event_del = 0

abbrev pub event_rd : ℕ
event_rd = 1

abbrev pub event_wr : ℕ
event_wr = 2

abbrev pub event_hup : ℕ
event_hup = 4

-- The field `added` of an entry, and the field `fd_count` of the loop, an `int`, as its 32 bits.
pub record Registered : Type 0 where
  pub added : Bool
  pub fd_count : ℕ

-- `EPOLL_CTL_ADD`, `EPOLL_CTL_MOD` and `EPOLL_CTL_DEL`.
pub data Op : Type 0 where
  add modify remove : Op

-- What is asked of `epoll_ctl`: the operation, and whether `EPOLLIN` and `EPOLLOUT` are set; the other two
-- flags always are.
pub record Request : Type 0 where
  pub op : Op
  pub reads : Bool
  pub writes : Bool

-- `event_regis`; `none` is the -1 of an entry that was never added.
unfoldable pub regis : Registered → (rwd : ℕ) → Option Request × Registered
regis s rwd =
    if not s.added && rwd == event_del
    then (none, s)
    else if not s.added
    then (
      some (record { op = add; reads = rwd == event_rd; writes = rwd == event_wr }),
      record { added = true; fd_count = (s.fd_count + 1) % u32_mod },
    )
    else if rwd == event_del
    then (
      some (record { op = remove; reads = false; writes = false }),
      record s { fd_count = (s.fd_count + u32_mod - 1) % u32_mod },
    )
    else (some (record { op = modify; reads = rwd == event_rd; writes = rwd == event_wr }), s)

-- `handle`: the event for the handler, from the flags `EPOLLHUP`, `EPOLLRDHUP`, `EPOLLIN` and `EPOLLOUT`.
pub event_of : (hup rdhup readable writable : Bool) → ℕ
event_of hup rdhup readable writable =
    if hup || rdhup
    then event_hup
    else if readable
    then event_rd
    else if writable
    then event_wr
    else 0
