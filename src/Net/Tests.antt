-- ===== src/Net/Tests.antt =====
-- Runs of the handlers and of the cron job, and the theorems at a concrete server.
use fnsproxy.Base.{
  Bool, ℕ, ◌+◌, ◌-◌, ◌≡◌, ◌≢◌, ◌↔◌, some, none, ◌==◌, refl, true, false, List, [], ◌∷◌, ltb, leb,
  if◌then◌else◌, arith, length,
}
use fnsproxy.Net.{
  Server, Calls, srv_cron, read_from_client, check_timeout, check_from, delete_client,
  remove_client, cron_interval, read_timeout,
}
use fnsproxy.Net.Clients.{
  expired, has_client, IsDistinct, srv_cron-expired, read_from_client-dropped,
}
use fnsproxy.Net.Reach.{tick as ticked, request as requested, Reach, here, next}
use fnsproxy.Net.Reach.Sound.{IsSound, Reach-IsSound}
use fnsproxy.Net.Reach.Overdue.{HasOverdue, Reach-HasOverdue}
use fnsproxy.Event.Loop.{Ready, is_due}
use fnsproxy.Net.Round.{
  Entry, listener, waiting, serve_round, AreListed, is_dropped, serve_round-AreListed,
  serve_round-is_dropped,
}
use fnsproxy.Net.Sockets.{Event, request, response, tick, run, leaks, run-sockets}
use fnsproxy.Memory.{null, node, Heap}
use fnsproxy.Dlist.{Dlist, init}
use fnsproxy.Dlist.Chain.{Cells, IsList}
use fnsproxy.Net.Listed.{clients}
use fnsproxy.Net.Sweep.{check_list, served, Sweeps, check_list-check_timeout}

-- One client that expires in a second, one that has expired.
abbrev two : Server
two = record {
  clock = 5000;
  last_check = 4500;
  clis = record { address = 1; expire_at = 6000 } ∷ record { address = 2; expire_at = 4000 } ∷ [];
  sockets = 2;
}

abbrev accepted : Calls
accepted = record {
  address = 3;
  memory = true;
  received = true;
  socket = true;
  sent = true;
  registered = true;
  listed = true;
}

-- The client that waits is dropped, the expired one is kept.
srv_cron-two : (srv_cron 5600 two).clis ≡ record { address = 2; expire_at = 4000 } ∷ []
unfolding srv_cron check_timeout check_from delete_client remove_client
srv_cron-two = refl

two-IsDistinct : IsDistinct two.clis
two-IsDistinct = (refl, (refl, tt))

srv_cron-expired_example :
    (srv_cron 5600 two).clis
    ≡ (if ltb cron_interval (5600 - two.last_check) then expired 5600 two.clis else two.clis)
srv_cron-expired_example = srv_cron-expired 5600 two two-IsDistinct

read_from_client-dropped_example :
    has_client accepted.address (srv_cron 5600 (read_from_client accepted two)).clis
    ≡ leb (two.clock + read_timeout) 5600
read_from_client-dropped_example =
    read_from_client-dropped accepted two 5600 two-IsDistinct refl refl (omega arith)

abbrev events : List Event
events =
    request accepted
    ∷ request (record accepted { registered = false })
    ∷ tick 5600
    ∷ response true true true true 2
    ∷ []

run-sockets_example : (run events two).sockets ≡ length (run events two).clis + (leaks events + 0)
run-sockets_example = run-sockets events two 0 refl

-- The two clients in memory, at the addresses 10 and 20.
abbrev memory : Heap
memory q =
    if q == 10 then some (node null 20 1) else if q == 20 then some (node 10 null 2) else none

abbrev listed : Dlist
listed = record init { head = 10; tail = 20; len = 2 }

abbrev cells : Cells
cells = (10, 1) ∷ (20, 2) ∷ []

abbrev expiry : ℕ → ℕ
expiry address = if address == 1 then 6000 else 4000

-- There is memory for the iterator of each search.
abbrev iterators : ℕ → Bool
iterators address = true

listed-IsList : IsList memory listed cells
listed-IsList = record {
  chain = (ground arith, refl, (ground arith, refl, tt));
  distinct = (refl, (refl, tt));
  head = refl;
  tail = refl;
  len = refl;
  few = omega arith;
}

check_list-check_timeout_example :
    (left : Cells) × (clients expiry left ≡ (check_timeout two).clis)
    × Sweeps true left (check_list iterators two.clock expiry listed memory)
unfolding served
check_list-check_timeout_example =
    check_list-check_timeout iterators memory listed expiry cells two listed-IsList refl
      (unfold clients in refl) two-IsDistinct

-- A request at 5000, then ticks at 5600 and at 9000.
later : Server
later = srv_cron 9000 (srv_cron 5600 (read_from_client accepted two))

two-later : Reach (λ b. b ≢ 2) two later
unfolding read_from_client srv_cron later
two-later =
    next (next (next here (requested accepted refl)) (ticked 5600 (omega arith)))
      (ticked 9000 (omega arith))

Reach-IsSound_example : IsSound later
Reach-IsSound_example =
    Reach-IsSound record { distinct = two-IsDistinct; within = (omega arith, (omega arith, tt)) }
      two-later

Reach-HasOverdue_example : HasOverdue 2 later
Reach-HasOverdue_example =
    Reach-HasOverdue 2 record { distinct = two-IsDistinct; overdue = refl } two-later

abbrev readable : Ready
readable = record { hup = false; rdhup = false; readable = true; writable = false }

-- A round with a tick and with a request and the response for the client that has expired.
abbrev entries : List Entry
entries = listener readable accepted ∷ waiting readable true true true 2 ∷ []

entries-AreListed :
    AreListed entries (if is_due 4_000_000 5_600_000 1000 then srv_cron 5600 two else two).clis
unfolding is_due srv_cron check_timeout check_from delete_client remove_client
entries-AreListed = (refl, refl, tt)

serve_round-AreListed_example :
    (s' : Server) × (serve_round 1000 4_000_000 5_600_000 5600 entries two ≡ some s')
serve_round-AreListed_example =
    serve_round-AreListed 1000 4_000_000 5_600_000 5600 entries two entries-AreListed

-- The response for the client that has not expired.
serve_round-is_dropped_example :
    (serve_round 1000 4_000_000 5_600_000 5600 (waiting readable true true true 1 ∷ []) two ≡ none)
    ↔ (is_dropped 1000 4_000_000 5_600_000 5600 1 two ≡ true)
serve_round-is_dropped_example =
    serve_round-is_dropped 1000 4_000_000 5_600_000 5600 readable true true true 1 two
      two-IsDistinct refl

is_dropped-two : is_dropped 1000 4_000_000 5_600_000 5600 1 two ≡ true
unfolding is_due
is_dropped-two = refl
