-- ===== src/Net/Sockets.antt =====
-- The sockets that are opened for clients, over runs of requests, responses and ticks.
use fnsproxy.Base.{
  length-append, ℕ, suc, ◌+◌, ◌≡◌, inl, inr, Bool, true, false, not, ◌&&◌, List, [], ◌∷◌, some, ltb,
  if◌then◌else◌, arith, length, Bool-cases, Option-cases,
}
use fnsproxy.Net.{
  Client, Server, Calls, remove_client, delete_client, check_from, check_timeout, srv_cron,
  read_from_client, handle_dns_response, read_timeout,
}

-- What happens to the server: a request, a response for a client, or a tick of the clock.
pub data Event : Type 0 where
  request : Calls → Event
  response : (is_read from_server received forwarded : Bool) (address : ℕ) → Event
  tick : (now : ℕ) → Event

pub handle : Event → Server → Server
unfolding read_from_client handle_dns_response srv_cron
handle (request calls) s = read_from_client calls s
handle (response is_read from_server received forwarded address) s =
    handle_dns_response is_read from_server received forwarded address s
handle (tick now) s = srv_cron now s

pub run : List Event → Server → Server
unfolding handle
run [] s = s
run (e ∷ events) s = run events (handle e s)

-- Whether a request leaves its socket open without a client: it is sent on, but cannot be registered or
-- listed.
abbrev pub is_leak : Calls → Bool
is_leak calls =
    calls.memory
    && calls.received
    && calls.socket
    && calls.sent
    && not (calls.registered && calls.listed)

unfoldable pub leaks : List Event → ℕ
leaks [] = 0
leaks (request calls ∷ events) = (if is_leak calls then 1 else 0) + leaks events
leaks (response is_read from_server received forwarded address ∷ events) = leaks events
leaks (tick now ∷ events) = leaks events

remove_client-length :
    (address : ℕ) (xs ys : List Client)
    → remove_client address xs ≡ some ys
    → length xs ≡ suc (length ys)
unfolding remove_client
remove_client-length address [] ys e = cc
remove_client-length address (x ∷ xs) ys e = elim (Option-cases (remove_client address xs)) [
  | inl missing ↦ ground arith
  | inr (zs, found) ↦ ground (arith, remove_client-length address xs zs found)
]

-- The sockets are those of the clients, and so many that have none.
abbrev pub HasLost : ℕ → Server → Type 0
HasLost n s = s.sockets ≡ length s.clis + n

delete_client-HasLost :
    (n : ℕ) (s : Server) (address : ℕ) → HasLost n s → HasLost n (delete_client s address)
unfolding delete_client
delete_client-HasLost n s address h = elim (Option-cases (remove_client address s.clis)) [
  | inl missing ↦ ground arith
  | inr (ys, found) ↦ ground (arith, remove_client-length address s.clis ys found)
]

check_from-HasLost :
    (n : ℕ) (rest : List Client) (s : Server) → HasLost n s → HasLost n (check_from rest s)
unfolding check_from
check_from-HasLost n [] s h = h
check_from-HasLost n (c ∷ rest) s h = elim (Bool-cases (ltb s.clock c.expire_at)) [
  | inl live ↦
      rw (live, check_from)
        (check_from-HasLost n rest (delete_client s c.address)
          (delete_client-HasLost n s c.address h))
  | inr over ↦ rw (over, check_from) (check_from-HasLost n rest s h)
]

request-HasLost :
    (n address : ℕ) (memory received socket sent registered listed : Bool) (s : Server)
    → HasLost n s
    → let calls : Calls = record {
      address = address;
      memory = memory;
      received = received;
      socket = socket;
      sent = sent;
      registered = registered;
      listed = listed;
    } in
      HasLost ((if is_leak calls then 1 else 0) + n) (read_from_client calls s)
unfolding read_from_client
request-HasLost n address false received socket sent registered listed s h = omega (arith, h)
request-HasLost n address true false socket sent registered listed s h = omega (arith, h)
request-HasLost n address true true false sent registered listed s h = omega (arith, h)
request-HasLost n address true true true false registered listed s h = omega (arith, h)
request-HasLost n address true true true true false listed s h = omega (arith, h)
request-HasLost n address true true true true true false s h = omega (arith, h)
request-HasLost n address true true true true true true s h =
    let client : Client = record { address = address; expire_at = s.clock + read_timeout } in
    omega (arith, h, length-append s.clis (client ∷ []))

handle-HasLost :
    (n : ℕ) (e : Event) (s : Server) → HasLost n s → HasLost (leaks (e ∷ []) + n) (handle e s)
unfolding handle leaks check_timeout
handle-HasLost n (request calls) s h =
    let same : leaks (request calls ∷ []) + n ≡ (if is_leak calls then 1 else 0) + n =
      omega arith in
    rw same (
      request-HasLost n calls.address calls.memory calls.received calls.socket calls.sent
        calls.registered calls.listed s h)
handle-HasLost n (response is_read from_server received forwarded address) s h =
    unfold handle_dns_response in ground (arith, delete_client-HasLost n s address h)
handle-HasLost n (tick now) s h =
    unfold srv_cron in
    ground (arith, check_from-HasLost n s.clis (record s { clock = now; last_check = now }) h)

leaks-cons : (e : Event) (events : List Event) → leaks (e ∷ events) ≡ leaks (e ∷ []) + leaks events
unfolding leaks
leaks-cons (request calls) events = omega arith
leaks-cons (response is_read from_server received forwarded address) events = omega arith
leaks-cons (tick now) events = omega arith

-- Whatever requests, responses and ticks come, in whatever order: the sockets that are open are those of
-- the clients, and one for each request that was sent on but could not be registered or listed.
pub run-sockets :
    (events : List Event) (s : Server) (n : ℕ)
    → s.sockets ≡ length s.clis + n
    → (run events s).sockets ≡ length (run events s).clis + (leaks events + n)
unfolding run leaks
run-sockets [] s n h = omega (arith, h)
run-sockets (e ∷ events) s n h =
    let later = run-sockets events (handle e s) (leaks (e ∷ []) + n) (handle-HasLost n e s h) in
    omega (arith, later, leaks-cons e events)
