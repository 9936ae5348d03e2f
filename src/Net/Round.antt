-- ===== src/Net/Round.antt =====
-- A round of event_loop with the handlers of the server: the tick is srv_cron, the entry of the listening
-- socket has read_from_client, and those of the clients have handle_dns_response. An entry is part of its
-- client, so a client that was freed before its entry is read is memory that is gone: `none`.
use fnsproxy.Base.{
  ℕ, ◌-◌, ◌≡◌, ◌≢◌, ◌↔◌, inl, inr, refl, ap, ◌∙◌, Bool, true, false, not, ◌&&◌, ◌||◌, List, [], ◌∷◌,
  ◌++◌, Option, none, some, ◌==◌, ltb, if◌then◌else◌, arith, Bool-cases, Option-cases,
}
use fnsproxy.Event.{event_of, event_rd}
use fnsproxy.Event.Loop.{Ready, is_due}
use fnsproxy.Net.{
  Client, Server, Calls, remove_client, delete_client, srv_cron, read_from_client,
  handle_dns_response, cron_interval,
}
use fnsproxy.Net.Clients.{expired, has_client, has_client-expired, IsDistinct, srv_cron-expired}
use fnsproxy.Net.Reach.{has_client-other, read_from_client-cases, handle_dns_response-cases}
use fnsproxy.Net.Reach.Overdue.{is_overdue}

-- An entry that is ready, with its flags and what its handler meets: that of the listening socket, or that
-- of the client at an address.
pub data Entry : Type 0 where
  listener : Ready → Calls → Entry
  waiting : Ready → (from_server received forwarded : Bool) (address : ℕ) → Entry

-- `handle`; the handler of the listening socket does not look at the event.
pub call_handler : Entry → Server → Option Server
call_handler (listener flags calls) s = some (read_from_client calls s)
call_handler (waiting flags from_server received forwarded address) s =
    let event = event_of flags.hup flags.rdhup flags.readable flags.writable in
    if has_client address s.clis
    then some (handle_dns_response (event == event_rd) from_server received forwarded address s)
    else none

-- The `for` loop of `event_loop`.
pub serve_ready : List Entry → Server → Option Server
unfolding call_handler
serve_ready [] s = some s
serve_ready (e ∷ es) s = elim (call_handler e s) [ none ↦ none | some s' ↦ serve_ready es s' ]

-- A round of `event_loop`, at the time `us` of `ustime`, `ms` of `mstime`, with the last tick at `t`.
pub serve_round : (interval t us ms : ℕ) → List Entry → Server → Option Server
unfolding serve_ready
serve_round interval t us ms es s =
    serve_ready es (if is_due t us interval then srv_cron ms s else s)

-- Whether an entry of a client at an address is among these.
abbrev pub is_reported : ℕ → List Entry → Bool
is_reported address [] = false
is_reported address (listener flags calls ∷ es) = is_reported address es
is_reported address (waiting flags f r w a ∷ es) = a == address || is_reported address es

-- The entries of clients are those of clients of the list, each once, as epoll reports them.
abbrev pub AreListed : List Entry → List Client → Type 0
AreListed [] xs = Unit {0}
AreListed (listener flags calls ∷ es) xs = AreListed es xs
AreListed (waiting flags f r w a ∷ es) xs =
    (has_client a xs ≡ true) × (is_reported a es ≡ false) × AreListed es xs

-- A list with clients at the same of the reported addresses.
AreListed-same :
    (es : List Entry) (xs ys : List Client)
    → ((a : ℕ) → is_reported a es ≡ true → has_client a xs ≡ true → has_client a ys ≡ true)
    → AreListed es xs
    → AreListed es ys
AreListed-same [] xs ys same h = tt
AreListed-same (listener flags calls ∷ es) xs ys same h = AreListed-same es xs ys same h
AreListed-same (waiting flags f r w a ∷ es) xs ys same h = (
  same a (ground arith) h.0,
  h.1,
  AreListed-same es xs ys (λ b reported. same b (ground arith)) h.2,
)

has_client-more :
    (a : ℕ) (xs : List Client) (c : Client)
    → has_client a xs ≡ true
    → has_client a (xs ++ c ∷ []) ≡ true
has_client-more a [] c h = cc
has_client-more a (x ∷ xs) c h = ground (arith, has_client-more a xs c)

has_client-delete_client :
    (a b : ℕ) (s : Server)
    → b ≢ a
    → has_client b s.clis ≡ true
    → has_client b (delete_client s a).clis ≡ true
unfolding delete_client
has_client-delete_client a b s ne h = elim (Option-cases (remove_client a s.clis)) [
  | inl missing ↦ rw (missing, delete_client) h
  | inr (ys, found) ↦ rw (found, delete_client) (has_client-other a b s.clis ys found ne ∙ h)
]

has_client-response :
    (is_read f r w : Bool) (a b : ℕ) (s : Server)
    → b ≢ a
    → has_client b s.clis ≡ true
    → has_client b (handle_dns_response is_read f r w a s).clis ≡ true
has_client-response is_read f r w a b s ne h = elim (handle_dns_response-cases is_read f r w a s) [
  | inl same ↦ rw same h
  | inr gone ↦ rw gone (has_client-delete_client a b s ne h)
]

has_client-request :
    (calls : Calls) (b : ℕ) (s : Server)
    → has_client b s.clis ≡ true
    → has_client b (read_from_client calls s).clis ≡ true
has_client-request calls b s h = elim (read_from_client-cases calls s) [
  | inl same ↦ rw same h
  | inr longer ↦ rw longer (has_client-more b s.clis _ h)
]

serve_ready-AreListed :
    (es : List Entry) (s : Server)
    → AreListed es s.clis
    → (s' : Server) × (serve_ready es s ≡ some s')
unfolding serve_ready
serve_ready-AreListed [] s h = (s, refl)
serve_ready-AreListed (listener flags calls ∷ es) s h =
    serve_ready-AreListed es (read_from_client calls s) (
      AreListed-same es s.clis (read_from_client calls s).clis
        (λ a reported. has_client-request calls a s) h)
serve_ready-AreListed (waiting flags f r w a ∷ es) s h =
    let is_read = event_of flags.hup flags.rdhup flags.readable flags.writable == event_rd in
    let s' = handle_dns_response is_read f r w a s in
    let kept =
      AreListed-same es s.clis s'.clis
        (λ b reported.
          has_client-response is_read f r w a b s
            (λ e. ground (arith, ap (λ (x : ℕ). is_reported x es) e)))
        h.2 in
    let (t, run) = serve_ready-AreListed es s' kept in (t, rw (h.0, call_handler, serve_ready) run)

-- Where the clients are at different addresses, one that has expired is what `expired` keeps.
has_client-is_overdue :
    (a now : ℕ) (xs : List Client)
    → IsDistinct xs
    → has_client a (expired now xs) ≡ is_overdue a now xs
unfolding expired
has_client-is_overdue a now [] d = refl
has_client-is_overdue a now (x ∷ xs) d =
    ground (arith, has_client-is_overdue a now xs d.1, has_client-expired x.address now xs d.0)

-- A round touches no memory that was freed where the cron job does not check, or keeps every client that is
-- reported; the entries are those of clients of the list, each once.
pub serve_round-AreListed :
    (interval t us ms : ℕ) (es : List Entry) (s : Server)
    → AreListed es (if is_due t us interval then srv_cron ms s else s).clis
    → (s' : Server) × (serve_round interval t us ms es s ≡ some s')
unfolding serve_round
serve_round-AreListed interval t us ms es s h =
    serve_ready-AreListed es (if is_due t us interval then srv_cron ms s else s) h

-- Whether the check of a round has dropped a client: it is due, and the client has not expired.
abbrev pub is_dropped : (interval t us ms address : ℕ) → Server → Bool
is_dropped interval t us ms address s =
    is_due t us interval
    && ltb cron_interval (ms - s.last_check)
    && not (is_overdue address ms s.clis)

has_client-tick :
    (interval t us ms address : ℕ) (s : Server)
    → IsDistinct s.clis
    → has_client address s.clis ≡ true
    → has_client address (if is_due t us interval then srv_cron ms s else s).clis
      ≡ not (is_dropped interval t us ms address s)
has_client-tick interval t us ms address s d listed = elim (Bool-cases (is_due t us interval)) [
  | inr early ↦ rw early listed
  | inl due ↦
      let left = srv_cron-expired ms s d in
      elim (Bool-cases (ltb cron_interval (ms - s.last_check))) [
        | inr unchecked ↦ rw (due, left, unchecked) listed
        | inl checked ↦
            rw (due, left, checked, has_client-is_overdue address ms s.clis d) (not_not _)
      ]
]
  where
    not_not : (b : Bool) → b ≡ not (not b)
    not_not true = refl
    not_not false = refl

-- A round in which one client of the list is reported touches freed memory exactly where its check drops the
-- client first: the tick and the check are due, and the client has not expired. The clients are at different
-- addresses.
pub serve_round-is_dropped :
    (interval t us ms : ℕ) (flags : Ready) (from_server received forwarded : Bool) (address : ℕ)
    (s : Server)
    → IsDistinct s.clis
    → has_client address s.clis ≡ true
    → (serve_round interval t us ms (waiting flags from_server received forwarded address ∷ []) s
        ≡ none)
      ↔ (is_dropped interval t us ms address s ≡ true)
unfolding serve_round
serve_round-is_dropped interval t us ms flags from_server received forwarded address s d listed =
    let ticked = if is_due t us interval then srv_cron ms s else s in
    let there = has_client-tick interval t us ms address s d listed in
    elim (Bool-cases (is_dropped interval t us ms address s)) [
      | inl dropped ↦
          let gone : has_client address ticked.clis ≡ false = there ∙ ap not dropped in
          (λ e. dropped, λ e. rw (gone, call_handler, serve_ready) refl)
      | inr kept ↦
          let left : has_client address ticked.clis ≡ true = there ∙ ap not kept in
          (
            λ e. absurd (ground (arith, rw (left, call_handler, serve_ready) at e)),
            λ e. absurd (ground arith),
          )
    ]
