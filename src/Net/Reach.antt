-- ===== src/Net/Reach.antt =====
-- The states that the server comes to: steps of its handlers and of its cron job, in any order.
pub mod Sound
pub mod Overdue
use fnsproxy.Base.{
  ℕ, suc, ◌+◌, ◌-◌, ◌≡◌, ◌≢◌, ◌≤◌, ◌<◌, ◌⊎◌, inl, inr, refl, ap, subst, sym, ◌∙◌, Bool, true, false,
  not, ◌&&◌, ◌||◌, List, [], ◌∷◌, ◌++◌, Option, none, some, ◌==◌, ltb, leb, if◌then◌else◌, arith,
  Bool-cases, Option-cases,
}
use fnsproxy.Net.{
  Client, Server, Calls, remove_client, delete_client, check_from, check_timeout, srv_cron,
  read_from_client, handle_dns_response, cron_interval, read_timeout,
}
use fnsproxy.Net.Clients.{
  expired, has_client, has_client-append, has_client-expired, IsDistinct, IsDistinct-append,
  srv_cron-expired,
}

-- A step of the server. `malloc` does not return the address of a client that is listed, time does not go
-- back, and responses come for some addresses only.
pub data Step (Answered : ℕ → Type 0) (s : Server) : Server → Type 0 where
  tick : (now : ℕ) → s.clock ≤ now → Step Answered s (srv_cron now s)
  request :
      (calls : Calls)
      → has_client calls.address s.clis ≡ false
      → Step Answered s (read_from_client calls s)
  response :
      (is_read from_server received forwarded : Bool) (address : ℕ)
      → Answered address
      → Step Answered s (handle_dns_response is_read from_server received forwarded address s)

pub data Reach (Answered : ℕ → Type 0) (s : Server) : Server → Type 0 where
  here : Reach Answered s s
  next : {t u : Server} → Reach Answered s t → Step Answered t u → Reach Answered s u

-- The addresses of a list without its first client at one of them.
pub has_client-remove_client :
    (address b : ℕ) (xs ys : List Client)
    → remove_client address xs ≡ some ys
    → has_client b xs ≡ false
    → has_client b ys ≡ false
unfolding remove_client
has_client-remove_client address b [] ys e h = cc
has_client-remove_client address b (x ∷ xs) ys e h =
    elim (Option-cases (remove_client address xs)) [
      | inl missing ↦ ground arith
      | inr (zs, found) ↦ ground (arith, has_client-remove_client address b xs zs found)
    ]

pub has_client-other :
    (address b : ℕ) (xs ys : List Client)
    → remove_client address xs ≡ some ys
    → b ≢ address
    → has_client b ys ≡ has_client b xs
unfolding remove_client
has_client-other address b [] ys e ne = cc
has_client-other address b (x ∷ xs) ys e ne = elim (Option-cases (remove_client address xs)) [
  | inl missing ↦ ground arith
  | inr (zs, found) ↦ ground (arith, has_client-other address b xs zs found ne)
]

-- What a removal leaves: the rest, or the first client and what a removal from the rest leaves.
pub remove_client-cases :
    (address : ℕ) (x : Client) (xs ys : List Client)
    → remove_client address (x ∷ xs) ≡ some ys
    → (xs ≡ ys) ⊎ ((zs : List Client) × (remove_client address xs ≡ some zs) × (x ∷ zs ≡ ys))
unfolding remove_client
remove_client-cases address x xs ys e = elim (Bool-cases (x.address == address)) [
  | inl hit ↦ inl (ground arith)
  | inr miss ↦ elim (Option-cases (remove_client address xs)) [
    | inl missing ↦ absurd (ground arith)
    | inr (zs, found) ↦ inr (zs, found, ground arith)
  ]
]

IsDistinct-remove_client :
    (address : ℕ) (xs ys : List Client)
    → remove_client address xs ≡ some ys
    → IsDistinct xs
    → IsDistinct ys
IsDistinct-remove_client address [] ys e d = unfold remove_client in absurd (ground arith)
IsDistinct-remove_client address (x ∷ xs) ys e d = elim (remove_client-cases address x xs ys e) [
  | inl same ↦ subst IsDistinct same d.1
  | inr (zs, found, same) ↦ subst IsDistinct same (
    has_client-remove_client address x.address xs zs found d.0,
    IsDistinct-remove_client address xs zs found d.1,
  )
]

pub IsDistinct-expired :
    (clock : ℕ) (xs : List Client) → IsDistinct xs → IsDistinct (expired clock xs)
unfolding expired
IsDistinct-expired clock [] d = tt
IsDistinct-expired clock (x ∷ xs) d = elim (Bool-cases (leb x.expire_at clock)) [
  | inl over ↦ rw over (has_client-expired x.address clock xs d.0, IsDistinct-expired clock xs d.1)
  | inr live ↦ rw live (IsDistinct-expired clock xs d.1)
]

pub delete_client-IsDistinct :
    (s : Server) (address : ℕ) → IsDistinct s.clis → IsDistinct (delete_client s address).clis
unfolding delete_client
delete_client-IsDistinct s address d = elim (Option-cases (remove_client address s.clis)) [
  | inl missing ↦ rw (missing, delete_client) d
  | inr (ys, found) ↦ rw (found, delete_client) (IsDistinct-remove_client address s.clis ys found d)
]

-- What a request, a response and a tick make of the list.
pub read_from_client-cases :
    (calls : Calls) (s : Server)
    → ((read_from_client calls s).clis ≡ s.clis)
      ⊎ ((read_from_client calls s).clis
          ≡ s.clis ++ record { address = calls.address; expire_at = s.clock + read_timeout } ∷ [])
unfolding read_from_client
read_from_client-cases calls s =
    elim (Bool-cases (
      calls.memory && calls.received && calls.socket && calls.sent && calls.registered
      && calls.listed)) [ inl all ↦ inr (ground arith) | inr some_failed ↦ inl (ground arith) ]

pub read_from_client-clock :
    (calls : Calls) (s : Server) → (read_from_client calls s).clock ≡ s.clock
unfolding read_from_client
read_from_client-clock calls s = ground arith

pub handle_dns_response-cases :
    (is_read from_server received forwarded : Bool) (address : ℕ) (s : Server)
    → (handle_dns_response is_read from_server received forwarded address s ≡ s)
      ⊎ (handle_dns_response is_read from_server received forwarded address s
          ≡ delete_client s address)
unfolding handle_dns_response
handle_dns_response-cases true true true true address s = inr refl
handle_dns_response-cases true true true false address s = inl refl
handle_dns_response-cases true true false forwarded address s = inl refl
handle_dns_response-cases true false received forwarded address s = inl refl
handle_dns_response-cases false from_server received forwarded address s = inl refl

pub delete_client-clock : (s : Server) (address : ℕ) → (delete_client s address).clock ≡ s.clock
unfolding delete_client
delete_client-clock s address = ground (arith, Option-cases (remove_client address s.clis))

check_from-clock : (rest : List Client) (s : Server) → (check_from rest s).clock ≡ s.clock
unfolding check_from
check_from-clock [] s = refl
check_from-clock (c ∷ rest) s = elim (Bool-cases (ltb s.clock c.expire_at)) [
  | inl live ↦
      rw (live, check_from)
        (check_from-clock rest (delete_client s c.address) ∙ delete_client-clock s c.address)
  | inr over ↦ rw (over, check_from) (check_from-clock rest s)
]

pub srv_cron-clock : (now : ℕ) (s : Server) → (srv_cron now s).clock ≡ now
unfolding srv_cron check_timeout
srv_cron-clock now s =
    ground (arith, check_from-clock s.clis (record s { clock = now; last_check = now }))
