-- ===== src/Net/Clients.antt =====
-- Which clients the cron job drops.
use fnsproxy.Base.{
  ℕ, ◌+◌, ◌-◌, ◌≡◌, ◌<◌, inl, inr, refl, ap, sym, ◌∙◌, Bool, true, false, ◌&&◌, List, [], ◌∷◌, ◌++◌,
  some, ◌==◌, ltb, leb, if◌then◌else◌, arith, Bool-cases,
}
use fnsproxy.Net.{
  Client, Server, Calls, remove_client, delete_client, check_from, check_timeout, srv_cron,
  read_from_client, cron_interval, read_timeout,
}

-- The clients that have expired, in their order.
unfoldable pub expired : (clock : ℕ) → List Client → List Client
expired clock [] = []
expired clock (c ∷ rest) =
    let kept = expired clock rest in if leb c.expire_at clock then c ∷ kept else kept

-- Whether a list has a client at this address, and whether no two are at the same.
abbrev pub has_client : ℕ → List Client → Bool
has_client address [] = false
has_client address (c ∷ rest) = if c.address == address then true else has_client address rest

abbrev pub IsDistinct : List Client → Type 0
IsDistinct [] = Unit {0}
IsDistinct (c ∷ rest) = (has_client c.address rest ≡ false) × IsDistinct rest

remove_client-middle :
    (before : List Client) (c : Client) (rest : List Client)
    → has_client c.address before ≡ false
    → remove_client c.address (before ++ c ∷ rest) ≡ some (before ++ rest)
unfolding remove_client
remove_client-middle [] c rest h = ground arith
remove_client-middle (b ∷ before) c rest h = ground (arith, remove_client-middle before c rest)

-- No client of the first list is at the address of one of the second.
abbrev Apart : List Client → List Client → Type 0
Apart before [] = Unit {0}
Apart before (c ∷ rest) = (has_client c.address before ≡ false) × Apart before rest

pub has_client-append :
    (address : ℕ) (before : List Client) (c : Client)
    → has_client address before ≡ false
    → (c.address == address) ≡ false
    → has_client address (before ++ c ∷ []) ≡ false
has_client-append address [] c h ne = ground arith
has_client-append address (b ∷ before) c h ne = ground (arith, has_client-append address before c)

Apart-append :
    (before : List Client) (c : Client) (rest : List Client)
    → Apart before rest
    → has_client c.address rest ≡ false
    → Apart (before ++ c ∷ []) rest
Apart-append before c [] h ne = tt
Apart-append before c (d ∷ rest) h ne = (
  has_client-append d.address before c h.0 (ground arith),
  Apart-append before c rest h.1 (ground arith),
)

append_assoc :
    (xs : List Client) (c : Client) (ys : List Client) → xs ++ c ∷ [] ++ ys ≡ xs ++ c ∷ ys
append_assoc [] c ys = refl
append_assoc (x ∷ xs) c ys = ap (λ t. x ∷ t) (append_assoc xs c ys)

delete_client-middle :
    (s : Server) (before : List Client) (c : Client) (rest : List Client)
    → has_client c.address before ≡ false
    → s.clis ≡ before ++ c ∷ rest
    → delete_client s c.address ≡ record s { clis = before ++ rest; sockets = s.sockets - 1 }
unfolding delete_client
delete_client-middle s before c rest h e =
    rw (e, remove_client-middle before c rest h, delete_client) refl

check_from-expired :
    (before rest : List Client) (s : Server)
    → IsDistinct rest
    → Apart before rest
    → s.clis ≡ before ++ rest
    → (check_from rest s).clis ≡ before ++ expired s.clock rest
unfolding check_from expired
check_from-expired before [] s d a e = e
check_from-expired before (c ∷ rest) s d a e = elim (Bool-cases (ltb s.clock c.expire_at)) [
  | inl live ↦
      let gone : leb c.expire_at s.clock ≡ false = ground arith in
      let later =
        check_from-expired before rest (record s { clis = before ++ rest; sockets = s.sockets - 1 })
          d.1 a.1 refl in
      rw (live, gone, delete_client-middle s before c rest a.0 e, check_from, expired) later
  | inr over ↦
      let kept : leb c.expire_at s.clock ≡ true = ground arith in
      let later =
        check_from-expired (before ++ c ∷ []) rest s d.1 (Apart-append before c rest a.1 d.0)
          (e ∙ sym (append_assoc before c rest)) in
      rw (over, kept, check_from, expired) (later ∙ append_assoc before c (expired s.clock rest))
]

Apart-none : (rest : List Client) → Apart [] rest
Apart-none [] = tt
Apart-none (c ∷ rest) = (refl, Apart-none rest)

pub check_timeout-expired :
    (s : Server) → IsDistinct s.clis → (check_timeout s).clis ≡ expired s.clock s.clis
unfolding check_timeout
check_timeout-expired s d = check_from-expired [] s.clis s d (Apart-none s.clis) refl

-- The cron job, where the clients are at different addresses: more than a second after the last check it
-- drops each client that has not expired, and keeps each that has, in their order; before that
-- it changes no client.
pub srv_cron-expired :
    (now : ℕ) (s : Server)
    → IsDistinct s.clis
    → (srv_cron now s).clis
      ≡ (if ltb cron_interval (now - s.last_check) then expired now s.clis else s.clis)
unfolding srv_cron check_timeout
srv_cron-expired now s d =
    let checked =
      check_from-expired [] s.clis (record s { clock = now; last_check = now }) d
        (Apart-none s.clis) refl in
    ground (arith, checked)

pub has_client-expired :
    (address clock : ℕ) (xs : List Client)
    → has_client address xs ≡ false
    → has_client address (expired clock xs) ≡ false
unfolding expired
has_client-expired address clock [] h = refl
has_client-expired address clock (x ∷ xs) h = ground (arith, has_client-expired address clock xs)

has_client-expired_last :
    (clock : ℕ) (xs : List Client) (c : Client)
    → has_client c.address xs ≡ false
    → has_client c.address (expired clock (xs ++ c ∷ [])) ≡ leb c.expire_at clock
unfolding expired
has_client-expired_last clock [] c h = ground arith
has_client-expired_last clock (x ∷ xs) c h = ground (arith, has_client-expired_last clock xs c)

pub IsDistinct-append :
    (xs : List Client) (c : Client)
    → IsDistinct xs
    → has_client c.address xs ≡ false
    → IsDistinct (xs ++ c ∷ [])
IsDistinct-append [] c d h = (refl, tt)
IsDistinct-append (x ∷ xs) c d h =
    (has_client-append x.address xs c d.0 (ground arith), IsDistinct-append xs c d.1 (ground arith))

-- A client whose request was sent on, registered and listed, where the clients of the list are at different
-- addresses, and none at its own: a check, more than a second after the last one, drops it
-- exactly where less than three seconds have passed, and keeps it from then on.
pub read_from_client-dropped :
    (calls : Calls) (s : Server) (now : ℕ)
    → IsDistinct s.clis
    → has_client calls.address s.clis ≡ false
    → (calls.memory && calls.received && calls.socket && calls.sent && calls.registered
        && calls.listed)
      ≡ true
    → cron_interval < now - s.last_check
    → has_client calls.address (srv_cron now (read_from_client calls s)).clis
      ≡ leb (s.clock + read_timeout) now
unfolding read_from_client
read_from_client-dropped calls s now d fresh all due =
    let client : Client = record { address = calls.address; expire_at = s.clock + read_timeout } in
    let added : Server = record s { sockets = s.sockets + 1; clis = s.clis ++ client ∷ [] } in
    let same : read_from_client calls s ≡ added = ground arith in
    let test : ltb cron_interval (now - s.last_check) ≡ true = ground arith in
    rw (same, srv_cron-expired now added (IsDistinct-append s.clis client d fresh), test)
      (has_client-expired_last now s.clis client fresh)
