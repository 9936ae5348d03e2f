-- ===== src/Net/Reach/Overdue.antt =====
-- What becomes of a client that has expired.
use fnsproxy.Base.{
  ℕ, ◌+◌, ◌-◌, ◌≡◌, ◌≢◌, ◌≤◌, inl, inr, refl, subst, sym, ◌∙◌, Bool, true, false, List, [], ◌∷◌,
  ◌++◌, some, ◌==◌, ltb, leb, if◌then◌else◌, arith, Bool-cases, Option-cases,
}
use fnsproxy.Net.{
  Client, Server, Calls, remove_client, delete_client, srv_cron, read_from_client, cron_interval,
  read_timeout,
}
use fnsproxy.Net.Clients.{expired, has_client, IsDistinct, IsDistinct-append, srv_cron-expired}
use fnsproxy.Net.Reach.{
  Step, tick, request, response, Reach, here, next, delete_client-IsDistinct,
  read_from_client-cases, read_from_client-clock, handle_dns_response-cases, srv_cron-clock,
  IsDistinct-expired,
}

-- Whether the client at an address, the first one there, has expired.
abbrev pub is_overdue : (address clock : ℕ) → List Client → Bool
is_overdue address clock [] = false
is_overdue address clock (c ∷ rest) =
    if c.address == address then leb c.expire_at clock else is_overdue address clock rest

is_overdue-later :
    (address clock now : ℕ) (xs : List Client)
    → clock ≤ now
    → is_overdue address clock xs ≡ true
    → is_overdue address now xs ≡ true
is_overdue-later address clock now [] le h = cc
is_overdue-later address clock now (x ∷ xs) le h =
    ground (arith, is_overdue-later address clock now xs)

is_overdue-append :
    (address clock : ℕ) (xs : List Client) (c : Client)
    → is_overdue address clock xs ≡ true
    → is_overdue address clock (xs ++ c ∷ []) ≡ true
is_overdue-append address clock [] c h = cc
is_overdue-append address clock (x ∷ xs) c h = ground (arith, is_overdue-append address clock xs c)

is_overdue-expired :
    (address now : ℕ) (xs : List Client)
    → is_overdue address now xs ≡ true
    → is_overdue address now (expired now xs) ≡ true
unfolding expired
is_overdue-expired address now [] h = cc
is_overdue-expired address now (x ∷ xs) h = ground (arith, is_overdue-expired address now xs)

is_overdue-remove_client :
    (address b clock : ℕ) (xs ys : List Client)
    → remove_client b xs ≡ some ys
    → b ≢ address
    → is_overdue address clock xs ≡ true
    → is_overdue address clock ys ≡ true
unfolding remove_client
is_overdue-remove_client address b clock [] ys e ne h = cc
is_overdue-remove_client address b clock (x ∷ xs) ys e ne h =
    elim (Option-cases (remove_client b xs)) [
      | inl missing ↦ ground arith
      | inr (zs, found) ↦ ground (arith, is_overdue-remove_client address b clock xs zs found ne)
    ]

-- The client at `address` has expired, and the clients are at different addresses.
pub record HasOverdue (address : ℕ) (s : Server) : Type 0 where
  pub distinct : IsDistinct s.clis
  pub overdue : is_overdue address s.clock s.clis ≡ true

module _ (address : ℕ) where
  delete_client-HasOverdue :
      (s : Server) (b : ℕ)
      → b ≢ address
      → HasOverdue address s
      → HasOverdue address (delete_client s b)
  unfolding delete_client
  delete_client-HasOverdue s b ne h = elim (Option-cases (remove_client b s.clis)) [
    | inl missing ↦ rw (missing, delete_client) h
    | inr (ys, found) ↦ record {
      distinct = delete_client-IsDistinct s b h.distinct;
      overdue =
          rw (found, delete_client)
            (is_overdue-remove_client address b s.clock s.clis ys found ne h.overdue);
    }
  ]

  srv_cron-HasOverdue :
      (now : ℕ) (s : Server)
      → s.clock ≤ now
      → HasOverdue address s
      → HasOverdue address (srv_cron now s)
  srv_cron-HasOverdue now s le h =
      let left = srv_cron-expired now s h.distinct in
      let time = srv_cron-clock now s in
      let later = is_overdue-later address s.clock now s.clis le h.overdue in
      elim (Bool-cases (ltb cron_interval (now - s.last_check))) [
        | inl due ↦
            let checked : (srv_cron now s).clis ≡ expired now s.clis = left ∙ rw due refl in
            record {
              distinct = rw checked (IsDistinct-expired now s.clis h.distinct);
              overdue = rw (time, checked) (is_overdue-expired address now s.clis later);
            }
        | inr early ↦
            let same : (srv_cron now s).clis ≡ s.clis = left ∙ rw early refl in
            record { distinct = rw same h.distinct; overdue = rw (time, same) later }
      ]

  read_from_client-HasOverdue :
      (calls : Calls) (s : Server)
      → has_client calls.address s.clis ≡ false
      → HasOverdue address s
      → HasOverdue address (read_from_client calls s)
  read_from_client-HasOverdue calls s fresh h =
      let client : Client = record {
        address = calls.address;
        expire_at = s.clock + read_timeout;
      } in
      let time = read_from_client-clock calls s in
      elim (read_from_client-cases calls s) [
        | inl same ↦ record { distinct = rw same h.distinct; overdue = rw (time, same) h.overdue }
        | inr longer ↦ record {
          distinct = rw longer (IsDistinct-append s.clis client h.distinct fresh);
          overdue = rw (time, longer) (is_overdue-append address s.clock s.clis client h.overdue);
        }
      ]

  Step-HasOverdue :
      {s t : Server} → Step (λ b. b ≢ address) s t → HasOverdue address s → HasOverdue address t
  Step-HasOverdue {s = s} (tick now le) h = srv_cron-HasOverdue now s le h
  Step-HasOverdue {s = s} (request calls fresh) h = read_from_client-HasOverdue calls s fresh h
  Step-HasOverdue {s = s} (response is_read from_server received forwarded b other) h =
      elim (handle_dns_response-cases is_read from_server received forwarded b s) [
        | inl same ↦ subst (HasOverdue address) (sym same) h
        | inr gone ↦ subst (HasOverdue address) (sym gone) (delete_client-HasOverdue s b other h)
      ]

  -- A client that has expired stays in the list for as long as no response comes for it: no tick, however
  -- late, and no request drops it.
  pub Reach-HasOverdue :
      {s t : Server} → HasOverdue address s → Reach (λ b. b ≢ address) s t → HasOverdue address t
  Reach-HasOverdue h here = h
  Reach-HasOverdue h (next reach step) = Step-HasOverdue step (Reach-HasOverdue h reach)
