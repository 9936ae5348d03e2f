-- ===== src/Net/Reach/Sound.antt =====
-- What holds in every state that the server comes to.
use fnsproxy.Base.{
  ℕ, ◌+◌, ◌-◌, ◌≡◌, ◌≤◌, inl, inr, refl, subst, sym, ◌∙◌, false, List, [], ◌∷◌, ◌++◌, some, ltb,
  leb, arith, Bool-cases, Option-cases,
}
use fnsproxy.Net.{
  Client, Server, Calls, remove_client, delete_client, srv_cron, read_from_client, cron_interval,
  read_timeout,
}
use fnsproxy.Net.Clients.{expired, has_client, IsDistinct, IsDistinct-append, srv_cron-expired}
use fnsproxy.Net.Reach.{
  Step, tick, request, response, Reach, here, next, remove_client-cases, delete_client-IsDistinct,
  read_from_client-cases, read_from_client-clock, handle_dns_response-cases, srv_cron-clock,
  IsDistinct-expired,
}

-- No client waits longer than `READ_TIMEOUT` from now on.
abbrev pub Within : (clock : ℕ) → List Client → Type 0
Within clock [] = Unit {0}
Within clock (c ∷ rest) = (c.expire_at ≤ clock + read_timeout) × Within clock rest

-- The clients are at different addresses, and none waits for too long.
pub record IsSound (s : Server) : Type 0 where
  pub distinct : IsDistinct s.clis
  pub within : Within s.clock s.clis

Within-later : (clock now : ℕ) (xs : List Client) → clock ≤ now → Within clock xs → Within now xs
Within-later clock now [] le w = tt
Within-later clock now (x ∷ xs) le w = (omega (arith, w.0), Within-later clock now xs le w.1)

Within-expired :
    (clock now : ℕ) (xs : List Client) → Within clock xs → Within clock (expired now xs)
unfolding expired
Within-expired clock now [] w = tt
Within-expired clock now (x ∷ xs) w = elim (Bool-cases (leb x.expire_at now)) [
  | inl over ↦ rw over (w.0, Within-expired clock now xs w.1)
  | inr live ↦ rw live (Within-expired clock now xs w.1)
]

Within-append :
    (clock : ℕ) (xs : List Client) (c : Client)
    → c.expire_at ≤ clock + read_timeout
    → Within clock xs
    → Within clock (xs ++ c ∷ [])
Within-append clock [] c le w = (le, tt)
Within-append clock (x ∷ xs) c le w = (w.0, Within-append clock xs c le w.1)

Within-remove_client :
    (clock address : ℕ) (xs ys : List Client)
    → remove_client address xs ≡ some ys
    → Within clock xs
    → Within clock ys
Within-remove_client clock address [] ys e w = unfold remove_client in absurd (ground arith)
Within-remove_client clock address (x ∷ xs) ys e w = elim (remove_client-cases address x xs ys e) [
  | inl same ↦ subst (Within clock) same w.1
  | inr (zs, found, same) ↦
      subst (Within clock) same (w.0, Within-remove_client clock address xs zs found w.1)
]

delete_client-IsSound : (s : Server) (address : ℕ) → IsSound s → IsSound (delete_client s address)
unfolding delete_client
delete_client-IsSound s address sound = elim (Option-cases (remove_client address s.clis)) [
  | inl missing ↦ rw (missing, delete_client) sound
  | inr (ys, found) ↦ record {
    distinct = delete_client-IsDistinct s address sound.distinct;
    within =
        rw (found, delete_client)
          (Within-remove_client s.clock address s.clis ys found sound.within);
  }
]

srv_cron-IsSound : (now : ℕ) (s : Server) → s.clock ≤ now → IsSound s → IsSound (srv_cron now s)
srv_cron-IsSound now s le sound =
    let left = srv_cron-expired now s sound.distinct in
    let time = srv_cron-clock now s in
    let later = Within-later s.clock now s.clis le sound.within in
    elim (Bool-cases (ltb cron_interval (now - s.last_check))) [
      | inl due ↦
          let checked : (srv_cron now s).clis ≡ expired now s.clis = left ∙ rw due refl in
          record {
            distinct = rw checked (IsDistinct-expired now s.clis sound.distinct);
            within = rw (time, checked) (Within-expired now now s.clis later);
          }
      | inr early ↦
          let same : (srv_cron now s).clis ≡ s.clis = left ∙ rw early refl in
          record { distinct = rw same sound.distinct; within = rw (time, same) later }
    ]

read_from_client-IsSound :
    (calls : Calls) (s : Server)
    → has_client calls.address s.clis ≡ false
    → IsSound s
    → IsSound (read_from_client calls s)
read_from_client-IsSound calls s fresh sound =
    let client : Client = record { address = calls.address; expire_at = s.clock + read_timeout } in
    let time = read_from_client-clock calls s in
    elim (read_from_client-cases calls s) [
      | inl same ↦ record {
        distinct = rw same sound.distinct;
        within = rw (time, same) sound.within;
      }
      | inr longer ↦ record {
        distinct = rw longer (IsDistinct-append s.clis client sound.distinct fresh);
        within = rw (time, longer) (Within-append s.clock s.clis client (omega arith) sound.within);
      }
    ]

Step-IsSound : {Answered : ℕ → Type 0} {s t : Server} → Step Answered s t → IsSound s → IsSound t
Step-IsSound {s = s} (tick now le) sound = srv_cron-IsSound now s le sound
Step-IsSound {s = s} (request calls fresh) sound = read_from_client-IsSound calls s fresh sound
Step-IsSound {s = s} (response is_read from_server received forwarded address answered) sound =
    elim (handle_dns_response-cases is_read from_server received forwarded address s) [
      | inl same ↦ subst IsSound (sym same) sound
      | inr gone ↦ subst IsSound (sym gone) (delete_client-IsSound s address sound)
    ]

-- In every state that the server comes to, whatever the order of requests, responses and ticks, the clients
-- are at different addresses, and none has longer to wait than `READ_TIMEOUT`, if this was so before;
-- `malloc` returns no address that is in use, and time does not go back.
pub Reach-IsSound :
    {Answered : ℕ → Type 0} {s t : Server} → IsSound s → Reach Answered s t → IsSound t
Reach-IsSound sound here = sound
Reach-IsSound sound (next reach step) = Step-IsSound step (Reach-IsSound sound reach)
