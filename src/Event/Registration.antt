-- ===== src/Event/Registration.antt =====
-- What a sequence of registrations of one entry asks of epoll.
use fnsproxy.Base.{
  ℕ, ◌+◌, ◌%◌, ◌≡◌, ◌≤◌, ◌<◌, inl, inr, refl, true, List, [], ◌∷◌, Option, none, some, ◌==◌,
  u32_mod, arith, Bool-cases,
}
use fnsproxy.Event.{Registered, Request, add, remove, regis}

-- The calls of `event_regis` with these events, in order, and the entry after them.
unfoldable pub after : List ℕ → Registered → Registered
after [] s = s
after (rwd ∷ rest) s = after rest (regis s rwd).1

abbrev is_add : Option Request → ℕ
is_add none = 0
is_add (some q) = elim q.op [ add ↦ 1 | _ ↦ 0 ]

abbrev is_remove : Option Request → ℕ
is_remove none = 0
is_remove (some q) = elim q.op [ remove ↦ 1 | _ ↦ 0 ]

-- How many of the calls ask epoll to add the entry, and how many to remove it.
unfoldable pub adds : List ℕ → Registered → ℕ
adds [] s = 0
adds (rwd ∷ rest) s = is_add (regis s rwd).0 + adds rest (regis s rwd).1

unfoldable pub removes : List ℕ → Registered → ℕ
removes [] s = 0
removes (rwd ∷ rest) s = is_remove (regis s rwd).0 + removes rest (regis s rwd).1

adds-added : (calls : List ℕ) (s : Registered) → s.added ≡ true → adds calls s ≡ 0
unfolding adds regis
adds-added [] s h = refl
adds-added (rwd ∷ rest) s h = ground (arith, adds-added rest (regis s rwd).1)

-- Whatever the calls, at most one of them asks epoll to add the entry, and none once the entry was added:
-- an entry that is removed is not added again. The count of the loop is that before, with the
-- additions and without the removals, in 32 bits.
pub regis-adds :
    (calls : List ℕ) (s : Registered)
    → s.fd_count < u32_mod
    → (adds calls s ≤ 1)
      × (s.added ≡ true → adds calls s ≡ 0)
      × (((after calls s).fd_count + removes calls s) % u32_mod
          ≡ (s.fd_count + adds calls s) % u32_mod)
unfolding adds removes after regis
regis-adds [] s h = ground arith
regis-adds (rwd ∷ rest) s h =
    let s' = (regis s rwd).1 in
    let bound : s'.fd_count < u32_mod = ground arith in
    let later = regis-adds rest s' bound in
    let added_later = adds-added rest s' in
    elim (Bool-cases s.added) [
      | inl once ↦ elim (Bool-cases (rwd == 0)) [
        | inl gone ↦ ground (arith, later, added_later)
        | inr kept ↦ ground (arith, later, added_later)
      ]
      | inr new ↦ elim (Bool-cases (rwd == 0)) [
        | inl gone ↦ ground (arith, later, added_later)
        | inr kept ↦ ground (arith, later, added_later)
      ]
    ]
