-- ===== src/Geo/Table/Entry.antt =====
-- geo_parse_cidr on a trie that holds a table.
use fnsproxy.Base.{
  ℕ, suc, ◌≡◌, ◌≢◌, ◌<◌, ◌⊎◌, inl, inr, refl, ap, Bool, true, false, ◌||◌, ◌==◌, arith, List, [],
  ◌∷◌, Option, Text, codes, same_text, Bool-cases, Option-cases,
}
use fnsproxy.Radix
use fnsproxy.Radix.{Tree, no_value}
use fnsproxy.Radix.Paths.{value_at, network}
use fnsproxy.Radix.Insert.{insert-status, insert-failed}
use fnsproxy.Radix.Delete.{delete-value_at, delete-error}
use fnsproxy.Radix.Trimmed.{delete-status, delete-IsTrimmed}
use fnsproxy.Radix.Height.{delete-IsShallow}
use fnsproxy.Geo.{Status, ok, error, retry, set_cidr, geo_parse_cidr, parse_cidr}
use fnsproxy.Geo.Cidr.{IsSetBy, retry-IsSetBy, retry-free}
use fnsproxy.Geo.Table.{
  Table, Told, told, refused, untold, set_network, is_whole, put, tell_network, tell_entry, Holds,
}

-- A line's result on the trie is what the table says of it.
abbrev pub Follows : Told → Status × Tree → Type 0
Follows (told v) result = (result.0 ≡ ok) × Holds result.1 v
Follows (refused n) result = (n ≡ 1) × (result.0 ≡ error)
Follows untold result = Unit {0}

is_whole-cases : (net : List Bool) → (net ≡ []) ⊎ ((net ≢ []) × (is_whole net ≡ false))
is_whole-cases [] = inl refl
is_whole-cases (b ∷ net) = inr (λ e. cc, refl)

module _ (addr mask ip mem : ℕ) (memory : 32 < mem) (set : ip ≢ no_value) (t : Tree) (v : Table)
    (holds : Holds t v) where
  IsSetBy-Holds :
      (result : Status × Tree)
      → IsSetBy t addr mask ip result
      → Follows (told (set_network v (network addr mask) ip)) result
  IsSetBy-Holds result by = (
    by.status,
    record {
      trimmed = by.trimmed;
      shallow = by.shallow;
      values = λ q. ground (arith, by.values q, holds.values q);
    },
  )

  -- The whole space can be neither set again nor deleted.
  retry_whole :
      (tries : ℕ)
      → network addr mask ≡ []
      → value_at t.root (network addr mask) ≢ no_value
      → (retry (suc tries) t addr mask ip mem).0 ≡ error
  unfolding retry
  retry_whole tries whole taken =
      let found : (Radix.insert t addr mask ip mem).0 ≡ Radix.exists =
        ground (arith, insert-status addr mask ip t mem memory) in
      let same : (Radix.insert t addr mask ip mem).1 ≡ t =
        (insert-failed addr mask ip t mem (ground arith)).1 found in
      let stuck : (Radix.delete (Radix.insert t addr mask ip mem).1 addr mask).0 ≡ Radix.error =
        rw same ((delete-status t addr mask holds.trimmed).1 (inl whole)) in
      rw (found, stuck, retry) refl

  retry-put : Follows (put v (network addr mask) ip) (retry 3 t addr mask ip mem)
  retry-put =
      let unset : (ip == no_value) ≡ false = ground arith in
      let same = holds.values (network addr mask) in
      elim (is_whole-cases (network addr mask)) [
        | inr (below, inner) ↦
            rw (unset, inner)
              (IsSetBy-Holds _
                (retry-IsSetBy addr mask ip mem memory set t holds.trimmed holds.shallow below))
        | inl whole ↦
            let outer : is_whole (network addr mask) ≡ true = ap is_whole whole in
            elim (Bool-cases (v (network addr mask) == no_value)) [
              | inl free ↦
                  rw (unset, outer, free)
                    (IsSetBy-Holds _ (
                      retry-free addr mask ip mem memory set t 2 holds.trimmed holds.shallow
                        (ground arith)))
              | inr taken ↦ rw (unset, outer, taken) (refl, retry_whole 2 whole (ground arith))
            ]
      ]

whole_or_unset :
    (net : List Bool) (n : ℕ) → (is_whole net || n == no_value) ≡ true → (net ≡ []) ⊎ (n ≡ no_value)
whole_or_unset [] n e = inl refl
whole_or_unset (b ∷ net) n e = inr (ground arith)

neither_whole_nor_unset :
    (net : List Bool) (n : ℕ)
    → (is_whole net || n == no_value) ≡ false
    → ((net ≡ []) ⊎ (n ≡ no_value))
    → ⊥
neither_whole_nor_unset net n e (inl whole) = absurd (ground (arith, ap is_whole whole))
neither_whole_nor_unset net n e (inr unset) = absurd (ground arith)

module _ (addr mask : ℕ) (t : Tree) (v : Table) (holds : Holds t v) where
  delete-refused :
      (is_whole (network addr mask) || v (network addr mask) == no_value) ≡ true
      → (Radix.delete t addr mask).0 ≡ Radix.error
  delete-refused stuck = (delete-status t addr mask holds.trimmed).1 (
      whole_or_unset (network addr mask) (value_at t.root (network addr mask))
        (rw (holds.values (network addr mask)) stuck))

  delete-told :
      (is_whole (network addr mask) || v (network addr mask) == no_value) ≡ false
      → ((Radix.delete t addr mask).0 ≡ Radix.ok)
        × Holds (Radix.delete t addr mask).1 (set_network v (network addr mask) no_value)
  delete-told free =
      let open_ : ¬ ((Radix.delete t addr mask).0 ≡ Radix.error) = λ e.
        neither_whole_nor_unset (network addr mask) (value_at t.root (network addr mask))
          (rw (holds.values (network addr mask)) free)
          ((delete-status t addr mask holds.trimmed).0 e) in
      let deleted : (Radix.delete t addr mask).0 ≡ Radix.ok =
        ground (arith, open_, delete-error t addr mask) in
      (
        deleted,
        record {
          trimmed = delete-IsTrimmed t addr mask holds.trimmed;
          shallow = delete-IsShallow t addr mask holds.shallow;
          values = λ q. ground (arith, delete-value_at t addr mask q deleted, holds.values q);
        },
      )

module _ (inet_aton : Text → Option ℕ) (atoi : Text → ℕ) (mem : ℕ) (memory : 32 < mem) (t : Tree)
    (v : Table) (holds : Holds t v) where
  set_cidr-put :
      (addr mask ip : ℕ) → Follows (put v (network addr mask) ip) (retry 3 t addr mask ip mem)
  set_cidr-put addr mask ip = elim (Bool-cases (ip == no_value)) [
    | inl unset ↦ rw unset tt
    | inr set ↦ retry-put addr mask ip mem memory (ground arith) t v holds
  ]

  set_cidr-tell_network :
      (cidr value : Text)
      → Follows
          (tell_network inet_aton atoi v cidr value)
          (set_cidr inet_aton atoi mem t cidr value)
  unfolding set_cidr tell_network
  set_cidr-tell_network cidr value = elim (Option-cases (parse_cidr inet_aton atoi cidr)) [
    | inl bad ↦ rw (bad, set_cidr, parse_cidr, tell_network) (refl, refl)
    | inr ((addr, mask), parsed) ↦ elim (Option-cases (inet_aton value)) [
      | inl unset ↦ rw (parsed, unset, set_cidr, parse_cidr, tell_network) (refl, refl)
      | inr (ip, found) ↦
          rw (parsed, found, set_cidr, parse_cidr, tell_network) (set_cidr-put addr mask ip)
    ]
  ]

  -- A line of a CIDR file does to the trie what the table says, and fails where it says so.
  pub geo_parse_cidr-tell_entry :
      (cidr value : Text)
      → Follows
          (tell_entry inet_aton atoi v cidr value)
          (geo_parse_cidr inet_aton atoi mem t cidr value)
  unfolding geo_parse_cidr tell_entry
  geo_parse_cidr-tell_entry cidr value = elim (Bool-cases (same_text cidr (codes "default"))) [
    | inl default ↦ elim (Option-cases (inet_aton value)) [
      | inl unset ↦ rw (default, unset, geo_parse_cidr, tell_entry) (refl, refl)
      | inr (ip, found) ↦
          rw (default, found, geo_parse_cidr, tell_entry) (set_cidr-tell_network cidr value)
    ]
    | inr other ↦ elim (Bool-cases (same_text cidr (codes "delete"))) [
      | inr network_line ↦
          rw (other, network_line, geo_parse_cidr, tell_entry) (set_cidr-tell_network cidr value)
      | inl delete_line ↦ elim (Option-cases (parse_cidr inet_aton atoi value)) [
        | inl bad ↦
            rw (other, delete_line, bad, geo_parse_cidr, tell_entry, parse_cidr) (refl, refl)
        | inr ((addr, mask), parsed) ↦
            elim (Bool-cases (is_whole (network addr mask) || v (network addr mask) == no_value)) [
              | inl stuck ↦
                  rw
                    (
                      other,
                      delete_line,
                      parsed,
                      geo_parse_cidr,
                      tell_entry,
                      parse_cidr,
                      stuck,
                      delete-refused addr mask t v holds stuck,
                    )
                    (refl, refl)
              | inr free ↦
                  let (deleted, held) = delete-told addr mask t v holds free in
                  rw
                    (
                      other, delete_line, parsed, geo_parse_cidr, tell_entry, parse_cidr, free,
                      deleted,
                    )
                    (refl, held)
            ]
      ]
    ]
  ]
