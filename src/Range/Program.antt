-- ===== src/Range/Program.antt =====
-- The test program of range.c, from its `main`: what it asserts, and what it prints at its end.
mod Tests
use fnsproxy.Base.{
  ℕ, Bool, true, false, not, List, [], ◌∷◌, Option, none, some, ◌==◌, if◌then◌else◌, Bool_eq, map,
  Text, codes,
}
use fnsproxy.Vector.{Status, ok, error, no_fuel}
use fnsproxy.Range.Dump.{dump}
use fnsproxy.Range.{Range, create, set_def, insert_str, delete_str, get_str}

-- The calls that change the ranges; an insertion has to succeed, or to fail.
pub data Change : Type 0 where
  inserts : (start end ip_addr : Text) (succeeds : Bool) → Change
  deletes : (start end : Text) → Change

-- The calls of the program, in order.
unfoldable pub changes : List Change
changes =
    inserts (codes "192.168.0.1") (codes "192.168.0.100") (codes "127.0.0.1") true
    ∷ inserts (codes "192.168.0.10") (codes "192.168.0.50") (codes "127.0.0.2") true
    ∷ inserts (codes "172.23.0.11") (codes "172.24.0.50") (codes "127.0.0.3") true
    ∷ inserts (codes "192.168.0.120") (codes "192.168.0.150") (codes "127.0.0.4") true
    ∷ inserts (codes "192.168.0.110") (codes "192.168.0.115") (codes "127.0.0.5") true
    ∷ inserts (codes "192.168.0.110") (codes "192.168.0.115") (codes "127.0.0.6") true
    ∷ inserts (codes "192.168.0.110") (codes "192.168.0.112") (codes "127.0.0.7") true
    ∷ inserts (codes "192.168.0.110") (codes "192.168.0.112") (codes "127.0.0.7") true
    ∷ inserts (codes "192.168.0.112") (codes "192.168.0.114") (codes "127.0.0.8") false
    ∷ deletes (codes "192.168.0.113") (codes "192.168.0.115")
    ∷ deletes (codes "192.168.0.120") (codes "192.168.0.150")
    ∷ []

-- The addresses that are looked up then.
unfoldable pub keys : List Text
keys =
    codes "192.168.0.123"
    ∷ codes "192.168.0.111"
    ∷ codes "192.168.0.51"
    ∷ codes "192.168.0.50"
    ∷ codes "172.23.111.50"
    ∷ []

abbrev pub is_ok : Status → Bool
is_ok ok = true
is_ok error = false
is_ok no_fuel = false

module _ (inet_aton : Text → Option ℕ) (inet_ntoa : ℕ → Text) (grants : ℕ → Bool) (fuel : ℕ) where
  -- The calls, as far as the assertions hold.
  unfoldable pub assert_all : List Change → Range → Option Range
  assert_all [] r = some r
  assert_all (inserts start end ip_addr succeeds ∷ rest) r =
      let (status, r') = insert_str inet_aton grants fuel r start end ip_addr in
      let further = assert_all rest r' in if Bool_eq (is_ok status) succeeds then further else none
  assert_all (deletes start end ∷ rest) r = elim (delete_str inet_aton fuel r start end) [
    | none ↦ none
    | some r' ↦ assert_all rest r'
  ]

  -- `main`: what `range_dump` prints, and the answers that are printed behind it, or `none` where an assertion fails. `range_set_def` stands before
  -- `assert (r)`, so without memory it writes through `NULL`.
  unfoldable pub main : Option (Text × List (Option Text))
  unfolding assert_all changes keys
  main = elim (create grants) [
    | none ↦ none
    | some r ↦ elim (assert_all changes (set_def r 0xffff_ffff)) [
      | none ↦ none
      | some r' ↦ some (dump inet_ntoa r', map (get_str inet_aton inet_ntoa r') keys)
    ]
  ]
