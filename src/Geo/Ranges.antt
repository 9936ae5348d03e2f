-- ===== src/Geo/Ranges.antt =====
-- geo_parse_range on the buckets: what a line of a range file does to the lookups.
use fnsproxy.Base.{
  ℕ, ◌≡◌, ◌≤◌, ◌<◌, refl, Bool, false, Option, some, if◌then◌else◌, Text, codes, same_text,
}
use fnsproxy.Vector
use fnsproxy.Range
use fnsproxy.Range.{Range}
use fnsproxy.Range.Insert.{IsRange, within}
use fnsproxy.Range.Success.{always, IsFree, insert-ok}
use fnsproxy.Geo.{ok, parse_range, geo_parse_range, get, by_range}

-- A line with the range from `start` to `end`, and with an address.
pub record IsRangeLine (inet_aton : Text → Option ℕ) (atoi : Text → ℕ) (range value : Text)
    (start end ip : ℕ) : Type 0 where
  pub not_default : same_text range (codes "default") ≡ false
  pub not_delete : same_text range (codes "delete") ≡ false
  pub parsed : parse_range inet_aton atoi range ≡ some (start, end)
  pub address : inet_aton value ≡ some ip
  pub ordered : start ≤ end
  pub small : end < 0xffff_0000

pub get-by_range : (r : Range) (key : ℕ) → get (by_range r) key ≡ Range.get r key
unfolding get
get-by_range r key = refl

module _ (inet_aton : Text → Option ℕ) (atoi : Text → ℕ) (range value : Text) (start end ip : ℕ)
    (line : IsRangeLine inet_aton atoi range value start end ip) where
  geo_parse_range-insert :
      (grants : ℕ → Bool) (rounds : ℕ) (r r' : Range)
      → Range.insert grants rounds r start end ip ≡ (Vector.ok, r')
      → geo_parse_range inet_aton atoi grants rounds r range value ≡ (ok, r')
  unfolding geo_parse_range
  geo_parse_range-insert grants rounds r r' e =
      rw (line.not_default, line.not_delete, line.address, line.parsed, e, geo_parse_range) refl

  -- A line of a range file, where no stored range shares a key with the new one and memory is granted.
  pub geo_parse_range-get :
      (r : Range)
      → IsRange r
      → IsFree r start end
      → let (status, r') = geo_parse_range inet_aton atoi always 0x1_0000 r range value in
        (status ≡ ok)
        × ((key : ℕ)
            → get (by_range r') key ≡ (if within start end key then ip else get (by_range r) key))
  geo_parse_range-get r o free =
      let (r', done, found) = insert-ok r start end ip o free line.ordered line.small in
      rw (geo_parse_range-insert always 0x1_0000 r r' done)
        (refl, λ key. rw (get-by_range r' key, get-by_range r key) (found key))
