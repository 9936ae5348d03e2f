-- ===== src/Range/Tests.antt =====
-- Runs of range.c, and the theorems at concrete settings.
use fnsproxy.Base.{
  Text, codes, ◌+◌, ◌%◌, ◌++◌, ℕ, zero, suc, ◌≡◌, refl, ◌&&◌, arith, ap, Option, none, some, [],
  ◌∷◌, if◌then◌else◌, ◌==◌,
}
use fnsproxy.Vector
use fnsproxy.Vector.{Vector, Status, ok, error}
use fnsproxy.Range.{
  Low, Range, invalid, insert, insert_loop, insert_low, delete, delete_loop, get, get_low, scan,
  place,
}
use fnsproxy.Range.Scan.{IsOrdered}
use fnsproxy.Range.Insert.{IsRange, within, insert-get}
use fnsproxy.Range.Success.{always, IsFree, insert-ok}
use fnsproxy.Range.Dump
use fnsproxy.Range.Release
use fnsproxy.Range.Delete.{is_stored, delete-get}

abbrev blank : Range
blank = record { low = λ _. none; def_ip = 5 }

blank-IsRange : IsRange blank
blank-IsRange h v e = cc

blank-IsFree : IsFree blank 100 0x2_0007
blank-IsFree h v k e = cc

abbrev get_or : Option Range → Range
get_or none = blank
get_or (some r) = r

-- The range from 100 to 200, with the address 9.
abbrev bucket : Vector Low
bucket = record {
  count = 1;
  slots = 16;
  size = 8;
  cells = λ i. if i == 0 then record { ip_addr = 9; start = 100; end = 200 } else invalid;
}

bucket-IsOrdered : IsOrdered bucket
bucket-IsOrdered = record {
  roomy = record {
    valid = record { spare = omega arith; element = omega arith; bytes = omega arith };
    element = refl;
    slots = omega arith;
  };
  ascending = (omega arith, omega arith, omega arith);
}

abbrev stored : Range
stored = record { low = λ h. if h == 0 then some bucket else none; def_ip = 5 }

stored-IsRange : IsRange stored
stored-IsRange zero v e =
    rw (ap {B = Vector Low} (λ o. elim o [ none ↦ bucket | some w ↦ w ]) e) at bucket-IsOrdered
stored-IsRange (suc h) v e = absurd (ground arith)

get-stored : get stored 150 ≡ 9
unfolding get get_low
get-stored = refl

-- An insertion into the middle of a range splits it.
inserted : insert always 3 stored 120 130 7 ≡ (ok, (insert always 3 stored 120 130 7).1)
unfolding insert insert_loop insert_low scan place Vector.push
inserted = refl

insert-get_example :
    get (insert always 3 stored 120 130 7).1 125
    ≡ (if within 120 130 125 then 7 else get stored 125)
insert-get_example =
    insert-get always stored 120 130 7 3 (insert always 3 stored 120 130 7).1 stored-IsRange
      (omega arith) inserted 125

scanned : scan always 120 130 7 1 bucket ≡ (ok, (scan always 120 130 7 1 bucket).1)
unfolding scan place Vector.push
scanned = refl

appended : scan always 10 20 7 1 bucket ≡ (ok, (scan always 10 20 7 1 bucket).1)
unfolding scan place Vector.push
appended = refl

missed : delete 3 stored 100 0x1_0010 ≡ some (get_or (delete 3 stored 100 0x1_0010))
unfolding delete delete_loop
missed = refl

insert-ok_example :
    (r' : Range) × (insert always 0x1_0000 blank 100 0x2_0007 7 ≡ (ok, r'))
    × ((key : ℕ) → get r' key ≡ (if within 100 0x2_0007 key then 7 else get blank key))
insert-ok_example =
    insert-ok blank 100 0x2_0007 7 blank-IsRange blank-IsFree (omega arith) (omega arith)

delete-get_example :
    (r' : Range) × (delete 2 stored 100 200 ≡ some r')
    × IsRange r'
    × ((key : ℕ)
        → get r' key ≡ (
            if is_stored stored 100 200 && within 100 200 key
            then stored.def_ip
            else get stored key))
delete-get_example = delete-get stored 100 200 stored-IsRange 0 (omega arith) refl (omega arith)

-- Buckets with two vectors: each vector's data goes before it, the array of buckets last.
abbrev blocks : Release.Blocks
blocks = record {
  buckets = 7;
  low = λ i.
      if i == 1
      then some (20, record { count = 1; slots = 32; size = 8; elements = 21 })
      else if i == 3
      then some (30, record { count = 0; slots = 32; size = 8; elements = 31 })
      else none;
}

four_freed : Release.destroy_from 4 0 blocks ≡ 21 ∷ 20 ∷ 31 ∷ 30 ∷ []
unfolding Release.destroy_from
four_freed = refl

-- The ranges of one bucket, with addresses that are printed by their lowest byte.
abbrev shown : ℕ → Text
shown address = (48 + address % 10) ∷ []

dumped : Dump.dump_from shown 2 0 stored ≡ codes "0                0                9" ++ 10 ∷ []
unfolding Dump.dump_from
dumped = refl
