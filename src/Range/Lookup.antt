-- ===== src/Range/Lookup.antt =====
-- A bucket as the list of its ranges: the first match, and ranges in ascending order.
use fnsproxy.Base.{
  ℕ, zero, suc, ◌+◌, ◌≡◌, ◌≤◌, refl, true, not, ◌&&◌, List, [], ◌∷◌, ◌++◌, arith, Option, none,
  some, ltb, leb, if◌then◌else◌, length,
}
use fnsproxy.Vector.Items.{cells_from}
use fnsproxy.Range.{Low, get_low}

abbrev pub or_else : Option ℕ → Option ℕ → Option ℕ
or_else none o = o
or_else (some x) o = some x

-- The address of the first range that a key lies in.
unfoldable pub first_match : List Low → ℕ → Option ℕ
first_match [] key = none
first_match (x ∷ xs) key =
    if leb x.start key && leb key x.end then some x.ip_addr else first_match xs key

-- Ranges in ascending order, none empty, that do not overlap and lie in [`lo`, `hi`).
abbrev pub Ascending : (lo hi : ℕ) → List Low → Type 0
Ascending lo hi [] = lo ≤ hi
Ascending lo hi (x ∷ xs) = (lo ≤ x.start) × (x.start ≤ x.end) × Ascending (x.end + 1) hi xs

pub get_low-first_match :
    (f : ℕ → Low) (key n i : ℕ) → get_low f key n i ≡ first_match (cells_from f i n) key
unfolding get_low first_match
get_low-first_match f key zero i = refl
get_low-first_match f key (suc n) i = rw (get_low-first_match f key n (i + 1))

pub first_match-append :
    (xs ys : List Low) (key : ℕ)
    → first_match (xs ++ ys) key ≡ or_else (first_match xs key) (first_match ys key)
unfolding first_match
first_match-append [] ys key = refl
first_match-append (x ∷ xs) ys key = ground (arith, first_match-append xs ys key)

pub Ascending-le : (lo hi : ℕ) (xs : List Low) → Ascending lo hi xs → lo ≤ hi
Ascending-le lo hi [] a = a
Ascending-le lo hi (x ∷ xs) a = omega (arith, Ascending-le (x.end + 1) hi xs a.2)

pub first_match-outside :
    (lo hi : ℕ) (xs : List Low) (key : ℕ)
    → Ascending lo hi xs
    → not (leb lo key && ltb key hi) ≡ true
    → first_match xs key ≡ none
unfolding first_match
first_match-outside lo hi [] key a h = refl
first_match-outside lo hi (x ∷ xs) key a h =
    ground
      (arith, Ascending-le (x.end + 1) hi xs a.2, first_match-outside (x.end + 1) hi xs key a.2)

pub length-Ascending : (lo hi : ℕ) (xs : List Low) → Ascending lo hi xs → lo + length xs ≤ hi
length-Ascending lo hi [] a = omega arith
length-Ascending lo hi (x ∷ xs) a = omega (arith, length-Ascending (x.end + 1) hi xs a.2)

pub Ascending-widen :
    (lo mid hi : ℕ) (xs : List Low) → lo ≤ mid → Ascending mid hi xs → Ascending lo hi xs
Ascending-widen lo mid hi [] h a = omega arith
Ascending-widen lo mid hi (x ∷ xs) h a = (omega arith, a.1, a.2)

-- An ascending list falls apart at each of its ranges, and is put together again with others.
pub Ascending-split :
    (lo hi : ℕ) (xs : List Low) (x : Low) (ys : List Low)
    → Ascending lo hi (xs ++ x ∷ ys)
    → Ascending lo x.start xs × (x.start ≤ x.end) × Ascending (x.end + 1) hi ys
Ascending-split lo hi [] x ys a = a
Ascending-split lo hi (z ∷ xs) x ys a =
    let (before, inside, after) = Ascending-split (z.end + 1) hi xs x ys a.2 in
    ((a.0, a.1, before), inside, after)

pub Ascending-append :
    (lo mid hi : ℕ) (xs ys : List Low)
    → Ascending lo mid xs
    → Ascending mid hi ys
    → Ascending lo hi (xs ++ ys)
Ascending-append lo mid hi [] ys a b = Ascending-widen lo mid hi ys a b
Ascending-append lo mid hi (x ∷ xs) ys a b =
    (a.0, a.1, Ascending-append (x.end + 1) mid hi xs ys a.2 b)
