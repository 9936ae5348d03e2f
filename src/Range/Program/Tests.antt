-- ===== src/Range/Program/Tests.antt =====
-- The test program of range.c runs to its end.
use fnsproxy.Base.{
  ℕ, ◌+◌, ◌-◌, ◌*◌, ◌/◌, ◌%◌, ◌≡◌, refl, Bool, true, List, [], ◌∷◌, ◌++◌, Option, none, some, ◌==◌,
  ltb, if◌then◌else◌, Text, codes,
}
use fnsproxy.Range.{
  create, set_def, insert, insert_str, insert_loop, insert_low, scan, place, delete, delete_str,
  delete_loop, get, get_str, get_low,
}
use fnsproxy.Range.Program.{main}
use fnsproxy.Vector

-- A dotted quad.
abbrev quad_from : (word byte : ℕ) → Text → ℕ
quad_from word byte [] = word * 256 + byte
quad_from word byte (c ∷ text) =
    quad_from (if c == b'.' then word * 256 + byte else word)
      (if c == b'.' then 0 else byte * 10 + (c - 48)) text

abbrev quad : Text → Option ℕ
quad text = some (quad_from 0 0 text)

abbrev digits : ℕ → Text
digits n =
    if ltb n 10
    then (48 + n) ∷ []
    else if ltb n 100
    then (48 + n / 10) ∷ (48 + n % 10) ∷ []
    else (48 + n / 100) ∷ (48 + n / 10 % 10) ∷ (48 + n % 10) ∷ []

abbrev dotted : ℕ → Text
dotted n =
    digits (n / 16777216)
    ++ (b'.'
        ∷ (digits (n / 65536 % 256)
            ++ (b'.' ∷ (digits (n / 256 % 256) ++ (b'.' ∷ digits (n % 256))))))

abbrev granted : ℕ → Bool
granted bytes = true

abbrev answers : Option (Text × List (Option Text)) → Option (List (Option Text))
answers none = none
answers (some (dumped, found)) = some found

-- Every assertion holds, and the deleted range has the default again.
program :
    answers (main quad dotted granted 4)
    ≡ some (
        some (codes "255.255.255.255")
        ∷ some (codes "127.0.0.7")
        ∷ some (codes "127.0.0.1")
        ∷ some (codes "127.0.0.2")
        ∷ some (codes "127.0.0.3")
        ∷ [])
unfolding main create set_def insert insert_str insert_loop insert_low scan place delete delete_str
    delete_loop get get_str get_low Vector.push Vector.new
program = refl
