-- ===== src/Radix/Program.antt =====
-- The test program of radix.c, from its `main`.
use fnsproxy.Base.{ℕ, ◌&&◌, List, Option, none, some, ◌==◌, if◌then◌else◌}
use fnsproxy.Radix.{Status, ok, exists, error, no_fuel, create, insert, delete, find}
use fnsproxy.Radix.Release.{radix_tree_free}

-- What the functions return, as an `int` and one.
abbrev pub above_error : Status → ℕ
above_error ok = 1
above_error exists = 2
above_error error = 0
above_error no_fuel = 3

-- `main`: what is freed at its end, or `none` where an assertion fails.
unfoldable pub main : (mem : ℕ) → Option (List ℕ)
main mem = elim (create mem) [
  | none ↦ none
  | some t ↦
      let (first, t1) = insert t 0x30201123 0xF0000000 b'a' mem in
      let (second, t2) = insert t1 0x30201123 0xF0000000 b'b' mem in
      let value = find t2 0x30201123 in
      let (third, t3) = delete t2 0x30201123 0xF0000000 in
      let (fourth, t4) = delete t3 0x30201123 0xF0000000 in
      if above_error first == 1
        && above_error second == 2
        && value == b'a'
        && above_error third == 1
        && above_error fourth == 0
      then radix_tree_free t4
      else none
]
