-- ===== src/Radix/Tests.antt =====
-- Runs of radix.c on the trie of its test program, and the theorems at concrete tries.
use fnsproxy.Base.{
  Bool, List, ℕ, some, suc, ◌*◌, ◌-◌, ◌≡◌, ◌≢◌, ◌↔◌, ◌⊎◌, refl, [], ◌∷◌, false, has_bit, arith,
  if◌then◌else◌,
}
use fnsproxy.Radix.{
  Tree, node, null, no_value, create, insert, delete, find, Status, ok, error, exists, no_fuel,
  grow, insert_at, rebuild, descend, remove_at, climb, find_from,
}
use fnsproxy.Radix.Program.{main}
use fnsproxy.Radix.Paths.{value_at, network, same_path}
use fnsproxy.Radix.Insert.{insert-ne-no_fuel, insert-value_at}
use fnsproxy.Radix.Trimmed.{delete-ok, IsTrimmed, delete-status, insert-IsTrimmed}
use fnsproxy.Radix.Release.{radix_tree_free, postorder, radix_tree_free-postorder}
use fnsproxy.Radix.Find.{prefix, prefix_from, IsShallow, IsLongest, find-last_entry, find-IsLongest}

abbrev start : Tree
start = record { root = node null null 0; size = 32 }

abbrev key : ℕ
key = 0x3020_1123

abbrev mask : ℕ
mask = 0xf000_0000

abbrev one : Tree
one = (insert start key mask 97 100).1

find-one : find one key ≡ 97
unfolding insert find insert_at grow has_bit find_from
find-one = refl

insert_one : (insert start key mask 97 100).0 ≡ ok
unfolding insert insert_at grow has_bit
insert_one = refl

insert_again : (insert one key mask 98 100).0 ≡ exists
unfolding insert insert_at grow has_bit
insert_again = refl

delete-one : delete one key mask ≡ (ok, record start { size = 5 * 32 })
unfolding insert insert_at grow has_bit delete remove_at climb rebuild descend
delete-one = refl

delete_again : (delete (delete one key mask).1 key mask).0 ≡ error
unfolding insert insert_at grow has_bit delete remove_at climb rebuild descend
delete_again = refl

start-IsTrimmed : IsTrimmed start
start-IsTrimmed = (tt, tt)

one-IsTrimmed : IsTrimmed one
one-IsTrimmed =
    insert-IsTrimmed start key mask 97 100 (ground arith) (ground (arith, insert_one))
      start-IsTrimmed

one-IsShallow : IsShallow one
unfolding fnsproxy.Radix.Find.height insert insert_at grow has_bit
one-IsShallow = omega arith

insert-value_at_example : value_at (insert start key mask 97 100).1.root (false ∷ false ∷ []) ≡ (
    if same_path (false ∷ false ∷ []) (network key mask)
    then 97
    else value_at start.root (false ∷ false ∷ []))
insert-value_at_example = insert-value_at key mask 97 start 100 (false ∷ false ∷ []) insert_one

delete_ok : (delete one key mask).0 ≡ ok
unfolding insert insert_at grow has_bit delete remove_at climb rebuild descend
delete_ok = refl

delete-ok_example :
    IsTrimmed (delete one key mask).1
    × ((q : List Bool)
        → value_at (delete one key mask).1.root q
          ≡ (if same_path q (network key mask) then no_value else value_at one.root q))
delete-ok_example = delete-ok one key mask one-IsTrimmed delete_ok

delete-status_example :
    ((delete one key mask).0 ≡ error)
    ↔ ((network key mask ≡ []) ⊎ (value_at one.root (network key mask) ≡ no_value))
delete-status_example = delete-status one key mask one-IsTrimmed

one-beyond : (m : ℕ) → value_at one.root (prefix key (suc (suc (suc (suc (suc m)))))) ≡ no_value
unfolding fnsproxy.Radix.Paths.value_at prefix_from insert insert_at grow has_bit
one-beyond m = refl

one-value : value_at one.root (prefix key 4) ≡ 97
unfolding fnsproxy.Radix.Paths.value_at prefix_from insert insert_at grow has_bit
one-value = refl

one-IsLongest : IsLongest one key 4
one-IsLongest = (
  omega arith,
  ground (arith, one-value),
  λ m h small.
      let e : suc (suc (suc (suc (suc (m - 5))))) ≡ m = omega arith in rw e at (one-beyond (m - 5)),
)

find-IsLongest_example : find one key ≡ value_at one.root (prefix key 4)
find-IsLongest_example = find-IsLongest one key 4 one-IsShallow one-IsLongest

insert-ne-no_fuel_example : (insert one key mask 97 100).0 ≢ no_fuel
insert-ne-no_fuel_example = insert-ne-no_fuel key mask 97 one 100

abbrev three : Tree
three = record { root = node (node null null 1) (node null null 2) 3; size = 96 }

radix_tree_free-postorder_example : radix_tree_free three ≡ some (postorder three.root)
radix_tree_free-postorder_example = radix_tree_free-postorder three refl

-- Every assertion of the test program holds; of the trie only the root is left to free.
program : main 40 ≡ some (0 ∷ [])
unfolding main insert insert_at grow delete remove_at climb descend rebuild find find_from
    radix_tree_free has_bit create fnsproxy.Radix.Release.count
program = refl
