-- ===== src/Dlist/Tests.antt =====
-- A list of two nodes in memory, at the addresses 1 and 2.
use fnsproxy.Base.{false, Bool, ◌≡◌, refl, true, [], ◌∷◌, some, none, ◌==◌, if◌then◌else◌, arith}
use fnsproxy.Memory.{invalid, null, node, Heap, done, read, set_next, free}
use fnsproxy.Dlist.{Dlist, init, delete_node, add_node_head, insert_node, destroy, freed}
use fnsproxy.Dlist.Chain.{Cells, IsList, SameMethods}
use fnsproxy.Dlist.Relink.{SameOutside}
use fnsproxy.Dlist.Dup.{duplicate}
use fnsproxy.Dlist.Dup.Copies.{copies, Ends, duplicate-Ends}
use fnsproxy.Dlist.Delete.{delete_node-IsList}
use fnsproxy.Dlist.Add.{Makes, add_node_head-IsList}
use fnsproxy.Dlist.Insert.{insert_node-IsList}
use fnsproxy.Dlist.Release.{freed_values, AllFree, destroy-AllFree}

abbrev memory : Heap
memory q = if q == 1 then some (node null 2 10) else if q == 2 then some (node 1 null 20) else none

abbrev two : Dlist
two = record init { head = 1; tail = 2; len = 2; frees = true }

abbrev cells : Cells
cells = (1, 10) ∷ (2, 20) ∷ []

two-IsList : IsList memory two cells
two-IsList = record {
  chain = (ground arith, refl, (ground arith, refl, tt));
  distinct = (refl, (refl, tt));
  head = refl;
  tail = refl;
  len = refl;
  few = omega arith;
}

-- The copy has nodes of its own; where the second of them cannot be had, the first is given back.
two_copied :
    (dl' : Dlist) × (h' : Heap) × (duplicate true true (7 ∷ 8 ∷ []) two memory
      ≡ done (some dl', []) h')
    × (h' 7 ≡ some (node null 8 10))
    × (h' 8 ≡ some (node 7 null 20))
unfolding duplicate read set_next
two_copied = (_, _, refl, refl, refl)

one_copied :
    (h' : Heap) × (duplicate true true (7 ∷ []) two memory ≡ done (none, 10 ∷ []) h')
    × (h' 7 ≡ none)
unfolding duplicate read free
one_copied = (_, refl, refl)

duplicate-Ends_example :
    Ends memory two
      (copies two (7 ∷ 8 ∷ []) cells).0
      (copies two (7 ∷ 8 ∷ []) cells).1
      (duplicate true true (7 ∷ 8 ∷ []) two memory)
    × ((iter_memory : Bool)
        → duplicate false iter_memory (7 ∷ 8 ∷ []) two memory ≡ done (none, []) memory)
    × (duplicate true false (7 ∷ 8 ∷ []) two memory ≡ invalid)
duplicate-Ends_example =
    duplicate-Ends memory two cells (7 ∷ 8 ∷ []) two-IsList
      (λ e. (refl, refl), (λ e. (refl, refl), tt))

delete_node-IsList_example :
    (dl' : Dlist) × (h' : Heap) × (delete_node two 1 memory ≡ done (dl', freed two 10) h')
    × IsList h' dl' ((2, 20) ∷ [])
    × SameMethods dl' two
    × (h' 1 ≡ none)
    × SameOutside cells h' memory
delete_node-IsList_example = delete_node-IsList memory two [] 1 10 ((2, 20) ∷ []) two-IsList

add_node_head-IsList_example : Makes memory two ((3, 15) ∷ cells) (add_node_head 3 two 15 memory)
add_node_head-IsList_example =
    add_node_head-IsList memory two 3 15 (ground arith) refl cells two-IsList (omega arith)

insert_node-IsList_example :
    Makes memory two ((1, 10) ∷ (3, 15) ∷ (2, 20) ∷ []) (insert_node 3 two 1 15 true memory)
insert_node-IsList_example =
    insert_node-IsList memory two [] 1 10 ((2, 20) ∷ []) 3 15 two-IsList (ground arith) refl
      (omega arith) true

destroy-AllFree_example :
    (h' : Heap) × (destroy two memory ≡ done (freed_values two cells) h')
    × AllFree cells h'
    × SameOutside cells h' memory
destroy-AllFree_example = destroy-AllFree memory two cells two-IsList
