-- ===== src/Dlist/Dup.antt =====
-- dlist_dup.
pub mod Copying
pub mod Copies
use fnsproxy.Base.{
  ℕ, zero, suc, ◌+◌, Bool, true, false, List, [], ◌∷◌, Option, none, some, ◌==◌, if◌then◌else◌,
}
use fnsproxy.Memory.{Ptr, null, Command, invalid, endless, pure, ◌>>=◌, read}
use fnsproxy.Dlist.{Dlist, Iter, init, iterator, next, destroy, add_node_tail}

-- What the next `malloc` returns.
abbrev pub fresh_of : List Ptr → Ptr
fresh_of [] = null
fresh_of (p ∷ mallocs) = p

abbrev pub mallocs_after : List Ptr → List Ptr
mallocs_after [] = []
mallocs_after (p ∷ mallocs) = mallocs

-- The value for the copied node.
abbrev pub copied : Dlist → ℕ → Option ℕ
copied dl value = elim dl.dup [ none ↦ some value | some f ↦ f value ]

-- The loop of `dlist_dup`: the copy, or `NULL` once it is destroyed, and the values that were freed then.
pub dup_from :
    (fuel : ℕ) → (mallocs : List Ptr) → (copy : Dlist) → Iter → Command (Option Dlist × List ℕ)
unfolding next destroy add_node_tail
dup_from zero mallocs copy it = λ _. endless
dup_from (suc fuel) mallocs copy it = do
  (p, it') ← next it
  elim (p == null) [
    | true ↦ pure (some copy, [])
    | false ↦ do
      n ← read p
      elim (copied copy n.value) [
        | none ↦ do values ← destroy copy; pure (none, values)
        | some value ↦ do
          added ← add_node_tail (fresh_of mallocs) copy value
          elim added [
            | none ↦ do values ← destroy copy; pure (none, values)
            | some copy' ↦ dup_from fuel (mallocs_after mallocs) copy' it'
          ]
      ]
  ]

-- `dlist_dup`, where `memory` and `iter_memory` say whether the structures of the copy and of the iterator
-- are allocated. The iterator is read even if it was not.
unfoldable pub duplicate :
    (memory iter_memory : Bool) → (mallocs : List Ptr) → Dlist → Command (Option Dlist × List ℕ)
unfolding dup_from iterator
duplicate memory iter_memory mallocs orig =
    if memory
    then if iter_memory
      then dup_from (orig.len + 1) mallocs
          (record init { dup = orig.dup; frees = orig.frees; matches = orig.matches })
          (iterator orig true)
      else (λ _. invalid)
    else pure (none, [])
