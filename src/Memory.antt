-- ===== src/Memory.antt =====
-- Memory with nodes of a doubly linked list in it, and commands that read and write it.
-- An address that holds no node faults where it is read or written, as does `NULL`.
use fnsproxy.Base.{ℕ, ◌≡◌, ◌≢◌, Option, none, some, ◌==◌, if◌then◌else◌, arith}

abbrev pub Ptr : Type 0
Ptr = ℕ

abbrev pub null : Ptr
null = 0

-- `dlist_node`
pub record Node : Type 0 where
  pub prev : Ptr
  pub next : Ptr
  pub value : ℕ

abbrev pub node : (prev next : Ptr) (value : ℕ) → Node
node p q v = record { prev = p; next = q; value = v }

abbrev pub Heap : Type 0
Heap = Ptr → Option Node

-- The heap with one address changed; `none` gives it back.
abbrev pub with_cell : Heap → Ptr → Option Node → Heap
with_cell h p cell q = if q == p then cell else h q

-- How a command ends: with a result, at an address without a node, or out of rounds.
pub data Outcome (A : Type 0) : Type 0 where
  done : A → Heap → Outcome A
  invalid : Outcome A
  endless : Outcome A

abbrev pub Command : Type 0 → Type 0
Command A = Heap → Outcome A

abbrev pub pure : {A : Type 0} → A → Command A
pure a h = done a h

abbrev pub bind_outcome : {A B : Type 0} → Outcome A → (A → Command B) → Outcome B
bind_outcome (done a h) next = next a h
bind_outcome invalid next = invalid
bind_outcome endless next = endless

infixl 5 ◌>>=◌ ◌>>◌
abbrev pub ◌>>=◌ : {A B : Type 0} → Command A → (A → Command B) → Command B
◌>>=◌ m next h = bind_outcome (m h) next

abbrev pub ◌>>◌ : {B : Type 0} → Command (Unit {0}) → Command B → Command B
◌>>◌ m next h = bind_outcome (m h) (λ _. next)

-- `*p`
unfoldable pub read : Ptr → Command Node
read p h = if p == null then invalid else elim (h p) [ none ↦ invalid | some n ↦ done n h ]

abbrev pub put : Ptr → Option Node → Command (Unit {0})
put p cell h = done tt (with_cell h p cell)

-- `p->prev = q`, `p->next = q` and `free (p)`
unfoldable pub set_prev : Ptr → Ptr → Command (Unit {0})
unfolding read
set_prev p q = do n ← read p; put p (some (record n { prev = q }))

unfoldable pub set_next : Ptr → Ptr → Command (Unit {0})
unfolding read
set_next p q = do n ← read p; put p (some (record n { next = q }))

unfoldable pub free : Ptr → Command (Unit {0})
unfolding read
free p = do _ ← read p; put p none

module _ (h : Heap) (p : Ptr) (n : Node) where
  pub read_lem : p ≢ null → h p ≡ some n → read p h ≡ done n h
  unfolding read
  read_lem set held = ground arith

  pub set_prev_lem :
      (q : Ptr)
      → p ≢ null
      → h p ≡ some n
      → set_prev p q h ≡ done tt (with_cell h p (some (record n { prev = q })))
  unfolding set_prev
  set_prev_lem q set held = rw (read_lem set held)

  pub set_next_lem :
      (q : Ptr)
      → p ≢ null
      → h p ≡ some n
      → set_next p q h ≡ done tt (with_cell h p (some (record n { next = q })))
  unfolding set_next
  set_next_lem q set held = rw (read_lem set held)

  pub free_lem : p ≢ null → h p ≡ some n → free p h ≡ done tt (with_cell h p none)
  unfolding free
  free_lem set held = rw (read_lem set held)
