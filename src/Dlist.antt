-- ===== src/Dlist.antt =====
-- dlist.c: doubly linked lists.
-- A `dlist` is a value outside the memory of the nodes, so a function that changes one returns it. What
-- `malloc` returns is an argument, `NULL` where it fails. A value is a number, the pointer. `free`
-- says whether that method is set: the values that it is called with are returned.
pub mod Chain
pub mod Relink
pub mod Delete
pub mod Add
pub mod Joined
pub mod Insert
pub mod Walk
pub mod Release
pub mod Dup
mod Tests
use fnsproxy.Base.{
  ℕ, zero, suc, ◌+◌, ◌-◌, ◌%◌, Bool, true, false, not, List, [], ◌∷◌, ◌++◌, Option, none, some,
  ◌==◌, if◌then◌else◌, u32_mod, ℤ, pos, negsuc,
}
use fnsproxy.Memory.{
  Ptr, null, Node, node, Heap, Command, done, invalid, endless, pure, ◌>>=◌, ◌>>◌, read, put,
  set_prev, set_next, free,
}

-- `dlist`
pub record Dlist : Type 0 where
  pub head : Ptr
  pub tail : Ptr
  pub len : ℕ
  pub dup : Option (ℕ → Option ℕ)
  pub frees : Bool
  pub matches : Option (ℕ → ℕ → Bool)

-- `dlist_init`
abbrev pub init : Dlist
init = record { head = null; tail = null; len = 0; dup = none; frees = false; matches = none }

-- `dlist_create`, where `memory` says whether `malloc` serves it.
pub create : (memory : Bool) → Option Dlist
create memory = if memory then some init else none

-- `dl->len++` and `dl->len--`
abbrev pub one_more : Dlist → Dlist
one_more dl = record dl { len = (dl.len + 1) % u32_mod }

abbrev pub one_less : Dlist → Dlist
one_less dl = record dl { len = (dl.len + u32_mod - 1) % u32_mod }

-- The values that `dl->free` is called with, where it is called with this one.
abbrev pub freed : Dlist → ℕ → List ℕ
freed dl v = if dl.frees then v ∷ [] else []

-- `dlist_add_node_head`; `none` is `NULL`.
pub add_node_head : (fresh : Ptr) → Dlist → (value : ℕ) → Command (Option Dlist)
add_node_head fresh dl value =
    if fresh == null
    then pure none
    else if dl.len == 0
    then put fresh (some (node null null value))
      >> pure (some (one_more (record dl { head = fresh; tail = fresh })))
    else do
      put fresh (some (node null dl.head value))
      set_prev dl.head fresh
      pure (some (one_more (record dl { head = fresh })))

-- `dlist_add_node_tail`
pub add_node_tail : (fresh : Ptr) → Dlist → (value : ℕ) → Command (Option Dlist)
add_node_tail fresh dl value =
    if fresh == null
    then pure none
    else if dl.len == 0
    then put fresh (some (node null null value))
      >> pure (some (one_more (record dl { head = fresh; tail = fresh })))
    else do
      put fresh (some (node dl.tail null value))
      set_next dl.tail fresh
      pure (some (one_more (record dl { tail = fresh })))

-- The end of `dlist_insert_node`: the neighbours of the new node, where there are any.
pub join_neighbours : (fresh prev next : Ptr) → Command (Unit {0})
join_neighbours fresh prev next = do
  if prev == null then pure tt else set_next prev fresh
  if next == null then pure tt else set_prev next fresh

-- The two branches of `dlist_insert_node`, given what stands at `old`.
pub insert_after : (fresh : Ptr) → Dlist → (old : Ptr) (value : ℕ) → Node → Command (Option Dlist)
unfolding join_neighbours
insert_after fresh dl old value o = do
  put fresh (some (node old o.next value))
  join_neighbours fresh old o.next
  pure (some (one_more (if dl.tail == old then record dl { tail = fresh } else dl)))

pub insert_before : (fresh : Ptr) → Dlist → (old : Ptr) (value : ℕ) → Node → Command (Option Dlist)
unfolding join_neighbours
insert_before fresh dl old value o = do
  put fresh (some (node o.prev old value))
  join_neighbours fresh o.prev old
  pure (some (one_more (if dl.head == old then record dl { head = fresh } else dl)))

-- `dlist_insert_node`
pub insert_node :
    (fresh : Ptr) → Dlist → (old : Ptr) (value : ℕ) (after : Bool) → Command (Option Dlist)
unfolding insert_after insert_before
insert_node fresh dl old value after = if fresh == null then pure none else do
  o ← read old
  if after then insert_after fresh dl old value o else insert_before fresh dl old value o

-- `if (node->prev) node->prev->next = next; else dl->head = next;` and the other way round.
pub join_prev : Dlist → (prev next : Ptr) → Command Dlist
join_prev dl prev next =
    if prev == null then pure (record dl { head = next }) else do set_next prev next; pure dl

pub join_next : Dlist → (prev next : Ptr) → Command Dlist
join_next dl prev next =
    if next == null then pure (record dl { tail = prev }) else do set_prev next prev; pure dl

-- `dlist_delete_node`: the list, and the values that `dl->free` is called with. The fields are read
-- again after each write, as the code does.
pub delete_node : Dlist → Ptr → Command (Dlist × List ℕ)
unfolding join_prev join_next
delete_node dl p = do
  n ← read p
  dl' ← join_prev dl n.prev n.next
  m ← read p
  dl'' ← join_next dl' m.prev m.next
  k ← read p
  free p
  pure (one_less dl'', freed dl'' k.value)

-- The loop of `dlist_destroy`, `len` rounds; then `dlist_free` frees the structure.
pub destroy_from : (len : ℕ) → Dlist → Ptr → Command (List ℕ)
destroy_from zero dl curr = pure []
destroy_from (suc len) dl curr = do
  n ← read curr
  free curr
  rest ← destroy_from len dl n.next
  pure (freed dl n.value ++ rest)

-- `dlist_destroy`
pub destroy : Dlist → Command (List ℕ)
unfolding destroy_from
destroy dl = destroy_from dl.len dl dl.head

-- `dlist_iter`
pub record Iter : Type 0 where
  pub next : Ptr
  pub from_head : Bool

-- `dlist_get_iterator`, where `malloc` serves it, `dlist_rewind` and `dlist_rewind_tail`.
unfoldable pub iterator : Dlist → (from_head : Bool) → Iter
iterator dl from_head = record {
  next = if from_head then dl.head else dl.tail;
  from_head = from_head;
}

-- `dlist_next`: the node, or `NULL`, and the iterator.
unfoldable pub next : Iter → Command (Ptr × Iter)
next it = if it.next == null then pure (it.next, it) else do
  n ← read it.next
  pure (it.next, record it { next = if it.from_head then n.next else n.prev })

-- Whether a node is the one that is searched for.
abbrev pub is_match : Dlist → (value key : ℕ) → Bool
is_match dl value key = elim dl.matches [ none ↦ key == value | some m ↦ m value key ]

-- The loop of `dlist_search_key`.
pub search_from : (fuel : ℕ) → Dlist → (key : ℕ) → Iter → Command Ptr
unfolding next
search_from zero dl key it = λ _. endless
search_from (suc fuel) dl key it = do
  (p, it') ← next it
  elim (p == null) [
    | true ↦ pure null
    | false ↦ do
      n ← read p
      elim (is_match dl n.value key) [ true ↦ pure p | false ↦ search_from fuel dl key it' ]
  ]

-- `dlist_search_key`; the iterator that could not be allocated is read all the same. Each round takes a
-- node, so `len` and one are enough.
pub search_key : (memory : Bool) → Dlist → (key : ℕ) → Command Ptr
unfolding search_from iterator
search_key memory dl key =
    if memory then search_from (dl.len + 1) dl key (iterator dl true) else λ _. invalid

-- The loops of `dlist_index`, by `next` or by `prev`.
pub walk : (by_next : Bool) → (steps : ℕ) → Ptr → Command Ptr
walk by_next zero p = pure p
walk by_next (suc steps) p = elim (p == null) [
  | true ↦ pure p
  | false ↦ do n ← read p; walk by_next steps (if by_next then n.next else n.prev)
]

-- `dlist_index`; `negsuc n` is -(n + 1).
pub index : Dlist → ℤ → Command Ptr
unfolding walk
index dl (pos n) = walk true n dl.head
index dl (negsuc n) = walk false n dl.tail
