-- ===== src/Radix.antt =====
-- radix.c: the bitwise trie that holds the CIDR settings.
-- `NULL` is `null`; a node is owned by its parent, so the trie is a value, and the `parent`
-- pointers are the frames between a node and the root (`Frame`).
-- `mem` is the number of further allocations that `malloc` grants.
pub mod Paths
pub mod Insert
pub mod Delete
pub mod Trimmed
pub mod Height
pub mod Release
pub mod Program
pub mod Find
mod Tests
use fnsproxy.Base.{
  ℕ, zero, suc, ◌+◌, ◌/◌, Bool, true, false, not, ◌||◌, List, [], ◌∷◌, Option, none, some, ◌==◌,
  if◌then◌else◌, has_bit, top_bit,
}

abbrev pub no_value : ℕ
no_value = 0

-- `struct radix_node_st`
pub data Node : Type 0 where
  null : Node
  node : (left right : Node) (value : ℕ) → Node

-- `radix_tree_t`
pub record Tree : Type 0 where
  pub root : Node
  pub size : ℕ

-- `sizeof(radix_node_t)`, which `radix_alloc` adds to `size`, with 8-byte pointers.
abbrev pub node_size : ℕ
node_size = 32

abbrev pub is_null : Node → Bool
is_null null = true
is_null (node _ _ _) = false

-- What a function returns as `int`: 0, 1 and -1. `no_fuel` belongs to the model only.
pub data Status : Type 0 where
  ok exists error no_fuel : Status

-- `radix_tree_create`. The first allocation is that of the tree.
unfoldable pub create : ℕ → Option Tree
create zero = none
create (suc zero) = none
create (suc (suc mem)) = some (record { root = node null null no_value; size = node_size })

-- The status, the new subtree, and the bytes that `radix_alloc` added to `size`.
pub record Inserted : Type 0 where
  pub status : Status
  pub here : Node
  pub grown : ℕ

-- `node->right = child` or `node->left = child`, at the node with this value and no other child.
abbrev pub only_child : Bool → Node → Node
only_child true child = node null child no_value
only_child false child = node child null no_value

-- The second loop of `radix32tree_insert`: the subtree that it hangs below the node where the first
-- loop stopped. `bit` is the one that the new node tests. A failed allocation keeps what is made.
pub grow : (fuel bit key mask value mem : ℕ) → Inserted
grow zero bit key mask value mem = record { status = no_fuel; here = null; grown = 0 }
grow (suc fuel) bit key mask value zero = record { status = error; here = null; grown = 0 }
grow (suc fuel) bit key mask value (suc mem) =
    let made = grow fuel (bit / 2) key mask value mem in
    if has_bit mask bit
    then record {
      status = made.status;
      here = only_child (has_bit key bit) made.here;
      grown = made.grown + node_size;
    }
    else record { status = ok; here = node null null value; grown = node_size }

-- The end of the first loop at a node that is there: `exists` if it has a value.
abbrev pub settle : (left right : Node) (old value : ℕ) → Inserted
settle left right old value =
    if old == no_value
    then record { status = ok; here = node left right value; grown = 0 }
    else record { status = exists; here = node left right old; grown = 0 }

-- The first loop of `radix32tree_insert`; where it meets `NULL` it breaks, and the second one starts.
-- A word has 32 bits, so 33 rounds are enough for that one.
pub insert_at : Node → (bit key mask value mem : ℕ) → Inserted
insert_at null bit key mask value mem = grow 33 bit key mask value mem
insert_at (node left right old) bit key mask value mem = elim (has_bit mask bit) [
  | false ↦ settle left right old value
  | true ↦ elim (has_bit key bit) [
    | true ↦
        let made = insert_at right (bit / 2) key mask value mem in
        record made { here = node left made.here old }
    | false ↦
        let made = insert_at left (bit / 2) key mask value mem in
        record made { here = node made.here right old }
  ]
]

-- `radix32tree_insert`
pub insert : Tree → (key mask value mem : ℕ) → Status × Tree
insert t key mask value mem =
    let made = insert_at t.root top_bit key mask value mem in
    (made.status, record { root = made.here; size = t.size + made.grown })

-- A node's parent: whether the node is its right child, the other child, and the parent's value.
pub record Frame : Type 0 where
  pub is_right : Bool
  pub sibling : Node
  pub value : ℕ

abbrev pub plug : Frame → Node → Node
plug f child = if f.is_right then node f.sibling child f.value else node child f.sibling f.value

-- The whole trie again, from a node and its ancestors, the nearest first.
pub rebuild : List Frame → Node → Node
rebuild [] n = n
rebuild (f ∷ frames) n = rebuild frames (plug f n)

-- The first loop of `radix32tree_delete`.
pub descend : Node → (bit key mask : ℕ) → List Frame → Node × List Frame
descend null bit key mask frames = (null, frames)
descend (node left right value) bit key mask frames = elim (has_bit mask bit) [
  | false ↦ (node left right value, frames)
  | true ↦ elim (has_bit key bit) [
    | true ↦
        descend right (bit / 2) key mask
          (record { is_right = true; sibling = left; value = value } ∷ frames)
    | false ↦
        descend left (bit / 2) key mask
          (record { is_right = false; sibling = right; value = value } ∷ frames)
  ]
]

-- The last loop of `radix32tree_delete`: unlinks a node below the given ancestors, then each ancestor
-- that has no child and no value left, but not the root. (A node always has a first ancestor.)
pub climb : List Frame → Node
climb [] = null
climb (f ∷ []) = plug f null
climb (f ∷ g ∷ frames) =
    let stop = rebuild (g ∷ frames) (plug f null) in
    let up = climb (g ∷ frames) in
    if not (is_null f.sibling) then stop else if not (f.value == no_value) then stop else up

-- What `radix32tree_delete` does at the node that it has reached. The status is 0 or -1.
pub remove_at : Node × List Frame → Option Node
remove_at (null, frames) = none
remove_at (node left right value, []) = none
remove_at (node left right value, f ∷ frames) =
    if not (is_null right) || not (is_null left)
    then if not (value == no_value)
      then some (rebuild (f ∷ frames) (node left right no_value))
      else none
    else some (climb (f ∷ frames))

-- `radix32tree_delete`: `none` is -1, with the trie left as it is.
pub delete : Tree → (key mask : ℕ) → Status × Tree
delete t key mask = elim (remove_at (descend t.root top_bit key mask [])) [
  | none ↦ (error, t)
  | some root ↦ (ok, record t { root = root })
]

-- The loop of `radix32tree_find`. Past the last bit it goes left.
pub find_from : Node → (bit key value : ℕ) → ℕ
find_from null bit key value = value
find_from (node left right own) bit key value =
    let best = if own == no_value then value else own in
    elim (has_bit key bit) [
      | true ↦ find_from right (bit / 2) key best
      | false ↦ find_from left (bit / 2) key best
    ]

-- `radix32tree_find`
pub find : Tree → ℕ → ℕ
find t key = find_from t.root top_bit key no_value
