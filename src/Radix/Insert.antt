-- ===== src/Radix/Insert.antt =====
-- `radix32tree_insert`.
use fnsproxy.Base.{
  ℕ, zero, suc, ◌/◌, ◌≡◌, ◌≢◌, ◌<◌, refl, Bool, true, false, List, [], ◌∷◌, arith, ◌==◌,
  if◌then◌else◌, top_bit,
}
use fnsproxy.Radix.{Node, null, node, no_value, ok, exists, no_fuel, Tree, grow, insert_at, insert}
use fnsproxy.Radix.Paths.{
  value_at, path_from, network, same_path, Halvings, top_bit-Halvings, has_bit-zero,
}

module _ (key mask value : ℕ) where
  grow-value_at :
      (k fuel bit mem : ℕ) (q : List Bool)
      → Halvings k bit
      → (grow fuel bit key mask value mem).status ≡ ok
      → value_at (grow fuel bit key mask value mem).here q
        ≡ (if same_path q (path_from k bit key mask) then value else 0)
  unfolding grow path_from value_at
  grow-value_at k zero bit mem q h e = cc
  grow-value_at k (suc fuel) bit zero q h e = cc
  grow-value_at zero (suc fuel) bit (suc mem) [] h e = ground (arith, has_bit-zero mask bit h)
  grow-value_at zero (suc fuel) bit (suc mem) (b ∷ q) h e = ground (arith, has_bit-zero mask bit h)
  grow-value_at (suc k) (suc fuel) bit (suc mem) [] h e = ground arith
  grow-value_at (suc k) (suc fuel) bit (suc mem) (true ∷ q) h e =
      ground (arith, grow-value_at k fuel (bit / 2) mem q h)
  grow-value_at (suc k) (suc fuel) bit (suc mem) (false ∷ q) h e =
      ground (arith, grow-value_at k fuel (bit / 2) mem q h)

  insert_at-value_at :
      (n : Node) (k bit mem : ℕ) (q : List Bool)
      → Halvings k bit
      → (insert_at n bit key mask value mem).status ≡ ok
      → value_at (insert_at n bit key mask value mem).here q
        ≡ (if same_path q (path_from k bit key mask) then value else value_at n q)
  unfolding insert_at path_from value_at
  insert_at-value_at null k bit mem q h e = grow-value_at k 33 bit mem q h e
  insert_at-value_at (node l r v) zero bit mem [] h e = ground (arith, has_bit-zero mask bit h)
  insert_at-value_at (node l r v) zero bit mem (true ∷ q) h e =
      ground (arith, has_bit-zero mask bit h)
  insert_at-value_at (node l r v) zero bit mem (false ∷ q) h e =
      ground (arith, has_bit-zero mask bit h)
  insert_at-value_at (node l r v) (suc k) bit mem [] h e = ground arith
  insert_at-value_at (node l r v) (suc k) bit mem (true ∷ q) h e =
      ground (arith, insert_at-value_at r k (bit / 2) mem q h)
  insert_at-value_at (node l r v) (suc k) bit mem (false ∷ q) h e =
      ground (arith, insert_at-value_at l k (bit / 2) mem q h)

  grow-status :
      (k fuel bit mem : ℕ)
      → Halvings k bit
      → k < fuel
      → k < mem
      → (grow fuel bit key mask value mem).status ≡ ok
  unfolding grow
  grow-status k zero bit mem h lt lm = absurd (omega arith)
  grow-status k (suc fuel) bit zero h lt lm = absurd (omega arith)
  grow-status zero (suc fuel) bit (suc mem) h lt lm = ground (arith, has_bit-zero mask bit h)
  grow-status (suc k) (suc fuel) bit (suc mem) h lt lm =
      ground (arith, grow-status k fuel (bit / 2) mem h)

  grow-ne-no_fuel :
      (k fuel bit mem : ℕ)
      → Halvings k bit
      → k < fuel
      → (grow fuel bit key mask value mem).status ≢ no_fuel
  unfolding grow
  grow-ne-no_fuel k zero bit mem h lt = absurd (omega arith)
  grow-ne-no_fuel k (suc fuel) bit zero h lt = λ e. cc
  grow-ne-no_fuel zero (suc fuel) bit (suc mem) h lt = ground (arith, has_bit-zero mask bit h)
  grow-ne-no_fuel (suc k) (suc fuel) bit (suc mem) h lt =
      ground (arith, grow-ne-no_fuel k fuel (bit / 2) mem h)

  insert_at-ne-no_fuel :
      (n : Node) (k bit mem : ℕ)
      → Halvings k bit
      → k < 33
      → (insert_at n bit key mask value mem).status ≢ no_fuel
  unfolding insert_at
  insert_at-ne-no_fuel null k bit mem h lt = grow-ne-no_fuel k 33 bit mem h lt
  insert_at-ne-no_fuel (node l r v) zero bit mem h lt = ground (arith, has_bit-zero mask bit h)
  insert_at-ne-no_fuel (node l r v) (suc k) bit mem h lt =
      ground
        (arith, insert_at-ne-no_fuel r k (bit / 2) mem h, insert_at-ne-no_fuel l k (bit / 2) mem h)

  grow-failed :
      (fuel bit mem : ℕ) (q : List Bool)
      → (grow fuel bit key mask value mem).status ≢ ok
      → value_at (grow fuel bit key mask value mem).here q ≡ 0
  unfolding grow value_at
  grow-failed zero bit mem q h = refl
  grow-failed (suc fuel) bit zero q h = refl
  grow-failed (suc fuel) bit (suc mem) [] h = ground arith
  grow-failed (suc fuel) bit (suc mem) (true ∷ q) h =
      ground (arith, grow-failed fuel (bit / 2) mem q)
  grow-failed (suc fuel) bit (suc mem) (false ∷ q) h =
      ground (arith, grow-failed fuel (bit / 2) mem q)

  grow-ne-exists : (fuel bit mem : ℕ) → (grow fuel bit key mask value mem).status ≢ exists
  unfolding grow
  grow-ne-exists zero bit mem h = cc
  grow-ne-exists (suc fuel) bit zero h = cc
  grow-ne-exists (suc fuel) bit (suc mem) h = ground (arith, grow-ne-exists fuel (bit / 2) mem)

  insert_at-status :
      (n : Node) (k bit mem : ℕ)
      → Halvings k bit
      → k < 33
      → k < mem
      → (insert_at n bit key mask value mem).status
        ≡ (if value_at n (path_from k bit key mask) == 0 then ok else exists)
  unfolding insert_at path_from value_at
  insert_at-status null k bit mem h lt lm = grow-status k 33 bit mem h lt lm
  insert_at-status (node l r v) zero bit mem h lt lm = ground (arith, has_bit-zero mask bit h)
  insert_at-status (node l r v) (suc k) bit mem h lt lm =
      ground (arith, insert_at-status r k (bit / 2) mem h, insert_at-status l k (bit / 2) mem h)

  insert_at-failed :
      (n : Node) (bit mem : ℕ) (q : List Bool)
      → (insert_at n bit key mask value mem).status ≢ ok
      → value_at (insert_at n bit key mask value mem).here q ≡ value_at n q
  unfolding insert_at value_at
  insert_at-failed null bit mem q h = grow-failed 33 bit mem q h
  insert_at-failed (node l r v) bit mem [] h = ground arith
  insert_at-failed (node l r v) bit mem (true ∷ q) h =
      ground (arith, insert_at-failed r (bit / 2) mem q)
  insert_at-failed (node l r v) bit mem (false ∷ q) h =
      ground (arith, insert_at-failed l (bit / 2) mem q)

  insert_at-exists :
      (n : Node) (bit mem : ℕ)
      → (insert_at n bit key mask value mem).status ≡ exists
      → ((insert_at n bit key mask value mem).here ≡ n)
        × ((insert_at n bit key mask value mem).grown ≡ 0)
  unfolding insert_at
  insert_at-exists null bit mem h = absurd (grow-ne-exists 33 bit mem h)
  insert_at-exists (node l r v) bit mem h =
      ground (arith, insert_at-exists r (bit / 2) mem, insert_at-exists l (bit / 2) mem)

  module _ (t : Tree) (mem : ℕ) where
    -- The rounds of the second loop are enough.
    pub insert-ne-no_fuel : (insert t key mask value mem).0 ≢ no_fuel
    unfolding insert
    insert-ne-no_fuel = insert_at-ne-no_fuel t.root 32 top_bit mem top_bit-Halvings (omega arith)

    -- With memory for 33 nodes, an insertion succeeds exactly where the network has no value yet, and
    -- it reports an existing value otherwise.
    pub insert-status :
        32 < mem
        → (insert t key mask value mem).0
          ≡ (if value_at t.root (network key mask) == no_value then ok else exists)
    unfolding insert
    insert-status lm = insert_at-status t.root 32 top_bit mem top_bit-Halvings (omega arith) lm

    -- A successful insertion gives the network of the key and mask the value, and changes the value of
    -- no other path.
    pub insert-value_at :
        (q : List Bool)
        → (insert t key mask value mem).0 ≡ ok
        → value_at (insert t key mask value mem).1.root q
          ≡ (if same_path q (network key mask) then value else value_at t.root q)
    unfolding insert
    insert-value_at q e = insert_at-value_at t.root 32 top_bit mem q top_bit-Halvings e

    -- An insertion that does not succeed (a value exists, or memory runs out half way) changes the
    -- value of no path, and one that finds a value leaves the trie as it is.
    pub insert-failed :
        (insert t key mask value mem).0 ≢ ok
        → ((q : List Bool) → value_at (insert t key mask value mem).1.root q ≡ value_at t.root q)
          × ((insert t key mask value mem).0 ≡ exists → (insert t key mask value mem).1 ≡ t)
    unfolding insert
    insert-failed ne = (
      λ q. insert_at-failed t.root top_bit mem q ne,
      λ e. ground (arith, insert_at-exists t.root top_bit mem e),
    )
