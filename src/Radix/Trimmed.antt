-- ===== src/Radix/Trimmed.antt =====
-- The invariant of the trie: below the root, no node is without both children and value. What
-- it makes certain of `radix32tree_delete`, and that both operations keep it.
use fnsproxy.Base.{
  ℕ, zero, suc, ◌/◌, ◌≡◌, ◌≢◌, ◌↔◌, ◌⊎◌, refl, Bool, true, false, List, [], ◌∷◌, arith, ◌&&◌, none,
  some, Option-cases, Bool-cases, inl, inr, has_bit, top_bit, if◌then◌else◌,
}
use fnsproxy.Radix.{
  Node, null, node, no_value, ok, error, Tree, Frame, plug, rebuild, descend, climb, remove_at,
  delete, is_null, grow, insert_at, insert,
}
use fnsproxy.Radix.Paths.{
  value_at, path_from, network, same_path, Halvings, top_bit-Halvings, has_bit-zero,
}
use fnsproxy.Radix.Insert.{insert-ne-no_fuel, insert-failed}
use fnsproxy.Radix.Delete.{descend-value_at, delete-value_at}

abbrev pub Useful : (left right : Node) (value : ℕ) → Type 0
Useful left right value = (is_null left && is_null right) ≡ true → value ≢ 0

abbrev pub Below : Node → Type 0
Below null = Unit {0}
Below (node left right value) = Below left × Below right × Useful left right value

abbrev pub IsRoot : Node → Type 0
IsRoot null = ⊥
IsRoot (node left right value) = Below left × Below right

abbrev pub IsTrimmed : Tree → Type 0
IsTrimmed t = IsRoot t.root

module _ (key mask value : ℕ) where
  grow-Below :
      (fuel bit mem : ℕ)
      → value ≢ 0
      → (grow fuel bit key mask value mem).status ≡ ok
      → Below (grow fuel bit key mask value mem).here
        × (is_null (grow fuel bit key mask value mem).here ≡ false)
  unfolding grow
  grow-Below zero bit mem nz e = cc
  grow-Below (suc fuel) bit zero nz e = cc
  grow-Below (suc fuel) bit (suc mem) nz e = ground (arith, grow-Below fuel (bit / 2) mem nz)

  insert_at-Below :
      (n : Node) (bit mem : ℕ)
      → value ≢ 0
      → (insert_at n bit key mask value mem).status ≡ ok
      → Below n
      → Below (insert_at n bit key mask value mem).here
        × (is_null (insert_at n bit key mask value mem).here ≡ false)
  unfolding insert_at
  insert_at-Below null bit mem nz e b = grow-Below 33 bit mem nz e
  insert_at-Below (node l r v) bit mem nz e b =
      ground (arith, insert_at-Below r (bit / 2) mem nz, insert_at-Below l (bit / 2) mem nz)

  insert_at-IsRoot :
      (n : Node) (bit mem : ℕ)
      → value ≢ 0
      → (insert_at n bit key mask value mem).status ≡ ok
      → IsRoot n
      → IsRoot (insert_at n bit key mask value mem).here
  unfolding insert_at
  insert_at-IsRoot null bit mem nz e b = absurd b
  insert_at-IsRoot (node l r v) bit mem nz e b =
      ground (arith, insert_at-Below r (bit / 2) mem nz, insert_at-Below l (bit / 2) mem nz)

abbrev Siblings : List Frame → Type 0
Siblings [] = Unit {0}
Siblings (f ∷ frames) = Below f.sibling × Siblings frames

plug_fields-Below :
    (b : Bool) (s : Node) (v : ℕ) (n : Node)
    → Below s
    → Below n
    → is_null n ≡ false
    → Below (plug (record { is_right = b; sibling = s; value = v }) n)
      × (is_null (plug (record { is_right = b; sibling = s; value = v }) n) ≡ false)
plug_fields-Below true s v n hs hn e = ((hs, hn, ground arith), refl)
plug_fields-Below false s v n hs hn e = ((hn, hs, ground arith), refl)

plug-Below :
    (f : Frame) (n : Node)
    → Below f.sibling
    → Below n
    → is_null n ≡ false
    → Below (plug f n) × (is_null (plug f n) ≡ false)
plug-Below f n = plug_fields-Below f.is_right f.sibling f.value n

rebuild-IsRoot :
    (f : Frame) (frames : List Frame) (n : Node)
    → Siblings (f ∷ frames)
    → Below n
    → is_null n ≡ false
    → IsRoot (rebuild (f ∷ frames) n)
unfolding rebuild
rebuild-IsRoot f [] n s b e = ground arith
rebuild-IsRoot f (g ∷ frames) n s b e =
    let p = plug-Below f n s.0 b e in rebuild-IsRoot g frames (plug f n) s.1 p.0 p.1

climb-IsRoot :
    (f : Frame) (frames : List Frame) → Siblings (f ∷ frames) → IsRoot (climb (f ∷ frames))
unfolding climb
climb-IsRoot f [] s = ground arith
climb-IsRoot f (g ∷ frames) s = ground (
  arith,
  climb-IsRoot g frames s.1,
  λ (u : Below (plug f null)). rebuild-IsRoot g frames (plug f null) s.1 u (ground arith),
)

remove_at-IsRoot :
    (n : Node) (frames : List Frame) {root : Node}
    → Siblings frames
    → Below n
    → remove_at (n, frames) ≡ some root
    → IsRoot root
unfolding remove_at
remove_at-IsRoot null frames s b e = cc
remove_at-IsRoot (node l r v) [] s b e = cc
remove_at-IsRoot (node l r v) (f ∷ frames) s b e = ground (
  arith,
  climb-IsRoot f frames s,
  λ (u : Below (node l r 0)). rebuild-IsRoot f frames (node l r 0) s u refl,
)

module _ (key mask : ℕ) where
  descend-Below :
      (n : Node) (bit : ℕ) (frames : List Frame)
      → Siblings frames
      → Below n
      → let (m, up) = descend n bit key mask frames in Siblings up × Below m
  unfolding descend
  descend-Below null bit frames s b = (s, tt)
  descend-Below (node l r v) bit frames s b = elim (Bool-cases (has_bit mask bit)) [
    | inl on ↦ elim (Bool-cases (has_bit key bit)) [
      | inl right ↦ rw (on, right, descend) (descend-Below r (bit / 2) _ (b.0, s) b.1)
      | inr left ↦ rw (on, left, descend) (descend-Below l (bit / 2) _ (b.1, s) b.0)
    ]
    | inr off ↦ rw (off, descend) (s, b)
  ]

  -- Below the root there is always an ancestor, and a value decides.
  remove_at-status :
      (n : Node) (bit : ℕ) (f : Frame) (frames : List Frame)
      → Below n
      → (remove_at (descend n bit key mask (f ∷ frames)) ≡ none)
        ↔ (value_at (descend n bit key mask (f ∷ frames)).0 [] ≡ 0)
  unfolding descend remove_at value_at
  remove_at-status null bit f frames b = ground arith
  remove_at-status (node l r v) bit f frames b = ground (
    arith,
    remove_at-status r (bit / 2) (record { is_right = true; sibling = l; value = v }) (f ∷ frames),
    remove_at-status l (bit / 2) (record { is_right = false; sibling = r; value = v }) (f ∷ frames),
  )

  delete_at-status :
      (n : Node) (k bit : ℕ)
      → Halvings k bit
      → IsRoot n
      → (remove_at (descend n bit key mask []) ≡ none)
        ↔ ((path_from k bit key mask ≡ []) ⊎ (value_at n (path_from k bit key mask) ≡ 0))
  unfolding descend remove_at value_at path_from
  delete_at-status null k bit h b = absurd b
  delete_at-status (node l r v) zero bit h b = ground (arith, has_bit-zero mask bit h)
  delete_at-status (node l r v) (suc k) bit h b =
      let to_right : Frame = record { is_right = true; sibling = l; value = v } in
      let to_left : Frame = record { is_right = false; sibling = r; value = v } in
      ground (
        arith,
        remove_at-status r (bit / 2) to_right [] b.1,
        remove_at-status l (bit / 2) to_left [] b.0,
        descend-value_at key mask r k (bit / 2) (to_right ∷ []) h,
        descend-value_at key mask l k (bit / 2) (to_left ∷ []) h,
      )

  descend-IsRoot :
      (n : Node) (bit : ℕ) {root : Node}
      → IsRoot n
      → remove_at (descend n bit key mask []) ≡ some root
      → IsRoot root
  unfolding descend remove_at
  descend-IsRoot null bit b e = absurd b
  descend-IsRoot (node l r v) bit b e =
      let to_right : Frame = record { is_right = true; sibling = l; value = v } in
      let to_left : Frame = record { is_right = false; sibling = r; value = v } in
      let on_right = descend-Below r (bit / 2) (to_right ∷ []) (b.0, tt) b.1 in
      let on_left = descend-Below l (bit / 2) (to_left ∷ []) (b.1, tt) b.0 in
      elim (Bool-cases (has_bit mask bit)) [
        | inl on ↦ elim (Bool-cases (has_bit key bit)) [
          | inl right ↦ remove_at-IsRoot _ _ on_right.0 on_right.1 (rw (on, right, descend) at e)
          | inr left ↦ remove_at-IsRoot _ _ on_left.0 on_left.1 (rw (on, left, descend) at e)
        ]
        | inr off ↦ absurd (none_ne_some (rw (off, descend) at e))
      ]
    where
      none_ne_some : {n : Node} → none ≡ some n → ⊥
      none_ne_some h = cc

module _ (t : Tree) (key mask : ℕ) where
  -- In a trie that keeps the invariant, a deletion succeeds exactly where the network of the key and
  -- mask is not the root and has a value.
  pub delete-status :
      IsTrimmed t
      → ((delete t key mask).0 ≡ error)
        ↔ ((network key mask ≡ []) ⊎ (value_at t.root (network key mask) ≡ no_value))
  unfolding delete
  delete-status v = ground (arith, delete_at-status key mask t.root 32 top_bit top_bit-Halvings v)

  -- A deletion keeps the invariant: it leaves no node without children and value below the root.
  pub delete-IsTrimmed : IsTrimmed t → IsTrimmed (delete t key mask).1
  unfolding delete
  delete-IsTrimmed v = elim (Option-cases (remove_at (descend t.root top_bit key mask []))) [
    | inl failed ↦ rw (failed, delete) v
    | inr (root, found) ↦ rw (found, delete) (descend-IsRoot key mask t.root top_bit v found)
  ]

  -- In a trie in which each node below the root has a child or a value, a deletion that succeeds takes the
  -- value of the network of the key and mask away, changes the value of no other path, and leaves
  -- no node below the root without a child and a value: those that become useless are gone.
  pub delete-ok :
      IsTrimmed t
      → (delete t key mask).0 ≡ ok
      → IsTrimmed (delete t key mask).1
        × ((q : List Bool)
            → value_at (delete t key mask).1.root q
              ≡ (if same_path q (network key mask) then no_value else value_at t.root q))
  delete-ok v e = (delete-IsTrimmed v, λ q. delete-value_at t key mask q e)

  -- An insertion of a value other than 0 keeps the invariant, unless memory runs out.
  pub insert-IsTrimmed :
      (value mem : ℕ)
      → value ≢ no_value
      → (insert t key mask value mem).0 ≢ error
      → IsTrimmed t
      → IsTrimmed (insert t key mask value mem).1
  unfolding insert
  insert-IsTrimmed value mem nz ne v = ground (
    arith,
    insert_at-IsRoot key mask value t.root top_bit mem nz,
    insert-ne-no_fuel key mask value t mem,
    insert-failed key mask value t mem,
  )
