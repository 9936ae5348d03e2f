-- ===== src/Radix/Delete.antt =====
-- `radix32tree_delete`.
use fnsproxy.Base.{
  ℕ, zero, suc, ◌/◌, ◌≡◌, ◌≢◌, refl, Bool, true, false, List, [], ◌∷◌, arith, some, if◌then◌else◌,
  Option-cases, inl, inr, top_bit,
}
use fnsproxy.Radix.{
  Node, null, node, ok, error, Tree, Frame, plug, rebuild, descend, climb, remove_at, delete,
  is_null,
}
use fnsproxy.Radix.Paths.{
  value_at, path_from, network, same_path, Halvings, top_bit-Halvings, has_bit-zero,
}

-- The path from the root to a node, from its ancestors and a path below it.
abbrev route : List Frame → List Bool → List Bool
route [] p = p
route (f ∷ frames) p = route frames (f.is_right ∷ p)

-- `n` is `m` with the value of the one path `p` replaced.
abbrev Replaced : Node → Node → List Bool → ℕ → Type 0
Replaced n m p w = (q : List Bool) → value_at n q ≡ (if same_path q p then w else value_at m q)

plug-value_at :
    (f : Frame) (n m : Node) (p : List Bool) (w : ℕ)
    → Replaced n m p w
    → Replaced (plug f n) (plug f m) (f.is_right ∷ p) w
unfolding value_at
plug-value_at f n m p w h [] = ground arith
plug-value_at f n m p w h (true ∷ q) = ground (arith, h q)
plug-value_at f n m p w h (false ∷ q) = ground (arith, h q)

rebuild-value_at :
    (frames : List Frame) (n m : Node) (p : List Bool) (w : ℕ)
    → Replaced n m p w
    → Replaced (rebuild frames n) (rebuild frames m) (route frames p) w
unfolding rebuild
rebuild-value_at [] n m p w h = h
rebuild-value_at (f ∷ frames) n m p w h =
    rebuild-value_at frames (plug f n) (plug f m) (f.is_right ∷ p) w (plug-value_at f n m p w h)

-- Nodes that stand for the same values may be exchanged.
abbrev Same : Node → Node → Type 0
Same n m = (q : List Bool) → value_at n q ≡ value_at m q

plug-Same : (f : Frame) (n m : Node) → Same n m → Same (plug f n) (plug f m)
unfolding value_at
plug-Same f n m h [] = ground arith
plug-Same f n m h (true ∷ q) = ground (arith, h q)
plug-Same f n m h (false ∷ q) = ground (arith, h q)

rebuild-Same :
    (frames : List Frame) (n m : Node) → Same n m → Same (rebuild frames n) (rebuild frames m)
unfolding rebuild
rebuild-Same [] n m h = h
rebuild-Same (f ∷ frames) n m h = rebuild-Same frames (plug f n) (plug f m) (plug-Same f n m h)

plug-null : (f : Frame) → is_null f.sibling ≡ true → f.value ≡ 0 → Same null (plug f null)
unfolding value_at
plug-null f hs hv [] = ground arith
plug-null f hs hv (true ∷ q) = ground arith
plug-null f hs hv (false ∷ q) = ground arith

climb-Same : (frames : List Frame) → Same (climb frames) (rebuild frames null)
unfolding climb rebuild
climb-Same [] q = refl
climb-Same (f ∷ []) q = refl
climb-Same (f ∷ g ∷ frames) q = ground (
  arith,
  climb-Same (g ∷ frames) q,
  λ (hs : is_null f.sibling ≡ true) (hv : f.value ≡ 0).
      rebuild-Same (g ∷ frames) null (plug f null) (plug-null f hs hv) q,
)

module _ (key mask : ℕ) where
  pub descend-rebuild :
      (n : Node) (bit : ℕ) (frames : List Frame)
      → let (m, up) = descend n bit key mask frames in rebuild up m ≡ rebuild frames n
  unfolding descend rebuild
  descend-rebuild null bit frames = refl
  descend-rebuild (node l r v) bit frames = ground (
    arith,
    descend-rebuild r (bit / 2) (record { is_right = true; sibling = l; value = v } ∷ frames),
    descend-rebuild l (bit / 2) (record { is_right = false; sibling = r; value = v } ∷ frames),
  )

  descend-route :
      (n : Node) (k bit : ℕ) (frames : List Frame)
      → Halvings k bit
      → let (m, up) = descend n bit key mask frames in
        is_null m ≡ false → route up [] ≡ route frames (path_from k bit key mask)
  unfolding descend path_from
  descend-route null k bit frames h e = cc
  descend-route (node l r v) zero bit frames h e = ground (arith, has_bit-zero mask bit h)
  descend-route (node l r v) (suc k) bit frames h e = ground (
    arith,
    descend-route r k (bit / 2) (record { is_right = true; sibling = l; value = v } ∷ frames) h,
    descend-route l k (bit / 2) (record { is_right = false; sibling = r; value = v } ∷ frames) h,
  )

  pub descend-value_at :
      (n : Node) (k bit : ℕ) (frames : List Frame)
      → Halvings k bit
      → value_at (descend n bit key mask frames).0 [] ≡ value_at n (path_from k bit key mask)
  unfolding descend path_from value_at
  descend-value_at null k bit frames h = refl
  descend-value_at (node l r v) zero bit frames h = ground (arith, has_bit-zero mask bit h)
  descend-value_at (node l r v) (suc k) bit frames h = ground (
    arith,
    descend-value_at r k (bit / 2) (record { is_right = true; sibling = l; value = v } ∷ frames) h,
    descend-value_at l k (bit / 2) (record { is_right = false; sibling = r; value = v } ∷ frames) h,
  )

cleared : (l r : Node) (v : ℕ) → Replaced (node l r 0) (node l r v) [] 0
unfolding value_at
cleared l r v [] = refl
cleared l r v (b ∷ q) = elim b [ true ↦ ground arith | false ↦ ground arith ]

-- Unlinking a node without children loses the value of that node only.
unlinked :
    (l r : Node) (v : ℕ) → is_null l ≡ true → is_null r ≡ true → Replaced null (node l r v) [] 0
unfolding value_at
unlinked l r v hl hr [] = refl
unlinked l r v hl hr (true ∷ q) = ground arith
unlinked l r v hl hr (false ∷ q) = ground arith

remove_at-value_at :
    (n : Node) (frames : List Frame) {root : Node}
    → remove_at (n, frames) ≡ some root
    → (is_null n ≡ false) × Replaced root (rebuild frames n) (route frames []) 0
unfolding remove_at
remove_at-value_at null frames e = cc
remove_at-value_at (node l r v) [] e = cc
remove_at-value_at (node l r v) (f ∷ frames) e = (
  refl,
  λ q. ground (
    arith,
    rebuild-value_at (f ∷ frames) (node l r 0) (node l r v) [] 0 (cleared l r v) q,
    climb-Same (f ∷ frames) q,
    λ (hl : is_null l ≡ true) (hr : is_null r ≡ true).
        rebuild-value_at (f ∷ frames) null (node l r v) [] 0 (unlinked l r v hl hr) q,
  ),
)

module _ (t : Tree) (key mask : ℕ) where
  delete-root :
      (root : Node)
      → remove_at (descend t.root top_bit key mask []) ≡ some root
      → Replaced root t.root (network key mask) 0
  unfolding rebuild
  delete-root root e q =
      let found = remove_at-value_at _ (descend t.root top_bit key mask []).1 e in
      rw
        (
          descend-rebuild key mask t.root top_bit [],
          descend-route key mask t.root 32 top_bit [] top_bit-Halvings found.0,
        )
        at (found.1 q)

  -- A successful deletion takes the value of the network of the key and mask away, and changes the
  -- value of no other path.
  pub delete-value_at :
      (q : List Bool)
      → (delete t key mask).0 ≡ ok
      → value_at (delete t key mask).1.root q
        ≡ (if same_path q (network key mask) then 0 else value_at t.root q)
  unfolding delete
  delete-value_at q e = elim (Option-cases (remove_at (descend t.root top_bit key mask []))) [
    | inl failed ↦ ground arith
    | inr (root, found) ↦ ground (arith, delete-root root found q)
  ]

  -- A deletion that fails leaves the trie as it is.
  pub delete-error : (delete t key mask).0 ≢ ok → delete t key mask ≡ (error, t)
  unfolding delete
  delete-error ne = ground arith
