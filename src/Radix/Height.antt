-- ===== src/Radix/Height.antt =====
-- No operation makes the trie deeper than the bits of an address.
use fnsproxy.Base.{
  ℕ, zero, suc, ◌/◌, ◌≡◌, ◌≤◌, List, some, [], ◌∷◌, ap, arith, inl, inr, top_bit, Option-cases,
}
use fnsproxy.Radix.{
  Node, null, node, Frame, plug, rebuild, climb, remove_at, descend, Tree, create, grow, insert_at,
  insert, delete,
}
use fnsproxy.Radix.Paths.{Halvings, top_bit-Halvings, has_bit-zero}
use fnsproxy.Radix.Find.{height, IsShallow}
use fnsproxy.Radix.Delete.{descend-rebuild}

module _ (key mask value : ℕ) where
  height-grow :
      (k fuel bit mem : ℕ) → Halvings k bit → height (grow fuel bit key mask value mem).here ≤ suc k
  unfolding grow height
  height-grow k zero bit mem h = omega arith
  height-grow k (suc fuel) bit zero h = omega arith
  height-grow zero (suc fuel) bit (suc mem) h = ground (arith, has_bit-zero mask bit h)
  height-grow (suc k) (suc fuel) bit (suc mem) h =
      ground (arith, height-grow k fuel (bit / 2) mem h)

  height-insert_at :
      (n : Node) (k bit mem : ℕ)
      → Halvings k bit
      → height n ≤ suc k
      → height (insert_at n bit key mask value mem).here ≤ suc k
  unfolding insert_at height
  height-insert_at null k bit mem h s = height-grow k 33 bit mem h
  height-insert_at (node l r v) zero bit mem h s = ground (arith, has_bit-zero mask bit h)
  height-insert_at (node l r v) (suc k) bit mem h s =
      ground (arith, height-insert_at r k (bit / 2) mem h, height-insert_at l k (bit / 2) mem h)

height-plug : (f : Frame) (n m : Node) → height n ≤ height m → height (plug f n) ≤ height (plug f m)
unfolding height
height-plug f n m h = ground arith

height-rebuild :
    (frames : List Frame) (n m : Node)
    → height n ≤ height m
    → height (rebuild frames n) ≤ height (rebuild frames m)
unfolding rebuild
height-rebuild [] n m h = h
height-rebuild (f ∷ frames) n m h =
    height-rebuild frames (plug f n) (plug f m) (height-plug f n m h)

height-climb : (frames : List Frame) → height (climb frames) ≤ height (rebuild frames null)
unfolding climb rebuild
height-climb [] = omega arith
height-climb (f ∷ []) = omega arith
height-climb (f ∷ g ∷ frames) =
    ground
      (arith, height-climb (g ∷ frames), height-rebuild (g ∷ frames) null (plug f null) (shrinks f))
  where
    shrinks : (f : Frame) → height null ≤ height (plug f null)
    shrinks f = unfold height in omega arith

height-remove_at :
    (n : Node) (frames : List Frame) {root : Node}
    → remove_at (n, frames) ≡ some root
    → height root ≤ height (rebuild frames n)
unfolding remove_at
height-remove_at null frames e = cc
height-remove_at (node l r v) [] e = cc
height-remove_at (node l r v) (f ∷ frames) e = ground (
  arith,
  height-climb (f ∷ frames),
  height-rebuild (f ∷ frames) null (node l r v) (unfold height in omega arith),
  height-rebuild (f ∷ frames) (node l r 0) (node l r v) (unfold height in omega arith),
)

module _ (t : Tree) (key mask : ℕ) where
  -- An insertion, whatever its status, keeps the trie within the bits of an address.
  pub insert-IsShallow : (value mem : ℕ) → IsShallow t → IsShallow (insert t key mask value mem).1
  unfolding insert
  insert-IsShallow value mem h =
      height-insert_at key mask value t.root 32 top_bit mem top_bit-Halvings h

  -- A deletion, whatever its status, keeps the trie within the bits of an address.
  pub delete-IsShallow : IsShallow t → IsShallow (delete t key mask).1
  unfolding delete rebuild
  delete-IsShallow h = elim (Option-cases (remove_at (descend t.root top_bit key mask []))) [
    | inl failed ↦ rw (failed, delete) h
    | inr (root, found) ↦
        let smaller = height-remove_at _ (descend t.root top_bit key mask []).1 found in
        let same = descend-rebuild key mask t.root top_bit [] in
        rw (found, delete) (ground (arith, smaller, ap height same))
  ]

pub create-IsShallow : (mem : ℕ) (t : Tree) → create mem ≡ some t → IsShallow t
unfolding create height
create-IsShallow zero t made = cc
create-IsShallow (suc zero) t made = cc
create-IsShallow (suc (suc mem)) t made = ground (arith, ap (λ (o : Tree). height o.root))
