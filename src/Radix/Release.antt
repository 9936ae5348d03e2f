-- ===== src/Radix/Release.antt =====
-- radix_tree_free: the nodes of a trie are freed, each after its children. The structure with the root is
-- not freed there.
use mathlib.Core.List.{append_assoc, append-nil}
use fnsproxy.Base.{
  ℕ, zero, suc, ◌+◌, ◌≡◌, ◌∙◌, refl, sym, ap, Bool, true, false, ◌&&◌, List, [], ◌∷◌, ◌++◌, Option,
  none, some, if◌then◌else◌, arith,
}
use fnsproxy.Radix.{Node, null, node, Tree, Frame, is_null, plug}

-- The inner loop: to a node without children, by the left child where there is one.
pub to_leaf : Node → List Frame → Node × List Frame
to_leaf null frames = (null, frames)
to_leaf (node left right value) frames =
    let by_left =
      to_leaf left (record { is_right = false; sibling = right; value = value } ∷ frames) in
    let by_right =
      to_leaf right (record { is_right = true; sibling = left; value = value } ∷ frames) in
    if is_null left
    then if is_null right then (node left right value, frames) else by_right
    else by_left

abbrev is_leaf : Node → Bool
is_leaf null = true
is_leaf (node left right value) = is_null left && is_null right

abbrev value_of : Node → ℕ
value_of null = 0
value_of (node left right value) = value

abbrev prepend : List ℕ → Option (List ℕ) → Option (List ℕ)
prepend values none = none
prepend values (some later) = some (values ++ later)

-- The outer loop, at a node: the values of the nodes that are freed, in order; `none` is out of fuel.
pub free_from : (fuel : ℕ) → Node → List Frame → Option (List ℕ)
unfolding to_leaf
free_from zero n frames = none
free_from (suc fuel) n frames =
    let (leaf, above) = to_leaf n frames in
    elim above [
      | [] ↦ some (value_of leaf ∷ [])
      | f ∷ rest ↦ prepend (value_of leaf ∷ []) (free_from fuel (plug f null) rest)
    ]

unfoldable pub count : Node → ℕ
count null = 0
count (node left right value) = count left + count right + 1

-- `radix_tree_free`; each round frees a node.
unfoldable pub radix_tree_free : Tree → Option (List ℕ)
unfolding free_from
radix_tree_free t = free_from (count t.root) t.root []

-- The values of the nodes, each after those of its children, on the left first.
unfoldable pub postorder : Node → List ℕ
postorder null = []
postorder (node left right value) = postorder left ++ postorder right ++ value ∷ []

-- What the loop goes on with once a node below these ancestors is freed.
go_up : (fuel : ℕ) → List Frame → Option (List ℕ)
go_up fuel [] = some []
go_up fuel (f ∷ rest) = free_from fuel (plug f null) rest

-- `n` and what is below it is freed, in `count n` rounds.
Frees : Node → Type 0
Frees n =
    (frames : List Frame) (total fuel : ℕ)
    → total ≡ count n + fuel
    → free_from total n frames ≡ prepend (postorder n) (go_up fuel frames)

prepend-prepend :
    (xs ys : List ℕ) (later : Option (List ℕ))
    → prepend xs (prepend ys later) ≡ prepend (xs ++ ys) later
prepend-prepend xs ys none = refl
prepend-prepend xs ys (some zs) = ap some (sym (append_assoc xs ys zs))

leaf-Frees : (value : ℕ) → Frees (node null null value)
unfolding free_from to_leaf go_up count postorder Frees
leaf-Frees value frames zero fuel e = absurd (omega arith)
leaf-Frees value [] (suc total) fuel e = refl
leaf-Frees value (f ∷ rest) (suc total) fuel e =
    let same : total ≡ fuel = omega arith in rw same refl

-- The outer loop depends on where the inner one leads.
free_from-same :
    (total : ℕ) (n m : Node) (above below : List Frame)
    → to_leaf n above ≡ to_leaf m below
    → free_from (suc total) n above ≡ free_from (suc total) m below
unfolding free_from
free_from-same total n m above below e = ap step e
  where
    step : Node × List Frame → Option (List ℕ)
    step (leaf, []) = some (value_of leaf ∷ [])
    step (leaf, f ∷ rest) = prepend (value_of leaf ∷ []) (free_from total (plug f null) rest)

module _ (right : Node) (value : ℕ) where
  right-Frees : is_null right ≡ false → Frees right → Frees (node null right value)
  unfolding Frees count postorder free_from to_leaf go_up
  right-Frees some_right below frames zero fuel e = absurd (omega arith)
  right-Frees some_right below frames (suc total) fuel e =
      let frame : Frame = record { is_right = true; sibling = null; value = value } in
      let down : free_from (suc total) (node null right value) frames
          ≡ free_from (suc total) right (frame ∷ frames) =
        free_from-same total (node null right value) right frames (frame ∷ frames)
          (rw (some_right, to_leaf) refl) in
      let up : free_from (suc fuel) (node null null value) frames
          ≡ prepend (value ∷ []) (go_up fuel frames) =
        leaf-Frees value frames (suc fuel) fuel (omega arith) in
      down
      ∙ (below (frame ∷ frames) (suc total) (suc fuel) (omega arith)
          ∙ (ap (prepend (postorder right)) up
              ∙ prepend-prepend (postorder right) (value ∷ []) (go_up fuel frames)))

module _ (left right : Node) (value : ℕ) where
  left-Frees :
      is_null left ≡ false
      → Frees left
      → Frees (node null right value)
      → Frees (node left right value)
  unfolding Frees count postorder free_from to_leaf go_up
  left-Frees some_left below then_right frames zero fuel e = absurd (omega arith)
  left-Frees some_left below then_right frames (suc total) fuel e =
      let frame : Frame = record { is_right = false; sibling = right; value = value } in
      let down : free_from (suc total) (node left right value) frames
          ≡ free_from (suc total) left (frame ∷ frames) =
        free_from-same total (node left right value) left frames (frame ∷ frames)
          (rw (some_left, to_leaf) refl) in
      let up = then_right frames (count right + 1 + fuel) fuel (omega arith) in
      down
      ∙ (below (frame ∷ frames) (suc total) (count right + 1 + fuel) (omega arith)
          ∙ (ap (prepend (postorder left)) up
              ∙ (prepend-prepend (postorder left) (postorder right ++ value ∷ [])
                    (go_up fuel frames)
                  ∙ ap (λ (xs : List ℕ). prepend xs (go_up fuel frames))
                      (sym (append_assoc (postorder left) (postorder right) (value ∷ []))))))

all-Frees : (n : Node) → is_null n ≡ false → Frees n
all-Frees null h = absurd (ground arith)
all-Frees (node null null value) h = leaf-Frees value
all-Frees (node null (node a b v) value) h =
    right-Frees (node a b v) value refl (all-Frees (node a b v) refl)
all-Frees (node (node a b v) null value) h =
    left-Frees (node a b v) null value refl (all-Frees (node a b v) refl) (leaf-Frees value)
all-Frees (node (node a b v) (node c d w) value) h =
    left-Frees (node a b v) (node c d w) value refl (all-Frees (node a b v) refl)
      (right-Frees (node c d w) value refl (all-Frees (node c d w) refl))

-- Freeing a trie, whose root is a node, ends, and frees each node once: in postorder.
pub radix_tree_free-postorder :
    (t : Tree) → is_null t.root ≡ false → radix_tree_free t ≡ some (postorder t.root)
unfolding radix_tree_free Frees go_up
radix_tree_free-postorder t some_root =
    all-Frees t.root some_root [] (count t.root) 0 (omega arith)
    ∙ ap some (append-nil (postorder t.root))
