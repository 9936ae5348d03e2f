-- ===== src/Radix/Paths.antt =====
-- What a trie stands for: a value for each bit path. The paths are those of keys and masks.
use fnsproxy.Base.{
  ℕ, zero, suc, ◌/◌, ◌≡◌, refl, Bool, true, false, ◌&&◌, List, [], ◌∷◌, arith, if◌then◌else◌,
  Bool_eq, has_bit, top_bit,
}
use fnsproxy.Radix.{Node, null, node, no_value}

-- The value of the node at a path, `no_value` where there is no node.
unfoldable pub value_at : Node → List Bool → ℕ
value_at null path = no_value
value_at (node left right value) [] = value
value_at (node left right value) (false ∷ path) = value_at left path
value_at (node left right value) (true ∷ path) = value_at right path

-- The path that a key and a mask select: the key's bits while the mask has ones, from `bit` down.
unfoldable pub path_from : (fuel bit key mask : ℕ) → List Bool
path_from zero bit key mask = []
path_from (suc fuel) bit key mask =
    if has_bit mask bit then has_bit key bit ∷ path_from fuel (bit / 2) key mask else []

abbrev pub network : (key mask : ℕ) → List Bool
network key mask = path_from 32 top_bit key mask

abbrev pub same_path : List Bool → List Bool → Bool
same_path [] [] = true
same_path [] (b ∷ path) = false
same_path (a ∷ path) [] = false
same_path (a ∷ path) (b ∷ path') = Bool_eq a b && same_path path path'

-- After `k` halvings of `bit` nothing is left of it.
abbrev pub Halvings : (k bit : ℕ) → Type 0
Halvings zero bit = bit ≡ 0
Halvings (suc k) bit = Halvings k (bit / 2)

pub top_bit-Halvings : Halvings 32 top_bit
top_bit-Halvings = refl

pub has_bit-zero : (word bit : ℕ) → bit ≡ 0 → has_bit word bit ≡ false
unfolding has_bit
has_bit-zero word bit e = ground arith

pub same_path_refl : (p : List Bool) → same_path p p ≡ true
same_path_refl [] = refl
same_path_refl (true ∷ p) = same_path_refl p
same_path_refl (false ∷ p) = same_path_refl p

pub value_at-null : (p : List Bool) → value_at null p ≡ 0
unfolding value_at
value_at-null p = refl
