-- ===== src/Radix/Find.antt =====
-- `radix32tree_find` against a search for the longest prefix.
use fnsproxy.Base.{
  ℕ, zero, suc, ◌/◌, ◌≡◌, ◌≢◌, ◌≤◌, ◌<◌, ◌∙◌, refl, Bool, true, false, List, [], ◌∷◌, ap, arith,
  ◌==◌, if◌then◌else◌, Bool-cases, inl, inr, has_bit, top_bit,
}
use Prim.Native.Nat.{max}
use mathlib.Core.Path.{fun_ext}
use native.Mathlib.Decide.{dec_lt}
use fnsproxy.Radix.{Node, null, node, no_value, Tree, find_from, find}
use fnsproxy.Radix.Paths.{value_at}

-- The first `n` bits of a key, from `bit` down.
unfoldable pub prefix_from : (n bit key : ℕ) → List Bool
prefix_from zero bit key = []
prefix_from (suc n) bit key = has_bit key bit ∷ prefix_from n (bit / 2) key

abbrev pub prefix : (key n : ℕ) → List Bool
prefix key n = prefix_from n top_bit key

-- The value of a node's trie at the prefix of each length.
abbrev pub entries : Node → (bit key : ℕ) → ℕ → ℕ
entries n bit key i = value_at n (prefix_from i bit key)

-- The entry with the largest index up to `n`, `no_value` if there is none.
unfoldable pub last_entry : (ℕ → ℕ) → ℕ → ℕ
last_entry f zero = f 0
last_entry f (suc n) = if f (suc n) == no_value then last_entry f n else f (suc n)

last_entry-suc :
    (f : ℕ → ℕ) (n : ℕ)
    → last_entry f (suc n)
      ≡ (if last_entry (λ i. f (suc i)) n == 0 then f 0 else last_entry (λ i. f (suc i)) n)
unfolding last_entry
last_entry-suc f zero = refl
last_entry-suc f (suc n) = ground (arith, last_entry-suc f n)

unfoldable pub height : Node → ℕ
height null = 0
height (node left right value) = suc (max (height left) (height right))

-- No node stands deeper than the bits of an address.
abbrev pub IsShallow : Tree → Type 0
IsShallow t = height t.root ≤ 33

last_entry-null : (k bit key : ℕ) → last_entry (entries null bit key) k ≡ 0
unfolding value_at last_entry
last_entry-null zero bit key = refl
last_entry-null (suc k) bit key = last_entry-null k bit key

module _ (l r : Node) (v bit key : ℕ) where
  below_right :
      has_bit key bit ≡ true
      → ◌≡◌ {A = ℕ → ℕ} (λ i. entries (node l r v) bit key (suc i)) (entries r (bit / 2) key)
  unfolding prefix_from value_at
  below_right e = fun_ext λ i. rw e

  below_left :
      has_bit key bit ≡ false
      → ◌≡◌ {A = ℕ → ℕ} (λ i. entries (node l r v) bit key (suc i)) (entries l (bit / 2) key)
  unfolding prefix_from value_at
  below_left e = fun_ext λ i. rw e

-- The best entry of a node's path, where that of the child on the path is `deeper`.
abbrev best_of : (acc own deeper : ℕ) → ℕ
best_of acc own deeper =
    if (if deeper == 0 then own else deeper) == 0 then acc else if deeper == 0 then own else deeper

best_of-pick :
    (acc own deeper : ℕ)
    → (if deeper == 0 then (if own == no_value then acc else own) else deeper)
      ≡ best_of acc own deeper
best_of-pick acc own deeper = ground arith

find_from-null : (n : Node) (bit key acc : ℕ) → height n ≤ 0 → find_from n bit key acc ≡ acc
unfolding height find_from
find_from-null null bit key acc h = refl
find_from-null (node l r v) bit key acc h = absurd (omega arith)

find_from-last_entry :
    (n : Node) (k bit key acc : ℕ)
    → height n ≤ suc k
    → find_from n bit key acc
      ≡ (if last_entry (entries n bit key) k == 0 then acc else last_entry (entries n bit key) k)
unfolding find_from height value_at prefix_from
find_from-last_entry null k bit key acc h = rw (last_entry-null k bit key)
find_from-last_entry (node l r v) zero bit key acc h =
    unfold last_entry in
    ground (
      arith,
      find_from-null l (bit / 2) key (if v == no_value then acc else v),
      find_from-null r (bit / 2) key (if v == no_value then acc else v),
    )
find_from-last_entry (node l r v) (suc k) bit key acc h = elim (Bool-cases (has_bit key bit)) [
  | inl right ↦
      rw
        (
          last_entry-suc (entries (node l r v) bit key) k,
          below_right l r v bit key right,
          right,
          find_from,
        )
        (find_from-last_entry r k (bit / 2) key _ (omega arith)
          ∙ best_of-pick acc v (last_entry (entries r (bit / 2) key) k))
  | inr left ↦
      rw
        (
          last_entry-suc (entries (node l r v) bit key) k,
          below_left l r v bit key left,
          left,
          find_from,
        )
        (find_from-last_entry l k (bit / 2) key _ (omega arith)
          ∙ best_of-pick acc v (last_entry (entries l (bit / 2) key) k))
]

-- A lookup returns the value of the longest prefix of the key that has one (32 bits at most), and
-- no value if no prefix has one.
pub find-last_entry :
    (t : Tree) (key : ℕ)
    → IsShallow t
    → find t key ≡ last_entry (λ n. value_at t.root (prefix key n)) 32
unfolding find
find-last_entry t key h =
    find_from-last_entry t.root 32 top_bit key 0 h
    ∙ zero_or_same (last_entry (entries t.root top_bit key) 32)
  where
    zero_or_same : (n : ℕ) → (if n == 0 then 0 else n) ≡ n
    zero_or_same n = ground arith

-- The first `n` bits of the key are the longest prefix with a value.
abbrev pub IsLongest : Tree → (key n : ℕ) → Type 0
IsLongest t key n =
    (n ≤ 32)
    × (value_at t.root (prefix key n) ≢ no_value)
    × ((m : ℕ) → n < m → m ≤ 32 → value_at t.root (prefix key m) ≡ no_value)

last_entry-eq :
    (f : ℕ → ℕ) (k n : ℕ)
    → n ≤ k
    → f n ≢ 0
    → ((m : ℕ) → n < m → m ≤ k → f m ≡ 0)
    → last_entry f k ≡ f n
unfolding last_entry
last_entry-eq f zero zero h ne above = refl
last_entry-eq f zero (suc n) h ne above = absurd (omega arith)
last_entry-eq f (suc k) n h ne above = elim (dec_lt n (suc k)) [
  | yes lt ↦
      rw (above (suc k) lt (omega arith))
        (last_entry-eq f k n (omega arith) ne (λ m p q. above m p (omega arith)))
  | no ge ↦ let e : n ≡ suc k = omega arith in ground (arith, ap f e)
]

-- In a trie no higher than an address has bits, a lookup returns the value of the longest prefix of the
-- key that has one, wherever there is one.
pub find-IsLongest :
    (t : Tree) (key n : ℕ)
    → IsShallow t
    → IsLongest t key n
    → find t key ≡ value_at t.root (prefix key n)
find-IsLongest t key n h l =
    find-last_entry t key h ∙ last_entry-eq (λ m. value_at t.root (prefix key m)) 32 n l.0 l.1 l.2
