-- ===== src/Dlist/Chain.antt =====
-- What the nodes of a list are in memory: a chain of addresses, each with its neighbours.
use fnsproxy.Base.{
  ℕ, ◌≡◌, ◌≢◌, ◌<◌, ◌∙◌, refl, ap, inl, inr, Bool, true, false, ◌||◌, List, [], ◌∷◌, ◌++◌, some,
  ◌==◌, arith, length, u32_mod, Bool-cases,
}
use fnsproxy.Memory.{Ptr, null, node, Heap}
use fnsproxy.Dlist.{Dlist}

-- The nodes of a list: address and value of each, from the head.
abbrev pub Cells : Type 0
Cells = List (Ptr × ℕ)

abbrev pub first_of : Cells → Ptr → Ptr
first_of [] end = end
first_of ((p, v) ∷ xs) end = p

abbrev pub last_of : Ptr → Cells → Ptr
last_of before [] = before
last_of before ((p, v) ∷ xs) = last_of p xs

-- Between the node `before` and the node `end` stand the nodes `xs`.
abbrev pub Chain : Heap → (before : Ptr) → Cells → (end : Ptr) → Type 0
Chain h before [] end = Unit {0}
Chain h before ((p, v) ∷ xs) end =
    (p ≢ null) × (h p ≡ some (node before (first_of xs end) v)) × Chain h p xs end

abbrev pub has : Ptr → Cells → Bool
has q [] = false
has q ((p, v) ∷ xs) = q == p || has q xs

-- No node stands twice.
abbrev pub Distinct : Cells → Type 0
Distinct [] = Unit {0}
Distinct ((p, v) ∷ xs) = (has p xs ≡ false) × Distinct xs

-- `dl` is the list of these nodes.
pub record IsList (h : Heap) (dl : Dlist) (xs : Cells) : Type 0 where
  pub chain : Chain h null xs null
  pub distinct : Distinct xs
  pub head : dl.head ≡ first_of xs null
  pub tail : dl.tail ≡ last_of null xs
  pub len : dl.len ≡ length xs
  pub few : length xs < u32_mod

-- The methods are those of another list.
pub record SameMethods (a b : Dlist) : Type 0 where
  pub dup : a.dup ≡ b.dup
  pub frees : a.frees ≡ b.frees
  pub matches : a.matches ≡ b.matches

-- Another memory holds the same at the nodes of a list.
abbrev pub SameAt : Cells → Heap → Heap → Type 0
SameAt xs g h = (q : Ptr) → has q xs ≡ true → g q ≡ h q

module _ (g h : Heap) where
  pub Chain-same :
      (before : Ptr) (xs : Cells) (end : Ptr)
      → SameAt xs g h
      → Chain h before xs end
      → Chain g before xs end
  Chain-same before [] end same c = tt
  Chain-same before ((p, v) ∷ xs) end same c =
      (c.0, same p (ground arith) ∙ c.1, Chain-same p xs end (λ q m. same q (ground arith)) c.2)

module _ (h : Heap) where
  pub Chain-append :
      (before : Ptr) (xs ys : Cells) (end : Ptr)
      → Chain h before xs (first_of ys end)
      → Chain h (last_of before xs) ys end
      → Chain h before (xs ++ ys) end
  Chain-append before [] ys end c d = d
  Chain-append before ((p, v) ∷ []) ys end c d = (c.0, c.1, d)
  Chain-append before ((p, v) ∷ (q, w) ∷ xs) ys end c d =
      (c.0, c.1, Chain-append p ((q, w) ∷ xs) ys end c.2 d)

  pub Chain-split :
      (before : Ptr) (xs ys : Cells) (end : Ptr)
      → Chain h before (xs ++ ys) end
      → Chain h before xs (first_of ys end) × Chain h (last_of before xs) ys end
  Chain-split before [] ys end c = (tt, c)
  Chain-split before ((p, v) ∷ []) ys end c = ((c.0, c.1, tt), c.2)
  Chain-split before ((p, v) ∷ (q, w) ∷ xs) ys end c =
      let (a, b) = Chain-split p ((q, w) ∷ xs) ys end c.2 in ((c.0, c.1, a), b)

pub has-append : (q : Ptr) (xs ys : Cells) → has q (xs ++ ys) ≡ (has q xs || has q ys)
has-append q [] ys = refl
has-append q ((p, v) ∷ xs) ys = ground (arith, has-append q xs ys)

pub first_of-append :
    (xs ys : Cells) (end : Ptr) → first_of (xs ++ ys) end ≡ first_of xs (first_of ys end)
first_of-append [] ys end = refl
first_of-append ((p, v) ∷ xs) ys end = refl

pub last_of-append :
    (before : Ptr) (xs ys : Cells) → last_of before (xs ++ ys) ≡ last_of (last_of before xs) ys
last_of-append before [] ys = refl
last_of-append before ((p, v) ∷ xs) ys = last_of-append p xs ys

-- The two parts of a list without repetitions share no node.
pub Distinct-apart :
    (xs ys : Cells) (q : Ptr) → Distinct (xs ++ ys) → has q xs ≡ true → has q ys ≡ false
Distinct-apart [] ys q d m = cc
Distinct-apart ((p, v) ∷ xs) ys q d m = elim (Bool-cases (q == p)) [
  | inl same ↦
      let e : q ≡ p = ground arith in
      ground (arith, has-append p xs ys, ap (λ (t : Ptr). has t ys) e)
  | inr other ↦ Distinct-apart xs ys q d.1 (ground arith)
]

pub Distinct-parts : (xs ys : Cells) → Distinct (xs ++ ys) → Distinct xs × Distinct ys
Distinct-parts [] ys d = (tt, d)
Distinct-parts ((p, v) ∷ xs) ys d =
    let (a, b) = Distinct-parts xs ys d.1 in ((ground (arith, has-append p xs ys), a), b)

-- Two lists that share no node make one.
pub Distinct-append :
    (xs ys : Cells)
    → Distinct xs
    → Distinct ys
    → ((q : Ptr) → has q xs ≡ true → has q ys ≡ false)
    → Distinct (xs ++ ys)
Distinct-append [] ys d e apart = e
Distinct-append ((p, v) ∷ xs) ys d e apart = (
  ground (arith, has-append p xs ys, apart p),
  Distinct-append xs ys d.1 e (λ q m. apart q (ground arith)),
)

-- The last node of a list that is not empty is one of the list.
pub has-last_of : (p : Ptr) (v : ℕ) (xs : Cells) → has (last_of p xs) ((p, v) ∷ xs) ≡ true
has-last_of p v [] = ground arith
has-last_of p v ((q, w) ∷ xs) = ground (arith, has-last_of q w xs)
