-- ===== src/Dlist/Walk.antt =====
-- The walks over a list: `dlist_search_key` and `dlist_index`.
use mathlib.Core.List.{reverse, reverse_aux}
use fnsproxy.Base.{
  ℕ, zero, suc, ◌+◌, ◌≡◌, ◌≢◌, ◌<◌, ◌∙◌, refl, sym, ap, true, false, [], ◌∷◌, some, ◌==◌,
  if◌then◌else◌, arith, length, pos, negsuc, Bool-cases, inl, inr,
}
use fnsproxy.Memory.{Ptr, null, node, Heap, done, invalid, bind_outcome, read_lem}
use fnsproxy.Dlist.{Dlist, next, iterator, is_match, search_from, search_key, walk, index}
use fnsproxy.Dlist.Chain.{Cells, first_of, last_of, Chain, IsList}

-- The step of an iterator that goes on by `next`.
pub next-first_of :
    (h : Heap) (before : Ptr) (p : Ptr) (v : ℕ) (xs : Cells)
    → Chain h before ((p, v) ∷ xs) null
    → next (record { next = p; from_head = true }) h
      ≡ done (p, record { next = first_of xs null; from_head = true }) h
unfolding next
next-first_of h before p v xs c =
    let set : (p == null) ≡ false = ground (arith, c.0) in
    rw (set, read_lem h p (node before (first_of xs null) v) c.0 c.1, next)

-- The first node whose value matches, or `NULL`.
unfoldable pub address_of : Dlist → (key : ℕ) → Cells → Ptr
address_of dl key [] = null
address_of dl key ((p, v) ∷ xs) = if is_match dl v key then p else address_of dl key xs

search_from-address_of :
    (h : Heap) (dl : Dlist) (key : ℕ) (before : Ptr) (xs : Cells) (fuel : ℕ)
    → Chain h before xs null
    → length xs < fuel
    → search_from fuel dl key (record { next = first_of xs null; from_head = true }) h
      ≡ done (address_of dl key xs) h
unfolding search_from address_of
search_from-address_of h dl key before xs zero c lt = absurd (omega arith)
search_from-address_of h dl key before [] (suc fuel) c lt = unfold next in refl
search_from-address_of h dl key before ((p, v) ∷ xs) (suc fuel) c lt =
    let set : (p == null) ≡ false = ground (arith, c.0) in
    let later = search_from-address_of h dl key p xs fuel c.2 (omega arith) in
    let here = read_lem h p (node before (first_of xs null) v) c.0 c.1 in
    elim (Bool-cases (is_match dl v key)) [
      | inl hit ↦
          rw
            (next-first_of h before p v xs c, set, here, hit, search_from, address_of, bind_outcome)
            refl
      | inr miss ↦
          rw
            (
              next-first_of h before p v xs c,
              set,
              here,
              miss,
              search_from,
              address_of,
              bind_outcome,
            )
            later
    ]

-- A search finds the first node whose value matches, and leaves memory as it is; without memory for an
-- iterator it reads through `NULL`.
pub search_key-address_of :
    (h : Heap) (dl : Dlist) (xs : Cells) (key : ℕ)
    → IsList h dl xs
    → (search_key true dl key h ≡ done (address_of dl key xs) h)
      × (search_key false dl key h ≡ invalid)
unfolding search_key iterator
search_key-address_of h dl xs key is = (
  ap (λ (p : Ptr). search_from (dl.len + 1) dl key (record { next = p; from_head = true }) h)
        is.head
      ∙ search_from-address_of h dl key null xs (dl.len + 1) is.chain (omega (arith, is.len)),
  refl,
)

-- The address at a position, or `NULL`.
unfoldable pub nth_address : Cells → ℕ → Ptr
nth_address [] n = null
nth_address ((p, v) ∷ xs) zero = p
nth_address ((p, v) ∷ xs) (suc n) = nth_address xs n

walk-next :
    (h : Heap) (before : Ptr) (xs : Cells) (n : ℕ)
    → Chain h before xs null
    → walk true n (first_of xs null) h ≡ done (nth_address xs n) h
unfolding walk nth_address
walk-next h before [] zero c = refl
walk-next h before [] (suc n) c = refl
walk-next h before ((p, v) ∷ xs) zero c = refl
walk-next h before ((p, v) ∷ xs) (suc n) c =
    let set : (p == null) ≡ false = ground (arith, c.0) in
    rw (set, read_lem h p (node before (first_of xs null) v) c.0 c.1, walk) (walk-next h p xs n c.2)

-- A chain, read from its end.
Back : Heap → (end : Ptr) → Cells → (before : Ptr) → Type 0
Back h end [] before = Unit {0}
Back h end ((p, v) ∷ xs) before =
    (p ≢ null) × (h p ≡ some (node (first_of xs before) end v)) × Back h p xs before

Back-reverse :
    (h : Heap) (acc xs : Cells) (end : Ptr)
    → Back h (first_of xs end) acc null
    → Chain h (first_of acc null) xs end
    → Back h end (reverse_aux xs acc) null
unfolding Back
Back-reverse h acc [] end b c = b
Back-reverse h acc ((p, v) ∷ xs) end b c = Back-reverse h ((p, v) ∷ acc) xs end (c.0, c.1, b) c.2

first_of-reverse :
    (xs acc : Cells) → first_of (reverse_aux xs acc) null ≡ last_of (first_of acc null) xs
first_of-reverse [] acc = refl
first_of-reverse ((p, v) ∷ xs) acc = first_of-reverse xs ((p, v) ∷ acc)

walk-prev :
    (h : Heap) (end : Ptr) (xs : Cells) (n : ℕ)
    → Back h end xs null
    → walk false n (first_of xs null) h ≡ done (nth_address xs n) h
unfolding walk nth_address Back
walk-prev h end [] zero b = refl
walk-prev h end [] (suc n) b = refl
walk-prev h end ((p, v) ∷ xs) zero b = refl
walk-prev h end ((p, v) ∷ xs) (suc n) b =
    let set : (p == null) ≡ false = ground (arith, b.0) in
    rw (set, read_lem h p (node (first_of xs null) end v) b.0 b.1, walk) (walk-prev h p xs n b.2)

-- An index from 0 on counts from the head, a negative one from the tail, -1 first; out of range it is
-- `NULL`.
pub index-nth_address :
    (h : Heap) (dl : Dlist) (xs : Cells) (n : ℕ)
    → IsList h dl xs
    → (index dl (pos n) h ≡ done (nth_address xs n) h)
      × (index dl (negsuc n) h ≡ done (nth_address (reverse xs) n) h)
unfolding index
index-nth_address h dl xs n is =
    let back = Back-reverse h [] xs null (unfold Back in tt) is.chain in
    let last : dl.tail ≡ first_of (reverse xs) null = is.tail ∙ sym (first_of-reverse xs []) in
    (rw is.head (walk-next h null xs n is.chain), rw last (walk-prev h null (reverse xs) n back))
