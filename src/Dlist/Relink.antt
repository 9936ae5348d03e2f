-- ===== src/Dlist/Relink.antt =====
-- The writes that hang the neighbours of a node together, in terms of chains.
use fnsproxy.Base.{ℕ, ◌≡◌, ◌≢◌, ◌∙◌, refl, ap, false, [], ◌∷◌, some, ◌==◌, arith}
use fnsproxy.Memory.{
  Ptr, null, node, Heap, with_cell, done, set_prev, set_next, set_prev_lem, set_next_lem,
}
use fnsproxy.Dlist.{Dlist, join_prev, join_next}
use fnsproxy.Dlist.Chain.{Cells, first_of, last_of, Chain, has, Distinct, Chain-same}

-- Only the nodes of a list may differ.
abbrev pub SameOutside : Cells → Heap → Heap → Type 0
SameOutside xs g h = (q : Ptr) → has q xs ≡ false → g q ≡ h q

pub last_of-ne-null :
    (h : Heap) (before p : Ptr) (v : ℕ) (xs : Cells) (end : Ptr)
    → Chain h before ((p, v) ∷ xs) end
    → last_of p xs ≢ null
last_of-ne-null h before p v [] end c = c.0
last_of-ne-null h before p v ((q, w) ∷ xs) end c = last_of-ne-null h p q w xs end c.2

-- The `next` of the last node.
pub relink_next :
    (h : Heap) (before p : Ptr) (v : ℕ) (xs : Cells) (end q : Ptr)
    → Chain h before ((p, v) ∷ xs) end
    → Distinct ((p, v) ∷ xs)
    → (h' : Heap) × (set_next (last_of p xs) q h ≡ done tt h')
      × Chain h' before ((p, v) ∷ xs) q
      × SameOutside ((p, v) ∷ xs) h' h
relink_next h before p v [] end q c d = (
  with_cell h p (some (node before q v)),
  set_next_lem h p (node before end v) q c.0 c.1,
  (c.0, ground arith, tt),
  λ a out. ground arith,
)
relink_next h before p v ((r, w) ∷ xs) end q c d =
    let (h', run, chain, same) = relink_next h p r w xs end q c.2 d.1 in
    (h', run, (c.0, same p d.0 ∙ c.1, chain), λ a out. same a (ground arith))

-- The `prev` of the first node.
pub relink_prev :
    (h : Heap) (before p : Ptr) (v : ℕ) (xs : Cells) (end q : Ptr)
    → Chain h before ((p, v) ∷ xs) end
    → Distinct ((p, v) ∷ xs)
    → (h' : Heap) × (set_prev p q h ≡ done tt h')
      × Chain h' q ((p, v) ∷ xs) end
      × SameOutside ((p, v) ∷ xs) h' h
relink_prev h before p v xs end q c d =
    let h' : Heap = with_cell h p (some (node q (first_of xs end) v)) in
    (
      h',
      set_prev_lem h p (node before (first_of xs end) v) q c.0 c.1,
      (c.0, ground arith, Chain-same h' h p xs end (λ a m. ground arith) c.2),
      λ a out. ground arith,
    )

-- What stands before a removed node gets a new successor.
pub join_prev_lem :
    (h : Heap) (dl : Dlist) (xs : Cells) (end q : Ptr)
    → Chain h null xs end
    → Distinct xs
    → dl.head ≡ first_of xs end
    → (h' : Heap) × (join_prev dl (last_of null xs) q h
        ≡ done (record dl { head = first_of xs q }) h')
      × Chain h' null xs q
      × SameOutside xs h' h
unfolding join_prev
join_prev_lem h dl [] end q c d e = (h, refl, tt, λ a out. refl)
join_prev_lem h dl ((p, v) ∷ xs) end q c d e =
    let (h', run, chain, same) = relink_next h null p v xs end q c d in
    let set : (last_of p xs == null) ≡ false =
      ground (arith, last_of-ne-null h null p v xs end c) in
    let kept : dl ≡ record dl { head = p } = λ i. record dl { head = e i } in
    (h', rw (set, run, join_prev) (ap (λ t. done t h') kept), chain, same)

-- What stands behind a removed node gets a new predecessor.
pub join_next_lem :
    (h : Heap) (dl : Dlist) (before : Ptr) (xs : Cells) (q : Ptr)
    → Chain h before xs null
    → Distinct xs
    → dl.tail ≡ last_of before xs
    → (h' : Heap) × (join_next dl q (first_of xs null) h
        ≡ done (record dl { tail = last_of q xs }) h')
      × Chain h' q xs null
      × SameOutside xs h' h
unfolding join_next
join_next_lem h dl before [] q c d e = (h, refl, tt, λ a out. refl)
join_next_lem h dl before ((p, v) ∷ xs) q c d e =
    let (h', run, chain, same) = relink_prev h before p v xs null q c d in
    let set : (p == null) ≡ false = ground (arith, c.0) in
    let kept : dl ≡ record dl { tail = last_of p xs } = λ i. record dl { tail = e i } in
    (h', rw (set, run, join_next) (ap (λ t. done t h') kept), chain, same)
