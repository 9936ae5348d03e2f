-- ===== src/Dlist/Add.antt =====
-- `dlist_add_node_head` and `dlist_add_node_tail`.
use fnsproxy.Base.{
  length-append, ℕ, ◌+◌, ◌≡◌, ◌≢◌, ◌<◌, ◌∙◌, refl, sym, ap, inl, inr, true, false, ◌||◌, [], ◌∷◌,
  ◌++◌, Option, none, some, ◌==◌, arith, length, u32_mod, Bool-cases,
}
use fnsproxy.Memory.{Ptr, null, Node, node, Heap, with_cell, Outcome, done}
use fnsproxy.Dlist.{Dlist, add_node_head, add_node_tail, one_more}
use fnsproxy.Dlist.Chain.{
  Cells, last_of, Chain, has, IsList, SameMethods, Chain-same, Chain-append, has-append,
  last_of-append, Distinct-append,
}
use fnsproxy.Dlist.Relink.{SameOutside, relink_next, relink_prev}

-- A command ends with a list of these nodes, and leaves memory elsewhere as it is.
abbrev pub Makes : Heap → Dlist → Cells → Outcome (Option Dlist) → Type 0
Makes h dl xs run =
    (dl' : Dlist) × (h' : Heap) × (run ≡ done (some dl') h')
    × IsList h' dl' xs
    × SameMethods dl' dl
    × SameOutside xs h' h

-- A free address is that of no node.
pub has_of_free :
    (h : Heap) (before : Ptr) (xs : Cells) (end q : Ptr)
    → Chain h before xs end
    → h q ≡ none
    → has q xs ≡ false
has_of_free h before [] end q c unused = refl
has_of_free h before ((p, v) ∷ xs) end q c unused = elim (Bool-cases (q == p)) [
  | inl e ↦ let same : q ≡ p = ground arith in cc (ap h same)
  | inr e ↦ ground (arith, has_of_free h p xs end q c.2 unused)
]

-- Nodes stay as they are where a free address is filled.
pub Chain-filled :
    (h : Heap) (before : Ptr) (xs : Cells) (end q : Ptr) (cell : Option Node)
    → Chain h before xs end
    → has q xs ≡ false
    → Chain (with_cell h q cell) before xs end
Chain-filled h before xs end q cell c out =
    Chain-same (with_cell h q cell) h before xs end
      (λ p m. elim (Bool-cases (p == q)) [
        | inl e ↦ let same : p ≡ q = ground arith in cc (ap (λ (t : Ptr). has t xs) same)
        | inr e ↦ ground arith
      ])
      c

module _ (h : Heap) (dl : Dlist) (fresh : Ptr) (value : ℕ) (set : fresh ≢ null)
    (unused : h fresh ≡ none) where
  is_set : (fresh == null) ≡ false
  is_set = ground arith

  -- The first node, from either end.
  first_node :
      IsList h dl []
      → Makes h dl ((fresh, value) ∷ []) (
          done
            (some (one_more (record dl { head = fresh; tail = fresh })))
            (with_cell h fresh (some (node null null value))))
  first_node is = (
    one_more (record dl { head = fresh; tail = fresh }),
    with_cell h fresh (some (node null null value)),
    refl,
    record {
      chain = (set, ground arith, tt);
      distinct = (refl, tt);
      head = refl;
      tail = refl;
      len = omega (arith, is.len);
      few = omega arith;
    },
    record { dup = refl; frees = refl; matches = refl },
    λ q out. ground arith,
  )

  -- A node at the head of a list: it is the list's first node then, and memory elsewhere is as it was, where
  -- the node's address was free and the count stays below 2^32.
  pub add_node_head-IsList :
      (xs : Cells)
      → IsList h dl xs
      → length xs + 1 < u32_mod
      → Makes h dl ((fresh, value) ∷ xs) (add_node_head fresh dl value h)
  unfolding add_node_head
  add_node_head-IsList [] is few =
      let zero_len : (dl.len == 0) ≡ true = ground (arith, is.len) in
      rw (is_set, zero_len, add_node_head) (first_node is)
  add_node_head-IsList ((p, w) ∷ xs) is few =
      let some_len : (dl.len == 0) ≡ false = ground (arith, is.len) in
      let out = has_of_free h null ((p, w) ∷ xs) null fresh is.chain unused in
      let h1 : Heap = with_cell h fresh (some (node null p value)) in
      let filled =
        Chain-filled h null ((p, w) ∷ xs) null fresh (some (node null p value)) is.chain out in
      let (h2, run, chain, same) = relink_prev h1 null p w xs null fresh filled is.distinct in
      rw (is_set, some_len, is.head, run, add_node_head)
        (
          one_more (record dl { head = fresh }),
          h2,
          refl,
          record {
            chain = (set, ground (arith, same fresh), chain);
            distinct = (out, is.distinct);
            head = refl;
            tail = is.tail;
            len = omega (arith, is.len);
            few = omega arith;
          },
          record { dup = refl; frees = refl; matches = refl },
          λ q o. ground (arith, same q),
        )

  -- A node at the tail of a list: it is the list's last node then, and memory elsewhere is as it was, where
  -- the node's address was free and the count stays below 2^32.
  pub add_node_tail-IsList :
      (xs : Cells)
      → IsList h dl xs
      → length xs + 1 < u32_mod
      → Makes h dl (xs ++ (fresh, value) ∷ []) (add_node_tail fresh dl value h)
  unfolding add_node_tail
  add_node_tail-IsList [] is few =
      let zero_len : (dl.len == 0) ≡ true = ground (arith, is.len) in
      rw (is_set, zero_len, add_node_tail) (first_node is)
  add_node_tail-IsList ((p, w) ∷ xs) is few =
      let some_len : (dl.len == 0) ≡ false = ground (arith, is.len) in
      let out = has_of_free h null ((p, w) ∷ xs) null fresh is.chain unused in
      let last : Node = node (last_of p xs) null value in
      let h1 : Heap = with_cell h fresh (some last) in
      let filled = Chain-filled h null ((p, w) ∷ xs) null fresh (some last) is.chain out in
      let (h2, run, chain, same) = relink_next h1 null p w xs null fresh filled is.distinct in
      let held : h2 fresh ≡ some last = same fresh out ∙ ground arith in
      let length_now = length-append ((p, w) ∷ xs) ((fresh, value) ∷ []) in
      rw (is_set, some_len, is.tail, run, add_node_tail)
        (
          one_more (record dl { tail = fresh }),
          h2,
          refl,
          record {
            chain =
                Chain-append h2 null ((p, w) ∷ xs) ((fresh, value) ∷ []) null chain (set, held, tt);
            distinct =
                Distinct-append ((p, w) ∷ xs) ((fresh, value) ∷ []) is.distinct (refl, tt)
                  (apart ((p, w) ∷ xs) out);
            head = is.head;
            tail = sym (last_of-append p xs ((fresh, value) ∷ []));
            len = omega (arith, is.len, length_now);
            few = omega (arith, length_now);
          },
          record { dup = refl; frees = refl; matches = refl },
          λ q o. ground (arith, same q, has-append q xs ((fresh, value) ∷ [])),
        )
    where
      apart :
          (ys : Cells)
          → has fresh ys ≡ false
          → (q : Ptr) → has q ys ≡ true
          → (q == fresh || false) ≡ false
      apart ys out q m = elim (Bool-cases (q == fresh)) [
        | inl e ↦ let same : q ≡ fresh = ground arith in cc (ap (λ (t : Ptr). has t ys) same)
        | inr e ↦ ground arith
      ]
