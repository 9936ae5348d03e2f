-- ===== src/Dlist/Delete.antt =====
-- `dlist_delete_node`.
use fnsproxy.Base.{
  length-append, ℕ, ◌≡◌, ◌∙◌, refl, sym, ap, inl, inr, true, false, ◌∷◌, ◌++◌, none, some, ◌==◌,
  arith, Bool-cases,
}
use fnsproxy.Memory.{Ptr, null, Node, node, Heap, with_cell, done, free_lem, read_lem}
use fnsproxy.Dlist.{Dlist, join_prev, join_next, delete_node, one_less, freed}
use fnsproxy.Dlist.Chain.{
  Cells, first_of, last_of, Chain, has, Distinct, IsList, SameMethods, Chain-same, Chain-append,
  Chain-split, has-append, first_of-append, last_of-append, Distinct-apart, Distinct-parts,
  Distinct-append,
}
use fnsproxy.Dlist.Relink.{SameOutside, join_prev_lem, join_next_lem}

-- The list after the removal of a node.
abbrev pub without : Dlist → (ys zs : Cells) → Dlist
without dl ys zs =
    one_less
      (record dl { head = first_of ys (first_of zs null); tail = last_of (last_of null ys) zs })

module _ (h : Heap) (dl : Dlist) (ys : Cells) (p : Ptr) (v : ℕ) (zs : Cells)
    (is : IsList h dl (ys ++ (p, v) ∷ zs)) where
  split : Chain h null ys p × Chain h (last_of null ys) ((p, v) ∷ zs) null
  split = Chain-split h null ys ((p, v) ∷ zs) null is.chain

  apart : (q : Ptr) → has q ys ≡ true → has q ((p, v) ∷ zs) ≡ false
  apart q m = Distinct-apart ys ((p, v) ∷ zs) q is.distinct m

  not_before : has p ys ≡ false
  not_before = elim (Bool-cases (has p ys)) [
    | inl m ↦ absurd (ground (arith, apart p m))
    | inr out ↦ out
  ]

  parts : Distinct ys × Distinct ((p, v) ∷ zs)
  parts = Distinct-parts ys ((p, v) ∷ zs) is.distinct

  not_in_ys : (q : Ptr) → has q zs ≡ true → has q ys ≡ false
  not_in_ys q m = elim (Bool-cases (has q ys)) [
    | inl n ↦ absurd (ground (arith, apart q n))
    | inr out ↦ out
  ]

  -- Once both neighbours skip the node, it can be given back.
  skipped :
      (g : Heap)
      → Chain g null ys (first_of zs null)
      → Chain g (last_of null ys) zs null
      → Chain (with_cell g p none) null (ys ++ zs) null
  skipped g c d =
      let g' : Heap = with_cell g p none in
      Chain-append g' null ys zs null
        (Chain-same g' g null ys (first_of zs null) (λ q m. ground (arith, apart q m)) c)
        (Chain-same g' g (last_of null ys) zs null
          (λ q m.
            let other : (q == p) ≡ false = elim (Bool-cases (q == p)) [
              | inl e ↦
                  let same : q ≡ p = ground arith in
                  absurd (ground (arith, parts.1.0, ap (λ (t : Ptr). has t zs) same))
              | inr e ↦ e
            ] in
            ground arith)
          d)

  module _ (h1 : Heap) (dl1 : Dlist) (h2 : Heap) (dl2 : Dlist)
      (run1 : join_prev dl (last_of null ys) (first_of zs null) h ≡ done dl1 h1)
      (run2 : join_next dl1 (last_of null ys) (first_of zs null) h1 ≡ done dl2 h2) where
    -- What the code reads at the node stays the same until it is freed.
    delete_run :
        h1 p ≡ some (node (last_of null ys) (first_of zs null) v)
        → h2 p ≡ some (node (last_of null ys) (first_of zs null) v)
        → delete_node dl p h ≡ done (one_less dl2, freed dl2 v) (with_cell h2 p none)
    unfolding delete_node
    delete_run held1 held2 =
        let here : Node = node (last_of null ys) (first_of zs null) v in
        rw (
          read_lem h p here split.1.0 split.1.1,
          run1,
          read_lem h1 p here split.1.0 held1,
          run2,
          read_lem h2 p here split.1.0 held2,
          free_lem h2 p here split.1.0 held2,
          delete_node,
        )

  elsewhere :
      (q : Ptr)
      → has q (ys ++ (p, v) ∷ zs) ≡ false
      → (has q ys ≡ false) × ((q == p) ≡ false) × (has q zs ≡ false)
  elsewhere q out = ground (arith, has-append q ys ((p, v) ∷ zs))

  outside :
      (h1 h2 : Heap)
      → SameOutside ys h1 h
      → SameOutside zs h2 h1
      → SameOutside (ys ++ (p, v) ∷ zs) (with_cell h2 p none) h
  outside h1 h2 same1 same2 q out =
      let (before, other, behind) = elsewhere q out in rw other (same2 q behind ∙ same1 q before)

  delete_runs :
      (h' : Heap) × (delete_node dl p h ≡ done (without dl ys zs, freed dl v) h')
      × Chain h' null (ys ++ zs) null
      × (h' p ≡ none)
      × SameOutside (ys ++ (p, v) ∷ zs) h' h
  delete_runs =
      let (h1, run1, chain1, same1) =
        join_prev_lem h dl ys p (first_of zs null) split.0 parts.0
          (is.head ∙ first_of-append ys ((p, v) ∷ zs) null) in
      let zs1 : Chain h1 p zs null =
        Chain-same h1 h p zs null (λ q m. same1 q (not_in_ys q m)) split.1.2 in
      let dl1 : Dlist = record dl { head = first_of ys (first_of zs null) } in
      let (h2, run2, chain2, same2) =
        join_next_lem h1 dl1 p zs (last_of null ys) zs1 parts.1.1
          (is.tail ∙ last_of-append null ys ((p, v) ∷ zs)) in
      let held1 = same1 p not_before ∙ split.1.1 in
      let ys2 : Chain h2 null ys (first_of zs null) =
        Chain-same h2 h1 null ys (first_of zs null) (λ q m. same2 q (ground (arith, apart q m)))
          chain1 in
      (
        with_cell h2 p none,
        delete_run h1 dl1 h2 (record dl1 { tail = last_of (last_of null ys) zs }) run1 run2 held1
            (same2 p parts.1.0 ∙ held1),
        skipped h2 ys2 chain2,
        ground arith,
        outside h1 h2 same1 same2,
      )

  Distinct-without : Distinct (ys ++ zs)
  Distinct-without = Distinct-append ys zs parts.0 parts.1.1 (λ q m. ground (arith, apart q m))

-- A node of a list is taken out and given back, and its value is freed where the list frees values: what is
-- left is the list of the other nodes, in their order, and memory elsewhere is as it was.
pub delete_node-IsList :
    (h : Heap) (dl : Dlist) (ys : Cells) (p : Ptr) (v : ℕ) (zs : Cells)
    → IsList h dl (ys ++ (p, v) ∷ zs)
    → (dl' : Dlist) × (h' : Heap) × (delete_node dl p h ≡ done (dl', freed dl v) h')
      × IsList h' dl' (ys ++ zs)
      × SameMethods dl' dl
      × (h' p ≡ none)
      × SameOutside (ys ++ (p, v) ∷ zs) h' h
delete_node-IsList h dl ys p v zs is =
    let (h', run, chain, gone, same) = delete_runs h dl ys p v zs is in
    (
      without dl ys zs,
      h',
      run,
      record {
        chain = chain;
        distinct = Distinct-without h dl ys p v zs is;
        head = sym (first_of-append ys zs null);
        tail = sym (last_of-append null ys zs);
        len = omega (arith, is.len, is.few, length-append ys zs, length-append ys ((p, v) ∷ zs));
        few = omega (arith, is.few, length-append ys zs, length-append ys ((p, v) ∷ zs));
      },
      record { dup = refl; frees = refl; matches = refl },
      gone,
      same,
    )
