-- ===== src/Dlist/Joined.antt =====
-- `dlist_insert_node`: the links of a node between two parts of a list.
use fnsproxy.Base.{
  ℕ, ◌≡◌, ◌≢◌, ◌∙◌, refl, ap, inl, inr, true, false, ◌||◌, [], ◌∷◌, ◌++◌, none, some, ◌==◌,
  if◌then◌else◌, arith, Bool-cases,
}
use fnsproxy.Memory.{Ptr, null, Node, node, Heap, with_cell, Outcome, done, set_prev, set_next}
use fnsproxy.Dlist.{join_neighbours}
use fnsproxy.Dlist.Chain.{
  Cells, first_of, last_of, Chain, has, Distinct, Chain-same, Chain-append, Chain-split, has-append,
  Distinct-append, Distinct-apart, Distinct-parts,
}
use fnsproxy.Dlist.Relink.{SameOutside, relink_next, relink_prev, last_of-ne-null}
use fnsproxy.Dlist.Add.{has_of_free, Chain-filled}

-- `if (p != NULL) p->next = q;`, and the same for `prev`, at the ends of two chains.
next_if : (p q : Ptr) → Heap → Outcome (Unit {0})
next_if p q h = if p == null then done tt h else set_next p q h

prev_if : (p q : Ptr) → Heap → Outcome (Unit {0})
prev_if p q h = if p == null then done tt h else set_prev p q h

next_if_lem :
    (h : Heap) (ys : Cells) (end q : Ptr)
    → Chain h null ys end
    → Distinct ys
    → (h' : Heap) × (next_if (last_of null ys) q h ≡ done tt h')
      × Chain h' null ys q
      × SameOutside ys h' h
unfolding next_if
next_if_lem h [] end q c d = (h, refl, tt, λ a o. refl)
next_if_lem h ((p, v) ∷ ys) end q c d =
    let (h', run, chain, same) = relink_next h null p v ys end q c d in
    let set : (last_of p ys == null) ≡ false =
      ground (arith, last_of-ne-null h null p v ys end c) in
    (h', rw (set, next_if) run, chain, same)

prev_if_lem :
    (h : Heap) (before : Ptr) (zs : Cells) (q : Ptr)
    → Chain h before zs null
    → Distinct zs
    → (h' : Heap) × (prev_if (first_of zs null) q h ≡ done tt h')
      × Chain h' q zs null
      × SameOutside zs h' h
unfolding prev_if
prev_if_lem h before [] q c d = (h, refl, tt, λ a o. refl)
prev_if_lem h before ((p, v) ∷ zs) q c d =
    let (h', run, chain, same) = relink_prev h before p v zs null q c d in
    let set : (p == null) ≡ false = ground (arith, c.0) in (h', rw (set, prev_if) run, chain, same)

join_neighbours_runs :
    (fresh p q : Ptr) (h h1 h2 : Heap)
    → next_if p fresh h ≡ done tt h1
    → prev_if q fresh h1 ≡ done tt h2
    → join_neighbours fresh p q h ≡ done tt h2
unfolding join_neighbours next_if prev_if
join_neighbours_runs fresh p q h h1 h2 run1 run2 = ground (arith, run1, run2)

module _ (h : Heap) (ys zs : Cells) (fresh : Ptr) (value : ℕ) (chain : Chain h null (ys ++ zs) null)
    (distinct : Distinct (ys ++ zs)) (set : fresh ≢ null) (unused : h fresh ≡ none) where
  abbrev pub new : Node
  new = node (last_of null ys) (first_of zs null) value

  out : has fresh (ys ++ zs) ≡ false
  out = has_of_free h null (ys ++ zs) null fresh chain unused

  out_of_parts : (has fresh ys ≡ false) × (has fresh zs ≡ false)
  out_of_parts = ground (arith, out, has-append fresh ys zs)

  pub Distinct-inserted : Distinct (ys ++ (fresh, value) ∷ zs)
  Distinct-inserted =
      let parts = Distinct-parts ys zs distinct in
      Distinct-append ys ((fresh, value) ∷ zs) parts.0 (out_of_parts.1, parts.1) (λ q m. apart q m)
    where
      apart : (q : Ptr) → has q ys ≡ true → (q == fresh || has q zs) ≡ false
      apart q m = elim (Bool-cases (q == fresh)) [
        | inl e ↦
            let same : q ≡ fresh = ground arith in
            absurd (ground (arith, out_of_parts.0, ap (λ (t : Ptr). has t ys) same))
        | inr e ↦ ground (arith, Distinct-apart ys zs q distinct m)
      ]

  -- The new node, once its neighbours are joined to it.
  pub inserted :
      (h' : Heap) × (join_neighbours fresh
          (last_of null ys)
          (first_of zs null)
          (with_cell h fresh (some new))
        ≡ done tt h')
      × Chain h' null (ys ++ (fresh, value) ∷ zs) null
      × SameOutside (ys ++ (fresh, value) ∷ zs) h' h
  inserted =
      let filled = Chain-filled h null (ys ++ zs) null fresh (some new) chain out in
      let h0 : Heap = with_cell h fresh (some new) in
      let parts = Chain-split h0 null ys zs null filled in
      let apart = Distinct-parts ys zs distinct in
      let (h1, run1, chain1, same1) = next_if_lem h0 ys (first_of zs null) fresh parts.0 apart.0 in
      let zs1 =
        Chain-same h1 h0 (last_of null ys) zs null (λ q m. same1 q (not_in_ys q m)) parts.1 in
      let (h2, run2, chain2, same2) = prev_if_lem h1 (last_of null ys) zs fresh zs1 apart.1 in
      let ys2 =
        Chain-same h2 h1 null ys fresh (λ q m. same2 q (Distinct-apart ys zs q distinct m))
          chain1 in
      let held : h2 fresh ≡ some new =
        same2 fresh out_of_parts.1 ∙ (same1 fresh out_of_parts.0 ∙ ground arith) in
      (
        h2,
        join_neighbours_runs fresh (last_of null ys) (first_of zs null) h0 h1 h2 run1 run2,
        Chain-append h2 null ys ((fresh, value) ∷ zs) null ys2 (set, held, chain2),
        λ q o.
            let (before, other, behind) = elsewhere q o in
            same2 q behind ∙ (same1 q before ∙ rw other refl),
      )
    where
      not_in_ys : (q : Ptr) → has q zs ≡ true → has q ys ≡ false
      not_in_ys q m = elim (Bool-cases (has q ys)) [
        | inl n ↦ absurd (ground (arith, Distinct-apart ys zs q distinct n))
        | inr o ↦ o
      ]

      elsewhere :
          (q : Ptr)
          → has q (ys ++ (fresh, value) ∷ zs) ≡ false
          → (has q ys ≡ false) × ((q == fresh) ≡ false) × (has q zs ≡ false)
      elsewhere q o = ground (arith, has-append q ys ((fresh, value) ∷ zs))
