-- ===== src/Dlist/Release.antt =====
-- `dlist_destroy`: every node is given back.
use fnsproxy.Base.{
  ℕ, ◌≡◌, ◌∙◌, refl, ap, true, List, [], ◌∷◌, ◌++◌, none, ◌==◌, arith, length, Bool-cases, inl, inr,
}
use fnsproxy.Memory.{Ptr, null, Node, node, Heap, with_cell, done, bind_outcome, read_lem, free_lem}
use fnsproxy.Dlist.{Dlist, freed, destroy_from, destroy}
use fnsproxy.Dlist.Chain.{Cells, first_of, Chain, has, Distinct, IsList, Chain-same}
use fnsproxy.Dlist.Relink.{SameOutside}

-- The values that are freed with the nodes of a list, in their order.
unfoldable pub freed_values : Dlist → Cells → List ℕ
freed_values dl [] = []
freed_values dl ((p, v) ∷ xs) = freed dl v ++ freed_values dl xs

-- No node of a list is left.
abbrev pub AllFree : Cells → Heap → Type 0
AllFree xs h = (q : Ptr) → has q xs ≡ true → h q ≡ none

destroy_from-AllFree :
    (h : Heap) (dl : Dlist) (before : Ptr) (xs : Cells)
    → Chain h before xs null
    → Distinct xs
    → (h' : Heap) × (destroy_from (length xs) dl (first_of xs null) h
        ≡ done (freed_values dl xs) h')
      × AllFree xs h'
      × SameOutside xs h' h
unfolding destroy_from freed_values
destroy_from-AllFree h dl before [] c d = (h, refl, λ q m. cc, λ q o. refl)
destroy_from-AllFree h dl before ((p, v) ∷ xs) c d =
    let here : Node = node before (first_of xs null) v in
    let h1 : Heap = with_cell h p none in
    let chain1 =
      Chain-same h1 h p xs null
        (λ q m. elim (Bool-cases (q == p)) [
          | inl e ↦
              let same : q ≡ p = ground arith in
              absurd (ground (arith, d.0, ap (λ (t : Ptr). has t xs) same))
          | inr e ↦ ground arith
        ])
        c.2 in
    let (h', run, gone, same) = destroy_from-AllFree h1 dl p xs chain1 d.1 in
    (
      h',
      rw (read_lem h p here c.0 c.1, free_lem h p here c.0 c.1, run, destroy_from, bind_outcome),
      λ q m. elim (Bool-cases (has q xs)) [
        | inl behind ↦ gone q behind
        | inr out ↦ same q out ∙ ground arith
      ],
      λ q o. ground (arith, same q),
    )

-- Destroying a list gives back each of its nodes and nothing else, and frees each value once, in order, where
-- the list frees values.
pub destroy-AllFree :
    (h : Heap) (dl : Dlist) (xs : Cells)
    → IsList h dl xs
    → (h' : Heap) × (destroy dl h ≡ done (freed_values dl xs) h')
      × AllFree xs h'
      × SameOutside xs h' h
unfolding destroy
destroy-AllFree h dl xs is =
    let (h', run, gone, same) = destroy_from-AllFree h dl null xs is.chain is.distinct in
    (h', (λ i. destroy_from (is.len i) dl (is.head i) h) ∙ run, gone, same)
