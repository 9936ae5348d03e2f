-- ===== src/Dlist/Dup/Copies.antt =====
-- dlist_dup: the copy, and what is left of it where a step fails.
use mathlib.Core.List.{append-nil, append_assoc}
use fnsproxy.Base.{
  length-append, ℕ, zero, suc, ◌+◌, ◌≡◌, ◌≢◌, ◌<◌, refl, sym, subst, inl, inr, Bool, true, false,
  List, [], ◌∷◌, ◌++◌, Option, none, some, ◌==◌, if◌then◌else◌, arith, length, u32_mod, Bool-cases,
  Option-cases,
}
use fnsproxy.Memory.{Ptr, null, node, Heap, Outcome, done, invalid, bind_outcome, read_lem}
use fnsproxy.Dlist.{Dlist, init, iterator, next, destroy, add_node_tail}
use fnsproxy.Dlist.Chain.{Cells, first_of, Chain, IsList, SameMethods}
use fnsproxy.Dlist.Relink.{SameOutside}
use fnsproxy.Dlist.Walk.{next-first_of}
use fnsproxy.Dlist.Release.{freed_values}
use fnsproxy.Dlist.Dup.{fresh_of, mallocs_after, copied, dup_from, duplicate}
use fnsproxy.Dlist.Dup.Copying.{
  AreFresh, copied-same, IsCopying, IsCopying-destroy, IsCopying-Chain, add_node_tail-IsCopying,
}

-- The nodes that are copied, and whether these are all: `malloc` may fail, and the list's own `dup`.
unfoldable pub copies : Dlist → List Ptr → Cells → Cells × Bool
copies dl mallocs [] = ([], true)
copies dl mallocs ((p, v) ∷ xs) =
    let (ys, all) = copies dl (mallocs_after mallocs) xs in
    elim (copied dl v) [
      | none ↦ ([], false)
      | some w ↦ if fresh_of mallocs == null then ([], false) else ((fresh_of mallocs, w) ∷ ys, all)
    ]

-- How a copy ends: with a list of these nodes besides the memory that was, or with the memory that was.
abbrev pub Ends : Heap → Dlist → Cells → (all : Bool) → Outcome (Option Dlist × List ℕ) → Type 0
Ends h dl ys true run =
    (copy : Dlist) × (h' : Heap) × (run ≡ done (some copy, []) h')
    × IsList h' copy ys
    × SameMethods copy dl
    × SameOutside ys h' h
Ends h dl ys false run =
    (h' : Heap) × (run ≡ done (none, freed_values dl ys) h') × ((q : Ptr) → h' q ≡ h q)

fresh_of-cons :
    (mallocs : List Ptr)
    → fresh_of mallocs ≢ null
    → mallocs ≡ fresh_of mallocs ∷ mallocs_after mallocs
fresh_of-cons [] set = absurd (set refl)
fresh_of-cons (p ∷ ms) set = refl

module _ (dl : Dlist) (h0 : Heap) where
  -- A step that fails destroys what is copied so far.
  Ends-destroy :
      (h : Heap) (copy : Dlist) (ys : Cells) (mallocs : List Ptr)
      → IsCopying h0 h dl copy ys mallocs
      → Ends h0 dl (ys ++ []) false (bind_outcome (destroy copy h) (λ values. done (none, values)))
  Ends-destroy h copy ys mallocs c =
      let (h', run, same) = IsCopying-destroy h0 h dl copy ys mallocs c in
      rw (append-nil ys, run) (h', refl, same)

  dup_from-Ends :
      (fuel : ℕ) (h : Heap) (copy : Dlist) (ys : Cells) (mallocs : List Ptr) (before : Ptr)
      (xs : Cells)
      → Chain h0 before xs null
      → IsCopying h0 h dl copy ys mallocs
      → length ys + length xs < u32_mod
      → length xs < fuel
      → Ends h0 dl
          (ys ++ (copies dl mallocs xs).0)
          (copies dl mallocs xs).1
          (dup_from fuel mallocs copy (record { next = first_of xs null; from_head = true }) h)
  unfolding dup_from copies
  dup_from-Ends zero h copy ys mallocs before xs chain c few lt = absurd (omega arith)
  dup_from-Ends (suc fuel) h copy ys mallocs before [] chain c few lt =
      unfold next in rw (append-nil ys) (copy, h, refl, c.is_list, c.methods, c.same)
  dup_from-Ends (suc fuel) h copy ys mallocs before ((p, v) ∷ xs) chain c few lt =
      let set : (p == null) ≡ false = ground (arith, chain.0) in
      let here = IsCopying-Chain h0 h dl copy ys mallocs c before ((p, v) ∷ xs) chain in
      let step = next-first_of h before p v xs here in
      let held = read_lem h p (node before (first_of xs null) v) here.0 here.1 in
      let same = copied-same copy dl v c.methods.dup in
      elim (Option-cases (copied dl v)) [
        | inl failed ↦
            rw (step, set, held, same, failed, dup_from, copies, bind_outcome)
              (Ends-destroy h copy ys mallocs c)
        | inr (w, made) ↦ elim (Bool-cases (fresh_of mallocs == null)) [
          | inl refused ↦
              rw
                (
                  step, set, held, same, made, refused, dup_from, copies, add_node_tail,
                  bind_outcome,
                )
                (Ends-destroy h copy ys mallocs c)
          | inr granted ↦
              let q = fresh_of mallocs in
              let ms = mallocs_after mallocs in
              let set_q : q ≢ null = ground arith in
              let c' = subst (IsCopying h0 h dl copy ys) (fresh_of-cons mallocs set_q) c in
              let (copy', h', run, c2) =
                add_node_tail-IsCopying h0 h dl copy ys q ms w c' set_q (omega arith) in
              let longer = length-append ys ((q, w) ∷ []) in
              let rest =
                dup_from-Ends fuel h' copy' (ys ++ (q, w) ∷ []) ms p xs chain.2 c2
                  (omega (arith, longer)) (omega arith) in
              rw (step, set, held, same, made, run, granted, dup_from, copies, bind_outcome)
                (subst
                  (λ l. Ends h0 dl l (copies dl ms xs).1 (
                    dup_from fuel ms copy' (record { next = first_of xs null; from_head = true })
                      h'))
                  (append_assoc ys ((q, w) ∷ []) (copies dl ms xs).0) rest)
        ]
      ]

-- Where the structures of the copy and of the iterator are allocated, dlist_dup makes a list with a copy of
-- each value, in order, at the addresses that `malloc` returns, with the methods of the list, and
-- leaves the list and all other nodes as they are; where `malloc` of a node or `dup` fails, it returns
-- `NULL`, the nodes in memory are as they were, and of the values exactly those of the nodes that
-- were copied are freed, in order, if the list frees values, so not the one that was made for a node
-- without memory. Without the structure of the copy it returns `NULL` and does nothing; without that of
-- the iterator it reads through `NULL`. `malloc` returns free addresses for nodes, none of them twice.
pub duplicate-Ends :
    (h : Heap) (dl : Dlist) (xs : Cells) (mallocs : List Ptr)
    → IsList h dl xs
    → AreFresh h mallocs
    → Ends h dl (copies dl mallocs xs).0 (copies dl mallocs xs).1 (duplicate true true mallocs dl h)
      × ((iter_memory : Bool) → duplicate false iter_memory mallocs dl h ≡ done (none, []) h)
      × (duplicate true false mallocs dl h ≡ invalid)
unfolding duplicate iterator
duplicate-Ends h dl xs mallocs is fresh =
    let blank : Dlist = record init { dup = dl.dup; frees = dl.frees; matches = dl.matches } in
    let start : IsCopying h h dl blank [] mallocs = record {
      is_list = record {
        chain = tt;
        distinct = tt;
        head = refl;
        tail = refl;
        len = refl;
        few = omega arith;
      };
      methods = record { dup = refl; frees = refl; matches = refl };
      same = λ q out. refl;
      unused = λ q there. cc;
      fresh = fresh;
      apart = λ q there. refl;
    } in
    let runs : duplicate true true mallocs dl h
        ≡ dup_from (length xs + 1) mallocs blank
            (record { next = first_of xs null; from_head = true }) h =
      λ i.
        dup_from (is.len i + 1) mallocs blank (record { next = is.head i; from_head = true }) h in
    (
      subst (Ends h dl (copies dl mallocs xs).0 (copies dl mallocs xs).1) (sym runs) (
          dup_from-Ends dl h (length xs + 1) h blank [] mallocs null xs is.chain start
            (omega (arith, is.few)) (omega arith)),
      λ iter_memory. refl,
      refl,
    )
