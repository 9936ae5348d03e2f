-- ===== src/Dlist/Insert.antt =====
-- `dlist_insert_node`: a node between two parts of a list.
use mathlib.Core.List.{append_assoc}
use fnsproxy.Base.{
  length-append, ℕ, ◌+◌, ◌≡◌, ◌≢◌, ◌<◌, ◌∙◌, refl, sym, ap, inl, inr, Bool, true, false, [], ◌∷◌,
  ◌++◌, none, some, ◌==◌, if◌then◌else◌, arith, length, u32_mod, Bool-cases,
}
use fnsproxy.Memory.{Ptr, null, Node, node, Heap, with_cell, done, read_lem}
use fnsproxy.Dlist.{Dlist, join_neighbours, insert_after, insert_before, insert_node, one_more}
use fnsproxy.Dlist.Chain.{
  Cells, first_of, last_of, Chain, has, Distinct, IsList, Chain-split, has-append, has-last_of,
  first_of-append, last_of-append, Distinct-parts,
}
use fnsproxy.Dlist.Add.{Makes}
use fnsproxy.Dlist.Joined.{Distinct-inserted, inserted}

-- The pair of `tail` and `head` after an insertion behind or before a node.
tail_after :
    (ys : Cells) (old w : ℕ) (zs : Cells) (fresh tail : Ptr)
    → Distinct (ys ++ (old, w) ∷ zs)
    → tail ≡ last_of null (ys ++ (old, w) ∷ zs)
    → (if tail == old then fresh else tail) ≡ last_of fresh zs
tail_after ys old w [] fresh tail d e =
    let here : tail ≡ old = e ∙ last_of-append null ys ((old, w) ∷ []) in ground arith
tail_after ys old w ((q, v) ∷ zs) fresh tail d e =
    let here : tail ≡ last_of q zs = e ∙ last_of-append null ys ((old, w) ∷ (q, v) ∷ zs) in
    let out = Distinct-parts ys ((old, w) ∷ (q, v) ∷ zs) d in
    elim (Bool-cases (tail == old)) [
      | inl same ↦
          let at : last_of q zs ≡ old = ground arith in
          absurd
            (ground (arith, has-last_of q v zs, out.1.0, ap (λ (t : Ptr). has t ((q, v) ∷ zs)) at))
      | inr other ↦ ground arith
    ]

head_before :
    (ys : Cells) (old w : ℕ) (zs : Cells) (fresh head : Ptr)
    → Distinct (ys ++ (old, w) ∷ zs)
    → head ≡ first_of (ys ++ (old, w) ∷ zs) null
    → (if head == old then fresh else head) ≡ first_of ys fresh
head_before [] old w zs fresh head d e = ground arith
head_before ((q, v) ∷ ys) old w zs fresh head d e = ground (arith, has-append q ys ((old, w) ∷ zs))

head_if :
    (b : Bool) (dl : Dlist) (p : Ptr)
    → (if b then record dl { head = p } else dl) ≡ record dl { head = if b then p else dl.head }
head_if true dl p = refl
head_if false dl p = refl

tail_if :
    (b : Bool) (dl : Dlist) (p : Ptr)
    → (if b then record dl { tail = p } else dl) ≡ record dl { tail = if b then p else dl.tail }
tail_if true dl p = refl
tail_if false dl p = refl

module _ (h : Heap) (dl : Dlist) (ys : Cells) (old w : ℕ) (zs : Cells) (fresh : Ptr) (value : ℕ)
    (is : IsList h dl (ys ++ (old, w) ∷ zs)) (set : fresh ≢ null) (unused : h fresh ≡ none)
    (few : length (ys ++ (old, w) ∷ zs) + 1 < u32_mod) where
  is_set : (fresh == null) ≡ false
  is_set = ground arith

  o : Node
  o = node (last_of null ys) (first_of zs null) w

  at_old : (old ≢ null) × (h old ≡ some o)
  unfolding o
  at_old = let parts = Chain-split h null ys ((old, w) ∷ zs) null is.chain in (parts.1.0, parts.1.1)

  before_runs :
      (h' : Heap)
      → join_neighbours fresh
          (last_of null ys)
          old
          (with_cell h fresh (some (node (last_of null ys) old value)))
        ≡ done tt h'
      → insert_node fresh dl old value false h
        ≡ done (some (one_more (record dl { head = first_of ys fresh }))) h'
  unfolding insert_node insert_before o
  before_runs h' run =
      let now = head_before ys old w zs fresh dl.head is.distinct is.head in
      rw (
        is_set,
        read_lem h old o at_old.0 at_old.1,
        run,
        head_if (dl.head == old) dl fresh,
        now,
        insert_node,
        insert_before,
      )

  after_runs :
      (h' : Heap)
      → join_neighbours fresh old
          (first_of zs null)
          (with_cell h fresh (some (node old (first_of zs null) value)))
        ≡ done tt h'
      → insert_node fresh dl old value true h
        ≡ done (some (one_more (record dl { tail = last_of fresh zs }))) h'
  unfolding insert_node insert_after o
  after_runs h' run =
      let now = tail_after ys old w zs fresh dl.tail is.distinct is.tail in
      rw (
        is_set,
        read_lem h old o at_old.0 at_old.1,
        run,
        tail_if (dl.tail == old) dl fresh,
        now,
        insert_node,
        insert_after,
      )

  -- A node that is inserted before or behind a node of a list, by `after`, stands there then, and
  -- memory elsewhere is as it was.
  insert_before-IsList :
      Makes h dl (ys ++ (fresh, value) ∷ (old, w) ∷ zs) (insert_node fresh dl old value false h)
  insert_before-IsList =
      let (h', run, chain, same) =
        inserted h ys ((old, w) ∷ zs) fresh value is.chain is.distinct set unused in
      let longer = length-append ys ((fresh, value) ∷ (old, w) ∷ zs) in
      let before = length-append ys ((old, w) ∷ zs) in
      (
        one_more (record dl { head = first_of ys fresh }),
        h',
        before_runs h' run,
        record {
          chain = chain;
          distinct =
              Distinct-inserted h ys ((old, w) ∷ zs) fresh value is.chain is.distinct set unused;
          head = sym (first_of-append ys ((fresh, value) ∷ (old, w) ∷ zs) null);
          tail =
              is.tail
              ∙ (last_of-append null ys ((old, w) ∷ zs)
                  ∙ sym (last_of-append null ys ((fresh, value) ∷ (old, w) ∷ zs)));
          len = omega (arith, is.len, longer, before, few);
          few = omega (arith, longer, before, few);
        },
        record { dup = refl; frees = refl; matches = refl },
        same,
      )

  insert_after-IsList :
      Makes h dl (ys ++ (old, w) ∷ (fresh, value) ∷ zs) (insert_node fresh dl old value true h)
  insert_after-IsList =
      let ys' = ys ++ (old, w) ∷ [] in
      let shape : ys' ++ zs ≡ ys ++ (old, w) ∷ zs = append_assoc ys ((old, w) ∷ []) zs in
      let chain' : Chain h null (ys' ++ zs) null = rw shape is.chain in
      let distinct' : Distinct (ys' ++ zs) = rw shape is.distinct in
      let (h', run, chain, same) = inserted h ys' zs fresh value chain' distinct' set unused in
      let at : last_of null ys' ≡ old = last_of-append null ys ((old, w) ∷ []) in
      let shape' : ys' ++ (fresh, value) ∷ zs ≡ ys ++ (old, w) ∷ (fresh, value) ∷ zs =
        append_assoc ys ((old, w) ∷ []) ((fresh, value) ∷ zs) in
      let longer = length-append ys ((old, w) ∷ (fresh, value) ∷ zs) in
      let before = length-append ys ((old, w) ∷ zs) in
      (
        one_more (record dl { tail = last_of fresh zs }),
        h',
        after_runs h' (rw at at run),
        record {
          chain = rw shape' at chain;
          distinct =
              rw shape' at (Distinct-inserted h ys' zs fresh value chain' distinct' set unused);
          head =
              is.head
              ∙ (first_of-append ys ((old, w) ∷ zs) null
                  ∙ sym (first_of-append ys ((old, w) ∷ (fresh, value) ∷ zs) null));
          tail = sym (last_of-append null ys ((old, w) ∷ (fresh, value) ∷ zs));
          len = omega (arith, is.len, longer, before, few);
          few = omega (arith, longer, before, few);
        },
        record { dup = refl; frees = refl; matches = refl },
        rw shape' at same,
      )

  -- A node that is inserted behind or before a node of a list stands there then, and memory elsewhere is
  -- as it was, where the node's address was free and the count stays below 2^32.
  pub insert_node-IsList :
      (after : Bool)
      → Makes h dl
          (ys ++ (if after then (old, w) ∷ (fresh, value) ∷ zs else (fresh, value) ∷ (old, w) ∷ zs))
          (insert_node fresh dl old value after h)
  insert_node-IsList true = insert_after-IsList
  insert_node-IsList false = insert_before-IsList
