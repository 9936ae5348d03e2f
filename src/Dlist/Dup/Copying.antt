-- ===== src/Dlist/Dup/Copying.antt =====
-- dlist_dup between two rounds of its loop: what is copied so far.
use fnsproxy.Base.{
  ℕ, ◌+◌, ◌≡◌, ◌≢◌, ◌<◌, ◌∙◌, refl, sym, ap, inl, inr, Bool, true, false, ◌||◌, List, [], ◌∷◌, ◌++◌,
  Option, none, some, ◌==◌, if◌then◌else◌, arith, length, u32_mod, Bool-cases,
}
use fnsproxy.Memory.{Ptr, null, Heap, done}
use fnsproxy.Dlist.{Dlist, destroy, add_node_tail, freed}
use fnsproxy.Dlist.Chain.{Cells, Chain, has, IsList, SameMethods, Chain-same, has-append}
use fnsproxy.Dlist.Relink.{SameOutside}
use fnsproxy.Dlist.Add.{has_of_free, add_node_tail-IsList}
use fnsproxy.Dlist.Release.{freed_values, destroy-AllFree}
use fnsproxy.Dlist.Dup.{copied}

abbrev pub is_among : Ptr → List Ptr → Bool
is_among q [] = false
is_among q (p ∷ ps) = q == p || is_among q ps

-- What `malloc` returns is free, and not returned twice, but for `NULL`.
abbrev pub AreFresh : Heap → List Ptr → Type 0
AreFresh h [] = Unit {0}
AreFresh h (p ∷ ps) = (p ≢ null → (h p ≡ none) × (is_among p ps ≡ false)) × AreFresh h ps

freed_values-same :
    (a b : Dlist) (ys : Cells) → a.frees ≡ b.frees → freed_values a ys ≡ freed_values b ys
unfolding freed_values
freed_values-same a b [] e = refl
freed_values-same a b ((p, v) ∷ ys) e =
    let here : freed a v ≡ freed b v = ap (λ (f : Bool). if f then v ∷ [] else []) e in
    cc (here, freed_values-same a b ys e)

pub copied-same : (a b : Dlist) (v : ℕ) → a.dup ≡ b.dup → copied a v ≡ copied b v
copied-same a b v e =
    ap (λ (d : Option (ℕ → Option ℕ)). elim d as (λ x. Option ℕ) [ none ↦ some v | some f ↦ f v ]) e

-- A copy in progress: the nodes `ys` of the list `copy`, beside the memory `h0`.
pub record IsCopying (h0 h : Heap) (dl copy : Dlist) (ys : Cells) (mallocs : List Ptr)
    : Type 0 where
  pub is_list : IsList h copy ys
  pub methods : SameMethods copy dl
  pub same : SameOutside ys h h0
  pub unused : (q : Ptr) → has q ys ≡ true → h0 q ≡ none
  pub fresh : AreFresh h0 mallocs
  pub apart : (q : Ptr) → is_among q mallocs ≡ true → has q ys ≡ false

-- The destruction of an unfinished copy gives back its nodes, and no other.
pub IsCopying-destroy :
    (h0 h : Heap) (dl copy : Dlist) (ys : Cells) (mallocs : List Ptr)
    → IsCopying h0 h dl copy ys mallocs
    → (h' : Heap) × (destroy copy h ≡ done (freed_values dl ys) h') × ((q : Ptr) → h' q ≡ h0 q)
IsCopying-destroy h0 h dl copy ys mallocs c =
    let (h', run, gone, kept) = destroy-AllFree h copy ys c.is_list in
    (
      h',
      run ∙ ap (λ (l : List ℕ). done l h') (freed_values-same copy dl ys c.methods.frees),
      λ q. elim (Bool-cases (has q ys)) [
        | inl there ↦ gone q there ∙ sym (c.unused q there)
        | inr out ↦ kept q out ∙ c.same q out
      ],
    )

-- The nodes of the original are not those of the copy.
pub IsCopying-Chain :
    (h0 h : Heap) (dl copy : Dlist) (ys : Cells) (mallocs : List Ptr)
    → IsCopying h0 h dl copy ys mallocs
    → (before : Ptr) (xs : Cells) → Chain h0 before xs null
    → Chain h before xs null
IsCopying-Chain h0 h dl copy ys mallocs c before xs chain =
    Chain-same h h0 before xs null
      (λ q m. elim (Bool-cases (has q ys)) [
        | inl there ↦
            absurd (ground (arith, has_of_free h0 before xs null q chain (c.unused q there)))
        | inr out ↦ c.same q out
      ])
      chain

module _ (h0 h : Heap) (dl copy : Dlist) (ys : Cells) (p : Ptr) (ms : List Ptr) (w : ℕ)
    (c : IsCopying h0 h dl copy ys (p ∷ ms)) (set : p ≢ null) (few : length ys + 1 < u32_mod) where
  new_node : (h p ≡ none) × (has p ys ≡ false)
  new_node = let out = c.apart p (ground arith) in (c.same p out ∙ (c.fresh.0 set).0, out)

  has-new : (q : Ptr) → has q (ys ++ (p, w) ∷ []) ≡ (has q ys || q == p)
  has-new q = ground (arith, has-append q ys ((p, w) ∷ []))

  unused-new : (q : Ptr) → has q (ys ++ (p, w) ∷ []) ≡ true → h0 q ≡ none
  unused-new q there = elim (Bool-cases (has q ys)) [
    | inl old ↦ c.unused q old
    | inr out ↦ let same : q ≡ p = ground (arith, has-new q) in ap h0 same ∙ (c.fresh.0 set).0
  ]

  apart-new : (q : Ptr) → is_among q ms ≡ true → has q (ys ++ (p, w) ∷ []) ≡ false
  apart-new q there = elim (Bool-cases (q == p)) [
    | inl hit ↦
        let same : q ≡ p = ground arith in
        absurd (ground (arith, (c.fresh.0 set).1, ap (λ (t : Ptr). is_among t ms) same))
    | inr miss ↦ ground (arith, has-new q, c.apart q)
  ]

  -- A node that is added goes on with the copy.
  pub add_node_tail-IsCopying :
      (copy' : Dlist) × (h' : Heap) × (add_node_tail p copy w h ≡ done (some copy') h')
      × IsCopying h0 h' dl copy' (ys ++ (p, w) ∷ []) ms
  add_node_tail-IsCopying =
      let (copy', h', run, is, methods, kept) =
        add_node_tail-IsList h copy p w set new_node.0 ys c.is_list few in
      (
        copy',
        h',
        run,
        record {
          is_list = is;
          methods = record {
            dup = methods.dup ∙ c.methods.dup;
            frees = methods.frees ∙ c.methods.frees;
            matches = methods.matches ∙ c.methods.matches;
          };
          same = λ q out. kept q out ∙ c.same q (ground (arith, has-new q));
          unused = unused-new;
          fresh = c.fresh.1;
          apart = apart-new;
        },
      )
