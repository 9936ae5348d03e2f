-- ===== src/Range/Place.antt =====
-- The branches of `range_insert` at the range that it meets in a bucket, on lists: what `memmove` and
-- the stores around it leave is the list with that range replaced.
use fnsproxy.Base.{
  ℕ, zero, suc, ◌+◌, ◌-◌, ◌≡◌, ◌≤◌, ◌<◌, ◌∙◌, refl, ◌&&◌, List, [], ◌∷◌, ◌++◌, ap, arith, ◌==◌, ltb,
  if◌then◌else◌, update,
}
use fnsproxy.Vector.{Vector}
use fnsproxy.Vector.Items.{cells_from, items, pushed}
use fnsproxy.Range.{Low, invalid, fresh, add_after, split, shift_start, shift_end}

cells_from-eq :
    (f g : ℕ → Low) (i k n : ℕ)
    → ((j : ℕ) → j < n → f (i + j) ≡ g (k + j))
    → cells_from f i n ≡ cells_from g k n
cells_from-eq f g i k zero h = refl
cells_from-eq f g i k (suc n) h =
    let here = h 0 (omega arith) in
    let ei : i + 0 ≡ i = omega arith in
    let ek : k + 0 ≡ k = omega arith in
    let rest = cells_from-eq f g (i + 1) (k + 1) n (λ j lt. shifted j lt) in
    cc (here, ap f ei, ap g ek, rest)
  where
    shifted : (j : ℕ) → j < n → f (i + 1 + j) ≡ g (k + 1 + j)
    shifted j lt =
        let ei : i + suc j ≡ i + 1 + j = omega arith in
        let ek : k + suc j ≡ k + 1 + j = omega arith in
        cc (h (suc j) (omega arith), ap f ei, ap g ek)

pub cells_from-append :
    (f : ℕ → Low) (i a b k : ℕ)
    → i + a ≡ k
    → cells_from f i (a + b) ≡ cells_from f i a ++ cells_from f k b
cells_from-append f i zero b k e =
    let e' : i ≡ k = omega arith in
    let eb : 0 + b ≡ b = omega arith in
    cc (ap (λ (x : ℕ). cells_from f x b) e', ap (cells_from f i) eb)
cells_from-append f i (suc a) b k e =
    let es : suc a + b ≡ suc (a + b) = omega arith in
    rw es (ap (λ xs. f i ∷ xs) (cells_from-append f (i + 1) a b k (omega arith)))

-- A list that differs from an old one at index `i`, where `m` ranges stand for the one.
pub rearranged :
    (f g : ℕ → Low) (i m n total : ℕ)
    → ((j : ℕ) → j < i → g j ≡ f j)
    → ((j : ℕ) → j < n → g (i + m + j) ≡ f (i + 1 + j))
    → i + m + n ≡ total
    → cells_from g 0 total ≡ cells_from f 0 i ++ (cells_from g i m ++ cells_from f (i + 1) n)
rearranged f g i m n total before after e =
    let es : total ≡ i + (m + n) = omega arith in
    rw
      (
        es,
        cells_from-append g 0 i (m + n) i (omega arith),
        cells_from-append g i m n (i + m) (omega arith),
      )
      (cc (
        cells_from-eq g f 0 0 i (λ j lt. ground (arith, before (0 + j))),
        cells_from-eq g f (i + m) (i + 1) n after,
      ))

-- The ranges of a bucket before index `i`, and those after it.
abbrev pub before : Vector Low → ℕ → List Low
before v i = cells_from v.cells 0 i

abbrev pub after : Vector Low → ℕ → List Low
after v i = cells_from v.cells (i + 1) (v.count - 1 - i)

module _ (s e ip_addr : ℕ) where
  -- The ranges that stand for `met` when the new range is placed; none where it overlaps otherwise.
  unfoldable pub placed : Low → List Low
  placed met =
      if ltb met.end s
      then met ∷ fresh s e ip_addr ∷ []
      else if s == met.start && e == met.end
      then record met { ip_addr = ip_addr } ∷ []
      else if ltb met.start s && ltb e met.end
      then record met { end = s - 1 } ∷ fresh s e ip_addr ∷ record met { start = e + 1 } ∷ []
      else if s == met.start && ltb e met.end
      then fresh s e ip_addr ∷ record met { start = e + 1 } ∷ []
      else if ltb met.start s && e == met.end
      then record met { end = s - 1 } ∷ fresh s e ip_addr ∷ []
      else []

  module _ (v : Vector Low) (i : ℕ) (inside : i < v.count) where
    pub items-add_after :
        (slots : ℕ)
        → items (add_after s e ip_addr i (pushed v slots invalid))
          ≡ before v i ++ (v.cells i ∷ fresh s e ip_addr ∷ after v i)
    unfolding add_after
    items-add_after slots =
        let w = add_after s e ip_addr i (pushed v slots invalid) in
        rearranged v.cells w.cells i 2 (v.count - 1 - i) w.count (λ j lt. ground arith)
          (λ j lt.
            let from : i + 1 + (i + 2 + j - (i + 2)) ≡ i + 1 + j = omega arith in
            ground (arith, ap v.cells from))
          (omega arith)
        ∙ ground arith

    pub items-shift_start :
        (slots : ℕ)
        → e < 0xffff
        → items (shift_start s e ip_addr i (pushed v slots invalid))
          ≡ before v i ++ (fresh s e ip_addr ∷ record (v.cells i) { start = e + 1 } ∷ after v i)
    unfolding shift_start
    items-shift_start slots small =
        let w = shift_start s e ip_addr i (pushed v slots invalid) in
        rearranged v.cells w.cells i 2 (v.count - 1 - i) w.count (λ j lt. ground arith)
          (λ j lt.
            let from : i + (i + 2 + j - (i + 1)) ≡ i + 1 + j = omega arith in
            ground (arith, ap v.cells from))
          (omega arith)
        ∙ shift_start_cells small
      where
        shift_start_cells :
            e < 0xffff
            → let w = shift_start s e ip_addr i (pushed v slots invalid) in
              before v i ++ (cells_from w.cells i 2 ++ after v i)
              ≡ before v i ++ (fresh s e ip_addr ∷ record (v.cells i) { start = e + 1 } ∷ after v i)
        shift_start_cells small =
            let from : i + (i + 1 - (i + 1)) ≡ i = omega arith in ground (arith, ap v.cells from)

    pub items-shift_end :
        (slots : ℕ)
        → 0 < s
        → s ≤ 0xffff
        → items (shift_end s e ip_addr i (pushed v slots invalid))
          ≡ before v i ++ (record (v.cells i) { end = s - 1 } ∷ fresh s e ip_addr ∷ after v i)
    unfolding shift_end
    items-shift_end slots pos small =
        let w = shift_end s e ip_addr i (pushed v slots invalid) in
        rearranged v.cells w.cells i 2 (v.count - 1 - i) w.count (λ j lt. ground arith)
          (λ j lt.
            let from : i + 1 + (i + 2 + j - (i + 2)) ≡ i + 1 + j = omega arith in
            ground (arith, ap v.cells from))
          (omega arith)
        ∙ ground arith

    pub items-split :
        (slots more : ℕ)
        → 0 < s
        → s ≤ 0xffff
        → e < 0xffff
        → items (split s e ip_addr i (pushed (pushed v slots invalid) more invalid))
          ≡ before v i
            ++ (record (v.cells i) { end = s - 1 }
                ∷ fresh s e ip_addr
                ∷ record (v.cells i) { start = e + 1 }
                ∷ after v i)
    unfolding split
    items-split slots more pos small room =
        let w = split s e ip_addr i (pushed (pushed v slots invalid) more invalid) in
        rearranged v.cells w.cells i 3 (v.count - 1 - i) w.count (λ j lt. ground arith)
          (λ j lt.
            let from : i + 1 + (i + 3 + j - (i + 3)) ≡ i + 1 + j = omega arith in
            ground (arith, ap v.cells from))
          (omega arith)
        ∙ ground arith

    pub items-same : items v ≡ before v i ++ (v.cells i ∷ after v i)
    items-same =
        rearranged v.cells v.cells i 1 (v.count - 1 - i) v.count (λ j lt. refl) (λ j lt. refl)
          (omega arith)

    pub items-replace :
        (x : Low) → items (record v { cells = update v.cells i x }) ≡ before v i ++ (x ∷ after v i)
    items-replace x =
        rearranged v.cells (update v.cells i x) i 1 (v.count - 1 - i) v.count (λ j lt. ground arith)
          (λ j lt. ground arith) (omega arith)
        ∙ ground arith
