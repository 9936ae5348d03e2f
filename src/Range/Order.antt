-- ===== src/Range/Order.antt =====
-- The order of the ranges of a bucket, which the next `range_insert` relies on.
use fnsproxy.Base.{
  ℕ, zero, suc, ◌+◌, ◌≡◌, ◌⊎◌, inl, inr, ◌≤◌, ◌<◌, ◌∙◌, Bool, [], ◌∷◌, ◌++◌, ap, arith, sym,
}
use fnsproxy.Vector.{Vector, ok, push}
use fnsproxy.Vector.Items.{cells_from, items, pushed, items-pushed}
use fnsproxy.Range.{Low, fresh, scan}
use fnsproxy.Range.Lookup.{Ascending, Ascending-le, Ascending-split}
use fnsproxy.Range.Place.{before, after, items-same}
use fnsproxy.Range.Bucket.{pushed-IsRoomy}
use fnsproxy.Range.Scan.{IsOrdered, scan-Inserted, scan-cases, count-le, StartAfter}

-- The first of ascending ranges starts below their bound.
first-lt :
    (f : ℕ → Low) (i n lo hi : ℕ) → 0 < n → Ascending lo hi (cells_from f i n) → (f i).start < hi
first-lt f i zero lo hi h a = absurd (omega arith)
first-lt f i (suc n) lo hi h a =
    omega (arith, a.1, Ascending-le ((f i).end + 1) hi (cells_from f (i + 1) n) a.2)

module _ (grants : ℕ → Bool) (s e ip_addr : ℕ) (v v' : Vector Low) where
  appended-items :
      IsOrdered v
      → push grants v (fresh s e ip_addr) ≡ (ok, v')
      → items v' ≡ items v ++ fresh s e ip_addr ∷ []
  appended-items o done =
      elim (pushed-IsRoomy grants v (fresh s e ip_addr) o.roomy (omega (arith, count-le v o))) [
        | inl failed ↦ absurd (ground arith)
        | inr (slots, made, roomy) ↦
            let same : pushed v slots (fresh s e ip_addr) ≡ v' = ground arith in
            rw (← same) (items-pushed v slots (fresh s e ip_addr))
      ]

  push_of_StartAfter :
      IsOrdered v
      → StartAfter grants s e ip_addr v 0 v.count
      → scan grants s e ip_addr v.count v ≡ (ok, v')
      → push grants v (fresh s e ip_addr) ≡ (ok, v')
  push_of_StartAfter o above done = elim (scan-cases grants s e ip_addr v v.count) [
    | inl (j, lt, meets, later, same) ↦ absurd (omega (arith, above j (omega arith) lt))
    | inr (later, same) ↦ sym same ∙ done
  ]

  all-StartAfter : IsOrdered v → e < (v.cells 0).start → StartAfter grants s e ip_addr v 0 v.count
  all-StartAfter o first zero p lt = first
  all-StartAfter o first (suc k) p lt =
      let split =
        Ascending-split 0 0x1_0000 (before v (suc k)) (v.cells (suc k)) (after v (suc k))
          (rw (items-same s e ip_addr v (suc k) lt) at o.ascending) in
      omega (arith, first-lt v.cells 0 (suc k) 0 (v.cells (suc k)).start (omega arith) split.0)

  -- A successful insertion keeps a bucket in order, if the bucket was empty or its first range does not
  -- start after the new one.
  pub scan-IsOrdered :
      s ≤ e
      → e ≤ 0xffff
      → IsOrdered v
      → (v.count ≡ 0) ⊎ ((v.cells 0).start ≤ e)
      → scan grants s e ip_addr v.count v ≡ (ok, v')
      → IsOrdered v'
  scan-IsOrdered le small o first done =
      let (inserted, order) = scan-Inserted grants s e ip_addr v v' le small o done in
      elim order [
        | inl ascending ↦ record { roomy = inserted.roomy; ascending = ascending }
        | inr above ↦
            let empty : v.count ≡ 0 = ground (arith, above 0) in
            let pushed_now = push_of_StartAfter o above done in
            record {
              roomy = inserted.roomy;
              ascending =
                  rw (appended-items o pushed_now, ap (cells_from v.cells 0) empty) (omega arith);
            }
      ]

  -- A successful insertion before all ranges of a bucket that is not empty puts the new range last, out
  -- of order.
  pub scan_before_first :
      s ≤ e
      → e ≤ 0xffff
      → IsOrdered v
      → 0 < v.count
      → e < (v.cells 0).start
      → scan grants s e ip_addr v.count v ≡ (ok, v')
      → (lo hi : ℕ) → ¬ Ascending lo hi (items v')
  scan_before_first le small o some_range first done lo hi a =
      let made = appended-items o (push_of_StartAfter o (all-StartAfter o first) done) in
      let split = Ascending-split lo hi (items v) (fresh s e ip_addr) [] (rw made at a) in
      absurd (omega (arith, first-lt v.cells 0 v.count lo s some_range split.0))
