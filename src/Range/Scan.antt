-- ===== src/Range/Scan.antt =====
-- The whole loop of `range_insert` over a bucket whose ranges ascend.
use fnsproxy.Base.{
  ℕ, zero, suc, ◌+◌, ◌-◌, ◌≡◌, ◌⊎◌, inl, inr, ◌≤◌, ◌<◌, ◌∙◌, refl, Bool, true, [], ◌∷◌, ap, arith,
  ltb, length, Bool-cases, sym,
}
use native.Mathlib.Decide.{dec_lt}
use fnsproxy.Vector.{Vector, ok, push}
use fnsproxy.Vector.Items.{cells_from, items, items-pushed, pushed}
use fnsproxy.Range.{Low, fresh, scan, place}
use fnsproxy.Range.Lookup.{
  Ascending-le, first_match, first_match-append, first_match-outside, Ascending, Ascending-split,
  length-Ascending,
}
use fnsproxy.Range.Place.{before, after, items-same}
use fnsproxy.Range.Bucket.{IsRoomy, place-items, pushed-IsRoomy}
use fnsproxy.Range.Merge.{Answers, placed-Answers, placed-Ascending}

-- A bucket's vector: not near its bounds, with its ranges in ascending order.
pub record IsOrdered (v : Vector Low) : Type 0 where
  pub roomy : IsRoomy v
  pub ascending : Ascending 0 0x1_0000 (items v)

length-cells_from : (f : ℕ → Low) (i n : ℕ) → length (cells_from f i n) ≡ n
length-cells_from f i zero = refl
length-cells_from f i (suc n) = ap suc (length-cells_from f (i + 1) n)

pub count-le : (v : Vector Low) → IsOrdered v → v.count ≤ 0x1_0000
count-le v o =
    omega (
      arith,
      length-Ascending 0 0x1_0000 (items v) o.ascending,
      length-cells_from v.cells 0 v.count,
    )

module _ (grants : ℕ → Bool) (s e ip_addr : ℕ) (v : Vector Low) where
  -- The ranges from index `i` up to `n` start after the new one.
  abbrev pub StartAfter : (i n : ℕ) → Type 0
  StartAfter i n = (k : ℕ) → i ≤ k → k < n → e < (v.cells k).start

  -- The last range that does not start after the new one, if there is one.
  pub scan-cases :
      (i : ℕ)
      → ((j : ℕ) × (j < i)
          × ((v.cells j).start ≤ e)
          × StartAfter (j + 1) i
          × (scan grants s e ip_addr i v ≡ place grants s e ip_addr j v))
        ⊎ (StartAfter 0 i × (scan grants s e ip_addr i v ≡ push grants v (fresh s e ip_addr)))
  unfolding scan
  scan-cases zero = inr (λ k p q. absurd (omega arith), refl)
  scan-cases (suc i) = elim (Bool-cases (ltb e (v.cells i).start)) [
    | inl later ↦ elim (scan-cases i) [
      | inl (j, lt, meets, above, same) ↦
          inl (j, omega arith, meets, λ k p q. start_later later above k p q, ground arith)
      | inr (above, same) ↦ inr (λ k p q. start_later later above k p q, ground arith)
    ]
    | inr here ↦ inl (i, omega arith, ground arith, λ k p q. absurd (omega arith), ground arith)
  ]
    where
      start_later : ltb e (v.cells i).start ≡ true → {j : ℕ} → StartAfter j i → StartAfter j (suc i)
      start_later later above k p q = elim (dec_lt k i) [
        | yes lt ↦ above k p lt
        | no ge ↦ let same : k ≡ i = omega arith in ground (arith, ap v.cells same)
      ]

  -- What is left above: an ascending list whose first range starts after the new one.
  raise :
      (i n lo : ℕ)
      → e + 1 ≤ 0x1_0000
      → (0 < n → e < (v.cells i).start)
      → Ascending lo 0x1_0000 (cells_from v.cells i n)
      → Ascending (e + 1) 0x1_0000 (cells_from v.cells i n)
  raise i zero lo h above a = h
  raise i (suc n) lo h above a = (omega (arith, above (omega arith)), a.1, a.2)

  -- The outcome of a successful insertion into a bucket.
  pub record Inserted (v' : Vector Low) : Type 0 where
    pub roomy : IsRoomy v'
    pub answers : Answers s e ip_addr (items v') (items v)

  placed-Inserted :
      (v' : Vector Low) (j : ℕ)
      → s ≤ e
      → e ≤ 0xffff
      → IsOrdered v
      → j < v.count
      → (v.cells j).start ≤ e
      → StartAfter (j + 1) v.count
      → place grants s e ip_addr j v ≡ (ok, v')
      → Inserted v' × Ascending 0 0x1_0000 (items v')
  placed-Inserted v' j le small o lt meets above done =
      let met = v.cells j in
      let same = items-same s e ip_addr v j lt in
      let (pre, inside, post) =
        Ascending-split 0 0x1_0000 (before v j) met (after v j) (rw same at o.ascending) in
      let higher =
        raise (j + 1) (v.count - 1 - j) (met.end + 1) (omega arith)
          (λ p. above (j + 1) (omega arith) (omega arith)) post in
      let met_small : met.end ≤ 0xffff =
        omega (arith, Ascending-le (met.end + 1) 0x1_0000 (after v j) post) in
      let (shape, roomy, ne) =
        place-items grants s e ip_addr (omega arith) small v v' j o.roomy (count-le v o) lt
          met_small done in
      (
        record {
          roomy = roomy;
          answers =
              rw (shape, same)
                (placed-Answers s e ip_addr 0x1_0000 le (before v j) (after v j) met pre inside post
                  higher meets ne);
        },
        rw shape (
            placed-Ascending s e ip_addr 0x1_0000 le (before v j) (after v j) met pre inside post
              higher ne),
      )

  appended-Inserted :
      (v' : Vector Low)
      → s ≤ e
      → e ≤ 0xffff
      → IsOrdered v
      → StartAfter 0 v.count
      → push grants v (fresh s e ip_addr) ≡ (ok, v')
      → Inserted v'
  appended-Inserted v' le small o above done =
      elim (pushed-IsRoomy grants v (fresh s e ip_addr) o.roomy (omega (arith, count-le v o))) [
        | inl failed ↦ absurd (ground arith)
        | inr (slots, made, roomy) ↦
            let same : pushed v slots (fresh s e ip_addr) ≡ v' = ground arith in
            rw (← same) (record { roomy = roomy; answers = appended-Answers slots })
      ]
    where
      higher : Ascending (e + 1) 0x1_0000 (items v)
      higher = raise 0 v.count 0 (omega arith) (λ p. above 0 (omega arith) p) o.ascending

      appended-Answers :
          (slots : ℕ) → Answers s e ip_addr (items (pushed v slots (fresh s e ip_addr))) (items v)
      appended-Answers slots key =
          unfold first_match in
          rw (items-pushed v slots (fresh s e ip_addr)) (
            ground (
              arith,
              first_match-append (items v) (fresh s e ip_addr ∷ []) key,
              first_match-outside (e + 1) 0x1_0000 (items v) key higher,
            ))

  -- A successful insertion into a bucket answers the new keys, and all others as before; with a range
  -- that does not start after the new one it also keeps the order.
  pub scan-Inserted :
      (v' : Vector Low)
      → s ≤ e
      → e ≤ 0xffff
      → IsOrdered v
      → scan grants s e ip_addr v.count v ≡ (ok, v')
      → Inserted v' × (Ascending 0 0x1_0000 (items v') ⊎ StartAfter 0 v.count)
  scan-Inserted v' le small o done = elim (scan-cases v.count) [
    | inl (j, lt, meets, above, same) ↦
        let (done', order) = placed-Inserted v' j le small o lt meets above (sym same ∙ done) in
        (done', inl order)
    | inr (above, same) ↦ (appended-Inserted v' le small o above (sym same ∙ done), inr above)
  ]
