-- ===== src/Range/Insert.antt =====
-- `range_insert` over all buckets.
use fnsproxy.Base.{
  ℕ, zero, suc, ◌+◌, ◌*◌, ◌/◌, ◌%◌, ◌^◌, ◌≡◌, ◌≢◌, ◌⊎◌, inl, inr, ◌≤◌, ◌<◌, refl, Bool, ◌&&◌, List,
  [], ap, arith, Option, none, some, ◌==◌, ltb, leb, if◌then◌else◌, Bool-cases, Option-cases,
  update, u32_mod,
}
use fnsproxy.Vector
use fnsproxy.Vector.{Vector, Status, ok, error, no_fuel, push, u32}
use fnsproxy.Vector.Items.{cells_from, items}
use fnsproxy.Range.{
  Low, Range, invalid, low_size, init_num, scan, insert_low, insert_loop, insert, get, part_start,
  part_end,
}
use fnsproxy.Range.Lookup.{first_match, get_low-first_match}
use fnsproxy.Range.Merge.{Answers}
use fnsproxy.Range.Scan.{IsOrdered, scan-Inserted}

-- The ranges of a bucket.
abbrev pub bucket_items : Option (Vector Low) → List Low
bucket_items none = []
bucket_items (some v) = items v

-- Each bucket holds its ranges in order, none overlapping another.
abbrev pub IsRange : Range → Type 0
IsRange r = (h : ℕ) (v : Vector Low) → r.low h ≡ some v → IsOrdered v

abbrev pub get_or : Option ℕ → ℕ → ℕ
get_or none d = d
get_or (some x) d = x

-- A lookup, on lists.
pub get-first_match :
    (r : Range) (key : ℕ)
    → get r key ≡ get_or (first_match (bucket_items (r.low (key / 2 ^ 16))) (key % 2 ^ 16)) r.def_ip
unfolding get first_match
get-first_match r key = elim (Option-cases (r.low (key / 2 ^ 16))) [
  | inl no_bucket ↦ ground arith
  | inr (v, bucket) ↦ ground (arith, get_low-first_match v.cells (key % 2 ^ 16) v.count 0)
]

pub new-IsOrdered :
    (grants : ℕ → Bool) (v : Vector Low)
    → Vector.new grants init_num low_size invalid ≡ some v
    → IsOrdered v × (v.count ≡ 0)
unfolding Vector.new
new-IsOrdered grants v e = ground arith

-- An empty vector has no ranges.
items-empty : (v : Vector Low) → v.count ≡ 0 → items v ≡ []
items-empty v e = ap (cells_from v.cells 0) e

module _ (grants : ℕ → Bool) (s e ip_addr : ℕ) (nonempty : s ≤ e) (small : e ≤ 0xffff) where
  scan-Answers :
      (v v' : Vector Low)
      → IsOrdered v
      → scan grants s e ip_addr v.count v ≡ (ok, v')
      → Answers s e ip_addr (items v') (items v)
  scan-Answers v v' o done = (scan-Inserted grants s e ip_addr v v' nonempty small o done).0.answers

  insert_low-Answers :
      (b b' : Option (Vector Low))
      → ((v : Vector Low) → b ≡ some v → IsOrdered v)
      → insert_low grants s e ip_addr b ≡ (ok, b')
      → Answers s e ip_addr (bucket_items b') (bucket_items b)
  unfolding insert_low
  insert_low-Answers (some v) b' ordered done =
      let after = scan grants s e ip_addr v.count v in
      let reached : after ≡ (ok, after.1) = ground arith in
      let same : some after.1 ≡ b' = ground arith in
      rw (← same) (scan-Answers v after.1 (ordered v refl) reached)
  insert_low-Answers none b' ordered done =
      elim (Option-cases (Vector.new grants init_num low_size invalid)) [
        | inl failed ↦ absurd (ground arith)
        | inr (v, made) ↦
            let (o, empty) = new-IsOrdered grants v made in
            let after = scan grants s e ip_addr v.count v in
            let reached : after ≡ (ok, after.1) = ground arith in
            let same : some after.1 ≡ b' = ground arith in
            rw (← same, ← items-empty v empty) (scan-Answers v after.1 o reached)
      ]

-- The buckets from `h` on are in order.
abbrev pub OrderedFrom : ℕ → Range → Type 0
OrderedFrom h r = (k : ℕ) (v : Vector Low) → h ≤ k → r.low k ≡ some v → IsOrdered v

pub OrderedFrom-update :
    (h k : ℕ) (r : Range) (bucket : Option (Vector Low))
    → h < k
    → OrderedFrom h r
    → OrderedFrom k (record r { low = update r.low h bucket })
OrderedFrom-update h k r bucket lt o j v p e = o j v (omega arith) (ground arith)

-- Whether a key is one of those from `n` to `end`.
abbrev pub within : (n end key : ℕ) → Bool
within n end key = leb n key && leb key end

-- Where one bucket is replaced, and the answers of that bucket are known.
bucket-get :
    (r : Range) (n lo end ip_addr : ℕ) (bucket : Option (Vector Low)) (key : ℕ)
    → n ≤ end
    → lo ≡ n % 2 ^ 16
    → Answers lo (part_end end n) ip_addr (bucket_items bucket) (bucket_items (r.low (n / 2 ^ 16)))
    → get (record r { low = update r.low (n / 2 ^ 16) bucket }) key
      ≡ (if key / 2 ^ 16 == n / 2 ^ 16 && within n end key then ip_addr else get r key)
bucket-get r n lo end ip_addr bucket key le from answers =
    rw
      (
        get-first_match r key,
        get-first_match (record r { low = update r.low (n / 2 ^ 16) bucket }) key,
      )
      (elim (Bool-cases (key / 2 ^ 16 == n / 2 ^ 16)) [
        | inl here ↦
            let same : key / 2 ^ 16 ≡ n / 2 ^ 16 = ground arith in
            rw same (ground (arith, answers (key % 2 ^ 16)))
        | inr other ↦ ground arith
      ])

-- The start of the next bucket.
abbrev pub next_bucket : ℕ → ℕ
next_bucket n = u32 (n + 0x1_0000) / 2 ^ 16 * 2 ^ 16

module _ (grants : ℕ → Bool) (start end ip_addr : ℕ) where
  insert_loop-get :
      (fuel n : ℕ) (r r' : Range)
      → end < 0xffff_0000
      → (n ≡ start) ⊎ (n % 2 ^ 16 ≡ 0)
      → OrderedFrom (n / 2 ^ 16) r
      → insert_loop grants fuel r n start end ip_addr ≡ (ok, r')
      → (key : ℕ) → get r' key ≡ (if within n end key then ip_addr else get r key)
  unfolding insert_loop
  insert_loop-get zero n r r' small at o done key = cc
  insert_loop-get (suc fuel) n r r' small at o done key = elim (Bool-cases (leb n end)) [
    | inr over ↦ ground arith
    | inl inside ↦
        let low =
          insert_low grants (part_start start n) (part_end end n) ip_addr (r.low (n / 2 ^ 16)) in
        let r1 : Range = record r { low = update r.low (n / 2 ^ 16) low.1 } in
        let reached : low ≡ (ok, low.1) = ground arith in
        let rest : insert_loop grants fuel r1 (next_bucket n) start end ip_addr ≡ (ok, r') =
          ground arith in
        let from : part_start start n ≡ n % 2 ^ 16 = ground arith in
        let answers =
          insert_low-Answers grants (part_start start n) (part_end end n) ip_addr (ground arith)
            (ground arith) (r.low (n / 2 ^ 16)) low.1 (λ v e. o (n / 2 ^ 16) v (omega arith) e)
            reached in
        let later =
          insert_loop-get fuel (next_bucket n) r1 r' small (inr (omega arith))
            (OrderedFrom-update (n / 2 ^ 16) (next_bucket n / 2 ^ 16) r low.1 (ground arith) o) rest
            key in
        ground (
          arith,
          later,
          bucket-get r n (part_start start n) end ip_addr low.1 key (ground arith) from answers,
        )
  ]

module _ (grants : ℕ → Bool) (r : Range) (start end ip_addr : ℕ) where
  -- After an insertion that returns 0, a lookup gives the new address for the keys from start to end,
  -- and what it gave before for all others. The buckets were in order, and the last one is not
  -- touched.
  pub insert-get :
      (fuel : ℕ) (r' : Range)
      → IsRange r
      → end < 0xffff_0000
      → insert grants fuel r start end ip_addr ≡ (ok, r')
      → (key : ℕ) → get r' key ≡ (if within start end key then ip_addr else get r key)
  unfolding insert
  insert-get fuel r' o small done key = elim (Bool-cases (ltb end start)) [
    | inl wrong ↦ absurd (ground arith)
    | inr right ↦
        insert_loop-get grants start end ip_addr fuel start r r' small (inl refl)
          (λ k v p e. o k v e) (ground arith) key
  ]

  -- A range that ends in the last bucket is never inserted: the loop over the buckets starts again at
  -- the first one, and only a failure ends it.
  insert_loop-ne-ok :
      (fuel n : ℕ) (r1 : Range)
      → 0xffff_0000 ≤ end
      → n ≤ end
      → end < u32_mod
      → (insert_loop grants fuel r1 n start end ip_addr).0 ≢ ok
  unfolding insert_loop
  insert_loop-ne-ok zero n r1 big inside word = λ e. cc
  insert_loop-ne-ok (suc fuel) n r1 big inside word =
      let low =
        insert_low grants (part_start start n) (part_end end n) ip_addr (r1.low (n / 2 ^ 16)) in
      let r2 : Range = record r1 { low = update r1.low (n / 2 ^ 16) low.1 } in
      ground (arith, insert_loop-ne-ok fuel (next_bucket n) r2 big (omega arith) word)

  -- A range whose end lies in the last bucket, from 255.255.0.0 on, is never inserted: after every
  -- number of rounds the loop over the buckets goes on, or it has failed.
  pub insert_last_bucket :
      (fuel : ℕ)
      → 0xffff_0000 ≤ end
      → end < u32_mod
      → (insert grants fuel r start end ip_addr).0 ≢ ok
  unfolding insert
  insert_last_bucket fuel big word = ground (arith, insert_loop-ne-ok fuel start r big)
