-- ===== src/Range/Success.antt =====
-- When `range_insert` succeeds: memory is granted, and no range in the way.
use fnsproxy.Base.{
  ℕ, zero, suc, ◌+◌, ◌*◌, ◌/◌, ◌%◌, ◌^◌, ◌≡◌, ◌⊎◌, inl, inr, ◌≤◌, ◌<◌, refl, Bool, true, ap, arith,
  Option, none, some, leb, if◌then◌else◌, Bool-cases, update, u32_mod,
}
use fnsproxy.Vector
use fnsproxy.Vector.{Vector, Status, ok, error, no_fuel, push, u32}
use fnsproxy.Vector.Items.{push-cases}
use fnsproxy.Range.{
  Low, Range, invalid, fresh, low_size, init_num, with_room, place, scan, insert_low, insert_loop,
  insert, get, part_start, part_end,
}
use fnsproxy.Range.Bucket.{IsRoomy}
use fnsproxy.Range.Scan.{IsOrdered, scan-cases, count-le}
use fnsproxy.Range.Insert.{IsRange, next_bucket, new-IsOrdered, within, insert-get}

-- An allocator that serves every request.
abbrev pub always : ℕ → Bool
always bytes = true

push-ok : (v : Vector Low) (x : Low) → IsRoomy v → v.count ≤ 0x1_0001 → (push always v x).0 ≡ ok
push-ok v x roomy few =
    let bytes : v.slots * 2 * v.size ≡ v.slots * 16 =
      omega (arith, ap (λ (t : ℕ). v.slots * 2 * t) roomy.element) in
    rw (push-cases always v x roomy.valid (omega (arith, roomy.slots, bytes))) (ground arith)

-- No range of the vector shares a key with the new one.
abbrev pub IsClear : (s e : ℕ) → Vector Low → Type 0
IsClear s e v = (k : ℕ) → k < v.count → ((v.cells k).end < s) ⊎ (e < (v.cells k).start)

-- What `vector_new` makes for a bucket.
abbrev empty_low : Vector Low
empty_low = record { count = 0; slots = init_num; size = low_size; cells = λ _. invalid }

new-always : Vector.new always init_num low_size invalid ≡ some empty_low
unfolding Vector.new
new-always = refl

module _ (s e ip_addr : ℕ) where
  scan-ok :
      (v : Vector Low) → IsOrdered v → IsClear s e v → (scan always s e ip_addr v.count v).0 ≡ ok
  scan-ok v o clear = elim (scan-cases always s e ip_addr v v.count) [
    | inl (j, lt, meets, above, same) ↦
        unfold place with_room in
        ground (arith, same, clear j lt, push-ok v invalid o.roomy (omega (arith, count-le v o)))
    | inr (above, same) ↦
        ground (arith, same, push-ok v (fresh s e ip_addr) o.roomy (omega (arith, count-le v o)))
  ]

  insert_low-ok :
      (b : Option (Vector Low))
      → ((v : Vector Low) → b ≡ some v → IsOrdered v × IsClear s e v)
      → (insert_low always s e ip_addr b).0 ≡ ok
  unfolding insert_low
  insert_low-ok none h =
      let o = new-IsOrdered always empty_low new-always in
      let clear : IsClear s e empty_low = λ k lt. absurd (omega arith) in
      ground (arith, new-always, scan-ok empty_low o.0 clear)
  insert_low-ok (some v) h = let (o, clear) = h v refl in ground (arith, scan-ok v o clear)

-- No range of any bucket shares a key with those from `start` to `end`.
abbrev pub IsFree : Range → (start end : ℕ) → Type 0
IsFree r start end =
    (h : ℕ) (v : Vector Low) (k : ℕ)
    → r.low h ≡ some v
    → k < v.count
    → ((v.cells k).end ≤ 0xffff)
      × ((h * 2 ^ 16 + (v.cells k).end < start) ⊎ (end < h * 2 ^ 16 + (v.cells k).start))

module _ (start end ip_addr : ℕ) (small : end < 0xffff_0000) where
  -- In the part of a bucket, too, nothing is in the way.
  IsFree-IsClear :
      (r : Range) (n : ℕ) (v : Vector Low)
      → IsFree r start end
      → start ≤ n
      → n ≤ end
      → (n ≡ start) ⊎ (n % 2 ^ 16 ≡ 0)
      → r.low (n / 2 ^ 16) ≡ some v
      → IsClear (part_start start n) (part_end end n) v
  IsFree-IsClear r n v free from inside at e k lt = ground (arith, free (n / 2 ^ 16) v k e lt)

  abbrev FreeFrom : ℕ → Range → Type 0
  FreeFrom h r =
      (k : ℕ) (v : Vector Low)
      → h ≤ k
      → r.low k ≡ some v
      → IsOrdered v
        × ((n : ℕ)
            → n / 2 ^ 16 ≡ k
            → start ≤ n
            → n ≤ end
            → (n ≡ start) ⊎ (n % 2 ^ 16 ≡ 0)
            → IsClear (part_start start n) (part_end end n) v)

  insert_loop-ok :
      (fuel n : ℕ) (r : Range)
      → start ≤ n
      → (n ≡ start) ⊎ (n % 2 ^ 16 ≡ 0)
      → n < u32_mod
      → 0xffff < n / 2 ^ 16 + fuel
      → FreeFrom (n / 2 ^ 16) r
      → (insert_loop always fuel r n start end ip_addr).0 ≡ ok
  unfolding insert_loop
  insert_loop-ok zero n r from at word enough free = absurd (omega arith)
  insert_loop-ok (suc fuel) n r from at word enough free = elim (Bool-cases (leb n end)) [
    | inr over ↦ ground arith
    | inl inside ↦
        let within_range : n ≤ end = ground arith in
        let h = n / 2 ^ 16 in
        let low = insert_low always (part_start start n) (part_end end n) ip_addr (r.low h) in
        let clear : (v : Vector Low)
            → r.low h ≡ some v
            → IsOrdered v × IsClear (part_start start n) (part_end end n) v =
          λ v e. let (o, c) = free h v (omega arith) e in (o, c n refl from (ground arith) at) in
        let done = insert_low-ok (part_start start n) (part_end end n) ip_addr (r.low h) clear in
        let rest =
          insert_loop-ok fuel (next_bucket n) (record r { low = update r.low h low.1 })
            (ground arith) (inr (omega arith)) (omega arith) (ground arith)
            (λ k v p e. free k v (omega arith) (ground arith)) in
        ground (arith, done, rest)
  ]

-- Where the buckets are in order, no stored range shares a key with the new one, every allocation is
-- granted, and start ≤ end lies before the last bucket, 65536 rounds are enough for an insertion, it
-- returns 0, and then a lookup gives the new address for the keys from start to end, and what it gave
-- before for all others.
pub insert-ok :
    (r : Range) (start end ip_addr : ℕ)
    → IsRange r
    → IsFree r start end
    → start ≤ end
    → end < 0xffff_0000
    → (r' : Range) × (insert always 0x1_0000 r start end ip_addr ≡ (ok, r'))
      × ((key : ℕ) → get r' key ≡ (if within start end key then ip_addr else get r key))
unfolding insert
insert-ok r start end ip_addr o free le small =
    (run.1, reached, insert-get always r start end ip_addr 0x1_0000 run.1 o small reached)
  where
    run : Status × Range
    run = insert always 0x1_0000 r start end ip_addr

    done : (insert_loop always 0x1_0000 r start start end ip_addr).0 ≡ ok
    done =
        insert_loop-ok start end ip_addr small 0x1_0000 start r (omega arith) (inl refl)
          (omega arith) (omega arith)
          λ k v p e.
            (o k v e, λ n q a b c. IsFree-IsClear start end ip_addr small r n v free a b c (rw q e))

    reached : insert always 0x1_0000 r start end ip_addr ≡ (ok, run.1)
    reached = ground (arith, done)
