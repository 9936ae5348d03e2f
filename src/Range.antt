-- ===== src/Range.antt =====
-- range.c: address ranges, in 65536 buckets by the upper half of an address.
-- A bucket is a vector of ranges of lower halves. `grants` is the allocator's (Vector), and `inet_aton`
-- a parameter where text comes in: it gives the address in host order.
pub mod Lookup
pub mod Place
pub mod Merge
pub mod Bucket
pub mod Scan
pub mod Insert
pub mod Success
pub mod Order
pub mod Delete
pub mod Release
pub mod Dump
pub mod Program
mod Tests
use fnsproxy.Base.{
  ℕ, zero, suc, ◌+◌, ◌*◌, ◌-◌, ◌/◌, ◌%◌, ◌^◌, Bool, true, false, not, ◌&&◌, ◌||◌, List, [], ◌∷◌,
  Option, none, some, ◌==◌, ltb, leb, if◌then◌else◌, u32_mod, update, Text,
}
use fnsproxy.Vector
use fnsproxy.Vector.{Vector, Status, ok, error, no_fuel, u32}

abbrev pub invalid_ip_addr : ℕ
invalid_ip_addr = 0

-- `range_low_t`, of 8 bytes.
pub record Low : Type 0 where
  pub ip_addr : ℕ
  pub start : ℕ
  pub end : ℕ

-- `range_t`. A bucket that is `NULL` is `none`.
pub record Range : Type 0 where
  pub low : ℕ → Option (Vector Low)
  pub def_ip : ℕ

abbrev pub low_size : ℕ
low_size = 8

abbrev pub init_num : ℕ
init_num = 16

abbrev pub invalid : Low
invalid = record { ip_addr = invalid_ip_addr; start = 0; end = 0 }

-- `range_create` and `range_init`; 16 bytes are the structure.
pub create : (grants : ℕ → Bool) → Option Range
create grants =
    if grants 16
    then if grants (0x1_0000 * 8)
      then some (record { low = λ _. none; def_ip = invalid_ip_addr })
      else none
    else none

-- `range_set_def`
pub set_def : Range → ℕ → Range
set_def r ip = record r { def_ip = ip }

-- `(uint16_t)n`
abbrev pub u16 : ℕ → ℕ
u16 n = n % 2 ^ 16

-- `memmove (&low[dst], &low[src], n * sizeof (range_low_t))`
abbrev pub mem_move : (ℕ → Low) → (dst src n : ℕ) → ℕ → Low
mem_move f dst src n j = if leb dst j && ltb j (dst + n) then f (src + (j - dst)) else f j

module _ (s e ip_addr : ℕ) where
  -- The range that is inserted.
  abbrev pub fresh : Low
  fresh = record { ip_addr = ip_addr; start = s; end = e }

  -- The branches of the loop body, given the vector with room for one more element (two for `split`),
  -- and the index of the range that was met.
  pub add_after : (i : ℕ) → Vector Low → Vector Low
  add_after i v =
      let f = mem_move v.cells (i + 2) (i + 1) (v.count - 2 - i) in
      record v { cells = update f (i + 1) fresh }

  pub split : (i : ℕ) → Vector Low → Vector Low
  split i v =
      let f = mem_move v.cells (i + 3) (i + 1) (v.count - 3 - i) in
      let upper : Low = record (f i) { start = u16 (e + 1) } in
      let lower : Low = record (f i) { end = u16 (s + 2 ^ 16 - 1) } in
      record v { cells = update (update (update f (i + 2) upper) (i + 1) fresh) i lower }

  pub shift_start : (i : ℕ) → Vector Low → Vector Low
  shift_start i v =
      let f = mem_move v.cells (i + 1) i (v.count - 1 - i) in
      let upper : Low = record (f (i + 1)) { start = u16 (e + 1) } in
      record v { cells = update (update f (i + 1) upper) i fresh }

  pub shift_end : (i : ℕ) → Vector Low → Vector Low
  shift_end i v =
      let f = mem_move v.cells (i + 2) (i + 1) (v.count - 2 - i) in
      let lower : Low = record (f i) { end = u16 (s + 2 ^ 16 - 1) } in
      record v { cells = update (update f (i + 1) fresh) i lower }

-- `vector_push (vec, &invalid)`, and what follows if it succeeds.
pub with_room :
    (grants : ℕ → Bool) → (Vector Low → Status × Vector Low) → Vector Low → Status × Vector Low
with_room grants next v =
    let (st, v') = Vector.push grants v invalid in
    elim st [ ok ↦ next v' | error ↦ (error, v') | no_fuel ↦ (no_fuel, v') ]

module _ (grants : ℕ → Bool) (s e ip_addr : ℕ) where
  -- The loop body from `if (s > low[i].end)` on. -1 for a range that overlaps in another way.
  pub place : (i : ℕ) → Vector Low → Status × Vector Low
  unfolding add_after split shift_start shift_end with_room
  place i v =
      let met = v.cells i in
      if ltb met.end s
      then with_room grants (λ w. (ok, add_after s e ip_addr i w)) v
      else if s == met.start && e == met.end
      then (ok, record v { cells = update v.cells i (record met { ip_addr = ip_addr }) })
      else if ltb met.start s && ltb e met.end
      then with_room grants (with_room grants (λ w. (ok, split s e ip_addr i w))) v
      else if s == met.start && ltb e met.end
      then with_room grants (λ w. (ok, shift_start s e ip_addr i w)) v
      else if ltb met.start s && e == met.end
      then with_room grants (λ w. (ok, shift_end s e ip_addr i w)) v
      else (error, v)

  -- `while (i)`, and the push that follows it.
  pub scan : (i : ℕ) → Vector Low → Status × Vector Low
  scan zero v = Vector.push grants v (fresh s e ip_addr)
  scan (suc i) v = let further = scan i v in if ltb e (v.cells i).start then further else place i v

  -- The vector of a bucket, made where it is `NULL`, then the loop.
  pub insert_low : Option (Vector Low) → Status × Option (Vector Low)
  unfolding scan place
  insert_low (some v) = let (st, v') = scan v.count v in (st, some v')
  insert_low none = elim (Vector.new grants init_num low_size invalid) [
    | none ↦ (error, none)
    | some v ↦ let (st, v') = scan v.count v in (st, some v')
  ]

-- The part of a range that falls into the bucket of `n`: its lower halves.
abbrev pub part_start : (start n : ℕ) → ℕ
part_start start n = if n == start then n % 2 ^ 16 else 0

abbrev pub part_end : (end n : ℕ) → ℕ
part_end end n = if ltb end (n / 2 ^ 16 * 2 ^ 16 + 0xffff) then end % 2 ^ 16 else 0xffff

-- The loop of `range_insert` over the buckets. `no_fuel` means that it did not end.
pub insert_loop :
    (grants : ℕ → Bool) (fuel : ℕ) → Range → (n start end ip_addr : ℕ) → Status × Range
insert_loop grants zero r n start end ip_addr = (no_fuel, r)
insert_loop grants (suc fuel) r n start end ip_addr = elim (leb n end) [
  | false ↦ (ok, r)
  | true ↦
      let h = n / 2 ^ 16 in
      let (st, bucket) =
        insert_low grants (part_start start n) (part_end end n) ip_addr (r.low h) in
      let r' : Range = record r { low = update r.low h bucket } in
      elim st [
        | ok ↦ insert_loop grants fuel r' (u32 (n + 0x1_0000) / 2 ^ 16 * 2 ^ 16) start end ip_addr
        | error ↦ (error, r')
        | no_fuel ↦ (no_fuel, r')
      ]
]

-- `range_insert`
pub insert : (grants : ℕ → Bool) (fuel : ℕ) → Range → (start end ip_addr : ℕ) → Status × Range
unfolding insert_loop
insert grants fuel r start end ip_addr =
    if ltb end start then (error, r) else insert_loop grants fuel r start start end ip_addr

-- The loop of `range_delete` over a bucket, at index `i` with `rounds` elements left.
pub delete_low : (s e : ℕ) → (rounds i : ℕ) → Vector Low → Vector Low
delete_low s e zero i v = v
delete_low s e (suc rounds) i v =
    let further = delete_low s e rounds (i + 1) v in
    if s == (v.cells i).start && e == (v.cells i).end
    then record v { cells = mem_move v.cells i (i + 1) (v.count - 1 - i); count = v.count - 1 }
    else further

-- The same at a bucket, which may be `NULL`.
abbrev pub delete_part : (s e : ℕ) → Option (Vector Low) → Option (Vector Low)
delete_part s e none = none
delete_part s e (some v) = some (delete_low s e v.count 0 v)

-- `range_delete`; `none` means that its loop did not end.
pub delete_loop : (fuel : ℕ) → Range → (n start end : ℕ) → Option Range
unfolding delete_low
delete_loop zero r n start end = none
delete_loop (suc fuel) r n start end = elim (leb n end) [
  | false ↦ some r
  | true ↦
      let h = n / 2 ^ 16 in
      let bucket = delete_part (part_start start n) (part_end end n) (r.low h) in
      delete_loop fuel (record r { low = update r.low h bucket }) (u32 (n + 0x1_0000)) start end
]

pub delete : (fuel : ℕ) → Range → (start end : ℕ) → Option Range
unfolding delete_loop
delete fuel r start end = delete_loop fuel r start start end

-- The loop of `range_get`, at index `i` with `rounds` elements left.
pub get_low : (f : ℕ → Low) (n : ℕ) → (rounds i : ℕ) → Option ℕ
get_low f n zero i = none
get_low f n (suc rounds) i =
    let further = get_low f n rounds (i + 1) in
    if leb (f i).start n && leb n (f i).end then some (f i).ip_addr else further

-- `range_get`
pub get : Range → ℕ → ℕ
unfolding get_low
get r key = elim (r.low (key / 2 ^ 16)) [
  | none ↦ r.def_ip
  | some v ↦ elim (get_low v.cells (key % 2 ^ 16) v.count 0) [
    | none ↦ r.def_ip
    | some ip_addr ↦ ip_addr
  ]
]

-- Text in and out: `inet_aton`, and `inet_ntoa` of an address in host order, are parameters.
module _ (inet_aton : Text → Option ℕ) where
  -- `range_insert_str`; the texts are read in this order, and the first bad one ends it.
  pub insert_str : (grants : ℕ → Bool) (fuel : ℕ) → Range → (start end ip : Text) → Status × Range
  unfolding insert
  insert_str grants fuel r start end ip = elim (inet_aton start) [
    | none ↦ (error, r)
    | some s ↦ elim (inet_aton end) [
      | none ↦ (error, r)
      | some e ↦ elim (inet_aton ip) [
        | none ↦ (error, r)
        | some ip_addr ↦ insert grants fuel r s e ip_addr
      ]
    ]
  ]

  -- `range_delete_str`; `none` means that the loop did not end.
  pub delete_str : (fuel : ℕ) → Range → (start end : Text) → Option Range
  unfolding delete
  delete_str fuel r start end = elim (inet_aton start) [
    | none ↦ some r
    | some s ↦ elim (inet_aton end) [ none ↦ some r | some e ↦ delete fuel r s e ]
  ]

  -- `range_get_str`; `none` is `NULL`.
  pub get_str : (inet_ntoa : ℕ → Text) → Range → (key : Text) → Option Text
  unfolding get
  get_str inet_ntoa r key = elim (inet_aton key) [
    | none ↦ none
    | some k ↦ if get r k == invalid_ip_addr then none else some (inet_ntoa (get r k))
  ]
