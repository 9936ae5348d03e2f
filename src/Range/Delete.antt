-- ===== src/Range/Delete.antt =====
-- `range_delete`.
use fnsproxy.Base.{
  ℕ, zero, suc, ◌+◌, ◌-◌, ◌/◌, ◌%◌, ◌^◌, ◌≡◌, inl, inr, ◌≤◌, ◌<◌, ◌∙◌, refl, Bool, true, false,
  ◌&&◌, List, [], ◌∷◌, ◌++◌, ap, arith, Option, none, some, ◌==◌, leb, if◌then◌else◌, Bool-cases,
  update, u32_mod,
}
use mathlib.Core.List.{append_assoc, append-nil}
use fnsproxy.Vector.{Vector, u32}
use fnsproxy.Vector.Items.{items, cells_from}
use fnsproxy.Range.{
  Low, Range, mem_move, delete_low, delete_part, delete_loop, delete, get, part_start, part_end,
}
use fnsproxy.Range.Lookup.{first_match, first_match-outside, Ascending, Ascending-widen}
use fnsproxy.Range.Place.{before, rearranged, cells_from-append}
use fnsproxy.Range.Scan.{IsOrdered}
use fnsproxy.Range.Insert.{IsRange, bucket_items, get-first_match, within}

abbrev pub is_exact : (s e : ℕ) → Low → Bool
is_exact s e x = s == x.start && e == x.end

-- Whether a list holds exactly this range, and the list without it.
unfoldable pub has_exact : (s e : ℕ) → List Low → Bool
has_exact s e [] = false
has_exact s e (x ∷ xs) = if is_exact s e x then true else has_exact s e xs

unfoldable pub remove_exact : (s e : ℕ) → List Low → List Low
remove_exact s e [] = []
remove_exact s e (x ∷ xs) = if is_exact s e x then xs else x ∷ remove_exact s e xs

module _ (s e : ℕ) where
  delete_low-items :
      (rounds i : ℕ) (v : Vector Low)
      → i + rounds ≡ v.count
      → items (delete_low s e rounds i v)
        ≡ before v i ++ remove_exact s e (cells_from v.cells i rounds)
  unfolding delete_low remove_exact
  delete_low-items zero i v h = let same : i ≡ v.count = omega arith in rw (append-nil, same)
  delete_low-items (suc rounds) i v h = elim (Bool-cases (is_exact s e (v.cells i))) [
    | inl hit ↦
        let moved = mem_move v.cells i (i + 1) (v.count - 1 - i) in
        let left : rounds ≡ v.count - 1 - i = omega arith in
        rw (hit, left)
          (rearranged v.cells moved i 0 (v.count - 1 - i) (v.count - 1) (λ j lt. ground arith)
            (λ j lt.
              let from : i + 1 + (i + 0 + j - i) ≡ i + 1 + j = omega arith in
              ground (arith, ap v.cells from))
            (omega arith))
    | inr miss ↦ rw miss (
        delete_low-items rounds (i + 1) v (omega arith)
        ∙ ap (λ xs. xs ++ remove_exact s e (cells_from v.cells (i + 1) rounds))
            (cells_from-append v.cells 0 i 1 i (omega arith))
        ∙ append_assoc (before v i) (v.cells i ∷ [])
            (remove_exact s e (cells_from v.cells (i + 1) rounds)))
  ]

  -- An exact range of an ascending list lies within its bounds.
  has_exact-above :
      (lo hi : ℕ) (xs : List Low) → Ascending lo hi xs → has_exact s e xs ≡ true → lo ≤ s
  unfolding has_exact
  has_exact-above lo hi [] a h = cc
  has_exact-above lo hi (x ∷ xs) a h = ground (arith, has_exact-above (x.end + 1) hi xs a.2)

  remove_exact-first_match :
      (lo hi : ℕ) (xs : List Low) (key : ℕ)
      → Ascending lo hi xs
      → first_match (remove_exact s e xs) key
        ≡ (if has_exact s e xs && within s e key then none else first_match xs key)
  unfolding remove_exact has_exact first_match
  remove_exact-first_match lo hi [] key a = refl
  remove_exact-first_match lo hi (x ∷ xs) key a = ground (
    arith,
    remove_exact-first_match (x.end + 1) hi xs key a.2,
    first_match-outside (x.end + 1) hi xs key a.2,
    has_exact-above (x.end + 1) hi xs a.2,
  )

  remove_exact-Ascending :
      (lo hi : ℕ) (xs : List Low) → Ascending lo hi xs → Ascending lo hi (remove_exact s e xs)
  unfolding remove_exact
  remove_exact-Ascending lo hi [] a = a
  remove_exact-Ascending lo hi (x ∷ xs) a = ground (
    arith,
    remove_exact-Ascending (x.end + 1) hi xs a.2,
    Ascending-widen lo (x.end + 1) hi xs (omega arith) a.2,
  )

count-delete_low :
    (s e rounds i : ℕ) (v : Vector Low)
    → let v' = delete_low s e rounds i v in
      (v'.count ≤ v.count) × (v'.slots ≡ v.slots) × (v'.size ≡ v.size)
unfolding delete_low
count-delete_low s e zero i v = omega arith
count-delete_low s e (suc rounds) i v = ground (arith, count-delete_low s e rounds (i + 1) v)

delete_low-IsOrdered :
    (s e : ℕ) (v : Vector Low) → IsOrdered v → IsOrdered (delete_low s e v.count 0 v)
delete_low-IsOrdered s e v o =
    let (fewer, slots, size) = count-delete_low s e v.count 0 v in
    record {
      roomy = record {
        valid = record {
          spare = omega (arith, o.roomy.valid.spare);
          element = omega (arith, o.roomy.valid.element);
          bytes = rw (slots, size) o.roomy.valid.bytes;
        };
        element = size ∙ o.roomy.element;
        slots = omega (arith, o.roomy.slots);
      };
      ascending =
          rw (delete_low-items s e v.count 0 v (omega arith))
            (remove_exact-Ascending s e 0 0x1_0000 (items v) o.ascending);
    }

delete_low-first_match :
    (s e : ℕ) (v : Vector Low) (key : ℕ)
    → IsOrdered v
    → first_match (items (delete_low s e v.count 0 v)) key
      ≡ (if has_exact s e (items v) && within s e key then none else first_match (items v) key)
delete_low-first_match s e v key o =
    rw (delete_low-items s e v.count 0 v (omega arith))
      (remove_exact-first_match s e 0 0x1_0000 (items v) key o.ascending)

delete_part-first_match :
    (s e : ℕ) (b : Option (Vector Low)) (key : ℕ)
    → ((v : Vector Low) → b ≡ some v → IsOrdered v)
    → first_match (bucket_items (delete_part s e b)) key ≡ (
        if has_exact s e (bucket_items b) && within s e key
        then none
        else first_match (bucket_items b) key)
delete_part-first_match s e none key o = unfold has_exact in refl
delete_part-first_match s e (some v) key o = delete_low-first_match s e v key (o v refl)

delete_part-IsOrdered :
    (s e : ℕ) (b : Option (Vector Low)) (v : Vector Low)
    → ((w : Vector Low) → b ≡ some w → IsOrdered w)
    → delete_part s e b ≡ some v
    → IsOrdered v
delete_part-IsOrdered s e none v o found = cc
delete_part-IsOrdered s e (some w) v o found =
    let same : delete_low s e w.count 0 w ≡ v = cc in
    rw (← same) (delete_low-IsOrdered s e w (o w refl))

module _ (start end : ℕ) where
  -- The loop over the buckets never ends where its start, moved to the last bucket, is not past the end.
  delete_loop-none :
      (fuel n : ℕ) (r : Range)
      → 0xffff_0000 + start % 2 ^ 16 ≤ end
      → end < u32_mod
      → n % 2 ^ 16 ≡ start % 2 ^ 16
      → n ≤ end
      → delete_loop fuel r n start end ≡ none
  unfolding delete_loop
  delete_loop-none zero n r big word at le = refl
  delete_loop-none (suc fuel) n r big word at le =
      let inside : leb n end ≡ true = ground arith in
      rw (inside, delete_loop)
        (delete_loop-none fuel (u32 (n + 0x1_0000)) _ big word (omega arith) (omega arith))

  -- A deletion with start ≤ end whose end lies in the last bucket, at or past the lower half of its start,
  -- never ends.
  pub delete_last_bucket :
      (fuel : ℕ) (r : Range)
      → start ≤ end
      → 0xffff_0000 + start % 2 ^ 16 ≤ end
      → end < u32_mod
      → delete fuel r start end ≡ none
  unfolding delete
  delete_last_bucket fuel r le big word = delete_loop-none fuel start r big word refl le

  -- Where the end's lower half is below the start's, the loop does not reach the end's bucket.
  delete_loop-missed :
      (fuel n : ℕ) (r r' : Range)
      → end % 2 ^ 16 < start % 2 ^ 16
      → n % 2 ^ 16 ≡ start % 2 ^ 16
      → delete_loop fuel r n start end ≡ some r'
      → r'.low (end / 2 ^ 16) ≡ r.low (end / 2 ^ 16)
  unfolding delete_loop
  delete_loop-missed zero n r r' below at e = cc
  delete_loop-missed (suc fuel) n r r' below at e = elim (Bool-cases (leb n end)) [
    | inr over ↦ ground arith
    | inl inside ↦
        let bucket = delete_part (part_start start n) (part_end end n) (r.low (n / 2 ^ 16)) in
        let r1 : Range = record r { low = update r.low (n / 2 ^ 16) bucket } in
        let le : n ≤ end = ground arith in
        ground (arith, delete_loop-missed fuel (u32 (n + 0x1_0000)) r1 r' below (omega arith))
  ]

  -- A deletion that ends, of a range whose end has the smaller lower half, leaves the bucket of the end
  -- as it was: the last part of the range stays.
  pub delete_missed_bucket :
      (fuel : ℕ) (r r' : Range)
      → end % 2 ^ 16 < start % 2 ^ 16
      → delete fuel r start end ≡ some r'
      → r'.low (end / 2 ^ 16) ≡ r.low (end / 2 ^ 16)
  unfolding delete
  delete_missed_bucket fuel r r' below e = delete_loop-missed fuel start r r' below refl e

-- The range has been inserted as a whole into its bucket.
abbrev pub is_stored : Range → (start end : ℕ) → Bool
is_stored r start end =
    has_exact (start % 2 ^ 16) (end % 2 ^ 16) (bucket_items (r.low (start / 2 ^ 16)))

module _ (r : Range) (start end : ℕ) (o : IsRange r) where
  delete_part-get :
      (key : ℕ)
      → start ≤ end
      → start / 2 ^ 16 ≡ end / 2 ^ 16
      → let bucket = delete_part (start % 2 ^ 16) (end % 2 ^ 16) (r.low (start / 2 ^ 16)) in
        get (record r { low = update r.low (start / 2 ^ 16) bucket }) key
        ≡ (if is_stored r start end && within start end key then r.def_ip else get r key)
  delete_part-get key le one =
      rw
        (
          get-first_match r key,
          get-first_match
              (record r {
                low =
                    update r.low (start / 2 ^ 16)
                      (delete_part (start % 2 ^ 16) (end % 2 ^ 16) (r.low (start / 2 ^ 16)));
              })
              key,
        )
        (elim (Bool-cases (key / 2 ^ 16 == start / 2 ^ 16)) [
          | inl here ↦
              let same : key / 2 ^ 16 ≡ start / 2 ^ 16 = ground arith in
              rw same (
                ground (
                  arith,
                  delete_part-first_match (start % 2 ^ 16) (end % 2 ^ 16) (r.low (start / 2 ^ 16))
                      (key % 2 ^ 16) (o (start / 2 ^ 16)),
                ))
          | inr other ↦ ground arith
        ])

  delete_part-IsRange :
      (s e h : ℕ) → IsRange (record r { low = update r.low h (delete_part s e (r.low h)) })
  delete_part-IsRange s e h k v found = elim (Bool-cases (k == h)) [
    | inl here ↦ delete_part-IsOrdered s e (r.low h) v (o h) (ground arith)
    | inr other ↦ o k v (ground arith)
  ]

  -- A deletion within one bucket ends after two rounds; it takes the answers of a range that was inserted
  -- with these bounds away, so that its keys get the default, changes no other answer, and nothing
  -- at all where there is no such range; the buckets stay in order.
  pub delete-get :
      (fuel : ℕ)
      → start ≤ end
      → start / 2 ^ 16 ≡ end / 2 ^ 16
      → end < 0xffff_0000
      → (r' : Range) × (delete (suc (suc fuel)) r start end ≡ some r')
        × IsRange r'
        × ((key : ℕ)
            → get r' key
              ≡ (if is_stored r start end && within start end key then r.def_ip else get r key))
  unfolding delete delete_loop
  delete-get fuel le one small = (
    record r {
      low =
          update r.low (start / 2 ^ 16)
            (delete_part (start % 2 ^ 16) (end % 2 ^ 16) (r.low (start / 2 ^ 16)));
    },
    ground arith,
    delete_part-IsRange (start % 2 ^ 16) (end % 2 ^ 16) (start / 2 ^ 16),
    λ key. delete_part-get key le one,
  )
