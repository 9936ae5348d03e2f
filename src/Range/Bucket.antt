-- ===== src/Range/Bucket.antt =====
-- What the loop of `range_insert` does to one bucket, on lists.
use fnsproxy.Base.{
  ℕ, ◌+◌, ◌*◌, ◌^◌, ◌≡◌, ◌≢◌, ◌⊎◌, inl, inr, ◌≤◌, ◌<◌, ◌∙◌, refl, Bool, List, [], ◌++◌, ap, arith,
  ◌==◌, Bool-cases,
}
use fnsproxy.Vector.{Vector, Status, ok, error, push}
use fnsproxy.Vector.Items.{items, pushed, push-cases, IsValid}
use fnsproxy.Range.{
  Low, low_size, invalid, add_after, split, shift_start, shift_end, with_room, place,
}
use fnsproxy.Range.Place.{
  placed, before, after, items-add_after, items-split, items-shift_start, items-shift_end,
  items-replace,
}

-- A vector of ranges, far from the bounds of its counters.
pub record IsRoomy (v : Vector Low) : Type 0 where
  pub valid : IsValid v
  pub element : v.size ≡ low_size
  pub slots : v.slots ≤ 2 ^ 18

pub pushed-IsRoomy :
    (grants : ℕ → Bool) (v : Vector Low) (x : Low)
    → IsRoomy v
    → v.count ≤ 0x1_0001
    → (push grants v x ≡ (error, v))
      ⊎ ((slots : ℕ) × (push grants v x ≡ (ok, pushed v slots x)) × IsRoomy (pushed v slots x))
pushed-IsRoomy grants v x roomy few =
    let bytes : v.slots * 2 * v.size ≡ v.slots * 16 =
      omega (arith, ap (λ (t : ℕ). v.slots * 2 * t) roomy.element) in
    let exact = push-cases grants v x roomy.valid (omega (arith, roomy.slots, bytes)) in
    elim (Bool-cases (v.count + 1 == v.slots)) [
      | inl full ↦ elim (Bool-cases (grants (v.slots * 2 * v.size))) [
        | inl granted ↦ inr (
          v.slots * 2,
          rw (exact, full, granted),
          record {
            valid = record {
              spare = ground arith;
              element = roomy.valid.element;
              bytes = omega (arith, roomy.slots, bytes);
            };
            element = roomy.element;
            slots = ground arith;
          },
        )
        | inr refused ↦ inl (rw (exact, full, refused))
      ]
      | inr spare ↦ inr (
        v.slots,
        rw (exact, spare),
        record {
          valid = record {
            spare = ground arith;
            element = roomy.valid.element;
            bytes = roomy.valid.bytes;
          };
          element = roomy.element;
          slots = roomy.slots;
        },
      )
    ]

-- A continuation that follows a push runs on the vector with one more element.
with_room-ok :
    (grants : ℕ → Bool) (v v' : Vector Low) (next : Vector Low → Status × Vector Low)
    → IsRoomy v
    → v.count ≤ 0x1_0001
    → with_room grants next v ≡ (ok, v')
    → (slots : ℕ) × (next (pushed v slots invalid) ≡ (ok, v')) × IsRoomy (pushed v slots invalid)
unfolding with_room
with_room-ok grants v v' next roomy few e = elim (pushed-IsRoomy grants v invalid roomy few) [
  | inl failed ↦ absurd (ground arith)
  | inr (slots, done, roomy') ↦ (slots, ground arith, roomy')
]

-- A vector in which `w`'s cells were written.
abbrev KeepsShape : Vector Low → Vector Low → Type 0
KeepsShape w w' = (w'.count ≡ w.count) × (w'.slots ≡ w.slots) × (w'.size ≡ w.size)

KeepsShape-IsRoomy : (w w' : Vector Low) → KeepsShape w w' → IsRoomy w → IsRoomy w'
KeepsShape-IsRoomy w w' k roomy = record {
  valid = record {
    spare = omega (arith, roomy.valid.spare);
    element = omega (arith, roomy.valid.element);
    bytes = rw (k.1, k.2) roomy.valid.bytes;
  };
  element = k.2 ∙ roomy.element;
  slots = omega (arith, roomy.slots);
}

-- One push, then stores.
one_push :
    (grants : ℕ → Bool) (v v' : Vector Low) (next : Vector Low → Vector Low) (xs : List Low)
    → IsRoomy v
    → v.count ≤ 0x1_0001
    → ((slots : ℕ) → items (next (pushed v slots invalid)) ≡ xs)
    → ((w : Vector Low) → KeepsShape w (next w))
    → with_room grants (λ w. (ok, next w)) v ≡ (ok, v')
    → (items v' ≡ xs) × IsRoomy v'
one_push grants v v' next xs roomy few shape keeps done =
    let (slots, made, roomy') = with_room-ok grants v v' (λ w. (ok, next w)) roomy few done in
    let same : next (pushed v slots invalid) ≡ v' = cc made in
    rw (← same) (shape slots, KeepsShape-IsRoomy _ _ (keeps (pushed v slots invalid)) roomy')

-- Two pushes, then stores.
two_pushes :
    (grants : ℕ → Bool) (v v' : Vector Low) (next : Vector Low → Vector Low) (xs : List Low)
    → IsRoomy v
    → v.count ≤ 0x1_0000
    → ((slots more : ℕ) → items (next (pushed (pushed v slots invalid) more invalid)) ≡ xs)
    → ((w : Vector Low) → KeepsShape w (next w))
    → with_room grants (with_room grants (λ w. (ok, next w))) v ≡ (ok, v')
    → (items v' ≡ xs) × IsRoomy v'
two_pushes grants v v' next xs roomy few shape keeps done =
    let (slots, made, roomy') =
      with_room-ok grants v v' (with_room grants (λ w. (ok, next w))) roomy (omega arith) done in
    one_push grants (pushed v slots invalid) v' next xs roomy' (omega arith) (shape slots) keeps
      made

module _ (grants : ℕ → Bool) (s e ip_addr : ℕ) (s_small : s ≤ 0xffff) (e_small : e ≤ 0xffff) where
  -- Where the loop body returns 0 at index `i`, it has put the new range in the place of the old.
  pub place-items :
      (v v' : Vector Low) (i : ℕ)
      → IsRoomy v
      → v.count ≤ 0x1_0000
      → i < v.count
      → (v.cells i).end ≤ 0xffff
      → place grants s e ip_addr i v ≡ (ok, v')
      → (items v' ≡ before v i ++ (placed s e ip_addr (v.cells i) ++ after v i))
        × IsRoomy v'
        × (placed s e ip_addr (v.cells i) ≢ [])
  unfolding place placed
  place-items v v' i roomy few inside met_small done = ground (
    arith,
    one_push grants v v' (add_after s e ip_addr i) _ roomy (omega arith)
        (items-add_after s e ip_addr v i inside) (λ w. unfold add_after in (refl, refl, refl)),
    items-replace s e ip_addr v i inside (record (v.cells i) { ip_addr = ip_addr }),
    λ (pos : 0 < s) (room : e < 0xffff).
        two_pushes grants v v' (split s e ip_addr i) _ roomy few
          (λ slots more. items-split s e ip_addr v i inside slots more pos s_small room)
          (λ w. unfold split in (refl, refl, refl)),
    λ (room : e < 0xffff).
        one_push grants v v' (shift_start s e ip_addr i) _ roomy (omega arith)
          (λ slots. items-shift_start s e ip_addr v i inside slots room)
          (λ w. unfold shift_start in (refl, refl, refl)),
    λ (pos : 0 < s).
        one_push grants v v' (shift_end s e ip_addr i) _ roomy (omega arith)
          (λ slots. items-shift_end s e ip_addr v i inside slots pos s_small)
          (λ w. unfold shift_end in (refl, refl, refl)),
  )
