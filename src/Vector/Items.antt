-- ===== src/Vector/Items.antt =====
-- The elements of a vector as a list, and what `vector_push` does to it.
use fnsproxy.Base.{
  ℕ, zero, suc, ◌+◌, ◌*◌, ◌≡◌, ◌⊎◌, inl, inr, ◌≤◌, ◌<◌, refl, Bool, false, List, [], ◌∷◌, ◌++◌, ap,
  arith, none, some, ◌==◌, Bool-cases, ltb, if◌then◌else◌, u32_mod, update, get_elem?,
}
use native.Mathlib.Numerals.{add-one}
use fnsproxy.Vector.{Vector, ok, error, new, set_at, push, get_at}

-- The `n` cells from `i` on.
abbrev pub cells_from {ℓ} : {A : Type ℓ} → (ℕ → A) → (i n : ℕ) → List A
cells_from f i zero = []
cells_from f i (suc n) = f i ∷ cells_from f (i + 1) n

abbrev pub items : {A : Type 0} → Vector A → List A
items v = cells_from v.cells 0 v.count

-- There is always a slot to spare, and the bytes of the slots can be counted.
pub record IsValid {A : Type 0} (v : Vector A) : Type 0 where
  pub spare : v.count < v.slots
  pub element : 0 < v.size
  pub bytes : v.slots * v.size < u32_mod

cells_from-update :
    {A : Type 0} (f : ℕ → A) (x : A) (i n j : ℕ)
    → i + n ≡ j
    → cells_from (update f j x) i (suc n) ≡ cells_from f i n ++ x ∷ []
cells_from-update f x i zero j e = let e' : i ≡ j = omega arith in ground arith
cells_from-update f x i (suc n) j e =
    ground (arith, cells_from-update f x (i + 1) n j (omega arith))

slots-le-bytes : (slots size : ℕ) → 0 < size → slots ≤ slots * size
slots-le-bytes slots size h = grind arith

-- The vector with one more element, in so many slots.
abbrev pub pushed : {A : Type 0} → Vector A → ℕ → A → Vector A
pushed v slots x = record v { slots = slots; cells = update v.cells v.count x; count = v.count + 1 }

pub items-pushed :
    {A : Type 0} (v : Vector A) (slots : ℕ) (x : A) → items (pushed v slots x) ≡ items v ++ x ∷ []
items-pushed v slots x = rw add-one (cells_from-update v.cells x 0 v.count v.count (omega arith))

module _ {A : Type 0} (grants : ℕ → Bool) (v : Vector A) (x : A) where
  set_at-room :
      v.count < v.slots
      → v.count + 1 < u32_mod
      → set_at grants v v.count x ≡ (ok, pushed v v.slots x)
  unfolding set_at
  set_at-room h small = ground arith

  -- The three ways of a push: into a spare slot, after doubling, and out of memory.
  pub push-cases :
      IsValid v
      → v.slots * 2 * v.size < u32_mod
      → push grants v x ≡ (
          if v.count + 1 == v.slots
          then (if grants (v.slots * 2 * v.size)
              then (ok, pushed v (v.slots * 2) x)
              else (error, v))
          else (ok, pushed v v.slots x))
  unfolding push
  push-cases valid small =
      ground (arith, valid.spare, valid.element, slots-le-bytes (v.slots * 2) v.size valid.element)

  -- A push on a valid vector, where doubling the slots does not overflow the byte count, either
  -- appends the element and keeps the vector valid, or fails and leaves the vector as it is; it fails
  -- only when the allocator refuses the doubled memory.
  pub push-items :
      IsValid v
      → v.slots * 2 * v.size < u32_mod
      → (let (s, v') = push grants v x in (s ≡ ok) × IsValid v' × (items v' ≡ items v ++ x ∷ []))
        ⊎ ((push grants v x ≡ (error, v)) × (grants (v.slots * 2 * v.size) ≡ false))
  push-items valid small = rw (push-cases valid small) (elim (Bool-cases (v.count + 1 == v.slots)) [
    | inl full ↦ elim (Bool-cases (grants (v.slots * 2 * v.size))) [
      | inl granted ↦
          rw (full, granted)
            (inl (
              refl,
              pushed-IsValid (v.slots * 2) (ground arith) small,
              items-pushed v (v.slots * 2) x,
            ))
      | inr refused ↦ rw (full, refused) (inr (refl, refl))
    ]
    | inr spare ↦
        rw spare
          (inl (refl, pushed-IsValid v.slots (ground arith) valid.bytes, items-pushed v v.slots x))
  ])
    where
      pushed-IsValid :
          (slots : ℕ) → v.count + 1 < slots → slots * v.size < u32_mod → IsValid (pushed v slots x)
      pushed-IsValid slots room bytes = record {
        spare = room;
        element = valid.element;
        bytes = bytes;
      }

get_elem?-cells_from :
    {A : Type 0} (f : ℕ → A) (i n j : ℕ)
    → get_elem? (cells_from f i n) j ≡ (if ltb j n then some (f (i + j)) else none)
get_elem?-cells_from f i zero j = ground arith
get_elem?-cells_from f i (suc n) zero = let e : i ≡ i + 0 = omega arith in ground (arith, ap f e)
get_elem?-cells_from f i (suc n) (suc j) =
    let e : i + 1 + j ≡ i + suc j = omega arith in
    ground (arith, get_elem?-cells_from f (i + 1) n j, ap f e)

module _ {A : Type 0} where
  -- At an index below the count `vector_get_at` returns the element there, and past the slots
  -- nothing. (Between them it returns memory that holds no element.)
  pub get_at-items :
      (v : Vector A) (i : ℕ)
      → IsValid v
      → (i < v.count → get_at v i ≡ get_elem? (items v) i) × (v.slots ≤ i → get_at v i ≡ none)
  unfolding get_at
  get_at-items v i valid = ground (arith, get_elem?-cells_from v.cells 0 v.count i)

  -- A new vector is valid and empty, if its bytes can be counted; no slots stand for 16.
  pub new-IsValid :
      (grants : ℕ → Bool) (slots size : ℕ) (zeroed : A) {v : Vector A}
      → 0 < size
      → (if slots == 0 then 16 else slots) * size < u32_mod
      → new grants slots size zeroed ≡ some v
      → IsValid v × (items v ≡ []) × (v.slots ≡ (if slots == 0 then 16 else slots))
  unfolding new
  new-IsValid grants slots size zeroed h small e = ground arith
