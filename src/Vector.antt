-- ===== src/Vector.antt =====
-- vector.c: a growing array, and its iterator.
-- `cells` is the memory behind `data`, indexed by element: what it holds past the elements written so
-- far is whatever the allocator left there. `grants` says of a request's size in bytes whether
-- `calloc` or `realloc` serves it; a served `realloc` keeps the old elements.
pub mod Items
mod Tests
pub mod Iter
pub mod Release
pub mod Program
use fnsproxy.Base.{
  ℕ, zero, suc, ◌+◌, ◌*◌, ◌-◌, ◌/◌, ◌%◌, ◌^◌, Bool, true, false, not, ◌&&◌, ◌||◌, List, [], ◌∷◌,
  Option, none, some, ◌==◌, ltb, leb, if◌then◌else◌, u32_mod, update,
}

-- `unsigned int` results.
abbrev pub u32 : ℕ → ℕ
u32 n = n % u32_mod

abbrev pub pred_u32 : ℕ → ℕ
pred_u32 n = u32 (n + u32_mod - 1)

-- `vector_t`
pub record Vector (A : Type 0) : Type 0 where
  pub count : ℕ
  pub slots : ℕ
  pub size : ℕ
  pub cells : ℕ → A

-- 0, -1, and the rounds of a loop of the model used up.
pub data Status : Type 0 where
  ok error no_fuel : Status

module _ {A : Type 0} (grants : ℕ → Bool) where
  -- `vector_init`; `zeroed` is the element of zero bytes. `vector_new` adds the allocation of the
  -- structure, of 24 bytes.
  pub init : (slots size : ℕ) (zeroed : A) → Option (Vector A)
  init slots size zeroed =
      let n = if slots == 0 then 16 else slots in
      if grants (u32 (n * size))
      then some (record { count = 0; slots = n; size = size; cells = λ _. zeroed })
      else none

  unfoldable pub new : (slots size : ℕ) (zeroed : A) → Option (Vector A)
  unfolding init
  new slots size zeroed = if grants 24 then init slots size zeroed else none

  -- `vector_resize`
  pub resize : Vector A → Status × Vector A
  resize v =
      if grants (u32 (v.slots * 2 * v.size))
      then (ok, record v { slots = u32 (v.slots * 2) })
      else (error, v)

  -- The loop of `vector_set_at`.
  pub reserve : (fuel index : ℕ) → Vector A → Status × Vector A
  reserve zero index v = (no_fuel, v)
  reserve (suc fuel) index v = elim (leb v.slots index) [
    | false ↦ (ok, v)
    | true ↦
        let (s, v') = resize v in
        elim s [ ok ↦ reserve fuel index v' | error ↦ (error, v') | no_fuel ↦ (no_fuel, v') ]
  ]

  -- What `vector_set_at` does once there is room. The count grows for every index.
  abbrev pub store : (index : ℕ) → A → Status × Vector A → Status × Vector A
  store index x (ok, v) =
      (ok, record v { cells = update v.cells index x; count = u32 (v.count + 1) })
  store index x (error, v) = (error, v)
  store index x (no_fuel, v) = (no_fuel, v)

  -- `vector_set_at`. A positive number of slots reaches any index, or wraps to 0, in 33 rounds.
  pub set_at : Vector A → (index : ℕ) → A → Status × Vector A
  unfolding reserve resize
  set_at v index x = store index x (reserve 33 index v)

  -- `vector_push`
  unfoldable pub push : Vector A → A → Status × Vector A
  unfolding set_at resize
  push v x =
      if v.count == pred_u32 v.slots
      then (let (s, v') = resize v in
          elim s [ ok ↦ set_at v' v'.count x | error ↦ (error, v') | no_fuel ↦ (no_fuel, v') ])
      else set_at v v.count x

-- `vector_get_at`: what the pointer points at, or `NULL`.
pub get_at : {A : Type 0} → Vector A → ℕ → Option A
get_at v index = if leb v.slots index then none else some (v.cells index)
