-- ===== src/Vector/Iter.antt =====
-- The iterator of vector.c. `data` is the index that the iterator's pointer points at, `none` for `NULL`.
use fnsproxy.Base.{
  ℕ, zero, suc, ◌+◌, ◌-◌, ◌≡◌, ◌≤◌, ◌<◌, Bool, true, false, List, [], ◌∷◌, ap, arith, Option, none,
  some, ◌==◌, if◌then◌else◌, u32_mod, ◌&&◌,
}
use fnsproxy.Vector.{Vector, u32, pred_u32}
use fnsproxy.Vector.Items.{cells_from, items}

-- `vector_iter_t`
pub record Iter (A : Type 0) : Type 0 where
  pub pos : ℕ
  pub vec : Vector A
  pub cell : Option ℕ

abbrev pub is_none : Option ℕ → Bool
is_none none = true
is_none (some i) = false

module _ {A : Type 0} where
  -- `vector_iter_next`: whether it returned 0, and the iterator.
  pub next : Iter A → Bool × Iter A
  next it =
      if it.pos == pred_u32 it.vec.count
      then (false, it)
      else if is_none it.cell && it.pos == 0
      then (true, record it { cell = some 0 })
      else (true, record it { pos = u32 (it.pos + 1); cell = some (u32 (it.pos + 1)) })

  -- `vector_iter_begin` and `vector_iter_end`
  pub begin : Iter A → Bool
  begin it = it.pos == 0

  pub end : Iter A → Bool
  end it = it.pos == pred_u32 it.vec.count

  -- `vector_iter_prev`
  pub prev : Iter A → Bool × Iter A
  unfolding begin
  prev it =
      if begin it
      then (false, it)
      else (true, record it { pos = it.pos - 1; cell = some (it.pos - 1) })

  -- `vector_iter_init`
  pub init : Vector A → Bool × Iter A
  unfolding next
  init v = next (record { pos = 0; vec = v; cell = none })

  -- `vector_iter_new`, where the allocation of the structure succeeds.
  pub new : Vector A → Option (Iter A)
  unfolding init
  new v = let (done, it) = init v in if done then some it else none

  -- `vector_iter_reset`: the iterator is emptied, and initialised anew on the vector it had.
  pub reset : Iter A → Iter A
  unfolding init
  reset it = (init it.vec).1

  -- The documented loop, `do visit (iter->data) while (vector_iter_next (iter) == 0)`, with the
  -- elements visited in order; `none` means that the fuel ran out.
  pub walk : (fuel : ℕ) → Iter A → Option (List A)
  walk zero it = none
  walk (suc fuel) it =
      let (more, it') = next it in
      let rest = walk fuel it' in
      let here = it.vec.cells it.pos in
      if more then elim rest [ none ↦ none | some xs ↦ some (here ∷ xs) ] else some (here ∷ [])

  walk-items :
      (v : Vector A) (n fuel i : ℕ)
      → v.count < u32_mod
      → i + suc n ≡ v.count
      → n < fuel
      → walk fuel (record { pos = i; vec = v; cell = some i }) ≡ some (cells_from v.cells i (suc n))
  unfolding walk next
  walk-items v n zero i small e h = absurd (omega arith)
  walk-items v zero (suc fuel) i small e h = ground arith
  walk-items v (suc n) (suc fuel) i small e h = ground (arith, walk-items v n fuel (i + 1) small)

  -- On a vector of two elements or more the iterator starts, and the loop visits the elements in order,
  -- each once.
  pub walk-new :
      (v : Vector A) (fuel : ℕ)
      → 1 < v.count
      → v.count < u32_mod
      → v.count ≤ fuel
      → (it : Iter A) × (new v ≡ some it) × (walk fuel it ≡ some (items v))
  unfolding new
  walk-new v fuel two small h =
      let e : suc (v.count - 1) ≡ v.count = omega arith in
      (
        record { pos = 0; vec = v; cell = some 0 },
        ground arith,
        ground (
          arith,
          walk-items v (v.count - 1) fuel 0 small (omega arith) (omega arith),
          ap (cells_from v.cells 0) e,
        ),
      )

  -- On a vector of one element no iterator is made; on an empty one it is, and stands on a cell that
  -- holds no element.
  pub new-short :
      (v : Vector A)
      → (v.count ≡ 1 → new v ≡ none)
        × (v.count ≡ 0 → new v ≡ some (record { pos = 0; vec = v; cell = some 0 }))
  unfolding new
  new-short v = ground arith
