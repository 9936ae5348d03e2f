-- ===== src/Range/Release.antt =====
-- range.c: range_destroy and range_free, on the addresses of what they free.
use fnsproxy.Base.{ℕ, zero, suc, ◌+◌, List, [], ◌∷◌, ◌++◌, Option, none, some}
use fnsproxy.Memory.{Ptr}
use fnsproxy.Vector.Release
use fnsproxy.Vector.Release.{Header}

-- The address of `low`, and that of the vector of each bucket, with the vector.
pub record Blocks : Type 0 where
  pub buckets : Ptr
  pub low : ℕ → Option (Ptr × Header)

-- The loop of `range_destroy`, with some buckets left.
unfoldable pub destroy_from : (n i : ℕ) → Blocks → List Ptr
unfolding Release.free
destroy_from zero i r = []
destroy_from (suc n) i r =
    let rest = destroy_from n (i + 1) r in
    elim (r.low i) [ none ↦ rest | some (p, v) ↦ Release.free p v ++ rest ]

-- `range_destroy`
unfoldable pub destroy : Blocks → List Ptr
unfolding destroy_from
destroy r = destroy_from 0x1_0000 0 r ++ r.buckets ∷ []

-- `range_free`
unfoldable pub free : (address : Ptr) → Blocks → List Ptr
unfolding destroy
free address r = destroy r ++ address ∷ []
