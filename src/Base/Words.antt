-- ===== src/Base/Words.antt =====
-- Unsigned words as native numbers.
use Prim.Native.Nat.{ℕ, ◌/◌, ◌%◌, ◌^◌}
use mathlib.Core.Bool.{Bool}
use fnsproxy.Base.Tests.{◌==◌}

abbrev pub u32_mod : ℕ
u32_mod = 2 ^ 32

-- `(word & bit) != 0` for a `bit` that is a power of two, or 0 (which has no bits): native
-- division by 0 is 0.
unfoldable pub has_bit : ℕ → ℕ → Bool
has_bit word bit = (word / bit) % 2 == 1

-- `0x80000000`, where the loops over the bits of an address start.
abbrev pub top_bit : ℕ
top_bit = 0x8000_0000
