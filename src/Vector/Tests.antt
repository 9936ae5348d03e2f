-- ===== src/Vector/Tests.antt =====
-- Runs of vector.c, and the theorems at concrete vectors.
use fnsproxy.Base.{ℕ, ◌+◌, ◌*◌, ◌≡◌, ◌⊎◌, refl, [], ◌∷◌, ◌++◌, Bool, true, false, arith, some}
use fnsproxy.Vector.{Vector, ok, error, new, push, set_at, resize, reserve, init}
use fnsproxy.Vector.Release.{Header, header_size, cleared_bytes, clear, destroy, clear-destroy}
use fnsproxy.Vector.Items.{IsValid, items, push-items}

abbrev granted : ℕ → Bool
granted bytes = true

-- Two slots, one of them used.
abbrev small : Vector ℕ
small = record { count = 1; slots = 2; size = 4; cells = λ i. i + 7 }

abbrev three : Vector ℕ
three = record { count = 3; slots = 4; size = 4; cells = λ i. i + 7 }

small-IsValid : IsValid small
small-IsValid = record { spare = omega arith; element = omega arith; bytes = omega arith }

push-small : (push granted small 9).1.slots ≡ 4
unfolding push set_at resize reserve
push-small = refl

push-items_example :
    ((push granted small 9).0 ≡ ok)
      × IsValid (push granted small 9).1
      × (items (push granted small 9).1 ≡ items small ++ 9 ∷ [])
    ⊎ ((push granted small 9 ≡ (error, small)) × (granted (2 * 2 * 4) ≡ false))
push-items_example = push-items granted small 9 small-IsValid (omega arith)

abbrev made : Vector ℕ
made = record { count = 0; slots = 16; size = 4; cells = λ _. 0 }

new-made : new granted 0 4 0 ≡ some made
unfolding new init
new-made = refl

-- A vector of four elements of 8 bytes, at 32 bytes of data.
abbrev header : Header
header = record { count = 2; slots = 4; size = 8; elements = 4096 }

clear-destroy_example :
    ((destroy (clear header).0).0 ≡ [])
    × ((clear header).0 ≡ record { count = 0; slots = 0; size = 0; elements = 0 })
    × (header_size + (clear header).1 ≡ cleared_bytes header)
clear-destroy_example = clear-destroy header (omega arith)

-- With one element of 6 bytes the size and the data are left.
cleared_partly :
    clear (record { count = 1; slots = 1; size = 6; elements = 4096 })
    ≡ (record { count = 0; slots = 0; size = 6; elements = 4096 }, 0)
unfolding clear
cleared_partly = refl
