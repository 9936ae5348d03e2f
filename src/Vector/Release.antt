-- ===== src/Vector/Release.antt =====
-- vector.c: vector_clear, vector_destroy and vector_free, and those of the iterator, on the structures as they
-- are in memory.
use fnsproxy.Base.{
  ℕ, ◌+◌, ◌-◌, ◌*◌, ◌/◌, ◌^◌, ◌≡◌, ◌≤◌, ◌<◌, refl, true, false, List, [], ◌∷◌, ◌++◌, ◌==◌, leb,
  if◌then◌else◌, arith,
}
use fnsproxy.Memory.{Ptr, null}
use fnsproxy.Vector.{u32}

-- The fields of `vector_t`, with the address of the data.
pub record Header : Type 0 where
  pub count : ℕ
  pub slots : ℕ
  pub size : ℕ
  pub elements : Ptr

-- `sizeof (vector_t)`: three words of 4 bytes, 4 bytes of padding, and the pointer.
abbrev pub header_size : ℕ
header_size = 24

-- A field of `width` bytes, the lowest first, after the first `n` bytes of the structure are zeroed.
unfoldable pub zeroed : (n offset width value : ℕ) → ℕ
zeroed n offset width value =
    if leb n offset
    then value
    else if leb (offset + width) n
    then 0
    else value / 2 ^ (8 * (n - offset)) * 2 ^ (8 * (n - offset))

-- The bytes that `vector_clear` zeroes.
abbrev pub cleared_bytes : Header → ℕ
cleared_bytes v = u32 (v.slots * v.size)

-- `vector_clear`: the structure, and the number of bytes behind it that are zeroed too.
unfoldable pub clear : Header → Header × ℕ
unfolding zeroed
clear v =
    let n = cleared_bytes v in
    (
      record {
        count = zeroed n 0 4 v.count;
        slots = zeroed n 4 4 v.slots;
        size = zeroed n 8 4 v.size;
        elements = zeroed n 16 8 v.elements;
      },
      n - header_size,
    )

-- `vector_destroy`: what is freed, and the structure.
unfoldable pub destroy : Header → List Ptr × Header
destroy v = (
  if v.elements == null then [] else v.elements ∷ [],
  record { count = 0; slots = 0; size = 0; elements = null },
)

-- `vector_free`
unfoldable pub free : (address : Ptr) → Header → List Ptr
unfolding destroy
free address v = (destroy v).0 ++ address ∷ []

-- The fields of `vector_iter_t`, with the addresses of the vector and of the element.
pub record IterHeader : Type 0 where
  pub pos : ℕ
  pub vec : Ptr
  pub element : Ptr

-- `vector_iter_destroy`: nothing is freed.
abbrev pub iter_destroy : IterHeader → IterHeader
iter_destroy it = record { pos = 0; vec = null; element = null }

-- `vector_iter_free`
abbrev pub iter_free : (address : Ptr) → IterHeader → List Ptr
iter_free address it = address ∷ []

zeroed_all :
    (n offset width value : ℕ)
    → offset < offset + width
    → offset + width ≤ n
    → zeroed n offset width value ≡ 0
unfolding zeroed
zeroed_all n offset width value some_bytes within =
    let after : leb n offset ≡ false = ground arith in
    let all : leb (offset + width) n ≡ true = ground arith in rw (after, all) refl

-- `vector_clear` of a vector with at least as many bytes of data as its structure has clears the structure and
-- not the data: the data is lost, for `vector_destroy` frees nothing then, and the bytes behind the
-- structure are zeroed.
pub clear-destroy :
    (v : Header)
    → header_size ≤ cleared_bytes v
    → ((destroy (clear v).0).0 ≡ [])
      × ((clear v).0 ≡ record { count = 0; slots = 0; size = 0; elements = null })
      × (header_size + (clear v).1 ≡ cleared_bytes v)
unfolding clear destroy
clear-destroy v h =
    let n = cleared_bytes v in
    let count_zero = zeroed_all n 0 4 v.count (omega arith) (omega arith) in
    let slots_zero = zeroed_all n 4 4 v.slots (omega arith) (omega arith) in
    let size_zero = zeroed_all n 8 4 v.size (omega arith) (omega arith) in
    let elements_zero = zeroed_all n 16 8 v.elements (omega arith) (omega arith) in
    (
      rw elements_zero refl,
      λ i. record {
        count = count_zero i;
        slots = slots_zero i;
        size = size_zero i;
        elements = elements_zero i;
      },
      omega arith,
    )
