-- ===== src/Vector/Program.antt =====
-- The test program of vector.c, from its `main`, as far as it asserts: `count` pushes of 4 bytes, and as many
-- reads. The source has 1000000 for the count.
use fnsproxy.Base.{
  ℕ, zero, suc, ◌+◌, ◌*◌, ◌≡◌, ◌≤◌, ◌<◌, refl, ap, subst, Bool, true, false, ◌&&◌, leb, Option,
  none, some, ◌==◌, arith, u32_mod, Bool-cases, inl, inr,
}
use fnsproxy.Vector.{Vector, new, push, get_at}
use fnsproxy.Vector.Items.{IsValid, pushed, push-cases}

-- The first loop; what `vector_push` returns is not tested.
unfoldable pub fill : (grants : ℕ → Bool) (n i : ℕ) → Vector ℕ → Vector ℕ
fill grants zero i v = v
fill grants (suc n) i v = fill grants n (i + 1) (push grants v i).1

-- `assert (*value == i)`; through `NULL` nothing is read.
abbrev pub holds : Option ℕ → ℕ → Bool
holds none i = false
holds (some value) i = value == i

-- The second loop.
unfoldable pub check : (n i : ℕ) → Vector ℕ → Bool
check zero i v = true
check (suc n) i v = let further = check n (i + 1) v in holds (get_at v i) i && further

-- Whether the assertions of `main` hold; a vector that is not allocated is written through `NULL`.
unfoldable pub main : (grants : ℕ → Bool) (count : ℕ) → Bool
unfolding fill check
main grants count = elim (new grants 32 4 0) [
  | none ↦ false
  | some v ↦ check count 0 (fill grants count 0 v)
]

-- The vector holds the numbers below `i`.
pub record IsFilled (v : Vector ℕ) (i : ℕ) : Type 0 where
  pub valid : IsValid v
  pub count : v.count ≡ i
  pub size : v.size ≡ 4
  pub slots : v.slots ≤ 2 * i + 32
  pub cells : (j : ℕ) → j < i → v.cells j ≡ j

-- An allocator that serves every request.
abbrev pub granted : ℕ → Bool
granted bytes = true

pushed-IsFilled :
    (v : Vector ℕ) (i slots : ℕ)
    → IsFilled v i
    → i + 1 < slots
    → slots * 4 < u32_mod
    → slots ≤ 2 * (i + 1) + 32
    → IsFilled (pushed v slots i) (i + 1)
pushed-IsFilled v i slots f room bytes most = record {
  valid = record {
    spare = omega (arith, f.count);
    element = f.valid.element;
    bytes = rw f.size bytes;
  };
  count = omega (arith, f.count);
  size = f.size;
  slots = most;
  cells = λ j lt. elim (Bool-cases (j == v.count)) [
    | inl hit ↦ ground (arith, f.count)
    | inr miss ↦ ground (arith, f.count, f.cells j)
  ];
}

push-IsFilled :
    (v : Vector ℕ) (i : ℕ) → IsFilled v i → i < 0xfff_0000 → IsFilled (push granted v i).1 (i + 1)
push-IsFilled v i f few =
    let bytes : v.slots * 2 * v.size ≡ v.slots * 8 = rw f.size (omega arith) in
    let full_count : v.count ≡ i = f.count in
    rw (push-cases granted v i f.valid (omega (arith, bytes, f.slots)))
      (elim (Bool-cases (v.count + 1 == v.slots)) [
        | inl full ↦ rw full (
            pushed-IsFilled v i (v.slots * 2) f (ground arith) (omega (arith, f.slots))
              (ground arith))
        | inr spare ↦ rw spare (
            pushed-IsFilled v i v.slots f (ground (arith, f.valid.spare)) (omega (arith, f.slots))
              (omega (arith, f.slots)))
      ])

fill-IsFilled :
    (n i : ℕ) (v : Vector ℕ)
    → IsFilled v i
    → i + n ≤ 0xfff_0000
    → IsFilled (fill granted n i v) (i + n)
unfolding fill
fill-IsFilled zero i v f few = subst (IsFilled v) (omega arith) f
fill-IsFilled (suc n) i v f few =
    subst (IsFilled (fill granted n (i + 1) (push granted v i).1)) (omega arith) (
      fill-IsFilled n (i + 1) (push granted v i).1 (push-IsFilled v i f (omega arith))
        (omega arith))

check-IsFilled :
    (n i total : ℕ) (v : Vector ℕ) → IsFilled v total → i + n ≤ total → check n i v ≡ true
unfolding check get_at
check-IsFilled zero i total v f few = refl
check-IsFilled (suc n) i total v f few =
    let inside : leb v.slots i ≡ false = ground (arith, f.valid.spare, f.count) in
    let here : get_at v i ≡ some i = rw inside (ap some (f.cells i (omega arith))) in
    let further = check-IsFilled n (i + 1) total v f (omega arith) in
    rw (here, further, check) (ground arith)

-- The assertions of the program hold for every count up to 0xfff0000, where memory is granted.
pub main-holds : (count : ℕ) → count ≤ 0xfff_0000 → main granted count ≡ true
unfolding main new
main-holds count few =
    let v : Vector ℕ = record { count = 0; slots = 32; size = 4; cells = λ _. 0 } in
    let start : IsFilled v 0 = record {
      valid = record { spare = omega arith; element = omega arith; bytes = omega arith };
      count = refl;
      size = refl;
      slots = omega arith;
      cells = λ j lt. absurd (omega arith);
    } in
    check-IsFilled count 0 (0 + count) (fill granted count 0 v)
      (fill-IsFilled count 0 v start (omega arith)) (omega arith)
