-- ===== src/Range/Merge.antt =====
-- The lists that the branches of `range_insert` leave: what they answer, and their order.
use fnsproxy.Base.{
  ℕ, ◌+◌, ◌≡◌, ◌≢◌, ◌≤◌, ◌&&◌, List, [], ◌∷◌, ◌++◌, arith, some, leb, if◌then◌else◌,
}
use fnsproxy.Range.{Low}
use fnsproxy.Range.Lookup.{
  first_match, first_match-append, first_match-outside, Ascending, Ascending-append,
}
use fnsproxy.Range.Place.{placed}

-- The answers of `xs` with those for the keys from `s` to `e` replaced.
abbrev pub Answers : (s e ip_addr : ℕ) → (new old : List Low) → Type 0
Answers s e ip_addr new old =
    (key : ℕ)
    → first_match new key ≡ (if leb s key && leb key e then some ip_addr else first_match old key)

module _ (s e ip_addr hi : ℕ) (nonempty : s ≤ e) where
  pub placed-Answers :
      (pre post : List Low) (met : Low)
      → Ascending 0 met.start pre
      → met.start ≤ met.end
      → Ascending (met.end + 1) hi post
      → Ascending (e + 1) hi post
      → met.start ≤ e
      → placed s e ip_addr met ≢ []
      → Answers s e ip_addr (pre ++ (placed s e ip_addr met ++ post)) (pre ++ (met ∷ post))
  unfolding placed first_match
  placed-Answers pre post met before inside after above meets ne key = ground (
    arith,
    first_match-append pre (placed s e ip_addr met ++ post) key,
    first_match-append (placed s e ip_addr met) post key,
    first_match-append pre (met ∷ post) key,
    first_match-outside 0 met.start pre key before,
    first_match-outside (met.end + 1) hi post key after,
    first_match-outside (e + 1) hi post key above,
  )

  pub placed-Ascending :
      (pre post : List Low) (met : Low)
      → Ascending 0 met.start pre
      → met.start ≤ met.end
      → Ascending (met.end + 1) hi post
      → Ascending (e + 1) hi post
      → placed s e ip_addr met ≢ []
      → Ascending 0 hi (pre ++ (placed s e ip_addr met ++ post))
  unfolding placed
  placed-Ascending pre post met before inside after above ne =
      Ascending-append 0 met.start hi pre (placed s e ip_addr met ++ post) before (ground arith)
