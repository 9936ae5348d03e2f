-- ===== src/Geo/Explode.antt =====
-- `str_explode`: it always ends, and it finds the two words of a line.
use fnsproxy.Base.{
  ℕ, zero, suc, ◌+◌, ◌-◌, ◌≡◌, ◌≤◌, ◌<◌, ◌⊎◌, refl, Bool, true, false, not, ◌&&◌, arith, List, [],
  ◌∷◌, ◌++◌, Option, none, some, inl, inr, Option-cases, Text, length,
}
use fnsproxy.Geo.{
  Separators, is_separator, skip_separators, token, after_token, trim_end, explode_from,
  str_explode,
}

-- Whether each byte of a text is a separator, or none is.
unfoldable pub all_separators : (ℕ → Bool) → Text → Bool
all_separators is_sep [] = true
all_separators is_sep (c ∷ rest) = is_sep c && all_separators is_sep rest

unfoldable pub is_word : (ℕ → Bool) → Text → Bool
is_word is_sep [] = true
is_word is_sep (c ∷ rest) = not (is_sep c) && is_word is_sep rest

-- The fields were found, no more than there is room for; the first one is always stored.
abbrev pub IsExploded : (room : ℕ) → Option (List Text) → Type 0
IsExploded room none = ⊥
IsExploded room (some fields) = (length fields ≤ room) ⊎ (length fields ≤ 1)

List-cases : (t : Text) → (t ≡ []) ⊎ ((c : ℕ) × (rest : Text) × (t ≡ c ∷ rest))
List-cases [] = inl refl
List-cases (c ∷ rest) = inr (c, rest, refl)

module _ (is_sep : ℕ → Bool) where
  length-skip_separators : (t : Text) → length (skip_separators is_sep t) ≤ length t
  unfolding skip_separators
  length-skip_separators [] = omega arith
  length-skip_separators (c ∷ t) = ground (arith, length-skip_separators t)

  length-after_token : (t : Text) → length (after_token is_sep t) ≤ length t
  unfolding after_token
  length-after_token [] = omega arith
  length-after_token (c ∷ t) = ground (arith, length-after_token t)

  explode_from-IsExploded :
      (fuel : ℕ) (text : Text) (room : ℕ)
      → length text < fuel
      → IsExploded room (explode_from is_sep fuel text room)
  unfolding explode_from after_token
  explode_from-IsExploded zero text room h = absurd (omega arith)
  explode_from-IsExploded (suc fuel) text room h = elim (List-cases (skip_separators is_sep text)) [
    | inl empty ↦ rw (empty, explode_from) (ground arith)
    | inr (c, rest, some_left) ↦ elim (List-cases (after_token is_sep (c ∷ rest))) [
      | inl last ↦ ground (arith, some_left, last)
      | inr (sep, later, more) ↦
          let shorter : length (sep ∷ later) ≤ length (c ∷ rest) =
            rw (more) at (length-after_token (c ∷ rest)) in
          let less : length (c ∷ rest) ≤ length text =
            rw (some_left) at (length-skip_separators text) in
          let done = explode_from-IsExploded fuel later (room - 1) (omega (arith, shorter, less)) in
          elim (Option-cases (explode_from is_sep fuel later (room - 1))) [
            | inl stuck ↦ absurd (rw (stuck) at done)
            | inr (fields, found) ↦
                let few : (length fields ≤ room - 1) ⊎ (length fields ≤ 1) = rw found at done in
                ground (arith, some_left, more, found, few)
          ]
    ]
  ]

  skip-all :
      (s t : Text)
      → all_separators is_sep s ≡ true
      → skip_separators is_sep (s ++ t) ≡ skip_separators is_sep t
  unfolding all_separators skip_separators
  skip-all [] t h = refl
  skip-all (c ∷ s) t h = ground (arith, skip-all s t)

  trim_end-all : (s : Text) → all_separators is_sep s ≡ true → trim_end is_sep s ≡ []
  unfolding all_separators trim_end
  trim_end-all [] h = refl
  trim_end-all (c ∷ s) h = ground (arith, trim_end-all s)

  trim_end-word :
      (w s : Text)
      → is_word is_sep w ≡ true
      → all_separators is_sep s ≡ true
      → trim_end is_sep (w ++ s) ≡ w
  unfolding is_word trim_end
  trim_end-word [] s h hs = trim_end-all s hs
  trim_end-word (c ∷ w) s h hs = ground (arith, trim_end-word w s)

  token-word :
      (w : Text) (b : ℕ) (s : Text)
      → is_word is_sep w ≡ true
      → is_sep b ≡ true
      → (token is_sep (w ++ b ∷ s) ≡ w) × (after_token is_sep (w ++ b ∷ s) ≡ b ∷ s)
  unfolding is_word token after_token
  token-word [] b s h hb = ground arith
  token-word (c ∷ w) b s h hb = ground (arith, token-word w b s)

module _ (is_sep : ℕ → Bool) where
  skip-word :
      (lead : Text) (k : ℕ) (t : Text)
      → all_separators is_sep lead ≡ true
      → is_sep k ≡ false
      → skip_separators is_sep (lead ++ k ∷ t) ≡ k ∷ t
  unfolding skip_separators
  skip-word lead k t h hk = ground (arith, skip-all is_sep lead (k ∷ t) h)

  explode_last :
      (fuel : ℕ) (gap : Text) (v : ℕ) (value tail : Text)
      → 0 < fuel
      → all_separators is_sep gap ≡ true
      → is_word is_sep (v ∷ value) ≡ true
      → all_separators is_sep tail ≡ true
      → explode_from is_sep fuel (gap ++ v ∷ (value ++ tail)) 1 ≡ some ((v ∷ value) ∷ [])
  unfolding explode_from is_word
  explode_last zero gap v value tail pos hg hv ht = absurd (omega arith)
  explode_last (suc fuel) gap v value tail pos hg hv ht =
      ground
        (arith, skip-word gap v (value ++ tail) hg, trim_end-word is_sep (v ∷ value) tail hv ht)

  explode_two :
      (fuel : ℕ) (lead : Text) (k : ℕ) (key : Text) (b : ℕ) (rest : Text) (value : Text)
      → all_separators is_sep lead ≡ true
      → is_word is_sep (k ∷ key) ≡ true
      → is_sep b ≡ true
      → explode_from is_sep fuel rest 1 ≡ some (value ∷ [])
      → explode_from is_sep (suc fuel) (lead ++ k ∷ (key ++ b ∷ rest)) 2
        ≡ some ((k ∷ key) ∷ value ∷ [])
  unfolding explode_from is_word
  explode_two fuel lead k key b rest value hl hk hb last =
      let (first, after) = token-word is_sep (k ∷ key) b rest hk hb in
      ground (arith, skip-word lead k (key ++ b ∷ rest) hl, first, after, last)

pos_length : (s : Text) (c : ℕ) (t : Text) → 0 < length (s ++ c ∷ t)
pos_length [] c t = omega arith
pos_length (a ∷ s) c t = omega arith

-- Splitting a text always ends, and finds at most as many fields as there is room for (at least one).
pub str_explode-IsExploded :
    (ifs : Separators) (text : Text) (n : ℕ) → IsExploded n (str_explode ifs text n)
unfolding str_explode
str_explode-IsExploded ifs text n =
    explode_from-IsExploded (is_separator ifs) (length text + 1) text n (omega arith)

-- Two words, with separators before, between and after them, are the two fields of a line.
pub str_explode-words :
    (ifs : Separators) (lead key gap value tail : Text) (k v b : ℕ)
    → all_separators (is_separator ifs) lead ≡ true
    → is_word (is_separator ifs) (k ∷ key) ≡ true
    → all_separators (is_separator ifs) (b ∷ gap) ≡ true
    → is_word (is_separator ifs) (v ∷ value) ≡ true
    → all_separators (is_separator ifs) tail ≡ true
    → str_explode ifs (lead ++ k ∷ (key ++ b ∷ (gap ++ v ∷ (value ++ tail)))) 2
      ≡ some ((k ∷ key) ∷ (v ∷ value) ∷ [])
unfolding str_explode all_separators
str_explode-words ifs lead key gap value tail k v b h1 h2 h3 h4 h5 =
    let is_sep = is_separator ifs in
    let text = lead ++ k ∷ (key ++ b ∷ (gap ++ v ∷ (value ++ tail))) in
    let pos = pos_length lead k (key ++ b ∷ (gap ++ v ∷ (value ++ tail))) in
    let fuel : length text + 1 ≡ suc (length text) = omega arith in
    rw fuel (
      explode_two is_sep (length text) lead k key b (gap ++ v ∷ (value ++ tail)) (v ∷ value) h1 h2
        (ground (arith, h3))
        (explode_last is_sep (length text) gap v value tail pos (ground (arith, h3)) h4 h5))
