-- ===== src/Geo/Load.antt =====
-- `geo_load`: files of settings, with `include`, line by line.
-- `open_file` gives the lines that `fgets` reads, in pieces of at most 1023 bytes, or nothing where
-- `fopen` fails. Every piece has a byte; where it starts with a 0, `buf[n - 1]` is out of bounds, and
-- the model leaves the byte before the buffer alone. The calls of `geo_unload` are counted.
pub mod Bounded
use fnsproxy.Base.{
  ℕ, zero, suc, ◌≡◌, ◌⊎◌, refl, Bool, true, not, ◌&&◌, ◌||◌, ◌==◌, arith, List, [], ◌∷◌, Option,
  none, some, if◌then◌else◌, inl, inr, Bool-cases, Option-cases, Text, codes, same_text,
}
use fnsproxy.Radix
use fnsproxy.Radix.{Tree}
use fnsproxy.Radix.Find.{IsShallow}
use fnsproxy.Radix.Height.{create-IsShallow, insert-IsShallow, delete-IsShallow}
use fnsproxy.Range
use fnsproxy.Geo.{
  Status, ok, error, no_fuel, Geo, by_range, by_cidr, blanks, skip_separators, str_explode, retry,
  parse_cidr, geo_parse_range, geo_parse_cidr, set_cidr,
}

abbrev pub geo_range : ℕ
geo_range = 0

abbrev pub geo_cidr : ℕ
geo_cidr = 1

-- What a load ends with: the settings, or `NULL` after so many calls of `geo_unload` on them.
pub data Loaded : Type 0 where
  loaded : Geo → Loaded
  failed : (unloads : ℕ) → Loaded
  out_of_fuel : Loaded

-- A piece without its line break.
unfoldable pub chomp : Text → Text
chomp [] = []
chomp (c ∷ []) = if c == 10 then [] else c ∷ []
chomp (c ∷ d ∷ rest) = c ∷ chomp (d ∷ rest)

-- `p`: the line from its first byte that is neither a space nor a tab.
unfoldable pub stripped : Text → Text
unfolding chomp
stripped line = skip_separators (λ c. c == 32 || c == 9) (chomp line)

-- Whether nothing is left of a line, or it is a comment.
unfoldable pub is_skipped : Text → Bool
is_skipped [] = true
is_skipped (c ∷ []) = c == b'#'
is_skipped (c ∷ d ∷ rest) = c == b'#' || c == b'/' && d == b'/'

-- What a line asks for.
pub data Request : Type 0 where
  skip malformed endless : Request
  entry : (key value : Text) → Request

unfoldable pub request : Text → Request
unfolding stripped is_skipped
request line =
    if is_skipped (stripped line) then skip else elim (str_explode blanks (stripped line) 2) [
      | none ↦ endless
      | some [] ↦ malformed
      | some (a ∷ []) ↦ malformed
      | some (a ∷ b ∷ []) ↦ entry a b
      | some (a ∷ b ∷ c ∷ more) ↦ malformed
    ]

module _ (inet_aton : Text → Option ℕ) (atoi : Text → ℕ) (grants : ℕ → Bool) (rounds mem : ℕ) where
  -- `geo_parse_range` or `geo_parse_cidr`, by the mode of the settings.
  unfoldable pub add_entry : Geo → (key value : Text) → Status × Geo
  add_entry (by_range r) key value =
      let (st, r') = geo_parse_range inet_aton atoi grants rounds r key value in (st, by_range r')
  add_entry (by_cidr t) key value =
      let (st, t') = geo_parse_cidr inet_aton atoi mem t key value in (st, by_cidr t')

  -- The loop over the lines. A failed line unloads the settings, and so does a failed `include`.
  unfoldable pub load_lines : (include : Geo → Text → Loaded) → List Text → Geo → Loaded
  unfolding request add_entry
  load_lines include [] g = loaded g
  load_lines include (line ∷ rest) g = elim (request line) [
    | skip ↦ load_lines include rest g
    | malformed ↦ failed 1
    | endless ↦ out_of_fuel
    | entry key value ↦
        if same_text key (codes "include")
        then elim (include g value) [
          | loaded g' ↦ load_lines include rest g'
          | failed n ↦ failed (suc n)
          | out_of_fuel ↦ out_of_fuel
        ]
        else let (st, g') = add_entry g key value in
          elim st [ ok ↦ load_lines include rest g' | error ↦ failed 1 | no_fuel ↦ out_of_fuel ]
  ]

  module _ (include : Geo → Text → Loaded) (line name : Text) (rest : List Text) (g : Geo)
      (asks : request line ≡ entry (codes "include") name) where
    include_endless :
        include g name ≡ out_of_fuel → load_lines include (line ∷ rest) g ≡ out_of_fuel
    unfolding load_lines same_text
    include_endless e = rw (asks, e, load_lines, request) refl

  module _ (open_file : Text → Option (List Text)) where
    -- `geo_load` with settings to add to; the fuel bounds how deep files include files.
    unfoldable pub load_file : (fuel : ℕ) → Geo → Text → Loaded
    unfolding load_lines
    load_file zero g filename = out_of_fuel
    load_file (suc fuel) g filename = elim (open_file filename) [
      | none ↦ failed 0
      | some lines ↦ load_lines (load_file fuel) lines g
    ]

    -- `geo_load` where the settings are `NULL`: they are made first. 16 bytes are the structure.
    unfoldable pub load : (fuel : ℕ) → (filename : Option Text) → (geo_mode : ℕ) → Loaded
    unfolding load_file
    load fuel none geo_mode = failed 0
    load fuel (some filename) geo_mode =
        if not (geo_mode == geo_range) && not (geo_mode == geo_cidr)
        then failed 0
        else if not (grants 16)
        then failed 0
        else if geo_mode == geo_range
        then elim (Range.create grants) [
          | none ↦ failed 0
          | some r ↦ load_file fuel (by_range r) filename
        ]
        else elim (Radix.create mem) [
          | none ↦ failed 0
          | some t ↦ load_file fuel (by_cidr t) filename
        ]

    -- A file that includes itself in its first line is never loaded: the calls nest without end,
    -- whatever the depth that is granted.
    pub load_file_endless :
        (name line : Text) (rest : List Text)
        → open_file name ≡ some (line ∷ rest)
        → request line ≡ entry (codes "include") name
        → (fuel : ℕ) (g : Geo) → load_file fuel g name ≡ out_of_fuel
    unfolding load_file load_lines
    load_file_endless name line rest opened asks zero g = refl
    load_file_endless name line rest opened asks (suc fuel) g =
        let deeper = load_file_endless name line rest opened asks fuel g in
        rw (opened, load_file) (include_endless (load_file fuel) line name rest g asks deeper)
