-- ===== src/Geo.antt =====
-- geo.c: the settings file, by range or by CIDR.
-- `inet_aton` gives an address in host order, or nothing where it returns 0; `atoi` gives the `uint32_t`
-- that its result is stored to; both are parameters, as is `open_file`, which gives what `fgets`
-- reads, line by line. `grants` and `rounds` are those of range.c, and `mem` is the number of
-- allocations that each insertion into the trie is granted.
pub mod Explode
pub mod Cidr
pub mod Load
pub mod Ranges
pub mod Release
pub mod Table
mod Tests
use fnsproxy.Base.{
  ℕ, zero, suc, ◌+◌, ◌*◌, ◌-◌, ◌/◌, ◌%◌, ◌^◌, Bool, true, false, not, ◌&&◌, ◌||◌, List, [], ◌∷◌,
  Option, none, some, ◌==◌, ltb, leb, if◌then◌else◌, u32_mod, Text, codes, same_text, split_at,
  length,
}
use fnsproxy.Radix
use fnsproxy.Radix.{Tree}
use fnsproxy.Range
use fnsproxy.Range.{Range, invalid_ip_addr}
use fnsproxy.Vector

-- What the functions return: 0 or -1; `no_fuel` belongs to the model.
pub data Status : Type 0 where
  ok error no_fuel : Status

-- The table of separators of `str_explode`: `default_ifs`, the bytes of a string, or a table.
pub data Separators : Type 0 where
  blanks : Separators
  bytes : Text → Separators
  table : (ℕ → Bool) → Separators

unfoldable pub contains : Text → ℕ → Bool
contains [] c = false
contains (a ∷ rest) c = a == c || contains rest c

unfoldable pub is_separator : Separators → ℕ → Bool
unfolding contains
is_separator blanks c = c == 9 || c == 10 || c == 13 || c == 32
is_separator (bytes text) c = contains text c
is_separator (table f) c = f c

module _ (is_sep : ℕ → Bool) where
  -- The loops of `str_explode` over the bytes of a field, and over separators.
  unfoldable pub skip_separators : Text → Text
  skip_separators [] = []
  skip_separators (c ∷ rest) =
      let further = skip_separators rest in if is_sep c then further else c ∷ rest

  unfoldable pub token : Text → Text
  token [] = []
  token (c ∷ rest) = if is_sep c then [] else c ∷ token rest

  unfoldable pub after_token : Text → Text
  after_token [] = []
  after_token (c ∷ rest) = let further = after_token rest in if is_sep c then c ∷ rest else further

  -- The last field, less the separators at its end.
  unfoldable pub trim_end : Text → Text
  trim_end [] = []
  trim_end (c ∷ rest) = elim (trim_end rest) [
    | [] ↦ if is_sep c then [] else c ∷ []
    | d ∷ more ↦ c ∷ d ∷ more
  ]

  -- The main loop of `str_explode`, with `room` fields to fill. `none` means that the fuel ran out.
  unfoldable pub explode_from : (fuel : ℕ) → Text → (room : ℕ) → Option (List Text)
  unfolding skip_separators token after_token trim_end
  explode_from zero text room = none
  explode_from (suc fuel) text room = elim (skip_separators text) [
    | [] ↦ some []
    | c ∷ rest ↦
        if leb room 1 then some (trim_end (c ∷ rest) ∷ []) else elim (after_token (c ∷ rest)) [
          | [] ↦ some (token (c ∷ rest) ∷ [])
          | sep ∷ later ↦ elim (explode_from fuel later (room - 1)) [
            | none ↦ none
            | some fields ↦ some (token (c ∷ rest) ∷ fields)
          ]
        ]
  ]

-- `str_explode`: each round but the last takes a byte, so the length and one are enough.
unfoldable pub str_explode : Separators → Text → (n : ℕ) → Option (List Text)
unfolding is_separator explode_from
str_explode ifs text n = explode_from (is_separator ifs) (length text + 1) text n

-- `shift ? 0xffffffffu << (32 - shift) : 0`
abbrev pub shift_mask : ℕ → ℕ
shift_mask shift = if shift == 0 then 0 else (0xffff_ffff * 2 ^ (32 - shift)) % 2 ^ 32

-- `geo_t`; the constructor is `geo_mode`.
pub data Geo : Type 0 where
  by_range : Range → Geo
  by_cidr : Tree → Geo

-- `geo_get`
pub get : Geo → ℕ → ℕ
get (by_range r) ip = Range.get r ip
get (by_cidr t) ip = if Radix.find t ip == Radix.no_value then invalid_ip_addr else Radix.find t ip

-- `geo_get_str`; `none` is `NULL`, and `inet_ntoa` is that of an address in host order.
pub get_str : (inet_aton : Text → Option ℕ) (inet_ntoa : ℕ → Text) → Geo → Text → Option Text
unfolding get
get_str inet_aton inet_ntoa g ip_str = elim (inet_aton ip_str) [
  | none ↦ none
  | some ip_addr ↦
      if get g ip_addr == invalid_ip_addr then none else some (inet_ntoa (get g ip_addr))
]

-- The loop of `geo_parse_cidr` that replaces a value, with some tries left.
pub retry : (tries : ℕ) → Tree → (addr mask ip mem : ℕ) → Status × Tree
retry zero t addr mask ip mem = (error, t)
retry (suc tries) t addr mask ip mem =
    let (st, t') = Radix.insert t addr mask ip mem in
    elim st [
      | Radix.ok ↦ (ok, t')
      | _ ↦
          let (st', t'') = Radix.delete t' addr mask in
          elim st' [ Radix.ok ↦ retry tries t'' addr mask ip mem | _ ↦ (error, t'') ]
    ]

module _ (inet_aton : Text → Option ℕ) (atoi : Text → ℕ) where
  -- `parse_range`
  unfoldable pub parse_range : Text → Option (ℕ × ℕ)
  parse_range text = elim (split_at b'-' text) [
    | none ↦ none
    | some (before, after) ↦ elim (inet_aton before) [
      | none ↦ none
      | some start ↦ elim (inet_aton after) [ none ↦ none | some end ↦ some (start, end) ]
    ]
  ]

  -- `parse_cidr`
  unfoldable pub parse_cidr : Text → Option (ℕ × ℕ)
  parse_cidr text =
      if same_text text (codes "255.255.255.255")
      then some (0xffff_ffff, 0xffff_ffff)
      else elim (split_at b'/' text) [
        | none ↦ elim (inet_aton text) [ none ↦ none | some addr ↦ some (addr, 0xffff_ffff) ]
        | some (before, after) ↦ elim (inet_aton before) [
          | none ↦ none
          | some addr ↦ if ltb 32 (atoi after) then none else some (addr, shift_mask (atoi after))
        ]
      ]

  -- The status of `range_insert`, as the caller's.
  abbrev pub of_range : Vector.Status → Status
  of_range Vector.ok = ok
  of_range Vector.error = error
  of_range Vector.no_fuel = no_fuel

  module _ (grants : ℕ → Bool) (rounds : ℕ) where
    -- `geo_parse_range`
    pub geo_parse_range : Range → (range value : Text) → Status × Range
    unfolding parse_range
    geo_parse_range r range value =
        if same_text range (codes "default")
        then elim (inet_aton value) [ none ↦ (error, r) | some ip ↦ (ok, Range.set_def r ip) ]
        else if same_text range (codes "delete")
        then elim (parse_range value) [
          | none ↦ (error, r)
          | some (start, end) ↦ elim (Range.delete rounds r start end) [
            | none ↦ (no_fuel, r)
            | some r' ↦ (ok, r')
          ]
        ]
        else elim (inet_aton value) [
          | none ↦ (error, r)
          | some ip ↦ elim (parse_range range) [
            | none ↦ (error, r)
            | some (start, end) ↦
                let (st, r') = Range.insert grants rounds r start end ip in (of_range st, r')
          ]
        ]

  -- `geo_parse_cidr` from the second `parse_cidr` on.
  pub set_cidr : (mem : ℕ) → Tree → (cidr value : Text) → Status × Tree
  unfolding retry parse_cidr
  set_cidr mem t cidr value = elim (parse_cidr cidr) [
    | none ↦ (error, t)
    | some (addr, mask) ↦ elim (inet_aton value) [
      | none ↦ (error, t)
      | some ip ↦ retry 3 t addr mask ip mem
    ]
  ]

  -- `geo_parse_cidr`. The branch for "default" goes on behind its `if`.
  pub geo_parse_cidr : (mem : ℕ) → Tree → (cidr value : Text) → Status × Tree
  unfolding set_cidr
  geo_parse_cidr mem t cidr value =
      if same_text cidr (codes "default")
      then elim (inet_aton value) [ none ↦ (error, t) | some ip ↦ set_cidr mem t cidr value ]
      else if same_text cidr (codes "delete")
      then elim (parse_cidr value) [
        | none ↦ (error, t)
        | some (addr, mask) ↦
            let (st, t') = Radix.delete t addr mask in
            elim st [ Radix.ok ↦ (ok, t') | _ ↦ (error, t') ]
      ]
      else set_cidr mem t cidr value
