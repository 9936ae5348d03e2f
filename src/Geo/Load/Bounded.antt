-- ===== src/Geo/Load/Bounded.antt =====
-- The height of the trie that `geo_load` makes.
use fnsproxy.Base.{
  ℕ, zero, suc, ◌≡◌, ◌⊎◌, refl, Bool, arith, List, [], ◌∷◌, Option, none, some, inl, inr,
  Bool-cases, Option-cases, Text, codes, same_text,
}
use fnsproxy.Radix
use fnsproxy.Radix.{Tree}
use fnsproxy.Radix.Find.{IsShallow}
use fnsproxy.Radix.Height.{create-IsShallow, insert-IsShallow, delete-IsShallow}
use fnsproxy.Range
use fnsproxy.Geo.{
  Status, ok, error, no_fuel, Geo, by_range, by_cidr, retry, parse_cidr, geo_parse_cidr, set_cidr,
}
use fnsproxy.Geo.Load.{
  Loaded, loaded, failed, out_of_fuel, Request, skip, malformed, endless, entry, request, add_entry,
  load_lines, load_file, load,
}

-- The trie of the settings, if there is one, is no higher than an address has bits.
abbrev pub IsBounded : Geo → Type 0
IsBounded (by_range r) = Unit {0}
IsBounded (by_cidr t) = IsShallow t

retry-IsShallow :
    (tries : ℕ) (t : Tree) (addr mask ip mem : ℕ)
    → IsShallow t
    → IsShallow (retry tries t addr mask ip mem).1
unfolding retry
retry-IsShallow zero t addr mask ip mem h = h
retry-IsShallow (suc tries) t addr mask ip mem h =
    let t' = (Radix.insert t addr mask ip mem).1 in
    let h' = insert-IsShallow t addr mask ip mem h in
    let h'' = delete-IsShallow t' addr mask h' in
    ground
      (arith, h', h'', retry-IsShallow tries (Radix.delete t' addr mask).1 addr mask ip mem h'')

abbrev pub IsLoadBounded : Loaded → Type 0
IsLoadBounded (loaded g) = IsBounded g
IsLoadBounded (failed n) = Unit {0}
IsLoadBounded out_of_fuel = Unit {0}

module _ (inet_aton : Text → Option ℕ) (atoi : Text → ℕ) (mem : ℕ) where
  set_cidr-IsShallow :
      (t : Tree) (cidr value : Text)
      → IsShallow t
      → IsShallow (set_cidr inet_aton atoi mem t cidr value).1
  unfolding set_cidr
  set_cidr-IsShallow t cidr value h = elim (Option-cases (parse_cidr inet_aton atoi cidr)) [
    | inl bad ↦ rw (bad, set_cidr, parse_cidr) h
    | inr ((addr, mask), parsed) ↦ elim (Option-cases (inet_aton value)) [
      | inl unset ↦ rw (parsed, unset, set_cidr, parse_cidr) h
      | inr (ip, found) ↦
          rw (parsed, found, set_cidr, parse_cidr) (retry-IsShallow 3 t addr mask ip mem h)
    ]
  ]

  geo_parse_cidr-IsShallow :
      (t : Tree) (cidr value : Text)
      → IsShallow t
      → IsShallow (geo_parse_cidr inet_aton atoi mem t cidr value).1
  unfolding geo_parse_cidr
  geo_parse_cidr-IsShallow t cidr value h =
      let h' = set_cidr-IsShallow t cidr value h in
      elim (Option-cases (parse_cidr inet_aton atoi value)) [
        | inl bad ↦ ground (arith, h, h')
        | inr ((addr, mask), parsed) ↦ ground (arith, h, h', delete-IsShallow t addr mask h)
      ]

Request-cases :
    (r : Request)
    → ((r ≡ skip) ⊎ (r ≡ malformed) ⊎ (r ≡ endless))
      ⊎ ((key : Text) × (value : Text) × (r ≡ entry key value))
Request-cases skip = inl (inl refl)
Request-cases malformed = inl (inr (inl refl))
Request-cases endless = inl (inr (inr refl))
Request-cases (entry key value) = inr (key, value, refl)

Loaded-cases :
    (l : Loaded) → ((g : Geo) × (l ≡ loaded g)) ⊎ ((n : ℕ) × (l ≡ failed n)) ⊎ (l ≡ out_of_fuel)
Loaded-cases (loaded g) = inl (g, refl)
Loaded-cases (failed n) = inr (inl (n, refl))
Loaded-cases out_of_fuel = inr (inr refl)

Status-cases : (s : Status) → (s ≡ ok) ⊎ (s ≡ error) ⊎ (s ≡ no_fuel)
Status-cases ok = inl refl
Status-cases error = inr (inl refl)
Status-cases no_fuel = inr (inr refl)

module _ (inet_aton : Text → Option ℕ) (atoi : Text → ℕ) (grants : ℕ → Bool) (rounds mem : ℕ) where
  add_entry-IsBounded :
      (g : Geo) (key value : Text)
      → IsBounded g
      → IsBounded (add_entry inet_aton atoi grants rounds mem g key value).1
  unfolding add_entry
  add_entry-IsBounded (by_range r) key value h = tt
  add_entry-IsBounded (by_cidr t) key value h =
      geo_parse_cidr-IsShallow inet_aton atoi mem t key value h

  load_lines-IsBounded :
      (include : Geo → Text → Loaded)
      → ((g : Geo) (name : Text) → IsBounded g → IsLoadBounded (include g name))
      → (lines : List Text) (g : Geo) → IsBounded g
      → IsLoadBounded (load_lines inet_aton atoi grants rounds mem include lines g)
  unfolding load_lines
  load_lines-IsBounded include keeps [] g h = h
  load_lines-IsBounded include keeps (line ∷ rest) g h = elim (Request-cases (request line)) [
    | inl (inl e) ↦ rw (e, load_lines, request) (load_lines-IsBounded include keeps rest g h)
    | inl (inr (inl e)) ↦ rw (e, load_lines, request) tt
    | inl (inr (inr e)) ↦ rw (e, load_lines, request) tt
    | inr (key, value, e) ↦ elim (Bool-cases (same_text key (codes "include"))) [
      | inl is_include ↦ elim (Loaded-cases (include g value)) [
        | inl (g', done) ↦
            rw (e, is_include, done, load_lines, request)
              (load_lines-IsBounded include keeps rest g' (rw done at (keeps g value h)))
        | inr (inl (n, done)) ↦ rw (e, is_include, done, load_lines, request) tt
        | inr (inr done) ↦ rw (e, is_include, done, load_lines, request) tt
      ]
      | inr is_entry ↦
          let added = add_entry inet_aton atoi grants rounds mem g key value in
          let h' = add_entry-IsBounded g key value h in
          elim (Status-cases added.0) [
            | inl done ↦
                rw (e, is_entry, done, load_lines, request)
                  (load_lines-IsBounded include keeps rest added.1 h')
            | inr (inl done) ↦ rw (e, is_entry, done, load_lines, request) tt
            | inr (inr done) ↦ rw (e, is_entry, done, load_lines, request) tt
          ]
    ]
  ]

  module _ (open_file : Text → Option (List Text)) where
    load_file-IsBounded :
        (fuel : ℕ) (g : Geo) (name : Text)
        → IsBounded g
        → IsLoadBounded (load_file inet_aton atoi grants rounds mem open_file fuel g name)
    unfolding load_file
    load_file-IsBounded zero g name h = tt
    load_file-IsBounded (suc fuel) g name h = elim (Option-cases (open_file name)) [
      | inl missing ↦ rw (missing, load_file) tt
      | inr (lines, opened) ↦
          rw (opened, load_file)
            (load_lines-IsBounded (load_file inet_aton atoi grants rounds mem open_file fuel)
              (load_file-IsBounded fuel) lines g h)
    ]

    create-load_file :
        (fuel : ℕ) (name : Text) (t : Tree)
        → Radix.create mem ≡ some t
        → IsLoadBounded (load_file inet_aton atoi grants rounds mem open_file fuel (by_cidr t) name)
    create-load_file fuel name t made =
        load_file-IsBounded fuel (by_cidr t) name (create-IsShallow mem t made)

    -- Whatever the files hold, a trie that `geo_load` returns is no higher than an address has bits.
    pub load-IsBounded :
        (fuel : ℕ) (filename : Option Text) (geo_mode : ℕ)
        → IsLoadBounded (load inet_aton atoi grants rounds mem open_file fuel filename geo_mode)
    unfolding load
    load-IsBounded fuel none geo_mode = tt
    load-IsBounded fuel (some name) geo_mode = elim (Option-cases (Range.create grants)) [
      | inl refused ↦ elim (Option-cases (Radix.create mem)) [
        | inl none_left ↦ ground (arith, refused, none_left)
        | inr (t, made) ↦ ground (arith, refused, made, create-load_file fuel name t made)
      ]
      | inr (r, granted) ↦
          let loaded_range = load_file-IsBounded fuel (by_range r) name tt in
          elim (Option-cases (Radix.create mem)) [
            | inl none_left ↦ ground (arith, granted, none_left, loaded_range)
            | inr (t, made) ↦
                ground (arith, granted, made, loaded_range, create-load_file fuel name t made)
          ]
    ]
