-- ===== src/Geo/Table/File.antt =====
-- geo_load of CIDR files, and the lookups in what it returns.
use fnsproxy.Base.{
  ℕ, zero, suc, ◌≡◌, ◌≢◌, ◌<◌, inl, inr, ◌∙◌, refl, ap, subst, Bool, true, false, arith, List, [],
  ◌∷◌, Option, none, some, Text, codes, same_text, Bool-cases, Option-cases,
}
use mathlib.Core.Path.{fun_ext}
use fnsproxy.Radix
use fnsproxy.Radix.{Tree, no_value, node, null}
use fnsproxy.Radix.Paths.{value_at}
use fnsproxy.Radix.Find.{prefix, last_entry, find-last_entry}
use fnsproxy.Radix.Height.{create-IsShallow}
use fnsproxy.Geo.{
  blanks, str_explode, Status, ok, error, no_fuel, Geo, by_cidr, get, geo_parse_cidr,
}
use fnsproxy.Geo.Explode.{IsExploded, str_explode-IsExploded}
use fnsproxy.Geo.Cidr.{get-by_cidr}
use fnsproxy.Geo.Load.{
  Loaded, loaded, failed, out_of_fuel, Request, skip, malformed, endless, entry, request, stripped,
  is_skipped, add_entry, load_lines, load_file, load, geo_cidr,
}
use fnsproxy.Geo.Table.{
  Table, Told, told, refused, untold, tell_entry, tell_lines, tell_file, Holds, narrowest,
}
use fnsproxy.Geo.Table.Entry.{Follows, geo_parse_cidr-tell_entry}

-- Splitting a line always ends.
request-ne-endless : (line : Text) → request line ≢ endless
unfolding request
request-ne-endless line e = elim (Bool-cases (is_skipped (stripped line))) [
  | inl skipped ↦ absurd (ground (arith, rw (skipped, request) at e))
  | inr kept ↦
      split (str_explode blanks (stripped line) 2) (str_explode-IsExploded blanks (stripped line) 2)
        (rw (kept, request) at e)
]
  where
    split :
        (fields : Option (List Text))
        → IsExploded 2 fields
        → (elim fields as (λ x. Request) [
          | none ↦ endless
          | some [] ↦ malformed
          | some (a ∷ []) ↦ malformed
          | some (a ∷ b ∷ []) ↦ entry a b
          | some (a ∷ b ∷ c ∷ more) ↦ malformed
        ])
          ≡ endless
        → ⊥
    split none h e = h
    split (some []) h e = absurd (ground arith)
    split (some (a ∷ [])) h e = absurd (ground arith)
    split (some (a ∷ b ∷ [])) h e = absurd (ground arith)
    split (some (a ∷ b ∷ c ∷ more)) h e = absurd (ground arith)

-- A load ends as the table says; `failed n` is NULL, after `n` calls of geo_unload with the settings.
abbrev pub Loads : Told → Loaded → Type 0
Loads (told v) result = (t : Tree) × (result ≡ loaded (by_cidr t)) × Holds t v
Loads (refused n) result = result ≡ failed n
Loads untold result = Unit {0}

empty_values : (q : List Bool) → value_at (node null null no_value) q ≡ no_value
unfolding value_at
empty_values [] = refl
empty_values (true ∷ q) = refl
empty_values (false ∷ q) = refl

create-Holds :
    (mem : ℕ) → 32 < mem → (t : Tree) × (Radix.create mem ≡ some t) × Holds t (λ q. no_value)
unfolding Radix.create
create-Holds zero memory = absurd (omega arith)
create-Holds (suc zero) memory = absurd (omega arith)
create-Holds (suc (suc mem)) memory =
    let t : Tree = record { root = node null null no_value; size = Radix.node_size } in
    (
      t,
      refl,
      record {
        trimmed = (tt, tt);
        shallow = create-IsShallow (suc (suc mem)) t refl;
        values = empty_values;
      },
    )

-- A lookup in a trie that holds a table finds the narrowest network.
Holds-get : (t : Tree) (v : Table) (key : ℕ) → Holds t v → get (by_cidr t) key ≡ narrowest v key
Holds-get t v key held =
    get-by_cidr t key
    ∙ (find-last_entry t key held.shallow
        ∙ ap (λ (f : ℕ → ℕ). last_entry f 32) (fun_ext λ n. held.values (prefix key n)))

module _ (inet_aton : Text → Option ℕ) (atoi : Text → ℕ) (grants : ℕ → Bool) (rounds mem : ℕ)
    (memory : 32 < mem) where
  module _ (include : Geo → Text → Loaded) (tell : Table → Text → Told)
      (included : (t : Tree) (v : Table) (name : Text)
        → Holds t v
        → Loads (tell v name) (include (by_cidr t) name)) where
    abbrev lines_from : List Text → Geo → Loaded
    lines_from = load_lines inet_aton atoi grants rounds mem include

    abbrev told_from : List Text → Table → Told
    told_from = tell_lines inet_aton atoi tell

    module _ (line : Text) (rest : List Text)
        (further : (t : Tree) (v : Table)
          → Holds t v
          → Loads (told_from rest v) (lines_from rest (by_cidr t))) where
      abbrev tell_included : Told → Told
      tell_included r = elim r [
        | told w ↦ told_from rest w
        | refused n ↦ refused (suc n)
        | untold ↦ untold
      ]

      abbrev tell_on : Told → Told
      tell_on r = elim r [ told w ↦ told_from rest w | refused n ↦ refused n | untold ↦ untold ]

      abbrev after_include : Loaded → Loaded
      after_include l = elim l [
        | loaded g ↦ lines_from rest g
        | failed n ↦ failed (suc n)
        | out_of_fuel ↦ out_of_fuel
      ]

      abbrev after_entry : Status × Tree → Loaded
      after_entry result = elim result.0 [
        | ok ↦ lines_from rest (by_cidr result.1)
        | error ↦ failed 1
        | no_fuel ↦ out_of_fuel
      ]

      after_include-Loads :
          (r : Told) (l : Loaded) → Loads r l → Loads (tell_included r) (after_include l)
      after_include-Loads (told w) l (t, e, held) = rw e (further t w held)
      after_include-Loads (refused n) l e = rw e refl
      after_include-Loads untold l h = tt

      after_entry-Loads :
          (r : Told) (result : Status × Tree)
          → Follows r result
          → Loads (tell_on r) (after_entry result)
      after_entry-Loads (told w) result (done, held) = rw done (further result.1 w held)
      after_entry-Loads (refused n) result (once, failed_) = rw (once, failed_) refl
      after_entry-Loads untold result h = tt

      load_line :
          (t : Tree) (v : Table) (r : Request)
          → Holds t v
          → request line ≡ r
          → Loads (told_from (line ∷ rest) v) (lines_from (line ∷ rest) (by_cidr t))
      unfolding load_lines tell_lines add_entry
      load_line t v skip holds e = rw (e, load_lines, tell_lines, request) (further t v holds)
      load_line t v malformed holds e = rw (e, load_lines, tell_lines, request) refl
      load_line t v endless holds e = absurd (request-ne-endless line e)
      load_line t v (entry key value) holds e =
          elim (Bool-cases (same_text key (codes "include"))) [
            | inl nested ↦
                rw (e, load_lines, tell_lines, request, nested)
                  (after_include-Loads (tell v value) (include (by_cidr t) value)
                    (included t v value holds))
            | inr other ↦
                rw (e, load_lines, tell_lines, request, other, add_entry)
                  (after_entry-Loads (tell_entry inet_aton atoi v key value)
                    (geo_parse_cidr inet_aton atoi mem t key value)
                    (geo_parse_cidr-tell_entry inet_aton atoi mem memory t v holds key value))
          ]

    load_lines-tell_lines :
        (lines : List Text) (t : Tree) (v : Table)
        → Holds t v
        → Loads (told_from lines v) (lines_from lines (by_cidr t))
    unfolding load_lines tell_lines
    load_lines-tell_lines [] t v holds = (t, refl, holds)
    load_lines-tell_lines (line ∷ rest) t v holds =
        load_line line rest (load_lines-tell_lines rest) t v (request line) holds refl

  module _ (open_file : Text → Option (List Text)) where
    load_file-tell_file :
        (fuel : ℕ) (t : Tree) (v : Table) (filename : Text)
        → Holds t v
        → Loads
            (tell_file inet_aton atoi open_file fuel v filename)
            (load_file inet_aton atoi grants rounds mem open_file fuel (by_cidr t) filename)
    unfolding load_file tell_file
    load_file-tell_file zero t v filename holds = tt
    load_file-tell_file (suc fuel) t v filename holds = elim (Option-cases (open_file filename)) [
      | inl missing ↦ rw (missing, load_file, tell_file) refl
      | inr (lines, opened) ↦
          rw (opened, load_file, tell_file)
            (load_lines-tell_lines (load_file inet_aton atoi grants rounds mem open_file fuel)
              (tell_file inet_aton atoi open_file fuel) (load_file-tell_file fuel) lines t v holds)
    ]

    -- geo_load of a CIDR file gives a trie that holds the table which the lines mean, those of included files in
    -- their place; where they come to an error, it returns NULL, after exactly the calls of geo_unload with
    -- the same settings that the description counts: none for a file that is not there, one for a line that
    -- has an error, and one more for each `include` around it, so that two or more free settings that
    -- were freed. Memory for 33 nodes and for the settings is granted; an address 0.0.0.0, and files
    -- nested deeper than the fuel, are left open.
    pub load-tell_file :
        (fuel : ℕ) (filename : Text)
        → grants 16 ≡ true
        → Loads
            (tell_file inet_aton atoi open_file fuel (λ q. no_value) filename)
            (load inet_aton atoi grants rounds mem open_file fuel (some filename) geo_cidr)
    unfolding load
    load-tell_file fuel filename granted =
        let (t, made, held) = create-Holds mem memory in
        rw (granted, made, load) (load_file-tell_file fuel t (λ q. no_value) filename held)

    pub load-narrowest :
        (fuel : ℕ) (filename : Text) (v : Table) (key : ℕ)
        → grants 16 ≡ true
        → tell_file inet_aton atoi open_file fuel (λ q. no_value) filename ≡ told v
        → (g : Geo) × (load inet_aton atoi grants rounds mem open_file fuel (some filename) geo_cidr
            ≡ loaded g)
          × (get g key ≡ narrowest v key)
    load-narrowest fuel filename v key granted means =
        let (t, done, held) =
          subst
            (λ r.
              Loads r
                (load inet_aton atoi grants rounds mem open_file fuel (some filename) geo_cidr))
            means (load-tell_file fuel filename granted) in
        (by_cidr t, done, Holds-get t v key held)
