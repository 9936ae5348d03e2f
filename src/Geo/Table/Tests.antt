-- ===== src/Geo/Table/Tests.antt =====
-- A file with a line that sets a network, and one that deletes another which was not set.
use fnsproxy.Base.{
  ℕ, ◌≡◌, refl, Bool, true, arith, List, [], ◌∷◌, Option, none, some, if◌then◌else◌, Text, codes,
  same_text, split_at, has_bit,
}
use fnsproxy.Radix.{no_value}
use fnsproxy.Geo.{
  skip_separators, str_explode, explode_from, is_separator, token, after_token, trim_end,
  parse_cidr,
}
use fnsproxy.Radix.Paths.{path_from}
use fnsproxy.Geo.Load.{load, geo_cidr, request, stripped, chomp, is_skipped}
use fnsproxy.Geo.Table.{refused, tell_file, tell_lines, tell_entry, tell_network}
use fnsproxy.Geo.Table.File.{Loads, load-tell_file}

abbrev addresses : Text → Option ℕ
addresses text =
    if same_text text (codes "127.0.0.1")
    then some 0x7f00_0001
    else if same_text text (codes "10.0.0.0")
    then some 0x0a00_0000
    else none

abbrev eight : Text → ℕ
eight text = 8

abbrev granted : ℕ → Bool
granted bytes = true

abbrev files : Text → Option (List Text)
files name = some (codes "10.0.0.0/8 127.0.0.1" ∷ codes "delete 127.0.0.1/8" ∷ [])

load-tell_file_example :
    Loads
      (tell_file addresses eight files 1 (λ q. no_value) (codes "geo"))
      (load addresses eight granted 5 100 files 1 (some (codes "geo")) geo_cidr)
load-tell_file_example =
    load-tell_file addresses eight granted 5 100 (omega arith) files 1 (codes "geo") refl

-- The deletion is refused, and the file with it.
files-refused : tell_file addresses eight files 1 (λ q. no_value) (codes "geo") ≡ refused 1
unfolding tell_file tell_lines tell_entry tell_network request stripped chomp is_skipped
    skip_separators str_explode explode_from is_separator token after_token trim_end same_text
    parse_cidr split_at path_from has_bit
files-refused = refl
