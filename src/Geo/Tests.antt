-- ===== src/Geo/Tests.antt =====
-- Runs of geo.c on small settings, and the theorems there.
use fnsproxy.Base.{
  ℕ, ◌≡◌, ◌≢◌, refl, [], ◌∷◌, ◌++◌, Bool, true, false, arith, Option, none, some, if◌then◌else◌,
  Text, codes, same_text, split_at, has_bit,
}
use fnsproxy.Radix
use fnsproxy.Radix.{Tree, node, null, no_value}
use fnsproxy.Radix.Paths.{value_at, network, same_path, same_path_refl}
use fnsproxy.Radix.Find.{IsShallow, prefix}
use fnsproxy.Radix.Trimmed.{IsTrimmed}
use fnsproxy.Geo.{Status, blanks, str_explode, parse_cidr, geo_parse_cidr, is_separator}
use fnsproxy.Geo.Cidr.{IsSetBy, geo_parse_cidr-IsSetBy}
use fnsproxy.Geo.Explode.{str_explode-words, all_separators, is_word}

-- An `inet_aton` that knows two addresses, and an `atoi` that reads every number as 8.
abbrev addresses : Text → Option ℕ
addresses text =
    if same_text text (codes "10.0.0.0")
    then some 0x0a00_0000
    else if same_text text (codes "127.0.0.1")
    then some 0x7f00_0001
    else none

abbrev eight : Text → ℕ
eight text = 8

abbrev granted : ℕ → Bool
granted bytes = true

abbrev start : Tree
start = record { root = node null null 0; size = 32 }

start-IsTrimmed : IsTrimmed start
start-IsTrimmed = (tt, tt)

start-IsShallow : IsShallow start
unfolding fnsproxy.Radix.Find.height
start-IsShallow = omega arith

parsed : parse_cidr addresses eight (codes "10.0.0.0/8") ≡ some (0x0a00_0000, 0xff00_0000)
unfolding parse_cidr same_text split_at
parsed = refl

below_root : network 0x0a00_0000 0xff00_0000 ≢ []
unfolding fnsproxy.Radix.Paths.path_from has_bit
below_root e = cc

abbrev set : Status × Tree
set = geo_parse_cidr addresses eight 100 start (codes "10.0.0.0/8") (codes "127.0.0.1")

not_default : same_text (codes "10.0.0.0/8") (codes "default") ≡ false
unfolding same_text
not_default = refl

not_delete : same_text (codes "10.0.0.0/8") (codes "delete") ≡ false
unfolding same_text
not_delete = refl

to_local : addresses (codes "127.0.0.1") ≡ some 0x7f00_0001
unfolding same_text
to_local = refl

no_word : addresses (codes "default") ≡ none
unfolding same_text
no_word = refl

is_default : same_text (codes "delete") (codes "default") ≡ false
unfolding same_text
is_default = refl

is_delete : same_text (codes "delete") (codes "delete") ≡ true
unfolding same_text
is_delete = refl

-- The trie after the line that is checked above.
set_up : IsSetBy start 0x0a00_0000 0xff00_0000 0x7f00_0001 set
set_up =
    geo_parse_cidr-IsSetBy addresses eight 100 start (codes "10.0.0.0/8") (codes "127.0.0.1")
      0x0a00_0000 0xff00_0000 0x7f00_0001 start-IsTrimmed start-IsShallow (omega arith) not_default
      not_delete parsed to_local (ground arith) below_root

taken : value_at set.1.root (network 0x0a00_0000 0xff00_0000) ≢ no_value
taken = ground (
  arith,
  set_up.values (network 0x0a00_0000 0xff00_0000),
  same_path_refl (network 0x0a00_0000 0xff00_0000),
)

str_explode-words_example :
    str_explode blanks (codes "  10.0.0.0/8" ++ codes " 127.0.0.1 ") 2
    ≡ some (codes "10.0.0.0/8" ∷ codes "127.0.0.1" ∷ [])
unfolding all_separators is_word is_separator
str_explode-words_example =
    str_explode-words blanks (codes "  ") (codes "0.0.0.0/8") [] (codes "27.0.0.1") (codes " ") b'1'
      b'1' b' ' refl refl refl refl refl
