-- ===== src/Geo/Table.antt =====
-- What the lines of a CIDR file mean: a table of networks, as a function from bit paths, without the trie.
pub mod Entry
pub mod File
mod Tests
use fnsproxy.Base.{
  ℕ, zero, suc, ◌≡◌, Bool, true, false, not, ◌&&◌, ◌||◌, ◌==◌, List, [], ◌∷◌, Option, none, some,
  if◌then◌else◌, Text, codes, same_text,
}
use fnsproxy.Radix.{Tree, no_value}
use fnsproxy.Radix.Paths.{value_at, network, same_path}
use fnsproxy.Radix.Find.{IsShallow, prefix, last_entry}
use fnsproxy.Radix.Trimmed.{IsTrimmed}
use fnsproxy.Geo.{parse_cidr}
use fnsproxy.Geo.Load.{skip, malformed, endless, entry, request}

-- The value of each network, `no_value` for none.
abbrev pub Table : Type 0
Table = List Bool → ℕ

-- What the lines come to: a table, an error, or what this description leaves open. An error has the number of
-- times that the settings are given back on the way out.
pub data Told : Type 0 where
  told : Table → Told
  refused : (unloads : ℕ) → Told
  untold : Told

abbrev pub set_network : Table → (net : List Bool) → ℕ → Table
set_network v net value q = if same_path q net then value else v q

abbrev pub is_whole : List Bool → Bool
is_whole [] = true
is_whole (b ∷ net) = false

-- A network gets an address, and loses the one it had; only the whole space keeps the first. The address
-- 0.0.0.0 is left open.
abbrev pub put : Table → (net : List Bool) → (ip : ℕ) → Told
put v net ip =
    if ip == no_value
    then untold
    else if is_whole net && not (v net == no_value)
    then refused 1
    else told (set_network v net ip)

-- A network that is not the whole space, and that has an address, loses it.
abbrev pub remove : Table → (net : List Bool) → Told
remove v net =
    if is_whole net || v net == no_value then refused 1 else told (set_network v net no_value)

module _ (inet_aton : Text → Option ℕ) (atoi : Text → ℕ) where
  unfoldable pub tell_network : Table → (cidr value : Text) → Told
  tell_network v cidr value = elim (parse_cidr inet_aton atoi cidr) [
    | none ↦ refused 1
    | some (addr, mask) ↦ elim (inet_aton value) [
      | none ↦ refused 1
      | some ip ↦ put v (network addr mask) ip
    ]
  ]

  -- A line with two words.
  unfoldable pub tell_entry : Table → (cidr value : Text) → Told
  unfolding tell_network
  tell_entry v cidr value =
      if same_text cidr (codes "default")
      then elim (inet_aton value) [ none ↦ refused 1 | some ip ↦ tell_network v cidr value ]
      else if same_text cidr (codes "delete")
      then elim (parse_cidr inet_aton atoi value) [
        | none ↦ refused 1
        | some (addr, mask) ↦ remove v (network addr mask)
      ]
      else tell_network v cidr value

  -- The lines of a file, one after the other. A line with an error gives the settings back once, an `include`
  -- once more than the file that it names.
  unfoldable pub tell_lines : (include : Table → Text → Told) → List Text → Table → Told
  unfolding tell_entry
  tell_lines include [] v = told v
  tell_lines include (line ∷ rest) v = elim (request line) [
    | skip ↦ tell_lines include rest v
    | malformed ↦ refused 1
    | endless ↦ refused 1
    | entry key value ↦
        if same_text key (codes "include")
        then elim (include v value) [
          | told w ↦ tell_lines include rest w
          | refused n ↦ refused (suc n)
          | untold ↦ untold
        ]
        else elim (tell_entry v key value) [
          | told w ↦ tell_lines include rest w
          | refused n ↦ refused n
          | untold ↦ untold
        ]
  ]

  -- A file, with files that include files `depth` deep at most. One that is not there gives nothing back.
  unfoldable pub tell_file :
      (open_file : Text → Option (List Text)) → (depth : ℕ) → Table → Text → Told
  unfolding tell_lines
  tell_file open_file zero v filename = untold
  tell_file open_file (suc depth) v filename = elim (open_file filename) [
    | none ↦ refused 0
    | some lines ↦ tell_lines (tell_file open_file depth) lines v
  ]

-- The address of the narrowest network of a key that has one, `no_value` if there is none.
abbrev pub narrowest : Table → (key : ℕ) → ℕ
narrowest v key = last_entry (λ n. v (prefix key n)) 32

-- The trie holds the table.
pub record Holds (t : Tree) (v : Table) : Type 0 where
  pub trimmed : IsTrimmed t
  pub shallow : IsShallow t
  pub values : (q : List Bool) → value_at t.root q ≡ v q
