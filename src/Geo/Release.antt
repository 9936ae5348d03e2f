-- ===== src/Geo/Release.antt =====
-- geo.c: geo_unload.
use fnsproxy.Base.{ℕ, ◌==◌, if◌then◌else◌, Text, codes, List, [], ◌∷◌, ◌++◌, Option, none, some}
use fnsproxy.Memory.{Ptr}
use fnsproxy.Geo.{Geo, by_range, by_cidr}
use fnsproxy.Geo.Load.{geo_range, geo_cidr}
use fnsproxy.Radix.{Tree}
use fnsproxy.Radix.Release.{radix_tree_free}
use fnsproxy.Range.Dump
use fnsproxy.Range.Release
use fnsproxy.Range.Release.{Blocks}

-- What `geo_t` holds, by its mode: the buckets and their address, or the trie.
pub data Held : Type 0 where
  range_held : (address : Ptr) → Blocks → Held
  cidr_held : Tree → Held

-- The blocks that are freed, and the values of the nodes of a trie in the order in which they are. The
-- structure with the root of a trie is not freed.
pub record Unloaded : Type 0 where
  pub blocks : List Ptr
  pub nodes : List ℕ

-- `geo_unload` of the settings at an address; `none` where the rounds of the model run out.
unfoldable pub geo_unload : (g : Ptr) → Held → Option Unloaded
unfolding Release.free
geo_unload g (range_held address r) =
    some (record { blocks = Release.free address r ++ g ∷ []; nodes = [] })
geo_unload g (cidr_held t) = elim (radix_tree_free t) [
  | none ↦ none
  | some nodes ↦ some (record { blocks = g ∷ []; nodes = nodes })
]

-- `geo_dump`, of what the settings hold: the text that is printed. `geo_mode` is the caller's; where the
-- settings are of the other mode, the union is read as what it is not: `none`.
unfoldable pub geo_dump : (inet_ntoa : ℕ → Text) (geo_mode : ℕ) → Geo → Option Text
unfolding Dump.dump
geo_dump inet_ntoa geo_mode g =
    if geo_mode == geo_range
    then elim g [ by_range r ↦ some (Dump.dump inet_ntoa r) | by_cidr t ↦ none ]
    else if geo_mode == geo_cidr
    then some (codes "Not supported" ++ 10 ∷ [])
    else some []
