-- ===== src/Proxy/Tests.antt =====
-- The line "10.0.0.0/8 127.0.0.1", and a response with the address 10.0.0.1.
use fnsproxy.Base.{
  ℕ, zero, suc, ◌≡◌, ◌≢◌, ◌≤◌, ◌<◌, ◌⊎◌, inl, inr, refl, if◌then◌else◌, List, [], ◌∷◌, Option, none,
  some, arith, Text, codes, same_text, split_at, has_bit,
}
use fnsproxy.Radix.{no_value}
use fnsproxy.Radix.Paths.{path_from, network}
use fnsproxy.Radix.Find.{prefix_from, last_entry}
use fnsproxy.Geo.{
  Geo, skip_separators, str_explode, explode_from, is_separator, token, after_token, trim_end, ok,
  by_range, get, parse_cidr, parse_range, geo_parse_range,
}
use fnsproxy.Dns
use fnsproxy.Dns.{Packet, header_size, net_u32, store_u32, parse_proxy}
use fnsproxy.Dns.Chain.{IsName, compressed, address}
use fnsproxy.Range.{Range}
use fnsproxy.Range.Success.{always}
use fnsproxy.Geo.Load.{loaded, load, geo_cidr, request, stripped, chomp, is_skipped}
use fnsproxy.Geo.Table.{
  Table, told, set_network, tell_network, tell_entry, tell_lines, tell_file, narrowest,
}
use fnsproxy.Proxy.File.{load-parse_proxy}
use fnsproxy.Proxy.{IsResponse}
use fnsproxy.Proxy.Ranges.{IsDecided, geo_parse_range-parse_proxy}

abbrev bytes : List ℕ → Packet
bytes [] i = 0
bytes (b ∷ bs) zero = b
bytes (b ∷ bs) (suc i) = bytes bs i

-- The header, "a" as the name, type A and class IN; the address.
abbrev response : Packet
response = bytes (
    0 ∷ 0 ∷ 129 ∷ 128 ∷ 0 ∷ 1 ∷ 0 ∷ 1 ∷ 0 ∷ 0 ∷ 0 ∷ 0 ∷ 1 ∷ 97 ∷ 0 ∷ 0 ∷ 1 ∷ 0 ∷ 1 ∷ 192 ∷ 12 ∷ 0
    ∷ 1 ∷ 0 ∷ 1 ∷ 0 ∷ 0 ∷ 0 ∷ 9 ∷ 0 ∷ 4 ∷ 10 ∷ 0 ∷ 0 ∷ 1 ∷ [])

response-IsName : IsName response header_size 14
response-IsName = record {
  ordered = omega arith;
  labels = λ i from to. elim (label i from to) [
    | inl e ↦ rw e (ground arith)
    | inr e ↦ rw e (ground arith)
  ];
  terminator = refl;
}
  where
    label : (i : ℕ) → 12 ≤ i → i < 14 → (i ≡ 12) ⊎ (i ≡ 13)
    label i from to = omega arith

response-IsResponse : IsResponse response 35 14 19
response-IsResponse = record {
  one = refl;
  name = response-IsName;
  room = omega arith;
  asks = refl;
  leads = address 19 (omega arith) (compressed refl refl) refl;
  four = refl;
  inside = omega arith;
}

abbrev inet_aton : Text → Option ℕ
inet_aton text = if same_text text (codes "127.0.0.1") then some 0x7f00_0001 else some 0x0a00_0000

abbrev atoi : Text → ℕ
atoi text = 8

-- The line "10.0.0.0-10.0.0.9 127.0.0.1".
abbrev end_or_local : Text → Option ℕ
end_or_local text = if same_text text (codes "10.0.0.9") then some 0x0a00_0009 else inet_aton text

abbrev blank : Range
blank = record { low = λ _. none; def_ip = 0 }

local-IsDecided :
    IsDecided end_or_local atoi blank
      (codes "10.0.0.0-10.0.0.9")
      (codes "127.0.0.1")
      0x0a00_0001
      0x7f00_0001
unfolding same_text parse_range split_at
local-IsDecided = record {
  start = 0x0a00_0000;
  end = 0x0a00_0009;
  sound = λ h v e. cc;
  free = λ h v k e. cc;
  line = record {
    not_default = refl;
    not_delete = refl;
    parsed = refl;
    address = refl;
    ordered = omega arith;
    small = omega arith;
  };
  inside = refl;
  set = ground arith;
}

geo_parse_range-parse_proxy_example :
    let (status, r') =
      geo_parse_range end_or_local atoi always 0x1_0000 blank
        (codes "10.0.0.0-10.0.0.9")
        (codes "127.0.0.1") in
    (status ≡ ok)
    × (parse_proxy (get (by_range r')) response 35 ≡ (Dns.ok, store_u32 response 31 0x7f00_0001))
geo_parse_range-parse_proxy_example =
    geo_parse_range-parse_proxy end_or_local atoi blank (codes "10.0.0.0-10.0.0.9")
      (codes "127.0.0.1") 0x7f00_0001 response 35 14 19 local-IsDecided response-IsResponse

-- A file with a comment, and the line "10.0.0.0/8 127.0.0.1".
abbrev files : Text → Option (List Text)
files name = some (codes "# local" ∷ codes "10.0.0.0/8 127.0.0.1" ∷ [])

abbrev local : Table
local = set_network (λ q. no_value) (network 0x0a00_0000 0xff00_0000) 0x7f00_0001

files-local : tell_file inet_aton atoi files 1 (λ q. no_value) (codes "geo") ≡ told local
unfolding tell_file tell_lines tell_entry tell_network request stripped chomp is_skipped
    skip_separators str_explode explode_from is_separator token after_token trim_end same_text
    parse_cidr split_at path_from has_bit
files-local = refl

narrowest-local : narrowest local 0x0a00_0001 ≡ 0x7f00_0001
unfolding last_entry prefix_from path_from has_bit
narrowest-local = refl

local-set : narrowest local (net_u32 response 31) ≢ no_value
local-set e = absurd (ground (arith, narrowest-local))

load-parse_proxy_example :
    (g : Geo) × (load inet_aton atoi always 5 100 files 1 (some (codes "geo")) geo_cidr ≡ loaded g)
    × (parse_proxy (get g) response 35
        ≡ (Dns.ok, store_u32 response 31 (narrowest local (net_u32 response 31))))
load-parse_proxy_example =
    load-parse_proxy inet_aton atoi always 5 100 files 1 (codes "geo") local response 35 14 19
      (omega arith) refl files-local response-IsResponse local-set
