-- ===== src/Dns/Tests.antt =====
-- Runs of dns.c on a response with one question, an alias and an address, and the theorems there.
use fnsproxy.Base.{
  ℕ, zero, suc, ◌≡◌, ◌≤◌, ◌<◌, ◌⊎◌, inl, inr, refl, List, [], ◌∷◌, arith, if◌then◌else◌, leb, ◌==◌,
}
use fnsproxy.Range.{invalid_ip_addr}
use fnsproxy.Dns.{
  Packet, ok, parse_proxy, rewrite, seek_address, record_start, skip_hostname, skip_name, store_u32,
  net_u32, header_size, process_ip,
}
use fnsproxy.Dns.Bounds.{SameUpTo}
use fnsproxy.Dns.Rewrite.{IsAddress, parse_proxy-cases, parse_proxy-same}
use fnsproxy.Dns.Chain.{IsName, compressed, Leads, address, alias, parse_proxy-Leads}

abbrev bytes : List ℕ → Packet
bytes [] i = 0
bytes (b ∷ bs) zero = b
bytes (b ∷ bs) (suc i) = bytes bs i

-- The header, "a" as the name, type A and class IN; an alias with two bytes of data; an address.
abbrev octets : List ℕ
octets =
    0 ∷ 0 ∷ 129 ∷ 128 ∷ 0 ∷ 1 ∷ 0 ∷ 2 ∷ 0 ∷ 0 ∷ 0 ∷ 0 ∷ 1 ∷ 97 ∷ 0 ∷ 0 ∷ 1 ∷ 0 ∷ 1 ∷ 192 ∷ 12 ∷ 0
    ∷ 5 ∷ 0 ∷ 1 ∷ 0 ∷ 0 ∷ 0 ∷ 9 ∷ 0 ∷ 2 ∷ 192 ∷ 12 ∷ 192 ∷ 31 ∷ 0 ∷ 1 ∷ 0 ∷ 1 ∷ 0 ∷ 0 ∷ 0 ∷ 9 ∷ 0
    ∷ 4 ∷ 10 ∷ 0 ∷ 0 ∷ 1 ∷ []

abbrev response : Packet
response = bytes octets

abbrev setting : ℕ → ℕ
setting ip = if ip == 0x0a00_0001 then 0x7f00_0001 else invalid_ip_addr

rewritten : (parse_proxy setting response 49).1 45 ≡ 127
unfolding parse_proxy rewrite seek_address record_start skip_hostname skip_name process_ip
rewritten = refl

question-IsName : IsName response header_size 14
question-IsName = record {
  ordered = omega arith;
  labels = λ i from to. elim (label i from to) [
    | inl e ↦ rw e (ground arith)
    | inr e ↦ rw e (ground arith)
  ];
  terminator = refl;
}
  where
    label : (i : ℕ) → 12 ≤ i → i < 14 → (i ≡ 12) ⊎ (i ≡ 13)
    label i from to = omega arith

response-Leads : Leads response 49 33 19
response-Leads =
    alias 19 19 33 (omega arith) (compressed refl refl) refl refl
      (address 33 (omega arith) (compressed refl refl) refl)

parse_proxy-Leads_example :
    parse_proxy setting response 49 ≡ (ok, store_u32 response 45 (setting (net_u32 response 45)))
parse_proxy-Leads_example =
    parse_proxy-Leads response setting 49 14 33 refl question-IsName (omega arith) refl
      response-Leads refl (omega arith) (ground arith)

-- The same bytes, and others behind them.
abbrev longer : Packet
longer i = if leb 49 i then 255 else response i

longer-same : SameUpTo 49 response longer
longer-same i lt = ground arith

parse_proxy-same_example :
    ((parse_proxy setting response 49).0 ≡ (parse_proxy setting longer 49).0)
    × SameUpTo 49 (parse_proxy setting response 49).1 (parse_proxy setting longer 49).1
parse_proxy-same_example = parse_proxy-same setting response longer 49 (omega arith) longer-same

parse_proxy-cases_example :
    ((parse_proxy setting response 49).1 ≡ response)
    ⊎ ((a : ℕ) × IsAddress setting response 49 a
        × (parse_proxy setting response 49
            ≡ (ok, store_u32 response a (setting (net_u32 response a)))))
parse_proxy-cases_example = parse_proxy-cases setting response 49
