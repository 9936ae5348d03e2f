-- ===== src/Dns/Rewrite.antt =====
-- What `dns_parse_proxy` does to a packet, and what it depends on.
use fnsproxy.Base.{
  ℕ, ◌+◌, ◌-◌, ◌≡◌, ◌≢◌, ◌≤◌, ◌<◌, ◌⊎◌, ap, refl, not, ◌==◌, ltb, leb, arith, inl, inr, Bool-cases,
  ◌∙◌,
}
use fnsproxy.Dns.{
  Packet, ok, no_fuel, net_u16, net_u32, store_u32, skip_hostname, Search, found, stopped,
  out_of_fuel, seek_address, rewrite, parse_proxy, header_size, nquestions, dns_a_record,
}
use fnsproxy.Dns.Bounds.{
  skip_hostname_bounds, seek_address_ends, seek_address_found, SameUpTo, skip_hostname-same,
  net_u16-same, seek_address-same,
}
use native.Mathlib.Decide.{dec_lt}
use fnsproxy.Range.{invalid_ip_addr}

-- At `a` stands the address of an address record of four bytes, within the packet, and it has a setting.
pub record IsAddress (geo_get : ℕ → ℕ) (pkt : Packet) (len a : ℕ) : Type 0 where
  pub after_header : header_size + 12 < a
  pub inside : a + 4 ≤ len
  pub a_record : net_u16 pkt (a - 10) ≡ dns_a_record
  pub four_bytes : net_u16 pkt (a - 2) ≡ 4
  pub set : geo_get (net_u32 pkt a) ≢ invalid_ip_addr

hostname-same :
    (f g : Packet) (len : ℕ)
    → SameUpTo len f g
    → skip_hostname f (len - header_size) header_size
      ≡ skip_hostname g (len - header_size) header_size
hostname-same f g len same = elim (dec_lt len header_size) [
  | yes short ↦
      let none_left : len - header_size ≡ 0 = omega arith in
      rw none_left (unfold skip_hostname in refl)
  | no long ↦ skip_hostname-same f g len same (len - header_size) header_size (omega arith)
]

net_u32-same :
    (f g : Packet) (len : ℕ) → SameUpTo len f g → (i : ℕ) → i + 4 ≤ len → net_u32 f i ≡ net_u32 g i
net_u32-same f g len same i h =
    rw (net_u16-same f g len same i (omega arith), net_u16-same f g len same (i + 2) (omega arith))

module _ (geo_get : ℕ → ℕ) where
  rewrite-cases :
      (pkt : Packet) (len q : ℕ)
      → header_size < q
      → net_u16 pkt (q + 2) ≡ dns_a_record
      → ((rewrite geo_get pkt len (found q)).1 ≡ pkt)
        ⊎ ((a : ℕ) × IsAddress geo_get pkt len a
            × (rewrite geo_get pkt len (found q) ≡ (ok, store_u32 pkt a (geo_get (net_u32 pkt a)))))
  unfolding rewrite
  rewrite-cases pkt len q after is_a = elim (Bool-cases (ltb (q + 12) len)) [
    | inr past ↦ inl (ground arith)
    | inl before ↦ elim (Bool-cases (leb (q + 12 + net_u16 pkt (q + 10)) len)) [
      | inr long ↦ inl (ground arith)
      | inl fits ↦ elim (Bool-cases (net_u16 pkt (q + 10) == 4)) [
        | inr other ↦ inl (ground arith)
        | inl four ↦ elim (Bool-cases (geo_get (net_u32 pkt (q + 12)) == invalid_ip_addr)) [
          | inl unset ↦ inl (ground arith)
          | inr set ↦
              let type_at : q + 12 - 10 ≡ q + 2 = omega arith in
              let length_at : q + 12 - 2 ≡ q + 10 = omega arith in
              inr (
                q + 12,
                record {
                  after_header = omega arith;
                  inside = ground arith;
                  a_record = ap (λ i. net_u16 pkt i) type_at ∙ is_a;
                  four_bytes = ground (arith, ap (λ i. net_u16 pkt i) length_at);
                  set = ground arith;
                },
                ground arith,
              )
        ]
      ]
    ]
  ]

  search-cases :
      (pkt : Packet) (len : ℕ) (answer : Search)
      → (let p = skip_hostname pkt (len - header_size) header_size + 1 in
          seek_address (len + 1) pkt len (p + 4) ≡ answer)
      → ((rewrite geo_get pkt len answer).1 ≡ pkt)
        ⊎ ((a : ℕ) × IsAddress geo_get pkt len a
            × (rewrite geo_get pkt len answer ≡ (ok, store_u32 pkt a (geo_get (net_u32 pkt a)))))
  search-cases pkt len out_of_fuel e = inl (unfold rewrite in refl)
  search-cases pkt len stopped e = inl (unfold rewrite in refl)
  search-cases pkt len (found q) e =
      let p = skip_hostname pkt (len - header_size) header_size + 1 in
      let bounds = skip_hostname_bounds pkt (len - header_size) header_size in
      let at = seek_address_found (len + 1) pkt len (p + 4) q (omega arith) e in
      rewrite-cases pkt len q (omega (arith, bounds.0, at.0)) at.2

  -- A packet is left as it is, or exactly one address in it is replaced: the four bytes of an address
  -- record within the packet, whose address has a setting, by that setting.
  pub parse_proxy-cases :
      (pkt : Packet) (len : ℕ)
      → ((parse_proxy geo_get pkt len).1 ≡ pkt)
        ⊎ ((a : ℕ) × IsAddress geo_get pkt len a
            × (parse_proxy geo_get pkt len ≡ (ok, store_u32 pkt a (geo_get (net_u32 pkt a)))))
  unfolding parse_proxy
  parse_proxy-cases pkt len =
      let p = skip_hostname pkt (len - header_size) header_size + 1 in
      elim (Bool-cases (not (net_u16 pkt nquestions == 1))) [
        | inl bad ↦ inl (ground arith)
        | inr one ↦ elim (Bool-cases (ltb len (p + 4))) [
          | inl short ↦ inl (ground arith)
          | inr full ↦ elim (Bool-cases (not (net_u16 pkt p == dns_a_record))) [
            | inl other ↦ inl (ground arith)
            | inr asks ↦
                rw (one, full, asks, parse_proxy)
                  (search-cases pkt len (seek_address (len + 1) pkt len (p + 4)) refl)
          ]
        ]
      ]

  rewrite_ends :
      (pkt : Packet) (len : ℕ) (answer : Search)
      → answer ≢ out_of_fuel
      → (rewrite geo_get pkt len answer).0 ≢ no_fuel
  unfolding rewrite
  rewrite_ends pkt len out_of_fuel h = absurd (h refl)
  rewrite_ends pkt len stopped h = ground arith
  rewrite_ends pkt len (found q) h = ground arith

  -- The loops end on every packet.
  pub parse_proxy_ends : (pkt : Packet) (len : ℕ) → (parse_proxy geo_get pkt len).0 ≢ no_fuel
  unfolding parse_proxy
  parse_proxy_ends pkt len =
      let p = skip_hostname pkt (len - header_size) header_size + 1 in
      ground (
        arith,
        seek_address_ends (len + 1) pkt len (p + 4),
        rewrite_ends pkt len (seek_address (len + 1) pkt len (p + 4)),
      )

  rewrite-same :
      (f g : Packet) (len : ℕ)
      → SameUpTo len f g
      → (answer : Search)
      → ((rewrite geo_get f len answer).0 ≡ (rewrite geo_get g len answer).0)
        × SameUpTo len (rewrite geo_get f len answer).1 (rewrite geo_get g len answer).1
  unfolding rewrite
  rewrite-same f g len same out_of_fuel = (refl, same)
  rewrite-same f g len same stopped = (refl, same)
  rewrite-same f g len same (found q) =
      let size : q + 12 < len → net_u16 f (q + 10) ≡ net_u16 g (q + 10) =
        λ b. net_u16-same f g len same (q + 10) (omega arith) in
      let address : q + 12 + 4 ≤ len → net_u32 f (q + 12) ≡ net_u32 g (q + 12) =
        λ b. net_u32-same f g len same (q + 12) b in
      (ground (arith, size, address), λ i lt. ground (arith, size, address, same i lt))

  -- Nothing past the end of the packet has a part in the result, if the packet holds the count of the
  -- questions: two buffers with the same bytes up to `len` give the same status, and the same
  -- bytes up to `len`.
  pub parse_proxy-same :
      (f g : Packet) (len : ℕ)
      → 6 ≤ len
      → SameUpTo len f g
      → ((parse_proxy geo_get f len).0 ≡ (parse_proxy geo_get g len).0)
        × SameUpTo len (parse_proxy geo_get f len).1 (parse_proxy geo_get g len).1
  unfolding parse_proxy
  parse_proxy-same f g len six same =
      let p = skip_hostname f (len - header_size) header_size + 1 in
      let name = hostname-same f g len same in
      let count = net_u16-same f g len same nquestions (omega arith) in
      rw (← name, ← count, parse_proxy)
        (elim (Bool-cases (ltb len (p + 4))) [
          | inl short ↦ (ground arith, λ i lt. ground (arith, same i lt))
          | inr full ↦
              let kind = net_u16-same f g len same p (ground arith) in
              let answers = seek_address-same f g len same (len + 1) (p + 4) (omega arith) in
              let done = rewrite-same f g len same (seek_address (len + 1) f len (p + 4)) in
              rw (← kind, ← answers)
                (ground (arith, done.0), λ i lt. ground (arith, done.1 i lt, same i lt))
        ])
