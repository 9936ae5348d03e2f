-- ===== src/Dns/Chain.antt =====
-- Responses as they are laid out: a host name, then aliases, then an address.
use fnsproxy.Base.{
  ℕ, zero, suc, ◌+◌, ◌-◌, ◌/◌, ◌%◌, ◌^◌, ◌≡◌, ◌≢◌, ◌≤◌, ◌<◌, ◌⊎◌, ap, true, false, ◌==◌, ltb, leb,
  arith, inl, inr, ◌∙◌,
}
use fnsproxy.Dns.{
  Packet, ok, net_u16, net_u32, store_u32, skip_hostname, skip_name, record_start, found,
  seek_address, process_ip, rewrite, parse_proxy, header_size, nquestions, dns_a_record,
  dns_cname_record,
}
use fnsproxy.Dns.Bounds.{record_start_bounds}
use fnsproxy.Range.{invalid_ip_addr}

-- A name written out from `p`, whose last byte, the empty label, stands at `z`.
pub record IsName (pkt : Packet) (p z : ℕ) : Type 0 where
  pub ordered : p ≤ z
  pub labels : (i : ℕ) → p ≤ i → i < z → pkt i ≢ 0
  pub terminator : pkt z ≡ 0

-- The record at `p` has its type two bytes past `q`: its name is compressed, or written out.
pub data Head (pkt : Packet) (e p q : ℕ) : Type 0 where
  compressed : pkt p / 2 ^ 6 % 2 ^ 2 ≡ 3 → q ≡ p → Head pkt e p q
  plain : pkt p / 2 ^ 6 % 2 ^ 2 ≢ 3 → IsName pkt p (q + 1) → q + 13 ≤ e → Head pkt e p q

-- From `p`, over aliases, to the address record whose type stands two bytes past `q`.
pub data Leads (pkt : Packet) (e q : ℕ) : ℕ → Type 0 where
  address :
      (p : ℕ) → p + 12 < e → Head pkt e p q → net_u16 pkt (q + 2) ≡ dns_a_record → Leads pkt e q p
  alias :
      (p h next : ℕ)
      → p + 12 < e
      → Head pkt e p h
      → net_u16 pkt (h + 2) ≡ dns_cname_record
      → next ≡ h + (12 + net_u16 pkt (h + 10))
      → Leads pkt e q next
      → Leads pkt e q p

-- The rest of a name that has a label's byte at `p`.
IsName-next : (pkt : Packet) (p z : ℕ) → IsName pkt p z → pkt p ≢ 0 → IsName pkt (p + 1) z
IsName-next pkt p z n h = elim (Nat_cases p z n.ordered) [
  | inl same ↦ absurd (h (ap pkt same ∙ n.terminator))
  | inr lt ↦ record {
    ordered = omega arith;
    labels = λ i a b. n.labels i (omega arith) b;
    terminator = n.terminator;
  }
]
  where
    Nat_cases : (a b : ℕ) → a ≤ b → (a ≡ b) ⊎ (a < b)
    Nat_cases a b h = omega arith

-- A name ends at its first zero.
IsName-end : (pkt : Packet) (p z : ℕ) → IsName pkt p z → pkt p ≡ 0 → p ≡ z
IsName-end pkt p z n h = ground (arith, n.labels p)

module _ (pkt : Packet) where
  skip_hostname-IsName :
      (rounds p z : ℕ) → IsName pkt p z → z < p + rounds → skip_hostname pkt rounds p ≡ z
  unfolding skip_hostname
  skip_hostname-IsName zero p z n h = absurd (omega (arith, n.ordered))
  skip_hostname-IsName (suc rounds) p z n h = ground (
    arith,
    IsName-end pkt p z n,
    λ (more : pkt p ≢ 0).
        skip_hostname-IsName rounds (p + 1) z (IsName-next pkt p z n more) (omega arith),
  )

  skip_name-IsName :
      (e rounds p z : ℕ)
      → IsName pkt p z
      → z < p + rounds
      → z + 12 ≤ e
      → skip_name pkt e rounds p ≡ z
  unfolding skip_name
  skip_name-IsName e zero p z n h b = absurd (omega (arith, n.ordered))
  skip_name-IsName e (suc rounds) p z n h b = ground (
    arith,
    IsName-end pkt p z n,
    λ (more : pkt p ≢ 0). (IsName-next pkt p z n more).ordered,
    λ (more : pkt p ≢ 0).
        skip_name-IsName e rounds (p + 1) z (IsName-next pkt p z n more) (omega arith) b,
  )

  record_start-Head : (e p q : ℕ) → p + 12 < e → Head pkt e p q → record_start pkt e p ≡ q
  unfolding record_start
  record_start-Head e p q h (compressed c same) = ground arith
  record_start-Head e p q h (plain c n b) = ground (arith, skip_name-IsName e (e - p) p (q + 1) n)

  seek_address-Leads :
      (fuel e q p : ℕ)
      → 0 < p
      → e - p < fuel
      → Leads pkt e q p
      → seek_address fuel pkt e p ≡ found q
  unfolding seek_address
  seek_address-Leads zero e q p pos h l = absurd (omega arith)
  seek_address-Leads (suc fuel) e q _ pos h (address p b head is_a) =
      let start = record_start-Head e p q b head in
      ground (arith, start, ap (λ i. net_u16 pkt (i + 2)) start)
  seek_address-Leads (suc fuel) e q _ pos h (alias p r next b head is_cname step rest) =
      let start = record_start-Head e p r b head in
      let ahead = record_start_bounds pkt e p pos b in
      let more =
        seek_address-Leads fuel e q next (omega arith) (omega (arith, start, ahead.0)) rest in
      rw (start, seek_address)
        (ground (arith, is_cname, more, ap (λ i. seek_address fuel pkt e i) step))

  rewrite-found :
      (geo_get : ℕ → ℕ) (len q : ℕ)
      → net_u16 pkt (q + 10) ≡ 4
      → q + 16 ≤ len
      → geo_get (net_u32 pkt (q + 12)) ≢ invalid_ip_addr
      → rewrite geo_get pkt len (found q)
        ≡ (ok, store_u32 pkt (q + 12) (geo_get (net_u32 pkt (q + 12))))
  unfolding rewrite
  rewrite-found geo_get len q four inside set =
      let before : ltb (q + 12) len ≡ true = ground arith in
      let fits : leb (q + 12 + net_u16 pkt (q + 10)) len ≡ true = ground arith in
      let size : (net_u16 pkt (q + 10) == 4) ≡ true = ground arith in
      let unset : (geo_get (net_u32 pkt (q + 12)) == invalid_ip_addr) ≡ false = ground arith in
      rw (before, fits, size, unset, rewrite, process_ip)

  -- A response with one question, for an address, in which aliases lead to an address record of four
  -- bytes within the packet, gets that address replaced by its setting, if it has one.
  pub parse_proxy-Leads :
      (geo_get : ℕ → ℕ) (len z q : ℕ)
      → net_u16 pkt nquestions ≡ 1
      → IsName pkt header_size z
      → z + 5 ≤ len
      → net_u16 pkt (z + 1) ≡ dns_a_record
      → Leads pkt len q (z + 5)
      → net_u16 pkt (q + 10) ≡ 4
      → q + 16 ≤ len
      → geo_get (net_u32 pkt (q + 12)) ≢ invalid_ip_addr
      → parse_proxy geo_get pkt len ≡ (ok, store_u32 pkt (q + 12) (geo_get (net_u32 pkt (q + 12))))
  unfolding parse_proxy
  parse_proxy-Leads geo_get len z q one name room asks leads four inside set =
      let host =
        skip_hostname-IsName (len - header_size) header_size z name (omega (arith, name.ordered)) in
      let five : z + 1 + 4 ≡ z + 5 = omega arith in
      let answer = seek_address-Leads (len + 1) len q (z + 5) (omega arith) (omega arith) leads in
      let single : (net_u16 pkt nquestions == 1) ≡ true = ground arith in
      let full : ltb len (z + 5) ≡ false = ground arith in
      let kind : (net_u16 pkt (z + 1) == dns_a_record) ≡ true = ground arith in
      rw (host, five, answer, single, full, kind, parse_proxy)
        (rewrite-found geo_get len q four inside set)
