-- ===== src/Dns.antt =====
-- dns.c: the rewriting of the address in a DNS response.
-- A packet is the memory behind `pkt`, by the byte; pointers into it are indices, and `len` is what
-- `recvfrom` returned. `geo_get` is a parameter here: the setting that is loaded, as a function
-- from addresses in host order, with 0 for no address.
pub mod Bounds
pub mod Rewrite
pub mod Chain
mod Tests
use fnsproxy.Base.{
  ℕ, zero, suc, ◌+◌, ◌*◌, ◌-◌, ◌/◌, ◌%◌, ◌^◌, Bool, true, false, not, ◌&&◌, ◌||◌, ◌==◌, ltb, leb,
  if◌then◌else◌, update,
}
use fnsproxy.Range.{invalid_ip_addr}

abbrev pub dns_a_record : ℕ
dns_a_record = 0x01

abbrev pub dns_cname_record : ℕ
dns_cname_record = 0x05

abbrev pub Packet : Type 0
Packet = ℕ → ℕ

-- `ntohs` of the two bytes at an index, and `ntohl` of the four.
abbrev pub net_u16 : Packet → ℕ → ℕ
net_u16 pkt i = pkt i * 2 ^ 8 + pkt (i + 1)

abbrev pub net_u32 : Packet → ℕ → ℕ
net_u32 pkt i = net_u16 pkt i * 2 ^ 16 + net_u16 pkt (i + 2)

-- The store of `htonl (x)` at an index.
abbrev pub store_u32 : Packet → ℕ → ℕ → Packet
store_u32 pkt i x =
    update
      (update (update (update pkt i (x / 2 ^ 24 % 2 ^ 8)) (i + 1) (x / 2 ^ 16 % 2 ^ 8)) (i + 2)
        (x / 2 ^ 8 % 2 ^ 8))
      (i + 3) (x % 2 ^ 8)

-- What `dns_parse_proxy` returns: 0 or -1; `no_fuel` belongs to the model.
pub data Status : Type 0 where
  ok error no_fuel : Status

-- The offset of `data` in `dns_header_t`, and that of `nquestions`.
abbrev pub header_size : ℕ
header_size = 12

abbrev pub nquestions : ℕ
nquestions = 4

-- The loop over the host name, with `rounds` bytes left of the packet: where it stops.
pub skip_hostname : (pkt : Packet) (rounds p : ℕ) → ℕ
skip_hostname pkt zero p = p
skip_hostname pkt (suc rounds) p =
    let further = skip_hostname pkt rounds (p + 1) in if pkt p == 0 then p else further

-- The inner loop over the name of an answer: `*p && &p[12] < e`, with `rounds` bytes left.
pub skip_name : (pkt : Packet) (e rounds p : ℕ) → ℕ
skip_name pkt e zero p = p
skip_name pkt e (suc rounds) p =
    let further = skip_name pkt e rounds (p + 1) in
    if not (pkt p == 0) && ltb (p + 12) e then further else p

-- The start of an answer, less the name: a compressed name is the two bytes before the type.
pub record_start : (pkt : Packet) (e p : ℕ) → ℕ
unfolding skip_name
record_start pkt e p = if pkt p / 2 ^ 6 % 2 ^ 2 == 3 then p else skip_name pkt e (e - p) p - 1

-- How the loop over the answers ends.
pub data Search : Type 0 where
  found : ℕ → Search
  stopped : Search
  out_of_fuel : Search

-- The loop over the answers.
pub seek_address : (fuel : ℕ) → (pkt : Packet) (e p : ℕ) → Search
unfolding record_start
seek_address zero pkt e p = out_of_fuel
seek_address (suc fuel) pkt e p =
    let q = record_start pkt e p in
    let next = seek_address fuel pkt e (q + (12 + net_u16 pkt (q + 10))) in
    if not (ltb (p + 12) e)
    then stopped
    else if net_u16 pkt (q + 2) == dns_cname_record
    then next
    else if net_u16 pkt (q + 2) == dns_a_record
    then found q
    else stopped

module _ (geo_get : ℕ → ℕ) where
  -- `process_ip`; the debug log is left out.
  pub process_ip : Packet → (p len : ℕ) → Status × Packet
  process_ip pkt p len =
      if not (len == 4)
      then (error, pkt)
      else if geo_get (net_u32 pkt p) == invalid_ip_addr
      then (error, pkt)
      else (ok, store_u32 pkt p (geo_get (net_u32 pkt p)))

  -- What follows the loop over the answers.
  pub rewrite : Packet → (e : ℕ) → Search → Status × Packet
  unfolding process_ip
  rewrite pkt e out_of_fuel = (no_fuel, pkt)
  rewrite pkt e stopped = (ok, pkt)
  rewrite pkt e (found q) =
      if ltb (q + 12) e
      then if leb (q + 12 + net_u16 pkt (q + 10)) e
        then process_ip pkt (q + 12) (net_u16 pkt (q + 10))
        else (ok, pkt)
      else (ok, pkt)

  -- `dns_parse_proxy`. Each round of the loop over the answers moves on, so `len` and one are enough.
  pub parse_proxy : Packet → (len : ℕ) → Status × Packet
  unfolding skip_hostname seek_address rewrite
  parse_proxy pkt len =
      let p = skip_hostname pkt (len - header_size) header_size + 1 in
      if not (net_u16 pkt nquestions == 1)
      then (error, pkt)
      else if ltb len (p + 4)
      then (error, pkt)
      else if not (net_u16 pkt p == dns_a_record)
      then (error, pkt)
      else rewrite pkt len (seek_address (len + 1) pkt len (p + 4))
