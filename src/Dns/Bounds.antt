-- ===== src/Dns/Bounds.antt =====
-- The loops of dns.c end, and what they read lies in the packet.
use fnsproxy.Base.{ℕ, zero, suc, ◌+◌, ◌-◌, ◌≡◌, ◌≢◌, ◌≤◌, ◌<◌, refl, arith}
use fnsproxy.Dns.{
  Packet, net_u16, skip_hostname, skip_name, record_start, found, out_of_fuel, seek_address,
  dns_a_record,
}

pub skip_hostname_bounds :
    (pkt : Packet) (rounds p : ℕ)
    → (p ≤ skip_hostname pkt rounds p) × (skip_hostname pkt rounds p ≤ p + rounds)
unfolding skip_hostname
skip_hostname_bounds pkt zero p = omega arith
skip_hostname_bounds pkt (suc rounds) p = ground (arith, skip_hostname_bounds pkt rounds (p + 1))

skip_name_bounds :
    (pkt : Packet) (e rounds p : ℕ)
    → p + 12 ≤ e
    → (p ≤ skip_name pkt e rounds p) × (skip_name pkt e rounds p + 12 ≤ e)
unfolding skip_name
skip_name_bounds pkt e zero p h = omega arith
skip_name_bounds pkt e (suc rounds) p h = ground (arith, skip_name_bounds pkt e rounds (p + 1))

pub record_start_bounds :
    (pkt : Packet) (e p : ℕ)
    → 0 < p
    → p + 12 < e
    → (p ≤ record_start pkt e p + 1) × (record_start pkt e p + 12 < e)
unfolding record_start
record_start_bounds pkt e p pos h = ground (arith, skip_name_bounds pkt e (e - p) p)

-- The loop over the answers ends within as many rounds as there are bytes left.
pub seek_address_ends :
    (fuel : ℕ) (pkt : Packet) (e p : ℕ)
    → 0 < p
    → e - p < fuel
    → seek_address fuel pkt e p ≢ out_of_fuel
unfolding seek_address
seek_address_ends zero pkt e p pos h = absurd (omega arith)
seek_address_ends (suc fuel) pkt e p pos h = ground (
  arith,
  record_start_bounds pkt e p pos,
  seek_address_ends fuel pkt e
      (record_start pkt e p + (12 + net_u16 pkt (record_start pkt e p + 10))),
)

-- Where the loop finds an address record, its header lies in the packet, before the end.
pub seek_address_found :
    (fuel : ℕ) (pkt : Packet) (e p q : ℕ)
    → 0 < p
    → seek_address fuel pkt e p ≡ found q
    → (p ≤ q + 1) × (q + 12 < e) × (net_u16 pkt (q + 2) ≡ dns_a_record)
unfolding seek_address
seek_address_found zero pkt e p q pos h = cc
seek_address_found (suc fuel) pkt e p q pos h = ground (
  arith,
  record_start_bounds pkt e p pos,
  seek_address_found fuel pkt e
      (record_start pkt e p + (12 + net_u16 pkt (record_start pkt e p + 10))) q,
)

-- Two packets that hold the same bytes up to `len`.
abbrev pub SameUpTo : (len : ℕ) → Packet → Packet → Type 0
SameUpTo len f g = (i : ℕ) → i < len → f i ≡ g i

module _ (f g : Packet) (len : ℕ) (same : SameUpTo len f g) where
  pub skip_hostname-same :
      (rounds p : ℕ) → p + rounds ≤ len → skip_hostname f rounds p ≡ skip_hostname g rounds p
  unfolding skip_hostname
  skip_hostname-same zero p h = refl
  skip_hostname-same (suc rounds) p h =
      rw (same p (omega arith), skip_hostname-same rounds (p + 1) (omega arith))

  skip_name-same : (rounds p : ℕ) → p < len → skip_name f len rounds p ≡ skip_name g len rounds p
  unfolding skip_name
  skip_name-same zero p h = refl
  skip_name-same (suc rounds) p h = ground (arith, same p h, skip_name-same rounds (p + 1))

  record_start-same : (p : ℕ) → p < len → record_start f len p ≡ record_start g len p
  unfolding record_start
  record_start-same p h = rw (same p h, skip_name-same (len - p) p h)

  pub net_u16-same : (i : ℕ) → i + 1 < len → net_u16 f i ≡ net_u16 g i
  net_u16-same i h = rw (same i (omega arith), same (i + 1) h)

  pub seek_address-same :
      (fuel p : ℕ) → 0 < p → seek_address fuel f len p ≡ seek_address fuel g len p
  unfolding seek_address
  seek_address-same zero p pos = refl
  seek_address-same (suc fuel) p pos = ground (
    arith,
    record_start-same p,
    record_start_bounds f len p pos,
    net_u16-same (record_start f len p + 2),
    net_u16-same (record_start f len p + 10),
    seek_address-same fuel (record_start f len p + (12 + net_u16 f (record_start f len p + 10))),
  )
