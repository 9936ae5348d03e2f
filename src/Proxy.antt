-- ===== src/Proxy.antt =====
-- The parts together: a line of the settings file (geo.c) and a response that is rewritten by it (dns.c), as
-- `process_ip` does with `geo_get` of the settings of the server. Both kinds of settings, by network and by
-- range, serve as `Settings`.
pub mod Cidr
pub mod Ranges
pub mod File
mod Tests
use fnsproxy.Base.{ℕ, ◌+◌, ◌≡◌, ◌≢◌, ◌≤◌, ◌∙◌, sym, ap, Text}
use fnsproxy.Geo.{Status, ok, Geo, get}
use fnsproxy.Dns
use fnsproxy.Dns.{
  Packet, dns_a_record, net_u16, net_u32, store_u32, nquestions, header_size, parse_proxy,
}
use fnsproxy.Dns.Chain.{IsName, Leads, parse_proxy-Leads}

-- A response with one question, for an address, and aliases that lead to the address record at `q`.
pub record IsResponse (pkt : Packet) (len z q : ℕ) : Type 0 where
  pub one : net_u16 pkt nquestions ≡ 1
  pub name : IsName pkt header_size z
  pub room : z + 5 ≤ len
  pub asks : net_u16 pkt (z + 1) ≡ dns_a_record
  pub leads : Leads pkt len q (z + 5)
  pub four : net_u16 pkt (q + 10) ≡ 4
  pub inside : q + 16 ≤ len

-- What a kind of settings promises: how a line is applied, and when the line decides what an address is
-- replaced by.
pub record Settings (State : Type 0) : Type 1 where
  pub geo_of : State → Geo
  pub apply_line : State → (key value : Text) → Status × State
  pub Decides : State → (key value : Text) → (address ip : ℕ) → Type 0
  pub apply_line-ok :
      (s : State) (key value : Text) (address ip : ℕ)
      → Decides s key value address ip
      → (apply_line s key value).0 ≡ ok
  pub apply_line-get :
      (s : State) (key value : Text) (address ip : ℕ)
      → Decides s key value address ip
      → get (geo_of (apply_line s key value).1) address ≡ ip
  pub is_set :
      (s : State) (key value : Text) (address ip : ℕ) → Decides s key value address ip → ip ≢ 0

-- With settings of either kind, a response that answers with an address that the line decides gets that
-- address replaced by the line's: the line succeeds, `dns_parse_proxy` returns 0, and nothing else of the
-- packet changes.
pub apply_line-parse_proxy :
    {State : Type 0} (settings : Settings State) (s : State) (key value : Text) (ip : ℕ)
    (pkt : Packet) (len z q : ℕ)
    → settings.Decides s key value (net_u32 pkt (q + 12)) ip
    → IsResponse pkt len z q
    → let (status, s') = settings.apply_line s key value in
      (status ≡ ok)
      × (parse_proxy (get (settings.geo_of s')) pkt len ≡ (Dns.ok, store_u32 pkt (q + 12) ip))
apply_line-parse_proxy settings s key value ip pkt len z q decides r =
    let address = net_u32 pkt (q + 12) in
    let s' = (settings.apply_line s key value).1 in
    let found = settings.apply_line-get s key value address ip decides in
    let set = settings.is_set s key value address ip decides in
    (
      settings.apply_line-ok s key value address ip decides,
      parse_proxy-Leads pkt (get (settings.geo_of s')) len z q r.one r.name r.room r.asks r.leads
            r.four r.inside (λ e. set (sym found ∙ e))
          ∙ ap (λ (a : ℕ). (Dns.ok, store_u32 pkt (q + 12) a)) found,
    )
