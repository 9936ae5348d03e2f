-- ===== src/Proxy/File.antt =====
-- A file of networks, and a response: geo_load and dns_parse_proxy.
use fnsproxy.Base.{ℕ, ◌+◌, ◌≡◌, ◌≢◌, ◌<◌, ◌∙◌, sym, ap, Bool, true, List, Option, some, Text}
use fnsproxy.Radix.{no_value}
use fnsproxy.Geo.{Geo, get}
use fnsproxy.Geo.Load.{loaded, load, geo_cidr}
use fnsproxy.Geo.Table.{Table, told, tell_file, narrowest}
use fnsproxy.Geo.Table.File.{load-narrowest}
use fnsproxy.Dns
use fnsproxy.Dns.{Packet, net_u32, store_u32, parse_proxy}
use fnsproxy.Dns.Chain.{parse_proxy-Leads}
use fnsproxy.Proxy.{IsResponse}

-- The settings of a CIDR file whose lines mean the table `v` are loaded, and with them a response that answers
-- with an address gets the address of the narrowest network of `v` that it is in, where there is one:
-- `dns_parse_proxy` returns 0, and nothing else of the packet changes. Memory for 33 nodes is granted, and
-- files are nested less deep than the fuel.
pub load-parse_proxy :
    (inet_aton : Text → Option ℕ) (atoi : Text → ℕ) (grants : ℕ → Bool) (rounds mem : ℕ)
    (open_file : Text → Option (List Text)) (fuel : ℕ) (filename : Text) (v : Table) (pkt : Packet)
    (len z q : ℕ)
    → 32 < mem
    → grants 16 ≡ true
    → tell_file inet_aton atoi open_file fuel (λ path. no_value) filename ≡ told v
    → IsResponse pkt len z q
    → narrowest v (net_u32 pkt (q + 12)) ≢ no_value
    → (g : Geo) × (load inet_aton atoi grants rounds mem open_file fuel (some filename) geo_cidr
        ≡ loaded g)
      × (parse_proxy (get g) pkt len
          ≡ (Dns.ok, store_u32 pkt (q + 12) (narrowest v (net_u32 pkt (q + 12)))))
load-parse_proxy inet_aton atoi grants rounds mem open_file fuel filename v pkt len z q memory
      granted means r there =
    let address = net_u32 pkt (q + 12) in
    let (g, done, found) =
      load-narrowest inet_aton atoi grants rounds mem memory open_file fuel filename v address
        granted means in
    (
      g,
      done,
      parse_proxy-Leads pkt (get g) len z q r.one r.name r.room r.asks r.leads r.four r.inside
            (λ e. there (sym found ∙ e))
          ∙ ap (λ (a : ℕ). (Dns.ok, store_u32 pkt (q + 12) a)) found,
    )
