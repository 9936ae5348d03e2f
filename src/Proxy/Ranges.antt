-- ===== src/Proxy/Ranges.antt =====
-- Settings by range: a line with a range, in the buckets.
use fnsproxy.Base.{ℕ, ◌+◌, ◌≡◌, ◌≢◌, ◌∙◌, refl, true, Option, Text}
use fnsproxy.Range.{Range}
use fnsproxy.Range.Insert.{IsRange, within}
use fnsproxy.Range.Success.{always, IsFree}
use fnsproxy.Geo.{ok, by_range, get, geo_parse_range}
use fnsproxy.Geo.Ranges.{IsRangeLine, geo_parse_range-get}
use fnsproxy.Dns
use fnsproxy.Dns.{Packet, net_u32, store_u32, parse_proxy}
use fnsproxy.Proxy.{IsResponse, Settings, apply_line-parse_proxy}

module _ (inet_aton : Text → Option ℕ) (atoi : Text → ℕ) where
  -- The buckets are in order, the line sets a range with the address, and no stored range shares a key with it.
  pub record IsDecided (r : Range) (range value : Text) (address ip : ℕ) : Type 0 where
    pub start : ℕ
    pub end : ℕ
    pub sound : IsRange r
    pub free : IsFree r start end
    pub line : IsRangeLine inet_aton atoi range value start end ip
    pub inside : within start end address ≡ true
    pub set : ip ≢ 0

  pub IsDecided-get :
      (r : Range) (range value : Text) (address ip : ℕ)
      → IsDecided r range value address ip
      → let (status, r') = geo_parse_range inet_aton atoi always 0x1_0000 r range value in
        (status ≡ ok) × (get (by_range r') address ≡ ip)
  IsDecided-get r range value address ip d =
      let (done, found) =
        geo_parse_range-get inet_aton atoi range value d.start d.end ip d.line r d.sound d.free in
      (done, found address ∙ rw d.inside refl)

  abbrev pub ranges : Settings Range
  ranges = record {
    geo_of = by_range;
    apply_line = geo_parse_range inet_aton atoi always 0x1_0000;
    Decides = IsDecided;
    apply_line-ok = λ r range value address ip d. (IsDecided-get r range value address ip d).0;
    apply_line-get = λ r range value address ip d. (IsDecided-get r range value address ip d).1;
    is_set = λ r range value address ip d. d.set;
  }

  -- Where the buckets are in order, once a line of the settings file has set a range, a response that answers
  -- with an address of that range gets that address replaced by the line's: the line succeeds,
  -- `dns_parse_proxy` returns 0, and nothing else of the packet changes. No stored range shares a key with
  -- the new one, the end is below 0xffff0000, the address set is not 0, and all memory is granted.
  pub geo_parse_range-parse_proxy :
      (r : Range) (range value : Text) (ip : ℕ) (pkt : Packet) (len z q : ℕ)
      → IsDecided r range value (net_u32 pkt (q + 12)) ip
      → IsResponse pkt len z q
      → let (status, r') = geo_parse_range inet_aton atoi always 0x1_0000 r range value in
        (status ≡ ok)
        × (parse_proxy (get (by_range r')) pkt len ≡ (Dns.ok, store_u32 pkt (q + 12) ip))
  geo_parse_range-parse_proxy = apply_line-parse_proxy ranges
