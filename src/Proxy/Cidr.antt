-- ===== src/Proxy/Cidr.antt =====
-- Settings by network: a line with a network, in a trie.
use fnsproxy.Base.{
  ℕ, zero, suc, ◌+◌, ◌/◌, ◌≡◌, ◌≢◌, ◌≤◌, ◌<◌, ◌∙◌, refl, sym, true, false, [], Option, some, arith,
  Text, codes, same_text,
}
use fnsproxy.Radix.{Tree, no_value}
use fnsproxy.Radix.Paths.{value_at, network, same_path, same_path_refl}
use fnsproxy.Radix.Find.{IsShallow, prefix, prefix_from, IsLongest, find-IsLongest}
use fnsproxy.Radix.Trimmed.{IsTrimmed}
use fnsproxy.Geo.{Status, ok, by_cidr, get, parse_cidr, geo_parse_cidr}
use fnsproxy.Geo.Cidr.{IsSetBy, geo_parse_cidr-IsSetBy, get-by_cidr}
use fnsproxy.Dns
use fnsproxy.Dns.{Packet, net_u32, store_u32, parse_proxy}
use fnsproxy.Proxy.{IsResponse, Settings, apply_line-parse_proxy}

-- A line with the network of `addr` and `mask`, which is not the whole space, and with an address.
pub record IsLine (inet_aton : Text → Option ℕ) (atoi : Text → ℕ) (cidr value : Text)
    (addr mask ip : ℕ) : Type 0 where
  pub not_default : same_text cidr (codes "default") ≡ false
  pub not_delete : same_text cidr (codes "delete") ≡ false
  pub parsed : parse_cidr inet_aton atoi cidr ≡ some (addr, mask)
  pub address : inet_aton value ≡ some ip
  pub set : ip ≢ no_value
  pub below : network addr mask ≢ []

same_path-prefix_from :
    (m n bit key : ℕ) → n < m → same_path (prefix_from m bit key) (prefix_from n bit key) ≡ false
unfolding prefix_from
same_path-prefix_from zero n bit key lt = absurd (omega arith)
same_path-prefix_from (suc m) zero bit key lt = refl
same_path-prefix_from (suc m) (suc n) bit key lt =
    ground (arith, same_path-prefix_from m n (bit / 2) key (omega arith))

-- The first `n` bits of the key are the network, and the settings have no longer network of the key.
pub record IsNarrowest (t : Tree) (addr mask key n : ℕ) : Type 0 where
  pub bits : n ≤ 32
  pub inside : prefix key n ≡ network addr mask
  pub longest : (m : ℕ) → n < m → m ≤ 32 → value_at t.root (prefix key m) ≡ no_value

module _ (t : Tree) (addr mask ip key n : ℕ) (result : Status × Tree)
    (by : IsSetBy t addr mask ip result) (set : ip ≢ no_value)
    (narrowest : IsNarrowest t addr mask key n) where
  value_at-prefix : value_at result.1.root (prefix key n) ≡ ip
  value_at-prefix =
      let same : same_path (prefix key n) (network addr mask) ≡ true =
        rw narrowest.inside (same_path_refl (network addr mask)) in
      by.values (prefix key n) ∙ rw same refl

  IsSetBy-IsLongest : IsLongest result.1 key n
  IsSetBy-IsLongest = (
    narrowest.bits,
    λ e. set (sym value_at-prefix ∙ e),
    λ m more few.
        let other : same_path (prefix key m) (network addr mask) ≡ false =
          rw (← narrowest.inside) (same_path-prefix_from m n _ key more) in
        by.values (prefix key m) ∙ rw other (narrowest.longest m more few),
  )

  IsSetBy-get : get (by_cidr result.1) key ≡ ip
  IsSetBy-get =
      get-by_cidr result.1 key
      ∙ (find-IsLongest result.1 key n by.shallow IsSetBy-IsLongest ∙ value_at-prefix)

module _ (inet_aton : Text → Option ℕ) (atoi : Text → ℕ) (mem : ℕ) where
  -- The line sets a network that is the narrowest one of the address; memory for 33 nodes is granted.
  pub record IsDecided (t : Tree) (cidr value : Text) (address ip : ℕ) : Type 0 where
    pub addr : ℕ
    pub mask : ℕ
    pub n : ℕ
    pub trimmed : IsTrimmed t
    pub shallow : IsShallow t
    pub memory : 32 < mem
    pub line : IsLine inet_aton atoi cidr value addr mask ip
    pub narrowest : IsNarrowest t addr mask address n

  IsDecided-IsSetBy :
      (t : Tree) (cidr value : Text) (address ip : ℕ) (d : IsDecided t cidr value address ip)
      → IsSetBy t d.addr d.mask ip (geo_parse_cidr inet_aton atoi mem t cidr value)
  IsDecided-IsSetBy t cidr value address ip d =
      geo_parse_cidr-IsSetBy inet_aton atoi mem t cidr value d.addr d.mask ip d.trimmed d.shallow
        d.memory d.line.not_default d.line.not_delete d.line.parsed d.line.address d.line.set
        d.line.below

  abbrev networks : Settings Tree
  networks = record {
    geo_of = by_cidr;
    apply_line = geo_parse_cidr inet_aton atoi mem;
    Decides = IsDecided;
    apply_line-ok =
        λ t cidr value address ip d. (IsDecided-IsSetBy t cidr value address ip d).status;
    apply_line-get = λ t cidr value address ip d.
        IsSetBy-get t d.addr d.mask ip address d.n (geo_parse_cidr inet_aton atoi mem t cidr value)
          (IsDecided-IsSetBy t cidr value address ip d) d.line.set d.narrowest;
    is_set = λ t cidr value address ip d. d.line.set;
  }

  -- Once a line of the settings file has set a network, a response that answers with an address of that
  -- network, and of no narrower one, gets that address replaced by the line's: the line succeeds,
  -- `dns_parse_proxy` returns 0, and nothing else of the packet changes. Memory for 33 nodes is granted.
  pub geo_parse_cidr-parse_proxy :
      (t : Tree) (cidr value : Text) (addr mask ip n : ℕ) (pkt : Packet) (len z q : ℕ)
      → IsTrimmed t
      → IsShallow t
      → 32 < mem
      → IsLine inet_aton atoi cidr value addr mask ip
      → IsResponse pkt len z q
      → IsNarrowest t addr mask (net_u32 pkt (q + 12)) n
      → let (status, t') = geo_parse_cidr inet_aton atoi mem t cidr value in
        (status ≡ ok)
        × (parse_proxy (get (by_cidr t')) pkt len ≡ (Dns.ok, store_u32 pkt (q + 12) ip))
  geo_parse_cidr-parse_proxy t cidr value addr mask ip n pkt len z q trimmed shallow memory line r
        narrowest =
      apply_line-parse_proxy networks t cidr value ip pkt len z q
        (record {
          addr = addr;
          mask = mask;
          n = n;
          trimmed = trimmed;
          shallow = shallow;
          memory = memory;
          line = line;
          narrowest = narrowest;
        })
        r
