-- ===== src/Geo/Cidr.antt =====
-- `geo_parse_cidr` on the trie: what a line of a CIDR file does to the lookups.
use fnsproxy.Base.{
  ℕ, zero, suc, ◌/◌, ◌≡◌, ◌≢◌, ◌≤◌, ◌<◌, ap, refl, Bool, true, false, not, ◌&&◌, ◌==◌, arith, List,
  [], Option, none, some, if◌then◌else◌, inl, inr, Bool-cases, Option-cases, Text, codes, same_text,
  same_text_refl, split_at, has_bit, top_bit,
}
use fnsproxy.Radix
use fnsproxy.Radix.{Tree, no_value}
use fnsproxy.Radix.Paths.{value_at, path_from, network, same_path, same_path_refl}
use fnsproxy.Radix.Insert.{insert-status, insert-value_at, insert-failed}
use fnsproxy.Radix.Delete.{delete-value_at, delete-error}
use fnsproxy.Radix.Trimmed.{IsTrimmed, delete-status, delete-IsTrimmed, insert-IsTrimmed}
use fnsproxy.Radix.Find.{prefix, prefix_from, IsShallow}
use fnsproxy.Radix.Height.{insert-IsShallow, delete-IsShallow}
use fnsproxy.Geo.{
  Status, ok, error, shift_mask, retry, set_cidr, geo_parse_cidr, parse_cidr, get, by_cidr,
}

-- Whether a mask has `n` ones from `bit` down, and then a zero.
leading_ones : (k n bit mask : ℕ) → Bool
leading_ones zero n bit mask = n == 0
leading_ones (suc k) zero bit mask = not (has_bit mask bit)
leading_ones (suc k) (suc n) bit mask = has_bit mask bit && leading_ones k n (bit / 2) mask

path_from-prefix_from :
    (k n bit key mask : ℕ)
    → leading_ones k n bit mask ≡ true
    → path_from k bit key mask ≡ prefix_from n bit key
unfolding leading_ones path_from prefix_from
path_from-prefix_from zero zero bit key mask h = refl
path_from-prefix_from zero (suc n) bit key mask h = absurd (ground arith)
path_from-prefix_from (suc k) zero bit key mask h = ground arith
path_from-prefix_from (suc k) (suc n) bit key mask h =
    ground (arith, path_from-prefix_from k n (bit / 2) key mask)

-- The masks of `parse_cidr` for the shifts below a bound have so many leading ones.
masks_lead : (bound : ℕ) → Bool
masks_lead zero = true
masks_lead (suc shift) = leading_ones 32 shift top_bit (shift_mask shift) && masks_lead shift

masks_lead_below :
    (shift bound : ℕ)
    → shift < bound
    → masks_lead bound ≡ true
    → leading_ones 32 shift top_bit (shift_mask shift) ≡ true
unfolding masks_lead
masks_lead_below shift zero lt checked = absurd (omega arith)
masks_lead_below shift (suc bound) lt checked =
    ground (
      arith,
      ap (λ (k : ℕ). leading_ones 32 k top_bit (shift_mask k)),
      masks_lead_below shift bound,
    )

masks_lead_33 : masks_lead 33 ≡ true
unfolding masks_lead leading_ones has_bit
masks_lead_33 = refl

-- The mask that `parse_cidr` makes of a shift up to 32 selects that many leading bits of an address.
pub network-shift_mask : (key n : ℕ) → n ≤ 32 → network key (shift_mask n) ≡ prefix key n
network-shift_mask key n h =
    path_from-prefix_from 32 n top_bit key (shift_mask n)
      (masks_lead_below n 33 (omega arith) masks_lead_33)

-- What a line that sets a network does: it succeeds, only that network's value changes, and the trie
-- keeps its invariants.
pub record IsSetBy (t : Tree) (addr mask ip : ℕ) (result : Status × Tree) : Type 0 where
  pub status : result.0 ≡ ok
  pub trimmed : IsTrimmed result.1
  pub shallow : IsShallow result.1
  pub values :
      (q : List Bool)
      → value_at result.1.root q
        ≡ (if same_path q (network addr mask) then ip else value_at t.root q)

module _ (addr mask ip mem : ℕ) (memory : 32 < mem) (set : ip ≢ no_value) where
  -- Where the network has no value, the first try succeeds.
  pub retry-free :
      (t : Tree) (tries : ℕ)
      → IsTrimmed t
      → IsShallow t
      → value_at t.root (network addr mask) ≡ no_value
      → IsSetBy t addr mask ip (retry (suc tries) t addr mask ip mem)
  unfolding retry
  retry-free t tries trimmed shallow free =
      let made = Radix.insert t addr mask ip mem in
      let done : made.0 ≡ Radix.ok = ground (arith, insert-status addr mask ip t mem memory) in
      rw (done, retry)
        (record {
          status = refl;
          trimmed = insert-IsTrimmed t addr mask ip mem set (ground arith) trimmed;
          shallow = insert-IsShallow t addr mask ip mem shallow;
          values = λ q. insert-value_at addr mask ip t mem q done;
        })

  retry-exists :
      (t : Tree) (tries : ℕ)
      → (Radix.insert t addr mask ip mem).0 ≡ Radix.exists
      → (Radix.delete t addr mask).0 ≡ Radix.ok
      → retry (suc tries) t addr mask ip mem
        ≡ retry tries (Radix.delete t addr mask).1 addr mask ip mem
  unfolding retry
  retry-exists t tries taken deleted =
      let same : (Radix.insert t addr mask ip mem).1 ≡ t =
        (insert-failed addr mask ip t mem (ground arith)).1 taken in
      let deleted' : (Radix.delete (Radix.insert t addr mask ip mem).1 addr mask).0 ≡ Radix.ok =
        rw same deleted in
      rw (taken, deleted', retry)
        (ap (λ x. retry tries (Radix.delete x addr mask).1 addr mask ip mem) same)

  -- Where it has one, and is not the root, the value is deleted, and the second try succeeds.
  retry-taken :
      (t : Tree) (tries : ℕ)
      → IsTrimmed t
      → IsShallow t
      → value_at t.root (network addr mask) ≢ no_value
      → network addr mask ≢ []
      → IsSetBy t addr mask ip (retry (suc (suc tries)) t addr mask ip mem)
  retry-taken t tries trimmed shallow taken below =
      let found : (Radix.insert t addr mask ip mem).0 ≡ Radix.exists =
        ground (arith, insert-status addr mask ip t mem memory) in
      let deleted : (Radix.delete t addr mask).0 ≡ Radix.ok =
        ground (arith, delete-status t addr mask trimmed, delete-error t addr mask) in
      let free : value_at (Radix.delete t addr mask).1.root (network addr mask) ≡ no_value =
        ground (
          arith,
          delete-value_at t addr mask (network addr mask) deleted,
          same_path_refl (network addr mask),
        ) in
      let made =
        retry-free (Radix.delete t addr mask).1 tries (delete-IsTrimmed t addr mask trimmed)
          (delete-IsShallow t addr mask shallow) free in
      rw (retry-exists t (suc tries) found deleted) (record {
        status = made.status;
        trimmed = made.trimmed;
        shallow = made.shallow;
        values = λ q. ground (arith, made.values q, delete-value_at t addr mask q deleted);
      })

  -- Three tries set the value of any network but the root, whether it had one or not.
  pub retry-IsSetBy :
      (t : Tree)
      → IsTrimmed t
      → IsShallow t
      → network addr mask ≢ []
      → IsSetBy t addr mask ip (retry 3 t addr mask ip mem)
  retry-IsSetBy t trimmed shallow below =
      elim (Bool-cases (value_at t.root (network addr mask) == no_value)) [
        | inl free ↦ retry-free t 2 trimmed shallow (ground arith)
        | inr taken ↦ retry-taken t 1 trimmed shallow (ground arith) below
      ]

-- What a line of a CIDR file does where `inet_aton` and `atoi` are given.
module _ (inet_aton : Text → Option ℕ) (atoi : Text → ℕ) (mem : ℕ) where
  -- A line that names a network other than the whole space, and an address other than 0.0.0.0,
  -- sets the value of that network, whether it had one or not, where memory for 33 nodes is granted: the
  -- line succeeds, no other network's value changes, and the trie keeps its invariants.
  pub geo_parse_cidr-IsSetBy :
      (t : Tree) (cidr value : Text) (addr mask ip : ℕ)
      → IsTrimmed t
      → IsShallow t
      → 32 < mem
      → same_text cidr (codes "default") ≡ false
      → same_text cidr (codes "delete") ≡ false
      → parse_cidr inet_aton atoi cidr ≡ some (addr, mask)
      → inet_aton value ≡ some ip
      → ip ≢ no_value
      → network addr mask ≢ []
      → IsSetBy t addr mask ip (geo_parse_cidr inet_aton atoi mem t cidr value)
  unfolding geo_parse_cidr set_cidr
  geo_parse_cidr-IsSetBy t cidr value addr mask ip trimmed shallow memory d1 d2 parsed found set
        below =
      rw (d1, d2, parsed, found, set_cidr, parse_cidr)
        (retry-IsSetBy addr mask ip mem memory set t trimmed shallow below)

  parse_cidr_default :
      inet_aton (codes "default") ≡ none → parse_cidr inet_aton atoi (codes "default") ≡ none
  unfolding parse_cidr same_text split_at
  parse_cidr_default refused = rw (refused) refl

  set_cidr_refused :
      (t : Tree) (cidr value : Text)
      → parse_cidr inet_aton atoi cidr ≡ none
      → set_cidr inet_aton atoi mem t cidr value ≡ (error, t)
  unfolding set_cidr
  set_cidr_refused t cidr value refused = rw (refused, set_cidr, parse_cidr) refl

  default_falls_through :
      (t : Tree) (cidr value : Text)
      → same_text cidr (codes "default") ≡ true
      → parse_cidr inet_aton atoi cidr ≡ none
      → geo_parse_cidr inet_aton atoi mem t cidr value ≡ (error, t)
  unfolding geo_parse_cidr
  default_falls_through t cidr value same refused =
      let failed = set_cidr_refused t cidr value refused in
      elim (Option-cases (inet_aton value)) [
        | inl none_set ↦ rw (same, none_set, geo_parse_cidr) refl
        | inr (ip, found) ↦ rw (same, found, geo_parse_cidr) failed
      ]

  -- A line for "default" never succeeds, and changes nothing, where `inet_aton` refuses the word
  -- "default": the branch that reads the address goes on to the code for networks, which parses the word.
  pub geo_parse_cidr_default :
      inet_aton (codes "default") ≡ none
      → (t : Tree) (value : Text)
      → geo_parse_cidr inet_aton atoi mem t (codes "default") value ≡ (error, t)
  geo_parse_cidr_default refused t value =
      default_falls_through t (codes "default") value (same_text_refl (codes "default"))
        (parse_cidr_default refused)

  -- A line that deletes a network succeeds where the network has a value and is not the whole space, in a
  -- trie without empty branches, and then only that network's value is gone.
  pub geo_parse_cidr_delete :
      (t : Tree) (cidr value : Text) (addr mask : ℕ)
      → IsTrimmed t
      → same_text cidr (codes "default") ≡ false
      → same_text cidr (codes "delete") ≡ true
      → parse_cidr inet_aton atoi value ≡ some (addr, mask)
      → value_at t.root (network addr mask) ≢ no_value
      → network addr mask ≢ []
      → ((geo_parse_cidr inet_aton atoi mem t cidr value).0 ≡ ok)
        × ((q : List Bool)
            → value_at (geo_parse_cidr inet_aton atoi mem t cidr value).1.root q
              ≡ (if same_path q (network addr mask) then no_value else value_at t.root q))
  unfolding geo_parse_cidr
  geo_parse_cidr_delete t cidr value addr mask trimmed d1 d2 parsed taken below =
      let deleted : (Radix.delete t addr mask).0 ≡ Radix.ok =
        ground (arith, delete-status t addr mask trimmed, delete-error t addr mask) in
      rw (d1, d2, parsed, deleted) (refl, λ q. delete-value_at t addr mask q deleted)

-- Both values for no address are 0.
pub get-by_cidr : (t : Tree) (ip : ℕ) → get (by_cidr t) ip ≡ Radix.find t ip
unfolding get
get-by_cidr t ip = ground arith
