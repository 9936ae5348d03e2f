-- ===== src/Options.antt =====
-- main.c: the options of the command line, and the settings of srv_init in srv.c that they change.
-- `getopt` and `strtol` are not of the repository: the options that it finds are an argument, and so is the
-- value of a text as a 64-bit word with the number of bytes that were read. Whether there are further
-- arguments, and whether `strdup` succeeds, are arguments too.
pub mod Last
mod Tests
use fnsproxy.Base.{
  ℕ, ◌%◌, Bool, true, false, not, ◌&&◌, ◌||◌, List, [], ◌∷◌, Option, none, some, ◌==◌,
  if◌then◌else◌, get_elem?, Text, u32_mod,
}

-- `DEFAULT_LISTEN_PORT` and `DEFAULT_DNS_PORT`
abbrev pub default_listen_port : ℕ
default_listen_port = 53

abbrev pub default_dns_port : ℕ
default_dns_port = 53

-- The fields of `server_t` for the options; `none` is `NULL`. The ports are ints, as 32 bits.
pub record Config : Type 0 where
  pub port : ℕ
  pub addr : Option Text
  pub user : Option Text
  pub geo_file : Option Text
  pub geo_range : Bool
  pub log_file : Option Text
  pub daemon : Bool
  pub dns_addr : Option Text
  pub dns_port : ℕ

-- `srv_init`
abbrev pub srv_init : Config
srv_init = record {
  port = default_listen_port;
  addr = none;
  user = none;
  geo_file = none;
  geo_range = false;
  log_file = none;
  daemon = false;
  dns_addr = none;
  dns_port = default_dns_port;
}

-- What `getopt` returns; `opt_other` is `?`.
pub data Flag : Type 0 where
  opt_o opt_d opt_r opt_p opt_l opt_n opt_a opt_u opt_g opt_v opt_h opt_other : Flag

-- An option, `optarg`, and whether `strdup` succeeds.
pub record Opt : Type 0 where
  pub flag : Flag
  pub arg : Text
  pub memory : Bool

-- How the parsing goes on: with the settings, or by `exit`.
pub data Parsed : Type 0 where
  config : Config → Parsed
  exits : (status : ℕ) → Parsed

module _ (strtol : Text → ℕ × ℕ) where
  -- The number of a port, if the text is one up to a blank or its end.
  pub number : Text → Option ℕ
  number arg =
      let (value, read) = strtol arg in
      let last : ℕ = elim (get_elem? arg read) [ none ↦ 0 | some c ↦ c ] in
      if read == 0 || not (last == 32) && not (last == 0) then none else some (value % u32_mod)

  -- The `switch` of `option_parse`.
  pub apply : Flag → (arg : Text) (memory : Bool) → Config → Parsed
  unfolding number
  apply opt_o arg memory c = if memory then config (record c { log_file = some arg }) else exits 1
  apply opt_d arg memory c = config (record c { daemon = true })
  apply opt_r arg memory c = config (record c { geo_range = true })
  apply opt_p arg memory c = elim (number arg) [
    | none ↦ exits 1
    | some n ↦ config (record c { port = n })
  ]
  apply opt_l arg memory c = if memory then config (record c { addr = some arg }) else exits 1
  apply opt_n arg memory c = elim (number arg) [
    | none ↦ exits 1
    | some n ↦ config (record c { dns_port = n })
  ]
  apply opt_a arg memory c = if memory then config (record c { dns_addr = some arg }) else exits 1
  apply opt_u arg memory c = if memory then config (record c { user = some arg }) else exits 1
  apply opt_g arg memory c = if memory then config (record c { geo_file = some arg }) else exits 1
  apply opt_v arg memory c = exits 0
  apply opt_h arg memory c = exits 0
  apply opt_other arg memory c = exits 1

  -- `option_parse`; `further` says whether `argc` is not `optind` at the end.
  unfoldable pub option_parse : (further : Bool) → List Opt → Config → Parsed
  unfolding apply
  option_parse further [] c = if further then exits 1 else config c
  option_parse further (o ∷ opts) c = elim (apply o.flag o.arg o.memory c) [
    | exits status ↦ exits status
    | config c' ↦ option_parse further opts c'
  ]
