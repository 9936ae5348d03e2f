-- ===== src/Srv.antt =====
-- srv.c: the start of the server, and create_udp_socket of net.c. What system calls return is an
-- argument, and so are the files. A process that exits is gone with all that it holds.
pub mod Serve
pub mod Destroy
mod Tests
use fnsproxy.Base.{
  ℕ, ◌%◌, ◌^◌, Bool, true, false, not, ◌&&◌, List, [], ◌∷◌, Option, none, some, if◌then◌else◌, Text,
  codes,
}
use fnsproxy.Event.{Registered, Request, event_rd, regis}
use fnsproxy.Event.Loop.{Event, event_init}
use fnsproxy.Geo.{Geo}
use fnsproxy.Geo.Load.{Loaded, loaded, failed, out_of_fuel, load, geo_range, geo_cidr}
use fnsproxy.Log.{Target, Log}
use fnsproxy.Log.Start.{log_init}
use fnsproxy.Options.{Config}

-- The user and the group of the process.
pub record Ids : Type 0 where
  pub uid : ℕ
  pub gid : ℕ

-- `srv_su`, given what `getpwnam` finds, and whether `setgid` and `setuid` succeed.
unfoldable pub srv_su : (found : Option Ids) (setgid setuid : Bool) → Ids → Ids
srv_su none setgid setuid ids = ids
srv_su (some pwent) setgid setuid ids =
    if not setgid then ids else if not setuid then record ids { gid = pwent.gid } else pwent

-- The address of `create_udp_socket` in host order: `INADDR_ANY`, or what `inet_aton` finds; where it finds
-- none, the structure holds what the stack held.
pub bind_address : (inet_aton : Text → Option ℕ) (stack : ℕ) (addr : Option Text) → ℕ
bind_address inet_aton stack none = 0
bind_address inet_aton stack (some text) = elim (inet_aton text) [ none ↦ stack | some ip ↦ ip ]

-- `create_udp_socket`, given what `socket` returns, and whether `bind` succeeds for a process and an
-- address: the descriptor, if there is one.
pub create_udp_socket :
    (inet_aton : Text → Option ℕ) (stack : ℕ) (socket : Option ℕ) (bind : (address port : ℕ) → Bool)
    (addr : Option Text) (port : ℕ)
    → Option ℕ
unfolding bind_address
create_udp_socket inet_aton stack socket bind addr port = elim socket [
  | none ↦ none
  | some fd ↦ if bind (bind_address inet_aton stack addr) (port % 2 ^ 16) then some fd else none
]

-- What the calls of `srv_serve` return, and the files that it reads and writes.
pub record World : Type 0 where
  pub ids : Ids
  pub getpwnam : Text → Option Ids
  pub setgid : Bool
  pub setuid : Bool
  pub epoll_fd : Option ℕ
  pub socket : Option ℕ
  pub bind : Ids → (address port : ℕ) → Bool
  pub registered : Bool
  pub inet_aton : Text → Option ℕ
  pub inet_addr : Text → ℕ
  pub stack : ℕ
  pub atoi : Text → ℕ
  pub grants : ℕ → Bool
  pub mem : ℕ
  pub open_file : Text → Option (List Text)
  pub disk : Text → Target
  pub writable : Bool
  pub mapped : Bool

-- The server when its loop starts.
pub record Server : Type 0 where
  pub ids : Ids
  pub evt : Event
  pub listen_fd : ℕ
  pub request : Option Request
  pub sock : Registered
  pub dns_address : ℕ
  pub dns_port : ℕ
  pub geo : Geo
  pub log : Log
  pub daemon : Bool

-- How `srv_serve` goes on: by the loop, by `exit (1)` or `assert`, or not at all.
pub data Served : Type 0 where
  serves : Server → Served
  exits endless : Served

-- `DEFAULT_EVENT_INTERVAL`, `LOG_FILE_SIZE` and `LOG_FILE_NUM`.
abbrev pub default_event_interval : ℕ
default_event_interval = 10

abbrev pub log_file_size : ℕ
log_file_size = 1073741824

abbrev pub log_file_num : ℕ
log_file_num = 10

-- The text of an option, or the default.
abbrev pub file_or : (default : Text) → Option Text → Text
file_or default none = default
file_or default (some file) = file

-- The address of the DNS server, in host order.
abbrev pub dns_address : World → Config → ℕ
dns_address w c = w.inet_addr (file_or (codes "114.114.114.114") c.dns_addr)

abbrev pub user_ids : World → Config → Ids
user_ids w c = elim c.user [
  | none ↦ w.ids
  | some user ↦ srv_su (w.getpwnam user) w.setgid w.setuid w.ids
]

-- The settings that `srv_serve` loads; `rounds` and `fuel` are those of the loops of `geo_load`.
abbrev pub load_settings : (rounds fuel : ℕ) → World → Config → Loaded
load_settings rounds fuel w c =
    load w.inet_aton w.atoi w.grants rounds w.mem w.open_file fuel
      (some (file_or (codes "fnsproxy.geo") c.geo_file))
      (if c.geo_range then geo_range else geo_cidr)

abbrev pub start_log : World → Config → Log → Option (Bool × Log)
start_log w c log =
    log_init w.disk w.writable w.mapped (codes ".") (file_or (codes "fnsproxy.log") c.log_file) 4
      log_file_size log_file_num false log

-- `srv_serve` up to its loop.
unfoldable pub srv_serve : (rounds fuel : ℕ) → World → Config → Log → Served
unfolding srv_su create_udp_socket
srv_serve rounds fuel w c log =
    let ids = user_ids w c in
    let (started, evt) = event_init w.epoll_fd default_event_interval in
    let (request, sock) = regis (record { added = false; fd_count = evt.fd_count }) event_rd in
    if not started
    then exits
    else elim (create_udp_socket w.inet_aton w.stack w.socket (w.bind ids) c.addr c.port) [
      | none ↦ exits
      | some fd ↦ if not w.registered then exits else elim (load_settings rounds fuel w c) [
        | failed unloads ↦ exits
        | out_of_fuel ↦ endless
        | loaded g ↦ elim (start_log w c log) [
          | none ↦ exits
          | some (false, log') ↦ exits
          | some (true, log') ↦ serves (record {
            ids = ids;
            evt = record evt { fd_count = sock.fd_count };
            listen_fd = fd;
            request = request;
            sock = sock;
            dns_address = dns_address w c;
            dns_port = c.dns_port % 2 ^ 16;
            geo = g;
            log = log';
            daemon = c.daemon;
          })
        ]
      ]
    ]
