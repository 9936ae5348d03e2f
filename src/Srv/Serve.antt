-- ===== src/Srv/Serve.antt =====
-- The server when the loop of srv_serve starts.
use fnsproxy.Base.{
  ℕ, ◌%◌, ◌^◌, ◌≡◌, ◌≢◌, ◌⊎◌, refl, ap, subst, inl, inr, Bool, true, false, if◌then◌else◌, Option,
  none, some, arith, Text, codes, Bool-cases, Option-cases,
}
use fnsproxy.Event.{add, regis}
use fnsproxy.Geo.{Geo}
use fnsproxy.Geo.Load.{Loaded, loaded, failed, out_of_fuel, geo_range, geo_cidr}
use fnsproxy.Geo.Load.Bounded.{IsBounded, IsLoadBounded, load-IsBounded}
use fnsproxy.Log.{Log}
use fnsproxy.Log.Started.{IsStarted, log_init-IsStarted}
use fnsproxy.Options.{Config}
use fnsproxy.Srv.{
  World, Server, Served, serves, exits, endless, srv_serve, create_udp_socket, bind_address,
  user_ids, load_settings, start_log, dns_address, file_or, log_file_size, log_file_num,
  default_event_interval,
}

-- The server `s` is ready.
pub record IsReady (rounds fuel : ℕ) (w : World) (c : Config) (s : Server) : Type 0 where
  pub ids : s.ids ≡ user_ids w c
  pub epoll : s.evt.epoll_fd ≢ none
  pub interval : s.evt.interval ≡ default_event_interval
  pub goes_on : s.evt.stop ≡ false
  pub fd_count : s.evt.fd_count ≡ 1
  pub listens : w.socket ≡ some s.listen_fd
  pub bound : w.bind s.ids (bind_address w.inet_aton w.stack c.addr) (c.port % 2 ^ 16) ≡ true
  pub registered : w.registered ≡ true
  pub request : s.request ≡ some (record { op = add; reads = true; writes = false })
  pub dns : (s.dns_address ≡ dns_address w c) × (s.dns_port ≡ c.dns_port % 2 ^ 16)
  pub loaded_from : load_settings rounds fuel w c ≡ loaded s.geo
  pub bounded : IsBounded s.geo
  pub log_ready : IsStarted 4 log_file_size log_file_num false s.log

Served-cases : (s t : Server) → serves s ≡ serves t → s ≡ t
Served-cases s t e = ap server_of e
  where
    server_of : Served → Server
    server_of (serves u) = u
    server_of exits = s
    server_of endless = s

Loaded-cases :
    (l : Loaded) → ((g : Geo) × (l ≡ loaded g)) ⊎ (((n : ℕ) × (l ≡ failed n)) ⊎ (l ≡ out_of_fuel))
Loaded-cases (loaded g) = inl (g, refl)
Loaded-cases (failed n) = inr (inl (n, refl))
Loaded-cases out_of_fuel = inr (inr refl)

exits-serves : (s : Server) → exits ≢ serves s
exits-serves s e = ground arith

endless-serves : (s : Server) → endless ≢ serves s
endless-serves s e = ground arith

-- The log, where it is started.
Start-cases :
    (o : Option (Bool × Log))
    → ((log : Log) × (o ≡ some (true, log)))
      ⊎ ((o ≡ none) ⊎ ((log : Log) × (o ≡ some (false, log))))
Start-cases none = inr (inl refl)
Start-cases (some (true, log)) = inl (log, refl)
Start-cases (some (false, log)) = inr (inr (log, refl))

create_udp_socket-bound :
    (inet_aton : Text → Option ℕ) (stack : ℕ) (socket : Option ℕ) (bind : ℕ → ℕ → Bool)
    (addr : Option Text) (port fd : ℕ)
    → create_udp_socket inet_aton stack socket bind addr port ≡ some fd
    → (socket ≡ some fd) × (bind (bind_address inet_aton stack addr) (port % 2 ^ 16) ≡ true)
unfolding create_udp_socket
create_udp_socket-bound inet_aton stack none bind addr port fd e = absurd (ground arith)
create_udp_socket-bound inet_aton stack (some fd') bind addr port fd e =
    ground (arith, Bool-cases (bind (bind_address inet_aton stack addr) (port % 2 ^ 16)))

module _ (rounds fuel : ℕ) (w : World) (c : Config) (log : Log) (fd : ℕ) (g : Geo)
    (log' : Log) where
  abbrev server : Server
  server = record {
    ids = user_ids w c;
    evt = record {
      stop = false;
      has_tick = true;
      interval = default_event_interval;
      fd_count = 1;
      epoll_fd = w.epoll_fd;
    };
    listen_fd = fd;
    request = some (record { op = add; reads = true; writes = false });
    sock = record { added = true; fd_count = 1 };
    dns_address = dns_address w c;
    dns_port = c.dns_port % 2 ^ 16;
    geo = g;
    log = log';
    daemon = c.daemon;
  }

  server-IsReady :
      (efd : ℕ)
      → w.epoll_fd ≡ some efd
      → create_udp_socket w.inet_aton w.stack w.socket (w.bind (user_ids w c)) c.addr c.port
        ≡ some fd
      → w.registered ≡ true
      → load_settings rounds fuel w c ≡ loaded g
      → start_log w c log ≡ some (true, log')
      → IsReady rounds fuel w c server
  server-IsReady efd epoll socket registered settings started =
      let (listens, bound) =
        create_udp_socket-bound w.inet_aton w.stack w.socket (w.bind (user_ids w c)) c.addr c.port
          fd socket in
      record {
        ids = refl;
        epoll = λ e. absurd (ground arith);
        interval = refl;
        goes_on = refl;
        fd_count = refl;
        listens = listens;
        bound = bound;
        registered = registered;
        request = refl;
        dns = (refl, refl);
        loaded_from = settings;
        bounded = subst IsLoadBounded settings (
            load-IsBounded w.inet_aton w.atoi w.grants rounds w.mem w.open_file fuel
              (some (file_or (codes "fnsproxy.geo") c.geo_file))
              (if c.geo_range then geo_range else geo_cidr));
        log_ready =
            (log_init-IsStarted w.disk w.writable w.mapped (codes ".")
              (file_or (codes "fnsproxy.log") c.log_file) 4 log_file_size log_file_num false log
              log' started).1;
      }

-- Where the loop of the server starts, the server is ready: its descriptors are there, the socket is bound
-- and registered for reading, the settings are those of the file, in a trie that is no higher than an
-- address has bits where they are in one, and the log is started. The ids of the process are the user's
-- only as far as `srv_su` got.
pub srv_serve-IsReady :
    (rounds fuel : ℕ) (w : World) (c : Config) (log : Log) (s : Server)
    → srv_serve rounds fuel w c log ≡ serves s
    → IsReady rounds fuel w c s
unfolding srv_serve regis
srv_serve-IsReady rounds fuel w c log s run = elim (Option-cases w.epoll_fd) [
  | inl no_epoll ↦ absurd (exits-serves s (rw (no_epoll, srv_serve) at run))
  | inr (efd, epoll) ↦
      elim (Option-cases
        (create_udp_socket w.inet_aton w.stack w.socket (w.bind (user_ids w c)) c.addr c.port)) [
          | inl no_socket ↦ absurd (exits-serves s (rw (epoll, no_socket, srv_serve) at run))
          | inr (fd, socket) ↦ elim (Bool-cases w.registered) [
            | inr unregistered ↦
                absurd (exits-serves s (rw (epoll, socket, unregistered, srv_serve) at run))
            | inl registered ↦ elim (Loaded-cases (load_settings rounds fuel w c)) [
              | inr (inl (n, no_settings)) ↦
                  absurd
                    (exits-serves s (rw (epoll, socket, registered, no_settings, srv_serve) at run))
              | inr (inr unending) ↦
                  absurd
                    (endless-serves s (rw (epoll, socket, registered, unending, srv_serve) at run))
              | inl (g, settings) ↦ elim (Start-cases (start_log w c log)) [
                | inr (inl aborted) ↦ absurd (
                    exits-serves s
                      (rw (epoll, socket, registered, settings, aborted, srv_serve) at run))
                | inr (inr (log', refused)) ↦ absurd (
                    exits-serves s
                      (rw (epoll, socket, registered, settings, refused, srv_serve) at run))
                | inl (log', started) ↦
                    let same =
                      Served-cases _ s
                        (rw (epoll, socket, registered, settings, started, srv_serve) at run) in
                    subst (IsReady rounds fuel w c) same (
                      server-IsReady rounds fuel w c log fd g log' efd epoll socket registered
                        settings started)
              ]
            ]
          ]
        ]
]
