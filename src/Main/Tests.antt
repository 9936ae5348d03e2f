-- ===== src/Main/Tests.antt =====
-- A run of main: with the port 9, as a daemon, with the DNS server's port 5.
use fnsproxy.Base.{
  ℕ, ◌-◌, ◌≡◌, refl, true, false, ◌&&◌, ◌||◌, List, [], ◌∷◌, none, some, ◌==◌, leb, if◌then◌else◌,
  Text, codes,
}
use fnsproxy.Radix
use fnsproxy.Radix.{null, node}
use fnsproxy.Event.{add, regis}
use fnsproxy.Geo.{by_cidr}
use fnsproxy.Geo.Load.{load}
use fnsproxy.Log.{Target, Log}
use fnsproxy.Log.Start.{log_init}
use fnsproxy.Options.{Config, srv_init, Opt, opt_d, opt_p, opt_n, opt_h, opt_u, option_parse}
use fnsproxy.Options.Last.{IsLast}
use fnsproxy.Srv.{srv_su, Ids, World, Server, srv_serve}
use fnsproxy.Srv.Serve.{IsReady}
use fnsproxy.Main.{serves, leaves, fails, start}
use fnsproxy.Main.Started.{start-IsReady}

abbrev strtol : Text → ℕ × ℕ
strtol [] = (0, 0)
strtol (c ∷ text) = if leb 48 c && leb c 57 then (c - 48, 1) else (0, 0)

abbrev line : List Opt
line =
    record { flag = opt_p; arg = codes "9"; memory = true }
    ∷ record { flag = opt_d; arg = []; memory = true }
    ∷ record { flag = opt_n; arg = codes "5"; memory = true }
    ∷ []

abbrev settings : Config
settings = record srv_init { port = 9; dns_port = 5; daemon = true }

abbrev root : Ids
root = record { uid = 0; gid = 0 }

abbrev empty : Target
empty = record { current = none; numbered = λ i. none; is_open = false }

abbrev world : World
world = record {
  ids = root;
  getpwnam = λ user. none;
  setgid = true;
  setuid = true;
  epoll_fd = some 3;
  socket = some 4;
  bind = λ ids address port. true;
  registered = true;
  inet_aton = λ text. none;
  inet_addr = λ text. 9;
  stack = 0;
  atoi = λ text. 0;
  grants = λ bytes. true;
  mem = 100;
  open_file = λ name. some [];
  disk = λ path. empty;
  writable = true;
  mapped = true;
}

abbrev before : Log
before = record {
  has_init = false;
  level = 0;
  size = 0;
  number = 0;
  multi = false;
  buffer = false;
  files = λ i. empty;
}

abbrev server : Server
server = record {
  ids = root;
  evt = record { stop = false; has_tick = true; interval = 10; fd_count = 1; epoll_fd = some 3 };
  listen_fd = 4;
  request = some (record { op = add; reads = true; writes = false });
  sock = record { added = true; fd_count = 1 };
  dns_address = 9;
  dns_port = 5;
  geo = by_cidr (record { root = node null null 0; size = 32 });
  log = record {
    has_init = true;
    level = 4;
    size = 1073741824;
    number = 10;
    multi = false;
    buffer = true;
    files = λ i. if i == 0 then empty else empty;
  };
  daemon = true;
}

line-server : start strtol false line true true 1 1 world before ≡ serves settings server
unfolding start option_parse srv_serve load log_init regis fnsproxy.Radix.create
line-server = refl

-- Help is given, and handlers that cannot be set end the program.
help_only :
    start strtol false
      (record { flag = opt_h; arg = []; memory = true } ∷ line)
      true
      true
      1
      1
      world
      before
    ≡ leaves 0
unfolding start option_parse
help_only = refl

no_handlers : start strtol false line true false 1 1 world before ≡ fails
unfolding start option_parse
no_handlers = refl

start-IsReady_example :
    IsLast strtol line srv_init settings
    × (false ≡ false)
    × (true && true ≡ true)
    × IsReady 1 1 world settings server
start-IsReady_example =
    start-IsReady 1 1 world before strtol false line true true settings server line-server

-- A system where only the superuser may bind a port below 1024, and a user on it.
abbrev nobody : Ids
nobody = record { uid = 99; gid = 99 }

abbrev guarded : World
guarded = record world {
  getpwnam = λ user. some nobody;
  bind = λ ids address port. leb 1024 port || ids.uid == 0;
}

abbrev high_port : Text → ℕ × ℕ
high_port text = (5353, 4)

abbrev as_user : List Opt
as_user =
    record { flag = opt_p; arg = codes "5353"; memory = true }
    ∷ record { flag = opt_u; arg = codes "nobody"; memory = true }
    ∷ []

-- On the default port the bind fails.
as_user_default :
    start high_port false
      (record { flag = opt_u; arg = codes "nobody"; memory = true } ∷ [])
      true
      true
      1
      1
      guarded
      before
    ≡ fails
unfolding start option_parse srv_serve srv_su load log_init regis fnsproxy.Radix.create
as_user_default = refl
