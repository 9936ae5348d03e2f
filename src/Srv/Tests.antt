-- ===== src/Srv/Tests.antt =====
-- A server that starts, with an empty settings file.
use fnsproxy.Base.{◌≡◌, refl, true, false, [], none, some, ◌==◌, if◌then◌else◌}
use fnsproxy.Radix
use fnsproxy.Radix.{null, node}
use fnsproxy.Event.{add, regis}
use fnsproxy.Geo.{by_cidr}
use fnsproxy.Geo.Load.{load}
use fnsproxy.Log.{Target, Log}
use fnsproxy.Log.Start.{log_init}
use fnsproxy.Options.{srv_init}
use fnsproxy.Srv.{Ids, World, Server, serves, srv_su, srv_serve}

abbrev root : Ids
root = record { uid = 0; gid = 0 }

abbrev empty : Target
empty = record { current = none; numbered = λ i. none; is_open = false }

abbrev world : World
world = record {
  ids = root;
  getpwnam = λ user. none;
  setgid = true;
  setuid = true;
  epoll_fd = some 3;
  socket = some 4;
  bind = λ ids address port. true;
  registered = true;
  inet_aton = λ text. none;
  inet_addr = λ text. 9;
  stack = 0;
  atoi = λ text. 0;
  grants = λ bytes. true;
  mem = 100;
  open_file = λ name. some [];
  disk = λ path. empty;
  writable = true;
  mapped = true;
}

abbrev before : Log
before = record {
  has_init = false;
  level = 0;
  size = 0;
  number = 0;
  multi = false;
  buffer = false;
  files = λ i. empty;
}

abbrev server : Server
server = record {
  ids = root;
  evt = record { stop = false; has_tick = true; interval = 10; fd_count = 1; epoll_fd = some 3 };
  listen_fd = 4;
  request = some (record { op = add; reads = true; writes = false });
  sock = record { added = true; fd_count = 1 };
  dns_address = 9;
  dns_port = 53;
  geo = by_cidr (record { root = node null null 0; size = 32 });
  log = record {
    has_init = true;
    level = 4;
    size = 1073741824;
    number = 10;
    multi = false;
    buffer = true;
    files = λ i. if i == 0 then empty else empty;
  };
  daemon = false;
}

world-server : srv_serve 1 1 world srv_init before ≡ serves server
unfolding srv_serve load log_init regis fnsproxy.Radix.create
world-server = refl

-- Where `setuid` fails, the process keeps its user, with the other group.
group_only :
    srv_su (some (record { uid = 7; gid = 8 })) true false root ≡ record { uid = 0; gid = 8 }
unfolding srv_su
group_only = refl
