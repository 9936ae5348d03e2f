-- ===== src/Net.antt =====
-- net.c, and srv_cron of srv.c: the clients that wait for a response, and their expiry.
-- A client is known by the address of its structure, which is also that of its entry `sock`. `sockets` counts
-- the sockets that were opened for clients and not closed. What the system calls return is given
-- by `Calls`; epoll's own state and the bytes that are sent are left out.
pub mod Clients
pub mod Sockets
pub mod Reach
pub mod Round
pub mod Listed
pub mod Sweep
mod Tests
use Prim.Native.Nat.{bit_or}
use fnsproxy.Base.{
  ℕ, ◌+◌, ◌-◌, Bool, true, false, not, List, [], ◌∷◌, ◌++◌, Option, none, some, ◌==◌, ltb,
  if◌then◌else◌,
}

-- `READ_TIMEOUT` and `CRON_INTERVAL`, in milliseconds.
abbrev pub read_timeout : ℕ
read_timeout = 3000

abbrev pub cron_interval : ℕ
cron_interval = 1000

-- `set_non_block`, given `O_NONBLOCK`, and what `fcntl` returns for `F_GETFL`, and for `F_SETFL` with flags;
-- `none` is -1.
pub set_non_block : (o_nonblock : ℕ) (getfl : Option ℕ) (setfl : ℕ → Option ℕ) → Option ℕ
set_non_block o_nonblock getfl setfl = elim getfl [
  | none ↦ none
  | some opt ↦ setfl (bit_or opt o_nonblock)
]

-- `client_t`
pub record Client : Type 0 where
  pub address : ℕ
  pub expire_at : ℕ

-- The fields of `server_t` that the clients depend on.
pub record Server : Type 0 where
  pub clock : ℕ
  pub last_check : ℕ
  pub clis : List Client
  pub sockets : ℕ

-- `dlist_search_key` and `dlist_delete_node`: the list without the first node for this client.
pub remove_client : ℕ → List Client → Option (List Client)
remove_client address [] = none
remove_client address (c ∷ rest) =
    let further = remove_client address rest in
    if c.address == address
    then some rest
    else elim further [ none ↦ none | some rest' ↦ some (c ∷ rest') ]

-- `delete_client`
pub delete_client : Server → ℕ → Server
unfolding remove_client
delete_client s address = elim (remove_client address s.clis) [
  | none ↦ s
  | some rest ↦ record s { clis = rest; sockets = s.sockets - 1 }
]

-- The loop of `check_timeout`, over the nodes that the iterator has still to return. The iterator has
-- moved on before the node that it returned is deleted.
pub check_from : List Client → Server → Server
unfolding delete_client
check_from [] s = s
check_from (c ∷ rest) s =
    check_from rest (if ltb s.clock c.expire_at then delete_client s c.address else s)

-- `check_timeout`
pub check_timeout : Server → Server
unfolding check_from
check_timeout s = check_from s.clis s

-- `srv_cron`, at the time that `mstime` returns.
pub srv_cron : (now : ℕ) → Server → Server
unfolding check_timeout
srv_cron now s =
    let ticked : Server = record s { clock = now } in
    if ltb cron_interval (now - s.last_check)
    then check_timeout (record ticked { last_check = now })
    else ticked

-- Which of the calls of `read_from_client` succeed, in their order, and what `malloc` returns.
pub record Calls : Type 0 where
  pub address : ℕ
  pub memory : Bool
  pub received : Bool
  pub socket : Bool
  pub sent : Bool
  pub registered : Bool
  pub listed : Bool

-- `read_from_client`. A socket that cannot be registered stays open, as does that of a client that cannot
-- be listed.
pub read_from_client : Calls → Server → Server
read_from_client calls s =
    let opened : Server = record s { sockets = s.sockets + 1 } in
    let client : Client = record { address = calls.address; expire_at = s.clock + read_timeout } in
    if not calls.memory
    then s
    else if not calls.received
    then s
    else if not calls.socket
    then s
    else if not calls.sent
    then record opened { sockets = opened.sockets - 1 }
    else if not calls.registered
    then opened
    else if not calls.listed
    then opened
    else record opened { clis = s.clis ++ client ∷ [] }

-- `handle_dns_response` for a client: whether the event is a read, the sender the DNS server, the
-- response received, and sent on whole.
pub handle_dns_response : (is_read from_server received forwarded : Bool) → ℕ → Server → Server
unfolding delete_client
handle_dns_response is_read from_server received forwarded address s =
    if not is_read
    then s
    else if not from_server
    then s
    else if not received
    then s
    else if not forwarded
    then s
    else delete_client s address
