-- ===== src/Lib.antt =====
-- fnsproxy is a DNS proxy: it passes requests on to a DNS server, and rewrites the address in the
-- responses by the settings of a file. This library models the parts that decide what is rewritten.
--
-- The parts, their files and their sources:
--
-- - Radix (radix.c, radix.h): the trie of networks. `insert`, `delete` and `find` are
--   radix32tree_insert, radix32tree_delete and radix32tree_find. A node's parent is the list of
--   ancestors (`Frame`) on the way down. Allocations are counted down from `mem`: each malloc takes
--   one, and fails at 0. Paths says what a trie stands for, Insert, Delete and Find what the
--   operations do to that, Trimmed and Height hold the invariants, Release is radix_tree_free.
-- - Vector (vector.c, vector.h): the growing array. `grants` says which request sizes the allocator
--   serves. `unsigned int` wraps at 2^32 wherever the code computes with it. Iter is the iterator, Release
--   what clears and frees, over the structures with their addresses.
-- - Range (range.c, range.h): 65536 buckets by the upper half of an address, each a vector of ranges
--   of lower halves. `place` is the body of the search loop, `scan` the loop with the push behind it,
--   `insert_loop` the loop over the buckets. Lookup, Place and Merge are about lists of ranges,
--   Bucket and Scan about one bucket, Insert, Success, Order and Delete about the operations. Release is
--   range_destroy and range_free, as the addresses that are freed, Dump the text of range_dump.
-- - Geo (geo.c, geo.h): the settings file. `str_explode` splits a line, `geo_parse_range` and
--   `geo_parse_cidr` apply one, Geo/Load is geo_load with `include`, Geo/Release geo_unload and geo_dump.
--   inet_aton, inet_ntoa, atoi and the contents of files are parameters; inet_aton gives addresses in host order.
--   Geo/Table says what the lines
--   of a CIDR file mean, as a function from bit paths to addresses that knows neither the trie nor the tries of
--   geo_parse_cidr, and how often an error gives the settings back; its Entry and File compare geo_parse_cidr
--   and geo_load with it. Ranges is about lines of range files.
-- - Dns (dns.c, dns.h): dns_parse_proxy on the bytes of a packet, with the settings as a parameter.
-- - Net (net.c, and srv_cron of srv.c): the clients that wait for a response. `delete_client`,
--   `check_timeout`, `srv_cron`, `read_from_client` and `handle_dns_response` are the functions of these
--   names; what the system calls return is an argument. Clients is about their expiry, Sockets about
--   runs of events. Reach is the relation of steps of the server in any order, with Sound and Overdue about the
--   states that are reached. Round is a round of event_loop with these handlers: an entry is part of its
--   client, so a round can come to one that was freed.
-- - Net/Sweep joins Net and Dlist: `check_list` is check_timeout over the list in memory, where each
--   deletion searches the list for the client again, as delete_client does, with an iterator that malloc
--   may refuse; the rest of delete_client is in Net. Net/Listed is about the clients of such a list.
-- - Memory and Dlist (dlist.c, dlist.h): memory is a function from addresses to nodes, and a command on it ends
--   with a result, at an address without a node (`invalid`), or out of rounds (`endless`). The functions of
--   dlist.c are commands; what malloc returns is an argument. Chain says when addresses and values are the
--   nodes of a list, Relink, Joined and Walk are about links, Add, Insert, Delete and Release about operations,
--   Dup is dlist_dup, with Copying and Copies about what it makes.
-- - Event (event.c, event.h, times.c): event_regis, as the request that it makes of epoll_ctl, and the event
--   that `handle` passes on. Registration is about sequences of calls. Event/Loop is event_loop over rounds
--   of epoll_wait, with the start and the end of a loop and the clocks; its Ticks is about the tick.
-- - Log (log.c, log.h): log_rotate and log_write on files that are what they hold. Rotate and Write compare
--   them with a queue of texts, Bounds, Kept and Single are about how large the file becomes and what is kept.
--   Log/Start is log_init, log_close and boot_notify.
-- - Srv (srv.c, and create_udp_socket of net.c): srv_su, and srv_serve up to its loop, which brings the event
--   loop, the socket, the settings and the log together. `World` is what the system calls return, and the
--   files. Serve is about the server when its loop starts, Destroy is srv_destroy.
-- - Main (main.c): main up to the loop, which brings Options and Srv together; Started is about the server then.
-- - Errdsp (errdsp.c, errdsp.h): the text that err_notify and msg_display print. Whole is about the buffers.
-- - Proxy joins Geo and Dns: what the settings do to a response. `Settings` is what both kinds of settings
--   promise of a line; Cidr and Ranges fill it, File is about a whole file.
-- - Options (main.c, and srv_init of srv.c): option_parse over what getopt finds. Last is about its result.
--
-- Geo keeps either a Range or a Radix trie, and calls their operations; Range keeps Vectors; Dns asks
-- Geo for each address that it finds. Each file's Tests module runs the definitions on small inputs.
--
-- Fuel: a word has 32 bits, so `grow` takes 33 rounds at most; doubling reaches any index or wraps in 33
-- rounds, which `reserve` has. `range_insert` visits each bucket once below the last one, so 65536
-- rounds are enough; range_delete over one bucket takes 2. The loops of dns_parse_proxy take a byte per
-- round, so the length of the packet bounds them, and those of str_explode the length of the line. The
-- fuel of Geo/Load is the depth of included files, which nothing in the code bounds.
--
-- The loops of Dlist take a node per round, so `len` and one are enough; log_rotate tries `log_number`
-- numbers.
--
-- The test programs of radix.c, range.c and vector.c are modelled in the modules named Program, that of vector.c
-- as far as it asserts, for any count.
--
-- Not modelled: the texts of usage and version, the bytes that are sent on, epoll's own state, the names of
-- numbered log files, and the test programs of the other files.
pub mod Base
pub mod Dlist
pub mod Dns
pub mod Errdsp
pub mod Event
pub mod Geo
pub mod Log
pub mod Main
pub mod Memory
pub mod Net
pub mod Options
pub mod Proxy
pub mod Radix
pub mod Range
pub mod Srv
pub mod Vector
