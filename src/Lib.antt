-- ===== src/Lib.antt =====
-- DNSentinal is a recursive DNS resolver with filtering. Its core, under core/, is a library in C++:
-- packets come in through the listeners (core/net), core/wire parses them, core/server decides what
-- becomes of a query, core/policy and core/security hold the checks, core/cache keeps answers, and
-- core/resolver asks other servers; core/wire builds the response. This development models the
-- parts below and what their theorems rely on.
--
-- Common        helpers: tests on numbers, lists, options, integers, and maps (Common/Maps)
-- Types         core/include/dnsentinel/types.h: names, records, messages. `Rr` is the struct RR;
--               `ipv4`, `ipv6`, `ns`, ... are the alternatives of RData; trust ranks keep their order
-- Name          core/wire/name.cpp: append_label, wire_length, is_subdomain_of, parent, hash;
--               Name/Text has from_string (the loop is `scan`, a round of it `consume`) and to_string
-- Wire          Wire/ByteIo is core/wire/byte_io.h, Wire/Edns core/wire/edns.cpp, Wire/Names, Wire/Records
--               and Wire/Parser core/wire/parser.cpp, Wire/Writer and Wire/Builder core/wire/builder.cpp
-- Cache         core/cache/cache.cpp: Cache/Entries the keys, entries and sizes, Cache/Shards a shard,
--               Cache the cache of shards, Cache/History sequences of calls
-- Security      Bailiwick, ZeroX20 and Rrl are core/security/bailiwick.cpp, zero_x20.cpp and rrl.cpp
-- Policy        Acl, CnameCheck and Rebinding are core/policy/acl.cpp, cname_check.cpp and rebinding.cpp;
--               BlocklistTrie is core/policy/blocklist_trie.cpp (ListFile the lines of a list, Rules the
--               builder, Freeze the layout of the trie, the parent file its lookup), Blocklists
--               core/policy/blocklists.cpp
-- Net           EventLoop is core/net/event_loop.cpp
-- Resolver      ServerSelection is core/resolver/server_selection.cpp; Upstream is
--               core/resolver/upstream.cpp (Replies how what comes back is judged);
--               RecursiveResolver is core/resolver/recursive_resolver.cpp (Records the helpers on
--               records, Tasks one task and its zone cut, the parent file its steps)
-- Server        QueryProcessor is core/server/query_processor.cpp: reject_reason, blocked, and what
--               handle does with the outcome of a resolution (`finish`)
--
-- How they interact. The upstream client keeps its sockets and timers in the event loop, whose calls
-- it makes. A step of a resolution reads and fills the cache, picks a server, and comes to a message, an
-- error, a query for the upstream client or a sub-query; the reply is the input of the next step. The block
-- lists build a new trie aside and put it in use in one step. The processor reads the list's verdict
-- for a question and for the chain of an answer.
--
-- State and operations. A C++ method that changes its object is a function from the old state to
-- the new one, with what the call returns. Functions keep the names of the source; a loop or a
-- branch that is a function of its own is named for what it does. A read of a packet comes to an
-- Outcome: a value, a ParseError, or one of the two faults `out_of_bounds` and `out_of_fuel`, which
-- stand for a read outside the buffer and for a loop that does not end.
--
-- Numbers. Fields are natural numbers; where the source wraps around, `% 2 ^ w` is written out, and
-- `size_sub` is the subtraction of size_t. Sums of sizes do not wrap, since a buffer is shorter than
-- 2^63. A byte string is the list of its bytes. Times are nanoseconds of a clock that does not go
-- back; a call reads it at one instant, given as an argument.
--
-- Fuel. `read_name` has 384 rounds: a name of 255 bytes takes at most 254 labels, and there are at
-- most 128 pointers. The loops over options and character-strings have one round more than there
-- are bytes, `trim` as many as there are nodes, and `cname_chain` one more than there are records.
-- `fire_due` has as much fuel as there are timers, the queue of `build` one more than the bytes of all
-- keys, and the children of a node as much as there are rules. In a resolution the loops over aliases
-- have one round more than max_cname_chain, `next_server` one more than there are retry rounds, and
-- `closest_zone` one more than the name has labels.
--
-- Parameters. The sizes of C++ objects (Layout), the words of arc4random and the draws of the random
-- function, the numbers of the address families and the test for IPv4-mapped addresses are not code
-- of the repository; the definitions take them as arguments. The list lookup is an argument of the
-- CNAME check.
--
-- Simplifications. A hash map is a list of pairs, the index and the list of a cache shard are one
-- list, whose places are found by key. A cache call is one step, as it holds the lock of its shard.
-- Assertions of the builder are preconditions.
--
-- Not modelled: the listeners (core/net/tcp_listener.cpp, udp_listener.cpp), the system calls that open
-- sockets and epoll descriptors, the table of the resolver's tasks with their timers, the clients that
-- join a task and the priming of the root, root hints, the rate limiter, parse_subnet, the first stages
-- of handle, memory_bytes of the trie, the configuration and the program itself.
pub mod Common
pub mod Types
pub mod Name
pub mod Wire
pub mod Policy
pub mod Security
pub mod Cache
pub mod Resolver
pub mod Net
pub mod Server
mod Tests
