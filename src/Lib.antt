-- ===== src/Lib.antt =====
-- dtndht: a distributed hash table for delay tolerant networks, in dtndht/.
--
-- Net       socket addresses, as every part uses them
-- Table     dtndht/list.c and list.h: the tables of announced and looked-up keys. A table is the
--           list that its `head` points to, and a pointer into it is a position.
-- Blacklist dtndht/blacklist.c: the addresses of bad nodes, as tries with one level for each byte,
--           and the identifiers that serve as traps
-- Ids       dtndht/dht.c: the order, the distance and the middle of identifiers. An identifier is
--           a list of 20 bytes; `memcmp` is the lexicographic order of byte lists.
-- Routing   dtndht/dht.c: the routing table. A table is the sorted list of its buckets, and a
--           pointer to a bucket is its position, or the list from it on. `split_bucket` and
--           `new_node` write through such pointers. The pings that are sent on the way are
--           results. Whether an address is blacklisted is an argument of `new_node`.
-- Storage   dtndht/dht.c: the peers that announced themselves, with the bounds of 16384 keys and
--           2048 peers to a key. The inner loop of `expire_storage` drops or passes a peer in each
--           round, so that as many rounds as there are peers are enough.
-- Search    dtndht/dht.c: the nodes of a search, sorted by their distance to its target, and what
--           `dht_search` keeps of an old search; its loop has a round for each node. The requests
--           that the steps of a search send are results, and so is whether its call-back is called.
--           `search_send_get_peers` stands there twice, for a node and for NULL.
-- Guard     dtndht/dht.c and utils.c: the tokens of announcements and the limit on the rate of
--           requests, with a number of tokens that can be negative. The SHA-1 function is a parameter; a theorem that needs it takes that it
--           gives 20 bytes.
-- Eids      dtndht/dht.c: the endpoint identifiers of the node, its neighbours and its groups
-- Wire      dtndht/dht.c: the writers of messages. A message is a list of pieces, one for each
--           `snprintf` or `COPY`, that are written into a buffer of the source's size; a packet is
--           what is handed to `sendto`. `node_blacklisted` is a parameter.
-- Parse     dtndht/dht.c: `parse_message` and `parse_dtn_message`. A pointer into the buffer is
--           the list of the bytes from there on; the loops read a byte at least in each round, so
--           that as many rounds as there are bytes are enough. `strtol` stops at LONG_MAX. What
--           `inet_ntop` writes is a parameter.
-- Rating    dtndht/rating.c: how many senders reported an address. The Bloom filter is a parameter
--           with what is documented of it, and so is the digest of a sender's address.
-- Service   dtndht/dtndht.c, bootstrapping.c and list.c: the calls of the library, as functions of
--           the static variables. What they use of dtndht/dht.c is the record `Engine`; the
--           call-backs that one of its calls makes are delivered when it returns. The loops over
--           the tables have a round for each entry, and the call-backs do not change how many
--           there are. The build is the one with ratings and blacklist. Service/Dht makes an
--           engine of the calls that are modelled.
-- Saved     dtndht/bootstrapping.c: the file of known nodes
-- Tests     concrete tables and the theorems applied to them
--
-- `new_node` calls itself after a split; `new_node` of Routing/Learn has fuel for that, and `learn`
-- is a round of it, without fuel. Memory is taken to be available, so that `malloc` and `calloc`
-- do not fail. Counters of type `unsigned int` wrap at 2 ^ 32; times are natural numbers. The
-- present time is an argument and is read once for a call.
--
-- Not modelled: `dht_periodic` and the handling of a message in it, the choice of the closest
-- nodes for an answer, the making and closing of sockets, the look-up of a bootstrap host by name,
-- the SHA-1 and Bloom filter libraries that the repository carries copies of, the evaluation log,
-- the command line tools and debug output.
pub mod Base
pub mod Net
pub mod Table
pub mod Blacklist
pub mod Ids
pub mod Routing
pub mod Storage
pub mod Search
pub mod Guard
pub mod Eids
pub mod Wire
pub mod Parse
pub mod Rating
pub mod Service
pub mod Saved
pub mod Tests
