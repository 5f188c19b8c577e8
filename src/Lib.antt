-- ===== src/Lib.antt =====
-- BGPmon, a monitor of the Border Gateway Protocol, as definitions and theorems.
--
-- The program. Peering threads keep BGP sessions with routers (Peering/) and write all that they
-- send and receive to a queue. Labeling, XML and client threads are readers and writers of four such
-- queues (Queues/), which they share. Who may connect is decided by access control lists (Util/acl.c).
--
-- The files.
--   * Base: shared names, Boolean tests, lists, integers, and the faults an operation can end in.
--   * Queue: Queues/queue.c and Queues/pacing.c. Queue/State is the QueueStruct of
--     Queues/queueinternal.h; Queue/Pacing is pacing.c; Queue/Release, Queue/Ops and Queue/Write are
--     the operations of queue.c; Queue/Query its queries by name. The other files are about these:
--     Queue/Inv the invariant, Queue/Writing, Queue/Reading, Queue/Joining, Queue/Leaving and
--     Queue/Writers one operation each, Queue/Called what a call that returned says of the queue,
--     Queue/Life all of them in any order, Queue/Throttle pacing,
--     Queue/Report the queries.
--   * Acl: Util/acl.c with the structures of Util/aclmanagement.h and Login/login.h. Acl/Match is
--     checkACL, Acl/Edit the changes of one list, Acl/Lists the lists by name; Acl/FirstMatch,
--     Acl/Range, Acl/Numbering, Acl/Initial, Acl/Dangling and Acl/Names are about these.
--   * Address: createAddrInfo of Util/address.c.
--   * Labeling: Labeling/rtable.c with the structures of Labeling/rtable.h, Labeling/myhash.c (Hash)
--     and Labeling/labelutils.c (Stream). Labeling/Heap is memory, State the structures, Table the
--     buckets; Attributes, Prefixes, Nlri and Updates are the operations, from the attribute nodes up
--     to applyBGPUpdate, and Start the creation of the tables. Attrs and Parse are parseBGPUpdate,
--     Process is processBMF of Labeling/label.c. The other files are about these:
--     Labeling/View what a RIB says of a prefix, Labeling/Inv the invariant over each operation, Encoded,
--     Corrupt and Batch the loops over an NLRI, Routes, Refine, Parts and Whole the map of
--     routes, Attributed, Messages, Parsed and Delivered the way from the bytes of a message to the routes.
--   * Bgp: Util/bgp.c with the structures of Util/bgp.h. Bgp/Build makes an update, and
--     Bgp/Serial is BGP_calculateLength and BGP_serialize; Bgp/Attributes is about the order of the
--     attributes, Written, Encoding and Serialized about the bytes. The numbers that BGP_serialize
--     reads from the array of pointers are a parameter.
--   * Sessions: the array Sessions of Peering/peersession.c and what MRT connections do with it.
--     Sessions/Store is the code, Find what findSession finds, Life creation and destruction. The
--     length of the array, MAX_SESSION_IDS, is that of the list.
--   * Session: Peering/bgpfsm.c and the part of Peering/peersession.c and Peering/bgppacket.c that it
--     calls. Session/Timers, Session/Capability and Session/Wire are what the state machine uses,
--     Session/Fsm is the state machine, Session/Thread the end of a turn of its thread, and
--     Session/Encoding writes and reads capabilities; Session/Inv, Session/Ending, Session/Timing,
--     Session/Opening, Session/Required, Session/Starving and Session/RoundTrip are about these.
--
-- The model. An operation takes the state and returns the new one, or a fault: a wait for a lock that
-- nobody releases, a call of log_fatal, a read or write out of bounds or through NULL or of freed
-- memory, or a loop that does not end. A queue operation runs with the lock held and is one step; a
-- history, a function from positions to messages, says what was written to a queue from its creation
-- on, and the invariant relates the array to it. Positions and times are natural numbers; a float is
-- its bit pattern, and the operations on floats are parameters. A reference count is an int that
-- wraps. What the network does in a run of the state machine is an input, a Turn; time(NULL) gives one
-- value before the session waits for its peer and one after. The structures of a RIB lie in heaps, which
-- are lists of addresses with their contents; a pointer is an address, and a linked list with its
-- `next` fields is the list of its addresses. Allocation takes the next address and does not fail; the
-- locks of attribute nodes have no state. The routes that a session has learnt are a map from prefixes
-- to AS paths and attributes.
--
-- Bounds and fuel. QUEUE_MAX_ITEMS, MAX_QUEUE_READERS and MAX_QUEUE_WRITERS have the values of
-- site_defaults.h.in. The loop of updateInterval runs on fuel, one more than the seconds since the
-- last tick and one again, which is enough if the interval is a second or more; that of
-- extractBgpCapabilities on the number of bytes, of which each turn passes two. The loops over an NLRI run on
-- the bytes of the memory that holds it, of which each turn reads one, and that over the attributes of an
-- update on one more than those bytes. All other loops are structural.
--
-- Not modelled: the configuration file and its saving, the copy functions of messages, displays
-- and logs, the encoding of BGP messages of the other types, the destruction and the
-- sending of a RIB, the labeling thread, the sessions of peers in the table, peers and peer
-- groups, chains, clients, MRT, periodic events, XML and the command line. getaddrinfo
-- is a parameter. The wait of a reader for a message is a result, with the lock released; whether a writer
-- that is paced sleeps is a test, paces_writer. A backoff beyond 2 ^ 31 seconds is not wrapped.
pub mod Base
pub mod Queue
pub mod Address
pub mod Acl
pub mod Session
pub mod Labeling
pub mod Sessions
pub mod Bgp
