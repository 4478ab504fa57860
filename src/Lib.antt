-- ===== src/Lib.antt =====
-- A peer-to-peer carrier in C: sessions between friends carry many channels over one stream, and
-- the carrier moves files between friends.
--
-- The parts, and how they work together. src/session/session.c keeps the streams of a session with
-- a friend, and asks that friend through an invitation of the carrier. A stream has a chain of
-- handlers; src/session/multiplex_handler.c is the one that turns a stream into channels. It takes
-- its ids from the heap of src/common/ids_heap.c, which searches the bit set of
-- src/common/bitset.h and src/common/bitset.c, keeps its channels in the table of
-- src/session/channels.h, and passes packets in the buffers of src/session/flex_buffer.h. On a
-- reliable transport it first cuts the byte stream into packets. src/carrier/IOEX_carrier.c
-- answers the DHT and the application; of it are modelled the friends with their messages and
-- invitations, the user information and the file transfers, which keep a list of trackers for the
-- files to send and one for those to receive. The lists are those of src/common/linkedlist.c,
-- whose data are counted by src/common/rc_mem.c.
--
-- Common/Ring holds the laws of the doubly linked rings of entries, Common/RcMem the reference
-- counts, and Common/LinkedList models the list on the fields of its entries by their addresses;
-- its Sequence is what the list promises. Common/Hashtable models src/common/linkedhashtable.c, on
-- which the tables of channels and friends stand, in the same way; its Map is what the table
-- promises. Common/Bitset models the bit set, a word being the list of its 64 bits; Common/IdsHeap
-- the heap, whose state is the record IdsHeap. Session/FlexBuffer models the buffers with the
-- wrap-around of size_t, Session/Packet the header of a packet as bytes, Session/Reassembly
-- multiplex_handler_notify_data, Session/Channels the table as a list in the order of insertion.
-- Session/Multiplex holds the state of a handler and multiplex_handler_send_packet,
-- Session/Multiplex/Receive multiplex_handler_notify_packet, Session/Multiplex/Client the
-- operations on channels (open, close, write, pend, resume), and Session/Multiplex/Timer the
-- checkpoint, on_data, on_state_changed and write. Session/Streams models a session of
-- src/session/session.c with its streams, Session/Streams/Request how it asks, answers, starts and
-- sends, and Session/Streams/Mux the channel operations of a stream; Session/Services models the
-- services of src/session/services.h. Carrier/CString models the string functions of the C library
-- that are used, Carrier/Files the state of the file transfers, Carrier/Files/Tracker the
-- trackers, Carrier/Files/Notify the callbacks notify_file_…_cb, Carrier/Files/Send the functions
-- IOEX_send_file_…, and Carrier/Files/Iterate IOEX_get_files. Carrier/Friends holds the carrier's
-- state for friends and the packets of src/carrier/IOEXcp.c, Carrier/Friends/Tables the tables of
-- src/carrier/friends.h, tcallbacks.h and thistory.h, Carrier/Friends/Notify and
-- Carrier/Friends/Receive the callbacks of the DHT, Carrier/Friends/Manage and
-- Carrier/Friends/Messages the functions of the application, Carrier/Friends/Events the queue, and
-- Carrier/UserInfo the information of friends and of the carrier itself. A function keeps its
-- name, less the prefix multiplex_handler_, IOEX_ or _. The modules below a component hold its
-- lemmas: Laws, Places, Calls, Runs, Buckets, Invitation, Status, Order, Entries, Held, Progress,
-- Slots, Table, Remove, Put, Replace, Clear, Default, Iterator, Loops, Stale, Chain, Surgery,
-- Alloc, Free, Search, Isset, Words, Invariant, Validity, Wire, Handshake, Steps, Refusal, Stream,
-- Transitions, Errors, Closing, Interval, FullPath, Transfer, Cancel and those of Reassembly.
-- Tests applies the theorems to concrete inputs.
--
-- State is passed explicitly. What a component calls and does not implement is a record Env that
-- its functions take: the transport, the callbacks, the DHT, base58, the file system and the
-- allocator, and for the shift of a 32-bit int beyond its width a function that is only fixed
-- where C fixes it. What they hand out is recorded, the latest first, in outbox, events or trace.
-- An int that is an error is `fail`, one that is a result is `value`.
--
-- Loops over words, bytes and lists are structural. The search for a clear bit runs on the number
-- of words of the set, and the reassembly on the size of the buffer, of which every round takes a
-- byte at least; the theorems about them give the answer for every well-formed input, so the fuel
-- is enough.
--
-- Not modelled: threads and locks beyond the failure of the id heap's lock, logging, NULL for the
-- carrier, a list or a table itself, callbacks that call back into the component that runs them,
-- arrays that are written past their end or read before they hold a string, ids and sizes that are
-- negative, and the rest of the carrier (the persistent data, the setup and the main loop), the
-- setup of sessions, the forwarding of ports and the transports. Reference counts stand in the
-- lists and tables of Common; in the tables of the carrier and of the channels they are left out:
-- no object is freed while a table holds it.

pub mod Prelude
pub mod Common
pub mod Session
pub mod Carrier
pub mod Tests
