-- ===== src/Lib.antt =====
-- leanmqd, a STOMP message broker in C, on the small socket framework libsf.
--
-- How the parts work together: libsf accepts connections and makes a session for each
-- (libsf/sf_session.c), reads into a packet buffer (libsf/sf_pbuf.c), asks the protocol for the length
-- of the message at its front and hands that message over (libsf/sf_proto.c). The protocol is STOMP
-- (stomp/stomp_proto.c): it parses the message and calls the handler of its command, which works on
-- the session's data (stomp/stomp_subr.c). A SUBSCRIBE puts the session's message queue
-- (mqcore/msgqueue.c) into the members of a binding (mqcore/binding.c), which the table of bindings
-- (mqcore/binding_hash.c) finds by its name; a SEND pushes the message to the binding, which passes it
-- to all members (a topic) or to one (a queue). A queue that gets a message calls back, and the
-- session sends the oldest one.
--
-- The files:
--   Pbuf: libsf/sf_pbuf.c. A block is the list of its bytes, head and tail are offsets.
--   MsgQueue: mqcore/msgqueue.c, a ring of four buffers. Its children relate it to a list of
--     messages (`Rep.Holds`): Live and Rep have the invariant, Seek, Read, Next, Room, Write and
--     Pushing the operations, Accepting when a push succeeds, Stable the bytes that were handed out.
--   Stomp: the parsing of stomp/stomp_proto.c. Text has the C strings, Parse lines and commands,
--     Header the values of headers, Length the length of a message.
--   Dlist, Buckets, Fnv: what the hash tables of mqcore/binding_hash.c and libsf/sf_session.c share.
--   Binding, BindingHash: mqcore/binding.c and mqcore/binding_hash.c. Binding.Growing is about the
--     subscription on every branch, Keeping about what a push keeps, Turns about the turn of a queue.
--   Timer: libsf/sf_timer.c. Chain, Removing, Adding and Requesting are about its list.
--   Proto: libsf/sf_proto.c. Session: libsf/sf_session.c.
--   Socket: libsf/sf_socket.c. Socket itself has the sending and the receiving, Instance the sockets
--     and how they are made, Events the events and connections, Multicast the options for it. Poll and
--     Poll.Kqueue are libsf/sf_epoll.c and libsf/sf_kqueue.c. Balance, Listening and Sound are about
--     the count of the sockets and their descriptors.
--   Main: libsf/sf_main.c. Loop has the loop and the firing of timers, which libsf/sf_timer.c calls
--     back, Reach the steps of an instance and the states it comes to.
--   Util: libsf/sf_util.c. Program: lmq_main.c.
--   Log: libsf/sf_plog.c. Syslog is about the order of its calls, Lines about the length of a line.
--   Broker: stomp/stomp_subr.c, and in Broker.Handlers the handlers of stomp/stomp_proto.c. Its other
--     children say what they do to the queues and sockets of sessions. Broker.Tied relates the
--     sessions, their queues and the bindings: Sending, Passing, Parting, Leaving, Joining, Adding,
--     Making, Subscribing and Handling are about the functions on the way to a handler, Reach has the steps of
--     a broker and the states it comes to, Gathering, Publishing and Dispatching a SEND in such a
--     state, Ending the end of a session.
--   Prelude: numbers, tests, lists and `int`.
-- The functions have the names of the C functions without their prefix. Pointers are numbers, with 0
-- for NULL; what an allocation returns is an argument. A call that fails has an option or a flag as
-- its result; an access outside a block, through NULL or to freed memory is an outcome of its own. Two
-- functions of libsf read freed memory on every run that frees it, and are modelled with what it held:
-- `destroy_session`, and `sf_timer_execute`, behind the function of a timer that closes its session. The
-- name of a binding is what `strncpy` copies of it, cut off at its array; what stands behind a name of
-- 64 bytes or more is not read. `timer_tv_after` has no result where the product of `int` overflows;
-- the differences of seconds are cut to an `int`, as the milliseconds of a wait are.
--
-- Fuel: the walks along linked lists (`find`, `chain_behind`, `execute_from`, `bcast_bucket`) take
-- fuel; a list needs more fuel than it has records, as long as the functions called on the way do not
-- lengthen it. `seek` and `make_room` have five rounds for the four buffers of the ring. The lines of
-- a message need at most two rounds more than its bytes, the messages of a buffer one more.
--
-- The loop of a read event has a round of the system for each of its own, given as a list; it is short
-- of one where the list ends before the loop does. The loop of `sf_main`, which never ends, is run for
-- as many rounds as there are in a list.
--
-- System calls are parameters: what they return, for each round of a loop. Among them are those for
-- sockets, `getaddrinfo`, `getnameinfo`, `getifaddrs`, `send` and `recvfrom`, and the clock. The
-- descriptors that are open are part of the state, and `socket` and `accept` get them.
--
-- Not modelled: how printf puts arguments into a format; the calls of the log in the other files; the
-- handler of signals in lmq_main.c, which does nothing; what `daemon` does. The functions of protocols are parameters where libsf calls them. A
-- timer belongs to a session, and its function is one of the two that the program gives to timers.
pub mod Prelude
pub mod Pbuf
pub mod MsgQueue
pub mod Stomp
pub mod Dlist
pub mod Buckets
pub mod Fnv
pub mod Binding
pub mod BindingHash
pub mod Timer
pub mod Session
pub mod Proto
pub mod Broker
pub mod Socket
pub mod Main
pub mod Util
pub mod Log
pub mod Program
