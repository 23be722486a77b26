-- ===== src/Lib.antt =====
-- A model of the library in the directory socketapi of the repository: a C++ interface to sockets,
-- with strings and addresses of its own, through which applications use SCTP in user space.
--
-- The parts, each with the file that models it:
--   * Prelude: Boolean tests and lemmas on native numbers, lists and bytes that all parts share.
--   * Strings: the class String (tdstrings.h, .icc, .cc) as a value, `none` for a null pointer. Its
--     children have the numbers (Decimal), searching (Search), the parts of a text (Slices),
--     stripping (Strip), settings of the form NAME=VALUE (Setting) and the comparisons (Order).
--   * Internet: the class InternetAddress (internetaddress.h, .icc, .cc), its state with the words
--     and the port as they lie in the memory of a little-endian host. Classes has the predicates,
--     Order the comparisons, System the conversions from and to a sockaddr, Lookup what calls
--     getaddrinfo, Parse the constructor from a text, Print getAddressString, RoundTrip both
--     together, Checksum the Internet checksum, and Portable the comparisons of PortableAddress.
--   * Unix: the class UnixAddress (unixaddress.h, .icc, .cc).
--   * Addresses: the choice between the classes in SocketAddress::createSocketAddress.
--   * Notifications: the class SCTPNotificationQueue (sctpnotificationqueue.h, .icc, .cc), in which
--     an association or a socket keeps what the master of all sockets reports. The linked list
--     stands on a heap of its own; Represents says which list of notifications it is.
--   * Association: of the class SCTPAssociation (sctpassociation.h, .cc) the packets that wait until
--     the association is up (sendTo, sendPreEstablishmentPackets), its shutdown, and the default
--     timeouts of its streams. What the socket answers to a packet is an argument.
--   * Sctp: the classes SCTPSocket and SCTPSocketMaster (sctpsocket.h, .cc, sctpsocketmaster.h, .cc).
--     Closing and Lifetime have the end of associations and sockets, with unbind, checkAutoClose and
--     the garbage collections, and Collect, Unbind and AutoClose the theorems on them. Notify has
--     the notifications and their queues, Callbacks what sctplib calls, Events a run of callbacks,
--     and Kept what such a run keeps of every association, which Errors uses. Receive has
--     internalReceive, and Counting the use counts of associations. Accept has the connections that
--     wait and peelOff, Send has sendTo. Every and Find are lemmas on the lists.
--   * Descriptors: the table of descriptors and the calls ext_socket, ext_open, ext_creat, ext_pipe
--     and ext_close (sctpsocketwrapper.cc, extsocketdescriptor.h); Calls, Names, Connect and Packing have
--     what binds, listens, accepts, names and connects, and the lists of addresses. What the system returns is an
--     argument, and the calls into the system and into the SCTP classes are a list of effects.
--   * Options: ext_getsockopt and ext_setsockopt with their helpers (sctpsocketwrapper.cc), and what
--     they call of SCTPSocket and SCTPAssociation (sctpsocket.cc, sctpassociation.cc): Methods has
--     the settings, Paths the search for a path, Values the structures, Get, Set and the others the
--     calls. Calls, Held, Search and RoundTrip have the theorems.
--   * Select: ext_select with collectFDs (sctpsocketwrapper.cc), in Wrapper the call as a whole with
--     select_wrapper, and in Poll ext_poll. The sets of
--     descriptors are functions to Booleans, and what has fired is an argument.
--   * Messages: in Sending ext_sendmsg and the headers of sctp_sendmsg and sctp_send, in Receive and
--     Buffers ext_recvmsg with its loop over the buffers (sctpsocketwrapper.cc). What the classes
--     send and receive is an argument.
--
-- How code is modelled: a function that changes an object takes the object and gives the new one
-- with its result; a constructor that leaves fields as they are takes the memory the object is made
-- in. getaddrinfo is the record Net, getnameinfo and if_indextoname are the record Names: the only
-- thing that is asked of them, where a theorem says so, is that getaddrinfo reads the number of an
-- IPv4 address for itself, and Internet.Numeric is such a function. UseIPv6 is an argument.
--
-- An association is named by its number and a socket by that of its instance. sctplib is the record
-- Lib: which instance an association has and what its status is; what is called on it is a list.
-- It is taken to succeed where the code ends the process if not, and a callback is a step of its own,
-- with one exception: sctp_abort calls communicationLostNotif before it returns. So what that does to the
-- socket is an argument where an association is aborted, Lost, which Callbacks has as `lose`.
-- While checkAutoClose runs, the time stands still. A queue of an association or a socket is the
-- list of notifications that its linked list stands for. `none` stands for a call that ends the
-- process, where the comment says so.
--
-- For the options, sctplib is the record SctpLib on a state of its own, with calls that read and
-- change its parameters, and AddressApi compares addresses. The objects that the options reach are
-- the record Objects; locking is left out. For messages, SendApi and
-- RecvApi stand for the methods of the socket and the association that send and receive.
--
-- Bounds and fuel: texts are shorter than 2 ^ 32, the range of a cardinal, where the code would cut
-- a length. Printing a number runs on the number itself as fuel, the loop over the words of an
-- address on 8 rounds. The loops over the linked list run on fuel, and as much fuel as there are
-- notifications is enough, and so it is with the packets that wait for an association that is up.
-- The loop of checkAutoConnect has one round more than there are requests, which is enough, that of
-- bindToAny its 50000 rounds. The loop over the paths of an association runs on as many rounds as
-- are given, and the search is `none` where there are more; the loop of receiving likewise. The table of descriptors has FD_SETSIZE = 1024 slots.
--
-- Not modelled: allocation of text buffers and of objects where nothing depends on it, warnings on
-- std::cerr, streams, threads and their waiting; of SCTP itself what of the class SCTPAssociation
-- only hands its arguments on to sctplib, of SCTPSocket the making of associations, and of
-- SCTPSocketMaster its thread and its lock; of the calls on descriptors peel-off,
-- reading and writing, and getting the lists of addresses; the wrapper classes in
-- cppsocketapi and the example programs.
pub mod Prelude
pub mod Strings
pub mod Internet
pub mod Notifications
pub mod Descriptors
pub mod Unix
pub mod Addresses
pub mod Association
pub mod Sctp
pub mod Options
pub mod Select
pub mod Messages
