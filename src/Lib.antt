-- ===== src/Lib.antt =====
-- flashptpd synchronises clocks over a network with Sync Requests and Responses, an unicast extension
-- of PTP. The development models the program's own algorithms, from the bytes on the wire to what a
-- client makes of the answers.
--
-- The parts and their files, with paths from the repository's root:
-- - Wire: PTP messages, Type-Length-Values, time stamps and corrections
--   (include/flashptp/common/defines.h). Wire.Words models swap64, Wire.Timestamp PTP2Timestamp,
--   Wire.Interval PTP2TimeInterval, Wire.Tlv FlashPTPTLVHdr, FlashPTPReqTLV, FlashPTPRespTLV and
--   FlashPTPServerStateDS, Wire.Message PTP2Message. A packed struct is a record together with a reader
--   and a writer of its bytes, which `reorder` and the layout determine; a TLV whose flag `valid` is
--   not set is `none`.
-- - Client.Sequence: class Sequence (include/flashptp/client/sequence.h), a request with the response
--   that is merged into it: new_sequence, timed_out, merge, complete and finish.
-- - Window and Filter: the filters (src/flashptp/filter). Window is what Filter::insert and
--   Calculation::insert share; lucky_filter and median_filter are the two algorithms.
-- - Calculation: the calculations (src/flashptp/calculation, include/flashptp/calculation), with
--   ArithmeticMean and PassThrough.
-- - Client.Server: class Server (src/flashptp/client/server.cpp). process_message takes a Response in,
--   merges it into the Sequence it belongs to, and hands a complete Sequence to
--   on_sequence_complete, which runs it through the Filters and into the Calculation, or to
--   on_sequence_error; check_sequence_timeouts gives late Sequences to on_sequence_timeout.
-- - Selection: which servers adjust a clock (src/flashptp/selection). preprocess leaves the servers in
--   question, detect_truechimers groups them by their intervals, select_std_dev and select_btca
--   pick. A pointer to a server is its index in the list of servers; the loops that drop groups have as
--   many rounds left as there are groups behind the index.
-- - ServerMode: class Request (include/flashptp/server/request.h) and the store of class ServerMode
--   (src/flashptp/server/serverMode.cpp), which collects a request from a Sync and a Follow Up;
--   ServerMode.Respond is its processRequest.
-- - Client.Request and Client.Schedule: the loop of Server::threadFunc (src/flashptp/client/server.cpp):
--   what it sends, and its counters, by which it decides when.
-- - Exchange: the two onMsgReceived (src/flashptp/client/clientMode.cpp,
--   src/flashptp/server/serverMode.cpp), which read a message's bytes, pass it on to each other through
--   class FlashPTP, and hand it to a server object or to the store of requests.
-- - Adjustment: src/flashptp/adjustment. `prepare`, `init_adj`, `adjust` and `finalize` of Adjtimex and
--   PIDController; a virtual call tells the two apart by the member `pid`.
-- - Client.Mode: performAdjustments and resetUnusedServersStates of class ClientMode
--   (src/flashptp/client/clientMode.cpp): for each adjustment the servers are selected, the clock is
--   adjusted by them, and `finalize` marks their measurements as used.
-- - Config: validateConfig, setConfig and make of all classes. A report is the variable `valid` and the
--   list of errors, each of which is a key and a kind. Config.Names has the names of enumerators,
--   Config.Parts Filter, Calculation, Selection and Adjustment, Config.Peers the class Server, Config.Modes
--   Listener, ServerMode and ClientMode, Config.Program the whole (src/flashptp/flashptp.cpp).
-- - Network: include/flashptp/network and src/flashptp/network. Network.Address is class Address,
--   Network.Interface the classes Interface, Socket and PHC, Network.Inventory class Inventory with the update
--   that its thread makes. A socket's descriptor is a number and a mark whether it is open; the pointers of an
--   interface to its sockets are options, `none` for a null pointer. Network.Send and Network.Recv are `send`
--   and `recv`, with the time stamps of Network.Stamps; what the system answers is an argument of each, and a
--   null pointer that is followed is a result of its own. The theorems on a mode's messages take the bytes
--   that are passed to `send` and from `onMsgReceived` on; these two say what happens between them.
-- - Thread: class Thread (src/flashptp/common/thread.cpp). Step is the relation of the steps of its caller and
--   of its own, `start` and `stop` are the whole calls.
-- - Prelude: names, texts, lists and integers that all share; Examples: the theorems at concrete inputs.
--
-- Representation: a method that changes its object takes the record and returns the new one. Values
-- of the type int64_t are integers without bound; overflow is undefined behaviour in the source,
-- and Wire.Timestamp has a range without it; `stateUsec`, of type int32_t, wraps around. Bit patterns, as of corrections, are numbers below 2 ^
-- w. A host of little endian is assumed for swap64 and ntohs. `double` is an interface,
-- Prelude.Doubles, of which nothing is assumed. std::sort is a parameter with what it promises,
-- SortByOffset. The monotonic clock is an argument. So are what the code calls outside: JsonApi
-- stands for the JSON library, LogApi for the names of cppLog, NetworkApi for the lookup of
-- addresses and interfaces by a name, InetNtop for inet_ntop, Clocks for the calls of the kernel,
-- whose state they pass on; of Doubles, LogApi, NetworkApi, InetNtop and Clocks nothing is assumed
-- but what a theorem names. Loops are structural recursion, over a list or the rounds that are
-- left, so that no fuel is needed, but for two: `dispatch` has as fuel the calls that one message
-- may cause, and a theorem says that two are enough where the message does not contradict itself;
-- `passes` is the endless loop of a thread, cut off after a number of passes. The loops that ask
-- the system again, in `recv` and for the time stamp of a message, run over the list of its
-- answers, behind which the time is over. A filter of size 0, on which the loop in Filter::insert
-- would not end, is refused by validateConfig, and IsWindow asks for a positive size.
--
-- Not modelled: the system calls that open and set up a socket or ask for a device's properties,
-- addresses from text, mutexes (each call under a lock is one step), the main program, logging,
-- printing, the deletion of objects, and the copies of cppLog and nlohmann's json.
pub mod Prelude
pub mod Wire
pub mod Client
pub mod Window
pub mod Filter
pub mod Calculation
pub mod Selection
pub mod ServerMode
pub mod Adjustment
pub mod Config
pub mod Exchange
pub mod Network
pub mod Thread
pub mod Examples
