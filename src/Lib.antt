-- ===== src/Lib.antt =====
-- A model of yRPC, a library for remote calls between processes (below src/ in the repository).
--
-- A process that calls a function of another one makes a message: a head of 32 bytes, a body head
-- with four names (sender, receiver, module, function) and the user's data. The core queues it in a
-- list, a thread takes it from there and sends it on the connection that a table holds for the
-- receiver. What a connection receives is handed to the core, which makes a message object of it and
-- acts by its type: a response wakes up the caller that waits for its ID, a request runs a service in
-- the thread pool or is refused, a request to link settles which of two connections is used, and
-- observers are registered at named objects. Tables map IDs to waiting callers, names to services, to
-- observers and to connections.
--
-- Files:
--   Common         the shared names: tests, lists, bits, integers, runs with faults, strings
--   Head           src/message/message_head: the fields, the initialisers, the setters, the checks;
--                  Head/Codec the bytes; Head/Kinds the nine kinds of message
--   Body           src/message/body_head: the names, their size, the writer and the parser
--   Message        src/message/message: the object, its user data and the buffer, with the first half
--                  of analyseReceiveData (src/rpc_core.cpp); Message/Wire the way from one object to
--                  the other
--   Container      std::map as an ordered list of entries, with the order of the keys as an instance
--   Hash           src/data_structure/uint_hash at any keys; StringHash is src/data_structure/string_hash
--   Observer       src/rpc_observer
--   PointerList    src/data_structure/pointer_list, and the loop of runUntilAskedToQuit that
--                  disconnects all processes
--   Core           src/rpc_core: the static members as the record Core; Core/Queue has getFrameID,
--                  insertSenderNode, wakeupOneThread and releaseRPCMessage; Core/Reply setResponse and
--                  responseErrorCodeACK; Core/Link responseLink and requestLink; Core/Receive
--                  analyseReceiveData and registerObserverHandler; Core/Events commEventHandler and the
--                  public operations on the tables; Core/Call proxyCall; Core/Observe invokeObserver and
--                  registerObserverRequest; Core/Sender the thread RPCCoreThread
--   Config         src/libinifile/rpc_conf_base over the record Ini.IniFile; Config/Keys has the names of
--                  the keys, Config/Units the time units, Config/Check selfCheckValidity, and
--                  Config/Reference what a file says, without the caches
--   Driver         src/libevent/comm_driver: the event handlers, connect, disconnect and send;
--                  Driver/Lifetime create and destroy; Driver/Peer the driver with the core as its
--                  callback
--   Socket         src/libevent/socket_base
--   Proxy          src/rpc_proxy: init, destroy and the deadline of wait
--   Start          start, initRPC, getExecutableName and the address of connectToProcess (src/rpc_core)
--                  over the configuration, the driver and the core
--   Stop           runUntilAskedToQuit and signalHandler (src/rpc_core) over the same; Stop/Refine its
--                  disconnection loop against the one over the list alone (PointerList)
--   Examples       every theorem with hypotheses at a concrete input, and runs
--
-- How the code corresponds to the definitions: a function is the function of the same name in
-- snake_case, its state is an argument and a part of the result, and its return value an integer of
-- ℤ. A pointer to an object that has one owner is the object; other pointers are addresses, 0 for
-- NULL. Bytes are numbers below 256 in what the code writes. A read behind a buffer, a free of a
-- freed block and a use of an erased iterator are the result `fault`. What a handler does to
-- message objects and connections is added to the list `trace` of the state. A function that holds
-- one mutex over its accesses is one step; requestLink, proxyCall, registerObserverRequest,
-- runUntilAskedToQuit and the driver's connect wait in their middle and are two. The loop of
-- RPCCoreThread is the step relation SenderStep, between whose steps the state may change in any
-- way. The calls that the driver makes of libevent and of pthread stand in the list `calls` of its
-- state; what they answer is an argument. The record Tracks says what is held by that list, and
-- IsOrderly that nothing, the bufferevents of connections included, is freed twice or while it is in
-- use. A weight of the effects in `trace`, any function of the messages that were released or given
-- away, tells which these were.
--
-- Numbers: `unsigned int` wraps at 2 ^ 32 and `size_t` at 2 ^ 64 where the code can reach that; bit
-- fields keep their width when they are written. Four loops are on fuel. The parser of the body head
-- gets one round more than the buffer has bytes: every round but the last passes at least one. The
-- shutdown loop gets as many rounds as there are connections. The loop that releases the
-- queued messages is given a round for each of them. The loop of comm_read_handler has as many
-- rounds as it is given reads, which are enough when they return together all the bytes that were
-- there. A `time_t` below 0 is its bit pattern of 64 bits.
--
-- Code outside of the repository is an argument: the list macros of src/data_structure/queue.h (a
-- copy of OpenBSD's) are the record SendList with the laws of their manual; the results of malloc
-- and of the thread pool's addWork are the record Env. `new` fails by an exception, so its NULL
-- tests are left out, and the loops that repeat a serialisation until malloc succeeds are modelled
-- by the repetition that succeeds.
--
-- The INI file (a binary library with a header) is the record Ini.IniFile; the laws that a theorem
-- needs of it, FindsKeys, say that a getter finds the keys that the file has. What libevent returns
-- when a driver is created is the record Answers; IsPlausible says that new bases, and threads
-- that started, are different from each other, and that a pthread_create that succeeds writes an ID
-- that is not 0; one that fails may leave any ID. inet_aton is an argument.
--
-- Not modelled: the forwarding of src/rpc.cpp; callBusinessHandler, which calls the user's
-- function; the thread pool and the INI file (binaries); printing; the singletons; the examples and
-- the press test. libevent is a copy of another project's library.
pub mod Common
pub mod Config
pub mod Head
pub mod Body
pub mod Message
pub mod Container
pub mod Hash
pub mod StringHash
pub mod Observer
pub mod PointerList
pub mod Core
pub mod Driver
pub mod Socket
pub mod Proxy
pub mod Start
pub mod Stop
pub mod Examples
