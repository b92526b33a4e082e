-- ===== src/Lib.antt =====
-- cezfuzzer runs a distributed program with a proxy between its processes. The proxy passes on
-- the messages of the processes and adds to them what the program radamsa makes of them. A
-- launcher server and the launcher clients start everything, and start it again when a process
-- ends.
--
-- The proxy reads its configuration (Config), opens the sockets of each connection and starts a
-- thread for each of them (Proxy, Udp.Sockets). A thread receives a datagram, chooses where it
-- goes to by the socket and by the queue of dynamic ports of the connection (Udp.Route,
-- Udp.Connection), has it fuzzed (Fuzzer), and sends the result (Udp.Threads). A TCP handler
-- listens, connects each client that it accepts to its server, and starts a thread for each
-- direction, which does the same with what it reads from a stream (Tcp). The launchers read the
-- same configuration (Launcher.Config), exchange messages that are a length and bytes (Wire),
-- act on three texts (Launcher), and run the commands of their entities (Execution).
--
-- Files:
-- - Base: numbers, lists, options and tests that the other modules share.
-- - Fuzzer: proxy/inc/Fuzzer.hpp and proxy/src/Fuzzer.cpp. Memory is the memory of the process:
--   blocks by address, each with the bytes of it that are set. malloc may refuse; reading a byte
--   that is not set, writing behind the end of a block, and freeing what is not a block are a
--   fault; a loop that never ends is `hang`. Core is runRadamsa, runRadamsaExpanded and
--   normalizeOutputSize; Modes is postFuzzing, preFuzzing, fullFuzzing, guidedFuzzing and pass;
--   Args is the argument vector. Each function takes pointers and sizes as the source does; the
--   reference parameter of the size is a part of the result.
-- - Udp: proxy/inc/UDPConnection.hpp, proxy/inc/UDPHandler.hpp and proxy/src/UDPHandler.cpp.
--   Connection is a connection with its queue, each method one step under its mutex. Sockets is
--   createAndBindSocket, buildFromConnections, startRecvThreads and startSendThreads, with the
--   unordered_map as a list, the latest entry first; Route and Threads are the two thread
--   functions, each a loop on what recvfrom() gives; between two rounds of a thread the others
--   may change the connection's queue in any way.
-- - Tcp: proxy/src/TCPConnection.cpp and proxy/src/TCPHandler.cpp. Relay is the thread function
--   _connection_thread_loop. Channel is the two sides of a channel and the start of their
--   threads, Listen the constructor of TCPHandler and a round of _listen_thread; the state is
--   the handler's fields, the open descriptors of the process and the threads that run. Reached
--   takes the rounds in any order.
-- - Proxy: proxy/src/ProxyBase.cpp, from what the file holds to the handlers and their threads;
--   Main is proxy/src/main.cpp, with the life of the two handlers.
-- - Wire: send_message and recv_message of luncher/server/src/Server.cpp, which are repeated in
--   luncher/client/src/Client.cpp.
-- - Config: proxy/lib/ConfigurationManager.hpp and proxy/lib/ConfigurationManager.cpp, and how
--   proxy/src/ProxyBase.cpp sorts the entities. Steps is the try block of parse(), shared with
--   the launchers.
-- - Launcher: Config is luncher/utils/ConfigurationManager.hpp and its .cpp; Messages is
--   luncher/utils/Messages.h; Client is the processes of a client
--   (luncher/client/src/Client.cpp); Server, Clients and Accepting are the notification, the
--   client list and the accepting thread of the server (luncher/server/src/Server.cpp,
--   luncher/server/inc/ServerUtils.hpp); Session is the greeting of a new client and the
--   client's loop, on the streams of Wire; Startup is both main functions before their loops;
--   Handling is the loop of the server's thread for a client; Proxies is the server's children,
--   that is, the proxy's processes, through the rounds of its main; Status is what the launchers
--   print of a child's end. A step of the server's notification is what a thread does under the
--   mutex.
-- - Execution: luncher/utils/ExecutionManager.cpp, the command that the child of launchEntity
--   runs, with the text of an int in Decimal.
--
-- Parameters. What radamsa writes, and how its pipes and fork() go, is a function `child` of the
-- arguments, the number of the run and the bytes it reads. Which calls of malloc succeed is a
-- function of the address and the size. How many bytes send() and recv() move is a function of
-- the number of the call. yaml-cpp is a type of nodes with its operations; the calls on sockets,
-- fork(), open() and pthread_create() give what a function says, in a restart of the server a
-- function says for which clients send_message() returns, the macros of sys/wait.h are a
-- record, and execvp() finds stdbuf. The sizes MIN_OUTPUT_SIZE and MAX_BUFFER_SIZE are fields,
-- with the program's values in Fuzzer.Core.shipped; they are sane when the least is positive and
-- not above the greatest, and twice the greatest is below 2^63.
--
-- Fuel. The copying loop of Fuzzer takes the target's size as fuel: a round copies a byte or
-- more, unless the input is empty, and then the fuel runs out, which is `hang`, as the loop of
-- the source does not end. send_message takes fuel of its own, and the theorems ask for one unit
-- for each byte of the frame; recv_message takes a unit for each byte that it waits for. The
-- loop of client_loop has no end; client_rounds are its first rounds, and handle_rounds those of
-- the server's thread for a client. Numbers are unbounded where the theorems bound the sizes;
-- size_t, int and uint16_t are cut where the source cuts them.
--
-- Not modelled: what is printed, but for the print of a TCP thread's buffer, whose reads are; the
-- time that passes; malloc() of a TCP thread's argument, taken to succeed. A UDPHandler is a
-- block of the memory, which stands for it, its connections and its fuzzer; a thread's round
-- reads it, and Proxy.Main makes and deletes it. No block is deleted by another thread during a
-- run. The TCP threads are modelled as long as the objects that they use live. commander.py and
-- the folder commander, the programs under tests/, and the packages that the program uses are not
-- modelled.
pub mod Base
pub mod Fuzzer
pub mod Udp
pub mod Tcp
pub mod Wire
pub mod Config
pub mod Proxy
pub mod Execution
pub mod Launcher
