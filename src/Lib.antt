-- ===== src/Lib.antt =====
-- Networking classes on top of asio: a byte buffer, framing protocols, the sessions of servers that
-- speak them, and clients that reconnect. The repository holds several small programs
-- that share no code but copies of it.
--
-- Which file models which part:
--   Buffer: ConnectionBuffer of asio-1.28/include/connection_buffer.h and
--     asio-1.28/src/connection_buffer.cpp (asio-1.10 has the same files); Valid, Append and Indices
--     treat its operations, and Fifo compares any sequence of calls with a queue of bytes.
--   Protocol: the handlers of asio-1.28_server_multi_protocol/src/test.cpp: LineProtocolHandler in
--     Protocol/Line, FixedLengthProtocolHandler in Protocol/FixedLength, BinaryProtocolHandler in
--     Protocol/Binary; Protocol/Handler joins them as the interface ProtocolHandler, and
--     Protocol/Factory has ProtocolFactory and register_protocols.
--   Session: Session, EchoHandler and ProtocolDetector of the same file. Session/Valid is the relation
--     of the steps that asio can make a session take, Session/Writing the write queue,
--     Session/Reading and Session/Stream the bytes received, Session/Stalls sessions with a full
--     buffer or several frames in it.
--   Server: SessionIdGenerator and the accept handler of Server of the same file. Server/Threads has its
--     constructor, its stop and its threads, Threads/Early threads that end too soon, and Threads/Stop
--     the end of them all.
--   Workers: the threads of both servers, each in the run of an io_context.
--   TcpClient: TcpClient of asio-1.28/include/tcp_client.h and asio-1.28/src/tcp_client.cpp.
--     TcpClient/Runs is the list of the events that can happen to it, TcpClient/Order the messages
--     on a connection that holds, TcpClient/Alive what keeps it going, TcpClient/Stalls and
--     TcpClient/Leftovers what a failed connection leaves behind.
--   AsyncClient: AsyncClient of asio-1.28_async_client/include/async_client.h and
--     asio-1.28_async_client/src/async_client.cpp, with its events in AsyncClient/Runs, its queue in
--     AsyncClient/Order and AsyncClient/Stuck, and its reconnecting in AsyncClient/Alive.
--   ServerMulti: of asio-1.28_server_multi/src/test.cpp, IOContextPool in ServerMulti/Pool,
--     StatisticsHandler in Statistics, Session over any DataHandler in Session, whose Runs has its
--     events, Order its answers and Counts its statistics, and Server in Server, whose Runs lets the
--     sessions take turns, Spread has their threads, Ids their ids and Counts the statistics of all
--     of them; Session/Active counts the active ones.
--     Statistics/Schedule and Statistics/Sessions forget the order of the calls of different sessions.
--     Threads has Server::run and Server::stop with the threads of the pool; Threads/Waiting and
--     Threads/Ending treat a stop. CalculatorHandler is in Calculator, its answers to expressions in
--     Calculator/Answers, and to any text in Calculator/Errors.
--   TcpConnection: TcpConnection of asio-1.10/include/tcp_connection.h and
--     asio-1.10/src/tcp_connection.cpp. TcpConnection/Runs is the list of the events that can happen
--     to it; Single counts its operations, Sending follows the bytes to the peer, Moved and Unsent
--     treat messages that come during a write or before the connection stands.
--   TcpConnection128: TcpConnection of asio-1.28/include/tcp_connection.h and
--     asio-1.28/src/tcp_connection.cpp, a copy of it; TcpConnection128/Same compares the two.
--   AsioTimer: AsioTimer of asio-1.10/include/asio_timer.h and asio-1.10/src/asio_timer.cpp.
--   TcpClient110: TcpClient of asio-1.10/include/tcp_client.h and asio-1.10/src/tcp_client.cpp, with its
--     events in TcpClient110/Runs, its reconnecting in Alive and Unresolved, its timers in Timers, and
--     in Delivery and Lost the messages on their way through the client and its connection.
--   UdpClient: UdpClient and Session of udp-asio-1.28/include/udp_client.hpp, cut into the steps
--     between which another thread can run; UdpClient/Runs puts them in any order, Order and Drained
--     follow the messages, Asleep and Stop its thread.
--   EchoServer: Session and Server of asio-1.28_server_single/src/test.cpp.
--   Common: lists, memory copies, words, text and dictionaries that the parts share, and in
--     Common/Runs sequences of events and what each of them keeps.
--
-- How they interact: a session owns a protocol handler, which it gets from the factory by name, and a
-- read buffer. A completed read puts bytes into the buffer, the protocol handler cuts frames from it
-- and gives each to the data handler, whose answer is posted as a write; the write asks the
-- protocol handler for a frame, which goes into the write queue. The server makes a session of
-- every connection. The multi-threaded server spreads its sessions over the contexts of a pool, and
-- all of them share one data handler.
-- A TcpClient and an AsyncClient stand alone: the user calls them, and asio runs their handlers.
-- The TcpClient of asio-1.10 owns a TcpConnection, which has two buffers, and a timer that calls it;
-- each failed try replaces the connection. The thread of a UdpClient takes its messages from a
-- queue that other threads fill.
--
-- How the code corresponds to the model: an object is a record of its members, a member function a
-- function from record to record, and a handler that asio calls one step. What is outstanding in asio
-- (posted tasks, a read, a write) is in the record too. An access outside an array or a copy between
-- overlapping regions gives none, as does front or pop_front of an empty queue. Bytes and words are
-- native natural numbers; the arithmetic of uint32_t and size_t is written out modulo 2 ^ 32 and
-- 2 ^ 64. Loops are structural over the rounds that are left, which the length of the data bounds.
-- The array of a buffer that is being sent is put elsewhere by a resize beyond its capacity, which
-- grows as it does in libstdc++.
-- Decimal text is made with one round of fuel more than the number; the number has no more digits.
--
-- Not modelled: asio itself, and threads and locks but for UdpClient and the threads of the servers (the
-- handlers of an object run one after the other, on a strand or on one thread), memory management,
-- the log output and the test drivers. Floating-point numbers and the functions of the standard library
-- that read and print them are a parameter. asio-1.10 has the same ConnectionBuffer as asio-1.28, which
-- is modelled once.
pub mod Common
pub mod Buffer
pub mod Protocol
pub mod Session
pub mod Workers
pub mod Server
pub mod TcpClient
pub mod AsyncClient
pub mod ServerMulti
pub mod TcpConnection
pub mod TcpConnection128
pub mod AsioTimer
pub mod TcpClient110
pub mod UdpClient
pub mod EchoServer
