-- ===== src/ServerMulti.antt =====
-- asio-1.28_server_multi/src/test.cpp: the sessions of the multi-threaded server, the pool that they are
-- spread over, the handlers of their data, and the server.
pub mod Pool
pub mod Statistics
pub mod Calculator
pub mod Session
pub mod Server
pub mod Threads
mod Tests
