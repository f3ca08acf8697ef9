-- ===== src/Protocol.antt =====
-- asio-1.28_server_multi_protocol/src/test.cpp: the three protocol handlers. `process_data` takes
-- the received bytes and hands each frame to `process`, which stands for what the handler's
-- `process_line`, `process_frame` or `process_payload` does to the session; it returns how many
-- bytes it consumed. `none` is a read or write outside the bytes at hand.
pub mod Line
pub mod FixedLength
pub mod Binary
pub mod Handler
pub mod Factory
pub mod Outcome
mod Tests
