-- ===== src/Buffer.antt =====
-- asio-1.28/include/connection_buffer.h and asio-1.28/src/connection_buffer.cpp (asio-1.10 has the
-- same two files): a byte array with a read and a write index. `uint32_t` and `size_t` arithmetic
-- wraps; `none` is undefined behaviour of a `memcpy`.
pub mod Valid
pub mod Append
pub mod Indices
pub mod Fifo
mod Tests
use asio_client.Common.{
  ℕ, ◌+◌, ◌-◌, ◌*◌, ◌/◌, ◌%◌, ◌^◌, Bool, false, Option, some, List, length, replicate, ltb, leb,
  if◌then◌else◌, ◌>>=◌, copy_in, move_down, resize, to_u32, add_u32, sub_u32, add_size, sub_size,
}

pub record ConnectionBuffer : Type 0 where
  pub buffer : List ℕ
  pub read_index : ℕ
  pub write_index : ℕ

abbrev pub buf_size : ℕ
buf_size = 4 * 1024

-- `ConnectionBuffer(uint32_t size)`; the default constructor passes `buf_size`.
unfoldable pub init : ℕ → ConnectionBuffer
init size = record { buffer = replicate size 0; read_index = 0; write_index = 0 }

pub init_default : ConnectionBuffer
unfolding init
init_default = init buf_size

abbrev pub writable_count : ConnectionBuffer → ℕ
writable_count b = sub_u32 (to_u32 (length b.buffer)) b.write_index

abbrev pub readable_count : ConnectionBuffer → ℕ
readable_count b = sub_u32 b.write_index b.read_index

-- `memcpy(writePtr(), dataptr, datalen)` and the step of `write_index_` after it.
write_bytes : ConnectionBuffer → List ℕ → Option ConnectionBuffer
write_bytes b bytes = do
  buffer ← copy_in b.buffer b.write_index bytes
  some (record b { buffer = buffer; write_index = add_u32 b.write_index (to_u32 (length bytes)) })

-- Moves the readable bytes to the front, as `append` and `adjustInternal` do.
pub compact : ConnectionBuffer → Option ConnectionBuffer
compact b = do
  buffer ← move_down false b.buffer b.read_index (sub_u32 b.write_index b.read_index)
  some
      (record { buffer = buffer; read_index = 0; write_index = sub_u32 b.write_index b.read_index })

-- By how much the last branch of `append` enlarges the array: `buf_size * count`, a product of a
-- `uint32_t` and an `int32_t`, computed modulo 2 ^ 32.
abbrev pub growth : ℕ → ℕ
growth datalen = (buf_size * add_u32 (to_u32 (datalen / buf_size)) 1) % 2 ^ 32

unfoldable pub append : ConnectionBuffer → List ℕ → Option ConnectionBuffer
unfolding write_bytes compact
append b bytes =
    if ltb (length bytes) (writable_count b)
    then write_bytes b bytes
    else if ltb (add_size (sub_size (length b.buffer) b.write_index) (length bytes)) b.read_index
    then (compact b >>= λ c. write_bytes c bytes)
    else write_bytes
        (record b { buffer = resize b.buffer (add_size (length b.buffer) (growth (length bytes))) })
        bytes

unfoldable pub retrieve_read_index : ConnectionBuffer → ℕ → ConnectionBuffer
retrieve_read_index b count =
    let read_index = add_u32 b.read_index count in
    if leb b.write_index read_index
    then record b { read_index = 0; write_index = 0 }
    else record b { read_index = read_index }

pub retrieve_write_index : ConnectionBuffer → ℕ → ConnectionBuffer
retrieve_write_index b count =
    let write_index = add_u32 b.write_index count in
    if leb (length b.buffer) write_index
    then record b {
      write_index = to_u32 (length b.buffer);
      buffer = resize b.buffer ((length b.buffer * 2) % 2 ^ 64);
    }
    else record b { write_index = write_index }

pub retrieve_both_index : ConnectionBuffer → ConnectionBuffer
retrieve_both_index b = record b { read_index = 0; write_index = 0 }

pub adjust_internal : ConnectionBuffer → Option ConnectionBuffer
unfolding compact
adjust_internal b =
    if leb (sub_size (length b.buffer) b.write_index) b.read_index then compact b else some b

-- `TcpConnection::receiveInService` hands the writable part to the socket, which puts `bytes` there;
-- `handleReceive` then moves the index.
pub receive : ConnectionBuffer → List ℕ → Option ConnectionBuffer
receive b bytes = do
  buffer ← copy_in b.buffer b.write_index bytes
  some (retrieve_write_index (record b { buffer = buffer }) (length bytes))
