-- ===== src/TcpConnection.antt =====
-- asio-1.10/include/tcp_connection.h and asio-1.10/src/tcp_connection.cpp, `TcpConnection`; asio-1.28
-- has the same class without the name of the connection. The object is a record of its members and of
-- what it has under way in asio, as in TcpClient. `none` is undefined behaviour.
-- A write that is under way points into the array of `buf_out_`: it is the range of the array that
-- `async_write` was given, how much of it was sent, and which array it was. An array that is new has
-- room for just its size, and one that a `resize` puts elsewhere for twice the size before, or for its
-- size if that is more: so std::vector grows in libstdc++.
pub mod Runs
pub mod Single
pub mod Sending
pub mod Moved
pub mod Unsent
mod Tests
use asio_client.Common.{
  ℕ, ◌+◌, ◌*◌, max, Bool, true, false, not, ◌&&◌, Option, none, some, List, [], ◌∷◌, ◌++◌, length,
  ltb, ◌==◌, if◌then◌else◌, ◌>>=◌, to_u32,
}
use asio_client.Buffer
use asio_client.Buffer.{
  ConnectionBuffer, append, retrieve_read_index, adjust_internal, receive, readable_count,
}

pub data ConnectState : Type 0 where
  connecting connected disconnecting disconnected : ConnectState

-- What `io_service::post` was given.
pub data Task : Type 0 where
  receives : Task
  sends : List ℕ → Task
  closes : Task

pub record Write : Type 0 where
  pub array : ℕ
  pub offset : ℕ
  pub count : ℕ
  pub done : ℕ

pub record TcpConnection : Type 0 where
  pub conn_name : List ℕ
  pub receiving : Bool
  pub sending : Bool
  pub state : ConnectState
  pub buf_in : ConnectionBuffer
  pub buf_out : ConnectionBuffer
  pub has_connection_callback : Bool
  pub has_close_callback : Bool
  pub has_retrieve_callback : Bool
  pub posted : List Task
  pub pending_reads : ℕ
  pub pending_writes : List Write
  -- which array `buf_out_` has, and for how many bytes it has room
  pub array : ℕ
  pub capacity : ℕ
  -- the bytes that the peer was sent
  pub wire : List ℕ
  -- the calls of `close_callback_`
  pub closed : ℕ

unfoldable pub init : List ℕ → TcpConnection
init name = record {
  conn_name = name;
  receiving = false;
  sending = false;
  state = connecting;
  buf_in = Buffer.init_default;
  buf_out = Buffer.init_default;
  has_connection_callback = false;
  has_close_callback = false;
  has_retrieve_callback = false;
  posted = [];
  pending_reads = 0;
  pending_writes = [];
  array = 0;
  capacity = Buffer.buf_size;
  wire = [];
  closed = 0;
}

unfoldable pub is_connected : ConnectState → Bool
is_connected connecting = false
is_connected connected = true
is_connected disconnecting = false
is_connected disconnected = false

unfoldable pub set_connection_callback : Bool → TcpConnection → TcpConnection
set_connection_callback given c = record c { has_connection_callback = given }

unfoldable pub set_close_callback : Bool → TcpConnection → TcpConnection
set_close_callback given c = record c { has_close_callback = given }

unfoldable pub set_retrieve_callback : Bool → TcpConnection → TcpConnection
set_retrieve_callback given c = record c { has_retrieve_callback = given }

unfoldable pub set_conn_state : ConnectState → TcpConnection → TcpConnection
set_conn_state state c = record c { state = state }

abbrev pub post : Task → TcpConnection → TcpConnection
post task c = record c { posted = c.posted ++ task ∷ [] }

unfoldable pub start_receive : TcpConnection → TcpConnection
start_receive c = if c.receiving then c else record (post receives c) { receiving = true }

unfoldable pub send_message : List ℕ → TcpConnection → TcpConnection
send_message bytes c = post (sends bytes) c

unfoldable pub force_close : TcpConnection → TcpConnection
force_close c = post closes c

-- Hands the writable part of `buf_in_` to the socket.
unfoldable pub receive_in_service : TcpConnection → TcpConnection
receive_in_service c = record c { pending_reads = c.pending_reads + 1 }

-- `if (close_callback_) close_callback_(shared_from_this());`
unfoldable pub notify_closed : TcpConnection → TcpConnection
notify_closed c = if c.has_close_callback then record c { closed = c.closed + 1 } else c

unfoldable pub close_in_service : TcpConnection → TcpConnection
unfolding notify_closed
close_in_service c = notify_closed (record c { state = disconnected })

-- What `retrieve_callback_` does to the buffer is a parameter.
module _ (retrieve : ConnectionBuffer → ConnectionBuffer) where
  -- The completion of a read, with no error: the socket has put `bytes` into `buf_in_`.
  unfoldable pub handle_receive : List ℕ → TcpConnection → Option TcpConnection
  unfolding receive_in_service
  handle_receive bytes c = do
    filled ← receive c.buf_in bytes
    adjusted ← adjust_internal filled
    some (
        receive_in_service
          (record c { buf_in = if c.has_retrieve_callback then retrieve adjusted else adjusted }))

-- Its completion with an error; `eof` tells whether it is the end of the stream.
unfoldable pub handle_receive_error : (eof : Bool) → TcpConnection → TcpConnection
unfolding close_in_service
handle_receive_error eof c =
    if eof && c.has_close_callback
    then record c { state = disconnected; closed = c.closed + 1 }
    else close_in_service c

-- Hands the readable part of `buf_out_` to `async_write`.
unfoldable pub write_out : TcpConnection → TcpConnection
write_out c =
    let w : Write = record {
      array = c.array;
      offset = c.buf_out.read_index;
      count = readable_count c.buf_out;
      done = 0;
    } in
    record c { pending_writes = c.pending_writes ++ w ∷ [] }

-- A `resize` that enlarges the array beyond its capacity puts it elsewhere.
abbrev pub is_moved : ConnectionBuffer → TcpConnection → Bool
is_moved buf_out c =
    ltb (length c.buf_out.buffer) (length buf_out.buffer) && ltb c.capacity (length buf_out.buffer)

-- What `sendInService` does once `buf_out_` has taken the message.
unfoldable pub start_sending : ConnectionBuffer → TcpConnection → TcpConnection
unfolding is_connected write_out
start_sending buf_out c =
    let moved = is_moved buf_out c in
    let room = max (2 * length c.buf_out.buffer) (length buf_out.buffer) in
    let c' = record c {
      buf_out = buf_out;
      array = if moved then c.array + 1 else c.array;
      capacity = if moved then room else c.capacity;
    } in
    if not c.sending && is_connected c.state then record (write_out c') { sending = true } else c'

unfoldable pub send_in_service : List ℕ → TcpConnection → Option TcpConnection
unfolding start_sending
send_in_service bytes c = append c.buf_out bytes >>= λ buf_out. some (start_sending buf_out c)

-- The completion of a write, with no error.
unfoldable pub handle_send : ℕ → TcpConnection → TcpConnection
unfolding is_connected write_out
handle_send bytes_transferred c =
    let c' = record c { buf_out = retrieve_read_index c.buf_out (to_u32 bytes_transferred) } in
    if ltb 0 (readable_count c'.buf_out) && is_connected c.state
    then write_out c'
    else record c' { sending = false }

unfoldable pub handle_send_error : TcpConnection → TcpConnection
unfolding close_in_service
handle_send_error c = close_in_service c

-- A task that `io_service::post` was given.
unfoldable pub run_task : Task → TcpConnection → Option TcpConnection
unfolding receive_in_service send_in_service close_in_service
run_task receives c = some (receive_in_service c)
run_task (sends bytes) c = send_in_service bytes c
run_task closes c = some (close_in_service c)
