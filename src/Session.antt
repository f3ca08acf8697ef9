-- ===== src/Session.antt =====
-- asio-1.28_server_multi_protocol/src/test.cpp, `Session` with the two classes of `DataHandler`.
-- The object is a record of its members and of what it has under way in asio: the tasks that it has
-- posted, the read and the write that are outstanding, the buffers whose write has completed, and
-- the calls of `on_session_closed`. A handler runs as one step. `none` is undefined behaviour.
pub mod Valid
pub mod Writing
pub mod Reading
pub mod Stream
pub mod Stalls
mod Tests
use asio_client.Common.{
  ℕ, ◌+◌, ◌-◌, ◌<◌, Bool, true, false, ◌&&◌, ◌||◌, Option, none, some, List, [], ◌∷◌, ◌++◌, length,
  take, ltb, if◌then◌else◌, is_empty, ◌>>=◌, copy_in, move_down, add_size, sub_size, String,
  string_eq, Dict, insert, lookup, codes, starts_with,
}
use asio_client.Protocol.Handler.{ProtocolHandler, process_data, prepare_send}
use asio_client.Protocol.Factory.{ProtocolFactory, create}

pub data DataHandler : Type 0 where
  echo_handler protocol_detector : DataHandler

-- The reasons that `on_session_closed` is given.
pub data Reason : Type 0 where
  client_disconnected read_error write_error destructor_called : Reason

-- What `asio::post` was given: the read of `start`, or the write of a `safe_write`.
pub data Task : Type 0 where
  starts_reading : Task
  writes : List ℕ → Task

pub record Session : Type 0 where
  pub data_handler : Option DataHandler
  pub session_id : List ℕ
  pub protocol : ProtocolHandler
  pub write_queue : List (List ℕ)
  pub read_buffer : List ℕ
  pub read_pos : ℕ
  pub metadata : Dict String String
  pub posted : List Task
  pub reading : Option ℕ
  pub writing : Option (List ℕ)
  pub written : List (List ℕ)
  pub socket_open : Bool
  pub closed : List Reason

abbrev pub read_buffer_size : ℕ
read_buffer_size = 4096

-- The constructor; `memory` is what the array held before. `none` is the `runtime_error` for a
-- protocol that the factory does not know.
unfoldable pub init :
    ProtocolFactory
    → (memory : List ℕ) → Option DataHandler
    → (session_id : List ℕ) (protocol_name : String) → Option Session
init protocols memory data_handler session_id protocol_name = do
  protocol ← create protocol_name protocols
  some (record {
    data_handler = data_handler;
    session_id = session_id;
    protocol = protocol;
    write_queue = [];
    read_buffer = memory;
    read_pos = 0;
    metadata = [];
    posted = [];
    reading = none;
    writing = none;
    written = [];
    socket_open = true;
    closed = [];
  })

-- `if (data_handler_) data_handler_->on_session_closed(*this, reason);`
notify_closed : Reason → Option DataHandler → Session → Session
notify_closed reason none s = s
notify_closed reason (some handler) s = record s { closed = s.closed ++ reason ∷ [] }

abbrev pub post : Task → Session → Session
post task s = record s { posted = s.posted ++ task ∷ [] }

pub start : Session → Session
start s = post starts_reading s

abbrev pub safe_write : List ℕ → Session → Session
safe_write bytes s = post (writes bytes) s

pub set_metadata : String → String → Session → Session
set_metadata key value s = record s { metadata = insert key value s.metadata }

pub get_metadata : String → String → Session → String
get_metadata key default_value s = elim (lookup key s.metadata) [
  | none ↦ default_value
  | some value ↦ value
]

-- `if (protocol) session.set_protocol(std::move(protocol));`
set_protocol : Option ProtocolHandler → Session → Session
set_protocol none s = s
set_protocol (some protocol) s = record s { protocol = protocol }

pub process_app_data : ProtocolFactory → DataHandler → List ℕ → Session → List ℕ × Session
unfolding set_metadata set_protocol
process_app_data protocols echo_handler bytes s = (codes "Echo: " ++ bytes, s)
process_app_data protocols protocol_detector bytes s =
    if starts_with bytes (codes "GET /") || starts_with bytes (codes "POST /")
    then (
      codes "Switched to HTTP protocol",
      set_protocol (create "http" protocols) (set_metadata "protocol" "http" s),
    )
    else (
      codes "Switched to Line protocol",
      set_protocol (create "line" protocols) (set_metadata "protocol" "line" s),
    )

answer : ProtocolFactory → Option DataHandler → List ℕ → Session → Session
unfolding process_app_data
answer protocols none bytes s = s
answer protocols (some handler) bytes s =
    let (response, s') = process_app_data protocols handler bytes s in safe_write response s'

-- `process_line`, `process_frame` and `process_payload`, which are the same function.
pub process_frame : ProtocolFactory → List ℕ → Session → Session
unfolding answer
process_frame protocols frame s = answer protocols s.data_handler frame s

-- The size of the buffer that is handed to `async_read_some`.
pub do_read : Session → Session
do_read s = record s { reading = some (sub_size read_buffer_size s.read_pos) }

write_front : List (List ℕ) → Session → Option Session
write_front [] s = none
write_front (buffer ∷ queue) s = some (record s { writing = some buffer })

-- Hands `write_queue_.front()` to `async_write`; there has to be a front.
pub start_writing : Session → Option Session
unfolding write_front
start_writing s = write_front s.write_queue s

-- A task that `asio::post` was given.
pub run_task : Task → Session → Option Session
unfolding start_writing do_read
run_task starts_reading s = some (do_read s)
run_task (writes bytes) s = do
  buffer ← prepare_send s.protocol bytes
  let s' = record s { write_queue = s.write_queue ++ buffer ∷ [] }
  if is_empty s.write_queue then start_writing s' else some s'

-- The completion of a read. The socket has put `bytes` behind `read_pos_` before it.
pub handle_read : ProtocolFactory → List ℕ → Session → Option Session
unfolding process_frame do_read
handle_read protocols bytes s = do
  received ← copy_in s.read_buffer s.read_pos bytes
  let read_pos = add_size s.read_pos (length bytes)
  (processed, s') ←
      process_data s.protocol (process_frame protocols) (take read_pos received)
        (record s { read_buffer = received; read_pos = read_pos })
  buffer ←
      if ltb 0 processed && ltb processed read_pos
      then move_down true received processed (read_pos - processed)
      else some received
  some (do_read (record s' { read_buffer = buffer; read_pos = sub_size read_pos processed }))

pub handle_read_error : Bool → Session → Session
unfolding notify_closed
handle_read_error eof s =
    if eof
    then notify_closed client_disconnected s.data_handler s
    else notify_closed read_error s.data_handler s

pop_front : List (List ℕ) → Session → Option Session
pop_front [] s = none
pop_front (front ∷ queue) s = some (record s { write_queue = queue })

-- The completion of a write.
pub handle_write : Session → Option Session
unfolding pop_front start_writing
handle_write s = do
  s' ← pop_front s.write_queue s
  if is_empty s'.write_queue then some s' else start_writing s'

pub handle_write_error : Session → Session
unfolding notify_closed
handle_write_error s = record (notify_closed write_error s.data_handler s) {
  write_queue = [];
  socket_open = false;
}

-- The destructor.
pub destroy : Session → Session
unfolding notify_closed
destroy s = notify_closed destructor_called s.data_handler s
