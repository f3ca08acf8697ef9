-- ===== src/Server/Tests.antt =====
-- The accept handler's theorems at concrete servers.
use asio_client.Common.{
  ℕ, bytes_eq, ◌+◌, ◌%◌, ◌^◌, ◌≡◌, refl, true, false, none, some, List, [], ◌∷◌, codes, lookup,
  replicate,
}
use asio_client.Protocol.Factory.{ProtocolFactory, create, register_protocols}
use asio_client.Protocol.Handler.{line}
use asio_client.Session.{Session, echo_handler, read_buffer_size}
use asio_client.Server.{Server, session_id, handle_accept, throws}
use asio_client.Server.Accept.{handle_accept-throws}

abbrev server : Server
server = record {
  handler = some echo_handler;
  sessions = [];
  counter = 12;
  acceptor_open = true;
  accepting = true;
}

abbrev noon : List ℕ
noon = codes "20250101-120000"

abbrev memory : List ℕ
memory = replicate read_buffer_size 0

handle_accept-throws_example :
    handle_accept (register_protocols []) memory noon true server
    ≡ throws (record server { accepting = false; counter = (server.counter + 1) % 2 ^ 64 })
unfolding create lookup
handle_accept-throws_example = handle_accept-throws [] memory noon server refl

-- A factory that knows "detect".
abbrev detecting : ProtocolFactory
detecting = ("detect", line) ∷ []

-- The session that the constructor makes.
abbrev made : Session
made = record {
  data_handler = some echo_handler;
  session_id = session_id 12 noon;
  protocol = line;
  write_queue = [];
  read_buffer = memory;
  read_pos = 0;
  metadata = [];
  posted = [];
  reading = none;
  writing = none;
  written = [];
  socket_open = true;
  closed = [];
}
