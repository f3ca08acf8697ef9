-- ===== src/TcpConnection128/Tests.antt =====
-- A run of a connection, and the theorem at it.
use asio_client.Common.{◌≡◌, false, true, some, List, [], ◌∷◌, codes, copy_in, slice}
use asio_client.Buffer.{ConnectionBuffer, append}
use asio_client.TcpConnection.Runs
use asio_client.TcpConnection.Runs.{
  Event, calls_send, connects, runs_task, transfers, fails_to_send,
}
use asio_client.TcpConnection128
use asio_client.TcpConnection128.Runs as Later
use asio_client.TcpConnection128.Same.{named, run-named}

abbrev keeps : ConnectionBuffer → ConnectionBuffer
keeps b = b

abbrev small : ConnectionBuffer
small = record { buffer = 0 ∷ 0 ∷ 0 ∷ 0 ∷ []; read_index = 0; write_index = 0 }

abbrev blank : TcpConnection128.TcpConnection
blank = record {
  receiving = false;
  sending = false;
  state = TcpConnection128.connecting;
  buf_in = small;
  buf_out = small;
  has_connect_callback = false;
  has_close_callback = true;
  has_recv_callback = false;
  posted = [];
  pending_reads = 0;
  pending_writes = [];
  array = 0;
  capacity = 4;
  wire = [];
  closed = 0;
}

-- Two bytes are to be sent, and the write fails after one.
abbrev cut_off : List Event
cut_off = connects ∷ calls_send (1 ∷ 2 ∷ []) ∷ runs_task ∷ transfers 1 ∷ fails_to_send ∷ []

abbrev closed : TcpConnection128.TcpConnection
closed = record blank {
  sending = true;
  state = TcpConnection128.disconnected;
  buf_out = record { buffer = 1 ∷ 2 ∷ 0 ∷ 0 ∷ []; read_index = 0; write_index = 2 };
  wire = 1 ∷ [];
  closed = 1;
}

run-named_example :
    Runs.run keeps cut_off (named (codes "tcp_client#1") blank)
    ≡ some (named (codes "tcp_client#1") closed)
unfolding Later.run Later.step Later.run_posted Later.transfer Later.fail_write
    TcpConnection128.set_conn_state TcpConnection128.send_message TcpConnection128.run_task
    TcpConnection128.send_in_service TcpConnection128.start_sending TcpConnection128.write_out
    TcpConnection128.handle_send_error TcpConnection128.close_in_service
    TcpConnection128.notify_closed append copy_in slice
run-named_example = run-named (codes "tcp_client#1") keeps cut_off blank
