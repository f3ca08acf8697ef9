-- ===== src/TcpConnection/Tests.antt =====
-- Runs of a connection, and the theorems at inputs that meet their hypotheses.
use asio_client.Common.{
  ◌≡◌, refl, true, false, none, some, List, [], ◌∷◌, arith, copy_in, slice, codes,
}
use asio_client.Buffer.{ConnectionBuffer, append, retrieve_read_index, readable_count}
use asio_client.Buffer.Valid.{IsValid}
use asio_client.Buffer.Indices.{retrieve_read_index_lem}
use asio_client.TcpConnection.{
  TcpConnection, Task, Write, connecting, connected, start_receive, send_message, set_conn_state,
  run_task, start_sending, send_in_service, handle_send, receive_in_service,
}
use asio_client.TcpConnection.Runs.{
  Event, calls_start_receive, calls_send, connects, runs_task, transfers, completes, run_posted,
  transfer, complete, step, run,
}
use asio_client.TcpConnection.Single.{IsSingle, run-IsSingle}
use asio_client.TcpConnection.Sending.{AreSafe, run-taken_bytes}
use asio_client.TcpConnection.Sending.Bytes.{IsSound, taken}
use asio_client.TcpConnection.Moved.{grows_while_sending}
use asio_client.TcpConnection.Unsent.{IsIdle, run-IsIdle}

-- A callback that takes all that it is given.
abbrev takes_all : ConnectionBuffer → ConnectionBuffer
takes_all b = retrieve_read_index b (readable_count b)

takes_all-IsValid : (b : ConnectionBuffer) → IsValid b → IsValid (takes_all b)
takes_all-IsValid b v =
    (retrieve_read_index_lem b (readable_count b) v (omega (arith, v.ordered, v.room, v.small))).0

-- Two bytes of a small buffer are being sent.
abbrev small : ConnectionBuffer
small = record { buffer = 1 ∷ 2 ∷ 0 ∷ 0 ∷ []; read_index = 0; write_index = 2 }

small-IsValid : IsValid small
small-IsValid = record { ordered = omega arith; room = omega arith; small = omega arith }

abbrev writing : Write
writing = record { array = 0; offset = 0; count = 2; done = 0 }

abbrev busy : TcpConnection
busy = record {
  conn_name = codes "tcp_client#1";
  receiving = false;
  sending = true;
  state = connected;
  buf_in = small;
  buf_out = small;
  has_connection_callback = false;
  has_close_callback = false;
  has_retrieve_callback = true;
  posted = [];
  pending_reads = 0;
  pending_writes = writing ∷ [];
  array = 0;
  capacity = 4;
  wire = [];
  closed = 0;
}

busy-IsSound : IsSound busy
busy-IsSound = record {
  outbound = small-IsValid;
  inbound = small-IsValid;
  points = omega arith;
  marked = refl;
}

-- A message comes while the write is under way, and is sent by the next one.
abbrev one_more : List Event
one_more =
    calls_send (3 ∷ []) ∷ runs_task ∷ transfers 1 ∷ transfers 1 ∷ completes ∷ transfers 1 ∷ []

abbrev all_sent : TcpConnection
all_sent = record busy {
  buf_out = record { buffer = 1 ∷ 2 ∷ 3 ∷ 0 ∷ []; read_index = 2; write_index = 3 };
  pending_writes = record { array = 0; offset = 2; count = 1; done = 1 } ∷ [];
  wire = 1 ∷ 2 ∷ 3 ∷ [];
}

one_more-run : run takes_all one_more busy ≡ some all_sent
unfolding run step run_posted run_task send_message send_in_service start_sending transfer complete
    handle_send append retrieve_read_index copy_in slice
one_more-run = refl

run-IsSingle_example : IsSingle all_sent
run-IsSingle_example = run-IsSingle takes_all one_more busy all_sent (omega arith) one_more-run

one_more-AreSafe : AreSafe takes_all one_more busy
unfolding step run_posted run_task send_message send_in_service start_sending transfer complete
    handle_send append retrieve_read_index copy_in slice
one_more-AreSafe = (tt, ((omega arith, λ bad. omega arith, omega arith), omega arith))

run-taken_bytes_example :
    (u : TcpConnection) × (run takes_all one_more busy ≡ some u)
    × IsSound u
    × (taken u ≡ 1 ∷ 2 ∷ 3 ∷ [])
run-taken_bytes_example =
    run-taken_bytes takes_all takes_all-IsValid one_more busy busy-IsSound one_more-AreSafe

-- With a message that does not fit.
abbrev overfull : TcpConnection
overfull = record busy { posted = Task.sends (3 ∷ 4 ∷ []) ∷ [] }

grows_while_sending_example : run takes_all (runs_task ∷ transfers 2 ∷ []) overfull ≡ none
grows_while_sending_example =
    grows_while_sending takes_all (3 ∷ 4 ∷ []) 2 [] writing overfull
      (record {
        outbound = small-IsValid;
        inbound = small-IsValid;
        points = omega arith;
        marked = refl;
      })
      refl refl (omega arith) (omega arith) (omega arith) (omega arith) (omega arith)

-- A message lies in the buffer of a connection that is being made.
abbrev early : TcpConnection
early = record busy { state = connecting; sending = false; pending_writes = [] }

abbrev stands : TcpConnection
stands = record early { state = connected; receiving = true; pending_reads = 1 }

early-run :
    run takes_all (connects ∷ calls_start_receive ∷ runs_task ∷ completes ∷ []) early ≡ some stands
unfolding run step run_posted run_task start_receive set_conn_state receive_in_service complete
early-run = refl

run-IsIdle_example : IsIdle stands × (stands.wire ≡ []) × (stands.buf_out ≡ small)
run-IsIdle_example =
    run-IsIdle takes_all (connects ∷ calls_start_receive ∷ runs_task ∷ completes ∷ []) early stands
      (omega arith) (refl, tt) early-run
