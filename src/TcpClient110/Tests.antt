-- ===== src/TcpClient110/Tests.antt =====
-- Runs of a client, and the theorems at inputs that meet their hypotheses.
use asio_client.Common.{◌≡◌, refl, true, false, some, List, [], ◌∷◌, arith, codes}
use asio_client.Buffer.{ConnectionBuffer}
use asio_client.AsioTimer.{AsioTimer, handle_timer}
use asio_client.Buffer.Valid.{IsValid}
use asio_client.TcpConnection
use asio_client.TcpConnection.{
  TcpConnection, Task, connecting, set_conn_state, start_receive, set_retrieve_callback,
  set_close_callback,
}
use asio_client.TcpConnection.Runs
use asio_client.TcpConnection.Sending.Bytes.{IsSound}
use asio_client.TcpClient110.Delivery.{AreFair, given, run-given}
use asio_client.TcpClient110.Lost.{run-forgets}
use asio_client.AsioTimer
use asio_client.TcpClient110.{
  TcpClient, init, new_connection, set_connection_callback, connect, send_message, handle_resolver,
  handle_sending, handle_connect, handle_connect_error, connect_inter, tell, start_timer,
}
use asio_client.TcpClient110.Runs.{
  Event, calls_connect, calls_send, runs_sending, on_connection, resolves, connects,
  fails_to_connect, expires, fire, expire, reconnect_after, run_posted, step, run,
}
use asio_client.TcpClient110.Alive.{IsSeeking, run-IsSeeking}
use asio_client.TcpClient110.Unresolved.{IsOut, run-unresolved}

abbrev keeps : ConnectionBuffer → ConnectionBuffer
keeps b = b

-- A client with a callback for connections, the second of the program.
abbrev fresh : TcpClient
fresh = set_connection_callback true (init 1)

-- Two endpoints refuse the connection, and the wait for the next try ends.
abbrev refused : List Event
refused =
    resolves false
    ∷ fails_to_connect false
    ∷ fails_to_connect true
    ∷ expires 0
    ∷ resolves false
    ∷ []

after_two_refusals :
    run keeps (calls_connect true ∷ refused) fresh
    ≡ some (record fresh {
      conn = new_connection 4;
      reconnect = true;
      conn_sequence = 4;
      timers =
          record { interval = 1000; has_task = true; cycle = false; pending_waits = 0; runs = 1 }
          ∷ [];
      pending_connects = 1;
      told = 2;
    })
unfolding run step connect connect_inter handle_resolver handle_connect_error tell start_timer
    AsioTimer.start_timer AsioTimer.init handle_timer expire fire reconnect_after
    set_connection_callback init
after_two_refusals = refl

-- A client that has just been told to connect.
abbrev started : TcpClient
started = record fresh { reconnect = true; pending_resolves = 1 }

abbrev refused_client : TcpClient
refused_client = record started {
  conn = new_connection 4;
  conn_sequence = 4;
  timers =
      record { interval = 1000; has_task = true; cycle = false; pending_waits = 0; runs = 1 } ∷ [];
  pending_resolves = 0;
  pending_connects = 1;
  told = 2;
}

refused-run : run keeps refused started ≡ some refused_client
unfolding run step connect_inter handle_resolver handle_connect_error tell start_timer
    AsioTimer.start_timer AsioTimer.init handle_timer expire fire reconnect_after
    set_connection_callback init
refused-run = refl

run-IsSeeking_example : IsSeeking refused_client
unfolding set_connection_callback init
run-IsSeeking_example =
    run-IsSeeking keeps refused started refused_client (refl, (tt, (tt, (tt, (refl, tt)))))
      (refl, omega arith) refused-run

-- A client with one name to resolve, which fails; the messages sent since change nothing.
abbrev unresolved : TcpClient
unresolved = record started { pending_resolves = 0; posted = (1 ∷ []) ∷ [] }

unresolved-run :
    run keeps (resolves true ∷ expires 0 ∷ connects ∷ calls_send (1 ∷ []) ∷ []) started
    ≡ some unresolved
unfolding run step handle_resolver expire reconnect_after send_message set_connection_callback init
unresolved-run = refl

run-unresolved_example : IsOut unresolved × (unresolved.told ≡ started.told)
unfolding set_connection_callback init
run-unresolved_example =
    run-unresolved keeps (expires 0 ∷ connects ∷ calls_send (1 ∷ []) ∷ []) started unresolved
      (omega arith) refl refl refl unresolved-run

-- A client that is being connected, with small buffers and a message in hand.
abbrev small : ConnectionBuffer
small = record { buffer = 0 ∷ 0 ∷ 0 ∷ 0 ∷ []; read_index = 0; write_index = 0 }

small-IsValid : IsValid small
small-IsValid = record { ordered = omega arith; room = omega arith; small = omega arith }

abbrev blank : TcpConnection
blank = record {
  conn_name = codes "tcp_client#1";
  receiving = false;
  sending = false;
  state = connecting;
  buf_in = small;
  buf_out = small;
  has_connection_callback = false;
  has_close_callback = false;
  has_retrieve_callback = false;
  posted = [];
  pending_reads = 0;
  pending_writes = [];
  array = 0;
  capacity = 4;
  wire = [];
  closed = 0;
}

blank-IsSound : IsSound blank
blank-IsSound = record {
  outbound = small-IsValid;
  inbound = small-IsValid;
  points = tt;
  marked = tt;
}

abbrev near : TcpClient
near = record fresh { conn = blank; pending_connects = 1; posted = (7 ∷ []) ∷ [] }

-- The first message is sent, the second waits in the client.
abbrev sending : List Event
sending =
    runs_sending
    ∷ calls_send (8 ∷ [])
    ∷ connects
    ∷ on_connection Runs.runs_task
    ∷ on_connection (Runs.transfers 1)
    ∷ []

abbrev keeps-IsValid : (b : ConnectionBuffer) → IsValid b → IsValid (keeps b)
keeps-IsValid b v = v

sending-AreFair : AreFair keeps sending near
unfolding step run_posted handle_sending send_message handle_connect set_connection_callback init
    tell set_conn_state start_receive TcpConnection.send_message
    TcpConnection.set_connection_callback set_retrieve_callback set_close_callback
sending-AreFair =
    (tt, (tt, (tt, (((omega arith, λ bad. omega arith, tt), refl), ((tt, refl), tt)))))

run-given_example :
    (u : TcpClient) × (run keeps sending near ≡ some u) × IsSound u.conn × (given u ≡ 7 ∷ 8 ∷ [])
run-given_example = run-given keeps keeps-IsValid sending near blank-IsSound sending-AreFair

-- A client whose connection has taken a message; it is not made.
abbrev unlucky : TcpClient
unlucky = record near { conn = record blank { posted = Task.sends (5 ∷ 6 ∷ []) ∷ [] } }

-- Of the three messages, the first is lost.
run-forgets_example :
    (u : TcpClient) × (run keeps
        (fails_to_connect false ∷ calls_send (8 ∷ []) ∷ runs_sending ∷ [])
        unlucky
      ≡ some u)
    × (given u ≡ 7 ∷ 8 ∷ [])
run-forgets_example =
    run-forgets keeps keeps-IsValid false (calls_send (8 ∷ []) ∷ runs_sending ∷ []) unlucky
      (omega arith) (tt, (tt, tt))
