-- ===== src/TcpClient/Alive.antt =====
-- asio-1.28/src/tcp_client.cpp, `TcpClient`: what keeps a client going, whatever happens to it.
use asio_client.Common.{
  runs-keeps, runs-keeps_any, runs_next, All, ◌+◌, ◌<◌, ◌≡◌, true, some, List, ◌∷◌, arith,
}
use asio_client.TcpClient.{
  TcpClient, connected, run_task, handle_connect, handle_wait, handle_read, handle_read_error,
  handle_write, handle_write_error, connect, close, send,
}
use asio_client.TcpClient.Runs.{
  Event, calls_connect, calls_close, calls_send, runs_task, connects, fails_to_connect, receives,
  fails_to_read, completes, fails_to_write, expires, is_cancelled, step, run, run_posted, complete,
  fail_write, end_connect,
}

-- A client that says that it is connected has a read outstanding, which will tell it of the end.
abbrev pub Listens : TcpClient → Type 0
Listens c = c.is_connected ≡ connected → 0 < c.pending_reads

step-Listens : (e : Event) (c u : TcpClient) → Listens c → step e c ≡ some u → Listens u
unfolding step run_posted complete fail_write end_connect run_task handle_connect handle_wait
    handle_read handle_read_error handle_write handle_write_error connect close send
step-Listens (calls_connect reconnect) c u h e = ground arith
step-Listens calls_close c u h e = ground arith
step-Listens (calls_send msg) c u h e = ground arith
step-Listens runs_task c u h e = ground arith
step-Listens connects c u h e = ground arith
step-Listens (fails_to_connect n) c u h e = ground arith
step-Listens (receives bytes) c u h e = ground arith
step-Listens (fails_to_read n) c u h e = ground arith
step-Listens completes c u h e = ground arith
step-Listens fails_to_write c u h e = ground arith
step-Listens expires c u h e = ground arith
step-Listens is_cancelled c u h e = ground arith

-- What a run that has got somewhere has passed.
pub run_next :
    (e : Event) (es : List Event) (c u : TcpClient)
    → run (e ∷ es) c ≡ some u
    → (t : TcpClient) × (step e c ≡ some t) × (run es t ≡ some u)
unfolding run
run_next = runs_next step

-- Whatever happens to a client, in whatever order: whenever it says that it is connected, it has a
-- read outstanding, if this was so before; so it gets to know of the end of the connection.
pub run-Listens : (es : List Event) (c u : TcpClient) → Listens c → run es c ≡ some u → Listens u
unfolding run
run-Listens = runs-keeps_any step Listens step-Listens

-- A client that is to reconnect tries to connect, reads, or waits for its next try.
abbrev pub IsTrying : TcpClient → Type 0
IsTrying c = (c.reconnect ≡ true) × (0 < c.pending_connects + (c.pending_reads + c.pending_waits))

-- The events that do not call off the reconnecting or cut a wait short.
abbrev pub GoesOn : Event → Type 0
GoesOn (calls_connect reconnect) = reconnect ≡ true
GoesOn calls_close = ⊥
GoesOn (calls_send msg) = Unit {0}
GoesOn runs_task = Unit {0}
GoesOn connects = Unit {0}
GoesOn (fails_to_connect n) = Unit {0}
GoesOn (receives bytes) = Unit {0}
GoesOn (fails_to_read n) = Unit {0}
GoesOn completes = Unit {0}
GoesOn fails_to_write = Unit {0}
GoesOn expires = Unit {0}
GoesOn is_cancelled = ⊥

step-IsTrying :
    (e : Event) (c u : TcpClient) → GoesOn e → IsTrying c → step e c ≡ some u → IsTrying u
unfolding step run_posted complete fail_write end_connect run_task handle_connect handle_wait
    handle_read handle_read_error handle_write handle_write_error connect close send
step-IsTrying (calls_connect reconnect) c u g h e = ground arith
step-IsTrying calls_close c u g h e = elim g [ ]
step-IsTrying (calls_send msg) c u g h e = ground arith
step-IsTrying runs_task c u g h e = ground arith
step-IsTrying connects c u g h e = ground arith
step-IsTrying (fails_to_connect n) c u g h e = ground arith
step-IsTrying (receives bytes) c u g h e = ground arith
step-IsTrying (fails_to_read n) c u g h e = ground arith
step-IsTrying completes c u g h e = ground arith
step-IsTrying fails_to_write c u g h e = ground arith
step-IsTrying expires c u g h e = ground arith
step-IsTrying is_cancelled c u g h e = elim g [ ]

-- A client that is to reconnect never gives up: as long as nobody calls `close` or `connect(false)`
-- and no wait is cancelled, it connects, reads or waits for its next try, whatever else happens.
pub run-IsTrying :
    (es : List Event) (c u : TcpClient)
    → All GoesOn es
    → IsTrying c
    → run es c ≡ some u
    → IsTrying u
unfolding run
run-IsTrying = runs-keeps step IsTrying step-IsTrying
