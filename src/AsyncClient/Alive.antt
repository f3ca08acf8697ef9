-- ===== src/AsyncClient/Alive.antt =====
-- asio-1.28_async_client/src/async_client.cpp, `AsyncClient`: what keeps a client going.
use asio_client.Common.{runs-keeps, All, ◌+◌, ◌<◌, ◌≡◌, true, some, List, arith}
use asio_client.AsyncClient.{
  AsyncClient, run_task, handle_connect, handle_connect_error, handle_wait, handle_read,
  handle_error, handle_write, open_client, close, send,
}
use asio_client.AsyncClient.Runs.{
  Event, calls_open, calls_close, calls_send, runs_task, connects, fails_to_connect, receives,
  fails_to_read, completes, fails_to_write, expires, is_cancelled, step, run, run_posted, complete,
  fail_write,
}

-- An opened client tries to connect, reads, or waits for its next try.
abbrev pub IsTrying : AsyncClient → Type 0
IsTrying c = (c.stop ≡ true) × (0 < c.pending_connects + (c.pending_reads + c.pending_waits))

-- All but a call of `close` and a cancelled wait.
abbrev pub GoesOn : Event → Type 0
GoesOn calls_open = Unit {0}
GoesOn calls_close = ⊥
GoesOn (calls_send msg) = Unit {0}
GoesOn runs_task = Unit {0}
GoesOn connects = Unit {0}
GoesOn (fails_to_connect left_open) = Unit {0}
GoesOn (receives bytes) = Unit {0}
GoesOn fails_to_read = Unit {0}
GoesOn completes = Unit {0}
GoesOn fails_to_write = Unit {0}
GoesOn expires = Unit {0}
GoesOn is_cancelled = ⊥

step-IsTrying :
    (e : Event) (c u : AsyncClient) → GoesOn e → IsTrying c → step e c ≡ some u → IsTrying u
unfolding step run_posted complete fail_write run_task handle_connect handle_connect_error
    handle_wait handle_read handle_error handle_write open_client close send
step-IsTrying calls_open c u g h e = ground arith
step-IsTrying calls_close c u g h e = elim g [ ]
step-IsTrying (calls_send msg) c u g h e = ground arith
step-IsTrying runs_task c u g h e = ground arith
step-IsTrying connects c u g h e = ground arith
step-IsTrying (fails_to_connect left_open) c u g h e = ground arith
step-IsTrying (receives bytes) c u g h e = ground arith
step-IsTrying fails_to_read c u g h e = ground arith
step-IsTrying completes c u g h e = ground arith
step-IsTrying fails_to_write c u g h e = ground arith
step-IsTrying expires c u g h e = ground arith
step-IsTrying is_cancelled c u g h e = elim g [ ]

-- An opened client never gives up: as long as nobody calls `close` and no wait is cancelled, it
-- connects, reads or waits for its next try, whatever else happens.
pub run-opened :
    (es : List Event) (c u : AsyncClient)
    → All GoesOn es
    → IsTrying c
    → run es c ≡ some u
    → IsTrying u
unfolding run
run-opened = runs-keeps step IsTrying step-IsTrying
