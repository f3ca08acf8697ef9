-- ===== src/TcpClient110/Alive.antt =====
-- asio-1.10/src/tcp_client.cpp, `TcpClient`: what keeps a client going, and its timers.
use asio_client.Common.{
  runs-keeps, All, ℕ, ◌+◌, ◌<◌, ◌≡◌, true, false, Option, none, some, List, [], ◌∷◌, arith,
}
use asio_client.Buffer.{ConnectionBuffer}
use asio_client.AsioTimer.{AsioTimer, handle_timer}
use asio_client.AsioTimer
use asio_client.TcpClient110.{
  TcpClient, connect, close_client, send_message, handle_sending, handle_resolver,
  handle_connect_error, connect_inter, tell, start_timer,
}
use asio_client.TcpClient110.Runs.{
  Event, calls_connect, calls_close, calls_send, runs_sending, resolves, connects, fails_to_connect,
  expires, on_connection, run_posted, expire, reconnect_after, step, run, on_next,
}

-- The waits of a list of timers that are outstanding.
abbrev pub waits : List AsioTimer → ℕ
waits [] = 0
waits (t ∷ ts) = t.pending_waits + waits ts

-- A client that is to reconnect resolves, connects, or waits for its next try.
abbrev pub IsSeeking : TcpClient → Type 0
IsSeeking c =
    (c.reconnect ≡ true) × (0 < c.pending_resolves + (c.pending_connects + waits c.timers))

-- The events that neither call off the reconnecting nor fail to resolve, and are no connection.
abbrev pub Seeks : Event → Type 0
Seeks (calls_connect reconnect) = reconnect ≡ true
Seeks calls_close = ⊥
Seeks (calls_send bytes) = Unit {0}
Seeks runs_sending = Unit {0}
Seeks (resolves error) = error ≡ false
Seeks connects = ⊥
Seeks (fails_to_connect at_end) = Unit {0}
Seeks (expires n) = Unit {0}
Seeks (on_connection e) = Unit {0}

sends-IsSeeking :
    (posted : List (List ℕ)) (c : TcpClient) → IsSeeking c → IsSeeking (run_posted posted c)
unfolding run_posted handle_sending
sends-IsSeeking [] c h = h
sends-IsSeeking (bytes ∷ posted) c h = h

expires-IsSeeking :
    (r : Option (List AsioTimer)) (c : TcpClient) → IsSeeking c → IsSeeking (reconnect_after r c)
unfolding reconnect_after connect_inter
expires-IsSeeking none c h = h
expires-IsSeeking (some timers) c h = ground arith

module _ (retrieve : ConnectionBuffer → ConnectionBuffer) where
  step-IsSeeking :
      (e : Event) (c u : TcpClient)
      → Seeks e
      → IsSeeking c
      → step retrieve e c ≡ some u
      → IsSeeking u
  unfolding step connect close_client send_message handle_resolver handle_connect_error
      connect_inter tell start_timer AsioTimer.start_timer AsioTimer.init
  step-IsSeeking (calls_connect reconnect) c u g h e = ground arith
  step-IsSeeking calls_close c u g h e = elim g [ ]
  step-IsSeeking (calls_send bytes) c u g h e = ground arith
  step-IsSeeking runs_sending c u g h e = ground (arith, sends-IsSeeking c.posted c h)
  step-IsSeeking (resolves error) c u g h e = ground arith
  step-IsSeeking connects c u g h e = elim g [ ]
  step-IsSeeking (fails_to_connect at_end) c u g h e = ground arith
  step-IsSeeking (expires n) c u g h e = ground (arith, expires-IsSeeking (expire n c.timers) c h)
  step-IsSeeking (on_connection event) c u g h e =
      let (conn, one, last) = on_next retrieve event c u e in ground arith

  -- A client that is to reconnect, and that resolves, connects or waits for its next try, goes on with
  -- that until it gets a connection: after any events that are no connection, unless somebody calls
  -- `closeClient` or `connect(false)`, or a name fails to resolve.
  pub run-IsSeeking :
      (es : List Event) (c u : TcpClient)
      → All Seeks es
      → IsSeeking c
      → run retrieve es c ≡ some u
      → IsSeeking u
  unfolding run
  run-IsSeeking = runs-keeps (step retrieve) IsSeeking step-IsSeeking
