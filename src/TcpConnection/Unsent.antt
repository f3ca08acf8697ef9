-- ===== src/TcpConnection/Unsent.antt =====
-- asio-1.10/src/tcp_connection.cpp, `TcpConnection`: what was sent before the connection stood.
use asio_client.Common.{All, ◌≡◌, refl, ◌∙◌, some, List, [], ◌∷◌, ◌++◌, arith}
use asio_client.Buffer.{ConnectionBuffer}
use asio_client.TcpConnection.{
  TcpConnection, Task, start_receive, force_close, set_conn_state, run_task, close_in_service,
  handle_receive, handle_receive_error,
}
use asio_client.TcpConnection.Runs.{
  Event, calls_start_receive, calls_send, calls_close, connects, runs_task, receives,
  fails_to_receive, transfers, completes, fails_to_send, run_posted, transfer, complete, fail_write,
  step, run, run_next,
}

-- No message is on its way to `sendInService`.
abbrev pub NoSends : List Task → Type 0
NoSends [] = Unit {0}
NoSends (Task.receives ∷ tasks) = NoSends tasks
NoSends (Task.sends bytes ∷ tasks) = ⊥
NoSends (Task.closes ∷ tasks) = NoSends tasks

-- No write is under way, and none is about to be started.
abbrev pub IsIdle : TcpConnection → Type 0
IsIdle c = (c.pending_writes ≡ []) × NoSends c.posted

-- Every event but a `sendMessage`.
abbrev pub IsOther : Event → Type 0
IsOther calls_start_receive = Unit {0}
IsOther (calls_send bytes) = ⊥
IsOther calls_close = Unit {0}
IsOther connects = Unit {0}
IsOther runs_task = Unit {0}
IsOther (receives bytes) = Unit {0}
IsOther (fails_to_receive eof) = Unit {0}
IsOther (transfers n) = Unit {0}
IsOther completes = Unit {0}
IsOther fails_to_send = Unit {0}

abbrev Stays : TcpConnection → TcpConnection → Type 0
Stays c u = IsIdle u × (u.wire ≡ c.wire) × (u.buf_out ≡ c.buf_out)

NoSends-receives : (ts : List Task) → NoSends ts → NoSends (ts ++ Task.receives ∷ [])
NoSends-receives [] h = tt
NoSends-receives (Task.receives ∷ ts) h = NoSends-receives ts h
NoSends-receives (Task.sends bytes ∷ ts) h = h
NoSends-receives (Task.closes ∷ ts) h = NoSends-receives ts h

NoSends-closes : (ts : List Task) → NoSends ts → NoSends (ts ++ Task.closes ∷ [])
NoSends-closes [] h = tt
NoSends-closes (Task.receives ∷ ts) h = NoSends-closes ts h
NoSends-closes (Task.sends bytes ∷ ts) h = h
NoSends-closes (Task.closes ∷ ts) h = NoSends-closes ts h

runs_task-IsIdle :
    (c u : TcpConnection) (tasks : List Task)
    → c.posted ≡ tasks
    → IsIdle c
    → run_posted tasks c ≡ some u
    → Stays c u
unfolding run_posted run_task close_in_service
runs_task-IsIdle c u [] p h e = ground arith
runs_task-IsIdle c u (Task.receives ∷ tasks) p h e = ground arith
runs_task-IsIdle c u (Task.sends bytes ∷ tasks) p h e = ground arith
runs_task-IsIdle c u (Task.closes ∷ tasks) p h e = ground arith

module _ (retrieve : ConnectionBuffer → ConnectionBuffer) where
  step-IsIdle :
      (e : Event) (c u : TcpConnection)
      → IsOther e
      → IsIdle c
      → step retrieve e c ≡ some u
      → Stays c u
  unfolding step start_receive force_close set_conn_state handle_receive handle_receive_error
      close_in_service transfer complete fail_write
  step-IsIdle calls_start_receive c u o h e = ground (arith, NoSends-receives c.posted h.1)
  step-IsIdle (calls_send bytes) c u o h e = elim o [ ]
  step-IsIdle calls_close c u o h e = ground (arith, NoSends-closes c.posted h.1)
  step-IsIdle connects c u o h e = ground arith
  step-IsIdle runs_task c u o h e = runs_task-IsIdle c u c.posted refl h e
  step-IsIdle (receives bytes) c u o h e = ground arith
  step-IsIdle (fails_to_receive eof) c u o h e = ground arith
  step-IsIdle (transfers n) c u o h e = ground arith
  step-IsIdle completes c u o h e = ground arith
  step-IsIdle fails_to_send c u o h e = ground arith

  -- What lies in `buf_out_` while no write is under way and no `sendInService` is posted, such as
  -- messages from before the connection stood, stays there and is not sent, whatever happens and also
  -- if the connection is made, until the next `sendMessage`.
  pub run-IsIdle :
      (es : List Event) (c u : TcpConnection)
      → All IsOther es
      → IsIdle c
      → run retrieve es c ≡ some u
      → IsIdle u × (u.wire ≡ c.wire) × (u.buf_out ≡ c.buf_out)
  unfolding run
  run-IsIdle [] c u o h e = ground arith
  run-IsIdle (event ∷ es) c u o h e =
      let (t, one, rest) = run_next retrieve event es c u e in
      let (idle, wire, out) = step-IsIdle event c t o.0 h one in
      let (idle', wire', out') = run-IsIdle es t u o.1 idle rest in
      (idle', wire' ∙ wire, out' ∙ out)
