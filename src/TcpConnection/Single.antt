-- ===== src/TcpConnection/Single.antt =====
-- asio-1.10/src/tcp_connection.cpp, `TcpConnection`: how many operations are outstanding at once.
use asio_client.Common.{
  runs-keeps_any, ℕ, ◌+◌, ◌≤◌, ◌≡◌, refl, Bool, true, false, some, List, [], ◌∷◌, ◌++◌, length,
  arith,
}
use asio_client.Buffer.{ConnectionBuffer}
use asio_client.TcpConnection.{
  TcpConnection, Task, Write, start_receive, send_message, force_close, set_conn_state, run_task,
  handle_receive, handle_receive_error, handle_send, handle_send_error,
}
use asio_client.TcpConnection.Runs.{
  Event, calls_start_receive, calls_send, calls_close, connects, runs_task, receives,
  fails_to_receive, transfers, completes, fails_to_send, run_posted, transfer, complete, fail_write,
  step, run,
}

-- The reads that are still to be started.
abbrev pub reads_posted : List Task → ℕ
reads_posted [] = 0
reads_posted (Task.receives ∷ tasks) = reads_posted tasks + 1
reads_posted (Task.sends bytes ∷ tasks) = reads_posted tasks
reads_posted (Task.closes ∷ tasks) = reads_posted tasks

abbrev pub budget : Bool → ℕ
budget true = 1
budget false = 0

-- At most one write is outstanding, none if `sending_` is false, and at most one read is outstanding
-- or about to be, none before `startReceive`.
abbrev pub IsSingle : TcpConnection → Type 0
IsSingle c =
    (length c.pending_writes ≤ budget c.sending)
    × (c.pending_reads + reads_posted c.posted ≤ budget c.receiving)

reads_posted-append :
    (ts us : List Task) → reads_posted (ts ++ us) ≡ reads_posted ts + reads_posted us
reads_posted-append [] us = omega arith
reads_posted-append (Task.receives ∷ ts) us = omega (arith, reads_posted-append ts us)
reads_posted-append (Task.sends bytes ∷ ts) us = reads_posted-append ts us
reads_posted-append (Task.closes ∷ ts) us = reads_posted-append ts us

runs_task-IsSingle :
    (c u : TcpConnection) (tasks : List Task) (ws : List Write)
    → c.posted ≡ tasks
    → c.pending_writes ≡ ws
    → IsSingle c
    → run_posted tasks c ≡ some u
    → IsSingle u
unfolding run_posted run_task
runs_task-IsSingle c u [] ws p q h e = ground arith
runs_task-IsSingle c u (Task.receives ∷ tasks) ws p q h e = ground arith
runs_task-IsSingle c u (Task.sends bytes ∷ tasks) [] p q h e = ground arith
runs_task-IsSingle c u (Task.sends bytes ∷ tasks) (w ∷ ws) p q h e = ground arith
runs_task-IsSingle c u (Task.closes ∷ tasks) ws p q h e = ground arith

transfer-IsSingle :
    (n : ℕ) (ws : List Write) (c u : TcpConnection)
    → c.pending_writes ≡ ws
    → IsSingle c
    → transfer n ws c ≡ some u
    → IsSingle u
unfolding transfer
transfer-IsSingle n [] c u p h e = ground arith
transfer-IsSingle n (w ∷ ws) c u p h e = ground arith

complete-IsSingle :
    (ws : List Write) (c : TcpConnection)
    → c.pending_writes ≡ ws
    → IsSingle c
    → IsSingle (complete ws c)
unfolding complete handle_send
complete-IsSingle [] c p h = h
complete-IsSingle (w ∷ []) c p h = ground arith
complete-IsSingle (w ∷ v ∷ ws) c p h = ground arith

module _ (retrieve : ConnectionBuffer → ConnectionBuffer) where
  step-IsSingle :
      (e : Event) (c u : TcpConnection) → IsSingle c → step retrieve e c ≡ some u → IsSingle u
  unfolding step start_receive send_message force_close set_conn_state handle_receive
      handle_receive_error fail_write handle_send_error
  step-IsSingle calls_start_receive c u h e =
      ground (arith, reads_posted-append c.posted (Task.receives ∷ []))
  step-IsSingle (calls_send bytes) c u h e =
      ground (arith, reads_posted-append c.posted (Task.sends bytes ∷ []))
  step-IsSingle calls_close c u h e =
      ground (arith, reads_posted-append c.posted (Task.closes ∷ []))
  step-IsSingle connects c u h e = ground arith
  step-IsSingle runs_task c u h e = runs_task-IsSingle c u c.posted c.pending_writes refl refl h e
  step-IsSingle (receives bytes) c u h e = ground arith
  step-IsSingle (fails_to_receive eof) c u h e = ground arith
  step-IsSingle (transfers n) c u h e = transfer-IsSingle n c.pending_writes c u refl h e
  step-IsSingle completes c u h e = ground (arith, complete-IsSingle c.pending_writes c refl h)
  step-IsSingle fails_to_send c u h e = ground arith

  -- Whatever happens to a connection and whatever its user calls, in whatever order: at most one write
  -- and at most one read are outstanding at once, a write only while `sending_` is set, and a read only
  -- after `startReceive`, if this was so before.
  pub run-IsSingle :
      (es : List Event) (c u : TcpConnection) → IsSingle c → run retrieve es c ≡ some u → IsSingle u
  unfolding run
  run-IsSingle = runs-keeps_any (step retrieve) IsSingle step-IsSingle
