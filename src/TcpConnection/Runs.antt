-- ===== src/TcpConnection/Runs.antt =====
-- asio-1.10/src/tcp_connection.cpp, `TcpConnection`: what can happen to a connection, one call or one
-- handler after the other, and the socket that sends. An event that cannot happen changes nothing.
use asio_client.Common.{
  runs, runs_next, ℕ, ◌+◌, ◌-◌, Bool, Option, none, some, List, [], ◌∷◌, ◌++◌, ltb, leb, ◌==◌,
  if◌then◌else◌, ◌>>=◌, slice, ◌≡◌,
}
use asio_client.Buffer.{ConnectionBuffer}
use asio_client.TcpConnection.{
  TcpConnection, Task, Write, connected, start_receive, send_message, force_close, set_conn_state,
  run_task, handle_receive, handle_receive_error, handle_send, handle_send_error,
}

pub data Event : Type 0 where
  calls_start_receive : Event
  calls_send : List ℕ → Event
  calls_close : Event
  -- `TcpClient` has connected the socket
  connects : Event
  runs_task : Event
  receives : List ℕ → Event
  fails_to_receive : (eof : Bool) → Event
  -- the socket takes so many bytes of the write
  transfers : ℕ → Event
  -- all of the write is sent
  completes : Event
  fails_to_send : Event

unfoldable pub run_posted : List Task → TcpConnection → Option TcpConnection
unfolding run_task
run_posted [] c = some c
run_posted (task ∷ tasks) c = run_task task (record c { posted = tasks })

-- The socket reads the bytes from where the write points. The array has to be there still.
unfoldable pub transfer : ℕ → List Write → TcpConnection → Option TcpConnection
transfer n [] c = some c
transfer n (w ∷ ws) c =
    if leb (w.done + n) w.count
    then (if w.array == c.array
        then (slice c.buf_out.buffer (w.offset + w.done) n >>= λ bytes. some (record c {
          pending_writes = record w { done = w.done + n } ∷ ws;
          wire = c.wire ++ bytes;
        }))
        else none)
    else some c

unfoldable pub complete : List Write → TcpConnection → TcpConnection
unfolding handle_send
complete [] c = c
complete (w ∷ ws) c =
    if w.done == w.count then handle_send w.count (record c { pending_writes = ws }) else c

unfoldable pub fail_write : List Write → TcpConnection → TcpConnection
unfolding handle_send_error
fail_write [] c = c
fail_write (w ∷ ws) c = handle_send_error (record c { pending_writes = ws })

module _ (retrieve : ConnectionBuffer → ConnectionBuffer) where
  unfoldable pub step : Event → TcpConnection → Option TcpConnection
  unfolding start_receive send_message force_close set_conn_state run_posted handle_receive
      handle_receive_error transfer complete fail_write
  step calls_start_receive c = some (start_receive c)
  step (calls_send bytes) c = some (send_message bytes c)
  step calls_close c = some (force_close c)
  step connects c = some (set_conn_state connected c)
  step runs_task c = run_posted c.posted c
  step (receives bytes) c =
      if ltb 0 c.pending_reads
      then handle_receive retrieve bytes (record c { pending_reads = c.pending_reads - 1 })
      else some c
  step (fails_to_receive eof) c =
      if ltb 0 c.pending_reads
      then some (handle_receive_error eof (record c { pending_reads = c.pending_reads - 1 }))
      else some c
  step (transfers n) c = transfer n c.pending_writes c
  step completes c = some (complete c.pending_writes c)
  step fails_to_send c = some (fail_write c.pending_writes c)

  unfoldable pub run : List Event → TcpConnection → Option TcpConnection
  unfolding step
  run = runs step

  -- What a run that has got somewhere has passed.
  pub run_next :
      (e : Event) (es : List Event) (c u : TcpConnection)
      → run (e ∷ es) c ≡ some u
      → (t : TcpConnection) × (step e c ≡ some t) × (run es t ≡ some u)
  unfolding run
  run_next = runs_next step
