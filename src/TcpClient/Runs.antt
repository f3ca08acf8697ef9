-- ===== src/TcpClient/Runs.antt =====
-- asio-1.28/src/tcp_client.cpp, `TcpClient`: what can happen to a client, one call of its user or one
-- handler after the other. An event that cannot happen, as a completion of nothing, changes nothing.
use asio_client.Common.{
  runs, ℕ, ◌+◌, ◌-◌, Bool, Option, some, List, [], ◌∷◌, ◌++◌, ltb, if◌then◌else◌,
}
use asio_client.TcpClient.{
  TcpClient, Task, connect, close, send, run_task, handle_connect, handle_wait, handle_read,
  handle_read_error, handle_write, handle_write_error,
}

pub data Event : Type 0 where
  calls_connect : Bool → Event
  calls_close : Event
  calls_send : List ℕ → Event
  runs_task : Event
  connects : Event
  -- the error value, less one
  fails_to_connect : ℕ → Event
  receives : List ℕ → Event
  fails_to_read : ℕ → Event
  completes : Event
  fails_to_write : Event
  expires : Event
  -- a wait ends because the timer was cancelled or set again
  is_cancelled : Event

unfoldable pub run_posted : List Task → TcpClient → Option TcpClient
unfolding run_task
run_posted [] c = some c
run_posted (task ∷ tasks) c = run_task task (record c { posted = tasks })

unfoldable pub complete : List (List ℕ) → TcpClient → Option TcpClient
unfolding handle_write
complete [] c = some c
complete (msg ∷ msgs) c =
    handle_write (record c { pending_writes = msgs; written = c.written ++ msg ∷ [] })

unfoldable pub fail_write : List (List ℕ) → TcpClient → TcpClient
unfolding handle_write_error
fail_write [] c = c
fail_write (msg ∷ msgs) c = handle_write_error (record c { pending_writes = msgs })

unfoldable pub end_connect : ℕ → TcpClient → TcpClient
unfolding handle_connect
end_connect value c =
    if ltb 0 c.pending_connects
    then handle_connect value (record c { pending_connects = c.pending_connects - 1 })
    else c

unfoldable pub step : Event → TcpClient → Option TcpClient
unfolding connect close send run_posted complete fail_write end_connect handle_read
    handle_read_error handle_wait
step (calls_connect reconnect) c = some (connect reconnect c)
step calls_close c = some (close c)
step (calls_send msg) c = some (send msg c).1
step runs_task c = run_posted c.posted c
step connects c = some (end_connect 0 c)
step (fails_to_connect n) c = some (end_connect (n + 1) c)
step (receives bytes) c =
    if ltb 0 c.pending_reads
    then some (handle_read bytes (record c { pending_reads = c.pending_reads - 1 }))
    else some c
step (fails_to_read value) c =
    if ltb 0 c.pending_reads
    then some (handle_read_error value (record c { pending_reads = c.pending_reads - 1 }))
    else some c
step completes c = complete c.pending_writes c
step fails_to_write c = some (fail_write c.pending_writes c)
step expires c =
    if ltb 0 c.pending_waits
    then some (handle_wait (record c { pending_waits = c.pending_waits - 1 }))
    else some c
step is_cancelled c = some (record c { pending_waits = c.pending_waits - 1 })

unfoldable pub run : List Event → TcpClient → Option TcpClient
unfolding step
run = runs step
