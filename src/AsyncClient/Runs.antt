-- ===== src/AsyncClient/Runs.antt =====
-- asio-1.28_async_client/src/async_client.cpp, `AsyncClient`: what can happen to a client, one call of
-- its user or one handler after the other. An event that cannot happen changes nothing.
use asio_client.Common.{
  runs, runs_next, ℕ, ◌-◌, ◌≡◌, Bool, Option, some, List, [], ◌∷◌, ◌++◌, ltb, if◌then◌else◌,
}
use asio_client.AsyncClient.{
  AsyncClient, Task, open_client, close, send, run_task, handle_connect, handle_connect_error,
  handle_wait, handle_read, handle_error, handle_write,
}

pub data Event : Type 0 where
  calls_open : Event
  calls_close : Event
  calls_send : List ℕ → Event
  runs_task : Event
  connects : Event
  fails_to_connect : (left_open : Bool) → Event
  receives : List ℕ → Event
  fails_to_read : Event
  completes : Event
  fails_to_write : Event
  expires : Event
  -- a wait ends because its timer was replaced
  is_cancelled : Event

unfoldable pub run_posted : List Task → AsyncClient → Option AsyncClient
unfolding run_task
run_posted [] c = some c
run_posted (task ∷ tasks) c = run_task task (record c { posted = tasks })

unfoldable pub complete : List (List ℕ) → AsyncClient → Option AsyncClient
unfolding handle_write
complete [] c = some c
complete (msg ∷ msgs) c =
    handle_write (record c { pending_writes = msgs; written = c.written ++ msg ∷ [] })

unfoldable pub fail_write : List (List ℕ) → AsyncClient → AsyncClient
unfolding handle_error
fail_write [] c = c
fail_write (msg ∷ msgs) c = handle_error (record c { pending_writes = msgs })

unfoldable pub step : Event → AsyncClient → Option AsyncClient
unfolding open_client close send run_posted complete fail_write handle_connect handle_connect_error
    handle_read handle_error handle_wait
step calls_open c = some (open_client c)
step calls_close c = some (close c)
step (calls_send msg) c = some (send msg c)
step runs_task c = run_posted c.posted c
step connects c =
    if ltb 0 c.pending_connects
    then some (handle_connect (record c { pending_connects = c.pending_connects - 1 }))
    else some c
step (fails_to_connect left_open) c =
    if ltb 0 c.pending_connects
    then some
        (handle_connect_error left_open (record c { pending_connects = c.pending_connects - 1 }))
    else some c
step (receives bytes) c =
    if ltb 0 c.pending_reads
    then some (handle_read bytes (record c { pending_reads = c.pending_reads - 1 }))
    else some c
step fails_to_read c =
    if ltb 0 c.pending_reads
    then some (handle_error (record c { pending_reads = c.pending_reads - 1 }))
    else some c
step completes c = complete c.pending_writes c
step fails_to_write c = some (fail_write c.pending_writes c)
step expires c =
    if ltb 0 c.pending_waits
    then some (handle_wait (record c { pending_waits = c.pending_waits - 1 }))
    else some c
step is_cancelled c = some (record c { pending_waits = c.pending_waits - 1 })

unfoldable pub run : List Event → AsyncClient → Option AsyncClient
unfolding step
run = runs step

-- What a run that has got somewhere has passed.
pub run_next :
    (e : Event) (es : List Event) (c u : AsyncClient)
    → run (e ∷ es) c ≡ some u
    → (t : AsyncClient) × (step e c ≡ some t) × (run es t ≡ some u)
unfolding run
run_next = runs_next step
