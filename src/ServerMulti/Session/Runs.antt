-- ===== src/ServerMulti/Session/Runs.antt =====
-- asio-1.28_server_multi/src/test.cpp, `Session`: what can happen to a session that was started, one
-- handler after the other. An event that cannot happen changes nothing.
use asio_client.Common.{
  ℕ, ◌-◌, Bool, Option, none, some, List, [], ◌∷◌, ◌++◌, length, ltb, leb, ◌&&◌, if◌then◌else◌,
  ◌>>=◌,
}
use asio_client.ServerMulti.Session.{
  DataHandler, Task, Session, data_size, run_task, handle_write, handle_read, handle_read_error,
  handle_write_error,
}

pub data Event : Type 0 where
  runs_task : Event
  receives : List ℕ → Event
  fails_to_read : Event
  completes : Event
  fails_to_write : Event

unfoldable pub run_posted : List Task → Session → Option Session
unfolding run_task
run_posted [] s = some s
run_posted (task ∷ tasks) s = run_task task (record s { posted = tasks })

unfoldable pub complete : List (List ℕ) → Session → Option Session
unfolding handle_write
complete [] s = some s
complete (bytes ∷ rest) s =
    handle_write (record s { pending_writes = rest; written = s.written ++ bytes ∷ [] })

-- A read is outstanding, and the bytes fit into `data_`.
abbrev pub can_read : List ℕ → Session → Bool
can_read bytes s = ltb 0 s.pending_reads && leb (length bytes) data_size

abbrev pub with_handler : {H : Type 0} → H → Option Session → Option (Session × H)
with_handler h none = none
with_handler h (some s) = some (s, h)

module _ {H : Type 0} (handler : DataHandler H) where
  unfoldable pub fail_write : List (List ℕ) → Session → H → Session × H
  unfolding handle_write_error
  fail_write [] s h = (s, h)
  fail_write (bytes ∷ rest) s h = handle_write_error handler (record s { pending_writes = rest }) h

  unfoldable pub step : Event → Session → H → Option (Session × H)
  unfolding run_posted complete handle_read handle_read_error fail_write
  step runs_task s h = with_handler h (run_posted s.posted s)
  step (receives bytes) s h =
      if can_read bytes s
      then some (handle_read handler bytes (record s { pending_reads = s.pending_reads - 1 }) h)
      else some (s, h)
  step fails_to_read s h =
      if ltb 0 s.pending_reads
      then some (handle_read_error handler (record s { pending_reads = s.pending_reads - 1 }) h)
      else some (s, h)
  step completes s h = with_handler h (complete s.pending_writes s)
  step fails_to_write s h = some (fail_write s.pending_writes s h)

  unfoldable pub run : List Event → Session → H → Option (Session × H)
  unfolding step
  run [] s h = some (s, h)
  run (event ∷ events) s h = step event s h >>= λ next. run events next.0 next.1
