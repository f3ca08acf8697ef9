-- ===== src/AsyncClient/Tests.antt =====
-- Runs of a client, and the theorems at inputs that meet their hypotheses.
use asio_client.Common.{◌≡◌, refl, true, some, List, [], ◌∷◌, arith}
use asio_client.AsyncClient.{
  AsyncClient, init, send, run_task, handle_connect, handle_wait, handle_write, handle_error,
}
use asio_client.AsyncClient.Runs.{
  Event, calls_send, runs_task, connects, completes, fails_to_write, expires, step, run, run_posted,
  complete, fail_write,
}
use asio_client.AsyncClient.Order.{IsOrderly, taken, run-accepted}
use asio_client.AsyncClient.Stuck.{IsStuck, run-fails_to_write}

-- An opened client with one message being written.
abbrev client : AsyncClient
client = record init {
  stop = true;
  socket_open = true;
  write_msgs = (1 ∷ []) ∷ [];
  pending_writes = (1 ∷ []) ∷ [];
  pending_reads = 1;
}

abbrev next_send : List Event
next_send = calls_send (2 ∷ []) ∷ runs_task ∷ completes ∷ []

run-accepted_example :
    (u : AsyncClient) × (run next_send client ≡ some u)
    × IsOrderly u
    × (taken u ≡ (1 ∷ []) ∷ (2 ∷ []) ∷ [])
unfolding step run_posted run_task complete handle_write send init
run-accepted_example = run-accepted next_send client refl (omega arith)

abbrev reconnecting : List Event
reconnecting =
    fails_to_write ∷ expires ∷ connects ∷ calls_send (2 ∷ []) ∷ runs_task ∷ completes ∷ []

-- The client on its next connection.
abbrev reconnected : AsyncClient
reconnected = record client {
  write_msgs = (1 ∷ []) ∷ (2 ∷ []) ∷ [];
  pending_writes = [];
  pending_reads = 2;
}

reconnecting-run : run reconnecting client ≡ some reconnected
unfolding run step run_posted run_task complete fail_write handle_error handle_wait handle_connect
    handle_write send init
reconnecting-run = refl

run-fails_to_write_example : IsStuck reconnected × (reconnected.written ≡ client.written)
run-fails_to_write_example =
    run-fails_to_write (expires ∷ connects ∷ calls_send (2 ∷ []) ∷ runs_task ∷ completes ∷ [])
      client reconnected refl refl reconnecting-run
