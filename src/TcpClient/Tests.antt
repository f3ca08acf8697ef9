-- ===== src/TcpClient/Tests.antt =====
-- Runs of a client, and the theorems at inputs that meet their hypotheses.
use asio_client.Common.{◌≡◌, refl, true, some, List, [], ◌∷◌, arith}
use asio_client.TcpClient.{TcpClient, init, connected, send, run_task, handle_write}
use asio_client.TcpClient.Runs.{
  Event, calls_send, runs_task, connects, fails_to_read, completes, fails_to_write, expires, step,
  run, run_posted, complete,
}
use asio_client.TcpClient.Alive.{IsTrying, run-IsTrying}
use asio_client.TcpClient.Order.{IsOrderly, taken, run-taken}
use asio_client.TcpClient.Stalls.{IsStuck, reconnect-IsStuck}

-- A connected client with one message being written.
abbrev client : TcpClient
client = record init {
  reconnect = true;
  is_connected = connected;
  send_msgs = (1 ∷ []) ∷ [];
  pending_writes = (1 ∷ []) ∷ [];
  pending_reads = 1;
}

abbrev two_sends : List Event
two_sends =
    calls_send (2 ∷ []) ∷ calls_send (3 ∷ []) ∷ runs_task ∷ completes ∷ completes ∷ runs_task ∷ []

abbrev writing_third : TcpClient
writing_third = record client {
  send_msgs = (3 ∷ []) ∷ [];
  pending_writes = (3 ∷ []) ∷ [];
  written = (1 ∷ []) ∷ (2 ∷ []) ∷ [];
}

two_sends-run : run two_sends client ≡ some writing_third
unfolding run step run_posted run_task complete handle_write send init
two_sends-run = refl

run-IsTrying_example : IsTrying writing_third
run-IsTrying_example =
    run-IsTrying two_sends client writing_third (omega arith) (refl, omega arith) two_sends-run

run-taken_example :
    (u : TcpClient) × (run two_sends client ≡ some u)
    × IsOrderly u
    × (taken u ≡ (1 ∷ []) ∷ (2 ∷ []) ∷ (3 ∷ []) ∷ [])
unfolding step run_posted run_task complete handle_write send init
run-taken_example = run-taken two_sends client (refl, tt) (omega arith)

-- A connected client with a message that nothing writes.
abbrev stuck : TcpClient
stuck = record client { pending_writes = [] }

abbrev still_stuck : TcpClient
still_stuck = record stuck { send_msgs = (1 ∷ []) ∷ (2 ∷ []) ∷ [] }

stuck-run : run (calls_send (2 ∷ []) ∷ runs_task ∷ completes ∷ []) stuck ≡ some still_stuck
unfolding run step run_posted run_task complete send init
stuck-run = refl

-- A connected client with nothing to do.
abbrev idle : TcpClient
idle = record client { send_msgs = []; pending_writes = [] }

reconnect-IsStuck_example :
    (u : TcpClient) × (run
        (calls_send (7 ∷ [])
          ∷ fails_to_read 104
          ∷ runs_task
          ∷ fails_to_write
          ∷ expires
          ∷ connects
          ∷ [])
        idle
      ≡ some u)
    × (u.is_connected ≡ connected)
    × (u.send_msgs ≡ (7 ∷ []) ∷ [])
    × IsStuck u
unfolding init
reconnect-IsStuck_example = reconnect-IsStuck (7 ∷ []) 104 idle refl refl refl refl (omega arith)
