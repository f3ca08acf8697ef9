-- ===== src/Server/Threads/Tests.antt =====
-- Runs of the threads of a server, and the theorems at inputs that meet their hypotheses.
use asio_client.Common.{ℕ, ◌+◌, ◌≡◌, ◌⊎◌, refl, true, false, some, [], ◌∷◌}
use asio_client.Session.{echo_handler}
use asio_client.Workers.{starting, running, turn_at, remaining}
use asio_client.Server.{do_accept}
use asio_client.Server.Threads.{
  Threads, turns, calls_stop, joins, init, worker_count, turned, has_work, stop, join, step, run,
}
use asio_client.Server.Threads.Early.{early, emptied, IsDeaf, run-IsDeaf}
use asio_client.Server.Threads.Stop.{IsStopped, turns_of, run-IsStopped}

-- Two threads have ended early; one of them cannot go on, and `stop` comes to its end.
abbrev deaf : Threads
deaf = emptied (worker_count 2 8) (init (some echo_handler) 2 8 0)

abbrev deaf_stopped : Threads
deaf_stopped = record deaf { server = record deaf.server { acceptor_open = false }; workers = [] }

deaf-run : run [] [] (calls_stop ∷ joins ∷ []) deaf ≡ some deaf_stopped
unfolding run step stop join init worker_count do_accept
deaf-run = refl

run-IsDeaf_example :
    (run [] [] (early 0 (worker_count 2 8)) (init (some echo_handler) 2 8 0) ≡ some deaf)
    × IsDeaf deaf_stopped
run-IsDeaf_example =
    run-IsDeaf [] [] (some echo_handler) 2 8 0 (calls_stop ∷ joins ∷ []) deaf_stopped deaf-run

-- A server is stopped while one thread is in `run` and another is about to be.
abbrev serving : Threads
serving = record {
  server = record {
    handler = some echo_handler;
    sessions = [];
    counter = 0;
    acceptor_open = true;
    accepting = true;
  };
  to_make = 0;
  constructed = true;
  workers = running ∷ starting ∷ [];
  stopped = false;
  terminated = false;
}

abbrev ended_all : Threads
ended_all = record serving {
  server = record serving.server { acceptor_open = false };
  workers = [];
  stopped = true;
}

serving-run : run [] [] (calls_stop ∷ turns 1 ∷ turns 0 ∷ joins ∷ []) serving ≡ some ended_all
unfolding run step stop turned turn_at has_work join
serving-run = refl

run-IsStopped_example :
    IsStopped ended_all
    × (remaining ended_all.workers + turns_of (turns 1 ∷ turns 0 ∷ joins ∷ []) ≡ 2)
    × (ended_all.server.sessions ≡ [])
    × (((n : ℕ) × (t : Threads) × (step [] [] (turns n) ended_all ≡ some t))
        ⊎ ((t : Threads) × (step [] [] joins ended_all ≡ some t)))
run-IsStopped_example =
    run-IsStopped [] [] (turns 1 ∷ turns 0 ∷ joins ∷ []) serving ended_all refl serving-run
