-- ===== src/ServerMulti/Session/Tests.antt =====
-- A session whose client connects and leaves, and the theorem at it.
use asio_client.Common.{ℕ, ◌+◌, ◌%◌, ◌^◌, ◌≡◌, refl, some, List, [], ◌∷◌, codes, arith}
use asio_client.ServerMulti.Statistics.{StatisticsHandler, on_session_created, on_session_closed}
use asio_client.ServerMulti.Session.{
  statistics_handler, init, start, do_read, run_task, handle_read_error, destroy,
}
use asio_client.ServerMulti.Session.Runs.{Event, runs_task, fails_to_read, run_posted, step, run}
use asio_client.ServerMulti.Session.Active.{run-active_sessions}

abbrev session_id : List ℕ
session_id = codes "SESS-0-0"

abbrev handler : StatisticsHandler
handler = record { total_chars = 0; message_count = 0; active_sessions = 0; session_stats = [] }

-- The client disconnects.
abbrev leaves : List Event
leaves = runs_task ∷ fails_to_read ∷ []

abbrev left : StatisticsHandler
left = on_session_closed session_id (on_session_created session_id handler)

leaves-run :
    run statistics_handler leaves
      (start statistics_handler (init session_id) handler).0
      (start statistics_handler (init session_id) handler).1
    ≡ some (init session_id, left)
unfolding run step run_posted run_task do_read handle_read_error start init
leaves-run = refl

-- With one failure, the counter is 2 ^ 64 - 1 afterwards.
run-active_sessions_example :
    ((destroy statistics_handler (init session_id) left).active_sessions + 1) % 2 ^ 64 ≡ 0
unfolding run step run_posted run_task do_read handle_read_error start init
run-active_sessions_example =
    run-active_sessions session_id leaves handler (init session_id) left (omega arith) leaves-run
