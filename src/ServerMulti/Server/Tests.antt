-- ===== src/ServerMulti/Server/Tests.antt =====
-- Runs of a server and of a session, and the theorems at inputs that meet their hypotheses.
use asio_client.Common.{
  ℕ, ◌-◌, ◌^◌, ◌≡◌, refl, true, false, some, List, [], ◌∷◌, arith, codes, to_string,
}
use asio_client.ServerMulti.Pool.{get_next_io_context}
use asio_client.ServerMulti.Statistics.{StatisticsHandler, process, on_session_created}
use asio_client.ServerMulti.Session.{
  Session, writes, reads, init, start, safe_write, do_read, handle_read, statistics_handler,
}
use asio_client.ServerMulti.Session.Runs
use asio_client.ServerMulti.Server.{
  Server, session_id, stop, handle_accept, serve, accept_again, do_accept,
}
use asio_client.ServerMulti.Server.Runs.{
  Event, accepts, calls_stop, on_session, run, step, step_session,
}
use asio_client.ServerMulti.Server.Spread.{IsSpread, run-IsSpread}
use asio_client.ServerMulti.Server.Ids.{IsNumbered, AreDistinct, run-AreDistinct}
use asio_client.ServerMulti.Server.Counts.{run-received}

-- A session with a read outstanding, and two answers on their way.
abbrev busy : Session
busy = record {
  session_id = codes "SESS-0-0";
  write_queue = (1 ∷ []) ∷ (2 ∷ []) ∷ [];
  is_open = true;
  posted = [];
  pending_reads = 1;
  pending_writes = (1 ∷ []) ∷ [];
  written = [];
}

abbrev busy_events : List Runs.Event
busy_events = Runs.receives (b'h' ∷ []) ∷ Runs.completes ∷ Runs.runs_task ∷ Runs.completes ∷ []

-- A server with three threads, a session, and two connections to come.
abbrev server : Server StatisticsHandler
server = record {
  handler = record {
    total_chars = 2 ^ 64 - 1;
    message_count = 5;
    active_sessions = 1;
    session_stats = [];
  };
  pool = record { size = 3; next_index = 1 };
  sessions = busy ∷ [];
  contexts = 0 ∷ [];
  counter = 1;
  acceptor_open = true;
  stopped = false;
  accepting = true;
}

-- The session receives two bytes, and a client connects.
abbrev events : List Event
events = on_session 0 (Runs.receives (1 ∷ 2 ∷ [])) ∷ accepts 7 ∷ calls_stop ∷ accepts 8 ∷ []

abbrev answer : List ℕ × StatisticsHandler
answer = process (1 ∷ 2 ∷ []) (codes "SESS-0-0") server.handler

abbrev served : Server StatisticsHandler
served = record server {
  handler = on_session_created (session_id 1 7) answer.1;
  pool = record { size = 3; next_index = 2 };
  sessions =
      record busy { posted = writes answer.0 ∷ [] }
      ∷ record (init (session_id 1 7)) { posted = reads ∷ [] }
      ∷ [];
  contexts = 0 ∷ 1 ∷ [];
  counter = 2;
  acceptor_open = false;
  stopped = true;
}

events-run : run statistics_handler events server ≡ some served
unfolding run step step_session Runs.step handle_read safe_write do_read stop handle_accept serve
    accept_again do_accept start init get_next_io_context
events-run = refl

run-received_example : (served.handler.total_chars ≡ 1) × (served.handler.message_count ≡ 6)
unfolding run step step_session Runs.step handle_read safe_write do_read stop handle_accept serve
    accept_again do_accept start init get_next_io_context process on_session_created
run-received_example = run-received events server served (omega arith, omega arith) events-run

server-IsSpread : IsSpread server
server-IsSpread = record {
  some_context = omega arith;
  not_too_many = omega arith;
  next = omega arith;
  each = refl;
}

run-IsSpread_example : IsSpread served
run-IsSpread_example =
    run-IsSpread statistics_handler events server served server-IsSpread events-run

server-IsNumbered : IsNumbered 0 server
unfolding session_id to_string
server-IsNumbered = record { ids = ((0, refl), tt); next = refl }

run-AreDistinct_example : IsNumbered 0 served × AreDistinct served.sessions
run-AreDistinct_example =
    run-AreDistinct statistics_handler 0 events server served (omega arith) server-IsNumbered
      events-run
