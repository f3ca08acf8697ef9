-- ===== src/ServerMulti/Threads/Tests.antt =====
-- Runs of the threads of a server, and the theorems at inputs that meet their hypotheses.
use asio_client.Common.{true, false, [], ◌∷◌, codes}
use asio_client.Workers.{running, ended}
use asio_client.ServerMulti.Session.{Session}
use asio_client.ServerMulti.Session.Runs
use asio_client.ServerMulti.Server.Runs as ServerRuns
use asio_client.ServerMulti.Server
use asio_client.ServerMulti.Server.{Server}
use asio_client.ServerMulti.Threads.{Threads}

-- A session whose client says nothing.
abbrev silent : Session
silent = record {
  session_id = codes "SESS-0-0";
  write_queue = [];
  is_open = true;
  posted = [];
  pending_reads = 1;
  pending_writes = [];
  written = [];
}

-- Two threads, the second with the session.
abbrev serving : Threads (Unit {0})
serving = record {
  server = record {
    handler = tt;
    pool = record { size = 2; next_index = 0 };
    sessions = silent ∷ [];
    contexts = 1 ∷ [];
    counter = 1;
    acceptor_open = true;
    stopped = false;
    accepting = true;
  };
  guarded = true;
  started = true;
  workers = running ∷ running ∷ [];
}

-- It is stopped, and only the first thread ends.
abbrev half_stopped : Threads (Unit {0})
half_stopped = record serving {
  server = record serving.server { acceptor_open = false; stopped = true };
  guarded = false;
  workers = ended ∷ running ∷ [];
}

-- Then the client disconnects.
abbrev idle : Threads (Unit {0})
idle = record half_stopped {
  server = record half_stopped.server { sessions = record silent { pending_reads = 0 } ∷ [] };
}

abbrev joined : Threads (Unit {0})
joined = record idle { workers = [] }
