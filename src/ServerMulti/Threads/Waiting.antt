-- ===== src/ServerMulti/Threads/Waiting.antt =====
-- asio-1.28_server_multi/src/test.cpp, `Server::stop` and `IOContextPool::stop`: a `stop` while a client is
-- connected.
pub mod Busy
use asio_client.Common.{ℕ, zero, suc, ◌≡◌, ap, Bool, true, false, ◌++◌}
use asio_client.Workers.{starting, running, ended, turn, kept, all_ended, has_ended}
use asio_client.ServerMulti.Session.{Session, Task}
use asio_client.ServerMulti.Session.Runs
use asio_client.ServerMulti.Session.Reading.{IsReading, Stays, step-IsReading}
use asio_client.ServerMulti.Server.{Server}
use asio_client.ServerMulti.Server.Runs as ServerRuns
use asio_client.ServerMulti.Threads
use asio_client.ServerMulti.Threads.{
  Threads, Event, calls_run, turns, accepts, fails_to_accept, on_session, calls_stop, joins,
  is_busy, any_busy, is_served,
}
use Busy.{Reads, IsUp}

-- A client of the context `c` is connected by the session `k`.
abbrev pub IsWaiting : {H : Type 0} → (k c : ℕ) → Threads H → Type 0
IsWaiting k c v =
    Reads k c v.server.sessions v.server.contexts × IsUp c v.workers × (v.started ≡ true)

-- Every event but one that ends the reading of the session `k`.
abbrev pub Spares : (k : ℕ) → Event → Type 0
Spares k calls_run = Unit {0}
Spares k (turns n) = Unit {0}
Spares k (accepts time) = Unit {0}
Spares k fails_to_accept = Unit {0}
Spares k (on_session j e) = j ≡ k → Stays e
Spares k calls_stop = Unit {0}
Spares k joins = Unit {0}
