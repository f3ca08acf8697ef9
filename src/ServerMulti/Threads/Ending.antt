-- ===== src/ServerMulti/Threads/Ending.antt =====
-- asio-1.28_server_multi/src/test.cpp, `Server::stop` and `IOContextPool::stop`: how they come to their end.
use asio_client.Common.{ℕ, ◌+◌, ◌≡◌, true, false, List, [], ◌∷◌}
use asio_client.Workers.{remaining}
use asio_client.ServerMulti.Session.{DataHandler, Session}
use asio_client.ServerMulti.Session.Runs
use asio_client.ServerMulti.Server
use asio_client.ServerMulti.Server.{Server}
use asio_client.ServerMulti.Server.Runs as ServerRuns
use asio_client.ServerMulti.Threads
use asio_client.ServerMulti.Threads.{
  Threads, Event, calls_run, turns, accepts, fails_to_accept, on_session, calls_stop, joins,
}

-- Nothing of the session is under way.
abbrev pub IsIdle : Session → Type 0
IsIdle s = (s.pending_reads ≡ 0) × (s.posted ≡ []) × (s.pending_writes ≡ [])

abbrev pub AllIdle : List Session → Type 0
AllIdle [] = Unit {0}
AllIdle (s ∷ ss) = IsIdle s × AllIdle ss

-- The steps of the threads.
abbrev pub is_turn : Event → ℕ
is_turn calls_run = 0
is_turn (turns n) = 1
is_turn (accepts time) = 0
is_turn fails_to_accept = 0
is_turn (on_session k e) = 0
is_turn calls_stop = 0
is_turn joins = 0

abbrev pub turns_of : List Event → ℕ
turns_of [] = 0
turns_of (e ∷ es) = is_turn e + turns_of es

-- A server that runs is stopping.
abbrev pub IsStopping : {H : Type 0} → Threads H → Type 0
IsStopping v = (v.guarded ≡ false) × (v.started ≡ true) × (v.server.stopped ≡ true)

abbrev pub IsDone : {H : Type 0} → Threads H → Type 0
IsDone v = IsStopping v × AllIdle v.server.sessions

module _ {H : Type 0} (handler : DataHandler H) where
  abbrev Goes : Event → Threads H → Threads H → Type 0
  Goes e v u =
      IsDone u
      × (remaining u.workers + is_turn e ≡ remaining v.workers)
      × (u.server.sessions ≡ v.server.sessions)
