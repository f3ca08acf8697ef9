-- ===== src/ServerMulti/Threads.antt =====
-- asio-1.28_server_multi/src/test.cpp, `Server::run` and `Server::stop` with `IOContextPool::run` and
-- `IOContextPool::stop`: the threads of the pool, one for each `io_context`, and the thread that calls
-- `run`. Each step is one of a thread, between two of which another can run. `none`: the step cannot be
-- made now, or has undefined behaviour.
pub mod Waiting
pub mod Ending
mod Tests
use asio_client.Common.{
  runs, is_empty, replicate, ℕ, zero, suc, ◌+◌, ◌<◌, ◌==◌, Bool, true, false, not, ◌&&◌, ◌||◌,
  Option, none, some, List, [], ◌∷◌, ltb, if◌then◌else◌, ◌>>=◌, arith,
}
use asio_client.Workers.{Worker, starting, turn_at, all_ended, is_running}
use asio_client.ServerMulti.Session.{DataHandler, Session}
use asio_client.ServerMulti.Session.Runs
use asio_client.ServerMulti.Server
use asio_client.ServerMulti.Server.{Server}
use asio_client.ServerMulti.Server.Runs as ServerRuns

pub record Threads (H : Type 0) : Type 0 where
  pub server : Server H
  -- the contexts have their work guards
  pub guarded : Bool
  -- `run` was called
  pub started : Bool
  -- the thread of each context, in their order
  pub workers : List Worker

-- A session has something under way in asio.
pub is_busy : Session → Bool
is_busy s = ltb 0 s.pending_reads || not (is_empty s.posted) || not (is_empty s.pending_writes)

-- A session of the context of that number is busy.
unfoldable pub any_busy : ℕ → List Session → List ℕ → Bool
unfolding is_busy
any_busy c [] ctxs = false
any_busy c (s ∷ ss) [] = false
any_busy c (s ∷ ss) (ctx ∷ ctxs) = (ctx == c && is_busy s) || any_busy c ss ctxs

-- The context of that number has something to do.
abbrev pub has_work : {H : Type 0} → ℕ → Threads H → Bool
has_work c v = v.guarded || any_busy c v.server.sessions v.server.contexts

-- The thread of that number is in `run`.
abbrev pub runs_now : ℕ → List Worker → Bool
runs_now c [] = false
runs_now zero (w ∷ ws) = is_running w
runs_now (suc c) (w ∷ ws) = runs_now c ws

-- The thread of the session of that number is in `run`.
abbrev pub is_served : ℕ → List ℕ → List Worker → Bool
is_served k [] ws = false
is_served zero (ctx ∷ ctxs) ws = runs_now ctx ws
is_served (suc k) (ctx ∷ ctxs) ws = is_served k ctxs ws

pub data Event : Type 0 where
  calls_run : Event
  -- the thread of that number enters or leaves `run`
  turns : ℕ → Event
  accepts : (time : ℕ) → Event
  fails_to_accept : Event
  -- an event of the session of that number
  on_session : ℕ → Runs.Event → Event
  calls_stop : Event
  joins : Event

module _ {H : Type 0} where
  -- `IOContextPool::run`, and the thread that calls it goes on to `main_io_ctx_.run()`.
  pub call_run : Threads H → Option (Threads H)
  call_run v =
      if v.started
      then none
      else some (record v { started = true; workers = replicate v.server.pool.size starting })

  abbrev pub turned : Threads H → Option (List Worker) → Option (Threads H)
  turned v none = none
  turned v (some workers) = some (record v { workers = workers })

  abbrev pub changed : Threads H → Option (Server H) → Option (Threads H)
  changed v none = none
  changed v (some server) = some (record v { server = server })

  -- `Server::stop` up to the loop of `IOContextPool::stop` that joins the threads.
  pub stop : Threads H → Threads H
  stop v = record v { server = Server.stop v.server; guarded = false }

  -- The end of `stop`.
  pub join : Threads H → Option (Threads H)
  join v = if not v.guarded && all_ended v.workers then some (record v { workers = [] }) else none

  module _ (handler : DataHandler H) where
    pub step : Event → Threads H → Option (Threads H)
    unfolding call_run stop join
    step calls_run v = call_run v
    step (turns n) v = turned v (turn_at n (has_work n v) v.workers)
    step (accepts time) v =
        if v.started
        then changed v (ServerRuns.step handler (ServerRuns.accepts time) v.server)
        else none
    step fails_to_accept v =
        if v.started
        then changed v (ServerRuns.step handler ServerRuns.fails_to_accept v.server)
        else none
    step (on_session k e) v =
        if is_served k v.server.contexts v.workers
        then changed v (ServerRuns.step handler (ServerRuns.on_session k e) v.server)
        else none
    step calls_stop v = some (stop v)
    step joins v = join v

    pub run : List Event → Threads H → Option (Threads H)
    unfolding step
    run = runs step
