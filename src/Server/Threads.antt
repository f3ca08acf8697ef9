-- ===== src/Server/Threads.antt =====
-- asio-1.28_server_multi_protocol/src/test.cpp, `Server`: the constructor, `stop` and the threads that run
-- the one `io_context`, cut into the steps between which another thread can run. `none`: the step
-- cannot be made now. An `io_context` that has run out of work is stopped, and so is one that `stop`
-- stops: each `run` of it returns, and no handler is called any more.
pub mod Early
pub mod Stop
mod Tests
use asio_client.Common.{
  All, runs, ℕ, zero, suc, ◌+◌, ◌-◌, ◌<◌, ◌≡◌, Bool, true, false, not, ◌&&◌, ◌||◌, Option, none,
  some, List, [], ◌∷◌, ◌++◌, ltb, if◌then◌else◌, ◌>>=◌, Dict, insert, bytes_eq, arith,
}
use asio_client.Protocol.Factory.{ProtocolFactory}
use asio_client.Session.{Session, DataHandler}
use asio_client.Workers.{Worker, starting, turn_at, any_running, all_ended}
use asio_client.Server.{Server, Outcome, continues, throws, do_accept, handle_accept}

pub record Threads : Type 0 where
  pub server : Server
  -- the threads that the constructor still makes
  pub to_make : ℕ
  -- the constructor has called `do_accept`
  pub constructed : Bool
  pub workers : List Worker
  -- `io_context_` is stopped
  pub stopped : Bool
  -- an exception has left a thread, which ends the program
  pub terminated : Bool

pub worker_count : (thread_pool_size hardware_concurrency : ℕ) → ℕ
worker_count thread_pool_size hardware_concurrency =
    if ltb 0 thread_pool_size
    then thread_pool_size
    else if ltb 1 hardware_concurrency
    then hardware_concurrency
    else 1

-- The constructor before its loop.
pub init : Option DataHandler → (thread_pool_size hardware_concurrency counter : ℕ) → Threads
unfolding worker_count
init handler thread_pool_size hardware_concurrency counter = record {
  server = record {
    handler = handler;
    sessions = [];
    counter = counter;
    acceptor_open = true;
    accepting = false;
  };
  to_make = worker_count thread_pool_size hardware_concurrency;
  constructed = false;
  workers = [];
  stopped = false;
  terminated = false;
}

-- A round of the constructor's loop.
pub make_thread : Threads → Option Threads
make_thread v =
    if ltb 0 v.to_make
    then some (record v { to_make = v.to_make - 1; workers = v.workers ++ starting ∷ [] })
    else none

-- What the constructor does after its loop.
pub finish_construction : Threads → Option Threads
finish_construction v =
    if ltb 0 v.to_make || v.constructed
    then none
    else some (record v { server = do_accept v.server; constructed = true })

pub stop : Threads → Option Threads
stop v =
    if v.constructed
    then some (record v { server = record v.server { acceptor_open = false }; stopped = true })
    else none

-- The end of `stop`: all threads are joined.
pub join : Threads → Option Threads
join v = if v.stopped && all_ended v.workers then some (record v { workers = [] }) else none

-- A session has something under way in asio.
is_some : {A : Type 0} → Option A → Bool
is_some none = false
is_some (some a) = true

is_nonempty : {A : Type 0} → List A → Bool
is_nonempty [] = false
is_nonempty (x ∷ xs) = true

pub is_busy : Session → Bool
unfolding is_some is_nonempty
is_busy s = is_some s.reading || is_some s.writing || is_nonempty s.posted

any_busy : Dict (List ℕ) Session → Bool
unfolding is_busy
any_busy [] = false
any_busy ((id, s) ∷ sessions) = is_busy s || any_busy sessions

-- `io_context_` has something to do.
pub has_work : Threads → Bool
unfolding any_busy
has_work v = not v.stopped && (v.server.accepting || any_busy v.server.sessions)

-- The threads after the step of one; a `run` that finds no work stops the context.
pub turned : Threads → Option (List Worker) → Option Threads
turned v none = none
turned v (some workers) = some (record v { workers = workers; stopped = not (has_work v) })

pub outcome : Threads → Outcome → Threads
outcome v (continues server) = record v { server = server }
outcome v (throws server) = record v { server = server; terminated = true }

pub data Event : Type 0 where
  makes_thread : Event
  finishes_construction : Event
  -- the thread of that number enters or leaves `run`
  turns : ℕ → Event
  -- a thread calls the handler of `async_accept`
  accepts : (time : List ℕ) → (accepted : Bool) → Event
  -- a thread calls a handler of the session of that id, which leaves it so
  changes : List ℕ → Session → Event
  calls_stop : Event
  joins : Event

-- A handler can be called.
abbrev pub is_served : Threads → Bool
is_served v = any_running v.workers && not v.stopped && not v.terminated

module _ (protocols : ProtocolFactory) (memory : List ℕ) where
  pub step : Event → Threads → Option Threads
  unfolding make_thread finish_construction turned has_work outcome stop join
  step makes_thread v = make_thread v
  step finishes_construction v = finish_construction v
  step (turns n) v = turned v (turn_at n (has_work v) v.workers)
  step (accepts time accepted) v =
      if is_served v && v.server.accepting
      then some (outcome v (handle_accept protocols memory time accepted v.server))
      else none
  step (changes id s) v =
      if is_served v
      then some (record v { server = record v.server { sessions = insert id s v.server.sessions } })
      else none
  step calls_stop v = stop v
  step joins v = join v

  pub run : List Event → Threads → Option Threads
  unfolding step
  run = runs step
