-- ===== src/ServerMulti/Server.antt =====
-- asio-1.28_server_multi/src/test.cpp, `SessionIdGenerator` and `Server`. The server keeps its sessions in
-- the order in which they came, and the number of the `io_context` of each. The time is an argument.
-- `none` is undefined behaviour.
pub mod Runs
pub mod Spread
pub mod Counts
pub mod Kept
pub mod Ids
mod Tests
use asio_client.Common.{
  ℕ, ◌+◌, Bool, true, false, Option, none, some, List, [], ◌∷◌, ◌++◌, if◌then◌else◌, ◌>>=◌, codes,
  to_string, add_size,
}
use asio_client.ServerMulti.Pool.{IoContextPool, get_next_io_context}
use asio_client.ServerMulti.Pool
use asio_client.ServerMulti.Session.{DataHandler, Session}
use asio_client.ServerMulti.Session

pub record Server (H : Type 0) : Type 0 where
  pub handler : H
  pub pool : IoContextPool
  pub sessions : List Session
  pub contexts : List ℕ
  -- the counter of `SessionIdGenerator`
  pub counter : ℕ
  pub acceptor_open : Bool
  -- `main_io_ctx_` is stopped
  pub stopped : Bool
  -- an `async_accept` is outstanding
  pub accepting : Bool

-- The id that `generate` makes at the value `n` of the counter.
pub session_id : (n time : ℕ) → List ℕ
session_id n time = codes "SESS-" ++ (to_string n ++ (codes "-" ++ to_string time))

module _ {H : Type 0} where
  pub do_accept : Server H → Server H
  do_accept v = record v { accepting = true }

  -- The constructor, at the values of the counter and of `hardware_concurrency`.
  pub init : H → (thread_pool_size hardware_concurrency counter : ℕ) → Server H
  unfolding do_accept
  init handler thread_pool_size hardware_concurrency counter = do_accept (record {
    handler = handler;
    pool = Pool.init (Pool.pool_size thread_pool_size hardware_concurrency);
    sessions = [];
    contexts = [];
    counter = counter;
    acceptor_open = true;
    stopped = false;
    accepting = false;
  })

  -- Closes the acceptor and stops `main_io_ctx_`; the threads of the pool go on as long as they have work.
  unfoldable pub stop : Server H → Server H
  stop v = record v { acceptor_open = false; stopped = true }

  -- `if (acceptor_.is_open()) do_accept();`
  pub accept_again : Server H → Server H
  unfolding do_accept
  accept_again v = if v.acceptor_open then do_accept v else v

  module _ (handler : DataHandler H) where
    -- A new session, with the `io_context` that it gets.
    pub serve : (time : ℕ) → ℕ × IoContextPool → Server H → Server H
    unfolding session_id
    serve time (ctx, pool) v =
        let (s, h) = Session.start handler (Session.init (session_id v.counter time)) v.handler in
        record v {
          handler = h;
          pool = pool;
          sessions = v.sessions ++ s ∷ [];
          contexts = v.contexts ++ ctx ∷ [];
          counter = add_size v.counter 1;
        }

    -- The completion of `async_accept` with a socket.
    pub handle_accept : (time : ℕ) → Server H → Option (Server H)
    unfolding serve accept_again
    handle_accept time v =
        get_next_io_context v.pool >>= λ next. some (accept_again (serve time next v))
