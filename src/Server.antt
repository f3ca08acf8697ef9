-- ===== src/Server.antt =====
-- asio-1.28_server_multi_protocol/src/test.cpp, `SessionIdGenerator` and `Server`: what the accept
-- handler does. A local time enters as the text that `put_time` makes of it, and the memory of a new
-- session's read buffer as an argument.
pub mod Accept
pub mod Threads
mod Tests
use asio_client.Common.{
  ℕ, ◌+◌, ◌%◌, ◌^◌, Bool, true, false, Option, none, some, List, [], ◌∷◌, ◌++◌, Dict, bytes_eq,
  insert, codes, padded, if◌then◌else◌,
}
use asio_client.Protocol.Factory.{ProtocolFactory}
use asio_client.Session.{Session, DataHandler}
use asio_client.Session

pub record Server : Type 0 where
  pub handler : Option DataHandler
  pub sessions : Dict (List ℕ) Session
  -- `SessionIdGenerator`'s counter
  pub counter : ℕ
  pub acceptor_open : Bool
  -- an `async_accept` is outstanding
  pub accepting : Bool

-- The id that `generate` makes at the value `n` of the counter.
unfoldable pub session_id : (n : ℕ) (time : List ℕ) → List ℕ
session_id n time = codes "SESS-" ++ (time ++ (codes "-" ++ padded 6 n))

pub do_accept : Server → Server
do_accept v = record v { accepting = true }

-- An exception that leaves a handler leaves `io_context::run` and its thread, which ends the program.
pub data Outcome : Type 0 where
  continues : Server → Outcome
  throws : Server → Outcome

-- `if (acceptor_.is_open()) do_accept();`
accept_again : Server → Outcome
unfolding do_accept
accept_again v = continues (if v.acceptor_open then do_accept v else v)

store : List ℕ → Option Session → Server → Outcome
unfolding accept_again
store id none v = throws v
store id (some session) v =
    accept_again (record v { sessions = insert id (Session.start session) v.sessions })

-- The completion of `async_accept`: with a socket, or with an error.
pub handle_accept : ProtocolFactory → (memory time : List ℕ) → (accepted : Bool) → Server → Outcome
unfolding store accept_again session_id
handle_accept protocols memory time accepted v =
    let id = session_id v.counter time in
    if accepted
    then store id (Session.init protocols memory v.handler id "detect")
        (record v { accepting = false; counter = (v.counter + 1) % 2 ^ 64 })
    else accept_again (record v { accepting = false })
