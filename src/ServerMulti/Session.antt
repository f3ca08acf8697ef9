-- ===== src/ServerMulti/Session.antt =====
-- asio-1.28_server_multi/src/test.cpp, `DataHandler`, `EchoHandler` and `Session`. A session is a record of
-- its members and of what it has under way in asio; the state of its handler, which the sessions share,
-- is passed along. `none` is undefined behaviour.
pub mod Runs
pub mod Order
pub mod Counts
pub mod Reading
pub mod Ids
pub mod Active
mod Tests
use asio_client.Common.{
  ℕ, ◌+◌, ◌-◌, Bool, true, false, Option, none, some, List, [], ◌∷◌, ◌++◌, length, ltb, leb, ◌&&◌,
  if◌then◌else◌, ◌>>=◌, codes,
}
use asio_client.ServerMulti.Statistics
use asio_client.ServerMulti.Statistics.{StatisticsHandler}

-- The operations of a handler with the state `H`. The endpoint, the thread and the reason are left out:
-- handlers at most print them.
pub record DataHandler (H : Type 0) : Type 0 where
  pub process : (bytes session_id : List ℕ) → H → List ℕ × H
  pub on_session_created : List ℕ → H → H
  pub on_session_closed : List ℕ → H → H

abbrev pub statistics_handler : DataHandler StatisticsHandler
statistics_handler = record {
  process = Statistics.process;
  on_session_created = Statistics.on_session_created;
  on_session_closed = Statistics.on_session_closed;
}

-- `EchoHandler`, which has no state.
abbrev pub echo_handler : DataHandler (Unit {0})
echo_handler = record {
  process = λ bytes session_id h. (codes "Echo: " ++ bytes, h);
  on_session_created = λ session_id h. h;
  on_session_closed = λ session_id h. h;
}

-- What `asio::post` was given.
pub data Task : Type 0 where
  reads : Task
  writes : List ℕ → Task

pub record Session : Type 0 where
  pub session_id : List ℕ
  pub write_queue : List (List ℕ)
  pub is_open : Bool
  pub posted : List Task
  pub pending_reads : ℕ
  pub pending_writes : List (List ℕ)
  -- the messages that the client was sent
  pub written : List (List ℕ)

unfoldable pub init : List ℕ → Session
init session_id = record {
  session_id = session_id;
  write_queue = [];
  is_open = true;
  posted = [];
  pending_reads = 0;
  pending_writes = [];
  written = [];
}

-- The size of `data_`.
abbrev pub data_size : ℕ
data_size = 1024

unfoldable pub safe_write : List ℕ → Session → Session
safe_write bytes s = record s { posted = s.posted ++ writes bytes ∷ [] }

unfoldable pub do_read : Session → Session
do_read s = record s { pending_reads = s.pending_reads + 1 }

-- `none`: the front of an empty queue.
pub write_front : List (List ℕ) → Session → Option Session
write_front [] s = none
write_front (bytes ∷ queue) s = some (record s { pending_writes = s.pending_writes ++ bytes ∷ [] })

pub do_write : Session → Option Session
unfolding write_front
do_write s = write_front s.write_queue s

pub is_empty : List (List ℕ) → Bool
is_empty [] = true
is_empty (bytes ∷ queue) = false

pub run_task : Task → Session → Option Session
unfolding do_read is_empty do_write
run_task reads s = some (do_read s)
run_task (writes bytes) s =
    let s' = record s { write_queue = s.write_queue ++ bytes ∷ [] } in
    if is_empty s.write_queue then do_write s' else some s'

-- `none`: `pop_front` of an empty queue.
pub pop_front : List (List ℕ) → Session → Option Session
pop_front [] s = none
pop_front (bytes ∷ queue) s = some (record s { write_queue = queue })

-- The completion of a write, with no error.
pub handle_write : Session → Option Session
unfolding pop_front is_empty do_write
handle_write s =
    pop_front s.write_queue s >>= λ s'. if is_empty s'.write_queue then some s' else do_write s'

module _ {H : Type 0} (handler : DataHandler H) where
  unfoldable pub start : Session → H → Session × H
  start s h =
      (record s { posted = s.posted ++ reads ∷ [] }, handler.on_session_created s.session_id h)

  -- The completion of a read, with no error.
  unfoldable pub handle_read : List ℕ → Session → H → Session × H
  unfolding safe_write do_read
  handle_read bytes s h =
      let (response, h') = handler.process bytes s.session_id h in
      (do_read (safe_write response s), h')

  -- Its completion with the end of the stream or another error.
  unfoldable pub handle_read_error : Session → H → Session × H
  handle_read_error s h = (s, handler.on_session_closed s.session_id h)

  pub handle_write_error : Session → H → Session × H
  handle_write_error s h =
      (record s { write_queue = []; is_open = false }, handler.on_session_closed s.session_id h)

  -- The destructor.
  pub destroy : Session → H → H
  destroy s h = handler.on_session_closed s.session_id h
