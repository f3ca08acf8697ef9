-- ===== src/EchoServer.antt =====
-- asio-1.28_server_single/src/test.cpp, `Session` and `Server`. A session is a record of its buffer and of
-- what it has under way in asio, with the bytes that it has received and those that the client was
-- sent. A write reads `data_` while it is under way. `none` is undefined behaviour.
pub mod Echoed
mod Tests
use asio_client.Common.{
  runs, ℕ, ◌+◌, ◌-◌, Bool, true, false, Option, none, some, List, [], ◌∷◌, ◌++◌, length, ltb, leb,
  ◌&&◌, ◌==◌, if◌then◌else◌, ◌>>=◌, copy_in, slice,
}

-- A write of the first `count` bytes of `data_`, of which `done` are sent.
pub record Write : Type 0 where
  pub count : ℕ
  pub done : ℕ

pub record Session : Type 0 where
  pub bytes : List ℕ
  pub pending_reads : ℕ
  pub pending_writes : List Write
  pub received : List ℕ
  pub wire : List ℕ

-- The constructor, at the memory of `data_`.
pub init : List ℕ → Session
init memory = record {
  bytes = memory;
  pending_reads = 0;
  pending_writes = [];
  received = [];
  wire = [];
}

pub do_read : Session → Session
do_read s = record s { pending_reads = s.pending_reads + 1 }

pub start : Session → Session
unfolding do_read
start s = do_read s

pub do_write : ℕ → Session → Session
do_write n s = record s {
  pending_writes = s.pending_writes ++ (let w : Write = record { count = n; done = 0 } in w) ∷ [];
}

-- The completion of a read, with no error: the socket has put `received` into `data_`.
pub handle_read : List ℕ → Session → Option Session
unfolding do_write
handle_read received s = copy_in s.bytes 0 received >>= λ bytes.
    some
      (do_write (length received) (record s { bytes = bytes; received = s.received ++ received }))

-- The completion of a write, with no error. An error of either ends the session.
pub handle_write : Session → Session
unfolding do_read
handle_write s = do_read s

-- What can happen to a session. An event that cannot happen changes nothing.
pub data Event : Type 0 where
  receives : List ℕ → Event
  fails_to_read : Event
  -- the socket takes so many bytes of the write
  transfers : ℕ → Event
  completes : Event
  fails_to_write : Event

pub transfer : ℕ → List Write → Session → Option Session
transfer n [] s = some s
transfer n (w ∷ ws) s =
    if leb (w.done + n) w.count
    then (slice s.bytes w.done n >>= λ sent.
        some (record s {
          pending_writes = record w { done = w.done + n } ∷ ws;
          wire = s.wire ++ sent;
        }))
    else some s

pub complete : List Write → Session → Session
unfolding handle_write
complete [] s = s
complete (w ∷ ws) s =
    if w.done == w.count then handle_write (record s { pending_writes = ws }) else s

pub drop_write : List Write → Session → Session
drop_write [] s = s
drop_write (w ∷ ws) s = record s { pending_writes = ws }

abbrev pub can_read : List ℕ → Session → Bool
can_read received s = ltb 0 s.pending_reads && leb (length received) (length s.bytes)

pub step : Event → Session → Option Session
unfolding handle_read transfer complete drop_write
step (receives received) s =
    if can_read received s
    then handle_read received (record s { pending_reads = s.pending_reads - 1 })
    else some s
step fails_to_read s =
    some (if ltb 0 s.pending_reads then record s { pending_reads = s.pending_reads - 1 } else s)
step (transfers n) s = transfer n s.pending_writes s
step completes s = some (complete s.pending_writes s)
step fails_to_write s = some (drop_write s.pending_writes s)

pub run : List Event → Session → Option Session
unfolding step
run = runs step

-- The sessions, in the order in which they came, and the `async_accept` that are outstanding.
pub record Server : Type 0 where
  pub sessions : List Session
  pub accepting : ℕ

pub do_accept : Server → Server
do_accept v = record v { accepting = v.accepting + 1 }

-- The completion of `async_accept`, with a socket or with an error.
pub handle_accept : (memory : List ℕ) → (accepted : Bool) → Server → Server
unfolding do_accept
handle_accept memory accepted v =
    do_accept
      (if accepted then record v { sessions = v.sessions ++ start (init memory) ∷ [] } else v)
