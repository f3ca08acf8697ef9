-- ===== src/AsyncClient.antt =====
-- asio-1.28_async_client/include/async_client.h and asio-1.28_async_client/src/async_client.cpp,
-- `AsyncClient`. The object is a record of its members and of what it has under way in asio, as in
-- TcpClient; a callback is whether it is set, and what it was called with. `none` is undefined
-- behaviour. `resolve`, which throws if it finds no endpoint, is left out.
pub mod Runs
pub mod Order
pub mod Stuck
pub mod Alive
mod Tests
use asio_client.Common.{
  ℕ, ◌+◌, Bool, true, false, Option, none, some, List, [], ◌∷◌, ◌++◌, if◌then◌else◌, is_empty,
  ◌>>=◌,
}

-- What `asio::post` was given: by `send` or by `close`.
pub data Task : Type 0 where
  sends : List ℕ → Task
  closes : Task

pub record AsyncClient : Type 0 where
  pub write_msgs : List (List ℕ)
  pub has_on_receive : Bool
  pub has_on_connected : Bool
  pub has_on_disconnected : Bool
  pub stop : Bool
  pub socket_open : Bool
  pub posted : List Task
  pub pending_connects : ℕ
  pub pending_reads : ℕ
  pub pending_waits : ℕ
  pub pending_writes : List (List ℕ)
  pub written : List (List ℕ)
  pub received : List (List ℕ)
  pub told_connected : ℕ
  pub told_disconnected : ℕ

pub init : AsyncClient
init = record {
  write_msgs = [];
  has_on_receive = false;
  has_on_connected = false;
  has_on_disconnected = false;
  stop = false;
  socket_open = false;
  posted = [];
  pending_connects = 0;
  pending_reads = 0;
  pending_waits = 0;
  pending_writes = [];
  written = [];
  received = [];
  told_connected = 0;
  told_disconnected = 0;
}

-- `async_connect` opens the socket.
pub connect : AsyncClient → AsyncClient
connect c = record c { pending_connects = c.pending_connects + 1; socket_open = true }

pub open_client : AsyncClient → AsyncClient
unfolding connect
open_client c = connect (record c { stop = true })

pub send : List ℕ → AsyncClient → AsyncClient
send msg c = record c { posted = c.posted ++ sends msg ∷ [] }

pub close : AsyncClient → AsyncClient
close c = record c { stop = false; posted = c.posted ++ closes ∷ [] }

pub set_on_receive : Bool → AsyncClient → AsyncClient
set_on_receive given c = record c { has_on_receive = given }

pub set_on_connected : Bool → AsyncClient → AsyncClient
set_on_connected given c = record c { has_on_connected = given }

pub set_on_disconnected : Bool → AsyncClient → AsyncClient
set_on_disconnected given c = record c { has_on_disconnected = given }

pub invoke_connected : AsyncClient → AsyncClient
invoke_connected c =
    if c.has_on_connected then record c { told_connected = c.told_connected + 1 } else c

pub invoke_disconnected : AsyncClient → AsyncClient
invoke_disconnected c =
    if c.has_on_disconnected then record c { told_disconnected = c.told_disconnected + 1 } else c

pub invoke_received : List ℕ → AsyncClient → AsyncClient
invoke_received msg c =
    if c.has_on_receive then record c { received = c.received ++ msg ∷ [] } else c

pub do_read : AsyncClient → AsyncClient
do_read c = record c { pending_reads = c.pending_reads + 1 }

write_front : List (List ℕ) → AsyncClient → Option AsyncClient
write_front [] c = none
write_front (msg ∷ msgs) c = some (record c { pending_writes = c.pending_writes ++ msg ∷ [] })

-- Hands a copy of `write_msgs_.front()` to `async_write`; there has to be a front.
pub do_write : AsyncClient → Option AsyncClient
unfolding write_front
do_write c = write_front c.write_msgs c

pub schedule_reconnect : AsyncClient → AsyncClient
schedule_reconnect c = if c.stop then record c { pending_waits = c.pending_waits + 1 } else c

-- A task that `asio::post` was given.
pub run_task : Task → AsyncClient → Option AsyncClient
unfolding do_write
run_task (sends msg) c =
    let c' = record c { write_msgs = c.write_msgs ++ msg ∷ [] } in
    if c.socket_open then (if is_empty c.write_msgs then do_write c' else some c') else some c
run_task closes c = some (record c { socket_open = false })

-- The completion of `async_connect`, with no error.
pub handle_connect : AsyncClient → AsyncClient
unfolding invoke_connected do_read
handle_connect c = do_read (invoke_connected c)

-- Its completion with an error, which leaves the socket open or not.
pub handle_connect_error : (left_open : Bool) → AsyncClient → AsyncClient
unfolding invoke_disconnected schedule_reconnect
handle_connect_error left_open c =
    schedule_reconnect (invoke_disconnected (record c { socket_open = left_open }))

pub handle_read : List ℕ → AsyncClient → AsyncClient
unfolding invoke_received do_read
handle_read bytes c = do_read (invoke_received bytes c)

-- The completion of a read or of a write with an error; the two handlers do the same.
pub handle_error : AsyncClient → AsyncClient
unfolding invoke_disconnected schedule_reconnect
handle_error c = schedule_reconnect (record (invoke_disconnected c) { socket_open = false })

pop_front : List (List ℕ) → AsyncClient → Option AsyncClient
pop_front [] c = none
pop_front (msg ∷ msgs) c = some (record c { write_msgs = msgs })

-- The completion of a write, with no error.
pub handle_write : AsyncClient → Option AsyncClient
unfolding pop_front do_write
handle_write c = do
  c' ← pop_front c.write_msgs c
  if is_empty c'.write_msgs then some c' else do_write c'

-- The end of the wait for 3 seconds, unless it was cancelled.
pub handle_wait : AsyncClient → AsyncClient
unfolding connect
handle_wait c = connect (record c { socket_open = false })
