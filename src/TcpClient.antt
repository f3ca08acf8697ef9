-- ===== src/TcpClient.antt =====
-- asio-1.28/include/tcp_client.h and asio-1.28/src/tcp_client.cpp, `TcpClient`. The object is a record
-- of its members and of what it has under way in asio: the tasks posted, how many connects, reads and
-- waits are outstanding, the messages handed to `async_write`, those whose write has completed, and
-- the calls of the two callbacks, which do not call the client back. `none` is undefined behaviour.
-- What the address in `connect_cb_` is, and what the operations on the socket do besides ending the
-- outstanding operations, is left out.
pub mod Runs
pub mod Order
pub mod Alive
pub mod Stalls
pub mod Leftovers
mod Tests
use asio_client.Common.{
  ℕ, ◌+◌, Bool, true, false, Option, none, some, List, [], ◌∷◌, ◌++◌, ltb, ◌==◌, if◌then◌else◌,
  is_empty, length, ◌>>=◌,
}

pub data ConnectStatus : Type 0 where
  err connecting connected disconnect : ConnectStatus

-- What `asio::post` was given: by `send` or by `doSendRemain`.
pub data Task : Type 0 where
  sends : List ℕ → Task
  sends_remaining : Task

pub record TcpClient : Type 0 where
  pub send_msgs : List (List ℕ)
  pub has_recv_cb : Bool
  pub has_connect_cb : Bool
  pub reconnect : Bool
  pub is_connected : ConnectStatus
  pub posted : List Task
  pub pending_connects : ℕ
  pub pending_reads : ℕ
  pub pending_waits : ℕ
  pub pending_writes : List (List ℕ)
  pub written : List (List ℕ)
  pub received : List (List ℕ)
  pub notified : List ConnectStatus

pub init : TcpClient
init = record {
  send_msgs = [];
  has_recv_cb = false;
  has_connect_cb = false;
  reconnect = false;
  is_connected = disconnect;
  posted = [];
  pending_connects = 0;
  pending_reads = 0;
  pending_waits = 0;
  pending_writes = [];
  written = [];
  received = [];
  notified = [];
}

pub is_ready : ConnectStatus → Bool
is_ready err = false
is_ready connecting = false
is_ready connected = true
is_ready disconnect = false

pub set_recv_cb : Bool → TcpClient → TcpClient
set_recv_cb given c = record c { has_recv_cb = given }

pub set_connect_cb : Bool → TcpClient → TcpClient
set_connect_cb given c = record c { has_connect_cb = given }

pub do_connect : TcpClient → TcpClient
do_connect c = record c { is_connected = connecting; pending_connects = c.pending_connects + 1 }

pub connect : Bool → TcpClient → TcpClient
unfolding do_connect
connect reconnect c = do_connect (record c { reconnect = reconnect })

-- `cancel` throws if the socket is not open, after the two members are set.
pub close : TcpClient → TcpClient
close c = record c { reconnect = false; is_connected = disconnect }

pub send : List ℕ → TcpClient → Bool × TcpClient
unfolding is_ready
send msg c =
    if is_ready c.is_connected
    then (true, record c { posted = c.posted ++ sends msg ∷ [] })
    else (false, c)

pub clear_send_msgs : TcpClient → TcpClient
clear_send_msgs c = record c { send_msgs = [] }

pub do_reconnect : TcpClient → TcpClient
unfolding clear_send_msgs
do_reconnect c =
    let c' = clear_send_msgs (record c { is_connected = disconnect }) in
    if c'.reconnect then record c' { pending_waits = c'.pending_waits + 1 } else c'

pub do_connect_cb : ConnectStatus → TcpClient → TcpClient
unfolding is_ready
do_connect_cb status c = record c {
  is_connected = if is_ready status then connected else disconnect;
  notified = if c.has_connect_cb then c.notified ++ status ∷ [] else c.notified;
}

pub do_recv : TcpClient → TcpClient
do_recv c = record c { pending_reads = c.pending_reads + 1 }

write_front : List (List ℕ) → TcpClient → Option TcpClient
write_front [] c = none
write_front (msg ∷ msgs) c = some (record c { pending_writes = c.pending_writes ++ msg ∷ [] })

-- Hands `send_msgs_.front()` to `async_write`; there has to be a front.
pub do_send : TcpClient → Option TcpClient
unfolding write_front
do_send c = write_front c.send_msgs c

pub do_send_remain : TcpClient → TcpClient
do_send_remain c = record c { posted = c.posted ++ sends_remaining ∷ [] }

-- A task that `asio::post` was given.
pub run_task : Task → TcpClient → Option TcpClient
unfolding do_send
run_task (sends msg) c =
    let c' = record c { send_msgs = c.send_msgs ++ msg ∷ [] } in
    if is_empty c.send_msgs then do_send c' else some c'
run_task sends_remaining c = if is_empty c.send_msgs then do_send c else some c

-- The completion of `async_connect` with an error value.
pub handle_connect : ℕ → TcpClient → TcpClient
unfolding do_connect_cb do_recv do_reconnect
handle_connect value c =
    if value == 0 then do_recv (do_connect_cb connected c) else do_reconnect (do_connect_cb err c)

-- The completion of the wait for `reconnect_interval`, unless it was cancelled.
pub handle_wait : TcpClient → TcpClient
unfolding do_connect
handle_wait c = do_connect c

-- The completion of a read, with no error.
pub handle_read : List ℕ → TcpClient → TcpClient
unfolding do_recv
handle_read bytes c =
    if ltb 0 (length bytes)
    then do_recv
        (record c { received = if c.has_recv_cb then c.received ++ bytes ∷ [] else c.received })
    else do_recv c

-- The completion of a read with an error value; 2 is the end of the stream.
pub handle_read_error : ℕ → TcpClient → TcpClient
unfolding do_connect_cb do_reconnect
handle_read_error value c =
    if value == 2
    then do_reconnect (do_connect_cb disconnect c)
    else do_reconnect (do_connect_cb err c)

pop_front : List (List ℕ) → TcpClient → Option TcpClient
pop_front [] c = none
pop_front (msg ∷ msgs) c = some (record c { send_msgs = msgs })

-- The completion of a write.
pub handle_write : TcpClient → Option TcpClient
unfolding pop_front do_send
handle_write c = do
  c' ← pop_front c.send_msgs c
  if is_empty c'.send_msgs then some c' else do_send c'

pub handle_write_error : TcpClient → TcpClient
unfolding do_connect_cb
handle_write_error c = do_connect_cb err c
