-- ===== src/TcpClient110.antt =====
-- asio-1.10/include/tcp_client.h and asio-1.10/src/tcp_client.cpp, `TcpClient`. The object is a record of
-- its members and of what it has under way in asio, as in TcpClient; a callback is whether it is set,
-- and how often it was called. `none` is undefined behaviour in a handler of the connection.
-- A timer that `timer_.reset` replaces lives on while it waits, and so stands in the list of timers,
-- whose first is `timer_`. What a connection that `conn_.reset` replaces still does is left out.
pub mod Runs
pub mod Alive
pub mod Timers
pub mod Unresolved
pub mod Delivery
pub mod Lost
mod Tests
use asio_client.Common.{
  ℕ, ◌+◌, ◌*◌, Bool, true, false, not, Option, none, some, List, [], ◌∷◌, ◌++◌, ltb, if◌then◌else◌,
  codes, to_string, add_u32,
}
use asio_client.AsioTimer
use asio_client.AsioTimer.{AsioTimer}
use asio_client.TcpConnection
use asio_client.TcpConnection.{TcpConnection, connected}

abbrev pub min_interval : ℕ
min_interval = 1 * 1000

abbrev pub max_interval : ℕ
max_interval = 3 * 1000

pub record TcpClient : Type 0 where
  pub conn : TcpConnection
  pub reconnect : Bool
  pub interval : ℕ
  pub timers : List AsioTimer
  pub has_connection_callback : Bool
  pub has_retrieve_callback : Bool
  pub conn_sequence : ℕ
  -- the messages of the `handleSending` that are posted
  pub posted : List (List ℕ)
  pub pending_resolves : ℕ
  pub pending_connects : ℕ
  -- the calls of `connection_callback_` by the client
  pub told : ℕ

-- `new TcpConnection(io_service_, "tcp_client#" + std::to_string(++conn_sequence))`
pub new_connection : (conn_sequence : ℕ) → TcpConnection
new_connection conn_sequence = TcpConnection.init (codes "tcp_client#" ++ to_string conn_sequence)

-- The constructor, at the value of the class's `conn_sequence`.
pub init : ℕ → TcpClient
unfolding new_connection
init conn_sequence = record {
  conn = new_connection (add_u32 conn_sequence 1);
  reconnect = false;
  interval = min_interval;
  timers = [];
  has_connection_callback = false;
  has_retrieve_callback = false;
  conn_sequence = add_u32 conn_sequence 1;
  posted = [];
  pending_resolves = 0;
  pending_connects = 0;
  told = 0;
}

pub set_connection_callback : Bool → TcpClient → TcpClient
set_connection_callback given c = record c { has_connection_callback = given }

pub set_receive_callback : Bool → TcpClient → TcpClient
set_receive_callback given c = record c { has_retrieve_callback = given }

pub connect_inter : TcpClient → TcpClient
connect_inter c = record c { pending_resolves = c.pending_resolves + 1 }

pub connect : Bool → TcpClient → TcpClient
unfolding connect_inter
connect reconnect c = connect_inter (record c { reconnect = reconnect })

pub close_client : TcpClient → TcpClient
close_client c = record c { reconnect = false; conn = TcpConnection.force_close c.conn }

pub send_message : List ℕ → TcpClient → TcpClient
send_message bytes c = record c { posted = c.posted ++ bytes ∷ [] }

pub handle_sending : List ℕ → TcpClient → TcpClient
handle_sending bytes c = record c { conn = TcpConnection.send_message bytes c.conn }

pub handle_resolver : (error : Bool) → TcpClient → TcpClient
handle_resolver error c =
    if error then c else record c { pending_connects = c.pending_connects + 1 }

-- `if (connection_callback_) connection_callback_(conn_);`
pub tell : TcpClient → TcpClient
tell c = if c.has_connection_callback then record c { told = c.told + 1 } else c

-- The completion of `async_connect`, with no error.
pub handle_connect : TcpClient → TcpClient
unfolding tell
handle_connect c =
    let conn = TcpConnection.set_conn_state connected c.conn in
    let conn' = TcpConnection.set_connection_callback c.has_connection_callback conn in
    let conn'' = TcpConnection.set_retrieve_callback c.has_retrieve_callback conn' in
    let conn''' = TcpConnection.set_close_callback c.has_connection_callback conn'' in
    tell (record c { conn = TcpConnection.start_receive conn''' })

pub start_timer : TcpClient → TcpClient
start_timer c =
    let timer = AsioTimer.init c.interval true in
    record c { timers = AsioTimer.start_timer (not (ltb c.interval max_interval)) timer ∷ c.timers }

-- Its completion with an error, and whether the iterator that it is given is the end.
pub handle_connect_error : (at_end : Bool) → TcpClient → TcpClient
unfolding tell new_connection start_timer
handle_connect_error at_end c =
    let t = tell c in
    let sequence = add_u32 t.conn_sequence 1 in
    let c' = record t { conn = new_connection sequence; conn_sequence = sequence } in
    if not at_end
    then record c' { pending_connects = c'.pending_connects + 1 }
    else if c'.reconnect
    then start_timer c'
    else c'
