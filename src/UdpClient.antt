-- ===== src/UdpClient.antt =====
-- udp-asio-1.28/include/udp_client.hpp, `UdpClient` and its `Session`: the members, where the thread
-- of the client stands, and what became of the messages. Each operation is cut into the steps between
-- which other threads can run: what is done under `mtx_` is one step, the test of `cv_.wait` and the
-- wait that follows are two, and so are the lines of `stop`. `none`: the step cannot be made now, since
-- the thread stands elsewhere or `mtx_` is locked, or it ends the program.
pub mod Runs
pub mod Steps
pub mod Order
pub mod Stop
pub mod Asleep
pub mod Drained
mod Tests
use asio_client.Common.{
  ℕ, Bool, true, false, not, ◌||◌, Option, none, some, List, [], ◌∷◌, ◌++◌, if◌then◌else◌,
}

-- Where the thread is.
pub data Worker : Type 0 where
  -- `t_` is not joinable
  absent : Worker
  -- before `mtx_` is locked, also after a wake-up
  entering : Worker
  -- the test of `cv_.wait` has failed, and `mtx_` is still locked
  dozing : Worker
  asleep : Worker
  -- the test has held, and `mtx_` is locked
  taking : Worker
  -- out of the locked block, with a message
  sending : List ℕ → Worker
  finished : Worker

-- What becomes of a message: the set-up of the socket throws, the completion has an error, or not.
pub data Outcome : Type 0 where
  throws : Outcome
  fails : Outcome
  goes_out : Outcome

pub record UdpClient : Type 0 where
  -- `run_`
  pub is_running : Bool
  pub msg_queue : List (List ℕ)
  pub worker : Worker
  -- the messages that the thread has set out to send, and those that went out
  pub tried : List (List ℕ)
  pub sent : List (List ℕ)

pub init : UdpClient
init = record { is_running = false; msg_queue = []; worker = absent; tried = []; sent = [] }

pub is_empty : {A : Type 0} → List A → Bool
is_empty [] = true
is_empty (x ∷ xs) = false

-- `t_` is assigned a new thread, which ends the program if it is joinable.
pub start : Worker → UdpClient → Option UdpClient
start absent c = some (record c { is_running = true; worker = entering })
start entering c = none
start dozing c = none
start asleep c = none
start taking c = none
start (sending msg) c = none
start finished c = none

-- `notify_one`, with one thread that can wait, and `notify_all`.
pub notify : Worker → Worker
notify absent = absent
notify entering = entering
notify dozing = dozing
notify asleep = entering
notify taking = taking
notify (sending msg) = sending msg
notify finished = finished

pub is_unlocked : Worker → Bool
is_unlocked absent = true
is_unlocked entering = true
is_unlocked dozing = false
is_unlocked asleep = true
is_unlocked taking = false
is_unlocked (sending msg) = true
is_unlocked finished = true

pub send : List ℕ → UdpClient → Option UdpClient
unfolding notify is_unlocked
send msg c =
    if is_unlocked c.worker
    then some (record c { msg_queue = c.msg_queue ++ msg ∷ []; worker = notify c.worker })
    else none

-- The lines of `stop`.
pub stop_running : UdpClient → UdpClient
stop_running c = record c { is_running = false }

pub notify_all : UdpClient → UdpClient
unfolding notify
notify_all c = record c { worker = notify c.worker }

pub join : Worker → UdpClient → Option UdpClient
join absent c = none
join entering c = none
join dozing c = none
join asleep c = none
join taking c = none
join (sending msg) c = none
join finished c = some (record c { worker = absent })

-- The thread locks `mtx_` and tests whether it is to wait.
pub enter : Worker → UdpClient → Option UdpClient
unfolding is_empty
enter absent c = none
enter entering c =
    if not (is_empty c.msg_queue) || not c.is_running
    then some (record c { worker = taking })
    else some (record c { worker = dozing })
enter dozing c = none
enter asleep c = none
enter taking c = none
enter (sending msg) c = none
enter finished c = none

-- It unlocks `mtx_` and waits.
pub sleep : Worker → UdpClient → Option UdpClient
sleep absent c = none
sleep entering c = none
sleep dozing c = some (record c { worker = asleep })
sleep asleep c = none
sleep taking c = none
sleep (sending msg) c = none
sleep finished c = none

-- The message is taken out of the queue, and an empty one is not sent.
pub pop : List (List ℕ) → UdpClient → UdpClient
pop [] c = record c { worker = entering }
pop ([] ∷ msgs) c = record c { msg_queue = msgs; worker = entering }
pop ((x ∷ xs) ∷ msgs) c = record c { msg_queue = msgs; worker = sending (x ∷ xs) }

-- The rest of the locked block.
pub take_message : Worker → UdpClient → Option UdpClient
unfolding pop
take_message absent c = none
take_message entering c = none
take_message dozing c = none
take_message asleep c = none
take_message taking c =
    if not c.is_running then some (record c { worker = finished }) else some (pop c.msg_queue c)
take_message (sending msg) c = none
take_message finished c = none

-- `Session::AsyncSendData` and its handler: an error is only reported.
pub async_send_data : Outcome → List ℕ → UdpClient → UdpClient
async_send_data throws msg c = c
async_send_data fails msg c = c
async_send_data goes_out msg c = record c { sent = c.sent ++ msg ∷ [] }

-- The message is sent by a session of its own; an exception is only reported.
pub send_out : Outcome → Worker → UdpClient → Option UdpClient
unfolding async_send_data
send_out outcome absent c = none
send_out outcome entering c = none
send_out outcome dozing c = none
send_out outcome asleep c = none
send_out outcome taking c = none
send_out outcome (sending msg) c =
    some (async_send_data outcome msg (record c { worker = entering; tried = c.tried ++ msg ∷ [] }))
send_out outcome finished c = none
