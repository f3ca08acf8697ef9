-- ===== src/UdpClient/Runs.antt =====
-- udp-asio-1.28/include/udp_client.hpp, `UdpClient`: the steps of its thread and of the threads of its
-- users, in any order. `none`: the step cannot be made, or ends the program.
use asio_client.Common.{runs, runs_next, ℕ, ◌≡◌, Option, some, List, ◌∷◌}
use asio_client.UdpClient.{
  UdpClient, Outcome, start, send, stop_running, notify_all, join, enter, sleep, take_message,
  send_out,
}

pub data Event : Type 0 where
  calls_start : Event
  calls_send : List ℕ → Event
  -- the three lines of `stop`
  stops_running : Event
  notifies_all : Event
  joins : Event
  -- the steps of the thread, and a spurious wake-up
  enters : Event
  falls_asleep : Event
  wakes_up : Event
  takes : Event
  sends_out : Outcome → Event

unfoldable pub step : Event → UdpClient → Option UdpClient
unfolding start send stop_running notify_all join enter sleep take_message send_out
step calls_start c = start c.worker c
step (calls_send msg) c = send msg c
step stops_running c = some (stop_running c)
step notifies_all c = some (notify_all c)
step joins c = join c.worker c
step enters c = enter c.worker c
step falls_asleep c = sleep c.worker c
step wakes_up c = some (notify_all c)
step takes c = take_message c.worker c
step (sends_out outcome) c = send_out outcome c.worker c

unfoldable pub run : List Event → UdpClient → Option UdpClient
unfolding step
run = runs step

-- What a run that has got somewhere has passed.
pub run_next :
    (e : Event) (es : List Event) (c u : UdpClient)
    → run (e ∷ es) c ≡ some u
    → (t : UdpClient) × (step e c ≡ some t) × (run es t ≡ some u)
unfolding run
run_next = runs_next step
