-- ===== src/UdpClient/Tests.antt =====
-- Runs of a client, and the theorems at inputs that meet their hypotheses.
use asio_client.Common.{◌+◌, ◌≡◌, ◌⊎◌, refl, true, false, none, some, List, [], ◌∷◌, ◌++◌, arith}
use asio_client.UdpClient.{
  UdpClient, absent, entering, sending, fails, goes_out, init, is_empty, start, send, stop_running,
  notify, notify_all, is_unlocked, join, enter, sleep, pop, take_message, async_send_data, send_out,
}
use asio_client.UdpClient.Runs.{
  Event, calls_start, calls_send, stops_running, notifies_all, joins, enters, falls_asleep, takes,
  sends_out, step, run,
}
use asio_client.UdpClient.Order.{left, given, non_empty, run-all}
use asio_client.UdpClient.Stop.{IsStopping, ahead, moves, is_move, run-IsStopping}
use asio_client.UdpClient.Asleep.{left_asleep, missed_stop}
use asio_client.UdpClient.Drained.{turns, awake, turns-awake}

-- A client that was started, whose thread waits; a message and an empty one are sent.
abbrev two_sends : List Event
two_sends =
    calls_start
    ∷ enters
    ∷ falls_asleep
    ∷ calls_send (1 ∷ [])
    ∷ calls_send []
    ∷ calls_send (2 ∷ [])
    ∷ enters
    ∷ takes
    ∷ sends_out goes_out
    ∷ enters
    ∷ takes
    ∷ []

abbrev after_two : UdpClient
after_two = record {
  is_running = true;
  msg_queue = (2 ∷ []) ∷ [];
  worker = entering;
  tried = (1 ∷ []) ∷ [];
  sent = (1 ∷ []) ∷ [];
}

two_sends-run : run two_sends init ≡ some after_two
unfolding run step start enter is_empty sleep send is_unlocked notify take_message pop send_out
    async_send_data init
two_sends-run = refl

run-all_example :
    after_two.tried ++ left after_two ≡ (init.tried ++ left init) ++ non_empty (given two_sends)
run-all_example = run-all two_sends init after_two two_sends-run

-- `stop` comes while the thread sends the first message; the second stays in the queue.
abbrev stopping : UdpClient
stopping = record after_two { is_running = false; worker = sending (1 ∷ []); tried = []; sent = [] }

abbrev stopped : UdpClient
stopped = record after_two { is_running = false; worker = absent; sent = [] }

abbrev ending : List Event
ending = notifies_all ∷ sends_out fails ∷ enters ∷ takes ∷ joins ∷ []

ending-run : run ending stopping ≡ some stopped
unfolding run step notify_all notify send_out async_send_data enter is_empty take_message join
ending-run = refl

run-IsStopping_example :
    IsStopping stopped
    × (ahead stopped.worker + moves ending ≡ ahead stopping.worker)
    × ((stopped.worker ≡ absent)
        ⊎ ((e : Event) × (t : UdpClient) × (is_move e ≡ true) × (step e stopped ≡ some t)))
    × (stopped.msg_queue ≡ (2 ∷ []) ∷ [])
run-IsStopping_example = run-IsStopping ending stopping stopped (omega arith) (refl, tt) ending-run

missed_stop_example :
    (run (enters ∷ stops_running ∷ notifies_all ∷ falls_asleep ∷ []) (awake [] [] [])
      ≡ some (left_asleep (awake [] [] [])))
    × (left_asleep (awake [] [] []) ≡ left_asleep (awake [] [] []))
    × (step joins (left_asleep (awake [] [] [])) ≡ none)
unfolding run step stop_running
missed_stop_example =
    missed_stop (stops_running ∷ []) (awake [] [] []) (left_asleep (awake [] [] [])) (tt, tt) refl
      refl refl refl

turns-awake_example :
    run (turns ((1 ∷ []) ∷ [] ∷ (2 ∷ []) ∷ [])) (awake ((1 ∷ []) ∷ [] ∷ (2 ∷ []) ∷ []) [] [])
    ≡ some (awake [] ((1 ∷ []) ∷ (2 ∷ []) ∷ []) ((1 ∷ []) ∷ (2 ∷ []) ∷ []))
turns-awake_example = turns-awake ((1 ∷ []) ∷ [] ∷ (2 ∷ []) ∷ []) [] []
