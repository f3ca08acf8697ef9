-- ===== src/UdpClient/Asleep.antt =====
-- udp-asio-1.28/include/udp_client.hpp, `UdpClient`: when its thread waits.
use asio_client.Common.{
  runs-keeps_any, All, ℕ, ◌≡◌, refl, ap, subst, Bool, true, false, none, some, List, [], ◌∷◌, ◌++◌,
  arith,
}
use asio_client.UdpClient.{
  UdpClient, Worker, Outcome, absent, entering, dozing, asleep, taking, sending, finished, throws,
  fails, goes_out, is_empty, start, stop_running, notify, notify_all, is_unlocked, join, enter,
  sleep, pop, take_message, async_send_data, send_out,
}
use asio_client.UdpClient.Steps.{
  start_lem, send_lem, join_lem, enter_lem, sleep_lem, take_message_lem, send_out_lem,
}
use asio_client.UdpClient.Runs.{
  Event, calls_start, calls_send, stops_running, notifies_all, joins, enters, falls_asleep,
  wakes_up, takes, sends_out, step, run, run_next,
}

-- The thread waits, or is about to.
abbrev pub rests : Worker → Bool
rests absent = false
rests entering = false
rests dozing = true
rests asleep = true
rests taking = false
rests (sending msg) = false
rests finished = false

abbrev pub IsAwake : UdpClient → Type 0
IsAwake c = rests c.worker ≡ true → c.msg_queue ≡ []

notify-rests : (w : Worker) → is_unlocked w ≡ true → rests (notify w) ≡ false
unfolding notify is_unlocked
notify-rests absent h = refl
notify-rests entering h = refl
notify-rests dozing h = cc
notify-rests asleep h = refl
notify-rests taking h = refl
notify-rests (sending msg) h = refl
notify-rests finished h = refl

notified_rests : (w : Worker) → rests (notify w) ≡ true → rests w ≡ true
unfolding notify
notified_rests absent h = h
notified_rests entering h = h
notified_rests dozing h = h
notified_rests asleep h = refl
notified_rests taking h = h
notified_rests (sending msg) h = h
notified_rests finished h = h

pop-rests : (msgs : List (List ℕ)) (c : UdpClient) → rests (pop msgs c).worker ≡ false
unfolding pop
pop-rests [] c = refl
pop-rests ([] ∷ msgs) c = refl
pop-rests ((x ∷ xs) ∷ msgs) c = refl

sent_out-rests :
    (o : Outcome) (msg : List ℕ) (c : UdpClient) → (async_send_data o msg c).worker ≡ c.worker
unfolding async_send_data
sent_out-rests throws msg c = refl
sent_out-rests fails msg c = refl
sent_out-rests goes_out msg c = refl

step-IsAwake : (e : Event) (c u : UdpClient) → IsAwake c → step e c ≡ some u → IsAwake u
unfolding step stop_running notify_all
step-IsAwake calls_start c u h e = ground (arith, start_lem c u e)
step-IsAwake (calls_send msg) c u h e =
    let (unlocked, q) = send_lem msg c u e in ground (arith, notify-rests c.worker unlocked)
step-IsAwake stops_running c u h e = ground arith
step-IsAwake notifies_all c u h e = ground (arith, notified_rests c.worker)
step-IsAwake joins c u h e = ground (arith, join_lem c u e)
step-IsAwake enters c u h e = ground (arith, enter_lem c u e)
step-IsAwake falls_asleep c u h e = ground (arith, sleep_lem c u e)
step-IsAwake wakes_up c u h e = ground (arith, notified_rests c.worker)
step-IsAwake takes c u h e = ground (arith, take_message_lem c u e, pop-rests c.msg_queue c)
step-IsAwake (sends_out outcome) c u h e =
    let (msg, p, q) = send_out_lem outcome c u e in
    ground (
      arith,
      sent_out-rests outcome msg (record c { worker = entering; tried = c.tried ++ msg ∷ [] }),
    )

-- No `send` is missed: whatever the threads do, in any order, the thread of the client waits, or is
-- about to, only while the queue is empty, if this was so before.
pub run-IsAwake : (es : List Event) (c u : UdpClient) → IsAwake c → run es c ≡ some u → IsAwake u
unfolding run
run-IsAwake = runs-keeps_any step IsAwake step-IsAwake

-- Every event but a wake-up of the thread by a `send`, a `notify_all` or by itself.
abbrev pub IsQuiet : Event → Type 0
IsQuiet calls_start = Unit {0}
IsQuiet (calls_send msg) = ⊥
IsQuiet stops_running = Unit {0}
IsQuiet notifies_all = ⊥
IsQuiet joins = Unit {0}
IsQuiet enters = Unit {0}
IsQuiet falls_asleep = Unit {0}
IsQuiet wakes_up = ⊥
IsQuiet takes = Unit {0}
IsQuiet (sends_out outcome) = Unit {0}

-- The client of which `stop` has cleared `run_`, and whose thread waits.
abbrev pub left_asleep : UdpClient → UdpClient
left_asleep c = record c { is_running = false; worker = asleep }

step-left_asleep :
    (e : Event) (c u : UdpClient) → IsQuiet e → step e (left_asleep c) ≡ some u → u ≡ left_asleep c
unfolding step start stop_running join enter sleep take_message send_out
step-left_asleep calls_start c u q e = cc
step-left_asleep (calls_send msg) c u q e = elim q [ ]
step-left_asleep stops_running c u q e = ground arith
step-left_asleep notifies_all c u q e = elim q [ ]
step-left_asleep joins c u q e = cc
step-left_asleep enters c u q e = cc
step-left_asleep falls_asleep c u q e = cc
step-left_asleep wakes_up c u q e = elim q [ ]
step-left_asleep takes c u q e = cc
step-left_asleep (sends_out outcome) c u q e = cc

run-left_asleep :
    (es : List Event) (c u : UdpClient)
    → All IsQuiet es
    → run es (left_asleep c) ≡ some u
    → u ≡ left_asleep c
unfolding run
run-left_asleep [] c u q e = ground arith
run-left_asleep (event ∷ es) c u q e =
    let (t, one, rest) = run_next event es (left_asleep c) u e in
    let same = step-left_asleep event c t q.0 one in
    run-left_asleep es c u q.1 (subst (λ s. run es s ≡ some u) same rest)

-- The wake-up of a `stop` can be missed. From a running client with an empty queue whose thread is
-- about to test whether it is to wait, these steps can be made: the test fails, `stop` clears `run_`
-- and notifies, and then the thread waits. After that, whatever the threads do but a `send`, a further
-- notification or a spurious wake-up, the thread waits on and the `join` of `stop` does not return.
pub missed_stop :
    (es : List Event) (c u : UdpClient)
    → All IsQuiet es
    → c.worker ≡ entering
    → c.is_running ≡ true
    → c.msg_queue ≡ []
    → run es (left_asleep c) ≡ some u
    → (run (enters ∷ stops_running ∷ notifies_all ∷ falls_asleep ∷ []) c ≡ some (left_asleep c))
      × (u ≡ left_asleep c)
      × (step joins u ≡ none)
unfolding step run enter is_empty stop_running notify_all notify sleep join
missed_stop es c u q w r m e =
    let same = run-left_asleep es c u q e in (ground arith, same, ap (λ s. step joins s) same)
