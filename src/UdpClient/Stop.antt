-- ===== src/UdpClient/Stop.antt =====
-- udp-asio-1.28/include/udp_client.hpp, `UdpClient`: what a `stop` comes to.
use asio_client.Common.{
  All, ℕ, ◌+◌, ◌≡◌, ◌⊎◌, inl, inr, refl, sym, ap, subst, ◌∙◌, Bool, true, false, some, List, [],
  ◌∷◌, ◌++◌, append-nil, append_assoc, arith, if◌then◌else◌,
}
use asio_client.UdpClient.{
  UdpClient, Worker, Outcome, absent, entering, dozing, asleep, taking, sending, finished, throws,
  fails, goes_out, stop_running, notify, notify_all, join, enter, take_message, async_send_data,
  send_out,
}
use asio_client.UdpClient.Steps.{
  send_lem, join_lem, enter_lem, sleep_lem, take_message_lem, send_out_lem,
}
use asio_client.UdpClient.Runs.{
  Event, calls_start, calls_send, stops_running, notifies_all, joins, enters, falls_asleep,
  wakes_up, takes, sends_out, step, run, run_next,
}
use asio_client.UdpClient.Order.{given, given_cons}

-- The steps that a thread that does not wait has to make until it is joined.
abbrev pub ahead : Worker → ℕ
ahead absent = 0
ahead entering = 3
ahead dozing = 0
ahead asleep = 0
ahead taking = 2
ahead (sending msg) = 4
ahead finished = 1

-- The thread does not wait, and is not about to.
abbrev pub IsUp : Worker → Type 0
IsUp absent = Unit {0}
IsUp entering = Unit {0}
IsUp dozing = ⊥
IsUp asleep = ⊥
IsUp taking = Unit {0}
IsUp (sending msg) = Unit {0}
IsUp finished = Unit {0}

-- `stop` has cleared `run_`, and found the thread neither waiting nor about to.
abbrev pub IsStopping : UdpClient → Type 0
IsStopping c = (c.is_running ≡ false) × IsUp c.worker

-- Every event but a `start`.
abbrev pub IsOther : Event → Type 0
IsOther calls_start = ⊥
IsOther (calls_send msg) = Unit {0}
IsOther stops_running = Unit {0}
IsOther notifies_all = Unit {0}
IsOther joins = Unit {0}
IsOther enters = Unit {0}
IsOther falls_asleep = Unit {0}
IsOther wakes_up = Unit {0}
IsOther takes = Unit {0}
IsOther (sends_out outcome) = Unit {0}

-- The steps of the thread, and the end of the `join`.
abbrev pub is_move : Event → Bool
is_move calls_start = false
is_move (calls_send msg) = false
is_move stops_running = false
is_move notifies_all = false
is_move joins = true
is_move enters = true
is_move falls_asleep = true
is_move wakes_up = false
is_move takes = true
is_move (sends_out outcome) = true

abbrev pub moves : List Event → ℕ
moves [] = 0
moves (e ∷ es) = if is_move e then moves es + 1 else moves es

abbrev Goes : Event → UdpClient → UdpClient → Type 0
Goes e c u =
    IsStopping u
    × (ahead u.worker + moves (e ∷ []) ≡ ahead c.worker)
    × (u.msg_queue ≡ c.msg_queue ++ given (e ∷ []))

notify-up : (w : Worker) → IsUp w → notify w ≡ w
unfolding notify
notify-up absent h = refl
notify-up entering h = refl
notify-up dozing h = elim h [ ]
notify-up asleep h = elim h [ ]
notify-up taking h = refl
notify-up (sending msg) h = refl
notify-up finished h = refl

send_out-Goes :
    (o : Outcome) (c u : UdpClient)
    → IsStopping c
    → send_out o c.worker c ≡ some u
    → Goes (sends_out o) c u
unfolding async_send_data
send_out-Goes throws c u h e =
    let (msg, p, q) = send_out_lem throws c u e in ground (arith, append-nil c.msg_queue)
send_out-Goes fails c u h e =
    let (msg, p, q) = send_out_lem fails c u e in ground (arith, append-nil c.msg_queue)
send_out-Goes goes_out c u h e =
    let (msg, p, q) = send_out_lem goes_out c u e in ground (arith, append-nil c.msg_queue)

step-Goes :
    (e : Event) (c u : UdpClient) → IsOther e → IsStopping c → step e c ≡ some u → Goes e c u
unfolding step stop_running notify_all
step-Goes calls_start c u o h e = elim o [ ]
step-Goes (calls_send msg) c u o h e = ground (arith, send_lem msg c u e, notify-up c.worker h.1)
step-Goes stops_running c u o h e = ground (arith, append-nil c.msg_queue)
step-Goes notifies_all c u o h e = ground (arith, notify-up c.worker h.1, append-nil c.msg_queue)
step-Goes joins c u o h e = ground (arith, join_lem c u e, append-nil c.msg_queue)
step-Goes enters c u o h e = ground (arith, enter_lem c u e, append-nil c.msg_queue)
step-Goes falls_asleep c u o h e = ground (arith, sleep_lem c u e)
step-Goes wakes_up c u o h e = ground (arith, notify-up c.worker h.1, append-nil c.msg_queue)
step-Goes takes c u o h e = ground (arith, take_message_lem c u e, append-nil c.msg_queue)
step-Goes (sends_out outcome) c u o h e = send_out-Goes outcome c u h e

moves_cons : (e : Event) (es : List Event) → moves (e ∷ es) ≡ moves (e ∷ []) + moves es
moves_cons e es = ground arith

-- A step that can be made next.
next_move :
    (w : Worker) (c : UdpClient)
    → c.worker ≡ w
    → IsStopping c
    → (c.worker ≡ absent)
      ⊎ ((e : Event) × (t : UdpClient) × (is_move e ≡ true) × (step e c ≡ some t))
unfolding step join enter take_message send_out
next_move absent c p h = inl p
next_move entering c p h = inr (enters, record c { worker = taking }, refl, ground arith)
next_move dozing c p h = elim (subst IsUp p h.1) [ ]
next_move asleep c p h = elim (subst IsUp p h.1) [ ]
next_move taking c p h = inr (takes, record c { worker = finished }, refl, ground arith)
next_move (sending msg) c p h = inr (
  sends_out throws,
  record c { worker = entering; tried = c.tried ++ msg ∷ [] },
  refl,
  ap (λ w. send_out throws w c) p,
)
next_move finished c p h = inr (joins, record c { worker = absent }, refl, ap (λ w. join w c) p)

run-Goes :
    (es : List Event) (c u : UdpClient)
    → All IsOther es
    → IsStopping c
    → run es c ≡ some u
    → IsStopping u
      × (ahead u.worker + moves es ≡ ahead c.worker)
      × (u.msg_queue ≡ c.msg_queue ++ given es)
unfolding run
run-Goes [] c u o h e = ground (arith, append-nil c.msg_queue)
run-Goes (event ∷ es) c u o h e =
    let (t, one, rest) = run_next event es c u e in
    let (stops, fewer, queue) = step-Goes event c t o.0 h one in
    let (stops', fewer', queue') = run-Goes es t u o.1 stops rest in
    (
      stops',
      omega (arith, fewer, fewer', moves_cons event es),
      queue'
          ∙ ap (λ msgs. msgs ++ given es) queue
          ∙ append_assoc c.msg_queue (given (event ∷ [])) (given es)
          ∙ ap (λ msgs. c.msg_queue ++ msgs) (sym (given_cons event es)),
    )

-- A `stop` that has cleared `run_` and finds the thread neither waiting nor about to comes to its end:
-- whatever the threads do but a `start`, each step of the thread, and the end of the `join`, leaves one
-- less of at most four to be made, and until the thread is joined one of them can be made. Meanwhile
-- the queue is not emptied: what lies in it, and what is given to `send`, is not sent.
pub run-IsStopping :
    (es : List Event) (c u : UdpClient)
    → All IsOther es
    → IsStopping c
    → run es c ≡ some u
    → IsStopping u
      × (ahead u.worker + moves es ≡ ahead c.worker)
      × ((u.worker ≡ absent)
          ⊎ ((e : Event) × (t : UdpClient) × (is_move e ≡ true) × (step e u ≡ some t)))
      × (u.msg_queue ≡ c.msg_queue ++ given es)
run-IsStopping es c u o h e =
    let (stops, fewer, queue) = run-Goes es c u o h e in
    (stops, fewer, next_move u.worker u refl stops, queue)
