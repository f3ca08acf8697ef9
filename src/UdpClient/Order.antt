-- ===== src/UdpClient/Order.antt =====
-- udp-asio-1.28/include/udp_client.hpp, `UdpClient`: what becomes of the messages.
use asio_client.Common.{
  ℕ, ◌≡◌, refl, sym, ap, ◌∙◌, some, List, [], ◌∷◌, ◌++◌, append-nil, append_assoc, arith,
}
use asio_client.UdpClient.{
  UdpClient, Worker, Outcome, absent, entering, dozing, asleep, taking, sending, finished, throws,
  fails, goes_out, send, stop_running, notify, notify_all, pop, async_send_data, send_out,
}
use asio_client.UdpClient.Steps.{
  start_lem, send_lem, join_lem, enter_lem, sleep_lem, take_message_lem, send_out_lem,
}
use asio_client.UdpClient.Runs.{
  Event, calls_start, calls_send, stops_running, notifies_all, joins, enters, falls_asleep,
  wakes_up, takes, sends_out, step, run, run_next,
}

-- The messages that are not empty.
abbrev pub non_empty : List (List ℕ) → List (List ℕ)
non_empty [] = []
non_empty ([] ∷ msgs) = non_empty msgs
non_empty ((x ∷ xs) ∷ msgs) = (x ∷ xs) ∷ non_empty msgs

-- The message that the thread is to send.
abbrev pub in_hand : Worker → List (List ℕ)
in_hand absent = []
in_hand entering = []
in_hand dozing = []
in_hand asleep = []
in_hand taking = []
in_hand (sending msg) = msg ∷ []
in_hand finished = []

-- The messages that are still to be sent.
abbrev pub left : UdpClient → List (List ℕ)
left c = in_hand c.worker ++ non_empty c.msg_queue

-- The messages of the calls of `send`.
abbrev pub given : List Event → List (List ℕ)
given [] = []
given (calls_start ∷ es) = given es
given (calls_send msg ∷ es) = msg ∷ given es
given (stops_running ∷ es) = given es
given (notifies_all ∷ es) = given es
given (joins ∷ es) = given es
given (enters ∷ es) = given es
given (falls_asleep ∷ es) = given es
given (wakes_up ∷ es) = given es
given (takes ∷ es) = given es
given (sends_out outcome ∷ es) = given es

non_empty_append : (xs ys : List (List ℕ)) → non_empty (xs ++ ys) ≡ non_empty xs ++ non_empty ys
non_empty_append [] ys = refl
non_empty_append ([] ∷ xs) ys = non_empty_append xs ys
non_empty_append ((x ∷ bytes) ∷ xs) ys = ap (λ zs. (x ∷ bytes) ∷ zs) (non_empty_append xs ys)

pub given_cons : (e : Event) (es : List Event) → given (e ∷ es) ≡ given (e ∷ []) ++ given es
given_cons calls_start es = refl
given_cons (calls_send msg) es = refl
given_cons stops_running es = refl
given_cons notifies_all es = refl
given_cons joins es = refl
given_cons enters es = refl
given_cons falls_asleep es = refl
given_cons wakes_up es = refl
given_cons takes es = refl
given_cons (sends_out outcome) es = refl

in_hand-notify : (w : Worker) → in_hand (notify w) ≡ in_hand w
unfolding notify
in_hand-notify absent = refl
in_hand-notify entering = refl
in_hand-notify dozing = refl
in_hand-notify asleep = refl
in_hand-notify taking = refl
in_hand-notify (sending msg) = refl
in_hand-notify finished = refl

-- What was set out to be sent, and what is left.
abbrev all : UdpClient → List (List ℕ)
all c = c.tried ++ left c

-- A step of the thread, or of another that gives no message, keeps the messages.
abbrev Keeps : UdpClient → UdpClient → Type 0
Keeps c u = all u ≡ all c

pop-Keeps :
    (msgs : List (List ℕ)) (c : UdpClient)
    → c.msg_queue ≡ msgs
    → all (pop msgs c) ≡ c.tried ++ non_empty c.msg_queue
unfolding pop
pop-Keeps [] c p = refl
pop-Keeps ([] ∷ msgs) c p = cc
pop-Keeps ((x ∷ xs) ∷ msgs) c p = cc

send_out-Keeps : (o : Outcome) (c u : UdpClient) → send_out o c.worker c ≡ some u → Keeps c u
unfolding async_send_data
send_out-Keeps throws c u e =
    let (msg, p, q) = send_out_lem throws c u e in
    ground (arith, append_assoc c.tried (msg ∷ []) (non_empty c.msg_queue))
send_out-Keeps fails c u e =
    let (msg, p, q) = send_out_lem fails c u e in
    ground (arith, append_assoc c.tried (msg ∷ []) (non_empty c.msg_queue))
send_out-Keeps goes_out c u e =
    let (msg, p, q) = send_out_lem goes_out c u e in
    ground (arith, append_assoc c.tried (msg ∷ []) (non_empty c.msg_queue))

-- A step of the thread, or of another that gives no message, keeps the messages.
step-Keeps : (e : Event) (c u : UdpClient) → given (e ∷ []) ≡ [] → step e c ≡ some u → all u ≡ all c
unfolding step stop_running notify_all
step-Keeps calls_start c u g e = ground (arith, start_lem c u e)
step-Keeps (calls_send msg) c u g e = ground arith
step-Keeps stops_running c u g e = ground arith
step-Keeps notifies_all c u g e = ground (arith, in_hand-notify c.worker)
step-Keeps joins c u g e = ground (arith, join_lem c u e)
step-Keeps enters c u g e = ground (arith, enter_lem c u e)
step-Keeps falls_asleep c u g e = ground (arith, sleep_lem c u e)
step-Keeps wakes_up c u g e = ground (arith, in_hand-notify c.worker)
step-Keeps takes c u g e = ground (arith, take_message_lem c u e, pop-Keeps c.msg_queue c refl)
step-Keeps (sends_out outcome) c u g e = send_out-Keeps outcome c u e

send-Keeps :
    (msg : List ℕ) (c u : UdpClient) → send msg c ≡ some u → all u ≡ all c ++ non_empty (msg ∷ [])
send-Keeps msg c u e =
    let (open_, q) = send_lem msg c u e in
    ap all q
    ∙ ap (λ hand. c.tried ++ (hand ++ non_empty (c.msg_queue ++ msg ∷ [])))
        (in_hand-notify c.worker)
    ∙ ap (λ msgs. c.tried ++ (in_hand c.worker ++ msgs)) (non_empty_append c.msg_queue (msg ∷ []))
    ∙ ap (λ msgs. c.tried ++ msgs)
        (sym (append_assoc (in_hand c.worker) (non_empty c.msg_queue) (non_empty (msg ∷ []))))
    ∙ sym (append_assoc c.tried (left c) (non_empty (msg ∷ [])))

quiet :
    (e : Event) (c u : UdpClient)
    → given (e ∷ []) ≡ []
    → step e c ≡ some u
    → all u ≡ all c ++ non_empty (given (e ∷ []))
quiet e c u g s =
    step-Keeps e c u g s ∙ sym (append-nil (all c)) ∙ ap (λ msgs. all c ++ non_empty msgs) (sym g)

step-all :
    (e : Event) (c u : UdpClient) → step e c ≡ some u → all u ≡ all c ++ non_empty (given (e ∷ []))
unfolding step
step-all calls_start c u s = quiet calls_start c u refl s
step-all (calls_send msg) c u s = send-Keeps msg c u s
step-all stops_running c u s = quiet stops_running c u refl s
step-all notifies_all c u s = quiet notifies_all c u refl s
step-all joins c u s = quiet joins c u refl s
step-all enters c u s = quiet enters c u refl s
step-all falls_asleep c u s = quiet falls_asleep c u refl s
step-all wakes_up c u s = quiet wakes_up c u refl s
step-all takes c u s = quiet takes c u refl s
step-all (sends_out outcome) c u s = quiet (sends_out outcome) c u refl s

-- No message is lost, doubled or overtaken: after any steps of the thread and of its users, in any
-- order in which they can be made, the messages that the thread has set out to send, then the one that
-- it has in hand and those in the queue that are not empty, are those from before, then the messages
-- of the calls of `send` that are not empty, in their order.
pub run-all :
    (es : List Event) (c u : UdpClient)
    → run es c ≡ some u
    → u.tried ++ left u ≡ (c.tried ++ left c) ++ non_empty (given es)
unfolding run
run-all [] c u e = ground (arith, append-nil (c.tried ++ left c))
run-all (event ∷ es) c u e =
    let (t, one, rest) = run_next event es c u e in
    run-all es t u rest
    ∙ ap (λ msgs. msgs ++ non_empty (given es)) (step-all event c t one)
    ∙ append_assoc (all c) (non_empty (given (event ∷ []))) (non_empty (given es))
    ∙ ap (λ msgs. all c ++ msgs)
        (sym (non_empty_append (given (event ∷ [])) (given es))
          ∙ ap non_empty (sym (given_cons event es)))
