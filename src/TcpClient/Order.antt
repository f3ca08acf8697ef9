-- ===== src/TcpClient/Order.antt =====
-- asio-1.28/src/tcp_client.cpp, `TcpClient::send` and `doSend`: the messages on a connection that does
-- not fail.
use asio_client.Common.{
  after, All, ℕ, ◌≢◌, ◌≡◌, refl, sym, ap, Option, none, some, List, [], ◌∷◌, ◌++◌, arith,
  if◌then◌else◌, append_assoc, append-nil, take,
}
use asio_client.TcpClient.{
  TcpClient, Task, sends, sends_remaining, run_task, handle_connect, handle_wait, handle_read,
  handle_write, connect, close, send,
}
use asio_client.TcpClient.Runs.{
  Event, calls_connect, calls_close, calls_send, runs_task, connects, fails_to_connect, receives,
  fails_to_read, completes, fails_to_write, expires, is_cancelled, step, run, run_posted, complete,
  end_connect,
}

-- The messages of the tasks that `send` posted.
abbrev pub messages : List Task → List (List ℕ)
messages [] = []
messages (sends msg ∷ tasks) = msg ∷ messages tasks
messages (sends_remaining ∷ tasks) = messages tasks

-- All the messages that the client has taken: written, in the queue, or on their way there.
abbrev pub taken : TcpClient → List (List ℕ)
taken c = c.written ++ (c.send_msgs ++ messages c.posted)

-- What a `send` adds to them.
abbrev pub accepted : Event → TcpClient → List (List ℕ)
accepted (calls_send msg) c = if (send msg c).0 then msg ∷ [] else []
accepted (calls_connect reconnect) c = []
accepted calls_close c = []
accepted runs_task c = []
accepted connects c = []
accepted (fails_to_connect n) c = []
accepted (receives bytes) c = []
accepted (fails_to_read n) c = []
accepted completes c = []
accepted fails_to_write c = []
accepted expires c = []
accepted is_cancelled c = []

abbrev pub all_accepted : List Event → TcpClient → List (List ℕ)
all_accepted [] c = []
all_accepted (e ∷ es) c = accepted e c ++ all_accepted es (after (step e c) c)

-- The events with no error in them.
abbrev pub Succeeds : Event → Type 0
Succeeds (calls_connect reconnect) = Unit {0}
Succeeds calls_close = Unit {0}
Succeeds (calls_send msg) = Unit {0}
Succeeds runs_task = Unit {0}
Succeeds connects = Unit {0}
Succeeds (fails_to_connect n) = ⊥
Succeeds (receives bytes) = Unit {0}
Succeeds (fails_to_read n) = ⊥
Succeeds completes = Unit {0}
Succeeds fails_to_write = ⊥
Succeeds expires = Unit {0}
Succeeds is_cancelled = Unit {0}

-- Just the front of the queue is being written, and `doSendRemain`, which nobody calls, was not.
abbrev NoRemains : List Task → Type 0
NoRemains [] = Unit {0}
NoRemains (sends msg ∷ tasks) = NoRemains tasks
NoRemains (sends_remaining ∷ tasks) = ⊥

abbrev pub IsOrderly : TcpClient → Type 0
IsOrderly c = (c.pending_writes ≡ take 1 c.send_msgs) × NoRemains c.posted

messages-append : (ts us : List Task) → messages (ts ++ us) ≡ messages ts ++ messages us
messages-append [] us = refl
messages-append (sends msg ∷ ts) us = ap (◌∷◌ msg) (messages-append ts us)
messages-append (sends_remaining ∷ ts) us = messages-append ts us

NoRemains-append : (ts : List Task) (msg : List ℕ) → NoRemains ts → NoRemains (ts ++ sends msg ∷ [])
NoRemains-append [] msg h = tt
NoRemains-append (sends m ∷ ts) msg h = NoRemains-append ts msg h
NoRemains-append (sends_remaining ∷ ts) msg h = elim h [ ]

abbrev IsNext : Event → TcpClient → TcpClient → Type 0
IsNext e c u = IsOrderly u × (taken u ≡ taken c ++ accepted e c)

send-IsNext :
    (msg : List ℕ) (c u : TcpClient)
    → IsOrderly c
    → step (calls_send msg) c ≡ some u
    → IsNext (calls_send msg) c u
unfolding step send
send-IsNext msg c u h e = ground (
  arith,
  NoRemains-append c.posted msg h.1,
  append-nil (taken c),
  messages-append c.posted (sends msg ∷ []),
  append_assoc c.send_msgs (messages c.posted) (msg ∷ []),
  append_assoc c.written (c.send_msgs ++ messages c.posted) (msg ∷ []),
)

runs_task-IsNext :
    (c u : TcpClient) (tasks : List Task) (queue : List (List ℕ))
    → c.posted ≡ tasks
    → c.send_msgs ≡ queue
    → IsOrderly c
    → step runs_task c ≡ some u
    → IsNext runs_task c u
unfolding step run_posted run_task
runs_task-IsNext c u [] queue p q h e = ground (arith, append-nil (taken c))
runs_task-IsNext c u (sends_remaining ∷ tasks) queue p q h e = ground arith
runs_task-IsNext c u (sends msg ∷ tasks) [] p q h e = ground (arith, append-nil (taken c))
runs_task-IsNext c u (sends msg ∷ tasks) (m ∷ queue) p q h e =
    ground (arith, append-nil (taken c), append_assoc queue (msg ∷ []) (messages tasks))

completes-IsNext :
    (c u : TcpClient) (queue : List (List ℕ))
    → c.send_msgs ≡ queue
    → IsOrderly c
    → step completes c ≡ some u
    → IsNext completes c u
unfolding step complete handle_write
completes-IsNext c u [] q h e = ground (arith, append-nil (taken c))
completes-IsNext c u (m ∷ []) q h e =
    ground (arith, append-nil (taken c), append_assoc c.written (m ∷ []) (messages c.posted))
completes-IsNext c u (m ∷ n ∷ queue) q h e =
    ground (
      arith,
      append-nil (taken c),
      append_assoc c.written (m ∷ []) (n ∷ queue ++ messages c.posted),
    )

step-IsNext :
    (e : Event) (c u : TcpClient) → Succeeds e → IsOrderly c → step e c ≡ some u → IsNext e c u
unfolding step end_connect handle_connect handle_wait handle_read connect close
step-IsNext (calls_connect reconnect) c u g h e = ground (arith, append-nil (taken c))
step-IsNext calls_close c u g h e = ground (arith, append-nil (taken c))
step-IsNext (calls_send msg) c u g h e = send-IsNext msg c u h e
step-IsNext runs_task c u g h e = runs_task-IsNext c u c.posted c.send_msgs refl refl h e
step-IsNext connects c u g h e = ground (arith, append-nil (taken c))
step-IsNext (fails_to_connect n) c u g h e = elim g [ ]
step-IsNext (receives bytes) c u g h e = ground (arith, append-nil (taken c))
step-IsNext (fails_to_read n) c u g h e = elim g [ ]
step-IsNext completes c u g h e = completes-IsNext c u c.send_msgs refl h e
step-IsNext fails_to_write c u g h e = elim g [ ]
step-IsNext expires c u g h e = ground (arith, append-nil (taken c))
step-IsNext is_cancelled c u g h e = ground (arith, append-nil (taken c))

-- No step that succeeds is undefined.
step-none :
    (e : Event) (c : TcpClient) (tasks : List Task) (queue : List (List ℕ))
    → c.posted ≡ tasks
    → c.send_msgs ≡ queue
    → Succeeds e
    → IsOrderly c
    → step e c ≢ none
unfolding step end_connect run_posted run_task complete handle_connect handle_wait handle_read
    handle_write connect close send
step-none (calls_connect reconnect) c tasks queue p q g h e = ground arith
step-none calls_close c tasks queue p q g h e = ground arith
step-none (calls_send msg) c tasks queue p q g h e = ground arith
step-none runs_task c [] queue p q g h e = ground arith
step-none runs_task c (sends_remaining ∷ tasks) queue p q g h e = ground arith
step-none runs_task c (sends msg ∷ tasks) [] p q g h e = ground arith
step-none runs_task c (sends msg ∷ tasks) (m ∷ queue) p q g h e = ground arith
step-none connects c tasks queue p q g h e = ground arith
step-none (fails_to_connect n) c tasks queue p q g h e = elim g [ ]
step-none (receives bytes) c tasks queue p q g h e = ground arith
step-none (fails_to_read n) c tasks queue p q g h e = elim g [ ]
step-none completes c tasks [] p q g h e = ground arith
step-none completes c tasks (m ∷ []) p q g h e = ground arith
step-none completes c tasks (m ∷ n ∷ queue) p q g h e = ground arith
step-none fails_to_write c tasks queue p q g h e = elim g [ ]
step-none expires c tasks queue p q g h e = ground arith
step-none is_cancelled c tasks queue p q g h e = ground arith

-- A step that succeeds gets somewhere.
step-some :
    (e : Event) (c : TcpClient)
    → Succeeds e
    → IsOrderly c
    → (t : TcpClient) × (step e c ≡ some t) × IsNext e c t
step-some event c g h = from (step event c) refl
  where
    from :
        (r : Option TcpClient)
        → step event c ≡ r
        → (t : TcpClient) × (step event c ≡ some t) × IsNext event c t
    from none e = elim (step-none event c c.posted c.send_msgs refl refl g h e) [ ]
    from (some t) e = (t, e, step-IsNext event c t g h e)

-- As long as no connect, read or write fails, any sequence of events of a client that is writing
-- just the front of its queue runs through with no undefined behaviour, and the messages written,
-- then those in the queue, then those posted are the ones of before followed by the ones that
-- `send` has accepted since: none is lost, doubled or reordered. It goes on writing just the
-- front.
pub run-taken :
    (es : List Event) (c : TcpClient)
    → IsOrderly c
    → All Succeeds es
    → (u : TcpClient) × (run es c ≡ some u) × IsOrderly u × (taken u ≡ taken c ++ all_accepted es c)
unfolding run
run-taken [] c h g = (c, refl, h, sym (append-nil (taken c)))
run-taken (event ∷ es) c h (now, later) =
    let (t, e, next) = step-some event c now h in
    let (u, ran, valid, rest) = run-taken es t next.0 later in
    (
      u,
      rw e ran,
      valid,
      rw (e, rest, next.1) (append_assoc (taken c) (accepted event c) (all_accepted es t)),
    )
