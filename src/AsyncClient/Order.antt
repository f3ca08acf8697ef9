-- ===== src/AsyncClient/Order.antt =====
-- asio-1.28_async_client/src/async_client.cpp, `AsyncClient::send` and `do_write`: the queue of the
-- messages while no write fails.
use asio_client.Common.{
  All, ℕ, ◌≢◌, ◌≡◌, refl, sym, Bool, Option, none, some, List, [], ◌∷◌, ◌++◌, arith, if◌then◌else◌,
  take, append_assoc, append-nil,
}
use asio_client.AsyncClient.{
  AsyncClient, Task, sends, closes, run_task, handle_connect, handle_connect_error, handle_wait,
  handle_read, handle_error, handle_write, open_client, close, send,
}
use asio_client.AsyncClient.Runs.{
  Event, calls_open, calls_close, calls_send, runs_task, connects, fails_to_connect, receives,
  fails_to_read, completes, fails_to_write, expires, is_cancelled, step, run, run_posted, complete,
}

-- Just the front of the queue is being written.
abbrev pub IsOrderly : AsyncClient → Type 0
IsOrderly c = c.pending_writes ≡ take 1 c.write_msgs

-- The messages written and those in the queue.
abbrev pub taken : AsyncClient → List (List ℕ)
taken c = c.written ++ c.write_msgs

-- What a task adds to them: the message of a `send`, unless it is dropped.
abbrev pub added : List Task → Bool → List (List ℕ)
added [] socket_open = []
added (sends msg ∷ tasks) socket_open = if socket_open then msg ∷ [] else []
added (closes ∷ tasks) socket_open = []

abbrev pub accepted : Event → AsyncClient → List (List ℕ)
accepted calls_open c = []
accepted calls_close c = []
accepted (calls_send msg) c = []
accepted runs_task c = added c.posted c.socket_open
accepted connects c = []
accepted (fails_to_connect left_open) c = []
accepted (receives bytes) c = []
accepted fails_to_read c = []
accepted completes c = []
accepted fails_to_write c = []
accepted expires c = []
accepted is_cancelled c = []

abbrev after : Option AsyncClient → AsyncClient → AsyncClient
after none c = c
after (some u) c = u

abbrev pub all_accepted : List Event → AsyncClient → List (List ℕ)
all_accepted [] c = []
all_accepted (e ∷ es) c = accepted e c ++ all_accepted es (after (step e c) c)

-- Every event but the failure of a write.
abbrev pub Succeeds : Event → Type 0
Succeeds calls_open = Unit {0}
Succeeds calls_close = Unit {0}
Succeeds (calls_send msg) = Unit {0}
Succeeds runs_task = Unit {0}
Succeeds connects = Unit {0}
Succeeds (fails_to_connect left_open) = Unit {0}
Succeeds (receives bytes) = Unit {0}
Succeeds fails_to_read = Unit {0}
Succeeds completes = Unit {0}
Succeeds fails_to_write = ⊥
Succeeds expires = Unit {0}
Succeeds is_cancelled = Unit {0}

abbrev IsNext : Event → AsyncClient → AsyncClient → Type 0
IsNext e c u = IsOrderly u × (taken u ≡ taken c ++ accepted e c)

runs_task-IsNext :
    (c u : AsyncClient) (tasks : List Task) (queue : List (List ℕ))
    → c.posted ≡ tasks
    → c.write_msgs ≡ queue
    → IsOrderly c
    → step runs_task c ≡ some u
    → IsNext runs_task c u
unfolding step run_posted run_task
runs_task-IsNext c u [] queue p q h e = ground (arith, append-nil (taken c))
runs_task-IsNext c u (closes ∷ tasks) queue p q h e = ground (arith, append-nil (taken c))
runs_task-IsNext c u (sends msg ∷ tasks) [] p q h e =
    ground (arith, append-nil (taken c), append_assoc c.written [] (msg ∷ []))
runs_task-IsNext c u (sends msg ∷ tasks) (m ∷ queue) p q h e =
    ground (arith, append-nil (taken c), append_assoc c.written (m ∷ queue) (msg ∷ []))

completes-IsNext :
    (c u : AsyncClient) (queue : List (List ℕ))
    → c.write_msgs ≡ queue
    → IsOrderly c
    → step completes c ≡ some u
    → IsNext completes c u
unfolding step complete handle_write
completes-IsNext c u [] q h e = ground (arith, append-nil (taken c))
completes-IsNext c u (m ∷ []) q h e =
    ground (arith, append-nil (taken c), append_assoc c.written (m ∷ []) [])
completes-IsNext c u (m ∷ n ∷ queue) q h e =
    ground (arith, append-nil (taken c), append_assoc c.written (m ∷ []) (n ∷ queue))

step-IsNext :
    (e : Event) (c u : AsyncClient) → Succeeds e → IsOrderly c → step e c ≡ some u → IsNext e c u
unfolding step handle_connect handle_connect_error handle_wait handle_read handle_error open_client
    close send
step-IsNext calls_open c u g h e = ground (arith, append-nil (taken c))
step-IsNext calls_close c u g h e = ground (arith, append-nil (taken c))
step-IsNext (calls_send msg) c u g h e = ground (arith, append-nil (taken c))
step-IsNext runs_task c u g h e = runs_task-IsNext c u c.posted c.write_msgs refl refl h e
step-IsNext connects c u g h e = ground (arith, append-nil (taken c))
step-IsNext (fails_to_connect left_open) c u g h e = ground (arith, append-nil (taken c))
step-IsNext (receives bytes) c u g h e = ground (arith, append-nil (taken c))
step-IsNext fails_to_read c u g h e = ground (arith, append-nil (taken c))
step-IsNext completes c u g h e = completes-IsNext c u c.write_msgs refl h e
step-IsNext fails_to_write c u g h e = elim g [ ]
step-IsNext expires c u g h e = ground (arith, append-nil (taken c))
step-IsNext is_cancelled c u g h e = ground (arith, append-nil (taken c))

step-none :
    (e : Event) (c : AsyncClient) (tasks : List Task) (queue : List (List ℕ))
    → c.posted ≡ tasks
    → c.write_msgs ≡ queue
    → IsOrderly c
    → step e c ≢ none
unfolding step run_posted run_task complete handle_connect handle_connect_error handle_wait
    handle_read handle_error handle_write open_client close send
step-none calls_open c tasks queue p q h e = ground arith
step-none calls_close c tasks queue p q h e = ground arith
step-none (calls_send msg) c tasks queue p q h e = ground arith
step-none runs_task c [] queue p q h e = ground arith
step-none runs_task c (closes ∷ tasks) queue p q h e = ground arith
step-none runs_task c (sends msg ∷ tasks) [] p q h e = ground arith
step-none runs_task c (sends msg ∷ tasks) (m ∷ queue) p q h e = ground arith
step-none connects c tasks queue p q h e = ground arith
step-none (fails_to_connect left_open) c tasks queue p q h e = ground arith
step-none (receives bytes) c tasks queue p q h e = ground arith
step-none fails_to_read c tasks queue p q h e = ground arith
step-none completes c tasks [] p q h e = ground arith
step-none completes c tasks (m ∷ []) p q h e = ground arith
step-none completes c tasks (m ∷ n ∷ queue) p q h e = ground arith
step-none fails_to_write c tasks queue p q h e = ground arith
step-none expires c tasks queue p q h e = ground arith
step-none is_cancelled c tasks queue p q h e = ground arith

step-some :
    (e : Event) (c : AsyncClient)
    → Succeeds e
    → IsOrderly c
    → (t : AsyncClient) × (step e c ≡ some t) × IsNext e c t
step-some event c g h = from (step event c) refl
  where
    from :
        (r : Option AsyncClient)
        → step event c ≡ r
        → (t : AsyncClient) × (step event c ≡ some t) × IsNext event c t
    from none e = elim (step-none event c c.posted c.write_msgs refl refl h e) [ ]
    from (some t) e = (t, e, step-IsNext event c t g h e)

-- As long as no write fails, any sequence of events of a client that is writing just the front of
-- its queue, disconnections among them, runs through with no undefined behaviour, and the messages
-- written, followed by those in the queue, are the ones of before followed by those whose tasks
-- have found the socket open since, in their order. It goes on writing just the front.
pub run-accepted :
    (es : List Event) (c : AsyncClient)
    → IsOrderly c
    → All Succeeds es
    → (u : AsyncClient) × (run es c ≡ some u)
      × IsOrderly u
      × (taken u ≡ taken c ++ all_accepted es c)
unfolding run
run-accepted [] c h g = (c, refl, h, sym (append-nil (taken c)))
run-accepted (event ∷ es) c h (now, later) =
    let (t, e, next) = step-some event c now h in
    let (u, ran, valid, rest) = run-accepted es t next.0 later in
    (
      u,
      rw e ran,
      valid,
      rw (e, rest, next.1) (append_assoc (taken c) (accepted event c) (all_accepted es t)),
    )
