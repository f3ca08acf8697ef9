-- ===== src/TcpClient/Stalls.antt =====
-- asio-1.28/src/tcp_client.cpp, `TcpClient`: a message that a failed connection has left in the queue.
use asio_client.Common.{
  All, ℕ, ◌<◌, ◌≡◌, refl, ◌∙◌, true, false, Option, none, some, List, [], ◌∷◌, ◌++◌, arith,
  is_empty,
}
use asio_client.TcpClient.{
  TcpClient, Task, sends, sends_remaining, connected, run_task, handle_connect, handle_wait,
  handle_read, handle_read_error, handle_write_error, connect, close, send,
}
use asio_client.TcpClient.Runs.{
  Event, calls_connect, calls_close, calls_send, runs_task, connects, fails_to_connect, receives,
  fails_to_read, completes, fails_to_write, expires, is_cancelled, step, run, run_posted, complete,
  fail_write, end_connect,
}
use asio_client.TcpClient.Alive.{run_next}

-- There are messages in the queue, and none is being written.
abbrev pub IsStuck : TcpClient → Type 0
IsStuck c = (is_empty c.send_msgs ≡ false) × (c.pending_writes ≡ [])

-- The events that do not end a connection or a try to get one, which would empty the queue.
abbrev pub Keeps : Event → Type 0
Keeps (calls_connect reconnect) = Unit {0}
Keeps calls_close = Unit {0}
Keeps (calls_send msg) = Unit {0}
Keeps runs_task = Unit {0}
Keeps connects = Unit {0}
Keeps (fails_to_connect n) = ⊥
Keeps (receives bytes) = Unit {0}
Keeps (fails_to_read n) = ⊥
Keeps completes = Unit {0}
Keeps fails_to_write = Unit {0}
Keeps expires = Unit {0}
Keeps is_cancelled = Unit {0}

is_empty-append : (xs ys : List (List ℕ)) → is_empty xs ≡ false → is_empty (xs ++ ys) ≡ false
is_empty-append [] ys h = cc
is_empty-append (x ∷ xs) ys h = refl

abbrev StaysStuck : TcpClient → TcpClient → Type 0
StaysStuck c u = IsStuck u × (u.written ≡ c.written)

runs_task-IsStuck :
    (c u : TcpClient) (tasks : List Task)
    → c.posted ≡ tasks
    → IsStuck c
    → step runs_task c ≡ some u
    → StaysStuck c u
unfolding step run_posted run_task
runs_task-IsStuck c u [] p h e = ground arith
runs_task-IsStuck c u (sends msg ∷ tasks) p h e =
    ground (arith, is_empty-append c.send_msgs (msg ∷ []) h.0)
runs_task-IsStuck c u (sends_remaining ∷ tasks) p h e = ground arith

step-IsStuck :
    (e : Event) (c u : TcpClient) → Keeps e → IsStuck c → step e c ≡ some u → StaysStuck c u
unfolding step end_connect handle_connect handle_wait handle_read complete fail_write connect close
    send
step-IsStuck (calls_connect reconnect) c u k h e = ground arith
step-IsStuck calls_close c u k h e = ground arith
step-IsStuck (calls_send msg) c u k h e = ground arith
step-IsStuck runs_task c u k h e = runs_task-IsStuck c u c.posted refl h e
step-IsStuck connects c u k h e = ground arith
step-IsStuck (fails_to_connect n) c u k h e = elim k [ ]
step-IsStuck (receives bytes) c u k h e = ground arith
step-IsStuck (fails_to_read n) c u k h e = elim k [ ]
step-IsStuck completes c u k h e = ground arith
step-IsStuck fails_to_write c u k h e = ground arith
step-IsStuck expires c u k h e = ground arith
step-IsStuck is_cancelled c u k h e = ground arith

-- With messages in the queue and none being written, no message is ever written again, however many
-- connects succeed and however much is sent, until a read or a connect fails.
pub run-IsStuck :
    (es : List Event) (c u : TcpClient)
    → All Keeps es
    → IsStuck c
    → run es c ≡ some u
    → IsStuck u × (u.written ≡ c.written)
unfolding run
run-IsStuck [] c u k h e = ground arith
run-IsStuck (event ∷ es) c u k h e =
    let (t, one, rest) = run_next event es c u e in
    let (stuck, same) = step-IsStuck event c t k.0 h one in
    let (still, same') = run-IsStuck es t u k.1 stuck rest in (still, same' ∙ same)

run-append :
    (es fs : List Event) (c t u : TcpClient)
    → run es c ≡ some t
    → run fs t ≡ some u
    → run (es ++ fs) c ≡ some u
unfolding run
run-append [] fs c t u e f = ground arith
run-append (event ∷ es) fs c t u e f =
    let (r, one, rest) = run_next event es c t e in rw one (run-append es fs r t u rest f)

-- A disconnected client that is about to connect again.
abbrev Waits : TcpClient → Type 0
Waits c = (c.reconnect ≡ true) × (0 < c.pending_waits) × (c.pending_writes ≡ [])

disconnected_task :
    (msg : List ℕ) (value : ℕ) (c : TcpClient)
    → c.is_connected ≡ connected
    → c.reconnect ≡ true
    → c.posted ≡ []
    → c.pending_writes ≡ []
    → 0 < c.pending_reads
    → (u : TcpClient) × (run (calls_send msg ∷ fails_to_read value ∷ []) c ≡ some u)
      × Waits u
      × (u.send_msgs ≡ [])
      × (u.posted ≡ sends msg ∷ [])
unfolding run step handle_read_error send
disconnected_task msg value c h r p w n =
    from (run (calls_send msg ∷ fails_to_read value ∷ []) c) refl
  where
    from :
        (result : Option TcpClient)
        → run (calls_send msg ∷ fails_to_read value ∷ []) c ≡ result
        → (u : TcpClient) × (run (calls_send msg ∷ fails_to_read value ∷ []) c ≡ some u)
          × Waits u
          × (u.send_msgs ≡ [])
          × (u.posted ≡ sends msg ∷ [])
    from none e = ground arith
    from (some u) e = (u, e, ground arith, ground arith, ground arith)

failed_task :
    (msg : List ℕ) (c : TcpClient)
    → Waits c
    → c.send_msgs ≡ []
    → c.posted ≡ sends msg ∷ []
    → (u : TcpClient) × (run (runs_task ∷ fails_to_write ∷ []) c ≡ some u)
      × Waits u
      × (u.send_msgs ≡ msg ∷ [])
unfolding run step run_posted run_task fail_write handle_write_error
failed_task msg c h q p = from (run (runs_task ∷ fails_to_write ∷ []) c) refl
  where
    from :
        (result : Option TcpClient)
        → run (runs_task ∷ fails_to_write ∷ []) c ≡ result
        → (u : TcpClient) × (run (runs_task ∷ fails_to_write ∷ []) c ≡ some u)
          × Waits u
          × (u.send_msgs ≡ msg ∷ [])
    from none e = ground arith
    from (some u) e = (u, e, ground arith, ground arith)

reconnected :
    (msg : List ℕ) (c : TcpClient)
    → Waits c
    → c.send_msgs ≡ msg ∷ []
    → (u : TcpClient) × (run (expires ∷ connects ∷ []) c ≡ some u)
      × (u.is_connected ≡ connected)
      × (u.send_msgs ≡ msg ∷ [])
      × IsStuck u
unfolding run step end_connect handle_connect handle_wait
reconnected msg c h q = from (run (expires ∷ connects ∷ []) c) refl
  where
    from :
        (result : Option TcpClient)
        → run (expires ∷ connects ∷ []) c ≡ result
        → (u : TcpClient) × (run (expires ∷ connects ∷ []) c ≡ some u)
          × (u.is_connected ≡ connected)
          × (u.send_msgs ≡ msg ∷ [])
          × IsStuck u
    from none e = ground arith
    from (some u) e = (u, e, ground arith, ground arith, ground arith)

-- A connection that fails between a call of `send` and the task that it posted can leave a client that
-- is to reconnect stuck on its next connection: `doReconnect` has emptied the queue before the task
-- puts the message there, its write fails, and the message stays there with no write under way.
pub reconnect-IsStuck :
    (msg : List ℕ) (value : ℕ) (c : TcpClient)
    → c.is_connected ≡ connected
    → c.reconnect ≡ true
    → c.posted ≡ []
    → c.pending_writes ≡ []
    → 0 < c.pending_reads
    → (u : TcpClient) × (run
          (calls_send msg
            ∷ fails_to_read value
            ∷ runs_task
            ∷ fails_to_write
            ∷ expires
            ∷ connects
            ∷ [])
          c
        ≡ some u)
      × (u.is_connected ≡ connected)
      × (u.send_msgs ≡ msg ∷ [])
      × IsStuck u
reconnect-IsStuck msg value c h r p w n =
    let (s, first, waits, empty, task) = disconnected_task msg value c h r p w n in
    let (t, second, waits', queued) = failed_task msg s waits empty task in
    let (u, third, ready, queue, stuck) = reconnected msg t waits' queued in
    (
      u,
      run-append (calls_send msg ∷ fails_to_read value ∷ []) _ c s u first
          (run-append (runs_task ∷ fails_to_write ∷ []) _ s t u second third),
      ready,
      queue,
      stuck,
    )
