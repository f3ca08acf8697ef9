-- ===== src/AsyncClient/Stuck.antt =====
-- asio-1.28_async_client/src/async_client.cpp, `AsyncClient`: what a failed write does to the queue.
use asio_client.Common.{ℕ, ◌≡◌, refl, ◌∙◌, false, some, List, [], ◌∷◌, ◌++◌, arith, is_empty}
use asio_client.AsyncClient.{
  AsyncClient, Task, sends, closes, run_task, handle_connect, handle_connect_error, handle_wait,
  handle_read, handle_error, open_client, close, send,
}
use asio_client.AsyncClient.Runs.{
  Event, calls_open, calls_close, calls_send, runs_task, connects, fails_to_connect, receives,
  fails_to_read, completes, fails_to_write, expires, is_cancelled, step, run, run_posted, complete,
  fail_write, run_next,
}
use asio_client.AsyncClient.Order.{IsOrderly}

-- There are messages in the queue, and none is being written.
abbrev pub IsStuck : AsyncClient → Type 0
IsStuck c = (is_empty c.write_msgs ≡ false) × (c.pending_writes ≡ [])

is_empty-append : (xs ys : List (List ℕ)) → is_empty xs ≡ false → is_empty (xs ++ ys) ≡ false
is_empty-append [] ys h = cc
is_empty-append (x ∷ xs) ys h = refl

abbrev StaysStuck : AsyncClient → AsyncClient → Type 0
StaysStuck c u = IsStuck u × (u.written ≡ c.written)

runs_task-IsStuck :
    (c u : AsyncClient) (tasks : List Task)
    → c.posted ≡ tasks
    → IsStuck c
    → step runs_task c ≡ some u
    → StaysStuck c u
unfolding step run_posted run_task
runs_task-IsStuck c u [] p h e = ground arith
runs_task-IsStuck c u (sends msg ∷ tasks) p h e =
    ground (arith, is_empty-append c.write_msgs (msg ∷ []) h.0)
runs_task-IsStuck c u (closes ∷ tasks) p h e = ground arith

step-IsStuck : (e : Event) (c u : AsyncClient) → IsStuck c → step e c ≡ some u → StaysStuck c u
unfolding step handle_connect handle_connect_error handle_wait handle_read handle_error complete
    fail_write open_client close send
step-IsStuck calls_open c u h e = ground arith
step-IsStuck calls_close c u h e = ground arith
step-IsStuck (calls_send msg) c u h e = ground arith
step-IsStuck runs_task c u h e = runs_task-IsStuck c u c.posted refl h e
step-IsStuck connects c u h e = ground arith
step-IsStuck (fails_to_connect left_open) c u h e = ground arith
step-IsStuck (receives bytes) c u h e = ground arith
step-IsStuck fails_to_read c u h e = ground arith
step-IsStuck completes c u h e = ground arith
step-IsStuck fails_to_write c u h e = ground arith
step-IsStuck expires c u h e = ground arith
step-IsStuck is_cancelled c u h e = ground arith

run-IsStuck : (es : List Event) (c u : AsyncClient) → IsStuck c → run es c ≡ some u → StaysStuck c u
unfolding run
run-IsStuck [] c u h e = ground arith
run-IsStuck (event ∷ es) c u h e =
    let (t, one, rest) = run_next event es c u e in
    let (stuck, same) = step-IsStuck event c t h one in
    let (still, same') = run-IsStuck es t u stuck rest in (still, same' ∙ same)

fails_to_write-IsStuck :
    (c u : AsyncClient) (queue : List (List ℕ))
    → c.write_msgs ≡ queue
    → is_empty c.write_msgs ≡ false
    → IsOrderly c
    → step fails_to_write c ≡ some u
    → StaysStuck c u
unfolding step fail_write handle_error
fails_to_write-IsStuck c u [] q w h e = ground arith
fails_to_write-IsStuck c u (m ∷ queue) q w h e = ground arith

-- Once the write of the front of the queue has failed, no message is ever written again, whatever
-- happens and however often the client reconnects: its messages stay in the queue, which nothing
-- empties.
pub run-fails_to_write :
    (es : List Event) (c u : AsyncClient)
    → IsOrderly c
    → is_empty c.write_msgs ≡ false
    → run (fails_to_write ∷ es) c ≡ some u
    → IsStuck u × (u.written ≡ c.written)
run-fails_to_write es c u h w e =
    let (t, one, rest) = run_next fails_to_write es c u e in
    let (stuck, same) = fails_to_write-IsStuck c t c.write_msgs refl w h one in
    let (still, same') = run-IsStuck es t u stuck rest in (still, same' ∙ same)
