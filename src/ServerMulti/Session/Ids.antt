-- ===== src/ServerMulti/Session/Ids.antt =====
-- asio-1.28_server_multi/src/test.cpp, `Session`: it keeps its id.
use asio_client.Common.{
  ℕ, ◌≡◌, refl, Bool, true, false, Option, none, some, List, [], ◌∷◌, ltb, if◌then◌else◌, arith,
}
use asio_client.ServerMulti.Session.{
  DataHandler, Task, Session, reads, writes, safe_write, do_read, do_write, write_front, is_empty,
  pop_front, run_task, handle_write, handle_read, handle_read_error, handle_write_error,
}
use asio_client.ServerMulti.Session.Runs.{
  Event, runs_task, receives, fails_to_read, completes, fails_to_write, run_posted, complete,
  fail_write, can_read, with_handler, step,
}

run_posted-session_id :
    (s u : Session) (tasks : List Task) (queue : List (List ℕ))
    → s.write_queue ≡ queue
    → run_posted tasks s ≡ some u
    → u.session_id ≡ s.session_id
unfolding run_posted run_task do_write write_front is_empty do_read
run_posted-session_id s u [] queue q e = ground arith
run_posted-session_id s u (reads ∷ tasks) queue q e = ground arith
run_posted-session_id s u (writes bytes ∷ tasks) [] q e = ground arith
run_posted-session_id s u (writes bytes ∷ tasks) (m ∷ queue) q e = ground arith

complete-session_id :
    (s u : Session) (ws queue : List (List ℕ))
    → s.write_queue ≡ queue
    → complete ws s ≡ some u
    → u.session_id ≡ s.session_id
unfolding complete handle_write pop_front is_empty do_write write_front
complete-session_id s u [] queue q e = ground arith
complete-session_id s u (w ∷ ws) [] q e = ground arith
complete-session_id s u (w ∷ ws) (m ∷ []) q e = ground arith
complete-session_id s u (w ∷ ws) (m ∷ n ∷ queue) q e = ground arith

module _ {H : Type 0} (handler : DataHandler H) where
  with_handler-session_id :
      (r : Option Session) (s u : Session) (h k : H)
      → ((t : Session) → r ≡ some t → t.session_id ≡ s.session_id)
      → with_handler h r ≡ some (u, k)
      → u.session_id ≡ s.session_id
  with_handler-session_id none s u h k keeps e = cc
  with_handler-session_id (some t) s u h k keeps e = ground (arith, keeps t refl)

  either :
      (b : Bool) (next : Session × H) (s u : Session) (h k : H)
      → next.0.session_id ≡ s.session_id
      → (if b then some next else some (s, h)) ≡ some (u, k)
      → u.session_id ≡ s.session_id
  either true next s u h k same e = ground arith
  either false next s u h k same e = ground arith

  pub step-session_id :
      (e : Event) (s u : Session) (h k : H)
      → step handler e s h ≡ some (u, k)
      → u.session_id ≡ s.session_id
  unfolding step handle_read handle_read_error safe_write do_read fail_write handle_write_error
  step-session_id runs_task s u h k e =
      with_handler-session_id (run_posted s.posted s) s u h k
        (λ t. run_posted-session_id s t s.posted s.write_queue refl) e
  step-session_id (receives bytes) s u h k e = either (can_read bytes s) _ s u h k refl e
  step-session_id fails_to_read s u h k e = either (ltb 0 s.pending_reads) _ s u h k refl e
  step-session_id completes s u h k e =
      with_handler-session_id (complete s.pending_writes s) s u h k
        (λ t. complete-session_id s t s.pending_writes s.write_queue refl) e
  step-session_id fails_to_write s u h k e = from s.pending_writes e
    where
      from :
          (ws : List (List ℕ))
          → some (fail_write handler ws s h) ≡ some (u, k)
          → u.session_id ≡ s.session_id
      from [] e = ground arith
      from (w ∷ ws) e = ground arith
