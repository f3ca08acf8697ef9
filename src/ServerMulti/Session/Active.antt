-- ===== src/ServerMulti/Session/Active.antt =====
-- asio-1.28_server_multi/src/test.cpp, `Session` with `StatisticsHandler`: the number of active sessions.
use asio_client.Common.{
  after, ℕ, ◌+◌, ◌-◌, ◌%◌, ◌^◌, ◌<◌, ◌≡◌, refl, Bool, true, false, Option, none, some, List, [],
  ◌∷◌, ltb, if◌then◌else◌, ◌>>=◌, arith,
}
use asio_client.ServerMulti.Statistics.{
  StatisticsHandler, process, on_session_created, on_session_closed,
}
use asio_client.ServerMulti.Session.{
  Session, statistics_handler, init, start, handle_read, handle_read_error, handle_write_error,
  destroy,
}
use asio_client.ServerMulti.Session.Runs.{
  Event, runs_task, receives, fails_to_read, completes, fails_to_write, can_read, with_handler,
  run_posted, complete, fail_write, step, run,
}

abbrev one_if : Bool → ℕ
one_if true = 1
one_if false = 0

abbrev one_of : List (List ℕ) → ℕ
one_of [] = 0
one_of (w ∷ ws) = 1

-- The reads and writes that fail by an event, among them the end of the stream.
abbrev pub failures : Event → Session → ℕ
failures runs_task s = 0
failures (receives bytes) s = 0
failures fails_to_read s = one_if (ltb 0 s.pending_reads)
failures completes s = 0
failures fails_to_write s = one_of s.pending_writes

abbrev pub all_failures : List Event → Session → StatisticsHandler → ℕ
all_failures [] s h = 0
all_failures (e ∷ es) s h =
    let next = after (step statistics_handler e s h) (s, h) in
    failures e s + all_failures es next.0 next.1

-- So many less are active.
abbrev Fewer : ℕ → StatisticsHandler → StatisticsHandler → Type 0
Fewer n h k = (k.active_sessions + n) % 2 ^ 64 ≡ h.active_sessions % 2 ^ 64

with_handler-Fewer :
    (r : Option Session) (t : Session) (h k : StatisticsHandler)
    → with_handler h r ≡ some (t, k)
    → Fewer 0 h k
with_handler-Fewer none t h k q = cc
with_handler-Fewer (some s) t h k q = ground arith

step-Fewer :
    (e : Event) (s t : Session) (h k : StatisticsHandler)
    → step statistics_handler e s h ≡ some (t, k)
    → Fewer (failures e s) h k
unfolding step handle_read handle_read_error fail_write handle_write_error process on_session_closed
step-Fewer runs_task s t h k q = with_handler-Fewer (run_posted s.posted s) t h k q
step-Fewer (receives bytes) s t h k q = from (can_read bytes s) q
  where
    next : Session × StatisticsHandler
    next = handle_read statistics_handler bytes (record s { pending_reads = s.pending_reads - 1 }) h

    from : (b : Bool) → (if b then some next else some (s, h)) ≡ some (t, k) → Fewer 0 h k
    from true q = ground arith
    from false q = ground arith
step-Fewer fails_to_read s t h k q = from (ltb 0 s.pending_reads) q
  where
    next : Session × StatisticsHandler
    next = handle_read_error statistics_handler (record s { pending_reads = s.pending_reads - 1 }) h

    from : (b : Bool) → (if b then some next else some (s, h)) ≡ some (t, k) → Fewer (one_if b) h k
    from true q = ground arith
    from false q = ground arith
step-Fewer completes s t h k q = with_handler-Fewer (complete s.pending_writes s) t h k q
step-Fewer fails_to_write s t h k q = from s.pending_writes q
  where
    from :
        (ws : List (List ℕ))
        → some (fail_write statistics_handler ws s h) ≡ some (t, k)
        → Fewer (one_of ws) h k
    from [] q = ground arith
    from (w ∷ ws) q = ground arith

run-Fewer :
    (es : List Event) (s u : Session) (h k : StatisticsHandler)
    → run statistics_handler es s h ≡ some (u, k)
    → Fewer (all_failures es s h) h k
unfolding run
run-Fewer [] s u h k q = ground arith
run-Fewer (event ∷ es) s u h k q =
    from (step statistics_handler event s h) (λ t j. step-Fewer event s t h j)
      (λ t j. run-Fewer es t u j k) q
  where
    from :
        (r : Option (Session × StatisticsHandler))
        → ((t : Session) (j : StatisticsHandler) → r ≡ some (t, j) → Fewer (failures event s) h j)
        → ((t : Session) (j : StatisticsHandler)
            → run statistics_handler es t j ≡ some (u, k)
            → Fewer (all_failures es t j) j k)
        → (r >>= λ next. run statistics_handler es next.0 next.1) ≡ some (u, k)
        → let next = after r (s, h) in Fewer (failures event s + all_failures es next.0 next.1) h k
    from none one rest q = cc
    from (some (t, j)) one rest q =
        let first = one t j refl in let later = rest t j q in omega (arith, first, later)

-- A session counts itself up once and down once more than it should for each failure: from its start
-- over any events to its destruction, the number of active sessions falls by the number of reads and
-- writes that failed, the end of the stream among them, modulo 2 ^ 64, instead of being what it was.
pub run-active_sessions :
    (id : List ℕ) (es : List Event) (h : StatisticsHandler) (u : Session) (k : StatisticsHandler)
    → h.active_sessions < 2 ^ 64
    → run statistics_handler es
        (start statistics_handler (init id) h).0
        (start statistics_handler (init id) h).1
      ≡ some (u, k)
    → let first = start statistics_handler (init id) h in
      ((destroy statistics_handler u k).active_sessions + all_failures es first.0 first.1) % 2 ^ 64
      ≡ h.active_sessions
unfolding start init destroy on_session_created on_session_closed
run-active_sessions id es h u k small q =
    let first = start statistics_handler (init id) h in
    omega (arith, run-Fewer es first.0 u first.1 k q)
