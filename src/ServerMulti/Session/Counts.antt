-- ===== src/ServerMulti/Session/Counts.antt =====
-- asio-1.28_server_multi/src/test.cpp, `Session` with `StatisticsHandler`: what is counted.
use asio_client.Common.{
  ℕ, ◌+◌, ◌-◌, ◌%◌, ◌^◌, ◌<◌, ◌≡◌, Bool, true, false, Option, none, some, List, [], ◌∷◌, length,
  ltb, if◌then◌else◌, arith,
}
use asio_client.ServerMulti.Statistics.{StatisticsHandler, process, on_session_closed, total}
use asio_client.ServerMulti.Session.{
  Session, statistics_handler, handle_read, handle_read_error, handle_write_error,
}
use asio_client.ServerMulti.Session.Runs.{
  Event, runs_task, receives, fails_to_read, completes, fails_to_write, can_read, with_handler,
  run_posted, complete, fail_write, step,
}

-- What a session receives by an event.
abbrev pub got : Event → Session → List (List ℕ)
got runs_task s = []
got (receives bytes) s = if can_read bytes s then bytes ∷ [] else []
got fails_to_read s = []
got completes s = []
got fails_to_write s = []

abbrev pub Fits : StatisticsHandler → Type 0
Fits h = (h.total_chars < 2 ^ 64) × (h.message_count < 2 ^ 64)

abbrev pub Counted : List (List ℕ) → StatisticsHandler → StatisticsHandler → Type 0
Counted msgs h k =
    (k.total_chars ≡ (h.total_chars + total msgs) % 2 ^ 64)
    × (k.message_count ≡ (h.message_count + length msgs) % 2 ^ 64)

same-Counted : (h k : StatisticsHandler) → Fits h → k ≡ h → Counted [] h k
same-Counted h k f e = ground arith

with_handler-Counted :
    (r : Option Session) (t : Session) (h k : StatisticsHandler)
    → Fits h
    → with_handler h r ≡ some (t, k)
    → Counted [] h k
with_handler-Counted none t h k f q = cc
with_handler-Counted (some s) t h k f q = ground arith

pub step-Counted :
    (e : Event) (s t : Session) (h k : StatisticsHandler)
    → Fits h
    → step statistics_handler e s h ≡ some (t, k)
    → Counted (got e s) h k
unfolding step handle_read handle_read_error fail_write handle_write_error process on_session_closed
step-Counted runs_task s t h k f q = with_handler-Counted (run_posted s.posted s) t h k f q
step-Counted (receives bytes) s t h k f q = from (can_read bytes s) q
  where
    next : Session × StatisticsHandler
    next = handle_read statistics_handler bytes (record s { pending_reads = s.pending_reads - 1 }) h

    from :
        (b : Bool)
        → (if b then some next else some (s, h)) ≡ some (t, k)
        → Counted (if b then bytes ∷ [] else []) h k
    from true q = ground arith
    from false q = ground arith
step-Counted fails_to_read s t h k f q = from (ltb 0 s.pending_reads) q
  where
    next : Session × StatisticsHandler
    next = handle_read_error statistics_handler (record s { pending_reads = s.pending_reads - 1 }) h

    from : (b : Bool) → (if b then some next else some (s, h)) ≡ some (t, k) → Counted [] h k
    from true q = ground arith
    from false q = ground arith
step-Counted completes s t h k f q = with_handler-Counted (complete s.pending_writes s) t h k f q
step-Counted fails_to_write s t h k f q = from s.pending_writes q
  where
    from :
        (ws : List (List ℕ))
        → some (fail_write statistics_handler ws s h) ≡ some (t, k)
        → Counted [] h k
    from [] q = ground arith
    from (w ∷ ws) q = ground arith
