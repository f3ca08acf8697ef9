-- ===== src/ServerMulti/Session/Reading.antt =====
-- asio-1.28_server_multi/src/test.cpp, `Session`: how long a session reads.
use asio_client.Common.{
  ℕ, ◌+◌, ◌-◌, ◌<◌, ◌≡◌, refl, Bool, true, false, Option, none, some, List, [], ◌∷◌, ◌++◌, arith,
  if◌then◌else◌,
}
use asio_client.ServerMulti.Session.{
  DataHandler, Task, Session, reads, writes, safe_write, do_read, do_write, write_front, is_empty,
  pop_front, run_task, handle_write, handle_read, handle_write_error,
}
use asio_client.ServerMulti.Session.Runs.{
  Event, runs_task, receives, fails_to_read, completes, fails_to_write, run_posted, complete,
  fail_write, can_read, with_handler, step,
}

-- The reads that are still to be started.
abbrev pub reads_posted : List Task → ℕ
reads_posted [] = 0
reads_posted (reads ∷ tasks) = reads_posted tasks + 1
reads_posted (writes bytes ∷ tasks) = reads_posted tasks

abbrev pub IsReading : Session → Type 0
IsReading s = 0 < s.pending_reads + reads_posted s.posted

-- Every event but the failure of a read, as when the client disconnects.
abbrev pub Stays : Event → Type 0
Stays runs_task = Unit {0}
Stays (receives bytes) = Unit {0}
Stays fails_to_read = ⊥
Stays completes = Unit {0}
Stays fails_to_write = Unit {0}

reads_posted-append :
    (ts us : List Task) → reads_posted (ts ++ us) ≡ reads_posted ts + reads_posted us
reads_posted-append [] us = omega arith
reads_posted-append (reads ∷ ts) us = omega (arith, reads_posted-append ts us)
reads_posted-append (writes bytes ∷ ts) us = reads_posted-append ts us

run_posted-IsReading :
    (tasks : List Task) (s t : Session)
    → s.posted ≡ tasks
    → IsReading s
    → run_posted tasks s ≡ some t
    → IsReading t
unfolding run_posted run_task do_read is_empty do_write
run_posted-IsReading [] s t p h e = ground arith
run_posted-IsReading (reads ∷ tasks) s t p h e = ground arith
run_posted-IsReading (writes bytes ∷ tasks) s t p h e = from s.write_queue e
  where
    from :
        (queue : List (List ℕ))
        → (if is_empty queue
            then write_front
                (queue ++ bytes ∷ [])
                (record s { posted = tasks; write_queue = queue ++ bytes ∷ [] })
            else some (record s { posted = tasks; write_queue = queue ++ bytes ∷ [] }))
          ≡ some t
        → IsReading t
    from [] e = ground arith
    from (m ∷ queue) e = ground arith

complete-IsReading :
    (ws queue : List (List ℕ)) (s t : Session)
    → s.write_queue ≡ queue
    → IsReading s
    → complete ws s ≡ some t
    → IsReading t
unfolding complete handle_write pop_front is_empty do_write write_front
complete-IsReading [] queue s t q h e = ground arith
complete-IsReading (w ∷ ws) [] s t q h e = ground arith
complete-IsReading (w ∷ ws) (m ∷ []) s t q h e = ground arith
complete-IsReading (w ∷ ws) (m ∷ n ∷ queue) s t q h e = ground arith

module _ {H : Type 0} (handler : DataHandler H) where
  same-IsReading :
      (r : Option Session) (s : Session) (h k : H) (t : Session)
      → ((u : Session) → r ≡ some u → IsReading u)
      → with_handler h r ≡ some (t, k)
      → IsReading t
  same-IsReading none s h k t keeps e = cc
  same-IsReading (some u) s h k t keeps e = ground (arith, keeps u refl)

  -- A session whose client stays goes on reading.
  pub step-IsReading :
      (e : Event) (s t : Session) (h k : H)
      → Stays e
      → IsReading s
      → step handler e s h ≡ some (t, k)
      → IsReading t
  unfolding step handle_read safe_write do_read fail_write handle_write_error
  step-IsReading runs_task s t h k g r e =
      same-IsReading (run_posted s.posted s) s h k t (λ u. run_posted-IsReading s.posted s u refl r)
        e
  step-IsReading (receives bytes) s t h k g r e = from (can_read bytes s) e
    where
      next : Session × H
      next = handle_read handler bytes (record s { pending_reads = s.pending_reads - 1 }) h

      from : (b : Bool) → (if b then some next else some (s, h)) ≡ some (t, k) → IsReading t
      from true e = ground (
        arith,
        reads_posted-append s.posted (writes (handler.process bytes s.session_id h).0 ∷ []),
      )
      from false e = ground arith
  step-IsReading fails_to_read s t h k g r e = elim g [ ]
  step-IsReading completes s t h k g r e =
      same-IsReading (complete s.pending_writes s) s h k t
        (λ u. complete-IsReading s.pending_writes s.write_queue s u refl r) e
  step-IsReading fails_to_write s t h k g r e = from s.pending_writes e
    where
      from : (ws : List (List ℕ)) → some (fail_write handler ws s h) ≡ some (t, k) → IsReading t
      from [] e = ground arith
      from (w ∷ ws) e = ground arith
