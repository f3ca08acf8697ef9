-- ===== src/AsioTimer/Stopped.antt =====
-- asio-1.10/src/asio_timer.cpp, `AsioTimer`: a timer that is not to go on.
use asio_client.Common.{
  All, ℕ, ◌+◌, ◌-◌, ◌≤◌, ◌≡◌, refl, Bool, false, List, [], ◌∷◌, ltb, if◌then◌else◌, arith,
}
use asio_client.AsioTimer.{AsioTimer, set_task_callback, start_timer, stop_timer, handle_timer}

pub data Event : Type 0 where
  calls_set_task : Bool → Event
  calls_start : Bool → Event
  calls_stop : Event
  -- a wait ends, with an error or not
  ends : (error : Bool) → Event

module _ (task : AsioTimer → AsioTimer) where
  unfoldable pub step : Event → AsioTimer → AsioTimer
  unfolding set_task_callback start_timer stop_timer handle_timer
  step (calls_set_task given) t = set_task_callback given t
  step (calls_start cycle) t = start_timer cycle t
  step calls_stop t = stop_timer t
  step (ends error) t =
      if ltb 0 t.pending_waits
      then handle_timer task error (record t { pending_waits = t.pending_waits - 1 })
      else t

  unfoldable pub run : List Event → AsioTimer → AsioTimer
  unfolding step
  run [] t = t
  run (event ∷ events) t = run events (step event t)

-- Every event but a call of `startTimer`.
abbrev pub IsOther : Event → Type 0
IsOther (calls_set_task given) = Unit {0}
IsOther (calls_start cycle) = ⊥
IsOther calls_stop = Unit {0}
IsOther (ends error) = Unit {0}

-- `stopTimer`, or `startTimer` for one time.
abbrev pub Halts : Event → Type 0
Halts (calls_set_task given) = ⊥
Halts (calls_start cycle) = cycle ≡ false
Halts calls_stop = Unit {0}
Halts (ends error) = ⊥

-- The wait that an event starts.
abbrev pub started : Event → ℕ
started (calls_set_task given) = 0
started (calls_start cycle) = 1
started calls_stop = 0
started (ends error) = 0

-- The events that are ends of waits.
abbrev pub ended : List Event → ℕ
ended [] = 0
ended (calls_set_task given ∷ es) = ended es
ended (calls_start cycle ∷ es) = ended es
ended (calls_stop ∷ es) = ended es
ended (ends error ∷ es) = ended es + 1

-- A task that leaves its timer alone.
abbrev pub LeavesAlone : (AsioTimer → AsioTimer) → Type 0
LeavesAlone task = (t : AsioTimer) → task t ≡ t

module _ (task : AsioTimer → AsioTimer) (alone : LeavesAlone task) where
  abbrev Falls : ℕ → AsioTimer → AsioTimer → Type 0
  Falls n t u =
      (u.cycle ≡ false)
      × (u.pending_waits ≡ t.pending_waits - n)
      × (u.runs + u.pending_waits ≤ t.runs + t.pending_waits)

  step-Falls :
      (e : Event) (t : AsioTimer)
      → IsOther e
      → t.cycle ≡ false
      → Falls (ended (e ∷ [])) t (step task e t)
  unfolding step set_task_callback stop_timer handle_timer
  step-Falls (calls_set_task given) t o h = ground arith
  step-Falls (calls_start cycle) t o h = elim o [ ]
  step-Falls calls_stop t o h = ground arith
  step-Falls (ends error) t o h =
      ground (arith, alone (record t { pending_waits = t.pending_waits - 1 }))

  ended_cons : (e : Event) (es : List Event) → ended (e ∷ es) ≡ ended (e ∷ []) + ended es
  ended_cons (calls_set_task given) es = omega arith
  ended_cons (calls_start cycle) es = omega arith
  ended_cons calls_stop es = omega arith
  ended_cons (ends error) es = omega arith

  run-Falls :
      (es : List Event) (t : AsioTimer)
      → All IsOther es
      → t.cycle ≡ false
      → Falls (ended es) t (run task es t)
  unfolding run
  run-Falls [] t o h = (h, omega arith, omega arith)
  run-Falls (event ∷ es) t o h =
      let (still, waits, runs) = step-Falls event t o.0 h in
      let (still', waits', runs') = run-Falls es (step task event t) o.1 still in
      (still', omega (arith, waits, waits', ended_cons event es), omega (arith, runs, runs'))

  halts_lem :
      (e : Event) (t : AsioTimer)
      → Halts e
      → let u = step task e t in
        (u.cycle ≡ false) × (u.pending_waits ≡ t.pending_waits + started e) × (u.runs ≡ t.runs)
  unfolding step start_timer stop_timer
  halts_lem (calls_set_task given) t h = elim h [ ]
  halts_lem (calls_start cycle) t h = (h, refl, refl)
  halts_lem calls_stop t h = ground arith
  halts_lem (ends error) t h = elim h [ ]

  -- A call of `stopTimer`, or of `startTimer` for one time, brings a timer to its end, if its task leaves
  -- it alone, whatever the timer did before: until the next `startTimer` each end of a wait leaves one wait
  -- less of those that were outstanding, the one that this `startTimer` adds among them, none is added, so
  -- that none is left after as many, and the task runs at most once for each of them.
  pub run-stopped :
      (e : Event) (es : List Event) (t : AsioTimer)
      → Halts e
      → All IsOther es
      → let u = run task (e ∷ es) t in
        (u.cycle ≡ false)
        × (u.pending_waits ≡ (t.pending_waits + started e) - ended es)
        × (u.runs + u.pending_waits ≤ t.runs + (t.pending_waits + started e))
  unfolding run
  run-stopped e es t h o =
      let (halted, waits, runs) = halts_lem e t h in
      let (still, waits', runs') = run-Falls es (step task e t) o halted in
      (still, omega (arith, waits, waits'), omega (arith, waits, runs, runs'))
