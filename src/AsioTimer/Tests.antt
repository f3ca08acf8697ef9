-- ===== src/AsioTimer/Tests.antt =====
-- Runs of a timer, and the theorem at an input that meets its hypotheses.
use asio_client.Common.{◌+◌, ◌≤◌, ◌≡◌, refl, true, false, [], ◌∷◌, arith}
use asio_client.AsioTimer.{AsioTimer, init, start_timer, stop_timer, handle_timer}
use asio_client.AsioTimer.Stopped.{calls_start, calls_stop, ends, run, run-stopped}

abbrev alone : AsioTimer → AsioTimer
alone t = t

-- A periodic timer goes on until it is stopped, and then runs its task once more.
periodic_run :
    run alone
      (calls_start true ∷ ends false ∷ ends false ∷ calls_stop ∷ ends false ∷ ends false ∷ [])
      (init 1000 true)
    ≡ record { interval = 1000; has_task = true; cycle = false; pending_waits = 0; runs = 3 }
unfolding run start_timer stop_timer handle_timer init
periodic_run = refl

-- A periodic timer during a wait.
abbrev periodic : AsioTimer
periodic = record { interval = 1000; has_task = true; cycle = true; pending_waits = 1; runs = 7 }

run-stopped_example :
    let u = run alone (calls_stop ∷ ends false ∷ []) periodic in
    (u.cycle ≡ false) × (u.pending_waits ≡ 0) × (u.runs + u.pending_waits ≤ 8)
run-stopped_example =
    run-stopped alone (λ t. refl) calls_stop (ends false ∷ []) periodic tt (omega arith)
