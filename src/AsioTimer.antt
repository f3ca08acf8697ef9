-- ===== src/AsioTimer.antt =====
-- asio-1.10/include/asio_timer.h and asio-1.10/src/asio_timer.cpp, `AsioTimer`: its members, how many
-- waits are outstanding, and how often its task ran. What the task does to its own timer is a
-- parameter; an exception of the task is dropped by the code.
pub mod Stopped
mod Tests
use asio_client.Common.{ℕ, ◌+◌, ◌-◌, Bool, true, false, List, [], ◌∷◌, ltb, if◌then◌else◌}

pub record AsioTimer : Type 0 where
  pub interval : ℕ
  pub has_task : Bool
  pub cycle : Bool
  pub pending_waits : ℕ
  pub runs : ℕ

unfoldable pub init : (interval : ℕ) (has_task : Bool) → AsioTimer
init interval has_task = record {
  interval = interval;
  has_task = has_task;
  cycle = false;
  pending_waits = 0;
  runs = 0;
}

unfoldable pub set_task_callback : Bool → AsioTimer → AsioTimer
set_task_callback given t = record t { has_task = given }

unfoldable pub start_timer : Bool → AsioTimer → AsioTimer
start_timer cycle t = record t { cycle = cycle; pending_waits = t.pending_waits + 1 }

unfoldable pub stop_timer : AsioTimer → AsioTimer
stop_timer t = record t { cycle = false }

run_task : (AsioTimer → AsioTimer) → AsioTimer → AsioTimer
run_task task t = if t.has_task then record (task t) { runs = (task t).runs + 1 } else t

wait_again : AsioTimer → AsioTimer
wait_again t = if t.cycle then record t { pending_waits = t.pending_waits + 1 } else t

-- The end of a wait, with an error or not.
unfoldable pub handle_timer : (AsioTimer → AsioTimer) → (error : Bool) → AsioTimer → AsioTimer
unfolding run_task wait_again
handle_timer task error t = if error then t else wait_again (run_task task t)
