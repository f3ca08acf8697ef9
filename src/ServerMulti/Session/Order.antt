-- ===== src/ServerMulti/Session/Order.antt =====
-- asio-1.28_server_multi/src/test.cpp, `Session`: the answers that a client gets while no write fails.
use asio_client.Common.{ℕ, ◌≡◌, Option, none, some, List, [], ◌∷◌, ◌++◌, if◌then◌else◌, take}
use asio_client.ServerMulti.Session.{DataHandler, Task, Session, reads, writes}
use asio_client.ServerMulti.Session.Runs.{
  Event, runs_task, receives, fails_to_read, completes, fails_to_write, can_read, step,
}

-- Just the front of the queue is being written.
abbrev pub IsOrderly : Session → Type 0
IsOrderly s = s.pending_writes ≡ take 1 s.write_queue

-- The answers whose `safe_write` is posted.
abbrev pub waiting : List Task → List (List ℕ)
waiting [] = []
waiting (reads ∷ tasks) = waiting tasks
waiting (writes bytes ∷ tasks) = bytes ∷ waiting tasks

-- The answers that were sent, those in the queue and those that are posted.
abbrev pub answers : Session → List (List ℕ)
answers s = (s.written ++ s.write_queue) ++ waiting s.posted

-- Every event but the failure of a write.
abbrev pub Succeeds : Event → Type 0
Succeeds runs_task = Unit {0}
Succeeds (receives bytes) = Unit {0}
Succeeds fails_to_read = Unit {0}
Succeeds completes = Unit {0}
Succeeds fails_to_write = ⊥

abbrev Keeps : Session → Session → Type 0
Keeps s u = IsOrderly u × (answers u ≡ answers s)

module _ {H : Type 0} (handler : DataHandler H) where
  -- What a read adds to them.
  abbrev pub answered : Event → Session → H → List (List ℕ)
  answered runs_task s h = []
  answered (receives bytes) s h =
      if can_read bytes s then (handler.process bytes s.session_id h).0 ∷ [] else []
  answered fails_to_read s h = []
  answered completes s h = []
  answered fails_to_write s h = []

  abbrev after : Option (Session × H) → Session → H → Session × H
  after none s h = (s, h)
  after (some next) s h = next

  abbrev pub all_answered : List Event → Session → H → List (List ℕ)
  all_answered [] s h = []
  all_answered (e ∷ es) s h =
      let next = after (step handler e s h) s h in answered e s h ++ all_answered es next.0 next.1

  abbrev IsNext : Event → Session → H → Session × H → Type 0
  IsNext e s h next = IsOrderly next.0 × (answers next.0 ≡ answers s ++ answered e s h)
