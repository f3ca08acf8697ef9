-- ===== src/Server/Threads/Early.antt =====
-- asio-1.28_server_multi_protocol/src/test.cpp, `Server::Server`: threads that start before there is work.
use asio_client.Common.{
  runs-keeps_any, ℕ, zero, suc, ◌+◌, ◌-◌, ◌≡◌, refl, ap, subst, ◌∙◌, true, false, Option, some,
  List, [], ◌∷◌, ◌++◌, length, length-append, arith,
}
use asio_client.Protocol.Factory.{ProtocolFactory}
use asio_client.Session.{DataHandler}
use asio_client.Workers.{
  Worker, starting, ended, turn_at, kept, all_ended, turn_at-all_ended, any_running-all_ended,
}
use asio_client.Server.{do_accept}
use asio_client.Server.Threads.{
  Threads, Event, makes_thread, finishes_construction, turns, accepts, changes, calls_stop, joins,
  init, worker_count, make_thread, finish_construction, turned, has_work, stop, join, step, run,
}

-- Each thread goes into `run` and out of it before the next is made, and before `do_accept` is called.
abbrev pub early : (first n : ℕ) → List Event
early first zero = finishes_construction ∷ []
early first (suc n) = makes_thread ∷ turns first ∷ early (first + 1) n

-- What this leaves.
abbrev pub emptied : ℕ → Threads → Threads
emptied zero v = record v { server = do_accept v.server; constructed = true }
emptied (suc n) v =
    emptied n
      (record v { to_make = v.to_make - 1; workers = v.workers ++ ended ∷ []; stopped = true })

-- A thread that was just made finds no work.
turn_at_last :
    (ws : List Worker) → turn_at (length ws) false (ws ++ starting ∷ []) ≡ some (ws ++ ended ∷ [])
unfolding turn_at
turn_at_last [] = refl
turn_at_last (w ∷ ws) = ap (kept w) (turn_at_last ws)

abbrev IsIdle : Threads → Type 0
IsIdle v = (v.constructed ≡ false) × (v.server.accepting ≡ false) × (v.server.sessions ≡ [])

-- All threads have ended, the constructor is through, and its `async_accept` is outstanding.
abbrev pub IsDeaf : Threads → Type 0
IsDeaf v =
    (all_ended v.workers ≡ true)
    × (v.to_make ≡ 0)
    × (v.constructed ≡ true)
    × (v.server.accepting ≡ true)
    × (v.server.sessions ≡ [])

all_ended-append : (ws : List Worker) → all_ended ws ≡ true → all_ended (ws ++ ended ∷ []) ≡ true
all_ended-append [] e = refl
all_ended-append (w ∷ ws) e = ground (arith, all_ended-append ws)

emptied-IsDeaf :
    (n : ℕ) (v : Threads)
    → v.to_make ≡ n
    → all_ended v.workers ≡ true
    → v.server.sessions ≡ []
    → IsDeaf (emptied n v)
unfolding do_accept
emptied-IsDeaf zero v m e s = (e, m, refl, refl, s)
emptied-IsDeaf (suc n) v m e s =
    emptied-IsDeaf n
      (record v { to_make = v.to_make - 1; workers = v.workers ++ ended ∷ []; stopped = true })
      (omega (arith, m)) (all_ended-append v.workers e) s

abbrev made_thread : Threads → Threads
made_thread v = record v { to_make = v.to_make - 1; workers = v.workers ++ starting ∷ [] }

abbrev gone : Threads → Threads
gone v = record v { to_make = v.to_make - 1; workers = v.workers ++ ended ∷ []; stopped = true }

module _ (protocols : ProtocolFactory) (memory : List ℕ) where
  left_at_once :
      (v : Threads)
      → IsIdle v
      → step protocols memory (turns (length v.workers)) (made_thread v) ≡ some (gone v)
  unfolding step turned has_work
  left_at_once v h =
      let nothing : has_work (made_thread v) ≡ false = ground arith in
      ground (arith, nothing, turn_at_last v.workers)

  run-early :
      (n : ℕ) (v : Threads)
      → v.to_make ≡ n
      → IsIdle v
      → run protocols memory (early (length v.workers) n) v ≡ some (emptied n v)
  unfolding run step make_thread finish_construction turned has_work
  run-early zero v m h = ground arith
  run-early (suc n) v m h =
      let made : make_thread v ≡ some (made_thread v) = ground arith in
      let left : step protocols memory (turns (length v.workers)) (made_thread v) ≡ some (gone v) =
        left_at_once v h in
      let next : run protocols memory (early (length (gone v).workers) n) (gone v)
          ≡ some (emptied n (gone v)) =
        run-early n (gone v) (omega (arith, m)) h in
      rw (made, left)
        (subst (λ k. run protocols memory (early k n) (gone v) ≡ some (emptied n (gone v))) counted
          next)
    where
      counted : length (v.workers ++ ended ∷ []) ≡ length v.workers + 1
      counted = length-append v.workers (ended ∷ []) ∙ omega arith

  step-IsDeaf :
      (e : Event) (v u : Threads) → IsDeaf v → step protocols memory e v ≡ some u → IsDeaf u
  unfolding step make_thread finish_construction turned stop join
  step-IsDeaf makes_thread v u h e = ground arith
  step-IsDeaf finishes_construction v u h e = ground arith
  step-IsDeaf (turns n) v u h e = ground (arith, turn_at-all_ended n (has_work v) v.workers)
  step-IsDeaf (accepts time accepted) v u h e = ground (arith, any_running-all_ended v.workers)
  step-IsDeaf (changes id s) v u h e = ground (arith, any_running-all_ended v.workers)
  step-IsDeaf calls_stop v u h e = ground arith
  step-IsDeaf joins v u h e = ground arith

  -- The threads of the server can end before it accepts anything: the constructor makes them before it
  -- calls `do_accept`, and each may find that there is no work in between. From then on, whatever
  -- happens, no connection is ever served, though the `async_accept` stays outstanding.
  pub run-IsDeaf :
      (handler : Option DataHandler) (size hardware counter : ℕ) (es : List Event) (u : Threads)
      → run protocols memory es
          (emptied (worker_count size hardware) (init handler size hardware counter))
        ≡ some u
      → (run protocols memory
            (early 0 (worker_count size hardware))
            (init handler size hardware counter)
          ≡ some (emptied (worker_count size hardware) (init handler size hardware counter)))
        × IsDeaf u
  unfolding run init
  run-IsDeaf handler size hardware counter es u e =
      let n = worker_count size hardware in
      let v = init handler size hardware counter in
      (
        run-early n v refl (refl, refl, refl),
        runs-keeps_any (step protocols memory) IsDeaf step-IsDeaf es (emptied n v) u
            (emptied-IsDeaf n v refl refl refl) e,
      )
