-- ===== src/Server/Threads/Stop.antt =====
-- asio-1.28_server_multi_protocol/src/test.cpp, `Server::stop`: how it comes to its end.
use asio_client.Common.{
  runs_next, ℕ, ◌+◌, ◌≡◌, ◌⊎◌, inl, inr, refl, subst, ◌∙◌, true, false, Option, none, some, List,
  [], ◌∷◌, arith,
}
use asio_client.Protocol.Factory.{ProtocolFactory}
use asio_client.Workers.{
  Worker, turn_at, remaining, remaining-turn_at, turn_at-some, all_ended-remaining,
}
use asio_client.Server.Threads.{
  Threads, Event, makes_thread, finishes_construction, turns, accepts, changes, calls_stop, joins,
  make_thread, finish_construction, turned, has_work, stop, join, step, run,
}

-- The server was made, its `io_context` is stopped and its acceptor closed.
abbrev pub IsStopped : Threads → Type 0
IsStopped v =
    (v.constructed ≡ true) × (v.to_make ≡ 0) × (v.stopped ≡ true) × (v.server.acceptor_open ≡ false)

-- The steps of the threads.
abbrev pub is_turn : Event → ℕ
is_turn makes_thread = 0
is_turn finishes_construction = 0
is_turn (turns n) = 1
is_turn (accepts time accepted) = 0
is_turn (changes id s) = 0
is_turn calls_stop = 0
is_turn joins = 0

abbrev pub turns_of : List Event → ℕ
turns_of [] = 0
turns_of (e ∷ es) = is_turn e + turns_of es

abbrev Goes : Event → Threads → Threads → Type 0
Goes e v u =
    IsStopped u
    × (remaining u.workers + is_turn e ≡ remaining v.workers)
    × (u.server.sessions ≡ v.server.sessions)

turns-Goes :
    (n : ℕ) (v u : Threads) (r : Option (List Worker))
    → IsStopped v
    → turn_at n false v.workers ≡ r
    → turned v r ≡ some u
    → Goes (turns n) v u
unfolding turned has_work
turns-Goes n v u none h q e = cc
turns-Goes n v u (some ws) h q e = ground (arith, remaining-turn_at n v.workers ws q)

module _ (protocols : ProtocolFactory) (memory : List ℕ) where
  step-Goes :
      (e : Event) (v u : Threads) → IsStopped v → step protocols memory e v ≡ some u → Goes e v u
  unfolding step make_thread finish_construction stop join has_work
  step-Goes makes_thread v u h e = ground arith
  step-Goes finishes_construction v u h e = ground arith
  step-Goes (turns n) v u h e = turns-Goes n v u (turn_at n false v.workers) h refl (ground arith)
  step-Goes (accepts time accepted) v u h e = ground arith
  step-Goes (changes id s) v u h e = ground arith
  step-Goes calls_stop v u h e = ground arith
  step-Goes joins v u h e = ground (arith, all_ended-remaining v.workers)

  next_step :
      (v : Threads)
      → IsStopped v
      → ((n : ℕ) × (t : Threads) × (step protocols memory (turns n) v ≡ some t))
        ⊎ ((t : Threads) × (step protocols memory joins v ≡ some t))
  unfolding step join turned has_work
  next_step v h = elim (turn_at-some v.workers) [
    | inl all ↦ inr (record v { workers = [] }, ground arith)
    | inr next ↦
        inl (next.0, record v { workers = next.1; stopped = true }, leaves next.0 next.1 next.2)
  ]
    where
      leaves :
          (n : ℕ) (ws : List Worker)
          → turn_at n false v.workers ≡ some ws
          → step protocols memory (turns n) v ≡ some (record v { workers = ws; stopped = true })
      leaves n ws e = ground (arith, e)

  stops-IsStopped : (v t : Threads) → v.to_make ≡ 0 → stop v ≡ some t → Goes calls_stop v t
  unfolding stop
  stops-IsStopped v t made e = ground arith

  run-Goes :
      (es : List Event) (v u : Threads)
      → IsStopped v
      → run protocols memory es v ≡ some u
      → IsStopped u
        × (remaining u.workers + turns_of es ≡ remaining v.workers)
        × (u.server.sessions ≡ v.server.sessions)
  unfolding run
  run-Goes [] v u h e =
      let same : v ≡ u = cc in (subst IsStopped same h, ground arith, ground arith)
  run-Goes (event ∷ es) v u h e =
      let (t, one, rest) = runs_next (step protocols memory) event es v u e in
      let (stops, fewer, same) = step-Goes event v t h one in
      let (stops', fewer', same') = run-Goes es t u stops rest in
      (stops', omega (arith, fewer, fewer'), same' ∙ same)

  -- `stop` comes to its end: after a call of it for a server whose threads have all been made, whatever
  -- the threads do and whatever its sessions have under way, the `io_context` stays stopped and the
  -- acceptor closed, each step of a thread has left one less that has not ended, no session has been
  -- added or changed, and as long as the threads are not joined one of them has a step to make, or the
  -- `join` of all returns.
  pub run-IsStopped :
      (es : List Event) (v u : Threads)
      → v.to_make ≡ 0
      → run protocols memory (calls_stop ∷ es) v ≡ some u
      → IsStopped u
        × (remaining u.workers + turns_of es ≡ remaining v.workers)
        × (u.server.sessions ≡ v.server.sessions)
        × (((n : ℕ) × (t : Threads) × (step protocols memory (turns n) u ≡ some t))
            ⊎ ((t : Threads) × (step protocols memory joins u ≡ some t)))
  unfolding run step
  run-IsStopped es v u made e =
      let (t, one, rest) = runs_next (step protocols memory) calls_stop es v u e in
      let (stopped, count, same) = stops-IsStopped v t made one in
      let (stopped', fewer, same') = run-Goes es t u stopped rest in
      (stopped', omega (arith, count, fewer), same' ∙ same, next_step u stopped')
