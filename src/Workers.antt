-- ===== src/Workers.antt =====
-- The threads of the two servers, asio-1.28_server_multi_protocol/src/test.cpp, `Server::workers_`, and
-- asio-1.28_server_multi/src/test.cpp, `IOContextPool::threads_`: each calls `run` of an `io_context`,
-- which returns as soon as there is no work left for it or it is stopped.
use asio_client.Common.{
  ℕ, zero, suc, ◌+◌, ◌≡◌, ◌⊎◌, inl, inr, refl, ap, Bool, true, false, ◌&&◌, ◌||◌, Option, none,
  some, List, [], ◌∷◌, arith,
}

pub data Worker : Type 0 where
  -- made, and not in `run` yet
  starting : Worker
  running : Worker
  ended : Worker

-- The next step of a thread: into `run`, or out of it where there is nothing to do.
abbrev pub turn : (busy : Bool) → Worker → Option Worker
turn true starting = some running
turn false starting = some ended
turn true running = none
turn false running = some ended
turn busy ended = none

abbrev pub kept : Worker → Option (List Worker) → Option (List Worker)
kept w none = none
kept w (some ws) = some (w ∷ ws)

abbrev pub turned : List Worker → Option Worker → Option (List Worker)
turned ws none = none
turned ws (some w) = some (w ∷ ws)

-- The step of the thread of that number; `none`: there is none, or it has none to make.
unfoldable pub turn_at : ℕ → (busy : Bool) → List Worker → Option (List Worker)
turn_at n busy [] = none
turn_at zero busy (w ∷ ws) = turned ws (turn busy w)
turn_at (suc n) busy (w ∷ ws) = kept w (turn_at n busy ws)

abbrev pub is_running : Worker → Bool
is_running starting = false
is_running running = true
is_running ended = false

-- Some thread is in `run`.
abbrev pub any_running : List Worker → Bool
any_running [] = false
any_running (w ∷ ws) = is_running w || any_running ws

abbrev pub has_ended : Worker → Bool
has_ended starting = false
has_ended running = false
has_ended ended = true

-- `join` of all returns.
abbrev pub all_ended : List Worker → Bool
all_ended [] = true
all_ended (w ∷ ws) = has_ended w && all_ended ws

-- The threads that have not ended.
abbrev pub remaining : List Worker → ℕ
remaining [] = 0
remaining (starting ∷ ws) = remaining ws + 1
remaining (running ∷ ws) = remaining ws + 1
remaining (ended ∷ ws) = remaining ws

-- Where there is nothing to do, each step of a thread ends it.
pub remaining-turn_at :
    (n : ℕ) (ws us : List Worker) → turn_at n false ws ≡ some us → remaining us + 1 ≡ remaining ws
unfolding turn_at
remaining-turn_at n [] us e = cc
remaining-turn_at zero (starting ∷ ws) us e = ground arith
remaining-turn_at zero (running ∷ ws) us e = ground arith
remaining-turn_at zero (ended ∷ ws) us e = cc
remaining-turn_at (suc n) (w ∷ ws) us e =
    from w (turn_at n false ws) (λ vs. remaining-turn_at n ws vs) e
  where
    from :
        (w : Worker) (r : Option (List Worker))
        → ((vs : List Worker) → r ≡ some vs → remaining vs + 1 ≡ remaining ws)
        → kept w r ≡ some us
        → remaining us + 1 ≡ remaining (w ∷ ws)
    from w none rest e = cc
    from starting (some vs) rest e = ground (arith, rest vs refl)
    from running (some vs) rest e = ground (arith, rest vs refl)
    from ended (some vs) rest e = ground (arith, rest vs refl)

-- And as long as a thread has not ended, one can make a step.
pub turn_at-some :
    (ws : List Worker)
    → (all_ended ws ≡ true) ⊎ ((n : ℕ) × (us : List Worker) × (turn_at n false ws ≡ some us))
unfolding turn_at
turn_at-some [] = inl refl
turn_at-some (starting ∷ ws) = inr (zero, ended ∷ ws, refl)
turn_at-some (running ∷ ws) = inr (zero, ended ∷ ws, refl)
turn_at-some (ended ∷ ws) = elim (turn_at-some ws) [
  | inl all ↦ inl all
  | inr later ↦ inr (suc later.0, ended ∷ later.1, ap (kept ended) later.2)
]

pub all_ended-remaining : (ws : List Worker) → all_ended ws ≡ true → remaining ws ≡ 0
all_ended-remaining [] e = refl
all_ended-remaining (starting ∷ ws) e = cc
all_ended-remaining (running ∷ ws) e = cc
all_ended-remaining (ended ∷ ws) e = all_ended-remaining ws e

-- No thread that has ended is in `run`.
pub any_running-all_ended : (ws : List Worker) → all_ended ws ≡ true → any_running ws ≡ false
any_running-all_ended [] e = refl
any_running-all_ended (starting ∷ ws) e = cc
any_running-all_ended (running ∷ ws) e = cc
any_running-all_ended (ended ∷ ws) e = any_running-all_ended ws e

pub turn_at-all_ended :
    (n : ℕ) (busy : Bool) (ws : List Worker) → all_ended ws ≡ true → turn_at n busy ws ≡ none
unfolding turn_at
turn_at-all_ended n busy [] e = refl
turn_at-all_ended zero true (starting ∷ ws) e = cc
turn_at-all_ended zero false (starting ∷ ws) e = cc
turn_at-all_ended zero true (running ∷ ws) e = refl
turn_at-all_ended zero false (running ∷ ws) e = cc
turn_at-all_ended zero true (ended ∷ ws) e = refl
turn_at-all_ended zero false (ended ∷ ws) e = refl
turn_at-all_ended (suc n) busy (starting ∷ ws) e = cc
turn_at-all_ended (suc n) busy (running ∷ ws) e = cc
turn_at-all_ended (suc n) busy (ended ∷ ws) e = ap (kept ended) (turn_at-all_ended n busy ws e)
