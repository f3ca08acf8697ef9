-- ===== src/ServerMulti/Statistics/Sessions.antt =====
-- asio-1.28_server_multi/src/test.cpp, `StatisticsHandler`: schedules in which each session makes the same calls.
use mathlib.Core.Quot
use mathlib.Core.Quot.{Quot}
use asio_client.Common.{
  All, ℕ, ◌≡◌, ◌≢◌, refl, sym, ap, ◌∙◌, inl, inr, true, false, List, [], ◌∷◌, ◌++◌, bytes_beq,
  bytes_beq_iff, Bool-cases, arith, if◌then◌else◌,
}
use asio_client.ServerMulti.Statistics.{StatisticsHandler}
use asio_client.ServerMulti.Statistics.Schedule.{
  Call, session_of, call_all, summary, Swap, swap, Schedule, schedule, call_all-schedule,
}

-- The calls of one session.
abbrev pub calls_of : List ℕ → List Call → List Call
calls_of id [] = []
calls_of id (c ∷ cs) =
    let rest = calls_of id cs in if bytes_beq (session_of c) id then c ∷ rest else rest

abbrev Elsewhere : List ℕ → Call → Type 0
Elsewhere id c = bytes_beq (session_of c) id ≡ false

-- The first call of a session that makes one.
abbrev Split : Call → List Call → List Call → Type 0
Split c rest ds =
    (before : List Call) × (later : List Call) × (ds ≡ before ++ c ∷ later)
    × All (Elsewhere (session_of c)) before

calls_of-Split :
    (c : Call) (rest ds : List Call) → calls_of (session_of c) ds ≡ c ∷ rest → Split c rest ds
calls_of-Split c rest [] e = cc
calls_of-Split c rest (d ∷ ds) e = elim (Bool-cases (bytes_beq (session_of d) (session_of c))) [
  | inl here ↦ ([], ds, ground arith, tt)
  | inr there ↦
      let (before, later, same, all) = calls_of-Split c rest ds (ground arith) in
      (d ∷ before, later, ap (◌∷◌ d) same, (there, all))
]

-- What two schedules have in front of them changes neither.
schedule-cons :
    (c : Call) (cs ds : List Call)
    → schedule cs ≡ schedule ds
    → schedule (c ∷ cs) ≡ schedule (c ∷ ds)
schedule-cons c cs ds same = ap prefix same
  where
    from : {cs ds : List Call} → Swap cs ds → schedule (c ∷ cs) ≡ schedule (c ∷ ds)
    from (swap before a b later apart) = Quot.sound (swap (c ∷ before) a b later apart)

    prefix : Schedule → Schedule
    prefix = Quot.lift Quot.Quot-set (λ es. schedule (c ∷ es)) (λ cs ds s. from s)

not_equal : (c d : Call) → Elsewhere (session_of c) d → session_of d ≢ session_of c
not_equal c d apart e = let same = (bytes_beq_iff (session_of d) (session_of c)).1 e in cc

not_here :
    (c d : Call) (id : List ℕ)
    → Elsewhere (session_of c) d
    → bytes_beq (session_of d) id ≡ true
    → bytes_beq (session_of c) id ≡ false
not_here c d id apart here = elim (Bool-cases (bytes_beq (session_of c) id)) [
  | inr other ↦ other
  | inl same ↦
      let p = (bytes_beq_iff (session_of c) id).0 same in
      let q = (bytes_beq_iff (session_of d) id).0 here in absurd (not_equal c d apart (q ∙ sym p))
]

schedule-front :
    (c : Call) (before later : List Call)
    → All (Elsewhere (session_of c)) before
    → schedule (before ++ c ∷ later) ≡ schedule (c ∷ before ++ later)
schedule-front c [] later all = refl
schedule-front c (d ∷ before) later (apart, all) =
    schedule-cons d _ _ (schedule-front c before later all)
    ∙ Quot.sound (swap [] d c (before ++ later) (not_equal c d apart))

-- Taking the first call of a session out.
calls_of-front :
    (id : List ℕ) (c : Call) (before later : List Call)
    → All (Elsewhere (session_of c)) before
    → calls_of id (before ++ c ∷ later) ≡ calls_of id (c ∷ before ++ later)
calls_of-front id c [] later all = refl
calls_of-front id c (d ∷ before) later (apart, all) =
    elim (Bool-cases (bytes_beq (session_of d) id)) [
      | inr p ↦ rw (p) (calls_of-front id c before later all)
      | inl p ↦
          let other = not_here c d id apart p in
          rw (p, other) (ap (◌∷◌ d) (calls_of-front id c before later all ∙ rw other refl))
    ]

calls_of-cons :
    (id : List ℕ) (c : Call) (cs ds : List Call)
    → calls_of id (c ∷ cs) ≡ calls_of id (c ∷ ds)
    → calls_of id cs ≡ calls_of id ds
calls_of-cons id c cs ds same = elim (Bool-cases (bytes_beq (session_of c) id)) [
  | inl p ↦ ground arith
  | inr p ↦ ground arith
]

first_here :
    (c : Call) (cs : List Call) → calls_of (session_of c) (c ∷ cs) ≡ c ∷ calls_of (session_of c) cs
first_here c cs = rw ((bytes_beq_iff (session_of c) (session_of c)).1 refl) refl

calls_of-schedule :
    (cs ds : List Call)
    → ((id : List ℕ) → calls_of id cs ≡ calls_of id ds)
    → schedule cs ≡ schedule ds
calls_of-schedule [] [] same = refl
calls_of-schedule [] (d ∷ ds) same =
    let none_there : [] ≡ d ∷ calls_of (session_of d) ds = same (session_of d) ∙ first_here d ds in
    cc
calls_of-schedule (c ∷ cs) ds same =
    let (before, later, split, all) =
      calls_of-Split c (calls_of (session_of c) cs) ds
        (sym (same (session_of c)) ∙ first_here c cs) in
    let rest = calls_of-schedule cs (before ++ later) (λ id.
      calls_of-cons id c cs (before ++ later)
        (same id ∙ ap (calls_of id) split ∙ calls_of-front id c before later all)) in
    schedule-cons c cs (before ++ later) rest
    ∙ sym (schedule-front c before later all)
    ∙ ap schedule (sym split)

-- Which session of which thread gets the lock first makes no difference for the totals, the number of
-- active sessions and what is counted for each session: where each session makes the same calls in the
-- same order in two sequences of calls, these lead from the same handler to the same summary of
-- all this, however the calls of different sessions stand to each other.
pub call_all-sessions :
    (cs ds : List Call) (h : StatisticsHandler)
    → ((id : List ℕ) → calls_of id cs ≡ calls_of id ds)
    → summary (call_all cs h) ≡ summary (call_all ds h)
call_all-sessions cs ds h same = call_all-schedule cs ds h (calls_of-schedule cs ds same)
