-- ===== src/ServerMulti/Statistics/Schedule.antt =====
-- asio-1.28_server_multi/src/test.cpp, `StatisticsHandler`: the order in which the sessions of different
-- threads get the lock.
use mathlib.Core.Path.{fun_ext}
use mathlib.Core.Quot
use mathlib.Core.Quot.{Quot}
use asio_client.Common.{
  ℕ, ◌≡◌, ◌≢◌, refl, sym, ap, ◌∙◌, inl, inr, Option, some, none, List, [], ◌∷◌, ◌++◌, length,
  bytes_eq, bytes_beq, bytes_beq_iff, lookup, lookup-insert, lookup-erase, Bool-cases, arith,
  add_size, if◌then◌else◌,
}
use asio_client.ServerMulti.Statistics.{
  StatisticsHandler, process, on_session_created, on_session_closed, value_of,
}

pub data Call : Type 0 where
  processes : (session_id bytes : List ℕ) → Call
  creates : (session_id : List ℕ) → Call
  closes : (session_id : List ℕ) → Call

abbrev pub session_of : Call → List ℕ
session_of (processes session_id bytes) = session_id
session_of (creates session_id) = session_id
session_of (closes session_id) = session_id

pub call : Call → StatisticsHandler → StatisticsHandler
unfolding process on_session_created on_session_closed
call (processes session_id bytes) h = (process bytes session_id h).1
call (creates session_id) h = on_session_created session_id h
call (closes session_id) h = on_session_closed session_id h

pub call_all : List Call → StatisticsHandler → StatisticsHandler
unfolding call
call_all [] h = h
call_all (c ∷ cs) h = call_all cs (call c h)

-- The same numbers, and the same is counted for each session, in whatever order the map has them.
pub record SameNumbers (h k : StatisticsHandler) : Type 0 where
  pub chars : h.total_chars ≡ k.total_chars
  pub messages : h.message_count ≡ k.message_count
  pub active : h.active_sessions ≡ k.active_sessions
  pub stats : (id : List ℕ) → lookup id h.session_stats ≡ lookup id k.session_stats

abbrev pub Summary : Type 0
Summary = Quot SameNumbers

abbrev pub summary : StatisticsHandler → Summary
summary = Quot.mk

-- Two calls of different sessions, one after the other, and the same the other way round.
pub data Swap : List Call → List Call → Type 0 where
  swap :
      (before : List Call) (a b : Call) (later : List Call)
      → session_of a ≢ session_of b
      → Swap (before ++ a ∷ b ∷ later) (before ++ b ∷ a ∷ later)

-- What happened, up to the order of the calls of different sessions.
abbrev pub Schedule : Type 0
Schedule = Quot Swap

abbrev pub schedule : List Call → Schedule
schedule = Quot.mk

-- What a call does to what is counted for its session.
abbrev update : Call → Option ℕ → Option ℕ
update (processes id bytes) count = some (add_size (value_of count) (length bytes))
update (creates id) count = some 0
update (closes id) count = none

abbrev counted : Call → (List ℕ → Option ℕ) → List ℕ → Option ℕ
counted c stats id =
    if bytes_beq (session_of c) id then update c (stats (session_of c)) else stats id

abbrev stats_of : StatisticsHandler → List ℕ → Option ℕ
stats_of h id = lookup id h.session_stats

stats_of-call : (c : Call) (h : StatisticsHandler) → stats_of (call c h) ≡ counted c (stats_of h)
unfolding call process on_session_created on_session_closed
stats_of-call (processes id bytes) h = fun_ext (λ j.
    lookup-insert id j (add_size (value_of (lookup id h.session_stats)) (length bytes))
      h.session_stats)
stats_of-call (creates id) h = fun_ext (λ j. lookup-insert id j 0 h.session_stats)
stats_of-call (closes id) h = fun_ext (λ j. lookup-erase id j h.session_stats)

call-SameNumbers :
    (c : Call) (h k : StatisticsHandler) → SameNumbers h k → SameNumbers (call c h) (call c k)
unfolding call process on_session_created on_session_closed
call-SameNumbers c h k s = record {
  chars = (numbers c).0;
  messages = (numbers c).1;
  active = (numbers c).2;
  stats = λ j.
      ap (λ f. f j)
        (stats_of-call c h ∙ ap (counted c) (fun_ext s.stats) ∙ sym (stats_of-call c k));
}
  where
    numbers :
        (c : Call)
        → ((call c h).total_chars ≡ (call c k).total_chars)
          × ((call c h).message_count ≡ (call c k).message_count)
          × ((call c h).active_sessions ≡ (call c k).active_sessions)
    numbers (processes id bytes) = (rw (s.chars) refl, rw (s.messages) refl, s.active)
    numbers (creates id) = (s.chars, s.messages, rw (s.active) refl)
    numbers (closes id) = (s.chars, s.messages, rw (s.active) refl)

counted_comm :
    (a b : Call) (stats : List ℕ → Option ℕ) (id : List ℕ)
    → session_of a ≢ session_of b
    → counted a (counted b stats) id ≡ counted b (counted a stats) id
counted_comm a b stats id apart =
    let (here, _) = bytes_beq_iff (session_of a) id in
    let (there, _) = bytes_beq_iff (session_of b) id in
    elim (Bool-cases (bytes_beq (session_of a) id)) [
      | inl p ↦ elim (Bool-cases (bytes_beq (session_of b) id)) [
        | inl q ↦ absurd (apart (here p ∙ sym (there q)))
        | inr q ↦ rw (p, q, ap (bytes_beq (session_of b)) (here p) ∙ q) refl
      ]
      | inr p ↦ elim (Bool-cases (bytes_beq (session_of b) id)) [
        | inl q ↦ rw (p, q, ap (bytes_beq (session_of a)) (there q) ∙ p) refl
        | inr q ↦ rw (p, q) refl
      ]
    ]

numbers_comm :
    (a b : Call) (h : StatisticsHandler)
    → ((call a (call b h)).total_chars ≡ (call b (call a h)).total_chars)
      × ((call a (call b h)).message_count ≡ (call b (call a h)).message_count)
      × ((call a (call b h)).active_sessions ≡ (call b (call a h)).active_sessions)
unfolding call process on_session_created on_session_closed
numbers_comm (processes i m) (processes j n) h = omega arith
numbers_comm (processes i m) (creates j) h = (refl, refl, refl)
numbers_comm (processes i m) (closes j) h = (refl, refl, refl)
numbers_comm (creates i) (processes j n) h = (refl, refl, refl)
numbers_comm (creates i) (creates j) h = (refl, refl, refl)
numbers_comm (creates i) (closes j) h = omega arith
numbers_comm (closes i) (processes j n) h = (refl, refl, refl)
numbers_comm (closes i) (creates j) h = omega arith
numbers_comm (closes i) (closes j) h = (refl, refl, refl)

call_comm :
    (a b : Call) (h : StatisticsHandler)
    → session_of a ≢ session_of b
    → SameNumbers (call b (call a h)) (call a (call b h))
call_comm a b h apart =
    let (chars, messages, active) = numbers_comm b a h in
    record {
      chars = chars;
      messages = messages;
      active = active;
      stats = λ id.
          ap (λ f. f id) (stats_of-call b (call a h) ∙ ap (counted b) (stats_of-call a h))
          ∙ counted_comm b a (stats_of h) id (λ e. apart (sym e))
          ∙ ap (λ f. f id)
              (ap (counted a) (sym (stats_of-call b h)) ∙ sym (stats_of-call a (call b h)));
    }

call_all-SameNumbers :
    (cs : List Call) (h k : StatisticsHandler)
    → SameNumbers h k
    → SameNumbers (call_all cs h) (call_all cs k)
unfolding call_all
call_all-SameNumbers [] h k s = s
call_all-SameNumbers (c ∷ cs) h k s =
    call_all-SameNumbers cs (call c h) (call c k) (call-SameNumbers c h k s)

call_all-swap :
    (before : List Call) (a b : Call) (later : List Call) (h : StatisticsHandler)
    → session_of a ≢ session_of b
    → SameNumbers (call_all (before ++ a ∷ b ∷ later) h) (call_all (before ++ b ∷ a ∷ later) h)
unfolding call_all
call_all-swap [] a b later h apart =
    call_all-SameNumbers later (call b (call a h)) (call a (call b h)) (call_comm a b h apart)
call_all-swap (c ∷ before) a b later h apart = call_all-swap before a b later (call c h) apart

-- What a schedule of calls makes of a handler.
pub summary_of : StatisticsHandler → Schedule → Summary
summary_of h = Quot.lift Quot.Quot-set (λ cs. summary (call_all cs h)) (λ cs ds s. from s)
  where
    from : {cs ds : List Call} → Swap cs ds → summary (call_all cs h) ≡ summary (call_all ds h)
    from (swap before a b later apart) = Quot.sound (call_all-swap before a b later h apart)

-- Which of two sessions of different threads gets the lock first makes no difference for the totals,
-- the number of active sessions and what is counted for each session: where two sequences of calls are the
-- same but for the order of calls of different sessions, they lead from the same handler to the same
-- summary of these.
pub call_all-schedule :
    (cs ds : List Call) (h : StatisticsHandler)
    → schedule cs ≡ schedule ds
    → summary (call_all cs h) ≡ summary (call_all ds h)
unfolding summary_of
call_all-schedule cs ds h same = ap (summary_of h) same
