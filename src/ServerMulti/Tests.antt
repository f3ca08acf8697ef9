-- ===== src/ServerMulti/Tests.antt =====
-- The theorem on schedules at an input that meets its hypotheses.
use asio_client.Common.{
  ℕ, ◌-◌, ◌^◌, ◌≡◌, List, [], ◌∷◌, codes, bytes_eq, refl, sym, ◌∙◌, inl, inr, true, Bool-cases,
  bytes_beq, bytes_beq_iff,
}
use asio_client.ServerMulti.Statistics.Schedule.{
  Call, creates, processes, closes, call_all, summary,
}
use asio_client.ServerMulti.Statistics.Sessions.{calls_of, call_all-sessions}
use asio_client.ServerMulti.Statistics.{StatisticsHandler}

abbrev session_id : List ℕ
session_id = codes "SESS-0-0"

-- A handler that knows one session.
abbrev handler : StatisticsHandler
handler = record {
  total_chars = 2 ^ 64 - 1;
  message_count = 5;
  active_sessions = 1;
  session_stats = (session_id, 7) ∷ [];
}

abbrev other_id : List ℕ
other_id = codes "SESS-1-1"

-- Two sessions, and the same calls of each.
abbrev first_come : List Call
first_come =
    creates session_id
    ∷ processes session_id (1 ∷ [])
    ∷ creates other_id
    ∷ closes session_id
    ∷ processes other_id (2 ∷ [])
    ∷ []

abbrev other_first : List Call
other_first =
    creates other_id
    ∷ creates session_id
    ∷ processes other_id (2 ∷ [])
    ∷ processes session_id (1 ∷ [])
    ∷ closes session_id
    ∷ []

same_calls : (id : List ℕ) → calls_of id first_come ≡ calls_of id other_first
same_calls id = elim (Bool-cases (bytes_beq session_id id)) [
  | inr p ↦ elim (Bool-cases (bytes_beq other_id id)) [
    | inl q ↦ rw (p, q) refl
    | inr q ↦ rw (p, q) refl
  ]
  | inl p ↦ elim (Bool-cases (bytes_beq other_id id)) [
    | inr q ↦ rw (p, q) refl
    | inl q ↦ apart ((bytes_beq_iff session_id id).0 p ∙ sym ((bytes_beq_iff other_id id).0 q))
  ]
]
  where
    apart : {A : Type 0} → session_id ≡ other_id → A
    apart e =
        let no : bytes_beq session_id other_id ≡ true = (bytes_beq_iff session_id other_id).1 e in
        cc

call_all-sessions_example :
    summary (call_all first_come handler) ≡ summary (call_all other_first handler)
call_all-sessions_example = call_all-sessions first_come other_first handler same_calls
