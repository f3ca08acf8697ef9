-- ===== src/ServerMulti/Statistics.antt =====
-- asio-1.28_server_multi/src/test.cpp, `StatisticsHandler`. Each function holds the lock from its start
-- to its end, so the calls of the threads come one after the other.
pub mod Schedule
pub mod Sessions
use asio_client.Common.{
  ℕ, ◌+◌, ◌%◌, ◌^◌, ◌<◌, ◌≡◌, refl, Option, some, none, List, [], ◌∷◌, ◌++◌, length, Dict, bytes_eq,
  lookup, lookup-insert, bytes_beq_iff, insert, erase, codes, to_string, add_size, sub_size, arith,
  ap, ◌∙◌,
}

pub record StatisticsHandler : Type 0 where
  pub total_chars : ℕ
  pub message_count : ℕ
  pub active_sessions : ℕ
  pub session_stats : Dict (List ℕ) ℕ

pub init : StatisticsHandler
init = record { total_chars = 0; message_count = 0; active_sessions = 0; session_stats = [] }

-- `session_stats_[session_id]`: a key that is not there is put there with 0.
pub value_of : Option ℕ → ℕ
value_of none = 0
value_of (some n) = n

-- The answer and the handler after it.
unfoldable pub process :
    (bytes session_id : List ℕ) → StatisticsHandler → List ℕ × StatisticsHandler
unfolding value_of
process bytes session_id h =
    let chars = add_size h.total_chars (length bytes) in
    let messages = add_size h.message_count 1 in
    let count = add_size (value_of (lookup session_id h.session_stats)) (length bytes) in
    (
      codes "Received "
          ++ (to_string (length bytes)
              ++ (codes " chars. Total: "
                  ++ (to_string chars ++ (codes " chars, Messages: " ++ to_string messages)))),
      record h {
        total_chars = chars;
        message_count = messages;
        session_stats = insert session_id count h.session_stats;
      },
    )

unfoldable pub on_session_created : List ℕ → StatisticsHandler → StatisticsHandler
on_session_created session_id h = record h {
  session_stats = insert session_id 0 h.session_stats;
  active_sessions = add_size h.active_sessions 1;
}

unfoldable pub on_session_closed : List ℕ → StatisticsHandler → StatisticsHandler
on_session_closed session_id h = record h {
  active_sessions = sub_size h.active_sessions 1;
  session_stats = erase session_id h.session_stats;
}

-- Messages received one after the other.
pub process_all : (session_id : List ℕ) → List (List ℕ) → StatisticsHandler → StatisticsHandler
unfolding process
process_all session_id [] h = h
process_all session_id (bytes ∷ rest) h = process_all session_id rest (process bytes session_id h).1

abbrev pub total : List (List ℕ) → ℕ
total [] = 0
total (bytes ∷ rest) = length bytes + total rest

-- Messages of one session that the handler knows: the totals grow by their lengths and their
-- number, all modulo 2 ^ 64, and so does what is counted for the session; the number of active
-- sessions stays.
pub process_all_lem :
    (id : List ℕ) (ms : List (List ℕ)) (h : StatisticsHandler) (k : ℕ)
    → h.total_chars < 2 ^ 64
    → h.message_count < 2 ^ 64
    → k < 2 ^ 64
    → lookup id h.session_stats ≡ some k
    → let u = process_all id ms h in
      (u.total_chars ≡ (h.total_chars + total ms) % 2 ^ 64)
      × (u.message_count ≡ (h.message_count + length ms) % 2 ^ 64)
      × (u.active_sessions ≡ h.active_sessions)
      × (lookup id u.session_stats ≡ some ((k + total ms) % 2 ^ 64))
unfolding process_all process
process_all_lem id [] h k a b c e =
    (omega arith, omega arith, refl, e ∙ ap (λ (n : ℕ). some n) (omega arith))
process_all_lem id (bytes ∷ rest) h k a b c e =
    let (chars, messages, active, count) =
      process_all_lem id rest (process bytes id h).1 (add_size k (length bytes)) (omega arith)
        (omega arith) (omega arith) counted in
    (
      chars ∙ omega arith,
      messages ∙ omega arith,
      active,
      count ∙ ap (λ (n : ℕ). some n) (omega arith),
    )
  where
    counted : lookup id (process bytes id h).1.session_stats ≡ some (add_size k (length bytes))
    counted = rw (lookup-insert, (bytes_beq_iff id id).1 refl, e)
