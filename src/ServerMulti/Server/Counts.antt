-- ===== src/ServerMulti/Server/Counts.antt =====
-- asio-1.28_server_multi/src/test.cpp, `Server` with `StatisticsHandler`: what is counted.
use asio_client.Common.{
  after, ℕ, zero, suc, ◌+◌, ◌%◌, ◌^◌, ◌≡◌, refl, Bool, true, false, Option, none, some, List, [],
  ◌∷◌, ◌++◌, length, length-append, if◌then◌else◌, ◌>>=◌, arith,
}
use asio_client.ServerMulti.Pool.{IoContextPool, get_next_io_context}
use asio_client.ServerMulti.Statistics.{StatisticsHandler, on_session_created, total}
use asio_client.ServerMulti.Session.{
  DataHandler, Session, statistics_handler, handle_read, handle_read_error, handle_write_error,
}
use asio_client.ServerMulti.Session
use asio_client.ServerMulti.Session.Runs
use asio_client.ServerMulti.Session.Counts.{got, Fits, Counted, step-Counted}
use asio_client.ServerMulti.Server.{Server, handle_accept, accept_again, stop, serve, do_accept}
use asio_client.ServerMulti.Server.Runs.{
  Event, accepts, fails_to_accept, calls_stop, on_session, can_accept, kept, replaced, step_session,
  updated, step, run, run_next,
}

abbrev pub got_by : ℕ → Runs.Event → List Session → List (List ℕ)
got_by n e [] = []
got_by zero e (s ∷ ss) = got e s
got_by (suc n) e (s ∷ ss) = got_by n e ss

abbrev pub received : Event → Server StatisticsHandler → List (List ℕ)
received (accepts time) v = []
received fails_to_accept v = []
received calls_stop v = []
received (on_session n e) v = got_by n e v.sessions

abbrev pub all_received : List Event → Server StatisticsHandler → List (List ℕ)
all_received [] v = []
all_received (e ∷ es) v = received e v ++ all_received es (after (step statistics_handler e v) v)

session-Counted :
    (n : ℕ) (e : Runs.Event) (ss us : List Session) (h k : StatisticsHandler)
    → Fits h
    → step_session statistics_handler n e ss h ≡ some (us, k)
    → Counted (got_by n e ss) h k
unfolding step_session
session-Counted n e [] us h k f q = ground arith
session-Counted zero e (s ∷ ss) us h k f q =
    from (Runs.step statistics_handler e s h) (λ t l. step-Counted e s t h l f) q
  where
    from :
        (r : Option (Session × StatisticsHandler))
        → ((t : Session) (l : StatisticsHandler) → r ≡ some (t, l) → Counted (got e s) h l)
        → replaced statistics_handler ss r ≡ some (us, k)
        → Counted (got e s) h k
    from none rest q = cc
    from (some (t, l)) rest q = ground (arith, rest t l refl)
session-Counted (suc n) e (s ∷ ss) us h k f q =
    from (step_session statistics_handler n e ss h) (λ vs l. session-Counted n e ss vs h l f) q
  where
    from :
        (r : Option (List Session × StatisticsHandler))
        → ((vs : List Session) (l : StatisticsHandler)
            → r ≡ some (vs, l)
            → Counted (got_by n e ss) h l)
        → kept statistics_handler s r ≡ some (us, k)
        → Counted (got_by n e ss) h k
    from none rest q = cc
    from (some (vs, l)) rest q = ground (arith, rest vs l refl)

accepts-Counted :
    (time : ℕ) (v u : Server StatisticsHandler) (r : Option (ℕ × IoContextPool))
    → Fits v.handler
    → (r >>= λ next. some (accept_again (serve statistics_handler time next v))) ≡ some u
    → Counted [] v.handler u.handler
unfolding accept_again do_accept serve Session.start on_session_created
accepts-Counted time v u none f q = cc
accepts-Counted time v u (some next) f q = ground arith

step-received :
    (e : Event) (v u : Server StatisticsHandler)
    → Fits v.handler
    → step statistics_handler e v ≡ some u
    → Counted (received e v) v.handler u.handler
unfolding step handle_accept accept_again do_accept stop
step-received (accepts time) v u f q = from (can_accept v) q
  where
    w : Server StatisticsHandler
    w = record v { accepting = false }

    from :
        (b : Bool)
        → (if b then handle_accept statistics_handler time w else some v) ≡ some u
        → Counted [] v.handler u.handler
    from true q = accepts-Counted time w u (get_next_io_context v.pool) f q
    from false q = ground arith
step-received fails_to_accept v u f q = ground arith
step-received calls_stop v u f q = ground arith
step-received (on_session n e) v u f q =
    from (step_session statistics_handler n e v.sessions v.handler)
      (λ us k. session-Counted n e v.sessions us v.handler k f) q
  where
    from :
        (r : Option (List Session × StatisticsHandler))
        → ((us : List Session) (k : StatisticsHandler)
            → r ≡ some (us, k)
            → Counted (got_by n e v.sessions) v.handler k)
        → updated statistics_handler v r ≡ some u
        → Counted (got_by n e v.sessions) v.handler u.handler
    from none rest q = cc
    from (some (us, k)) rest q = ground (arith, rest us k refl)

total-append : (xs ys : List (List ℕ)) → total (xs ++ ys) ≡ total xs + total ys
total-append [] ys = omega arith
total-append (x ∷ xs) ys = omega (arith, total-append xs ys)

-- Whatever happens to a server with a `StatisticsHandler`, its threads taking turns in any order:
-- `total_chars_` and `message_count_` have grown by the lengths and the number of the messages that
-- all its sessions have received since, modulo 2 ^ 64, if both were less than that before.
pub run-received :
    (es : List Event) (v u : Server StatisticsHandler)
    → Fits v.handler
    → run statistics_handler es v ≡ some u
    → (u.handler.total_chars ≡ (v.handler.total_chars + total (all_received es v)) % 2 ^ 64)
      × (u.handler.message_count ≡ (v.handler.message_count + length (all_received es v)) % 2 ^ 64)
unfolding run
run-received [] v u f q = ground arith
run-received (event ∷ es) v u f q =
    let (t, one, rest) = run_next statistics_handler event es v u q in
    let (chars, count) = step-received event v t f one in
    let (chars', count') = run-received es t u (omega (arith, chars), omega (arith, count)) rest in
    let first = received event v in
    let later = all_received es t in
    rw one (
      omega (arith, chars, chars', total-append first later),
      omega (arith, count, count', length-append first later),
    )
