-- ===== src/ServerMulti/Server/Spread.antt =====
-- asio-1.28_server_multi/src/test.cpp, `Server` and `IOContextPool`: which thread a session runs on.
use asio_client.Common.{
  runs-keeps_any, ℕ, zero, suc, ◌+◌, ◌%◌, ◌^◌, ◌<◌, ◌≡◌, refl, sym, ap, subst, ◌∙◌, Bool, true,
  false, Option, none, some, List, [], ◌∷◌, ◌++◌, length, length-append, if◌then◌else◌, ◌>>=◌,
  arith,
}
use asio_client.ServerMulti.Pool.{get_next_io_context_lem}
use asio_client.ServerMulti.Session.{DataHandler, Session}
use asio_client.ServerMulti.Session
use asio_client.ServerMulti.Session.Runs
use asio_client.ServerMulti.Server.{
  Server, handle_accept, accept_again, stop, serve, do_accept, session_id,
}
use asio_client.ServerMulti.Server.Runs.{
  Event, accepts, fails_to_accept, calls_stop, on_session, can_accept, kept, replaced, step_session,
  updated, step, run,
}

-- Context `k % size` for the session of number `k`, for `n` sessions.
abbrev pub spread : (size n : ℕ) → List ℕ
spread size zero = []
spread size (suc n) = spread size n ++ n % size ∷ []

module _ {H : Type 0} where
  pub record IsSpread (v : Server H) : Type 0 where
    pub some_context : 0 < v.pool.size
    pub not_too_many : v.pool.size < 2 ^ 64
    pub next : v.pool.next_index ≡ length v.sessions % v.pool.size
    pub each : v.contexts ≡ spread v.pool.size (length v.sessions)

  abbrev Same : Server H → Server H → Type 0
  Same v u = (u.pool ≡ v.pool) × (length u.sessions ≡ length v.sessions) × (u.contexts ≡ v.contexts)

  Same-IsSpread : (v u : Server H) → IsSpread v → Same v u → IsSpread u
  Same-IsSpread v u h same = record {
    some_context = rw same.0 h.some_context;
    not_too_many = rw same.0 h.not_too_many;
    next = rw (same.0, same.1) h.next;
    each = rw (same.0, same.1, same.2) h.each;
  }

  accept_again-Same : (v : Server H) → Same v (accept_again v)
  unfolding accept_again do_accept
  accept_again-Same v = ground arith

  module _ (handler : DataHandler H) where
    length-step_session :
        (n : ℕ) (e : Runs.Event) (ss us : List Session) (h k : H)
        → step_session handler n e ss h ≡ some (us, k)
        → length us ≡ length ss
    unfolding step_session
    length-step_session n e [] us h k q = ground arith
    length-step_session zero e (s ∷ ss) us h k q = from (Runs.step handler e s h) q
      where
        from :
            (r : Option (Session × H))
            → replaced handler ss r ≡ some (us, k)
            → length us ≡ suc (length ss)
        from none q = cc
        from (some next) q = ground arith
    length-step_session (suc n) e (s ∷ ss) us h k q =
        from (step_session handler n e ss h) (λ vs k. length-step_session n e ss vs h k) q
      where
        from :
            (r : Option (List Session × H))
            → ((vs : List Session) (k : H) → r ≡ some (vs, k) → length vs ≡ length ss)
            → kept handler s r ≡ some (us, k)
            → length us ≡ suc (length ss)
        from none rest q = cc
        from (some (vs, l)) rest q = ground (arith, rest vs l refl)

    serve-IsSpread :
        (time : ℕ) (v : Server H)
        → IsSpread v
        → let n = length v.sessions in
          IsSpread (
            serve handler time
              (n % v.pool.size, record v.pool { next_index = (n + 1) % v.pool.size })
              v)
    unfolding serve
    serve-IsSpread time v h = record {
      some_context = h.some_context;
      not_too_many = h.not_too_many;
      next = ap (λ n. n % v.pool.size) counted;
      each =
          ap (λ cs. cs ++ length v.sessions % v.pool.size ∷ []) h.each
          ∙ ap (spread v.pool.size) (sym longer);
    }
      where
        served : Session
        served = (Session.start handler (Session.init (session_id v.counter time)) v.handler).0

        longer : length (v.sessions ++ served ∷ []) ≡ suc (length v.sessions)
        longer = length-append v.sessions (served ∷ []) ∙ omega arith

        counted : length v.sessions + 1 ≡ length (v.sessions ++ served ∷ [])
        counted = omega (arith, longer)

    step-IsSpread :
        (e : Event) (v : Server H)
        → IsSpread v
        → (u : Server H) → step handler e v ≡ some u
        → IsSpread u
    unfolding step stop handle_accept
    step-IsSpread (accepts time) v h u q = from (can_accept v) q
      where
        n : ℕ
        n = length v.sessions

        w : Server H
        w = record v { accepting = false }

        w-IsSpread : IsSpread w
        w-IsSpread = Same-IsSpread v w h (refl, refl, refl)

        served : Server H
        served =
            serve handler time
              (n % v.pool.size, record v.pool { next_index = (n + 1) % v.pool.size }) w

        gets : handle_accept handler time w ≡ some (accept_again served)
        gets =
            ap (λ next. next >>= λ k. some (accept_again (serve handler time k w)))
              (get_next_io_context_lem v.pool n h.some_context h.not_too_many h.next)

        from :
            (b : Bool) → (if b then handle_accept handler time w else some v) ≡ some u → IsSpread u
        from true q =
            let same : accept_again served ≡ u = ground (arith, gets) in
            subst IsSpread same (
              Same-IsSpread served (accept_again served) (serve-IsSpread time w w-IsSpread)
                (accept_again-Same served))
        from false q = let same : v ≡ u = ground arith in subst IsSpread same h
    step-IsSpread fails_to_accept v h u q = Same-IsSpread v u h (from (can_accept v) q)
      where
        w : Server H
        w = record v { accepting = false }

        from : (b : Bool) → some (if b then accept_again w else v) ≡ some u → Same v u
        from true q = ground (arith, accept_again-Same w)
        from false q = ground arith
    step-IsSpread calls_stop v h u q = Same-IsSpread v u h (ground arith)
    step-IsSpread (on_session n e) v h u q =
        from (step_session handler n e v.sessions v.handler)
          (λ us k. length-step_session n e v.sessions us v.handler k) q
      where
        from :
            (r : Option (List Session × H))
            → ((us : List Session) (k : H) → r ≡ some (us, k) → length us ≡ length v.sessions)
            → updated handler v r ≡ some u
            → IsSpread u
        from none rest q = cc
        from (some (vs, l)) rest q = Same-IsSpread v u h (ground (arith, rest vs l refl))

    -- Whatever happens to a server, in whatever order, the session of number `k`, counted in the order
    -- in which they came, has been given the context `k % size` of the pool, and the index of the pool
    -- is that of the next, if this was so before and the pool has at least one context and less than
    -- 2 ^ 64.
    pub run-IsSpread :
        (es : List Event) (v u : Server H) → IsSpread v → run handler es v ≡ some u → IsSpread u
    unfolding run
    run-IsSpread = runs-keeps_any (step handler) IsSpread (λ e v u h q. step-IsSpread e v h u q)
