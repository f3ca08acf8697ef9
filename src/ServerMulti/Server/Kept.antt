-- ===== src/ServerMulti/Server/Kept.antt =====
-- asio-1.28_server_multi/src/test.cpp, `Server`: what a step leaves of the sessions and their contexts.
use asio_client.Common.{
  ℕ, ◌≡◌, ◌⊎◌, inl, inr, refl, Bool, true, false, Option, none, some, List, [], ◌∷◌, ◌++◌,
  if◌then◌else◌, ◌>>=◌, arith,
}
use asio_client.ServerMulti.Pool.{IoContextPool, get_next_io_context}
use asio_client.ServerMulti.Session
use asio_client.ServerMulti.Session.{DataHandler, Session}
use asio_client.ServerMulti.Session.Runs
use asio_client.ServerMulti.Server.{
  Server, handle_accept, accept_again, stop, serve, do_accept, session_id,
}
use asio_client.ServerMulti.Server.Runs.{
  accepts, fails_to_accept, on_session, can_accept, step_session, updated, step,
}

module _ {H : Type 0} where
  abbrev pub Same : Server H → Server H → Type 0
  Same v u = (u.sessions ≡ v.sessions) × (u.contexts ≡ v.contexts)

  -- A session was added, with its context.
  abbrev pub Added : Server H → Server H → Type 0
  Added v u =
      (s : Session) × (ctx : ℕ) × (u.sessions ≡ v.sessions ++ s ∷ [])
      × (u.contexts ≡ v.contexts ++ ctx ∷ [])

  accept_again-Same : (v : Server H) → Same v (accept_again v)
  unfolding accept_again do_accept
  accept_again-Same v = ground arith

  pub stop_lem : (v : Server H) → Same v (stop v)
  unfolding stop
  stop_lem v = (refl, refl)

  module _ (handler : DataHandler H) where
    pub accepts_lem :
        (time : ℕ) (v u : Server H) → step handler (accepts time) v ≡ some u → Same v u ⊎ Added v u
    unfolding step handle_accept serve
    accepts_lem time v u e = from (can_accept v) e
      where
        w : Server H
        w = record v { accepting = false }

        added :
            (r : Option (ℕ × IoContextPool))
            → (r >>= λ next. some (accept_again (serve handler time next w))) ≡ some u
            → Same v u ⊎ Added v u
        added none e = cc
        added (some (ctx, pool)) e = inr (
          (Session.start handler (Session.init (session_id w.counter time)) w.handler).0,
          ctx,
          ground (arith, accept_again-Same (serve handler time (ctx, pool) w)),
          ground (arith, accept_again-Same (serve handler time (ctx, pool) w)),
        )

        from :
            (b : Bool)
            → (if b then handle_accept handler time w else some v) ≡ some u
            → Same v u ⊎ Added v u
        from true e = added (get_next_io_context v.pool) e
        from false e = inl (ground arith)

    pub fails_to_accept_lem : (v u : Server H) → step handler fails_to_accept v ≡ some u → Same v u
    unfolding step
    fails_to_accept_lem v u e = ground (arith, accept_again-Same (record v { accepting = false }))

    pub on_session_lem :
        (k : ℕ) (e : Runs.Event) (v u : Server H)
        → step handler (on_session k e) v ≡ some u
        → (u.contexts ≡ v.contexts)
          × (step_session handler k e v.sessions v.handler ≡ some (u.sessions, u.handler))
    unfolding step
    on_session_lem k e v u q = from (step_session handler k e v.sessions v.handler) q
      where
        from :
            (r : Option (List Session × H))
            → updated handler v r ≡ some u
            → (u.contexts ≡ v.contexts) × (r ≡ some (u.sessions, u.handler))
        from none q = cc
        from (some (ss, h)) q = ground arith
