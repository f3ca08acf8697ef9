-- ===== src/TcpClient110/Unresolved.antt =====
-- asio-1.10/src/tcp_client.cpp, `TcpClient`: what follows on a name that does not resolve.
use asio_client.Common.{
  All, ℕ, zero, suc, ◌≡◌, refl, ◌∙◌, true, Option, none, some, List, [], ◌∷◌, arith, ◌>>=◌,
}
use asio_client.Buffer.{ConnectionBuffer}
use asio_client.AsioTimer.{AsioTimer}
use asio_client.TcpClient110.{
  TcpClient, close_client, send_message, handle_sending, handle_resolver,
}
use asio_client.TcpClient110.Runs.{
  Event, calls_connect, calls_close, calls_send, runs_sending, resolves, connects, fails_to_connect,
  expires, on_connection, run_posted, expire, reconnect_after, step, run, run_next, on_next,
}
use asio_client.TcpClient110.Alive.{waits}

-- The client neither resolves nor connects, and no timer of it waits.
abbrev pub IsOut : TcpClient → Type 0
IsOut c = (c.pending_resolves ≡ 0) × (c.pending_connects ≡ 0) × (waits c.timers ≡ 0)

-- Every event but a call of `connect`.
abbrev pub IsOther : Event → Type 0
IsOther (calls_connect reconnect) = ⊥
IsOther calls_close = Unit {0}
IsOther (calls_send bytes) = Unit {0}
IsOther runs_sending = Unit {0}
IsOther (resolves error) = Unit {0}
IsOther connects = Unit {0}
IsOther (fails_to_connect at_end) = Unit {0}
IsOther (expires n) = Unit {0}
IsOther (on_connection e) = Unit {0}

abbrev Stays : TcpClient → TcpClient → Type 0
Stays c u = IsOut u × (u.told ≡ c.told)

expire_out : (n : ℕ) (ts : List AsioTimer) → waits ts ≡ 0 → expire n ts ≡ none
unfolding expire
expire_out n [] h = refl
expire_out zero (t ∷ ts) h = ground arith
expire_out (suc n) (t ∷ ts) h = from (expire n ts) (expire_out n ts (omega (arith, h)))
  where
    from : (r : Option (List AsioTimer)) → r ≡ none → (r >>= λ us. some (t ∷ us)) ≡ none
    from none e = refl
    from (some us) e = cc

sends-IsOut : (posted : List (List ℕ)) (c : TcpClient) → IsOut c → Stays c (run_posted posted c)
unfolding run_posted handle_sending
sends-IsOut [] c h = (h, refl)
sends-IsOut (bytes ∷ posted) c h = (h, refl)

expires-IsOut :
    (c : TcpClient) (r : Option (List AsioTimer))
    → r ≡ none
    → IsOut c
    → Stays c (reconnect_after r c)
unfolding reconnect_after
expires-IsOut c none e h = (h, refl)
expires-IsOut c (some timers) e h = cc

module _ (retrieve : ConnectionBuffer → ConnectionBuffer) where
  step-IsOut :
      (e : Event) (c u : TcpClient) → IsOther e → IsOut c → step retrieve e c ≡ some u → Stays c u
  unfolding step close_client send_message handle_resolver
  step-IsOut (calls_connect reconnect) c u o h e = elim o [ ]
  step-IsOut calls_close c u o h e = ground arith
  step-IsOut (calls_send bytes) c u o h e = ground arith
  step-IsOut runs_sending c u o h e = ground (arith, sends-IsOut c.posted c h)
  step-IsOut (resolves error) c u o h e = ground arith
  step-IsOut connects c u o h e = ground arith
  step-IsOut (fails_to_connect at_end) c u o h e = ground arith
  step-IsOut (expires n) c u o h e =
      ground (arith, expires-IsOut c (expire n c.timers) (expire_out n c.timers h.2) h)
  step-IsOut (on_connection event) c u o h e =
      let (conn, one, last) = on_next retrieve event c u e in ground arith

  run-IsOut :
      (es : List Event) (c u : TcpClient)
      → All IsOther es
      → IsOut c
      → run retrieve es c ≡ some u
      → Stays c u
  unfolding run
  run-IsOut [] c u o h e = ground arith
  run-IsOut (event ∷ es) c u o h e =
      let (t, one, rest) = run_next retrieve event es c u e in
      let (out, told) = step-IsOut event c t o.0 h one in
      let (out', told') = run-IsOut es t u o.1 out rest in (out', told' ∙ told)

  -- A name that does not resolve is the end of a client, also if it is to reconnect, and nobody is
  -- told: if that was the only thing under way, then after the error, whatever happens but a
  -- `connect`, the client does not resolve, connect or wait again, and does not call its
  -- `connection_callback_`.
  pub run-unresolved :
      (es : List Event) (c u : TcpClient)
      → All IsOther es
      → c.pending_resolves ≡ 1
      → c.pending_connects ≡ 0
      → waits c.timers ≡ 0
      → run retrieve (resolves true ∷ es) c ≡ some u
      → IsOut u × (u.told ≡ c.told)
  unfolding step handle_resolver
  run-unresolved es c u o r k w e =
      let (t, one, rest) = run_next retrieve (resolves true) es c u e in
      let out : Stays c t = ground arith in
      let (out', told') = run-IsOut es t u o out.0 rest in (out', told' ∙ out.1)
