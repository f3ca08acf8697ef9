-- ===== src/TcpClient110/Timers.antt =====
-- asio-1.10/src/tcp_client.cpp, `TcpClient`: its timers, and how long they wait.
use asio_client.Common.{
  runs-keeps_any, ℕ, zero, suc, ◌≤◌, ◌≡◌, refl, false, Option, none, some, List, [], ◌∷◌, arith,
  ◌>>=◌,
}
use asio_client.Buffer.{ConnectionBuffer}
use asio_client.AsioTimer.{AsioTimer, handle_timer}
use asio_client.AsioTimer
use asio_client.TcpClient110.{
  TcpClient, min_interval, connect, close_client, send_message, handle_sending, handle_resolver,
  handle_connect, handle_connect_error, connect_inter, tell, start_timer,
}
use asio_client.TcpClient110.Runs.{
  Event, calls_connect, calls_close, calls_send, runs_sending, resolves, connects, fails_to_connect,
  expires, on_connection, run_posted, fire, expire, reconnect_after, step, run, on_next,
}

-- Timers that wait at most once more, `kMinInterval` each.
abbrev pub AreOneShot : List AsioTimer → Type 0
AreOneShot [] = Unit {0}
AreOneShot (t ∷ ts) =
    ((t.interval ≡ min_interval) × (t.cycle ≡ false) × (t.pending_waits ≤ 1)) × AreOneShot ts

abbrev pub IsOneShot : TcpClient → Type 0
IsOneShot c = (c.interval ≡ min_interval) × AreOneShot c.timers

expire-AreOneShot :
    (n : ℕ) (ts us : List AsioTimer) → AreOneShot ts → expire n ts ≡ some us → AreOneShot us
unfolding expire fire handle_timer
expire-AreOneShot n [] us h e = ground arith
expire-AreOneShot zero (t ∷ ts) us h e = ground arith
expire-AreOneShot (suc n) (t ∷ ts) us h e =
    from (expire n ts) (λ vs. expire-AreOneShot n ts vs h.1) e
  where
    from :
        (r : Option (List AsioTimer))
        → ((vs : List AsioTimer) → r ≡ some vs → AreOneShot vs)
        → (r >>= λ vs. some (t ∷ vs)) ≡ some us
        → AreOneShot us
    from none rest e = cc
    from (some vs) rest e = ground (arith, rest vs refl)

expires-IsOneShot :
    (n : ℕ) (c : TcpClient) (r : Option (List AsioTimer))
    → expire n c.timers ≡ r
    → IsOneShot c
    → IsOneShot (reconnect_after r c)
unfolding reconnect_after connect_inter
expires-IsOneShot n c none e h = h
expires-IsOneShot n c (some timers) e h = (h.0, expire-AreOneShot n c.timers timers h.1 e)

sends-IsOneShot :
    (posted : List (List ℕ)) (c : TcpClient) → IsOneShot c → IsOneShot (run_posted posted c)
unfolding run_posted handle_sending
sends-IsOneShot [] c h = h
sends-IsOneShot (bytes ∷ posted) c h = h

module _ (retrieve : ConnectionBuffer → ConnectionBuffer) where
  step-IsOneShot :
      (e : Event) (c u : TcpClient) → IsOneShot c → step retrieve e c ≡ some u → IsOneShot u
  unfolding step connect close_client send_message handle_resolver handle_connect
      handle_connect_error connect_inter tell start_timer AsioTimer.start_timer AsioTimer.init
  step-IsOneShot (calls_connect reconnect) c u h e = ground arith
  step-IsOneShot calls_close c u h e = ground arith
  step-IsOneShot (calls_send bytes) c u h e = ground arith
  step-IsOneShot runs_sending c u h e = ground (arith, sends-IsOneShot c.posted c h)
  step-IsOneShot (resolves error) c u h e = ground arith
  step-IsOneShot connects c u h e = ground arith
  step-IsOneShot (fails_to_connect at_end) c u h e = ground arith
  step-IsOneShot (expires n) c u h e =
      ground (arith, expires-IsOneShot n c (expire n c.timers) refl h)
  step-IsOneShot (on_connection event) c u h e =
      let (conn, one, last) = on_next retrieve event c u e in ground arith

  -- Whatever happens to a client: `interval_` stays `kMinInterval`, and no timer that it has started,
  -- also none that was replaced, is periodic or waits more than once more, each `kMinInterval` long,
  -- if this was so before. So the retries never slow down, and the branch that compares `interval_`
  -- with `kMaxInterval` never starts a periodic timer.
  pub run-IsOneShot :
      (es : List Event) (c u : TcpClient) → IsOneShot c → run retrieve es c ≡ some u → IsOneShot u
  unfolding run
  run-IsOneShot = runs-keeps_any (step retrieve) IsOneShot step-IsOneShot
