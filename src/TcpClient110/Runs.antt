-- ===== src/TcpClient110/Runs.antt =====
-- asio-1.10/src/tcp_client.cpp, `TcpClient`: what can happen to a client, one call of its user or one
-- handler after the other. An event that cannot happen changes nothing.
use asio_client.Common.{
  runs, runs_next, ℕ, zero, suc, ◌-◌, ◌≡◌, refl, Bool, false, Option, none, some, List, [], ◌∷◌,
  ltb, if◌then◌else◌, ◌>>=◌,
}
use asio_client.Buffer.{ConnectionBuffer}
use asio_client.AsioTimer.{AsioTimer}
use asio_client.AsioTimer
use asio_client.TcpConnection.{TcpConnection}
use asio_client.TcpConnection.Runs
use asio_client.TcpClient110.{
  TcpClient, connect, close_client, send_message, handle_sending, handle_resolver, handle_connect,
  handle_connect_error, connect_inter,
}

pub data Event : Type 0 where
  calls_connect : Bool → Event
  calls_close : Event
  calls_send : List ℕ → Event
  runs_sending : Event
  resolves : (error : Bool) → Event
  connects : Event
  fails_to_connect : (at_end : Bool) → Event
  -- the wait of a timer ends
  expires : ℕ → Event
  -- a handler of the connection runs
  on_connection : Runs.Event → Event

unfoldable pub run_posted : List (List ℕ) → TcpClient → TcpClient
unfolding handle_sending
run_posted [] c = c
run_posted (bytes ∷ posted) c = handle_sending bytes (record c { posted = posted })

-- The timer runs its task, `connectInter`, which leaves the timer alone.
unfoldable pub fire : AsioTimer → AsioTimer
fire t = AsioTimer.handle_timer (λ s. s) false (record t { pending_waits = t.pending_waits - 1 })

-- `none`: there is no such timer, or it does not wait.
unfoldable pub expire : ℕ → List AsioTimer → Option (List AsioTimer)
unfolding fire
expire n [] = none
expire zero (t ∷ ts) = if ltb 0 t.pending_waits then some (fire t ∷ ts) else none
expire (suc n) (t ∷ ts) = expire n ts >>= λ us. some (t ∷ us)

unfoldable pub reconnect_after : Option (List AsioTimer) → TcpClient → TcpClient
unfolding connect_inter
reconnect_after none c = c
reconnect_after (some timers) c = connect_inter (record c { timers = timers })

module _ (retrieve : ConnectionBuffer → ConnectionBuffer) where
  unfoldable pub step : Event → TcpClient → Option TcpClient
  unfolding connect close_client send_message run_posted handle_resolver handle_connect
      handle_connect_error expire reconnect_after
  step (calls_connect reconnect) c = some (connect reconnect c)
  step calls_close c = some (close_client c)
  step (calls_send bytes) c = some (send_message bytes c)
  step runs_sending c = some (run_posted c.posted c)
  step (resolves error) c = some (
      if ltb 0 c.pending_resolves
      then handle_resolver error (record c { pending_resolves = c.pending_resolves - 1 })
      else c)
  step connects c = some (
      if ltb 0 c.pending_connects
      then handle_connect (record c { pending_connects = c.pending_connects - 1 })
      else c)
  step (fails_to_connect at_end) c = some (
      if ltb 0 c.pending_connects
      then handle_connect_error at_end (record c { pending_connects = c.pending_connects - 1 })
      else c)
  step (expires n) c = some (reconnect_after (expire n c.timers) c)
  step (on_connection event) c =
      Runs.step retrieve event c.conn >>= λ conn. some (record c { conn = conn })

  unfoldable pub run : List Event → TcpClient → Option TcpClient
  unfolding step
  run = runs step

  -- What a handler of the connection leaves of the client.
  pub on_next :
      (event : Runs.Event) (c u : TcpClient)
      → step (on_connection event) c ≡ some u
      → (conn : TcpConnection) × (Runs.step retrieve event c.conn ≡ some conn)
        × (u ≡ record c { conn = conn })
  unfolding step
  on_next event c u h = from (Runs.step retrieve event c.conn) refl h
    where
      from :
          (r : Option TcpConnection)
          → Runs.step retrieve event c.conn ≡ r
          → (r >>= λ conn. some (record c { conn = conn })) ≡ some u
          → (conn : TcpConnection) × (Runs.step retrieve event c.conn ≡ some conn)
            × (u ≡ record c { conn = conn })
      from none e h = cc
      from (some conn) e h = (conn, e, cc)

  -- What a run that has got somewhere has passed.
  pub run_next :
      (e : Event) (es : List Event) (c u : TcpClient)
      → run (e ∷ es) c ≡ some u
      → (t : TcpClient) × (step e c ≡ some t) × (run es t ≡ some u)
  unfolding run
  run_next = runs_next step
