-- ===== src/TcpClient110/Delivery.antt =====
-- asio-1.10/src/tcp_client.cpp with asio-1.10/src/tcp_connection.cpp: the way of a message through both.
use asio_client.Common.{
  after, ℕ, ◌-◌, ◌≡◌, refl, sym, subst, ap, ◌∙◌, inl, inr, Bool, true, false, Option, none, some,
  List, [], ◌∷◌, ◌++◌, ltb, append-nil, append_assoc, Bool-cases, arith,
}
use asio_client.Buffer.{ConnectionBuffer}
use asio_client.Buffer.Valid.{IsValid}
use asio_client.TcpConnection.{
  Task, start_receive, send_message, set_conn_state, set_connection_callback, set_retrieve_callback,
  set_close_callback, force_close,
}
use asio_client.TcpConnection.Runs
use asio_client.TcpConnection.Sending.Bytes.{
  IsSound, taken, queued, accepted, queued-append, IsSafe,
}
use asio_client.AsioTimer.{AsioTimer}
use asio_client.TcpConnection.Sending.Steps.{SameBuffers, IsNext, step-IsNext, same-IsNext}
use asio_client.TcpClient110.{
  TcpClient, connect, close_client, handle_sending, handle_resolver, handle_connect, connect_inter,
  tell,
}
use asio_client.TcpClient110
use asio_client.TcpClient110.Runs.{
  Event, calls_connect, calls_close, calls_send, runs_sending, resolves, connects, fails_to_connect,
  expires, on_connection, run_posted, expire, reconnect_after, step, run,
}

-- The bytes of the messages that the client has not handed to its connection.
abbrev pub waiting : List (List ℕ) → List ℕ
waiting [] = []
waiting (bytes ∷ posted) = bytes ++ waiting posted

-- All the bytes that the client was given: those its connection has taken, and those on their way there.
abbrev pub given : TcpClient → List ℕ
given c = taken c.conn ++ waiting c.posted

abbrev pub sent : Event → List ℕ
sent (calls_connect reconnect) = []
sent calls_close = []
sent (calls_send bytes) = bytes
sent runs_sending = []
sent (resolves error) = []
sent connects = []
sent (fails_to_connect at_end) = []
sent (expires n) = []
sent (on_connection event) = []

-- The events in which no connection is thrown away: none fails to connect, and what the connection does
-- is safe for it and no message that somebody gives it past the client.
abbrev pub IsFair : Event → TcpClient → Type 0
IsFair (calls_connect reconnect) c = Unit {0}
IsFair calls_close c = Unit {0}
IsFair (calls_send bytes) c = Unit {0}
IsFair runs_sending c = Unit {0}
IsFair (resolves error) c = Unit {0}
IsFair connects c = Unit {0}
IsFair (fails_to_connect at_end) c = ⊥
IsFair (expires n) c = Unit {0}
IsFair (on_connection event) c = IsSafe event c.conn × (accepted event ≡ [])

abbrev pub AreFair : (ConnectionBuffer → ConnectionBuffer) → List Event → TcpClient → Type 0
AreFair retrieve [] c = Unit {0}
AreFair retrieve (e ∷ es) c = IsFair e c × AreFair retrieve es (after (step retrieve e c) c)

abbrev pub all_sent : List Event → List ℕ
all_sent [] = []
all_sent (e ∷ es) = sent e ++ all_sent es

-- What an event leaves.
abbrev Follows : List ℕ → TcpClient → TcpClient → Type 0
Follows bytes c u = IsSound u.conn × (given u ≡ given c ++ bytes)

waiting-append : (ts us : List (List ℕ)) → waiting (ts ++ us) ≡ waiting ts ++ waiting us
waiting-append [] us = refl
waiting-append (bytes ∷ ts) us =
    ap (◌++◌ bytes) (waiting-append ts us) ∙ sym (append_assoc bytes (waiting ts) (waiting us))

-- What leaves the connection and the messages alone.
unmoved :
    (c u : TcpClient) → IsSound c.conn → u.conn ≡ c.conn → u.posted ≡ c.posted → Follows [] c u
unmoved c u h conn posted = rw (conn, posted) (h, sym (append-nil (given c)))

-- What hands the connection some of the messages, or does nothing to what it sends.
moved :
    (e : Runs.Event) (bytes : List ℕ) (c u : TcpClient)
    → IsNext e c.conn u.conn
    → accepted e ++ waiting u.posted ≡ waiting c.posted ++ bytes
    → Follows bytes c u
moved e bytes c u (sound, same) all = (
  sound,
  ap (λ l. l ++ waiting u.posted) same
      ∙ append_assoc (taken c.conn) (accepted e) (waiting u.posted)
      ∙ ap (◌++◌ (taken c.conn)) all
      ∙ sym (append_assoc (taken c.conn) (waiting c.posted) bytes),
)

run_posted-Follows :
    (posted : List (List ℕ)) (c : TcpClient)
    → c.posted ≡ posted
    → IsSound c.conn
    → Follows [] c (run_posted posted c)
unfolding run_posted handle_sending send_message
run_posted-Follows [] c p h = unmoved c c h refl refl
run_posted-Follows (bytes ∷ posted) c p h =
    moved (Runs.calls_send bytes) [] c (run_posted (bytes ∷ posted) c)
      (same-IsNext (Runs.calls_send bytes) c.conn _ h (refl, refl, refl, refl, refl, refl)
        (queued-append c.conn.posted (Task.sends bytes ∷ [])
          ∙ ap (◌++◌ (queued c.conn.posted)) (append-nil bytes)))
      (rw p (sym (append-nil (bytes ++ waiting posted))))

handle_connect-same :
    (c : TcpClient)
    → SameBuffers c.conn (handle_connect c).conn
      × (queued (handle_connect c).conn.posted ≡ queued c.conn.posted ++ [])
      × ((handle_connect c).posted ≡ c.posted)
unfolding handle_connect tell start_receive set_conn_state set_connection_callback
    set_retrieve_callback set_close_callback
handle_connect-same c =
    ground
      (arith, queued-append c.conn.posted (Task.receives ∷ []), append-nil (queued c.conn.posted))

resolves-same :
    (error : Bool) (c : TcpClient)
    → ((handle_resolver error c).conn ≡ c.conn) × ((handle_resolver error c).posted ≡ c.posted)
unfolding handle_resolver
resolves-same true c = (refl, refl)
resolves-same false c = (refl, refl)

reconnect_after-Follows :
    (timers : Option (List AsioTimer)) (c : TcpClient)
    → IsSound c.conn
    → Follows [] c (reconnect_after timers c)
unfolding reconnect_after connect_inter
reconnect_after-Follows none c h = unmoved c c h refl refl
reconnect_after-Follows (some timers) c h =
    unmoved c (connect_inter (record c { timers = timers })) h refl refl

module _ (retrieve : ConnectionBuffer → ConnectionBuffer)
    (keeps : (b : ConnectionBuffer) → IsValid b → IsValid (retrieve b)) where
  step-Follows :
      (e : Event) (c : TcpClient)
      → IsSound c.conn
      → IsFair e c
      → (u : TcpClient) × (step retrieve e c ≡ some u) × Follows (sent e) c u
  unfolding step connect connect_inter close_client TcpClient110.send_message force_close
  step-Follows (calls_connect reconnect) c h g =
      (_, refl, unmoved c (connect reconnect c) h refl refl)
  step-Follows calls_close c h g = (
    _,
    refl,
    moved Runs.calls_close [] c (close_client c)
        (same-IsNext Runs.calls_close c.conn _ h (refl, refl, refl, refl, refl, refl)
          (queued-append c.conn.posted (Task.closes ∷ [])))
        (sym (append-nil (waiting c.posted))),
  )
  step-Follows (calls_send bytes) c h g = (
    _,
    refl,
    (
      h,
      ap (◌++◌ (taken c.conn))
            (waiting-append c.posted (bytes ∷ []) ∙ ap (◌++◌ (waiting c.posted)) (append-nil bytes))
          ∙ sym (append_assoc (taken c.conn) (waiting c.posted) bytes),
    ),
  )
  step-Follows runs_sending c h g = (_, refl, run_posted-Follows c.posted c refl h)
  step-Follows (resolves error) c h g = elim (Bool-cases (ltb 0 c.pending_resolves)) [
    | inl resolving ↦
        let c' = record c { pending_resolves = c.pending_resolves - 1 } in
        let (conn, posted) = resolves-same error c' in
        (handle_resolver error c', rw resolving, unmoved c (handle_resolver error c') h conn posted)
    | inr idle ↦ (c, rw idle, unmoved c c h refl refl)
  ]
  step-Follows connects c h g = elim (Bool-cases (ltb 0 c.pending_connects)) [
    | inl connecting ↦
        let c' = record c { pending_connects = c.pending_connects - 1 } in
        let (same, queue, posted) = handle_connect-same c' in
        (
          handle_connect c',
          rw connecting,
          moved Runs.connects [] c (handle_connect c')
              (same-IsNext Runs.connects c.conn _ h same queue)
              (ap waiting posted ∙ sym (append-nil (waiting c.posted))),
        )
    | inr idle ↦ (c, rw idle, unmoved c c h refl refl)
  ]
  step-Follows (fails_to_connect at_end) c h g = absurd g
  step-Follows (expires n) c h g = (_, refl, reconnect_after-Follows (expire n c.timers) c h)
  step-Follows (on_connection event) c h (safe, none_given) =
      let (conn, e, next) = step-IsNext retrieve keeps event c.conn h safe in
      (
        record c { conn = conn },
        rw e,
        moved event [] c (record c { conn = conn }) next
            (rw none_given (sym (append-nil (waiting c.posted)))),
      )

  -- A client loses no message and swaps no two, on its way through the client and its connection: for a
  -- `retrieve_callback_` that leaves a valid buffer valid, any sequence of events, each fair where
  -- it happens, of a client whose connection has valid buffers and one write at most, which points at
  -- what is to be sent, runs through and leaves the connection so, and the bytes that the connection
  -- sent, then those it holds, then those of the messages on their way to it are the ones from
  -- before and those of the messages given to `sendMessage` since, in their order. An event is fair
  -- if it is no failure to connect, which replaces the connection, and nothing that the connection
  -- does to harm itself (a failed write, sizes from 4 GiB on, a buffer moved onto itself, or `buf_out_`
  -- moved or enlarged while a write is under way), and if nobody gives the connection a message past the client.
  pub run-given :
      (es : List Event) (c : TcpClient)
      → IsSound c.conn
      → AreFair retrieve es c
      → (u : TcpClient) × (run retrieve es c ≡ some u)
        × IsSound u.conn
        × (given u ≡ given c ++ all_sent es)
  unfolding run
  run-given [] c h g = (c, refl, h, sym (append-nil (given c)))
  run-given (event ∷ es) c h (now, later) =
      let (t, e, next) = step-Follows event c h now in
      let (u, ran, sound, rest) =
        run-given es t next.0 (subst (λ r. AreFair retrieve es (after r c)) e later) in
      (
        u,
        rw e ran,
        sound,
        rest
            ∙ ap (λ l. l ++ all_sent es) next.1
            ∙ append_assoc (given c) (sent event) (all_sent es),
      )
