-- ===== src/TcpClient110/Lost.antt =====
-- asio-1.10/src/tcp_client.cpp, `TcpClient::handleConnect`: the messages of a connection that is not made.
use asio_client.Common.{
  ℕ, ◌-◌, ◌<◌, ◌≡◌, refl, subst, ap, ◌∙◌, Bool, some, List, [], ◌∷◌, ◌++◌, lt→ltb, arith, add_u32,
  after,
}
use asio_client.Buffer.{ConnectionBuffer}
use asio_client.Buffer.Valid.{IsValid, init_default-IsValid}
use asio_client.TcpConnection
use asio_client.TcpConnection.{TcpConnection}
use asio_client.TcpConnection.Sending.Bytes.{IsSound, taken}
use asio_client.TcpClient110.{TcpClient, new_connection, handle_connect_error, tell, start_timer}
use asio_client.TcpClient110.Runs.{Event, fails_to_connect, step, run}
use asio_client.TcpClient110.Delivery.{waiting, given, all_sent, AreFair, run-given}

-- A connection that holds no bytes.
abbrev pub IsEmpty : TcpConnection → Type 0
IsEmpty conn = IsSound conn × (taken conn ≡ [])

new_connection-IsEmpty : (n : ℕ) → IsEmpty (new_connection n)
unfolding new_connection TcpConnection.init
new_connection-IsEmpty n =
    let (valid, none_there) = init_default-IsValid in
    (record { outbound = valid; inbound = valid; points = tt; marked = tt }, rw none_there refl)

-- The connection is replaced, and the messages are left.
handle_connect_error-new :
    (at_end : Bool) (c : TcpClient)
    → ((handle_connect_error at_end c).conn ≡ new_connection (add_u32 c.conn_sequence 1))
      × ((handle_connect_error at_end c).posted ≡ c.posted)
unfolding handle_connect_error tell start_timer
handle_connect_error-new at_end c = ground arith

module _ (retrieve : ConnectionBuffer → ConnectionBuffer)
    (keeps : (b : ConnectionBuffer) → IsValid b → IsValid (retrieve b)) where
  -- A connection that cannot be made takes the messages with it that the client has handed to it: after
  -- the completion of an outstanding `async_connect` with an error and then any events, each fair where
  -- it happens, the bytes that the connection sent, then those it holds, then those of the messages
  -- on their way to it are only those that were on their way before, and then those of the messages
  -- given to `sendMessage` since, for a `retrieve_callback_` that leaves a valid buffer valid; and
  -- these events run through.
  pub run-forgets :
      (at_end : Bool) (es : List Event) (c : TcpClient)
      → 0 < c.pending_connects
      → AreFair retrieve es (after (step retrieve (fails_to_connect at_end) c) c)
      → (u : TcpClient) × (run retrieve (fails_to_connect at_end ∷ es) c ≡ some u)
        × (given u ≡ waiting c.posted ++ all_sent es)
  unfolding run step
  run-forgets at_end es c h fair =
      let c' = record c { pending_connects = c.pending_connects - 1 } in
      let t = handle_connect_error at_end c' in
      let (conn, posted) = handle_connect_error-new at_end c' in
      let now : step retrieve (fails_to_connect at_end) c ≡ some t =
        rw (lt→ltb 0 c.pending_connects h) refl in
      let (sound, empty) = new_connection-IsEmpty (add_u32 c.conn_sequence 1) in
      let there : given t ≡ waiting c.posted = rw (conn, posted, empty) refl in
      let (u, ran, _, all) =
        run-given retrieve keeps es t (rw conn sound)
          (subst (λ r. AreFair retrieve es (after r c)) now fair) in
      (u, rw (lt→ltb 0 c.pending_connects h) ran, all ∙ ap (λ l. l ++ all_sent es) there)
