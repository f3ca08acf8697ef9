-- ===== src/TcpClient/Leftovers.antt =====
-- asio-1.28/src/tcp_client.cpp, `TcpClient`: handlers that run after `close` or `doReconnect`.
use asio_client.Common.{
  ℕ, ◌<◌, ◌≡◌, refl, false, Option, none, some, List, [], ◌∷◌, arith, is_empty,
}
use asio_client.TcpClient.{
  TcpClient, connected, handle_connect, handle_wait, handle_read_error, handle_write, close,
}
use asio_client.TcpClient.Runs.{
  calls_close, connects, fails_to_read, completes, expires, step, run, complete, end_connect,
}
use asio_client.TcpClient.Order.{IsOrderly}

-- `close` does not call off a wait for the next try: it still connects, and the client is connected
-- although it was closed and is not to reconnect.
pub close_reconnects :
    (c : TcpClient)
    → 0 < c.pending_waits
    → (u : TcpClient) × (run (calls_close ∷ expires ∷ connects ∷ []) c ≡ some u)
      × (u.is_connected ≡ connected)
      × (u.reconnect ≡ false)
unfolding run step end_connect handle_connect handle_wait close
close_reconnects c h = from (run (calls_close ∷ expires ∷ connects ∷ []) c) refl
  where
    from :
        (result : Option TcpClient)
        → run (calls_close ∷ expires ∷ connects ∷ []) c ≡ result
        → (u : TcpClient) × (run (calls_close ∷ expires ∷ connects ∷ []) c ≡ some u)
          × (u.is_connected ≡ connected)
          × (u.reconnect ≡ false)
    from none e = ground arith
    from (some u) e = (u, e, ground arith, ground arith)

-- Where a read fails while a message is being written, the write still completes if the message was
-- sent: its handler then takes the front out of a queue that `doReconnect` has emptied.
pub late_completion :
    (value : ℕ) (c : TcpClient)
    → IsOrderly c
    → is_empty c.send_msgs ≡ false
    → 0 < c.pending_reads
    → run (fails_to_read value ∷ completes ∷ []) c ≡ none
unfolding run step handle_read_error complete handle_write
late_completion value c h q n = from c.send_msgs refl
  where
    from :
        (queue : List (List ℕ))
        → c.send_msgs ≡ queue
        → run (fails_to_read value ∷ completes ∷ []) c ≡ none
    from [] e = ground arith
    from (m ∷ queue) e = ground arith
