-- ===== src/TcpConnection128/Same.antt =====
-- asio-1.28/src/tcp_connection.cpp against asio-1.10/src/tcp_connection.cpp.
use mathlib.Core.Path.{fun_ext}
use asio_client.Common.{
  ℕ, ◌+◌, ◌-◌, ◌≡◌, refl, sym, ap, ◌∙◌, inl, inr, Bool, true, false, ◌&&◌, Option, none, some, List,
  [], ◌∷◌, ltb, leb, ◌==◌, if◌then◌else◌, ◌>>=◌, slice, Bool-cases, arith,
}
use asio_client.Buffer.{ConnectionBuffer, append, adjust_internal, receive}
use asio_client.TcpConnection
use asio_client.TcpConnection.{TcpConnection, ConnectState, Task, Write}
use asio_client.TcpConnection.Runs.{
  Event, calls_start_receive, calls_send, calls_close, connects, runs_task, receives,
  fails_to_receive, transfers, completes, fails_to_send,
}
use asio_client.TcpConnection.Runs
use asio_client.TcpConnection128
use asio_client.TcpConnection128.Runs as Later

abbrev pub state_of : TcpConnection128.ConnectState → ConnectState
state_of TcpConnection128.connecting = TcpConnection.connecting
state_of TcpConnection128.connected = TcpConnection.connected
state_of TcpConnection128.disconnected = TcpConnection.disconnected

-- The connection of the older version that has this name and the same of all else.
abbrev pub named : List ℕ → TcpConnection128.TcpConnection → TcpConnection
named name c = record {
  conn_name = name;
  receiving = c.receiving;
  sending = c.sending;
  state = state_of c.state;
  buf_in = c.buf_in;
  buf_out = c.buf_out;
  has_connection_callback = c.has_connect_callback;
  has_close_callback = c.has_close_callback;
  has_retrieve_callback = c.has_recv_callback;
  posted = c.posted;
  pending_reads = c.pending_reads;
  pending_writes = c.pending_writes;
  array = c.array;
  capacity = c.capacity;
  wire = c.wire;
  closed = c.closed;
}

abbrev pub named? : List ℕ → Option TcpConnection128.TcpConnection → Option TcpConnection
named? name none = none
named? name (some c) = some (named name c)

state_of-is_connected :
    (s : TcpConnection128.ConnectState)
    → TcpConnection.is_connected (state_of s) ≡ TcpConnection128.is_connected s
unfolding TcpConnection.is_connected TcpConnection128.is_connected
state_of-is_connected TcpConnection128.connecting = refl
state_of-is_connected TcpConnection128.connected = refl
state_of-is_connected TcpConnection128.disconnected = refl

module _ (name : List ℕ) where
  named?-if :
      (b : Bool) (r t : Option TcpConnection128.TcpConnection)
      → named? name (if b then r else t) ≡ (if b then named? name r else named? name t)
  named?-if true r t = refl
  named?-if false r t = refl

  named?-bind :
      {A : Type 0} (r : Option A) (f : A → Option TcpConnection128.TcpConnection)
      → named? name (r >>= f) ≡ (r >>= λ a. named? name (f a))
  named?-bind none f = refl
  named?-bind (some a) f = refl

  start_receive-named :
      (c : TcpConnection128.TcpConnection)
      → TcpConnection.start_receive (named name c) ≡ named name (TcpConnection128.start_receive c)
  unfolding TcpConnection.start_receive TcpConnection128.start_receive
  start_receive-named c = ground arith

  close-named :
      (c : TcpConnection128.TcpConnection)
      → TcpConnection.close_in_service (named name c)
        ≡ named name (TcpConnection128.close_in_service c)
  unfolding TcpConnection.close_in_service TcpConnection128.close_in_service
      TcpConnection.notify_closed TcpConnection128.notify_closed
  close-named c = ground arith

  start_sending-named :
      (b : ConnectionBuffer) (c : TcpConnection128.TcpConnection)
      → TcpConnection.start_sending b (named name c)
        ≡ named name (TcpConnection128.start_sending b c)
  unfolding TcpConnection.start_sending TcpConnection128.start_sending TcpConnection.write_out
      TcpConnection128.write_out
  start_sending-named b c = rw (state_of-is_connected c.state) (ground arith)

  send_in_service-named :
      (bytes : List ℕ) (c : TcpConnection128.TcpConnection)
      → TcpConnection.send_in_service bytes (named name c)
        ≡ named? name (TcpConnection128.send_in_service bytes c)
  unfolding TcpConnection.send_in_service TcpConnection128.send_in_service
  send_in_service-named bytes c =
      ap (◌>>=◌ (append c.buf_out bytes)) (fun_ext (λ b. ap some (start_sending-named b c)))
      ∙ sym (named?-bind (append c.buf_out bytes) _)

  handle_send-named :
      (n : ℕ) (c : TcpConnection128.TcpConnection)
      → TcpConnection.handle_send n (named name c) ≡ named name (TcpConnection128.handle_send n c)
  unfolding TcpConnection.handle_send TcpConnection128.handle_send TcpConnection.write_out
      TcpConnection128.write_out
  handle_send-named n c = rw (state_of-is_connected c.state) (ground arith)

  handle_receive_error-named :
      (eof : Bool) (c : TcpConnection128.TcpConnection)
      → TcpConnection.handle_receive_error eof (named name c)
        ≡ named name (TcpConnection128.handle_receive_error eof c)
  unfolding TcpConnection.handle_receive_error TcpConnection128.handle_receive_error
  handle_receive_error-named eof c = elim (Bool-cases (eof && c.has_close_callback)) [
    | inl told ↦ rw told refl
    | inr silent ↦ rw silent (close-named c)
  ]

  run_posted-named :
      (tasks : List Task) (c : TcpConnection128.TcpConnection)
      → Runs.run_posted tasks (named name c) ≡ named? name (Later.run_posted tasks c)
  unfolding Runs.run_posted Later.run_posted TcpConnection.run_task TcpConnection128.run_task
      TcpConnection.receive_in_service TcpConnection128.receive_in_service
  run_posted-named [] c = refl
  run_posted-named (Task.receives ∷ tasks) c = refl
  run_posted-named (Task.sends bytes ∷ tasks) c =
      send_in_service-named bytes (record c { posted = tasks })
  run_posted-named (Task.closes ∷ tasks) c = ap some (close-named (record c { posted = tasks }))

  transfer-named :
      (n : ℕ) (ws : List Write) (c : TcpConnection128.TcpConnection)
      → Runs.transfer n ws (named name c) ≡ named? name (Later.transfer n ws c)
  unfolding Runs.transfer Later.transfer
  transfer-named n [] c = refl
  transfer-named n (w ∷ ws) c = sym (
      named?-if (leb (w.done + n) w.count) _ (some c)
      ∙ ap (λ r. if leb (w.done + n) w.count then r else some (named name c))
          (named?-if (w.array == c.array) _ none
            ∙ ap (λ r. if w.array == c.array then r else none)
                (named?-bind (slice c.buf_out.buffer (w.offset + w.done) n) _)))

  complete-named :
      (ws : List Write) (c : TcpConnection128.TcpConnection)
      → Runs.complete ws (named name c) ≡ named name (Later.complete ws c)
  unfolding Runs.complete Later.complete
  complete-named [] c = refl
  complete-named (w ∷ ws) c = elim (Bool-cases (w.done == w.count)) [
    | inl all ↦ rw all (handle_send-named w.count (record c { pending_writes = ws }))
    | inr more ↦ rw more refl
  ]

  fail_write-named :
      (ws : List Write) (c : TcpConnection128.TcpConnection)
      → Runs.fail_write ws (named name c) ≡ named name (Later.fail_write ws c)
  unfolding Runs.fail_write Later.fail_write TcpConnection.handle_send_error
      TcpConnection128.handle_send_error
  fail_write-named [] c = refl
  fail_write-named (w ∷ ws) c = close-named (record c { pending_writes = ws })

  module _ (retrieve : ConnectionBuffer → ConnectionBuffer) where
    handle_receive-named :
        (bytes : List ℕ) (c : TcpConnection128.TcpConnection)
        → TcpConnection.handle_receive retrieve bytes (named name c)
          ≡ named? name (TcpConnection128.handle_receive retrieve bytes c)
    unfolding TcpConnection.handle_receive TcpConnection128.handle_receive
        TcpConnection.receive_in_service TcpConnection128.receive_in_service
    handle_receive-named bytes c = sym (
        named?-bind (receive c.buf_in bytes) _
        ∙ ap (◌>>=◌ (receive c.buf_in bytes)) (fun_ext (λ b. named?-bind (adjust_internal b) _)))

    step-named :
        (e : Event) (c : TcpConnection128.TcpConnection)
        → Runs.step retrieve e (named name c) ≡ named? name (Later.step retrieve e c)
    unfolding Runs.step Later.step TcpConnection.send_message TcpConnection128.send_message
        TcpConnection.force_close TcpConnection128.force_close TcpConnection.set_conn_state
        TcpConnection128.set_conn_state
    step-named calls_start_receive c = ap some (start_receive-named c)
    step-named (calls_send bytes) c = refl
    step-named calls_close c = refl
    step-named connects c = refl
    step-named runs_task c = run_posted-named c.posted c
    step-named (receives bytes) c =
        let c' = record c { pending_reads = c.pending_reads - 1 } in
        ap (λ r. if ltb 0 c.pending_reads then r else some (named name c))
          (handle_receive-named bytes c')
        ∙ sym (
            named?-if (ltb 0 c.pending_reads) (TcpConnection128.handle_receive retrieve bytes c')
              (some c))
    step-named (fails_to_receive eof) c =
        let c' = record c { pending_reads = c.pending_reads - 1 } in
        ap (λ v. if ltb 0 c.pending_reads then some v else some (named name c))
          (handle_receive_error-named eof c')
        ∙ sym (
            named?-if (ltb 0 c.pending_reads) (some (TcpConnection128.handle_receive_error eof c'))
              (some c))
    step-named (transfers n) c = transfer-named n c.pending_writes c
    step-named completes c = ap some (complete-named c.pending_writes c)
    step-named fails_to_send c = ap some (fail_write-named c.pending_writes c)

    bind-named? :
        (f : TcpConnection → Option TcpConnection)
        (g : TcpConnection128.TcpConnection → Option TcpConnection128.TcpConnection)
        (r : Option TcpConnection128.TcpConnection)
        → ((t : TcpConnection128.TcpConnection) → f (named name t) ≡ named? name (g t))
        → (named? name r >>= f) ≡ named? name (r >>= g)
    bind-named? f g none same = refl
    bind-named? f g (some t) same = same t

    -- The two versions of `TcpConnection` do the same: after the same events from the same state, with
    -- the same `retrieve_callback_`, the later one has the state of the earlier one, but for the name, and
    -- one of them has undefined behaviour if and only if the other has.
    pub run-named :
        (es : List Event) (c : TcpConnection128.TcpConnection)
        → Runs.run retrieve es (named name c) ≡ named? name (Later.run retrieve es c)
    unfolding Runs.run Later.run
    run-named [] c = refl
    run-named (e ∷ es) c =
        ap (λ r. r >>= Runs.run retrieve es) (step-named e c)
        ∙ bind-named? (Runs.run retrieve es) (Later.run retrieve es) (Later.step retrieve e c)
            (run-named es)
