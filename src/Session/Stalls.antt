-- ===== src/Session/Stalls.antt =====
-- asio-1.28_server_multi_protocol/src/test.cpp: a session with a full buffer, or with several frames in
-- it, and the calls of `on_session_closed`.
use asio_client.Common.{
  ℕ, ◌+◌, ◌≤◌, ◌<◌, ◌^◌, ◌≡◌, refl, sym, ap, ap₂, subst, ◌∙◌, true, some, List, [], ◌∷◌, ◌++◌,
  length, drop, arith, length-append, length-take, drop-append_left, append_assoc, append-nil,
}
use asio_client.Protocol.Handler.{line, binary, process_data}
use asio_client.Protocol.Factory.{ProtocolFactory}
use asio_client.Protocol.Line.Split.{lines, partial_line, lines-OneLine, OneLine}
use asio_client.Protocol.Line.Loop.{feed}
use asio_client.Protocol.Binary
use asio_client.Protocol.Binary.RoundTrip.{process_data-prepare_send}
use asio_client.Session.{
  Session, DataHandler, client_disconnected, write_error, destructor_called, read_buffer_size,
  handle_read, process_frame, handle_read_error, handle_write_error, destroy,
}
use asio_client.Session.Reading.{contents, filled, Settled, handle_read_lem}
use asio_client.Session.Stream.{handle_read-line}

-- A session that speaks the line protocol and whose buffer is full without a line end asks the socket
-- for no bytes at all; the read of no bytes that then completes leaves everything as it was and asks
-- for no bytes again. The session reads on for ever and never gets further.
pub full_line_stalls :
    (protocols : ProtocolFactory) (s : Session)
    → s.protocol ≡ line
    → length s.read_buffer ≡ read_buffer_size
    → s.read_pos ≡ read_buffer_size
    → OneLine (contents s)
    → (u : Session) × (handle_read protocols [] s ≡ some u)
      × (contents u ≡ contents s)
      × (u.read_pos ≡ read_buffer_size)
      × (u.reading ≡ some 0)
      × (u.posted ≡ s.posted)
full_line_stalls protocols s e array full begun =
    let (u, read, settled) = handle_read-line protocols [] s e array (omega (arith, full)) in
    let kept = settled.contents_left ∙ ap partial_line (append-nil (contents s)) ∙ nothing.1 in
    let position : u.read_pos ≡ read_buffer_size =
      settled.position_left ∙ ap length (sym settled.contents_left ∙ kept) ∙ size in
    (
      u,
      read,
      kept,
      position,
      settled.reads_on ∙ ap some (omega (arith, position)),
      ap (λ (t : Session). t.posted) settled.others
          ∙ ap (λ ls. (feed (process_frame protocols) ls (filled [] s)).posted)
              (ap lines (append-nil (contents s)) ∙ nothing.0),
    )
  where
    nothing : (lines (contents s) ≡ []) × (partial_line (contents s) ≡ contents s)
    nothing = lines-OneLine (contents s) begun

    size : length (contents s) ≡ read_buffer_size
    size = omega (arith, length-take s.read_pos s.read_buffer)

-- However many binary frames have arrived, a read hands over the first one only; the bytes of the
-- others, complete or not, stay in the buffer until the client sends more.
pub handle_read-one_frame :
    (protocols : ProtocolFactory) (bytes message rest frame : List ℕ) (s : Session)
    → s.protocol ≡ binary
    → length s.read_buffer ≡ read_buffer_size
    → s.read_pos + length bytes ≤ read_buffer_size
    → length message + 4 < 2 ^ 32
    → Binary.prepare_send message ≡ some frame
    → contents s ++ bytes ≡ frame ++ rest
    → (u : Session) × (handle_read protocols bytes s ≡ some u)
      × Settled rest (process_frame protocols message (filled bytes s)) u
unfolding process_data
handle_read-one_frame protocols bytes message rest frame s e array fits small made arrived =
    subst (λ l. (u : Session) × (handle_read protocols bytes s ≡ some u) × Settled l fed u)
      (ap (drop (length frame)) arrived ∙ drop-append_left (length frame) frame rest refl)
      (handle_read_lem protocols bytes s array fits (length frame) fed
        (ap₂ (λ h l. process_data h (process_frame protocols) l (filled bytes s)) e arrived ∙ first)
        (omega (arith, ap length arrived, length-append frame rest)))
  where
    fed : Session
    fed = process_frame protocols message (filled bytes s)

    first :
        Binary.process_data (process_frame protocols) (frame ++ rest) (filled bytes s)
        ≡ some (length frame, fed)
    first =
        let (f, sent, read) =
          process_data-prepare_send (process_frame protocols) message rest (filled bytes s) small in
        let same : f ≡ frame = cc in
        ap (λ g. Binary.process_data (process_frame protocols) (g ++ rest) (filled bytes s))
          (sym same)
        ∙ read
        ∙ ap (λ g. some (length g, fed)) same

-- The handler of a session is told twice that it closed: once when the client disconnects or a write
-- fails, and once more by the destructor.
pub closed_twice :
    (s : Session) (handler : DataHandler)
    → s.data_handler ≡ some handler
    → ((destroy (handle_read_error true s)).closed
        ≡ s.closed ++ client_disconnected ∷ destructor_called ∷ [])
      × ((destroy (handle_write_error s)).closed ≡ s.closed ++ write_error ∷ destructor_called ∷ [])
unfolding destroy handle_read_error handle_write_error
closed_twice s handler e = ground (
  arith,
  append_assoc s.closed (client_disconnected ∷ []) (destructor_called ∷ []),
  append_assoc s.closed (write_error ∷ []) (destructor_called ∷ []),
)
