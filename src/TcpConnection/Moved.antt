-- ===== src/TcpConnection/Moved.antt =====
-- asio-1.10/src/tcp_connection.cpp, `TcpConnection::sendInService`: a message that comes while a write is
-- under way, and for which `buf_out_` has to grow.
use asio_client.Common.{ℕ, ◌*◌, ◌/◌, ◌+◌, ◌≤◌, ◌<◌, ◌≡◌, none, List, [], ◌∷◌, length, arith, true}
use asio_client.Buffer.{ConnectionBuffer, buf_size}
use asio_client.Buffer.Append.{Fits, append-grows}
use asio_client.TcpConnection.{TcpConnection, Task, Write, run_task, start_sending, send_in_service}
use asio_client.TcpConnection.Runs.{runs_task, transfers, run, step, run_posted, transfer}
use asio_client.TcpConnection.Sending.Bytes.{IsSound, Points}

grown :
    (b' : ConnectionBuffer) (c : TcpConnection) (w : Write) (n : ℕ)
    → IsSound c
    → c.pending_writes ≡ w ∷ []
    → length c.buf_out.buffer < length b'.buffer
    → c.capacity < length b'.buffer
    → w.done + n ≤ w.count
    → transfer n (start_sending b' c).pending_writes (start_sending b' c) ≡ none
unfolding transfer start_sending
grown b' c w n h p larger beyond fits =
    let marked : c.sending ≡ true = ground arith in
    let points : Points c.buf_out c.array (w ∷ []) = ground arith in ground arith

-- Where a message comes while the one write of a connection with valid buffers is under way, all of it
-- below 4 GiB, and there is room for it neither behind the bytes of `buf_out_` nor with those before
-- them, nor in the capacity of the array for as many blocks of 4096 bytes as `append` adds, the array is
-- replaced by a larger one, and as soon as the socket takes more bytes of the write, it reads from the
-- array that is gone.
pub grows_while_sending :
    (retrieve : ConnectionBuffer → ConnectionBuffer) (bytes : List ℕ) (n : ℕ) (tasks : List Task)
    (w : Write) (c : TcpConnection)
    → IsSound c
    → c.pending_writes ≡ w ∷ []
    → c.posted ≡ Task.sends bytes ∷ tasks
    → Fits c.buf_out (length bytes)
    → length c.buf_out.buffer ≤ c.buf_out.write_index + length bytes
    → c.buf_out.read_index + c.buf_out.write_index ≤ length c.buf_out.buffer + length bytes
    → c.capacity < length c.buf_out.buffer + buf_size * (length bytes / buf_size + 1)
    → w.done + n ≤ w.count
    → run retrieve (runs_task ∷ transfers n ∷ []) c ≡ none
unfolding run step run_posted run_task send_in_service
grows_while_sending retrieve bytes n tasks w c h p q fits full tight beyond more =
    let (b', e, size) = append-grows c.buf_out bytes h.outbound fits full tight in
    let c' = record c { posted = tasks } in
    let sound : IsSound c' = record {
      outbound = h.outbound;
      inbound = h.inbound;
      points = h.points;
      marked = h.marked;
    } in
    rw (q, e, grown b' c' w n sound p (omega (arith, size)) (omega (arith, size, beyond)) more)
