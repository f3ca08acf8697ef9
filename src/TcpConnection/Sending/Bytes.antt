-- ===== src/TcpConnection/Sending/Bytes.antt =====
-- Where the bytes are that a `TcpConnection` was given to send, and what a write points at.
use asio_client.Common.{
  ℕ, ◌+◌, ◌*◌, ◌≤◌, ◌<◌, ◌^◌, ◌≡◌, refl, sym, ap, ◌∙◌, Bool, true, some, List, [], ◌∷◌, ◌++◌,
  length, take, drop, drop-drop, take-drop, take-take, take-append-drop, append_assoc,
}
use asio_client.Buffer.{ConnectionBuffer, receive, writable_count}
use asio_client.Buffer.Valid.{IsValid, contents}
use asio_client.Buffer.Append.{Fits, Overlaps}
use asio_client.Buffer.Indices.{AdjustOverlaps}
use asio_client.TcpConnection.{TcpConnection, Task, Write}
use asio_client.TcpConnection.Runs.{
  Event, calls_start_receive, calls_send, calls_close, connects, runs_task, receives,
  fails_to_receive, transfers, completes, fails_to_send,
}

-- How much of the write under way is sent.
abbrev pub progress : List Write → ℕ
progress [] = 0
progress (w ∷ ws) = w.done

-- The bytes of `buf_out_` that are not sent.
abbrev pub unsent : TcpConnection → List ℕ
unsent c = drop (progress c.pending_writes) (contents c.buf_out)

-- The bytes of the messages whose tasks are posted.
abbrev pub queued : List Task → List ℕ
queued [] = []
queued (Task.receives ∷ tasks) = queued tasks
queued (Task.sends bytes ∷ tasks) = bytes ++ queued tasks
queued (Task.closes ∷ tasks) = queued tasks

-- All the bytes that the connection has taken: sent, in the buffer, or on their way there.
abbrev pub taken : TcpConnection → List ℕ
taken c = c.wire ++ (unsent c ++ queued c.posted)

-- What a `sendMessage` adds to them.
abbrev pub accepted : Event → List ℕ
accepted calls_start_receive = []
accepted (calls_send bytes) = bytes
accepted calls_close = []
accepted connects = []
accepted runs_task = []
accepted (receives bytes) = []
accepted (fails_to_receive eof) = []
accepted (transfers n) = []
accepted completes = []
accepted fails_to_send = []

-- A write under way starts where the readable bytes start, and does not go beyond them.
abbrev pub Points : (b : ConnectionBuffer) (array : ℕ) → List Write → Type 0
Points b array [] = Unit {0}
Points b array (w ∷ []) =
    (w.array ≡ array)
    × (w.offset ≡ b.read_index)
    × (w.offset + w.count ≤ b.write_index)
    × (w.done ≤ w.count)
Points b array (w ∷ v ∷ ws) = ⊥

-- `sending_` is set while a write is under way.
abbrev pub Marked : Bool → List Write → Type 0
Marked sending [] = Unit {0}
Marked sending (w ∷ ws) = sending ≡ true

pub record IsSound (c : TcpConnection) : Type 0 where
  pub outbound : IsValid c.buf_out
  pub inbound : IsValid c.buf_in
  pub points : Points c.buf_out c.array c.pending_writes
  pub marked : Marked c.sending c.pending_writes

-- A message that comes while a write is under way has to fit behind the bytes that are there.
abbrev pub InPlace : ConnectionBuffer → List Write → List ℕ → Type 0
InPlace b [] bytes = Unit {0}
InPlace b (w ∷ ws) bytes = length bytes < writable_count b

abbrev pub IsSafeTask : List Task → TcpConnection → Type 0
IsSafeTask [] c = Unit {0}
IsSafeTask (Task.receives ∷ tasks) c = Unit {0}
IsSafeTask (Task.sends bytes ∷ tasks) c =
    Fits c.buf_out (length bytes)
    × (¬ Overlaps c.buf_out (length bytes))
    × InPlace c.buf_out c.pending_writes bytes
IsSafeTask (Task.closes ∷ tasks) c = Unit {0}

-- The events that do no harm: no write fails, sizes stay below 4 GiB, no buffer is moved onto itself,
-- and none is moved or enlarged while a write is under way.
abbrev pub IsSafe : Event → TcpConnection → Type 0
IsSafe calls_start_receive c = Unit {0}
IsSafe (calls_send bytes) c = Unit {0}
IsSafe calls_close c = Unit {0}
IsSafe connects c = Unit {0}
IsSafe runs_task c = IsSafeTask c.posted c
IsSafe (receives bytes) c =
    (length bytes ≤ writable_count c.buf_in)
    × (length c.buf_in.buffer * 2 < 2 ^ 32)
    × ((b : ConnectionBuffer) → receive c.buf_in bytes ≡ some b → ¬ AdjustOverlaps b)
IsSafe (fails_to_receive eof) c = Unit {0}
IsSafe (transfers n) c = Unit {0}
IsSafe completes c = Unit {0}
IsSafe fails_to_send c = ⊥

-- The bytes that the socket takes are the next ones of those that are not sent.
pub transferred :
    (b : ConnectionBuffer) (d n : ℕ)
    → b.read_index + d + n ≤ b.write_index
    → take n (drop (b.read_index + d) b.buffer) ++ drop (d + n) (contents b) ≡ drop d (contents b)
transferred b d n h =
    ap (λ l. l ++ drop (d + n) (contents b)) next
    ∙ ap (◌++◌ (take n (drop d (contents b)))) (sym (drop-drop d n (contents b)))
    ∙ take-append-drop n (drop d (contents b))
  where
    open b use {buffer, read_index, write_index}

    next : take n (drop (read_index + d) buffer) ≡ take n (drop d (contents b))
    next =
        take-drop (read_index + d) n buffer
        ∙ ap (drop (read_index + d)) (sym (take-take (read_index + d + n) write_index buffer h))
        ∙ sym (take-drop (read_index + d) n (take write_index buffer))
        ∙ ap (take n) (sym (drop-drop read_index d (take write_index buffer)))

pub queued-append : (ts us : List Task) → queued (ts ++ us) ≡ queued ts ++ queued us
queued-append [] us = refl
queued-append (Task.receives ∷ ts) us = queued-append ts us
queued-append (Task.sends bytes ∷ ts) us =
    ap (◌++◌ bytes) (queued-append ts us) ∙ sym (append_assoc bytes (queued ts) (queued us))
queued-append (Task.closes ∷ ts) us = queued-append ts us
