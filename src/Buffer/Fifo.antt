-- ===== src/Buffer/Fifo.antt =====
-- A `ConnectionBuffer` as a first-in first-out queue of bytes: its clients' calls, in any order,
-- against the same calls on a plain list.
use asio_client.Common.{
  ℕ, ◌+◌, ◌*◌, ◌^◌, ◌≤◌, ◌<◌, ◌≡◌, refl, ap, ap₂, ◌∙◌, Option, some, List, [], ◌∷◌, ◌++◌, length,
  take, drop, ◌>>=◌, arith, overwrite, copy_in_lem, length-overwrite, take-overwrite_before,
  take-drop-overwrite,
}
use asio_client.Buffer.{
  ConnectionBuffer, append, retrieve_read_index, retrieve_write_index, retrieve_both_index,
  adjust_internal, receive, writable_count,
}
use asio_client.Buffer.Valid.{IsValid, contents}
use asio_client.Buffer.Append.{Holds, Fits, Overlaps, append-Holds}
use asio_client.Buffer.Indices.{
  AdjustOverlaps, retrieve_read_index_lem, retrieve_write_index_lem, retrieve_both_index_lem,
  adjust_internal-Holds,
}

-- The calls that change a buffer.
pub data Call : Type 0 where
  appends receives : List ℕ → Call
  retrieves : ℕ → Call
  clears adjusts : Call

unfoldable pub step : ConnectionBuffer → Call → Option ConnectionBuffer
step b (appends bytes) = append b bytes
step b (receives bytes) = receive b bytes
step b (retrieves count) = some (retrieve_read_index b count)
step b clears = some (retrieve_both_index b)
step b adjusts = adjust_internal b

pub run : ConnectionBuffer → List Call → Option ConnectionBuffer
run b [] = some b
run b (c ∷ cs) = step b c >>= λ b'. run b' cs

-- The same call on a queue of bytes, oldest first.
abbrev pub queue_step : List ℕ → Call → List ℕ
queue_step q (appends bytes) = q ++ bytes
queue_step q (receives bytes) = q ++ bytes
queue_step q (retrieves count) = drop count q
queue_step q clears = []
queue_step q adjusts = q

abbrev pub queue_run : List ℕ → List Call → List ℕ
queue_run q [] = q
queue_run q (c ∷ cs) = queue_run (queue_step q c) cs

-- What a call asks of the buffer: sizes below 4 GiB, no move onto itself, and no more bytes
-- received than the writable part holds.
abbrev pub IsSafe : ConnectionBuffer → Call → Type 0
IsSafe b (appends bytes) = Fits b (length bytes) × (¬ Overlaps b (length bytes))
IsSafe b (receives bytes) = (length bytes ≤ writable_count b) × (length b.buffer * 2 < 2 ^ 32)
IsSafe b (retrieves count) = b.read_index + count < 2 ^ 32
IsSafe b clears = Unit {0}
IsSafe b adjusts = ¬ AdjustOverlaps b

-- It asks it of every state that the calls before it lead to.
abbrev pub AreSafe : ConnectionBuffer → List Call → Type 0
AreSafe b [] = Unit {0}
AreSafe b (c ∷ cs) = IsSafe b c × ((b' : ConnectionBuffer) → step b c ≡ some b' → AreSafe b' cs)

-- What the socket received goes behind the bytes that a reader saw.
pub receive-Holds :
    (b : ConnectionBuffer) (bytes : List ℕ)
    → IsValid b
    → IsSafe b (receives bytes)
    → Holds (contents b ++ bytes) (receive b bytes)
unfolding receive
receive-Holds b bytes v safe =
    rw (copy_in_lem b.buffer b.write_index bytes (omega arith))
      (retrieve_write_index filled n, refl, after.0, after.1 ∙ seen)
  where
    n : ℕ
    n = length bytes

    filled : ConnectionBuffer
    filled = record b { buffer = overwrite b.buffer b.write_index bytes }

    same_length : length filled.buffer ≡ length b.buffer
    same_length = length-overwrite b.buffer b.write_index bytes (omega arith)

    filled-IsValid : IsValid filled
    filled-IsValid = record {
      ordered = v.ordered;
      room = omega (arith, same_length, v.room);
      small = omega (arith, same_length, v.small);
    }

    after :
        IsValid (retrieve_write_index filled n)
        × (contents (retrieve_write_index filled n)
            ≡ contents filled ++ take n (drop b.write_index filled.buffer))
    after =
        retrieve_write_index_lem filled n filled-IsValid (rw same_length (omega arith))
          (rw same_length (omega arith))

    seen : contents filled ++ take n (drop b.write_index filled.buffer) ≡ contents b ++ bytes
    seen =
        ap₂ ◌++◌
          (ap (drop b.read_index)
            (take-overwrite_before b.buffer b.write_index bytes (omega arith)))
          (take-drop-overwrite b.buffer b.write_index bytes (omega arith))

-- One call does to the bytes that a reader sees what it does to the queue.
pub step-Holds :
    (b : ConnectionBuffer) (c : Call)
    → IsValid b
    → IsSafe b c
    → Holds (queue_step (contents b) c) (step b c)
unfolding step
step-Holds b (appends bytes) v safe = append-Holds b bytes v safe.0 safe.1
step-Holds b (receives bytes) v safe = receive-Holds b bytes v safe
step-Holds b (retrieves count) v safe =
    let (v', e) = retrieve_read_index_lem b count v safe in (_, refl, v', e)
step-Holds b clears v safe = let (v', e) = retrieve_both_index_lem b v in (_, refl, v', e)
step-Holds b adjusts v safe = adjust_internal-Holds b v safe

-- Any sequence of calls on a valid buffer, each safe where it is made, runs through, leaves the
-- buffer valid, and shows a reader just the bytes of the queue: none is lost, invented or moved
-- out of order.
pub run-Holds :
    (b : ConnectionBuffer) (cs : List Call)
    → IsValid b
    → AreSafe b cs
    → Holds (queue_run (contents b) cs) (run b cs)
unfolding run
run-Holds b [] v safe = (b, refl, v, refl)
run-Holds b (c ∷ cs) v safe =
    let (b', e, v', seen) = step-Holds b c v safe.0 in
    rw (e, ← seen) (run-Holds b' cs v' (safe.1 b' e))
