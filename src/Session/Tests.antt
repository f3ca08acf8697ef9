-- ===== src/Session/Tests.antt =====
-- Runs of a session, and the theorems at inputs that meet their hypotheses.
use asio_client.Common.{
  ℕ, ◌-◌, ◌≡◌, refl, true, none, some, List, [], ◌∷◌, ◌++◌, length, replicate, codes, arith,
}
use asio_client.Protocol.Line
use asio_client.Protocol.Handler.{ProtocolHandler, line, prepare_send}
use asio_client.Protocol.Line.Split.{split, lines, partial_line}
use asio_client.Session.{Session, echo_handler, writes, read_buffer_size, run_task, handle_write}
use asio_client.Session.Valid.{Reach, IsValid, here, next, runs_write, completes, Reach-IsValid}
use asio_client.Session.Writing.{sent, Reach-sent}
use asio_client.Session.Reading.{contents}
use asio_client.Session.Stream.{IsEchoing, read_all, echoes, ChunksFit, read_all-lines}

-- A session of the echo server that speaks a protocol, with `bytes` in its buffer.
abbrev session : ProtocolHandler → List ℕ → Session
session protocol bytes = record {
  data_handler = some echo_handler;
  session_id = codes "SESS-1";
  protocol = protocol;
  write_queue = [];
  read_buffer = bytes ++ replicate (read_buffer_size - length bytes) 0;
  read_pos = length bytes;
  metadata = [];
  posted = writes (7 ∷ []) ∷ writes (8 ∷ []) ∷ [];
  reading = some (read_buffer_size - length bytes);
  writing = none;
  written = [];
  socket_open = true;
  closed = [];
}

session-IsValid : IsValid (session line (b'a' ∷ []))
session-IsValid = record { array = refl; position = omega arith; reads = refl; front = refl }

-- The state after the first `safe_write` has run, and after its write has completed.
abbrev busy : Session
busy = record (session line (b'a' ∷ [])) {
  posted = writes (8 ∷ []) ∷ [];
  write_queue = (7 ∷ 13 ∷ 10 ∷ []) ∷ [];
  writing = some (7 ∷ 13 ∷ 10 ∷ []);
}

abbrev idle : Session
idle = record (session line (b'a' ∷ [])) {
  posted = writes (8 ∷ []) ∷ [];
  written = (7 ∷ 13 ∷ 10 ∷ []) ∷ [];
}

writing_run : Reach [] (session line (b'a' ∷ [])) ((7 ∷ 13 ∷ 10 ∷ []) ∷ []) idle
unfolding run_task handle_write prepare_send Line.prepare_send
writing_run =
    next {frames = []} {t = busy}
      (next {before = []} here
        (runs_write (writes (8 ∷ []) ∷ []) (7 ∷ []) (7 ∷ 13 ∷ 10 ∷ []) refl refl refl refl))
      (completes (7 ∷ 13 ∷ 10 ∷ []) refl refl refl)

Reach-IsValid_example : IsValid idle
Reach-IsValid_example = Reach-IsValid writing_run session-IsValid

Reach-sent_example : sent idle ≡ (7 ∷ 13 ∷ 10 ∷ []) ∷ []
Reach-sent_example = Reach-sent writing_run session-IsValid refl

echoing : IsEchoing (session line (b'a' ∷ []))
echoing = record {
  speaks_lines = refl;
  echoing = refl;
  array = refl;
  position = refl;
  in_line = (λ e. omega arith, tt);
}

abbrev chunks : List (List ℕ)
chunks = (b'b' ∷ 13 ∷ []) ∷ (10 ∷ b'c' ∷ []) ∷ []

chunks_fit : ChunksFit (b'a' ∷ []) chunks
unfolding split
chunks_fit = omega arith

read_all-lines_example :
    (u : Session) × (read_all [] chunks (session line (b'a' ∷ [])) ≡ some u)
    × IsEchoing u
    × (contents u ≡ partial_line (b'a' ∷ b'b' ∷ 13 ∷ 10 ∷ b'c' ∷ []))
    × (u.posted
        ≡ writes (7 ∷ []) ∷ writes (8 ∷ []) ∷ echoes (lines (b'a' ∷ b'b' ∷ 13 ∷ 10 ∷ b'c' ∷ [])))
read_all-lines_example = read_all-lines [] chunks (session line (b'a' ∷ [])) echoing chunks_fit
