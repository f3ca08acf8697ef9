-- ===== src/Session/Valid.antt =====
-- asio-1.28_server_multi_protocol/src/test.cpp, `Session`: the steps that asio can make it take, and
-- what holds between them.
use asio_client.Common.{
  ℕ, ◌+◌, ◌-◌, ◌≤◌, ◌≡◌, refl, sym, ap, subst, ◌∙◌, inl, inr, Bool, true, ◌&&◌, Option, some, none,
  List, [], ◌∷◌, ◌++◌, length, take, ltb, if◌then◌else◌, ◌>>=◌, arith, Bool-cases, move_down,
  move_down_lem, copy_in_lem, overwrite, length-overwrite, moved_down, length-moved_down,
  length-take, add_size, sub_size, String,
}
use asio_client.Protocol.Handler.{prepare_send}
use asio_client.Protocol.Factory.{ProtocolFactory}
use asio_client.Protocol.Outcome.{Outcome, process_data-Outcome}
use asio_client.Session.{
  Session, DataHandler, Task, starts_reading, writes, read_buffer_size, init, run_task, handle_read,
  handle_read_error, handle_write, handle_write_error, process_frame, do_read, set_protocol,
}

-- One handler runs. A task is run in the order of posting; a read or a write completes if it is
-- outstanding, and a read brings at most the bytes that it asked for. `frames` is what the step
-- puts into the write queue.
pub data Step (protocols : ProtocolFactory) (s : Session) (frames : List (List ℕ)) (u : Session)
    : Type 0 where
  runs_read :
      (tasks : List Task)
      → s.posted ≡ starts_reading ∷ tasks
      → frames ≡ []
      → run_task starts_reading (record s { posted = tasks }) ≡ some u
      → Step protocols s frames u
  runs_write :
      (tasks : List Task) (bytes frame : List ℕ)
      → s.posted ≡ writes bytes ∷ tasks
      → prepare_send s.protocol bytes ≡ some frame
      → frames ≡ frame ∷ []
      → run_task (writes bytes) (record s { posted = tasks }) ≡ some u
      → Step protocols s frames u
  receives :
      (size : ℕ) (bytes : List ℕ)
      → s.reading ≡ some size
      → length bytes ≤ size
      → frames ≡ []
      → handle_read protocols bytes (record s { reading = none }) ≡ some u
      → Step protocols s frames u
  fails_to_read :
      (size : ℕ) (eof : Bool)
      → s.reading ≡ some size
      → frames ≡ []
      → handle_read_error eof (record s { reading = none }) ≡ u
      → Step protocols s frames u
  completes :
      (buffer : List ℕ)
      → s.writing ≡ some buffer
      → frames ≡ []
      → handle_write (record s { writing = none; written = s.written ++ buffer ∷ [] }) ≡ some u
      → Step protocols s frames u
  fails_to_write :
      (buffer : List ℕ)
      → s.writing ≡ some buffer
      → frames ≡ []
      → handle_write_error (record s { writing = none }) ≡ u
      → Step protocols s frames u

pub data Reach (protocols : ProtocolFactory) (s : Session) : List (List ℕ) → Session → Type 0 where
  here : Reach protocols s [] s
  next :
      {before frames : List (List ℕ)} {t u : Session}
      → Reach protocols s before t
      → Step protocols t frames u
      → Reach protocols s (before ++ frames) u

abbrev pub front_of : List (List ℕ) → Option (List ℕ)
front_of [] = none
front_of (buffer ∷ queue) = some buffer

abbrev ReadFits : Option ℕ → ℕ → Type 0
ReadFits none pos = Unit {0}
ReadFits (some size) pos = size + pos ≡ read_buffer_size

-- The buffer has its size and the position lies in it, an outstanding read ends where the buffer
-- ends, and exactly the front of the queue is being written.
pub record IsValid (s : Session) : Type 0 where
  pub array : length s.read_buffer ≡ read_buffer_size
  pub position : s.read_pos ≤ read_buffer_size
  pub reads : ReadFits s.reading s.read_pos
  pub front : s.writing ≡ front_of s.write_queue

-- What the reading side leaves alone.
abbrev pub SameWriter : Session → Session → Type 0
SameWriter s t =
    (t.write_queue ≡ s.write_queue)
    × (t.writing ≡ s.writing)
    × (t.written ≡ s.written)
    × (t.socket_open ≡ s.socket_open)

process_frame-SameWriter :
    (protocols : ProtocolFactory) (s : Session) (frame : List ℕ) (t : Session)
    → SameWriter s t
    → SameWriter s (process_frame protocols frame t)
unfolding process_frame set_protocol
process_frame-SameWriter protocols s frame t same = ground arith

-- What holds of the state, if the handler succeeds.
abbrev After : (Session → Type 0) → Option Session → Type 0
After P none = Unit {0}
After P (some u) = P u

>>=-After :
    (P Q : Session → Type 0) (m : ℕ) (r : Option (ℕ × Session)) (f : ℕ × Session → Option Session)
    → Outcome P m r
    → ((n : ℕ) (s : Session) → n ≤ m → P s → After Q (f (n, s)))
    → After Q (r >>= f)
>>=-After P Q m none f o k = tt
>>=-After P Q m (some (n, s)) f o k = k n s o.0 o.1

-- The buffer kept its size, and the next read asks for just what is free in it.
pub record ReadAgain (s u : Session) : Type 0 where
  pub same : SameWriter s u
  pub array : length u.read_buffer ≡ read_buffer_size
  pub position : u.read_pos ≤ read_buffer_size
  pub reading : u.reading ≡ some (sub_size read_buffer_size u.read_pos)

handle_read-After :
    (protocols : ProtocolFactory) (bytes : List ℕ) (s : Session)
    → length s.read_buffer ≡ read_buffer_size
    → s.read_pos + length bytes ≤ read_buffer_size
    → After (ReadAgain s) (handle_read protocols bytes s)
unfolding handle_read do_read
handle_read-After protocols bytes s array fits =
    rw (copy_in_lem s.read_buffer s.read_pos bytes (omega arith)) (
      >>=-After (SameWriter s) (ReadAgain s) (length (take pos received)) _ _
        (process_data-Outcome (SameWriter s) (process_frame protocols)
          (process_frame-SameWriter protocols s) s.protocol (take pos received) _
          (omega (arith, length-take pos received)) (refl, refl, refl, refl))
        (λ n t h same. moves n t (omega (arith, h, length-take pos received, total)) same))
  where
    pos : ℕ
    pos = add_size s.read_pos (length bytes)

    total : pos ≡ s.read_pos + length bytes
    total = omega arith

    received : List ℕ
    received = overwrite s.read_buffer s.read_pos bytes

    size : length received ≡ read_buffer_size
    size = length-overwrite s.read_buffer s.read_pos bytes (omega arith) ∙ array

    placed :
        (n : ℕ) (t : Session) (buffer : List ℕ)
        → n ≤ pos
        → SameWriter s t
        → length buffer ≡ read_buffer_size
        → ReadAgain s (do_read (record t { read_buffer = buffer; read_pos = sub_size pos n }))
    placed n t buffer h same e = record {
      same = same;
      array = e;
      position = omega (arith, h, total);
      reading = refl;
    }

    moves :
        (n : ℕ) (t : Session)
        → n ≤ pos
        → SameWriter s t
        → After (ReadAgain s) (
            (if ltb 0 n && ltb n pos then move_down true received n (pos - n) else some received)
            >>= λ buffer.
                some (do_read (record t { read_buffer = buffer; read_pos = sub_size pos n })))
    moves n t h same = elim (Bool-cases (ltb 0 n && ltb n pos)) [
      | inl e ↦
          rw (e, move_down_lem received n (pos - n) (omega (arith, size, total)))
            (placed n t (moved_down received n (pos - n)) h same
              (length-moved_down received n (pos - n) (omega (arith, size, total)) ∙ size))
      | inr e ↦ rw e (placed n t received h same size)
    ]

-- A new session is valid, if its array has the declared size.
pub init-IsValid :
    (protocols : ProtocolFactory) (memory : List ℕ) (handler : Option DataHandler)
    (session_id : List ℕ) (protocol_name : String) (s : Session)
    → length memory ≡ read_buffer_size
    → init protocols memory handler session_id protocol_name ≡ some s
    → IsValid s
unfolding init
init-IsValid protocols memory handler session_id protocol_name s size e = ground arith

reads_fit :
    {s : Session} {size : ℕ}
    → IsValid s
    → s.reading ≡ some size
    → size + s.read_pos ≡ read_buffer_size
reads_fit {s} v e = subst (λ r. ReadFits r s.read_pos) e v.reads

pub receives-ReadAgain :
    (protocols : ProtocolFactory) {s u : Session} (size : ℕ) (bytes : List ℕ)
    → IsValid s
    → s.reading ≡ some size
    → length bytes ≤ size
    → handle_read protocols bytes (record s { reading = none }) ≡ some u
    → ReadAgain s u
receives-ReadAgain protocols {s} size bytes v e fits r =
    let again = subst (After (ReadAgain (record s { reading = none }))) r (
      handle_read-After protocols bytes (record s { reading = none }) v.array
        (omega (arith, reads_fit v e))) in
    record {
      same = again.same;
      array = again.array;
      position = again.position;
      reading = again.reading;
    }

ReadAgain-IsValid : {s u : Session} → IsValid s → ReadAgain s u → IsValid u
ReadAgain-IsValid v again = record {
  array = again.array;
  position = again.position;
  reads = rw again.reading (omega (arith, again.position));
  front = again.same.1 ∙ v.front ∙ ap front_of (sym again.same.0);
}

-- Every step that asio can make a valid session take leaves it valid.
pub Step-IsValid :
    {protocols : ProtocolFactory} {s u : Session} {frames : List (List ℕ)}
    → Step protocols s frames u
    → IsValid s
    → IsValid u
unfolding run_task handle_read_error handle_write handle_write_error
Step-IsValid (runs_read tasks e ef r) v = ground arith
Step-IsValid {s} (runs_write tasks bytes frame e ep ef r) v = ground arith
Step-IsValid {protocols} (receives size bytes e fits ef r) v =
    ReadAgain-IsValid v (receives-ReadAgain protocols size bytes v e fits r)
Step-IsValid (fails_to_read size eof e ef r) v = ground arith
Step-IsValid (completes buffer e ef r) v = ground arith
Step-IsValid (fails_to_write buffer e ef r) v = ground arith

-- A valid session is valid after any sequence of the steps that asio can make it take.
pub Reach-IsValid :
    {protocols : ProtocolFactory} {s u : Session} {frames : List (List ℕ)}
    → Reach protocols s frames u
    → IsValid s
    → IsValid u
Reach-IsValid here v = v
Reach-IsValid (next r st) v = Step-IsValid st (Reach-IsValid r v)
