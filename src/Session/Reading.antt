-- ===== src/Session/Reading.antt =====
-- asio-1.28_server_multi_protocol/src/test.cpp, `Session::do_read`: what a completed read does, given
-- what the protocol handler made of the bytes.
use asio_client.Common.{
  ℕ, ◌+◌, ◌-◌, ◌≤◌, ◌≡◌, ◌⊎◌, refl, sym, ap, ◌∙◌, inl, inr, true, ◌&&◌, some, List, ◌++◌, length,
  take, drop, ltb, if◌then◌else◌, ◌>>=◌, arith, Bool-cases, copy_in_lem, move_down, move_down_lem,
  overwrite, length-overwrite, take-overwrite, moved_down, take-moved_down, length-moved_down,
  length-take, length-drop, length-append, add_size, sub_size, take-drop, drop-all,
}
use asio_client.Protocol.Handler.{process_data}
use asio_client.Protocol.Factory.{ProtocolFactory}
use asio_client.Session.{Session, read_buffer_size, handle_read, process_frame, do_read}

-- The bytes received and not yet consumed.
abbrev pub contents : Session → List ℕ
contents s = take s.read_pos s.read_buffer

abbrev pub filled : List ℕ → Session → Session
filled bytes s = record s {
  read_buffer = overwrite s.read_buffer s.read_pos bytes;
  read_pos = add_size s.read_pos (length bytes);
}

-- `u` is `t` with the unconsumed bytes moved to the front, and reads on behind them.
pub record Settled (left : List ℕ) (t u : Session) : Type 0 where
  pub contents_left : contents u ≡ left
  pub position_left : u.read_pos ≡ length left
  pub array_left : length u.read_buffer ≡ read_buffer_size
  pub reads_on : u.reading ≡ some (read_buffer_size - u.read_pos)
  pub others :
      u ≡ record t { read_buffer = u.read_buffer; read_pos = u.read_pos; reading = u.reading }

module _ (protocols : ProtocolFactory) (bytes : List ℕ) (s : Session)
    (array : length s.read_buffer ≡ read_buffer_size)
    (fits : s.read_pos + length bytes ≤ read_buffer_size) where
  filled-contents : contents (filled bytes s) ≡ contents s ++ bytes
  filled-contents =
      take-overwrite s.read_buffer s.read_pos (add_size s.read_pos (length bytes)) bytes
        (omega arith) (omega arith)

  abbrev pos : ℕ
  pos = add_size s.read_pos (length bytes)

  abbrev stream : List ℕ
  stream = contents s ++ bytes

  length-stream : length stream ≡ s.read_pos + length bytes
  length-stream =
      omega (arith, length-append (contents s) bytes, length-take s.read_pos s.read_buffer)

  abbrev received : List ℕ
  received = overwrite s.read_buffer s.read_pos bytes

  length-received : length received ≡ read_buffer_size
  length-received = length-overwrite s.read_buffer s.read_pos bytes (omega arith) ∙ array

  after : List ℕ → ℕ → Session → Session
  after buffer n t = do_read (record t { read_buffer = buffer; read_pos = sub_size pos n })

  after-Settled :
      (n : ℕ) (t : Session) (buffer : List ℕ)
      → n ≤ length stream
      → length buffer ≡ read_buffer_size
      → take (pos - n) buffer ≡ drop n stream
      → Settled (drop n stream) t (after buffer n t)
  unfolding after do_read
  after-Settled n t buffer h size kept = record {
    contents_left = ap (λ k. take k buffer) moved ∙ kept;
    position_left = omega (arith, length-drop n stream, length-stream, h);
    array_left = size;
    reads_on = ap some (omega (arith, length-stream, h));
    others = refl;
  }
    where
      moved : sub_size pos n ≡ pos - n
      moved = omega (arith, length-stream, h)

  -- Cut out at position `n`, the array holds what is left of the stream.
  cut-received : (n : ℕ) → n ≤ pos → take (pos - n) (drop n received) ≡ drop n stream
  cut-received n h =
      take-drop n (pos - n) received
      ∙ ap (drop n) (ap (λ k. take k received) (omega (arith, h)) ∙ filled-contents)

  -- If the handler consumed nothing, or all, there is nothing to move.
  unmoved-received :
      (n : ℕ) → n ≤ length stream → (n ≡ 0) ⊎ (pos ≤ n) → take (pos - n) received ≡ drop n stream
  unmoved-received n h (inl nothing) =
      let whole : pos - n ≡ pos = omega (arith, nothing) in
      ap (λ k. take k received) whole ∙ filled-contents ∙ ap (λ k. drop k stream) (sym nothing)
  unmoved-received n h (inr all) =
      let empty : pos - n ≡ 0 = omega (arith, all) in
      ap (λ k. take k received) empty ∙ sym (drop-all n stream (omega (arith, all, length-stream)))

  settle :
      (n : ℕ) (t : Session)
      → n ≤ length stream
      → (u : Session) × (((if ltb 0 n && ltb n pos
              then move_down true received n (pos - n)
              else some received)
            >>= λ buffer. some (after buffer n t))
          ≡ some u)
        × Settled (drop n stream) t u
  settle n t h = elim (Bool-cases (ltb 0 n && ltb n pos)) [
    | inl e ↦
        rw (e, move_down_lem received n (pos - n) inside)
          (
            _,
            refl,
            after-Settled n t (moved_down received n (pos - n)) h
                (length-moved_down received n (pos - n) inside ∙ length-received)
                (take-moved_down received n (pos - n) inside
                  ∙ cut-received n (omega (arith, length-stream))),
          )
    | inr e ↦ rw e (
      _,
      refl,
      after-Settled n t received h length-received
          (unmoved-received n h (ground (arith, length-stream))),
    )
  ]
    where
      inside : n + (pos - n) ≤ length received
      inside = omega (arith, length-received, length-stream, h)

  -- A read hands the handler the bytes left over before and then the new ones. If it consumes `n` of
  -- them, the rest is kept, and the next read asks for all that is then free.
  pub handle_read_lem :
      (n : ℕ) (t : Session)
      → process_data s.protocol (process_frame protocols) (contents s ++ bytes) (filled bytes s)
        ≡ some (n, t)
      → n ≤ length (contents s ++ bytes)
      → (u : Session) × (handle_read protocols bytes s ≡ some u)
        × Settled (drop n (contents s ++ bytes)) t u
  unfolding handle_read do_read after
  handle_read_lem n t e h =
      rw (copy_in_lem s.read_buffer s.read_pos bytes (omega arith), filled-contents, e)
        (settle n t h)
