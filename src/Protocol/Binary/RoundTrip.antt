-- ===== src/Protocol/Binary/RoundTrip.antt =====
-- asio-1.28_server_multi_protocol/src/test.cpp: `BinaryProtocolHandler::process_data` on what
-- `prepare_send` writes, and on other headers.
use asio_client.Common.{
  ℕ, ◌+◌, ◌-◌, ◌^◌, ◌≤◌, ◌<◌, ◌≡◌, refl, ap, ap₂, ◌∙◌, ◌>>=◌, Bool-cases, inl, inr, to_u32, add_u32,
  take-overwrite, some, none, List, [], ◌∷◌, ◌++◌, length, take, drop, arith, ltb, le→ltb, lt→ltb,
  slice, slice_lem, copy_in, copy_in_lem, resize, length-resize, overwrite, length-overwrite,
  take-append_left, take-append_ge, length-append, append-nil, drop-all, length-take,
}
use asio_client.Protocol.Binary.{payload_length, process_data, length_header, prepare_send}

-- The header reads back as the length that it was made from.
payload_length-header :
    (n : ℕ) (rest : List ℕ) → n < 2 ^ 32 → payload_length (length_header n ++ rest) ≡ some n
unfolding payload_length length_header
payload_length-header n rest h = ap (λ (k : ℕ). some k) (omega arith)

payload_length-lt : (bytes : List ℕ) (n : ℕ) → payload_length bytes ≡ some n → n < 2 ^ 32
unfolding payload_length
payload_length-lt [] n e = cc
payload_length-lt (a ∷ []) n e = cc
payload_length-lt (a ∷ b ∷ []) n e = cc
payload_length-lt (a ∷ b ∷ c ∷ []) n e = cc
payload_length-lt (a ∷ b ∷ c ∷ d ∷ bytes) n e = ground arith

-- Two copies fill an array of just their size.
copy_in-copy_in :
    (buf head bytes : List ℕ) (n : ℕ)
    → n ≡ length head
    → length buf ≡ n + length bytes
    → (copy_in buf 0 head >>= λ output. copy_in output n bytes) ≡ some (head ++ bytes)
copy_in-copy_in buf head bytes n e size =
    rw (copy_in_lem buf 0 head (omega arith))
      (copy_in_lem first n bytes (omega (arith, same_length)) ∙ ap some joined)
  where
    first : List ℕ
    first = overwrite buf 0 head

    same_length : length first ≡ length buf
    same_length = length-overwrite buf 0 head (omega arith)

    joined : overwrite first n bytes ≡ head ++ bytes
    joined =
        ap₂ (λ xs ys. xs ++ bytes ++ ys) (take-overwrite buf 0 n head (omega arith) (omega arith))
          (drop-all (n + length bytes) first (omega (arith, same_length)))
        ∙ append-nil (head ++ bytes)

-- `prepare_send` of a message that fits a 32-bit frame writes the header and then the message.
pub prepare_send_lem :
    (bytes : List ℕ)
    → length bytes + 4 < 2 ^ 32
    → prepare_send bytes ≡ some (length_header (length bytes) ++ bytes)
unfolding prepare_send
prepare_send_lem bytes h =
    ap
      (λ n.
        copy_in (resize [] (add_u32 4 n)) 0 (length_header n) >>= λ output. copy_in output 4 bytes)
      small
    ∙ copy_in-copy_in (resize [] (add_u32 4 (length bytes))) (length_header (length bytes)) bytes 4
        (unfold length_header in refl) (length-resize [] (add_u32 4 (length bytes)) ∙ omega arith)
  where
    small : to_u32 (length bytes) ≡ length bytes
    small = omega arith

module _ {ℓ} {S : Type ℓ} (process : List ℕ → S → S) (bytes : List ℕ) (s : S) where
  process_data_whole :
      (n : ℕ)
      → payload_length bytes ≡ some n
      → n + 4 < 2 ^ 32
      → n + 4 ≤ length bytes
      → process_data process bytes s ≡ some (n + 4, process (take n (drop 4 bytes)) s)
  unfolding process_data
  process_data_whole n e h k =
      rw
        (
          le→ltb (length bytes) 4 (omega arith),
          e,
          le→ltb (length bytes) (add_u32 4 n) (omega arith),
          slice_lem bytes 4 n (omega arith),
        )
        (ap (λ k. some (k, process (take n (drop 4 bytes)) s)) (omega arith))

  process_data_short :
      (n : ℕ)
      → payload_length bytes ≡ some n
      → n + 4 < 2 ^ 32
      → length bytes < n + 4
      → process_data process bytes s ≡ some (0, s)
  unfolding process_data
  process_data_short n e h k = elim (Bool-cases (ltb (length bytes) 4)) [
    | inl few ↦ rw few
    | inr more ↦ rw (more, e, lt→ltb (length bytes) (add_u32 4 n) (omega arith))
  ]

  process_data_headless : length bytes < 4 → process_data process bytes s ≡ some (0, s)
  unfolding process_data
  process_data_headless k = ground arith

  -- A header that announces 2 ^ 32 - 4 bytes or more makes `4 + payload_length` wrap: the check for
  -- enough data passes, and the payload is read from outside the received bytes.
  pub process_data-overrun :
      (n : ℕ)
      → payload_length bytes ≡ some n
      → 4 ≤ length bytes
      → length bytes < 2 ^ 32
      → 2 ^ 32 ≤ n + 4
      → process_data process bytes s ≡ none
  unfolding process_data slice
  process_data-overrun n e h k long = ground (arith, payload_length-lt bytes n e)

module _ {ℓ} {S : Type ℓ} (process : List ℕ → S → S) where
  -- A frame of a message of less than 2 ^ 32 - 4 bytes, with whatever bytes behind it, is handed
  -- over as the message that it was made from, and exactly its bytes are consumed.
  pub process_data-prepare_send :
      (bytes rest : List ℕ) (s : S)
      → length bytes + 4 < 2 ^ 32
      → (frame : List ℕ) × (prepare_send bytes ≡ some frame)
        × (process_data process (frame ++ rest) s ≡ some (length frame, process bytes s))
  unfolding length_header
  process_data-prepare_send bytes rest s h =
      (length_header n ++ bytes, prepare_send_lem bytes h, read)
    where
      n : ℕ
      n = length bytes

      whole : List ℕ
      whole = (length_header n ++ bytes) ++ rest

      announced : payload_length whole ≡ some n
      announced = payload_length-header n (bytes ++ rest) (omega arith)

      payload : take n (bytes ++ rest) ≡ bytes
      payload = take-append_left n bytes rest refl

      read :
          process_data process whole s ≡ some (length (length_header n ++ bytes), process bytes s)
      read =
          process_data_whole process whole s n announced (omega arith)
            (omega (arith, length-append bytes rest))
          ∙ ap₂ (λ k l. some (k, process l s)) (omega arith) payload

  -- Any part of a frame that lacks its end is left for the next read, if the message has less than
  -- 2 ^ 32 - 4 bytes.
  pub process_data-partial :
      (bytes frame : List ℕ) (k : ℕ) (s : S)
      → length bytes + 4 < 2 ^ 32
      → prepare_send bytes ≡ some frame
      → k < length frame
      → process_data process (take k frame) s ≡ some (0, s)
  process_data-partial bytes frame k s h made hk = elim (Bool-cases (ltb k 4)) [
    | inl few ↦ process_data_headless process (take k frame) s (ground (arith, length-take k frame))
    | inr more ↦
        rw
          (
            same,
            take-append_ge k (length_header n) bytes (ground (arith, header_size)),
            header_size,
          )
          (process_data_short process part s n announced (omega arith) (
            ground (
              arith,
              length-append (length_header n) (take (k - 4) bytes),
              header_size,
              length-take (k - 4) bytes,
              ap length same,
              length-append (length_header n) bytes,
            )))
  ]
    where
      n : ℕ
      n = length bytes

      header_size : length (length_header n) ≡ 4
      header_size = unfold length_header in refl

      same : frame ≡ length_header n ++ bytes
      same = cc (prepare_send_lem bytes h)

      part : List ℕ
      part = length_header n ++ take (k - 4) bytes

      announced : payload_length part ≡ some n
      announced = payload_length-header n (take (k - 4) bytes) (omega arith)
