-- ===== src/Protocol/FixedLength/Frames.antt =====
-- asio-1.28_server_multi_protocol/src/test.cpp: frames of `FixedLengthProtocolHandler`, what is sent,
-- and what is read back.
use asio_client.Common.{
  ℕ, ◌+◌, ◌≡◌, ◌∙◌, inl, inr, some, List, ◌++◌, length, take, arith, leb, Bool-cases, le→ltb,
  slice_lem, length-resize, take-resize, take-all, length-take, length-append, take-append_left,
}
use asio_client.Protocol.FixedLength.{process_data, prepare_send}

-- A sent frame has exactly the agreed size, and begins with the message, cut if it is too long.
pub prepare_send_lem :
    (n : ℕ) (bytes : List ℕ)
    → (length (prepare_send n bytes) ≡ n)
      × (take (length (take n bytes)) (prepare_send n bytes) ≡ take n bytes)
unfolding prepare_send
prepare_send_lem n bytes = elim (Bool-cases (leb n (length bytes))) [
  | inl long ↦ rw long (
    ground (arith, length-take n bytes),
    take-all (length (take n bytes)) (take n bytes) (omega arith),
  )
  | inr short ↦
      rw (short, take-all n bytes (ground arith))
        (
          length-resize bytes n,
          take-resize bytes (length bytes) n (omega arith) (ground arith)
              ∙ take-all (length bytes) bytes (omega arith),
        )
]

module _ {ℓ} {S : Type ℓ} (n : ℕ) (process : List ℕ → S → S) where
  -- A frame, with whatever bytes behind it, is handed over whole, and exactly its bytes are
  -- consumed, however many further frames stand behind it.
  pub process_data-prepare_frame :
      (bytes rest : List ℕ) (s : S)
      → process_data n process (prepare_send n bytes ++ rest) s
        ≡ some (n, process (prepare_send n bytes) s)
  unfolding process_data
  process_data-prepare_frame bytes rest s = rw (
    le→ltb (length (frame ++ rest)) n (omega (arith, whole, size)),
    slice_lem (frame ++ rest) 0 n (omega (arith, whole, size)),
    take-append_left n frame rest (omega (arith, size)),
  )
    where
      frame : List ℕ
      frame = prepare_send n bytes

      size : length frame ≡ n
      size = (prepare_send_lem n bytes).0

      whole : length (frame ++ rest) ≡ length frame + length rest
      whole = length-append frame rest
