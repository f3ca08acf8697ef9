-- ===== src/Protocol/FixedLength.antt =====
-- asio-1.28_server_multi_protocol/src/test.cpp, `FixedLengthProtocolHandler`.
pub mod Frames
use asio_client.Common.{
  ℕ, ◌+◌, ◌-◌, ◌≤◌, ◌<◌, Option, some, List, length, take, ltb, leb, if◌then◌else◌, ◌>>=◌, slice,
  resize,
}

module _ {ℓ} {S : Type ℓ} (frame_size : ℕ) (process : List ℕ → S → S) (bytes : List ℕ) where
  unfoldable pub process_data : S → Option (ℕ × S)
  process_data s =
      if ltb (length bytes) frame_size
      then some (0, s)
      else (slice bytes 0 frame_size >>= λ frame. some (frame_size, process frame s))

unfoldable pub prepare_send : ℕ → List ℕ → List ℕ
prepare_send frame_size bytes =
    if leb frame_size (length bytes) then take frame_size bytes else resize bytes frame_size
