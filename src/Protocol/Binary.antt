-- ===== src/Protocol/Binary.antt =====
-- asio-1.28_server_multi_protocol/src/test.cpp, `BinaryProtocolHandler`.
pub mod RoundTrip
use asio_client.Common.{
  ℕ, ◌+◌, ◌*◌, ◌/◌, ◌%◌, ◌^◌, Option, some, List, [], ◌∷◌, length, get_elem?, ltb, if◌then◌else◌,
  ◌>>=◌, slice, copy_in, resize, to_u32, add_u32,
}

abbrev to_u8 : ℕ → ℕ
to_u8 b = b % 256

-- The first four bytes, big-endian; the shifted bytes share no bit, so `|` adds them. `none`: there are
-- not four.
unfoldable pub payload_length : List ℕ → Option ℕ
payload_length bytes = do
  b0 ← get_elem? bytes 0
  b1 ← get_elem? bytes 1
  b2 ← get_elem? bytes 2
  b3 ← get_elem? bytes 3
  some (to_u32 (to_u8 b0 * 2 ^ 24 + to_u8 b1 * 2 ^ 16 + to_u8 b2 * 2 ^ 8 + to_u8 b3))

module _ {ℓ} {S : Type ℓ} (process : List ℕ → S → S) (bytes : List ℕ) where
  unfoldable pub process_data : S → Option (ℕ × S)
  unfolding payload_length
  process_data s =
      if ltb (length bytes) 4
      then some (0, s)
      else (payload_length bytes >>= λ n.
          if ltb (length bytes) (add_u32 4 n)
          then some (0, s)
          else (slice bytes 4 n >>= λ payload. some (add_u32 4 n, process payload s)))

-- The bytes of `output[0]` to `output[3]`.
pub length_header : ℕ → List ℕ
length_header n = (n / 2 ^ 24 % 256) ∷ (n / 2 ^ 16 % 256) ∷ (n / 2 ^ 8 % 256) ∷ (n % 256) ∷ []

unfoldable pub prepare_send : List ℕ → Option (List ℕ)
unfolding length_header
prepare_send bytes =
    let n = to_u32 (length bytes) in
    copy_in (resize [] (add_u32 4 n)) 0 (length_header n) >>= λ output. copy_in output 4 bytes
