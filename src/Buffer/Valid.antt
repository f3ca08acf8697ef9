-- ===== src/Buffer/Valid.antt =====
-- What holds of every `ConnectionBuffer` between two calls, and the bytes that a reader sees.
use asio_client.Common.{
  ℕ, ◌+◌, ◌≤◌, ◌<◌, ◌^◌, ◌≡◌, List, [], refl, length, take, drop, arith, length-replicate,
  length-take, length-drop,
}
use asio_client.Buffer.{
  ConnectionBuffer, init, init_default, buf_size, writable_count, readable_count,
}

-- The indices are in order, there is room to receive into, and no index can wrap.
pub record IsValid (b : ConnectionBuffer) : Type 0 where
  pub ordered : b.read_index ≤ b.write_index
  pub room : b.write_index < length b.buffer
  pub small : length b.buffer < 2 ^ 32

-- The bytes between the indices, which `readPtr` and `readableCount` give to a reader.
abbrev pub contents : ConnectionBuffer → List ℕ
contents b = drop b.read_index (take b.write_index b.buffer)

-- A new buffer is valid and empty.
pub init-IsValid : (size : ℕ) → 0 < size → size < 2 ^ 32 → IsValid (init size)
unfolding init
init-IsValid size h k =
    let e : length (init size).buffer ≡ size = length-replicate {A = ℕ} size 0 in
    record { ordered = omega arith; room = omega arith; small = omega arith }

pub init_default-IsValid : IsValid init_default × (contents init_default ≡ [])
unfolding init_default init
init_default-IsValid = (init-IsValid buf_size (omega arith) (omega arith), refl)

-- `readableCount` counts what a reader sees, and `writableCount` what is left behind it.
pub counts_lem :
    {b : ConnectionBuffer}
    → IsValid b
    → (readable_count b ≡ length (contents b))
      × (b.write_index + writable_count b ≡ length b.buffer)
      × (0 < writable_count b)
counts_lem {b} v = omega (
  arith,
  length-take b.write_index b.buffer,
  length-drop b.read_index (take b.write_index b.buffer),
)
