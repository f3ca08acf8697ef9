-- ===== src/Protocol/Handler.antt =====
-- asio-1.28_server_multi_protocol/src/test.cpp, `ProtocolHandler`: the interface with its three
-- classes, whose objects hold no state but the frame size.
use asio_client.Common.{ℕ, Option, some, List, ◌++◌, codes, to_string}
use asio_client.Protocol.Line
use asio_client.Protocol.FixedLength
use asio_client.Protocol.Binary

pub data ProtocolHandler : Type 0 where
  line : ProtocolHandler
  fixed_length : ℕ → ProtocolHandler
  binary : ProtocolHandler

unfoldable pub process_data {ℓ} :
    {S : Type ℓ} → ProtocolHandler → (List ℕ → S → S) → List ℕ → S → Option (ℕ × S)
process_data line process bytes s = Line.process_data process bytes s
process_data (fixed_length n) process bytes s = FixedLength.process_data n process bytes s
process_data binary process bytes s = Binary.process_data process bytes s

unfoldable pub prepare_send : ProtocolHandler → List ℕ → Option (List ℕ)
prepare_send line bytes = some (Line.prepare_send bytes)
prepare_send (fixed_length n) bytes = some (FixedLength.prepare_send n bytes)
prepare_send binary bytes = Binary.prepare_send bytes

unfoldable pub name : ProtocolHandler → List ℕ
name line = codes "line"
name (fixed_length n) = codes "fixed-" ++ to_string n
name binary = codes "binary"
