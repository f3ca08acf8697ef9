-- ===== src/Protocol/Tests.antt =====
-- Runs of the protocol handlers, and the theorems at inputs that meet their hypotheses. The session
-- is the list of the frames that were handed over, the latest first.
use asio_client.Common.{
  ℕ, ◌-◌, ◌^◌, ◌≡◌, refl, none, some, List, [], ◌∷◌, ◌++◌, length, codes, arith, slice, copy_in,
  resize, to_string,
}
use asio_client.Protocol.Line
use asio_client.Protocol.Line.Split.{lines, partial_line}
use asio_client.Protocol.Line.Loop.{feed, process_data_lem, process_data-send_all}
use asio_client.Protocol.FixedLength
use asio_client.Protocol.Binary
use asio_client.Protocol.Binary.{payload_length, length_header}
use asio_client.Protocol.Binary.RoundTrip
use asio_client.Protocol.Handler.{name, fixed_length}

abbrev Handed : Type 0
Handed = List (List ℕ)

abbrev note : List ℕ → Handed → Handed
note frame frames = frame ∷ frames

-- "ab\r\nc\n\r\nd"
abbrev text : List ℕ
text = b'a' ∷ b'b' ∷ 13 ∷ 10 ∷ b'c' ∷ 10 ∷ 13 ∷ 10 ∷ b'd' ∷ []

line_run :
    Line.process_data {S = Handed} note text []
    ≡ some (8, [] ∷ (b'c' ∷ []) ∷ (b'a' ∷ b'b' ∷ []) ∷ [])
unfolding Line.process_data slice
line_run = refl

fixed_run :
    FixedLength.process_data {S = Handed} 3 note text [] ≡ some (3, (b'a' ∷ b'b' ∷ 13 ∷ []) ∷ [])
unfolding FixedLength.process_data slice
fixed_run = refl

fixed_pads : FixedLength.prepare_send 4 (7 ∷ 8 ∷ []) ≡ 7 ∷ 8 ∷ 0 ∷ 0 ∷ []
unfolding FixedLength.prepare_send resize
fixed_pads = refl

binary_run :
    Binary.process_data {S = Handed} note (0 ∷ 0 ∷ 0 ∷ 2 ∷ 7 ∷ 8 ∷ 9 ∷ []) []
    ≡ some (6, (7 ∷ 8 ∷ []) ∷ [])
unfolding Binary.process_data slice
binary_run = refl

binary_sends : Binary.prepare_send (7 ∷ 8 ∷ []) ≡ some (0 ∷ 0 ∷ 0 ∷ 2 ∷ 7 ∷ 8 ∷ [])
unfolding Binary.prepare_send copy_in resize
binary_sends = refl

fixed_name : name (fixed_length 128) ≡ codes "fixed-128"
unfolding name to_string
fixed_name = refl

process_data_lem_example :
    Line.process_data {S = Handed} note text []
    ≡ some (length text - length (partial_line text), feed note (lines text) [])
process_data_lem_example = process_data_lem note text (omega arith) []

process_data-send_all_example :
    Line.process_data {S = Handed} note (7 ∷ 13 ∷ 13 ∷ 10 ∷ 8 ∷ 13 ∷ 10 ∷ 9 ∷ []) []
    ≡ some (7, (8 ∷ []) ∷ (7 ∷ 13 ∷ []) ∷ [])
unfolding Line.prepare_send
process_data-send_all_example =
    process_data-send_all note (7 ∷ 13 ∷ 13 ∷ 10 ∷ 8 ∷ 13 ∷ 10 ∷ 9 ∷ []) (omega arith)
      ((7 ∷ 13 ∷ []) ∷ (8 ∷ []) ∷ []) (9 ∷ []) [] refl (omega arith) (omega arith)

binary_round_trip_example :
    (frame : List ℕ) × (Binary.prepare_send (7 ∷ 8 ∷ []) ≡ some frame)
    × (Binary.process_data {S = Handed} note (frame ++ 0 ∷ 0 ∷ []) []
        ≡ some (length frame, (7 ∷ 8 ∷ []) ∷ []))
binary_round_trip_example =
    RoundTrip.process_data-prepare_send note (7 ∷ 8 ∷ []) (0 ∷ 0 ∷ []) [] (omega arith)

abbrev overlong : List ℕ
overlong = 255 ∷ 255 ∷ 255 ∷ 252 ∷ 1 ∷ []

overlong_length : payload_length overlong ≡ some (2 ^ 32 - 4)
unfolding payload_length
overlong_length = refl

binary_overrun_example : Binary.process_data {S = Handed} note overlong [] ≡ none
binary_overrun_example =
    RoundTrip.process_data-overrun note overlong [] (2 ^ 32 - 4) overlong_length (omega arith)
      (omega arith) (omega arith)
