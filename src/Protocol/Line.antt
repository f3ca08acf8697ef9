-- ===== src/Protocol/Line.antt =====
-- asio-1.28_server_multi_protocol/src/test.cpp, `LineProtocolHandler`.
pub mod Split
pub mod Loop
use asio_client.Common.{
  ℕ, zero, suc, ◌+◌, ◌-◌, ◌%◌, ◌^◌, true, false, ◌&&◌, Option, some, List, [], ◌∷◌, ◌++◌, length,
  get_elem?, ltb, ◌==◌, if◌then◌else◌, ◌>>=◌, slice, sub_size,
}

-- `'\n'` and `'\r'`
abbrev pub lf : ℕ
lf = 10

abbrev pub cr : ℕ
cr = 13

-- The length of the line from `start` up to the `'\n'` at `i`, less a `'\r'` before it. As everywhere,
-- `none` is an access outside the array.
line_length : List ℕ → ℕ → ℕ → Option ℕ
line_length bytes i start =
    if ltb 0 i
    then (get_elem? bytes (sub_size i 1) >>= λ before.
        some (if before == cr then sub_size (sub_size i start) 1 else sub_size i start))
    else some (sub_size i start)

module _ {ℓ} {S : Type ℓ} (process : List ℕ → S → S) (bytes : List ℕ) where
  -- The `for` loop with `rounds` rounds left, over `i`, `start` and `processed`.
  line_loop : (rounds i start processed : ℕ) → S → Option (ℕ × S)
  unfolding line_length
  line_loop zero i start processed s = some (processed, s)
  line_loop (suc rounds) i start processed s = get_elem? bytes i >>= λ byte. elim (byte == lf) [
    | true ↦ (line_length bytes i start >>= slice bytes start) >>= λ line.
        line_loop rounds (i + 1) (i + 1) (i + 1) (process line s)
    | false ↦ line_loop rounds (i + 1) start processed s
  ]

  unfoldable pub process_data : S → Option (ℕ × S)
  unfolding line_loop
  process_data s = line_loop (length bytes) 0 0 0 s

unfoldable pub prepare_send : List ℕ → List ℕ
prepare_send bytes = bytes ++ cr ∷ lf ∷ []
