-- ===== src/Buffer/Tests.antt =====
-- Runs of the buffer at small arrays, and the theorems at inputs that meet their hypotheses.
use asio_client.Common.{◌≡◌, refl, some, List, [], ◌∷◌, arith, copy_in, move_down, resize}
use asio_client.Buffer.{
  ConnectionBuffer, init, append, retrieve_write_index, adjust_internal, receive,
}
use asio_client.Buffer.Valid.{IsValid, init-IsValid}
use asio_client.Buffer.Append.{Holds}
use asio_client.Buffer.Fifo.{Call, receives, retrieves, AreSafe, step, run, run-Holds}

-- Bytes 4 and 5 wait to be read, and three bytes are free behind them.
abbrev part_read : ConnectionBuffer
part_read = record { buffer = 1 ∷ 2 ∷ 3 ∷ 4 ∷ 5 ∷ 0 ∷ 0 ∷ 0 ∷ []; read_index = 3; write_index = 5 }

-- Bytes 4 to 7 wait to be read, and one byte is free behind them.
abbrev nearly_full : ConnectionBuffer
nearly_full = record {
  buffer = 1 ∷ 2 ∷ 3 ∷ 4 ∷ 5 ∷ 6 ∷ 7 ∷ 0 ∷ [];
  read_index = 3;
  write_index = 7;
}

part_read-IsValid : IsValid part_read
part_read-IsValid = omega arith

nearly_full-IsValid : IsValid nearly_full
nearly_full-IsValid = omega arith

append_in_place :
    append part_read (9 ∷ 8 ∷ [])
    ≡ some (record { buffer = 1 ∷ 2 ∷ 3 ∷ 4 ∷ 5 ∷ 9 ∷ 8 ∷ 0 ∷ []; read_index = 3; write_index = 7 })
unfolding append copy_in
append_in_place = refl

append_moves :
    append
      (record { buffer = 1 ∷ 2 ∷ 3 ∷ 4 ∷ 5 ∷ 6 ∷ 7 ∷ 8 ∷ []; read_index = 6; write_index = 7 })
      (9 ∷ [])
    ≡ some (record { buffer = 7 ∷ 9 ∷ 3 ∷ 4 ∷ 5 ∷ 6 ∷ 7 ∷ 8 ∷ []; read_index = 0; write_index = 2 })
unfolding append copy_in move_down
append_moves = refl

adjust_moves :
    adjust_internal
      (record { buffer = 1 ∷ 2 ∷ 3 ∷ 4 ∷ 5 ∷ 6 ∷ 7 ∷ 8 ∷ []; read_index = 5; write_index = 7 })
    ≡ some (record { buffer = 6 ∷ 7 ∷ 3 ∷ 4 ∷ 5 ∷ 6 ∷ 7 ∷ 8 ∷ []; read_index = 0; write_index = 2 })
unfolding adjust_internal move_down
adjust_moves = refl

receive_doubles :
    receive (record { buffer = 1 ∷ 2 ∷ 0 ∷ []; read_index = 1; write_index = 2 }) (9 ∷ [])
    ≡ some (record { buffer = 1 ∷ 2 ∷ 9 ∷ 0 ∷ 0 ∷ 0 ∷ []; read_index = 1; write_index = 3 })
unfolding receive retrieve_write_index copy_in resize
receive_doubles = refl

init-IsValid_example : IsValid (init 4096)
init-IsValid_example = init-IsValid 4096 (omega arith) (omega arith)

abbrev session : List Call
session = receives (9 ∷ 8 ∷ []) ∷ retrieves 3 ∷ []

session-AreSafe : AreSafe part_read session
unfolding step receive retrieve_write_index copy_in
session-AreSafe = ((omega arith, omega arith), λ b e. (ground arith, λ b' e'. tt))

run-Holds_example : Holds (8 ∷ []) (run part_read session)
run-Holds_example = run-Holds part_read session part_read-IsValid session-AreSafe
