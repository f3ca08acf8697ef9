-- ===== src/Buffer/Indices.antt =====
-- asio-1.28/src/connection_buffer.cpp: the operations that move the indices.
use asio_client.Common.{
  sub_size, add_u32, ℕ, ◌+◌, ◌*◌, ◌%◌, ◌^◌, ◌≤◌, ◌<◌, ◌≡◌, refl, sym, ap, ◌∙◌, inl, inr, none, [],
  ◌++◌, length, take, drop, leb, arith, Bool-cases, move_down, resize, length-resize, take-resize,
  length-take, drop-append_le, drop-drop, drop-all, take-add,
}
use asio_client.Buffer.{
  ConnectionBuffer, compact, writable_count, retrieve_read_index, retrieve_write_index,
  retrieve_both_index, adjust_internal,
}
use asio_client.Buffer.Valid.{IsValid, contents}
use asio_client.Buffer.Append.{Holds, compact_lem}

-- `retrieveReadIndex` drops so many bytes from what a reader sees, all of them if there are fewer,
-- and keeps the buffer valid, unless the sum of index and count reaches 4 GiB.
pub retrieve_read_index_lem :
    (b : ConnectionBuffer) (count : ℕ)
    → IsValid b
    → b.read_index + count < 2 ^ 32
    → IsValid (retrieve_read_index b count)
      × (contents (retrieve_read_index b count) ≡ drop count (contents b))
unfolding retrieve_read_index
retrieve_read_index_lem b count v small = elim (Bool-cases (leb b.write_index next)) [
  | inl past ↦ rw past (
    record { ordered = omega arith; room = omega (arith, v.room); small = v.small },
    sym (
        drop-drop b.read_index count (take b.write_index b.buffer)
        ∙ drop-all _ (take b.write_index b.buffer)
            (ground (arith, length-take b.write_index b.buffer))),
  )
  | inr inside ↦ rw inside (
    record { ordered = ground arith; room = v.room; small = v.small },
    ap (λ n. drop n (take b.write_index b.buffer)) moved
        ∙ sym (drop-drop b.read_index count (take b.write_index b.buffer)),
  )
]
  where
    next : ℕ
    next = add_u32 b.read_index count

    moved : next ≡ b.read_index + count
    moved = omega arith

-- After the socket has put `count` bytes into the writable part, `retrieveWriteIndex` shows them to
-- a reader behind those it saw, and leaves a valid buffer: a full array is doubled first, which has
-- to stay below 4 GiB.
pub retrieve_write_index_lem :
    (b : ConnectionBuffer) (count : ℕ)
    → IsValid b
    → count ≤ writable_count b
    → length b.buffer * 2 < 2 ^ 32
    → IsValid (retrieve_write_index b count)
      × (contents (retrieve_write_index b count)
          ≡ contents b ++ take count (drop b.write_index b.buffer))
unfolding retrieve_write_index
retrieve_write_index_lem b count v fits small = elim (Bool-cases (leb (length b.buffer) next)) [
  | inl full ↦ rw full (
    record {
      ordered = omega (arith, v.ordered);
      room = omega (arith, doubled);
      small = omega (arith, doubled);
    },
    ap (drop b.read_index) (
          take-resize b.buffer (length b.buffer % 2 ^ 32) (length b.buffer * 2 % 2 ^ 64)
            (omega arith) (omega arith)
          ∙ ap (λ n. take n b.buffer) (ground arith))
        ∙ seen,
  )
  | inr inside ↦ rw inside (
    record { ordered = ground arith; room = ground arith; small = v.small },
    ap (λ n. drop b.read_index (take n b.buffer)) moved ∙ seen,
  )
]
  where
    next : ℕ
    next = add_u32 b.write_index count

    moved : next ≡ b.write_index + count
    moved = omega arith

    doubled : length (resize b.buffer (length b.buffer * 2 % 2 ^ 64)) ≡ length b.buffer * 2
    doubled = length-resize b.buffer (length b.buffer * 2 % 2 ^ 64) ∙ omega arith

    seen :
        drop b.read_index (take (b.write_index + count) b.buffer)
        ≡ contents b ++ take count (drop b.write_index b.buffer)
    seen =
        ap (drop b.read_index) (take-add b.write_index count b.buffer)
        ∙ drop-append_le b.read_index (take b.write_index b.buffer)
            (take count (drop b.write_index b.buffer))
            (omega (arith, length-take b.write_index b.buffer))

-- `retrieveBothIndex` forgets every byte and keeps the buffer valid.
pub retrieve_both_index_lem :
    (b : ConnectionBuffer)
    → IsValid b
    → IsValid (retrieve_both_index b) × (contents (retrieve_both_index b) ≡ [])
unfolding retrieve_both_index
retrieve_both_index_lem b v =
    (record { ordered = omega arith; room = omega (arith, v.room); small = v.small }, refl)

-- `adjustInternal` is about to move a part of the array onto itself.
abbrev pub AdjustOverlaps : ConnectionBuffer → Type 0
AdjustOverlaps b =
    (length b.buffer ≤ b.read_index + b.write_index) × (2 * b.read_index < b.write_index)

-- `adjustInternal` keeps a valid buffer valid and what a reader sees as it was, whether it moves
-- the bytes or not, unless the move overlaps itself.
pub adjust_internal-Holds :
    (b : ConnectionBuffer) → IsValid b → ¬ AdjustOverlaps b → Holds (contents b) (adjust_internal b)
unfolding adjust_internal
adjust_internal-Holds b v clear = elim (Bool-cases (leb free b.read_index)) [
  | inl low ↦
      let (c, e, vc, same, w, size) = compact_lem b v (ground arith) in
      rw (low, e) (c, refl, vc, same)
  | inr roomy ↦ rw roomy (b, refl, v, refl)
]
  where
    free : ℕ
    free = sub_size (length b.buffer) b.write_index

-- Where the move of `adjustInternal` overlaps itself, its `memcpy` is undefined.
pub adjust_internal-overlap :
    (b : ConnectionBuffer) → IsValid b → AdjustOverlaps b → adjust_internal b ≡ none
unfolding adjust_internal compact move_down
adjust_internal-overlap b v bad = ground arith
