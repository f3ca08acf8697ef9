-- ===== src/Buffer/Append.antt =====
-- asio-1.28/src/connection_buffer.cpp, `append`: what it returns on each branch, and the branch
-- whose `memcpy` is undefined.
use asio_client.Common.{
  lt→ltb, sub_size, add_size, to_u32, sub_u32, add_u32, ℕ, ◌+◌, ◌-◌, ◌*◌, ◌/◌, ◌^◌, ◌≤◌, ◌<◌, ◌≡◌,
  ap, subst, ◌∙◌, inl, inr, Option, none, some, List, ◌++◌, length, take, drop, ltb, arith,
  move_down, resize, Bool-cases, le→leb, overwrite, copy_in_lem, length-overwrite, take-overwrite,
  moved_down, length-moved_down, take-moved_down, length-resize, take-resize, length-take,
  drop-append_le, take-drop,
}
use asio_client.Buffer.{
  ConnectionBuffer, buf_size, growth, write_bytes, compact, append, writable_count,
}
use asio_client.Buffer.Valid.{IsValid, contents}

-- The step succeeds, leaves the buffer valid, and a reader then sees `bytes`.
abbrev pub Holds : List ℕ → Option ConnectionBuffer → Type 0
Holds bytes r = (b' : ConnectionBuffer) × (r ≡ some b') × IsValid b' × (contents b' ≡ bytes)

write_bytes_lem :
    (b : ConnectionBuffer) (bytes : List ℕ)
    → b.read_index ≤ b.write_index
    → b.write_index + length bytes < length b.buffer
    → length b.buffer < 2 ^ 32
    → Holds (contents b ++ bytes) (write_bytes b bytes)
unfolding write_bytes
write_bytes_lem b bytes ordered room small = (after, done, valid, seen)
  where
    open b use {buffer, read_index, write_index}

    written : List ℕ
    written = overwrite buffer write_index bytes

    after : ConnectionBuffer
    after = record b { buffer = written; write_index = add_u32 write_index (to_u32 (length bytes)) }

    same_length : length written ≡ length buffer
    same_length = length-overwrite buffer write_index bytes (omega arith)

    moved : after.write_index ≡ write_index + length bytes
    moved = omega arith

    done : write_bytes b bytes ≡ some after
    done = rw (copy_in_lem buffer write_index bytes (omega arith))

    valid : IsValid after
    valid = record {
      ordered = omega arith;
      room = omega (arith, same_length, moved);
      small = omega (arith, same_length);
    }

    seen : contents after ≡ contents b ++ bytes
    seen =
        ap (drop read_index) (take-overwrite buffer write_index _ bytes (omega arith) moved)
        ∙ drop-append_le read_index (take write_index buffer) bytes
            (omega (arith, length-take write_index buffer))

-- With no overlap the readable bytes move to the front and stay what they were.
pub compact_lem :
    (b : ConnectionBuffer)
    → IsValid b
    → b.write_index ≤ 2 * b.read_index
    → (c : ConnectionBuffer) × (compact b ≡ some c)
      × IsValid c
      × (contents c ≡ contents b)
      × (c.write_index ≡ b.write_index - b.read_index)
      × (length c.buffer ≡ length b.buffer)
unfolding compact move_down
compact_lem b v clear = (after, done, valid, seen, moved, same_length)
  where
    open b use {buffer, read_index, write_index}

    after : ConnectionBuffer
    after = record {
      buffer = moved_down buffer read_index (sub_u32 write_index read_index);
      read_index = 0;
      write_index = sub_u32 write_index read_index;
    }

    moved : after.write_index ≡ write_index - read_index
    moved = omega arith

    same_length : length after.buffer ≡ length buffer
    same_length = length-moved_down buffer read_index after.write_index (omega arith)

    done : compact b ≡ some after
    done = rw (
      le→leb (read_index + after.write_index) (length buffer) (omega arith),
      le→leb after.write_index read_index (omega arith),
    )

    valid : IsValid after
    valid = record {
      ordered = omega arith;
      room = omega (arith, same_length);
      small = omega (arith, same_length);
    }

    seen : contents after ≡ contents b
    seen =
        take-moved_down buffer read_index after.write_index (omega arith)
        ∙ take-drop read_index after.write_index buffer
        ∙ ap (λ n. drop read_index (take n buffer)) (omega arith)

-- The array stays below 4 GiB, also if it has to grow for `n` more bytes.
abbrev pub Fits : ConnectionBuffer → ℕ → Type 0
Fits b n = length b.buffer + buf_size * (n / buf_size + 1) < 2 ^ 32

-- `append` compacts, but its `memcpy` reads and writes a common part of the array.
abbrev pub Overlaps : ConnectionBuffer → ℕ → Type 0
Overlaps b n =
    (length b.buffer + n < b.read_index + b.write_index)
    × (length b.buffer ≤ b.write_index + n)
    × (2 * b.read_index < b.write_index)

-- `append` of less than 4 GiB in all keeps a valid buffer valid and puts the bytes behind those
-- that a reader sees, on each of its three branches, unless it is about to move a part of the
-- array onto itself.
pub append-Holds :
    (b : ConnectionBuffer) (bytes : List ℕ)
    → IsValid b
    → Fits b (length bytes)
    → ¬ Overlaps b (length bytes)
    → Holds (contents b ++ bytes) (append b bytes)
unfolding append
append-Holds b bytes v fits clear = elim (Bool-cases (ltb n (writable_count b))) [
  | inl roomy ↦ rw roomy (write_bytes_lem b bytes v.ordered (ground arith) v.small)
  | inr full ↦ rw full elim (Bool-cases (ltb needed b.read_index)) [
    | inl slack ↦
        let (c, e, vc, same, w, size) = compact_lem b v (ground arith) in
        rw (slack, e)
          (subst (λ l. Holds (l ++ bytes) (write_bytes c bytes)) same
            (write_bytes_lem c bytes vc.ordered (ground arith) vc.small))
    | inr tight ↦ rw tight (
        subst (λ l. Holds (drop b.read_index l ++ bytes) (write_bytes grown bytes)) kept
          (write_bytes_lem grown bytes v.ordered (omega (arith, larger)) (omega (arith, larger))))
  ]
]
  where
    n : ℕ
    n = length bytes

    needed : ℕ
    needed = add_size (sub_size (length b.buffer) b.write_index) n

    grown : ConnectionBuffer
    grown = record b { buffer = resize b.buffer (add_size (length b.buffer) (growth n)) }

    larger : length grown.buffer ≡ length b.buffer + buf_size * (n / buf_size + 1)
    larger = length-resize b.buffer (add_size (length b.buffer) (growth n)) ∙ omega arith

    kept : take b.write_index grown.buffer ≡ take b.write_index b.buffer
    kept =
        take-resize b.buffer b.write_index (add_size (length b.buffer) (growth n)) (omega arith)
          (omega arith)

-- Where there is room behind the readable bytes, `append` leaves all that it does not write in place.
pub append-in_place :
    (b : ConnectionBuffer) (bytes : List ℕ)
    → IsValid b
    → length bytes < writable_count b
    → (b' : ConnectionBuffer) × (append b bytes ≡ some b')
      × IsValid b'
      × (contents b' ≡ contents b ++ bytes)
      × (b'.read_index ≡ b.read_index)
      × (b.write_index ≤ b'.write_index)
      × (length b'.buffer ≡ length b.buffer)
unfolding append write_bytes
append-in_place b bytes v roomy =
    let (b', e, v', seen) =
      write_bytes_lem b bytes v.ordered (omega (arith, v.room, v.small)) v.small in
    let placed = copy_in_lem b.buffer b.write_index bytes (omega (arith, v.small)) in
    let size = length-overwrite b.buffer b.write_index bytes (omega (arith, v.small)) in
    (
      b',
      rw (lt→ltb (length bytes) (writable_count b) roomy) e,
      v',
      seen,
      ground (arith, placed),
      ground (arith, placed),
      ground (arith, placed, size),
    )

-- Where there is no room, neither behind the readable bytes nor with those before them, `append` makes
-- the array larger.
pub append-grows :
    (b : ConnectionBuffer) (bytes : List ℕ)
    → IsValid b
    → Fits b (length bytes)
    → length b.buffer ≤ b.write_index + length bytes
    → b.read_index + b.write_index ≤ length b.buffer + length bytes
    → (b' : ConnectionBuffer) × (append b bytes ≡ some b')
      × (length b'.buffer ≡ length b.buffer + buf_size * (length bytes / buf_size + 1))
unfolding append write_bytes
append-grows b bytes v fits full tight =
    let grown = resize b.buffer (add_size (length b.buffer) (growth (length bytes))) in
    let larger = length-resize b.buffer (add_size (length b.buffer) (growth (length bytes))) in
    let placed = copy_in_lem grown b.write_index bytes (omega (arith, larger, fits, v.room)) in
    let size = length-overwrite grown b.write_index bytes (omega (arith, larger, fits, v.room)) in
    (
      record b {
        buffer = overwrite grown b.write_index bytes;
        write_index = add_u32 b.write_index (to_u32 (length bytes));
      },
      ground (arith, placed, v.room, v.small),
      omega (arith, size, larger, fits),
    )

-- Where the move overlaps itself, the `memcpy` of `append` is undefined.
pub append-overlap :
    (b : ConnectionBuffer) (bytes : List ℕ)
    → IsValid b
    → Fits b (length bytes)
    → Overlaps b (length bytes)
    → append b bytes ≡ none
unfolding append compact move_down
append-overlap b bytes v fits bad = ground arith
