-- ===== src/Common/Memory.antt =====
-- What `memcpy`, `memmove` and `std::vector<char>::resize` do to an array of bytes.
-- An array is the list of its bytes; a copy that leaves the array, or a `memcpy` between regions
-- that overlap, is undefined in C++ and gives `none`.
use Prim.Native.Nat.{ℕ, ◌+◌, ◌-◌, ◌≤◌}
use mathlib.Core.Path.{◌≡◌, refl, ap, ◌∙◌}
use mathlib.Core.Bool.{Bool, true, false, ◌&&◌}
use mathlib.Core.Option.{Option, none, some}
use mathlib.Core.List.{List, ◌++◌, append_assoc}
use native.Mathlib.Omega.{arith}
use asio_client.Common.Tests.{leb, le→leb, if◌then◌else◌}
use asio_client.Common.Lists.{
  length, take, drop, replicate, length-append, length-take, length-drop, length-replicate,
  take-append_left, take-append_le, drop-append_left, take-take,
}

-- Copies the bytes `src`, which lie outside the array, to position `i`.
unfoldable pub copy_in : List ℕ → ℕ → List ℕ → Option (List ℕ)
copy_in buf i src =
    if leb (i + length src) (length buf)
    then some (take i buf ++ src ++ drop (i + length src) buf)
    else none

-- Copies `n` bytes from position `i` to the front: `memcpy(start, start + i, n)`, or `memmove`
-- where `overlap` is true.
unfoldable pub move_down : Bool → List ℕ → ℕ → ℕ → Option (List ℕ)
move_down true buf i n =
    if leb (i + n) (length buf) then some (take n (drop i buf) ++ drop n buf) else none
move_down false buf i n =
    if leb (i + n) (length buf) && leb n i then some (take n (drop i buf) ++ drop n buf) else none

unfoldable pub resize : List ℕ → ℕ → List ℕ
resize buf n = take n buf ++ replicate (n - length buf) 0

abbrev pub overwrite : List ℕ → ℕ → List ℕ → List ℕ
overwrite buf i src = take i buf ++ src ++ drop (i + length src) buf

pub copy_in_lem :
    (buf : List ℕ) (i : ℕ) (src : List ℕ)
    → i + length src ≤ length buf
    → copy_in buf i src ≡ some (overwrite buf i src)
unfolding copy_in
copy_in_lem buf i src h = rw (le→leb _ _ h)

pub length-overwrite :
    (buf : List ℕ) (i : ℕ) (src : List ℕ)
    → i + length src ≤ length buf
    → length (overwrite buf i src) ≡ length buf
length-overwrite buf i src h = omega (
  arith,
  length-append (take i buf ++ src) (drop (i + length src) buf),
  length-append (take i buf) src,
  length-take i buf,
  length-drop (i + length src) buf,
)

-- Up to the end of what was copied, the array holds its old bytes and then the copied ones.
pub take-overwrite :
    (buf : List ℕ) (i n : ℕ) (src : List ℕ)
    → i ≤ length buf
    → n ≡ i + length src
    → take n (overwrite buf i src) ≡ take i buf ++ src
take-overwrite buf i n src h e =
    take-append_left n (take i buf ++ src) (drop (i + length src) buf)
      (omega (arith, length-append (take i buf) src, length-take i buf))

pub take-overwrite_before :
    (buf : List ℕ) (i : ℕ) (src : List ℕ)
    → i ≤ length buf
    → take i (overwrite buf i src) ≡ take i buf
take-overwrite_before buf i src h =
    take-append_le i (take i buf ++ src) (drop (i + length src) buf)
      (omega (arith, length-append (take i buf) src, length-take i buf))
    ∙ take-append_left i (take i buf) src (omega (arith, length-take i buf))

-- What was copied can be read back.
pub take-drop-overwrite :
    (buf : List ℕ) (i : ℕ) (src : List ℕ)
    → i ≤ length buf
    → take (length src) (drop i (overwrite buf i src)) ≡ src
take-drop-overwrite buf i src h = rw (append_assoc (take i buf) src (drop (i + length src) buf)) (
    ap (take (length src)) (
      drop-append_left i (take i buf) (src ++ drop (i + length src) buf)
        (omega (arith, length-take i buf)))
    ∙ take-append_left (length src) src (drop (i + length src) buf) refl)

abbrev pub moved_down : List ℕ → ℕ → ℕ → List ℕ
moved_down buf i n = take n (drop i buf) ++ drop n buf

-- `memmove` has no condition but that it stays in the array.
pub move_down_lem :
    (buf : List ℕ) (i n : ℕ)
    → i + n ≤ length buf
    → move_down true buf i n ≡ some (moved_down buf i n)
unfolding move_down
move_down_lem buf i n h = rw (le→leb _ _ h)

pub length-moved_down :
    (buf : List ℕ) (i n : ℕ) → i + n ≤ length buf → length (moved_down buf i n) ≡ length buf
length-moved_down buf i n h = omega (
  arith,
  length-append (take n (drop i buf)) (drop n buf),
  length-take n (drop i buf),
  length-drop i buf,
  length-drop n buf,
)

-- The front of the array holds the bytes that were copied to it.
pub take-moved_down :
    (buf : List ℕ) (i n : ℕ)
    → i + n ≤ length buf
    → take n (moved_down buf i n) ≡ take n (drop i buf)
take-moved_down buf i n h =
    take-append_left n (take n (drop i buf)) (drop n buf)
      (omega (arith, length-take n (drop i buf), length-drop i buf))

pub length-resize : (buf : List ℕ) (n : ℕ) → length (resize buf n) ≡ n
unfolding resize
length-resize buf n = omega (
  arith,
  length-append (take n buf) (replicate (n - length buf) 0),
  length-take n buf,
  length-replicate {A = ℕ} (n - length buf) 0,
)

-- A resize that does not shrink keeps every byte.
pub take-resize :
    (buf : List ℕ) (i n : ℕ) → i ≤ length buf → length buf ≤ n → take i (resize buf n) ≡ take i buf
unfolding resize
take-resize buf i n h k =
    take-append_le i (take n buf) (replicate (n - length buf) 0) (omega (arith, length-take n buf))
    ∙ take-take i n buf (omega arith)

-- The `n` bytes from position `i` on, as `std::string(bytes + i, n)` reads them.
unfoldable pub slice : List ℕ → ℕ → ℕ → Option (List ℕ)
slice buf i n = if leb (i + n) (length buf) then some (take n (drop i buf)) else none

pub slice_lem :
    (buf : List ℕ) (i n : ℕ) → i + n ≤ length buf → slice buf i n ≡ some (take n (drop i buf))
unfolding slice
slice_lem buf i n h = rw (le→leb _ _ h)
