-- ===== src/Common/Text.antt =====
-- Text as bytes, and decimal numbers.
use Prim.Native.Nat.{ℕ, zero, suc, ◌+◌, ◌-◌, ◌*◌, ◌/◌, ◌%◌, ◌<◌}
use Prim.Native.Char.{code}
use Prim.Native.String.{String}
use mathlib.Core.Path.{◌≡◌, refl, sym, ap, ◌∙◌}
use asio_client.Common.Lists.{length, replicate}
use mathlib.Core.List.{List, [], ◌∷◌, ◌++◌}
use mathlib.Core.Bool.{Bool, true, false, ◌&&◌}
use mathlib.Core.Logic.{inl, inr}
use native.Mathlib.Omega.{arith}
use asio_client.Common.Tests.{ltb, ◌==◌, if◌then◌else◌, Bool-cases}

-- The bytes of an ASCII text.
abbrev pub codes : String → List ℕ
codes String.[] = []
codes (String.◌∷◌ c s) = code c ∷ codes s

-- `text.find(prefix) == 0`
unfoldable pub starts_with : List ℕ → List ℕ → Bool
starts_with text [] = true
starts_with [] (x ∷ prefix) = false
starts_with (y ∷ text) (x ∷ prefix) = y == x && starts_with text prefix

-- The digits of `n` before `out`; each round needs a unit of fuel and divides `n` by ten.
unfoldable pub decimal_onto : ℕ → ℕ → List ℕ → List ℕ
decimal_onto zero n out = out
decimal_onto (suc fuel) n out =
    let rest = decimal_onto fuel (n / 10) ((b'0' + n % 10) ∷ out) in
    if ltb n 10 then (b'0' + n) ∷ out else rest

-- `std::to_string` of an unsigned number.
unfoldable pub to_string : ℕ → List ℕ
unfolding decimal_onto
to_string n = decimal_onto (suc n) n []

-- The number that a run of digits stands for, behind the digits of `n`.
abbrev pub value_onto : ℕ → List ℕ → ℕ
value_onto n [] = n
value_onto n (d ∷ ds) = value_onto (n * 10 + (d - b'0')) ds

-- Enough fuel gives all digits: they read back as the number.
value-decimal_onto :
    (fuel n : ℕ) (out : List ℕ)
    → n < fuel
    → value_onto 0 (decimal_onto fuel n out) ≡ value_onto n out
unfolding decimal_onto
value-decimal_onto zero n out h = absurd (omega arith)
value-decimal_onto (suc fuel) n out h = elim (Bool-cases (ltb n 10)) [
  | inl last ↦ rw last (ap (λ k. value_onto k out) (omega arith))
  | inr more ↦ rw more (
      value-decimal_onto fuel (n / 10) ((b'0' + n % 10) ∷ out) (ground arith)
      ∙ ap (λ k. value_onto k out) (omega arith))
]

pub value-to_string : (n : ℕ) → value_onto 0 (to_string n) ≡ n
unfolding to_string
value-to_string n = value-decimal_onto (suc n) n [] (omega arith)

-- The number that the digits before a `'-'` stand for, behind the digits of `n`.
abbrev pub value_until : ℕ → List ℕ → ℕ
value_until n [] = n
value_until n (d ∷ ds) = if d == b'-' then n else value_until (n * 10 + (d - b'0')) ds

no_dash : (n : ℕ) → n < 10 → ((b'0' + n) == b'-') ≡ false
no_dash n h = ground arith

value_until-decimal_onto :
    (fuel n : ℕ) (out rest : List ℕ)
    → n < fuel
    → value_until 0 (decimal_onto fuel n out ++ rest) ≡ value_until n (out ++ rest)
unfolding decimal_onto
value_until-decimal_onto zero n out rest h = absurd (omega arith)
value_until-decimal_onto (suc fuel) n out rest h = elim (Bool-cases (ltb n 10)) [
  | inl last ↦
      rw (last, no_dash n (ground arith)) (ap (λ k. value_until k (out ++ rest)) (omega arith))
  | inr more ↦ rw more (
      value_until-decimal_onto fuel (n / 10) ((b'0' + n % 10) ∷ out) rest (ground arith)
      ∙ rw (no_dash (n % 10) (omega arith)) (ap (λ k. value_until k (out ++ rest)) (omega arith)))
]

pub value_until-to_string : (n : ℕ) (rest : List ℕ) → value_until 0 (to_string n ++ b'-' ∷ rest) ≡ n
unfolding to_string
value_until-to_string n rest = value_until-decimal_onto (suc n) n [] (b'-' ∷ rest) (omega arith)

-- `std::setfill('0') << std::setw(width) << n`
unfoldable pub padded : ℕ → ℕ → List ℕ
padded width n = replicate (width - length (to_string n)) b'0' ++ to_string n

value-zeros : (k : ℕ) (ds : List ℕ) → value_onto 0 (replicate k b'0' ++ ds) ≡ value_onto 0 ds
value-zeros zero ds = refl
value-zeros (suc k) ds = value-zeros k ds

-- Padding keeps numbers apart.
pub padded-injective : (width m n : ℕ) → padded width m ≡ padded width n → m ≡ n
unfolding padded
padded-injective width m n e = sym (read m) ∙ ap (value_onto 0) e ∙ read n
  where
    read : (k : ℕ) → value_onto 0 (padded width k) ≡ k
    read k = value-zeros (width - length (to_string k)) (to_string k) ∙ value-to_string k
