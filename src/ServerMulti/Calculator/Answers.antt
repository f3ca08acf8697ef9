-- ===== src/ServerMulti/Calculator/Answers.antt =====
-- asio-1.28_server_multi/src/test.cpp, `CalculatorHandler::process`: its answers.
use asio_client.Common.{
  All, ℕ, ◌≡◌, refl, ap, Bool, true, false, Option, none, some, List, [], ◌∷◌, ◌++◌,
  drop-append_left, length, if◌then◌else◌, codes,
}
use asio_client.ServerMulti.Calculator.{
  Doubles, parsed, returns, throws, is_space, skip_spaces, operate, evaluate_rest, evaluate_from,
  answer, process,
}

pub data Operator : Type 0 where
  plus minus times divided_by : Operator

abbrev pub symbol : Operator → ℕ
symbol plus = b'+'
symbol minus = b'-'
symbol times = b'*'
symbol divided_by = b'/'

abbrev pub IsSpace : ℕ → Type 0
IsSpace c = is_space c ≡ some true

-- The text is empty or starts with no space.
abbrev pub StartsPlain : List ℕ → Type 0
StartsPlain [] = Unit {0}
StartsPlain (c ∷ cs) = is_space c ≡ some false

skip_spaces-append :
    (sp rest : List ℕ) → All IsSpace sp → StartsPlain rest → skip_spaces (sp ++ rest) ≡ some rest
unfolding skip_spaces
skip_spaces-append [] [] a p = refl
skip_spaces-append [] (c ∷ cs) a p = rw p
skip_spaces-append (c ∷ sp) rest a p = rw (a.0) (skip_spaces-append sp rest a.1 p)

pub symbol-plain : (o : Operator) → is_space (symbol o) ≡ some false
symbol-plain plus = refl
symbol-plain minus = refl
symbol-plain times = refl
symbol-plain divided_by = refl

module _ (d : Doubles) where
  open d use {Double, stod, add, sub, mul, div, is_zero, to_string}

  -- The value of an expression; there is none if it divides by zero.
  abbrev pub value : Operator → Double → Double → Option Double
  value plus a b = some (add a b)
  value minus a b = some (sub a b)
  value times a b = some (mul a b)
  value divided_by a b = if is_zero b then none else some (div a b)

  abbrev pub text_of : Option Double → List ℕ
  text_of none = codes "Error: Division by zero"
  text_of (some result) = codes "Result: " ++ to_string result

  pub answer-operate :
      (o : Operator) (a b : Double) → answer d (operate d (symbol o) a b) ≡ text_of (value o a b)
  unfolding answer operate
  answer-operate plus a b = refl
  answer-operate minus a b = refl
  answer-operate times a b = refl
  answer-operate divided_by a b = from (is_zero b)
    where
      from :
          (z : Bool)
          → answer d (if z then throws (codes "Division by zero") else returns (div a b))
            ≡ text_of (if z then none else some (div a b))
      from true = refl
      from false = refl

  -- An expression is computed: where `stod` reads the number `a` from the front of the text and the
  -- number `b` from what stands behind the operator, the answer to `a`, an operator and `b`, with any
  -- spaces round the operator, is the result, or an error where it divides by zero. What stands behind
  -- `b` is ignored.
  pub process-expression :
      (o : Operator) (left sp sq right : List ℕ) (a b : Double) (n : ℕ)
      → All IsSpace sp
      → All IsSpace sq
      → StartsPlain right
      → stod (left ++ (sp ++ symbol o ∷ (sq ++ right))) ≡ parsed a (length left)
      → stod right ≡ parsed b n
      → process d (left ++ (sp ++ symbol o ∷ (sq ++ right))) ≡ some (text_of (value o a b))
  unfolding process evaluate_from evaluate_rest
  process-expression o left sp sq right a b n hp hq plain first second =
      rw
        (
          first,
          drop-append_left (length left) left (sp ++ symbol o ∷ (sq ++ right)) refl,
          skip_spaces-append sp (symbol o ∷ (sq ++ right)) hp (symbol-plain o),
          skip_spaces-append sq right hq plain,
          second,
        )
        (ap some (answer-operate o a b))
