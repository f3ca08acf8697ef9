-- ===== src/ServerMulti/Calculator/Tests.antt =====
-- The calculator on some texts, with whole numbers for the floating-point ones, and the theorems at
-- inputs that meet their hypotheses.
use asio_client.Common.{
  ℕ, ◌+◌, ◌-◌, ◌*◌, ◌/◌, ◌≡◌, refl, ◌==◌, ◌&&◌, none, some, List, [], ◌∷◌, leb, codes, to_string,
  arith, if◌then◌else◌,
}
use asio_client.ServerMulti.Calculator.{
  Doubles, Parsed, parsed, fails, process, evaluate_from, evaluate_rest, operate, skip_spaces,
  answer,
}
use asio_client.ServerMulti.Calculator.Answers.{divided_by, process-expression}
use asio_client.ServerMulti.Calculator.Errors.{Answers, process-Answers}

-- A `stod` that reads one digit, after any spaces.
abbrev digit : ℕ → List ℕ → Parsed ℕ
digit n [] = fails (codes "stod")
digit n (c ∷ cs) =
    let rest = digit (n + 1) cs in
    if c == b' '
    then rest
    else if leb b'0' c && leb c b'9'
    then parsed (c - b'0') (n + 1)
    else fails (codes "stod")

abbrev digits : Doubles
digits = record {
  Double = ℕ;
  stod = digit 0;
  add = λ a b. a + b;
  sub = λ a b. a - b;
  mul = λ a b. a * b;
  div = λ a b. a / b;
  is_zero = λ b. b == 0;
  to_string = to_string;
}

-- What stands behind the second number is ignored, and a number where the operator should be is taken
-- for it.
texts_of_answers :
    (process digits (codes "7 * 8 + 1") ≡ some (codes "Result: 56"))
    × (process digits (codes "8 / 0") ≡ some (codes "Error: Division by zero"))
    × (process digits (codes "8 ^ 2") ≡ some (codes "Error: Invalid operator"))
    × (process digits (codes "8 ") ≡ some (codes "Error: Missing operator"))
    × (process digits (codes "1 2") ≡ some (codes "Error: stod"))
    × (process digits (b'8' ∷ 228 ∷ []) ≡ none)
unfolding process evaluate_from evaluate_rest operate skip_spaces answer to_string
texts_of_answers = (refl, refl, refl, refl, refl, refl)

process-expression_example :
    process digits (codes "8 /  0") ≡ some (codes "Error: Division by zero")
process-expression_example =
    process-expression digits divided_by (codes "8") (codes " ") (codes "  ") (codes "0") 8 0 1
      (refl, tt) (refl, (refl, tt)) refl refl refl

process-Answers_example :
    (r : List ℕ) × (process digits (codes "8+") ≡ some r) × Answers digits (codes "8+") r
process-Answers_example = process-Answers digits (codes "8+") (omega arith, (omega arith, tt))
