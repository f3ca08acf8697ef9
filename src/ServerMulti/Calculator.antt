-- ===== src/ServerMulti/Calculator.antt =====
-- asio-1.28_server_multi/src/test.cpp, `CalculatorHandler`. The floating-point numbers, `std::stod` and
-- `std::to_string` of them are a parameter. `none` is undefined behaviour: `std::isspace` is given a
-- `char`, which is taken to be signed, so that a byte from 128 on is a negative number, and that is only
-- allowed for -1.
pub mod Answers
pub mod Errors
mod Tests
use asio_client.Common.{
  ℕ, ◌==◌, Bool, true, false, not, ◌&&◌, ◌||◌, Option, none, some, List, [], ◌∷◌, ◌++◌, drop, leb,
  if◌then◌else◌, ◌>>=◌, codes, String,
}

-- What `std::stod` makes of a text: a number and how many bytes it takes, or an exception with its
-- `what()`.
pub data Parsed (D : Type 0) : Type 0 where
  parsed : D → ℕ → Parsed D
  fails : List ℕ → Parsed D

pub record Doubles : Type 1 where
  pub Double : Type 0
  pub stod : List ℕ → Parsed Double
  pub add : Double → Double → Double
  pub sub : Double → Double → Double
  pub mul : Double → Double → Double
  pub div : Double → Double → Double
  -- `b == 0`
  pub is_zero : Double → Bool
  pub to_string : Double → List ℕ

-- What the `try` block comes to.
pub data Tried (A : Type 0) : Type 0 where
  returns : A → Tried A
  throws : (what : List ℕ) → Tried A

abbrev pub is_space : ℕ → Option Bool
is_space c = if leb 128 c && not (c == 255) then none else some ((leb 9 c && leb c 13) || c == b' ')

-- `while (pos < data.size() && std::isspace(data[pos])) pos++;`, from `pos` on.
pub skip_spaces : List ℕ → Option (List ℕ)
skip_spaces [] = some []
skip_spaces (c ∷ cs) =
    let rest = skip_spaces cs in is_space c >>= λ space. if space then rest else some (c ∷ cs)

-- The rest of the block after a step that may throw.
abbrev pub then_try : {A B : Type 0} → Option (Tried A) → (A → Option (Tried B)) → Option (Tried B)
then_try none f = none
then_try (some (throws what)) f = some (throws what)
then_try (some (returns a)) f = f a

abbrev pub number_of : {D : Type 0} → Parsed D → Tried D
number_of (parsed a pos) = returns a
number_of (fails what) = throws what

module _ (d : Doubles) where
  open d use {Double, stod, add, sub, mul, div, is_zero, to_string}

  -- The `switch`.
  pub operate : ℕ → Double → Double → Tried Double
  operate op a b =
      if op == b'+'
      then returns (add a b)
      else if op == b'-'
      then returns (sub a b)
      else if op == b'*'
      then returns (mul a b)
      else if op == b'/'
      then (if is_zero b then throws (codes "Division by zero") else returns (div a b))
      else throws (codes "Invalid operator")

  -- From the operator on.
  pub evaluate_rest : Double → List ℕ → Option (Tried Double)
  unfolding operate skip_spaces
  evaluate_rest a [] = some (throws (codes "Missing operator"))
  evaluate_rest a (op ∷ rest) = skip_spaces rest >>= λ text.
      then_try (some (number_of (stod text))) (λ b. some (operate op a b))

  pub evaluate_from : List ℕ → Parsed Double → Option (Tried Double)
  unfolding evaluate_rest skip_spaces
  evaluate_from bytes (fails what) = some (throws what)
  evaluate_from bytes (parsed a pos) = skip_spaces (drop pos bytes) >>= evaluate_rest a

  -- The `return` and the `catch`.
  pub answer : Tried Double → List ℕ
  answer (returns result) = codes "Result: " ++ to_string result
  answer (throws what) = codes "Error: " ++ what

  pub process : List ℕ → Option (List ℕ)
  unfolding evaluate_from answer
  process bytes = evaluate_from bytes (stod bytes) >>= λ tried. some (answer tried)
