-- ===== src/ServerMulti/Calculator/Errors.antt =====
-- asio-1.28_server_multi/src/test.cpp, `CalculatorHandler::process`: what becomes of any text.
use asio_client.Common.{
  All, ℕ, ◌<◌, ◌≡◌, ◌≢◌, ◌⊎◌, inl, inr, refl, sym, ap, subst, append-nil, Bool-cases, ==_iff, ◌==◌,
  Bool, true, false, ◌&&◌, ◌||◌, some, List, [], ◌∷◌, ◌++◌, drop, leb, zero, suc, codes, arith,
}
use asio_client.ServerMulti.Calculator.Answers.{
  Operator, plus, minus, times, divided_by, symbol, IsSpace, StartsPlain, value, text_of,
  answer-operate,
}
use asio_client.ServerMulti.Calculator.{
  Doubles, Parsed, parsed, fails, Tried, throws, is_space, skip_spaces, then_try, number_of,
  operate, evaluate_rest, evaluate_from, answer, process,
}

abbrev pub IsAscii : ℕ → Type 0
IsAscii c = c < 128

leb-above : (c : ℕ) → c < 128 → leb 128 c ≡ false
leb-above c p = ground arith

is_space-IsAscii : (c : ℕ) → IsAscii c → (space : Bool) × (is_space c ≡ some space)
is_space-IsAscii c p = ((leb 9 c && leb c 13) || c == b' ', rw (leb-above c p) refl)

drop-All : (n : ℕ) (cs : List ℕ) → All IsAscii cs → All IsAscii (drop n cs)
drop-All zero cs a = a
drop-All (suc n) [] a = a
drop-All (suc n) (c ∷ cs) a = drop-All n cs a.1

-- A text is some spaces and a rest that starts with none.
abbrev Skips : List ℕ → Type 0
Skips cs =
    (sp : List ℕ) × (rest : List ℕ) × (cs ≡ sp ++ rest)
    × All IsSpace sp
    × StartsPlain rest
    × (skip_spaces cs ≡ some rest)
    × All IsAscii rest

skip_spaces-All : (cs : List ℕ) → All IsAscii cs → Skips cs
unfolding skip_spaces
skip_spaces-All [] a = ([], [], refl, tt, tt, refl, tt)
skip_spaces-All (c ∷ cs) a = from (is_space-IsAscii c a.0) (skip_spaces-All cs a.1)
  where
    from : (space : Bool) × (is_space c ≡ some space) → Skips cs → Skips (c ∷ cs)
    from (true, e) (sp, rest, whole, spaces, plain, skipped, all) =
        (c ∷ sp, rest, ap (◌∷◌ c) whole, (e, spaces), plain, rw e skipped, all)
    from (false, e) (sp, rest, whole, spaces, plain, skipped, all) =
        ([], c ∷ cs, refl, tt, e, rw e refl, a)

-- What is no operator.
abbrev pub IsOther : ℕ → Type 0
IsOther op = (op ≢ b'+') × (op ≢ b'-') × (op ≢ b'*') × (op ≢ b'/')

operator_cases : (op : ℕ) → ((o : Operator) × (op ≡ symbol o)) ⊎ IsOther op
operator_cases op = elim (Bool-cases (op == b'+')) [
  | inl p ↦ inl (plus, (==_iff op b'+').0 p)
  | inr p ↦ elim (Bool-cases (op == b'-')) [
    | inl q ↦ inl (minus, (==_iff op b'-').0 q)
    | inr q ↦ elim (Bool-cases (op == b'*')) [
      | inl r ↦ inl (times, (==_iff op b'*').0 r)
      | inr r ↦ elim (Bool-cases (op == b'/')) [
        | inl t ↦ inl (divided_by, (==_iff op b'/').0 t)
        | inr t ↦ inr (ground arith)
      ]
    ]
  ]
]

-- What the calculator makes of a text.
module _ (d : Doubles) where
  open d use {Double, stod, to_string}

  -- The answers to the text behind the first number, `a`.
  pub data IsAnswer (a : Double) : (text answer : List ℕ) → Type 0 where
    no_operator : (sp : List ℕ) → All IsSpace sp → IsAnswer a sp (codes "Error: Missing operator")
    no_number :
        (sp sq right what : List ℕ) (op : ℕ)
        → All IsSpace sp
        → is_space op ≡ some false
        → All IsSpace sq
        → StartsPlain right
        → stod right ≡ fails what
        → IsAnswer a (sp ++ op ∷ (sq ++ right)) (codes "Error: " ++ what)
    other_operator :
        (sp sq right : List ℕ) (op n : ℕ) (b : Double)
        → All IsSpace sp
        → is_space op ≡ some false
        → IsOther op
        → All IsSpace sq
        → StartsPlain right
        → stod right ≡ parsed b n
        → IsAnswer a (sp ++ op ∷ (sq ++ right)) (codes "Error: Invalid operator")
    computes :
        (o : Operator) (sp sq right : List ℕ) (n : ℕ) (b : Double)
        → All IsSpace sp
        → All IsSpace sq
        → StartsPlain right
        → stod right ≡ parsed b n
        → IsAnswer a (sp ++ symbol o ∷ (sq ++ right)) (text_of d (value d o a b))

  -- The answers to a text.
  pub data Answers : (text answer : List ℕ) → Type 0 where
    no_first :
        (text what : List ℕ) → stod text ≡ fails what → Answers text (codes "Error: " ++ what)
    behind :
        (text answer : List ℕ) (a : Double) (n : ℕ)
        → stod text ≡ parsed a n
        → IsAnswer a (drop n text) answer
        → Answers text answer

  operate-IsOther :
      (op : ℕ) (a b : Double) → IsOther op → operate d op a b ≡ throws (codes "Invalid operator")
  unfolding operate
  operate-IsOther op a b h = ground (arith, h)

  -- What becomes of a second number.
  second :
      (a : Double) (sp sq right : List ℕ) (op : ℕ) (r : Parsed Double)
      → stod right ≡ r
      → All IsSpace sp
      → is_space op ≡ some false
      → All IsSpace sq
      → StartsPlain right
      → (t : Tried Double) × (then_try (some (number_of r)) (λ b. some (operate d op a b)) ≡ some t)
        × IsAnswer a (sp ++ op ∷ (sq ++ right)) (answer d t)
  unfolding answer
  second a sp sq right op (fails what) e hp no_space hq plain =
      (throws what, refl, no_number sp sq right what op hp no_space hq plain e)
  second a sp sq right op (parsed b n) e hp no_space hq plain = elim (operator_cases op) [
    | inl (o, same) ↦ (
      operate d op a b,
      refl,
      subst (λ k. IsAnswer a (sp ++ k ∷ (sq ++ right)) (answer d (operate d k a b))) (sym same)
          (rw (answer-operate d o a b) (computes o sp sq right n b hp hq plain e)),
    )
    | inr other ↦ (
      throws (codes "Invalid operator"),
      ap (λ t. some t) (operate-IsOther op a b other),
      other_operator sp sq right op n b hp no_space other hq plain e,
    )
  ]

  rest-IsAnswer :
      (a : Double) (sp rest : List ℕ)
      → All IsSpace sp
      → StartsPlain rest
      → All IsAscii rest
      → (t : Tried Double) × (evaluate_rest d a rest ≡ some t)
        × IsAnswer a (sp ++ rest) (answer d t)
  unfolding evaluate_rest answer
  rest-IsAnswer a sp [] hp plain all =
      (throws (codes "Missing operator"), refl, rw (append-nil sp) (no_operator sp hp))
  rest-IsAnswer a sp (op ∷ rest) hp plain all =
      let (sq, right, whole, hq, plain', skipped, _) = skip_spaces-All rest all.1 in
      let (t, e, ok) = second a sp sq right op (stod right) refl hp plain hq plain' in
      (t, rw skipped e, rw whole ok)

  from-Answers :
      (text : List ℕ) (p : Parsed Double)
      → stod text ≡ p
      → All IsAscii text
      → (t : Tried Double) × (evaluate_from d text p ≡ some t) × Answers text (answer d t)
  unfolding evaluate_from answer
  from-Answers text (fails what) e all = (throws what, refl, no_first text what e)
  from-Answers text (parsed a n) e all =
      let (sp, rest, whole, hp, plain, skipped, all') =
        skip_spaces-All (drop n text) (drop-All n text all) in
      let (t, ran, ok) = rest-IsAnswer a sp rest hp plain all' in
      (t, rw skipped ran, behind text (answer d t) a n e (rw whole ok))

  -- Whatever text of bytes below 128 is given, the calculator does nothing undefined, and answers:
  -- with the error of the first number if there is none; else, behind any spaces, with an error if there
  -- is nothing; else, behind a byte and any spaces, with the error of the second number if there is none,
  -- with an error if the byte is no operator, and with the result of the operator, or an error where it
  -- divides by zero.
  pub process-Answers :
      (text : List ℕ) → All IsAscii text → (r : List ℕ) × (process d text ≡ some r) × Answers text r
  unfolding process
  process-Answers text all =
      let (t, e, ok) = from-Answers text (stod text) refl all in (answer d t, rw e refl, ok)
