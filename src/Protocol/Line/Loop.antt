-- ===== src/Protocol/Line/Loop.antt =====
-- asio-1.28_server_multi_protocol/src/test.cpp: the loop of `LineProtocolHandler::process_data` against
-- the lines of `Split`.
use asio_client.Common.{
  ℕ, suc, ◌+◌, ◌-◌, ◌<◌, ◌^◌, ◌≡◌, ◌⊎◌, refl, ap, ap₂, sym, ◌∙◌, true, false, inl, inr, some, List,
  [], ◌∷◌, ◌++◌, length, take, drop, get_elem?, ◌==◌, if◌then◌else◌, ◌>>=◌, slice, slice_lem, arith,
  Bool-cases, ==_iff, append_assoc, get_elem?-append_at, last_cases, length-append,
  drop-append_left, take-append_left,
}
use asio_client.Protocol.Line.{lf, cr, line_length, line_loop, process_data}
use asio_client.Protocol.Line.Split.{
  strip_cr, strip_cr-append, split, split-nil, split-eol, split-more, lines, partial_line, OneLine,
  AllOneLine, send_all, split-send_all,
}

-- Hands the lines over one by one.
abbrev pub feed {ℓ} : {S : Type ℓ} → (List ℕ → S → S) → List (List ℕ) → S → S
feed process [] s = s
feed process (l ∷ ls) s = feed process ls (process l s)

strip_cr-IsPrefix : (part : List ℕ) → (rest : List ℕ) × (part ≡ strip_cr part ++ rest)
strip_cr-IsPrefix [] = ([], refl)
strip_cr-IsPrefix (x ∷ []) = elim (Bool-cases (x == cr)) [
  | inl e ↦ rw e (x ∷ [], refl)
  | inr e ↦ rw e ([], refl)
]
strip_cr-IsPrefix (x ∷ y ∷ part) =
    let (rest, e) = strip_cr-IsPrefix (y ∷ part) in (rest, ap (◌∷◌ x) e)

-- Where a line begins: at the front, or behind a `'\n'`.
abbrev LineStart : List ℕ → Type 0
LineStart pre = (pre ≡ []) ⊎ ((p : List ℕ) × (pre ≡ p ++ lf ∷ []))

-- The loop at `i` has read `pre`, which ends the line before, and then `part`.
module _ (bytes pre part rest : List ℕ) (whole : bytes ≡ pre ++ (part ++ rest))
    (small : length bytes < 2 ^ 64) where
  sizes : length bytes ≡ length pre + (length part + length rest)
  sizes = ap length whole ∙ omega (arith, length-append pre (part ++ rest), length-append part rest)

  line_length_empty :
      part ≡ [] → LineStart pre → line_length bytes (length pre + length part) (length pre) ≡ some 0
  unfolding line_length
  line_length_empty e (inl front) = rw (e, front)
  line_length_empty e (inr (p, behind)) = ground (arith, before, sizes, ap length e)
    where
      before : get_elem? bytes (length pre + length part - 1) ≡ some lf
      before =
          rw (whole, e, behind, append_assoc p (lf ∷ []) rest)
            (get_elem?-append_at _ p rest lf (omega (arith, length-append p (lf ∷ []))))

  line_length_ends :
      (p : List ℕ) (x : ℕ)
      → part ≡ p ++ x ∷ []
      → line_length bytes (length pre + length part) (length pre)
        ≡ some (if x == cr then length p else length p + 1)
  unfolding line_length
  line_length_ends p x e = ground (arith, before, sizes, longer)
    where
      longer : length part ≡ length p + 1
      longer = ap length e ∙ omega (arith, length-append p (x ∷ []))

      before : get_elem? bytes (length pre + length part - 1) ≡ some x
      before =
          rw (whole, e, append_assoc p (x ∷ []) rest, ← append_assoc pre p (x ∷ rest))
            (get_elem?-append_at _ (pre ++ p) rest x
              (omega (arith, length-append p (x ∷ []), length-append pre p)))

  -- Neither subtraction wraps: a `'\r'` is only ever taken off the line that it stands in.
  line_length_lem :
      LineStart pre
      → line_length bytes (length pre + length part) (length pre) ≡ some (length (strip_cr part))
  line_length_lem start = elim (last_cases part) [
    | inl e ↦ line_length_empty e start ∙ sym (ap (λ l. some (length (strip_cr l))) e)
    | inr (p, x, e) ↦
        line_length_ends p x e
        ∙ ap (λ (n : ℕ). some n)
            (sized p x ∙ sym (ap (λ l. length (strip_cr l)) e ∙ ap length (strip_cr-append p x)))
  ]
    where
      sized :
          (p : List ℕ) (x : ℕ)
          → (if x == cr then length p else length p + 1)
            ≡ length (if x == cr then p else p ++ x ∷ [])
      sized p x = ground (arith, length-append p (x ∷ []))

  -- What the loop cuts out is the line.
  cut_lem :
      LineStart pre
      → (line_length bytes (length pre + length part) (length pre) >>= slice bytes (length pre))
        ≡ some (strip_cr part)
  cut_lem start =
      let (tail, e) = strip_cr-IsPrefix part in
      let n = length (strip_cr part) in
      let shorter : length part ≡ n + length tail =
        ap length e ∙ length-append (strip_cr part) tail in
      rw (line_length_lem start, slice_lem bytes (length pre) n (omega (arith, sizes, shorter)))
        (ap some (
          ap (take n) (
            ap (drop (length pre)) whole
            ∙ drop-append_left (length pre) pre (part ++ rest) refl
            ∙ ap (λ l. l ++ rest) e
            ∙ append_assoc (strip_cr part) tail rest)
          ∙ take-append_left n (strip_cr part) (tail ++ rest) refl))

module _ {ℓ} {S : Type ℓ} (process : List ℕ → S → S) (bytes : List ℕ)
    (small : length bytes < 2 ^ 64) where
  loop_eol :
      (rounds i start x : ℕ) (s : S)
      → get_elem? bytes i ≡ some x
      → (x == lf) ≡ true
      → line_loop process bytes (suc rounds) i start start s ≡ (
          (line_length bytes i start >>= slice bytes start) >>= λ line.
          line_loop process bytes rounds (i + 1) (i + 1) (i + 1) (process line s))
  unfolding line_loop
  loop_eol rounds i start x s here e = rw (here, ◌>>=◌, e, line_loop)

  loop_more :
      (rounds i start x : ℕ) (s : S)
      → get_elem? bytes i ≡ some x
      → (x == lf) ≡ false
      → line_loop process bytes (suc rounds) i start start s
        ≡ line_loop process bytes rounds (i + 1) start start s
  unfolding line_loop
  loop_more rounds i start x s here e = rw (here, ◌>>=◌, e, line_loop)

  loop_nil : (i start : ℕ) (s : S) → line_loop process bytes 0 i start start s ≡ some (start, s)
  unfolding line_loop
  loop_nil i start s = refl

  loop_lem :
      (pre part rest : List ℕ) (i start : ℕ) (s : S)
      → bytes ≡ pre ++ (part ++ rest)
      → LineStart pre
      → i ≡ length pre + length part
      → start ≡ length pre
      → line_loop process bytes (length rest) i start start s
        ≡ some (length bytes - length (split part rest).1, feed process (split part rest).0 s)
  loop_lem pre part [] i start s e l ei es =
      rw (split-nil part, loop_nil)
        (ap (λ n. some (n, s)) (omega (arith, sizes bytes pre part [] e small)))
  loop_lem pre part (x ∷ xs) i start s e l ei es = elim (Bool-cases (x == lf)) [
    | inl eol ↦
        rw
          (
            loop_eol (length xs) i start x s here eol,
            split-eol part xs x eol,
            es,
            ei,
            cut_lem bytes pre part (x ∷ xs) e small l,
          )
          (loop_lem (pre ++ (part ++ x ∷ [])) [] xs _ _ (process (strip_cr part) s) (e ∙ regroup)
            (inr (pre ++ part, cc (sym (append_assoc pre part (x ∷ [])), (==_iff x lf).0 eol)))
            (omega (arith, longer)) (omega (arith, longer)))
    | inr more ↦
        rw (loop_more (length xs) i start x s here more, split-more part xs x more)
          (loop_lem pre (part ++ x ∷ []) xs (i + 1) start s
            (e ∙ ap (◌++◌ pre) (sym (append_assoc part (x ∷ []) xs))) l
            (omega (arith, length-append part (x ∷ []))) es)
  ]
    where
      here : get_elem? bytes i ≡ some x
      here =
          rw (e, ← append_assoc pre part (x ∷ xs))
            (get_elem?-append_at i (pre ++ part) xs x (omega (arith, length-append pre part)))

      regroup : pre ++ (part ++ x ∷ xs) ≡ (pre ++ (part ++ x ∷ [])) ++ xs
      regroup = simp append_assoc

      longer : length (pre ++ (part ++ x ∷ [])) ≡ length pre + length part + 1
      longer = omega (arith, length-append pre (part ++ x ∷ []), length-append part (x ∷ []))

  -- For less than 2 ^ 64 bytes `process_data` reads nothing outside the received bytes, hands over
  -- every complete line in order, without its line end, and leaves just what stands behind the
  -- last `'\n'`.
  pub process_data_lem :
      (s : S)
      → process_data process bytes s
        ≡ some (length bytes - length (partial_line bytes), feed process (lines bytes) s)
  unfolding process_data
  process_data_lem s = loop_lem [] [] bytes 0 0 s refl (inl refl) refl refl

  -- Messages without a `'\n'`, each as `prepare_send` sends it, come back one by one and
  -- unchanged, also if a part of the next one is already there, which is left for the next read;
  -- all of it is less than 2 ^ 64 bytes.
  pub process_data-send_all :
      (ms : List (List ℕ)) (rest : List ℕ) (s : S)
      → bytes ≡ send_all ms ++ rest
      → AllOneLine ms
      → OneLine rest
      → process_data process bytes s ≡ some (length (send_all ms), feed process ms s)
  process_data-send_all ms rest s e h k =
      process_data_lem s
      ∙ ap₂ (λ (n : ℕ) (ls : List (List ℕ)). some (n, feed process ls s))
          (omega (arith, ap length e, length-append (send_all ms) rest, ap length left)) found
    where
      whole : split [] bytes ≡ (ms, rest)
      whole = rw e (split-send_all ms rest h k)

      left : partial_line bytes ≡ rest
      left = ap (λ (r : List (List ℕ) × List ℕ). r.1) whole

      found : lines bytes ≡ ms
      found = ap (λ (r : List (List ℕ) × List ℕ). r.0) whole
