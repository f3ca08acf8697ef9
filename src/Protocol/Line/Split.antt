-- ===== src/Protocol/Line/Split.antt =====
-- The lines of a byte stream, as a function of the stream alone: what the loop of
-- `LineProtocolHandler` is held to.
use asio_client.Common.{
  ℕ, ◌≡◌, ◌≢◌, refl, ap, sym, ◌∙◌, true, false, inl, inr, List, [], ◌∷◌, ◌++◌, ◌==◌, if◌then◌else◌,
  Bool-cases, ==_iff, append_assoc, append-nil,
}
use asio_client.Protocol.Line.{lf, cr, prepare_send}

-- Without its last byte, if that is a `'\r'`.
abbrev pub strip_cr : List ℕ → List ℕ
strip_cr [] = []
strip_cr (x ∷ []) = if x == cr then [] else x ∷ []
strip_cr (x ∷ y ∷ xs) = x ∷ strip_cr (y ∷ xs)

-- The complete lines of `part ++ bytes`, and what stands behind the last `'\n'`, where `part` holds
-- none.
unfoldable pub split : List ℕ → List ℕ → List (List ℕ) × List ℕ
split part [] = ([], part)
split part (x ∷ xs) = elim (x == lf) [
  | true ↦ (strip_cr part ∷ (split [] xs).0, (split [] xs).1)
  | false ↦ split (part ++ x ∷ []) xs
]

abbrev pub lines : List ℕ → List (List ℕ)
lines bytes = (split [] bytes).0

abbrev pub partial_line : List ℕ → List ℕ
partial_line bytes = (split [] bytes).1

-- No byte of the message is a `'\n'`.
abbrev pub OneLine : List ℕ → Type 0
OneLine [] = Unit {0}
OneLine (x ∷ xs) = (x ≢ lf) × OneLine xs

pub split-eol :
    (part xs : List ℕ) (x : ℕ)
    → (x == lf) ≡ true
    → split part (x ∷ xs) ≡ (strip_cr part ∷ lines xs, partial_line xs)
unfolding split
split-eol part xs x e = rw (e, split)

pub split-more :
    (part xs : List ℕ) (x : ℕ) → (x == lf) ≡ false → split part (x ∷ xs) ≡ split (part ++ x ∷ []) xs
unfolding split
split-more part xs x e = rw (e, split)

pub split-nil : (part : List ℕ) → split part [] ≡ ([], part)
unfolding split
split-nil part = refl

pub split-append :
    (part xs ys : List ℕ)
    → split part (xs ++ ys)
      ≡ ((split part xs).0 ++ (split (split part xs).1 ys).0, (split (split part xs).1 ys).1)
split-append part [] ys = rw (split-nil part)
split-append part (x ∷ xs) ys = elim (Bool-cases (x == lf)) [
  | inl eol ↦
      rw (split-eol part (xs ++ ys) x eol, split-eol part xs x eol)
        (ap (λ (r : List (List ℕ) × List ℕ). (strip_cr part ∷ r.0, r.1)) (split-append [] xs ys))
  | inr more ↦
      rw (split-more part (xs ++ ys) x more, split-more part xs x more)
        (split-append (part ++ x ∷ []) xs ys)
]

pub strip_cr-append :
    (part : List ℕ) (x : ℕ) → strip_cr (part ++ x ∷ []) ≡ (if x == cr then part else part ++ x ∷ [])
strip_cr-append [] x = refl
strip_cr-append (y ∷ []) x = elim (Bool-cases (x == cr)) [ inl e ↦ rw e | inr e ↦ rw e ]
strip_cr-append (y ∷ z ∷ part) x =
    ap (◌∷◌ y) (strip_cr-append (z ∷ part) x)
    ∙ elim (Bool-cases (x == cr)) [ inl e ↦ rw e | inr e ↦ rw e ]

-- Bytes without a `'\n'` only make the partial line longer.
pub split-OneLine : (part xs : List ℕ) → OneLine xs → split part xs ≡ ([], part ++ xs)
split-OneLine part [] h = rw (split-nil part, append-nil)
split-OneLine part (x ∷ xs) h = elim (Bool-cases (x == lf)) [
  | inl eol ↦ absurd (h.0 ((==_iff x lf).0 eol))
  | inr more ↦
      rw (split-more part xs x more)
        (split-OneLine (part ++ x ∷ []) xs h.1 ∙ rw (append_assoc part (x ∷ []) xs))
]

-- One sent message is one line.
split-prepare_send :
    (bytes rest : List ℕ)
    → OneLine bytes
    → split [] (prepare_send bytes ++ rest) ≡ (bytes ∷ lines rest, partial_line rest)
unfolding prepare_send
split-prepare_send bytes rest h =
    rw
      (
        append_assoc bytes (cr ∷ lf ∷ []) rest,
        split-append [] bytes (cr ∷ lf ∷ rest),
        split-OneLine [] bytes h,
        split-more bytes (lf ∷ rest) cr refl,
        split-eol (bytes ++ cr ∷ []) rest lf refl,
      )
      (ap (λ l. (l ∷ lines rest, partial_line rest)) (strip_cr-append bytes cr))

-- Several sent messages, and then some bytes of the next.
abbrev pub send_all : List (List ℕ) → List ℕ
send_all [] = []
send_all (m ∷ ms) = prepare_send m ++ send_all ms

abbrev pub AllOneLine : List (List ℕ) → Type 0
AllOneLine [] = Unit {0}
AllOneLine (m ∷ ms) = OneLine m × AllOneLine ms

pub split-send_all :
    (ms : List (List ℕ)) (rest : List ℕ)
    → AllOneLine ms
    → OneLine rest
    → split [] (send_all ms ++ rest) ≡ (ms, rest)
split-send_all [] rest h k = split-OneLine [] rest k
split-send_all (m ∷ ms) rest h k =
    rw
      (
        append_assoc (prepare_send m) (send_all ms) rest,
        split-prepare_send m (send_all ms ++ rest) h.0,
      )
      (ap (λ (r : List (List ℕ) × List ℕ). (m ∷ r.0, r.1)) (split-send_all ms rest h.1 k))

-- What is left over is the end of the stream.
pub split-suffix : (part xs : List ℕ) → (front : List ℕ) × (part ++ xs ≡ front ++ (split part xs).1)
split-suffix part [] = ([], rw (split-nil part, append-nil))
split-suffix part (x ∷ xs) = elim (Bool-cases (x == lf)) [
  | inl eol ↦
      let (front, e) = split-suffix [] xs in
      rw (split-eol part xs x eol)
        (part ++ x ∷ front, ap (λ l. part ++ x ∷ l) e ∙ sym (append_assoc part (x ∷ front) _))
  | inr more ↦
      let (front, e) = split-suffix (part ++ x ∷ []) xs in
      rw (split-more part xs x more) (front, sym (append_assoc part (x ∷ []) xs) ∙ e)
]

OneLine-append : (xs ys : List ℕ) → OneLine xs → OneLine ys → OneLine (xs ++ ys)
OneLine-append [] ys h k = k
OneLine-append (x ∷ xs) ys h k = (h.0, OneLine-append xs ys h.1 k)

pub split-rest-OneLine : (part xs : List ℕ) → OneLine part → OneLine (split part xs).1
split-rest-OneLine part [] h = rw (split-nil part) h
split-rest-OneLine part (x ∷ xs) h = elim (Bool-cases (x == lf)) [
  | inl eol ↦ rw (split-eol part xs x eol) (split-rest-OneLine [] xs tt)
  | inr more ↦ rw (split-more part xs x more) (
      split-rest-OneLine (part ++ x ∷ []) xs
        (OneLine-append part (x ∷ []) h ((λ e. cc ((==_iff x lf).1 e)), tt)))
]

pub lines-OneLine : (xs : List ℕ) → OneLine xs → (lines xs ≡ []) × (partial_line xs ≡ xs)
lines-OneLine xs h =
    let e = split-OneLine [] xs h in
    (ap (λ (r : List (List ℕ) × List ℕ). r.0) e, ap (λ (r : List (List ℕ) × List ℕ). r.1) e)

-- A stream may be cut anywhere: its lines are those of the first part and those of what the first
-- part leaves over with the second part behind it.
pub lines-append :
    (xs ys : List ℕ)
    → (lines (xs ++ ys) ≡ lines xs ++ lines (partial_line xs ++ ys))
      × (partial_line (xs ++ ys) ≡ partial_line (partial_line xs ++ ys))
lines-append xs ys = (
  ap (λ (r : List (List ℕ) × List ℕ). r.0) whole ∙ ap (λ r. lines xs ++ r.0) resumed,
  ap (λ (r : List (List ℕ) × List ℕ). r.1) whole ∙ ap (λ r. r.1) resumed,
)
  where
    begun : List ℕ
    begun = partial_line xs

    begun-OneLine : OneLine begun
    begun-OneLine = split-rest-OneLine [] xs tt

    whole : split [] (xs ++ ys) ≡ (lines xs ++ (split begun ys).0, (split begun ys).1)
    whole = split-append [] xs ys

    resumed : split begun ys ≡ split [] (begun ++ ys)
    resumed = sym (
        split-append [] begun ys
        ∙ ap (λ (r : List (List ℕ) × List ℕ). (r.0 ++ (split r.1 ys).0, (split r.1 ys).1))
            (split-OneLine [] begun begun-OneLine))
