-- ===== src/Protocol/Outcome.antt =====
-- asio-1.28_server_multi_protocol/src/test.cpp: what the protocol handlers have in common in how they
-- treat the session and the received bytes.
use asio_client.Common.{
  ℕ, ◌≤◌, ◌<◌, ◌^◌, ◌≡◌, sym, subst, refl, Bool, true, false, if◌then◌else◌, Option, some, none,
  List, [], ◌∷◌, length, ltb, arith, slice, add_u32, ◌>>=◌,
}
use asio_client.Protocol.Handler.{ProtocolHandler, line, fixed_length, binary, process_data}
use asio_client.Protocol.Line.Split.{lines}
use asio_client.Protocol.Line.Loop.{feed, process_data_lem}
use asio_client.Protocol.FixedLength
use asio_client.Protocol.Binary
use asio_client.Protocol.Binary.{payload_length}

abbrev pub Outcome {ℓ κ} : {S : Type ℓ} → (S → Type κ) → ℕ → Option (ℕ × S) → Type κ
Outcome P m none = Unit
Outcome P m (some (n, s)) = (n ≤ m) × P s

module _ {ℓ κ} {S : Type ℓ} (P : S → Type κ) (process : List ℕ → S → S)
    (keep : (frame : List ℕ) (s : S) → P s → P (process frame s)) where
  feed-keeps : (ls : List (List ℕ)) (s : S) → P s → P (feed process ls s)
  feed-keeps [] s p = p
  feed-keeps (l ∷ ls) s p = feed-keeps ls (process l s) (keep l s p)

  if-Outcome :
      (m : ℕ) (test : Bool) (a b : Option (ℕ × S))
      → (test ≡ true → Outcome P m a)
      → (test ≡ false → Outcome P m b)
      → Outcome P m (if test then a else b)
  if-Outcome m true a b yes_a no_b = yes_a refl
  if-Outcome m false a b yes_a no_b = no_b refl

  frame-Outcome :
      (m n : ℕ) (frame : Option (List ℕ)) (s : S)
      → n ≤ m
      → P s
      → Outcome P m (frame >>= λ l. some (n, process l s))
  frame-Outcome m n none s h p = tt
  frame-Outcome m n (some l) s h p = (h, keep l s p)

  -- If the handler succeeds, it consumed bytes that were received, and what `process` keeps holds.
  pub process_data-Outcome :
      (handler : ProtocolHandler) (bytes : List ℕ) (s : S)
      → length bytes < 2 ^ 64
      → P s
      → Outcome P (length bytes) (process_data handler process bytes s)
  unfolding process_data FixedLength.process_data Binary.process_data
  process_data-Outcome line bytes s small p =
      subst (Outcome P (length bytes)) (sym (process_data_lem process bytes small s))
        (omega arith, feed-keeps (lines bytes) s p)
  process_data-Outcome (fixed_length n) bytes s small p =
      if-Outcome (length bytes) (ltb (length bytes) n) _ _ (λ _. (omega arith, p))
        (λ e. frame-Outcome (length bytes) n (slice bytes 0 n) s (ground arith) p)
  process_data-Outcome binary bytes s small p =
      if-Outcome (length bytes) (ltb (length bytes) 4) _ _ (λ _. (omega arith, p))
        (λ _. announced (payload_length bytes))
    where
      announced :
          (r : Option ℕ)
          → Outcome P (length bytes) (
              r >>= λ n.
              if ltb (length bytes) (add_u32 4 n)
              then some (0, s)
              else (slice bytes 4 n >>= λ payload. some (add_u32 4 n, process payload s)))
      announced none = tt
      announced (some n) =
          if-Outcome (length bytes) (ltb (length bytes) (add_u32 4 n)) _ _ (λ _. (omega arith, p))
            (λ e. frame-Outcome (length bytes) (add_u32 4 n) (slice bytes 4 n) s (ground arith) p)
