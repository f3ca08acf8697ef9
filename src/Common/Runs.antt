-- ===== src/Common/Runs.antt =====
-- Sequences of events of an object, each of which is a step from state to state or, where it gives
-- `none`, has undefined behaviour or cannot be made.
use mathlib.Core.Path.{◌≡◌, refl, subst}
use mathlib.Core.Option.{Option, none, some}
use mathlib.Core.List.{List, [], ◌∷◌}
use asio_client.Common.Tests.{◌>>=◌}

abbrev pub All {ℓ κ} : {E : Type ℓ} → (E → Type κ) → List E → Type κ
All P [] = Unit
All P (e ∷ es) = P e × All P es

-- The state after an event that may fail to be defined.
abbrev pub after {ℓ} : {S : Type ℓ} → Option S → S → S
after none s = s
after (some t) s = t

module _ {ℓ κ} {E : Type ℓ} {S : Type κ} (step : E → S → Option S) where
  abbrev pub runs : List E → S → Option S
  runs [] s = some s
  runs (e ∷ es) s = step e s >>= runs es

  -- What a run that has got somewhere has passed.
  pub runs_next :
      (e : E) (es : List E) (s u : S)
      → runs (e ∷ es) s ≡ some u
      → (t : S) × (step e s ≡ some t) × (runs es t ≡ some u)
  runs_next e es s u h = from (step e s) refl h
    where
      from :
          (r : Option S)
          → step e s ≡ r
          → (r >>= runs es) ≡ some u
          → (t : S) × (step e s ≡ some t) × (runs es t ≡ some u)
      from none e h = cc
      from (some t) e h = (t, e, h)

  -- What each of the events keeps, a run keeps.
  pub runs-keeps {μ ν} :
      {Q : E → Type μ} (P : S → Type ν)
      → ((e : E) (s t : S) → Q e → P s → step e s ≡ some t → P t)
      → (es : List E) (s u : S) → All Q es
      → P s
      → runs es s ≡ some u
      → P u
  runs-keeps P keeps [] s u q p h = subst P (cc) p
  runs-keeps P keeps (e ∷ es) s u q p h =
      let (t, one, rest) = runs_next e es s u h in
      runs-keeps P keeps es t u q.1 (keeps e s t q.0 p one) rest

  pub runs-keeps_any {ν} :
      (P : S → Type ν)
      → ((e : E) (s t : S) → P s → step e s ≡ some t → P t)
      → (es : List E) (s u : S) → P s
      → runs es s ≡ some u
      → P u
  runs-keeps_any P keeps [] s u p h = subst P (cc) p
  runs-keeps_any P keeps (e ∷ es) s u p h =
      let (t, one, rest) = runs_next e es s u h in
      runs-keeps_any P keeps es t u (keeps e s t p one) rest
