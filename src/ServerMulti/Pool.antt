-- ===== src/ServerMulti/Pool.antt =====
-- asio-1.28_server_multi/src/test.cpp, `IOContextPool`: the `io_context`s are numbered in the order in
-- which the constructor makes them. `none` is undefined behaviour.
use native.Mathlib.Nat.{mod-eq_of_lt, mod_self, mod-lt, mod-add-mod}
use asio_client.Common.{
  ℕ, zero, suc, ◌+◌, ◌-◌, ◌++◌, ◌%◌, ◌^◌, ◌<◌, ◌≡◌, Option, some, none, List, [], ◌∷◌, ltb,
  if◌then◌else◌, ◌>>=◌, arith, lt→ltb, refl, ap, add_size, ◌∙◌,
}

pub record IoContextPool : Type 0 where
  pub size : ℕ
  pub next_index : ℕ

pub init : ℕ → IoContextPool
init pool_size = record { size = pool_size; next_index = 0 }

-- The size that `Server` asks for; `hardware_concurrency` is 0 where it is not known.
pub pool_size : (thread_pool_size hardware_concurrency : ℕ) → ℕ
pool_size thread_pool_size hardware_concurrency =
    if ltb 0 thread_pool_size
    then thread_pool_size
    else if ltb 1 hardware_concurrency
    then hardware_concurrency
    else 1

unfoldable pub get_next_io_context : IoContextPool → Option (ℕ × IoContextPool)
get_next_io_context p =
    if ltb p.next_index p.size
    then some (p.next_index, record p { next_index = add_size p.next_index 1 % p.size })
    else none

-- The contexts that so many new connections get.
pub next_io_contexts : ℕ → IoContextPool → Option (List ℕ × IoContextPool)
unfolding get_next_io_context
next_io_contexts zero p = some ([], p)
next_io_contexts (suc n) p = do
  (ctx, p') ← get_next_io_context p
  (ctxs, p'') ← next_io_contexts n p'
  some (ctx ∷ ctxs, p'')

-- `from`, `from + 1` and so on.
abbrev pub range : (from n : ℕ) → List ℕ
range from zero = []
range from (suc n) = from ∷ range (from + 1) n

-- Before the last context the index just grows.
ascend :
    (n : ℕ) (p : IoContextPool)
    → p.size < 2 ^ 64
    → p.next_index + n < p.size
    → next_io_contexts n p ≡ some (range p.next_index n, record p { next_index = p.next_index + n })
unfolding next_io_contexts get_next_io_context
ascend zero p small h = ap (λ (k : ℕ). some ([], record p { next_index = k })) (omega arith)
ascend (suc n) p small h =
    rw
      (
        lt→ltb p.next_index p.size (omega arith),
        mod-eq_of_lt {n = p.next_index + 1} {m = 2 ^ 64} (omega arith),
        mod-eq_of_lt {n = p.next_index + 1} {m = p.size} (omega arith),
        ascend n (record p { next_index = p.next_index + 1 }) small (omega arith),
      )
      (ap (λ (k : ℕ). some (p.next_index ∷ range (p.next_index + 1) n, record p { next_index = k }))
        (omega arith))

-- Behind the last context it starts again.
to_end :
    (n m : ℕ) (p r : IoContextPool) (ys : List ℕ)
    → p.size < 2 ^ 64
    → p.next_index + suc n ≡ p.size
    → next_io_contexts m (record p { next_index = 0 }) ≡ some (ys, r)
    → next_io_contexts (suc (n + m)) p ≡ some (range p.next_index (suc n) ++ ys, r)
unfolding next_io_contexts get_next_io_context
to_end zero m p r ys small h e =
    rw
      (
        lt→ltb p.next_index p.size (omega arith),
        mod-eq_of_lt {n = p.next_index + 1} {m = 2 ^ 64} (omega arith),
        h,
        mod_self p.size,
        none_before,
        e,
      )
      refl
  where
    none_before : 0 + m ≡ m
    none_before = omega arith
to_end (suc n) m p r ys small h e =
    rw
      (
        lt→ltb p.next_index p.size (omega arith),
        mod-eq_of_lt {n = p.next_index + 1} {m = 2 ^ 64} (omega arith),
        mod-eq_of_lt {n = p.next_index + 1} {m = p.size} (omega arith),
        one_more,
        to_end n m (record p { next_index = p.next_index + 1 }) r ys small (omega arith) e,
      )
      refl
  where
    one_more : suc n + m ≡ suc (n + m)
    one_more = omega arith

-- As many connections as there are contexts, from whatever index in their range, get every context
-- exactly once, in order and starting again behind the last one, and leave the pool as it was, if
-- there are less than 2 ^ 64 contexts.
pub next_io_contexts_lem :
    (p : IoContextPool)
    → p.size < 2 ^ 64
    → p.next_index < p.size
    → next_io_contexts p.size p
      ≡ some (range p.next_index (p.size - p.next_index) ++ range 0 p.next_index, p)
next_io_contexts_lem p small h =
    ap (λ n. next_io_contexts n p) (omega arith)
    ∙ to_end left p.next_index p p (range 0 p.next_index) small (omega arith) from_start
    ∙ ap (λ n. some (range p.next_index n ++ range 0 p.next_index, p)) {x = suc left} (omega arith)
  where
    left : ℕ
    left = p.size - p.next_index - 1

    from_start :
        next_io_contexts p.next_index (record p { next_index = 0 }) ≡ some (range 0 p.next_index, p)
    from_start =
        ascend p.next_index (record p { next_index = 0 }) small (omega arith)
        ∙ ap (λ (k : ℕ). some (range 0 p.next_index, record p { next_index = k })) (omega arith)

-- The next context, where the index is that of the `n`-th connection.
pub get_next_io_context_lem :
    (p : IoContextPool) (n : ℕ)
    → 0 < p.size
    → p.size < 2 ^ 64
    → p.next_index ≡ n % p.size
    → get_next_io_context p ≡ some (n % p.size, record p { next_index = (n + 1) % p.size })
unfolding get_next_io_context
get_next_io_context_lem p n some_context small next =
    let inside : n % p.size < p.size = mod-lt n some_context in
    rw
      (
        next,
        lt→ltb (n % p.size) p.size inside,
        mod-eq_of_lt {n = n % p.size + 1} {m = 2 ^ 64} (omega (arith, inside)),
        mod-add-mod n p.size 1,
      )
      refl
