-- ===== src/ServerMulti/Threads/Waiting/Busy.antt =====
-- asio-1.28_server_multi/src/test.cpp, `IOContextPool`: a session that reads and the thread of its context.
use asio_client.Common.{
  ℕ, zero, suc, ◌≡◌, refl, ap, subst, Bool, true, false, Option, none, some, List, [], ◌∷◌, ◌++◌,
  arith,
}
use asio_client.Workers.{
  Worker, starting, running, ended, turn, turn_at, kept, turned, all_ended, has_ended,
}
use asio_client.ServerMulti.Session.{DataHandler, Session, Task}
use asio_client.ServerMulti.Session.Runs
use asio_client.ServerMulti.Session.Reading.{IsReading, Stays, step-IsReading}
use asio_client.ServerMulti.Server.Runs as ServerRuns
use asio_client.ServerMulti.Threads.{is_busy, any_busy}

-- The session of number `k` is one of the context `c`, and reads.
abbrev pub Reads : (k c : ℕ) → List Session → List ℕ → Type 0
Reads k c [] ctxs = ⊥
Reads k c (s ∷ ss) [] = ⊥
Reads zero c (s ∷ ss) (ctx ∷ ctxs) = (ctx ≡ c) × IsReading s
Reads (suc k) c (s ∷ ss) (ctx ∷ ctxs) = Reads k c ss ctxs

-- The thread of number `c` has not ended.
abbrev pub IsUp : (c : ℕ) → List Worker → Type 0
IsUp c [] = ⊥
IsUp zero (w ∷ ws) = has_ended w ≡ false
IsUp (suc c) (w ∷ ws) = IsUp c ws

pub Reads-any_busy :
    (k c : ℕ) (ss : List Session) (ctxs : List ℕ) → Reads k c ss ctxs → any_busy c ss ctxs ≡ true
unfolding any_busy is_busy
Reads-any_busy k c [] ctxs h = elim h [ ]
Reads-any_busy k c (s ∷ ss) [] h = elim h [ ]
Reads-any_busy zero c (s ∷ ss) (ctx ∷ ctxs) h = from s.posted refl
  where
    from : (tasks : List Task) → s.posted ≡ tasks → any_busy c (s ∷ ss) (ctx ∷ ctxs) ≡ true
    from [] p = ground arith
    from (t ∷ ts) p = ground arith
Reads-any_busy (suc k) c (s ∷ ss) (ctx ∷ ctxs) h = ground (arith, Reads-any_busy k c ss ctxs h)

pub Reads-append :
    (k c : ℕ) (ss ts : List Session) (ctxs ds : List ℕ)
    → Reads k c ss ctxs
    → Reads k c (ss ++ ts) (ctxs ++ ds)
Reads-append k c [] ts ctxs ds h = elim h [ ]
Reads-append k c (s ∷ ss) ts [] ds h = elim h [ ]
Reads-append zero c (s ∷ ss) ts (ctx ∷ ctxs) ds h = h
Reads-append (suc k) c (s ∷ ss) ts (ctx ∷ ctxs) ds h = Reads-append k c ss ts ctxs ds h

pub IsUp-all_ended : (c : ℕ) (ws : List Worker) → IsUp c ws → all_ended ws ≡ false
IsUp-all_ended c [] h = elim h [ ]
IsUp-all_ended zero (w ∷ ws) h = ground arith
IsUp-all_ended (suc c) (w ∷ ws) h = ground (arith, IsUp-all_ended c ws h)

-- A thread that has something to do does not end.
pub turn_at-IsUp :
    (n c : ℕ) (busy : Bool) (ws us : List Worker)
    → (n ≡ c → busy ≡ true)
    → IsUp c ws
    → turn_at n busy ws ≡ some us
    → IsUp c us
unfolding turn_at
turn_at-IsUp n c busy [] us b h e = elim h [ ]
turn_at-IsUp zero zero true (starting ∷ ws) us b h e = ground arith
turn_at-IsUp zero zero true (running ∷ ws) us b h e = cc
turn_at-IsUp zero zero true (ended ∷ ws) us b h e = cc
turn_at-IsUp zero zero false (w ∷ ws) us b h e = cc (b refl)
turn_at-IsUp zero (suc c) busy (w ∷ ws) us b h e = from (turn busy w) e
  where
    from : (r : Option Worker) → turned ws r ≡ some us → IsUp (suc c) us
    from none e = cc
    from (some x) e = subst (IsUp (suc c)) {x = x ∷ ws} (cc) h
turn_at-IsUp (suc n) zero busy (w ∷ ws) us b h e = from (turn_at n busy ws) e
  where
    from : (r : Option (List Worker)) → kept w r ≡ some us → IsUp zero us
    from none e = cc
    from (some vs) e = subst (IsUp zero) {x = w ∷ vs} (cc) h
turn_at-IsUp (suc n) (suc c) busy (w ∷ ws) us b h e =
    from (turn_at n busy ws) (λ vs. turn_at-IsUp n c busy ws vs (λ q. b (ap suc q)) h) e
  where
    from :
        (r : Option (List Worker))
        → ((vs : List Worker) → r ≡ some vs → IsUp c vs)
        → kept w r ≡ some us
        → IsUp (suc c) us
    from none rest e = cc
    from (some vs) rest e = subst (IsUp (suc c)) {x = w ∷ vs} (cc) (rest vs refl)

module _ {H : Type 0} (handler : DataHandler H) where
  pub session-Reads :
      (j k c : ℕ) (e : Runs.Event) (ss us : List Session) (ctxs : List ℕ) (h g : H)
      → (j ≡ k → Stays e)
      → Reads k c ss ctxs
      → ServerRuns.step_session handler j e ss h ≡ some (us, g)
      → Reads k c us ctxs
  unfolding ServerRuns.step_session
  session-Reads j k c e [] us ctxs h g stays r q = elim r [ ]
  session-Reads j k c e (s ∷ ss) us [] h g stays r q = elim r [ ]
  session-Reads zero zero c e (s ∷ ss) us (ctx ∷ ctxs) h g stays r q =
      from (Runs.step handler e s h) (λ t l. step-IsReading handler e s t h l (stays refl) r.1) q
    where
      from :
          (o : Option (Session × H))
          → ((t : Session) (l : H) → o ≡ some (t, l) → IsReading t)
          → ServerRuns.replaced handler ss o ≡ some (us, g)
          → Reads zero c us (ctx ∷ ctxs)
      from none rest q = cc
      from (some (t, l)) rest q =
          subst (λ vs. Reads zero c vs (ctx ∷ ctxs)) {x = t ∷ ss} (ground arith)
            (r.0, rest t l refl)
  session-Reads zero (suc k) c e (s ∷ ss) us (ctx ∷ ctxs) h g stays r q =
      from (Runs.step handler e s h) q
    where
      from :
          (o : Option (Session × H))
          → ServerRuns.replaced handler ss o ≡ some (us, g)
          → Reads (suc k) c us (ctx ∷ ctxs)
      from none q = cc
      from (some (t, l)) q =
          subst (λ vs. Reads (suc k) c vs (ctx ∷ ctxs)) {x = t ∷ ss} (ground arith) r
  session-Reads (suc j) zero c e (s ∷ ss) us (ctx ∷ ctxs) h g stays r q =
      from (ServerRuns.step_session handler j e ss h) q
    where
      from :
          (o : Option (List Session × H))
          → ServerRuns.kept handler s o ≡ some (us, g)
          → Reads zero c us (ctx ∷ ctxs)
      from none q = cc
      from (some (vs, l)) q =
          subst (λ vs. Reads zero c vs (ctx ∷ ctxs)) {x = s ∷ vs} (ground arith) r
  session-Reads (suc j) (suc k) c e (s ∷ ss) us (ctx ∷ ctxs) h g stays r q =
      from (ServerRuns.step_session handler j e ss h)
        (λ vs l. session-Reads j k c e ss vs ctxs h l (λ p. stays (ap suc p)) r) q
    where
      from :
          (o : Option (List Session × H))
          → ((vs : List Session) (l : H) → o ≡ some (vs, l) → Reads k c vs ctxs)
          → ServerRuns.kept handler s o ≡ some (us, g)
          → Reads (suc k) c us (ctx ∷ ctxs)
      from none rest q = cc
      from (some (vs, l)) rest q =
          subst (λ vs. Reads (suc k) c vs (ctx ∷ ctxs)) {x = s ∷ vs} (ground arith) (rest vs l refl)
