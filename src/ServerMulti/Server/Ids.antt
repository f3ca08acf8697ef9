-- ===== src/ServerMulti/Server/Ids.antt =====
-- asio-1.28_server_multi/src/test.cpp, `SessionIdGenerator` and `Server`: the ids of the sessions.
use asio_client.Common.{
  All, runs_next, ℕ, zero, suc, ◌+◌, ◌^◌, ◌<◌, ◌≤◌, ◌≡◌, ◌≢◌, refl, sym, ap, subst, ◌∙◌, Bool, true,
  false, Option, none, some, List, [], ◌∷◌, ◌++◌, length, length-append, drop, arith, if◌then◌else◌,
  ◌>>=◌, value_until, value_until-to_string, to_string,
}
use asio_client.ServerMulti.Pool.{IoContextPool, get_next_io_context}
use asio_client.ServerMulti.Session.{DataHandler, Session}
use asio_client.ServerMulti.Session
use asio_client.ServerMulti.Session.Ids.{step-session_id}
use asio_client.ServerMulti.Session.Runs
use asio_client.ServerMulti.Server.{
  Server, handle_accept, accept_again, stop, serve, do_accept, session_id,
}
use asio_client.ServerMulti.Server.Kept.{on_session_lem}
use asio_client.ServerMulti.Server.Runs.{
  Event, accepts, fails_to_accept, calls_stop, on_session, can_accept, step_session, kept, replaced,
  updated, step, run,
}

session_id-injective : (m n s t : ℕ) → session_id m s ≡ session_id n t → m ≡ n
unfolding session_id
session_id-injective m n s t e =
    sym (value_until-to_string m (to_string s))
    ∙ ap (λ id. value_until 0 (drop 5 id)) e
    ∙ value_until-to_string n (to_string t)

-- The sessions have the ids of the numbers from `n` on.
abbrev pub Numbered : ℕ → List Session → Type 0
Numbered n [] = Unit {0}
Numbered n (s ∷ ss) = ((time : ℕ) × (s.session_id ≡ session_id n time)) × Numbered (n + 1) ss

-- No two have the same id.
abbrev pub AreDistinct : List Session → Type 0
AreDistinct [] = Unit {0}
AreDistinct (s ∷ ss) = All (λ t. s.session_id ≢ t.session_id) ss × AreDistinct ss

Numbered-others :
    (m n time : ℕ) (s : Session) (ss : List Session)
    → m < n
    → s.session_id ≡ session_id m time
    → Numbered n ss
    → All (λ t. s.session_id ≢ t.session_id) ss
Numbered-others m n time s [] less e h = tt
Numbered-others m n time s (t ∷ ss) less e ((later, f), h) = (
  λ same. let eq = session_id-injective m n time later (sym e ∙ same ∙ f) in omega (arith, eq),
  Numbered-others m (n + 1) time s ss (omega arith) e h,
)

Numbered-AreDistinct : (n : ℕ) (ss : List Session) → Numbered n ss → AreDistinct ss
Numbered-AreDistinct n [] h = tt
Numbered-AreDistinct n (s ∷ ss) ((time, e), h) =
    (Numbered-others n (n + 1) time s ss (omega arith) e h, Numbered-AreDistinct (n + 1) ss h)

Numbered-append :
    (n m time : ℕ) (ss : List Session) (s : Session)
    → Numbered n ss
    → m ≡ n + length ss
    → s.session_id ≡ session_id m time
    → Numbered n (ss ++ s ∷ [])
Numbered-append n m time [] s h count e =
    ((time, e ∙ ap (λ k. session_id k time) (omega arith)), tt)
Numbered-append n m time (t ∷ ss) s (first, h) count e =
    (first, Numbered-append (n + 1) m time ss s h (omega arith) e)

module _ {H : Type 0} (handler : DataHandler H) where
  Numbered-step_session :
      (n k : ℕ) (e : Runs.Event) (ss us : List Session) (h j : H)
      → Numbered n ss
      → step_session handler k e ss h ≡ some (us, j)
      → Numbered n us × (length us ≡ length ss)
  unfolding step_session
  Numbered-step_session n k e [] us h j d q = ground arith
  Numbered-step_session n zero e (s ∷ ss) us h j d q =
      from (Runs.step handler e s h) (λ t i. step-session_id handler e s t h i) q
    where
      from :
          (r : Option (Session × H))
          → ((t : Session) (i : H) → r ≡ some (t, i) → t.session_id ≡ s.session_id)
          → replaced handler ss r ≡ some (us, j)
          → Numbered n us × (length us ≡ length (s ∷ ss))
      from none same q = cc
      from (some (t, i)) same q =
          let e : us ≡ t ∷ ss = ground arith in rw e (((d.0.0, same t i refl ∙ d.0.1), d.1), refl)
  Numbered-step_session n (suc k) e (s ∷ ss) us h j d q =
      from (step_session handler k e ss h) (λ ts i. Numbered-step_session (n + 1) k e ss ts h i d.1)
        q
    where
      from :
          (r : Option (List Session × H))
          → ((ts : List Session) (i : H)
              → r ≡ some (ts, i)
              → Numbered (n + 1) ts × (length ts ≡ length ss))
          → kept handler s r ≡ some (us, j)
          → Numbered n us × (length us ≡ length (s ∷ ss))
      from none same q = cc
      from (some (ts, i)) same q =
          let e : us ≡ s ∷ ts = ground arith in
          let (numbered, count) = same ts i refl in
          rw e ((d.0, numbered), ap (λ (m : ℕ). suc m) count)

-- The sessions have the ids of the numbers from `n` to the one before the counter's.
module _ {H : Type 0} where
  pub record IsNumbered (n : ℕ) (v : Server H) : Type 0 where
    pub ids : Numbered n v.sessions
    pub next : v.counter ≡ n + length v.sessions

  abbrev Same : Server H → Server H → Type 0
  Same v u = (u.sessions ≡ v.sessions) × (u.counter ≡ v.counter)

  Same-IsNumbered : (n : ℕ) (v u : Server H) → IsNumbered n v → Same v u → IsNumbered n u
  Same-IsNumbered n v u h same = record {
    ids = rw (same.0) h.ids;
    next = rw (same.0, same.1) h.next;
  }

-- The connections among some events.
abbrev pub connections : List Event → ℕ
connections [] = 0
connections (accepts time ∷ es) = connections es + 1
connections (fails_to_accept ∷ es) = connections es
connections (calls_stop ∷ es) = connections es
connections (on_session k e ∷ es) = connections es

connections-cons :
    (e : Event) (es : List Event) → connections (e ∷ es) ≡ connections (e ∷ []) + connections es
connections-cons (accepts time) es = omega arith
connections-cons fails_to_accept es = omega arith
connections-cons calls_stop es = omega arith
connections-cons (on_session k e) es = omega arith

module _ {H : Type 0} (handler : DataHandler H) where
  serve-IsNumbered :
      (n time : ℕ) (next : ℕ × IoContextPool) (v : Server H)
      → v.counter + 1 < 2 ^ 64
      → IsNumbered n v
      → IsNumbered n (serve handler time next v)
  unfolding serve Session.start Session.init
  serve-IsNumbered n time next v small h = record {
    ids = Numbered-append n v.counter time v.sessions session h.ids h.next refl;
    next = let longer = length-append v.sessions (session ∷ []) in omega (arith, longer, h.next);
  }
    where
      session : Session
      session = (Session.start handler (Session.init (session_id v.counter time)) v.handler).0

  accept_again-Same : (v : Server H) → Same v (accept_again v)
  unfolding accept_again do_accept
  accept_again-Same v = ground arith

  -- What a step leaves, which makes at most so many connections.
  abbrev Goes : ℕ → ℕ → Server H → Server H → Type 0
  Goes n more v u = IsNumbered n u × (u.counter ≤ v.counter + more)

  stays : (n : ℕ) (v u : Server H) → IsNumbered n v → Same v u → Goes n 0 v u
  stays n v u h same = (Same-IsNumbered n v u h same, omega (arith, same.1))

  accepts-Goes :
      (n time : ℕ) (v u : Server H)
      → v.counter + 1 < 2 ^ 64
      → IsNumbered n v
      → step handler (accepts time) v ≡ some u
      → Goes n 1 v u
  unfolding step handle_accept serve
  accepts-Goes n time v u small h e = from (can_accept v) e
    where
      w : Server H
      w = record v { accepting = false }

      served :
          (r : Option (ℕ × IoContextPool))
          → (r >>= λ next. some (accept_again (serve handler time next w))) ≡ some u
          → Goes n 1 v u
      served none e = cc
      served (some next) e =
          let there = serve-IsNumbered n time next w small (Same-IsNumbered n v w h (refl, refl)) in
          let same = accept_again-Same (serve handler time next w) in
          let (numbered, count) =
            stays n (serve handler time next w) (accept_again (serve handler time next w)) there
              same in
          let eq : accept_again (serve handler time next w) ≡ u = ground arith in
          subst (Goes n 1 v) eq (numbered, omega (arith, same.1))

      from :
          (b : Bool) → (if b then handle_accept handler time w else some v) ≡ some u → Goes n 1 v u
      from true e = served (get_next_io_context v.pool) e
      from false e = let eq : v ≡ u = ground arith in subst (Goes n 1 v) eq (h, omega arith)

  on_session-counter :
      (k : ℕ) (e : Runs.Event) (v u : Server H)
      → step handler (on_session k e) v ≡ some u
      → u.counter ≡ v.counter
  unfolding step
  on_session-counter k e v u q = from (step_session handler k e v.sessions v.handler) q
    where
      from : (r : Option (List Session × H)) → updated handler v r ≡ some u → u.counter ≡ v.counter
      from none q = cc
      from (some (ss, h)) q = ground arith

  step-Goes :
      (n : ℕ) (e : Event) (v u : Server H)
      → v.counter + connections (e ∷ []) < 2 ^ 64
      → IsNumbered n v
      → step handler e v ≡ some u
      → Goes n (connections (e ∷ [])) v u
  unfolding step stop
  step-Goes n (accepts time) v u small h e = accepts-Goes n time v u small h e
  step-Goes n fails_to_accept v u small h e =
      stays n v u h (ground (arith, accept_again-Same (record v { accepting = false })))
  step-Goes n calls_stop v u small h e = stays n v u h (ground arith)
  step-Goes n (on_session k event) v u small h e =
      let (numbered, count) =
        Numbered-step_session handler n k event v.sessions u.sessions v.handler u.handler h.ids
          (on_session_lem handler k event v u e).1 in
      let same = on_session-counter k event v u e in
      (record { ids = numbered; next = omega (arith, same, count, h.next) }, omega (arith, same))

  -- No two sessions of a server have the same id: after any events of a server whose sessions have the
  -- ids of the numbers from `n` to the one before the counter's, such as one that has none, and at
  -- any times, this is so again, and they are all different, as long as the counter and the connections
  -- together stay below 2 ^ 64.
  pub run-AreDistinct :
      (n : ℕ) (es : List Event) (v u : Server H)
      → v.counter + connections es < 2 ^ 64
      → IsNumbered n v
      → run handler es v ≡ some u
      → IsNumbered n u × AreDistinct u.sessions
  unfolding run
  run-AreDistinct n [] v u small h e =
      let same : v ≡ u = cc in
      subst (λ w. IsNumbered n w × AreDistinct w.sessions) same
        (h, Numbered-AreDistinct n v.sessions h.ids)
  run-AreDistinct n (event ∷ es) v u small h e =
      let (t, one, rest) = runs_next (step handler) event es v u e in
      let (numbered, count) =
        step-Goes n event v t (omega (arith, connections-cons event es)) h one in
      run-AreDistinct n es t u (omega (arith, connections-cons event es, count)) numbered rest
