-- ===== src/EchoServer/Echoed.antt =====
-- asio-1.28_server_single/src/test.cpp, `Session`: the bytes that a client gets back.
use asio_client.Common.{
  All, ℕ, ◌+◌, ◌-◌, ◌≤◌, ◌<◌, ◌≡◌, refl, sym, ap, ap₂, ◌∙◌, Bool, true, false, Option, some, List,
  [], ◌∷◌, ◌++◌, length, ltb, leb, ◌==◌, arith, if◌then◌else◌, ◌>>=◌, slice, take, drop, take-add,
  drop-drop, take-drop-overwrite, length-overwrite, copy_in_lem, slice_lem, overwrite, append_assoc,
  append-nil,
}
use asio_client.EchoServer.{
  Write, Session, Event, receives, fails_to_read, transfers, completes, fails_to_write, do_read,
  do_write, handle_read, handle_write, transfer, complete, can_read, step, run,
}

-- The bytes that were received and not sent back yet.
abbrev pub unsent : List Write → Session → List ℕ
unsent [] s = []
unsent (w ∷ ws) s = take (w.count - w.done) (drop w.done s.bytes)

-- Either a read may be outstanding or just one write, within `data_`.
abbrev pub IsTaking : List Write → Session → Type 0
IsTaking [] s = s.pending_reads ≤ 1
IsTaking (w ∷ []) s = (s.pending_reads ≡ 0) × (w.count ≤ length s.bytes) × (w.done ≤ w.count)
IsTaking (w ∷ v ∷ ws) s = ⊥

abbrev pub IsEcho : Session → Type 0
IsEcho s = IsTaking s.pending_writes s × (s.wire ++ unsent s.pending_writes s ≡ s.received)

abbrev pub Succeeds : Event → Type 0
Succeeds (receives received) = Unit {0}
Succeeds fails_to_read = Unit {0}
Succeeds (transfers n) = Unit {0}
Succeeds completes = Unit {0}
Succeeds fails_to_write = ⊥

take_both :
    (d n m : ℕ) (xs : List ℕ)
    → take n (drop d xs) ++ take m (drop (d + n) xs) ≡ take (n + m) (drop d xs)
take_both d n m xs =
    sym (take-add n m (drop d xs) ∙ ap (λ ys. take n (drop d xs) ++ take m ys) (drop-drop d n xs))

abbrev Next : Option Session → Type 0
Next r = (t : Session) × (r ≡ some t) × IsEcho t

receives-Next :
    (new : List ℕ) (ws : List Write) (s : Session)
    → s.pending_writes ≡ ws
    → IsTaking ws s
    → s.wire ++ unsent ws s ≡ s.received
    → 0 < s.pending_reads
    → length new ≤ length s.bytes
    → Next (handle_read new (record s { pending_reads = s.pending_reads - 1 }))
unfolding handle_read do_write
receives-Next new [] s p taking flow can fits = (
  record s {
    pending_reads = s.pending_reads - 1;
    bytes = overwrite s.bytes 0 new;
    received = s.received ++ new;
    pending_writes = w ∷ [];
  },
  rw (copy_in_lem s.bytes 0 new (omega (arith, fits)), p) refl,
  (
    (
      omega (arith, taking),
      omega (arith, fits, length-overwrite s.bytes 0 new (omega (arith, fits))),
      omega arith,
    ),
    ap₂ (λ a b. a ++ b) (sym (append-nil s.wire) ∙ flow)
        (ap (λ k. take k (overwrite s.bytes 0 new)) {y = length new} (omega arith)
          ∙ take-drop-overwrite s.bytes 0 new (omega arith)),
  ),
)
  where
    w : Write
    w = record { count = length new; done = 0 }
receives-Next new (w ∷ []) s p taking flow can fits = elim (busy_not_idle taking.0) [ ]
  where
    busy_not_idle : s.pending_reads ≡ 0 → ⊥
    busy_not_idle idle = omega (arith, idle, can)
receives-Next new (w ∷ v ∷ ws) s p taking flow can fits = elim taking [ ]

transfers-Next :
    (n : ℕ) (ws : List Write) (s : Session)
    → s.pending_writes ≡ ws
    → IsTaking ws s
    → s.wire ++ unsent ws s ≡ s.received
    → IsEcho s
    → Next (transfer n ws s)
unfolding transfer
transfers-Next n [] s p taking flow h = (s, refl, h)
transfers-Next n (w ∷ []) s p (idle, inside, order) flow h = from (leb (w.done + n) w.count) refl
  where
    t : Session
    t = record s {
      pending_writes = record w { done = w.done + n } ∷ [];
      wire = s.wire ++ take n (drop w.done s.bytes);
    }

    from :
        (b : Bool)
        → leb (w.done + n) w.count ≡ b
        → Next (
            if b
            then (slice s.bytes w.done n >>= λ sent. some (record s {
              pending_writes = record w { done = w.done + n } ∷ [];
              wire = s.wire ++ sent;
            }))
            else some s)
    from true e =
        let within : w.done + n ≤ w.count = ground (arith, e) in
        (
          t,
          rw (slice_lem s.bytes w.done n (omega (arith, within, inside))) refl,
          (
            (idle, inside, within),
            append_assoc s.wire (take n (drop w.done s.bytes))
                  (take (w.count - (w.done + n)) (drop (w.done + n) s.bytes))
                ∙ ap (λ bs. s.wire ++ bs)
                    (take_both w.done n (w.count - (w.done + n)) s.bytes
                      ∙ ap (λ k. take k (drop w.done s.bytes)) (omega (arith, within)))
                ∙ flow,
          ),
        )
    from false e = (s, refl, h)
transfers-Next n (w ∷ v ∷ ws) s p taking flow h = elim taking [ ]

completes-IsEcho :
    (ws : List Write) (s : Session)
    → s.pending_writes ≡ ws
    → IsTaking ws s
    → s.wire ++ unsent ws s ≡ s.received
    → IsEcho s
    → IsEcho (complete ws s)
unfolding complete handle_write do_read
completes-IsEcho [] s p taking flow h = h
completes-IsEcho (w ∷ []) s p (idle, inside, order) flow h = from (w.done == w.count) refl
  where
    from :
        (b : Bool)
        → (w.done == w.count) ≡ b
        → IsEcho (if b then handle_write (record s { pending_writes = [] }) else s)
    from true e =
        let all : w.count - w.done ≡ 0 = ground (arith, e) in
        (omega (arith, idle), ap (λ k. s.wire ++ take k (drop w.done s.bytes)) (sym all) ∙ flow)
    from false e = h
completes-IsEcho (w ∷ v ∷ ws) s p taking flow h = elim taking [ ]

fails_to_read-IsEcho :
    (ws : List Write) (s : Session)
    → s.pending_writes ≡ ws
    → IsTaking ws s
    → IsEcho s
    → 0 < s.pending_reads
    → IsEcho (record s { pending_reads = s.pending_reads - 1 })
fails_to_read-IsEcho [] s p taking h can = ground arith
fails_to_read-IsEcho (w ∷ []) s p taking h can = ground arith
fails_to_read-IsEcho (w ∷ v ∷ ws) s p taking h can = elim taking [ ]

step-Next : (e : Event) (s : Session) → Succeeds e → IsEcho s → Next (step e s)
unfolding step
step-Next (receives new) s g h = from (can_read new s) refl
  where
    from :
        (b : Bool)
        → can_read new s ≡ b
        → Next (
            if b
            then handle_read new (record s { pending_reads = s.pending_reads - 1 })
            else some s)
    from true e =
        receives-Next new s.pending_writes s refl h.0 h.1 (ground (arith, e)) (ground (arith, e))
    from false e = (s, refl, h)
step-Next fails_to_read s g h = from (ltb 0 s.pending_reads) refl
  where
    from :
        (b : Bool)
        → ltb 0 s.pending_reads ≡ b
        → Next (some (if b then record s { pending_reads = s.pending_reads - 1 } else s))
    from true e = (
      record s { pending_reads = s.pending_reads - 1 },
      refl,
      fails_to_read-IsEcho s.pending_writes s refl h.0 h (ground (arith, e)),
    )
    from false e = (s, refl, h)
step-Next (transfers n) s g h = transfers-Next n s.pending_writes s refl h.0 h.1 h
step-Next completes s g h =
    (complete s.pending_writes s, refl, completes-IsEcho s.pending_writes s refl h.0 h.1 h)
step-Next fails_to_write s g h = elim g [ ]

-- The echo: as long as no write fails, any sequence of events of a session that has either a read or
-- one write under way runs through with no undefined behaviour, and leaves this so; and the bytes that
-- the client was sent, then those of the write that are not sent, are those received, in their order.
pub run-IsEcho :
    (es : List Event) (s : Session)
    → All Succeeds es
    → IsEcho s
    → (u : Session) × (run es s ≡ some u) × IsEcho u
unfolding run
run-IsEcho [] s g h = (s, refl, h)
run-IsEcho (event ∷ es) s g h =
    let (t, e, echo) = step-Next event s g.0 h in
    let (u, ran, echo') = run-IsEcho es t g.1 echo in (u, rw e ran, echo')
