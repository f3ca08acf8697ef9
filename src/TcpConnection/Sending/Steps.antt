-- ===== src/TcpConnection/Sending/Steps.antt =====
-- What each event does to the bytes that a `TcpConnection` was given to send.
use asio_client.Common.{
  ℕ, ◌+◌, ◌-◌, ◌≡◌, refl, sym, ap, ◌∙◌, inl, inr, Bool, true, some, List, [], ◌∷◌, ◌++◌, ltb, arith,
  append-nil, append_assoc, Bool-cases,
}
use asio_client.Buffer.{ConnectionBuffer}
use asio_client.Buffer.Valid.{IsValid}
use asio_client.Buffer.Indices.{adjust_internal-Holds}
use asio_client.Buffer.Fifo.{receive-Holds}
use asio_client.TcpConnection.{
  TcpConnection, Task, start_receive, send_message, force_close, set_conn_state, run_task,
  handle_receive, handle_receive_error, close_in_service,
}
use asio_client.TcpConnection.Runs.{
  Event, calls_start_receive, calls_send, calls_close, connects, runs_task, receives,
  fails_to_receive, transfers, completes, fails_to_send, run_posted, step,
}
use asio_client.TcpConnection.Sending.Bytes.{
  unsent, queued, taken, accepted, IsSound, IsSafeTask, IsSafe, queued-append,
}
use asio_client.TcpConnection.Sending.Takes.{send_in_service_lem, transfer-Takes, complete-Takes}

-- What an event leaves, and all the bytes that the connection has taken.
abbrev pub IsNext : Event → TcpConnection → TcpConnection → Type 0
IsNext e c u = IsSound u × (taken u ≡ taken c ++ accepted e)

close_in_service_lem :
    (c : TcpConnection)
    → IsSound c
    → IsSound (close_in_service c) × (taken (close_in_service c) ≡ taken c)
unfolding close_in_service
close_in_service_lem c h = elim (Bool-cases c.has_close_callback) [
  | inl given ↦ rw given (
    record { outbound = h.outbound; inbound = h.inbound; points = h.points; marked = h.marked },
    refl,
  )
  | inr missing ↦ rw missing (
    record { outbound = h.outbound; inbound = h.inbound; points = h.points; marked = h.marked },
    refl,
  )
]

runs_task-IsNext :
    (c : TcpConnection) (tasks : List Task)
    → c.posted ≡ tasks
    → IsSound c
    → IsSafeTask tasks c
    → (u : TcpConnection) × (run_posted tasks c ≡ some u) × IsNext runs_task c u
unfolding run_posted run_task
runs_task-IsNext c [] p h safe = (c, refl, (h, sym (append-nil (taken c))))
runs_task-IsNext c (Task.receives ∷ tasks) p h safe = (
  record c { posted = tasks; pending_reads = c.pending_reads + 1 },
  refl,
  (
    record { outbound = h.outbound; inbound = h.inbound; points = h.points; marked = h.marked },
    rw p (sym (append-nil _)),
  ),
)
runs_task-IsNext c (Task.closes ∷ tasks) p h safe =
    let (sound, same) =
      close_in_service_lem (record c { posted = tasks })
        (record {
          outbound = h.outbound;
          inbound = h.inbound;
          points = h.points;
          marked = h.marked;
        }) in
    (_, refl, (sound, rw p (same ∙ sym (append-nil _))))
runs_task-IsNext c (Task.sends bytes ∷ tasks) p h (fits, clear, place) =
    let (u, e, (sound, more, wire, posted)) =
      send_in_service_lem bytes (record c { posted = tasks }) c.pending_writes refl
        (record {
          outbound = h.outbound;
          inbound = h.inbound;
          points = h.points;
          marked = h.marked;
        })
        fits clear place in
    (u, e, (sound, rw (p, wire, posted, more) (simp (append_assoc, append-nil))))

-- What an event that does not touch the sending side leaves as it was.
abbrev pub SameBuffers : TcpConnection → TcpConnection → Type 0
SameBuffers c u =
    (u.buf_out ≡ c.buf_out)
    × (u.buf_in ≡ c.buf_in)
    × (u.array ≡ c.array)
    × (u.pending_writes ≡ c.pending_writes)
    × (u.sending ≡ c.sending)
    × (u.wire ≡ c.wire)

pub same-IsNext :
    (e : Event) (c u : TcpConnection)
    → IsSound c
    → SameBuffers c u
    → queued u.posted ≡ queued c.posted ++ accepted e
    → IsNext e c u
same-IsNext e c u h (out, inb, array, writes, sending, wire) more = (
  record {
    outbound = rw out h.outbound;
    inbound = rw inb h.inbound;
    points = rw (out, array, writes) h.points;
    marked = rw (writes, sending) h.marked;
  },
  rw (out, writes, wire, more) (simp append_assoc),
)

handle_receive_error-SameBuffers :
    (eof : Bool) (c : TcpConnection)
    → SameBuffers c (handle_receive_error eof c) × ((handle_receive_error eof c).posted ≡ c.posted)
unfolding handle_receive_error close_in_service
handle_receive_error-SameBuffers eof c = ground arith

module _ (retrieve : ConnectionBuffer → ConnectionBuffer)
    (keeps : (b : ConnectionBuffer) → IsValid b → IsValid (retrieve b)) where
  handle_receive_lem :
      (bytes : List ℕ) (c : TcpConnection)
      → IsSound c
      → IsSafe (receives bytes) c
      → (u : TcpConnection) × (handle_receive retrieve bytes c ≡ some u)
        × IsSound u
        × (taken u ≡ taken c)
  unfolding handle_receive
  handle_receive_lem bytes c h (room, small, clear) =
      let (b, e, v, _) = receive-Holds c.buf_in bytes h.inbound (room, small) in
      let (b', e', v', _) = adjust_internal-Holds b v (clear b e) in
      elim (Bool-cases c.has_retrieve_callback) [
        | inl given ↦ (
          record c { buf_in = retrieve b'; pending_reads = c.pending_reads + 1 },
          rw (e, e', given),
          record {
            outbound = h.outbound;
            inbound = keeps b' v';
            points = h.points;
            marked = h.marked;
          },
          refl,
        )
        | inr missing ↦ (
          record c { buf_in = b'; pending_reads = c.pending_reads + 1 },
          rw (e, e', missing),
          record { outbound = h.outbound; inbound = v'; points = h.points; marked = h.marked },
          refl,
        )
      ]

  pub step-IsNext :
      (e : Event) (c : TcpConnection)
      → IsSound c
      → IsSafe e c
      → (u : TcpConnection) × (step retrieve e c ≡ some u) × IsNext e c u
  unfolding step start_receive send_message force_close set_conn_state handle_receive_error
      close_in_service
  step-IsNext calls_start_receive c h safe = elim (Bool-cases c.receiving) [
    | inl before ↦ (c, rw before, (h, sym (append-nil (taken c))))
    | inr now ↦ (
      record c { posted = c.posted ++ Task.receives ∷ []; receiving = true },
      rw now,
      same-IsNext calls_start_receive c _ h (refl, refl, refl, refl, refl, refl)
          (queued-append c.posted (Task.receives ∷ [])),
    )
  ]
  step-IsNext (calls_send bytes) c h safe = (
    _,
    refl,
    same-IsNext (calls_send bytes) c _ h (refl, refl, refl, refl, refl, refl)
        (queued-append c.posted (Task.sends bytes ∷ [])
          ∙ ap (◌++◌ (queued c.posted)) (append-nil bytes)),
  )
  step-IsNext calls_close c h safe = (
    _,
    refl,
    same-IsNext calls_close c _ h (refl, refl, refl, refl, refl, refl)
        (queued-append c.posted (Task.closes ∷ [])),
  )
  step-IsNext connects c h safe = (
    _,
    refl,
    same-IsNext connects c _ h (refl, refl, refl, refl, refl, refl)
        (sym (append-nil (queued c.posted))),
  )
  step-IsNext runs_task c h safe = runs_task-IsNext c c.posted refl h safe
  step-IsNext (receives bytes) c h safe = elim (Bool-cases (ltb 0 c.pending_reads)) [
    | inl reading ↦
        let (u, e, sound, same) =
          handle_receive_lem bytes (record c { pending_reads = c.pending_reads - 1 })
            (record {
              outbound = h.outbound;
              inbound = h.inbound;
              points = h.points;
              marked = h.marked;
            })
            safe in
        (u, rw reading e, (sound, same ∙ sym (append-nil (taken c))))
    | inr not_reading ↦ (c, rw not_reading, (h, sym (append-nil (taken c))))
  ]
  step-IsNext (fails_to_receive eof) c h safe = elim (Bool-cases (ltb 0 c.pending_reads)) [
    | inl reading ↦
        let c' = record c { pending_reads = c.pending_reads - 1 } in
        let (same, posted) = handle_receive_error-SameBuffers eof c' in
        (
          handle_receive_error eof c',
          rw reading,
          same-IsNext (fails_to_receive eof) c _ h same
              (ap queued posted ∙ sym (append-nil (queued c.posted))),
        )
    | inr not_reading ↦ (c, rw not_reading, (h, sym (append-nil (taken c))))
  ]
  step-IsNext (transfers n) c h safe =
      let (u, e, sound, same, posted) = transfer-Takes n c c.pending_writes refl h in
      (
        u,
        e,
        (
          sound,
          rw posted (
              sym (append_assoc u.wire (unsent u) (queued c.posted))
              ∙ ap (λ l. l ++ queued c.posted) same
              ∙ append_assoc c.wire (unsent c) (queued c.posted)
              ∙ sym (append-nil (taken c))),
        ),
      )
  step-IsNext completes c h safe =
      let (sound, same, wire, posted) = complete-Takes c c.pending_writes refl h in
      (_, refl, (sound, rw (same, wire, posted) (sym (append-nil (taken c)))))
  step-IsNext fails_to_send c h safe = absurd safe
