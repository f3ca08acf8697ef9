-- ===== src/Session/Writing.antt =====
-- asio-1.28_server_multi_protocol/src/test.cpp, `Session::safe_write` and `start_writing`: the frames
-- in the write queue and those that have been written.
use asio_client.Common.{
  ℕ, ◌≡◌, refl, sym, ap, ap₂, ◌∙◌, true, some, none, List, [], ◌∷◌, ◌++◌, arith, append_assoc,
  append-nil,
}
use asio_client.Protocol.Factory.{ProtocolFactory}
use asio_client.Session.{Session, run_task, handle_read_error, handle_write, handle_write_error}
use asio_client.Session.Valid.{
  Step, Reach, IsValid, runs_read, runs_write, receives, fails_to_read, completes, fails_to_write,
  here, next, front_of, receives-ReadAgain, Reach-IsValid,
}

-- The frames whose write has completed, and then those that wait.
abbrev pub sent : Session → List (List ℕ)
sent s = s.written ++ s.write_queue

unqueue :
    (queue : List (List ℕ)) (buffer : List ℕ)
    → some buffer ≡ front_of queue
    → (rest : List (List ℕ)) × (queue ≡ buffer ∷ rest)
unqueue [] buffer e = cc
unqueue (front ∷ rest) buffer e = (rest, cc)

Step-sent :
    {protocols : ProtocolFactory} {s u : Session} {frames : List (List ℕ)}
    → Step protocols s frames u
    → IsValid s
    → u.socket_open ≡ true
    → (s.socket_open ≡ true) × (sent u ≡ sent s ++ frames)
unfolding run_task handle_read_error handle_write handle_write_error
Step-sent {s} (runs_read tasks e ef r) v open_after = ground (arith, append-nil (sent s))
Step-sent {s} (runs_write tasks bytes frame e ep ef r) v open_after =
    ground (arith, append_assoc s.written s.write_queue (frame ∷ []))
Step-sent {protocols} {s} (receives size bytes e fits ef r) v open_after =
    let (queue, _, done, opened) = (receives-ReadAgain protocols size bytes v e fits r).same in
    (
      sym opened ∙ open_after,
      ap₂ ◌++◌ done queue ∙ sym (ap (◌++◌ (sent s)) ef ∙ append-nil (sent s)),
    )
Step-sent {s} (fails_to_read size eof e ef r) v open_after = ground (arith, append-nil (sent s))
Step-sent {s} (completes buffer e ef r) v open_after =
    let (rest, q) = unqueue s.write_queue buffer (sym e ∙ v.front) in
    ground (arith, append-nil (sent s), append_assoc s.written (buffer ∷ []) rest)
Step-sent (fails_to_write buffer e ef r) v open_after = cc

-- As long as no write has failed, after any sequence of steps of a valid session the frames whose
-- write has completed, followed by those in the queue, are the ones of before followed by the
-- frames of the writes that ran since, in their order: nothing is lost, doubled or reordered.
pub Reach-sent :
    {protocols : ProtocolFactory} {s u : Session} {frames : List (List ℕ)}
    → Reach protocols s frames u
    → IsValid s
    → u.socket_open ≡ true
    → sent u ≡ sent s ++ frames
Reach-sent {s} r v open_after = (ordered r open_after).1
  where
    ordered :
        {protocols : ProtocolFactory} {t : Session} {fs : List (List ℕ)}
        → Reach protocols s fs t
        → t.socket_open ≡ true
        → (s.socket_open ≡ true) × (sent t ≡ sent s ++ fs)
    ordered here o = (o, sym (append-nil (sent s)))
    ordered (next {before} {frames = fs} q st) o =
        let (opened, now) = Step-sent st (Reach-IsValid q v) o in
        let (first, past) = ordered q opened in
        (first, now ∙ ap (λ l. l ++ fs) past ∙ append_assoc (sent s) before fs)

front_of-none : (queue : List (List ℕ)) → none ≡ front_of queue → queue ≡ []
front_of-none [] e = refl
front_of-none (front ∷ queue) e = cc

-- No frame is left behind: in whatever state of a valid session no write is outstanding, and none has
-- failed, all frames of the writes that ran have been written, in their order.
pub Reach-written :
    {protocols : ProtocolFactory} {s u : Session} {frames : List (List ℕ)}
    → Reach protocols s frames u
    → IsValid s
    → u.socket_open ≡ true
    → u.writing ≡ none
    → u.written ≡ sent s ++ frames
Reach-written {u} r v open_after idle =
    sym (append-nil u.written)
    ∙ sym (ap (◌++◌ u.written) (front_of-none u.write_queue (sym idle ∙ (Reach-IsValid r v).front)))
    ∙ Reach-sent r v open_after
