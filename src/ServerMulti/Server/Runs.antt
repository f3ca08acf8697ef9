-- ===== src/ServerMulti/Server/Runs.antt =====
-- asio-1.28_server_multi/src/test.cpp, `Server`: what can happen to it and to its sessions, one handler
-- after the other. Handlers of sessions of different threads only share the data handler, each of whose
-- functions holds its lock to its end. An event that cannot happen changes nothing.
use asio_client.Common.{
  runs, runs_next, ℕ, zero, suc, ◌≡◌, Bool, false, not, ◌&&◌, Option, none, some, List, [], ◌∷◌,
  if◌then◌else◌,
}
use asio_client.ServerMulti.Session.{DataHandler, Session}
use asio_client.ServerMulti.Session.Runs
use asio_client.ServerMulti.Server.{Server, handle_accept, accept_again, stop}

pub data Event : Type 0 where
  accepts : (time : ℕ) → Event
  fails_to_accept : Event
  calls_stop : Event
  -- an event of the session of that number
  on_session : ℕ → Runs.Event → Event

abbrev pub can_accept : {H : Type 0} → Server H → Bool
can_accept v = v.accepting && not v.stopped

module _ {H : Type 0} (handler : DataHandler H) where
  abbrev pub kept : Session → Option (List Session × H) → Option (List Session × H)
  kept s none = none
  kept s (some (ss, h)) = some (s ∷ ss, h)

  abbrev pub replaced : List Session → Option (Session × H) → Option (List Session × H)
  replaced ss none = none
  replaced ss (some (s, h)) = some (s ∷ ss, h)

  -- There may be no such session.
  unfoldable pub step_session : ℕ → Runs.Event → List Session → H → Option (List Session × H)
  step_session n event [] h = some ([], h)
  step_session zero event (s ∷ ss) h = replaced ss (Runs.step handler event s h)
  step_session (suc n) event (s ∷ ss) h = kept s (step_session n event ss h)

  abbrev pub updated : Server H → Option (List Session × H) → Option (Server H)
  updated v none = none
  updated v (some (ss, h)) = some (record v { sessions = ss; handler = h })

  unfoldable pub step : Event → Server H → Option (Server H)
  unfolding step_session handle_accept accept_again stop
  step (accepts time) v =
      if can_accept v then handle_accept handler time (record v { accepting = false }) else some v
  step fails_to_accept v =
      some (if can_accept v then accept_again (record v { accepting = false }) else v)
  step calls_stop v = some (stop v)
  step (on_session n event) v = updated v (step_session n event v.sessions v.handler)

  unfoldable pub run : List Event → Server H → Option (Server H)
  unfolding step
  run = runs step

  -- What a run that has got somewhere has passed.
  pub run_next :
      (e : Event) (es : List Event) (v u : Server H)
      → run (e ∷ es) v ≡ some u
      → (t : Server H) × (step e v ≡ some t) × (run es t ≡ some u)
  unfolding run
  run_next = runs_next step
