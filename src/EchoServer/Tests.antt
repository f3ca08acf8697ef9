-- ===== src/EchoServer/Tests.antt =====
-- Runs of a session and of the server, and the theorem at an input that meets its hypotheses.
use asio_client.Common.{ℕ, ◌≡◌, refl, true, some, List, [], ◌∷◌, arith, replicate}
use asio_client.EchoServer.{
  Session, Event, receives, fails_to_read, transfers, completes, init, start, do_read, do_accept,
  handle_accept, run,
}
use asio_client.EchoServer.Echoed.{IsEcho, run-IsEcho}

abbrev memory : List ℕ
memory = replicate 1024 0

-- A session that waits for its client.
abbrev waiting : Session
waiting = record {
  bytes = memory;
  pending_reads = 1;
  pending_writes = [];
  received = [];
  wire = [];
}

a_connection :
    handle_accept memory true (record { sessions = []; accepting = 0 })
    ≡ record { sessions = waiting ∷ []; accepting = 1 }
unfolding handle_accept do_accept start init do_read
a_connection = refl

abbrev events : List Event
events =
    receives (1 ∷ 2 ∷ 3 ∷ [])
    ∷ transfers 2
    ∷ receives (9 ∷ [])
    ∷ transfers 1
    ∷ completes
    ∷ receives (4 ∷ [])
    ∷ transfers 1
    ∷ fails_to_read
    ∷ []

run-IsEcho_example : (u : Session) × (run events waiting ≡ some u) × IsEcho u
run-IsEcho_example = run-IsEcho events waiting (omega arith) (omega arith, refl)
