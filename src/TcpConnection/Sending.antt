-- ===== src/TcpConnection/Sending.antt =====
-- asio-1.10/src/tcp_connection.cpp, `TcpConnection::sendMessage`, `sendInService` and `handleSend`: the
-- bytes that the peer gets.
pub mod Bytes
pub mod Takes
pub mod Steps
use asio_client.Common.{
  after, ℕ, ◌≡◌, ◌≢◌, refl, sym, subst, ap, ◌∙◌, Option, some, none, List, [], ◌∷◌, ◌++◌,
  append-nil, append_assoc,
}
use asio_client.Buffer.{ConnectionBuffer}
use asio_client.Buffer.Valid.{IsValid}
use asio_client.TcpConnection.{TcpConnection}
use asio_client.TcpConnection.Runs.{Event, step, run}
use Bytes.{IsSound, taken, accepted, IsSafe}
use Steps.{step-IsNext}

module _ (retrieve : ConnectionBuffer → ConnectionBuffer) where
  abbrev pub AreSafe : List Event → TcpConnection → Type 0
  AreSafe [] c = Unit {0}
  AreSafe (e ∷ es) c = IsSafe e c × AreSafe es (after (step retrieve e c) c)

  abbrev pub all_accepted : List Event → List ℕ
  all_accepted [] = []
  all_accepted (e ∷ es) = accepted e ++ all_accepted es

  -- What the peer gets, for a `retrieve_callback_` that leaves a valid buffer valid: any sequence
  -- of events, each safe where it happens, of a connection with valid buffers whose one write, if
  -- any, points at what is to be sent, runs through and leaves it so, and the bytes that were
  -- sent, then those in `buf_out_` that are not, then those of the posted messages are the ones
  -- from before and those of the messages given since, in their order. An event is safe if it is
  -- no failed write, keeps sizes below 4 GiB, moves no buffer onto itself, and does not move
  -- or enlarge `buf_out_` while a write is under way.
  pub run-taken_bytes :
      ((b : ConnectionBuffer) → IsValid b → IsValid (retrieve b))
      → (es : List Event) (c : TcpConnection) → IsSound c
      → AreSafe es c
      → (u : TcpConnection) × (run retrieve es c ≡ some u)
        × IsSound u
        × (taken u ≡ taken c ++ all_accepted es)
  unfolding run
  run-taken_bytes keeps [] c h g = (c, refl, h, sym (append-nil (taken c)))
  run-taken_bytes keeps (event ∷ es) c h (now, later) =
      let (t, e, next) = step-IsNext retrieve keeps event c h now in
      let (u, ran, sound, rest) =
        run-taken_bytes keeps es t next.0 (subst (λ r. AreSafe es (after r c)) e later) in
      (
        u,
        rw e ran,
        sound,
        rest
            ∙ ap (λ l. l ++ all_accepted es) next.1
            ∙ append_assoc (taken c) (accepted event) (all_accepted es),
      )
