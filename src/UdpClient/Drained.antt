-- ===== src/UdpClient/Drained.antt =====
-- udp-asio-1.28/include/udp_client.hpp, `UdpClient`: a thread that is left to itself.
use asio_client.Common.{
  ℕ, ◌≡◌, sym, ap₂, ◌∙◌, true, some, List, [], ◌∷◌, ◌++◌, append-nil, append_assoc,
}
use asio_client.UdpClient.{
  UdpClient, entering, goes_out, is_empty, enter, pop, take_message, async_send_data, send_out,
}
use asio_client.UdpClient.Runs.{Event, enters, takes, sends_out, step, run}
use asio_client.UdpClient.Order.{non_empty}

-- The steps of the thread for the messages of a queue.
abbrev pub turns : List (List ℕ) → List Event
turns [] = []
turns ([] ∷ msgs) = enters ∷ takes ∷ turns msgs
turns ((x ∷ xs) ∷ msgs) = enters ∷ takes ∷ sends_out goes_out ∷ turns msgs

-- A running client whose thread is about to test whether it is to wait.
abbrev pub awake : (msg_queue tried sent : List (List ℕ)) → UdpClient
awake msg_queue tried sent = record {
  is_running = true;
  msg_queue = msg_queue;
  worker = entering;
  tried = tried;
  sent = sent;
}

-- The thread of a running client that is left to itself, and whose sockets work, can empty the queue:
-- by these turns it sends each message that is not empty, in order, after what was sent before.
pub turns-awake :
    (msgs tried sent : List (List ℕ))
    → run (turns msgs) (awake msgs tried sent)
      ≡ some (awake [] (tried ++ non_empty msgs) (sent ++ non_empty msgs))
unfolding run step enter is_empty take_message pop send_out async_send_data
turns-awake [] tried sent =
    ap₂ (λ ts ss. some (awake [] ts ss)) (sym (append-nil tried)) (sym (append-nil sent))
turns-awake ([] ∷ msgs) tried sent = turns-awake msgs tried sent
turns-awake ((x ∷ xs) ∷ msgs) tried sent =
    turns-awake msgs (tried ++ (x ∷ xs) ∷ []) (sent ++ (x ∷ xs) ∷ [])
    ∙ ap₂ (λ ts ss. some (awake [] ts ss)) (append_assoc tried ((x ∷ xs) ∷ []) (non_empty msgs))
        (append_assoc sent ((x ∷ xs) ∷ []) (non_empty msgs))
