-- ===== src/UdpClient/Steps.antt =====
-- udp-asio-1.28/include/udp_client.hpp, `UdpClient`: when a step can be made, and what it leaves.
use asio_client.Common.{ℕ, ◌≡◌, ◌⊎◌, refl, true, false, some, List, [], ◌∷◌, ◌++◌, arith}
use asio_client.UdpClient.{
  UdpClient, Worker, Outcome, absent, entering, dozing, asleep, taking, sending, finished, is_empty,
  is_unlocked, start, send, notify, join, enter, sleep, pop, take_message, async_send_data,
  send_out,
}

pub start_lem :
    (c u : UdpClient)
    → start c.worker c ≡ some u
    → (c.worker ≡ absent) × (u ≡ record c { is_running = true; worker = entering })
unfolding start
start_lem c u e = ground arith

pub send_lem :
    (msg : List ℕ) (c u : UdpClient)
    → send msg c ≡ some u
    → (is_unlocked c.worker ≡ true)
      × (u ≡ record c { msg_queue = c.msg_queue ++ msg ∷ []; worker = notify c.worker })
unfolding send
send_lem msg c u e = ground arith

pub join_lem :
    (c u : UdpClient)
    → join c.worker c ≡ some u
    → (c.worker ≡ finished) × (u ≡ record c { worker = absent })
unfolding join
join_lem c u e = ground arith

pub enter_lem :
    (c u : UdpClient)
    → enter c.worker c ≡ some u
    → (c.worker ≡ entering)
      × ((u ≡ record c { worker = taking })
          ⊎ ((c.msg_queue ≡ []) × (c.is_running ≡ true) × (u ≡ record c { worker = dozing })))
unfolding enter is_empty
enter_lem c u e = ground arith

pub sleep_lem :
    (c u : UdpClient)
    → sleep c.worker c ≡ some u
    → (c.worker ≡ dozing) × (u ≡ record c { worker = asleep })
unfolding sleep
sleep_lem c u e = ground arith

pub take_message_lem :
    (c u : UdpClient)
    → take_message c.worker c ≡ some u
    → (c.worker ≡ taking)
      × (((c.is_running ≡ false) × (u ≡ record c { worker = finished }))
          ⊎ ((c.is_running ≡ true) × (u ≡ pop c.msg_queue c)))
unfolding take_message
take_message_lem c u e = ground arith

pub send_out_lem :
    (outcome : Outcome) (c u : UdpClient)
    → send_out outcome c.worker c ≡ some u
    → (msg : List ℕ) × (c.worker ≡ sending msg)
      × (u
          ≡ async_send_data outcome msg
              (record c { worker = entering; tried = c.tried ++ msg ∷ [] }))
unfolding send_out
send_out_lem outcome c u e = from c.worker refl e
  where
    from :
        (w : Worker)
        → c.worker ≡ w
        → send_out outcome w c ≡ some u
        → (msg : List ℕ) × (c.worker ≡ sending msg)
          × (u
              ≡ async_send_data outcome msg
                  (record c { worker = entering; tried = c.tried ++ msg ∷ [] }))
    from absent p e = cc
    from entering p e = cc
    from dozing p e = cc
    from asleep p e = cc
    from taking p e = cc
    from (sending msg) p e = (msg, p, cc)
    from finished p e = cc
