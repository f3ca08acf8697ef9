-- ===== src/TcpConnection/Sending/Takes.antt =====
-- asio-1.10/src/tcp_connection.cpp, `sendInService` and `handleSend`: what the sending of a message, the
-- socket and the end of a write do to the bytes that a `TcpConnection` was given to send.
use asio_client.Common.{
  false, ℕ, ◌+◌, ◌≤◌, ◌≡◌, refl, subst, ap, ◌∙◌, inl, inr, true, some, List, [], ◌∷◌, ◌++◌, length,
  take, drop, ltb, leb, ◌==◌, arith, append_assoc, Bool-cases, slice_lem, drop-append_le, not, ◌&&◌,
  to_u32,
}
use asio_client.Buffer.{ConnectionBuffer, retrieve_read_index, readable_count}
use asio_client.Buffer.Valid.{IsValid, contents, counts_lem}
use asio_client.Buffer.Append.{Fits, Overlaps, append-Holds, append-in_place}
use asio_client.Buffer.Indices.{retrieve_read_index_lem}
use asio_client.TcpConnection.{
  TcpConnection, Write, start_sending, send_in_service, write_out, is_connected, is_moved,
  handle_send,
}
use asio_client.TcpConnection.Runs.{transfer, complete}
use asio_client.TcpConnection.Sending.Bytes.{unsent, Points, IsSound, InPlace, transferred}

-- What the sending of a message leaves, and the message behind the bytes that are not sent.
abbrev pub Takes : List ℕ → TcpConnection → TcpConnection → Type 0
Takes bytes c u =
    IsSound u × (unsent u ≡ unsent c ++ bytes) × (u.wire ≡ c.wire) × (u.posted ≡ c.posted)

start_sending-idle :
    (b' : ConnectionBuffer) (bytes : List ℕ) (c : TcpConnection)
    → IsSound c
    → c.pending_writes ≡ []
    → IsValid b'
    → contents b' ≡ contents c.buf_out ++ bytes
    → Takes bytes c (start_sending b' c)
unfolding start_sending write_out
start_sending-idle b' bytes c h p v seen =
    elim (Bool-cases (not c.sending && is_connected c.state)) [
      | inl idle ↦
          rw (idle, p)
            (
              record {
                outbound = v;
                inbound = h.inbound;
                points = (
                  refl,
                  refl,
                  omega (arith, counts_lem v, v.ordered, v.room, v.small),
                  omega arith,
                );
                marked = refl;
              },
              seen,
              refl,
              refl,
            )
      | inr busy ↦
          rw (busy, p)
            (
              record { outbound = v; inbound = h.inbound; points = tt; marked = tt },
              seen,
              refl,
              refl,
            )
    ]

-- While a write is under way.
start_sending-busy :
    (b' : ConnectionBuffer) (bytes : List ℕ) (c : TcpConnection) (w : Write)
    → IsSound c
    → c.pending_writes ≡ w ∷ []
    → IsValid b'
    → contents b' ≡ contents c.buf_out ++ bytes
    → b'.read_index ≡ c.buf_out.read_index
    → c.buf_out.write_index ≤ b'.write_index
    → length b'.buffer ≡ length c.buf_out.buffer
    → Takes bytes c (start_sending b' c)
unfolding start_sending
start_sending-busy b' bytes c w h p v seen start end size =
    let marked : c.sending ≡ true = ground arith in
    let points : Points c.buf_out c.array (w ∷ []) = ground arith in
    let same : is_moved b' c ≡ false = ground arith in
    let sent : w.done ≤ length (contents c.buf_out) = omega (
      arith,
      (counts_lem h.outbound).0,
      points,
      h.outbound.ordered,
      h.outbound.room,
      h.outbound.small,
    ) in
    rw (marked, same, p)
      (
        record { outbound = v; inbound = h.inbound; points = ground arith; marked = refl },
        ap (drop w.done) seen ∙ drop-append_le w.done (contents c.buf_out) bytes sent,
        refl,
        refl,
      )

pub send_in_service_lem :
    (bytes : List ℕ) (c : TcpConnection) (ws : List Write)
    → c.pending_writes ≡ ws
    → IsSound c
    → Fits c.buf_out (length bytes)
    → ¬ Overlaps c.buf_out (length bytes)
    → InPlace c.buf_out c.pending_writes bytes
    → (u : TcpConnection) × (send_in_service bytes c ≡ some u) × Takes bytes c u
unfolding send_in_service
send_in_service_lem bytes c [] p h fits clear place =
    let (b', e, v, seen) = append-Holds c.buf_out bytes h.outbound fits clear in
    (start_sending b' c, rw e, start_sending-idle b' bytes c h p v seen)
send_in_service_lem bytes c (w ∷ []) p h fits clear place =
    let (b', e, v, seen, start, end, size) =
      append-in_place c.buf_out bytes h.outbound
        (subst (λ ws. InPlace c.buf_out ws bytes) p place) in
    (start_sending b' c, rw e, start_sending-busy b' bytes c w h p v seen start end size)
send_in_service_lem bytes c (w ∷ v ∷ ws) p h fits clear place =
    absurd (subst (Points c.buf_out c.array) p h.points)

pub transfer-Takes :
    (n : ℕ) (c : TcpConnection) (ws : List Write)
    → c.pending_writes ≡ ws
    → IsSound c
    → (u : TcpConnection) × (transfer n ws c ≡ some u)
      × IsSound u
      × (u.wire ++ unsent u ≡ c.wire ++ unsent c)
      × (u.posted ≡ c.posted)
unfolding transfer
transfer-Takes n c [] p h = (c, refl, h, refl, refl)
transfer-Takes n c (w ∷ v ∷ ws) p h = absurd (subst (Points c.buf_out c.array) p h.points)
transfer-Takes n c (w ∷ []) p h = elim (Bool-cases (leb (w.done + n) w.count)) [
  | inr much ↦ (c, rw much, h, refl, refl)
  | inl fits ↦
      let points : Points c.buf_out c.array (w ∷ []) = ground arith in
      let next = slice_lem c.buf_out.buffer (w.offset + w.done) n (ground arith) in
      (
        record c {
          pending_writes = record w { done = w.done + n } ∷ [];
          wire = c.wire ++ take n (drop (w.offset + w.done) c.buf_out.buffer);
        },
        ground (arith, next),
        record {
          outbound = h.outbound;
          inbound = h.inbound;
          points = ground arith;
          marked = ground arith;
        },
        rw (p, points.1)
            (append_assoc c.wire (take n (drop (c.buf_out.read_index + w.done) c.buf_out.buffer))
                (drop (w.done + n) (contents c.buf_out))
              ∙ ap (◌++◌ c.wire) (transferred c.buf_out w.done n (ground arith))),
        refl,
      )
]

pub complete-Takes :
    (c : TcpConnection) (ws : List Write)
    → c.pending_writes ≡ ws
    → IsSound c
    → IsSound (complete ws c)
      × (unsent (complete ws c) ≡ unsent c)
      × ((complete ws c).wire ≡ c.wire)
      × ((complete ws c).posted ≡ c.posted)
unfolding complete handle_send write_out
complete-Takes c [] p h = (h, refl, refl, refl)
complete-Takes c (w ∷ v ∷ ws) p h = absurd (subst (Points c.buf_out c.array) p h.points)
complete-Takes c (w ∷ []) p h = elim (Bool-cases (w.done == w.count)) [
  | inr more ↦ rw more (h, refl, refl, refl)
  | inl all ↦
      let points : Points c.buf_out c.array (w ∷ []) = ground arith in
      let marked : c.sending ≡ true = ground arith in
      let count : to_u32 w.count ≡ w.done = ground arith in
      let (v, seen) =
        retrieve_read_index_lem c.buf_out w.done h.outbound
          (omega (arith, h.outbound.room, h.outbound.small)) in
      rw (all, count, p)
        elim (Bool-cases
          (ltb 0 (readable_count (retrieve_read_index c.buf_out w.done)) && is_connected c.state)) [
            | inl more ↦ rw (more) (
              record {
                outbound = v;
                inbound = h.inbound;
                points = (
                  refl,
                  refl,
                  omega (arith, counts_lem v, v.ordered, v.room, v.small),
                  omega arith,
                );
                marked = marked;
              },
              seen,
              refl,
              refl,
            )
            | inr done ↦ rw (done) (
              record { outbound = v; inbound = h.inbound; points = tt; marked = tt },
              seen,
              refl,
              refl,
            )
          ]
]
