-- ===== src/Session/Stream.antt =====
-- asio-1.28_server_multi_protocol/src/test.cpp: a session that speaks the line protocol, over the
-- whole stream of bytes that a client sends.
use asio_client.Common.{
  ℕ, ◌+◌, ◌-◌, ◌≤◌, ◌<◌, ◌^◌, ◌≡◌, refl, sym, ap, ap₂, subst, ◌∙◌, Option, some, List, [], ◌∷◌,
  ◌++◌, length, drop, ◌>>=◌, arith, length-append, length-take, drop-append_left, append_assoc,
  append-nil, codes,
}
use asio_client.Protocol.Handler.{line, process_data}
use asio_client.Protocol.Factory.{ProtocolFactory}
use asio_client.Protocol.Line.Split.{
  lines, partial_line, split-suffix, lines-append, lines-OneLine, OneLine, split-rest-OneLine,
}
use asio_client.Protocol.Line.Loop.{feed, process_data_lem}
use asio_client.Session.{
  Session, Task, writes, echo_handler, read_buffer_size, handle_read, process_frame, answer,
}
use asio_client.Session.Reading.{contents, filled, Settled, handle_read_lem}

drop-partial_line :
    (bytes : List ℕ) → drop (length bytes - length (partial_line bytes)) bytes ≡ partial_line bytes
drop-partial_line bytes =
    let (front, e) = split-suffix [] bytes in
    ap (drop (length bytes - length (partial_line bytes))) e
    ∙ drop-append_left _ front (partial_line bytes)
        (omega (arith, ap length e, length-append front (partial_line bytes)))

-- A read of a line session succeeds, hands over the lines that are complete now, and keeps the rest.
pub handle_read-line :
    (protocols : ProtocolFactory) (bytes : List ℕ) (s : Session)
    → s.protocol ≡ line
    → length s.read_buffer ≡ read_buffer_size
    → s.read_pos + length bytes ≤ read_buffer_size
    → let stream = contents s ++ bytes in
      (u : Session) × (handle_read protocols bytes s ≡ some u)
      × Settled
          (partial_line stream)
          (feed (process_frame protocols) (lines stream) (filled bytes s))
          u
unfolding process_data
handle_read-line protocols bytes s e array fits =
    subst (λ l. (u : Session) × (handle_read protocols bytes s ≡ some u) × Settled l fed u)
      (drop-partial_line stream)
      (handle_read_lem protocols bytes s array fits consumed fed
        (ap (λ h. process_data h (process_frame protocols) stream (filled bytes s)) e
          ∙ process_data_lem (process_frame protocols) stream small (filled bytes s))
        (omega arith))
  where
    stream : List ℕ
    stream = contents s ++ bytes

    consumed : ℕ
    consumed = length stream - length (partial_line stream)

    fed : Session
    fed = feed (process_frame protocols) (lines stream) (filled bytes s)

    small : length stream < 2 ^ 64
    small = omega (arith, length-append (contents s) bytes, length-take s.read_pos s.read_buffer)

process_frame-echo :
    (protocols : ProtocolFactory) (l : List ℕ) (s : Session)
    → s.data_handler ≡ some echo_handler
    → process_frame protocols l s
      ≡ record s { posted = s.posted ++ writes (codes "Echo: " ++ l) ∷ [] }
unfolding process_frame
process_frame-echo protocols l s e = ap (λ h. answer protocols h l s) e

-- The writes that `EchoHandler` answers the lines with.
abbrev pub echoes : List (List ℕ) → List Task
echoes [] = []
echoes (l ∷ ls) = writes (codes "Echo: " ++ l) ∷ echoes ls

echoes-append : (ls ms : List (List ℕ)) → echoes (ls ++ ms) ≡ echoes ls ++ echoes ms
echoes-append [] ms = refl
echoes-append (l ∷ ls) ms = ap (◌∷◌ (writes (codes "Echo: " ++ l))) (echoes-append ls ms)

feed-echo :
    (protocols : ProtocolFactory) (ls : List (List ℕ)) (s : Session)
    → s.data_handler ≡ some echo_handler
    → feed (process_frame protocols) ls s ≡ record s { posted = s.posted ++ echoes ls }
feed-echo protocols [] s e =
    ap (λ (l : List Task). record s { posted = l }) (sym (append-nil s.posted))
feed-echo protocols (l ∷ ls) s e = rw (process_frame-echo protocols l s e) (
    feed-echo protocols ls (record s { posted = s.posted ++ writes (codes "Echo: " ++ l) ∷ [] }) e
    ∙ ap (λ (k : List Task). record s { posted = k }) (append_assoc s.posted _ (echoes ls)))

-- A session that echoes lines, and has read whatever it has read as far as a part of a line.
pub record IsEchoing (s : Session) : Type 0 where
  pub speaks_lines : s.protocol ≡ line
  pub echoing : s.data_handler ≡ some echo_handler
  pub array : length s.read_buffer ≡ read_buffer_size
  pub position : s.read_pos ≡ length (contents s)
  pub in_line : OneLine (contents s)

-- The reads that complete one after the other.
abbrev pub read_all : ProtocolFactory → List (List ℕ) → Session → Option Session
read_all protocols [] s = some s
read_all protocols (bytes ∷ chunks) s =
    handle_read protocols bytes s >>= λ u. read_all protocols chunks u

-- Each read brings at most what is free behind the line that has begun.
abbrev pub ChunksFit : List ℕ → List (List ℕ) → Type 0
ChunksFit begun [] = Unit {0}
ChunksFit begun (bytes ∷ chunks) =
    (length begun + length bytes ≤ read_buffer_size)
    × ChunksFit (partial_line (begun ++ bytes)) chunks

abbrev pub joined : List (List ℕ) → List ℕ
joined [] = []
joined (bytes ∷ chunks) = bytes ++ joined chunks

handle_read-echo :
    (protocols : ProtocolFactory) (bytes : List ℕ) (s : Session)
    → IsEchoing s
    → length (contents s) + length bytes ≤ read_buffer_size
    → let stream = contents s ++ bytes in
      (u : Session) × (handle_read protocols bytes s ≡ some u)
      × IsEchoing u
      × (contents u ≡ partial_line stream)
      × (u.posted ≡ s.posted ++ echoes (lines stream))
handle_read-echo protocols bytes s v fits =
    let (u, e, settled) =
      handle_read-line protocols bytes s v.speaks_lines v.array (omega (arith, v.position, fits)) in
    let fed = feed-echo protocols (lines stream) (filled bytes s) v.echoing in
    let others =
      settled.others
      ∙ ap
          (λ (t : Session). record t {
            read_buffer = u.read_buffer;
            read_pos = u.read_pos;
            reading = u.reading;
          })
          fed in
    (
      u,
      e,
      record {
        speaks_lines = ap (λ (t : Session). t.protocol) others ∙ v.speaks_lines;
        echoing = ap (λ (t : Session). t.data_handler) others ∙ v.echoing;
        array = settled.array_left;
        position = settled.position_left ∙ ap length (sym settled.contents_left);
        in_line = subst OneLine (sym settled.contents_left) (split-rest-OneLine [] stream tt);
      },
      settled.contents_left,
      ap (λ (t : Session). t.posted) others,
    )
  where
    stream : List ℕ
    stream = contents s ++ bytes

-- However the stream is cut into reads, as long as each read fits the buffer behind the line that
-- is begun, a session that speaks the line protocol and echoes does not fail, posts the echo of
-- every complete line of the stream, in order and each once, and keeps exactly the begun line.
pub read_all-lines :
    (protocols : ProtocolFactory) (chunks : List (List ℕ)) (s : Session)
    → IsEchoing s
    → ChunksFit (contents s) chunks
    → let stream = contents s ++ joined chunks in
      (u : Session) × (read_all protocols chunks s ≡ some u)
      × IsEchoing u
      × (contents u ≡ partial_line stream)
      × (u.posted ≡ s.posted ++ echoes (lines stream))
read_all-lines protocols [] s v fits =
    let (none_complete, all_begun) = lines-OneLine (contents s) v.in_line in
    (
      s,
      refl,
      v,
      sym (ap partial_line (append-nil (contents s)) ∙ all_begun),
      sym (
          ap (λ l. s.posted ++ echoes (lines l)) (append-nil (contents s))
          ∙ ap (λ ls. s.posted ++ echoes ls) none_complete
          ∙ append-nil s.posted),
    )
read_all-lines protocols (bytes ∷ chunks) s v fits =
    let (t, e, vt, left, posted) = handle_read-echo protocols bytes s v fits.0 in
    let (u, eu, vu, rest, all) =
      read_all-lines protocols chunks t vt (subst (λ l. ChunksFit l chunks) (sym left) fits.1) in
    let (ls, r) = lines-append (contents s ++ bytes) (joined chunks) in
    rw (e, ← append_assoc (contents s) bytes (joined chunks))
      (
        u,
        eu,
        vu,
        rest ∙ ap (λ l. partial_line (l ++ joined chunks)) left ∙ sym r,
        all
            ∙ ap₂ (λ k l. k ++ echoes (lines (l ++ joined chunks))) posted left
            ∙ append_assoc s.posted (echoes (lines (contents s ++ bytes))) _
            ∙ sym (
                ap (λ k. s.posted ++ echoes k) ls
                ∙ ap (◌++◌ s.posted) (echoes-append (lines (contents s ++ bytes)) _)),
      )
