-- ===== src/Server/Accept.antt =====
-- asio-1.28_server_multi_protocol/src/test.cpp: what `Server` makes of a new connection.
use asio_client.Common.{
  ℕ, ◌+◌, ◌%◌, ◌^◌, ◌≡◌, ◌⊎◌, Bool-cases, bytes_beq, bytes_beq_iff, refl, ap, sym, ◌∙◌, true, false,
  none, some, inl, inr, List, ◌++◌, length, drop, codes, padded, padded-injective, lookup, insert,
  lookup-insert, bytes_eq, arith, drop-append_left, string_eq,
}
use asio_client.Protocol.Factory.{ProtocolFactory, create, register_protocols}
use asio_client.Session
use asio_client.Session.{Session}
use asio_client.Server.{Server, session_id, handle_accept, continues, throws}

-- Ids made at different values of the counter differ, at whatever times, since the texts of two
-- times are equally long.
pub session_id-injective :
    (m n : ℕ) (time time' : List ℕ)
    → length time ≡ length time'
    → session_id m time ≡ session_id n time'
    → m ≡ n
unfolding session_id
session_id-injective m n time time' same e =
    padded-injective 6 m n (sym (number m time refl) ∙ ap tail_of e ∙ number n time' same)
  where
    tail_of : List ℕ → List ℕ
    tail_of id = drop 1 (drop (length time) (drop 5 id))

    number : (k : ℕ) (t : List ℕ) → length time ≡ length t → tail_of (session_id k t) ≡ padded 6 k
    number k t h = ap (drop 1) (drop-append_left (length time) t (codes "-" ++ padded 6 k) h)

-- `register_protocols` does not make a factory know "detect".
create-detect :
    (protocols : ProtocolFactory)
    → create "detect" protocols ≡ none
    → create "detect" (register_protocols protocols) ≡ none
unfolding create register_protocols
create-detect protocols h = simp lookup-insert h

-- Where nobody else registered "detect", no connection is ever served after `register_protocols`: the
-- constructor of the session throws, no session is stored, and no `async_accept` is outstanding any
-- more.
pub handle_accept-throws :
    (protocols : ProtocolFactory) (memory time : List ℕ) (v : Server)
    → create "detect" protocols ≡ none
    → handle_accept (register_protocols protocols) memory time true v
      ≡ throws (record v { accepting = false; counter = (v.counter + 1) % 2 ^ 64 })
unfolding handle_accept Session.init
handle_accept-throws protocols memory time v h = rw (create-detect protocols h)

-- Where the constructor makes a session, a connection gets it, started, under its id, the sessions of
-- other ids stay, and the server accepts on exactly if its acceptor is still open.
pub handle_accept-serves :
    (protocols : ProtocolFactory) (memory time : List ℕ) (v : Server) (s : Session)
    → Session.init protocols memory v.handler (session_id v.counter time) "detect" ≡ some s
    → (v' : Server) × (handle_accept protocols memory time true v ≡ continues v')
      × (lookup (session_id v.counter time) v'.sessions ≡ some (Session.start s))
      × ((other : List ℕ)
          → (session_id v.counter time ≡ other)
            ⊎ (lookup other v'.sessions ≡ lookup other v.sessions))
      × (v'.counter ≡ (v.counter + 1) % 2 ^ 64)
      × (v'.accepting ≡ v.acceptor_open)
unfolding handle_accept
handle_accept-serves protocols memory time v s made =
    (after, rw made (ground arith), found, others, refl, refl)
  where
    id : List ℕ
    id = session_id v.counter time

    after : Server
    after = record v {
      sessions = insert id (Session.start s) v.sessions;
      counter = (v.counter + 1) % 2 ^ 64;
      accepting = v.acceptor_open;
    }

    found : lookup id after.sessions ≡ some (Session.start s)
    found = rw (lookup-insert, (bytes_beq_iff id id).1 refl)

    others :
        (other : List ℕ) → (id ≡ other) ⊎ (lookup other after.sessions ≡ lookup other v.sessions)
    others other = elim (Bool-cases (bytes_beq id other)) [
      | inl same ↦ inl ((bytes_beq_iff id other).0 same)
      | inr differ ↦ inr (rw (lookup-insert, differ))
    ]
