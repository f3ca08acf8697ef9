-- ===== src/Protocol/Factory.antt =====
-- asio-1.28_server_multi_protocol/src/test.cpp, `ProtocolFactory` and `register_protocols`.
-- A creator is the handler that it makes: each call makes an equal one.
use asio_client.Common.{
  ◌≡◌, ◌⊎◌, ◌↔◌, refl, inl, inr, Option, some, List, [], ◌∷◌, String, Dict, lookup, insert,
  string_eq, eq_iff, codes, to_string, arith,
}
use asio_client.Protocol.Handler.{ProtocolHandler, line, fixed_length, binary, name}

abbrev pub ProtocolFactory : Type 0
ProtocolFactory = Dict String ProtocolHandler

unfoldable pub register_protocol : String → ProtocolHandler → ProtocolFactory → ProtocolFactory
register_protocol key creator protocols = insert key creator protocols

-- `none` is `nullptr`.
unfoldable pub create : String → ProtocolFactory → Option ProtocolHandler
create key protocols = lookup key protocols

-- In the order of registration; `unordered_map` leaves the order open.
unfoldable pub available_protocols : ProtocolFactory → List String
available_protocols [] = []
available_protocols ((key, creator) ∷ protocols) = key ∷ available_protocols protocols

unfoldable pub register_protocols : ProtocolFactory → ProtocolFactory
unfolding register_protocol
register_protocols protocols = register_protocol "binary" binary (
    register_protocol "fixed-256" (fixed_length 256)
      (register_protocol "fixed-128" (fixed_length 128) (register_protocol "line" line protocols)))

-- The registered pairs of a name and the handler that it stands for.
abbrev pub Registered : String → ProtocolHandler → Type 0
Registered key handler =
    (key ≡ "line") × (handler ≡ line)
    ⊎ (key ≡ "fixed-128") × (handler ≡ fixed_length 128)
    ⊎ (key ≡ "fixed-256") × (handler ≡ fixed_length 256)
    ⊎ (key ≡ "binary") × (handler ≡ binary)

create-Registered :
    (key : String) (handler : ProtocolHandler)
    → create key (register_protocols []) ≡ some handler
    → Registered key handler
unfolding create register_protocols lookup insert
create-Registered key handler e =
    ground (
      arith,
      eq_iff "line" key,
      eq_iff "fixed-128" key,
      eq_iff "fixed-256" key,
      eq_iff "binary" key,
    )

Registered-create :
    (key : String) (handler : ProtocolHandler)
    → Registered key handler
    → (create key (register_protocols []) ≡ some handler) × (name handler ≡ codes key)
unfolding create register_protocols lookup insert name to_string
Registered-create key handler (inl (k, h)) = rw (k, h) (refl, refl)
Registered-create key handler (inr (inl (k, h))) = rw (k, h) (refl, refl)
Registered-create key handler (inr (inr (inl (k, h)))) = rw (k, h) (refl, refl)
Registered-create key handler (inr (inr (inr (k, h)))) = rw (k, h) (refl, refl)

-- After `register_protocols` on an empty factory, `create` finds a handler for exactly the four
-- registered names, each the handler that belongs to the name and that reports it.
pub create-register_protocols :
    (key : String) (handler : ProtocolHandler)
    → (create key (register_protocols []) ≡ some handler)
      ↔ (Registered key handler × (name handler ≡ codes key))
create-register_protocols key handler = (
  λ e. let r = create-Registered key handler e in (r, (Registered-create key handler r).1),
  λ r. (Registered-create key handler r.0).0,
)
