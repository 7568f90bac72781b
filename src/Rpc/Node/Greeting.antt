-- ===== src/Rpc/Node/Greeting.antt =====
-- A node's own handshake packet, as its peer reads it.
use carlo.Common.{
  ℕ, ◌^◌, ◌<◌, ◌≡◌, refl, sym, ap, ◌∙◌, subst, true, false, List, [], ◌∷◌, append-nil, Option, some,
  Error, arith, length, All, ok, bytes_key,
}
use carlo.Bytesutil.{BytesUtil}
use carlo.Kademlia.{Kademlia, Routing, IsIdCodec, IsKeyOf}
use carlo.Reader.{Bytes}
use carlo.Packet.Handshake.{
  HandshakePacket, append_to, append_payload_to, append_names, unmarshal_handshake_packet, validate,
}
use carlo.Packet.Handshake.Codec.{unmarshal_handshake_packet-append_to}
use carlo.Packet.Handshake.Validate.{IsName, append_names_lem, validate-ok_iff}
use carlo.Rpc.Providers.{keys, register_provider}
use carlo.Rpc.Node.{
  Node, returns, reply, create_handshake_packet, answer_handshake, update_table, handle_handshake,
  handle_message,
}
use carlo.Rpc.Context.{op_code_handshake}
use carlo.Rpc.Node.Turns.{checked-ok}

names_sizes : (ss : List Bytes) → All IsName ss → All (λ s. length s < 2 ^ 8) ss
names_sizes [] h = tt
names_sizes (s ∷ ss) h = (omega (arith, h.0.1), names_sizes ss h.1)

module _ (k : Kademlia) (t : Routing k) where
  -- A node with a valid id, the key of that id, and fewer than 256 services with names that the format can hold.
  pub record IsAdvertised (n : Node k t) (id : k.KadId) : Type 0 where
    pub is_id : n.kad_id ≡ some id
    pub valid : k.validate_id id ≡ true
    pub key : IsKeyOf k t n.secret_key id
    pub names : All IsName (keys n.services)
    pub count : length (keys n.services) < 2 ^ 8

  -- The packet of such a node.
  abbrev pub own_packet : Node k t → k.KadId → HandshakePacket k
  own_packet n id = record {
    kad_id = some id;
    services = keys n.services;
    signature = t.sign n.secret_key (append_names (k.append_id id []) (keys n.services));
  }

  pub create_handshake_packet-own :
      (n : Node k t) (id : k.KadId)
      → n.kad_id ≡ some id
      → create_handshake_packet k t n [] ≡ ok (own_packet n id)
  unfolding create_handshake_packet append_payload_to
  create_handshake_packet-own n id e = rw (e, create_handshake_packet)

  pub own_packet-valid :
      (n : Node k t) (id : k.KadId) → IsAdvertised n id → validate k (own_packet n id) [] ≡ ok tt
  own_packet-valid n id a = (validate-ok_iff k (own_packet n id) []).1 (
    (
      a.valid,
      subst (λ m. k.verify (own_packet n id).signature (k.pub_key id) m ≡ true)
          (append_names_lem (k.append_id id []) (keys n.services)) (a.key.verify_sign _),
    ),
    a.names,
  )

  -- The node with the sender of a handshake registered.
  abbrev pub registered : ℕ → HandshakePacket k → Node k t → Node k t
  registered conn packet n = record n {
    providers = (register_provider conn packet.kad_id packet.services false n.providers).2;
    table = update_table k t packet.kad_id n.table;
  }

  answer_handshake-own :
      (sent : Bytes → Option Error) (conn : ℕ) (n : Node k t) (packet : HandshakePacket k)
      (id : k.KadId)
      → n.kad_id ≡ some id
      → answer_handshake k t sent conn n packet
        ≡ returns
            (registered conn packet n)
            (reply (append_to k (own_packet n id) []) ∷ [])
            (sent (append_to k (own_packet n id) []))
  unfolding answer_handshake
  answer_handshake-own sent conn n packet id e =
      checked-ok k t (registered conn packet n) _ _ (own_packet n id)
        (create_handshake_packet-own (registered conn packet n) id e)

  module _ (codec : IsIdCodec k) (u : BytesUtil) where
    pub own_packet-unmarshal :
        (n : Node k t) (id : k.KadId)
        → IsAdvertised n id
        → unmarshal_handshake_packet k (append_to k (own_packet n id) []) ≡ ok (own_packet n id)
    own_packet-unmarshal n id a =
        ap (unmarshal_handshake_packet k) (sym (append-nil (append_to k (own_packet n id) [])))
        ∙ unmarshal_handshake_packet-append_to k codec (own_packet n id) [] (record {
          service_count = a.count;
          service_sizes = names_sizes (keys n.services) a.names;
          signature_size = a.key.sign_size _;
        })

    -- A valid handshake is answered, after the sender has been registered, with a packet that
    -- `UnmarshalHandshakePacket` reads back and `Validate` accepts: it carries the node's id, the
    -- names of its services and a signature that verifies. The node has a valid id with its key and
    -- fewer than 256 services, with names of UTF-8 text of at most 255 bytes.
    pub handle_message-handshake :
        (sent : Bytes → Option Error) (conn : ℕ) (n : Node k t) (id : k.KadId) (body : Bytes)
        (packet : HandshakePacket k)
        → IsAdvertised n id
        → unmarshal_handshake_packet k body ≡ ok packet
        → validate k packet [] ≡ ok tt
        → (message : Bytes) × (answer : HandshakePacket k) × (handle_message k t u sent conn n
              (op_code_handshake ∷ body)
            ≡ returns (registered conn packet n) (reply message ∷ []) (sent message))
          × (unmarshal_handshake_packet k message ≡ ok answer)
          × (validate k answer [] ≡ ok tt)
          × (answer.kad_id ≡ some id)
          × (answer.services ≡ keys n.services)
    unfolding handle_message handle_handshake
    handle_message-handshake sent conn n id body packet a decoded valid = (
      append_to k (own_packet n id) [],
      own_packet n id,
      checked-ok k t n _ _ packet decoded
          ∙ checked-ok k t n (λ _. answer_handshake k t sent conn n packet) _ tt valid
          ∙ answer_handshake-own sent conn n packet id a.is_id,
      own_packet-unmarshal n id a,
      own_packet-valid n id a,
      refl,
      refl,
    )
