-- ===== src/Packet/Handshake.antt =====
-- streaming_rpc/handshakepacket.go: the packet and its codec. A Go string is the list of its bytes.
pub mod Codec
pub mod Validate
use carlo.Common.{
  ℕ, ◌%◌, ◌^◌, ◌<◌, ◌≡◌, Bool, true, false, List, [], ◌∷◌, ◌++◌, Option, none, some, length, All,
  Outcome, ok, err, panic, Error, other_error, invalid_utf8, too_large, bad_signature, ◌==◌, ltb,
  not, if◌then◌else◌, replicate,
}
use carlo.Kademlia.{Kademlia}
use carlo.Reader.{Bytes, Reader, pure, ◌>>=◌, ◌>>◌, need, next_byte, slice, packet_of}
use carlo.Packet.Services.{append_services, read_services}
use carlo.Packet.Utf8.{valid_string}

-- `for _, service := range h.Services { dst = append(dst, service...) }`
unfoldable pub append_names : Bytes → List Bytes → Bytes
append_names dst [] = dst
append_names dst (s ∷ ss) = append_names (dst ++ s) ss

-- The loop of `Validate`: the first name that is refused decides the error.
unfoldable pub check_services : List Bytes → Option Error
check_services [] = none
check_services (s ∷ ss) =
    if not (valid_string s)
    then some invalid_utf8
    else if ltb 255 (length s)
    then some too_large
    else check_services ss

module _ (k : Kademlia) where
  -- The signature is an array of `SizeSignature` bytes.
  pub record HandshakePacket : Type 0 where
    pub kad_id : Option k.KadId
    pub services : List Bytes
    pub signature : Bytes

  -- The sizes that the wire format can hold.
  pub record IsEncodable (h : HandshakePacket) : Type 0 where
    pub service_count : length h.services < 2 ^ 8
    pub service_sizes : All (λ s. length s < 2 ^ 8) h.services
    pub signature_size : length h.signature ≡ k.size_signature

  unfoldable pub append_to : HandshakePacket → Bytes → Bytes
  append_to h dst =
      let dst1 : Bytes = elim h.kad_id [
        | some id ↦ k.append_id id (dst ++ 1 ∷ [])
        | none ↦ dst ++ 0 ∷ []
      ] in
      let dst2 = append_services (dst1 ++ (length h.services % 2 ^ 8) ∷ []) h.services in
      elim h.kad_id [ some id ↦ dst2 ++ h.signature | none ↦ dst2 ]

  -- `if hasID { id, leftover, err := kademlia.UnmarshalID(buf) ... }`
  unfoldable pub read_id : Bool → Reader (Option k.KadId)
  read_id false buf = ok (none, buf)
  read_id true buf = elim (k.unmarshal_id buf) [
    | none ↦ err other_error
    | some (id, leftover) ↦ ok (some id, leftover)
  ]

  -- Without an id the signature keeps its zero value.
  unfoldable pub read_signature : Bool → Reader Bytes
  read_signature false = pure (replicate k.size_signature 0)
  read_signature true = do need k.size_signature; slice k.size_signature

  -- The check of the number of services against the bytes left is part of the code.
  unfoldable pub decode : Reader HandshakePacket
  decode = do
    b ← do need 1; next_byte
    let has_id = b == 1
    id ← read_id has_id
    size ← do need 1; next_byte
    need size
    services ← read_services size
    signature ← read_signature has_id
    pure (record { kad_id = id; services = services; signature = signature })

  unfoldable pub unmarshal_handshake_packet : Bytes → Outcome HandshakePacket
  unmarshal_handshake_packet buf = packet_of (decode buf)

  -- `AppendPayloadTo` reads the id through its pointer, which must not be nil.
  unfoldable pub append_payload_to : HandshakePacket → Bytes → Outcome Bytes
  append_payload_to h dst = elim h.kad_id [
    | some id ↦ ok (append_names (k.append_id id dst) h.services)
    | none ↦ panic
  ]

  -- `if h.KadId != nil && !h.Signature.Verify(h.KadId.Pub, h.AppendPayloadTo(dst))`
  unfoldable pub check_signature : HandshakePacket → Bytes → Outcome (Unit {0})
  check_signature h dst = elim h.kad_id [
    | none ↦ ok tt
    | some id ↦ elim (append_payload_to h dst) [
      | ok payload ↦
          if not (k.verify h.signature (k.pub_key id) payload) then err bad_signature else ok tt
      | err e ↦ err e
      | panic ↦ panic
    ]
  ]

  unfoldable pub check_id : Option k.KadId → Option Error
  check_id none = none
  check_id (some id) = if k.validate_id id then none else some other_error

  unfoldable pub validate : HandshakePacket → Bytes → Outcome (Unit {0})
  validate h dst = elim (check_id h.kad_id) [
    | some e ↦ err e
    | none ↦ elim (check_services h.services) [ some e ↦ err e | none ↦ check_signature h dst ]
  ]
