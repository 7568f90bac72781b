-- ===== src/Packet/Handshake/Codec.antt =====
-- `AppendTo` and `UnmarshalHandshakePacket` are inverse to each other.
use carlo.Common.{
  ℕ, sym, ap, ◌∙◌, ◌%◌, ◌^◌, ◌≤◌, ◌<◌, ◌≡◌, refl, ◌≢◌, Bool, true, false, List, [], ◌∷◌, ◌++◌,
  append_assoc, append-nil, Option, none, some, arith, length, length-append, ok, panic, ◌==◌,
  replicate, Option-cases, inl, inr, subst,
}
use carlo.Kademlia.{Kademlia, IsIdCodec}
use carlo.Reader.{
  Bytes, Reads, ◌>>◌, need, next_byte, slice, slice-append, need_lem, need-next_byte, slice-IsSafe,
  next_byte-IsSafe, IsPanicFree, bind-IsPanicFree, IsSafe-IsPanicFree, pure-IsPanicFree,
  packet_of-ne-panic, need-IsPanicFree,
}
use carlo.Packet.Services.{
  services_bytes, append_services_lem, read_services-Reads, read_services-IsSafe,
}
use carlo.Packet.Handshake.{
  HandshakePacket, IsEncodable, append_to, read_id, read_signature, decode,
  unmarshal_handshake_packet,
}

module _ (k : Kademlia) where
  read_id-IsPanicFree : (b : Bool) → IsPanicFree (read_id k b)
  unfolding read_id
  read_id-IsPanicFree false buf = λ e. cc
  read_id-IsPanicFree true buf = ground arith

  read_signature-IsPanicFree : (b : Bool) → IsPanicFree (read_signature k b)
  unfolding read_signature
  read_signature-IsPanicFree false = pure-IsPanicFree (replicate k.size_signature 0)
  read_signature-IsPanicFree true = IsSafe-IsPanicFree _ (slice-IsSafe k.size_signature)

  decode-IsPanicFree : IsPanicFree (decode k)
  unfolding decode
  decode-IsPanicFree = bind-IsPanicFree _ _ (IsSafe-IsPanicFree _ next_byte-IsSafe) λ b.
      bind-IsPanicFree _ _ (read_id-IsPanicFree (b == 1)) λ id.
        bind-IsPanicFree _ _ (IsSafe-IsPanicFree _ next_byte-IsSafe) λ size.
          bind-IsPanicFree _ _ (need-IsPanicFree size) λ _.
            bind-IsPanicFree _ _ (IsSafe-IsPanicFree _ (read_services-IsSafe size)) λ services.
              bind-IsPanicFree _ _ (read_signature-IsPanicFree (b == 1))
                λ signature. pure-IsPanicFree _

  -- No input makes `unmarshal_handshake_packet` panic.
  pub unmarshal_handshake_packet-ne-panic : (buf : Bytes) → unmarshal_handshake_packet k buf ≢ panic
  unfolding unmarshal_handshake_packet
  unmarshal_handshake_packet-ne-panic buf =
      packet_of-ne-panic (decode k buf) (decode-IsPanicFree buf)

  read_id-none : Reads (read_id k false) [] none
  unfolding read_id
  read_id-none rest = refl

module _ (k : Kademlia) (codec : IsIdCodec k) where
  -- What the wire holds for an id with the flag in front of it.
  abbrev id_bytes : Option k.KadId → Bytes
  id_bytes none = 0 ∷ []
  id_bytes (some id) = 1 ∷ k.append_id id []

  abbrev signature_bytes : HandshakePacket k → Bytes
  signature_bytes h = elim h.kad_id [ some id ↦ h.signature | none ↦ [] ]

  abbrev handshake_bytes : HandshakePacket k → Bytes
  handshake_bytes h =
      id_bytes h.kad_id
      ++ ((length h.services % 2 ^ 8) ∷ (services_bytes h.services ++ signature_bytes h))

  append_to_lem :
      (h : HandshakePacket k) (dst : Bytes) → append_to k h dst ≡ dst ++ handshake_bytes h
  unfolding append_to
  append_to_lem h dst = go h.kad_id
    where
      go :
          (o : Option k.KadId)
          → append_to k (record h { kad_id = o }) dst
            ≡ dst ++ handshake_bytes (record h { kad_id = o })
      go none = rw (append_services_lem _ h.services) (simp (append_assoc, append-nil))
      go (some id) =
          rw (append_services_lem _ h.services, codec.append_id_lem id (dst ++ 1 ∷ []))
            (simp append_assoc)

  -- What stands in front of the packet stays in front of it.
  pub append_to-cons :
      (h : HandshakePacket k) (b : ℕ) → append_to k h (b ∷ []) ≡ b ∷ append_to k h []
  append_to-cons h b = append_to_lem h (b ∷ []) ∙ ap (◌∷◌ b) (sym (append_to_lem h []))

  length-services_bytes : (ss : List Bytes) → length ss ≤ length (services_bytes ss)
  length-services_bytes [] = omega arith
  length-services_bytes (s ∷ ss) =
      omega (arith, length-services_bytes ss, length-append s (services_bytes ss))

  -- The packet as it is read: without an id its signature is zero.
  abbrev pub received : HandshakePacket k → HandshakePacket k
  received h = elim h.kad_id [
    | some id ↦ h
    | none ↦ record h { signature = replicate k.size_signature 0 }
  ]

  enough_bytes : (ss : List Bytes) (rest : Bytes) → length ss ≤ length (services_bytes ss ++ rest)
  enough_bytes ss rest =
      omega (arith, length-services_bytes ss, length-append (services_bytes ss) rest)

  small_count : (ss : List Bytes) → length ss < 2 ^ 8 → length ss % 2 ^ 8 ≡ length ss
  small_count ss h = omega arith

  decode_anonymous :
      (h : HandshakePacket k) (rest : Bytes)
      → IsEncodable k h
      → h.kad_id ≡ none
      → decode k (handshake_bytes h ++ rest) ≡ ok (received h, rest)
  unfolding decode read_id read_signature next_byte
  decode_anonymous h rest fits e =
      let count = length h.services in
      rw e (
        simp append-nil (
          rw (
            need-next_byte 0 ((count % 2 ^ 8) ∷ (services_bytes h.services ++ rest)),
            need-next_byte (count % 2 ^ 8) (services_bytes h.services ++ rest),
            small_count h.services fits.service_count,
            need_lem count (services_bytes h.services ++ rest) (enough_bytes h.services rest),
            read_services-Reads h.services fits.service_sizes rest,
          )))

  read_signature_lem :
      (sig rest : Bytes)
      → length sig ≡ k.size_signature
      → read_signature k true (sig ++ rest) ≡ ok (sig, rest)
  unfolding read_signature
  read_signature_lem sig rest h =
      subst (λ n. (need n >> slice n) (sig ++ rest) ≡ ok (sig, rest)) h (slice-append sig rest)

  decode_named :
      (h : HandshakePacket k) (id : k.KadId) (rest : Bytes)
      → IsEncodable k h
      → h.kad_id ≡ some id
      → decode k (handshake_bytes h ++ rest) ≡ ok (received h, rest)
  unfolding decode read_id next_byte
  decode_named h id rest fits e =
      let count = length h.services in
      let tail = services_bytes h.services ++ (h.signature ++ rest) in
      rw e (
        simp append_assoc (
          rw (
            need-next_byte 1 (k.append_id id [] ++ ((count % 2 ^ 8) ∷ tail)),
            codec.unmarshal_id_lem id ((count % 2 ^ 8) ∷ tail),
            need-next_byte (count % 2 ^ 8) tail,
            small_count h.services fits.service_count,
            need_lem count tail (enough_bytes h.services (h.signature ++ rest)),
            read_services-Reads h.services fits.service_sizes (h.signature ++ rest),
            read_signature_lem h.signature rest fits.signature_size,
          )))

  decode_lem :
      (h : HandshakePacket k) (rest : Bytes)
      → IsEncodable k h
      → decode k (handshake_bytes h ++ rest) ≡ ok (received h, rest)
  decode_lem h rest fits = elim (Option-cases h.kad_id) [
    | inl e ↦ decode_anonymous h rest fits e
    | inr (id, e) ↦ decode_named h id rest fits e
  ]

  -- A packet whose parts fit the wire format is read back, whatever bytes follow it; without an id
  -- the signature is read as zero bytes.
  pub unmarshal_handshake_packet-append_to :
      (h : HandshakePacket k) (rest : Bytes)
      → IsEncodable k h
      → unmarshal_handshake_packet k (append_to k h [] ++ rest) ≡ ok (received h)
  unfolding unmarshal_handshake_packet
  unmarshal_handshake_packet-append_to h rest fits = rw (append_to_lem h [], decode_lem h rest fits)
