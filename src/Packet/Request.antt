-- ===== src/Packet/Request.antt =====
-- streaming_rpc/servicerequestpacket.go. The stream id is a uint32, written as a natural number.
use carlo.Common.{
  ℕ, ◌%◌, ◌^◌, ◌<◌, ◌≡◌, refl, sym, ◌∙◌, ◌≢◌, ◌↔◌, List, [], ◌∷◌, ◌++◌, append_assoc, append-nil,
  Option, some, arith, length, All, Outcome, ok, err, panic, unexpected_eof,
}
use carlo.Common.Words.{IsU32, be32}
use carlo.Bytesutil.{BytesUtil, IsBigEndian, uint32_be-be32}
use native.Mathlib.Decide.{ℕ_discrete}
use carlo.Reader.{
  Bytes, Reader, Reads, pure, ◌>>=◌, ◌>>◌, need, next_byte, slice, slice-append, IsSafe,
  pure-IsSafe, slice-IsSafe, next_byte-IsSafe, bind-IsSafe, packet_of, IsSafe-ne-panic,
  IsSafe-truncated,
}
use carlo.Packet.Services.{
  append_services, read_services, services_bytes, append_services_lem, read_services-Reads,
  read_services-IsSafe,
}
use carlo.Packet.Headers.{
  Headers, headers_bytes, entries, FitsMap, append_headers, read_headers, append_headers_lem,
  read_headers-Reads, read_headers-IsSafe,
}

pub record ServiceRequestPacket : Type 0 where
  pub stream_id : ℕ
  pub services : List Bytes
  pub headers : Option Headers

-- The sizes that the wire format can hold.
pub record IsEncodable (p : ServiceRequestPacket) : Type 0 where
  pub stream_id : IsU32 p.stream_id
  pub service_count : length p.services < 2 ^ 8
  pub service_sizes : All (λ s. length s < 2 ^ 8) p.services
  pub headers : FitsMap p.headers

abbrev pub request_bytes : ServiceRequestPacket → Bytes
request_bytes p =
    be32 p.stream_id
    ++ ((length p.services % 2 ^ 8) ∷ (services_bytes p.services ++ headers_bytes p.headers))

module _ (u : BytesUtil) where
  unfoldable pub append_to : ServiceRequestPacket → Bytes → Bytes
  append_to p dst =
      let dst1 = u.append_uint32_be dst p.stream_id in
      let dst2 = dst1 ++ (length p.services % 2 ^ 8) ∷ [] in
      append_headers u (append_services dst2 p.services) p.headers

  -- The number of services is read with no check that a byte is there.
  unfoldable pub decode : Reader ServiceRequestPacket
  decode = do
    id_bytes ← do need 4; slice 4
    size ← next_byte
    services ← read_services size
    headers ← read_headers u
    pure (record { stream_id = u.uint32_be id_bytes; services = services; headers = some headers })

  unfoldable pub unmarshal_service_request_packet : Bytes → Outcome ServiceRequestPacket
  unmarshal_service_request_packet buf = packet_of (decode buf)

  -- The same with the check; the two differ on four bytes only.
  checked_decode : Reader ServiceRequestPacket
  checked_decode = do
    id_bytes ← do need 4; slice 4
    size ← do need 1; next_byte
    services ← read_services size
    headers ← read_headers u
    pure (record { stream_id = u.uint32_be id_bytes; services = services; headers = some headers })

  checked_decode-IsSafe : IsSafe checked_decode
  unfolding checked_decode
  checked_decode-IsSafe = bind-IsSafe _ _ (slice-IsSafe 4) λ b.
      bind-IsSafe _ _ next_byte-IsSafe λ size.
        bind-IsSafe _ _ (read_services-IsSafe size)
          λ services. bind-IsSafe _ _ (read_headers-IsSafe u) λ headers. pure-IsSafe _

  decode-checked : (buf : Bytes) → length buf ≢ 4 → decode buf ≡ checked_decode buf
  unfolding decode checked_decode need slice next_byte
  decode-checked [] h = refl
  decode-checked (a ∷ []) h = refl
  decode-checked (a ∷ b ∷ []) h = refl
  decode-checked (a ∷ b ∷ c ∷ []) h = refl
  decode-checked (a ∷ b ∷ c ∷ d ∷ []) h = absurd (h refl)
  decode-checked (a ∷ b ∷ c ∷ d ∷ e ∷ buf) h = ground arith

  four_bytes : (buf : Bytes) → length buf ≡ 4 → unmarshal_service_request_packet buf ≡ panic
  unfolding unmarshal_service_request_packet decode need slice next_byte
  four_bytes [] h = absurd (omega arith)
  four_bytes (a ∷ []) h = absurd (omega arith)
  four_bytes (a ∷ b ∷ []) h = absurd (omega arith)
  four_bytes (a ∷ b ∷ c ∷ []) h = absurd (omega arith)
  four_bytes (a ∷ b ∷ c ∷ d ∷ []) h = refl
  four_bytes (a ∷ b ∷ c ∷ d ∷ e ∷ buf) h = absurd (omega arith)

  -- `unmarshal_service_request_packet` panics on the inputs of exactly four bytes, and on no other.
  pub unmarshal_service_request_packet-panic_iff :
      (buf : Bytes) → (unmarshal_service_request_packet buf ≡ panic) ↔ (length buf ≡ 4)
  unfolding unmarshal_service_request_packet
  unmarshal_service_request_packet-panic_iff buf = (only_four, four_bytes buf)
    where
      only_four : unmarshal_service_request_packet buf ≡ panic → length buf ≡ 4
      only_four e = elim (ℕ_discrete (length buf) 4) [
        | yes four ↦ four
        | no other ↦ absurd (
            IsSafe-ne-panic checked_decode checked_decode-IsSafe buf
              (rw (decode-checked buf other) at e))
      ]

module _ (u : BytesUtil) (big : IsBigEndian u) where
  pub append_to_lem :
      (p : ServiceRequestPacket) (dst : Bytes) → append_to u p dst ≡ dst ++ request_bytes p
  unfolding append_to
  append_to_lem p dst =
      rw
        (
          append_headers_lem u big _ p.headers,
          append_services_lem _ p.services,
          big.append32 dst p.stream_id,
        )
        (simp append_assoc)

  pub decode-Reads :
      (p : ServiceRequestPacket)
      → IsEncodable p
      → Reads (decode u) (request_bytes p) (record p { headers = some (entries p.headers) })
  unfolding decode next_byte
  decode-Reads p fits rest =
      let tail = headers_bytes p.headers ++ rest in
      simp append_assoc (
        rw (
          slice-append (be32 p.stream_id)
              ((length p.services % 2 ^ 8) ∷ (services_bytes p.services ++ tail)),
          small_count,
          read_services-Reads p.services fits.service_sizes tail,
          read_headers-Reads u big p.headers fits.headers rest,
          uint32_be-be32 u big p.stream_id fits.stream_id,
        ))
    where
      small_count : length p.services % 2 ^ 8 ≡ length p.services
      small_count = omega (arith, fits.service_count)

  -- A packet whose parts fit the wire format is read back, whatever bytes follow it; a nil header
  -- map comes back as an empty one.
  pub unmarshal_service_request_packet-append_to :
      (p : ServiceRequestPacket) (rest : Bytes)
      → IsEncodable p
      → unmarshal_service_request_packet u (append_to u p [] ++ rest)
        ≡ ok (record p { headers = some (entries p.headers) })
  unfolding unmarshal_service_request_packet
  unmarshal_service_request_packet-append_to p rest fits =
      rw (append_to_lem p [], decode-Reads p fits rest)

  -- Every proper prefix of an encoded packet but the one of four bytes is answered with unexpected
  -- EOF.
  pub unmarshal_service_request_packet_truncated :
      (p : ServiceRequestPacket) (front : Bytes) (x : ℕ) (back : Bytes)
      → IsEncodable p
      → append_to u p [] ≡ front ++ x ∷ back
      → length front ≢ 4
      → unmarshal_service_request_packet u front ≡ err unexpected_eof
  unfolding unmarshal_service_request_packet
  unmarshal_service_request_packet_truncated p front x back fits cut other =
      rw (decode-checked u front other, prefix)
    where
      whole :
          decode u (front ++ x ∷ back) ≡ ok (record p { headers = some (entries p.headers) }, [])
      whole = rw (append-nil, ← append_to_lem p [], cut) at (decode-Reads p fits [])

      long : length (front ++ x ∷ back) ≢ 4
      long = rw (← cut, append_to_lem p []) (omega arith)

      prefix : checked_decode u front ≡ err unexpected_eof
      prefix =
          IsSafe-truncated (checked_decode u) (checked_decode-IsSafe u) front x back _
            (sym (decode-checked u _ long) ∙ whole)
