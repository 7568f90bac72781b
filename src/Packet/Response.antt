-- ===== src/Packet/Response.antt =====
-- streaming_rpc/serviceresponsepacket.go.
use carlo.Common.{
  ℕ, ◌≡◌, refl, ◌∙◌, ◌≢◌, Bool, true, false, [], ◌∷◌, ◌++◌, append_assoc, append-nil, Option, some,
  arith, Outcome, ok, err, panic, unexpected_eof, if◌then◌else◌, ◌==◌,
}
use mathlib.Core.Path.{fun_ext}
use carlo.Common.Words.{IsU32, be32}
use carlo.Bytesutil.{BytesUtil, IsBigEndian, uint32_be-be32}
use carlo.Reader.{
  Bytes, Reader, Reads, pure, ◌>>=◌, ◌>>◌, need, next_byte, slice, slice-append, IsSafe,
  pure-IsSafe, slice-IsSafe, next_byte-IsSafe, bind-IsSafe, need-next_byte, packet_of,
  IsSafe-ne-panic, IsSafe-truncated,
}
use carlo.Packet.Headers.{
  Headers, headers_bytes, entries, FitsMap, append_headers, read_headers, append_headers_lem,
  read_headers-Reads, read_headers-IsSafe,
}

pub record ServiceResponsePacket : Type 0 where
  pub stream_id : ℕ
  pub handled : Bool
  pub headers : Option Headers

-- The sizes that the wire format can hold.
pub record IsEncodable (p : ServiceResponsePacket) : Type 0 where
  pub stream_id : IsU32 p.stream_id
  pub headers : FitsMap p.headers

abbrev pub flag : Bool → ℕ
flag true = 1
flag false = 0

abbrev pub response_bytes : ServiceResponsePacket → Bytes
response_bytes p = be32 p.stream_id ++ flag p.handled ∷ headers_bytes p.headers

append_flag :
    (dst : Bytes) (b : Bool) → (if b then dst ++ 1 ∷ [] else dst ++ 0 ∷ []) ≡ dst ++ flag b ∷ []
append_flag dst true = refl
append_flag dst false = refl

read_flag : (b : Bool) → (flag b == 1) ≡ b
read_flag true = refl
read_flag false = refl

module _ (u : BytesUtil) where
  unfoldable pub append_to : ServiceResponsePacket → Bytes → Bytes
  append_to p dst =
      let dst1 = u.append_uint32_be dst p.stream_id in
      let dst2 = if p.handled then dst1 ++ 1 ∷ [] else dst1 ++ 0 ∷ [] in
      append_headers u dst2 p.headers

  -- One check covers the id and the flag.
  unfoldable pub decode : Reader ServiceResponsePacket
  decode = do
    need 5
    id_bytes ← slice 4
    b ← next_byte
    headers ← read_headers u
    pure (record { stream_id = u.uint32_be id_bytes; handled = b == 1; headers = some headers })

  unfoldable pub unmarshal_service_response_packet : Bytes → Outcome ServiceResponsePacket
  unmarshal_service_response_packet buf = packet_of (decode buf)

  front5 : Reader (Bytes × ℕ)
  front5 = do
    id_bytes ← do need 4; slice 4
    b ← do need 1; next_byte
    pure (id_bytes, b)

  front5-IsSafe : IsSafe front5
  unfolding front5
  front5-IsSafe =
      bind-IsSafe _ _ (slice-IsSafe 4)
        λ bytes. bind-IsSafe _ _ next_byte-IsSafe λ b. pure-IsSafe (bytes, b)

  -- The fields behind the first five bytes.
  decode_rest : Bytes × ℕ → Reader ServiceResponsePacket
  decode_rest (id_bytes, b) = do
    headers ← read_headers u
    pure (record { stream_id = u.uint32_be id_bytes; handled = b == 1; headers = some headers })

  decode-front5 : (buf : Bytes) → decode buf ≡ (front5 >>= decode_rest) buf
  unfolding decode front5 decode_rest need slice next_byte
  decode-front5 [] = refl
  decode-front5 (a ∷ []) = refl
  decode-front5 (a ∷ b ∷ []) = refl
  decode-front5 (a ∷ b ∷ c ∷ []) = refl
  decode-front5 (a ∷ b ∷ c ∷ d ∷ []) = refl
  decode-front5 (a ∷ b ∷ c ∷ d ∷ e ∷ buf) = ground arith

  front5_rest-IsSafe : IsSafe (front5 >>= decode_rest)
  unfolding decode_rest
  front5_rest-IsSafe =
      bind-IsSafe _ _ front5-IsSafe
        λ f. bind-IsSafe _ _ (read_headers-IsSafe u) λ headers. pure-IsSafe _

  pub decode-IsSafe : IsSafe decode
  decode-IsSafe = rw (fun_ext decode-front5) front5_rest-IsSafe

  -- No input makes `unmarshal_service_response_packet` panic.
  pub unmarshal_service_response_packet-ne-panic :
      (buf : Bytes) → unmarshal_service_response_packet buf ≢ panic
  unfolding unmarshal_service_response_packet
  unmarshal_service_response_packet-ne-panic = IsSafe-ne-panic decode decode-IsSafe

module _ (u : BytesUtil) (big : IsBigEndian u) where
  pub append_to_lem :
      (p : ServiceResponsePacket) (dst : Bytes) → append_to u p dst ≡ dst ++ response_bytes p
  unfolding append_to
  append_to_lem p dst =
      append_headers_lem u big _ p.headers
      ∙ rw (big.append32 dst p.stream_id, append_flag (dst ++ be32 p.stream_id) p.handled)
          (simp append_assoc)

  decode-Reads :
      (p : ServiceResponsePacket)
      → IsEncodable p
      → Reads (decode u) (response_bytes p) (record p { headers = some (entries p.headers) })
  unfolding front5 decode_rest next_byte
  decode-Reads p fits rest = rw (decode-front5 u) (
      simp append_assoc (
        rw (
          slice-append (be32 p.stream_id) (flag p.handled ∷ (headers_bytes p.headers ++ rest)),
          need-next_byte (flag p.handled) (headers_bytes p.headers ++ rest),
          read_flag p.handled,
          read_headers-Reads u big p.headers fits.headers rest,
          uint32_be-be32 u big p.stream_id fits.stream_id,
        )))

  -- A packet whose parts fit the wire format is read back, whatever bytes follow it; a nil header
  -- map comes back as an empty one.
  pub unmarshal_service_response_packet-append_to :
      (p : ServiceResponsePacket) (rest : Bytes)
      → IsEncodable p
      → unmarshal_service_response_packet u (append_to u p [] ++ rest)
        ≡ ok (record p { headers = some (entries p.headers) })
  unfolding unmarshal_service_response_packet
  unmarshal_service_response_packet-append_to p rest fits =
      rw (append_to_lem p [], decode-Reads p fits rest)

  -- Every proper prefix of an encoded packet is answered with unexpected EOF.
  pub unmarshal_service_response_packet_truncated :
      (p : ServiceResponsePacket) (front : Bytes) (x : ℕ) (back : Bytes)
      → IsEncodable p
      → append_to u p [] ≡ front ++ x ∷ back
      → unmarshal_service_response_packet u front ≡ err unexpected_eof
  unfolding unmarshal_service_response_packet
  unmarshal_service_response_packet_truncated p front x back fits cut = rw (
      IsSafe-truncated (decode u) (decode-IsSafe u) front x back _
        (rw (append-nil, ← append_to_lem p [], cut) at (decode-Reads p fits [])))
