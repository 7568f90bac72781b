-- ===== src/Packet/Data.antt =====
-- streaming_rpc/datapacket.go.
use carlo.Common.{
  false, refl, ◌⊎◌, ◌∙◌, ap, ℕ, ◌+◌, ◌%◌, ◌^◌, ◌≤◌, ◌<◌, ◌≡◌, ◌∙◌, ◌≢◌, [], ◌∷◌, ◌++◌, append_assoc,
  append-nil, arith, length, take, Outcome, ok, err, panic, unexpected_eof, if◌then◌else◌, ltb,
  length-append, Bool-cases, inl, inr, le→ltb,
}
use carlo.Common.Words.{IsU32, be16, be32}
use carlo.Bytesutil.{BytesUtil, IsBigEndian, uint16_be-be16, uint32_be-be32}
use carlo.Reader.{Bytes, Reader, pure, ◌>>=◌, ◌>>◌, need, slice, slice_front, slice_lem, packet_of}

pub record DataPacket : Type 0 where
  pub stream_id : ℕ
  pub payload : Bytes

-- `if uint16(len(buf)) < size { return packet, io.ErrUnexpectedEOF }`: the length is cut to 16 bits
-- before it is compared.
unfoldable pub need_uint16 : ℕ → Reader (Unit {0})
need_uint16 size buf = if ltb (length buf % 2 ^ 16) size then err unexpected_eof else ok (tt, buf)

head_cases :
    (buf : Bytes)
    → (length buf < 6) ⊎ ((a b c d e f : ℕ) × (rest : Bytes) × (buf ≡ a ∷ b ∷ c ∷ d ∷ e ∷ f ∷ rest))
head_cases (a ∷ b ∷ c ∷ d ∷ e ∷ f ∷ rest) = inr (a, b, c, d, e, f, rest, refl)
head_cases [] = inl (omega arith)
head_cases (a ∷ []) = inl (omega arith)
head_cases (a ∷ b ∷ []) = inl (omega arith)
head_cases (a ∷ b ∷ c ∷ []) = inl (omega arith)
head_cases (a ∷ b ∷ c ∷ d ∷ []) = inl (omega arith)
head_cases (a ∷ b ∷ c ∷ d ∷ e ∷ []) = inl (omega arith)

module _ (u : BytesUtil) where
  unfoldable pub append_to : DataPacket → Bytes → Bytes
  append_to p dst =
      u.append_uint16_be (u.append_uint32_be dst p.stream_id) (length p.payload % 2 ^ 16)
      ++ p.payload

  unfoldable pub decode : Reader DataPacket
  decode = do
    need 6
    id_bytes ← slice 4
    size_bytes ← slice 2
    let size = u.uint16_be size_bytes
    need_uint16 size
    payload ← slice size
    pure (record { stream_id = u.uint32_be id_bytes; payload = payload })

  unfoldable pub unmarshal_data_packet : Bytes → Outcome DataPacket
  unmarshal_data_packet buf = packet_of (decode buf)

  -- What follows the six bytes of the head.
  decode_body : ℕ → ℕ → Reader DataPacket
  decode_body id size = do
    need_uint16 size
    payload ← slice size
    pure (record { stream_id = id; payload = payload })

  decode-short : (buf : Bytes) → length buf < 6 → decode buf ≡ err unexpected_eof
  unfolding decode need
  decode-short buf h = ground arith

  decode-long :
      (a b c d e f : ℕ) (buf : Bytes)
      → decode (a ∷ b ∷ c ∷ d ∷ e ∷ f ∷ buf)
        ≡ decode_body (u.uint32_be (a ∷ b ∷ c ∷ d ∷ [])) (u.uint16_be (e ∷ f ∷ [])) buf
  unfolding decode decode_body need slice
  decode-long a b c d e f buf = ground arith

  decode_body-ne-panic : (id size : ℕ) (buf : Bytes) → packet_of (decode_body id size buf) ≢ panic
  unfolding decode_body need_uint16 slice
  decode_body-ne-panic id size buf = elim (Bool-cases (ltb (length buf % 2 ^ 16) size)) [
    | inl short ↦ rw short (λ e. cc)
    | inr fits ↦ let all : ltb (length buf) size ≡ false = ground arith in rw (fits, all) (λ e. cc)
  ]

  -- No input makes `unmarshal_data_packet` panic, although the length is compared by its last 16 bits.
  pub unmarshal_data_packet-ne-panic : (buf : Bytes) → unmarshal_data_packet buf ≢ panic
  unfolding unmarshal_data_packet
  unmarshal_data_packet-ne-panic buf = elim (head_cases buf) [
    | inl short ↦ rw (decode-short buf short) (λ e. cc)
    | inr (a, b, c, d, e, f, rest, p) ↦
        rw (p, decode-long a b c d e f rest) (decode_body-ne-panic _ _ rest)
  ]

abbrev pub data_bytes : DataPacket → Bytes
data_bytes p = be32 p.stream_id ++ (be16 (length p.payload % 2 ^ 16) ++ p.payload)

module _ (u : BytesUtil) (big : IsBigEndian u) where
  pub append_to_lem : (p : DataPacket) (dst : Bytes) → append_to u p dst ≡ dst ++ data_bytes p
  unfolding append_to
  append_to_lem p dst =
      rw (big.append16 _ (length p.payload % 2 ^ 16), big.append32 dst p.stream_id)
        (simp append_assoc)

  decode_lem :
      (p : DataPacket) (rest : Bytes)
      → IsU32 p.stream_id
      → decode u (data_bytes p ++ rest)
        ≡ decode_body u p.stream_id (length p.payload % 2 ^ 16) (p.payload ++ rest)
  decode_lem p rest id =
      decode-long u _ _ _ _ _ _ (p.payload ++ rest)
      ∙ rw (
        uint32_be-be32 u big p.stream_id id,
        uint16_be-be16 u big (length p.payload % 2 ^ 16) (omega arith),
      )

  -- A data packet with bytes behind it is read back, unless its payload and those bytes together
  -- have a length that, cut to 16 bits, is below the payload's own: then the answer is unexpected
  -- EOF.
  pub unmarshal_data_packet-append_to :
      (p : DataPacket) (rest : Bytes)
      → IsU32 p.stream_id
      → length p.payload < 2 ^ 16
      → unmarshal_data_packet u (append_to u p [] ++ rest) ≡ (
          if ltb ((length p.payload + length rest) % 2 ^ 16) (length p.payload)
          then err unexpected_eof
          else ok p)
  unfolding unmarshal_data_packet decode_body need_uint16
  unmarshal_data_packet-append_to p rest id small =
      rw (append_to_lem p [], decode_lem p rest id, same, length-append p.payload rest)
        (elim (Bool-cases (ltb ((length p.payload + length rest) % 2 ^ 16) (length p.payload))) [
          | inl short ↦ rw short
          | inr fits ↦ rw (fits, slice_front p.payload rest)
        ])
    where
      same : length p.payload % 2 ^ 16 ≡ length p.payload
      same = omega (arith, small)

  -- A payload of any length, sent alone, arrives cut to its length modulo 2 ^ 16.
  pub unmarshal_data_packet-append_to_cut :
      (p : DataPacket)
      → IsU32 p.stream_id
      → unmarshal_data_packet u (append_to u p [])
        ≡ ok (record p { payload = take (length p.payload % 2 ^ 16) p.payload })
  unfolding unmarshal_data_packet decode_body need_uint16
  unmarshal_data_packet-append_to_cut p id =
      let size = length p.payload % 2 ^ 16 in
      let enough : size ≤ length p.payload = omega arith in
      rw (append_to_lem p [], whole, need_uint16)
        (rw (le→ltb size size (omega arith), slice_lem size p.payload enough))
    where
      whole :
          decode u (data_bytes p) ≡ decode_body u p.stream_id (length p.payload % 2 ^ 16) p.payload
      whole = rw append-nil at (rw append-nil at (decode_lem p [] id))

  decode_body_short :
      (id size : ℕ) (buf : Bytes)
      → length buf < size
      → size < 2 ^ 16
      → decode_body u id size buf ≡ err unexpected_eof
  unfolding decode_body need_uint16
  decode_body_short id size buf h small = ground arith

  decode_cut :
      (p : DataPacket) (a b c d e f x : ℕ) (buf back : Bytes)
      → length p.payload < 2 ^ 16
      → data_bytes p ≡ a ∷ b ∷ c ∷ d ∷ e ∷ f ∷ (buf ++ x ∷ back)
      → decode u (a ∷ b ∷ c ∷ d ∷ e ∷ f ∷ buf) ≡ err unexpected_eof
  decode_cut p a b c d e f x buf back small cut =
      decode-long u a b c d e f buf ∙ decode_body_short _ _ buf shorter (omega (arith, size))
    where
      sent : u.uint16_be (e ∷ f ∷ []) ≡ u.uint16_be (be16 (length p.payload % 2 ^ 16))
      sent = cc

      size : u.uint16_be (e ∷ f ∷ []) ≡ length p.payload
      size =
          omega (arith, sent, uint16_be-be16 u big (length p.payload % 2 ^ 16) (omega arith), small)

      payload : p.payload ≡ buf ++ x ∷ back
      payload = cc

      shorter : length buf < u.uint16_be (e ∷ f ∷ [])
      shorter = omega (arith, size, ap length payload, length-append buf (x ∷ back))

  -- Every proper prefix of an encoded packet is answered with unexpected EOF.
  pub unmarshal_data_packet_truncated :
      (p : DataPacket) (front : Bytes) (x : ℕ) (back : Bytes)
      → length p.payload < 2 ^ 16
      → append_to u p [] ≡ front ++ x ∷ back
      → unmarshal_data_packet u front ≡ err unexpected_eof
  unfolding unmarshal_data_packet
  unmarshal_data_packet_truncated p front x back small cut = elim (head_cases front) [
    | inl short ↦ rw (decode-short u front short)
    | inr (a, b, c, d, e, f, rest, q) ↦
        rw (q, decode_cut p a b c d e f x rest back small (rw (append_to_lem p [], q) at cut))
  ]
