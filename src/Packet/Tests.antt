-- ===== src/Packet/Tests.antt =====
-- The packets at concrete inputs: tests of the codecs, and the theorems at inputs that meet their
-- hypotheses.
use carlo.Common.{
  ℕ, ◌≡◌, refl, ◌↔◌, true, false, [], ◌∷◌, ◌++◌, none, some, arith, length, ok, err, panic,
  unexpected_eof, All,
}
use carlo.Bytesutil.Instance.{big_endian, big_endian-IsBigEndian}
use carlo.Kademlia.Instance.{toy, toy-IsIdCodec}
use carlo.Packet.Utf8.{valid_string, scan, scan_byte}
use carlo.Packet.Request.{ServiceRequestPacket}
use carlo.Packet.Request
use carlo.Packet.Response.{ServiceResponsePacket}
use carlo.Packet.Response
use carlo.Packet.Data.{DataPacket}
use carlo.Packet.Data
use carlo.Packet.Handshake.{HandshakePacket}
use carlo.Packet.Handshake
use carlo.Packet.Handshake.Codec
use carlo.Packet.Handshake.Validate
use carlo.Packet.Services.{append_services}
use carlo.Packet.Headers.{append_headers, append_entries}

valid_euro : valid_string (0x61 ∷ 0xe2 ∷ 0x82 ∷ 0xac ∷ []) ≡ true
unfolding valid_string scan scan_byte
valid_euro = refl

invalid_surrogate : valid_string (0xed ∷ 0xa0 ∷ 0x80 ∷ []) ≡ false
unfolding valid_string scan scan_byte
invalid_surrogate = refl

invalid_cut : valid_string (0xe2 ∷ 0x82 ∷ []) ≡ false
unfolding valid_string scan scan_byte
invalid_cut = refl

abbrev request : ServiceRequestPacket
request = record {
  stream_id = 70000;
  services = (0x61 ∷ 0x62 ∷ []) ∷ [] ∷ [];
  headers = some ((((0x6b ∷ []), (0x76 ∷ 0x77 ∷ []))) ∷ []);
}

request-IsEncodable : Request.IsEncodable request
request-IsEncodable = omega arith

unmarshal_service_request_packet-append_to_example :
    Request.unmarshal_service_request_packet big_endian
      (Request.append_to big_endian request [] ++ 9 ∷ [])
    ≡ ok request
unmarshal_service_request_packet-append_to_example =
    Request.unmarshal_service_request_packet-append_to big_endian big_endian-IsBigEndian request
      (9 ∷ []) request-IsEncodable

unmarshal_service_request_packet-panic_iff_example :
    (Request.unmarshal_service_request_packet big_endian (0 ∷ 0 ∷ 0 ∷ 7 ∷ []) ≡ panic)
    ↔ (length {A = ℕ} (0 ∷ 0 ∷ 0 ∷ 7 ∷ []) ≡ 4)
unmarshal_service_request_packet-panic_iff_example =
    Request.unmarshal_service_request_packet-panic_iff big_endian (0 ∷ 0 ∷ 0 ∷ 7 ∷ [])

abbrev empty_request : ServiceRequestPacket
empty_request = record { stream_id = 258; services = []; headers = none }

unmarshal_service_request_packet_truncated_example :
    Request.unmarshal_service_request_packet big_endian (0 ∷ 0 ∷ 1 ∷ 2 ∷ 0 ∷ 0 ∷ [])
    ≡ err unexpected_eof
unfolding Request.append_to append_services append_headers
unmarshal_service_request_packet_truncated_example =
    Request.unmarshal_service_request_packet_truncated big_endian big_endian-IsBigEndian
      empty_request (0 ∷ 0 ∷ 1 ∷ 2 ∷ 0 ∷ 0 ∷ []) 0 [] (omega arith) refl (omega arith)

abbrev response : ServiceResponsePacket
response = record { stream_id = 3; handled = true; headers = some [] }

unmarshal_service_response_packet-append_to_example :
    Response.unmarshal_service_response_packet big_endian
      (Response.append_to big_endian response [] ++ 5 ∷ 6 ∷ [])
    ≡ ok response
unmarshal_service_response_packet-append_to_example =
    Response.unmarshal_service_response_packet-append_to big_endian big_endian-IsBigEndian response
      (5 ∷ 6 ∷ []) (omega arith)

unmarshal_service_response_packet_truncated_example :
    Response.unmarshal_service_response_packet big_endian (0 ∷ 0 ∷ 0 ∷ 3 ∷ 1 ∷ [])
    ≡ err unexpected_eof
unfolding Response.append_to append_headers append_entries
unmarshal_service_response_packet_truncated_example =
    Response.unmarshal_service_response_packet_truncated big_endian big_endian-IsBigEndian response
      (0 ∷ 0 ∷ 0 ∷ 3 ∷ 1 ∷ []) 0 (0 ∷ []) (omega arith) refl

abbrev chunk : DataPacket
chunk = record { stream_id = 5; payload = 1 ∷ 2 ∷ 3 ∷ [] }

unmarshal_data_packet-append_to_example :
    Data.unmarshal_data_packet big_endian (Data.append_to big_endian chunk [] ++ 7 ∷ []) ≡ ok chunk
unmarshal_data_packet-append_to_example =
    Data.unmarshal_data_packet-append_to big_endian big_endian-IsBigEndian chunk (7 ∷ [])
      (omega arith) (omega arith)

unmarshal_data_packet-append_to_cut_example :
    Data.unmarshal_data_packet big_endian (Data.append_to big_endian chunk []) ≡ ok chunk
unmarshal_data_packet-append_to_cut_example =
    Data.unmarshal_data_packet-append_to_cut big_endian big_endian-IsBigEndian chunk (omega arith)

unmarshal_data_packet_truncated_example :
    Data.unmarshal_data_packet big_endian (0 ∷ 0 ∷ 0 ∷ 5 ∷ 0 ∷ 3 ∷ 1 ∷ []) ≡ err unexpected_eof
unfolding Data.append_to
unmarshal_data_packet_truncated_example =
    Data.unmarshal_data_packet_truncated big_endian big_endian-IsBigEndian chunk
      (0 ∷ 0 ∷ 0 ∷ 5 ∷ 0 ∷ 3 ∷ 1 ∷ []) 2 (3 ∷ []) (omega arith) refl

-- An id 9 that offers the services "ab" and "c"; the checksum is (9 + 9 + 97 + 98 + 99) % 256.
abbrev hello : HandshakePacket toy
hello = record {
  kad_id = some 9;
  services = (0x61 ∷ 0x62 ∷ []) ∷ (0x63 ∷ []) ∷ [];
  signature = 56 ∷ [];
}

hello-IsEncodable : Handshake.IsEncodable toy hello
hello-IsEncodable = omega arith

unmarshal_handshake_packet-append_to_example :
    Handshake.unmarshal_handshake_packet toy (Handshake.append_to toy hello [] ++ 1 ∷ []) ≡ ok hello
unmarshal_handshake_packet-append_to_example =
    Handshake.Codec.unmarshal_handshake_packet-append_to toy toy-IsIdCodec hello (1 ∷ [])
      hello-IsEncodable

hello_accepted : Handshake.validate toy hello [] ≡ ok tt
unfolding Handshake.validate Handshake.check_id Handshake.check_services Handshake.check_signature
    Handshake.append_payload_to Handshake.append_names valid_string scan scan_byte
hello_accepted = refl

validate-ok_iff_example :
    (Handshake.validate toy hello [] ≡ ok tt)
    ↔ (Handshake.Validate.IsSigned toy hello [] × All Handshake.Validate.IsName hello.services)
validate-ok_iff_example = Handshake.Validate.validate-ok_iff toy hello []

validate_regrouped_example :
    Handshake.validate toy
      (record { kad_id = some 9; services = (0x61 ∷ 0x62 ∷ 0x63 ∷ []) ∷ []; signature = 56 ∷ [] })
      []
    ≡ ok tt
unfolding valid_string scan scan_byte
validate_regrouped_example =
    Handshake.Validate.validate_regrouped toy hello ((0x61 ∷ 0x62 ∷ 0x63 ∷ []) ∷ []) [] refl
      ((refl, omega arith), tt) hello_accepted
