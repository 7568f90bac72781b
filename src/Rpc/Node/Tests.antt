-- ===== src/Rpc/Node/Tests.antt =====
-- A node with one peer, and the theorems at it.
use carlo.Common.{
  ℕ, ◌≡◌, ◌≢◌, ◌↔◌, refl, false, List, [], ◌∷◌, ◌++◌, Option, none, some, Error, arith, length, ok,
  ◌==◌, if◌then◌else◌,
}
use carlo.Bytesutil.Instance.{big_endian, big_endian-IsBigEndian}
use carlo.Kademlia.Instance.{toy, toy-IsIdCodec, toy_routing, toy-IsKeyOf}
use carlo.Reader.{Bytes, need, next_byte, slice}
use carlo.Packet.Utf8.{valid_string, scan, scan_byte}
use carlo.Packet.Handshake.{
  HandshakePacket, unmarshal_handshake_packet, validate, decode, read_id, read_signature, check_id,
  check_services, check_signature,
}
use carlo.Packet.Services.{read_services}
use carlo.Packet.Request.{ServiceRequestPacket, unmarshal_service_request_packet}
use carlo.Packet.Request
use carlo.Rpc.Provider.{Stream, new_stream, Provider, get_stream}
use carlo.Rpc.Providers.{find_provider}
use carlo.Rpc.Context.{
  Context, write, send_chunks, data_message, op_code_service_request, op_code_handshake,
}
use carlo.Rpc.Context.Chunks.{concat}
use carlo.Rpc.Node.{Node, panics, returns, reply, start, handle_message, handle_conn_closed}
use carlo.Rpc.Node.Turns.{After}
use carlo.Rpc.Node.Isolation
use carlo.Rpc.Node.Isolation.{IsValid}
use carlo.Rpc.Node.Transfer.{Handles, HasStream}
use carlo.Rpc.Node.Delivery
use carlo.Rpc.Node.Panics
use carlo.Rpc.Node.Greeting
use carlo.Rpc.Node.Closing
use carlo.Rpc.Node.Requests

-- Connection 4 is a peer with the id 9, whose stream 3 is open.
abbrev pub stream : Stream
stream = new_stream 3

abbrev pub peer : Provider ℕ
peer = record { kad_id = some 9; conn = 4; services = []; counter = 5; streams = (3, stream) ∷ [] }

-- The node has the id 7 and the service "a".
abbrev pub node : Node toy toy_routing
node = record {
  secret_key = 7;
  kad_id = some 7;
  services = ((0x61 ∷ []), 1) ∷ [];
  providers = record { services = []; providers = (4, peer) ∷ [] };
  table = [];
}

abbrev pub answered : Bytes → Option Error
answered message = none

node-IsValid : IsValid node.providers
unfolding get_stream find_provider
node-IsValid = record {
  consistent = λ service conn. ground arith;
  keyed = λ conn p found id s e. ground arith;
}

handle_message-IsValid_example :
    After toy toy_routing
      (λ m. IsValid m.providers)
      (handle_message toy toy_routing big_endian answered 4 node
        (3 ∷ 0 ∷ 0 ∷ 0 ∷ 3 ∷ 0 ∷ 1 ∷ 8 ∷ []))
handle_message-IsValid_example =
    Isolation.handle_message-IsValid toy toy_routing big_endian answered 4 node
      (3 ∷ 0 ∷ 0 ∷ 0 ∷ 3 ∷ 0 ∷ 1 ∷ 8 ∷ []) node-IsValid

handle_message-other_conn_example :
    After toy toy_routing
      (λ m. find_provider 4 m.providers ≡ find_provider 4 node.providers)
      (handle_message toy toy_routing big_endian answered 5 node (0 ∷ 0 ∷ 0 ∷ []))
handle_message-other_conn_example =
    Isolation.handle_message-other_conn toy toy_routing big_endian answered 5 4 node
      (0 ∷ 0 ∷ 0 ∷ []) (omega arith)

pub node-HasStream : HasStream toy toy_routing big_endian node 4 3 stream
unfolding find_provider get_stream
node-HasStream = record { provider = peer; found = refl; stream = refl }

abbrev unwritten : Context
unwritten = record { stream_id = 3; response_headers = []; written = false }

abbrev answered_all : ℕ → Option Error
answered_all i = none

unwritten-no_error : (write big_endian answered_all (1 ∷ 2 ∷ []) unwritten).1.error ≡ none
unfolding write send_chunks
unwritten-no_error = refl

write-handle_message_example :
    (ps : List Bytes) × (concat ps ≡ 1 ∷ 2 ∷ [])
    × (m : Node toy toy_routing) × Handles toy toy_routing big_endian answered 4 node
        (write big_endian answered_all (1 ∷ 2 ∷ []) unwritten).1.messages
        m
    × HasStream toy toy_routing big_endian m 4 3
        (record (Delivery.with_header unwritten stream) { written = [] ++ ps })
write-handle_message_example =
    Delivery.write-handle_message toy toy_routing big_endian big_endian-IsBigEndian answered 4
      answered_all node unwritten stream 1 (2 ∷ []) (omega arith) unwritten-no_error refl
      node-HasStream

handle_message-end_of_stream_example :
    (m : Node toy toy_routing) × (q : Provider ℕ) × (handle_message toy toy_routing big_endian
        answered 4 node
        (data_message big_endian 3 [])
      ≡ returns m [] none)
    × (find_provider 4 m.providers ≡ some q)
    × ((j : ℕ) → get_stream j q ≡ (if 3 == j then none else get_stream j peer))
unfolding node-HasStream
handle_message-end_of_stream_example =
    Delivery.handle_message-end_of_stream toy toy_routing big_endian big_endian-IsBigEndian answered
      4 node 3 stream (omega arith) refl node-HasStream

handle_message-panics_iff_example :
    (handle_message toy toy_routing big_endian answered 4 node (1 ∷ 0 ∷ 0 ∷ 0 ∷ 2 ∷ []) ≡ panics)
    ↔ ((body : Bytes) × (1 ∷ 0 ∷ 0 ∷ 0 ∷ 2 ∷ [] ≡ op_code_service_request ∷ body)
        × (length body ≡ 4)
        × (p : Provider ℕ) × (find_provider 4 node.providers ≡ some p))
handle_message-panics_iff_example =
    Panics.handle_message-panics_iff toy toy_routing big_endian answered 4 node
      (1 ∷ 0 ∷ 0 ∷ 0 ∷ 2 ∷ [])

-- A peer without an id and without services.
abbrev anonymous : HandshakePacket toy
anonymous = record { kad_id = none; services = []; signature = 0 ∷ [] }

anonymous_decoded : unmarshal_handshake_packet toy (0 ∷ 0 ∷ []) ≡ ok anonymous
unfolding unmarshal_handshake_packet decode read_id read_signature need next_byte slice
    read_services
anonymous_decoded = refl

anonymous_valid : validate toy anonymous [] ≡ ok tt
unfolding validate check_id check_services check_signature
anonymous_valid = refl

node-IsAdvertised : Greeting.IsAdvertised toy toy_routing node 7
unfolding valid_string scan scan_byte
node-IsAdvertised = record {
  is_id = refl;
  valid = refl;
  key = toy-IsKeyOf 7;
  names = ((refl, omega arith), tt);
  count = omega arith;
}

handle_message-handshake_example :
    (message : Bytes) × (answer : HandshakePacket toy) × (handle_message toy toy_routing big_endian
        answered 5 node
        (op_code_handshake ∷ 0 ∷ 0 ∷ [])
      ≡ returns (Greeting.registered toy toy_routing 5 anonymous node) (reply message ∷ []) none)
    × (unmarshal_handshake_packet toy message ≡ ok answer)
    × (validate toy answer [] ≡ ok tt)
    × (answer.kad_id ≡ some 7)
    × (answer.services ≡ (0x61 ∷ []) ∷ [])
handle_message-handshake_example =
    Greeting.handle_message-handshake toy toy_routing toy-IsIdCodec big_endian answered 5 node 7
      (0 ∷ 0 ∷ []) anonymous node-IsAdvertised anonymous_decoded anonymous_valid

handle_conn_closed-IsValid_example :
    IsValid (handle_conn_closed toy toy_routing 4 node).providers
    × (find_provider 4 (handle_conn_closed toy toy_routing 4 node).providers ≡ none)
    × ((c : ℕ)
        → c ≢ 4
        → find_provider c (handle_conn_closed toy toy_routing 4 node).providers
          ≡ find_provider c node.providers)
handle_conn_closed-IsValid_example =
    Closing.handle_conn_closed-IsValid toy toy_routing 4 node node-IsValid

-- A request for the service "a" or "b" on the stream 2.
abbrev request_for : ℕ → ServiceRequestPacket
request_for name = record { stream_id = 2; services = (name ∷ []) ∷ []; headers = some [] }

abbrev request_bytes : ℕ → Bytes
request_bytes name = Request.append_to big_endian (request_for name) [] ++ []

request_decoded :
    (name : ℕ)
    → unmarshal_service_request_packet big_endian (request_bytes name) ≡ ok (request_for name)
request_decoded name =
    Request.unmarshal_service_request_packet-append_to big_endian big_endian-IsBigEndian
      (request_for name) [] (omega arith)

pub peer_found : find_provider 4 node.providers ≡ some peer
unfolding find_provider
peer_found = refl

pub stream_free : get_stream 2 peer ≡ none
unfolding get_stream
stream_free = refl

handle_message-request_example :
    (m : Node toy toy_routing) × (handle_message toy toy_routing big_endian answered 4 node
        (op_code_service_request ∷ request_bytes 0x61)
      ≡ returns m (start 1 (request_for 0x61) ∷ []) none)
    × HasStream toy toy_routing big_endian m 4 2 (new_stream 2)
handle_message-request_example =
    Requests.handle_message-request toy toy_routing big_endian answered 4 node (request_bytes 0x61)
      (request_for 0x61) peer (request_decoded 0x61) peer_found 1 stream_free refl
