-- ===== src/Rpc/Node/ServingTests.antt =====
-- A `Push` and the answers to it at a node with one peer.
use carlo.Common.{ℕ, ◌≡◌, refl, List, [], ◌∷◌, ◌++◌, Option, none, some, arith, ok}
use carlo.Bytesutil.Instance.{big_endian, big_endian-IsBigEndian}
use carlo.Kademlia.Instance.{toy, toy_routing}
use carlo.Reader.{Bytes}
use carlo.Packet.Request.{ServiceRequestPacket}
use carlo.Rpc.Context.{write_header}
use carlo.Rpc.Push.Messages.{no_errors}
use carlo.Rpc.Service.{Action, call_write_header, call_write, serve, new_context}
use carlo.Rpc.Provider.{Stream}
use carlo.Rpc.Node.{Node, returns, handle_message}
use carlo.Rpc.Node.Transfer.{HasStream, header_packet}
use carlo.Rpc.Node.Tests.{node, stream, answered, node-HasStream}
use carlo.Rpc.Node.Pushing
use carlo.Rpc.Node.Serving
use carlo.Rpc.Node.Serving.{after_actions}

-- A request for the service "a" on the stream 2, with a body of two parts.
abbrev request : ServiceRequestPacket
request = record { stream_id = 2; services = (0x61 ∷ []) ∷ []; headers = none }

abbrev body : List Bytes
body = (1 ∷ []) ∷ (2 ∷ 3 ∷ []) ∷ []

abbrev seven : Option ℕ
seven = some 7

-- A handler that sets a header and writes twice, and one that only sets the header.
abbrev answer : List Action
answer =
    call_write_header (0x6b ∷ []) (0x76 ∷ []) ∷ call_write (1 ∷ 2 ∷ []) ∷ call_write (3 ∷ []) ∷ []

abbrev silent : List Action
silent = call_write_header (0x6b ∷ []) (0x76 ∷ []) ∷ []

serve-handle_message_example :
    (front : List Bytes) × (served : Serving.Served toy toy_routing big_endian answered 4 node 3
      stream answer front)
    × (serve big_endian no_errors seven 3 answer
        ≡ ok (record { messages = front ++ served.last ∷ []; error = none }))
unfolding write_header
serve-handle_message_example =
    Serving.serve-handle_message toy toy_routing big_endian answered 4 big_endian-IsBigEndian
      {KadId = ℕ} 7 3 answer stream node (λ e. cc) (omega arith) refl refl node-HasStream

serve-nothing_written_example :
    (message : Bytes) × (m : Node toy toy_routing) × (r : Stream) × (serve big_endian no_errors
        seven 3 silent
      ≡ ok (record { messages = message ∷ []; error = none }))
    × (handle_message toy toy_routing big_endian answered 4 node message ≡ returns m [] none)
    × HasStream toy toy_routing big_endian m 4 3 r
    × (r.header ≡ some (header_packet (after_actions silent (new_context 3))))
    × (r.closed ≡ none)
    × (r.written ≡ [])
unfolding write_header
serve-nothing_written_example =
    Serving.serve-nothing_written toy toy_routing big_endian answered 4 big_endian-IsBigEndian
      {KadId = ℕ} 7 3 silent stream node refl (omega arith) refl refl node-HasStream
