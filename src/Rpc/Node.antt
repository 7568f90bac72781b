-- ===== src/Rpc/Node.antt =====
-- streaming_rpc/streamnode.go: what a node does with a message (`HandleMessage`) and with the end of a
-- connection (`HandleConnState`). A message's handler runs on one connection, whose number it takes;
-- a handler of a service is named by a number.
pub mod Changes
pub mod Turns
pub mod Isolation
pub mod Transfer
pub mod Delivery
pub mod Panics
pub mod Greeting
pub mod Closing
pub mod Requests
pub mod Bodies
pub mod Pushing
pub mod Answering
pub mod Serving
mod Tests
mod ServingTests
use carlo.Common.{
  ℕ, Bool, true, false, List, [], ◌∷◌, ◌++◌, Option, none, some, Error, other_error, eof, lookup,
  insert, nat_key, bytes_key, length, ltb, ◌==◌, if◌then◌else◌, replicate, Outcome, ok, err, panic,
  ◌>>=◌, ◌>>◌,
}
use carlo.Bytesutil.{BytesUtil}
use carlo.Kademlia.{Kademlia, Routing}
use carlo.Reader.{Bytes}
use carlo.Packet.Handshake.{
  HandshakePacket, append_payload_to, unmarshal_handshake_packet, validate,
}
use carlo.Packet.Handshake
use carlo.Packet.Request.{ServiceRequestPacket, unmarshal_service_request_packet}
use carlo.Packet.Response.{ServiceResponsePacket, unmarshal_service_response_packet}
use carlo.Packet.Response
use carlo.Packet.Data.{DataPacket, unmarshal_data_packet}
use carlo.Rpc.Provider.{
  Stream, Provider, get_stream, register_stream, close_stream_with_error, close_pipe,
}
use carlo.Rpc.Providers.{Providers, keys, find_provider, register_provider, deregister_provider}
use carlo.Rpc.Context.{
  chunk_size, op_code_handshake, op_code_service_request, op_code_service_response, op_code_data,
  op_code_find_node_request,
}

-- What the handling of a message calls: `ctx.Reply`, `ctx.Conn().SendNoWait`, and `go func` with the
-- handler of a service on a request. The goroutine runs later, by itself: what it sends is `serve` of
-- Rpc.Service, and what it does to the stream of the request is `close_body`.
pub data Call : Type 0 where
  reply : Bytes → Call
  send_no_wait : Bytes → Call
  start : ℕ → ServiceRequestPacket → Call

-- The loop over the services of a request: the first one that the node has.
unfoldable pub first_handler : List Bytes → List (Bytes × ℕ) → Option ℕ
first_handler [] handlers = none
first_handler (service ∷ services) handlers =
    let rest = first_handler services handlers in
    elim (lookup service handlers) [ some handler ↦ some handler | none ↦ rest ]

-- `stream.Header = &packet; stream.once.Do(stream.wg.Done)`
abbrev pub set_header : ServiceResponsePacket → Stream → Stream
set_header packet s = record s { header = some packet; released = true }

-- The end of the pipe that `ctx.Body.Close()` closes: it keeps an error that the pipe has.
abbrev pub close_reader : Stream → Stream
close_reader s = record s { closed = close_pipe other_error s.closed }

-- `stream.Writer.Write(payload)`: an error on a closed pipe. On an open one it returns when the
-- payload has been read; the wait for a reader is left out.
abbrev pub write_stream : Bytes → Stream → Outcome Stream
write_stream payload s = elim s.closed [
  | none ↦ ok (record s { written = s.written ++ payload ∷ [] })
  | some e ↦ err other_error
]

module _ (k : Kademlia) (t : Routing k) where
  pub record Node : Type 0 where
    pub secret_key : t.PrivateKey
    pub kad_id : Option k.KadId
    pub services : List (Bytes × ℕ)
    pub providers : Providers k.KadId
    pub table : t.Table

  -- The node afterwards with the calls and the error that it returned, or a panic.
  pub data Handled : Type 0 where
    panics : Handled
    returns : Node → List Call → Option Error → Handled

  -- `if err != nil { return err }` after a call that changes nothing.
  abbrev pub checked {ℓ} : {A : Type ℓ} → Node → Outcome A → (A → Handled) → Handled
  checked n panic f = panics
  checked n (err e) f = returns n [] (some e)
  checked n (ok a) f = f a

  -- The provider of a connection is shared: what is done to it is seen through the map.
  abbrev pub put_provider : ℕ → Provider k.KadId → Node → Node
  put_provider conn p n = record n {
    providers = record n.providers { providers = insert conn p n.providers.providers };
  }

  unfoldable pub create_handshake_packet : Node → Bytes → Outcome (HandshakePacket k)
  create_handshake_packet n buf =
      let packet : HandshakePacket k = record {
        kad_id = none;
        services = keys n.services;
        signature = replicate k.size_signature 0;
      } in
      elim n.kad_id [
        | none ↦ ok packet
        | some id ↦ append_payload_to k (record packet { kad_id = some id }) buf >>= λ payload.
            ok (record packet { kad_id = some id; signature = t.sign n.secret_key payload })
      ]

  -- `n.table.Update(*packet.KadId)`: the table may refuse an id, for example if it is full.
  abbrev pub update_table : Option k.KadId → t.Table → t.Table
  update_table none table = table
  update_table (some id) table = t.update id table

  -- The registration of a peer whose handshake is valid, and the answer. `sent` is what the connection
  -- returns for a message.
  unfoldable pub answer_handshake : (Bytes → Option Error) → ℕ → Node → HandshakePacket k → Handled
  answer_handshake sent conn n packet =
      let node = record n {
        providers = (register_provider conn packet.kad_id packet.services false n.providers).2;
        table = update_table packet.kad_id n.table;
      } in
      checked node (create_handshake_packet node []) λ answer.
        let message = Handshake.append_to k answer [] in
        returns node (reply message ∷ []) (sent message)

  unfoldable pub handle_handshake : (Bytes → Option Error) → ℕ → Node → Bytes → Handled
  handle_handshake sent conn n body =
      checked n (unmarshal_handshake_packet k body)
        λ packet. checked n (validate k packet []) λ _. answer_handshake sent conn n packet

  -- `provider := n.providers.FindProvider(ctx.Conn()); if provider == nil { return ... }`
  abbrev pub with_provider : ℕ → Node → (Provider k.KadId → Handled) → Handled
  with_provider conn n f = elim (find_provider conn n.providers) [
    | none ↦ returns n [] (some other_error)
    | some p ↦ f p
  ]

  module _ (u : BytesUtil) where
    -- The answer to a request for services that the node has none of.
    abbrev pub not_handled : ℕ → Bytes
    not_handled id =
        Response.append_to u (record { stream_id = id; handled = false; headers = none })
          (op_code_service_response ∷ [])

    unfoldable pub dispatch_request : (Bytes → Option Error) → Node → ServiceRequestPacket → Handled
    dispatch_request sent n packet = elim (first_handler packet.services n.services) [
      | some handler ↦ returns n (start handler packet ∷ []) none
      | none ↦
          let message = not_handled packet.stream_id in
          returns n (send_no_wait message ∷ []) (sent message)
    ]

    -- A request of the peer whose provider is `p`.
    unfoldable pub register_request :
        (Bytes → Option Error) → ℕ → Node → Provider k.KadId → ServiceRequestPacket → Handled
    register_request sent conn n p packet =
        let registered = register_stream packet.stream_id p in
        let node = put_provider conn registered.2 n in
        if registered.1
        then dispatch_request sent node packet
        else returns node [] (some other_error)

    unfoldable pub handle_service_request : (Bytes → Option Error) → ℕ → Node → Bytes → Handled
    handle_service_request sent conn n body =
        with_provider conn n
          λ p. checked n (unmarshal_service_request_packet u body) (register_request sent conn n p)

    -- A response header of the peer whose provider is `p`.
    unfoldable pub receive_header : ℕ → Node → Provider k.KadId → ServiceResponsePacket → Handled
    receive_header conn n p packet = elim (get_stream packet.stream_id p) [
      | none ↦ returns n [] (some other_error)
      | some stream ↦
          let streams = insert packet.stream_id (set_header packet stream) p.streams in
          returns (put_provider conn (record p { streams = streams }) n) [] none
    ]

    unfoldable pub handle_service_response : ℕ → Node → Bytes → Handled
    handle_service_response conn n body =
        with_provider conn n
          λ p. checked n (unmarshal_service_response_packet u body) (receive_header conn n p)

    -- A payload for a stream of the provider.
    unfoldable pub receive_payload : ℕ → Node → Provider k.KadId → ℕ → Stream → Bytes → Handled
    receive_payload conn n p id stream payload =
        let closed = λ (e : Error). put_provider conn (close_stream_with_error stream e p).1 n in
        if ltb chunk_size (length payload)
        then returns (closed other_error) [] (some other_error)
        else if length payload == 0
        then returns (closed eof) [] none
        else elim (write_stream payload stream) [
          | ok s ↦
              returns (put_provider conn (record p { streams = insert id s p.streams }) n) [] none
          | err e ↦ returns (closed e) [] (some e)
          | panic ↦ panics
        ]

    unfoldable pub receive_data : ℕ → Node → Provider k.KadId → DataPacket → Handled
    receive_data conn n p packet = elim (get_stream packet.stream_id p) [
      | none ↦ returns n [] (some other_error)
      | some stream ↦ receive_payload conn n p packet.stream_id stream packet.payload
    ]

    unfoldable pub handle_data : ℕ → Node → Bytes → Handled
    handle_data conn n body =
        with_provider conn n λ p. checked n (unmarshal_data_packet u body) (receive_data conn n p)

    unfoldable pub handle_find_node_request : (Bytes → Option Error) → Node → Bytes → Handled
    handle_find_node_request sent n body = elim (t.unmarshal_find_node_request body) [
      | none ↦ returns n [] (some other_error)
      | some target ↦
          let message = t.append_find_node_response (t.closest_to target n.table) [] in
          returns n (reply message ∷ []) (sent message)
    ]

    unfoldable pub handle_message : (Bytes → Option Error) → ℕ → Node → Bytes → Handled
    handle_message sent conn n [] = returns n [] (some other_error)
    handle_message sent conn n (opcode ∷ body) =
        if opcode == op_code_handshake
        then handle_handshake sent conn n body
        else if opcode == op_code_service_request
        then handle_service_request sent conn n body
        else if opcode == op_code_service_response
        then handle_service_response conn n body
        else if opcode == op_code_data
        then handle_data conn n body
        else if opcode == op_code_find_node_request
        then handle_find_node_request sent n body
        else returns n [] (some other_error)

  -- `defer ctx.Body.Close()` of the goroutine that `start` stands for: a step of its own, which may come
  -- between any two messages. The stream is the connection's `id`, as long as it is in the table.
  unfoldable pub close_body : ℕ → ℕ → Node → Node
  close_body conn id n = elim (find_provider conn n.providers) [
    | none ↦ n
    | some p ↦ elim (get_stream id p) [
      | none ↦ n
      | some s ↦ put_provider conn (record p { streams = insert id (close_reader s) p.streams }) n
    ]
  ]

  abbrev pub forget_id : Option k.KadId → t.Table → t.Table
  forget_id none table = table
  forget_id (some id) table = t.delete (k.pub_key id) table

  -- `HandleConnState` for a connection that has closed, up to the attempts to connect again.
  unfoldable pub handle_conn_closed : ℕ → Node → Node
  handle_conn_closed conn n =
      let deregistered = deregister_provider conn n.providers in
      elim deregistered.0 [
        | none ↦ n
        | some p ↦ record n { providers = deregistered.1; table = forget_id p.kad_id n.table }
      ]
