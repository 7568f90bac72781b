-- ===== src/Rpc/Node/Requests.antt =====
-- A service request and the stream that it opens.
use carlo.Common.{
  ℕ, ◌≡◌, refl, ap, ◌∙◌, Bool, true, false, List, [], ◌∷◌, Option, none, some, Error, other_error,
  arith, ==_refl, if◌then◌else◌, lookup, insert, nat_key, bytes_key, lookup-insert, ok,
}
use carlo.Bytesutil.{BytesUtil}
use carlo.Kademlia.{Kademlia, Routing}
use carlo.Reader.{Bytes}
use carlo.Packet.Request.{ServiceRequestPacket, unmarshal_service_request_packet}
use carlo.Rpc.Provider.{Stream, new_stream, Provider, get_stream, register_stream}
use carlo.Rpc.Providers.{find_provider}
use carlo.Rpc.Context.{op_code_service_request}
use carlo.Rpc.Node.{
  Node, Handled, returns, start, put_provider, first_handler, dispatch_request, register_request,
  handle_service_request, handle_message,
}
use carlo.Rpc.Node.Turns.{with_provider-found, checked-ok}
use carlo.Rpc.Node.Transfer.{HasStream, put_stream-HasStream}

-- No service of the list has a handler.
abbrev pub HasNone : List Bytes → List (Bytes × ℕ) → Type 0
HasNone [] handlers = Unit
HasNone (service ∷ services) handlers = (lookup service handlers ≡ none) × HasNone services handlers

-- The handler of the first service of the list that has one.
abbrev pub IsFirst : List Bytes → List (Bytes × ℕ) → ℕ → Type 0
IsFirst [] handlers handler = ⊥
IsFirst (service ∷ services) handlers handler = elim (lookup service handlers) [
  | some h ↦ h ≡ handler
  | none ↦ IsFirst services handlers handler
]

first_handler-some :
    (services : List Bytes) (handlers : List (Bytes × ℕ)) (handler : ℕ)
    → IsFirst services handlers handler
    → first_handler services handlers ≡ some handler
unfolding first_handler
first_handler-some [] handlers handler h = absurd h
first_handler-some (service ∷ services) handlers handler h =
    ground (arith, first_handler-some services handlers handler)

register_stream-new :
    {KadId : Type 0} (id : ℕ) (p : Provider KadId)
    → get_stream id p ≡ none
    → register_stream id p
      ≡ (new_stream id, true, record p { streams = insert id (new_stream id) p.streams })
unfolding get_stream register_stream
register_stream-new id p e = rw (e, register_stream)

register_stream-in_use :
    {KadId : Type 0} (id : ℕ) (p : Provider KadId) (s : Stream)
    → get_stream id p ≡ some s
    → register_stream id p ≡ (s, false, p)
unfolding get_stream register_stream
register_stream-in_use id p s e = rw (e, register_stream)

module _ (k : Kademlia) (t : Routing k) (u : BytesUtil) where
  -- What follows the registration of the stream of a request.
  abbrev after_registration :
      (Bytes → Option Error)
      → ℕ
      → Node k t
      → ServiceRequestPacket
      → Stream × Bool × Provider k.KadId
      → Handled k t
  after_registration sent conn n packet r =
      let node = put_provider k t conn r.2 n in
      if r.1 then dispatch_request k t u sent node packet else returns node [] (some other_error)

  module _ (sent : Bytes → Option Error) (conn : ℕ) (n : Node k t) (body : Bytes)
      (packet : ServiceRequestPacket) (p : Provider k.KadId)
      (decoded : unmarshal_service_request_packet u body ≡ ok packet)
      (found : find_provider conn n.providers ≡ some p) where
    request :
        handle_message k t u sent conn n (op_code_service_request ∷ body)
        ≡ register_request k t u sent conn n p packet
    unfolding handle_message handle_service_request
    request = with_provider-found k t conn n _ p found ∙ checked-ok k t n _ _ packet decoded

    new_request :
        get_stream packet.stream_id p ≡ none
        → (m : Node k t) × HasStream k t u m conn packet.stream_id (new_stream packet.stream_id)
          × (register_request k t u sent conn n p packet ≡ dispatch_request k t u sent m packet)
          × (m.services ≡ n.services)
    unfolding register_request
    new_request e = (
      put_provider k t conn
          (record p { streams = insert packet.stream_id (new_stream packet.stream_id) p.streams })
          n,
      put_stream-HasStream k t u conn packet.stream_id (new_stream packet.stream_id) p n,
      ap (after_registration sent conn n packet) (register_stream-new packet.stream_id p e),
      refl,
    )

    -- A request with a stream number in use is refused with an error, no handler is started, and the
    -- stream stays as it is.
    handle_message-request_in_use :
        (s : Stream)
        → get_stream packet.stream_id p ≡ some s
        → (m : Node k t) × (handle_message k t u sent conn n (op_code_service_request ∷ body)
            ≡ returns m [] (some other_error))
          × HasStream k t u m conn packet.stream_id s
    unfolding register_request find_provider
    handle_message-request_in_use s e = (
      put_provider k t conn p n,
      request
          ∙ ap (after_registration sent conn n packet)
              (register_stream-in_use packet.stream_id p s e),
      record {
        provider = p;
        found = lookup-insert conn conn p n.providers.providers ∙ rw (==_refl conn);
        stream = e;
      },
    )

    -- A request with a new stream number for at least one service of the node opens the stream and starts
    -- the handler of the first such service, and nothing else.
    pub handle_message-request :
        (handler : ℕ)
        → get_stream packet.stream_id p ≡ none
        → IsFirst packet.services n.services handler
        → (m : Node k t) × (handle_message k t u sent conn n (op_code_service_request ∷ body)
            ≡ returns m (start handler packet ∷ []) none)
          × HasStream k t u m conn packet.stream_id (new_stream packet.stream_id)
    unfolding dispatch_request
    handle_message-request handler e first =
        let (m, has, same, services) = new_request e in
        (
          m,
          request
              ∙ same
              ∙ rw (
                services,
                first_handler-some packet.services n.services handler first,
                dispatch_request,
              ),
          has,
        )
