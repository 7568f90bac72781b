-- ===== src/Rpc/Node/Pushing.antt =====
-- A `Push` at one end of a connection, handled by the node at the other end.
use carlo.Common.{
  ℕ, Bool, if◌then◌else◌, ◌≡◌, other_error, List, [], ◌∷◌, ◌++◌, Option, none, some, Error, map,
}
use carlo.Bytesutil.{BytesUtil, IsBigEndian}
use carlo.Kademlia.{Kademlia, Routing}
use carlo.Reader.{Bytes}
use carlo.Packet.Request.{ServiceRequestPacket}
use carlo.Packet.Request
use carlo.Packet.Headers.{entries}
use carlo.Rpc.Provider.{Provider, new_stream, get_stream}
use carlo.Rpc.Providers.{find_provider}
use carlo.Rpc.Context.{data_message}
use carlo.Rpc.Node.{Node, returns, start, handle_message, close_body}
use carlo.Rpc.Node.Transfer.{Handles, HasStream}

-- The request as it is read: a nil map of headers comes as an empty one.
abbrev pub as_read : ServiceRequestPacket → ServiceRequestPacket
as_read packet = record packet { headers = some (entries packet.headers) }

module _ (k : Kademlia) (t : Routing k) (u : BytesUtil) (sent : Bytes → Option Error)
    (conn : ℕ) where
  -- The node, at a stream's end message or at an error, no longer has the stream.
  pub record Gone (n : Node k t) (id : ℕ) : Type 0 where
    pub provider : Provider k.KadId
    pub found : find_provider conn n.providers ≡ some provider
    pub gone : get_stream id provider ≡ none

  -- The node with the body of the stream closed by its handler's goroutine, or not.
  abbrev pub perhaps_closed : Bool → ℕ → Node k t → Node k t
  perhaps_closed early id n = if early then close_body k t conn id n else n

  -- A part of the body that comes after the goroutine has closed it: the node has handled the parts
  -- before it, refuses it with an error, and no longer has the stream.
  pub record Refuses (opened : Node k t) (id : ℕ) (before : List Bytes) (part : Bytes)
      : Type 0 where
    pub filled : Node k t
    pub fills : Handles k t u sent conn opened (map (data_message u id) before) filled
    pub failed : Node k t
    pub refused :
        handle_message k t u sent conn (close_body k t conn id filled) (data_message u id part)
        ≡ returns failed [] (some other_error)
    pub gone : Gone failed id

  -- The node handles a request by starting the handler, then the parts of the body, which the stream holds
  -- afterwards, then the end of the body, which takes the stream out of the table, whether the handler's
  -- goroutine has closed the body after the last part or not. If it has closed it before a part, the
  -- node refuses that part.
  pub record HandlesPush (n : Node k t) (packet : ServiceRequestPacket) (handler : ℕ)
      (ps messages : List Bytes) : Type 0 where
    pub opened : Node k t
    pub filled : Node k t
    pub request : Bytes
    pub last : Bytes
    pub all : messages ≡ request ∷ (map (data_message u packet.stream_id) ps ++ last ∷ [])
    pub starts :
        handle_message k t u sent conn n request
        ≡ returns opened (start handler (as_read packet) ∷ []) none
    pub fills : Handles k t u sent conn opened (map (data_message u packet.stream_id) ps) filled
    pub holds :
        HasStream k t u filled conn packet.stream_id
          (record (new_stream packet.stream_id) { written = ps })
    pub ends :
        (early : Bool)
        → (m : Node k t) × (handle_message k t u sent conn
              (perhaps_closed early packet.stream_id filled)
              last
            ≡ returns m [] none)
          × Gone m packet.stream_id
    pub refuses :
        (before : List Bytes) (part : Bytes) (after : List Bytes)
        → ps ≡ before ++ part ∷ after
        → Refuses opened packet.stream_id before part

  module _ (big : IsBigEndian u) where
    request_bytes : ServiceRequestPacket → Bytes
    request_bytes packet = Request.append_to u packet []
