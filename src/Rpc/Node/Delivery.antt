-- ===== src/Rpc/Node/Delivery.antt =====
-- A `Write` at one end of a connection and the stream at its other end.
use carlo.Common.{
  ℕ, ◌≡◌, sym, ap, ◌∙◌, subst, List, [], ◌∷◌, ◌++◌, Option, none, some, Error, eof, arith, ◌==◌,
  ==_refl, if◌then◌else◌, All, ok, append-nil, nat_key, lookup-insert, drop, Bool-cases, inl, inr,
}
use carlo.Common.Words.{IsU32}
use carlo.Bytesutil.{BytesUtil, IsBigEndian}
use carlo.Kademlia.{Kademlia, Routing}
use carlo.Reader.{Bytes}
use carlo.Packet.Data.{DataPacket, unmarshal_data_packet}
use carlo.Packet.Data
use carlo.Packet.Response
use carlo.Rpc.Provider.{Stream, Provider, get_stream, close_stream_with_error}
use carlo.Rpc.Provider.Streams.{get_stream-close_stream}
use carlo.Rpc.Providers.{find_provider}
use carlo.Rpc.Context.{Context, op_code_data, data_message, write}
use carlo.Rpc.Context.Chunks.{IsChunk, concat, planned, write_lem}
use carlo.Rpc.Node.{
  Node, returns, put_provider, handle_message, handle_data, receive_data, receive_payload,
  set_header,
}
use carlo.Rpc.Node.Turns.{with_provider-found, checked-ok}
use carlo.Rpc.Node.Transfer.{
  Handles, next, HasStream, put_stream, put_stream-HasStream, header_packet, handle_chunks,
  handle_header, handle_message-data,
}

-- The stream with the header of a context, which the first `Write` sends.
abbrev pub with_header : Context → Stream → Stream
with_header c s = if c.written then s else set_header (header_packet c) s

module _ (k : Kademlia) (t : Routing k) (u : BytesUtil) where
  module _ (big : IsBigEndian u) (sent : Bytes → Option Error) (conn : ℕ) where
    planned-Handles :
        (n : Node k t) (c : Context) (s : Stream) (ps : List Bytes)
        → Response.IsEncodable (header_packet c)
        → All IsChunk ps
        → s.closed ≡ none
        → HasStream k t u n conn c.stream_id s
        → (m : Node k t) × Handles k t u sent conn n (planned u c ps) m
          × HasStream k t u m conn c.stream_id
              (record (with_header c s) { written = s.written ++ ps })
    planned-Handles n c s ps fits chunks is_open has = elim (Bool-cases c.written) [
      | inl w ↦
          rw w
            (handle_chunks k t u big sent conn ps n c.stream_id s fits.stream_id chunks is_open has)
      | inr w ↦
          let s1 = set_header (header_packet c) s in
          let n1 = put_stream k t u conn c.stream_id s1 has.provider n in
          let (m, run, after) =
            handle_chunks k t u big sent conn ps n1 c.stream_id s1 fits.stream_id chunks is_open
              (put_stream-HasStream k t u conn c.stream_id s1 has.provider n) in
          rw w (m, next (handle_header k t u big sent conn n c s fits has) run, after)
    ]

    -- If all calls of `Send` succeed, then the messages of a `Write` of at least one byte, handled in
    -- order by a node that has the stream open, are all accepted, and the stream has gained payloads
    -- that make up exactly the bytes written, and the response header if it was the first `Write`.
    pub write-handle_message :
        (send : ℕ → Option Error) (n : Node k t) (c : Context) (s : Stream) (b : ℕ) (bytes : Bytes)
        → Response.IsEncodable (header_packet c)
        → (write u send (b ∷ bytes) c).1.error ≡ none
        → s.closed ≡ none
        → HasStream k t u n conn c.stream_id s
        → (ps : List Bytes) × (concat ps ≡ b ∷ bytes)
          × (m : Node k t) × Handles k t u sent conn n (write u send (b ∷ bytes) c).1.messages m
          × HasStream k t u m conn c.stream_id
              (record (with_header c s) { written = s.written ++ ps })
    write-handle_message send n c s b bytes fits no_error is_open has =
        let (ps, whole, chunks, front, _) = write_lem u c send b bytes in
        let all : (write u send (b ∷ bytes) c).1.messages ≡ planned u c ps =
          sym (append-nil _)
          ∙ subst (λ l. (write u send (b ∷ bytes) c).1.messages ++ l ≡ planned u c ps)
              (front.whole no_error) front.front in
        let (m, run, after) = planned-Handles n c s ps fits chunks is_open has in
        (ps, whole, m, subst (λ l. Handles k t u sent conn n l m) (sym all) run, after)

    end_decoded :
        (id : ℕ)
        → IsU32 id
        → unmarshal_data_packet u (drop 1 (data_message u id []))
          ≡ ok (record { stream_id = id; payload = [] })
    end_decoded id fits =
        let packet : DataPacket = record { stream_id = id; payload = [] } in
        ap (λ m. unmarshal_data_packet u (drop 1 m))
          (Data.append_to_lem u big packet (op_code_data ∷ []))
        ∙ ap (unmarshal_data_packet u) (
            sym (Data.append_to_lem u big packet [])
            ∙ sym (append-nil (Data.append_to u packet [])))
        ∙ Data.unmarshal_data_packet-append_to u big packet [] fits (omega arith)

    -- The empty data message that ends a stream is accepted: the provider has the stream no more, and its
    -- other streams stay as they are.
    pub handle_message-end_of_stream :
        (n : Node k t) (id : ℕ) (s : Stream)
        → IsU32 id
        → s.id ≡ id
        → (has : HasStream k t u n conn id s)
        → (m : Node k t) × (q : Provider k.KadId) × (handle_message k t u sent conn n
              (data_message u id [])
            ≡ returns m [] none)
          × (find_provider conn m.providers ≡ some q)
          × ((j : ℕ) → get_stream j q ≡ (if id == j then none else get_stream j has.provider))
    unfolding find_provider receive_data receive_payload handle_data
    handle_message-end_of_stream n id s fits is_id has =
        let q = (close_stream_with_error s eof has.provider).1 in
        (
          put_provider k t conn q n,
          q,
          handle_message-data k t u big sent conn n id []
              ∙ with_provider-found k t conn n _ has.provider has.found
              ∙ checked-ok k t n (receive_data k t u conn n has.provider) _ _ (end_decoded id fits)
              ∙ rw (has.stream, receive_data),
          lookup-insert conn conn q n.providers.providers ∙ rw (==_refl conn),
          λ j. get_stream-close_stream s eof has.provider j ∙ rw is_id,
        )
