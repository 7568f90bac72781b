-- ===== src/Rpc/Node/Transfer.antt =====
-- The messages of a handler's `Write`, handled by the node at the other end of the connection.
use carlo.Common.{
  ℕ, ◌≡◌, refl, sym, ap, ◌∙◌, subst, true, false, List, [], ◌∷◌, ◌++◌, Option, none, some, Error,
  other_error, Outcome, insert, nat_key, arith, length, le→ltb, ◌==◌, ==_refl, All, map, ok,
  append-nil, append_assoc, lookup-insert, drop, err, panic,
}
use carlo.Common.Words.{IsU32}
use carlo.Bytesutil.{BytesUtil, IsBigEndian}
use carlo.Kademlia.{Kademlia, Routing}
use carlo.Reader.{Bytes}
use carlo.Packet.Data.{DataPacket, unmarshal_data_packet, data_bytes}
use carlo.Packet.Data
use carlo.Packet.Response.{ServiceResponsePacket, unmarshal_service_response_packet}
use carlo.Packet.Response
use carlo.Rpc.Provider.{Stream, Provider, get_stream, close_stream_with_error}
use carlo.Rpc.Providers.{find_provider}
use carlo.Rpc.Context.{
  chunk_size, Context, op_code_data, op_code_service_response, data_message, header_message,
}
use carlo.Rpc.Context.Chunks.{IsChunk, unmarshal-data_message}
use carlo.Rpc.Node.Turns.{with_provider-found, checked-ok}
use carlo.Rpc.Node.{
  Node, Handled, returns, panics, put_provider, handle_message, handle_data, receive_data,
  receive_payload, write_stream, set_header, handle_service_response, receive_header,
}

write_stream-open :
    (payload : Bytes) (s : Stream)
    → s.closed ≡ none
    → write_stream payload s ≡ ok (record s { written = s.written ++ payload ∷ [] })
write_stream-open payload s is_open =
    ap
      (λ o. elim o as (λ _. Outcome Stream) [
        | none ↦ ok (record s { written = s.written ++ payload ∷ [] })
        | some e ↦ err other_error
      ])
      is_open

-- The packet of a context's response header.
abbrev pub header_packet : Context → ServiceResponsePacket
header_packet c = record {
  stream_id = c.stream_id;
  handled = true;
  headers = some c.response_headers;
}

module _ (k : Kademlia) (t : Routing k) (u : BytesUtil) where
  -- The node `n` handles the messages of the connection one after the other without an error, and is
  -- `m` afterwards.
  pub data Handles (sent : Bytes → Option Error) (conn : ℕ)
      : Node k t → List Bytes → Node k t → Type 0 where
    done : {n : Node k t} → Handles sent conn n [] n
    next :
        {n m l : Node k t} {message : Bytes} {messages : List Bytes} {calls : _}
        → handle_message k t u sent conn n message ≡ returns m calls none
        → Handles sent conn m messages l
        → Handles sent conn n (message ∷ messages) l

  -- The stream `id` of the connection's provider is `s`.
  pub record HasStream (n : Node k t) (conn id : ℕ) (s : Stream) : Type 0 where
    pub provider : Provider k.KadId
    pub found : find_provider conn n.providers ≡ some provider
    pub stream : get_stream id provider ≡ some s

  -- The node with `s` in the place of the stream.
  abbrev pub put_stream : ℕ → ℕ → Stream → Provider k.KadId → Node k t → Node k t
  put_stream conn id s p n = put_provider k t conn (record p { streams = insert id s p.streams }) n

  pub put_stream-HasStream :
      (conn id : ℕ) (s : Stream) (p : Provider k.KadId) (n : Node k t)
      → HasStream (put_stream conn id s p n) conn id s
  unfolding find_provider get_stream
  put_stream-HasStream conn id s p n = record {
    provider = record p { streams = insert id s p.streams };
    found = lookup-insert conn conn _ n.providers.providers ∙ rw (==_refl conn);
    stream = lookup-insert id id s p.streams ∙ rw (==_refl id);
  }

  receive_payload-open :
      (conn : ℕ) (n : Node k t) (p : Provider k.KadId) (id : ℕ) (s : Stream) (payload : Bytes)
      → IsChunk payload
      → s.closed ≡ none
      → receive_payload k t u conn n p id s payload
        ≡ returns
            (put_stream conn id (record s { written = s.written ++ payload ∷ [] }) p n)
            []
            none
  unfolding receive_payload
  receive_payload-open conn n p id s payload chunk is_open =
      rw (le→ltb chunk_size (length payload) chunk.1, not_empty)
        (ap
          (λ (o : Outcome Stream). elim o as (λ _. Handled k t) [
            | ok r ↦ returns (put_stream conn id r p n) [] none
            | err e ↦
                returns (put_provider k t conn (close_stream_with_error s e p).1 n) [] (some e)
            | panic ↦ panics
          ])
          (write_stream-open payload s is_open))
    where
      not_empty : (length payload == 0) ≡ false
      not_empty = ground (arith, chunk.0)

  module _ (big : IsBigEndian u) (sent : Bytes → Option Error) (conn : ℕ) where
    pub handle_message-data :
        (n : Node k t) (id : ℕ) (payload : Bytes)
        → handle_message k t u sent conn n (data_message u id payload)
          ≡ handle_data k t u conn n (drop 1 (data_message u id payload))
    unfolding handle_message
    handle_message-data n id payload =
        rw
          (Data.append_to_lem u big (record { stream_id = id; payload = payload })
            (op_code_data ∷ []))
          refl

    handle_chunk :
        (n : Node k t) (id : ℕ) (s : Stream) (payload : Bytes)
        → IsU32 id
        → IsChunk payload
        → s.closed ≡ none
        → (has : HasStream n conn id s)
        → handle_message k t u sent conn n (data_message u id payload)
          ≡ returns
              (put_stream conn id (record s { written = s.written ++ payload ∷ [] }) has.provider n)
              []
              none
    unfolding handle_data receive_data
    handle_chunk n id s payload fits chunk is_open has =
        handle_message-data n id payload
        ∙ with_provider-found k t conn n _ has.provider has.found
        ∙ checked-ok k t n (receive_data k t u conn n has.provider) _ _
            (unmarshal-data_message u big id payload fits chunk)
        ∙ rw (has.stream, receive_data)
            (receive_payload-open conn n has.provider id s payload chunk is_open)

    pub handle_chunks :
        (ps : List Bytes) (n : Node k t) (id : ℕ) (s : Stream)
        → IsU32 id
        → All IsChunk ps
        → s.closed ≡ none
        → HasStream n conn id s
        → (m : Node k t) × Handles sent conn n (map (data_message u id) ps) m
          × HasStream m conn id (record s { written = s.written ++ ps })
    handle_chunks [] n id s fits chunks is_open has = (
      n,
      done,
      subst (λ w. HasStream n conn id (record s { written = w })) (sym (append-nil s.written)) has,
    )
    handle_chunks (p ∷ ps) n id s fits chunks is_open has =
        let s1 : Stream = record s { written = s.written ++ p ∷ [] } in
        let n1 = put_stream conn id s1 has.provider n in
        let (m, run, after) =
          handle_chunks ps n1 id s1 fits chunks.1 is_open
            (put_stream-HasStream conn id s1 has.provider n) in
        (
          m,
          next (handle_chunk n id s p fits chunks.0 is_open has) run,
          subst (λ w. HasStream m conn id (record s { written = w }))
              (append_assoc s.written (p ∷ []) ps) after,
        )

    pub handle_header :
        (n : Node k t) (c : Context) (s : Stream)
        → Response.IsEncodable (header_packet c)
        → (has : HasStream n conn c.stream_id s)
        → handle_message k t u sent conn n (header_message u c)
          ≡ returns
              (put_stream conn c.stream_id (set_header (header_packet c) s) has.provider n)
              []
              none
    unfolding handle_message handle_service_response receive_header
    handle_header n c s fits has =
        opened
        ∙ with_provider-found k t conn n _ has.provider has.found
        ∙ checked-ok k t n (receive_header k t u conn n has.provider) _ _ decoded
        ∙ rw (has.stream, receive_header)
      where
        bytes : Bytes
        bytes = Response.append_to u (header_packet c) []

        opened :
            handle_message k t u sent conn n (header_message u c)
            ≡ handle_service_response k t u conn n bytes
        opened = ap (handle_message k t u sent conn n) (
            Response.append_to_lem u big (header_packet c) (op_code_service_response ∷ [])
            ∙ ap (◌∷◌ op_code_service_response)
                (sym (Response.append_to_lem u big (header_packet c) [])))

        decoded : unmarshal_service_response_packet u bytes ≡ ok (header_packet c)
        decoded =
            ap (unmarshal_service_response_packet u) (sym (append-nil bytes))
            ∙ Response.unmarshal_service_response_packet-append_to u big (header_packet c) [] fits
