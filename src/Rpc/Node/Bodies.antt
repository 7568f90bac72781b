-- ===== src/Rpc/Node/Bodies.antt =====
-- The body of a request: the stream that the handler's goroutine reads and closes.
use carlo.Common.{
  ℕ, ◌≡◌, ap, ◌∙◌, false, [], ◌∷◌, ◌++◌, Option, none, some, Error, other_error, Outcome, nat_key,
  arith, length, le→ltb, ◌==◌, ==_refl, lookup-insert, ok, err, panic,
}
use carlo.Common.Words.{IsU32}
use carlo.Bytesutil.{BytesUtil, IsBigEndian}
use carlo.Kademlia.{Kademlia, Routing}
use carlo.Reader.{Bytes}
use carlo.Rpc.Provider.{Stream, Provider, get_stream, close_stream_with_error}
use carlo.Rpc.Provider.Streams.{get_stream-close_stream}
use carlo.Rpc.Providers.{find_provider}
use carlo.Rpc.Context.{chunk_size, data_message}
use carlo.Rpc.Context.Chunks.{IsChunk, unmarshal-data_message}
use carlo.Rpc.Node.{
  Node, Handled, returns, panics, put_provider, handle_message, handle_data, receive_data,
  receive_payload, write_stream, close_reader, close_body,
}
use carlo.Rpc.Node.Turns.{with_provider-found, checked-ok}
use carlo.Rpc.Node.Transfer.{HasStream, put_stream, put_stream-HasStream, handle_message-data}

write_stream-closed :
    (payload : Bytes) (s : Stream) (e : Error)
    → s.closed ≡ some e
    → write_stream payload s ≡ err other_error
write_stream-closed payload s e is_closed =
    ap
      (λ o. elim o as (λ _. Outcome Stream) [
        | none ↦ ok (record s { written = s.written ++ payload ∷ [] })
        | some e ↦ err other_error
      ])
      is_closed

module _ (k : Kademlia) (t : Routing k) (u : BytesUtil) where
  pub close_body-HasStream :
      (conn id : ℕ) (n : Node k t) (s : Stream)
      → HasStream k t u n conn id s
      → HasStream k t u (close_body k t conn id n) conn id (close_reader s)
  unfolding close_body
  close_body-HasStream conn id n s has =
      rw (has.found, has.stream, close_body)
        (put_stream-HasStream k t u conn id (close_reader s) has.provider n)

  receive_payload-closed :
      (conn : ℕ) (n : Node k t) (p : Provider k.KadId) (id : ℕ) (s : Stream) (payload : Bytes)
      (e : Error)
      → IsChunk payload
      → s.closed ≡ some e
      → receive_payload k t u conn n p id s payload
        ≡ returns
            (put_provider k t conn (close_stream_with_error s other_error p).1 n)
            []
            (some other_error)
  unfolding receive_payload
  receive_payload-closed conn n p id s payload e chunk is_closed =
      rw (le→ltb chunk_size (length payload) chunk.1, not_empty)
        (ap
          (λ (o : Outcome Stream). elim o as (λ _. Handled k t) [
            | ok r ↦ returns (put_stream k t u conn id r p n) [] none
            | err e ↦
                returns (put_provider k t conn (close_stream_with_error s e p).1 n) [] (some e)
            | panic ↦ panics
          ])
          (write_stream-closed payload s e is_closed))
    where
      not_empty : (length payload == 0) ≡ false
      not_empty = ground (arith, chunk.0)

  module _ (big : IsBigEndian u) (sent : Bytes → Option Error) (conn : ℕ) where
    -- A part of a body that is closed is refused with an error, and the stream taken out of the table.
    pub handle_message-closed :
        (n : Node k t) (id : ℕ) (s : Stream) (payload : Bytes) (e : Error)
        → IsU32 id
        → IsChunk payload
        → s.closed ≡ some e
        → s.id ≡ id
        → HasStream k t u n conn id s
        → (m : Node k t) × (q : Provider k.KadId) × (handle_message k t u sent conn n
              (data_message u id payload)
            ≡ returns m [] (some other_error))
          × (find_provider conn m.providers ≡ some q)
          × (get_stream id q ≡ none)
    unfolding find_provider handle_data receive_data
    handle_message-closed n id s payload e fits chunk is_closed is_id has =
        let q = (close_stream_with_error s other_error has.provider).1 in
        (
          put_provider k t conn q n,
          q,
          handle_message-data k t u big sent conn n id payload
              ∙ with_provider-found k t conn n _ has.provider has.found
              ∙ checked-ok k t n (receive_data k t u conn n has.provider) _ _
                  (unmarshal-data_message u big id payload fits chunk)
              ∙ rw (has.stream, receive_data)
                  (receive_payload-closed conn n has.provider id s payload e chunk is_closed),
          lookup-insert conn conn q n.providers.providers ∙ rw (==_refl conn),
          get_stream-close_stream s other_error has.provider id ∙ rw (is_id, ==_refl id),
        )
