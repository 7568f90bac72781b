-- ===== src/Rpc/Push.antt =====
-- `Push` of streaming_rpc/provider.go: the messages of a request with its body. Other calls of the
-- provider may run between its parts, so each part takes what it finds. A body is the list of what its
-- `Read` returns, behind which `Read` returns no bytes and io.EOF.
pub mod Messages
use carlo.Common.{
  ℕ, ◌+◌, Bool, true, false, List, [], ◌∷◌, Option, none, some, Error, eof, other_error, Outcome,
  ok, err, length, ◌==◌, ◌&&◌, if◌then◌else◌,
}
use carlo.Bytesutil.{BytesUtil}
use carlo.Reader.{Bytes}
use carlo.Packet.Headers.{Headers}
use carlo.Packet.Request.{ServiceRequestPacket}
use carlo.Packet.Request
use carlo.Rpc.Provider.{Stream, Provider, close_stream_with_error}
use carlo.Rpc.Context.{Sent, sent_all, then_send, data_message, op_code_service_request}

-- The bytes that a `Read` put into the buffer, and its error.
pub record Read : Type 0 where
  pub bytes : Bytes
  pub error : Option Error

-- `err != nil && err != io.EOF`
abbrev pub read_failed : Option Error → Option Error
read_failed none = none
read_failed (some eof) = none
read_failed (some e) = some e

abbrev pub is_eof : Option Error → Bool
is_eof (some eof) = true
is_eof _ = false

module _ (u : BytesUtil) where
  -- The loop over the body, with the results of `Send` from the `i`-th on.
  unfoldable pub push_body : (ℕ → Option Error) → ℕ → ℕ → List Read → Sent
  push_body send i id [] = then_send (send i) (data_message u id []) sent_all
  push_body send i id (r ∷ body) =
      let rest = push_body send (i + 1) id body in
      elim (read_failed r.error) [
        | some e ↦ record { messages = []; error = some e }
        | none ↦
            then_send (send i) (data_message u id r.bytes)
              (if is_eof r.error && length r.bytes == 0 then sent_all else rest)
      ]

  abbrev pub request_message : ServiceRequestPacket → Bytes
  request_message packet = Request.append_to u packet (op_code_service_request ∷ [])

  -- All that `Push` sends on the stream `id`.
  unfoldable pub push : (ℕ → Option Error) → ServiceRequestPacket → List Read → Sent
  push send packet body =
      then_send (send 0) (request_message packet) (push_body send 1 packet.stream_id body)

-- `if err != nil { ...; p.CloseStreamWithError(stream, err) }` after the messages.
unfoldable pub close_on_error : {KadId : Type 0} → Sent → Stream → Provider KadId → Provider KadId
close_on_error s stream p = elim s.error [
  | none ↦ p
  | some e ↦ (close_stream_with_error stream e p).1
]

-- What `Push` returns of the stream when it has been released.
unfoldable pub finish_push : Stream → Outcome Stream
finish_push s = elim s.header [
  | none ↦ err eof
  | some packet ↦ if packet.handled then ok s else err other_error
]
