-- ===== src/Rpc/Context.antt =====
-- streaming_rpc/context.go: what a handler writes, as the messages that `Conn.Send` is called with.
pub mod Chunks
mod Tests
use carlo.Common.{
  ℕ, zero, suc, ◌+◌, ◌≡◌, Bool, true, false, List, [], ◌∷◌, ◌++◌, Option, none, some, Error, length,
  take, drop, insert, bytes_key, if◌then◌else◌,
}
use carlo.Bytesutil.{BytesUtil}
use carlo.Reader.{Bytes}
use carlo.Packet.Headers.{Headers}
use carlo.Packet.Data.{DataPacket}
use carlo.Packet.Data
use carlo.Packet.Response.{ServiceResponsePacket}
use carlo.Packet.Response

abbrev pub chunk_size : ℕ
chunk_size = 2048

abbrev pub op_code_handshake : ℕ
op_code_handshake = 0

abbrev pub op_code_service_request : ℕ
op_code_service_request = 1

abbrev pub op_code_service_response : ℕ
op_code_service_response = 2

abbrev pub op_code_data : ℕ
op_code_data = 3

abbrev pub op_code_find_node_request : ℕ
op_code_find_node_request = 4

abbrev pub op_code_find_node_response : ℕ
op_code_find_node_response = 5

pub record Context : Type 0 where
  pub stream_id : ℕ
  pub response_headers : Headers
  pub written : Bool

unfoldable pub write_header : Bytes → Bytes → Context → Context
write_header key val c = record c { response_headers = insert key val c.response_headers }

-- The messages that the connection took, and the error of the one that it refused.
pub record Sent : Type 0 where
  pub messages : List Bytes
  pub error : Option Error

abbrev pub sent_all : Sent
sent_all = record { messages = []; error = none }

-- `err := c.conn.Send(message); if err != nil { return 0, err }`, then the rest.
abbrev pub then_send : Option Error → Bytes → Sent → Sent
then_send none message rest = record { messages = message ∷ rest.messages; error = rest.error }
then_send (some e) message rest = record { messages = []; error = some e }

module _ (u : BytesUtil) where
  abbrev pub data_message : ℕ → Bytes → Bytes
  data_message id payload =
      Data.append_to u (record { stream_id = id; payload = payload }) (op_code_data ∷ [])

  abbrev pub header_message : Context → Bytes
  header_message c =
      Response.append_to u
        (record { stream_id = c.stream_id; handled = true; headers = some c.response_headers })
        (op_code_service_response ∷ [])

  -- The loop over the chunks, with the results of the calls of `Send` from the `i`-th on. Each round
  -- takes a byte at least, so the length of the data is fuel enough.
  unfoldable pub send_chunks : ℕ → ℕ → (ℕ → Option Error) → ℕ → Bytes → Sent
  send_chunks zero id send i bytes = sent_all
  send_chunks (suc fuel) id send i [] = sent_all
  send_chunks (suc fuel) id send i (b ∷ bytes) =
      then_send (send i) (data_message id (take chunk_size (b ∷ bytes)))
        (send_chunks fuel id send (i + 1) (drop chunk_size (b ∷ bytes)))

  -- `Write`: the context afterwards and what was sent.
  unfoldable pub write : (ℕ → Option Error) → Bytes → Context → Context × Sent
  write send [] c = (c, sent_all)
  write send (b ∷ bytes) c = (
    record c { written = true },
    if c.written
        then send_chunks (length (b ∷ bytes)) c.stream_id send 0 (b ∷ bytes)
        else then_send (send 0) (header_message c)
            (send_chunks (length (b ∷ bytes)) c.stream_id send 1 (b ∷ bytes)),
  )

  -- The number that `Write` returns.
  abbrev pub write_result : Bytes → Sent → ℕ
  write_result bytes s = elim s.error [ none ↦ length bytes | some e ↦ 0 ]
