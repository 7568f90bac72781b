-- ===== src/Rpc/Provider.antt =====
-- streaming_rpc/stream.go and the stream table of streaming_rpc/provider.go. A provider is the node at
-- the other end of a connection; a connection is named by a number that stands for its address.
pub mod Streams
use carlo.Common.{
  ℕ, zero, suc, ◌+◌, ◌%◌, ◌^◌, Bool, true, false, List, [], ◌∷◌, ◌++◌, Option, none, some, Error,
  eof, lookup, insert, delete, nat_key,
}
use carlo.Reader.{Bytes}
use carlo.Packet.Response.{ServiceResponsePacket}

-- `Stream`: its pipe as the payloads written so far and the error that both ends were closed with,
-- and whether `once` has released the wait group.
pub record Stream : Type 0 where
  pub id : ℕ
  pub header : Option ServiceResponsePacket
  pub written : List Bytes
  pub closed : Option Error
  pub released : Bool

-- A stream as `NextStream` and `RegisterStreamWithServiceRequestPacket` make it.
abbrev pub new_stream : ℕ → Stream
new_stream id = record { id = id; header = none; written = []; closed = none; released = false }

-- The set of service names that a provider has announced, as Go's `map[string]struct{}`.
abbrev pub Names : Type 0
Names = List (Bytes × Unit {0})

pub record Provider (KadId : Type 0) : Type 0 where
  pub kad_id : Option KadId
  pub conn : ℕ
  pub services : Names
  pub counter : ℕ
  pub streams : List (ℕ × Stream)

-- `CloseWithError` on both ends of the pipe: the first error stays.
abbrev pub close_pipe : Error → Option Error → Option Error
close_pipe e none = some e
close_pipe e (some x) = some x

abbrev pub close_stream : Error → Stream → Stream
close_stream e s = record s { closed = close_pipe e s.closed; released = true }

abbrev pub close_all : List (ℕ × Stream) → List Stream
close_all [] = []
close_all ((id, stream) ∷ m) = close_stream eof stream ∷ close_all m

module _ {KadId : Type 0} where
  unfoldable pub next_stream : Provider KadId → Stream × Provider KadId
  next_stream p =
      let stream = new_stream p.counter in
      (
        stream,
        record p {
          counter = (p.counter + 2) % 2 ^ 32;
          streams = insert p.counter stream p.streams;
        },
      )

  unfoldable pub get_stream : ℕ → Provider KadId → Option Stream
  get_stream id p = lookup id p.streams

  -- The stream, whether it was created, and the provider afterwards.
  unfoldable pub register_stream : ℕ → Provider KadId → Stream × Bool × Provider KadId
  register_stream id p = elim (lookup id p.streams) [
    | some stream ↦ (stream, false, p)
    | none ↦ (new_stream id, true, record p { streams = insert id (new_stream id) p.streams })
  ]

  -- The stream as it is closed, and the provider without it.
  unfoldable pub close_stream_with_error : Stream → Error → Provider KadId → Stream × Provider KadId
  close_stream_with_error stream e p =
      (close_stream e stream, record p { streams = delete stream.id p.streams })

  -- `Close`: the streams that it closes, and the provider without streams.
  unfoldable pub close : Provider KadId → List Stream × Provider KadId
  close p = (close_all p.streams, record p { streams = [] })
