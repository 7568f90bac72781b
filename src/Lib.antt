-- ===== src/Lib.antt =====
-- carlo: bidirectional encrypted message streams (streaming_transmit) and service calls over them
-- (streaming_rpc), in Go.
--
-- A node opens connections to other nodes. Both ends of a connection number their requests, put the
-- number in front of each payload, and match the responses by it (streaming_transmit/conn.go). Over
-- these messages streaming_rpc announces services by a signed handshake, opens streams for service
-- requests, and sends a stream's body as data packets.
--
-- Files, with the code that each is about:
--   Common, Common/*: shared types, lists over native numbers, Go maps as association lists, machine
--     words, signed numbers, the results of calls.
--   Reader: the idiom of the decoders, which cut a buffer from the front after a check of its length.
--   Bytesutil, Kademlia: what the code uses of github.com/lithdew/bytesutil and
--     github.com/lithdew/kademlia, as parameters with laws; Bytesutil/Instance and Kademlia/Instance
--     meet the laws.
--   Packet/Services, Packet/Headers: the parts that the packets share. Packet/Request, Packet/Response,
--     Packet/Data: streaming_rpc/servicerequestpacket.go, serviceresponsepacket.go and datapacket.go.
--     Packet/Handshake: handshakepacket.go, with its codec in Packet/Handshake/Codec and `Validate` in
--     Packet/Handshake/Validate. Packet/Utf8: `utf8.ValidString` of the standard library.
--   Transmit/Settings: the numeric settings and getters of streaming_transmit/conn.go, client.go and
--     server.go. Transmit/Settings/Seq: `Conn.next`.
--   Transmit/Conn: the state of `Conn` and its critical sections. Transmit/Conn/Messages: the frames.
--     Transmit/Conn/Writer: `writeLoop`, the senders and `close`. Transmit/Conn/Requests: `Request`, the
--     reader and `close`. Transmit/Conn/Handle: `Handle`.
--   Transmit/Client: the pool of connections of streaming_transmit/client.go. Transmit/Client/Choice:
--     `getClientConn`. Transmit/Client/Pool: runs of the pool.
--     Transmit/Client/Dial: the loop of the dialling goroutine, and what `Get` returns after it.
--     Transmit/Client/Leaks: the connections that the loop leaves open.
--   Transmit/Sized: the messages with a length of streaming_transmit/io.go.
--   Transmit/Session: `SessionConn` of streaming_transmit/session.go over an AEAD that is a parameter, with
--     laws. Its children are about the frames (Frames), a session with both ends (Channel) and the nonces
--     (Nonces). Transmit/Session/Keys: `Session`, whose cryptography is a parameter;
--     Transmit/Session/Agreement: its two ends. Transmit/Session/Handshakers: the default handshakers of
--     net.go.
--   Transmit/Link: `readLoop` of conn.go over a session. Transmit/Link/Transparent: the writer's loop and
--     the reader's loop, end to end.
--   Transmit/Metrics: the counters of poolmetrics.go. Transmit/Metrics/Conserved: what they add up to.
--   Transmit/Server: `Serve`, its goroutines and `Shutdown` of streaming_transmit/server.go.
--     Transmit/Server/Bounds: its counters.
--   Rpc/Provider: the streams of streaming_rpc/provider.go. Rpc/Providers: providers.go. Rpc/Context:
--     context.go. Rpc/Push: `Provider.Push`. Rpc/Service: the goroutine that runs a handler.
--     Rpc/Pool: contextpool.go, with the reuse of contexts in Rpc/Pool/Fresh.
--   Rpc/Probe: `probeWithStreamTransmitConn` of streaming_rpc/streamnode.go. Rpc/Probe/Meeting: a probe
--     between two nodes. Rpc/Selection: `Push` and `ProvidersFor` of streamnode.go, with the attempts of
--     `Push` in Attempts and the providers by key in Keys and Nameless.
--   Rpc/Bootstrap: `Bootstrap` of streaming_rpc/streamnode.go with its goroutines. Rpc/Bootstrap/Visits: the
--     peers that it probes. Rpc/Bootstrap/Stuck: the states in which it waits for itself.
--     Rpc/Bootstrap/Deadlock: how it comes to one.
--   Rpc/Lifecycle: `Start` and `Shutdown` of streamnode.go, with the panics in Rpc/Lifecycle/Shutdowns.
--   Rpc/Node: `HandleMessage` and `HandleConnState` of streaming_rpc/streamnode.go. Its children say what
--     a message changes (Changes, Turns, Isolation), what becomes of a `Write` at the other end
--     (Transfer, Delivery), of requests (Requests), handshakes (Greeting) and closed connections (Closing),
--     of a whole `Push` (Pushing), of the body that a handler closes (Bodies) and of a handler's
--     answer (Answering, Serving) at the other end, and when the code panics (Panics).
--   Modules named Tests hold concrete runs.
--
-- Conventions. A byte, a uint32 and a length are natural numbers; wrap-around is written out, and where
-- a value must fit a width that is a hypothesis. A Go string or []byte is the list of its bytes; the
-- capacity of slices is not modelled. A map is an association list whose order stands for the order of
-- `range`. A pointer is a number, or the entry of the map that holds the object. A call that returns an
-- error is `Outcome` or `Option`; an index out of range, a nil pointer that is read and a negative wait
-- group are `panic`. The texts of errors are not modelled. Threads are steps of a relation: a step is a
-- critical section or an access to one object, in any order, and what the network answers is an
-- argument of the step.
--
-- Fuel. The chunks of `Write` take the length of the data as fuel, which is enough since each chunk takes
-- a byte at least. The reader's loop takes one round more than there are messages, the round that finds
-- nothing left. All other loops recur on a list or a count.
--
-- Not modelled: reuse of buffers by bytebufferpool; reuse of pending requests and pending writes through
-- their global pools, also by another connection; the wait of a write to a pipe for its reader; address
-- resolution, logging, timers, and what the list of files leaves out.
pub mod Common
pub mod Bytesutil
pub mod Kademlia
pub mod Reader
pub mod Packet
pub mod Transmit
pub mod Rpc
