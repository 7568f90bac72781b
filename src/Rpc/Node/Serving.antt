-- ===== src/Rpc/Node/Serving.antt =====
-- The whole answer of a handler's goroutine at the node that made the request.
use carlo.Common.{
  ℕ, ◌+◌, ◌≡◌, ◌≢◌, refl, sym, ◌∙◌, subst, true, List, [], ◌∷◌, ◌++◌, Option, none, some, Error, ok,
  ==_refl,
}
use carlo.Common.Words.{IsU32}
use carlo.Bytesutil.{BytesUtil, IsBigEndian}
use carlo.Kademlia.{Kademlia, Routing}
use carlo.Reader.{Bytes}
use carlo.Packet.Response
use carlo.Rpc.Provider.{Stream, Provider, get_stream}
use carlo.Rpc.Providers.{find_provider}
use carlo.Rpc.Context.{Context, write, write_header, data_message, header_message}
use carlo.Rpc.Service.{
  Action, call_write_header, call_write, run_handler, finish, serve, new_context, calls_of,
}
use carlo.Rpc.Push.Messages.{no_errors}
use carlo.Rpc.Node.{Node, returns, handle_message, set_header}
use carlo.Rpc.Node.Transfer.{
  HasStream, header_packet, handle_header, put_stream, put_stream-HasStream,
}
use carlo.Rpc.Node.Delivery.{handle_message-end_of_stream}
use carlo.Rpc.Node.Answering.{
  all_bytes, after_action, FitActions, headed, headed-id, Answered, run_handler-Answered,
}

-- The context after the calls of a handler.
abbrev pub after_actions : List Action → Context → Context
after_actions [] c = c
after_actions (action ∷ actions) c = after_actions actions (after_action action c)

stream_id-after_actions :
    (actions : List Action) (c : Context) → (after_actions actions c).stream_id ≡ c.stream_id
unfolding write_header
stream_id-after_actions [] c = refl
stream_id-after_actions (call_write_header key val ∷ actions) c =
    stream_id-after_actions actions (write_header key val c)
stream_id-after_actions (call_write [] ∷ actions) c = stream_id-after_actions actions c
stream_id-after_actions (call_write (b ∷ bytes) ∷ actions) c =
    stream_id-after_actions actions (record c { written = true })

still_written :
    (actions : List Action) (c : Context)
    → c.written ≡ true
    → (after_actions actions c).written ≡ true
unfolding write_header
still_written [] c w = w
still_written (call_write_header key val ∷ actions) c w =
    still_written actions (write_header key val c) w
still_written (call_write [] ∷ actions) c w = still_written actions c w
still_written (call_write (b ∷ bytes) ∷ actions) c w =
    still_written actions (record c { written = true }) refl

written-after_actions :
    (actions : List Action) (c : Context)
    → all_bytes actions ≢ []
    → (after_actions actions c).written ≡ true
written-after_actions [] c some_bytes = absurd (some_bytes refl)
written-after_actions (call_write_header key val ∷ actions) c some_bytes =
    written-after_actions actions (write_header key val c) some_bytes
written-after_actions (call_write [] ∷ actions) c some_bytes =
    written-after_actions actions c some_bytes
written-after_actions (call_write (b ∷ bytes) ∷ actions) c some_bytes =
    still_written actions (record c { written = true }) refl

unwritten-after_actions :
    (actions : List Action) (c : Context)
    → all_bytes actions ≡ []
    → (after_actions actions c).written ≡ c.written
unfolding write_header
unwritten-after_actions [] c e = refl
unwritten-after_actions (call_write_header key val ∷ actions) c e =
    unwritten-after_actions actions (write_header key val c) e
unwritten-after_actions (call_write [] ∷ actions) c e = unwritten-after_actions actions c e
unwritten-after_actions (call_write (b ∷ bytes) ∷ actions) c e = cc

last-FitActions :
    (actions : List Action) (c : Context)
    → FitActions actions c
    → Response.IsEncodable (header_packet (after_actions actions c))
last-FitActions [] c h = h
last-FitActions (action ∷ actions) c h = last-FitActions actions (after_action action c) h.1

module _ (u : BytesUtil) where
  context-run_handler :
      (actions : List Action) (i : ℕ) (c : Context)
      → (run_handler u no_errors i actions c).context ≡ after_actions actions c
  unfolding run_handler write
  context-run_handler [] i c = refl
  context-run_handler (call_write_header key val ∷ actions) i c =
      context-run_handler actions i (write_header key val c)
  context-run_handler (call_write [] ∷ actions) i c = context-run_handler actions (i + 0) c
  context-run_handler (call_write (b ∷ bytes) ∷ actions) i c =
      context-run_handler actions (i + calls_of (write u no_errors (b ∷ bytes) c).1)
        (record c { written = true })

  -- Without a byte the handler sends nothing.
  messages-unwritten :
      (actions : List Action) (i : ℕ) (c : Context)
      → all_bytes actions ≡ []
      → (run_handler u no_errors i actions c).messages ≡ []
  unfolding run_handler write
  messages-unwritten [] i c e = refl
  messages-unwritten (call_write_header key val ∷ actions) i c e =
      messages-unwritten actions i (write_header key val c) e
  messages-unwritten (call_write [] ∷ actions) i c e = messages-unwritten actions (i + 0) c e
  messages-unwritten (call_write (b ∷ bytes) ∷ actions) i c e = cc

  serve-written :
      {KadId : Type 0} (kad_id : KadId) (id : ℕ) (actions : List Action)
      → all_bytes actions ≢ []
      → serve u no_errors (some kad_id) id actions
        ≡ ok (record {
          messages =
              (run_handler u no_errors 0 actions (new_context id)).messages
              ++ data_message u id [] ∷ [];
          error = none;
        })
  unfolding serve finish
  serve-written kad_id id actions some_bytes = rw (
    context-run_handler actions 0 (new_context id),
    written-after_actions actions (new_context id) some_bytes,
    stream_id-after_actions actions (new_context id),
  )

  serve-unwritten :
      {KadId : Type 0} (kad_id : KadId) (id : ℕ) (actions : List Action)
      → all_bytes actions ≡ []
      → serve u no_errors (some kad_id) id actions
        ≡ ok (record {
          messages = header_message u (after_actions actions (new_context id)) ∷ [];
          error = none;
        })
  unfolding serve finish
  serve-unwritten kad_id id actions e = rw (
    messages-unwritten actions 0 (new_context id) e,
    context-run_handler actions 0 (new_context id),
    unwritten-after_actions actions (new_context id) e,
  )

module _ (k : Kademlia) (t : Routing k) (u : BytesUtil) where
  module _ (sent : Bytes → Option Error) (conn : ℕ) where
    -- The node handles all messages but the last, after which the stream holds what the handler wrote
    -- and the response header, and the last one takes the stream out of the table.
    pub record Served (n : Node k t) (id : ℕ) (s : Stream) (actions : List Action)
        (messages : List Bytes) : Type 0 where
      pub answered : Answered k t u sent conn n messages actions (new_context id) s
      pub last : Bytes
      pub closed : Node k t
      pub ends : handle_message k t u sent conn answered.node last ≡ returns closed [] none
      pub provider : Provider k.KadId
      pub found : find_provider conn closed.providers ≡ some provider
      pub gone : get_stream id provider ≡ none

    module _ (big : IsBigEndian u) {KadId : Type 0} (kad_id : KadId) (id : ℕ)
        (actions : List Action) (s : Stream) (n : Node k t) where
      -- If no call of `Send` fails, a handler that writes at least a byte, for a peer with an id,
      -- answers with messages that the peer accepts in order: they fill its open stream with
      -- exactly the bytes written, behind a response header, and the last one closes it. The byte
      -- functions are big-endian, and the headers fit the wire format.
      pub serve-handle_message :
          all_bytes actions ≢ []
          → FitActions actions (new_context id)
          → s.closed ≡ none
          → s.id ≡ id
          → HasStream k t u n conn id s
          → (front : List Bytes) × (served : Served n id s actions front) × (serve u no_errors
                (some kad_id)
                id
                actions
              ≡ ok (record { messages = front ++ served.last ∷ []; error = none }))
      serve-handle_message some_bytes fits is_open is_id has =
          let a =
            run_handler-Answered k t u sent conn big actions 0 (new_context id) s n fits is_open
              has in
          let small : IsU32 id =
            subst IsU32 (stream_id-after_actions actions (new_context id))
              (last-FitActions actions (new_context id) fits).stream_id in
          let (closed, q, ends, found, streams) =
            handle_message-end_of_stream k t u big sent conn a.node id
              (record (headed actions (new_context id) s) { written = s.written ++ a.parts }) small
              (headed-id actions (new_context id) s ∙ is_id) a.holds in
          (
            (run_handler u no_errors 0 actions (new_context id)).messages,
            record {
              answered = a;
              last = data_message u id [];
              closed = closed;
              ends = ends;
              provider = q;
              found = found;
              gone = streams id ∙ rw (==_refl id);
            },
            serve-written u kad_id id actions some_bytes,
          )

      -- If no call of `Send` fails, a handler that writes nothing, for a peer with an id, answers
      -- with its header only: if the peer's stream is open and holds no data, it gets the header, and
      -- stays in the table, open and without data. The byte functions are big-endian, the header fits
      -- the wire format, and the peer has the stream.
      pub serve-nothing_written :
          all_bytes actions ≡ []
          → FitActions actions (new_context id)
          → s.closed ≡ none
          → s.written ≡ []
          → HasStream k t u n conn id s
          → (message : Bytes) × (m : Node k t) × (r : Stream) × (serve u no_errors
                (some kad_id)
                id
                actions
              ≡ ok (record { messages = message ∷ []; error = none }))
            × (handle_message k t u sent conn n message ≡ returns m [] none)
            × HasStream k t u m conn id r
            × (r.header ≡ some (header_packet (after_actions actions (new_context id))))
            × (r.closed ≡ none)
            × (r.written ≡ [])
      serve-nothing_written nothing fits is_open empty has =
          let c = after_actions actions (new_context id) in
          let is_id : c.stream_id ≡ id = stream_id-after_actions actions (new_context id) in
          let here : HasStream k t u n conn c.stream_id s =
            subst (λ i. HasStream k t u n conn i s) (sym is_id) has in
          (
            header_message u c,
            put_stream k t u conn c.stream_id (set_header (header_packet c) s) here.provider n,
            set_header (header_packet c) s,
            serve-unwritten u kad_id id actions nothing,
            handle_header k t u big sent conn n c s (last-FitActions actions (new_context id) fits)
                here,
            subst
                (λ i.
                  HasStream k t u
                    (put_stream k t u conn c.stream_id (set_header (header_packet c) s)
                      here.provider n)
                    conn i (set_header (header_packet c) s))
                is_id
                (put_stream-HasStream k t u conn c.stream_id (set_header (header_packet c) s)
                  here.provider n),
            refl,
            is_open,
            empty,
          )
