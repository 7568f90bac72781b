-- ===== src/Rpc/Service.antt =====
-- The goroutine that `HandleMessage` of streaming_rpc/streamnode.go starts for a service request. A
-- handler is the list of its calls of `WriteHeader` and `Write`. What the goroutine's `ctx.Body.Close()`
-- does to the stream of the request is `close_body` of Rpc.Node. The goroutine reads its connection from
-- the context of the message, which goes back to its pool when `HandleMessage` returns: the argument
-- `send` is the connection that it gets, which a later message may have put there.
use carlo.Common.{
  ℕ, ◌+◌, false, List, [], ◌∷◌, ◌++◌, Option, none, some, Error, Outcome, ok, panic, length,
  if◌then◌else◌,
}
use carlo.Bytesutil.{BytesUtil}
use carlo.Reader.{Bytes}
use carlo.Rpc.Context.{
  Context, Sent, sent_all, then_send, write_header, write, data_message, header_message,
}

pub data Action : Type 0 where
  call_write_header : Bytes → Bytes → Action
  call_write : Bytes → Action

-- The context after a handler, the messages it sent, and how often `Send` has been called.
pub record Ran : Type 0 where
  pub context : Context
  pub messages : List Bytes
  pub calls : ℕ

-- The calls of `Send` behind what was sent: the one that failed counts.
abbrev pub calls_of : Sent → ℕ
calls_of s = elim s.error [ none ↦ length s.messages | some e ↦ length s.messages + 1 ]

-- A context from the pool, made for the request.
abbrev pub new_context : ℕ → Context
new_context id = record { stream_id = id; response_headers = []; written = false }

module _ (u : BytesUtil) (send : ℕ → Option Error) where
  -- The handler from its `i`-th call of `Send` on. It goes on after a `Write` that failed.
  unfoldable pub run_handler : ℕ → List Action → Context → Ran
  run_handler i [] c = record { context = c; messages = []; calls = i }
  run_handler i (call_write_header key val ∷ actions) c =
      run_handler i actions (write_header key val c)
  run_handler i (call_write bytes ∷ actions) c =
      let w = write u (λ j. send (i + j)) bytes c in
      let rest = run_handler (i + calls_of w.1) actions w.0 in
      record rest { messages = w.1.messages ++ rest.messages }

  -- After the handler: the response header if nothing was written, else the end of the stream.
  unfoldable pub finish : Ran → Sent
  finish r =
      then_send (send r.calls)
        (if r.context.written
          then data_message u r.context.stream_id []
          else header_message u r.context)
        sent_all

  -- All that the goroutine sends, and the error that closes the stream. It reads the provider's id
  -- through its pointer.
  unfoldable pub serve : {KadId : Type 0} → Option KadId → ℕ → List Action → Outcome Sent
  serve none id actions = panic
  serve (some kad_id) id actions =
      let r = run_handler 0 actions (new_context id) in
      let last = finish r in
      ok (record { messages = r.messages ++ last.messages; error = last.error })
