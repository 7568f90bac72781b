-- ===== src/Rpc/Node/Answering.antt =====
-- What a handler sends, handled by the node that made the request.
use carlo.Common.{
  ℕ, zero, suc, ◌+◌, ◌≡◌, refl, sym, ap, ◌∙◌, subst, true, List, [], ◌∷◌, ◌++◌, append-nil,
  append_assoc, Option, none, Error, drop, length, Bool-cases, inl, inr,
}
use carlo.Bytesutil.{BytesUtil, IsBigEndian}
use carlo.Kademlia.{Kademlia, Routing}
use carlo.Reader.{Bytes}
use carlo.Packet.Response
use carlo.Rpc.Provider.{Stream}
use carlo.Rpc.Context.{Context, write, write_header, send_chunks, chunk_size}
use carlo.Rpc.Context.Chunks.{concat}
use carlo.Rpc.Service.{Action, call_write_header, call_write, run_handler, calls_of}
use carlo.Rpc.Push.Messages.{no_errors}
use carlo.Rpc.Node.{Node}
use carlo.Rpc.Node.Transfer.{Handles, done, next, HasStream, header_packet}
use carlo.Rpc.Node.Delivery.{with_header, write-handle_message}

module _ (u : BytesUtil) where
  send_chunks-no_errors :
      (fuel id i : ℕ) (bytes : Bytes) → (send_chunks u fuel id no_errors i bytes).error ≡ none
  unfolding send_chunks
  send_chunks-no_errors zero id i bytes = refl
  send_chunks-no_errors (suc fuel) id i [] = refl
  send_chunks-no_errors (suc fuel) id i (b ∷ bytes) =
      send_chunks-no_errors fuel id (i + 1) (drop chunk_size (b ∷ bytes))

  write-no_errors :
      (b : ℕ) (bytes : Bytes) (c : Context) → (write u no_errors (b ∷ bytes) c).1.error ≡ none
  unfolding write
  write-no_errors b bytes c = elim (Bool-cases c.written) [
    | inl w ↦ rw (w, write) (send_chunks-no_errors (length (b ∷ bytes)) c.stream_id 0 (b ∷ bytes))
    | inr w ↦ rw (w, write) (send_chunks-no_errors (length (b ∷ bytes)) c.stream_id 1 (b ∷ bytes))
  ]

-- All that the handler writes.
abbrev pub all_bytes : List Action → Bytes
all_bytes [] = []
all_bytes (call_write_header key val ∷ actions) = all_bytes actions
all_bytes (call_write bytes ∷ actions) = bytes ++ all_bytes actions

-- The context after one call.
abbrev pub after_action : Action → Context → Context
after_action (call_write_header key val) c = write_header key val c
after_action (call_write []) c = c
after_action (call_write (b ∷ bytes)) c = record c { written = true }

-- The response headers fit the wire format at every call.
abbrev pub FitActions : List Action → Context → Type 0
FitActions [] c = Response.IsEncodable (header_packet c)
FitActions (action ∷ actions) c =
    Response.IsEncodable (header_packet c) × FitActions actions (after_action action c)

-- The stream with the header that the first `Write` of a byte sends, if there is one.
abbrev pub headed : List Action → Context → Stream → Stream
headed [] c s = s
headed (call_write_header key val ∷ actions) c s = headed actions (write_header key val c) s
headed (call_write [] ∷ actions) c s = headed actions c s
headed (call_write (b ∷ bytes) ∷ actions) c s =
    headed actions (record c { written = true }) (with_header c s)

with_header-written :
    (c : Context) (s : Stream) (v : List Bytes)
    → with_header c (record s { written = v }) ≡ record (with_header c s) { written = v }
with_header-written c s v = elim (Bool-cases c.written) [ inl w ↦ rw w | inr w ↦ rw w ]

with_header-closed : (c : Context) (s : Stream) → (with_header c s).closed ≡ s.closed
with_header-closed c s = elim (Bool-cases c.written) [ inl w ↦ rw w | inr w ↦ rw w ]

with_header-id : (c : Context) (s : Stream) → (with_header c s).id ≡ s.id
with_header-id c s = elim (Bool-cases c.written) [ inl w ↦ rw w | inr w ↦ rw w ]

pub headed-id : (actions : List Action) (c : Context) (s : Stream) → (headed actions c s).id ≡ s.id
headed-id [] c s = refl
headed-id (call_write_header key val ∷ actions) c s = headed-id actions (write_header key val c) s
headed-id (call_write [] ∷ actions) c s = headed-id actions c s
headed-id (call_write (b ∷ bytes) ∷ actions) c s =
    headed-id actions (record c { written = true }) (with_header c s) ∙ with_header-id c s

headed-written :
    (actions : List Action) (c : Context) (s : Stream) (v : List Bytes)
    → headed actions c (record s { written = v }) ≡ record (headed actions c s) { written = v }
headed-written [] c s v = refl
headed-written (call_write_header key val ∷ actions) c s v =
    headed-written actions (write_header key val c) s v
headed-written (call_write [] ∷ actions) c s v = headed-written actions c s v
headed-written (call_write (b ∷ bytes) ∷ actions) c s v =
    ap (headed actions (record c { written = true })) (with_header-written c s v)
    ∙ headed-written actions (record c { written = true }) (with_header c s) v

concat-append : (ps qs : List Bytes) → concat (ps ++ qs) ≡ concat ps ++ concat qs
concat-append [] qs = refl
concat-append (p ∷ ps) qs = rw (concat-append ps qs) (sym (append_assoc p (concat ps) (concat qs)))

module _ (k : Kademlia) (t : Routing k) (u : BytesUtil) where
  module _ (sent : Bytes → Option Error) (conn : ℕ) where
    Handles-append :
        {n m l : Node k t} {ms ls : List Bytes}
        → Handles k t u sent conn n ms m
        → Handles k t u sent conn m ls l
        → Handles k t u sent conn n (ms ++ ls) l
    Handles-append done h = h
    Handles-append (next e g) h = next e (Handles-append g h)

    -- The stream after the payloads of the actions: they make up what the actions write.
    pub record Answered (n : Node k t) (messages : List Bytes) (actions : List Action) (c : Context)
        (s : Stream) : Type 0 where
      pub parts : List Bytes
      pub whole : concat parts ≡ all_bytes actions
      pub node : Node k t
      pub handles : Handles k t u sent conn n messages node
      pub holds :
          HasStream k t u node conn c.stream_id
            (record (headed actions c s) { written = s.written ++ parts })

    module _ (big : IsBigEndian u) where
      pub run_handler-Answered :
          (actions : List Action) (i : ℕ) (c : Context) (s : Stream) (n : Node k t)
          → FitActions actions c
          → s.closed ≡ none
          → HasStream k t u n conn c.stream_id s
          → Answered n (run_handler u no_errors i actions c).messages actions c s
      unfolding run_handler write write_header
      run_handler-Answered [] i c s n fits is_open has = record {
        parts = [];
        whole = refl;
        node = n;
        handles = done;
        holds =
            subst (λ w. HasStream k t u n conn c.stream_id (record s { written = w }))
              (sym (append-nil s.written)) has;
      }
      run_handler-Answered (call_write_header key val ∷ actions) i c s n fits is_open has =
          let a = run_handler-Answered actions i (write_header key val c) s n fits.1 is_open has in
          record {
            parts = a.parts;
            whole = a.whole;
            node = a.node;
            handles = a.handles;
            holds = a.holds;
          }
      run_handler-Answered (call_write [] ∷ actions) i c s n fits is_open has =
          let a = run_handler-Answered actions (i + 0) c s n fits.1 is_open has in
          record {
            parts = a.parts;
            whole = a.whole;
            node = a.node;
            handles = a.handles;
            holds = a.holds;
          }
      run_handler-Answered (call_write (b ∷ bytes) ∷ actions) i c s n fits is_open has =
          let (ps, whole, m, run, after) =
            write-handle_message k t u big sent conn no_errors n c s b bytes fits.0
              (write-no_errors u b bytes c) is_open has in
          let c1 : Context = record c { written = true } in
          let s1 : Stream = record (with_header c s) { written = s.written ++ ps } in
          let a =
            run_handler-Answered actions (i + calls_of (write u no_errors (b ∷ bytes) c).1) c1 s1 m
              fits.1 (with_header-closed c s ∙ is_open) after in
          record {
            parts = ps ++ a.parts;
            whole = concat-append ps a.parts ∙ rw (whole, a.whole);
            node = a.node;
            handles = Handles-append run a.handles;
            holds =
                subst (λ r. HasStream k t u a.node conn c.stream_id r)
                  (ap (λ (r : Stream). record r { written = (s.written ++ ps) ++ a.parts })
                      (headed-written actions c1 (with_header c s) (s.written ++ ps))
                    ∙ ap (λ w. record (headed actions c1 (with_header c s)) { written = w })
                        (append_assoc s.written ps a.parts))
                  a.holds;
          }
