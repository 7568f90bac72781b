-- ===== src/Transmit/Conn/Requests/Shutdown.antt =====
-- What becomes of pending requests: responses, `close`, and the race between `close` and a request
-- whose message could not be sent.
use carlo.Common.{
  ℕ, ◌<◌, ◌≡◌, ◌≢◌, refl, sym, ap, subst, ◌∙◌, false, List, [], ◌∷◌, map, Option, none, some, Error,
  ==_iff, lookup, nat_key, Outcome, ok, panic, arith, lookup-All, inl, inr, ◌⊎◌, bind-ok,
}
use carlo.Common.Words.{IsU32}
use carlo.Bytesutil.{BytesUtil, IsBigEndian}
use carlo.Reader.{Bytes}
use carlo.Transmit.Settings.{ConnSettings}
use carlo.Transmit.Conn.{Conn, frame, receive, response, close, classify}
use carlo.Transmit.Conn.Messages.{receive-frame}
use carlo.Transmit.Conn.Requests.{
  failed, PendingRequest, closed, System, update, done, release, copy, close_requests, close_conn,
  Step, numbers, registers, submits, releases, forgets, wakes, receives, copies, shuts, closes,
  Reach,
}
use carlo.Transmit.Conn.Requests.Matching.{seq_of, ok-injective, Reach-Inv, close_requests_le}

classify-response :
    (seq i : ℕ) (o : Option ℕ) (payload p : Bytes)
    → classify seq o payload ≡ response i p
    → (o ≡ some i) × (p ≡ payload)
classify-response seq i none payload p e = cc
classify-response seq i (some j) payload p e = ground arith

-- The number stands in the list.
abbrev Has : ℕ → List ℕ → Type 0
Has j [] = ⊥
Has j (i ∷ is) = (i ≡ j) ⊎ Has j is

lookup-Has : (seq j : ℕ) (m : List (ℕ × ℕ)) → lookup seq m ≡ some j → Has j (map (λ e. e.1) m)
lookup-Has seq j [] e = cc
lookup-Has seq j ((k, i) ∷ m) e = ground (arith, lookup-Has seq j m)

close_requests-answered :
    (e : Error) (is : List ℕ) (requests later : ℕ → PendingRequest) (j : ℕ)
    → (requests j).answer ≡ some (closed e)
    → close_requests e is requests ≡ ok later
    → (later j).answer ≡ some (closed e)
unfolding close_requests
close_requests-answered e [] requests later j h r = ground arith
close_requests-answered e (i ∷ is) requests later j h r =
    let (pr, d, rest) = bind-ok (done (requests i)) _ r in
    close_requests-answered e is (update requests i (record pr { answer = some (closed e) })) later
      j (ground (arith, ==_iff i j)) rest

-- A request that is closed is answered by the error, and its counter has gone down.
close_requests-Has :
    (e : Error) (is : List ℕ) (requests later : ℕ → PendingRequest) (j : ℕ)
    → Has j is
    → close_requests e is requests ≡ ok later
    → ((later j).answer ≡ some (closed e)) × ((later j).wg < (requests j).wg)
unfolding close_requests
close_requests-Has e [] requests later j has r = absurd has
close_requests-Has e (i ∷ is) requests later j (inr has) r =
    let (pr, d, rest) = bind-ok (done (requests i)) _ r in
    let requests' = update requests i (record pr { answer = some (closed e) }) in
    let (answered, fewer) = close_requests-Has e is requests' later j has rest in
    (answered, ground (arith, ==_iff i j))
close_requests-Has e (i ∷ is) requests later j (inl same) r =
    let (pr, d, rest) = bind-ok (done (requests i)) _ r in
    let requests' = update requests i (record pr { answer = some (closed e) }) in
    (
      close_requests-answered e is requests' later j (ground (arith, ==_iff i j)) rest,
      ground (arith, ==_iff i j, close_requests_le e is requests' later j rest),
    )

module _ {u : BytesUtil} {settings : ConnSettings} {s : System} (reach : Reach u settings s) where
  open (Reach-Inv reach) use {entries, unfailed, unanswered, small}

  -- A frame that is taken for the response to a request has the number of that request's call, which
  -- has not returned, and the payload is the frame's.
  pub response_to_requester :
      IsBigEndian u
      → (seq i : ℕ) (payload p : Bytes) (conn : Conn) → IsU32 seq
      → receive u (frame seq payload) s.conn ≡ ok (response i p, conn)
      → (seq_of (s.callers i) ≡ some seq) × (p ≡ payload)
  response_to_requester big seq i payload p conn fits e =
      let (looked_up, same) =
        classify-response seq i (lookup seq s.conn.reqs) payload p
          (ap (λ x. x.0) (ok-injective (sym (receive-frame u big s.conn seq payload fits) ∙ e))) in
      ((lookup-All _ seq i s.conn.reqs looked_up entries).0, same)

  -- While the writer is not closed, no step panics.
  pub no_panic_while_open :
      s.conn.writer_done ≡ false → (r : Outcome System) → Step u s r → r ≢ panic
  unfolding copy
  no_panic_while_open o r (releases i seq e is) p = ground (arith, unfailed o i)
  no_panic_while_open o r (copies i payload e is) p = ground (arith, unanswered o i payload e)
  no_panic_while_open o r (closes e d empty is) p = cc
  no_panic_while_open o r (numbers i e is) p = cc
  no_panic_while_open o r (registers i seq e is) p = cc
  no_panic_while_open o r (submits i seq payload e is) p = cc
  no_panic_while_open o r (forgets i seq e is) p = cc
  no_panic_while_open o r (wakes i seq e z is) p = cc
  no_panic_while_open o r (receives buf m conn e taken is) p = cc
  no_panic_while_open o r (shuts is) p = cc

  close_conn-request :
      (e : Error) (t : System) (seq i : ℕ)
      → lookup seq s.conn.reqs ≡ some i
      → close_conn e s ≡ ok t
      → (t.requests i ≡ record { wg = 0; answer = some (closed e) })
        × (t.conn.reqs ≡ [])
        × (t.callers ≡ s.callers)
  unfolding close_conn close
  close_conn-request e t seq i found r =
      let (requests, rest, is) =
        bind-ok (close_requests e (map (λ x. x.1) s.conn.reqs) s.requests) _ r in
      let (answered, fewer) =
        close_requests-Has e _ s.requests requests i (lookup-Has seq i s.conn.reqs found) rest in
      let none_left : (requests i).wg ≡ 0 = omega (arith, small i) in
      subst
        (λ q.
          (q.requests i ≡ record { wg = 0; answer = some (closed e) })
          × (q.conn.reqs ≡ [])
          × (q.callers ≡ s.callers))
        (ok-injective is) (ground arith, refl, refl)

  -- The race: if `close` runs between a failed `sendNoWait` and the caller's own `wg.Done`, while the
  -- request is still in the map, that call of `wg.Done` panics.
  pub release-close_conn_panic :
      (e : Error) (t : System) (seq i : ℕ)
      → lookup seq s.conn.reqs ≡ some i
      → s.callers i ≡ failed seq
      → close_conn e s ≡ ok t
      → Step u t panic
  unfolding release
  release-close_conn_panic e t seq i found at r =
      let (request, empty, same) = close_conn-request e t seq i found r in
      releases i seq (ap (λ f. f i) same ∙ at) (ground (arith, ap (λ q. q.wg) request))
