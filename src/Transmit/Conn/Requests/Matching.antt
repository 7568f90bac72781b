-- ===== src/Transmit/Conn/Requests/Matching.antt =====
-- Which caller a response reaches, over any interleaving of the steps of Requests.
use carlo.Common.{
  ℕ, ◌≤◌, ◌≡◌, ◌≢◌, refl, subst, ◌∙◌, Bool, true, false, List, [], ◌∷◌, map, Option, none, some,
  Error, ==_iff, lookup, delete, nat_key, ok, arith, All, All-map, All-map₂, All-insert, All-delete,
  delete-All, lookup-All, Bool-cases, inl, inr, bind-ok,
}
use native.Mathlib.Nat.{le_trans}
use carlo.Bytesutil.{BytesUtil}
use carlo.Reader.{Bytes}
use carlo.Transmit.Settings.{ConnSettings}
use carlo.Transmit.Conn.{
  Conn, init, next, prepare_pending_write, close_writer, add_request, delete_request, receive,
  Received, close, classify,
}
use carlo.Transmit.Conn.Requests.{
  Caller, fresh, numbered, registered, waiting, failed, released, returned, PendingRequest, closed,
  System, update, done, number, register, submit, release, forget, wake, hand_of, copy,
  close_requests, close_conn, start, Step, numbers, registers, submits, releases, forgets, wakes,
  receives, copies, shuts, closes, Reach, here, after,
}

-- The number of a call that is under way.
abbrev pub seq_of : Caller → Option ℕ
seq_of fresh = none
seq_of (numbered seq) = some seq
seq_of (registered seq) = some seq
seq_of (waiting seq) = some seq
seq_of (failed seq) = some seq
seq_of (released seq) = some seq
seq_of returned = none

-- The call has put its request into the map.
abbrev pub has_registered : Caller → Bool
has_registered fresh = false
has_registered (numbered seq) = false
has_registered _ = true

-- `sendNoWait` has failed, and the request is still in the map.
abbrev pub has_failed : Caller → Bool
has_failed (failed seq) = true
has_failed (released seq) = true
has_failed _ = false

-- An entry of the map stands for a registered call with its number, which nobody has answered
-- unless the call has answered itself.
abbrev pub EntryOk : (ℕ → Caller) → (ℕ → PendingRequest) → ℕ × ℕ → Type 0
EntryOk callers requests (seq, i) =
    (seq_of (callers i) ≡ some seq)
    × (has_registered (callers i) ≡ true)
    × ((requests i).wg ≡ 0 → callers i ≡ released seq)

pub record Inv (s : System) : Type 0 where
  pub entries : All (EntryOk s.callers s.requests) s.conn.reqs
  pub held : (i : ℕ) (p : Bytes) → s.hand ≡ some (i, p) → has_registered (s.callers i) ≡ true
  pub alone : (i : ℕ) (p : Bytes) → s.hand ≡ some (i, p) → All (λ e. e.1 ≢ i) s.conn.reqs
  pub counted : (i seq : ℕ) → s.callers i ≡ numbered seq → (s.requests i).wg ≢ 0
  pub small : (i : ℕ) → (s.requests i).wg ≤ 1
  pub unfailed : s.conn.writer_done ≡ false → (i : ℕ) → has_failed (s.callers i) ≡ false
  pub unanswered :
      s.conn.writer_done ≡ false
      → (i : ℕ) (p : Bytes) → s.hand ≡ some (i, p)
      → (s.requests i).wg ≢ 0

Inv-start : (settings : ConnSettings) → Inv (start settings)
unfolding init
Inv-start settings = record {
  entries = tt;
  held = λ i p e. cc;
  alone = λ i p e. cc;
  counted = λ i seq e. cc;
  small = λ i. omega arith;
  unfailed = λ _ i. refl;
  unanswered = λ _ i p e. cc;
}

pub ok-injective {ℓ} : {A : Type ℓ} {a b : A} → ok a ≡ ok b → a ≡ b
ok-injective e = cc

module _ (s : System) (inv : Inv s) where
  number-Inv : (i : ℕ) → s.callers i ≡ fresh → Inv (number i s)
  unfolding number next
  number-Inv i e = record {
    entries = All-map _ _ (λ x h. ground arith) s.conn.reqs inv.entries;
    held = λ j p h. ground (arith, inv.held j p);
    alone = inv.alone;
    counted = λ j seq h. ground (arith, inv.counted j seq);
    small = λ j. ground (arith, inv.small j);
    unfailed = λ o j. ground (arith, inv.unfailed o j);
    unanswered = λ o j p h. ground (arith, inv.unanswered o j p, inv.held j p);
  }

  register-Inv : (i seq : ℕ) → s.callers i ≡ numbered seq → Inv (register i seq s)
  unfolding register add_request
  register-Inv i seq e = record {
    entries =
        All-insert _ seq i s.conn.reqs (ground (arith, inv.counted i seq))
          (All-map _ _ (λ x h. ground arith) s.conn.reqs inv.entries);
    held = λ j p h. ground (arith, inv.held j p);
    alone =
        λ j p h. All-insert _ seq i s.conn.reqs (ground (arith, inv.held j p)) (inv.alone j p h);
    counted = λ j n h. ground (arith, inv.counted j n);
    small = inv.small;
    unfailed = λ o j. ground (arith, inv.unfailed o j);
    unanswered = λ o j p h. ground (arith, inv.unanswered o j p);
  }

  submit-Inv :
      (i seq : ℕ) (payload : Bytes) → s.callers i ≡ registered seq → Inv (submit i seq payload s)
  unfolding submit prepare_pending_write
  submit-Inv i seq payload e = elim (Bool-cases s.conn.writer_done) [
    | inl d ↦
        rw (d, submit, prepare_pending_write)
          (record {
            entries = All-map _ _ (λ x h. ground arith) s.conn.reqs inv.entries;
            held = λ j p h. ground (arith, inv.held j p);
            alone = inv.alone;
            counted = λ j n h. ground (arith, inv.counted j n);
            small = inv.small;
            unfailed = λ o j. cc;
            unanswered = λ o j p h. cc;
          })
    | inr d ↦
        rw (d, submit, prepare_pending_write)
          (record {
            entries = All-map _ _ (λ x h. ground arith) s.conn.reqs inv.entries;
            held = λ j p h. ground (arith, inv.held j p);
            alone = inv.alone;
            counted = λ j n h. ground (arith, inv.counted j n);
            small = inv.small;
            unfailed = λ o j. ground (arith, inv.unfailed d j);
            unanswered = λ o j p h. inv.unanswered d j p h;
          })
  ]

  release-Inv : (i seq : ℕ) (t : System) → s.callers i ≡ failed seq → release i seq s ≡ ok t → Inv t
  unfolding release
  release-Inv i seq t e r =
      let (pr, d, is) = bind-ok (done (s.requests i)) _ r in
      subst Inv (ok-injective is) (record {
        entries = All-map _ _ (λ x h. ground arith) s.conn.reqs inv.entries;
        held = λ j p h. ground (arith, inv.held j p);
        alone = inv.alone;
        counted = λ j n h. ground (arith, inv.counted j n);
        small = λ j. ground (arith, inv.small j);
        unfailed = λ o j. absurd (ground (arith, inv.unfailed o i));
        unanswered = λ o j p h. absurd (ground (arith, inv.unfailed o i));
      })

  forget-Inv : (i seq : ℕ) → s.callers i ≡ released seq → Inv (forget i seq s)
  unfolding forget delete_request
  forget-Inv i seq e = record {
    entries = delete-All _ _ seq (λ x other h. ground arith) s.conn.reqs inv.entries;
    held = λ j p h. ground (arith, inv.held j p);
    alone = λ j p h. All-delete _ seq s.conn.reqs (inv.alone j p h);
    counted = λ j n h. ground (arith, inv.counted j n);
    small = inv.small;
    unfailed = λ o j. ground (arith, inv.unfailed o j);
    unanswered = λ o j p h. inv.unanswered o j p h;
  }

  wake-Inv : (i seq : ℕ) → s.callers i ≡ waiting seq → (s.requests i).wg ≡ 0 → Inv (wake i s)
  unfolding wake
  wake-Inv i seq e z = record {
    entries = All-map _ _ (λ x h. ground arith) s.conn.reqs inv.entries;
    held = λ j p h. ground (arith, inv.held j p);
    alone = inv.alone;
    counted = λ j n h. ground (arith, inv.counted j n);
    small = inv.small;
    unfailed = λ o j. ground (arith, inv.unfailed o j);
    unanswered = λ o j p h. inv.unanswered o j p h;
  }

  -- What a message is taken for, and what it leaves of the map.
  pub receive-eq-ok :
      (u : BytesUtil) (buf : Bytes) (r : Received) (conn : Conn)
      → receive u buf s.conn ≡ ok (r, conn)
      → (seq : ℕ) × (payload : Bytes) × (classify seq (lookup seq s.conn.reqs) payload ≡ r)
        × (record s.conn { reqs = delete seq s.conn.reqs } ≡ conn)
  unfolding receive
  receive-eq-ok u [] r conn e = cc
  receive-eq-ok u (a ∷ []) r conn e = cc
  receive-eq-ok u (a ∷ b ∷ []) r conn e = cc
  receive-eq-ok u (a ∷ b ∷ c ∷ []) r conn e = cc
  receive-eq-ok u (a ∷ b ∷ c ∷ d ∷ payload) r conn e =
      (u.uint32_be (a ∷ b ∷ c ∷ d ∷ payload), payload, cc, cc)

  -- A response in hand is for the entry that was looked up.
  classify-hand :
      (seq i : ℕ) (o : Option ℕ) (payload p : Bytes)
      → hand_of (classify seq o payload) ≡ some (i, p)
      → o ≡ some i
  classify-hand seq i none payload p h = cc
  classify-hand seq i (some j) payload p h = ground arith

  receive-Inv :
      (seq : ℕ) (payload : Bytes)
      → Inv (record s {
        conn = record s.conn { reqs = delete seq s.conn.reqs };
        hand = hand_of (classify seq (lookup seq s.conn.reqs) payload);
      })
  receive-Inv seq payload = record {
    entries = All-delete _ seq s.conn.reqs inv.entries;
    held = λ i p h. (entry i p h).1;
    alone = λ i p h.
        delete-All _ _ seq (λ x other ok_x. ground (arith, entry i p h)) s.conn.reqs inv.entries;
    counted = inv.counted;
    small = inv.small;
    unfailed = inv.unfailed;
    unanswered = λ o i p h z. ground (arith, entry i p h, inv.unfailed o i);
  }
    where
      entry :
          (i : ℕ) (p : Bytes)
          → hand_of (classify seq (lookup seq s.conn.reqs) payload) ≡ some (i, p)
          → EntryOk s.callers s.requests (seq, i)
      entry i p h =
          lookup-All _ seq i s.conn.reqs (classify-hand seq i (lookup seq s.conn.reqs) payload p h)
            inv.entries

  copy-Inv :
      (i : ℕ) (payload : Bytes) (t : System)
      → s.hand ≡ some (i, payload)
      → copy i payload s ≡ ok t
      → Inv t
  unfolding copy
  copy-Inv i payload t e r =
      let (pr, d, is) = bind-ok (done (s.requests i)) _ r in
      subst Inv (ok-injective is) (record {
        entries =
            All-map₂ _ _ _ (λ x h other. ground arith) s.conn.reqs inv.entries
              (inv.alone i payload e);
        held = λ j p h. cc;
        alone = λ j p h. cc;
        counted = λ j n h. ground (arith, inv.counted j n, inv.held i payload);
        small = λ j. ground (arith, inv.small j);
        unfailed = inv.unfailed;
        unanswered = λ o j p h. cc;
      })

  shut-Inv : Inv (record s { conn = close_writer s.conn })
  unfolding close_writer
  shut-Inv = record {
    entries = inv.entries;
    held = inv.held;
    alone = inv.alone;
    counted = inv.counted;
    small = inv.small;
    unfailed = λ o. cc;
    unanswered = λ o. cc;
  }

-- Only the requests that are closed change.
close_requests-other :
    (e : Error) (is : List ℕ) (requests later : ℕ → PendingRequest) (j : ℕ)
    → All (λ i. i ≢ j) is
    → close_requests e is requests ≡ ok later
    → later j ≡ requests j
unfolding close_requests
close_requests-other e [] requests later j others r = cc
close_requests-other e (i ∷ is) requests later j others r =
    let (pr, d, rest) = bind-ok (done (requests i)) _ r in
    close_requests-other e is (update requests i (record pr { answer = some (closed e) })) later j
      others.1 rest
    ∙ ground (arith, ==_iff i j)

-- A counter never grows.
pub close_requests_le :
    (e : Error) (is : List ℕ) (requests later : ℕ → PendingRequest) (j : ℕ)
    → close_requests e is requests ≡ ok later
    → (later j).wg ≤ (requests j).wg
unfolding close_requests
close_requests_le e [] requests later j r = ground arith
close_requests_le e (i ∷ is) requests later j r =
    let (pr, d, rest) = bind-ok (done (requests i)) _ r in
    le_trans
      (close_requests_le e is (update requests i (record pr { answer = some (closed e) })) later j
        rest)
      (ground (arith, ==_iff i j))

close_conn-Inv :
    (e : Error) (s t : System)
    → s.conn.writer_done ≡ true
    → s.hand ≡ none
    → Inv s
    → close_conn e s ≡ ok t
    → Inv t
unfolding close_conn close
close_conn-Inv e s t d empty inv r =
    let (requests, rest, is) =
      bind-ok (close_requests e (map (λ x. x.1) s.conn.reqs) s.requests) _ r in
    subst Inv (ok-injective is) (record {
      entries = tt;
      held = λ j p h. ground (arith, inv.held j p);
      alone = λ j p h. tt;
      counted = λ j n h.
          rw
            (close_requests-other e _ s.requests requests j
              (unregistered j n h s.conn.reqs inv.entries) rest)
            (inv.counted j n h);
      small = λ j. le_trans (close_requests_le e _ s.requests requests j rest) (inv.small j);
      unfailed = λ o. cc;
      unanswered = λ o. cc;
    })
  where
    unregistered :
        (j n : ℕ)
        → s.callers j ≡ numbered n
        → (m : List (ℕ × ℕ)) → All (EntryOk s.callers s.requests) m
        → All (λ i. i ≢ j) (map (λ x. x.1) m)
    unregistered j n h [] all = tt
    unregistered j n h ((seq, i) ∷ m) all = ((λ same. ground arith), unregistered j n h m all.1)

Step-Inv : {u : BytesUtil} {s t : System} → Step u s (ok t) → Inv s → Inv t
Step-Inv {s = s} (numbers i e is) inv = subst Inv (ok-injective is) (number-Inv s inv i e)
Step-Inv {s = s} (registers i seq e is) inv =
    subst Inv (ok-injective is) (register-Inv s inv i seq e)
Step-Inv {s = s} (submits i seq payload e is) inv =
    subst Inv (ok-injective is) (submit-Inv s inv i seq payload e)
Step-Inv {s = s} {t = t} (releases i seq e is) inv = release-Inv s inv i seq t e is
Step-Inv {s = s} (forgets i seq e is) inv = subst Inv (ok-injective is) (forget-Inv s inv i seq e)
Step-Inv {s = s} (wakes i seq e z is) inv = subst Inv (ok-injective is) (wake-Inv s inv i seq e z)
Step-Inv {u} {s} (receives buf m conn e taken is) inv =
    let (seq, payload, is_m, is_conn) = receive-eq-ok s inv u buf m conn taken in
    subst Inv (rw (is_m, is_conn) (ok-injective is)) (receive-Inv s inv seq payload)
Step-Inv {s = s} {t = t} (copies i payload e is) inv = copy-Inv s inv i payload t e is
Step-Inv {s = s} (shuts is) inv = subst Inv (ok-injective is) (shut-Inv s inv)
Step-Inv {s = s} {t = t} (closes e d empty is) inv = close_conn-Inv e s t d empty inv is

pub Reach-Inv : {u : BytesUtil} {settings : ConnSettings} {s : System} → Reach u settings s → Inv s
Reach-Inv {settings = settings} here = Inv-start settings
Reach-Inv (after r st) = Step-Inv st (Reach-Inv r)
