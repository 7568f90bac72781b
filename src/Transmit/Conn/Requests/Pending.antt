-- ===== src/Transmit/Conn/Requests/Pending.antt =====
-- The keys of the pending requests, and when `close` can complete them all.
use carlo.Common.{
  ℕ, zero, suc, ◌≡◌, ◌≢◌, refl, sym, ap, ◌∙◌, subst, List, [], ◌∷◌, map, some, Error, Outcome, ok,
  panic, ◌>>=◌, ==_iff, nat_key, arith, All, Lacks, IsDistinct, insert-IsDistinct,
  delete-IsDistinct, bind-ok, Bool-cases, inl, inr,
}
use carlo.Bytesutil.{BytesUtil}
use carlo.Transmit.Settings.{ConnSettings}
use carlo.Transmit.Conn.{
  Conn, init, next, prepare_pending_write, close_writer, add_request, delete_request, close,
}
use carlo.Transmit.Conn.Requests.{
  Caller, released, PendingRequest, closed, System, update, done, number, register, submit, release,
  forget, wake, copy, close_requests, close_conn, Step, numbers, registers, submits, releases,
  forgets, wakes, receives, copies, shuts, closes, Reach, here, after,
}
use carlo.Transmit.Conn.Requests.Matching.{EntryOk, Inv, ok-injective, receive-eq-ok, Reach-Inv}

reqs_of : {s t : System} → ok s ≡ ok t → s.conn.reqs ≡ t.conn.reqs
reqs_of e = ap (λ (q : System). q.conn.reqs) (ok-injective e)

submit-reqs :
    (i seq : ℕ) (payload : List ℕ) (s : System) → (submit i seq payload s).conn.reqs ≡ s.conn.reqs
unfolding submit prepare_pending_write
submit-reqs i seq payload s = elim (Bool-cases s.conn.writer_done) [
  | inl d ↦ rw (d, submit, prepare_pending_write) refl
  | inr d ↦ rw (d, submit, prepare_pending_write) refl
]

Step-IsDistinct :
    {u : BytesUtil} {s t : System}
    → Step u s (ok t)
    → Inv s
    → IsDistinct s.conn.reqs
    → IsDistinct t.conn.reqs
unfolding number next register add_request release forget delete_request wake copy close_writer
    close_conn close
Step-IsDistinct (numbers i e is) inv d = subst IsDistinct (reqs_of is) d
Step-IsDistinct {s = s} (registers i seq e is) inv d =
    subst IsDistinct (reqs_of is) (insert-IsDistinct seq i s.conn.reqs d)
Step-IsDistinct {s = s} (submits i seq payload e is) inv d =
    subst IsDistinct (sym (submit-reqs i seq payload s) ∙ reqs_of is) d
Step-IsDistinct {s = s} (releases i seq e is) inv d =
    let (pr, ready, same) = bind-ok (done (s.requests i)) _ is in subst IsDistinct (reqs_of same) d
Step-IsDistinct {s = s} (forgets i seq e is) inv d =
    subst IsDistinct (reqs_of is) (delete-IsDistinct seq s.conn.reqs d)
Step-IsDistinct (wakes i seq e z is) inv d = subst IsDistinct (reqs_of is) d
Step-IsDistinct {u} {s} (receives buf m conn e taken is) inv d =
    let (seq, payload, is_m, is_conn) = receive-eq-ok s inv u buf m conn taken in
    subst IsDistinct (ap (λ (c : Conn). c.reqs) is_conn ∙ reqs_of is)
      (delete-IsDistinct seq s.conn.reqs d)
Step-IsDistinct {s = s} (copies i payload e is) inv d =
    let (pr, ready, same) = bind-ok (done (s.requests i)) _ is in subst IsDistinct (reqs_of same) d
Step-IsDistinct (shuts is) inv d = subst IsDistinct (reqs_of is) d
Step-IsDistinct {s = s} (closes e shut empty is) inv d =
    let (requests, rest, same) =
      bind-ok (close_requests e (map (λ x. x.1) s.conn.reqs) s.requests) _ is in
    subst IsDistinct (reqs_of same) tt

pub Reach-IsDistinct :
    {u : BytesUtil} {settings : ConnSettings} {s : System}
    → Reach u settings s
    → IsDistinct s.conn.reqs
unfolding init
Reach-IsDistinct here = tt
Reach-IsDistinct (after reach step) =
    Step-IsDistinct step (Reach-Inv reach) (Reach-IsDistinct reach)

-- Every counter in the list can go down, and no request stands in it twice.
abbrev Ready : (ℕ → PendingRequest) → List ℕ → Type 0
Ready requests [] = Unit
Ready requests (i ∷ is) = ((requests i).wg ≢ 0) × All (λ j. j ≢ i) is × Ready requests is

done-Ready : (pr : PendingRequest) → pr.wg ≢ 0 → (q : PendingRequest) × (done pr ≡ ok q)
done-Ready pr h = go pr.wg refl
  where
    go : (n : ℕ) → pr.wg ≡ n → (q : PendingRequest) × (done pr ≡ ok q)
    go zero e = absurd (h e)
    go (suc n) e = (
      record pr { wg = n },
      ap
          (λ w. elim w as (λ _. Outcome PendingRequest) [
            | zero ↦ panic
            | suc m ↦ ok (record pr { wg = m })
          ])
          e,
    )

update-Ready :
    (requests : ℕ → PendingRequest) (i : ℕ) (pr : PendingRequest) (is : List ℕ)
    → All (λ j. j ≢ i) is
    → Ready requests is
    → Ready (update requests i pr) is
update-Ready requests i pr [] other h = tt
update-Ready requests i pr (j ∷ is) other h = (
  λ z. ground (arith, other.0, h.0, ==_iff i j, z),
  h.1,
  update-Ready requests i pr is other.1 h.2,
)

close_requests-Ready :
    (e : Error) (is : List ℕ) (requests : ℕ → PendingRequest)
    → Ready requests is
    → (later : ℕ → PendingRequest) × (close_requests e is requests ≡ ok later)
unfolding close_requests
close_requests-Ready e [] requests h = (requests, refl)
close_requests-Ready e (i ∷ is) requests h =
    let (pr, is_pr) = done-Ready (requests i) h.0 in
    let (later, same) =
      close_requests-Ready e is (update requests i (record pr { answer = some (closed e) }))
        (update-Ready requests i (record pr { answer = some (closed e) }) is h.1 h.2) in
    (later, rw is_pr same)

-- No call with a pending request has completed it itself.
abbrev pub NoneReleased : System → Type 0
NoneReleased s = All (λ e. s.callers e.1 ≢ released e.0) s.conn.reqs

entries-Ready :
    (callers : ℕ → Caller) (requests : ℕ → PendingRequest) (m : List (ℕ × ℕ))
    → All (EntryOk callers requests) m
    → All (λ e. callers e.1 ≢ released e.0) m
    → IsDistinct m
    → Ready requests (map (λ x. x.1) m)
entries-Ready callers requests [] all unreleased d = tt
entries-Ready callers requests ((seq, i) ∷ m) all unreleased d = (
  λ z. unreleased.0 (all.0.2 z),
  others m all.1 d.0,
  entries-Ready callers requests m all.1 unreleased.1 d.1,
)
  where
    others :
        (m : List (ℕ × ℕ))
        → All (EntryOk callers requests) m
        → Lacks seq m
        → All (λ j. j ≢ i) (map (λ x. x.1) m)
    others [] all l = tt
    others ((n, j) ∷ m) rest l =
        ((λ same. ground (arith, same, rest.0.0, all.0.0, l.0, ==_iff n seq)), others m rest.1 l.1)

-- Then `close` completes all pending requests, and does not panic.
pub close_conn-NoneReleased :
    {u : BytesUtil} {settings : ConnSettings} {s : System}
    → Reach u settings s
    → (e : Error) → NoneReleased s
    → (t : System) × (close_conn e s ≡ ok t)
unfolding close_conn close
close_conn-NoneReleased {s = s} reach e unreleased =
    let (requests, same) = close_requests-Ready e (map (λ x. x.1) s.conn.reqs) s.requests (
      entries-Ready s.callers s.requests s.conn.reqs (Reach-Inv reach).entries unreleased
        (Reach-IsDistinct reach)) in
    (
      record s { conn = (close s.conn).2; requests = requests },
      ap
          (λ (o : Outcome (ℕ → PendingRequest)).
            o >>= λ r. ok (record s { conn = (close s.conn).2; requests = r }))
          same,
    )
