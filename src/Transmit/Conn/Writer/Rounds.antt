-- ===== src/Transmit/Conn/Writer/Rounds.antt =====
-- What one round of the writer does with its queue.
use carlo.Common.{
  ℕ, ◌+◌, ◌≡◌, refl, ap, List, [], ◌∷◌, ◌++◌, map, Option, none, some, Error, Option-cases, inl,
  inr,
}
use carlo.Reader.{Bytes}
use carlo.Transmit.Settings.{ConnSettings}
use carlo.Transmit.Conn.{PendingWrite}
use carlo.Transmit.Conn.Writer.{
  Network, Completion, write_all, write_one, fail_all, round_from, write_round,
}

abbrev pub write_of : Completion → PendingWrite
write_of c = c.0

abbrev pub buf_of : PendingWrite → Bytes
buf_of pw = pw.buf

pub fail_all_lem : (e : Error) (q : List PendingWrite) → map write_of (fail_all e q) ≡ q
fail_all_lem e [] = refl
fail_all_lem e (pw ∷ q) = ap (◌∷◌ pw) (fail_all_lem e q)

write_all-completed :
    (w : ℕ → Option Error) (i : ℕ) (e : Option Error) (q : List PendingWrite)
    → map write_of (write_all w i e q).completed ≡ q
unfolding write_all
write_all-completed w i e [] = refl
write_all-completed w i e (pw ∷ q) =
    ap (◌∷◌ pw) (write_all-completed w (i + 1) (write_one e (w i)) q)

-- After an error nothing is written.
write_all_failed :
    (w : ℕ → Option Error) (i : ℕ) (x : Error) (q : List PendingWrite)
    → ((write_all w i (some x) q).written ≡ []) × ((write_all w i (some x) q).error ≡ some x)
unfolding write_all
write_all_failed w i x [] = (refl, refl)
write_all_failed w i x (pw ∷ q) = write_all_failed w (i + 1) x q

-- What is written is a front of the queue, all of it if no error came.
pub record IsFront (written : List Bytes) (q : List PendingWrite) (e : Option Error) : Type 0 where
  pub lost : List Bytes
  pub front : written ++ lost ≡ map buf_of q
  pub whole : e ≡ none → lost ≡ []

write_all-IsFront :
    (w : ℕ → Option Error) (i : ℕ) (q : List PendingWrite)
    → IsFront (write_all w i none q).written q (write_all w i none q).error
unfolding write_all
write_all-IsFront w i [] = record { lost = []; front = refl; whole = λ _. refl }
write_all-IsFront w i (pw ∷ q) = elim (Option-cases (w i)) [
  | inl e ↦
      rw (e, write_all)
        (let rest = write_all-IsFront w (i + 1) q in
          record { lost = rest.lost; front = ap (◌∷◌ pw.buf) rest.front; whole = rest.whole })
  | inr (x, e) ↦
      rw (e, write_all)
        (let stop = write_all_failed w (i + 1) x q in
          record { lost = map buf_of (pw ∷ q); front = rw stop.0; whole = λ p. cc stop.1 })
]

round_from-completed :
    (e : Option Error) (net : Network) (q : List PendingWrite)
    → map write_of (round_from e net q).completed ≡ q
unfolding round_from
round_from-completed none net q = write_all-completed net.write 0 none q
round_from-completed (some e) net q = fail_all_lem e q

-- A round completes the writes of its queue, each once and in order.
pub write_round-completed :
    (settings : ConnSettings) (net : Network) (q : List PendingWrite)
    → map write_of (write_round settings net q).completed ≡ q
unfolding write_round
write_round-completed settings net q = round_from-completed _ net q

write_one-none : (e f : Option Error) → write_one e f ≡ none → e ≡ none
write_one-none none f p = refl
write_one-none (some x) f p = cc

round_from-IsFront :
    (e : Option Error) (net : Network) (q : List PendingWrite)
    → IsFront (round_from e net q).written q (round_from e net q).error
unfolding round_from
round_from-IsFront (some e) net q = record { lost = map buf_of q; front = refl; whole = λ p. cc }
round_from-IsFront none net q =
    let r = write_all-IsFront net.write 0 q in
    record {
      lost = r.lost;
      front = r.front;
      whole = λ p. r.whole (write_one-none (write_all net.write 0 none q).error net.flush p);
    }

pub write_round-IsFront :
    (settings : ConnSettings) (net : Network) (q : List PendingWrite)
    → IsFront (write_round settings net q).written q (write_round settings net q).error
unfolding write_round
write_round-IsFront settings net q = round_from-IsFront _ net q
