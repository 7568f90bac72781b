-- ===== src/Transmit/Client/Dial.antt =====
-- The goroutine of `newClientConn` of streaming_transmit/client.go: the attempts to dial, and what `Get`
-- returns after it. What the network answers is an argument; a connection is named by its attempt.
use carlo.Common.{
  ℕ, zero, suc, ◌+◌, ◌<◌, ◌≡◌, ◌≢◌, refl, sym, ap, ◌∙◌, List, [], ◌∷◌, ◌++◌, append-nil,
  append_assoc, Option, none, some, Error, Outcome, ok, err, arith, inl, inr, ◌⊎◌,
}

-- The errors of `Dial`, the first `SetDeadline`, `Handshake` and the second `SetDeadline` of an attempt.
pub record Attempt : Type 0 where
  pub dial : Option Error
  pub deadline : Option Error
  pub handshake : Option Error
  pub clear : Option Error

-- `if cc.err == nil { cc.err = ... }`
abbrev pub or_else : Option Error → Option Error → Option Error
or_else none next = next
or_else (some e) next = some e

-- `cc.err` at the end of an attempt.
unfoldable pub attempt_error : Attempt → Option Error
attempt_error a = or_else a.dial (or_else a.deadline (or_else a.handshake a.clear))

-- `cc.err`, `conn`, and the attempts that have opened a connection.
pub record Dialed : Type 0 where
  pub error : Option Error
  pub conn : Option ℕ
  pub opened : List ℕ

-- The connection that `Dial` returned, nil with an error.
abbrev pub dialed : Option Error → ℕ → Option ℕ
dialed none i = some i
dialed (some e) i = none

-- `if cc.err == nil { break }`
abbrev pub then_next : Option Error → Dialed → Dialed → Dialed
then_next none d rest = d
then_next (some e) d rest = rest

abbrev pub to_list : Option ℕ → List ℕ
to_list none = []
to_list (some i) = i ∷ []

module _ (attempts : ℕ → Attempt) where
  -- `n` rounds of the loop at most, from the attempt `i` on.
  unfoldable pub dial_from : ℕ → ℕ → Dialed → Dialed
  dial_from zero i d = d
  dial_from (suc n) i d =
      let a = attempts i in
      let d' : Dialed = record {
        error = attempt_error a;
        conn = dialed a.dial i;
        opened = d.opened ++ to_list (dialed a.dial i);
      } in
      let rest = dial_from n (i + 1) d' in then_next d'.error d' rest

  -- The loop with what `getNumDialAttempts` returned.
  unfoldable pub dial : ℕ → Dialed
  dial n = dial_from n 0 (record { error = none; conn = none; opened = [] })

  -- The connections that are closed after the loop: the last one, if there is an error.
  unfoldable pub closed_after : Dialed → List ℕ
  closed_after d = elim d.error [ none ↦ [] | some e ↦ to_list d.conn ]

  -- What `Get` returns once `ready` is closed.
  unfoldable pub get : {Conn : Type 0} → Conn → Dialed → Outcome Conn
  get conn d = elim d.error [ none ↦ ok conn | some e ↦ err e ]

  -- The connections that the attempts from `i` on, `n` of them, have opened.
  abbrev pub opened_in : ℕ → ℕ → List ℕ
  opened_in i zero = []
  opened_in i (suc n) = to_list (dialed (attempts i).dial i) ++ opened_in (i + 1) n

  -- How the loop ends: with the first attempt that succeeds, or with the error of the last one.
  pub record IsDialed (n i : ℕ) (before : List ℕ) (d : Dialed) : Type 0 where
    pub last : ℕ
    pub in_range : last < n
    pub earlier_fail : (j : ℕ) → j < last → attempt_error (attempts (i + j)) ≢ none
    pub is_error : d.error ≡ attempt_error (attempts (i + last))
    pub is_conn : d.conn ≡ dialed (attempts (i + last)).dial (i + last)
    pub is_opened : d.opened ≡ before ++ opened_in i (suc last)
    pub is_last : (d.error ≡ none) ⊎ (suc last ≡ n)

  -- The state after the attempt `i`.
  abbrev attempted : ℕ → Dialed → Dialed
  attempted i d = record {
    error = attempt_error (attempts i);
    conn = dialed (attempts i).dial i;
    opened = d.opened ++ to_list (dialed (attempts i).dial i);
  }

  IsDialed-here :
      (n i : ℕ) (d : Dialed)
      → (attempt_error (attempts i) ≡ none) ⊎ (1 ≡ suc n)
      → IsDialed (suc n) i d.opened (attempted i d)
  IsDialed-here n i d over =
      let same : i ≡ i + 0 = omega arith in
      record {
        last = 0;
        in_range = omega arith;
        earlier_fail = λ j lt. absurd (omega arith);
        is_error = ap (λ j. attempt_error (attempts j)) same;
        is_conn = ap (λ j. dialed (attempts j).dial j) same;
        is_opened =
            ap (λ l. d.opened ++ l) (sym (append-nil (to_list (dialed (attempts i).dial i))));
        is_last = over;
      }

  IsDialed-later :
      (n i : ℕ) (d r : Dialed)
      → attempt_error (attempts i) ≢ none
      → IsDialed n (i + 1) (attempted i d).opened r
      → IsDialed (suc n) i d.opened r
  IsDialed-later n i d r failed w =
      let same : i + 1 + w.last ≡ i + suc w.last = omega arith in
      record {
        last = suc w.last;
        in_range = omega (arith, w.in_range);
        earlier_fail = earlier;
        is_error = w.is_error ∙ ap (λ j. attempt_error (attempts j)) same;
        is_conn = w.is_conn ∙ ap (λ j. dialed (attempts j).dial j) same;
        is_opened = w.is_opened ∙ append_assoc d.opened _ _;
        is_last = elim w.is_last [ inl e ↦ inl e | inr e ↦ inr (omega arith) ];
      }
    where
      earlier : (j : ℕ) → j < suc w.last → attempt_error (attempts (i + j)) ≢ none
      earlier zero lt e = failed (ap (λ j. attempt_error (attempts j)) (omega arith) ∙ e)
      earlier (suc j) lt e =
          w.earlier_fail j (omega arith) (ap (λ m. attempt_error (attempts m)) (omega arith) ∙ e)

  then_next-IsDialed :
      (n i : ℕ) (d rest : Dialed) (o : Option Error)
      → attempt_error (attempts i) ≡ o
      → (attempt_error (attempts i) ≢ none → IsDialed (suc n) i d.opened rest)
      → IsDialed (suc n) i d.opened (then_next o (attempted i d) rest)
  then_next-IsDialed n i d rest none e h = IsDialed-here n i d (inl e)
  then_next-IsDialed n i d rest (some x) e h = h (λ f. cc)

  dial_from-IsDialed : (n i : ℕ) (d : Dialed) → IsDialed (suc n) i d.opened (dial_from (suc n) i d)
  unfolding dial_from
  dial_from-IsDialed zero i d =
      then_next-IsDialed 0 i d (attempted i d) (attempt_error (attempts i)) refl
        (λ failed. IsDialed-here 0 i d (inr refl))
  dial_from-IsDialed (suc n) i d =
      then_next-IsDialed (suc n) i d (dial_from (suc n) (i + 1) (attempted i d))
        (attempt_error (attempts i)) refl
        λ failed.
          IsDialed-later (suc n) i d (dial_from (suc n) (i + 1) (attempted i d)) failed
            (dial_from-IsDialed n (i + 1) (attempted i d))

  -- With at least one attempt allowed, the loop ends with the first attempt that succeeds, or with
  -- the error of the last one allowed, after all before it have failed; it holds the connection of
  -- the attempt it ends with, and each attempt up to it may have opened one.
  pub dial-IsDialed : (n : ℕ) → IsDialed (suc n) 0 [] (dial (suc n))
  unfolding dial
  dial-IsDialed n = dial_from-IsDialed n 0 (record { error = none; conn = none; opened = [] })
