-- ===== src/Transmit/Client/Leaks.antt =====
-- The connections that the attempts of `newClientConn` of streaming_transmit/client.go leave open.
use carlo.Common.{
  ℕ, zero, suc, ◌+◌, ◌<◌, ◌≤◌, Bool, true, false, ◌||◌, ◌==◌, ==_refl, ◌≡◌, ◌≢◌, refl, sym, ap, ◌∙◌,
  subst, List, [], ◌∷◌, ◌++◌, Option, none, some, Error, arith, Option-cases, inl, inr,
}
use carlo.Transmit.Client.Dial.{
  Attempt, attempt_error, dialed, to_list, Dialed, dial, closed_after, opened_in, dial-IsDialed,
}

-- Whether an attempt is in a list.
abbrev pub occurs : ℕ → List ℕ → Bool
occurs j [] = false
occurs j (i ∷ l) = j == i || occurs j l

occurs-append : (j : ℕ) (l r : List ℕ) → occurs j (l ++ r) ≡ (occurs j l || occurs j r)
occurs-append j [] r = refl
occurs-append j (i ∷ l) r = ground (arith, occurs-append j l r)

occurs-dialed : (j i : ℕ) (e : Option Error) → j ≢ i → occurs j (to_list (dialed e i)) ≡ false
occurs-dialed j i none ne = ground (arith, ne)
occurs-dialed j i (some e) ne = refl

module _ (attempts : ℕ → Attempt) where
  occurs-opened_in :
      (m j i n : ℕ)
      → m ≡ i + j
      → j < n
      → (attempts m).dial ≡ none
      → occurs m (opened_in attempts i n) ≡ true
  occurs-opened_in m j i zero at lt e = absurd (omega (arith, lt))
  occurs-opened_in m zero i (suc n) at lt e =
      let same : m ≡ i = omega (arith, at) in
      subst (λ l. occurs m (opened_in attempts l (suc n)) ≡ true) same
        (occurs-append m (to_list (dialed (attempts m).dial m)) _ ∙ rw (e, ==_refl m))
  occurs-opened_in m (suc j) i (suc n) at lt e =
      occurs-append m (to_list (dialed (attempts i).dial i)) _
      ∙ rw (occurs-opened_in m j (i + 1) n (omega (arith, at)) (omega (arith, lt)) e)
          (or-true (occurs m (to_list (dialed (attempts i).dial i))))
    where
      or-true : (b : Bool) → (b || true) ≡ true
      or-true true = refl
      or-true false = refl

  closed_after-error : (d : Dialed) → d.error ≢ none → closed_after attempts d ≡ to_list d.conn
  unfolding closed_after
  closed_after-error d failed = elim (Option-cases d.error) [
    | inl e ↦ absurd (failed e)
    | inr (x, e) ↦ rw (e, closed_after)
  ]

  -- If all the attempts allowed fail, and an attempt before the last one has opened a connection,
  -- so that a deadline or the handshake failed there, then that connection is not closed after the
  -- loop: only one that the last attempt has opened is.
  pub dial_leaks :
      (n j : ℕ)
      → j < n
      → (attempts j).dial ≡ none
      → ((i : ℕ) → i ≤ n → attempt_error (attempts i) ≢ none)
      → (closed_after attempts (dial attempts (suc n)) ≡ to_list (dialed (attempts n).dial n))
        × (occurs j (dial attempts (suc n)).opened ≡ true)
        × (occurs j (closed_after attempts (dial attempts (suc n))) ≡ false)
  dial_leaks n j lt opens fail =
      let w = dial-IsDialed attempts n in
      let failed : (dial attempts (suc n)).error ≢ none =
        λ e. fail (0 + w.last) (omega (arith, w.in_range)) (sym w.is_error ∙ e) in
      let is_n : w.last ≡ n = elim w.is_last [
        | inl e ↦ absurd (failed e)
        | inr e ↦ omega (arith, e)
      ] in
      let closes : closed_after attempts (dial attempts (suc n))
          ≡ to_list (dialed (attempts n).dial n) =
        closed_after-error (dial attempts (suc n)) failed
        ∙ ap to_list w.is_conn
        ∙ ap (λ i. to_list (dialed (attempts i).dial i)) (omega (arith, is_n)) in
      (
        closes,
        ap (occurs j) w.is_opened
            ∙ occurs-opened_in j j 0 (suc w.last) (omega arith) (omega (arith, lt, is_n)) opens,
        ap (occurs j) closes ∙ occurs-dialed j n (attempts n).dial (omega (arith, lt)),
      )
