-- ===== src/Transmit/Server/Bounds.antt =====
-- The counters of a server in every run.
use carlo.Common.{
  ℕ, ◌+◌, ◌≤◌, ◌≡◌, ◌↔◌, refl, Outcome, ok, err, panic, ◌==◌, arith, Bool-cases, inl, inr,
}
use carlo.Transmit.Server.{
  Serving, accepting, holding, Server, take_token, start_client, end_client, finish_client,
  close_done, Step, token, started, ended, finished, shut, Reach, start, step,
}

-- The tokens that the loop of `Serve` holds for a connection whose goroutine it has not started.
abbrev pub tokens : Serving → ℕ
tokens accepting = 0
tokens holding = 1

record IsCounted (max : ℕ) (s : Server) : Type 0 where
  sem : s.sem ≡ s.running + tokens s.serving
  wg : s.wg ≡ s.running + s.closing
  size : s.sem ≤ max

-- What a step leaves behind, if it does not panic.
abbrev After : ℕ → Outcome Server → Type 0
After max panic = Unit
After max (err e) = Unit
After max (ok s) = IsCounted max s

Step-IsCounted :
    (max : ℕ) (s : Server) (r : Outcome Server) → Step max s r → IsCounted max s → After max r
unfolding take_token start_client end_client finish_client close_done
Step-IsCounted max s _ (token at room) c = record {
  sem = ground (arith, c.sem);
  wg = c.wg;
  size = omega arith;
}
Step-IsCounted max s _ (started at) c = record {
  sem = ground (arith, c.sem);
  wg = omega (arith, c.wg);
  size = c.size;
}
Step-IsCounted max s _ (ended some_running some_token) c = record {
  sem = omega (arith, c.sem);
  wg = omega (arith, c.wg);
  size = omega (arith, c.size);
}
Step-IsCounted max s _ (finished some_closing) c = elim (Bool-cases (s.wg == 0)) [
  | inl none_left ↦ rw none_left tt
  | inr left ↦ rw left (record { sem = c.sem; wg = omega (arith, c.wg); size = c.size })
]
Step-IsCounted max s _ shut c = elim (Bool-cases s.done) [
  | inl closed ↦ rw closed tt
  | inr not_closed ↦ rw not_closed (record { sem = c.sem; wg = c.wg; size = c.size })
]

Reach-IsCounted : (max : ℕ) (s : Server) → Reach max s → IsCounted max s
Reach-IsCounted max s start = record { sem = refl; wg = refl; size = omega arith }
Reach-IsCounted max s (step {s = r} reached x) =
    Step-IsCounted max r (ok s) x (Reach-IsCounted max r reached)

-- In every reachable state the tokens taken are one for each goroutine inside `client` and the one
-- that the loop of `Serve` may hold, and at most `max`, so leaving `client` does not wait;
-- `wg.Done` would panic only with no goroutine of a connection left; and the wait group is 0, on
-- which `Shutdown` returns, exactly if none is left.
pub server_bounded :
    (max : ℕ) (s : Server)
    → Reach max s
    → (s.sem ≡ s.running + tokens s.serving)
      × (s.sem ≤ max)
      × ((finish_client s ≡ panic) ↔ ((s.running ≡ 0) × (s.closing ≡ 0)))
      × ((s.wg ≡ 0) ↔ ((s.running ≡ 0) × (s.closing ≡ 0)))
unfolding finish_client
server_bounded max s reached =
    let c = Reach-IsCounted max s reached in
    (
      c.sem,
      c.size,
      ((λ e. ground (arith, c.wg)), (λ e. ground (arith, c.wg))),
      ((λ e. omega (arith, c.wg)), (λ e. omega (arith, c.wg))),
    )
