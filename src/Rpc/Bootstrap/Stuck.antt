-- ===== src/Rpc/Bootstrap/Stuck.antt =====
-- A state from which `Bootstrap` does not go on.
use carlo.Common.{ℕ, ◌≡◌, ◌≢◌, ap, List, none, some, length, Key, arith}
use carlo.Rpc.Bootstrap.{
  Offer, System, busy, Step, take, spawn, fail, respond, lock, skip, accept, send, unlock,
}

-- The loop holds a peer while all tokens are taken by goroutines that wait for the lock, or for room in a
-- queue that is full.
pub record IsStuck {KadId PublicKey : Type 0} (size : ℕ) (s : System KadId PublicKey) : Type 0 where
  pub kid : KadId
  pub holds : s.held ≡ some kid
  pub no_fetch : s.fetching ≡ 0
  pub offer : Offer KadId
  pub next_kid : KadId
  pub has_offer : s.offering ≡ some offer
  pub is_sending : offer.sending ≡ some next_kid
  pub full_queue : length s.queue ≡ size
  pub full_busy : busy s ≡ size

module _ {KadId PublicKey : Type 0} (pub_key : KadId → PublicKey) ⦃key : Key PublicKey⦄ where
  sending_nothing :
      (size : ℕ) (s : System KadId PublicKey)
      → IsStuck size s
      → (rest : List KadId) → s.offering ≢ some (record { sending = none; rest = rest })
  sending_nothing size s w rest e =
      let same : w.offer ≡ record { sending = none; rest = rest } = cc (w.has_offer, e) in
      cc (w.is_sending, ap (λ (o : Offer KadId). o.sending) same)

  -- In such a state no step is possible: neither the loop nor any goroutine goes on, and `Bootstrap` does
  -- not return.
  pub stuck : (size : ℕ) (s r : System KadId PublicKey) → IsStuck size s → ¬ Step pub_key size s r
  stuck size s _ w (take kid queue free e) = cc (w.holds, free)
  stuck size s _ w (spawn kid e room) = omega (arith, w.full_busy)
  stuck size s _ w (fail n e) = cc (w.no_fetch, e)
  stuck size s _ w (respond n closest e) = cc (w.no_fetch, e)
  stuck size s _ w (lock before after closest free e) = cc (w.has_offer, free)
  stuck size s _ w (skip kid rest e seen) = absurd (sending_nothing _ s w _ e)
  stuck size s _ w (accept kid rest e new) = absurd (sending_nothing _ s w _ e)
  stuck size s _ w (send kid rest e room) = omega (arith, w.full_queue)
  stuck size s _ w (unlock e) = absurd (sending_nothing _ s w _ e)
