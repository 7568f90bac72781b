-- ===== src/Rpc/Bootstrap/Deadlock.antt =====
-- `Bootstrap` can come to wait for itself, whatever the capacity of its channels: with one first peer, whose
-- answer names enough others. A peer is its own key here, and that of the node is 0.
use carlo.Common.{
  ℕ, zero, suc, ◌+◌, ◌≤◌, ◌<◌, ◌≡◌, refl, ap, ◌∙◌, subst, List, [], ◌∷◌, ◌++◌, Option, none, some,
  length, length-append, lookup, insert, nat_key, arith, ◌==◌, Bool-cases, inl, inr,
}
use carlo.Rpc.Bootstrap.{
  System, has_lock, visit, start, accept_peer, Step, take, spawn, respond, lock, accept, send,
  Reach, here, next,
}
use carlo.Rpc.Bootstrap.Stuck.{IsStuck, stuck}

abbrev pub key_of : ℕ → ℕ
key_of kid = kid

abbrev count_up : ℕ → ℕ → List ℕ
count_up b zero = []
count_up b (suc n) = b ∷ count_up (suc b) n

abbrev Below : ℕ → List (ℕ × Unit {0}) → Type 0
Below b [] = Unit
Below b ((k, u) ∷ m) = (k < b) × Below b m

lookup-Below : (b : ℕ) (m : List (ℕ × Unit {0})) → Below b m → lookup b m ≡ none
lookup-Below b [] h = refl
lookup-Below b ((k, u) ∷ m) h = ground (arith, h.0, lookup-Below b m h.1)

Below-suc : (b : ℕ) (m : List (ℕ × Unit {0})) → Below b m → Below (suc b) m
Below-suc b [] h = tt
Below-suc b ((k, u) ∷ m) h = (omega (arith, h.0), Below-suc b m h.1)

insert-Below : (b : ℕ) (m : List (ℕ × Unit {0})) → Below b m → Below (suc b) (insert b tt m)
insert-Below b [] h = (omega arith, tt)
insert-Below b ((k, u) ∷ m) h = elim (Bool-cases (k == b)) [
  | inl e ↦ rw e (omega arith, Below-suc b m h.1)
  | inr e ↦ rw e (omega (arith, h.0), insert-Below b m h.1)
]

-- A goroutine has the lock and has still to look at the peers from `b` on, `m` of them; `w` others wait
-- for the lock, and the queue holds `q` peers.
record Offering (size w q b m : ℕ) (held : Option ℕ) (s : System ℕ ℕ) : Type 0 where
  reach : Reach key_of size 0 (1 ∷ []) s
  is_held : s.held ≡ held
  no_fetch : s.fetching ≡ 0
  waits : length s.waiting ≡ w
  queued : length s.queue ≡ q
  offers : s.offering ≡ some (record { sending = none; rest = count_up b m })
  below : Below b s.visited

abbrev Next : ℕ → ℕ → ℕ → ℕ → ℕ → Option ℕ → Type 0
Next size w q b m held = (s : System ℕ ℕ) × Offering size w q b m held s

-- The next peer is put into the queue.
push :
    (size w q b m k : ℕ) (held : Option ℕ)
    → m ≡ suc k
    → q < size
    → Next size w q b m held
    → Next size w (suc q) (suc b) k held
unfolding accept_peer
push size w q b m k held e room (s, o) =
    let rest = count_up (suc b) k in
    let offers : s.offering ≡ some (record { sending = none; rest = b ∷ rest }) =
      o.offers ∙ ap (λ n. some (record { sending = none; rest = count_up b n })) e in
    let reach =
      next (next o.reach (accept b rest offers (lookup-Below b s.visited o.below)))
        (send b rest refl (omega (arith, o.queued))) in
    (
      record (accept_peer key_of b rest s) {
        queue = s.queue ++ b ∷ [];
        offering = some (record { sending = none; rest = rest });
      },
      record {
        reach = reach;
        is_held = o.is_held;
        no_fetch = o.no_fetch;
        waits = o.waits;
        queued = omega (arith, length-append s.queue (b ∷ []), o.queued);
        offers = refl;
        below = insert-Below b s.visited o.below;
      },
    )

nonempty : (l : List ℕ) (q : ℕ) → length l ≡ suc q → (kid : ℕ) × (rest : List ℕ) × (l ≡ kid ∷ rest)
nonempty [] q e = absurd (omega (arith, e))
nonempty (kid ∷ rest) q e = (kid, rest, refl)

-- The loop takes a peer.
take_one :
    (size w q b m : ℕ) → Next size w (suc q) b m none → (kid : ℕ) × Next size w q b m (some kid)
take_one size w q b m (s, o) =
    let (kid, rest, e) = nonempty s.queue q o.queued in
    (
      kid,
      (
        record s { queue = rest; held = some kid },
        record {
          reach = next o.reach (take kid rest o.is_held e);
          is_held = refl;
          no_fetch = o.no_fetch;
          waits = o.waits;
          queued = omega (arith, o.queued, ap length e);
          offers = o.offers;
          below = o.below;
        },
      ),
    )

-- The loop starts a goroutine, whose answer comes and names nobody.
spawn_one :
    (size w q b m kid : ℕ)
    → w + 1 < size
    → Next size w q b m (some kid)
    → Next size (suc w) q b m none
spawn_one size w q b m kid room (s, o) =
    let locked : has_lock s.offering ≡ 1 = ap has_lock o.offers in
    let fetching : s.fetching + 1 ≡ suc 0 = omega (arith, o.no_fetch) in
    (
      record s {
        held = none;
        fetching = 0;
        waiting = s.waiting ++ [] ∷ [];
        probed = s.probed ++ kid ∷ [];
      },
      record {
        reach =
            next (next o.reach (spawn kid o.is_held (omega (arith, o.no_fetch, o.waits, locked))))
              (respond 0 [] fetching);
        is_held = refl;
        no_fetch = refl;
        waits = omega (arith, length-append {A = List ℕ} s.waiting ([] ∷ []), o.waits);
        queued = o.queued;
        offers = o.offers;
        below = o.below;
      },
    )

-- The first peer has answered with the peers from 2 on, and its goroutine has the lock.
begin : (size m : ℕ) → 0 < size → Next size 0 0 2 m none
unfolding start visit
begin size m room = (
  record {
    queue = [];
    held = none;
    fetching = 0;
    waiting = [];
    offering = some (record { sending = none; rest = count_up 2 m });
    visited = (0, tt) ∷ (1, tt) ∷ [];
    results = [];
    probed = 1 ∷ [];
  },
  record {
    reach =
        next
          (next (next (next here (take 1 [] refl refl)) (spawn 1 refl (omega (arith, room))))
            (respond 0 (count_up 2 m) refl))
          (lock [] [] (count_up 2 m) refl refl);
    is_held = refl;
    no_fetch = refl;
    waits = refl;
    queued = refl;
    offers = refl;
    below = omega arith;
  },
)

recast :
    (size w q b m w' q' b' m' : ℕ) (held : Option ℕ)
    → w ≡ w'
    → q ≡ q'
    → b ≡ b'
    → m ≡ m'
    → Next size w q b m held
    → Next size w' q' b' m' held
recast size w q b m w' q' b' m' held ew eq eb em s =
    subst (λ x. Next size x q' b' m' held) ew
      (subst (λ x. Next size w x b' m' held) eq
        (subst (λ x. Next size w q x m' held) eb (subst (λ x. Next size w q b x held) em s)))

-- `n` more goroutines wait for the lock.
wait_more :
    (n size w b m k : ℕ)
    → m ≡ n + k
    → w + n < size
    → Next size w 0 b m none
    → Next size (n + w) 0 (n + b) k none
wait_more zero size w b m k e room s =
    recast size w 0 b m (0 + w) 0 (0 + b) k none (omega arith) refl (omega arith) (omega (arith, e))
      s
wait_more (suc n) size w b m k e room s =
    let pushed = push size w 0 b m (n + k) none (omega (arith, e)) (omega (arith, room)) s in
    let (kid, held) = take_one size w 0 (suc b) (n + k) pushed in
    let waiting = spawn_one size w 0 (suc b) (n + k) kid (omega (arith, room)) held in
    let more = wait_more n size (suc w) (suc b) (n + k) k refl (omega (arith, room)) waiting in
    recast size (n + suc w) 0 (n + suc b) k (suc n + w) 0 (suc n + b) k none (omega arith) refl
      (omega arith) refl more

-- `n` more peers are in the queue.
queue_more :
    (n size w q b m k : ℕ) (held : Option ℕ)
    → m ≡ n + k
    → q + n ≤ size
    → Next size w q b m held
    → Next size w (n + q) (n + b) k held
queue_more zero size w q b m k held e room s =
    recast size w q b m w (0 + q) (0 + b) k held refl (omega arith) (omega arith) (omega (arith, e))
      s
queue_more (suc n) size w q b m k held e room s =
    let pushed = push size w q b m (n + k) held (omega (arith, e)) (omega (arith, room)) s in
    let more =
      queue_more n size w (suc q) (suc b) (n + k) k held refl (omega (arith, room)) pushed in
    recast size w (n + suc q) (n + suc b) k w (suc n + q) (suc n + b) k held refl (omega arith)
      (omega arith) refl more

-- Whatever the capacity of the two channels, if it is at least 1, `Bootstrap` with one first peer
-- can come to a state from which neither the loop nor any goroutine goes on.
pub deadlock :
    (n : ℕ)
    → (s : System ℕ ℕ) × Reach key_of (suc n) 0 (1 ∷ []) s
      × ((r : System ℕ ℕ) → ¬ Step key_of (suc n) s r)
unfolding accept_peer
deadlock n =
    let size = suc n in
    let left = suc n + 1 in
    let first = begin size (n + suc left) (omega arith) in
    let waiting = wait_more n size 0 2 (n + suc left) (suc left) refl (omega arith) first in
    let pushed = push size (n + 0) 0 (n + 2) (suc left) left none refl (omega arith) waiting in
    let (kid, held) = take_one size (n + 0) 0 (suc (n + 2)) left pushed in
    let (s, o) =
      queue_more (suc n) size (n + 0) 0 (suc (n + 2)) left 1 (some kid) refl (omega arith) held in
    let b : ℕ = suc n + suc (n + 2) in
    let blocked : IsStuck size (accept_peer key_of b [] s) = record {
      kid = kid;
      holds = o.is_held;
      no_fetch = o.no_fetch;
      offer = record { sending = some b; rest = [] };
      next_kid = b;
      has_offer = refl;
      is_sending = refl;
      full_queue = omega (arith, o.queued);
      full_busy = omega (arith, o.no_fetch, o.waits);
    } in
    (
      accept_peer key_of b [] s,
      next o.reach (accept b [] o.offers (lookup-Below b s.visited o.below)),
      λ r. stuck key_of size (accept_peer key_of b [] s) r blocked,
    )
