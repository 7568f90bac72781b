-- ===== src/Rpc/Bootstrap/Tests.antt =====
-- `Bootstrap` at concrete values: channels for one value, a first peer 1, and an answer that names the
-- peers 2, 3 and 4. A peer is its own key, and that of the node is 0.
use carlo.Common.{ℕ, zero, suc, ◌≡◌, refl, List, [], ◌∷◌, ◌++◌, map, none, some, arith, nat_key}
use carlo.Rpc.Bootstrap.{
  System, visit, start, accept_peer, Step, take, spawn, fail, respond, lock, accept, send, Reach,
  here, next,
}
use carlo.Rpc.Bootstrap.Visits.{IsOrdered, visits_once, probes_all, entry}
use carlo.Rpc.Bootstrap.Deadlock.{key_of, deadlock}
use carlo.Rpc.Bootstrap.Stuck.{IsStuck, stuck}

abbrev S : Type 0
S = System ℕ ℕ

abbrev visited_to : ℕ → List (ℕ × Unit {0})
visited_to zero = (0, tt) ∷ []
visited_to (suc n) = visited_to n ++ (suc n, tt) ∷ []

-- The peer 1 was probed, and its goroutine waits for the network.
abbrev fetching : S
fetching = record {
  queue = [];
  held = none;
  fetching = 1;
  waiting = [];
  offering = none;
  visited = visited_to 1;
  results = [];
  probed = 1 ∷ [];
}

fetching_reach : Reach key_of 1 0 (1 ∷ []) fetching
unfolding start visit
fetching_reach = next (next here (take 1 [] refl refl)) (spawn 1 refl (omega arith))

-- The first answer has come, and of its peers 2 is queued.
abbrev offering : S
offering = record fetching {
  queue = 2 ∷ [];
  fetching = 0;
  offering = some (record { sending = none; rest = 3 ∷ 4 ∷ [] });
  visited = visited_to 2;
  results = 2 ∷ [];
}

offering_reach : Reach key_of 1 0 (1 ∷ []) offering
unfolding accept_peer
offering_reach =
    next
      (next (next (next fetching_reach (respond 0 (2 ∷ 3 ∷ 4 ∷ []) refl)) (lock [] [] _ refl refl))
        (accept 2 (3 ∷ 4 ∷ []) refl refl))
      (send 2 (3 ∷ 4 ∷ []) refl (omega arith))

-- The loop holds 2, the queue is full with 3, and the goroutine waits to put 4 into it.
abbrev blocked : S
blocked = record offering {
  queue = 3 ∷ [];
  held = some 2;
  offering = some (record { sending = some 4; rest = [] });
  visited = visited_to 4;
  results = 2 ∷ 3 ∷ 4 ∷ [];
}

blocked_reach : Reach key_of 1 0 (1 ∷ []) blocked
unfolding accept_peer
blocked_reach =
    next
      (next (next (next offering_reach (take 2 [] refl refl)) (accept 3 (4 ∷ []) refl refl))
        (send 3 (4 ∷ []) refl (omega arith)))
      (accept 4 [] refl refl)

blocked-IsStuck : IsStuck 1 blocked
blocked-IsStuck = record {
  kid = 2;
  holds = refl;
  no_fetch = refl;
  offer = record { sending = some 4; rest = [] };
  next_kid = 4;
  has_offer = refl;
  is_sending = refl;
  full_queue = refl;
  full_busy = refl;
}

visits_once_example : IsOrdered key_of 0 (1 ∷ []) blocked
visits_once_example = visits_once key_of 1 0 (1 ∷ []) blocked ((refl, tt), (tt, tt)) blocked_reach

stuck_example : ¬ Step key_of 1 blocked blocked
stuck_example = stuck key_of 1 blocked blocked blocked-IsStuck

-- The probe of the peer 1 has failed.
abbrev over : S
over = record fetching { fetching = 0 }

probes_all_example : map (entry key_of) over.probed ≡ map (entry key_of) ((1 ∷ []) ++ over.results)
probes_all_example =
    probes_all key_of 1 0 (1 ∷ []) over ((refl, tt), (tt, tt)) (next fetching_reach (fail 0 refl))
      refl refl refl

-- The capacity that the code takes.
deadlock_example :
    (s : System ℕ ℕ) × Reach key_of 16 0 (1 ∷ []) s × ((r : System ℕ ℕ) → ¬ Step key_of 16 s r)
deadlock_example = deadlock 15
