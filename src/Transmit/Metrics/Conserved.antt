-- ===== src/Transmit/Metrics/Conserved.antt =====
-- No increment of the counters is lost or counted twice.
use carlo.Common.{ℕ, ◌+◌, ◌%◌, ◌^◌, ◌≡◌, refl, arith}
use carlo.Transmit.Metrics.{
  Place, has_na, has_nr, has_np, System, Step, acquire_new, acquire_reused, put_back, swap_na,
  add_naa, swap_nr, add_nra, swap_np, add_npa, Reach, here, next,
}

-- The value that `setMetrics` has taken from a counter and not added yet.
abbrev pub held_na : Place → ℕ
held_na (has_na v) = v
held_na _ = 0

abbrev pub held_nr : Place → ℕ
held_nr (has_nr v) = v
held_nr _ = 0

abbrev pub held_np : Place → ℕ
held_np (has_np v) = v
held_np _ = 0

-- A counter, what was taken from it and what is accumulated make up the increments, on 32 bits.
pub record IsConserved (s : System) : Type 0 where
  pub new_ones : (s.metrics.na + held_na s.place + s.metrics.naa) % 2 ^ 32 ≡ s.acquires % 2 ^ 32
  pub reused : (s.metrics.nr + held_nr s.place + s.metrics.nra) % 2 ^ 32 ≡ s.reuses % 2 ^ 32
  pub released : (s.metrics.np + held_np s.place + s.metrics.npa) % 2 ^ 32 ≡ s.releases % 2 ^ 32

incremented :
    (n h a c : ℕ)
    → (n + h + a) % 2 ^ 32 ≡ c % 2 ^ 32
    → ((n + 1) % 2 ^ 32 + h + a) % 2 ^ 32 ≡ (c + 1) % 2 ^ 32
incremented n h a c e = omega (arith, e)

accumulated :
    (n v a c : ℕ)
    → (n + v + a) % 2 ^ 32 ≡ c % 2 ^ 32
    → (n + 0 + (a + v) % 2 ^ 64) % 2 ^ 32 ≡ c % 2 ^ 32
accumulated n v a c e = omega (arith, e)

swapped : (n a c : ℕ) → (n + 0 + a) % 2 ^ 32 ≡ c % 2 ^ 32 → (0 + n + a) % 2 ^ 32 ≡ c % 2 ^ 32
swapped n a c e = omega (arith, e)

Step-IsConserved : (s r : System) → Step s r → IsConserved s → IsConserved r
Step-IsConserved s _ acquire_new w = record {
  new_ones = incremented s.metrics.na (held_na s.place) s.metrics.naa s.acquires w.new_ones;
  reused = w.reused;
  released = w.released;
}
Step-IsConserved s _ acquire_reused w = record {
  new_ones = w.new_ones;
  reused = incremented s.metrics.nr (held_nr s.place) s.metrics.nra s.reuses w.reused;
  released = w.released;
}
Step-IsConserved s _ put_back w = record {
  new_ones = w.new_ones;
  reused = w.reused;
  released = incremented s.metrics.np (held_np s.place) s.metrics.npa s.releases w.released;
}
Step-IsConserved s _ (swap_na e) w = record {
  new_ones = swapped s.metrics.na s.metrics.naa s.acquires (rw e at w.new_ones);
  reused = rw e at w.reused;
  released = rw e at w.released;
}
Step-IsConserved s _ (add_naa v e) w = record {
  new_ones = accumulated s.metrics.na v s.metrics.naa s.acquires (rw e at w.new_ones);
  reused = rw e at w.reused;
  released = rw e at w.released;
}
Step-IsConserved s _ (swap_nr e) w = record {
  new_ones = rw e at w.new_ones;
  reused = swapped s.metrics.nr s.metrics.nra s.reuses (rw e at w.reused);
  released = rw e at w.released;
}
Step-IsConserved s _ (add_nra v e) w = record {
  new_ones = rw e at w.new_ones;
  reused = accumulated s.metrics.nr v s.metrics.nra s.reuses (rw e at w.reused);
  released = rw e at w.released;
}
Step-IsConserved s _ (swap_np e) w = record {
  new_ones = rw e at w.new_ones;
  reused = rw e at w.reused;
  released = swapped s.metrics.np s.metrics.npa s.releases (rw e at w.released);
}
Step-IsConserved s _ (add_npa v e) w = record {
  new_ones = rw e at w.new_ones;
  reused = rw e at w.reused;
  released = accumulated s.metrics.np v s.metrics.npa s.releases (rw e at w.released);
}

-- In every reachable state, each of the three counters, the value taken from it by a collection under way,
-- and its accumulated counter make up the number of its increments, on 32 bits: none is lost between
-- the swap and the addition, and none is counted twice.
pub metrics-IsConserved : (s : System) → Reach s → IsConserved s
metrics-IsConserved s here = record { new_ones = refl; reused = refl; released = refl }
metrics-IsConserved s (next {s = r} reach step) =
    Step-IsConserved r s step (metrics-IsConserved r reach)
