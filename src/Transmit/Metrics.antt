-- ===== src/Transmit/Metrics.antt =====
-- streaming_transmit/poolmetrics.go: the counters of a pool, which the pool's callers increment, and
-- `setMetrics`, which moves them into the accumulated ones. Every atomic operation is a step.
pub mod Conserved
mod Tests
use carlo.Common.{ℕ, ◌+◌, ◌%◌, ◌^◌, ◌≡◌}

pub record PoolMetrics : Type 0 where
  pub na : ℕ
  pub nr : ℕ
  pub np : ℕ
  pub naa : ℕ
  pub nra : ℕ
  pub npa : ℕ

abbrev pub new_pool_metrics : PoolMetrics
new_pool_metrics = record { na = 0; nr = 0; np = 0; naa = 0; nra = 0; npa = 0 }

-- Where `setMetrics` is: before the line of a counter, or with the value that its swap returned.
pub data Place : Type 0 where
  at_na : Place
  has_na : ℕ → Place
  at_nr : Place
  has_nr : ℕ → Place
  at_np : Place
  has_np : ℕ → Place

-- The counters with the goroutine that collects them, and how often each was incremented.
pub record System : Type 0 where
  pub metrics : PoolMetrics
  pub place : Place
  pub acquires : ℕ
  pub reuses : ℕ
  pub releases : ℕ

abbrev pub start : System
start = record { metrics = new_pool_metrics; place = at_na; acquires = 0; reuses = 0; releases = 0 }

-- `atomic.AddUint32(&x, uint32(1))`
abbrev pub add_uint32 : ℕ → ℕ
add_uint32 n = (n + 1) % 2 ^ 32

-- `atomic.AddUint64(&x, uint64(v))`
abbrev pub add_uint64 : ℕ → ℕ → ℕ
add_uint64 v n = (n + v) % 2 ^ 64

pub data Step (s : System) : System → Type 0 where
  -- The increments of `acquire` without and with an object in the pool, and of `release`.
  acquire_new : Step s (record s {
    metrics = record s.metrics { na = add_uint32 s.metrics.na };
    acquires = s.acquires + 1;
  })
  acquire_reused : Step s (record s {
    metrics = record s.metrics { nr = add_uint32 s.metrics.nr };
    reuses = s.reuses + 1;
  })
  put_back : Step s (record s {
    metrics = record s.metrics { np = add_uint32 s.metrics.np };
    releases = s.releases + 1;
  })
  -- The swap and the addition of each line of `setMetrics`, which starts again at the next tick.
  swap_na :
      s.place ≡ at_na
      → Step s (record s { metrics = record s.metrics { na = 0 }; place = has_na s.metrics.na })
  add_naa :
      (v : ℕ)
      → s.place ≡ has_na v
      → Step s (record s {
        metrics = record s.metrics { naa = add_uint64 v s.metrics.naa };
        place = at_nr;
      })
  swap_nr :
      s.place ≡ at_nr
      → Step s (record s { metrics = record s.metrics { nr = 0 }; place = has_nr s.metrics.nr })
  add_nra :
      (v : ℕ)
      → s.place ≡ has_nr v
      → Step s (record s {
        metrics = record s.metrics { nra = add_uint64 v s.metrics.nra };
        place = at_np;
      })
  swap_np :
      s.place ≡ at_np
      → Step s (record s { metrics = record s.metrics { np = 0 }; place = has_np s.metrics.np })
  add_npa :
      (v : ℕ)
      → s.place ≡ has_np v
      → Step s (record s {
        metrics = record s.metrics { npa = add_uint64 v s.metrics.npa };
        place = at_na;
      })

pub data Reach : System → Type 0 where
  here : Reach start
  next : {s r : System} → Reach s → Step s r → Reach r
