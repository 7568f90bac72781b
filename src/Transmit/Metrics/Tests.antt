-- ===== src/Transmit/Metrics/Tests.antt =====
-- An object is made, put back and used again while its first use is collected.
use carlo.Common.{refl}
use carlo.Transmit.Metrics.{
  System, at_nr, acquire_new, acquire_reused, put_back, swap_na, add_naa, Reach, here, next,
}
use carlo.Transmit.Metrics.Conserved.{IsConserved, metrics-IsConserved}

abbrev collected : System
collected = record {
  metrics = record { na = 0; nr = 1; np = 1; naa = 1; nra = 0; npa = 0 };
  place = at_nr;
  acquires = 1;
  reuses = 1;
  releases = 1;
}

collected_reach : Reach collected
collected_reach =
    next (next (next (next (next here acquire_new) (swap_na refl)) put_back) acquire_reused)
      (add_naa 1 refl)

metrics-IsConserved_example : IsConserved collected
metrics-IsConserved_example = metrics-IsConserved collected collected_reach
