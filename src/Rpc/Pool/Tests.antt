-- ===== src/Rpc/Pool/Tests.antt =====
-- A context is used for the stream 3, which answers with a header, and then again.
use carlo.Common.{ℕ, ◌≡◌, refl, true, [], ◌∷◌, none, some}
use carlo.Rpc.Pool.{
  PooledContext, Args, acquire, release, System, acquire_new, change, put, Reach, here, next,
}
use carlo.Rpc.Pool.Fresh.{acquire_fresh}

abbrev first : Args ℕ
first = record { kad_id = 9; headers = none; body = some 1; stream_id = 3; conn = some 4 }

abbrev second : Args ℕ
second = record { kad_id = 8; headers = some []; body = some 2; stream_id = 5; conn = some 6 }

abbrev answered : PooledContext ℕ
answered = record (acquire 0 none first) {
  context = record { stream_id = 3; response_headers = ((0x61 ∷ []), []) ∷ []; written = true };
}

abbrev released : System ℕ
released = record { pool = release answered ∷ []; used = [] }

released_reach : Reach 0 released
released_reach =
    next (next (next here (acquire_new first)) (change [] [] (acquire 0 none first) answered refl))
      (put [] [] answered refl)

acquire_fresh_example : acquire 0 (some (release answered)) second ≡ acquire 0 none second
acquire_fresh_example = acquire_fresh 0 released [] [] (release answered) second released_reach refl
