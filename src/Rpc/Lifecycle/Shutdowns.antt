-- ===== src/Rpc/Lifecycle/Shutdowns.antt =====
-- When `Shutdown` panics.
use carlo.Common.{subst, true, false, none, some, Outcome, ok, panic, ◌≡◌, ◌↔◌, refl, arith}
use carlo.Rpc.Lifecycle.{
  Lifecycle, begin_start, set_server, begin_shutdown, shut_server, Step, starts, sets, shuts, stops,
  Reach, here, next,
}

-- The server is made by one thread and closed by one, and a thread that makes or closes it has used the
-- `Once` before.
record IsOrdered (s : Lifecycle) : Type 0 where
  started : s.start_used ≡ false → (s.srv ≡ none) × (s.starting ≡ false)
  made_once : s.starting ≡ true → s.srv ≡ none
  closed : s.srv ≡ some true → (s.stop_used ≡ true) × (s.stopping ≡ false)
  unstopped : s.stop_used ≡ false → s.stopping ≡ false

begin_start-IsOrdered : (s : Lifecycle) → IsOrdered s → IsOrdered (begin_start s).1
unfolding begin_start
begin_start-IsOrdered s w = ground arith

set_server-IsOrdered : (s : Lifecycle) → s.starting ≡ true → IsOrdered s → IsOrdered (set_server s)
unfolding set_server
set_server-IsOrdered s e w = ground arith

begin_shutdown-IsOrdered : (s : Lifecycle) → IsOrdered s → IsOrdered (begin_shutdown s)
unfolding begin_shutdown
begin_shutdown-IsOrdered s w = ground arith

shut_server-IsOrdered :
    (s r : Lifecycle) → s.stopping ≡ true → shut_server s ≡ ok r → IsOrdered s → IsOrdered r
unfolding shut_server
shut_server-IsOrdered s r e same w = ground arith

ok_eq : {s r : Lifecycle} → ok s ≡ ok r → s ≡ r
ok_eq e = cc e

Step-IsOrdered :
    (s : Lifecycle) (o : Outcome Lifecycle)
    → Step s o
    → IsOrdered s
    → (r : Lifecycle) → o ≡ ok r
    → IsOrdered r
Step-IsOrdered s _ starts w r e = subst IsOrdered (ok_eq e) (begin_start-IsOrdered s w)
Step-IsOrdered s _ (sets b) w r e = subst IsOrdered (ok_eq e) (set_server-IsOrdered s b w)
Step-IsOrdered s _ shuts w r e = subst IsOrdered (ok_eq e) (begin_shutdown-IsOrdered s w)
Step-IsOrdered s _ (stops b) w r e = shut_server-IsOrdered s r b e w

Reach-IsOrdered : (s : Lifecycle) → Reach s → IsOrdered s
Reach-IsOrdered s here = record {
  started = λ _. (refl, refl);
  made_once = λ e. cc;
  closed = λ e. cc e;
  unstopped = λ _. refl;
}
Reach-IsOrdered s (next {s = q} reach step) =
    Step-IsOrdered q (ok s) step (Reach-IsOrdered q reach) s refl

-- In every reachable state in which a thread is about to shut the server down, it panics exactly if there
-- is no server: the server's `done` is never closed twice.
pub shut_server-panic_iff :
    (s : Lifecycle) → Reach s → s.stopping ≡ true → (shut_server s ≡ panic) ↔ (s.srv ≡ none)
unfolding shut_server
shut_server-panic_iff s reach busy =
    let w = Reach-IsOrdered s reach in ground (arith, w.closed, busy)

-- After a `Shutdown` that came first, `Start` is refused, and the next `Shutdown` panics: it goes on to a
-- server that was never made.
pub begin_shutdown-shut_server :
    (s : Lifecycle)
    → Reach s
    → s.start_used ≡ false
    → s.stop_used ≡ false
    → ((begin_start (begin_shutdown s)).0 ≡ false)
      × ((begin_shutdown (begin_shutdown s)).stopping ≡ true)
      × (shut_server (begin_shutdown (begin_shutdown s)) ≡ panic)
unfolding begin_start begin_shutdown shut_server
begin_shutdown-shut_server s reach fresh running =
    let w = Reach-IsOrdered s reach in ground (arith, w.started fresh, fresh, running)
